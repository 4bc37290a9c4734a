-- ===== src/Lib.antt =====
-- The Telegram freelance lead bot: the durable parts of its backend.
--
-- The program collects messages, turns them into opportunities and delivers them to the users who
-- may receive them. PostgreSQL holds its state, and workers share it through these parts:
--
--   * durable jobs: a queue of rows that workers claim under a lease, complete, fail and renew
--     (freelancer_bot/persistence/jobs.py);
--   * billing: whether a trial or a paid period gives access (freelancer_bot/billing.py);
--   * subscriptions: the stored state of a user's subscription, with an event for each change
--     (freelancer_bot/persistence/subscriptions.py);
--   * the entitlement checker, which reconciles the stored state and then decides
--     (freelancer_bot/persistence/entitlements.py);
--   * the payment ledger: verified events and the periods they pay for, after which the
--     subscription is reconciled (freelancer_bot/persistence/payments.py);
--   * the collector's gate: one request to Telegram per account at a time, spaced and held back by
--     FloodWaits (freelancer_bot/persistence/telegram_operation_state.py);
--   * the governor, which waits for the gate, runs one request and gives the gate back
--     (freelancer_bot/telegram_request_governor.py);
--   * matching: which search profiles suit an opportunity and how well
--     (freelancer_bot/matching.py), by labels that are compared word by word
--     (freelancer_bot/lexical_matching.py), and the ranks of the matches of a profile
--     (freelancer_bot/match_decisions.py);
--   * deliveries: a card for a user, with the durable job that sends it
--     (freelancer_bot/persistence/deliveries.py), their scheduling and the processor of that job
--     (freelancer_bot/delivery.py).
--
-- Which file models what:
--
--   * Base and its children: Boolean tests, lists and tables, text, errors and results.
--   * Jobs: `DurableJobRepository`. `enqueue`, `claim_next`, `complete`, `fail`,
--     `release_for_shutdown`, `renew_lease` and `get` are the methods; Jobs/Row holds a row of
--     `durable_jobs`, its CHECK constraints and each statement's part of a row, Jobs/Steps the
--     histories of calls, Jobs/Changes the row updates that a call is made of. The other children
--     hold the proofs, by what they show.
--   * Billing: `evaluate_trial_entitlement` and `evaluate_subscription_entitlement`; Billing/Due
--     states when access is due.
--   * Subscriptions: `SubscriptionRepository`. `reconcile`, `pause`, `cancel` and `resume` are the
--     methods, Subscriptions/Tables the tables and reads, Subscriptions/Histories the histories.
--   * Entitlements: `TrialEntitlementChecker.check`.
--   * Payments: `PaymentRepository.record_verified_event`, with `get_event` and `get_period`.
--   * Collector: `TelegramCollectorOperationRepository`, with `ensure`, `get`, `reserve` and
--     `finish`; Collector/State holds the rows, Collector/Calls the sequences of calls.
--   * Governor: `TelegramRequestGovernor.run`, as `govern`; `wait_for_gate` is its loop, over the
--     rounds that it makes, and `finish_operation` what it does once the operation has ended.
--   * Lexical: `label_similarity`, `label_matches`, `labels_f1` and `labels_have_overlap`;
--     Lexical/Tokens divides a text into concepts, Lexical/Greedy is the loop that pairs.
--   * Matching: `narrow_and_filter_candidates`. Matching/Records holds what is read of an
--     opportunity and a profile, Matching/Filters `evaluate_hard_filters` over the values of
--     Matching/Findings, Matching/Policy the policy and the records of a score, Matching/Components
--     and Matching/Preferences its six components, with Matching/Evidence, and Matching/Scoring
--     `score_candidate_structured` and `score_narrowed_candidates`. Matching/Suitable says when a
--     profile suits an opportunity.
--   * Decisions: `_rank_eligible`, on what it reads of a trace.
--   * Deliveries: `PersonalizedDeliveryRepository`, with `prepare_attempt`, `mark_sent` and
--     `mark_attempt_failed`, and `ensure` in Deliveries/Cards; Deliveries/Row holds a row and its CHECK constraints,
--     Deliveries/Steps the histories of calls, Deliveries/Processing
--     `PersonalizedDeliveryJobProcessor.process`, between whose two transactions others call, and
--     Deliveries/Scheduling `PersonalizedDeliveryService`, `schedule_trace` and `schedule_run`.
--
-- How the code is read:
--
--   * A call of a repository is one transaction, a function from the tables to the tables and the
--     result. The rows are locked, so calls happen one after another, in any order: a history is a
--     list of calls, each with the reading of the database's clock. No row is locked by another
--     call, so SKIP LOCKED has nothing to skip. A call that raises is rolled back.
--   * An instant is a number of microseconds since `datetime.min` in UTC, a duration that may be
--     negative an integer of microseconds. Identifiers are numbers, whose order is that of their
--     text; a fresh one is an argument of the call.
--   * Text is a list of code points. `lower` is exact on the code points that it maps into ASCII;
--     the others stay outside ASCII, where every check that follows refuses them.
--     Matching gets Unicode's normalisation, case mappings and classes as functions.
--   * Amounts of payments are whole hundredths, payloads canonical JSON texts. `Decimal` is computed
--     as its default context does, at 28 digits and half to even, for values that are not negative
--     and below 10 ^ 28; what was quantized to four places is held in ten-thousandths. A `float`
--     is the decimal that `str` shows.
--   * Sets of texts are lists; their order and repetitions do not count.
--   * What `prepare_attempt` reads in its join, what `schedule_trace` reads and renders, and the
--     entitlement decision are arguments. The
--     digest of a delivery's identity is a function of what is digested.
--   * Functions are structural, and a run ends with its list of calls. Only the places of a rounded
--     quotient are sought on fuel: 28 and the denominator are more than the digits that it can need.
--
-- What is not modelled: the providers that verify payments, metrics and logs, the limits on the
-- length of columns, the digest that an event's idempotency key is, columns of constant schema
-- versions, and reports that only read. Type filters are not sorted, since only membership counts.
-- The lease of a request is in whole microseconds. The semantic scores and the decision on each
-- match, the actions on deliveries, the checks of a scoring policy's constructor, and the other
-- components of the program (profiles, sources, discovery, the user interface) have no file here.
pub mod Base
pub mod Jobs
pub mod Billing
pub mod Subscriptions
pub mod Entitlements
pub mod Payments
pub mod Collector
pub mod Governor
pub mod Lexical
pub mod Matching
pub mod Decisions
pub mod Deliveries
