-- ===== src/Deliveries/Tests.antt =====
-- A card for a user, ensured, prepared and sent.
use footjob.Base.{List, [], any, arith, codes, false, find, none, ok, refl, some, str_eq}
use footjob.Base.{true, ℕ, ◌↔◌, ◌∷◌, ◌≡◌}
use footjob.Billing.{EntitlementState, EntitlementDecision}
use footjob.Jobs
use footjob.Jobs.Row.{Job, JobClaim}
use footjob.Deliveries.{Store, MatchTrace, User, LeadCard, prepare_attempt, has_job}
use footjob.Deliveries.Cards.{Digest, ensure, new_delivery, delivery_schema_version}
use footjob.Deliveries.Row.{Delivery, DeliveryStatus, Eligibility, checks}
use footjob.Deliveries.Steps.{
  Call, prepares, marks_sent, marks_failed, ensures, run, IsValid, Keeps,
}
use footjob.Deliveries.Eligible.{MaySend, IsReady, HandsOut, prepare_attempt-MaySend}
use footjob.Deliveries.Kept.{run-Keeps}
use footjob.Deliveries.Row.{sent_values, sending_values}
use footjob.Deliveries.Processing.{process, receipt, raised, Processed}
use footjob.Deliveries.Once.{process_once}
use footjob.Deliveries.Scheduling.{Reading, schedule_run, DeliveryScheduleReport}
use footjob.Deliveries.Scheduled.{Scheduled}
use footjob.Deliveries.Ensuring.{ensure_again}

abbrev digest : Digest
digest version opportunity profile revision = version

abbrev trace : MatchTrace
trace = record {
  id = 4;
  run_id = 5;
  opportunity_id = 6;
  search_profile_id = 7;
  profile_revision = 1;
}

abbrev user : User
user = record { id = 8; platform = codes "telegram"; external_user_id = codes "42" }

abbrev card : LeadCard
card = record {
  schema_version = codes "lead-card.v1";
  opportunity_id = 6;
  match_trace_id = 4;
  search_profile_id = 7;
  profile_revision = 1;
  body_html = codes "A bot is wanted";
  source_url = none;
  parse_mode = codes "html";
  link_preview = false;
}

abbrev queued_delivery : Delivery
queued_delivery = new_delivery 100 1 (codes "lead-card.v1") (codes "42") 2 trace user card 90

abbrev delivery_job : Job
delivery_job =
    record (Jobs.new_job 100 2 0 (codes "telegram.personalized_delivery.v1") (codes "lead-card.v1")
      3) { correlation_id = 1 }

abbrev empty_store : Store
empty_store = record { deliveries = []; jobs = [] }

abbrev store : Store
store = record { deliveries = queued_delivery ∷ []; jobs = delivery_job ∷ [] }

abbrev claim : JobClaim
claim = Jobs.claim_of (codes "a") delivery_job

abbrev row : Eligibility
row = record {
  profile_user_id = 8;
  current_profile_revision = 1;
  is_confirmed = true;
  is_active = true;
  is_primary = true;
  current_recipient_platform = codes "telegram";
  current_external_user_id = codes "42";
  opportunity_active = true;
  current_last_seen_at = 80;
  trace_eligible = true;
  hard_filter_eligible = true;
  decision_eligible = true;
  opportunity_last_seen_at = 80;
}

abbrev entitled : EntitlementDecision
entitled = record {
  state = EntitlementState.trial_active;
  can_receive_deliveries = true;
  evaluated_at = 120;
  trial_started_at = some 20;
  trial_expires_at = some 200;
  trial_policy_version = some (codes "v1");
  subscription_state = none;
  paid_period_id = none;
  paid_provider = none;
  paid_period_start_at = none;
  paid_period_end_at = none;
}

queued_delivery-checks : checks queued_delivery ≡ true
unfolding checks new_delivery footjob.Deliveries.Row.fixed_checks footjob.Base.str_eq
queued_delivery-checks = refl

ensured : ensure digest 100 1 2 trace user card 90 empty_store ≡ ok (store, (queued_delivery, true))
unfolding ensure new_delivery footjob.Deliveries.Cards.telegram_chat_id footjob.Base.str_eq
    footjob.Deliveries.Cards.belongs footjob.Deliveries.Cards.ensure_identity
    footjob.Deliveries.Cards.get_by_logical_identity footjob.Deliveries.Cards.first_of
    footjob.Deliveries.Cards.create footjob.Deliveries.Cards.enqueue_delivery Jobs.enqueue
    footjob.Jobs.Row.enqueued_fields_valid footjob.Deliveries.Cards.delivery_idempotency_key
    footjob.Deliveries.Cards.record_delivery footjob.Deliveries.Cards.insert_delivery checks
    footjob.Deliveries.Row.fixed_checks footjob.Deliveries.Cards.same_content
    footjob.Deliveries.Cards.validate_existing footjob.Deliveries.Cards.validated
ensured = refl

store-IsValid : IsValid store.deliveries
unfolding any
store-IsValid = record {
  checked = (queued_delivery-checks, tt);
  ids = (refl, tt);
  job_ids = (refl, tt);
  keys = (refl, tt);
  traces = (refl, tt);
}

abbrev calls : List (ℕ × Call)
calls =
    (120, prepares claim row entitled)
    ∷ (121, ensures 9 10 trace user card 119)
    ∷ (122, marks_sent claim 77)
    ∷ (123, marks_failed claim (codes "Timeout"))
    ∷ []

run-Keeps_example : Keeps store.deliveries (run digest store calls).deliveries
run-Keeps_example = run-Keeps digest store calls store-IsValid

prepare_attempt-MaySend_example :
    (IsReady claim queued_delivery × MaySend queued_delivery row entitled)
    ↔ HandsOut 120 claim row entitled store queued_delivery
unfolding find new_delivery
prepare_attempt-MaySend_example =
    prepare_attempt-MaySend 120 claim row entitled store queued_delivery refl queued_delivery-checks
      (omega arith)

ensure_again_example :
    ensure digest 150 11 12 trace user card 140 store ≡ ok (store, (queued_delivery, false))
ensure_again_example =
    ensure_again trace user card empty_store tt digest 100 1 2 90 150 11 12 140 ensured

-- The delivery as the first attempt leaves it, sent at 125.
abbrev sent_delivery : Delivery
sent_delivery = record queued_delivery {
  status = DeliveryStatus.sent;
  attempt_count = 1;
  last_attempt_at = some 120;
  telegram_message_id = some 77;
  sent_at = some 125;
  updated_at = 125;
}

-- While the message is sent, the card is ensured once more.
abbrev meanwhile : List (ℕ × Call)
meanwhile = (121, ensures 9 10 trace user card 119) ∷ []

abbrev first_run : Processed
first_run = process digest 120 claim row entitled meanwhile 125 (receipt 77) store

first_run-sent : first_run.result ≡ ok (some sent_delivery)
unfolding process ensure new_delivery prepare_attempt footjob.Deliveries.prepare_current
    footjob.Deliveries.is_over footjob.Deliveries.attempt_on footjob.Deliveries.Row.suppression_code
    footjob.Deliveries.update checks footjob.Deliveries.Row.fixed_checks sending_values
    footjob.Deliveries.mark_sent footjob.Deliveries.sent_now run footjob.Deliveries.Steps.step
    footjob.Deliveries.Cards.telegram_chat_id footjob.Deliveries.Cards.belongs
    footjob.Deliveries.Cards.ensure_identity footjob.Deliveries.Cards.get_by_logical_identity
    footjob.Deliveries.Row.positive_id sent_values footjob.Deliveries.Cards.first_of
    footjob.Deliveries.Cards.logical_identity footjob.Deliveries.owned
    footjob.Deliveries.Cards.same_content footjob.Deliveries.Cards.validate_existing
    footjob.Deliveries.Cards.validated
first_run-sent = refl

process_once_example :
    process digest 130 claim row entitled [] 135
      (raised (codes "Timeout"))
      (run digest first_run.store calls)
    ≡ record {
      store = run digest first_run.store calls;
      message = none;
      result = ok (some sent_delivery);
    }
unfolding footjob.Deliveries.Row.is_final
process_once_example =
    process_once digest store store-IsValid 120 claim row entitled meanwhile 125 (receipt 77)
      first_run-sent refl calls claim refl refl 130 row entitled [] 135 (raised (codes "Timeout"))

abbrev reading : Reading
reading = record {
  match_trace_id = 4;
  match = some trace;
  profile = ok (record { is_active = true; is_primary = true; revision = 1 });
  user = ok user;
  opportunity_found = true;
  entitlement = ok entitled;
  card = ok card;
  now = 150;
  delivery_id = 11;
  job_id = 12;
}

-- A trace whose user has no access, and the one that was scheduled before.
abbrev readings : List Reading
readings =
    record reading { entitlement = ok (record entitled { can_receive_deliveries = false }) }
    ∷ reading
    ∷ []

abbrev scheduled : Store × DeliveryScheduleReport
scheduled = schedule_run digest 140 readings store
