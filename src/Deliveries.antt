-- ===== src/Deliveries.antt =====
-- `PersonalizedDeliveryRepository` of freelancer_bot/persistence/deliveries.py over the tables
-- `personalized_deliveries` and `durable_jobs`. A method is one transaction: it gets the clock of the
-- database and returns the tables and its result; on an error the transaction is rolled back.
pub mod Row
pub mod Eligible
pub mod Cards
pub mod Steps
mod Updates
pub mod Kept
pub mod Processing
pub mod Once
pub mod Scheduling
pub mod Scheduled
pub mod Ensuring
pub mod Tests
use footjob.Base.{Bool, List, Option, Result, Str, err, find, guard, if◌then◌else◌}
use footjob.Base.{integrity_error, leb, ltb, none, ok, persistence_conflict, some, str_eq}
use footjob.Base.{update_where, value_error, ℕ, ◌&&◌, ◌==◌, ◌>>=◌, ◌>>◌, ◌||◌}
use footjob.Billing.{EntitlementDecision}
use footjob.Jobs.Row.{JobClaim}
use footjob.Jobs
use footjob.Jobs.{Table}
use Row.{DeliveryStatus, Delivery, is_sending, is_sent, is_final, is_chat_id, checks}
use Row.{suppressed_values, sending_values, sent_values, failed_values, Eligibility}
use Row.{suppression_code}

pub record Store : Type 0 where
  pub deliveries : List Delivery
  pub jobs : Table

pub record DeliveryAttempt : Type 0 where
  pub delivery : Delivery
  pub recipient_chat_id : Str

-- What is read of a match trace, of a user and of a lead card.
pub record MatchTrace : Type 0 where
  pub id : ℕ
  pub run_id : ℕ
  pub opportunity_id : ℕ
  pub search_profile_id : ℕ
  pub profile_revision : ℕ

pub record User : Type 0 where
  pub id : ℕ
  pub platform : Str
  pub external_user_id : Str

pub record LeadCard : Type 0 where
  pub schema_version : Str
  pub opportunity_id : ℕ
  pub match_trace_id : ℕ
  pub search_profile_id : ℕ
  pub profile_revision : ℕ
  pub body_html : Str
  pub source_url : Option Str
  pub parse_mode : Str
  pub link_preview : Bool

abbrev pub has_id : ℕ → Delivery → Bool
has_id id d = d.id == id

abbrev pub has_job : ℕ → Delivery → Bool
has_job job_id d = d.job_id == job_id

abbrev pub has_key : Str → Delivery → Bool
has_key key d = str_eq d.idempotency_key key

-- An UPDATE of the rows that pass, refused where the row found breaks a CHECK constraint.
unfoldable pub update : (Delivery → Bool) → (Delivery → Delivery) → Delivery → Store → Result Store
unfolding update_where
update test values d s =
    guard (checks (values d)) integrity_error
    >> ok (record s { deliveries = update_where test values s.deliveries })

-- The last part of `prepare_attempt`, at the suppression code.
unfoldable pub attempt_on :
    ℕ → JobClaim → Delivery → Store → Option Str → Result (Store × Option DeliveryAttempt)
attempt_on now claim current s (some code) =
    update (has_id current.id) (suppressed_values now claim code) current s
    >>= (λ s'. ok (s', none))
attempt_on now claim current s none =
    update (has_id current.id) (sending_values now claim) current s >>= (λ s'. ok (
      s',
      some (record {
        delivery = sending_values now claim current;
        recipient_chat_id = current.recipient_external_user_id;
      }),
    ))

-- The delivery is done, or this attempt of it has begun.
unfoldable pub is_over : JobClaim → Delivery → Bool
unfolding is_final is_sending
is_over claim d =
    is_final d.status || (is_sending d.status && leb claim.attempt_count d.attempt_count)

unfoldable pub prepare_current :
    ℕ
    → JobClaim
    → Eligibility
    → EntitlementDecision
    → Store
    → Option Delivery
    → Result (Store × Option DeliveryAttempt)
prepare_current now claim row entitlement s none = err persistence_conflict
prepare_current now claim row entitlement s (some current) =
    if is_over claim current
    then ok (s, none)
    else attempt_on now claim current s (suppression_code current row entitlement)

-- `int(recipient_external_user_id)` is held as its digits.
unfoldable pub prepare_attempt :
    ℕ
    → JobClaim
    → Eligibility
    → EntitlementDecision
    → Store
    → Result (Store × Option DeliveryAttempt)
unfolding find
prepare_attempt now claim row entitlement s =
    prepare_current now claim row entitlement s (find (has_job claim.id) s.deliveries)

-- The row of the claim's job, in the attempt of the claim.
unfoldable pub owned : JobClaim → Delivery → Bool
owned claim d =
    d.job_id == claim.id && is_sending d.status && d.attempt_count == claim.attempt_count

unfoldable pub sent_before : Option Delivery → Store → Result (Store × Delivery)
unfolding is_sent
sent_before none s = err persistence_conflict
sent_before (some existing) s =
    if is_sent existing.status then ok (s, existing) else err persistence_conflict

unfoldable pub sent_now : ℕ → JobClaim → ℕ → Store → Option Delivery → Result (Store × Delivery)
unfolding find
sent_now now claim telegram_message_id s none = sent_before (find (has_job claim.id) s.deliveries) s
sent_now now claim telegram_message_id s (some d) =
    update (owned claim) (sent_values now telegram_message_id) d s
    >>= (λ s'. ok (s', sent_values now telegram_message_id d))

-- A message id that is not positive is refused, as 0 is here.
unfoldable pub mark_sent : ℕ → JobClaim → ℕ → Store → Result (Store × Delivery)
unfolding find
mark_sent now claim telegram_message_id s =
    guard (ltb 0 telegram_message_id) value_error
    >> sent_now now claim telegram_message_id s (find (owned claim) s.deliveries)

unfoldable pub failed_now : ℕ → JobClaim → Str → Store → Option Delivery → Result (Store × Delivery)
failed_now now claim failure_code s none = err persistence_conflict
failed_now now claim failure_code s (some d) =
    update (owned claim) (failed_values now claim failure_code) d s
    >>= (λ s'. ok (s', failed_values now claim failure_code d))

unfoldable pub mark_attempt_failed : ℕ → JobClaim → Str → Store → Result (Store × Delivery)
unfolding find
mark_attempt_failed now claim failure_code s =
    failed_now now claim failure_code s (find (owned claim) s.deliveries)
