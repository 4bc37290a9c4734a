-- ===== src/Deliveries/Processing.antt =====
-- `PersonalizedDeliveryJobProcessor.process` of freelancer_bot/delivery.py. One transaction prepares
-- the attempt, the message is sent outside of any, and another transaction records how that went;
-- between the two, others make their calls. The buttons of a message are given by the delivery's
-- identifier and whether it has a source.
use footjob.Base.{Bool, List, Option, Result, Str, delivery_send_error, err, find}
use footjob.Base.{if◌then◌else◌, is_some, none, ok, some, str_eq, value_error, ℕ}
use footjob.Billing.{EntitlementDecision}
use footjob.Jobs.Row.{JobClaim}
use footjob.Deliveries.{Store, DeliveryAttempt, prepare_attempt, mark_sent, has_job}
use footjob.Deliveries.Cards.{Digest}
use footjob.Deliveries.{mark_attempt_failed}
use footjob.Deliveries.Cards.{delivery_job_type}
use footjob.Deliveries.Row.{Delivery, Eligibility}
use footjob.Deliveries.Steps.{Call, committed, run}

-- The receipt's message id, or the class of the exception that `send` raised.
pub data SendOutcome : Type 0 where
  receipt : ℕ → SendOutcome
  raised : Str → SendOutcome

pub record TelegramMessage : Type 0 where
  pub recipient_chat_id : Str
  pub body_html : Str
  pub parse_mode : Str
  pub link_preview : Bool
  pub idempotency_key : Str
  pub delivery_id : ℕ
  pub source_available : Bool

-- The tables, the message that was handed to the sender, and what the call returns.
pub record Processed : Type 0 where
  pub store : Store
  pub message : Option TelegramMessage
  pub result : Result (Option Delivery)

unfoldable pub message_of : DeliveryAttempt → TelegramMessage
message_of attempt = record {
  recipient_chat_id = attempt.recipient_chat_id;
  body_html = attempt.delivery.card_body_html;
  parse_mode = attempt.delivery.parse_mode;
  link_preview = attempt.delivery.link_preview;
  idempotency_key = attempt.delivery.idempotency_key;
  delivery_id = attempt.delivery.id;
  source_available = is_some attempt.delivery.source_url;
}

unfoldable pub sent_result : Result (Store × Delivery) → Result (Option Delivery)
sent_result (ok (s, d)) = ok (some d)
sent_result (err e) = err e

-- A failure that was recorded is raised again under its own class.
unfoldable pub failed_result : Result (Store × Delivery) → Result (Option Delivery)
failed_result (ok r) = err delivery_send_error
failed_result (err e) = err e

unfoldable pub settle : ℕ → JobClaim → TelegramMessage → SendOutcome → Store → Processed
unfolding sent_result failed_result
settle now claim message (receipt message_id) s =
    let written = mark_sent now claim message_id s in
    record { store = committed s written; message = some message; result = sent_result written }
settle now claim message (raised failure_code) s =
    let written = mark_attempt_failed now claim failure_code s in
    record { store = committed s written; message = some message; result = failed_result written }

-- What follows the first transaction: the calls of others, then the second one.
unfoldable pub proceed :
    Digest
    → JobClaim
    → List (ℕ × Call)
    → ℕ
    → SendOutcome
    → Store
    → Result (Store × Option DeliveryAttempt)
    → Processed
unfolding find message_of settle
proceed digest claim others later outcome s (err e) = record {
  store = s;
  message = none;
  result = err e;
}
proceed digest claim others later outcome s (ok (s', none)) = record {
  store = s';
  message = none;
  result = ok (find (has_job claim.id) s'.deliveries);
}
proceed digest claim others later outcome s (ok (s', some attempt)) =
    settle later claim (message_of attempt) outcome (run digest s' others)

unfoldable pub process :
    Digest
    → ℕ
    → JobClaim
    → Eligibility
    → EntitlementDecision
    → List (ℕ × Call)
    → ℕ
    → SendOutcome
    → Store
    → Processed
unfolding proceed str_eq
process digest now claim row entitlement others later outcome s =
    if str_eq claim.job_type delivery_job_type
    then proceed digest claim others later outcome s (prepare_attempt now claim row entitlement s)
    else record { store = s; message = none; result = err value_error }
