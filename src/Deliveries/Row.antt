-- ===== src/Deliveries/Row.antt =====
-- A row of `personalized_deliveries` with its CHECK constraints
-- (freelancer_bot/persistence/schema.py), and what each statement of
-- freelancer_bot/persistence/deliveries.py writes to it. The formats of the digest and of the two
-- versions are left out: the code writes no others.
use footjob.Base.{Bool, Option, Str, [], all_chars, codes, false, if◌then◌else◌}
use footjob.Base.{is_ascii_digit, is_none, is_some, leb, length, ltb, none, not, some, str_eq}
use footjob.Base.{true, ℕ, ◌&&◌, ◌==◌, ◌||◌, ◌∷◌}
use footjob.Billing.{EntitlementDecision, failure_code}
use footjob.Jobs.Row.{JobClaim, safe_failure_code}

pub data DeliveryStatus : Type 0 where
  queued sending sent failed suppressed : DeliveryStatus

pub record Delivery : Type 0 where
  pub id : ℕ
  pub idempotency_key : Str
  pub schema_version : Str
  pub renderer_schema_version : Str
  pub match_trace_id : ℕ
  pub match_run_id : ℕ
  pub opportunity_id : ℕ
  pub search_profile_id : ℕ
  pub profile_revision : ℕ
  pub user_id : ℕ
  pub recipient_platform : Str
  pub recipient_external_user_id : Str
  pub job_id : ℕ
  pub status : DeliveryStatus
  pub card_body_html : Str
  pub source_url : Option Str
  pub parse_mode : Str
  pub link_preview : Bool
  pub rendered_at : ℕ
  pub attempt_count : ℕ
  pub last_attempt_at : Option ℕ
  pub failure_code : Option Str
  pub telegram_message_id : Option ℕ
  pub sent_at : Option ℕ
  pub created_at : ℕ
  pub updated_at : ℕ

unfoldable pub is_sending : DeliveryStatus → Bool
is_sending DeliveryStatus.sending = true
is_sending DeliveryStatus.queued = false
is_sending DeliveryStatus.sent = false
is_sending DeliveryStatus.failed = false
is_sending DeliveryStatus.suppressed = false

unfoldable pub is_sent : DeliveryStatus → Bool
is_sent DeliveryStatus.sent = true
is_sent DeliveryStatus.queued = false
is_sent DeliveryStatus.sending = false
is_sent DeliveryStatus.failed = false
is_sent DeliveryStatus.suppressed = false

-- `current.status in {SENT, FAILED, SUPPRESSED}`
unfoldable pub is_final : DeliveryStatus → Bool
is_final DeliveryStatus.queued = false
is_final DeliveryStatus.sending = false
is_final DeliveryStatus.sent = true
is_final DeliveryStatus.failed = true
is_final DeliveryStatus.suppressed = true

-- `^[1-9][0-9]{0,19}$`
unfoldable pub is_chat_id : Str → Bool
unfolding all_chars is_ascii_digit
is_chat_id [] = false
is_chat_id (c ∷ s) = leb 49 c && leb c 57 && all_chars is_ascii_digit s && leb (length s) 19

unfoldable pub valid_code : Option Str → Bool
unfolding safe_failure_code
valid_code none = true
valid_code (some code) = safe_failure_code code

unfoldable pub positive_id : Option ℕ → Bool
positive_id none = false
positive_id (some n) = ltb 0 n

unfoldable pub bounded_url : Option Str → Bool
bounded_url none = true
bounded_url (some url) = leb (length url) 2048

-- The CHECK constraint `state_consistent`, status by status.
unfoldable pub consistent : DeliveryStatus → Delivery → Bool
consistent DeliveryStatus.queued d =
    is_none d.sent_at
    && is_none d.telegram_message_id
    && ((d.attempt_count == 0 && is_none d.last_attempt_at && is_none d.failure_code)
        || (ltb 0 d.attempt_count && is_some d.last_attempt_at && is_some d.failure_code))
consistent DeliveryStatus.sending d =
    ltb 0 d.attempt_count
    && is_some d.last_attempt_at
    && is_none d.failure_code
    && is_none d.sent_at
    && is_none d.telegram_message_id
consistent DeliveryStatus.sent d =
    ltb 0 d.attempt_count
    && is_some d.last_attempt_at
    && is_none d.failure_code
    && is_some d.sent_at
    && positive_id d.telegram_message_id
consistent DeliveryStatus.failed d =
    ltb 0 d.attempt_count
    && is_some d.last_attempt_at
    && is_some d.failure_code
    && is_none d.sent_at
    && is_none d.telegram_message_id
consistent DeliveryStatus.suppressed d =
    ltb 0 d.attempt_count
    && is_some d.last_attempt_at
    && is_some d.failure_code
    && is_none d.sent_at
    && is_none d.telegram_message_id

-- The CHECK constraints on the columns that no statement changes.
unfoldable pub fixed_checks : Delivery → Bool
unfolding is_chat_id bounded_url
fixed_checks d =
    ltb 0 d.profile_revision
    && str_eq d.recipient_platform (codes "telegram")
    && is_chat_id d.recipient_external_user_id
    && ltb 0 (length d.card_body_html)
    && leb (length d.card_body_html) 4096
    && bounded_url d.source_url
    && str_eq d.parse_mode (codes "html")

unfoldable pub checks : Delivery → Bool
unfolding valid_code consistent
checks d = fixed_checks d && valid_code d.failure_code && consistent d.status d

unfoldable pub suppressed_values : ℕ → JobClaim → Str → Delivery → Delivery
suppressed_values now claim code d = record d {
  status = DeliveryStatus.suppressed;
  attempt_count = claim.attempt_count;
  last_attempt_at = some now;
  failure_code = some code;
  updated_at = now;
}

unfoldable pub sending_values : ℕ → JobClaim → Delivery → Delivery
sending_values now claim d = record d {
  status = DeliveryStatus.sending;
  attempt_count = claim.attempt_count;
  last_attempt_at = some now;
  failure_code = none;
  updated_at = now;
}

unfoldable pub sent_values : ℕ → ℕ → Delivery → Delivery
sent_values now message_id d = record d {
  status = DeliveryStatus.sent;
  telegram_message_id = some message_id;
  sent_at = some now;
  failure_code = none;
  updated_at = now;
}

-- `_safe_failure_code`
unfoldable pub send_failure_code : Str → Str
unfolding safe_failure_code
send_failure_code value = if safe_failure_code value then value else codes "DeliverySendError"

unfoldable pub failed_values : ℕ → JobClaim → Str → Delivery → Delivery
failed_values now claim code d = record d {
  status =
      if leb claim.max_attempts claim.attempt_count
      then DeliveryStatus.failed
      else DeliveryStatus.queued;
  failure_code = some (send_failure_code code);
  updated_at = now;
}

-- What the join of the delivery with its profile, user, opportunity and trace reads.
pub record Eligibility : Type 0 where
  pub profile_user_id : ℕ
  pub current_profile_revision : ℕ
  pub is_confirmed : Bool
  pub is_active : Bool
  pub is_primary : Bool
  pub current_recipient_platform : Str
  pub current_external_user_id : Str
  pub opportunity_active : Bool
  pub current_last_seen_at : ℕ
  pub trace_eligible : Bool
  pub hard_filter_eligible : Bool
  pub decision_eligible : Bool
  pub opportunity_last_seen_at : ℕ

-- `entitlement.failure_code or "EntitlementRequired"`
unfoldable pub entitlement_code : EntitlementDecision → Str
entitlement_code entitlement = elim (failure_code entitlement) [
  | none ↦ codes "EntitlementRequired"
  | some code ↦ elim code [ [] ↦ codes "EntitlementRequired" | c ∷ s ↦ c ∷ s ]
]

unfoldable pub suppression_code : Delivery → Eligibility → EntitlementDecision → Option Str
suppression_code current row entitlement =
    if not (row.profile_user_id == current.user_id)
    then some (codes "ProfileOwnerChanged")
    else if not entitlement.can_receive_deliveries
    then some (entitlement_code entitlement)
    else if not (row.current_profile_revision == current.profile_revision)
        || not row.is_confirmed
        || not row.is_active
        || not row.is_primary
    then some (codes "ProfileIneligible")
    else if not (str_eq row.current_recipient_platform current.recipient_platform)
        || not (str_eq row.current_external_user_id current.recipient_external_user_id)
    then some (codes "RecipientChanged")
    else if not row.opportunity_active
    then some (codes "OpportunityIneligible")
    else if not row.trace_eligible
        || not row.hard_filter_eligible
        || not row.decision_eligible
        || not (row.current_last_seen_at == row.opportunity_last_seen_at)
    then some (codes "MatchTraceStale")
    else none
