-- ===== src/Collector/State.antt =====
-- The rows of the collector's gate, and what an update or an insert writes into them:
-- freelancer_bot/persistence/telegram_operation_state.py.
use footjob.Base.{
  ℕ, ◌+◌, Bool, true, false, Option, none, some, List, Str, ltb, ◌==◌, if◌then◌else◌, Result, ok,
  err, lookup_error, integrity_error, ◌>>=◌, Datetime, aware_utc,
}

pub data TelegramCollectorStatus : Type 0 where
  ready pacing floodwait paused : TelegramCollectorStatus

pub data TelegramOperationOutcome : Type 0 where
  completed error floodwait : TelegramOperationOutcome

pub record TelegramCollectorOperationState : Type 0 where
  pub collector_account_id : ℕ
  pub status : TelegramCollectorStatus
  pub active_request_token : Option ℕ
  pub active_request_category : Option Str
  pub active_request_started_at : Option ℕ
  pub active_request_lease_until : Option ℕ
  pub last_request_at : Option ℕ
  pub next_allowed_request_at : Option ℕ
  pub cooldown_until : Option ℕ
  pub last_request_category : Option Str
  pub last_floodwait_detected_at : Option ℕ
  pub last_floodwait_seconds : Option ℕ
  pub updated_at : ℕ

-- A row of `telegram_collector_operation_events`.
pub record OperationEvent : Type 0 where
  pub collector_account_id : ℕ
  pub request_token : ℕ
  pub request_category : Str
  pub started_at : ℕ
  pub finished_at : ℕ
  pub outcome : TelegramOperationOutcome
  pub floodwait_seconds : Option ℕ

pub record TelegramRequestReservation : Type 0 where
  pub acquired : Bool
  pub wait_until : Option ℕ
  pub state : TelegramCollectorOperationState

-- The ids of `collector_accounts`, and the two tables of the repository.
pub record Gate : Type 0 where
  pub accounts : List ℕ
  pub states : List TelegramCollectorOperationState
  pub events : List OperationEvent

-- The columns' defaults.
abbrev pub initial : ℕ → ℕ → TelegramCollectorOperationState
initial now account_id = record {
  collector_account_id = account_id;
  status = ready;
  active_request_token = none;
  active_request_category = none;
  active_request_started_at = none;
  active_request_lease_until = none;
  last_request_at = none;
  next_allowed_request_at = none;
  cooldown_until = none;
  last_request_category = none;
  last_floodwait_detected_at = none;
  last_floodwait_seconds = none;
  updated_at = now;
}

abbrev pub of_account : ℕ → TelegramCollectorOperationState → Bool
of_account account_id s = s.collector_account_id == account_id

abbrev pub or_unknown :
    Option TelegramCollectorOperationState → Result TelegramCollectorOperationState
or_unknown none = err lookup_error
or_unknown (some s) = ok s

-- A time that is set and later than `now`.
abbrev pub is_later : Option ℕ → ℕ → Bool
is_later none now = false
is_later (some t) now = ltb now t

abbrev pub is_set : Option ℕ → Bool
is_set none = false
is_set (some _) = true

abbrev pub is_paused : TelegramCollectorStatus → Bool
is_paused paused = true
is_paused _ = false

abbrev pub is_floodwait : TelegramCollectorStatus → Bool
is_floodwait floodwait = true
is_floodwait _ = false

-- The values of the update in `reserve`.
unfoldable pub reserved_values :
    ℕ → ℕ → Str → ℕ → ℕ → TelegramCollectorOperationState → TelegramCollectorOperationState
reserved_values now token category at lease s = record s {
  status = pacing;
  active_request_token = some token;
  active_request_category = some category;
  active_request_started_at = some at;
  active_request_lease_until = some (at + lease);
  cooldown_until = none;
  updated_at = now;
}

abbrev pub waiting : Option ℕ → TelegramCollectorOperationState → TelegramRequestReservation
waiting until s = record { acquired = false; wait_until = until; state = s }

-- What the outcome alone decides: the status, the end of the cooldown and the wait in seconds.
pub record Verdict : Type 0 where
  pub status : TelegramCollectorStatus
  pub next_allowed : Option ℕ
  pub cooldown_until : Option ℕ
  pub seconds : Option ℕ

abbrev pub or_else : Option ℕ → Option ℕ → Option ℕ
or_else none b = b
or_else (some a) b = some a

abbrev pub detected : Verdict → ℕ → TelegramCollectorOperationState → Option ℕ
detected v at s = if is_floodwait v.status then some at else s.last_floodwait_detected_at

-- The values of the update in `finish`.
unfoldable pub finished_values :
    ℕ → ℕ → Verdict → TelegramCollectorOperationState → TelegramCollectorOperationState
finished_values now at v s = record s {
  status = v.status;
  active_request_token = none;
  active_request_category = none;
  active_request_started_at = none;
  active_request_lease_until = none;
  last_request_at = some at;
  next_allowed_request_at = v.next_allowed;
  cooldown_until = v.cooldown_until;
  last_request_category = s.active_request_category;
  last_floodwait_detected_at = detected v at s;
  last_floodwait_seconds = or_else v.seconds s.last_floodwait_seconds;
  updated_at = now;
}

-- The insert of the event; its category and its start are columns that may not be null.
unfoldable pub event_of :
    ℕ
    → ℕ
    → TelegramOperationOutcome
    → Verdict
    → TelegramCollectorOperationState
    → Result OperationEvent
event_of token at outcome v s = elim s.active_request_category [
  | none ↦ err integrity_error
  | some category ↦ elim s.active_request_started_at [
    | none ↦ err integrity_error
    | some started_at ↦ ok (record {
      collector_account_id = s.collector_account_id;
      request_token = token;
      request_category = category;
      started_at = started_at;
      finished_at = at;
      outcome = outcome;
      floodwait_seconds = v.seconds;
    })
  ]
]

abbrev pub owns : ℕ → Option ℕ → Bool
owns token none = false
owns token (some t) = t == token

abbrev pub optional_utc : Option Datetime → Result (Option ℕ)
optional_utc none = ok none
optional_utc (some t) = aware_utc t >>= λ u. ok (some u)
