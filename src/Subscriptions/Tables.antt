-- ===== src/Subscriptions/Tables.antt =====
-- The tables `users`, `subscription_periods`, `subscription_states` and
-- `subscription_state_events` of freelancer_bot/persistence/schema.py, as rows of records.
use footjob.Base.{
  ℕ, Bool, false, ◌&&◌, Option, none, some, List, [], ◌∷◌, Str, leb, ◌==◌, if◌then◌else◌, select,
  find, length, strip, lower, is_ascii_alpha, is_identifier_char, all_chars, Result, ok, err,
  value_error,
}
use footjob.Billing.{SubscriptionState}

pub record User : Type 0 where
  pub id : ℕ
  pub trial_started_at : Option ℕ
  pub trial_expires_at : Option ℕ
  pub trial_policy_version : Option Str

-- `SubscriptionPeriodRecord`; amounts are whole hundredths, as the column Numeric(12, 2) holds.
pub record Period : Type 0 where
  pub id : ℕ
  pub provider : Str
  pub provider_payment_id : Str
  pub payment_provider_event_id : ℕ
  pub user_id : ℕ
  pub amount : ℕ
  pub currency : Str
  pub period_start_at : ℕ
  pub period_end_at : ℕ
  pub created_at : ℕ

-- `SubscriptionStateRecord`
pub record StateRecord : Type 0 where
  pub user_id : ℕ
  pub state : SubscriptionState
  pub state_version : ℕ
  pub provider : Option Str
  pub current_period_id : Option ℕ
  pub current_period_start_at : Option ℕ
  pub current_period_end_at : Option ℕ
  pub reason : Str
  pub changed_at : ℕ
  pub created_at : ℕ
  pub updated_at : ℕ

-- `SubscriptionStateEventRecord`. The idempotency key is a digest of the user, the version, the
-- state and the period, which the row holds anyway.
pub record EventRecord : Type 0 where
  pub id : ℕ
  pub user_id : ℕ
  pub state_version : ℕ
  pub from_state : Option SubscriptionState
  pub to_state : SubscriptionState
  pub provider : Option Str
  pub subscription_period_id : Option ℕ
  pub reason : Str
  pub effective_at : ℕ
  pub created_at : ℕ

pub record Store : Type 0 where
  pub users : List User
  pub periods : List Period
  pub states : List StateRecord
  pub events : List EventRecord

abbrev pub of_user : ℕ → StateRecord → Bool
of_user user_id s = s.user_id == user_id

-- The unique key `uq_subscription_state_events_user_version`.
abbrev pub same_version : EventRecord → EventRecord → Bool
same_version e f = f.user_id == e.user_id && f.state_version == e.state_version

-- `_lock_user`, without the error.
unfoldable pub find_user : ℕ → Store → Option User
find_user user_id store = find (λ u. u.id == user_id) store.users

-- `get`, and `_get_for_update`.
unfoldable pub get_state : ℕ → Store → Option StateRecord
get_state user_id store = find (of_user user_id) store.states

-- `_periods`, in the order of the table: what is made of them does not depend on the order.
unfoldable pub periods_of : ℕ → Store → List Period
periods_of user_id store = select (λ p. p.user_id == user_id) store.periods

-- `list_events`, in the order of the table, in which the versions of a user rise.
unfoldable pub events_of : ℕ → Store → List EventRecord
events_of user_id store = select (λ e. e.user_id == user_id) store.events

-- The reason is stripped and lowered; it starts with a letter and holds ASCII letters, digits,
-- dots, underscores and dashes.
unfoldable pub valid_reason : Str → Bool
valid_reason [] = false
valid_reason (c ∷ s) =
    leb (length (c ∷ s)) 64 && is_ascii_alpha c && all_chars is_identifier_char (c ∷ s)

-- `_safe_reason`
unfoldable pub safe_reason : Str → Result Str
unfolding valid_reason
safe_reason value =
    let normalized = lower (strip value) in
    if valid_reason normalized then ok normalized else err value_error

-- `_state_values` of a row that is there already, `created_at` being left alone, or of a new row.
unfoldable pub state_values :
    ℕ → ℕ → ℕ → SubscriptionState → ℕ → Option Period → Str → ℕ → StateRecord
state_values created now user_id state version none reason effective_at = record {
  user_id = user_id;
  state = state;
  state_version = version;
  provider = none;
  current_period_id = none;
  current_period_start_at = none;
  current_period_end_at = none;
  reason = reason;
  changed_at = effective_at;
  created_at = created;
  updated_at = now;
}
state_values created now user_id state version (some p) reason effective_at = record {
  user_id = user_id;
  state = state;
  state_version = version;
  provider = some p.provider;
  current_period_id = some p.id;
  current_period_start_at = some p.period_start_at;
  current_period_end_at = some p.period_end_at;
  reason = reason;
  changed_at = effective_at;
  created_at = created;
  updated_at = now;
}
