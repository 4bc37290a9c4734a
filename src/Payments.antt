-- ===== src/Payments.antt =====
-- `PaymentRepository` of freelancer_bot/persistence/payments.py, and `VerifiedPaymentEvent` of
-- freelancer_bot/payment_provider.py. The verification by the provider comes before, and is not
-- modelled; payloads are canonical JSON texts.
pub mod Recorded
pub mod Paid
pub mod Replay
pub mod Tests
use footjob.Base.{
  ℕ, Bool, true, false, ◌&&◌, ◌||◌, not, Option, none, some, List, [], ◌∷◌, ◌++◌, Str, codes,
  str_eq, leb, ltb, ◌==◌, if◌then◌else◌, find, any, is_some, is_none, Result, ok, err, value_error,
  persistence_conflict, integrity_error, ◌>>=◌, ◌>>◌, guard,
}
use footjob.Subscriptions.{reconcile, option_eq}
use footjob.Subscriptions.Tables.{Store, Period, find_user}

pub data PaymentStatus : Type 0 where
  pending succeeded failed cancelled : PaymentStatus

pub record VerifiedPaymentEvent : Type 0 where
  pub provider : Str
  pub provider_event_id : Str
  pub event_type : Str
  pub provider_payment_id : Str
  pub user_id : ℕ
  pub status : PaymentStatus
  pub amount : ℕ
  pub currency : Str
  pub period_start_at : Option ℕ
  pub period_end_at : Option ℕ
  pub occurred_at : ℕ
  pub received_at : ℕ
  pub payload : Str
  pub verification_version : Str

abbrev pub is_succeeded : PaymentStatus → Bool
is_succeeded succeeded = true
is_succeeded _ = false

valid_interval : Option ℕ → Option ℕ → Bool
valid_interval none none = true
valid_interval (some start) (some end) = ltb start end
valid_interval _ _ = false

-- The part of `VerifiedPaymentEvent.__post_init__` that concerns the amount and the period.
pub is_contract : VerifiedPaymentEvent → Bool
unfolding valid_interval
is_contract e =
    valid_interval e.period_start_at e.period_end_at
    && (not (is_succeeded e.status)
        || (ltb 0 e.amount && is_some e.period_start_at && is_some e.period_end_at))

-- `PaymentProviderEventRecord`: the row keeps the event as it was received first.
pub record PaymentProviderEventRecord : Type 0 where
  pub id : ℕ
  pub event : VerifiedPaymentEvent

pub record PaymentStore : Type 0 where
  pub payment_events : List PaymentProviderEventRecord
  pub store : Store

pub record PaymentWriteOutcome : Type 0 where
  pub event : PaymentProviderEventRecord
  pub period : Option Period
  pub event_created : Bool
  pub period_created : Bool

-- The unique key `uq_payment_provider_events_provider_event`.
abbrev pub is_event : Str → Str → PaymentProviderEventRecord → Bool
is_event provider event_id r =
    str_eq r.event.provider provider && str_eq r.event.provider_event_id event_id

-- The unique key `uq_subscription_periods_provider_payment`.
abbrev pub is_payment : Str → Str → Period → Bool
is_payment provider payment_id p =
    str_eq p.provider provider && str_eq p.provider_payment_id payment_id

pub get_event : Str → Str → PaymentStore → Option PaymentProviderEventRecord
get_event provider event_id s = find (is_event provider event_id) s.payment_events

pub get_period : Str → Str → Store → Option Period
get_period provider payment_id s = find (is_payment provider payment_id) s.periods

abbrev pub status_eq : PaymentStatus → PaymentStatus → Bool
status_eq pending pending = true
status_eq succeeded succeeded = true
status_eq failed failed = true
status_eq cancelled cancelled = true
status_eq _ _ = false

-- `_validate_existing_event`: the time of receipt is not compared.
pub same_evidence : VerifiedPaymentEvent → VerifiedPaymentEvent → Bool
same_evidence a b =
    str_eq a.provider b.provider
    && str_eq a.provider_event_id b.provider_event_id
    && str_eq a.event_type b.event_type
    && str_eq a.provider_payment_id b.provider_payment_id
    && a.user_id == b.user_id
    && status_eq a.status b.status
    && a.amount == b.amount
    && str_eq a.currency b.currency
    && option_eq a.period_start_at b.period_start_at
    && option_eq a.period_end_at b.period_end_at
    && a.occurred_at == b.occurred_at
    && str_eq a.verification_version b.verification_version
    && str_eq a.payload b.payload

-- `_validate_existing_period`, at an event that has a period.
pub same_period : Period → VerifiedPaymentEvent → ℕ → ℕ → Bool
same_period p e start end =
    str_eq p.provider e.provider
    && str_eq p.provider_payment_id e.provider_payment_id
    && p.user_id == e.user_id
    && p.amount == e.amount
    && str_eq p.currency e.currency
    && p.period_start_at == start
    && p.period_end_at == end

-- The first insert of an event wins; a later one with the same identity is skipped. The user is a
-- foreign key.
pub insert_event : ℕ → VerifiedPaymentEvent → PaymentStore → Result (PaymentStore × Bool)
insert_event id e s =
    if any (is_event e.provider e.provider_event_id) s.payment_events
    then ok (s, false)
    else if is_some (find_user e.user_id s.store)
    then ok
        (record s { payment_events = s.payment_events ++ record { id = id; event = e } ∷ [] }, true)
    else err integrity_error

-- `_period_values`
period_of : ℕ → ℕ → ℕ → VerifiedPaymentEvent → ℕ → ℕ → Period
period_of now id event_row e start end = record {
  id = id;
  provider = e.provider;
  provider_payment_id = e.provider_payment_id;
  payment_provider_event_id = event_row;
  user_id = e.user_id;
  amount = e.amount;
  currency = e.currency;
  period_start_at = start;
  period_end_at = end;
  created_at = now;
}

pub insert_period : Period → Store → Store × Bool
insert_period p s =
    if any (is_payment p.provider p.provider_payment_id) s.periods
    then (s, false)
    else (record s { periods = s.periods ++ p ∷ [] }, true)

abbrev pub or_conflict {ℓ} : {A : Type ℓ} → Option A → Result A
or_conflict none = err persistence_conflict
or_conflict (some a) = ok a

-- The part of `record_verified_event` for a payment that succeeded.
pub record_period :
    ℕ
    → ℕ
    → ℕ
    → PaymentProviderEventRecord
    → VerifiedPaymentEvent
    → Store
    → Result (Store × Period × Bool)
unfolding period_of
record_period now period_uuid state_event_id stored e s = do
  start ← or_conflict e.period_start_at
  end ← or_conflict e.period_end_at
  let (s', created) = insert_period (period_of now period_uuid stored.id e start end) s
  period ← or_conflict (get_period e.provider e.provider_payment_id s')
  guard (same_period period e start end) persistence_conflict
  (s'', state) ← reconcile now state_event_id e.user_id none (codes "payment.confirmed") s'
  ok (s'', period, created)

-- The three identifiers are fresh values of `uuid4()`.
pub record_verified_event :
    ℕ
    → ℕ
    → ℕ
    → ℕ
    → VerifiedPaymentEvent
    → PaymentStore
    → Result (PaymentStore × PaymentWriteOutcome)
record_verified_event now event_uuid period_uuid state_event_id e s = do
  (s', created) ← insert_event event_uuid e s
  stored ← or_conflict (get_event e.provider e.provider_event_id s')
  guard (same_evidence stored.event e) persistence_conflict
  if is_succeeded e.status
      then (do
        (t, period, period_created) ← record_period now period_uuid state_event_id stored e s'.store
        ok (
          record s' { store = t },
          record {
            event = stored;
            period = some period;
            event_created = created;
            period_created = period_created;
          },
        ))
      else ok (
        s',
        record { event = stored; period = none; event_created = created; period_created = false },
      )
