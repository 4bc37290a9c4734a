-- ===== src/Subscriptions.antt =====
-- `SubscriptionRepository` of freelancer_bot/persistence/subscriptions.py. A method is one
-- transaction that holds the user's lock; `now` is the database's clock, `event_id` a fresh
-- `uuid4()` for each event that it can write. An error rolls the transaction back.
pub mod Tables
pub mod Outcome
pub mod Backing
pub mod Histories
pub mod Reconcile
pub mod Halting
pub mod Success
pub mod Audit
pub mod History
pub mod Methods
pub mod Tests
use footjob.Base.{
  ℕ, zero, suc, ◌+◌, Bool, true, false, ◌&&◌, ◌||◌, not, Option, none, some, List, [], ◌∷◌, ◌++◌,
  Str, codes, str_eq, leb, ltb, ◌==◌, if◌then◌else◌, select, find, any, update_where, Result, ok,
  err, user_not_found, transition_error, ◌>>=◌, ◌>>◌, guard, Datetime, aware, naive, aware_utc,
  is_some,
}
use footjob.Billing.{
  SubscriptionState, trial_not_started, trial_active, paid_active, expired, cancelled, paused,
  is_active, later_key, utc,
}
use Tables.{
  User, Period, StateRecord, EventRecord, Store, of_user, same_version, find_user, get_state,
  periods_of, safe_reason, state_values,
}

pub record Projection : Type 0 where
  pub state : SubscriptionState
  pub period : Option Period
  pub reason : Str

later : Period → Period → Bool
later a b = later_key a.period_end_at a.period_start_at a.id b.period_end_at b.period_start_at b.id

latest_from : Period → List Period → Period
unfolding later
latest_from best [] = best
latest_from best (p ∷ ps) = latest_from (if later p best then p else best) ps

pub latest_period : List Period → Option Period
unfolding latest_from
latest_period [] = none
latest_period (p ∷ ps) = some (latest_from p ps)

pub active_periods : ℕ → List Period → List Period
unfolding is_active
active_periods now = select (λ p. is_active p.period_start_at p.period_end_at now)

abbrev expired_projection : Str → Projection
expired_projection reason = record { state = expired; period = none; reason = reason }

has_periods : List Period → Bool
has_periods [] = false
has_periods (p ∷ ps) = true

trial_projection : Option ℕ → Option ℕ → List Period → ℕ → Result Projection
unfolding has_periods
trial_projection none expires periods now = ok (
    if has_periods periods
    then expired_projection (codes "subscription_expired")
    else record { state = trial_not_started; period = none; reason = codes "trial_not_started" })
trial_projection (some started) none periods now = err transition_error
trial_projection (some started) (some expires) periods now = ok (
    if ltb now expires
    then record { state = trial_active; period = none; reason = codes "trial_active" }
    else if has_periods periods
    then expired_projection (codes "subscription_expired")
    else expired_projection (codes "trial_expired"))

pub natural_projection : User → List Period → ℕ → Result Projection
unfolding trial_projection
natural_projection user periods now = elim (latest_period (active_periods now periods)) [
  | some p ↦
      ok (record { state = paid_active; period = some p; reason = codes "paid_period_active" })
  | none ↦ trial_projection user.trial_started_at user.trial_expires_at periods now
]

abbrev pub state_eq : SubscriptionState → SubscriptionState → Bool
state_eq trial_not_started trial_not_started = true
state_eq trial_active trial_active = true
state_eq paid_active paid_active = true
state_eq expired expired = true
state_eq cancelled cancelled = true
state_eq paused paused = true
state_eq _ _ = false

abbrev pub period_id : Option Period → Option ℕ
period_id none = none
period_id (some p) = some p.id

abbrev pub option_eq : Option ℕ → Option ℕ → Bool
option_eq none none = true
option_eq (some a) (some b) = a == b
option_eq _ _ = false

-- `_same_projection`
pub same_projection : StateRecord → Projection → Bool
same_projection current p =
    state_eq current.state p.state && option_eq current.current_period_id (period_id p.period)

pub transition_reason : StateRecord → Projection → Str
transition_reason current p =
    if state_eq current.state paid_active && state_eq p.state paid_active
    then codes "subscription.renewed"
    else p.reason

pub requested_or_natural_reason : Str → Str → Str
requested_or_natural_reason requested natural =
    if str_eq requested (codes "entitlement.reconcile") then natural else requested

-- The values of `_record_event`.
abbrev pub event_of : ℕ → ℕ → StateRecord → Option SubscriptionState → Str → ℕ → EventRecord
event_of now event_id current from_state reason effective_at = record {
  id = event_id;
  user_id = current.user_id;
  state_version = current.state_version;
  from_state = from_state;
  to_state = current.state;
  provider = current.provider;
  subscription_period_id = current.current_period_id;
  reason = reason;
  effective_at = effective_at;
  created_at = now;
}

-- `_record_event`: nothing happens if the user's version has an event.
pub record_event : ℕ → ℕ → StateRecord → Option SubscriptionState → Str → ℕ → Store → Store
record_event now event_id current from_state reason effective_at store =
    let event = event_of now event_id current from_state reason effective_at in
    if any (same_version event) store.events
    then store
    else record store { events = store.events ++ event ∷ [] }

pub insert_state : StateRecord → Store → Store
insert_state s store = record store { states = store.states ++ s ∷ [] }

pub replace_state : StateRecord → Store → Store
replace_state s store = record store {
  states = update_where (of_user s.user_id) (λ _. s) store.states;
}

-- `_create_state`: a state that is there already is returned, without an event.
pub create_state :
    ℕ → ℕ → ℕ → SubscriptionState → Option Period → Str → ℕ → Store → Result (Store × StateRecord)
create_state now event_id user_id state period reason effective_at store = do
  reason' ← safe_reason reason
  elim (get_state user_id store) [
    | some current ↦ ok (store, current)
    | none ↦
        let current = state_values now now user_id state 1 period reason' effective_at in
        ok (
          record_event now event_id current none reason' effective_at (insert_state current store),
          current,
        )
  ]

-- `_transition`
pub transition :
    ℕ
    → ℕ
    → StateRecord
    → SubscriptionState
    → Option Period
    → Str
    → ℕ
    → Store
    → Result (Store × StateRecord)
transition now event_id current state period reason effective_at store = do
  reason' ← safe_reason reason
  let next =
      state_values current.created_at now current.user_id state (current.state_version + 1) period
        reason' effective_at
  ok (
    record_event now event_id next (some current.state) reason' effective_at
        (replace_state next store),
    next,
  )

abbrev pub is_halted : SubscriptionState → Bool
is_halted paused = true
is_halted cancelled = true
is_halted _ = false

-- `evaluated_at`, or the database's clock.
effective : ℕ → Option Datetime → Result ℕ
effective now none = ok now
effective now (some at) = aware_utc at

abbrev pub or_missing : Option User → Result User
or_missing none = err user_not_found
or_missing (some u) = ok u

-- The rest of `reconcile`, with the current state in hand.
pub reconcile_state :
    ℕ → ℕ → User → List Period → ℕ → Str → Option StateRecord → Store → Result (Store × StateRecord)
reconcile_state now event_id user periods at reason none store = do
  p ← natural_projection user periods at
  create_state now event_id user.id p.state p.period (requested_or_natural_reason reason p.reason)
      at store
reconcile_state now event_id user periods at reason (some current) store =
    if is_halted current.state then ok (store, current) else do
      p ← natural_projection user periods at
      if same_projection current p
          then ok (store, current)
          else transition now event_id current p.state p.period
              (requested_or_natural_reason reason (transition_reason current p)) at store

pub reconcile : ℕ → ℕ → ℕ → Option Datetime → Str → Store → Result (Store × StateRecord)
unfolding effective
reconcile now event_id user_id evaluated_at reason store = do
  user ← or_missing (find_user user_id store)
  at ← effective now evaluated_at
  reconcile_state now event_id user (periods_of user_id store) at reason (get_state user_id store)
      store

-- `_state_for_transition`
pub state_for_transition :
    ℕ → ℕ → ℕ → Datetime → Option StateRecord → Store → Result (Store × StateRecord)
state_for_transition now event_id user_id effective_at (some current) store = do
  guard (is_some (find_user user_id store)) user_not_found
  ok (store, current)
state_for_transition now event_id user_id effective_at none store = do
  guard (is_some (find_user user_id store)) user_not_found
  reconcile now event_id user_id (some effective_at) (codes "entitlement.reconcile") store

pub pause : ℕ → ℕ → ℕ → ℕ → Datetime → Str → Store → Result (Store × StateRecord)
unfolding utc
pause now event_id event_id' user_id effective_at reason store = do
  (store', current) ←
      state_for_transition now event_id user_id effective_at (get_state user_id store) store
  if state_eq current.state paused
      then ok (store', current)
      else if not (state_eq current.state paid_active)
      then err transition_error
      else transition now event_id' current paused none reason (utc effective_at) store'

abbrev pub can_cancel : SubscriptionState → Bool
can_cancel trial_active = true
can_cancel paid_active = true
can_cancel paused = true
can_cancel _ = false

pub cancel : ℕ → ℕ → ℕ → ℕ → Datetime → Str → Store → Result (Store × StateRecord)
unfolding utc
cancel now event_id event_id' user_id effective_at reason store = do
  (store', current) ←
      state_for_transition now event_id user_id effective_at (get_state user_id store) store
  if state_eq current.state cancelled
      then ok (store', current)
      else if not (can_cancel current.state)
      then err transition_error
      else transition now event_id' current cancelled none reason (utc effective_at) store'

-- `resume` for a user that has a state.
pub resume_state :
    ℕ → ℕ → User → List Period → ℕ → Str → StateRecord → Store → Result (Store × StateRecord)
resume_state now event_id user periods at reason current store =
    if not (is_halted current.state) then ok (store, current) else do
      p ← natural_projection user periods at
      transition now event_id current p.state p.period
          (if state_eq p.state expired then p.reason else reason) at store

pub resume : ℕ → ℕ → ℕ → Datetime → Str → Store → Result (Store × StateRecord)
unfolding resume_state
resume now event_id user_id effective_at reason store = do
  user ← or_missing (find_user user_id store)
  at ← aware_utc effective_at
  elim (get_state user_id store) [
    | none ↦ reconcile now event_id user_id (some effective_at) reason store
    | some current ↦
        resume_state now event_id user (periods_of user_id store) at reason current store
  ]
