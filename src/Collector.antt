-- ===== src/Collector.antt =====
-- `TelegramCollectorOperationRepository` of
-- freelancer_bot/persistence/telegram_operation_state.py: the durable gate that one collector
-- account's requests pass one at a time. A call of `reserve` or `finish` is one transaction that
-- locks the account's row.
pub mod State
pub mod Rows
pub mod Others
pub mod Calls
pub mod Shut
pub mod Exclusion
pub mod Finishing
pub mod Verdicts
pub mod Integrity
pub mod Tests
use footjob.Base.{
  ℕ, ◌+◌, ◌*◌, Bool, true, false, ◌&&◌, ◌||◌, not, Option, none, some, List, [], ◌∷◌, ◌++◌, Str,
  ltb, leb, ◌==◌, if◌then◌else◌, find, any, update_where, length, strip, lower, is_ascii_alpha,
  is_identifier_char, all_chars, Result, ok, err, value_error, lookup_error, runtime_error,
  integrity_error, collector_paused, floodwait_active, ◌>>=◌, ◌>>◌, guard, ℤ, pos, negsuc, Datetime,
  aware, aware_utc,
}
use State.{
  Gate, OperationEvent, TelegramCollectorOperationState, TelegramCollectorStatus,
  TelegramOperationOutcome, TelegramRequestReservation, Verdict, detected, event_of,
  finished_values, initial, is_floodwait, is_later, is_paused, is_set, of_account, optional_utc,
  or_else, or_unknown, owns, reserved_values, waiting, ready, pacing, floodwait, completed, error,
}

pub get : Gate → ℕ → Result TelegramCollectorOperationState
get g account_id = or_unknown (find (of_account account_id) g.states)

-- The insert of `ensure`, which does nothing if the account has its row. The account is a foreign
-- key.
pub insert_default : ℕ → ℕ → Gate → Result Gate
insert_default now account_id g =
    if any (of_account account_id) g.states
    then ok g
    else if any (λ a. a == account_id) g.accounts
    then ok (record g { states = g.states ++ initial now account_id ∷ [] })
    else err integrity_error

pub ensure : ℕ → ℕ → Gate → Result (Gate × TelegramCollectorOperationState)
unfolding insert_default get
ensure now account_id g = do
  guard (ltb 0 account_id) value_error
  g' ← insert_default now account_id g
  s ← get g' account_id
  ok (g', s)

starts_with_letter : Str → Bool
starts_with_letter [] = false
starts_with_letter (c ∷ s) = is_ascii_alpha c

-- `_safe_category`
pub safe_category : Str → Result Str
unfolding starts_with_letter
safe_category value =
    let normalized = lower (strip value) in
    if leb 1 (length normalized)
      && leb (length normalized) 64
      && all_chars is_identifier_char normalized
      && starts_with_letter normalized
    then ok normalized
    else err value_error

-- The part of `reserve` that follows the lock on the row. `now` is the database's clock, `at` the
-- caller's.
pub reserve_row :
    ℕ
    → ℕ
    → ℕ
    → Str
    → ℕ
    → ℕ
    → Gate
    → TelegramCollectorOperationState
    → Result (Gate × TelegramRequestReservation)
unfolding reserved_values get
reserve_row now account_id token category at lease g state = do
  guard (not (is_paused state.status)) collector_paused
  guard (not (is_floodwait state.status && is_later state.cooldown_until at)) floodwait_active
  if is_set state.active_request_token && is_later state.active_request_lease_until at
      then ok (g, waiting state.active_request_lease_until state)
      else if is_later state.next_allowed_request_at at
      then ok (g, waiting state.next_allowed_request_at state)
      else (do
        let g' = record g {
          states =
              update_where (of_account account_id) (reserved_values now token category at lease)
                g.states;
        }
        s ← get g' account_id
        ok (g', record { acquired = true; wait_until = none; state = s }))

-- `lease` is in microseconds.
pub reserve : ℕ → ℕ → ℕ → Str → Datetime → ℕ → Gate → Result (Gate × TelegramRequestReservation)
unfolding ensure reserve_row safe_category
reserve now account_id token request_category clock lease g = do
  at ← aware_utc clock
  category ← safe_category request_category
  guard (ltb 0 lease) value_error
  (g', state) ← ensure now account_id g
  reserve_row now account_id token category at lease g' state

pub verdict : TelegramOperationOutcome → Option ℤ → ℕ → Option ℕ → Result Verdict
verdict floodwait (some (pos seconds)) at next_allowed = do
  guard (ltb 0 seconds) value_error
  let until = at + seconds * 1000000
  ok (record {
    status = floodwait;
    next_allowed = some until;
    cooldown_until = some until;
    seconds = some seconds;
  })
verdict floodwait _ at next_allowed = err value_error
verdict _ seconds at next_allowed =
    ok (record {
      status = ready;
      next_allowed = next_allowed;
      cooldown_until = none;
      seconds = none;
    })

pub finish :
    ℕ
    → ℕ
    → ℕ
    → Datetime
    → TelegramOperationOutcome
    → Option Datetime
    → Option ℤ
    → Gate
    → Result (Gate × TelegramCollectorOperationState)
unfolding verdict get event_of finished_values
finish now account_id token clock outcome next_allowed seconds g = do
  at ← aware_utc clock
  next ← optional_utc next_allowed
  v ← verdict outcome seconds at next
  state ← get g account_id
  guard (owns token state.active_request_token) runtime_error
  event ← event_of token at outcome v state
  let g' = record g {
    states = update_where (of_account account_id) (finished_values now at v) g.states;
    events = g.events ++ event ∷ [];
  }
  s ← get g' account_id
  ok (g', s)
