-- ===== src/Governor.antt =====
-- `TelegramRequestGovernor` of freelancer_bot/telegram_request_governor.py: one request waits for
-- the gate of its account, runs its operation, and gives the gate back on every outcome. What other
-- workers call in the meantime, the clocks, and what the operation does are arguments.
use footjob.Base.{
  ℕ, ◌+◌, Bool, true, false, ◌||◌, Option, none, some, List, [], ◌∷◌, Str, codes, str_eq, ltb,
  if◌then◌else◌, Result, ok, err, Error, runtime_error, ℤ, pos, Datetime, aware,
}
use footjob.Collector.State.{
  TelegramOperationOutcome, TelegramRequestReservation, completed, error, floodwait, Gate,
  TelegramCollectorOperationState,
}
use footjob.Collector.{reserve, finish}
use footjob.Collector.Calls.{Call, run}
pub mod Release
pub mod Tests

-- The settings of `RuntimeConfig` that the governor reads, in microseconds.
pub record Config : Type 0 where
  pub min_delay : ℕ
  pub max_delay : ℕ
  pub source_cooldown_min : ℕ
  pub source_cooldown_max : ℕ
  pub lease : ℕ

-- What awaiting the operation does: it returns, raises `FloodWaitError` with its `seconds`, or
-- raises something else. The seconds are `none` where they are missing or no integer.
pub data Operation (T : Type 0) : Type 0 where
  returns : T → Operation T
  floods : Option ℤ → Operation T
  raises : Operation T

-- What the caller of `run` sees: a value, the operation's own exception, an exception of the
-- governor or the repository, or nothing, while it still waits.
pub data Answer (T : Type 0) : Type 0 where
  value : T → Answer T
  reraised : Answer T
  failed : Error → Answer T
  waiting : Answer T

-- One round of the loop: the calls that others made before it, the clocks of the database and of
-- the governor, and the value that `before_reserve` has ready.
pub record Round (T : Type 0) : Type 0 where
  pub others : List (ℕ × Call)
  pub now : ℕ
  pub at : ℕ
  pub ready : Option T

-- How the loop ends: with the value that was ready, with an exception, with the gate held since an
-- instant, or not within the rounds.
pub data Wait (T : Type 0) : Type 0 where
  found : T → Wait T
  refused : Error → Wait T
  held : ℕ → Wait T
  waits : Wait T

-- `TelegramRequestCategory.HISTORY`, `GRAPH_HISTORY` and `AUDIT_HISTORY`.
pub is_history : Str → Bool
is_history category =
    str_eq category (codes "history")
    || str_eq category (codes "graph_history")
    || str_eq category (codes "audit_history")

-- `uniform` stands for `random.uniform`.
pub next_delay : Config → (ℕ → ℕ → ℕ) → Str → ℕ
unfolding is_history
next_delay config uniform category =
    if is_history category
    then uniform config.source_cooldown_min config.source_cooldown_max
    else uniform config.min_delay config.max_delay

pub floodwait_seconds : Option ℤ → Result ℤ
floodwait_seconds (some (pos n)) = if ltb 0 n then ok (pos n) else err runtime_error
floodwait_seconds _ = err runtime_error

-- The part of a round that follows the call of `reserve`.
abbrev pub after_reserve :
    {T : Type 0}
    → ℕ
    → Gate
    → (Gate → Gate × Wait T)
    → Result (Gate × TelegramRequestReservation)
    → Gate × Wait T
after_reserve at g next (err e) = (g, refused e)
after_reserve at g next (ok (g', r)) = if r.acquired then (g', held at) else next g'

-- The loop of `run`, over the rounds that it makes.
pub wait_for_gate : {T : Type 0} → Config → ℕ → ℕ → Str → List (Round T) → Gate → Gate × Wait T
wait_for_gate config account_id token category [] g = (g, waits)
wait_for_gate config account_id token category (r ∷ rs) g =
    let g' = run g r.others in
    elim r.ready [
      | some v ↦ (g', found v)
      | none ↦
          after_reserve r.at g' (λ next. wait_for_gate config account_id token category rs next)
            (reserve r.now account_id token category (aware r.at) config.lease g')
    ]

abbrev pub next_allowed : ℕ → Option ℕ → Option Datetime
next_allowed at none = none
next_allowed at (some delay) = some (aware (at + delay))

abbrev pub answered :
    {T : Type 0}
    → Answer T
    → Gate
    → Result (Gate × TelegramCollectorOperationState)
    → Gate × Answer T
answered answer g (err e) = (g, failed e)
answered answer g (ok (g', s)) = (g', answer)

-- `_finish`, and the answer if it succeeds.
pub give_back :
    {T : Type 0}
    → ℕ
    → ℕ
    → ℕ
    → ℕ
    → TelegramOperationOutcome
    → Option ℕ
    → Option ℤ
    → Answer T
    → Gate
    → Gate × Answer T
give_back now account_id token at outcome delay seconds answer g =
    answered answer g
      (finish now account_id token (aware at) outcome (next_allowed at delay) seconds g)

-- The rest of `run`, once the gate is held: `now` and `at` are the clocks when the operation ends.
-- A FloodWait without a positive wait raises before the gate is given back.
pub finish_operation :
    {T : Type 0} → Config → (ℕ → ℕ → ℕ) → ℕ → ℕ → Str → ℕ → ℕ → Operation T → Gate → Gate × Answer T
unfolding give_back next_delay floodwait_seconds
finish_operation config uniform account_id token category now at (returns v) g =
    give_back now account_id token at completed (some (next_delay config uniform category)) none
      (value v) g
finish_operation config uniform account_id token category now at raises g =
    give_back now account_id token at error (some (next_delay config uniform category)) none
      reraised g
finish_operation config uniform account_id token category now at (floods seconds) g =
    elim (floodwait_seconds seconds) [
      | err e ↦ (g, failed e)
      | ok s ↦ give_back now account_id token at floodwait none (some s) reraised g
    ]

-- What follows the loop. `during` are the calls that others make while the operation runs.
pub after_wait :
    {T : Type 0}
    → Config
    → (ℕ → ℕ → ℕ)
    → ℕ
    → ℕ
    → Str
    → List (ℕ × Call)
    → ℕ
    → ℕ
    → Operation T
    → Gate × Wait T
    → Gate × Answer T
unfolding finish_operation
after_wait config uniform account_id token category during now at operation (g, found v) =
    (g, value v)
after_wait config uniform account_id token category during now at operation (g, refused e) =
    (g, failed e)
after_wait config uniform account_id token category during now at operation (g, waits) =
    (g, waiting)
after_wait config uniform account_id token category during now at operation (g, held since) =
    finish_operation config uniform account_id token category now at operation (run g during)

-- `run`
pub govern :
    {T : Type 0}
    → Config
    → (ℕ → ℕ → ℕ)
    → ℕ
    → ℕ
    → Str
    → List (Round T)
    → List (ℕ × Call)
    → ℕ
    → ℕ
    → Operation T
    → Gate
    → Gate × Answer T
unfolding wait_for_gate after_wait
govern config uniform account_id token category rounds during now at operation g =
    after_wait config uniform account_id token category during now at operation
      (wait_for_gate config account_id token category rounds g)
