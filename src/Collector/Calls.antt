-- ===== src/Collector/Calls.antt =====
-- Sequences of calls on the gate, by any workers and for any accounts, at whatever times their
-- clocks show.
use footjob.Base.{
  ℕ, ◌+◌, Bool, false, Option, List, [], ◌∷◌, Str, Result, ok, err, ◌&&◌, ◌==◌, Datetime, ℤ,
  if◌then◌else◌,
}
use footjob.Collector.State.{TelegramRequestReservation, TelegramOperationOutcome, Gate}
use footjob.Collector.{reserve, finish}

pub data Call : Type 0 where
  reserves : ℕ → ℕ → Str → ℕ → ℕ → Call
  finishes : ℕ → ℕ → ℕ → TelegramOperationOutcome → Option Datetime → Option ℤ → Call

-- A call that raises is rolled back.
abbrev pub committed : {A : Type 0} → Gate → Result (Gate × A) → Gate
committed g (ok (g', a)) = g'
committed g (err e) = g

abbrev pub is_acquired : Result (Gate × TelegramRequestReservation) → Bool
is_acquired (ok (g, r)) = r.acquired
is_acquired (err e) = false

unfoldable pub step : Gate → ℕ × Call → Gate
step g (now, reserves account_id token category at lease) =
    committed g (reserve now account_id token category (Datetime.aware at) lease g)
step g (now, finishes account_id token at outcome next seconds) =
    committed g (finish now account_id token (Datetime.aware at) outcome next seconds g)

unfoldable pub run : Gate → List (ℕ × Call) → Gate
run g [] = g
run g (c ∷ cs) = run (step g c) cs

-- A call that starts a request of the account.
unfoldable pub acquires : ℕ → Gate → ℕ × Call → Bool
acquires a g (now, reserves account_id token category at lease) =
    account_id == a
    && is_acquired (reserve now account_id token category (Datetime.aware at) lease g)
acquires a g (now, finishes account_id token at outcome next seconds) = false

-- How many requests of the account a run starts.
unfoldable pub started : ℕ → Gate → List (ℕ × Call) → ℕ
started a g [] = 0
started a g (c ∷ cs) =
    let rest = started a (step g c) cs in (if acquires a g c then 1 else 0) + rest
