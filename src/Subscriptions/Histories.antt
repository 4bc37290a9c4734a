-- ===== src/Subscriptions/Histories.antt =====
-- Histories of the subscription tables: any calls of `SubscriptionRepository`, for any users.
use footjob.Base.{ℕ, refl, Option, List, [], ◌∷◌, Str, Result, ok, err, Datetime}
use footjob.Subscriptions.Tables.{Store, StateRecord}
use footjob.Subscriptions.{reconcile, pause, cancel, resume}
use footjob.Subscriptions.Outcome.{Succeeds}
use footjob.Subscriptions.Audit.{Write, IsAudited}
use footjob.Subscriptions.History.{Write-IsAudited}
use footjob.Subscriptions.Methods.{reconcile-Write, pause-Write, cancel-Write, resume-Write}

-- A call for a user, with the identifiers of its events and its arguments.
pub data Call : Type 0 where
  reconciles : ℕ → Option Datetime → Str → Call
  pauses cancels : ℕ → ℕ → Datetime → Str → Call
  resumes : ℕ → Datetime → Str → Call

pub record Request : Type 0 where
  pub now : ℕ
  pub user_id : ℕ
  pub call : Call

pub answer : ℕ → ℕ → Call → Store → Result (Store × StateRecord)
answer now u (reconciles id at reason) store = reconcile now id u at reason store
answer now u (pauses id id' at reason) store = pause now id id' u at reason store
answer now u (cancels id id' at reason) store = cancel now id id' u at reason store
answer now u (resumes id at reason) store = resume now id u at reason store

-- A call that raises is rolled back.
abbrev pub committed : Store → Result (Store × StateRecord) → Store
committed store (ok (later, s)) = later
committed store (err e) = store

pub step : Store → Request → Store
unfolding answer
step store r = committed store (answer r.now r.user_id r.call store)

pub run : Store → List Request → Store
run store [] = store
run store (r ∷ rs) = run (step store r) rs

answer-Write :
    (now u : ℕ) (c : Call) (store : Store) → Succeeds (Write u store) (answer now u c store)
unfolding answer
answer-Write now u (reconciles id at reason) store = reconcile-Write now id u at reason store
answer-Write now u (pauses id id' at reason) store = pause-Write now id id' u at reason store
answer-Write now u (cancels id id' at reason) store = cancel-Write now id id' u at reason store
answer-Write now u (resumes id at reason) store = resume-Write now id u at reason store

committed-IsAudited :
    (u w : ℕ) (store : Store) (r : Result (Store × StateRecord))
    → Succeeds (Write u store) r
    → IsAudited w store
    → IsAudited w (committed store r)
committed-IsAudited u w store (ok (later, s)) h a = Write-IsAudited w (h.holds later s refl) a
committed-IsAudited u w store (err e) h a = a

step-IsAudited :
    (w : ℕ) (store : Store) (r : Request) → IsAudited w store → IsAudited w (step store r)
unfolding step
step-IsAudited w store r a =
    committed-IsAudited r.user_id w store _ (answer-Write r.now r.user_id r.call store) a

-- After any calls for any users, the events of a user still lead from no state to the stored
-- state, one event for each version and each starting where the one before it ended, if they did
-- before.
pub run-IsAudited :
    (w : ℕ) (store : Store) (rs : List Request) → IsAudited w store → IsAudited w (run store rs)
unfolding run
run-IsAudited w store [] a = a
run-IsAudited w store (r ∷ rs) a = run-IsAudited w (step store r) rs (step-IsAudited w store r a)
