-- ===== src/Jobs/Tests.antt =====
-- The theorems about `DurableJobRepository` at concrete tables and calls.
use footjob.Base.{List, Option, Str, [], any, arith, codes, false, find, none, ok, pos, refl}
use footjob.Base.{select, some, str_eq, true, update_where, ℕ, ◌+◌, ◌∷◌, ◌≡◌, ◌≤◌}
use footjob.Jobs.Row.{Job, JobClaim, State, checks, claimed_values, completed_values}
use footjob.Jobs.{Table, new_job, claim_of, enqueue, claim_next, complete, get, job_types, is_empty}
use footjob.Jobs.Steps.{Call, enqueues, claims, completes, fails, releases, renews, run, Follows}
use footjob.Jobs.Integrity.{IsValid, run-IsValid}
use footjob.Jobs.Fencing.{IsIdle, complete_once}
use footjob.Jobs.Claims.{Grant, reclaim-IsIdle, claim_next-Grant}
use footjob.Jobs.Attempts.{grants, grants-le}
use footjob.Jobs.Selection.{Choice, claim_next-Choice}
use footjob.Jobs.Enqueueing.{enqueue_again}
use footjob.Jobs.Evolution.{run-Follows}

abbrev worker_a : Str
worker_a = codes "a"

abbrev worker_b : Str
worker_b = codes "b"

abbrev fresh : Job
fresh = new_job 100 1 7 (codes "classify") (codes "post:1") 3

abbrev queue : Table
queue = fresh ∷ []

-- The job as worker a holds it from 110 to 160.
abbrev held : Job
held = record fresh {
  state = State.running;
  attempt_count = 1;
  claimed_at = some 110;
  lease_owner = some worker_a;
  lease_expires_at = some 160;
  updated_at = 110;
}

-- The job as worker b holds it from 170 to 220, after the lease of a has expired.
abbrev taken : Job
taken = record held {
  attempt_count = 2;
  claimed_at = some 170;
  lease_owner = some worker_b;
  lease_expires_at = some 220;
  updated_at = 170;
}

abbrev done : Job
done = record fresh {
  state = State.completed;
  attempt_count = 1;
  updated_at = 120;
  completed_at = some 120;
}

abbrev only_first : Option (List ℕ)
only_first = some (1 ∷ [])

abbrev claim_a : JobClaim
claim_a = claim_of worker_a fresh

abbrev claim_b : JobClaim
claim_b = claim_of worker_b held

-- A second job, a claim of it, and calls by the holder and the loser of the first one's lease.
abbrev calls : List (ℕ × Call)
calls =
    (180, enqueues 2 8 (codes "classify") (codes "post:2") 1 none)
    ∷ (181, completes claim_a)
    ∷ (182, claims worker_a (pos 50) none none)
    ∷ (183, renews claim_b (pos 90))
    ∷ (190, fails claim_b (codes "Timeout") (pos 5) true)
    ∷ (191, releases claim_a)
    ∷ []

valid : (j : Job) → checks j ≡ true → IsValid (j ∷ [])
unfolding any
valid j h = record { rows = (h, tt); ids = (refl, tt); keys = (refl, tt) }

nothing-IsValid : IsValid []
nothing-IsValid = record { rows = tt; ids = tt; keys = tt }

queue-IsValid : IsValid queue
unfolding checks
queue-IsValid = valid fresh refl

held-IsValid : IsValid (held ∷ [])
unfolding checks
held-IsValid = valid held refl

taken-IsValid : IsValid (taken ∷ [])
unfolding checks
taken-IsValid = valid taken refl

done-IsValid : IsValid (done ∷ [])
unfolding checks
done-IsValid = valid done refl

a_claims : claim_next 110 worker_a (pos 50) none none queue ≡ ok (held ∷ [], some claim_a)
unfolding claim_next footjob.Jobs.first_in_order footjob.Base.select footjob.Base.update_where
    footjob.Jobs.is_candidate footjob.Jobs.Row.claimable footjob.Jobs.Row.exhausted
    footjob.Jobs.Row.after footjob.Jobs.earlier claimed_values
a_claims = refl

b_claims : claim_next 170 worker_b (pos 50) none none (held ∷ []) ≡ ok (taken ∷ [], some claim_b)
unfolding claim_next footjob.Jobs.first_in_order footjob.Base.select footjob.Base.update_where
    footjob.Jobs.is_candidate footjob.Jobs.Row.claimable footjob.Jobs.Row.exhausted
    footjob.Jobs.Row.after footjob.Jobs.earlier claimed_values
b_claims = refl

enqueues_fresh : enqueue 100 1 7 (codes "classify") (codes "post:1") 3 none [] ≡ ok (queue, 1)
unfolding enqueue footjob.Jobs.Row.enqueued_fields_valid footjob.Base.find any
enqueues_fresh = refl

a_completes : (complete 120 claim_a (held ∷ [])).1 ≡ true
unfolding complete any footjob.Jobs.Row.valid_claim footjob.Base.str_eq
a_completes = refl

get-queue : get 1 queue ≡ some fresh
unfolding get footjob.Base.find
get-queue = refl

get_taken : get 1 (taken ∷ []) ≡ some taken
unfolding get footjob.Base.find
get_taken = refl

get-done : get 1 (done ∷ []) ≡ some done
unfolding get footjob.Base.find
get-done = refl

types_given : is_empty (job_types none) ≡ false
unfolding job_types is_empty
types_given = refl

ids_given : is_empty only_first ≡ false
unfolding is_empty
ids_given = refl

run-IsValid_example : IsValid (run queue calls)
run-IsValid_example = run-IsValid queue calls queue-IsValid

reclaim-IsIdle_example : IsIdle claim_a (run (taken ∷ []) calls)
unfolding run
reclaim-IsIdle_example =
    reclaim-IsIdle 110 170 worker_a worker_b (pos 50) (pos 50) none none none none queue (held ∷ [])
      (taken ∷ []) claim_a claim_b [] calls queue-IsValid a_claims b_claims refl

complete_once_example : IsIdle claim_b (run (complete 120 claim_a (held ∷ [])).0 calls)
complete_once_example =
    complete_once 120 claim_a claim_b (held ∷ []) calls held-IsValid a_completes refl

grants-le_example : grants 1 queue calls + 0 ≤ 3
grants-le_example = grants-le 1 queue calls fresh queue-IsValid get-queue

claim_next-Choice_example :
    Choice 110 worker_a none only_first queue
      (claim_next 110 worker_a (pos 50) none only_first queue)
claim_next-Choice_example =
    claim_next-Choice 110 worker_a 50 none only_first queue refl types_given ids_given

enqueue_again_example :
    enqueue 300 9 10 (codes "classify") (codes "post:1") 5 none (run queue calls)
    ≡ ok (run queue calls, 1)
enqueue_again_example =
    enqueue_again 100 300 1 9 7 10 (codes "classify") (codes "post:1") 3 5 none none [] queue 1
      calls nothing-IsValid enqueues_fresh (omega arith)

claim_next-Grant_example : Grant worker_a queue (held ∷ []) claim_a
claim_next-Grant_example =
    claim_next-Grant 110 worker_a (pos 50) none none queue (held ∷ []) claim_a queue-IsValid
      a_claims

run-Follows_example : Follows queue (run queue calls)
run-Follows_example = run-Follows queue calls queue-IsValid
