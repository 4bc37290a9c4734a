-- ===== src/Jobs/Attempts.antt =====
-- How often a job can be claimed.
use footjob.Base.{
  ℕ, suc, ◌+◌, ◌≤◌, ◌≡◌, refl, sym, ◌∙◌, inl, inr, Option, none, some, List, [], ◌∷◌, Str, arith,
  if◌then◌else◌, ◌==◌, Bool-cases, ℤ, Result, ok, err, ==→eq, find-All,
}
use footjob.Jobs.Row.{Job, JobClaim, checks}
use footjob.Jobs.{Table, has_id, get, claim_next}
use footjob.Jobs.Integrity.{IsValid, step-IsValid}
use footjob.Jobs.Evolution.{step-Follows}
use footjob.Jobs.Claims.{claim_next-Grant, committed_at}
use footjob.Jobs.Constraints.{IsChecked}
use footjob.Jobs.Steps.{Call, step, claims}

-- Whether a result of `claim_next` is a claim on the job.
granted : ℕ → Result (Table × Option JobClaim) → ℕ
granted id (ok (jobs, some c)) = if c.id == id then 1 else 0
granted id _ = 0

call_grants : ℕ → Table → ℕ × Call → ℕ
unfolding granted
call_grants id jobs (now, claims worker lease types ids) =
    granted id (claim_next now worker lease types ids jobs)
call_grants id jobs (now, _) = 0

-- The claims on a job that a history grants.
pub grants : ℕ → Table → List (ℕ × Call) → ℕ
unfolding call_grants
grants id jobs [] = 0
grants id jobs (c ∷ cs) = call_grants id jobs c + grants id (step jobs c) cs

claim_counts :
    (id now : ℕ) (worker : Str) (lease : ℤ) (types : Option (List Str)) (ids : Option (List ℕ))
    (jobs : Table) (j j' : Job)
    → IsValid jobs
    → get id jobs ≡ some j
    → get id (step jobs (now, claims worker lease types ids)) ≡ some j'
    → j.attempt_count ≤ j'.attempt_count
    → (r : Result (Table × Option JobClaim)) → claim_next now worker lease types ids jobs ≡ r
    → granted id r + j.attempt_count ≤ j'.attempt_count
unfolding granted
claim_counts id now worker lease types ids jobs j j' v g g' le (err e) h = omega arith
claim_counts id now worker lease types ids jobs j j' v g g' le (ok (later, none)) h = omega arith
claim_counts id now worker lease types ids jobs j j' v g g' le (ok (later, some c)) h =
    elim (Bool-cases (c.id == id)) [
      | inr e ↦ rw e (omega arith)
      | inl e ↦
          let grant = claim_next-Grant now worker lease types ids jobs later c v h in
          let same : c.id ≡ id = ==→eq c.id id e in
          let p : some grant.before ≡ some j = sym grant.held ∙ rw same g in
          let q : some grant.after_row ≡ some j' =
            sym grant.taken
            ∙ rw (same, ← committed_at now worker lease types ids jobs later c h) g' in
          rw e (counted grant.before grant.after_row p q grant.counted)
    ]
  where
    counted :
        (a b : Job)
        → some a ≡ some j
        → some b ≡ some j'
        → suc a.attempt_count ≤ b.attempt_count
        → 1 + j.attempt_count ≤ j'.attempt_count
    counted a b p q lt = ground arith

step_counts :
    (id : ℕ) (jobs : Table) (c : ℕ × Call) (j j' : Job)
    → IsValid jobs
    → get id jobs ≡ some j
    → get id (step jobs c) ≡ some j'
    → j.attempt_count ≤ j'.attempt_count
    → call_grants id jobs c + j.attempt_count ≤ j'.attempt_count
unfolding call_grants
step_counts id jobs (now, claims worker lease types ids) j j' v g g' le =
    claim_counts id now worker lease types ids jobs j j' v g g' le _ refl
step_counts id jobs (now, _) j j' v g g' le = omega arith

IsChecked-row :
    (id : ℕ) (jobs : Table) (j : Job) → IsValid jobs → get id jobs ≡ some j → IsChecked j
unfolding get
IsChecked-row id jobs j v g = find-All IsChecked (has_id id) jobs j v.rows g

within_limit : (j : Job) → IsChecked j → 0 + j.attempt_count ≤ j.max_attempts
unfolding checks
within_limit j h = ground arith

-- Over any history of a valid table, a job is claimed at most as often as its limit allows,
-- counted on from the attempts that its row holds.
pub grants-le :
    (id : ℕ) (jobs : Table) (cs : List (ℕ × Call)) (j : Job)
    → IsValid jobs
    → get id jobs ≡ some j
    → grants id jobs cs + j.attempt_count ≤ j.max_attempts
unfolding grants
grants-le id jobs [] j v g = within_limit j (IsChecked-row id jobs j v g)
grants-le id jobs (c ∷ cs) j v g =
    let (k, gk, e) = (step-Follows jobs c v).at id j g in
    omega (
      arith,
      step_counts id jobs c j k v g gk e.attempts,
      grants-le id (step jobs c) cs k (step-IsValid jobs c v) gk,
      e.same_limit,
    )
