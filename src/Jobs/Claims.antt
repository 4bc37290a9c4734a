-- ===== src/Jobs/Claims.antt =====
-- What a successful `claim_next` does to the row that it claims.
use mathlib.Core.Option
use footjob.Base.{
  ℕ, ◌+◌, ◌≤◌, ◌<◌, ◌≡◌, refl, sym, ◌∙◌, subst, ap, inl, inr, Bool, true, ◌&&◌, ◌||◌, Option, none,
  some, List, Str, arith, update_where, find, In, Bool-cases, Option-cases, find-update_where,
  updated, str_eq, ℤ, pos, negsuc, Result, ok,
}
use footjob.Jobs.Row.{
  Job, JobClaim, claimed_values, after, claimable, is_running, exhausted, expired_values,
}
use footjob.Jobs.{
  Table, has_id, get, claim_next, claim_candidate, claim_of, job_types, is_empty,
  terminalize_exhausted_leases, in_filter,
}
use footjob.Jobs.Integrity.{IsValid, found_row, Changes-IsValid, step-IsValid, run-IsValid}
use footjob.Jobs.Evolution.{run-Follows}
use footjob.Jobs.Changes.{candidate-claimable, terminalize-Changes}
use footjob.Jobs.Fencing.{IsIdle, stale-IsIdle, get-update_where}
use footjob.Jobs.Steps.{Call, step, run, claims}

-- The claim `c` was granted for a row of `jobs`, and `later` holds that row as claimed.
pub record Grant (worker : Str) (jobs later : Table) (c : JobClaim) : Type 0 where
  pub before : Job
  pub after_row : Job
  pub held : get c.id jobs ≡ some before
  pub taken : get c.id later ≡ some after_row
  pub counted : before.attempt_count < after_row.attempt_count
  pub current : c.attempt_count ≡ after_row.attempt_count
  pub limit : after_row.attempt_count ≤ after_row.max_attempts
  pub owner : after_row.lease_owner ≡ some worker
  pub running : is_running after_row.state ≡ true

candidate-Grant :
    (now until : ℕ) (worker : Str) (jobs live : Table) (j k : Job)
    → get j.id jobs ≡ some k
    → k.attempt_count ≤ j.attempt_count
    → get j.id live ≡ some j
    → claimable now j ≡ true
    → Grant worker jobs
        (update_where (has_id j.id) (claimed_values now worker until) live)
        (claim_of worker j)
unfolding claimed_values claimable
candidate-Grant now until worker jobs live j k gk le g c = record {
  before = k;
  after_row = claimed_values now worker until j;
  held = gk;
  taken = get-update_where _ _ live j (λ k. refl) g (ground arith);
  counted = omega arith;
  current = omega arith;
  limit = ground arith;
  owner = refl;
  running = refl;
}

Grant-moved :
    {worker : Str} {jobs later later' : Table} {c c' : JobClaim}
    → c ≡ c'
    → later ≡ later'
    → Grant worker jobs later c
    → Grant worker jobs later' c'
Grant-moved {worker} {jobs} {later} {c' = c'} p q g =
    subst (λ t. Grant worker jobs t c') q (subst (λ z. Grant worker jobs later z) p g)

claim_candidate-Grant :
    (now : ℕ) (worker : Str) (lease : ℤ) (jobs live later : Table) (o : Option Job) (c : JobClaim)
    → ((j : Job) → o ≡ some j → In j live × (claimable now j ≡ true))
    → IsValid live
    → ((j : Job)
        → In j live
        → (k : Job) × (get j.id jobs ≡ some k) × (k.attempt_count ≤ j.attempt_count))
    → claim_candidate now worker lease live o ≡ ok (later, some c)
    → Grant worker jobs later c
unfolding claim_candidate after
claim_candidate-Grant now worker lease jobs live later none c inside v old h = ground arith
claim_candidate-Grant now worker (negsuc n) jobs live later (some j) c inside v old h = ground arith
claim_candidate-Grant now worker (pos d) jobs live later (some j) c inside v old h =
    let (m, t) = inside j refl in
    let (k, gk, le) = old j m in
    let g = candidate-Grant now (now + d) worker jobs live j k gk le (found_row live j v.ids m) t in
    let e : update_where (has_id j.id) (claimed_values now worker (now + d)) live ≡ later =
      ground arith in
    let f : claim_of worker j ≡ c = ground arith in Grant-moved f e g

-- Failing the exhausted leases neither adds rows nor changes an attempt count.
live_row :
    (now : ℕ) (types : Option (List Str)) (jobs : Table) (j : Job)
    → get j.id (terminalize_exhausted_leases now types jobs) ≡ some j
    → (k : Job) × (get j.id jobs ≡ some k) × (k.attempt_count ≤ j.attempt_count)
unfolding terminalize_exhausted_leases get expired_values
live_row now types jobs j g = elim (Option-cases (find (has_id j.id) jobs)) [
  | inl e ↦ absurd (gone (moved ∙ ap (Option.map _) e))
  | inr (k, e) ↦ (k, e, grew k (moved ∙ ap (Option.map _) e))
]
  where
    expired : Job → Bool
    expired k = in_filter str_eq types k.job_type && exhausted now k

    moved : some j ≡ Option.map (updated expired (expired_values now)) (find (has_id j.id) jobs)
    moved =
        sym g
        ∙ find-update_where (has_id j.id) expired (expired_values now) (λ x. ground arith) jobs

    gone : some j ≡ none → ⊥
    gone e = cc

    grew :
        (k : Job)
        → some j ≡ some (updated expired (expired_values now) k)
        → k.attempt_count ≤ j.attempt_count
    grew k e = ground arith

-- A claim is granted for a row of the valid table: the row's attempts grow by the grant, stay
-- within its limit, and the row is leased to the worker.
pub claim_next-Grant :
    (now : ℕ) (worker : Str) (lease : ℤ) (types : Option (List Str)) (ids : Option (List ℕ))
    (jobs later : Table) (c : JobClaim)
    → IsValid jobs
    → claim_next now worker lease types ids jobs ≡ ok (later, some c)
    → Grant worker jobs later c
unfolding claim_next
claim_next-Grant now worker lease types ids jobs later c v h =
    elim (Bool-cases (is_empty (job_types types) || is_empty ids)) [
      | inl e ↦ absurd (refused (rw e at h))
      | inr e ↦
          claim_candidate-Grant now worker lease jobs _ later _ c
            (candidate-claimable now (job_types types) ids _) live_valid
            (λ j m. live_row now (job_types types) jobs j (found_row _ j live_valid.ids m))
            (rw e at h)
    ]
  where
    live_valid : IsValid (terminalize_exhausted_leases now (job_types types) jobs)
    live_valid = Changes-IsValid (terminalize-Changes now (job_types types) jobs) v

    refused : ◌≡◌ {A = Result (Table × Option JobClaim)} (ok (jobs, none)) (ok (later, some c)) → ⊥
    refused e = ground arith

-- The table after a successful call.
pub committed_at :
    (now : ℕ) (worker : Str) (lease : ℤ) (types : Option (List Str)) (ids : Option (List ℕ))
    (jobs later : Table) (c : JobClaim)
    → claim_next now worker lease types ids jobs ≡ ok (later, some c)
    → step jobs (now, claims worker lease types ids) ≡ later
unfolding step
committed_at now worker lease types ids jobs later c h = rw h

-- When a job is claimed again in a valid table, after whatever calls, the earlier claim on it is
-- fenced off: it completes, fails, renews and releases nothing, then or after any further calls.
pub reclaim-IsIdle :
    (now now' : ℕ) (worker worker' : Str) (lease lease' : ℤ) (types types' : Option (List Str))
    (ids ids' : Option (List ℕ)) (jobs granted later : Table) (c c' : JobClaim)
    (between afterwards : List (ℕ × Call))
    → IsValid jobs
    → claim_next now worker lease types ids jobs ≡ ok (granted, some c)
    → claim_next now' worker' lease' types' ids' (run granted between) ≡ ok (later, some c')
    → c'.id ≡ c.id
    → IsIdle c (run later afterwards)
reclaim-IsIdle now now' worker worker' lease lease' types types' ids ids' jobs granted later c c'
      between afterwards v h h' same =
    let first = claim_next-Grant now worker lease types ids jobs granted c v h in
    let v₁ : IsValid granted =
      subst IsValid (committed_at now worker lease types ids jobs granted c h)
        (step-IsValid jobs _ v) in
    let v₂ = run-IsValid granted between v₁ in
    let second = claim_next-Grant now' worker' lease' types' ids' _ later c' v₂ h' in
    let v₃ : IsValid later =
      subst IsValid (committed_at now' worker' lease' types' ids' _ later c' h')
        (step-IsValid _ _ v₂) in
    let (k, gk, e) = (run-Follows granted between v₁).at c.id first.after_row first.taken in
    let taken : get c.id later ≡ some second.after_row = rw (← same) second.taken in
    let held : get c.id (run granted between) ≡ some second.before = rw (← same) second.held in
    let p : k ≡ second.before = cc in
    stale-IsIdle c later second.after_row afterwards v₃ taken
      (omega (arith, first.current, e.attempts, second.counted, ap (λ z. z.attempt_count) p))
