-- ===== src/Jobs/Fencing.antt =====
-- A claim is good until the job is claimed again or finishes, and from then on it does nothing.
use mathlib.Core.Option
use footjob.Base.{
  any-witness, find-update_where, ℕ, ◌+◌, ◌<◌, ◌≡◌, refl, ◌∙◌, subst, ap, inl, inr, Bool, true,
  false, none, some, List, [], ◌∷◌, Str, arith, update_where, update_where_id, updated, find, any,
  Bool-cases, Distinct, leb, ==→eq, ℤ, pos, negsuc, codes,
}
use footjob.Jobs.Row.{
  Job, JobClaim, valid_claim, owned_claim, after, sanitize_failure_code, retried_values,
  failed_values, completed_values,
}
use footjob.Jobs.{Table, has_id, get, complete, fail, release_for_shutdown, renew_lease}
use footjob.Jobs.Constraints.{valid_claim-owned}
use footjob.Jobs.Integrity.{IsValid, same_id, step-IsValid, run-IsValid, found_row}
use footjob.Jobs.Evolution.{run-Follows}
use footjob.Jobs.Steps.{completes, Call, step, run, committed, is_terminal}

any_weaken :
    (test key : Job → Bool) (jobs : Table)
    → ((k : Job) → test k ≡ true → key k ≡ true)
    → any key jobs ≡ false
    → any test jobs ≡ false
unfolding any
any_weaken test key [] h f = refl
any_weaken test key (j ∷ jobs) h f = ground (arith, h j, any_weaken test key jobs h)

-- A statement that names an id touches the row with that id, or none.
any_at :
    (id : ℕ) (test : Job → Bool) (jobs : Table) (j : Job)
    → ((k : Job) → test k ≡ true → has_id id k ≡ true)
    → Distinct same_id jobs
    → get id jobs ≡ some j
    → any test jobs ≡ test j
unfolding any get find
any_at id test [] j h d g = ground arith
any_at id test (x ∷ xs) j h d g = elim (Bool-cases (has_id id x)) [
  | inl e ↦
      let p : x ≡ j = ground arith in
      let q : x.id ≡ id = ==→eq x.id id e in
      subst (λ z. any test (x ∷ xs) ≡ test z) p
        (rw (any_weaken test (same_id x) xs (λ k t. rw q (h k t)) d.0) (ground arith))
  | inr e ↦ ground (arith, h x, any_at id test xs j h d.1)
]

-- The claim no longer changes the table.
pub record IsIdle (claim : JobClaim) (jobs : Table) : Type 0 where
  pub completes_nothing : (now : ℕ) → complete now claim jobs ≡ (jobs, false)
  pub releases_nothing : (now : ℕ) → release_for_shutdown now claim jobs ≡ (jobs, none)
  pub fails_nothing :
      (now : ℕ) (code : Str) (delay : ℤ) (retryable : Bool)
      → committed jobs (fail now claim code delay retryable jobs) ≡ jobs
  pub renews_nothing :
      (now : ℕ) (lease : ℤ) → committed jobs (renew_lease now claim lease jobs) ≡ jobs

module _ (claim : JobClaim) (jobs : Table) (free : any (owned_claim claim) jobs ≡ false) where
  invalid : (now : ℕ) → any (valid_claim now claim) jobs ≡ false
  invalid now = any_weaken _ _ jobs (valid_claim-owned now claim) free

  untouched : (now : ℕ) (f : Job → Job) → update_where (valid_claim now claim) f jobs ≡ jobs
  untouched now f = update_where_id _ f jobs (invalid now)

  unowned-complete : (now : ℕ) → complete now claim jobs ≡ (jobs, false)
  unfolding complete
  unowned-complete now = rw (untouched now (completed_values now), invalid now)

  unowned-release : (now : ℕ) → release_for_shutdown now claim jobs ≡ (jobs, none)
  unfolding release_for_shutdown
  unowned-release now = elim (Bool-cases (leb claim.max_attempts claim.attempt_count)) [
    | inl e ↦ rw (
      e,
      update_where_id (owned_claim claim) (failed_values now now (codes "ShutdownTimeout")) jobs
          free,
      free,
    )
    | inr e ↦ rw (
      e,
      update_where_id (owned_claim claim) (retried_values now now (codes "ShutdownTimeout")) jobs
          free,
      free,
    )
  ]

  unowned-fail :
      (now : ℕ) (code : Str) (delay : ℤ) (retryable : Bool)
      → committed jobs (fail now claim code delay retryable jobs) ≡ jobs
  unfolding fail after
  unowned-fail now code (pos d) retryable =
      let u = untouched now in
      ground (
        arith,
        u (λ j. failed_values now j.available_at (sanitize_failure_code code) j),
        u (retried_values now (now + d) (sanitize_failure_code code)),
      )
  unowned-fail now code (negsuc n) retryable =
      let u = untouched now in
      ground (arith, u (λ j. failed_values now j.available_at (sanitize_failure_code code) j))

  unowned-renew : (now : ℕ) (lease : ℤ) → committed jobs (renew_lease now claim lease jobs) ≡ jobs
  unfolding renew_lease after
  unowned-renew now (pos d) = untouched now _
  unowned-renew now (negsuc n) = refl

unowned-IsIdle :
    (claim : JobClaim) (jobs : Table) → any (owned_claim claim) jobs ≡ false → IsIdle claim jobs
unowned-IsIdle claim jobs h = record {
  completes_nothing = unowned-complete claim jobs h;
  releases_nothing = unowned-release claim jobs h;
  fails_nothing = unowned-fail claim jobs h;
  renews_nothing = unowned-renew claim jobs h;
}

owned_id : (claim : JobClaim) (k : Job) → owned_claim claim k ≡ true → has_id claim.id k ≡ true
unfolding owned_claim
owned_id claim k h = ground arith

disowned-IsIdle :
    (claim : JobClaim) (jobs : Table) (j : Job)
    → IsValid jobs
    → get claim.id jobs ≡ some j
    → owned_claim claim j ≡ false
    → IsIdle claim jobs
disowned-IsIdle claim jobs j v g h =
    unowned-IsIdle claim jobs (any_at claim.id _ jobs j (owned_id claim) v.ids g ∙ h)

outdated :
    (claim : JobClaim) (j : Job)
    → claim.attempt_count < j.attempt_count
    → owned_claim claim j ≡ false
unfolding owned_claim
outdated claim j h = ground arith

-- Once the row of a claim counts more attempts than the claim, the claim changes nothing, at any
-- later time and after any further calls.
pub stale-IsIdle :
    (claim : JobClaim) (jobs : Table) (j : Job) (cs : List (ℕ × Call))
    → IsValid jobs
    → get claim.id jobs ≡ some j
    → claim.attempt_count < j.attempt_count
    → IsIdle claim (run jobs cs)
stale-IsIdle claim jobs j cs v g h =
    let (k, gk, e) = (run-Follows jobs cs v).at claim.id j g in
    disowned-IsIdle claim _ k (run-IsValid jobs cs v) gk
      (outdated claim k (omega (arith, e.attempts)))

finished_disowned :
    (claim : JobClaim) (j : Job) → is_terminal j.state ≡ true → owned_claim claim j ≡ false
unfolding owned_claim
finished_disowned claim j h = ground arith

-- A finished job of a valid table stays as it is after any further calls, and no claim on it
-- changes anything.
finished-IsIdle :
    (claim : JobClaim) (jobs : Table) (j : Job) (cs : List (ℕ × Call))
    → IsValid jobs
    → get claim.id jobs ≡ some j
    → is_terminal j.state ≡ true
    → (get claim.id (run jobs cs) ≡ some j) × IsIdle claim (run jobs cs)
finished-IsIdle claim jobs j cs v g h =
    let (k, gk, e) = (run-Follows jobs cs v).at claim.id j g in
    let same = subst (λ z. get claim.id (run jobs cs) ≡ some z) (e.finished h) gk in
    (same, disowned-IsIdle claim _ j (run-IsValid jobs cs v) same (finished_disowned claim j h))

-- The row after an update that hits it.
pub get-update_where :
    (test : Job → Bool) (f : Job → Job) (jobs : Table) (j : Job)
    → ((k : Job) → (f k).id ≡ k.id)
    → get j.id jobs ≡ some j
    → test j ≡ true
    → get j.id (update_where test f jobs) ≡ some (f j)
unfolding get
get-update_where test f jobs j keep g t =
    find-update_where (has_id j.id) test f (λ x. ground (arith, keep x)) jobs
    ∙ ap (Option.map (updated test f)) g
    ∙ rw t

completed_row :
    (now : ℕ) (claim : JobClaim) (jobs : Table)
    → IsValid jobs
    → (complete now claim jobs).1 ≡ true
    → (j : Job) × (get claim.id (complete now claim jobs).0 ≡ some (completed_values now j))
unfolding complete
completed_row now claim jobs v h =
    let (j, m, t) = any-witness (valid_claim now claim) jobs h in
    let e : j.id ≡ claim.id =
      ==→eq j.id claim.id (owned_id claim j (valid_claim-owned now claim j t)) in
    (
      j,
      subst
          (λ i.
            get i (update_where (valid_claim now claim) (completed_values now) jobs)
            ≡ some (completed_values now j))
          e (get-update_where _ _ jobs j kept (found_row jobs j v.ids m) t),
    )
  where
    kept : (k : Job) → (completed_values now k).id ≡ k.id
    kept k = unfold completed_values in refl

-- When completing a claim in a valid table returns true, the job is completed for good: no claim
-- on it, whoever holds it, changes anything after any further calls.
pub complete_once :
    (now : ℕ) (claim other : JobClaim) (jobs : Table) (cs : List (ℕ × Call))
    → IsValid jobs
    → (complete now claim jobs).1 ≡ true
    → other.id ≡ claim.id
    → IsIdle other (run (complete now claim jobs).0 cs)
complete_once now claim other jobs cs v h same =
    let (j, g) = completed_row now claim jobs v h in
    let valid : IsValid (complete now claim jobs).0 =
      unfold step in step-IsValid jobs (now, completes claim) v in
    (finished-IsIdle other _ (completed_values now j) cs valid (rw same g)
      (unfold completed_values in refl)).1
