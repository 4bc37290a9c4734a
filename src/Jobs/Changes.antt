-- ===== src/Jobs/Changes.antt =====
-- The state machine behind `DurableJobRepository`: the inserts and updates that a call is made of,
-- each with what its WHERE clause has tested.
use footjob.Base.{
  ℕ, ◌≡◌, refl, inl, inr, Bool, true, false, not, ◌&&◌, ◌||◌, Option, none, some, List, [], ◌∷◌,
  ◌++◌, Str, arith, if◌then◌else◌, update_where, find, any, select, select-In, In, Bool-cases,
  Option-cases, ℤ, ok, leb, subst, pos, negsuc, ◌+◌, ◌>>=◌,
}
use footjob.Jobs.Row.{
  queued, Job, JobClaim, nonempty, valid_claim, owned_claim, claimable, exhausted,
  safe_failure_code, enqueued_fields_valid, expired_values, claimed_values, completed_values,
  retried_values, failed_values, renewed_values, after, sanitize_failure_code,
}
use footjob.Jobs.{
  Table, has_id, has_key, new_job, insert_job, enqueue, job_types, is_candidate, first_in_order,
  earlier, precedes, is_empty, returned, terminalize_exhausted_leases, claim_candidate, claim_next,
  complete, fail, release_for_shutdown, renew_lease,
}
use footjob.Jobs.Constraints.{sanitize_failure_code-safe, valid_claim-owned}
use footjob.Jobs.Steps.{Call, step, committed, enqueues, claims, completes, fails, releases, renews}

pub data RowUpdate (jobs : Table) : (Job → Bool) → (Job → Job) → Type 0 where
  expiry :
      (now : ℕ) (test : Job → Bool)
      → ((j : Job) → test j ≡ true → exhausted now j ≡ true)
      → RowUpdate jobs test (expired_values now)
  claiming :
      (now until : ℕ) (worker : Str) (j : Job)
      → In j jobs
      → claimable now j ≡ true
      → nonempty worker ≡ true
      → RowUpdate jobs (has_id j.id) (claimed_values now worker until)
  completion :
      (now : ℕ) (claim : JobClaim) → RowUpdate jobs (valid_claim now claim) (completed_values now)
  renewal :
      (now until : ℕ) (claim : JobClaim)
      → RowUpdate jobs (valid_claim now claim) (renewed_values now until)
  retry :
      (now at : ℕ) (code : Str) (claim : JobClaim) (test : Job → Bool)
      → safe_failure_code code ≡ true
      → ((j : Job) → test j ≡ true → owned_claim claim j ≡ true)
      → RowUpdate jobs test (retried_values now at code)
  failure :
      (now : ℕ) (at : Job → ℕ) (code : Str) (claim : JobClaim) (test : Job → Bool)
      → safe_failure_code code ≡ true
      → ((j : Job) → test j ≡ true → owned_claim claim j ≡ true)
      → RowUpdate jobs test (λ j. failed_values now (at j) code j)

pub data Changes (jobs : Table) : Table → Type 0 where
  unchanged : Changes jobs jobs
  inserted :
      (now id trace : ℕ) (job_type key : Str) (max : ℕ)
      → enqueued_fields_valid (new_job now id trace job_type key max) ≡ true
      → any (has_id id) jobs ≡ false
      → find (has_key job_type key) jobs ≡ none
      → Changes jobs (jobs ++ new_job now id trace job_type key max ∷ [])
  changed :
      {middle : Table} (test : Job → Bool) (f : Job → Job)
      → Changes jobs middle
      → RowUpdate middle test f
      → Changes jobs (update_where test f middle)

chosen-In : (b : Bool) (k j : Job) (js : List Job) → In k js → In (if b then k else j) (j ∷ js)
chosen-In true k j js h = inr h
chosen-In false k j js h = inl refl

earlier-In :
    (j : Job) (js : List Job) (o : Option Job)
    → ((k : Job) → o ≡ some k → In k js)
    → In (earlier j o) (j ∷ js)
unfolding earlier
earlier-In j js none inside = inl refl
earlier-In j js (some k) inside = chosen-In (precedes k j) k j js (inside k refl)

-- The candidate is one of the rows.
pub first_in_order-In : (js : List Job) (j : Job) → first_in_order js ≡ some j → In j js
unfolding first_in_order
first_in_order-In [] j h = ground arith
first_in_order-In (x ∷ js) j h =
    let e : earlier x (first_in_order js) ≡ j = cc in
    subst (λ z. In z (x ∷ js)) e (earlier-In x js (first_in_order js) (first_in_order-In js))

insert_job-Changes :
    (now id trace : ℕ) (job_type key : Str) (max : ℕ) (jobs : Table)
    → Changes jobs (committed jobs (insert_job (new_job now id trace job_type key max) jobs))
unfolding insert_job
insert_job-Changes now id trace job_type key max jobs =
    elim (Bool-cases (enqueued_fields_valid (new_job now id trace job_type key max))) [
      | inr e ↦ rw e unchanged
      | inl e ↦ rw e (elim (Option-cases (find (has_key job_type key) jobs)) [
        | inr (old, found) ↦ rw (found) unchanged
        | inl free ↦ rw free (elim (Bool-cases (any (has_id id) jobs)) [
          | inl taken ↦ rw taken unchanged
          | inr fresh ↦ rw fresh (inserted now id trace job_type key max e fresh free)
        ])
      ])
    ]

enqueue-Changes :
    (now id trace : ℕ) (job_type key : Str) (max : ℕ) (corr : Option ℕ) (jobs : Table)
    → Changes jobs (committed jobs (enqueue now id trace job_type key max corr jobs))
unfolding enqueue
enqueue-Changes now id trace job_type key max none jobs =
    insert_job-Changes now id trace job_type key max jobs
enqueue-Changes now id trace job_type key max (some c) jobs =
    insert_job-Changes now id c job_type key max jobs

and_true : (a b : Bool) → (a && b) ≡ true → (a ≡ true) × (b ≡ true)
and_true a b h = ground arith

pub terminalize-Changes :
    (now : ℕ) (types : Option (List Str)) (jobs : Table)
    → Changes jobs (terminalize_exhausted_leases now types jobs)
unfolding terminalize_exhausted_leases
terminalize-Changes now types jobs =
    changed _ _ unchanged (expiry now _ (λ j h. (and_true _ _ h).1))

claim_candidate-Changes :
    (now : ℕ) (worker : Str) (lease : ℤ) (jobs live : Table) (o : Option Job)
    → Changes jobs live
    → ((j : Job) → o ≡ some j → In j live × (claimable now j ≡ true))
    → Changes jobs (committed jobs (claim_candidate now worker lease live o))
unfolding claim_candidate after
claim_candidate-Changes now worker lease jobs live none so_far inside = so_far
claim_candidate-Changes now worker (negsuc n) jobs live (some j) so_far inside = unchanged
claim_candidate-Changes now worker (pos d) jobs live (some j) so_far inside =
    elim (Bool-cases (nonempty worker)) [
      | inr e ↦ rw e unchanged
      | inl e ↦ rw e (
          changed _ _ so_far
            (claiming now (now + d) worker j (inside j refl).0 (inside j refl).1 e))
    ]

pub candidate-claimable :
    (now : ℕ) (types : Option (List Str)) (ids : Option (List ℕ)) (live : Table) (j : Job)
    → first_in_order (select (is_candidate now types ids) live) ≡ some j
    → In j live × (claimable now j ≡ true)
unfolding is_candidate
candidate-claimable now types ids live j h =
    let (inside, test) = select-In _ live j (first_in_order-In _ j h) in (inside, ground arith)

claim_next-Changes :
    (now : ℕ) (worker : Str) (lease : ℤ) (types : Option (List Str)) (ids : Option (List ℕ))
    (jobs : Table)
    → Changes jobs (committed jobs (claim_next now worker lease types ids jobs))
unfolding claim_next
claim_next-Changes now worker lease types ids jobs =
    elim (Bool-cases (is_empty (job_types types) || is_empty ids)) [
      | inl e ↦ rw e unchanged
      | inr e ↦ rw e (
          claim_candidate-Changes now worker lease jobs _ _
            (terminalize-Changes now (job_types types) jobs)
            (candidate-claimable now (job_types types) ids _))
    ]

fail-Changes :
    (now : ℕ) (claim : JobClaim) (code : Str) (delay : ℤ) (retryable : Bool) (jobs : Table)
    → Changes jobs (committed jobs (fail now claim code delay retryable jobs))
unfolding fail after
fail-Changes now claim code delay retryable jobs =
    let safe = sanitize_failure_code-safe code in
    elim (Bool-cases (not retryable || leb claim.max_attempts claim.attempt_count)) [
      | inl e ↦ rw e (
          changed _ _ unchanged
            (failure now (λ j. j.available_at) _ claim _ safe (valid_claim-owned now claim)))
      | inr e ↦ rw e (retried delay safe)
    ]
  where
    retried :
        (d : ℤ)
        → safe_failure_code (sanitize_failure_code code) ≡ true
        → Changes jobs (
            committed jobs (
              after now d >>= λ at. ok (
                update_where
                    (valid_claim now claim)
                    (retried_values now at (sanitize_failure_code code))
                    jobs,
                returned (any (valid_claim now claim) jobs) queued,
              )))
    retried (negsuc n) safe = unchanged
    retried (pos d) safe =
        changed _ _ unchanged (retry now (now + d) _ claim _ safe (valid_claim-owned now claim))

release-Changes :
    (now : ℕ) (claim : JobClaim) (jobs : Table)
    → Changes jobs (release_for_shutdown now claim jobs).0
unfolding release_for_shutdown safe_failure_code
release-Changes now claim jobs = elim (Bool-cases (leb claim.max_attempts claim.attempt_count)) [
  | inl e ↦ rw e (changed _ _ unchanged (failure now (λ _. now) _ claim _ refl (λ j h. h)))
  | inr e ↦ rw e (changed _ _ unchanged (retry now now _ claim _ refl (λ j h. h)))
]

renew-Changes :
    (now : ℕ) (claim : JobClaim) (lease : ℤ) (jobs : Table)
    → Changes jobs (committed jobs (renew_lease now claim lease jobs))
unfolding renew_lease after
renew-Changes now claim (pos d) jobs = changed _ _ unchanged (renewal now (now + d) claim)
renew-Changes now claim (negsuc n) jobs = unchanged

-- Every call is a chain of such changes.
pub step-Changes : (jobs : Table) (c : ℕ × Call) → Changes jobs (step jobs c)
unfolding step complete
step-Changes jobs (now, enqueues id trace job_type key max corr) =
    enqueue-Changes now id trace job_type key max corr jobs
step-Changes jobs (now, claims worker lease types ids) =
    claim_next-Changes now worker lease types ids jobs
step-Changes jobs (now, completes claim) = changed _ _ unchanged (completion now claim)
step-Changes jobs (now, fails claim code delay retryable) =
    fail-Changes now claim code delay retryable jobs
step-Changes jobs (now, releases claim) = release-Changes now claim jobs
step-Changes jobs (now, renews claim lease) = renew-Changes now claim lease jobs
