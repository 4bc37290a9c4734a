-- ===== src/Jobs/Enqueueing.antt =====
-- `enqueue` is idempotent in the type and the idempotency key.
use mathlib.Core.Path.{subst₂}
use footjob.Base.{
  ◌<◌, ℕ, ◌≡◌, refl, sym, ◌∙◌, subst, inl, inr, Bool, true, Option, none, some, List, [], ◌∷◌, ◌++◌,
  In, find-In, Str, str_eq→eq, str_eq_self, str_eq_flip, find-append_none, arith, find, Bool-cases,
  Option-cases, ok, find-key, Distinct,
}
use footjob.Jobs.Row.{Job, enqueued_fields_valid}
use footjob.Jobs.{Table, has_id, has_key, get, enqueue, insert_job, new_job}
use footjob.Jobs.Integrity.{IsValid, same_key, run-IsValid, step-IsValid, found_row}
use footjob.Jobs.Evolution.{run-Follows}
use footjob.Jobs.Steps.{Call, step, run, Follows, enqueues}

found-In : (key : Job → Bool) (jobs : Table) (j : Job) → find key jobs ≡ some j → In j jobs
unfolding find
found-In key [] j h = cc
found-In key (x ∷ xs) j h = elim (Bool-cases (key x)) [
  | inl e ↦ inl (ground arith)
  | inr e ↦ inr (found-In key xs j (ground arith))
]

-- A row is found by its type and key.
found_key :
    (jobs : Table) (j : Job)
    → Distinct same_key jobs
    → In j jobs
    → find (has_key j.job_type j.idempotency_key) jobs ≡ some j
found_key jobs j d m =
    find-In same_key jobs j
      (λ a. ground (arith, str_eq_self a.job_type, str_eq_self a.idempotency_key))
      (λ a b.
        ground (
          arith,
          str_eq_flip b.job_type a.job_type,
          str_eq_flip b.idempotency_key a.idempotency_key,
        ))
      d m

new_key :
    (now id trace : ℕ) (job_type key : Str) (max : ℕ)
    → has_key job_type key (new_job now id trace job_type key max) ≡ true
new_key now id trace job_type key max = ground (arith, str_eq_self job_type, str_eq_self key)

inserted_row :
    (j : Job) (jobs later : Table) (result : ℕ)
    → find (has_key j.job_type j.idempotency_key) jobs ≡ none
    → insert_job j jobs ≡ ok (later, result)
    → (jobs ++ j ∷ [] ≡ later) × (j.id ≡ result)
unfolding insert_job
inserted_row j jobs later result e h = ground arith

kept_row :
    (j old : Job) (jobs later : Table) (result : ℕ)
    → find (has_key j.job_type j.idempotency_key) jobs ≡ some old
    → insert_job j jobs ≡ ok (later, result)
    → (jobs ≡ later) × (old.id ≡ result)
unfolding insert_job
kept_row j old jobs later result e h = ground arith

-- After an enqueue, the key finds the row whose id was returned.
enqueued_row :
    (j : Job) (jobs later : Table) (result : ℕ)
    → insert_job j jobs ≡ ok (later, result)
    → (k : Job) × (find (has_key j.job_type j.idempotency_key) later ≡ some k) × (k.id ≡ result)
unfolding find
enqueued_row j jobs later result h =
    elim (Option-cases (find (has_key j.job_type j.idempotency_key) jobs)) [
      | inr (old, e) ↦ let (p, q) = kept_row j old jobs later result e h in (old, rw (← p) e, q)
      | inl e ↦
          let (p, q) = inserted_row j jobs later result e h in
          (
            j,
            rw (← p) (
                find-append_none (has_key j.job_type j.idempotency_key) jobs (j ∷ []) e
                ∙ own_key j),
            q,
          )
    ]
  where
    own_key : (j : Job) → find (has_key j.job_type j.idempotency_key) (j ∷ []) ≡ some j
    own_key j = ground (arith, str_eq_self j.job_type, str_eq_self j.idempotency_key)

key_parts :
    (job_type key : Str) (j : Job)
    → has_key job_type key j ≡ true
    → (j.job_type ≡ job_type) × (j.idempotency_key ≡ key)
key_parts job_type key j h =
    (str_eq→eq j.job_type job_type (ground arith), str_eq→eq j.idempotency_key key (ground arith))

enqueued_later :
    (job_type key : Str) (jobs later : Table) (j : Job)
    → IsValid jobs
    → IsValid later
    → Follows jobs later
    → find (has_key job_type key) jobs ≡ some j
    → (k : Job) × (find (has_key job_type key) later ≡ some k) × (k.id ≡ j.id)
enqueued_later job_type key jobs later j v₀ v f found =
    let (k, gk, e) = f.at j.id j (found_row jobs j v₀.ids (found-In _ jobs j found)) in
    let (t, u) = key_parts job_type key j (find-key _ jobs j found) in
    (
      k,
      subst₂ (λ a b. find (has_key a b) later ≡ some k) (e.same_type ∙ t) (e.same_key ∙ u)
          (found_key later k v.keys (found-get later k j.id gk)),
      e.same_id,
    )
  where
    found-get : (later : Table) (k : Job) (i : ℕ) → get i later ≡ some k → In k later
    found-get later k i g = unfold get in found-In (has_id i) later k g

same_result :
    (j old : Job) (jobs : Table)
    → enqueued_fields_valid j ≡ true
    → find (has_key j.job_type j.idempotency_key) jobs ≡ some old
    → insert_job j jobs ≡ ok (jobs, old.id)
unfolding insert_job
same_result j old jobs f e = rw (f, e)

fields_again :
    (j k : Job) (jobs later : Table) (result : ℕ)
    → insert_job j jobs ≡ ok (later, result)
    → k.job_type ≡ j.job_type
    → k.idempotency_key ≡ j.idempotency_key
    → 0 < k.max_attempts
    → enqueued_fields_valid k ≡ true
unfolding insert_job enqueued_fields_valid
fields_again j k jobs later result h t u m = ground arith

trace_of : ℕ → Option ℕ → ℕ
trace_of trace none = trace
trace_of trace (some c) = c

enqueue_lem :
    (now id trace : ℕ) (job_type key : Str) (max : ℕ) (corr : Option ℕ) (jobs : Table)
    → enqueue now id trace job_type key max corr jobs
      ≡ insert_job (new_job now id (trace_of trace corr) job_type key max) jobs
unfolding enqueue trace_of
enqueue_lem now id trace job_type key max none jobs = refl
enqueue_lem now id trace job_type key max (some c) jobs = refl

-- An enqueue that succeeded in a valid table can be repeated after any further calls: for the
-- same type and key and any positive limit it returns the id of the first and leaves the table as
-- it is.
pub enqueue_again :
    (now now' id id' trace trace' : ℕ) (job_type key : Str) (max max' : ℕ) (corr corr' : Option ℕ)
    (jobs later : Table) (result : ℕ) (cs : List (ℕ × Call))
    → IsValid jobs
    → enqueue now id trace job_type key max corr jobs ≡ ok (later, result)
    → 0 < max'
    → enqueue now' id' trace' job_type key max' corr' (run later cs) ≡ ok (run later cs, result)
enqueue_again now now' id id' trace trace' job_type key max max' corr corr' jobs later result cs v h
      m =
    let first : Job = new_job now id (trace_of trace corr) job_type key max in
    let again : Job = new_job now' id' (trace_of trace' corr') job_type key max' in
    let p : insert_job first jobs ≡ ok (later, result) =
      sym (enqueue_lem now id trace job_type key max corr jobs) ∙ h in
    let v₁ : IsValid later =
      subst IsValid (stepped h)
        (step-IsValid jobs (now, enqueues id trace job_type key max corr) v) in
    let (j, found, e) = enqueued_row first jobs later result p in
    let (k, found', e') =
      enqueued_later job_type key later _ j v₁ (run-IsValid later cs v₁) (run-Follows later cs v₁)
        found in
    enqueue_lem now' id' trace' job_type key max' corr' _
    ∙ same_result again k (run later cs) (fields_again first again jobs later result p refl refl m)
        found'
    ∙ rw (e', e)
  where
    stepped :
        enqueue now id trace job_type key max corr jobs ≡ ok (later, result)
        → step jobs (now, enqueues id trace job_type key max corr) ≡ later
    stepped q = unfold step in rw q
