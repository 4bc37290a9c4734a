-- ===== src/Jobs.antt =====
-- `DurableJobRepository` of freelancer_bot/persistence/jobs.py over the table `durable_jobs`. A
-- method is one transaction: it gets the clock of the database, `now()`, and returns the table and
-- its result; on an error the transaction is rolled back and there is no new table.
pub mod Row
pub mod Constraints
pub mod Steps
pub mod Changes
mod Evolution
pub mod Integrity
pub mod Fencing
pub mod Claims
pub mod Attempts
pub mod Selection
pub mod Enqueueing
pub mod Tests
use footjob.Base.{
  ℕ, zero, suc, Bool, true, false, not, ◌&&◌, ◌||◌, Option, none, some, List, [], ◌∷◌, ◌++◌, map,
  Str, codes, str_eq, strip, ltb, leb, ◌==◌, if◌then◌else◌, length, any, select, find, update_where,
  ℤ, Result, ok, err, integrity_error, runtime_error, ◌>>=◌, ◌>>◌, guard, is_none,
}
use Row.{
  State, queued, running, completed, failed, is_running, Job, JobClaim, nonempty,
  enqueued_fields_valid, sanitize_failure_code, after, valid_claim, owned_claim, claimable,
  exhausted, expired_values, claimed_values, completed_values, retried_values, failed_values,
  renewed_values,
}

abbrev pub Table : Type 0
Table = List Job

abbrev pub has_id : ℕ → Job → Bool
has_id id j = j.id == id

-- The unique key `uq_durable_jobs_type_idempotency_key`.
abbrev pub has_key : Str → Str → Job → Bool
has_key job_type key j = str_eq j.job_type job_type && str_eq j.idempotency_key key

-- The row that `enqueue` inserts, the column defaults of the schema included.
abbrev pub new_job : ℕ → ℕ → ℕ → Str → Str → ℕ → Job
new_job now id trace_id job_type key max_attempts = record {
  id = id;
  job_type = job_type;
  idempotency_key = key;
  state = queued;
  attempt_count = 0;
  max_attempts = max_attempts;
  available_at = now;
  claimed_at = none;
  lease_owner = none;
  lease_expires_at = none;
  correlation_id = trace_id;
  failure_code = none;
  created_at = now;
  updated_at = now;
  completed_at = none;
  failed_at = none;
}

-- The insert is refused by the CHECK constraints, skipped on the unique key of the type and the
-- idempotency key, and refused on the primary key.
insert_job : Job → Table → Result (Table × ℕ)
insert_job j jobs =
    if not (enqueued_fields_valid j)
    then err integrity_error
    else elim (find (has_key j.job_type j.idempotency_key) jobs) [
      | some existing ↦ ok (jobs, existing.id)
      | none ↦ if any (has_id j.id) jobs then err integrity_error else ok (jobs ++ j ∷ [], j.id)
    ]

-- `id` and `trace_id` are the values of `uuid4()`.
unfoldable pub enqueue : ℕ → ℕ → ℕ → Str → Str → ℕ → Option ℕ → Table → Result (Table × ℕ)
unfolding insert_job
enqueue now id trace_id job_type key max_attempts correlation_id jobs =
    let trace : ℕ = elim correlation_id [ none ↦ trace_id | some c ↦ c ] in
    insert_job (new_job now id trace job_type key max_attempts) jobs

-- The distinct, stripped, nonblank types; `none` accepts every type. The code sorts them, and
-- only tests membership and emptiness afterwards.
unfoldable pub job_types : Option (List Str) → Option (List Str)
job_types none = none
job_types (some values) = some (select nonempty (map strip values))

-- The filter on a column that is absent, or given as a list.
in_filter {ℓ} : {A : Type ℓ} → (A → A → Bool) → Option (List A) → A → Bool
in_filter eq none x = true
in_filter eq (some xs) x = any (eq x) xs

pub is_empty {ℓ} : {A : Type ℓ} → Option (List A) → Bool
is_empty none = false
is_empty (some []) = true
is_empty (some (x ∷ xs)) = false

-- ORDER BY (state is running first), available_at, created_at, id.
running_rank : State → ℕ
running_rank running = 0
running_rank _ = 1

pub precedes : Job → Job → Bool
unfolding running_rank
precedes a b =
    ltb (running_rank a.state) (running_rank b.state)
    || (running_rank a.state == running_rank b.state
        && (ltb a.available_at b.available_at
            || (a.available_at == b.available_at
                && (ltb a.created_at b.created_at
                    || (a.created_at == b.created_at && ltb a.id b.id)))))

earlier : Job → Option Job → Job
unfolding precedes
earlier j none = j
earlier j (some k) = if precedes k j then k else j

-- ORDER BY … LIMIT 1
pub first_in_order : List Job → Option Job
first_in_order [] = none
first_in_order (j ∷ js) = some (earlier j (first_in_order js))

pub terminalize_exhausted_leases : ℕ → Option (List Str) → Table → Table
unfolding in_filter
terminalize_exhausted_leases now types =
    update_where (λ j. in_filter str_eq types j.job_type && exhausted now j) (expired_values now)

pub is_candidate : ℕ → Option (List Str) → Option (List ℕ) → Job → Bool
unfolding in_filter
is_candidate now types ids j =
    in_filter str_eq types j.job_type && in_filter ◌==◌ ids j.id && claimable now j

abbrev pub claim_of : Str → Job → JobClaim
claim_of worker_id j = record {
  id = j.id;
  job_type = j.job_type;
  idempotency_key = j.idempotency_key;
  correlation_id = j.correlation_id;
  attempt_count = suc j.attempt_count;
  max_attempts = j.max_attempts;
  worker_id = worker_id;
  reclaimed = is_running j.state;
}

-- An empty owner is refused by the table's CHECK constraint.
claim_candidate : ℕ → Str → ℤ → Table → Option Job → Result (Table × Option JobClaim)
claim_candidate now worker_id lease_duration jobs none = ok (jobs, none)
claim_candidate now worker_id lease_duration jobs (some j) = do
  lease_until ← after now lease_duration
  guard (nonempty worker_id) integrity_error
  ok (
    update_where (has_id j.id) (claimed_values now worker_id lease_until) jobs,
    some (claim_of worker_id j),
  )

pub claim_next :
    ℕ → Str → ℤ → Option (List Str) → Option (List ℕ) → Table → Result (Table × Option JobClaim)
unfolding job_types is_empty terminalize_exhausted_leases claim_candidate
claim_next now worker_id lease_duration types ids jobs =
    let accepted = job_types types in
    if is_empty accepted || is_empty ids
    then ok (jobs, none)
    else let live = terminalize_exhausted_leases now accepted jobs in
      claim_candidate now worker_id lease_duration live
        (first_in_order (select (is_candidate now accepted ids) live))

-- The result says whether a row was updated; an id is a primary key, so at most one is.
pub complete : ℕ → JobClaim → Table → Table × Bool
complete now claim jobs = (
  update_where (valid_claim now claim) (completed_values now) jobs,
  any (valid_claim now claim) jobs,
)

-- The state that RETURNING gives back, if a row was updated.
returned : Bool → State → Option State
returned updated s = if updated then some s else none

pub fail : ℕ → JobClaim → Str → ℤ → Bool → Table → Result (Table × Option State)
unfolding returned
fail now claim failure_code retry_delay retryable jobs =
    let code = sanitize_failure_code failure_code in
    let hit = any (valid_claim now claim) jobs in
    if not retryable || leb claim.max_attempts claim.attempt_count
    then ok (
      update_where (valid_claim now claim) (λ j. failed_values now j.available_at code j) jobs,
      returned hit failed,
    )
    else do
      available_at ← after now retry_delay
      ok (
        update_where (valid_claim now claim) (retried_values now available_at code) jobs,
        returned hit queued,
      )

pub release_for_shutdown : ℕ → JobClaim → Table → Table × Option State
unfolding returned
release_for_shutdown now claim jobs =
    let hit = any (owned_claim claim) jobs in
    let code = codes "ShutdownTimeout" in
    if leb claim.max_attempts claim.attempt_count
    then (update_where (owned_claim claim) (failed_values now now code) jobs, returned hit failed)
    else (update_where (owned_claim claim) (retried_values now now code) jobs, returned hit queued)

pub renew_lease : ℕ → JobClaim → ℤ → Table → Result (Table × Bool)
renew_lease now claim lease_duration jobs = do
  lease_until ← after now lease_duration
  ok (
    update_where (valid_claim now claim) (renewed_values now lease_until) jobs,
    any (valid_claim now claim) jobs,
  )

pub get : ℕ → Table → Option Job
get id = find (has_id id)
