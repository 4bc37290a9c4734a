-- ===== src/Jobs/Row.antt =====
-- A row of the table `durable_jobs` (freelancer_bot/persistence/schema.py) with the table's CHECK
-- constraints, and the row's part of each statement in freelancer_bot/persistence/jobs.py.
use footjob.Base.{
  ℕ, Bool, true, false, ◌&&◌, Option, none, some, [], ◌∷◌, Str, codes, str_eq, ltb, leb, ◌==◌,
  if◌then◌else◌, is_some, is_none, length, is_ascii_alpha, is_identifier_char, all_chars, ℤ, pos,
  negsuc, Result, ok, err, value_error, ◌+◌,
}

pub data State : Type 0 where
  queued running completed failed : State

abbrev pub is_running : State → Bool
is_running running = true
is_running _ = false

abbrev pub is_queued : State → Bool
is_queued queued = true
is_queued _ = false

pub record Job : Type 0 where
  pub id : ℕ
  pub job_type : Str
  pub idempotency_key : Str
  pub state : State
  pub attempt_count : ℕ
  pub max_attempts : ℕ
  pub available_at : ℕ
  pub claimed_at : Option ℕ
  pub lease_owner : Option Str
  pub lease_expires_at : Option ℕ
  pub correlation_id : ℕ
  pub failure_code : Option Str
  pub created_at : ℕ
  pub updated_at : ℕ
  pub completed_at : Option ℕ
  pub failed_at : Option ℕ

pub record JobClaim : Type 0 where
  pub id : ℕ
  pub job_type : Str
  pub idempotency_key : Str
  pub correlation_id : ℕ
  pub attempt_count : ℕ
  pub max_attempts : ℕ
  pub worker_id : Str
  pub reclaimed : Bool

abbrev pub nonempty : Str → Bool
nonempty [] = false
nonempty (c ∷ s) = true

-- `^[A-Za-z][A-Za-z0-9_.-]{0,63}$`
unfoldable pub safe_failure_code : Str → Bool
unfolding is_ascii_alpha is_identifier_char all_chars
safe_failure_code [] = false
safe_failure_code (c ∷ s) = is_ascii_alpha c && all_chars is_identifier_char s && leb (length s) 63

unfoldable pub sanitize_failure_code : Str → Str
unfolding safe_failure_code
sanitize_failure_code value = if safe_failure_code value then value else codes "ProcessingError"

-- `job_type_nonempty`, `idempotency_key_nonempty`, `max_attempts_positive`.
unfoldable pub enqueued_fields_valid : Job → Bool
enqueued_fields_valid j = nonempty j.job_type && nonempty j.idempotency_key && ltb 0 j.max_attempts

abbrev pub failure_code_safe : Option Str → Bool
failure_code_safe none = true
failure_code_safe (some code) = safe_failure_code code

abbrev pub owner_nonempty : Option Str → Bool
owner_nonempty none = false
owner_nonempty (some owner) = nonempty owner

-- The branch of `state_fields_consistent` for a state.
unfoldable pub fields_consistent : State → Job → Bool
fields_consistent queued j =
    is_none j.claimed_at
    && is_none j.lease_owner
    && is_none j.lease_expires_at
    && is_none j.completed_at
    && is_none j.failed_at
fields_consistent running j =
    ltb 0 j.attempt_count
    && is_some j.claimed_at
    && owner_nonempty j.lease_owner
    && is_some j.lease_expires_at
    && is_none j.completed_at
    && is_none j.failed_at
fields_consistent completed j =
    ltb 0 j.attempt_count
    && is_none j.claimed_at
    && is_none j.lease_owner
    && is_none j.lease_expires_at
    && is_some j.completed_at
    && is_none j.failed_at
    && is_none j.failure_code
fields_consistent failed j =
    ltb 0 j.attempt_count
    && is_none j.claimed_at
    && is_none j.lease_owner
    && is_none j.lease_expires_at
    && is_none j.completed_at
    && is_some j.failed_at
    && is_some j.failure_code

-- Every CHECK constraint of the table; a count is never negative here.
unfoldable pub checks : Job → Bool
unfolding enqueued_fields_valid fields_consistent
checks j =
    enqueued_fields_valid j
    && leb j.attempt_count j.max_attempts
    && failure_code_safe j.failure_code
    && fields_consistent j.state j

-- `_after`: now() plus a duration that must not be negative.
unfoldable pub after : ℕ → ℤ → Result ℕ
after now (pos duration) = ok (now + duration)
after now (negsuc n) = err value_error

abbrev pub some_leb : Option ℕ → ℕ → Bool
some_leb none now = false
some_leb (some t) now = leb t now

abbrev pub some_gtb : Option ℕ → ℕ → Bool
some_gtb none now = false
some_gtb (some t) now = ltb now t

abbrev pub is_owner : Option Str → Str → Bool
is_owner none worker = false
is_owner (some owner) worker = str_eq owner worker

-- `_valid_claim`
unfoldable pub valid_claim : ℕ → JobClaim → Job → Bool
valid_claim now claim j =
    j.id == claim.id
    && is_running j.state
    && is_owner j.lease_owner claim.worker_id
    && j.attempt_count == claim.attempt_count
    && some_gtb j.lease_expires_at now

-- The same without the lease's expiry, in `release_for_shutdown`.
unfoldable pub owned_claim : JobClaim → Job → Bool
owned_claim claim j =
    j.id == claim.id
    && is_running j.state
    && is_owner j.lease_owner claim.worker_id
    && j.attempt_count == claim.attempt_count

abbrev pub ready : State → Job → ℕ → Bool
ready queued j now = leb j.available_at now
ready running j now = some_leb j.lease_expires_at now
ready _ j now = false

-- `type_filter` and `id_filter` are tests of their own.
unfoldable pub claimable : ℕ → Job → Bool
claimable now j = ltb j.attempt_count j.max_attempts && ready j.state j now

unfoldable pub exhausted : ℕ → Job → Bool
exhausted now j =
    is_running j.state && some_leb j.lease_expires_at now && leb j.max_attempts j.attempt_count

unfoldable pub expired_values : ℕ → Job → Job
expired_values now j = record j {
  state = failed;
  claimed_at = none;
  lease_owner = none;
  lease_expires_at = none;
  failure_code = some (codes "LeaseExpired");
  completed_at = none;
  failed_at = some now;
  updated_at = now;
}

unfoldable pub claimed_values : ℕ → Str → ℕ → Job → Job
claimed_values now worker_id lease_until j = record j {
  state = running;
  attempt_count = j.attempt_count + 1;
  claimed_at = some now;
  lease_owner = some worker_id;
  lease_expires_at = some lease_until;
  failure_code = none;
  completed_at = none;
  failed_at = none;
  updated_at = now;
}

unfoldable pub completed_values : ℕ → Job → Job
completed_values now j = record j {
  state = completed;
  claimed_at = none;
  lease_owner = none;
  lease_expires_at = none;
  failure_code = none;
  completed_at = some now;
  failed_at = none;
  updated_at = now;
}

-- `fail`, and `release_for_shutdown`: back to the queue for `available_at`, or terminal.
unfoldable pub retried_values : ℕ → ℕ → Str → Job → Job
retried_values now available_at code j = record j {
  state = queued;
  available_at = available_at;
  claimed_at = none;
  lease_owner = none;
  lease_expires_at = none;
  failure_code = some code;
  completed_at = none;
  failed_at = none;
  updated_at = now;
}

-- `fail` leaves `available_at` alone on a terminal failure; `release_for_shutdown` sets it.
unfoldable pub failed_values : ℕ → ℕ → Str → Job → Job
failed_values now available_at code j = record j {
  state = failed;
  available_at = available_at;
  claimed_at = none;
  lease_owner = none;
  lease_expires_at = none;
  failure_code = some code;
  completed_at = none;
  failed_at = some now;
  updated_at = now;
}

unfoldable pub renewed_values : ℕ → ℕ → Job → Job
renewed_values now lease_until j = record j {
  lease_expires_at = some lease_until;
  updated_at = now;
}
