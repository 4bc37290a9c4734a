-- ===== src/Jobs/Constraints.antt =====
-- Every update of freelancer_bot/persistence/jobs.py keeps the CHECK constraints of the table.
use footjob.Base.{ℕ, ◌≡◌, true, Str, ltb, arith}
use footjob.Jobs.Row.{
  Job, JobClaim, checks, safe_failure_code, sanitize_failure_code, valid_claim, owned_claim,
  exhausted, expired_values, claimed_values, completed_values, retried_values, failed_values,
  renewed_values, nonempty,
}

-- Whatever the exception's name, the code that is stored fits the column's pattern.
pub sanitize_failure_code-safe :
    (value : Str) → safe_failure_code (sanitize_failure_code value) ≡ true
unfolding sanitize_failure_code
sanitize_failure_code-safe value = ground arith

abbrev pub IsChecked : Job → Type 0
IsChecked j = checks j ≡ true

pub completed_values-IsChecked :
    (now : ℕ) (claim : JobClaim) (j : Job)
    → IsChecked j
    → valid_claim now claim j ≡ true
    → IsChecked (completed_values now j)
unfolding checks valid_claim completed_values
completed_values-IsChecked now claim j h v = ground arith

pub retried_values-IsChecked :
    (now at : ℕ) (code : Str) (j : Job)
    → safe_failure_code code ≡ true
    → IsChecked j
    → IsChecked (retried_values now at code j)
unfolding checks retried_values
retried_values-IsChecked now at code j s h = ground arith

pub failed_values-IsChecked :
    (now at : ℕ) (code : Str) (claim : JobClaim) (j : Job)
    → safe_failure_code code ≡ true
    → IsChecked j
    → owned_claim claim j ≡ true
    → IsChecked (failed_values now at code j)
unfolding checks owned_claim failed_values
failed_values-IsChecked now at code claim j s h v = ground arith

pub valid_claim-owned :
    (now : ℕ) (claim : JobClaim) (j : Job)
    → valid_claim now claim j ≡ true
    → owned_claim claim j ≡ true
unfolding valid_claim owned_claim
valid_claim-owned now claim j h = ground arith

pub expired_values-IsChecked :
    (now : ℕ) (j : Job) → IsChecked j → exhausted now j ≡ true → IsChecked (expired_values now j)
unfolding checks exhausted expired_values safe_failure_code
expired_values-IsChecked now j h v = ground arith

pub claimed_values-IsChecked :
    (now until : ℕ) (worker : Str) (j : Job)
    → nonempty worker ≡ true
    → IsChecked j
    → ltb j.attempt_count j.max_attempts ≡ true
    → IsChecked (claimed_values now worker until j)
unfolding checks claimed_values
claimed_values-IsChecked now until worker j w h v = ground arith

pub renewed_values-IsChecked :
    (now until : ℕ) (claim : JobClaim) (j : Job)
    → IsChecked j
    → valid_claim now claim j ≡ true
    → IsChecked (renewed_values now until j)
unfolding checks valid_claim renewed_values
renewed_values-IsChecked now until claim j h v = ground arith
