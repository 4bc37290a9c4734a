-- ===== src/Jobs/Steps.antt =====
-- Histories of the table: any calls of `DurableJobRepository`, by any workers, at any times. Every
-- call keeps the constraints of the table, and no call takes back an attempt or reopens a job.
use footjob.Base.{
  ℕ, ◌≤◌, ◌≡◌, refl, sym, ◌∙◌, subst, Bool, true, false, Option, some, List, [], ◌∷◌, Str, arith, ℤ,
  Result, ok, err,
}
use footjob.Jobs.Row.{State, completed, failed, Job, JobClaim}
use footjob.Jobs.{
  Table, enqueue, claim_next, complete, fail, release_for_shutdown, renew_lease, get,
}

-- A call with its arguments. The identifiers of `enqueue` are fresh values of `uuid4()`.
pub data Call : Type 0 where
  enqueues : ℕ → ℕ → Str → Str → ℕ → Option ℕ → Call
  claims : Str → ℤ → Option (List Str) → Option (List ℕ) → Call
  completes : JobClaim → Call
  fails : JobClaim → Str → ℤ → Bool → Call
  releases : JobClaim → Call
  renews : JobClaim → ℤ → Call

-- A call that raises is rolled back.
abbrev pub committed {ℓ} : {A : Type ℓ} → Table → Result (Table × A) → Table
committed jobs (ok (jobs', a)) = jobs'
committed jobs (err e) = jobs

unfoldable pub step : Table → ℕ × Call → Table
step jobs (now, enqueues id trace job_type key max corr) =
    committed jobs (enqueue now id trace job_type key max corr jobs)
step jobs (now, claims worker lease types ids) =
    committed jobs (claim_next now worker lease types ids jobs)
step jobs (now, completes claim) = (complete now claim jobs).0
step jobs (now, fails claim code delay retryable) =
    committed jobs (fail now claim code delay retryable jobs)
step jobs (now, releases claim) = (release_for_shutdown now claim jobs).0
step jobs (now, renews claim lease) = committed jobs (renew_lease now claim lease jobs)

unfoldable pub run : Table → List (ℕ × Call) → Table
run jobs [] = jobs
run jobs (c ∷ cs) = run (step jobs c) cs

abbrev pub is_terminal : State → Bool
is_terminal completed = true
is_terminal failed = true
is_terminal _ = false

-- What may happen to a row: attempts only grow, and a finished row stays as it is.
pub record Evolves (a b : Job) : Type 0 where
  pub same_id : b.id ≡ a.id
  pub same_type : b.job_type ≡ a.job_type
  pub same_key : b.idempotency_key ≡ a.idempotency_key
  pub same_limit : b.max_attempts ≡ a.max_attempts
  pub attempts : a.attempt_count ≤ b.attempt_count
  pub finished : is_terminal a.state ≡ true → b ≡ a

pub Evolves-refl : (a : Job) → Evolves a a
Evolves-refl a = record {
  same_id = refl;
  same_type = refl;
  same_key = refl;
  same_limit = refl;
  attempts = omega arith;
  finished = λ _. refl;
}

pub Evolves-trans : (a b c : Job) → Evolves a b → Evolves b c → Evolves a c
Evolves-trans a b c p q = record {
  same_id = q.same_id ∙ p.same_id;
  same_type = q.same_type ∙ p.same_type;
  same_key = q.same_key ∙ p.same_key;
  same_limit = q.same_limit ∙ p.same_limit;
  attempts = omega (arith, p.attempts, q.attempts);
  finished = λ t.
      q.finished (subst (λ z. is_terminal z.state ≡ true) (sym (p.finished t)) t) ∙ p.finished t;
}

-- An update of a row that is not finished.
pub Evolves-live :
    (a b : Job)
    → b.id ≡ a.id
    → b.job_type ≡ a.job_type
    → b.idempotency_key ≡ a.idempotency_key
    → b.max_attempts ≡ a.max_attempts
    → a.attempt_count ≤ b.attempt_count
    → is_terminal a.state ≡ false
    → Evolves a b
Evolves-live a b i t k m n live = record {
  same_id = i;
  same_type = t;
  same_key = k;
  same_limit = m;
  attempts = n;
  finished = λ e. ground arith;
}

-- Every row of `jobs` is still there in `later`, and has evolved.
pub record Follows (jobs later : Table) : Type 0 where
  pub at :
      (id : ℕ) (j : Job)
      → get id jobs ≡ some j
      → (j' : Job) × (get id later ≡ some j') × Evolves j j'

pub Follows-refl : (jobs : Table) → Follows jobs jobs
Follows-refl jobs = record { at = λ id j h. (j, h, Evolves-refl j) }

pub Follows-trans : (a b c : Table) → Follows a b → Follows b c → Follows a c
Follows-trans a b c p q = record {
  at = λ id j h.
      let (k, hk, ek) = p.at id j h in
      let (l, hl, el) = q.at id k hk in (l, hl, Evolves-trans j k l ek el);
}
