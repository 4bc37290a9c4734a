-- ===== src/Jobs/Evolution.antt =====
-- Each call of `DurableJobRepository` only lets rows evolve.
use mathlib.Core.Option
use footjob.Base.{
  ℕ, ◌≡◌, refl, sym, ◌∙◌, ap, subst, inl, inr, Bool, true, some, List, [], ◌∷◌, Str, ==→eq, arith,
  updated, update_where, find-key, find-append, find-update_where, In, Distinct, Bool-cases,
}
use footjob.Jobs.Row.{
  Job, JobClaim, valid_claim, owned_claim, claimable, exhausted, expired_values, claimed_values,
  completed_values, retried_values, failed_values, renewed_values,
}
use footjob.Jobs.{Table, has_id, get}
use footjob.Jobs.Integrity.{
  IsValid, RowUpdate-KeepsKeys, found_row, step-IsValid, same_id, Changes-IsValid,
}
use footjob.Jobs.Changes.{
  RowUpdate, expiry, claiming, completion, renewal, retry, failure, Changes, unchanged, inserted,
  changed, step-Changes,
}
use footjob.Jobs.Steps.{
  Call, Evolves, Evolves-live, Evolves-refl, Follows, Follows-refl, Follows-trans, step, run,
}

pub get-id : (id : ℕ) (jobs : Table) (j : Job) → get id jobs ≡ some j → j.id ≡ id
unfolding get
get-id id jobs j h = ==→eq j.id id (find-key (has_id id) jobs j h)

-- An UPDATE that keeps the primary key moves each row by what it does to that row.
pub Follows-update :
    (test : Job → Bool) (f : Job → Job) (jobs : Table)
    → ((j : Job) → (f j).id ≡ j.id)
    → ((k : Job) → get k.id jobs ≡ some k → test k ≡ true → Evolves k (f k))
    → Follows jobs (update_where test f jobs)
unfolding get
Follows-update test f jobs keep moved = record {
  at = λ id j h. (
    updated test f j,
    find-update_where (has_id id) test f (kept id) jobs ∙ ap (Option.map (updated test f)) h,
    evolved id j h,
  );
}
  where
    kept : (id : ℕ) (x : Job) → has_id id (updated test f x) ≡ has_id id x
    kept id x = ground (arith, keep x)

    evolved : (id : ℕ) (j : Job) → get id jobs ≡ some j → Evolves j (updated test f j)
    evolved id j h = elim (Bool-cases (test j)) [
      | inl e ↦ rw e (moved j (subst (λ i. get i jobs ≡ some j) (sym (get-id id jobs j h)) h) e)
      | inr e ↦ rw e (Evolves-refl j)
    ]

Evolves-completed :
    (now : ℕ) (claim : JobClaim) (j : Job)
    → valid_claim now claim j ≡ true
    → Evolves j (completed_values now j)
unfolding valid_claim completed_values
Evolves-completed now claim j h = Evolves-live j _ refl refl refl refl (omega arith) (ground arith)

Evolves-renewed :
    (now until : ℕ) (claim : JobClaim) (j : Job)
    → valid_claim now claim j ≡ true
    → Evolves j (renewed_values now until j)
unfolding valid_claim renewed_values
Evolves-renewed now until claim j h =
    Evolves-live j _ refl refl refl refl (omega arith) (ground arith)

Evolves-expired : (now : ℕ) (j : Job) → exhausted now j ≡ true → Evolves j (expired_values now j)
unfolding exhausted expired_values
Evolves-expired now j h = Evolves-live j _ refl refl refl refl (omega arith) (ground arith)

Evolves-claimed :
    (now until : ℕ) (worker : Str) (j : Job)
    → claimable now j ≡ true
    → Evolves j (claimed_values now worker until j)
unfolding claimable claimed_values
Evolves-claimed now until worker j h =
    Evolves-live j _ refl refl refl refl (omega arith) (ground arith)

Evolves-retried :
    (now at : ℕ) (code : Str) (claim : JobClaim) (j : Job)
    → owned_claim claim j ≡ true
    → Evolves j (retried_values now at code j)
unfolding owned_claim retried_values
Evolves-retried now at code claim j h =
    Evolves-live j _ refl refl refl refl (omega arith) (ground arith)

Evolves-failed :
    (now at : ℕ) (code : Str) (claim : JobClaim) (j : Job)
    → owned_claim claim j ≡ true
    → Evolves j (failed_values now at code j)
unfolding owned_claim failed_values
Evolves-failed now at code claim j h =
    Evolves-live j _ refl refl refl refl (omega arith) (ground arith)

found_unique :
    (jobs : Table) (j k : Job)
    → Distinct same_id jobs
    → In j jobs
    → get k.id jobs ≡ some k
    → has_id j.id k ≡ true
    → k ≡ j
found_unique jobs j k d m g t =
    let e : k.id ≡ j.id = ==→eq k.id j.id t in
    let p = found_row jobs j d m in let q = subst (λ i. get i jobs ≡ some k) e g in cc

update-Follows :
    {jobs : Table} {test : Job → Bool} {f : Job → Job}
    → RowUpdate jobs test f
    → IsValid jobs
    → Follows jobs (update_where test f jobs)
update-Follows {jobs} {test} {f} u v =
    Follows-update test f jobs (RowUpdate-KeepsKeys u).id_kept (moved u)
  where
    moved :
        {test : Job → Bool} {f : Job → Job}
        → RowUpdate jobs test f
        → (k : Job) → get k.id jobs ≡ some k
        → test k ≡ true
        → Evolves k (f k)
    moved (expiry now test h) k g t = Evolves-expired now k (h k t)
    moved (claiming now until worker j inside c w) k g t =
        Evolves-claimed now until worker k
          (subst (λ z. claimable now z ≡ true) (sym (found_unique jobs j k v.ids inside g t)) c)
    moved (completion now claim) k g t = Evolves-completed now claim k t
    moved (renewal now until claim) k g t = Evolves-renewed now until claim k t
    moved (retry now at code claim test safe h) k g t = Evolves-retried now at code claim k (h k t)
    moved (failure now at code claim test safe h) k g t =
        Evolves-failed now (at k) code claim k (h k t)

pub Changes-Follows : {jobs later : Table} → Changes jobs later → IsValid jobs → Follows jobs later
unfolding get
Changes-Follows {jobs} unchanged v = Follows-refl jobs
Changes-Follows {jobs} (inserted now id trace job_type key max fields fresh free) v = record {
  at = λ i j h. (j, find-append (has_id i) jobs _ j h, Evolves-refl j);
}
Changes-Follows {jobs} (changed test f so_far u) v =
    Follows-trans jobs _ _ (Changes-Follows so_far v) (update-Follows u (Changes-IsValid so_far v))

pub step-Follows : (jobs : Table) (c : ℕ × Call) → IsValid jobs → Follows jobs (step jobs c)
step-Follows jobs c v = Changes-Follows (step-Changes jobs c) v

-- After any calls on a valid table, every row is still there with its id, type, key and limit,
-- its attempts never shrink, and a finished row is unchanged.
pub run-Follows : (jobs : Table) (cs : List (ℕ × Call)) → IsValid jobs → Follows jobs (run jobs cs)
unfolding run
run-Follows jobs [] v = Follows-refl jobs
run-Follows jobs (c ∷ cs) v =
    Follows-trans jobs (step jobs c) _ (step-Follows jobs c v)
      (run-Follows (step jobs c) cs (step-IsValid jobs c v))
