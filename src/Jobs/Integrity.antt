-- ===== src/Jobs/Integrity.antt =====
-- The constraints of the table `durable_jobs`, kept by every call: the CHECK constraints, the
-- primary key and the unique key of the type and the idempotency key.
use footjob.Base.{
  ℕ, ◌≡◌, refl, sym, subst, Bool, true, false, none, some, List, [], ◌∷◌, Str, arith, update_where,
  find, any, In, All, All-append, All-update_where, All-update_where-In, Distinct, Distinct-append,
  Distinct-update_where, ltb, find-In, ==→eq, str_eq_flip, ==_self,
}
use footjob.Jobs.Row.{
  Job, claimable, enqueued_fields_valid, checks, expired_values, claimed_values, completed_values,
  retried_values, failed_values, renewed_values,
}
use footjob.Jobs.{Table, has_id, has_key, new_job, get}
use footjob.Jobs.Constraints.{
  IsChecked, completed_values-IsChecked, retried_values-IsChecked, failed_values-IsChecked,
  expired_values-IsChecked, claimed_values-IsChecked, renewed_values-IsChecked,
}
use footjob.Jobs.Changes.{
  RowUpdate, expiry, claiming, completion, renewal, retry, failure, Changes, unchanged, inserted,
  changed, step-Changes,
}
use footjob.Jobs.Steps.{Call, step, run}

abbrev pub same_id : Job → Job → Bool
same_id a b = has_id a.id b

abbrev pub same_key : Job → Job → Bool
same_key a b = has_key a.job_type a.idempotency_key b

pub record IsValid (jobs : Table) : Type 0 where
  pub rows : All IsChecked jobs
  pub ids : Distinct same_id jobs
  pub keys : Distinct same_key jobs

-- An update leaves the primary key and the unique key alone.
pub record KeepsKeys (f : Job → Job) : Type 0 where
  pub id_kept : (j : Job) → (f j).id ≡ j.id
  pub type_kept : (j : Job) → (f j).job_type ≡ j.job_type
  pub key_kept : (j : Job) → (f j).idempotency_key ≡ j.idempotency_key

pub RowUpdate-KeepsKeys :
    {jobs : Table} {test : Job → Bool} {f : Job → Job} → RowUpdate jobs test f → KeepsKeys f
unfolding expired_values claimed_values completed_values retried_values failed_values renewed_values
RowUpdate-KeepsKeys (expiry now test h) = record {
  id_kept = λ j. refl;
  type_kept = λ j. refl;
  key_kept = λ j. refl;
}
RowUpdate-KeepsKeys _ = record { id_kept = λ j. refl; type_kept = λ j. refl; key_kept = λ j. refl }

claimable-below :
    (now : ℕ) (j : Job) → claimable now j ≡ true → ltb j.attempt_count j.max_attempts ≡ true
unfolding claimable
claimable-below now j h = ground arith

-- The row that an id finds is the row of the table that has the id.
pub found_row :
    (jobs : Table) (j : Job) → Distinct same_id jobs → In j jobs → get j.id jobs ≡ some j
unfolding get
found_row jobs j d h = find-In same_id jobs j (λ a. ==_self a.id) (λ a b. ground arith) d h

pub id_unique :
    (jobs : Table) (j k : Job)
    → Distinct same_id jobs
    → In j jobs
    → In k jobs
    → has_id j.id k ≡ true
    → k ≡ j
id_unique jobs j k d mj mk t =
    let e : k.id ≡ j.id = ==→eq k.id j.id t in
    let p = found_row jobs j d mj in
    let q = subst (λ i. get i jobs ≡ some k) e (found_row jobs k d mk) in cc

update-rows :
    {jobs : Table} {test : Job → Bool} {f : Job → Job}
    → RowUpdate jobs test f
    → IsValid jobs
    → All IsChecked (update_where test f jobs)
update-rows {jobs} (expiry now test h) v =
    All-update_where IsChecked test _ (λ j c t. expired_values-IsChecked now j c (h j t)) jobs
      v.rows
update-rows {jobs} (completion now claim) v =
    All-update_where IsChecked _ _ (completed_values-IsChecked now claim) jobs v.rows
update-rows {jobs} (renewal now until claim) v =
    All-update_where IsChecked _ _ (renewed_values-IsChecked now until claim) jobs v.rows
update-rows {jobs} (retry now at code claim test safe h) v =
    All-update_where IsChecked test _ (λ j c t. retried_values-IsChecked now at code j safe c) jobs
      v.rows
update-rows {jobs} (failure now at code claim test safe h) v =
    All-update_where IsChecked test _
      (λ j c t. failed_values-IsChecked now (at j) code claim j safe c (h j t)) jobs v.rows
update-rows {jobs} (claiming now until worker j inside c w) v =
    All-update_where-In IsChecked _ _ jobs
      (λ k m p t. claimed_values-IsChecked now until worker k w p (
        subst (λ z. ltb z.attempt_count z.max_attempts ≡ true)
          (sym (id_unique jobs j k v.ids inside m t)) (claimable-below now j c)))
      v.rows

update-IsValid :
    {jobs : Table} {test : Job → Bool} {f : Job → Job}
    → RowUpdate jobs test f
    → IsValid jobs
    → IsValid (update_where test f jobs)
update-IsValid {jobs} {test} {f} u v =
    let k = RowUpdate-KeepsKeys u in
    record {
      rows = update-rows u v;
      ids =
          Distinct-update_where same_id test f (λ x y. ground (arith, k.id_kept y))
            (λ x y. ground (arith, k.id_kept x)) jobs v.ids;
      keys =
          Distinct-update_where same_key test f (λ x y. ground (arith, k.type_kept y, k.key_kept y))
            (λ x y. ground (arith, k.type_kept x, k.key_kept x)) jobs v.keys;
    }

new_job-IsChecked :
    (now id trace : ℕ) (job_type key : Str) (max : ℕ)
    → enqueued_fields_valid (new_job now id trace job_type key max) ≡ true
    → IsChecked (new_job now id trace job_type key max)
unfolding checks
new_job-IsChecked now id trace job_type key max h = ground arith

no_key :
    (job_type key : Str) (jobs : Table)
    → find (has_key job_type key) jobs ≡ none
    → any (has_key job_type key) jobs ≡ false
unfolding find any
no_key job_type key [] h = refl
no_key job_type key (j ∷ jobs) h = ground (arith, no_key job_type key jobs)

pub Changes-IsValid : {jobs later : Table} → Changes jobs later → IsValid jobs → IsValid later
Changes-IsValid unchanged v = v
Changes-IsValid {jobs} (inserted now id trace job_type key max fields fresh free) v = record {
  rows =
      All-append IsChecked jobs _ v.rows
        (new_job-IsChecked now id trace job_type key max fields, tt);
  ids = Distinct-append same_id jobs _ (λ x. ground arith) fresh v.ids;
  keys =
      Distinct-append same_key jobs _
        (λ x. ground (arith, str_eq_flip x.job_type job_type, str_eq_flip x.idempotency_key key))
        (no_key job_type key jobs free) v.keys;
}
Changes-IsValid (changed test f so_far u) v = update-IsValid u (Changes-IsValid so_far v)

-- Whatever is called, by whichever workers, with whichever arguments and at whichever times, the
-- table goes on to meet its CHECK constraints, its primary key and its unique key.
pub step-IsValid : (jobs : Table) (c : ℕ × Call) → IsValid jobs → IsValid (step jobs c)
step-IsValid jobs c v = Changes-IsValid (step-Changes jobs c) v

-- Whatever calls of the job repository are made, by whichever workers, with whichever arguments
-- and at whichever times, a table that meets its CHECK constraints, its primary key and its
-- unique key goes on to meet them.
pub run-IsValid : (jobs : Table) (cs : List (ℕ × Call)) → IsValid jobs → IsValid (run jobs cs)
unfolding run
run-IsValid jobs [] v = v
run-IsValid jobs (c ∷ cs) v = run-IsValid (step jobs c) cs (step-IsValid jobs c v)
