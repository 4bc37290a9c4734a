-- ===== src/Jobs/Selection.antt =====
-- Which row `claim_next` takes: the first claimable one in the order of its query.
use footjob.Base.{
  ℕ, ◌≡◌, refl, sym, subst, inl, inr, true, false, Option, none, some, List, [], ◌∷◌, Str, arith,
  In, Bool-cases, pos, Result, ok, select, select-In, In-select,
}
use footjob.Jobs.Row.{Job, JobClaim, after, nonempty}
use footjob.Jobs.Changes.{first_in_order-In}
use footjob.Jobs.{
  Table, claim_next, claim_candidate, claim_of, job_types, precedes, earlier, is_empty,
  terminalize_exhausted_leases, first_in_order, is_candidate,
}

precedes_asym : (j k : Job) → precedes k j ≡ true → precedes j k ≡ false
unfolding precedes
precedes_asym j k h = ground arith

precedes_trans : (k m j : Job) → precedes k m ≡ false → precedes m j ≡ false → precedes k j ≡ false
unfolding precedes
precedes_trans k m j p q = ground arith

-- No row of the list comes before `j`.
abbrev IsFirst : Job → List Job → Type 0
IsFirst j js = (k : Job) → In k js → precedes k j ≡ false

precedes_self : (j : Job) → precedes j j ≡ false
unfolding precedes
precedes_self j = ground arith

none_selected : (js : List Job) (k : Job) → first_in_order js ≡ none → In k js → ⊥
unfolding first_in_order
none_selected [] k h m = m
none_selected (j ∷ js) k h m = cc

IsFirst-cons :
    (x j : Job) (js : List Job) → precedes x j ≡ false → IsFirst j js → IsFirst j (x ∷ js)
IsFirst-cons x j js h f k (inl p) = subst (λ z. precedes z j ≡ false) (sym p) h
IsFirst-cons x j js h f k (inr m) = f k m

earlier-IsFirst :
    (x : Job) (js : List Job) (o : Option Job)
    → first_in_order js ≡ o
    → ((y : Job) → o ≡ some y → IsFirst y js)
    → IsFirst (earlier x o) (x ∷ js)
unfolding earlier
earlier-IsFirst x js none e ih =
    IsFirst-cons x x js (precedes_self x) (λ k m. absurd (none_selected js k e m))
earlier-IsFirst x js (some y) e ih = elim (Bool-cases (precedes y x)) [
  | inl lt ↦ rw lt (IsFirst-cons x y js (precedes_asym x y lt) (ih y refl))
  | inr ge ↦
      rw ge (IsFirst-cons x x js (precedes_self x) (λ k m. precedes_trans k y x (ih y refl k m) ge))
]

first_in_order-IsFirst : (js : List Job) (j : Job) → first_in_order js ≡ some j → IsFirst j js
unfolding first_in_order
first_in_order-IsFirst [] j h = λ k m. absurd m
first_in_order-IsFirst (x ∷ js) j h =
    let e : earlier x (first_in_order js) ≡ j = cc in
    subst (λ z. IsFirst z (x ∷ js)) e
      (earlier-IsFirst x js (first_in_order js) refl (first_in_order-IsFirst js))

-- The rows that `claim_next` chooses from: those that are left when the exhausted leases have been
-- failed, of an accepted type and id, claimable now.
abbrev pub Candidate : ℕ → Option (List Str) → Option (List ℕ) → Table → Job → Type 0
Candidate now types ids jobs j =
    In j (terminalize_exhausted_leases now (job_types types) jobs)
    × (is_candidate now (job_types types) ids j ≡ true)

-- What `claim_next` promises. Given a worker's name, a duration that is not negative, and filters
-- that are not empty: it takes the first candidate in the order of the query, and hands out no
-- claim only if there is none.
pub data Choice (now : ℕ) (worker : Str) (types : Option (List Str)) (ids : Option (List ℕ))
    (jobs : Table) (r : Result (Table × Option JobClaim)) : Type 0 where
  took :
      (j : Job) (later : Table)
      → Candidate now types ids jobs j
      → ((k : Job) → Candidate now types ids jobs k → precedes k j ≡ false)
      → r ≡ ok (later, some (claim_of worker j))
      → Choice now worker types ids jobs r
  idle :
      ((k : Job) → ¬ Candidate now types ids jobs k)
      → r ≡ ok (terminalize_exhausted_leases now (job_types types) jobs, none)
      → Choice now worker types ids jobs r

candidate_choice :
    (now : ℕ) (worker : Str) (lease : ℕ) (types : Option (List Str)) (ids : Option (List ℕ))
    (jobs : Table) (o : Option Job)
    → nonempty worker ≡ true
    → first_in_order (
        select
          (is_candidate now (job_types types) ids)
          (terminalize_exhausted_leases now (job_types types) jobs))
      ≡ o
    → Choice now worker types ids jobs (
        claim_candidate now worker
          (pos lease)
          (terminalize_exhausted_leases now (job_types types) jobs)
          o)
unfolding claim_candidate after
candidate_choice now worker lease types ids jobs none w e =
    idle (λ k c. none_selected _ k e (In-select _ _ k c.0 c.1)) refl
candidate_choice now worker lease types ids jobs (some j) w e = rw w (
    took j _ (select-In _ _ j (first_in_order-In _ j e))
      (λ k c. first_in_order-IsFirst _ j e k (In-select _ _ k c.0 c.1)) refl)

-- With a worker's name, a lease that is not negative and filters that are not empty, claiming
-- never fails: it takes the first candidate in the order of the query, and hands out no claim
-- exactly if there is no candidate.
pub claim_next-Choice :
    (now : ℕ) (worker : Str) (lease : ℕ) (types : Option (List Str)) (ids : Option (List ℕ))
    (jobs : Table)
    → nonempty worker ≡ true
    → is_empty (job_types types) ≡ false
    → is_empty ids ≡ false
    → Choice now worker types ids jobs (claim_next now worker (pos lease) types ids jobs)
unfolding claim_next
claim_next-Choice now worker lease types ids jobs w t i =
    rw (t, i) (candidate_choice now worker lease types ids jobs _ w refl)
