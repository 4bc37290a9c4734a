-- ===== src/Decisions/Places.antt =====
-- The place of a trace in a ranked list is the number of traces that outrank it.
use footjob.Base.{==_self, Bool, Bool-cases, In, In-All, List, [], ap, arith, false, inl, inr}
use footjob.Base.{none, not, refl, some, subst, sym, true, ℕ, ◌+◌, ◌<◌, ◌==◌, ◌∙◌, ◌∷◌, ◌≡◌}
use footjob.Base.Sorting.{Ordered}
use footjob.Decisions.{MatchTraceDraft, outranks, position}
use footjob.Decisions.Counting.{tally, tally_none, tally_some}
use footjob.Decisions.Ordering.{outranks-IsOrder}

unfoldable pub has_opportunity : ℕ → MatchTraceDraft → Bool
has_opportunity id t = t.opportunity_id == id

pub position-absent :
    (id start : ℕ) (ts : List MatchTraceDraft)
    → ((u : MatchTraceDraft) → In u ts → has_opportunity id u ≡ false)
    → position id start ts ≡ none
unfolding position has_opportunity
position-absent id start [] h = refl
position-absent id start (t ∷ ts) h =
    rw (position-absent id (start + 1) ts (λ u m. h u (inr m)), h t (inl refl))

-- No entry is followed by one that outranks it.
abbrev pub Ranked : List MatchTraceDraft → Type 0
Ranked = Ordered (λ t u. not (outranks u t))

pub not-true : (b : Bool) → not b ≡ true → b ≡ false
not-true b h = ground arith

self_false : (t : MatchTraceDraft) → outranks t t ≡ false
self_false t = elim (Bool-cases (outranks t t)) [ inl e ↦ outranks-IsOrder.asym t t e | inr e ↦ e ]

-- In a ranked list, the first entry has the place 0.
position_first :
    (t : MatchTraceDraft) (ts : List MatchTraceDraft) (start : ℕ)
    → Ranked (t ∷ ts)
    → ((u : MatchTraceDraft) → In u ts → has_opportunity t.opportunity_id u ≡ false)
    → position t.opportunity_id start (t ∷ ts) ≡ some (start + tally (λ u. outranks u t) (t ∷ ts))
unfolding position
position_first t ts start r h =
    rw
      (
        position-absent t.opportunity_id (start + 1) ts h,
        ==_self t.opportunity_id,
        tally_none (λ u. outranks u t) (t ∷ ts) none_before,
      )
      (ap some (omega arith))
  where
    none_before : (u : MatchTraceDraft) → In u (t ∷ ts) → outranks u t ≡ false
    none_before u (inl p) = subst (λ z. outranks z t ≡ false) (sym p) (self_false t)
    none_before u (inr m) = not-true (outranks u t) (In-All _ ts r.0 u m)

-- A later entry of a ranked list stands one place after what the tail says.
position_later :
    (t u : MatchTraceDraft) (ts : List MatchTraceDraft) (start n : ℕ)
    → position t.opportunity_id (start + 1) ts ≡ some (start + 1 + n)
    → position t.opportunity_id start (u ∷ ts) ≡ some (start + (1 + n))
unfolding position
position_later t u ts start n h = rw h (ap some (omega arith))

tally_rest :
    (id : ℕ) (u : MatchTraceDraft) (ts : List MatchTraceDraft)
    → has_opportunity id u ≡ true
    → tally (has_opportunity id) (u ∷ ts) ≡ 1
    → (v : MatchTraceDraft) → In v ts
    → has_opportunity id v ≡ false
unfolding tally
tally_rest id u ts e h v m = elim (Bool-cases (has_opportunity id v)) [
  | inl t ↦ let p = tally_some (has_opportunity id) ts v m t in absurd (full (rw e at h) p)
  | inr f ↦ f
]
  where
    full : 1 + tally (has_opportunity id) ts ≡ 1 → 0 < tally (has_opportunity id) ts → ⊥
    full q p = omega arith

tally_tail :
    (id : ℕ) (u : MatchTraceDraft) (ts : List MatchTraceDraft)
    → has_opportunity id u ≡ false
    → tally (has_opportunity id) (u ∷ ts) ≡ 1
    → tally (has_opportunity id) ts ≡ 1
unfolding tally
tally_tail id u ts e h = rw e at h

counted :
    (t u : MatchTraceDraft) (ts : List MatchTraceDraft)
    → outranks u t ≡ true
    → tally (λ v. outranks v t) (u ∷ ts) ≡ 1 + tally (λ v. outranks v t) ts
unfolding tally
counted t u ts e = rw e refl

pub own_opportunity : (t : MatchTraceDraft) → has_opportunity t.opportunity_id t ≡ true
unfolding has_opportunity
own_opportunity t = ==_self t.opportunity_id

apart :
    (t u : MatchTraceDraft)
    → has_opportunity t.opportunity_id u ≡ false
    → (t.opportunity_id == u.opportunity_id) ≡ false
unfolding has_opportunity
apart t u h = ground arith

pub position-tally :
    (t : MatchTraceDraft) (ts : List MatchTraceDraft) (start : ℕ)
    → Ranked ts
    → In t ts
    → tally (has_opportunity t.opportunity_id) ts ≡ 1
    → position t.opportunity_id start ts ≡ some (start + tally (λ u. outranks u t) ts)
position-tally t [] start r m h = absurd m
position-tally t (u ∷ ts) start r (inl p) h =
    subst
      (λ z.
        position t.opportunity_id start (z ∷ ts)
        ≡ some (start + tally (λ v. outranks v t) (z ∷ ts)))
      p
      (position_first t ts start (subst (λ z. Ranked (z ∷ ts)) (sym p) r) (
        tally_rest t.opportunity_id u ts
          (subst (λ z. has_opportunity t.opportunity_id z ≡ true) p (own_opportunity t)) h))
position-tally t (u ∷ ts) start r (inr m) h =
    elim (Bool-cases (has_opportunity t.opportunity_id u)) [
      | inl e ↦
          let c = tally_rest t.opportunity_id u ts e h t m in absurd (clash c (own_opportunity t))
      | inr e ↦
          let behind = not-true (outranks t u) (In-All _ ts r.0 t m) in
          let before = outranks-IsOrder.total t u (apart t u e) behind in
          position_later t u ts start (tally (λ v. outranks v t) ts)
            (position-tally t ts (start + 1) r.1 m (tally_tail t.opportunity_id u ts e h))
          ∙ ap (λ n. some (start + n)) (sym (counted t u ts before))
    ]
  where
    clash :
        has_opportunity t.opportunity_id t ≡ false → has_opportunity t.opportunity_id t ≡ true → ⊥
    clash f e = cc
