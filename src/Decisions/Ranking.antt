-- ===== src/Decisions/Ranking.antt =====
-- The rank of a match against a count: how many matches of its profile go before it.
use footjob.Base.{==_self, Bool, Bool-cases, Distinct, Distinct-eq, In, In-select, List}
use footjob.Base.{Option, [], ap, arith, false, if◌then◌else◌, inl, inr, map, none, not, refl}
use footjob.Base.{select, select-In, some, sorted, subst, sym, true, ℕ, ◌&&◌, ◌+◌, ◌==◌, ◌∙◌}
use footjob.Base.{◌∷◌, ◌≡◌, ◌⊎◌}
use footjob.Base.Sorting.{sorted-Ordered, In-sorted, sorted-In}
use footjob.Decisions.{MatchTraceDraft, outranks, competes}
use footjob.Decisions.{rank_of, rank_each, rank_eligible}
use footjob.Decisions.Counting.{tally, tally-sorted, tally-select, tally_one}
use footjob.Decisions.Ordering.{outranks-IsOrder}
use footjob.Decisions.Places.{has_opportunity, Ranked, position-absent, not-true, own_opportunity}
use footjob.Decisions.Places.{position-tally}

-- No trace is of the opportunity and the profile of another.
abbrev pub same_pair : MatchTraceDraft → MatchTraceDraft → Bool
same_pair t u = t.opportunity_id == u.opportunity_id && t.search_profile_id == u.search_profile_id

same_pair_flip : (t u : MatchTraceDraft) → same_pair t u ≡ same_pair u t
same_pair_flip t u = ground arith

-- The eligible traces of the same profile that go first.
unfoldable pub ahead : List MatchTraceDraft → MatchTraceDraft → ℕ
ahead traces t = tally (λ u. competes t.search_profile_id u && outranks u t) traces

abbrev pub with_rank : List MatchTraceDraft → MatchTraceDraft → MatchTraceDraft
with_rank traces t = record t { rank = if t.eligible then some (1 + ahead traces t) else none }

competing_pair :
    (t u : MatchTraceDraft)
    → (competes t.search_profile_id u && has_opportunity t.opportunity_id u) ≡ true
    → same_pair t u ≡ true
unfolding competes has_opportunity
competing_pair t u h = ground arith

own_competes : (t : MatchTraceDraft) → t.eligible ≡ true → competes t.search_profile_id t ≡ true
unfolding competes
own_competes t e = rw (e, ==_self t.search_profile_id)

competes-eligible : (id : ℕ) (t : MatchTraceDraft) → competes id t ≡ true → t.eligible ≡ true
unfolding competes
competes-eligible id t h = ground arith

module _ (traces : List MatchTraceDraft) (distinct : Distinct same_pair traces) where
  competitors : MatchTraceDraft → List MatchTraceDraft
  competitors t = select (competes t.search_profile_id) traces

  ranked : (ts : List MatchTraceDraft) → Ranked (sorted outranks ts)
  ranked = sorted-Ordered outranks (λ t u. not (outranks u t)) before after onward
    where
      before : (x y : MatchTraceDraft) → outranks y x ≡ true → not (outranks x y) ≡ true
      before x y h = rw (outranks-IsOrder.asym y x h)

      after : (x y : MatchTraceDraft) → outranks y x ≡ false → not (outranks y x) ≡ true
      after x y h = rw h

      onward :
          (x y z : MatchTraceDraft)
          → not (outranks y x) ≡ true
          → not (outranks z y) ≡ true
          → not (outranks z x) ≡ true
      onward x y z h k =
          rw (outranks-IsOrder.onward x y z (not-true (outranks y x) h) (not-true (outranks z y) k))

  rank_of-eligible :
      (t : MatchTraceDraft)
      → In t traces
      → t.eligible ≡ true
      → rank_of traces t ≡ some (1 + ahead traces t)
  unfolding rank_of ahead competitors
  rank_of-eligible t m e =
      position-tally t (sorted outranks (competitors t)) 1 (ranked (competitors t))
        (In-sorted outranks (competitors t) t
          (In-select (competes t.search_profile_id) traces t m (own_competes t e)))
        (tally-sorted (has_opportunity t.opportunity_id) outranks (competitors t)
          ∙ tally-select (has_opportunity t.opportunity_id) (competes t.search_profile_id) traces
          ∙ tally_one same_pair _ traces t same_pair_flip distinct m
              (rw (own_competes t e, own_opportunity t)) (competing_pair t))
      ∙ ap (λ n. some (1 + n))
          (tally-sorted (λ u. outranks u t) outranks (competitors t)
            ∙ tally-select (λ u. outranks u t) (competes t.search_profile_id) traces)

  rank_of-rejected :
      (t : MatchTraceDraft) → In t traces → t.eligible ≡ false → rank_of traces t ≡ none
  unfolding rank_of competitors
  rank_of-rejected t m e =
      position-absent t.opportunity_id 1 (sorted outranks (competitors t)) (λ u n.
        let (o, c) =
          select-In (competes t.search_profile_id) traces u
            (sorted-In outranks (competitors t) u n) in
        other u o c (Bool-cases (has_opportunity t.opportunity_id u)))
    where
      other :
          (u : MatchTraceDraft)
          → In u traces
          → competes t.search_profile_id u ≡ true
          → (has_opportunity t.opportunity_id u ≡ true)
            ⊎ (has_opportunity t.opportunity_id u ≡ false)
          → has_opportunity t.opportunity_id u ≡ false
      other u o c (inr f) = f
      other u o c (inl h) =
          let p =
            Distinct-eq same_pair traces t u same_pair_flip distinct m o
              (competing_pair t u (rw (c, h))) in
          let k =
            subst (λ z. z.eligible ≡ true) (sym p) (competes-eligible t.search_profile_id u c) in
          cc

  rank_of-ahead :
      (t : MatchTraceDraft)
      → In t traces
      → rank_of traces t ≡ (if t.eligible then some (1 + ahead traces t) else none)
  rank_of-ahead t m = chosen t.eligible (rank_of-eligible t m) (rank_of-rejected t m)
    where
      chosen :
          (b : Bool) {r : Option ℕ} {n : ℕ}
          → (b ≡ true → r ≡ some n)
          → (b ≡ false → r ≡ none)
          → r ≡ (if b then some n else none)
      chosen true h k = h refl
      chosen false h k = k refl

  rank_each-map :
      (ts : List MatchTraceDraft)
      → ((t : MatchTraceDraft) → In t ts → In t traces)
      → rank_each traces ts ≡ map (with_rank traces) ts
  unfolding rank_each
  rank_each-map [] h = refl
  rank_each-map (t ∷ ts) h =
      rw (rank_of-ahead t (h t (inl refl)), rank_each-map ts (λ u m. h u (inr m)))

  -- Of traces no two of which are of one opportunity and one profile, the ranking keeps each
  -- trace and its place and sets its rank: an eligible one gets one more than the number of
  -- eligible traces of its profile that outrank it, any other none.
  pub rank_eligible-map : rank_eligible traces ≡ map (with_rank traces) traces
  unfolding rank_eligible
  rank_eligible-map = rank_each-map traces (λ t m. m)
