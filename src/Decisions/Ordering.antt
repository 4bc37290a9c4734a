-- ===== src/Decisions/Ordering.antt =====
-- The order of the ranks (freelancer_bot/match_decisions.py) is one that `sorted` can use.
use footjob.Base.{Bool, arith, false, true, ℕ, ◌==◌, ◌≡◌}
use footjob.Decisions.{MatchTraceDraft, descending, by_opportunity, outranks, or_zero}

-- What `sorted` needs of an order, and that it decides between different opportunities.
pub record IsOrder (before : MatchTraceDraft → MatchTraceDraft → Bool) : Type 0 where
  pub asym : (t u : MatchTraceDraft) → before t u ≡ true → before u t ≡ false
  pub onward :
      (t u v : MatchTraceDraft) → before u t ≡ false → before v u ≡ false → before v t ≡ false
  pub total :
      (t u : MatchTraceDraft)
      → (t.opportunity_id == u.opportunity_id) ≡ false
      → before t u ≡ false
      → before u t ≡ true

by_opportunity-IsOrder : IsOrder by_opportunity
unfolding by_opportunity
by_opportunity-IsOrder = record {
  asym = λ t u h. ground arith;
  onward = λ t u v h k. ground arith;
  total = λ t u d h. ground arith;
}

descending-IsOrder :
    (value : MatchTraceDraft → ℕ) (next : MatchTraceDraft → MatchTraceDraft → Bool)
    → IsOrder next
    → IsOrder (descending value next)
unfolding descending
descending-IsOrder value next o = record {
  asym = λ t u h. ground (arith, o.asym t u);
  onward = λ t u v h k. ground (arith, o.onward t u v);
  total = λ t u d h. ground (arith, o.total t u d);
}

pub outranks-IsOrder : IsOrder outranks
unfolding outranks
outranks-IsOrder =
    descending-IsOrder (λ t. or_zero t.final_rank_score) _
      (descending-IsOrder (λ t. or_zero t.combined_relevance_score) _
        (descending-IsOrder (λ t. t.freshness_score) _
          (descending-IsOrder (λ t. t.opportunity_last_seen_at) by_opportunity
            by_opportunity-IsOrder)))
