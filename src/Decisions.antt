-- ===== src/Decisions.antt =====
-- The ranks of matches (freelancer_bot/match_decisions.py): `_rank_eligible`. A score is in
-- ten-thousandths, an instant in microseconds. What a trace holds besides is left out.
mod Counting
mod Ordering
mod Places
pub mod Ranking
pub mod Tests
use footjob.Base.{Bool, List, Option, [], if◌then◌else◌, ltb, none, select, some, sorted, ℕ}
use footjob.Base.{◌&&◌, ◌+◌, ◌==◌, ◌||◌, ◌∷◌}

pub record MatchTraceDraft : Type 0 where
  pub opportunity_id : ℕ
  pub search_profile_id : ℕ
  pub opportunity_last_seen_at : ℕ
  pub combined_relevance_score : Option ℕ
  pub freshness_score : ℕ
  pub final_rank_score : Option ℕ
  pub eligible : Bool
  pub rank : Option ℕ

-- `score or Decimal("0")`
unfoldable pub or_zero : Option ℕ → ℕ
or_zero none = 0
or_zero (some n) = n

-- One component of a sort key that is negated: the greater value goes first, a tie is left.
unfoldable pub descending :
    (MatchTraceDraft → ℕ)
    → (MatchTraceDraft → MatchTraceDraft → Bool)
    → MatchTraceDraft
    → MatchTraceDraft
    → Bool
descending value next t u = ltb (value u) (value t) || (value t == value u && next t u)

unfoldable pub by_opportunity : MatchTraceDraft → MatchTraceDraft → Bool
by_opportunity t u = ltb t.opportunity_id u.opportunity_id

-- The order of the key of `sorted`.
unfoldable pub outranks : MatchTraceDraft → MatchTraceDraft → Bool
unfolding descending by_opportunity or_zero
outranks =
    descending (λ t. or_zero t.final_rank_score)
      (descending (λ t. or_zero t.combined_relevance_score)
        (descending (λ t. t.freshness_score)
          (descending (λ t. t.opportunity_last_seen_at) by_opportunity)))

unfoldable pub competes : ℕ → MatchTraceDraft → Bool
competes profile_id t = t.search_profile_id == profile_id && t.eligible

-- The number of the last trace of the opportunity, counted from `start`: a later entry of the table
-- takes the place of an earlier one.
unfoldable pub position : ℕ → ℕ → List MatchTraceDraft → Option ℕ
position opportunity_id start [] = none
position opportunity_id start (t ∷ ts) =
    let rest = position opportunity_id (start + 1) ts in
    elim rest [
      | some n ↦ some n
      | none ↦ if t.opportunity_id == opportunity_id then some start else none
    ]

-- What the table of ranks holds for the trace: the entries of a profile are set in its own turn.
unfoldable pub rank_of : List MatchTraceDraft → MatchTraceDraft → Option ℕ
unfolding select sorted position competes outranks
rank_of traces t =
    position t.opportunity_id 1 (sorted outranks (select (competes t.search_profile_id) traces))

unfoldable pub rank_each : List MatchTraceDraft → List MatchTraceDraft → List MatchTraceDraft
unfolding rank_of
rank_each all [] = []
rank_each all (t ∷ ts) = record t { rank = rank_of all t } ∷ rank_each all ts

unfoldable pub rank_eligible : List MatchTraceDraft → List MatchTraceDraft
unfolding rank_each
rank_eligible traces = rank_each traces traces
