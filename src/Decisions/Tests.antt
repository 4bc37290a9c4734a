-- ===== src/Decisions/Tests.antt =====
-- Three matches, two of them of one profile.
use footjob.Base.{Distinct, List, [], any, false, map, none, refl, some, true, ◌∷◌, ◌≡◌}
use footjob.Decisions.{MatchTraceDraft, rank_eligible}
use footjob.Decisions.Ranking.{with_rank, same_pair, rank_eligible-map}

abbrev first_match : MatchTraceDraft
first_match = record {
  opportunity_id = 1;
  search_profile_id = 7;
  opportunity_last_seen_at = 100;
  combined_relevance_score = some 6000;
  freshness_score = 9000;
  final_rank_score = some 5000;
  eligible = true;
  rank = none;
}

-- As good, and seen later.
abbrev later_match : MatchTraceDraft
later_match = record first_match { opportunity_id = 2; opportunity_last_seen_at = 200 }

abbrev rejected_match : MatchTraceDraft
rejected_match = record first_match { search_profile_id = 8; eligible = false }

abbrev matches : List MatchTraceDraft
matches = first_match ∷ later_match ∷ rejected_match ∷ []

later_first :
    rank_eligible matches
    ≡ record first_match { rank = some 2 }
      ∷ record later_match { rank = some 1 }
      ∷ rejected_match
      ∷ []
unfolding rank_eligible
later_first = refl

matches-Distinct : Distinct same_pair matches
unfolding any
matches-Distinct = (refl, (refl, (refl, tt)))

rank_eligible-map_example : rank_eligible matches ≡ map (with_rank matches) matches
rank_eligible-map_example = rank_eligible-map matches matches-Distinct
