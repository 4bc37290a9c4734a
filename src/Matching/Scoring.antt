-- ===== src/Matching/Scoring.antt =====
-- The structured score of an opportunity for a profile (freelancer_bot/matching.py). The scores are
-- in ten-thousandths: the code quantizes each of them to four places.
use footjob.Base.{List, Option, Result, [], guard, if◌then◌else◌, length, none, ok, some}
use footjob.Base.{value_error, ℕ, ◌+◌, ◌>>=◌, ◌>>◌, ◌∷◌}
use footjob.Base.Decimal.{Decimal, whole, add_decimal, multiply, divide, excess, less, quantize}
use footjob.Matching.{narrow_and_filter_candidates}
use footjob.Matching.Records.{OpportunityQuality, CanonicalOpportunityRecord}
use footjob.Matching.Records.{SearchProfileRecord, CandidateNarrowingResult}
use footjob.Matching.Filters.{Alphabet, evaluate_hard_filters}
use footjob.Matching.Policy.{StructuredScoringPolicy, StructuredScoreComponent}
use footjob.Matching.Policy.{SourceQualitySnapshot, StructuredCandidateScore, hundredths}
use footjob.Matching.Components.{role_component, skills_component}
use footjob.Matching.Policy.{of_quanta, clamp}
use footjob.Matching.Components.{category_component, work_type_component, budget_component}
use footjob.Matching.Preferences.{preferences_component}

-- The average of the four scores.
unfoldable pub opportunity_quality_score : OpportunityQuality → ℕ
unfolding add_decimal divide whole quantize
opportunity_quality_score quality = quantize (
    divide
      (add_decimal
        (add_decimal (add_decimal quality.actionability quality.commercial_plausibility)
          quality.specificity)
        quality.credibility)
      (whole 4))

-- A product with a negative factor is clamped to nothing, as is one with the factor 0.
unfoldable pub source_value : SourceQualitySnapshot → Decimal
unfolding add_decimal multiply excess hundredths whole
source_value snapshot =
    let positive =
      add_decimal (multiply snapshot.opportunity_yield (hundredths 60))
        (multiply snapshot.buyer_intent_ratio (hundredths 40)) in
    let negative =
      add_decimal
        (add_decimal (multiply snapshot.seller_ratio (hundredths 40))
          (multiply snapshot.spam_ratio (hundredths 40)))
        (multiply snapshot.duplicate_ratio (hundredths 20)) in
    multiply positive (excess (whole 1) negative)

unfoldable pub source_quality_score : SourceQualitySnapshot → ℕ
unfolding quantize clamp
source_quality_score snapshot = quantize (clamp (source_value snapshot))

unfoldable pub source_score : Option SourceQualitySnapshot → Option ℕ
unfolding source_quality_score
source_score none = none
source_score (some snapshot) = some (source_quality_score snapshot)

unfoldable pub snapshot_id : Option SourceQualitySnapshot → Option ℕ
snapshot_id none = none
snapshot_id (some snapshot) = some snapshot.id

unfoldable pub components_of :
    Alphabet
    → CanonicalOpportunityRecord
    → SearchProfileRecord
    → StructuredScoringPolicy
    → Result (List StructuredScoreComponent)
unfolding role_component skills_component category_component work_type_component budget_component
    preferences_component
components_of a opportunity profile policy =
    let analysis = opportunity.analysis in
    budget_component a analysis profile policy.budget_weight >>= (λ budget. ok (
      role_component a.unicode analysis profile policy.role_weight
      ∷ skills_component a.unicode analysis profile policy.skills_weight
      ∷ category_component a.unicode analysis profile policy.category_weight
      ∷ work_type_component analysis profile policy.work_type_weight
      ∷ budget
      ∷ preferences_component a.unicode analysis profile policy.preferences_weight
      ∷ []))

unfoldable pub sum_contributions : List StructuredScoreComponent → ℕ
sum_contributions [] = 0
sum_contributions (component ∷ components) = component.contribution + sum_contributions components

unfoldable pub lesser : Decimal → Decimal → Decimal
lesser a b = if less a b then a else b

unfoldable pub red_flags_penalty : StructuredScoringPolicy → ℕ → ℕ
unfolding multiply whole lesser quantize
red_flags_penalty policy count =
    quantize
      (lesser (multiply policy.each_red_flag_penalty (whole count)) policy.maximum_red_flag_penalty)

unfoldable pub aggregate : StructuredScoringPolicy → ℕ → ℕ → Option ℕ → Decimal
unfolding add_decimal multiply of_quanta
aggregate policy relevance quality none =
    add_decimal (multiply (of_quanta relevance) policy.relevance_weight)
      (multiply (of_quanta quality) policy.opportunity_quality_weight)
aggregate policy relevance quality (some source) =
    add_decimal
      (add_decimal (multiply (of_quanta relevance) policy.relevance_weight)
        (multiply (of_quanta quality) policy.opportunity_quality_weight))
      (multiply (of_quanta source) policy.source_quality_weight)

unfoldable pub score_of :
    CanonicalOpportunityRecord
    → SearchProfileRecord
    → Option SourceQualitySnapshot
    → StructuredScoringPolicy
    → List StructuredScoreComponent
    → StructuredCandidateScore
unfolding sum_contributions opportunity_quality_score source_score snapshot_id red_flags_penalty
    aggregate excess quantize of_quanta
score_of opportunity profile source_quality policy components =
    let relevance = sum_contributions components in
    let quality = opportunity_quality_score opportunity.analysis.quality in
    let source = source_score source_quality in
    let penalty = red_flags_penalty policy (length opportunity.analysis.red_flags) in
    record {
      opportunity_id = opportunity.id;
      profile_id = profile.id;
      components = components;
      user_relevance_score = relevance;
      opportunity_quality_score = quality;
      source_quality_score = source;
      red_flag_penalty = penalty;
      structured_score =
          quantize (excess (aggregate policy relevance quality source) (of_quanta penalty));
      source_quality_snapshot_id = snapshot_id source_quality;
    }

unfoldable pub score_candidate_structured :
    Alphabet
    → CanonicalOpportunityRecord
    → SearchProfileRecord
    → Option SourceQualitySnapshot
    → StructuredScoringPolicy
    → Result StructuredCandidateScore
score_candidate_structured a opportunity profile source_quality policy =
    evaluate_hard_filters a opportunity profile >>= (λ decision.
      guard decision.eligible value_error
      >> (components_of a opportunity profile policy
          >>= (λ components. ok (score_of opportunity profile source_quality policy components))))

unfoldable pub score_all :
    Alphabet
    → CanonicalOpportunityRecord
    → List SearchProfileRecord
    → Option SourceQualitySnapshot
    → StructuredScoringPolicy
    → Result (List StructuredCandidateScore)
score_all a opportunity [] source_quality policy = ok []
score_all a opportunity (profile ∷ profiles) source_quality policy =
    score_candidate_structured a opportunity profile source_quality policy >>= (λ score.
      score_all a opportunity profiles source_quality policy >>= (λ scores. ok (score ∷ scores)))

pub record StructuredScoringResult : Type 0 where
  pub candidates : CandidateNarrowingResult
  pub scores : List StructuredCandidateScore

unfoldable pub score_narrowed_candidates :
    Alphabet
    → CanonicalOpportunityRecord
    → List SearchProfileRecord
    → Option SourceQualitySnapshot
    → StructuredScoringPolicy
    → Result StructuredScoringResult
unfolding score_all
score_narrowed_candidates a opportunity profiles source_quality policy =
    narrow_and_filter_candidates a opportunity profiles >>= (λ found.
      score_all a opportunity found.eligible_profiles source_quality policy
      >>= (λ scores. ok (record { candidates = found; scores = scores })))
