-- ===== src/Matching/Scores.antt =====
-- Every profile that narrowing leaves is scored: the scores raise nothing.
use footjob.Base.{All, All-In, Bool, List, Option, Result, Succeeds, Succeeds-bind}
use footjob.Base.{Succeeds-if, Succeeds-ok, [], arith, err, none, ok, ok-Succeeds, refl}
use footjob.Base.{select, select-In, some, true, ◌&&◌, ◌∷◌, ◌≡◌}
use footjob.Base.Decimal.{Decimal}
use footjob.Matching.{narrow_and_filter_candidates}
use footjob.Matching.Records.{CanonicalOpportunityRecord}
use footjob.Matching.Records.{SearchProfileRecord, HardFilterDecision}
use footjob.Matching.Filters.{Alphabet, evaluate_hard_filters, maximum_budget, same_currency}
use footjob.Matching.Passing.{HasAmount, maximum_budget-ok}
use footjob.Matching.Narrowing.{kept, passes, passed_by}
use footjob.Matching.Narrowing.{narrow_and_filter_candidates-IsNarrowing}
use footjob.Matching.Policy.{StructuredScoringPolicy, StructuredScoreComponent}
use footjob.Matching.Components.{budget_component}
use footjob.Matching.Policy.{SourceQualitySnapshot, StructuredCandidateScore}
use footjob.Matching.Components.{budget_component_at}
use footjob.Matching.Components.{known_budget_component}
use footjob.Matching.Scoring.{components_of, score_of, score_candidate_structured, score_all}
use footjob.Matching.Scoring.{score_narrowed_candidates, StructuredScoringResult}

-- One score for each profile, in the same order, and each of the opportunity.
pub data Scored (o : CanonicalOpportunityRecord)
    : List SearchProfileRecord → List StructuredCandidateScore → Type 0 where
  none_left : Scored o [] []
  scored :
      {p : SearchProfileRecord} {ps : List SearchProfileRecord} {s : StructuredCandidateScore}
      {ss : List StructuredCandidateScore}
      → s.opportunity_id ≡ o.id
      → s.profile_id ≡ p.id
      → Scored o ps ss
      → Scored o (p ∷ ps) (s ∷ ss)

module _ (a : Alphabet) (o : CanonicalOpportunityRecord) (amount : HasAmount o.analysis.budget)
    (quality : Option SourceQualitySnapshot) (policy : StructuredScoringPolicy) where
  known_budget_component-Succeeds :
      (p : SearchProfileRecord) (minimum weight : Decimal)
      → o.analysis.budget.known ≡ true
      → Succeeds (known_budget_component a o.analysis.budget p.preferences minimum weight)
  unfolding known_budget_component
  known_budget_component-Succeeds p minimum weight k =
      Succeeds-if (same_currency a o.analysis.budget.currency p.preferences.currency) _ _
        (λ same.
          Succeeds-bind (maximum_budget o.analysis.budget.min o.analysis.budget.max) _
            (ok-Succeeds _ (maximum_budget-ok _ _ (amount k)).1) (λ most. tt))
        (λ other. tt)

  budget_component_at-Succeeds :
      (p : SearchProfileRecord) (weight : Decimal) (minimum : Option Decimal)
      → Succeeds (budget_component_at a o.analysis p weight minimum)
  unfolding budget_component_at
  budget_component_at-Succeeds p weight none = tt
  budget_component_at-Succeeds p weight (some minimum) =
      Succeeds-if o.analysis.budget.known _ _ (known_budget_component-Succeeds p minimum weight)
        (λ unknown. tt)

  components_of-Succeeds : (p : SearchProfileRecord) → Succeeds (components_of a o p policy)
  unfolding components_of budget_component
  components_of-Succeeds p =
      Succeeds-bind (budget_component_at a o.analysis p policy.budget_weight _) _
        (budget_component_at-Succeeds p policy.budget_weight p.preferences.minimum_budget) (λ c. tt)

  -- The score is of the pair.
  score_of-names :
      (p : SearchProfileRecord) (cs : List StructuredScoreComponent)
      → ((score_of o p quality policy cs).opportunity_id ≡ o.id)
        × ((score_of o p quality policy cs).profile_id ≡ p.id)
  unfolding score_of
  score_of-names p cs = (refl, refl)

  score_candidate_structured_lem :
      (p : SearchProfileRecord) (d : HardFilterDecision) (cs : List StructuredScoreComponent)
      → evaluate_hard_filters a o p ≡ ok d
      → d.eligible ≡ true
      → components_of a o p policy ≡ ok cs
      → score_candidate_structured a o p quality policy ≡ ok (score_of o p quality policy cs)
  unfolding score_candidate_structured
  score_candidate_structured_lem p d cs e eligible q = rw (e, eligible, q)

  passed_by-ok :
      (r : Result HardFilterDecision)
      → passed_by r ≡ true
      → (d : HardFilterDecision) × (r ≡ ok d) × (d.eligible ≡ true)
  passed_by-ok (ok d) h = (d, refl, h)
  passed_by-ok (err x) h = cc

  score_candidate_structured-ok :
      (p : SearchProfileRecord)
      → passes a o p ≡ true
      → (s : StructuredCandidateScore) × (score_candidate_structured a o p quality policy ≡ ok s)
        × (s.opportunity_id ≡ o.id)
        × (s.profile_id ≡ p.id)
  score_candidate_structured-ok p pass =
      let (d, e, eligible) = passed_by-ok (evaluate_hard_filters a o p) pass in
      let (cs, q) = Succeeds-ok (components_of a o p policy) (components_of-Succeeds p) in
      let (named, own) = score_of-names p cs in
      (
        score_of o p quality policy cs,
        score_candidate_structured_lem p d cs e eligible q,
        named,
        own,
      )

  score_all-Scored :
      (ps : List SearchProfileRecord)
      → All (λ p. passes a o p ≡ true) ps
      → (ss : List StructuredCandidateScore) × (score_all a o ps quality policy ≡ ok ss)
        × Scored o ps ss
  unfolding score_all
  score_all-Scored [] h = ([], refl, none_left)
  score_all-Scored (p ∷ ps) h =
      let (s, e, named, own) = score_candidate_structured-ok p h.0 in
      let (ss, es, rest) = score_all-Scored ps h.1 in (s ∷ ss, rw (e, es), scored named own rest)

  select-passes :
      (ps : List SearchProfileRecord) → All (λ p. passes a o p ≡ true) (select (kept a o) ps)
  unfolding select
  select-passes ps = All-In _ _ (λ p m. left _ _ (select-In (kept a o) ps p m).1)
    where
      left : (x y : Bool) → (x && y) ≡ true → x ≡ true
      left x y h = ground arith

  -- For an opportunity whose budget names an amount where it is known, scoring raises nothing
  -- under any policy: it narrows and then gives one score, of the opportunity and of the profile,
  -- for each profile that is left, in their order.
  pub score_narrowed_candidates-Scored :
      (profiles : List SearchProfileRecord)
      → (r : StructuredScoringResult) × (score_narrowed_candidates a o profiles quality policy
          ≡ ok r)
        × (narrow_and_filter_candidates a o profiles ≡ ok r.candidates)
        × Scored o (select (kept a o) profiles) r.scores
  unfolding score_narrowed_candidates
  score_narrowed_candidates-Scored profiles =
      let (found, e, n) = narrow_and_filter_candidates-IsNarrowing a o amount profiles in
      let (ss, es, all) = score_all-Scored (select (kept a o) profiles) (select-passes profiles) in
      (record { candidates = found; scores = ss }, rw (e, n.same_profiles, es), e, all)
