-- ===== src/Matching/Bounds.antt =====
-- Under the default policy, every part of a structured score is at most 1.
use footjob.Base.{All, Bool-cases, List, Option, Yields, Yields-bind, Yields-guard}
use footjob.Base.{Yields-pure, arith, inl, inr, length, none, ok, refl, some, str_eq, subst}
use footjob.Base.{true, unique, ℕ, ◌*◌, ◌<◌, ◌≡◌, ◌≤◌}
use footjob.Base.Decimal.{Decimal, whole, add_decimal, multiply, less}
use footjob.Base.Bounds.{Within, multiply-Within, quantize-Within, add_decimal-Within}
use footjob.Base.Bounds.{excess-Within, quarter-Within}
use Prim.Native.Nat.{◌^◌}
use native.Mathlib.Nat.{mul-le-mul_right, le_trans}
use footjob.Matching.Records.{OpportunityQuality, CanonicalOpportunityRecord, SearchProfileRecord}
use footjob.Matching.Filters.{Alphabet, evaluate_hard_filters}
use footjob.Matching.Findings.{optional_identity}
use footjob.Matching.Findings.{normalized_values}
use footjob.Matching.Evidence.{profile_roles, opportunity_skills}
use footjob.Matching.Policy.{StructuredScoreComponent}
use footjob.Matching.Policy.{
  SourceQualitySnapshot, StructuredCandidateScore, default_policy, hundredths,
}
use footjob.Matching.Components.{role_component, skills_component, category_component}
use footjob.Matching.Policy.{of_quanta}
use footjob.Matching.Components.{work_type_component, budget_component}
use footjob.Matching.Preferences.{preferences_component}
use footjob.Matching.Preferences.{preference_checks}
use footjob.Matching.Scoring.{
  opportunity_quality_score, source_quality_score, source_score, source_value, lesser,
}
use footjob.Matching.Scoring.{components_of, sum_contributions, red_flags_penalty, aggregate}
use footjob.Matching.Scoring.{score_of, score_candidate_structured}
use footjob.Matching.Bounded.{Bounded, quantize-clamp, of_quanta-Within, role_component_at-Bounded}
use footjob.Matching.Bounded.{skills_component_at-Bounded, category_component_at-Bounded}
use footjob.Matching.Bounded.{work_type_component_at-Bounded, preferences_component_at-Bounded}
use footjob.Matching.Bounded.{budget_component_at-Bounded}

-- `Field(ge=0, le=1)` on each score.
pub record IsQuality (quality : OpportunityQuality) : Type 0 where
  pub actionable : Within 10000 quality.actionability
  pub plausible : Within 10000 quality.commercial_plausibility
  pub specific : Within 10000 quality.specificity
  pub credible : Within 10000 quality.credibility

pub record IsScore (s : StructuredCandidateScore) : Type 0 where
  pub each_component : All (λ c. (n : ℕ) → c.score ≡ some n → n ≤ 10000) s.components
  pub relevance : s.user_relevance_score ≤ 10000
  pub opportunity_quality : s.opportunity_quality_score ≤ 10000
  pub source_quality : (n : ℕ) → s.source_quality_score ≡ some n → n ≤ 10000
  pub penalty : s.red_flag_penalty ≤ 3200
  pub structured : s.structured_score ≤ 10000

opportunity_quality_score-le :
    (q : OpportunityQuality) → IsQuality q → opportunity_quality_score q ≤ 10000
unfolding opportunity_quality_score
opportunity_quality_score-le q h = quantize-Within _ 10000 (
    quarter-Within _ 10000 (omega arith) (
      add_decimal-Within _ _ 30000 10000 (omega arith)
        (add_decimal-Within _ _ 20000 10000 (omega arith)
          (add_decimal-Within _ _ 10000 10000 (omega arith) h.actionable h.plausible) h.specific)
        h.credible))

source_score-le :
    (snapshot : Option SourceQualitySnapshot) (n : ℕ) → source_score snapshot ≡ some n → n ≤ 10000
unfolding source_score source_quality_score
source_score-le none n e = cc
source_score-le (some snapshot) n e =
    subst (λ m. m ≤ 10000) (some_eq _ n e) (quantize-clamp (source_value snapshot))
  where
    some_eq : (m n : ℕ) → ◌≡◌ {A = Option ℕ} (some m) (some n) → m ≡ n
    some_eq m n e = cc

less-lt : (d : Decimal) → less d (hundredths 32) ≡ true → d.coefficient * 100 < 32 * 10 ^ d.places
unfolding less hundredths
less-lt d e = ground arith

lesser-Within : (d : Decimal) → Within 3200 (lesser d (hundredths 32))
unfolding lesser hundredths
lesser-Within d = elim (Bool-cases (less d (hundredths 32))) [
  | inl e ↦ let l = less-lt d e in rw e (omega arith)
  | inr e ↦ rw e (omega arith)
]

red_flags_penalty-le : (count : ℕ) → red_flags_penalty default_policy count ≤ 3200
unfolding red_flags_penalty default_policy
red_flags_penalty-le count =
    quantize-Within _ 3200 (lesser-Within (multiply (hundredths 8) (whole count)))

Within-le : (d : Decimal) (m n : ℕ) → m ≤ n → Within m d → Within n d
Within-le d m n h k = le_trans k (mul-le-mul_right (10 ^ d.places) h)

relevance_and_quality :
    (relevance quality : ℕ)
    → relevance ≤ 10000
    → quality ≤ 10000
    → Within 9000 (
        add_decimal
          (multiply (of_quanta relevance) (hundredths 75))
          (multiply (of_quanta quality) (hundredths 15)))
unfolding hundredths
relevance_and_quality relevance quality h k =
    add_decimal-Within _ _ 7500 1500 (omega arith)
      (multiply-Within _ (hundredths 75) 7500 (omega arith) (of_quanta-Within relevance h)
        (omega arith))
      (multiply-Within _ (hundredths 15) 1500 (omega arith) (of_quanta-Within quality k)
        (omega arith))

aggregate-Within :
    (relevance quality : ℕ) (source : Option ℕ)
    → relevance ≤ 10000
    → quality ≤ 10000
    → ((n : ℕ) → source ≡ some n → n ≤ 10000)
    → Within 10000 (aggregate default_policy relevance quality source)
unfolding aggregate default_policy hundredths
aggregate-Within relevance quality none h k l =
    Within-le _ 9000 10000 (omega arith) (relevance_and_quality relevance quality h k)
aggregate-Within relevance quality (some source) h k l =
    add_decimal-Within _ _ 9000 1000 (omega arith) (relevance_and_quality relevance quality h k) (
      multiply-Within (of_quanta source) (hundredths 10) 1000 (omega arith)
        (of_quanta-Within source (l source refl)) (omega arith))

module _ (a : Alphabet) (o : CanonicalOpportunityRecord) (p : SearchProfileRecord) where
  role_component-Bounded : Bounded 3000 (role_component a.unicode o.analysis p (hundredths 30))
  unfolding role_component hundredths
  role_component-Bounded =
      role_component_at-Bounded 3000 (omega arith) (hundredths 30) (omega arith) a.unicode
        o.analysis p (optional_identity a.unicode o.analysis.role_title) (profile_roles p)

  skills_component-Bounded : Bounded 3500 (skills_component a.unicode o.analysis p (hundredths 35))
  unfolding skills_component hundredths
  skills_component-Bounded =
      skills_component_at-Bounded 3500 (omega arith) (hundredths 35) (omega arith) a.unicode
        o.analysis p (opportunity_skills a.unicode o.analysis) (normalized_values p.skills)

  category_component-Bounded :
      Bounded 1500 (category_component a.unicode o.analysis p (hundredths 15))
  unfolding category_component hundredths
  category_component-Bounded =
      category_component_at-Bounded 1500 (omega arith) (hundredths 15) (omega arith) a.unicode
        (optional_identity a.unicode o.analysis.category)
        (unique str_eq (normalized_values p.categories))

  preferences_component-Bounded :
      Bounded 500 (preferences_component a.unicode o.analysis p (hundredths 5))
  unfolding preferences_component hundredths
  preferences_component-Bounded =
      preferences_component_at-Bounded 500 (omega arith) (hundredths 5) (omega arith)
        (preference_checks a.unicode o.analysis p)

  budget_component-Bounded : Yields (Bounded 700) (budget_component a o.analysis p (hundredths 7))
  unfolding budget_component hundredths
  budget_component-Bounded =
      budget_component_at-Bounded 700 (omega arith) (hundredths 7) (omega arith) a o p
        p.preferences.minimum_budget

work_type_component-Bounded :
    (o : CanonicalOpportunityRecord) (p : SearchProfileRecord)
    → Bounded 800 (work_type_component o.analysis p (hundredths 8))
unfolding work_type_component hundredths
work_type_component-Bounded o p =
    work_type_component_at-Bounded 800 (omega arith) (hundredths 8) (omega arith)
      o.analysis.opportunity_type p.preferences.work_types

components_of-Bounded :
    (a : Alphabet) (o : CanonicalOpportunityRecord) (p : SearchProfileRecord)
    → Yields
        (λ cs.
          All (λ c. (n : ℕ) → c.score ≡ some n → n ≤ 10000) cs × (sum_contributions cs ≤ 10000))
        (components_of a o p default_policy)
unfolding components_of sum_contributions default_policy
components_of-Bounded a o p = Yields-bind (budget_component a o.analysis p (hundredths 7)) _ (λ b e.
    let role = role_component-Bounded a o p in
    let skills = skills_component-Bounded a o p in
    let category = category_component-Bounded a o p in
    let kind = work_type_component-Bounded o p in
    let money = (budget_component-Bounded a o p).holds b e in
    let wishes = preferences_component-Bounded a o p in
    Yields-pure (
      (
        role.scored,
        (skills.scored, (category.scored, (kind.scored, (money.scored, (wishes.scored, tt))))),
      ),
      omega (
        arith, role.contributed, skills.contributed, category.contributed, kind.contributed,
        money.contributed, wishes.contributed,
      ),
    ))

module _ (a : Alphabet) (o : CanonicalOpportunityRecord) (good : IsQuality o.analysis.quality) where
  score_of-IsScore :
      (p : SearchProfileRecord) (quality : Option SourceQualitySnapshot)
      (cs : List StructuredScoreComponent)
      → All (λ c. (n : ℕ) → c.score ≡ some n → n ≤ 10000) cs
      → sum_contributions cs ≤ 10000
      → IsScore (score_of o p quality default_policy cs)
  unfolding score_of
  score_of-IsScore p quality cs each sum = record {
    each_component = each;
    relevance = sum;
    opportunity_quality = opportunity_quality_score-le o.analysis.quality good;
    source_quality = source_score-le quality;
    penalty = red_flags_penalty-le (length o.analysis.red_flags);
    structured = quantize-Within _ 10000 (
        excess-Within _ (of_quanta (red_flags_penalty default_policy (length o.analysis.red_flags)))
          10000 (omega arith)
          (aggregate-Within (sum_contributions cs) (opportunity_quality_score o.analysis.quality)
            (source_score quality) sum (opportunity_quality_score-le o.analysis.quality good)
            (source_score-le quality)));
  }

  -- Under the default policy, and with an opportunity whose four qualities are at most 1, every
  -- score that is returned has all its parts and itself at most 1, and a penalty of at most 0.32.
  pub score_candidate_structured-IsScore :
      (p : SearchProfileRecord) (quality : Option SourceQualitySnapshot)
      {s : StructuredCandidateScore}
      → score_candidate_structured a o p quality default_policy ≡ ok s
      → IsScore s
  unfolding score_candidate_structured
  score_candidate_structured-IsScore p quality {s} e = whole_chain.holds s e
    where
      whole_chain : Yields IsScore (score_candidate_structured a o p quality default_policy)
      whole_chain = Yields-bind (evaluate_hard_filters a o p) _ (λ d q.
          Yields-guard d.eligible _ _ (λ t.
            Yields-bind (components_of a o p default_policy) _ (λ cs q'.
              let both = (components_of-Bounded a o p).holds cs q' in
              Yields-pure (score_of-IsScore p quality cs both.0 both.1))))
