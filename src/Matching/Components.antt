-- ===== src/Matching/Components.antt =====
-- The components of the structured score that compare role, skills, category, type and budget
-- (freelancer_bot/matching.py).
use footjob.Base.{Bool, List, Option, Result, Str, [], codes, if◌then◌else◌, ltb, map, none}
use footjob.Base.{not, ok, select, some, sorted, str_eq, str_lt, unique, ℕ, ◌&&◌, ◌++◌, ◌==◌}
use footjob.Base.{◌>>=◌, ◌∷◌}
use footjob.Base.Decimal.{Decimal, whole, less}
use footjob.Lexical.{labels_f1, LabelMatch}
use footjob.Lexical.Tokens.{Unicode}
use footjob.Matching.Records.{
  AnalysisType, OpportunityType, OpportunityAnalysis, OpportunityBudget, Shown,
}
use footjob.Matching.Records.{SearchProfileRecord}
use footjob.Matching.Records.{SearchProfilePreferences}
use footjob.Matching.Filters.{Alphabet}
use footjob.Matching.Findings.{optional_identity, normalized_values, is_unknown, type_in}
use footjob.Matching.Filters.{same_currency, maximum_budget}
use footjob.Matching.Findings.{profile_opportunity_type}
use footjob.Matching.Evidence.{opportunity_skills, profile_roles, similar_to, best_similarity}
use footjob.Matching.Evidence.{role_family_compatible, has_specific_skill_overlap}
use footjob.Matching.Evidence.{role_supports_skill_overlap}
use footjob.Matching.Policy.{
  StructuredScoreComponent, budget, category, hundredths, of_quanta, role, score_component, skills,
  work_type,
}

-- `sorted` on texts
unfoldable pub sorted_texts : List Str → List Shown
unfolding sorted str_lt
sorted_texts labels = map Shown.text (sorted str_lt labels)

-- The score of the best role, raised where the roles are of one family and share a skill.
unfoldable pub role_score : Unicode → OpportunityAnalysis → SearchProfileRecord → Str → ℕ
unfolding best_similarity profile_roles role_family_compatible has_specific_skill_overlap
role_score u analysis profile opportunity_role =
    let roles = profile_roles profile in
    let score = best_similarity u opportunity_role roles in
    if score == 0
      && role_family_compatible u opportunity_role roles
      && has_specific_skill_overlap u analysis profile
    then 6000
    else score

unfoldable pub role_component_at :
    Unicode
    → OpportunityAnalysis
    → SearchProfileRecord
    → Decimal
    → Option Str
    → List Str
    → StructuredScoreComponent
unfolding role_score select similar_to sorted_texts
role_component_at u analysis profile weight none roles = score_component role none weight []
role_component_at u analysis profile weight (some opportunity_role) [] =
    score_component role none weight []
role_component_at u analysis profile weight (some opportunity_role) (first ∷ others) =
    let score = role_score u analysis profile opportunity_role in
    let matched = select (similar_to u opportunity_role) (first ∷ others) in
    score_component role (some (of_quanta score)) weight (
      sorted_texts (
        if score == 6000 then matched ++ codes "role_family_with_specific_skill" ∷ [] else matched))

unfoldable pub role_component :
    Unicode → OpportunityAnalysis → SearchProfileRecord → Decimal → StructuredScoreComponent
unfolding role_component_at optional_identity profile_roles
role_component u analysis profile weight =
    role_component_at u analysis profile weight (optional_identity u analysis.role_title)
      (profile_roles profile)

unfoldable pub right_labels : List LabelMatch → List Str
right_labels [] = []
right_labels (match ∷ matches) = match.right ∷ right_labels matches

-- The F1 of the skills, raised where one specific skill stands in a coherent role.
unfoldable pub skills_score : Unicode → OpportunityAnalysis → SearchProfileRecord → ℕ → ℕ
unfolding has_specific_skill_overlap role_supports_skill_overlap
skills_score u analysis profile score =
    if ltb score 5000
      && has_specific_skill_overlap u analysis profile
      && role_supports_skill_overlap u analysis profile
    then 5000
    else score

unfoldable pub skills_component_at :
    Unicode
    → OpportunityAnalysis
    → SearchProfileRecord
    → Decimal
    → List Str
    → List Str
    → StructuredScoreComponent
unfolding labels_f1 skills_score right_labels sorted_texts
skills_component_at u analysis profile weight [] wanted = score_component skills none weight []
skills_component_at u analysis profile weight (skill ∷ more) [] =
    score_component skills none weight []
skills_component_at u analysis profile weight (skill ∷ more) (wanted ∷ others) =
    let (score, matches) = labels_f1 u (skill ∷ more) (wanted ∷ others) in
    score_component skills (some (of_quanta (skills_score u analysis profile score))) weight
      (sorted_texts (right_labels matches))

unfoldable pub skills_component :
    Unicode → OpportunityAnalysis → SearchProfileRecord → Decimal → StructuredScoreComponent
unfolding skills_component_at opportunity_skills normalized_values
skills_component u analysis profile weight =
    skills_component_at u analysis profile weight (opportunity_skills u analysis)
      (normalized_values profile.skills)

unfoldable pub category_component_at :
    Unicode → Decimal → Option Str → List Str → StructuredScoreComponent
unfolding select best_similarity similar_to sorted_texts
category_component_at u weight none categories = score_component category none weight []
category_component_at u weight (some opportunity_category) [] =
    score_component category none weight []
category_component_at u weight (some opportunity_category) (first ∷ others) =
    score_component category
      (some (of_quanta (best_similarity u opportunity_category (first ∷ others)))) weight
      (sorted_texts (select (similar_to u opportunity_category) (first ∷ others)))

unfoldable pub category_component :
    Unicode → OpportunityAnalysis → SearchProfileRecord → Decimal → StructuredScoreComponent
unfolding category_component_at optional_identity unique str_eq normalized_values
category_component u analysis profile weight =
    category_component_at u weight (optional_identity u analysis.category)
      (unique str_eq (normalized_values profile.categories))

-- `Decimal(int(test))`
unfoldable pub of_test : Bool → Decimal
of_test test = if test then whole 1 else whole 0

unfoldable pub accepted_type :
    Decimal → Option OpportunityType → List OpportunityType → StructuredScoreComponent
unfolding type_in of_test
accepted_type weight none work_types = score_component work_type (some (whole 0)) weight []
accepted_type weight (some opportunity_type) work_types =
    let accepted = type_in opportunity_type work_types in
    score_component work_type (some (of_test accepted)) weight
      (if accepted then Shown.work_type opportunity_type ∷ [] else [])

unfoldable pub work_type_component_at :
    AnalysisType → Decimal → Option (List OpportunityType) → StructuredScoreComponent
unfolding is_unknown profile_opportunity_type accepted_type
work_type_component_at analysis_type weight none = score_component work_type none weight []
work_type_component_at analysis_type weight (some work_types) =
    if is_unknown analysis_type
    then score_component work_type none weight []
    else accepted_type weight (profile_opportunity_type analysis_type) work_types

unfoldable pub work_type_component :
    OpportunityAnalysis → SearchProfileRecord → Decimal → StructuredScoreComponent
unfolding work_type_component_at
work_type_component analysis profile weight =
    work_type_component_at analysis.opportunity_type weight profile.preferences.work_types

unfoldable pub known_budget_component :
    Alphabet
    → OpportunityBudget
    → SearchProfilePreferences
    → Decimal
    → Decimal
    → Result StructuredScoreComponent
unfolding same_currency maximum_budget of_test less
known_budget_component a terms wanted minimum weight =
    if same_currency a terms.currency wanted.currency
    then maximum_budget terms.min terms.max >>= (λ amount. ok (
        score_component budget (some (of_test (not (less amount minimum)))) weight (
          Shown.amount amount
          ∷ Shown.text (elim wanted.currency [ none ↦ [] | some name ↦ name ])
          ∷ [])))
    else ok (score_component budget none weight [])

unfoldable pub budget_component_at :
    Alphabet
    → OpportunityAnalysis
    → SearchProfileRecord
    → Decimal
    → Option Decimal
    → Result StructuredScoreComponent
unfolding known_budget_component hundredths
budget_component_at a analysis profile weight none = ok (score_component budget none weight [])
budget_component_at a analysis profile weight (some minimum) =
    if analysis.budget.known
    then known_budget_component a analysis.budget profile.preferences minimum weight
    else ok (
        if analysis.budget.explicit
        then score_component budget (some (hundredths 75)) weight
            (Shown.text (codes "negotiable") ∷ [])
        else score_component budget (some (hundredths 50)) weight
            (Shown.text (codes "unknown") ∷ []))

unfoldable pub budget_component :
    Alphabet → OpportunityAnalysis → SearchProfileRecord → Decimal → Result StructuredScoreComponent
unfolding budget_component_at
budget_component a analysis profile weight =
    budget_component_at a analysis profile weight profile.preferences.minimum_budget
