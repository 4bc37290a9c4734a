-- ===== src/Matching/Filters.antt =====
-- The hard filters on a pair of an opportunity and a search profile: `evaluate_hard_filters` with
-- its helpers (freelancer_bot/matching.py). A check gives the failures and the unknown fields that
-- it appends.
use footjob.Base.{Bool, List, Option, Result, Str, [], codes, err, false, if◌then◌else◌, map}
use footjob.Base.{none, not, ok, some, str_eq, str_in, true, unique, value_error, ◌&&◌, ◌==◌}
use footjob.Base.{◌>>=◌, ◌∷◌}
use footjob.Base.Decimal.{Decimal, less}
use footjob.Lexical.Tokens.{Unicode}
use footjob.Matching.Records.{AnalysisType, OpportunityType, BudgetPolicy, WorkMode}
use footjob.Matching.Records.{OpportunityBudget, CanonicalOpportunityRecord}
use footjob.Matching.Records.{SearchProfileTerm, SearchProfilePreferences, SearchProfileRecord}
use footjob.Matching.Records.{HardFilterCode, UnknownMatchField, Shown, HardFilterFailure}
use footjob.Matching.Records.{HardFilterDecision}
use footjob.Matching.Findings.{
  Findings, also, failed, field_rank, is_confirmed, is_open, is_unknown, mode_in, normalized_values,
  not_known, optional_identity, passed, profile_opportunity_type, type_in, work_mode,
}

-- `str.upper`, with the tables of `Unicode`.
pub record Alphabet : Type 0 where
  pub unicode : Unicode
  pub upper : Str → Str

-- The opportunity and the profile take part at all.
unfoldable pub standing_findings : CanonicalOpportunityRecord → SearchProfileRecord → Findings
unfolding passed failed also is_open is_confirmed
standing_findings opportunity profile =
    also
      (if is_open opportunity.lifecycle_status
        then passed
        else failed HardFilterCode.opportunity_not_active
            (some (Shown.status opportunity.lifecycle_status)) [])
      (also (if profile.is_active then passed else failed HardFilterCode.profile_not_active none [])
        (if is_confirmed profile.confirmation_status
          then passed
          else failed HardFilterCode.profile_not_confirmed none []))

-- A known type that the profile's list of types, where it has one, does not accept.
unfoldable pub type_mismatch : AnalysisType → Option (List OpportunityType) → Bool
unfolding is_unknown profile_opportunity_type type_in
type_mismatch analysis_type none = false
type_mismatch analysis_type (some work_types) =
    not (is_unknown analysis_type) && elim (profile_opportunity_type analysis_type) [
      | none ↦ true
      | some profile_type ↦ not (type_in profile_type work_types)
    ]

or_empty : {A : Type 0} → Option (List A) → List A
or_empty none = []
or_empty (some xs) = xs

unfoldable pub type_findings : AnalysisType → Option (List OpportunityType) → Findings
unfolding passed failed not_known is_unknown type_mismatch or_empty
type_findings analysis_type work_types =
    if is_unknown analysis_type
    then not_known UnknownMatchField.opportunity_type
    else if type_mismatch analysis_type work_types
    then failed HardFilterCode.work_type_mismatch (some (Shown.analysis_type analysis_type))
        (map Shown.work_type (or_empty work_types))
    else passed

unfoldable pub category_findings : Option Str → Option (List SearchProfileTerm) → Findings
unfolding passed failed not_known normalized_values str_in
category_findings none excluded = not_known UnknownMatchField.category
category_findings (some category) none = passed
category_findings (some category) (some excluded) =
    if str_in category (normalized_values excluded)
    then failed HardFilterCode.excluded_category (some (Shown.text category))
        (map Shown.text (normalized_values excluded))
    else passed

-- `_evaluate_term_constraint`, at the identity of the opportunity's value.
unfoldable pub term_findings :
    HardFilterCode → UnknownMatchField → Option Str → Option (List SearchProfileTerm) → Findings
unfolding passed failed not_known normalized_values str_in
term_findings code field none values = not_known field
term_findings code field (some identity) none = passed
term_findings code field (some identity) (some values) =
    if str_in identity (normalized_values values)
    then passed
    else failed code (some (Shown.text identity)) (map Shown.text (normalized_values values))

unfoldable pub mode_findings : Option WorkMode → Option (List WorkMode) → Findings
unfolding passed failed not_known mode_in
mode_findings none modes = not_known UnknownMatchField.work_mode
mode_findings (some mode) none = passed
mode_findings (some mode) (some modes) =
    if mode_in mode modes
    then passed
    else failed HardFilterCode.work_mode_mismatch (some (Shown.mode mode)) (map Shown.mode modes)

unfoldable pub maximum_budget : Option Decimal → Option Decimal → Result Decimal
maximum_budget minimum (some maximum) = ok maximum
maximum_budget (some minimum) none = ok minimum
maximum_budget none none = err value_error

unfoldable pub requires_explicit : Option BudgetPolicy → Bool
requires_explicit none = false
requires_explicit (some BudgetPolicy.allow_unknown) = false
requires_explicit (some BudgetPolicy.require_explicit) = true

-- `budget.currency is not None and budget.currency.upper() == preferences.currency`
unfoldable pub same_currency : Alphabet → Option Str → Option Str → Bool
same_currency a none currency = false
same_currency a (some s) none = false
same_currency a (some s) (some t) = str_eq (a.upper s) t

unfoldable pub compared_budget : Option Str → Decimal → Decimal → Findings
unfolding passed failed
compared_budget currency minimum comparable =
    if less comparable minimum
    then failed HardFilterCode.budget_below_minimum (some (Shown.amount comparable))
        (Shown.amount minimum ∷ Shown.text (elim currency [ none ↦ [] | some name ↦ name ]) ∷ [])
    else passed

unfoldable pub known_findings :
    Alphabet → OpportunityBudget → SearchProfilePreferences → Decimal → Result Findings
unfolding not_known maximum_budget same_currency compared_budget
known_findings a budget preferences minimum =
    if same_currency a budget.currency preferences.currency
    then maximum_budget budget.min budget.max
      >>= (λ comparable. ok (compared_budget preferences.currency minimum comparable))
    else ok (not_known UnknownMatchField.budget_currency)

unfoldable pub unknown_findings : OpportunityBudget → SearchProfilePreferences → Findings
unfolding passed failed not_known also requires_explicit
unknown_findings budget preferences = also (not_known UnknownMatchField.budget) (
    if requires_explicit preferences.budget_policy && not budget.explicit
    then failed HardFilterCode.budget_not_explicit (some (Shown.text (codes "unknown"))) []
    else passed)

unfoldable pub budget_findings :
    Alphabet → OpportunityBudget → SearchProfilePreferences → Result Findings
unfolding passed known_findings unknown_findings
budget_findings a budget preferences =
    if budget.known
    then elim preferences.minimum_budget [
      | none ↦ ok passed
      | some minimum ↦ known_findings a budget preferences minimum
    ]
    else ok (unknown_findings budget preferences)

-- The checks before that of the budget, in their order.
unfoldable pub plain_findings :
    Alphabet → CanonicalOpportunityRecord → SearchProfileRecord → Findings
plain_findings a opportunity profile =
    let analysis = opportunity.analysis in
    let preferences = profile.preferences in
    also (standing_findings opportunity profile) (
      also (type_findings analysis.opportunity_type preferences.work_types) (
        also
          (category_findings (optional_identity a.unicode analysis.category)
            preferences.excluded_categories)
          (also
            (term_findings HardFilterCode.language_mismatch UnknownMatchField.language
              (optional_identity a.unicode analysis.language) preferences.languages)
            (also
              (term_findings HardFilterCode.geography_mismatch UnknownMatchField.geography
                (optional_identity a.unicode analysis.location) preferences.geographies)
              (mode_findings (work_mode analysis) preferences.work_modes)))))

unfoldable pub no_failures : List HardFilterFailure → Bool
no_failures [] = true
no_failures (failure ∷ failures) = false

unfoldable pub decision_on : SearchProfileRecord → Findings → HardFilterDecision
unfolding no_failures unique field_rank
decision_on profile all = record {
  profile = profile;
  eligible = no_failures all.failures;
  failures = all.failures;
  nonblocking_unknowns = unique (λ field other. field_rank field == field_rank other) all.unknowns;
}

unfoldable pub evaluate_hard_filters :
    Alphabet → CanonicalOpportunityRecord → SearchProfileRecord → Result HardFilterDecision
unfolding plain_findings budget_findings also decision_on
evaluate_hard_filters a opportunity profile =
    budget_findings a opportunity.analysis.budget profile.preferences
    >>= (λ budget. ok (decision_on profile (also (plain_findings a opportunity profile) budget)))
