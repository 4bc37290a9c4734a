-- ===== src/Matching/Findings.antt =====
-- What a hard filter finds, and the values that it compares (freelancer_bot/matching.py).
use footjob.Base.{Bool, List, Option, Str, [], any, false, if◌then◌else◌, none, some, true, ℕ}
use footjob.Base.{◌++◌, ◌==◌, ◌∷◌}
use footjob.Lexical.Tokens.{Unicode, collapse}
use footjob.Matching.Records.{AnalysisType, OpportunityType, WorkMode}
use footjob.Matching.Records.{OpportunityLifecycleStatus, SearchProfileConfirmationStatus}
use footjob.Matching.Records.{OpportunityAnalysis}
use footjob.Matching.Records.{SearchProfileTerm}
use footjob.Matching.Records.{HardFilterCode, UnknownMatchField, Shown, HardFilterFailure}

pub record Findings : Type 0 where
  pub failures : List HardFilterFailure
  pub unknowns : List UnknownMatchField

unfoldable pub passed : Findings
passed = record { failures = []; unknowns = [] }

unfoldable pub failed : HardFilterCode → Option Shown → List Shown → Findings
failed code value values = record {
  failures = record { code = code; opportunity_value = value; profile_values = values } ∷ [];
  unknowns = [];
}

unfoldable pub not_known : UnknownMatchField → Findings
not_known field = record { failures = []; unknowns = field ∷ [] }

unfoldable pub also : Findings → Findings → Findings
also a b = record { failures = a.failures ++ b.failures; unknowns = a.unknowns ++ b.unknowns }

unfoldable pub is_open : OpportunityLifecycleStatus → Bool
is_open OpportunityLifecycleStatus.active = true
is_open OpportunityLifecycleStatus.stale = false
is_open OpportunityLifecycleStatus.closed = false
is_open OpportunityLifecycleStatus.retracted = false
is_open OpportunityLifecycleStatus.suppressed = false

unfoldable pub is_confirmed : SearchProfileConfirmationStatus → Bool
is_confirmed SearchProfileConfirmationStatus.draft = false
is_confirmed SearchProfileConfirmationStatus.confirmed = true

unfoldable pub is_unknown : AnalysisType → Bool
is_unknown AnalysisType.unknown = true
is_unknown AnalysisType.one_off_order = false
is_unknown AnalysisType.project = false
is_unknown AnalysisType.vacancy = false
is_unknown AnalysisType.part_time_contractor = false
is_unknown AnalysisType.consultation = false

unfoldable pub profile_opportunity_type : AnalysisType → Option OpportunityType
profile_opportunity_type AnalysisType.one_off_order = some OpportunityType.one_off_order
profile_opportunity_type AnalysisType.project = some OpportunityType.project
profile_opportunity_type AnalysisType.vacancy = some OpportunityType.vacancy
profile_opportunity_type AnalysisType.part_time_contractor =
    some OpportunityType.part_time_contractor
profile_opportunity_type AnalysisType.consultation = none
profile_opportunity_type AnalysisType.unknown = none

unfoldable pub type_rank : OpportunityType → ℕ
type_rank OpportunityType.one_off_order = 0
type_rank OpportunityType.project = 1
type_rank OpportunityType.vacancy = 2
type_rank OpportunityType.part_time_contractor = 3

unfoldable pub mode_rank : WorkMode → ℕ
mode_rank WorkMode.remote = 0
mode_rank WorkMode.hybrid = 1
mode_rank WorkMode.on_site = 2

unfoldable pub field_rank : UnknownMatchField → ℕ
field_rank UnknownMatchField.opportunity_type = 0
field_rank UnknownMatchField.category = 1
field_rank UnknownMatchField.language = 2
field_rank UnknownMatchField.geography = 3
field_rank UnknownMatchField.work_mode = 4
field_rank UnknownMatchField.budget = 5
field_rank UnknownMatchField.budget_currency = 6

-- `profile_type in work_types`
unfoldable pub type_in : OpportunityType → List OpportunityType → Bool
unfolding any type_rank
type_in value values = any (λ other. type_rank value == type_rank other) values

unfoldable pub mode_in : WorkMode → List WorkMode → Bool
unfolding any mode_rank
mode_in value values = any (λ other. mode_rank value == mode_rank other) values

unfoldable pub optional_identity : Unicode → Option Str → Option Str
unfolding collapse
optional_identity u none = none
optional_identity u (some value) = elim (u.casefold (collapse (u.nfkc value))) [
  | [] ↦ none
  | c ∷ s ↦ some (c ∷ s)
]

unfoldable pub normalized_values : List SearchProfileTerm → List Str
normalized_values [] = []
normalized_values (term ∷ terms) = term.normalized_value ∷ normalized_values terms

unfoldable pub work_mode : OpportunityAnalysis → Option WorkMode
work_mode analysis = elim analysis.is_remote [
  | none ↦ none
  | some remote ↦ some (if remote then WorkMode.remote else WorkMode.on_site)
]
