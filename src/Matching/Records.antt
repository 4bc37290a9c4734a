-- ===== src/Matching/Records.antt =====
-- What matching reads of an opportunity and of a search profile
-- (freelancer_bot/opportunity_analysis.py, freelancer_bot/search_profiles.py and
-- freelancer_bot/persistence/search_profiles.py), and the results of the hard filters
-- (freelancer_bot/matching.py). A `float` of a budget is held as the decimal that `str` shows.
use footjob.Base.{Bool, List, Option, Str, ℕ}
use footjob.Base.Decimal.{Decimal}

pub data AnalysisType : Type 0 where
  one_off_order project vacancy part_time_contractor consultation unknown : AnalysisType

pub data OpportunityType : Type 0 where
  one_off_order project vacancy part_time_contractor : OpportunityType

pub data BudgetPolicy : Type 0 where
  allow_unknown require_explicit : BudgetPolicy

pub data WorkMode : Type 0 where
  remote hybrid on_site : WorkMode

pub data OpportunityLifecycleStatus : Type 0 where
  active stale closed retracted suppressed : OpportunityLifecycleStatus

pub data SearchProfileConfirmationStatus : Type 0 where
  draft confirmed : SearchProfileConfirmationStatus

pub record OpportunityBudget : Type 0 where
  pub known : Bool
  pub min : Option Decimal
  pub max : Option Decimal
  pub currency : Option Str
  pub explicit : Bool

pub record OpportunityQuality : Type 0 where
  pub actionability : Decimal
  pub commercial_plausibility : Decimal
  pub specificity : Decimal
  pub credibility : Decimal

-- `remote` and `location` are those of `work`.
pub record OpportunityAnalysis : Type 0 where
  pub opportunity_type : AnalysisType
  pub category : Option Str
  pub role_title : Option Str
  pub skills : List Str
  pub budget : OpportunityBudget
  pub is_remote : Option Bool
  pub location : Option Str
  pub language : Option Str
  pub quality : OpportunityQuality
  pub red_flags : List Str

pub record CanonicalOpportunityRecord : Type 0 where
  pub id : ℕ
  pub analysis : OpportunityAnalysis
  pub lifecycle_status : OpportunityLifecycleStatus

pub record SearchProfileTerm : Type 0 where
  pub value : Str
  pub normalized_value : Str

pub record SearchProfilePreferences : Type 0 where
  pub work_types : Option (List OpportunityType)
  pub minimum_budget : Option Decimal
  pub currency : Option Str
  pub budget_policy : Option BudgetPolicy
  pub languages : Option (List SearchProfileTerm)
  pub geographies : Option (List SearchProfileTerm)
  pub work_modes : Option (List WorkMode)
  pub excluded_categories : Option (List SearchProfileTerm)

pub record SearchProfileRecord : Type 0 where
  pub id : ℕ
  pub roles : List SearchProfileTerm
  pub skills : List SearchProfileTerm
  pub categories : List SearchProfileTerm
  pub preferences : SearchProfilePreferences
  pub confirmation_status : SearchProfileConfirmationStatus
  pub is_active : Bool

pub data HardFilterCode : Type 0 where
  opportunity_not_active profile_not_active profile_not_confirmed : HardFilterCode
  work_type_mismatch excluded_category language_mismatch geography_mismatch : HardFilterCode
  work_mode_mismatch budget_not_explicit budget_below_minimum : HardFilterCode

pub data UnknownMatchField : Type 0 where
  opportunity_type category language geography work_mode budget budget_currency : UnknownMatchField

pub data CandidateExclusionCode : Type 0 where
  no_structured_target_overlap : CandidateExclusionCode
  work_type_mismatch language_mismatch geography_mismatch : CandidateExclusionCode

-- A value of a failure, as text: the value of an enum, a text, or an amount that `str` shows.
pub data Shown : Type 0 where
  status : OpportunityLifecycleStatus → Shown
  analysis_type : AnalysisType → Shown
  work_type : OpportunityType → Shown
  mode : WorkMode → Shown
  text : Str → Shown
  amount : Decimal → Shown

pub record HardFilterFailure : Type 0 where
  pub code : HardFilterCode
  pub opportunity_value : Option Shown
  pub profile_values : List Shown

pub record HardFilterDecision : Type 0 where
  pub profile : SearchProfileRecord
  pub eligible : Bool
  pub failures : List HardFilterFailure
  pub nonblocking_unknowns : List UnknownMatchField

pub record CandidateExclusion : Type 0 where
  pub profile_id : ℕ
  pub code : CandidateExclusionCode

pub data NarrowingDimension : Type 0 where
  category_role_skills work_type language geography : NarrowingDimension

pub record CandidateNarrowingTrace : Type 0 where
  pub active_profile_count : ℕ
  pub narrowed_candidate_count : ℕ
  pub hard_filter_eligible_count : ℕ
  pub semantic_score_candidate_count : ℕ
  pub narrowing_dimensions : List NarrowingDimension
  pub exclusions : List CandidateExclusion

pub record CandidateNarrowingResult : Type 0 where
  pub opportunity_id : ℕ
  pub opportunity_eligible : Bool
  pub decisions : List HardFilterDecision
  pub eligible_profiles : List SearchProfileRecord
  pub trace : CandidateNarrowingTrace
