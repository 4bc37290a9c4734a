-- ===== src/Matching.antt =====
-- Narrowing of the search profiles for an opportunity, and the hard filters on what is left:
-- freelancer_bot/matching.py. Matching/Filters holds the hard filters.
pub mod Records
pub mod Findings
pub mod Filters
mod Passing
mod Budgets
pub mod Suitable
pub mod Narrowing
pub mod Evidence
pub mod Policy
pub mod Components
pub mod Preferences
pub mod Scoring
pub mod Scores
mod Bounded
pub mod Bounds
pub mod Tests
use footjob.Base.{Bool, List, Option, Result, Str, [], false, if◌then◌else◌, is_some, length}
use footjob.Base.{map, none, not, ok, select, some, str_in, true, ◌&&◌, ◌++◌, ◌>>=◌, ◌∷◌}
use footjob.Lexical.{labels_have_overlap}
use footjob.Lexical.Tokens.{Unicode}
use Records.{OpportunityAnalysis, CanonicalOpportunityRecord, SearchProfileTerm}
use Records.{SearchProfileRecord, HardFilterDecision, CandidateExclusionCode, CandidateExclusion}
use Records.{NarrowingDimension, CandidateNarrowingTrace, CandidateNarrowingResult}
use Findings.{is_open, is_confirmed, is_unknown, optional_identity, normalized_values}
use Filters.{Alphabet, type_mismatch}
use Filters.{evaluate_hard_filters}

unfoldable pub known_term_mismatch : Option Str → Option (List SearchProfileTerm) → Bool
unfolding normalized_values str_in
known_term_mismatch none values = false
known_term_mismatch (some identity) none = false
known_term_mismatch (some identity) (some values) = not (str_in identity (normalized_values values))

-- `[identity for value in values if (identity := _optional_identity(value)) is not None]`
pub identities : Unicode → List (Option Str) → List Str
unfolding optional_identity
identities u [] = []
identities u (value ∷ values) = elim (optional_identity u value) [
  | none ↦ identities u values
  | some identity ↦ identity ∷ identities u values
]

pub opportunity_targets : Unicode → OpportunityAnalysis → List Str
unfolding identities
opportunity_targets u analysis =
    identities u (analysis.category ∷ analysis.role_title ∷ map some analysis.skills)

pub profile_targets : SearchProfileRecord → List Str
unfolding normalized_values
profile_targets profile =
    normalized_values profile.categories
    ++ normalized_values profile.roles
    ++ normalized_values profile.skills

pub has_targets : List Str → Bool
has_targets [] = false
has_targets (target ∷ targets) = true

unfoldable pub targets_apart : Unicode → OpportunityAnalysis → SearchProfileRecord → Bool
unfolding opportunity_targets profile_targets has_targets labels_have_overlap
targets_apart u analysis profile =
    has_targets (opportunity_targets u analysis)
    && has_targets (profile_targets profile)
    && not (labels_have_overlap u (opportunity_targets u analysis) (profile_targets profile))

unfoldable pub candidate_exclusion :
    Unicode → OpportunityAnalysis → SearchProfileRecord → Option CandidateExclusionCode
candidate_exclusion u analysis profile =
    let preferences = profile.preferences in
    if type_mismatch analysis.opportunity_type preferences.work_types
    then some CandidateExclusionCode.work_type_mismatch
    else if known_term_mismatch (optional_identity u analysis.language) preferences.languages
    then some CandidateExclusionCode.language_mismatch
    else if known_term_mismatch (optional_identity u analysis.location) preferences.geographies
    then some CandidateExclusionCode.geography_mismatch
    else if targets_apart u analysis profile
    then some CandidateExclusionCode.no_structured_target_overlap
    else none

dimension : Bool → NarrowingDimension → List NarrowingDimension
dimension available name = if available then name ∷ [] else []

pub available_narrowing_dimensions : Unicode → OpportunityAnalysis → List NarrowingDimension
unfolding dimension has_targets opportunity_targets is_unknown optional_identity
available_narrowing_dimensions u analysis =
    dimension (has_targets (opportunity_targets u analysis)) NarrowingDimension.category_role_skills
    ++ dimension (not (is_unknown analysis.opportunity_type)) NarrowingDimension.work_type
    ++ dimension (is_some (optional_identity u analysis.language)) NarrowingDimension.language
    ++ dimension (is_some (optional_identity u analysis.location)) NarrowingDimension.geography

unfoldable pub takes_part : SearchProfileRecord → Bool
unfolding is_confirmed
takes_part profile = profile.is_active && is_confirmed profile.confirmation_status

-- The two lists that the loop over the active profiles fills.
unfoldable pub candidates :
    Unicode → OpportunityAnalysis → List SearchProfileRecord → List SearchProfileRecord
candidates u analysis [] = []
candidates u analysis (profile ∷ profiles) = elim (candidate_exclusion u analysis profile) [
  | none ↦ profile ∷ candidates u analysis profiles
  | some code ↦ candidates u analysis profiles
]

unfoldable pub excluded :
    Unicode → OpportunityAnalysis → List SearchProfileRecord → List CandidateExclusion
excluded u analysis [] = []
excluded u analysis (profile ∷ profiles) = elim (candidate_exclusion u analysis profile) [
  | none ↦ excluded u analysis profiles
  | some code ↦ record { profile_id = profile.id; code = code } ∷ excluded u analysis profiles
]

unfoldable pub evaluate_all :
    Alphabet
    → CanonicalOpportunityRecord
    → List SearchProfileRecord
    → Result (List HardFilterDecision)
evaluate_all a opportunity [] = ok []
evaluate_all a opportunity (profile ∷ profiles) =
    evaluate_hard_filters a opportunity profile
    >>= (λ decision. evaluate_all a opportunity profiles >>= (λ rest. ok (decision ∷ rest)))

unfoldable pub eligible_of : List HardFilterDecision → List SearchProfileRecord
eligible_of [] = []
eligible_of (decision ∷ decisions) =
    let rest = eligible_of decisions in if decision.eligible then decision.profile ∷ rest else rest

-- The active profiles, or none where the opportunity is not active.
unfoldable pub looked_at :
    CanonicalOpportunityRecord → List SearchProfileRecord → List SearchProfileRecord
unfolding takes_part select is_open
looked_at opportunity profiles =
    if is_open opportunity.lifecycle_status then select takes_part profiles else []

unfoldable pub narrowing_result :
    Alphabet
    → CanonicalOpportunityRecord
    → List SearchProfileRecord
    → List HardFilterDecision
    → CandidateNarrowingResult
unfolding takes_part select available_narrowing_dimensions is_open eligible_of looked_at
narrowing_result a opportunity profiles decisions =
    let eligible_profiles = eligible_of decisions in
    let in_turn = looked_at opportunity profiles in
    record {
      opportunity_id = opportunity.id;
      opportunity_eligible = is_open opportunity.lifecycle_status;
      decisions = decisions;
      eligible_profiles = eligible_profiles;
      trace = record {
        active_profile_count = length (select takes_part profiles);
        narrowed_candidate_count = length (candidates a.unicode opportunity.analysis in_turn);
        hard_filter_eligible_count = length eligible_profiles;
        semantic_score_candidate_count = length eligible_profiles;
        narrowing_dimensions = available_narrowing_dimensions a.unicode opportunity.analysis;
        exclusions = excluded a.unicode opportunity.analysis in_turn;
      };
    }

unfoldable pub narrow_and_filter_candidates :
    Alphabet
    → CanonicalOpportunityRecord
    → List SearchProfileRecord
    → Result CandidateNarrowingResult
unfolding evaluate_all
narrow_and_filter_candidates a opportunity profiles =
    evaluate_all a opportunity
      (candidates a.unicode opportunity.analysis (looked_at opportunity profiles))
    >>= (λ decisions. ok (narrowing_result a opportunity profiles decisions))
