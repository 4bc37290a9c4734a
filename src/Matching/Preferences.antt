-- ===== src/Matching/Preferences.antt =====
-- The component of the preferences: language, place and mode of work
-- (freelancer_bot/matching.py).
use footjob.Base.{Bool, List, Option, Str, [], codes, if◌then◌else◌, length, none, some}
use footjob.Base.{str_in, ℕ, ◌++◌, ◌+◌, ◌∷◌}
use footjob.Base.Decimal.{Decimal, whole, divide}
use footjob.Lexical.Tokens.{Unicode}
use footjob.Matching.Records.{OpportunityAnalysis, Shown}
use footjob.Matching.Records.{SearchProfileRecord, WorkMode}
use footjob.Matching.Records.{SearchProfileTerm}
use footjob.Matching.Findings.{optional_identity, normalized_values}
use footjob.Matching.Findings.{work_mode}
use footjob.Matching.Findings.{mode_in}
use footjob.Matching.Policy.{StructuredScoreComponent, preferences, score_component}

-- A constraint's score and evidence, where both sides are known.
unfoldable pub term_preference :
    Str → Option Str → Option (List SearchProfileTerm) → List (Bool × List Shown)
unfolding normalized_values str_in
term_preference name none values = []
term_preference name (some identity) none = []
term_preference name (some identity) (some values) =
    let accepted = str_in identity (normalized_values values) in
    (accepted, if accepted then Shown.text (name ++ identity) ∷ [] else []) ∷ []

mode_value : WorkMode → Str
mode_value WorkMode.remote = codes "remote"
mode_value WorkMode.hybrid = codes "hybrid"
mode_value WorkMode.on_site = codes "on_site"

unfoldable pub mode_preference : Option WorkMode → Option (List WorkMode) → List (Bool × List Shown)
unfolding mode_in mode_value
mode_preference none modes = []
mode_preference (some mode) none = []
mode_preference (some mode) (some modes) =
    let accepted = mode_in mode modes in
    (accepted, if accepted then Shown.text (codes "work_mode:" ++ mode_value mode) ∷ [] else [])
    ∷ []

unfoldable pub accepted_count : List (Bool × List Shown) → ℕ
accepted_count [] = 0
accepted_count ((accepted, evidence) ∷ rest) =
    let count = accepted_count rest in if accepted then count + 1 else count

unfoldable pub all_evidence : List (Bool × List Shown) → List Shown
all_evidence [] = []
all_evidence ((accepted, evidence) ∷ rest) = evidence ++ all_evidence rest

unfoldable pub preference_checks :
    Unicode → OpportunityAnalysis → SearchProfileRecord → List (Bool × List Shown)
unfolding term_preference mode_preference optional_identity work_mode
preference_checks u analysis profile =
    term_preference (codes "language:") (optional_identity u analysis.language)
      profile.preferences.languages
    ++ term_preference (codes "geography:") (optional_identity u analysis.location)
        profile.preferences.geographies
    ++ mode_preference (work_mode analysis) profile.preferences.work_modes

-- `sum(scores) / len(scores)` of scores that are each 0 or 1.
unfoldable pub preferences_component_at :
    Decimal → List (Bool × List Shown) → StructuredScoreComponent
unfolding accepted_count all_evidence divide whole
preferences_component_at weight [] = score_component preferences none weight []
preferences_component_at weight (check ∷ checks) =
    score_component preferences
      (some (divide (whole (accepted_count (check ∷ checks))) (whole (length (check ∷ checks)))))
      weight (all_evidence (check ∷ checks))

unfoldable pub preferences_component :
    Unicode → OpportunityAnalysis → SearchProfileRecord → Decimal → StructuredScoreComponent
unfolding preferences_component_at preference_checks
preferences_component u analysis profile weight =
    preferences_component_at weight (preference_checks u analysis profile)
