-- ===== src/Matching/Evidence.antt =====
-- What an opportunity and a profile have in common by their words: the helpers of the role and skill
-- components (freelancer_bot/matching.py). A similarity is in ten-thousandths.
use footjob.Base.{Bool, List, Str, [], any, codes, false, if◌then◌else◌, leb, ltb, map, none}
use footjob.Base.{not, some, str_eq, str_in, unique, ℕ, ◌&&◌, ◌++◌, ◌||◌, ◌∷◌}
use footjob.Lexical.{label_similarity, label_matches}
use footjob.Lexical.Tokens.{Unicode, lexical_concepts}
use footjob.Matching.{identities}
use footjob.Matching.Records.{OpportunityAnalysis, SearchProfileRecord}
use footjob.Matching.Findings.{optional_identity, normalized_values}

role_family_concepts : List Str
role_family_concepts =
    codes "develop"
    ∷ codes "developer"
    ∷ codes "engine"
    ∷ codes "engineer"
    ∷ codes "program"
    ∷ codes "programmer"
    ∷ codes "cod"
    ∷ codes "coder"
    ∷ codes "разработчик"
    ∷ codes "разрабочик"
    ∷ codes "программист"
    ∷ codes "инженер"
    ∷ codes "специалист"
    ∷ codes "specialist"
    ∷ []

generic_skill_concepts : List Str
unfolding role_family_concepts
generic_skill_concepts =
    role_family_concepts
    ++ codes "work"
      ∷ codes "project"
      ∷ codes "service"
      ∷ codes "skill"
      ∷ codes "experience"
      ∷ codes "backend"
      ∷ codes "full"
      ∷ codes "stack"
      ∷ []

-- `lexical_concepts(label) & _ROLE_FAMILY_CONCEPTS`
unfoldable pub in_role_family : Unicode → Str → Bool
unfolding any lexical_concepts str_in role_family_concepts
in_role_family u label =
    any (λ concept. str_in concept role_family_concepts) (lexical_concepts u label)

unfoldable pub role_family_compatible : Unicode → Str → List Str → Bool
unfolding any in_role_family
role_family_compatible u opportunity_role profile_roles =
    in_role_family u opportunity_role && any (in_role_family u) profile_roles

-- Some concept of the label is not a generic one.
unfoldable pub names_skill : Unicode → Str → Bool
unfolding any lexical_concepts str_in generic_skill_concepts
names_skill u label =
    any (λ concept. not (str_in concept generic_skill_concepts)) (lexical_concepts u label)

unfoldable pub opportunity_skills : Unicode → OpportunityAnalysis → List Str
opportunity_skills u analysis = identities u (map some analysis.skills)

-- Where a side has no skills, there are no matches either.
unfoldable pub has_specific_skill_overlap :
    Unicode → OpportunityAnalysis → SearchProfileRecord → Bool
unfolding any label_matches opportunity_skills normalized_values names_skill
has_specific_skill_overlap u analysis profile =
    any
      (λ match. leb 7500 match.similarity && names_skill u match.left && names_skill u match.right)
      (label_matches u (opportunity_skills u analysis) (normalized_values profile.skills))

-- `frozenset(term.normalized_value for term in terms)`
unfoldable pub profile_roles : SearchProfileRecord → List Str
unfolding unique str_eq normalized_values
profile_roles profile = unique str_eq (normalized_values profile.roles)

unfoldable pub similar_to : Unicode → Str → Str → Bool
unfolding label_similarity
similar_to u label other = ltb 0 (label_similarity u label other)

unfoldable pub role_supports_skill_overlap :
    Unicode → OpportunityAnalysis → SearchProfileRecord → Bool
unfolding any optional_identity profile_roles similar_to role_family_compatible
role_supports_skill_overlap u analysis profile = elim (optional_identity u analysis.role_title) [
  | none ↦ false
  | some role ↦
      any (similar_to u role) (profile_roles profile)
      || role_family_compatible u role (profile_roles profile)
]

-- `max((_label_similarity(label, other) for other in others), default=Decimal("0"))`
unfoldable pub best_similarity : Unicode → Str → List Str → ℕ
unfolding label_similarity
best_similarity u label [] = 0
best_similarity u label (other ∷ others) =
    let rest = best_similarity u label others in
    let here = label_similarity u label other in if ltb here rest then rest else here
