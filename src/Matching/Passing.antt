-- ===== src/Matching/Passing.antt =====
-- A decision is eligible where every check passes: the failures of the checks, one by one.
use footjob.Base.{Bool, Bool-cases, List, Option, Option-cases, Str, [], ap, arith}
use footjob.Base.{inl, inr, is_some, none, not, ok, refl, some, str_in, true, ◌&&◌, ◌++◌}
use footjob.Base.{◌>>=◌, ◌||◌, ◌∙◌, ◌∷◌, ◌≡◌}
use footjob.Base.Decimal.{Decimal}
use footjob.Matching.{known_term_mismatch}
use footjob.Matching.Records.{OpportunityBudget, CanonicalOpportunityRecord, WorkMode}
use footjob.Matching.Records.{SearchProfileTerm, SearchProfileRecord, SearchProfilePreferences}
use footjob.Matching.Records.{HardFilterCode, UnknownMatchField, HardFilterFailure}
use footjob.Matching.Records.{HardFilterDecision, OpportunityType, AnalysisType}
use footjob.Matching.Filters.{Alphabet, type_mismatch}
use footjob.Matching.Findings.{Findings, is_open, is_confirmed, work_mode}
use footjob.Matching.Filters.{no_failures}
use footjob.Matching.Findings.{optional_identity, normalized_values, mode_in, also}
use footjob.Matching.Filters.{standing_findings, type_findings, category_findings, term_findings}
use footjob.Matching.Filters.{mode_findings, plain_findings, budget_findings, known_findings}
use footjob.Matching.Filters.{unknown_findings, compared_budget, evaluate_hard_filters}
use footjob.Matching.Findings.{passed}
use footjob.Matching.Filters.{decision_on}
use footjob.Matching.Filters.{maximum_budget, same_currency}
use footjob.Matching.Findings.{not_known}

no_failures-append :
    (xs ys : List HardFilterFailure) → no_failures (xs ++ ys) ≡ (no_failures xs && no_failures ys)
unfolding no_failures
no_failures-append [] ys = refl
no_failures-append (x ∷ xs) ys = refl

unfoldable pub clear : Findings → Bool
unfolding no_failures
clear findings = no_failures findings.failures

clear-also : (x y : Findings) → clear (also x y) ≡ (clear x && clear y)
unfolding clear also
clear-also x y = no_failures-append x.failures y.failures

unfoldable pub category_accepted : Option Str → Option (List SearchProfileTerm) → Bool
unfolding str_in normalized_values
category_accepted none excluded = true
category_accepted (some category) none = true
category_accepted (some category) (some excluded) =
    not (str_in category (normalized_values excluded))

unfoldable pub mode_accepted : Option WorkMode → Option (List WorkMode) → Bool
mode_accepted none modes = true
mode_accepted (some mode) none = true
mode_accepted (some mode) (some modes) = mode_in mode modes

standing_clear :
    (o : CanonicalOpportunityRecord) (p : SearchProfileRecord)
    → clear (standing_findings o p)
      ≡ (is_open o.lifecycle_status && (p.is_active && is_confirmed p.confirmation_status))
unfolding clear standing_findings no_failures
standing_clear o p = ground arith

type_clear :
    (t : AnalysisType) (ts : Option (List OpportunityType))
    → clear (type_findings t ts) ≡ not (type_mismatch t ts)
unfolding clear type_findings no_failures type_mismatch
type_clear t none = ground arith
type_clear t (some ts) = ground arith

category_clear :
    (c : Option Str) (ts : Option (List SearchProfileTerm))
    → clear (category_findings c ts) ≡ category_accepted c ts
unfolding clear category_findings no_failures category_accepted
category_clear none ts = refl
category_clear (some c) none = refl
category_clear (some c) (some ts) = ground arith

term_clear :
    (code : HardFilterCode) (field : UnknownMatchField) (i : Option Str)
    (ts : Option (List SearchProfileTerm))
    → clear (term_findings code field i ts) ≡ not (known_term_mismatch i ts)
unfolding clear term_findings no_failures known_term_mismatch
term_clear code field none ts = refl
term_clear code field (some i) none = refl
term_clear code field (some i) (some ts) = ground arith

mode_clear :
    (m : Option WorkMode) (ms : Option (List WorkMode))
    → clear (mode_findings m ms) ≡ mode_accepted m ms
unfolding clear mode_findings no_failures mode_accepted
mode_clear none ms = refl
mode_clear (some m) none = refl
mode_clear (some m) (some ms) = ground arith

-- Every check but that of the budget passes.
abbrev pub plain_accepted : Alphabet → CanonicalOpportunityRecord → SearchProfileRecord → Bool
plain_accepted a o p =
    (is_open o.lifecycle_status && (p.is_active && is_confirmed p.confirmation_status))
    && (not (type_mismatch o.analysis.opportunity_type p.preferences.work_types)
        && (category_accepted (optional_identity a.unicode o.analysis.category)
              p.preferences.excluded_categories
            && (not (
                  known_term_mismatch (optional_identity a.unicode o.analysis.language)
                    p.preferences.languages)
                && (not (
                      known_term_mismatch (optional_identity a.unicode o.analysis.location)
                        p.preferences.geographies)
                    && mode_accepted (work_mode o.analysis) p.preferences.work_modes))))

plain_clear :
    (a : Alphabet) (o : CanonicalOpportunityRecord) (p : SearchProfileRecord)
    → clear (plain_findings a o p) ≡ plain_accepted a o p
unfolding plain_findings
plain_clear a o p =
    simp (clear-also, standing_clear, type_clear, category_clear, term_clear, mode_clear)

-- What the decision says of the pair, and of which profile.
pub evaluate_hard_filters_lem :
    (a : Alphabet) (o : CanonicalOpportunityRecord) (p : SearchProfileRecord) (found : Findings)
    → budget_findings a o.analysis.budget p.preferences ≡ ok found
    → (d : HardFilterDecision) × (evaluate_hard_filters a o p ≡ ok d)
      × (d.profile ≡ p)
      × (d.eligible ≡ (plain_accepted a o p && clear found))
unfolding evaluate_hard_filters clear
evaluate_hard_filters_lem a o p found e = (
  decision_on p (also (plain_findings a o p) found),
  ap (λ r. r >>= (λ b. ok (decision_on p (also (plain_findings a o p) b)))) e,
  refl,
  clear-also (plain_findings a o p) found ∙ ap (λ b. b && clear found) (plain_clear a o p),
)

-- The validated budget of `OpportunityBudget`: a known one has an amount.
abbrev pub HasAmount : OpportunityBudget → Type 0
HasAmount budget = budget.known ≡ true → (is_some budget.min || is_some budget.max) ≡ true

pub maximum_budget-ok :
    (minimum maximum : Option Decimal)
    → (is_some minimum || is_some maximum) ≡ true
    → (amount : Decimal) × (maximum_budget minimum maximum ≡ ok amount)
unfolding maximum_budget
maximum_budget-ok minimum (some amount) h = (amount, refl)
maximum_budget-ok (some amount) none h = (amount, refl)
maximum_budget-ok none none h = cc

known_findings-ok :
    (a : Alphabet) (b : OpportunityBudget) (p : SearchProfilePreferences) (minimum : Decimal)
    → (is_some b.min || is_some b.max) ≡ true
    → (found : Findings) × (known_findings a b p minimum ≡ ok found)
unfolding known_findings
known_findings-ok a b p minimum h = elim (Bool-cases (same_currency a b.currency p.currency)) [
  | inl e ↦
      let (amount, q) = maximum_budget-ok b.min b.max h in
      (compared_budget p.currency minimum amount, rw (e, q))
  | inr e ↦ (not_known UnknownMatchField.budget_currency, rw e)
]

-- With an amount, no check raises.
pub budget_findings-ok :
    (a : Alphabet) (b : OpportunityBudget) (p : SearchProfilePreferences)
    → HasAmount b
    → (found : Findings) × (budget_findings a b p ≡ ok found)
unfolding budget_findings
budget_findings-ok a b p h = elim (Bool-cases b.known) [
  | inl e ↦ elim (Option-cases p.minimum_budget) [
    | inl n ↦ (passed, ground (arith, e, n))
    | inr (minimum, m) ↦
        let (found, q) = known_findings-ok a b p minimum (h e) in (found, ground (arith, e, m, q))
  ]
  | inr e ↦ (unknown_findings b p, ground (arith, e))
]
