-- ===== src/Matching/Budgets.antt =====
-- When a budget fits a profile, and that the check of the budget decides it.
use footjob.Base.{Bool, Bool-cases, Option, Option-cases, Result, Str, ap, arith, bind-ok}
use footjob.Base.{false, inl, inr, none, not, ok, refl, some, sym, true, ◌&&◌, ◌↔◌, ◌∙◌, ◌≡◌}
use footjob.Base.{◌⊎◌}
use footjob.Base.Decimal.{Decimal, less}
use footjob.Matching.Records.{OpportunityBudget}
use footjob.Matching.Records.{SearchProfilePreferences}
use footjob.Matching.Records.{BudgetPolicy}
use footjob.Matching.Filters.{Alphabet}
use footjob.Matching.Findings.{Findings}
use footjob.Matching.Filters.{budget_findings, known_findings, unknown_findings, compared_budget}
use footjob.Matching.Filters.{requires_explicit, same_currency, maximum_budget}
use footjob.Matching.Findings.{passed}
use footjob.Matching.Passing.{clear}

-- A budget that is not known has to be explicit where the profile says so. One that is known is,
-- in the profile's currency, no less than its minimum.
abbrev pub BudgetFits : Alphabet → OpportunityBudget → SearchProfilePreferences → Type 0
BudgetFits a b p =
    (b.known ≡ false → p.budget_policy ≡ some BudgetPolicy.require_explicit → b.explicit ≡ true)
    × ((minimum amount : Decimal)
        → b.known ≡ true
        → p.minimum_budget ≡ some minimum
        → same_currency a b.currency p.currency ≡ true
        → maximum_budget b.min b.max ≡ ok amount
        → less amount minimum ≡ false)

explicit_lem :
    (p : Option BudgetPolicy)
    → (requires_explicit p ≡ true) ↔ (p ≡ some BudgetPolicy.require_explicit)
unfolding requires_explicit
explicit_lem none = (λ h. cc, λ h. cc)
explicit_lem (some BudgetPolicy.allow_unknown) = (λ h. cc, λ h. cc)
explicit_lem (some BudgetPolicy.require_explicit) = (λ h. refl, λ h. refl)

unknown_lem :
    (b : OpportunityBudget) (p : SearchProfilePreferences)
    → clear (unknown_findings b p) ≡ not (requires_explicit p.budget_policy && not b.explicit)
unfolding unknown_findings clear
unknown_lem b p = ground arith

compared_lem :
    (c : Option Str) (minimum amount : Decimal)
    → clear (compared_budget c minimum amount) ≡ not (less amount minimum)
unfolding compared_budget clear
compared_lem c minimum amount = ground arith

-- How the check of the budget ends.
pub data BudgetCase (a : Alphabet) (b : OpportunityBudget) (p : SearchProfilePreferences)
    (found : Findings) : Type 0 where
  unknown_budget : b.known ≡ false → found ≡ unknown_findings b p → BudgetCase a b p found
  no_minimum :
      b.known ≡ true → p.minimum_budget ≡ none → clear found ≡ true → BudgetCase a b p found
  other_currency :
      b.known ≡ true
      → same_currency a b.currency p.currency ≡ false
      → clear found ≡ true
      → BudgetCase a b p found
  compared :
      (minimum amount : Decimal)
      → b.known ≡ true
      → p.minimum_budget ≡ some minimum
      → same_currency a b.currency p.currency ≡ true
      → maximum_budget b.min b.max ≡ ok amount
      → found ≡ compared_budget p.currency minimum amount
      → BudgetCase a b p found

unok : (x y : Findings) → ◌≡◌ {A = Result Findings} (ok x) (ok y) → y ≡ x
unok x y e = cc

known_case :
    (a : Alphabet) (b : OpportunityBudget) (p : SearchProfilePreferences) (found : Findings)
    (minimum : Decimal)
    → b.known ≡ true
    → p.minimum_budget ≡ some minimum
    → known_findings a b p minimum ≡ ok found
    → BudgetCase a b p found
unfolding known_findings clear
known_case a b p found minimum k m e = elim (Bool-cases (same_currency a b.currency p.currency)) [
  | inl s ↦
      let (amount, q, r) = bind-ok (maximum_budget b.min b.max) _ (rw s at e) in
      compared minimum amount k m s q (unok _ found r)
  | inr s ↦ other_currency k s (ap clear (unok _ found (rw s at e)))
]

pub budget_case :
    (a : Alphabet) (b : OpportunityBudget) (p : SearchProfilePreferences) (found : Findings)
    → budget_findings a b p ≡ ok found
    → BudgetCase a b p found
unfolding budget_findings clear
budget_case a b p found e = elim (Bool-cases b.known) [
  | inl k ↦ elim (Option-cases p.minimum_budget) [
    | inl n ↦ no_minimum k n (ap clear (unok passed found (ground (arith, e, k, n))))
    | inr (minimum, m) ↦ known_case a b p found minimum k m (ground (arith, e, k, m))
  ]
  | inr k ↦ unknown_budget k (unok _ found (rw k at e))
]

not_less : (b : Bool) → not b ≡ true → b ≡ false
not_less b h = ground arith

pub budget_fits :
    (a : Alphabet) (b : OpportunityBudget) (p : SearchProfilePreferences) (found : Findings)
    → BudgetCase a b p found
    → clear found ≡ true
    → BudgetFits a b p
budget_fits a b p found (unknown_budget k e) h = (
  λ k' r.
      explicit_needed (requires_explicit p.budget_policy) b.explicit
        ((explicit_lem p.budget_policy).1 r) (sym (unknown_lem b p) ∙ sym (ap clear e) ∙ h),
  λ minimum amount k' m s q. cc,
)
  where
    explicit_needed : (r x : Bool) → r ≡ true → not (r && not x) ≡ true → x ≡ true
    explicit_needed r x e h = ground arith
budget_fits a b p found (no_minimum k n c) h = (λ k' r. cc, λ minimum amount k' m s q. cc)
budget_fits a b p found (other_currency k s c) h = (λ k' r. cc, λ minimum amount k' m s' q. cc)
budget_fits a b p found (compared minimum amount k m s q e) h = (
  λ k' r. cc,
  λ minimum' amount' k' m' s' q'.
      same minimum' amount' (some_eq _ _ (sym m ∙ m')) (ok_eq _ _ (sym q ∙ q')),
)
  where
    some_eq : (x y : Decimal) → ◌≡◌ {A = Option Decimal} (some x) (some y) → x ≡ y
    some_eq x y e = cc

    ok_eq : (x y : Decimal) → ◌≡◌ {A = Result Decimal} (ok x) (ok y) → x ≡ y
    ok_eq x y e = cc

    enough : less amount minimum ≡ false
    enough =
        not_less (less amount minimum)
          (sym (compared_lem p.currency minimum amount) ∙ sym (ap clear e) ∙ h)

    same :
        (minimum' amount' : Decimal)
        → minimum ≡ minimum'
        → amount ≡ amount'
        → less amount' minimum' ≡ false
    same minimum' amount' x y = cc (enough)

pub fits_budget :
    (a : Alphabet) (b : OpportunityBudget) (p : SearchProfilePreferences) (found : Findings)
    → BudgetCase a b p found
    → BudgetFits a b p
    → clear found ≡ true
fits_budget a b p found (unknown_budget k e) fits =
    ap clear e ∙ unknown_lem b p ∙ allowed (Bool-cases (requires_explicit p.budget_policy))
  where
    allowed :
        (requires_explicit p.budget_policy ≡ true) ⊎ (requires_explicit p.budget_policy ≡ false)
        → not (requires_explicit p.budget_policy && not b.explicit) ≡ true
    allowed (inl r) = rw (r, fits.0 k ((explicit_lem p.budget_policy).0 r))
    allowed (inr r) = rw r
fits_budget a b p found (no_minimum k n c) fits = c
fits_budget a b p found (other_currency k s c) fits = c
fits_budget a b p found (compared minimum amount k m s q e) fits =
    ap clear e ∙ compared_lem p.currency minimum amount ∙ ap not (fits.1 minimum amount k m s q)
