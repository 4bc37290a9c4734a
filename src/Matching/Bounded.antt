-- ===== src/Matching/Bounded.antt =====
-- Each component of the score keeps within its weight.
use footjob.Base.{Bool, Bool-cases, List, Option, Str, Yields, Yields-bind, Yields-if}
use footjob.Base.{Yields-pure, [], arith, false, if◌then◌else◌, inl, inr, none, refl, some}
use footjob.Base.{subst, true, ℕ, ◌<◌, ◌∷◌, ◌≡◌, ◌≤◌}
use footjob.Base.Decimal.{Decimal, whole, quantize, less, quantize-le}
use footjob.Base.Bounds.{Within, multiply-Within, quantize-Within}
use Prim.Native.Nat.{◌^◌}
use footjob.Lexical.Tokens.{Unicode}
use footjob.Matching.Records.{AnalysisType, OpportunityType, OpportunityAnalysis, Shown}
use footjob.Matching.Records.{SearchProfileRecord, CanonicalOpportunityRecord}
use footjob.Matching.Filters.{Alphabet, same_currency}
use footjob.Matching.Findings.{is_unknown, profile_opportunity_type}
use footjob.Matching.Filters.{maximum_budget}
use footjob.Matching.Policy.{StructuredScoreComponent, ComponentName, score_component, clamp}
use footjob.Matching.Components.{role_component_at, skills_component_at}
use footjob.Matching.Policy.{of_quanta}
use footjob.Matching.Components.{category_component_at, work_type_component_at, accepted_type}
use footjob.Matching.Components.{known_budget_component, budget_component_at}
use footjob.Matching.Preferences.{preferences_component_at}

-- A component's score is at most 1, and its contribution at most `most` ten-thousandths.
pub record Bounded (most : ℕ) (c : StructuredScoreComponent) : Type 0 where
  pub scored : (n : ℕ) → c.score ≡ some n → n ≤ 10000
  pub contributed : c.contribution ≤ most

pub quantize-clamp : (value : Decimal) → quantize (clamp value) ≤ 10000
unfolding clamp less whole
quantize-clamp value = elim (Bool-cases (less (whole 1) value)) [
  | inl e ↦ rw e (quantize-le (whole 1) one)
  | inr e ↦ rw e (quantize-le value e)
]
  where
    one : less (whole 1) (whole 1) ≡ false
    one = refl

pub of_quanta-Within : (n : ℕ) → n ≤ 10000 → Within 10000 (of_quanta n)
unfolding of_quanta
of_quanta-Within n h = omega arith

module _ (most : ℕ) (small : most < 10 ^ 20) (weight : Decimal) (light : Within most weight) where
  pub score_component-Bounded :
      (name : ComponentName) (score : Option Decimal) (evidence : List Shown)
      → Bounded most (score_component name score weight evidence)
  unfolding score_component
  score_component-Bounded name none evidence = record {
    scored = λ n e. cc;
    contributed = omega arith;
  }
  score_component-Bounded name (some score) evidence =
      let fits = quantize-clamp score in
      record {
        scored = λ n e. subst (λ m. m ≤ 10000) (some_eq _ n e) fits;
        contributed =
            quantize-Within _ most
              (multiply-Within _ weight most small (of_quanta-Within _ fits) light);
      }
    where
      some_eq : (m n : ℕ) → ◌≡◌ {A = Option ℕ} (some m) (some n) → m ≡ n
      some_eq m n e = cc

  pub role_component_at-Bounded :
      (u : Unicode) (an : OpportunityAnalysis) (p : SearchProfileRecord) (r : Option Str)
      (rs : List Str)
      → Bounded most (role_component_at u an p weight r rs)
  unfolding role_component_at
  role_component_at-Bounded u an p none rs = score_component-Bounded _ _ _
  role_component_at-Bounded u an p (some r) [] = score_component-Bounded _ _ _
  role_component_at-Bounded u an p (some r) (x ∷ rs) = score_component-Bounded _ _ _

  pub skills_component_at-Bounded :
      (u : Unicode) (an : OpportunityAnalysis) (p : SearchProfileRecord) (xs ys : List Str)
      → Bounded most (skills_component_at u an p weight xs ys)
  unfolding skills_component_at
  skills_component_at-Bounded u an p [] ys = score_component-Bounded _ _ _
  skills_component_at-Bounded u an p (x ∷ xs) [] = score_component-Bounded _ _ _
  skills_component_at-Bounded u an p (x ∷ xs) (y ∷ ys) = score_component-Bounded _ _ _

  pub category_component_at-Bounded :
      (u : Unicode) (c : Option Str) (cs : List Str)
      → Bounded most (category_component_at u weight c cs)
  unfolding category_component_at
  category_component_at-Bounded u none cs = score_component-Bounded _ _ _
  category_component_at-Bounded u (some c) [] = score_component-Bounded _ _ _
  category_component_at-Bounded u (some c) (x ∷ cs) = score_component-Bounded _ _ _

  pub accepted_type-Bounded :
      (t : Option OpportunityType) (ts : List OpportunityType)
      → Bounded most (accepted_type weight t ts)
  unfolding accepted_type
  accepted_type-Bounded none ts = score_component-Bounded _ _ _
  accepted_type-Bounded (some t) ts = score_component-Bounded _ _ _

  either_Bounded :
      (test : Bool) (c d : StructuredScoreComponent)
      → Bounded most c
      → Bounded most d
      → Bounded most (if test then c else d)
  either_Bounded true c d h k = h
  either_Bounded false c d h k = k

  pub work_type_component_at-Bounded :
      (t : AnalysisType) (ts : Option (List OpportunityType))
      → Bounded most (work_type_component_at t weight ts)
  unfolding work_type_component_at
  work_type_component_at-Bounded t none = score_component-Bounded _ _ _
  work_type_component_at-Bounded t (some ts) =
      either_Bounded (is_unknown t) _ _ (score_component-Bounded _ _ _)
        (accepted_type-Bounded (profile_opportunity_type t) ts)

  pub preferences_component_at-Bounded :
      (checks : List (Bool × List Shown)) → Bounded most (preferences_component_at weight checks)
  unfolding preferences_component_at
  preferences_component_at-Bounded [] = score_component-Bounded _ _ _
  preferences_component_at-Bounded (c ∷ cs) = score_component-Bounded _ _ _

  pub known_budget_component-Bounded :
      (a : Alphabet) (o : CanonicalOpportunityRecord) (p : SearchProfileRecord) (minimum : Decimal)
      → Yields
          (Bounded most)
          (known_budget_component a o.analysis.budget p.preferences minimum weight)
  unfolding known_budget_component
  known_budget_component-Bounded a o p minimum =
      Yields-if (same_currency a o.analysis.budget.currency p.preferences.currency) _ _
        (λ same.
          Yields-bind (maximum_budget o.analysis.budget.min o.analysis.budget.max) _
            (λ amount e. Yields-pure (score_component-Bounded _ _ _)))
        (λ other. Yields-pure (score_component-Bounded _ _ _))

  pub budget_component_at-Bounded :
      (a : Alphabet) (o : CanonicalOpportunityRecord) (p : SearchProfileRecord)
      (minimum : Option Decimal)
      → Yields (Bounded most) (budget_component_at a o.analysis p weight minimum)
  unfolding budget_component_at
  budget_component_at-Bounded a o p none = Yields-pure (score_component-Bounded _ _ _)
  budget_component_at-Bounded a o p (some minimum) =
      Yields-if o.analysis.budget.known _ _ (λ known. known_budget_component-Bounded a o p minimum)
        (λ unknown. Yields-pure (
          either_Bounded o.analysis.budget.explicit _ _ (score_component-Bounded _ _ _)
            (score_component-Bounded _ _ _)))
