-- ===== src/Matching/Suitable.antt =====
-- When a profile suits an opportunity, said without the order of the checks, and that the hard
-- filters decide it.
use footjob.Base.{==_self, Bool, In, List, Option, Str, any-In, any-witness, ap, arith, false}
use footjob.Base.{none, not, ok, refl, some, str_eq, str_eq_self, str_eq→eq, str_in, subst}
use footjob.Base.{sym, true, ◌&&◌, ◌==◌, ◌↔◌, ◌∙◌, ◌≡◌}
use footjob.Matching.{known_term_mismatch}
use footjob.Matching.Records.{CanonicalOpportunityRecord, WorkMode}
use footjob.Matching.Records.{SearchProfileTerm, SearchProfileRecord}
use footjob.Matching.Records.{HardFilterDecision, OpportunityType, AnalysisType}
use footjob.Matching.Records.{OpportunityLifecycleStatus, SearchProfileConfirmationStatus}
use footjob.Matching.Filters.{Alphabet, type_mismatch}
use footjob.Matching.Findings.{is_open, is_confirmed, work_mode}
use footjob.Matching.Findings.{optional_identity, normalized_values, mode_in, type_in}
use footjob.Matching.Findings.{mode_rank, type_rank, is_unknown, profile_opportunity_type}
use footjob.Matching.Filters.{evaluate_hard_filters}
use footjob.Matching.Passing.{plain_accepted, clear, category_accepted, mode_accepted, HasAmount}
use footjob.Matching.Passing.{evaluate_hard_filters_lem, budget_findings-ok}
use footjob.Matching.Budgets.{BudgetFits, budget_case, budget_fits, fits_budget}

-- A value that is known is one of those wanted, where any are named.
abbrev pub Accepts : {A : Type 0} → Option A → Option (List A) → Type 0
Accepts none wanted = Unit
Accepts (some value) none = Unit
Accepts (some value) (some wanted) = In value wanted

abbrev pub Excludes : {A : Type 0} → Option A → Option (List A) → Type 0
Excludes none unwanted = ⊥
Excludes (some value) none = ⊥
Excludes (some value) (some unwanted) = In value unwanted

-- A type that is known has its equal among those wanted; a consultation has none.
abbrev pub AcceptsType : AnalysisType → Option (List OpportunityType) → Type 0
AcceptsType t none = Unit
AcceptsType AnalysisType.unknown (some wanted) = Unit
AcceptsType AnalysisType.consultation (some wanted) = ⊥
AcceptsType AnalysisType.one_off_order (some wanted) = In OpportunityType.one_off_order wanted
AcceptsType AnalysisType.project (some wanted) = In OpportunityType.project wanted
AcceptsType AnalysisType.vacancy (some wanted) = In OpportunityType.vacancy wanted
AcceptsType AnalysisType.part_time_contractor (some wanted) =
    In OpportunityType.part_time_contractor wanted

abbrev pub values_of : Option (List SearchProfileTerm) → Option (List Str)
values_of none = none
values_of (some terms) = some (normalized_values terms)

pub record IsSuitable (a : Alphabet) (o : CanonicalOpportunityRecord) (p : SearchProfileRecord)
    : Type 0 where
  pub opportunity_active : o.lifecycle_status ≡ OpportunityLifecycleStatus.active
  pub profile_active : p.is_active ≡ true
  pub confirmed : p.confirmation_status ≡ SearchProfileConfirmationStatus.confirmed
  pub kind : AcceptsType o.analysis.opportunity_type p.preferences.work_types
  pub category :
      ¬ Excludes
        (optional_identity a.unicode o.analysis.category)
        (values_of p.preferences.excluded_categories)
  pub language :
      Accepts (optional_identity a.unicode o.analysis.language) (values_of p.preferences.languages)
  pub geography :
      Accepts
        (optional_identity a.unicode o.analysis.location)
        (values_of p.preferences.geographies)
  pub mode : Accepts (work_mode o.analysis) p.preferences.work_modes
  pub budget : BudgetFits a o.analysis.budget p.preferences

str_in-In : (s : Str) (xs : List Str) → str_in s xs ≡ true → In s xs
unfolding str_in
str_in-In s xs h =
    let (x, m, e) = any-witness (str_eq s) xs h in subst (λ t. In t xs) (sym (str_eq→eq s x e)) m

In-str_in : (s : Str) (xs : List Str) → In s xs → str_in s xs ≡ true
unfolding str_in
In-str_in s xs m = any-In (str_eq s) xs s m (str_eq_self s)

rank-type : (t u : OpportunityType) → (type_rank t == type_rank u) ≡ true → t ≡ u
unfolding type_rank
rank-type t u h = ground arith

rank-mode : (m n : WorkMode) → (mode_rank m == mode_rank n) ≡ true → m ≡ n
unfolding mode_rank
rank-mode m n h = ground arith

type_in↔In : (t : OpportunityType) (ts : List OpportunityType) → (type_in t ts ≡ true) ↔ In t ts
unfolding type_in
type_in↔In t ts = (
  λ h.
      let (x, m, e) = any-witness (λ u. type_rank t == type_rank u) ts h in
      subst (λ u. In u ts) (sym (rank-type t x e)) m,
  λ m. any-In (λ u. type_rank t == type_rank u) ts t m (==_self (type_rank t)),
)

mode_in↔In : (t : WorkMode) (ts : List WorkMode) → (mode_in t ts ≡ true) ↔ In t ts
unfolding mode_in
mode_in↔In t ts = (
  λ h.
      let (x, m, e) = any-witness (λ u. mode_rank t == mode_rank u) ts h in
      subst (λ u. In u ts) (sym (rank-mode t x e)) m,
  λ m. any-In (λ u. mode_rank t == mode_rank u) ts t m (==_self (mode_rank t)),
)

double : (b : Bool) {P : Type 0} → (b ≡ true) ↔ P → (not (not b) ≡ true) ↔ P
double true h = h
double false h = h

single : (b : Bool) {P : Type 0} → (b ≡ true) ↔ P → (not b ≡ true) ↔ (¬ P)
single true h = (λ e. cc, λ n. absurd (n (h.0 refl)))
single false h = (λ e p. let q = h.1 p in cc, λ n. refl)

type_lem :
    (t : AnalysisType) (ts : Option (List OpportunityType))
    → (not (type_mismatch t ts) ≡ true) ↔ AcceptsType t ts
unfolding type_mismatch is_unknown profile_opportunity_type
type_lem t none = (λ h. tt, λ h. refl)
type_lem AnalysisType.unknown (some ts) = (λ h. tt, λ h. refl)
type_lem AnalysisType.consultation (some ts) = (λ h. cc, λ h. absurd h)
type_lem AnalysisType.one_off_order (some ts) = double _ (type_in↔In _ ts)
type_lem AnalysisType.project (some ts) = double _ (type_in↔In _ ts)
type_lem AnalysisType.vacancy (some ts) = double _ (type_in↔In _ ts)
type_lem AnalysisType.part_time_contractor (some ts) = double _ (type_in↔In _ ts)

str_in↔In : (s : Str) (xs : List Str) → (str_in s xs ≡ true) ↔ In s xs
str_in↔In s xs = (str_in-In s xs, In-str_in s xs)

category_lem :
    (c : Option Str) (ts : Option (List SearchProfileTerm))
    → (category_accepted c ts ≡ true) ↔ (¬ Excludes c (values_of ts))
unfolding category_accepted
category_lem none ts = (λ h x. x, λ h. refl)
category_lem (some c) none = (λ h x. x, λ h. refl)
category_lem (some c) (some ts) = single _ (str_in↔In c (normalized_values ts))

term_lem :
    (i : Option Str) (ts : Option (List SearchProfileTerm))
    → (not (known_term_mismatch i ts) ≡ true) ↔ Accepts i (values_of ts)
unfolding known_term_mismatch
term_lem none ts = (λ h. tt, λ h. refl)
term_lem (some i) none = (λ h. tt, λ h. refl)
term_lem (some i) (some ts) = double _ (str_in↔In i (normalized_values ts))

mode_lem :
    (m : Option WorkMode) (ms : Option (List WorkMode)) → (mode_accepted m ms ≡ true) ↔ Accepts m ms
unfolding mode_accepted
mode_lem none ms = (λ h. tt, λ h. refl)
mode_lem (some m) none = (λ h. tt, λ h. refl)
mode_lem (some m) (some ms) = mode_in↔In m ms

open_lem :
    (s : OpportunityLifecycleStatus) → (is_open s ≡ true) ↔ (s ≡ OpportunityLifecycleStatus.active)
unfolding is_open
open_lem s = (λ h. ground arith, λ h. ground arith)

confirmed_lem :
    (s : SearchProfileConfirmationStatus)
    → (is_confirmed s ≡ true) ↔ (s ≡ SearchProfileConfirmationStatus.confirmed)
unfolding is_confirmed
confirmed_lem s = (λ h. ground arith, λ h. ground arith)

module _ (a : Alphabet) (o : CanonicalOpportunityRecord) (p : SearchProfileRecord) where
  accepted-IsSuitable :
      plain_accepted a o p ≡ true → BudgetFits a o.analysis.budget p.preferences → IsSuitable a o p
  accepted-IsSuitable h fits = record {
    opportunity_active = (open_lem o.lifecycle_status).0 (ground arith);
    profile_active = ground arith;
    confirmed = (confirmed_lem p.confirmation_status).0 (ground arith);
    kind = (type_lem o.analysis.opportunity_type p.preferences.work_types).0 (ground arith);
    category = (category_lem _ p.preferences.excluded_categories).0 (ground arith);
    language = (term_lem _ p.preferences.languages).0 (ground arith);
    geography = (term_lem _ p.preferences.geographies).0 (ground arith);
    mode = (mode_lem (work_mode o.analysis) p.preferences.work_modes).0 (ground arith);
    budget = fits;
  }

  IsSuitable-accepted : IsSuitable a o p → plain_accepted a o p ≡ true
  IsSuitable-accepted s = rw (
    (open_lem o.lifecycle_status).1 s.opportunity_active,
    s.profile_active,
    (confirmed_lem p.confirmation_status).1 s.confirmed,
    (type_lem o.analysis.opportunity_type p.preferences.work_types).1 s.kind,
    (category_lem _ p.preferences.excluded_categories).1 s.category,
    (term_lem _ p.preferences.languages).1 s.language,
    (term_lem _ p.preferences.geographies).1 s.geography,
    (mode_lem (work_mode o.analysis) p.preferences.work_modes).1 s.mode,
  )

  -- The hard filters return a decision on every pair of an opportunity, whose budget names an
  -- amount where it is known, and a profile, and find the profile eligible exactly if it suits
  -- the opportunity: both take part, the known type, language, place and mode of work are among
  -- the wanted, the category is not an excluded one, and the budget fits.
  pub evaluate_hard_filters-IsSuitable :
      HasAmount o.analysis.budget
      → (d : HardFilterDecision) × (evaluate_hard_filters a o p ≡ ok d)
        × ((d.eligible ≡ true) ↔ IsSuitable a o p)
  evaluate_hard_filters-IsSuitable amount =
      let (found, q) = budget_findings-ok a o.analysis.budget p.preferences amount in
      let (d, e, own, eligible) = evaluate_hard_filters_lem a o p found q in
      let how = budget_case a o.analysis.budget p.preferences found q in
      (
        d,
        e,
        (
          λ h.
              let (plain, budget) = both (plain_accepted a o p) (clear found) (sym eligible ∙ h) in
              accepted-IsSuitable plain
                (budget_fits a o.analysis.budget p.preferences found how budget),
          λ s.
              eligible
              ∙ ap (λ b. b && clear found) (IsSuitable-accepted s)
              ∙ fits_budget a o.analysis.budget p.preferences found how s.budget,
        ),
      )
    where
      both : (b c : Bool) → (b && c) ≡ true → (b ≡ true) × (c ≡ true)
      both b c h = ground arith
