-- ===== src/Subscriptions/Backing.antt =====
-- A paid state is backed by a period of its user, and no other state names a period.
use mathlib.Core.Path.{subst₂}
use footjob.Base.{
  codes, ℕ, ◌≤◌, ◌<◌, ◌≡◌, refl, sym, subst, Bool, true, false, Option, none, some, List, [], ◌∷◌,
  In, select-In, In-select, Str, if◌then◌else◌, Result, ok, arith, inl, inr,
}
use footjob.Billing.{SubscriptionState, paid_active, is_active}
use footjob.Subscriptions.Tables.{Period, User, StateRecord, state_values}
use footjob.Subscriptions.{
  Projection, natural_projection, trial_projection, has_periods, latest_period, latest_from, later,
  active_periods, state_eq,
}

pub data Fits (ps : List Period) : SubscriptionState → Option Period → Type 0 where
  paid : (p : Period) → In p ps → Fits ps paid_active (some p)
  bare : (s : SubscriptionState) → state_eq s paid_active ≡ false → Fits ps s none

pub data Backed (ps : List Period) (s : StateRecord) : Type 0 where
  by_period :
      (p : Period)
      → In p ps
      → s.state ≡ paid_active
      → s.provider ≡ some p.provider
      → s.current_period_id ≡ some p.id
      → s.current_period_start_at ≡ some p.period_start_at
      → s.current_period_end_at ≡ some p.period_end_at
      → Backed ps s
  without_period : state_eq s.state paid_active ≡ false → s.current_period_id ≡ none → Backed ps s

pub Fits-Backed :
    {ps : List Period} {state : SubscriptionState} {period : Option Period} (born now u v : ℕ)
    (reason : Str) (at : ℕ)
    → Fits ps state period
    → Backed ps (state_values born now u state v period reason at)
unfolding state_values
Fits-Backed born now u v reason at (paid p m) = by_period p m refl refl refl refl refl
Fits-Backed born now u v reason at (bare s h) = without_period h refl

abbrev pub Covers : ℕ → Period → Type 0
Covers t p = (p.period_start_at ≤ t) × (t < p.period_end_at)

covered : (t : ℕ) (p : Period) → is_active p.period_start_at p.period_end_at t ≡ true → Covers t p
unfolding is_active
covered t p h = ground arith

covering : (t : ℕ) (p : Period) → Covers t p → is_active p.period_start_at p.period_end_at t ≡ true
unfolding is_active
covering t p h = ground arith

chosen_latest :
    (test : Bool) (p best : Period) (ps : List Period)
    → ((z : Period) → In (latest_from z ps) (z ∷ ps))
    → In (latest_from (if test then p else best) ps) (best ∷ p ∷ ps)
chosen_latest true p best ps ih = inr (ih p)
chosen_latest false p best ps ih = elim (ih best) [ inl e ↦ inl e | inr m ↦ inr (inr m) ]

latest_from-In : (best : Period) (ps : List Period) → In (latest_from best ps) (best ∷ ps)
unfolding latest_from
latest_from-In best [] = inl refl
latest_from-In best (p ∷ ps) = chosen_latest (later p best) p best ps (λ z. latest_from-In z ps)

latest_period-In : (ps : List Period) (p : Period) → latest_period ps ≡ some p → In p ps
unfolding latest_period
latest_period-In [] p h = cc
latest_period-In (q ∷ qs) p h =
    let e : latest_from q qs ≡ p = cc in subst (λ z. In z (q ∷ qs)) e (latest_from-In q qs)

latest_period-none : (ps : List Period) (p : Period) → latest_period ps ≡ none → In p ps → ⊥
unfolding latest_period
latest_period-none [] p h m = m
latest_period-none (q ∷ qs) p h m = cc

trial_projection_bare :
    (ps : List Period) (started expires : Option ℕ) (t : ℕ) (p : Projection)
    → trial_projection started expires ps t ≡ ok p
    → (state_eq p.state paid_active ≡ false) × (p.period ≡ none)
unfolding trial_projection has_periods
trial_projection_bare [] none expires t p h = (ground arith, ground arith)
trial_projection_bare (q ∷ ps) none expires t p h = (ground arith, ground arith)
trial_projection_bare ps (some s) none t p h = (ground arith, ground arith)
trial_projection_bare [] (some s) (some e) t p h = (ground arith, ground arith)
trial_projection_bare (q ∷ ps) (some s) (some e) t p h = (ground arith, ground arith)

-- The natural projection names the paid state with a period of the user that covers the instant,
-- or another state without one, when no period covers it.
pub data Natural (ps : List Period) (t : ℕ) : SubscriptionState → Option Period → Type 0 where
  paid : (p : Period) → In p ps → Covers t p → Natural ps t paid_active (some p)
  unpaid :
      (s : SubscriptionState)
      → state_eq s paid_active ≡ false
      → ((p : Period) → In p ps → ¬ Covers t p)
      → Natural ps t s none

pub Natural-Fits :
    {ps : List Period} {t : ℕ} {s : SubscriptionState} {period : Option Period}
    → Natural ps t s period
    → Fits ps s period
Natural-Fits (paid p m c) = Fits.paid p m
Natural-Fits (unpaid s e n) = bare s e

natural_cases :
    (user : User) (ps : List Period) (t : ℕ) (p : Projection) (o : Option Period)
    → latest_period (active_periods t ps) ≡ o
    → (elim o as (λ _. Result Projection) [
      | some q ↦
          ok (record { state = paid_active; period = some q; reason = codes "paid_period_active" })
      | none ↦ trial_projection user.trial_started_at user.trial_expires_at ps t
    ])
      ≡ ok p
    → Natural ps t p.state p.period
unfolding active_periods
natural_cases user ps t p (some q) e h =
    let (m, a) = select-In _ ps q (latest_period-In _ q e) in
    subst₂ (Natural ps t) (ground arith) (ground arith) (Natural.paid q m (covered t q a))
natural_cases user ps t p none e h =
    let (s, n) = trial_projection_bare ps _ _ t p h in
    subst (Natural ps t p.state) (sym n)
      (unpaid p.state s (λ q m c. latest_period-none _ q e (In-select _ ps q m (covering t q c))))

pub natural_projection-Natural :
    (user : User) (ps : List Period) (t : ℕ) (p : Projection)
    → natural_projection user ps t ≡ ok p
    → Natural ps t p.state p.period
unfolding natural_projection
natural_projection-Natural user ps t p h = natural_cases user ps t p _ refl h
