-- ===== src/Billing/Due.antt =====
-- When access is due, and what the periods and the halt of a subscription say about it.
use footjob.Base.{
  ℕ, ◌+◌, ◌≤◌, ◌<◌, ◌≡◌, refl, subst, inl, inr, Bool, true, false, Option, none, some, List, [],
  ◌∷◌, if◌then◌else◌, In, select-In, arith, In-select,
}
use footjob.Billing.{
  EntitlementState, SubscriptionState, TrialPolicy, PaidEntitlementPeriod, is_active, later,
  max_from, latest, active_periods, halted,
}

-- A period covers the instant: it has started, and has not ended.
abbrev pub Covers : ℕ → PaidEntitlementPeriod → Type 0
Covers now p = (p.period_start_at ≤ now) × (now < p.period_end_at)

-- The trial runs: it was started, and its expiry, or its start plus the policy's duration, is
-- still to come.
abbrev pub TrialRuns : Option ℕ → Option ℕ → TrialPolicy → ℕ → Type 0
TrialRuns none expires policy now = ⊥
TrialRuns (some started) none policy now = now < started + policy.duration
TrialRuns (some started) (some expires) policy now = now < expires

abbrev pub IsHalted : Option SubscriptionState → Type 0
IsHalted (some SubscriptionState.paused) = Unit {0}
IsHalted (some SubscriptionState.cancelled) = Unit {0}
IsHalted _ = ⊥

-- Access is due: the subscription is neither paused nor cancelled, and a paid period covers the
-- instant or the trial runs.
pub data IsDue (started expires : Option ℕ) (periods : List PaidEntitlementPeriod)
    (lifecycle : Option SubscriptionState) (policy : TrialPolicy) (now : ℕ) : Type 0 where
  by_period :
      (¬ IsHalted lifecycle)
      → (p : PaidEntitlementPeriod) → In p periods
      → Covers now p
      → IsDue started expires periods lifecycle policy now
  by_trial :
      (¬ IsHalted lifecycle)
      → TrialRuns started expires policy now
      → IsDue started expires periods lifecycle policy now

pub covers :
    (now : ℕ) (p : PaidEntitlementPeriod)
    → is_active p.period_start_at p.period_end_at now ≡ true
    → Covers now p
unfolding is_active
covers now p h = ground arith

pub Covers-active :
    (now : ℕ) (p : PaidEntitlementPeriod)
    → Covers now p
    → is_active p.period_start_at p.period_end_at now ≡ true
unfolding is_active
Covers-active now p h = ground arith

skip_second :
    {x : PaidEntitlementPeriod} (a b : PaidEntitlementPeriod) (ps : List PaidEntitlementPeriod)
    → In x (a ∷ ps)
    → In x (a ∷ b ∷ ps)
skip_second a b ps (inl e) = inl e
skip_second a b ps (inr m) = inr (inr m)

chosen_max :
    (test : Bool) (p best : PaidEntitlementPeriod) (ps : List PaidEntitlementPeriod)
    → ((z : PaidEntitlementPeriod) → In (max_from z ps) (z ∷ ps))
    → In (max_from (if test then p else best) ps) (best ∷ p ∷ ps)
chosen_max true p best ps ih = inr (ih p)
chosen_max false p best ps ih = skip_second best p ps (ih best)

max_from-In :
    (best : PaidEntitlementPeriod) (ps : List PaidEntitlementPeriod)
    → In (max_from best ps) (best ∷ ps)
unfolding max_from
max_from-In best [] = inl refl
max_from-In best (p ∷ ps) = chosen_max (later p best) p best ps (λ z. max_from-In z ps)

pub latest-In :
    (ps : List PaidEntitlementPeriod) (p : PaidEntitlementPeriod) → latest ps ≡ some p → In p ps
unfolding latest
latest-In [] p h = cc
latest-In (q ∷ qs) p h =
    let e : max_from q qs ≡ p = cc in subst (λ z. In z (q ∷ qs)) e (max_from-In q qs)

pub latest-none :
    (ps : List PaidEntitlementPeriod) (p : PaidEntitlementPeriod) → latest ps ≡ none → In p ps → ⊥
unfolding latest
latest-none [] p h m = m
latest-none (q ∷ qs) p h m = cc

pub active-In :
    (now : ℕ) (ps : List PaidEntitlementPeriod) (p : PaidEntitlementPeriod)
    → latest (active_periods now ps) ≡ some p
    → In p ps × Covers now p
unfolding active_periods
active-In now ps p h = let (m, t) = select-In _ ps p (latest-In _ p h) in (m, covers now p t)

pub none_active :
    (now : ℕ) (ps : List PaidEntitlementPeriod) (p : PaidEntitlementPeriod)
    → latest (active_periods now ps) ≡ none
    → In p ps
    → Covers now p
    → ⊥
unfolding active_periods
none_active now ps p h m c = latest-none _ p h (In-select _ ps p m (Covers-active now p c))

pub not_halted :
    (lifecycle : Option SubscriptionState) → halted lifecycle ≡ none → ¬ IsHalted lifecycle
unfolding halted
not_halted none h = λ x. x
not_halted (some SubscriptionState.trial_not_started) h = λ x. x
not_halted (some SubscriptionState.trial_active) h = λ x. x
not_halted (some SubscriptionState.paid_active) h = λ x. x
not_halted (some SubscriptionState.expired) h = λ x. x
not_halted (some SubscriptionState.cancelled) h = λ x. cc
not_halted (some SubscriptionState.paused) h = λ x. cc

pub is_halted :
    (lifecycle : Option SubscriptionState) {s : EntitlementState}
    → halted lifecycle ≡ some s
    → IsHalted lifecycle
unfolding halted
is_halted none h = cc
is_halted (some SubscriptionState.trial_not_started) h = cc
is_halted (some SubscriptionState.trial_active) h = cc
is_halted (some SubscriptionState.paid_active) h = cc
is_halted (some SubscriptionState.expired) h = cc
is_halted (some SubscriptionState.cancelled) h = tt
is_halted (some SubscriptionState.paused) h = tt
