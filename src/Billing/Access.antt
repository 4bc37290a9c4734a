-- ===== src/Billing/Access.antt =====
-- What `evaluate_subscription_entitlement` grants, stated without its order of tests.
use footjob.Base.{
  ℕ, ◌≡◌, ◌↔◌, ◌⊎◌, refl, sym, ◌∙◌, ap, inl, inr, Bool, true, false, Option, none, some, List, [],
  Str, select, Result, ok, err, arith, Option-cases, Datetime, aware,
}
use footjob.Billing.{
  EntitlementState, SubscriptionState, TrialPolicy, EntitlementDecision, PaidEntitlementPeriod,
  latest, active_periods, trial_end, trial_expiry, halted, unpaid_decision,
  evaluate_subscription_entitlement, paid_decision, evaluate_trial_entitlement, failure_code,
}
use footjob.Billing.Due.{
  TrialRuns, IsHalted, IsDue, by_period, by_trial, active-In, none_active, not_halted, is_halted,
}

-- Without a period, access is the trial's.
unpaid_access :
    (started expires_at : Option ℕ) (expires : Option ℕ) (policy : TrialPolicy) (now : ℕ)
    (version : Option Str) (lifecycle : Option SubscriptionState) (reason : Option Str)
    → trial_expiry started expires_at policy ≡ ok expires
    → ((unpaid_decision now started expires version lifecycle reason policy).can_receive_deliveries
        ≡ true)
      ↔ TrialRuns started expires_at policy now
unfolding unpaid_decision trial_expiry trial_end
unpaid_access none none expires policy now version lifecycle reason h =
    (λ e. ground arith, λ x. absurd x)
unpaid_access none (some e) expires policy now version lifecycle reason h = cc
unpaid_access (some s) none none policy now version lifecycle reason h = ground arith
unpaid_access (some s) none (some x) policy now version lifecycle reason h =
    (λ e. ground arith, λ r. ground arith)
unpaid_access (some s) (some e) none policy now version lifecycle reason h = ground arith
unpaid_access (some s) (some e) (some x) policy now version lifecycle reason h =
    (λ t. ground arith, λ r. ground arith)

due_not_halted :
    {started expires : Option ℕ} {periods : List PaidEntitlementPeriod}
    {lifecycle : Option SubscriptionState} {policy : TrialPolicy} {now : ℕ}
    → IsDue started expires periods lifecycle policy now
    → ¬ IsHalted lifecycle
due_not_halted (by_period n p m c) = n
due_not_halted (by_trial n r) = n

due_by_trial :
    {started expires : Option ℕ} {periods : List PaidEntitlementPeriod}
    {lifecycle : Option SubscriptionState} {policy : TrialPolicy} {now : ℕ}
    → latest (active_periods now periods) ≡ none
    → IsDue started expires periods lifecycle policy now
    → TrialRuns started expires policy now
due_by_trial {periods = periods} {now = now} f (by_period n p m c) =
    absurd (none_active now periods p f m c)
due_by_trial f (by_trial n r) = r

module _ (started : Option ℕ) (now : ℕ) (expires_at : Option ℕ) (version : Option Str)
    (periods : List PaidEntitlementPeriod) (lifecycle : Option SubscriptionState)
    (reason : Option Str) (policy : TrialPolicy) where
  abbrev evaluated : Result EntitlementDecision
  evaluated =
      evaluate_subscription_entitlement started now expires_at version periods lifecycle reason
        policy

  -- The decision, once the trial's expiry is known.
  decided :
      (expires : Option ℕ) (d : EntitlementDecision)
      → trial_expiry started expires_at policy ≡ ok expires
      → evaluated ≡ ok d
      → (IsHalted lifecycle × (d.can_receive_deliveries ≡ false))
        ⊎ (((p : PaidEntitlementPeriod) × (latest (active_periods now periods) ≡ some p)
              × (halted lifecycle ≡ none)
              × (d ≡ paid_decision p now started expires version))
            ⊎ ((latest (active_periods now periods) ≡ none)
                × (halted lifecycle ≡ none)
                × (d ≡ unpaid_decision now started expires version lifecycle reason policy)))
  unfolding evaluate_subscription_entitlement
  decided expires d h e = elim (Option-cases (halted lifecycle)) [
    | inr (s, p) ↦ inl (is_halted lifecycle p, ground arith)
    | inl p ↦ elim (Option-cases (latest (active_periods now periods))) [
      | inr (q, f) ↦ inr (inl (q, f, p, ground arith))
      | inl f ↦ inr (inr (f, p, ground arith))
    ]
  ]

  expiry_known :
      (d : EntitlementDecision)
      → evaluated ≡ ok d
      → (expires : Option ℕ) × (trial_expiry started expires_at policy ≡ ok expires)
  unfolding evaluate_subscription_entitlement
  expiry_known d e = known (trial_expiry started expires_at policy) refl
    where
      known :
          (r : Result (Option ℕ))
          → trial_expiry started expires_at policy ≡ r
          → (expires : Option ℕ) × (trial_expiry started expires_at policy ≡ ok expires)
      known (ok x) h = (x, h)
      known (err x) h = ground arith

  -- Whenever a subscription's entitlement is decided, deliveries are allowed exactly if the
  -- subscription is not halted and a paid period covers the instant or the trial runs.
  pub entitled-IsDue :
      (d : EntitlementDecision)
      → evaluated ≡ ok d
      → (d.can_receive_deliveries ≡ true) ↔ IsDue started expires_at periods lifecycle policy now
  entitled-IsDue d e =
      let (x, h) = expiry_known d e in
      elim (decided x d h e) [
        | inl (halt, f) ↦ (λ t. cc, λ due. absurd (due_not_halted due halt))
        | inr (inl (p, f, n, eq)) ↦ (
          λ t. let (m, c) = active-In now periods p f in by_period (not_halted lifecycle n) p m c,
          λ due. rw eq refl,
        )
        | inr (inr (f, n, eq)) ↦
            let trial = unpaid_access started expires_at x policy now version lifecycle reason h in
            let can = ap (λ z. z.can_receive_deliveries) eq in
            (
              λ t. by_trial (not_halted lifecycle n) (trial.0 (sym can ∙ t)),
              λ due. can ∙ trial.1 (due_by_trial f due),
            )
      ]

  -- Whenever a subscription's entitlement is decided, there is no failure code exactly if access
  -- is due.
  failure_code-denied :
      (d : EntitlementDecision)
      → evaluated ≡ ok d
      → (failure_code d ≡ none) ↔ IsDue started expires_at periods lifecycle policy now
  unfolding failure_code
  failure_code-denied d e =
      let (to, from) = entitled-IsDue d e in (λ f. to (ground arith), λ due. rw (from due))

-- The part of a decision that does not speak of periods.
abbrev pub outline :
    Result EntitlementDecision → Result (EntitlementState × Bool × Option ℕ × Option ℕ)
outline (ok d) = ok (d.state, d.can_receive_deliveries, d.trial_started_at, d.trial_expires_at)
outline (err e) = err e

abbrev pub in_utc : Option ℕ → Option Datetime
in_utc none = none
in_utc (some t) = some (aware t)

-- Without periods and without a state of its own, a subscription gives what the trial alone
-- gives: the same state, access and trial, and the same refusals.
pub trial_agrees :
    (started : Option ℕ) (now : ℕ) (expires_at : Option ℕ) (version : Option Str)
    (policy : TrialPolicy)
    → outline (evaluate_subscription_entitlement started now expires_at version [] none none policy)
      ≡ outline (
          evaluate_trial_entitlement
            (in_utc started)
            (aware now)
            (in_utc expires_at)
            version
            policy)
unfolding evaluate_subscription_entitlement evaluate_trial_entitlement trial_expiry active_periods
    latest halted unpaid_decision select
trial_agrees none now none version policy = refl
trial_agrees none now (some e) version policy = refl
trial_agrees (some s) now none version policy = ground arith
trial_agrees (some s) now (some e) version policy = ground arith
