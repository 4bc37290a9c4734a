-- ===== src/Billing/Tests.antt =====
-- The theorems about billing at concrete trials and periods.
use footjob.Base.{
  ℕ, ◌≡◌, ◌↔◌, refl, true, false, Option, none, some, List, [], ◌∷◌, codes, Result, ok, Datetime,
  aware, Str,
}
use footjob.Billing.{
  EntitlementState, SubscriptionState, TrialPolicy, EntitlementDecision, PaidEntitlementPeriod,
  failure_code, evaluate_subscription_entitlement, evaluate_trial_entitlement,
}
use footjob.Billing.Due.{IsDue}
use footjob.Billing.Access.{entitled-IsDue, trial_agrees, outline, in_utc}

abbrev pub week : TrialPolicy
week = record { duration = 7; version = codes "v1" }

-- An old period that has ended, and one that runs from 100 to 200.
abbrev periods : List PaidEntitlementPeriod
periods =
    record { id = 1; provider = codes "shop"; period_start_at = 50; period_end_at = 90 }
    ∷ record { id = 2; provider = codes "shop"; period_start_at = 100; period_end_at = 200 }
    ∷ []

-- The trial began at 20 and is over; the second period pays for access at 150.
abbrev paid : EntitlementDecision
paid = record {
  state = EntitlementState.paid_active;
  can_receive_deliveries = true;
  evaluated_at = 150;
  trial_started_at = some 20;
  trial_expires_at = some 27;
  trial_policy_version = some (codes "v1");
  subscription_state = some SubscriptionState.paid_active;
  paid_period_id = some 2;
  paid_provider = some (codes "shop");
  paid_period_start_at = some 100;
  paid_period_end_at = some 200;
}

decides_paid :
    evaluate_subscription_entitlement
      (some 20)
      150
      (some 27)
      (some (codes "v1"))
      periods
      none
      none
      week
    ≡ ok paid
unfolding evaluate_subscription_entitlement footjob.Billing.trial_expiry footjob.Billing.halted
    footjob.Billing.latest footjob.Billing.active_periods footjob.Base.select
decides_paid = refl

-- A period from 100 to 200, without a trial, at 170.
abbrev pub running_period : PaidEntitlementPeriod
running_period = record {
  id = 11;
  provider = codes "shop";
  period_start_at = 100;
  period_end_at = 200;
}

abbrev pub paid_only : EntitlementDecision
paid_only = record paid {
  evaluated_at = 170;
  trial_started_at = none;
  trial_expires_at = none;
  trial_policy_version = none;
  paid_period_id = some 11;
}

pub decides_paid_only :
    evaluate_subscription_entitlement none 170 none none
      (running_period ∷ [])
      (some SubscriptionState.paid_active)
      (some (codes "payment.confirmed"))
      week
    ≡ ok paid_only
unfolding evaluate_subscription_entitlement footjob.Billing.trial_expiry footjob.Billing.halted
    footjob.Billing.latest footjob.Billing.active_periods footjob.Base.select
decides_paid_only = refl

entitled-IsDue_example :
    (paid.can_receive_deliveries ≡ true) ↔ IsDue (some 20) (some 27) periods none week 150
entitled-IsDue_example =
    entitled-IsDue (some 20) 150 (some 27) (some (codes "v1")) periods none none week paid
      decides_paid

trial_agrees_example :
    outline (evaluate_subscription_entitlement (some 20) 25 none none [] none none week)
    ≡ outline (evaluate_trial_entitlement (in_utc (some 20)) (aware 25) (in_utc none) none week)
trial_agrees_example = trial_agrees (some 20) 25 none none week

abbrev pub denied : EntitlementState → SubscriptionState → EntitlementDecision
denied state lifecycle = record paid_only {
  state = state;
  can_receive_deliveries = false;
  subscription_state = some lifecycle;
  paid_period_id = none;
  paid_provider = none;
  paid_period_start_at = none;
  paid_period_end_at = none;
}

pub decides_paused :
    evaluate_subscription_entitlement none 170 none none []
      (some SubscriptionState.paused)
      (some (codes "user.pause"))
      week
    ≡ ok (denied EntitlementState.paused SubscriptionState.paused)
unfolding evaluate_subscription_entitlement footjob.Billing.trial_expiry footjob.Billing.halted
decides_paused = refl

pub decides_cancelled :
    evaluate_subscription_entitlement none 170 none none []
      (some SubscriptionState.cancelled)
      (some (codes "user.cancel"))
      week
    ≡ ok (denied EntitlementState.cancelled SubscriptionState.cancelled)
unfolding evaluate_subscription_entitlement footjob.Billing.trial_expiry footjob.Billing.halted
decides_cancelled = refl
