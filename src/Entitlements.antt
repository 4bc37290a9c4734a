-- ===== src/Entitlements.antt =====
-- `TrialEntitlementChecker` of freelancer_bot/persistence/entitlements.py: the state of the
-- subscription is reconciled first, and the decision is made from what is stored then.
use footjob.Base.{
  ℕ, Option, none, some, List, [], ◌∷◌, Str, codes, Result, ok, err, ◌>>=◌, Datetime, aware,
}
use footjob.Billing.{
  TrialPolicy, PaidEntitlementPeriod, EntitlementDecision, evaluate_subscription_entitlement, utc,
}
use footjob.Subscriptions.{reconcile, or_missing}
use footjob.Subscriptions.Tables.{Store, StateRecord, find_user}
pub mod Granted
pub mod Check
pub mod Denied
pub mod Tests

complete_period : Option ℕ → Option Str → Option ℕ → Option ℕ → List PaidEntitlementPeriod
complete_period (some id) (some provider) (some start) (some end) =
    record { id = id; provider = provider; period_start_at = start; period_end_at = end } ∷ []
complete_period _ _ _ _ = []

-- The stored period, if the state has all its columns.
pub stored_period : StateRecord → List PaidEntitlementPeriod
unfolding complete_period
stored_period s =
    complete_period s.current_period_id s.provider s.current_period_start_at s.current_period_end_at

-- The checker's own clock, or the database's.
abbrev pub instant : ℕ → Option Datetime → ℕ
instant now none = now
instant now (some t) = utc t

-- `EntitlementUserNotFound` is `user_not_found` here.
pub check : ℕ → ℕ → ℕ → Option Datetime → TrialPolicy → Store → Result (Store × EntitlementDecision)
check now event_id user_id clock policy store = do
  (store', state) ←
      reconcile now event_id user_id (some (aware (instant now clock)))
        (codes "entitlement.reconcile") store
  user ← or_missing (find_user user_id store')
  d ←
      evaluate_subscription_entitlement user.trial_started_at (instant now clock)
        user.trial_expires_at user.trial_policy_version (stored_period state) (some state.state)
        (some state.reason) policy
  ok (store', d)
