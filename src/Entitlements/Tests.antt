-- ===== src/Entitlements/Tests.antt =====
-- The checker at a user who has paid.
use footjob.Base.{
  codes, false, aware, ◌≡◌, ◌↔◌, refl, subst, true, none, some, [], ◌∷◌, ok, any, select, find, inl,
}
use footjob.Billing.{EntitlementState, SubscriptionState}
use footjob.Billing.Tests.{
  denied, decides_paused, decides_cancelled, week, paid_only, decides_paid_only,
}
use footjob.Subscriptions.Tables.{StateRecord, User, find_user, periods_of, get_state}
use footjob.Subscriptions.Backing.{Backed, by_period}
use footjob.Subscriptions.Tests.{
  after_pause, after_cancel, paused_at_160, cancelled_at_160, pauses_ada, cancels_ada, paused_stays,
  cancelled_stays, after_payment, paid_row, paid_period, reconciles_again,
}
use footjob.Entitlements.{check, instant}
use footjob.Entitlements.Granted.{IsDueTo, IsBacked}
use footjob.Entitlements.Denied.{paused_denied, cancelled_denied}
use footjob.Entitlements.Check.{check-IsDueTo}

check_ada : check 170 20 1 none week after_payment ≡ ok (after_payment, paid_only)
unfolding check find_user find footjob.Entitlements.stored_period
check_ada = rw (reconciles_again, decides_paid_only) refl

Backed-payment :
    (s : StateRecord) → get_state 1 after_payment ≡ some s → Backed (periods_of 1 after_payment) s
unfolding get_state periods_of select find
Backed-payment s h =
    subst (λ x. Backed (paid_period ∷ []) x) row
      (by_period paid_period (inl refl) refl refl refl refl refl)
  where
    row : paid_row ≡ s
    row = cc

after_payment-IsBacked : IsBacked 1 after_payment
unfolding periods_of select any
after_payment-IsBacked = record { rows = Backed-payment; ids = (refl, tt) }

check-IsDueTo_example :
    (user : User) × (s : StateRecord) × (find_user 1 after_payment ≡ some user)
    × (get_state 1 after_payment ≡ some s)
    × ((paid_only.can_receive_deliveries ≡ true)
        ↔ IsDueTo user (periods_of 1 after_payment) s week (instant 170 none))
check-IsDueTo_example =
    check-IsDueTo 170 20 1 none week after_payment after_payment paid_only after_payment-IsBacked
      check_ada

check_paused :
    check 170 20 1 none week after_pause
    ≡ ok (after_pause, denied EntitlementState.paused SubscriptionState.paused)
unfolding check find_user find footjob.Entitlements.stored_period
check_paused = rw (paused_stays, decides_paused) refl

check_cancelled :
    check 170 20 1 none week after_cancel
    ≡ ok (after_cancel, denied EntitlementState.cancelled SubscriptionState.cancelled)
unfolding check find_user find footjob.Entitlements.stored_period
check_cancelled = rw (cancelled_stays, decides_cancelled) refl

paused_denied_example : (false ≡ false) × (after_pause ≡ after_pause)
paused_denied_example =
    paused_denied 160 13 14 1 170 20 (aware 160) (codes "user.pause") none week after_payment
      after_pause after_pause paused_at_160
      (denied EntitlementState.paused SubscriptionState.paused) pauses_ada check_paused

cancelled_denied_example : (false ≡ false) × (after_cancel ≡ after_cancel)
cancelled_denied_example =
    cancelled_denied 160 13 14 1 170 20 (aware 160) (codes "user.cancel") none week after_payment
      after_cancel after_cancel cancelled_at_160
      (denied EntitlementState.cancelled SubscriptionState.cancelled) cancels_ada check_cancelled
