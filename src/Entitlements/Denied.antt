-- ===== src/Entitlements/Denied.antt =====
-- A paused or cancelled subscription is denied deliveries.
use footjob.Base.{
  ℕ, ◌≡◌, refl, sym, ◌∙◌, ap, Bool, true, false, Option, some, Str, codes, ok, Datetime, aware,
  ◌>>=◌, bind-ok,
}
use footjob.Billing.{SubscriptionState, paused, cancelled, TrialPolicy, EntitlementDecision}
use footjob.Billing.Due.{IsDue, by_period, by_trial, IsHalted}
use footjob.Billing.Access.{entitled-IsDue}
use footjob.Subscriptions.{reconcile, pause, cancel, is_halted, or_missing}
use footjob.Subscriptions.Tables.{Store, StateRecord, User, find_user, get_state}
use footjob.Subscriptions.Audit.{get_state-Write}
use footjob.Subscriptions.Methods.{cancel-Write, pause-Write}
use footjob.Subscriptions.Halting.{pause_state, cancel_state}
use footjob.Subscriptions.Reconcile.{found_user, halted-steady}
use footjob.Entitlements.{check, instant, stored_period}
use footjob.Entitlements.Check.{decision_of, returning, decided}

halted : (s : SubscriptionState) → is_halted s ≡ true → IsHalted (some s)
halted paused h = tt
halted cancelled h = tt
halted _ h = cc

not_true-false : (b : Bool) → (b ≡ true → ⊥) → b ≡ false
not_true-false true h = absurd (h refl)
not_true-false false h = refl

decision_denied :
    (t : ℕ) (policy : TrialPolicy) (s : StateRecord) (user : User) (d : EntitlementDecision)
    → is_halted s.state ≡ true
    → decision_of t policy s user ≡ ok d
    → d.can_receive_deliveries ≡ false
unfolding decision_of
decision_denied t policy s user d h e =
    let due =
      entitled-IsDue user.trial_started_at t user.trial_expires_at user.trial_policy_version
        (stored_period s) (some s.state) (some s.reason) policy d e in
    not_true-false d.can_receive_deliveries (λ can. no_due (due.0 can))
  where
    no_due :
        IsDue user.trial_started_at user.trial_expires_at (stored_period s) (some s.state) policy t
        → ⊥
    no_due (by_period n p m c) = n (halted s.state h)
    no_due (by_trial n r) = n (halted s.state h)

after_halt :
    (now id u t : ℕ) (policy : TrialPolicy) (reason : Str) (store l later : Store)
    (before s : StateRecord) (d : EntitlementDecision)
    → get_state u store ≡ some before
    → is_halted before.state ≡ true
    → reconcile now id u (some (aware t)) reason store ≡ ok (l, s)
    → (do user ← or_missing (find_user u l); d' ← decision_of t policy s user; returning l d')
      ≡ ok (later, d)
    → (d.can_receive_deliveries ≡ false) × (later ≡ store)
after_halt now id u t policy reason store l later before s d g h e q =
    let (kept_store, kept_row) = halted-steady now id u t reason store l s before g h e in
    let (user, f, q₂) = found_user (find_user u l) _ q in
    let (ed, same) = decided t policy s user l later d q₂ in
    (
      decision_denied t policy s user d (ap (λ x. is_halted x.state) kept_row ∙ h) ed,
      sym same ∙ kept_store,
    )

pub halted_denied :
    (now id u : ℕ) (clock : Option Datetime) (policy : TrialPolicy) (store later : Store)
    (s : StateRecord) (d : EntitlementDecision)
    → get_state u store ≡ some s
    → is_halted s.state ≡ true
    → check now id u clock policy store ≡ ok (later, d)
    → (d.can_receive_deliveries ≡ false) × (later ≡ store)
unfolding check decision_of
halted_denied now id u clock policy store later s d g h e =
    let reason = codes "entitlement.reconcile" in
    let ((l, s'), r, q) =
      bind-ok (reconcile now id u (some (aware (instant now clock))) reason store) _ e in
    after_halt now id u (instant now clock) policy reason store l later s s' d g h r q

-- After a subscription was cancelled, a check that decides denies deliveries and changes nothing,
-- whatever periods and trials there are.
pub cancelled_denied :
    (now id id' u now' id'' : ℕ) (at : Datetime) (reason : Str) (clock : Option Datetime)
    (policy : TrialPolicy) (store cancelled_store later : Store) (s : StateRecord)
    (d : EntitlementDecision)
    → cancel now id id' u at reason store ≡ ok (cancelled_store, s)
    → check now' id'' u clock policy cancelled_store ≡ ok (later, d)
    → (d.can_receive_deliveries ≡ false) × (later ≡ cancelled_store)
cancelled_denied now id id' u now' id'' at reason clock policy store cancelled_store later s d c e =
    let w = (cancel-Write now id id' u at reason store).holds cancelled_store s c in
    let state = (cancel_state now id id' u at reason store).holds cancelled_store s c in
    halted_denied now' id'' u clock policy cancelled_store later s d (get_state-Write w)
      (ap is_halted state) e

-- After a subscription was paused, a check that decides denies deliveries and changes nothing,
-- whatever periods and trials there are.
pub paused_denied :
    (now id id' u now' id'' : ℕ) (at : Datetime) (reason : Str) (clock : Option Datetime)
    (policy : TrialPolicy) (store paused_store later : Store) (s : StateRecord)
    (d : EntitlementDecision)
    → pause now id id' u at reason store ≡ ok (paused_store, s)
    → check now' id'' u clock policy paused_store ≡ ok (later, d)
    → (d.can_receive_deliveries ≡ false) × (later ≡ paused_store)
paused_denied now id id' u now' id'' at reason clock policy store paused_store later s d c e =
    let w = (pause-Write now id id' u at reason store).holds paused_store s c in
    let state = (pause_state now id id' u at reason store).holds paused_store s c in
    halted_denied now' id'' u clock policy paused_store later s d (get_state-Write w)
      (ap is_halted state) e
