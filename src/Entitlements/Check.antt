-- ===== src/Entitlements/Check.antt =====
-- The checker grants access exactly when it is due, whatever state was stored before the check.
use footjob.Base.{
  ℕ, ◌≡◌, ◌↔◌, sym, ◌∙◌, subst, true, false, Option, some, List, In, Str, codes, Result, ok, err,
  arith, Datetime, aware, ◌>>=◌, bind-ok, Distinct,
}
use footjob.Billing.{TrialPolicy, EntitlementDecision, evaluate_subscription_entitlement}
use footjob.Billing.Due.{IsDue, by_period, by_trial}
use footjob.Billing.Access.{entitled-IsDue}
use footjob.Subscriptions.{reconcile, is_halted, or_missing}
use footjob.Subscriptions.Tables.{
  Store, StateRecord, User, Period, find_user, periods_of, get_state,
}
use footjob.Subscriptions.Backing
use footjob.Subscriptions.Backing.{Backed, Natural, natural_projection-Natural}
use footjob.Subscriptions.Audit.{Write, get_state-Write}
use footjob.Subscriptions.Methods.{reconcile-Write}
use footjob.Subscriptions.Reconcile.{
  Reconciled, stopped, projected, reconcile-Reconciled, Write-SameInputs, found_user, same_user,
}
use footjob.Entitlements.{stored_period, check, instant}
use footjob.Entitlements.Granted.{
  IsDueTo, paid, trial, same_period_id, unhalted, halted_iff, due_period, projected_period,
  IsBacked, Write-Backed,
}

module _ (user : User) (ps : List Period) (s : StateRecord) (policy : TrialPolicy) (t : ℕ)
    {store later : Store} (backed : Backed ps s) (ids : Distinct same_period_id ps)
    (r : Reconciled user ps t store later s) where
  abbrev DueByRow : Type 0
  DueByRow =
      IsDue user.trial_started_at user.trial_expires_at (stored_period s) (some s.state) policy t

  row_to_user : DueByRow → IsDueTo user ps s policy t
  row_to_user (by_period n q m c) =
      let (p, mp, cp) = due_period ps s t q backed m c in paid (halted_iff s.state n) p mp cp
  row_to_user (by_trial n h) = trial (halted_iff s.state n) h

  paid_row : (p : Period) → is_halted s.state ≡ false → In p ps → Backing.Covers t p → DueByRow
  paid_row p n m c = by_row r
    where
      by_row : Reconciled user ps t store later s → DueByRow
      by_row (stopped e _) = cc
      by_row (projected pr np a b) =
          let (q, mq, cq) =
            projected_period ps s t (natural_projection-Natural user ps t pr np) b backed ids p m
              c in
          by_period (unhalted s.state n) q mq cq

  user_to_row : IsDueTo user ps s policy t → DueByRow
  user_to_row (paid n p m c) = paid_row p n m c
  user_to_row (trial n h) = by_trial (unhalted s.state n) h

-- What holds of the row that is left behind, in terms of the user's rows.
abbrev Answer : ℕ → Store → Store → TrialPolicy → ℕ → EntitlementDecision → Type 0
Answer u store later policy t d =
    (user : User) × (s : StateRecord) × (find_user u store ≡ some user)
    × (get_state u later ≡ some s)
    × ((d.can_receive_deliveries ≡ true) ↔ IsDueTo user (periods_of u store) s policy t)

answer :
    (user : User) (u : ℕ) (policy : TrialPolicy) (t : ℕ) {store later : Store} (s : StateRecord)
    (d : EntitlementDecision)
    → IsBacked u store
    → find_user u store ≡ some user
    → Write u store later s
    → Reconciled user (periods_of u store) t store later s
    → evaluate_subscription_entitlement user.trial_started_at t user.trial_expires_at
        user.trial_policy_version
        (stored_period s)
        (some s.state)
        (some s.reason)
        policy
      ≡ ok d
    → Answer u store later policy t d
answer user u policy t {store = store} s d b f w r e =
    let backed = Write-Backed w b in
    let (to, from) =
      entitled-IsDue user.trial_started_at t user.trial_expires_at user.trial_policy_version
        (stored_period s) (some s.state) (some s.reason) policy d e in
    (
      user,
      s,
      f,
      get_state-Write w,
      (
        λ c. row_to_user user (periods_of u store) s policy t backed b.ids r (to c),
        λ due. from (user_to_row user (periods_of u store) s policy t backed b.ids r due),
      ),
    )

-- The part of the check that follows the reconciliation.
unfoldable pub decision_of : ℕ → TrialPolicy → StateRecord → User → Result EntitlementDecision
decision_of t policy s user =
    evaluate_subscription_entitlement user.trial_started_at t user.trial_expires_at
      user.trial_policy_version (stored_period s) (some s.state) (some s.reason) policy

abbrev pub returning : Store → EntitlementDecision → Result (Store × EntitlementDecision)
returning l d = ok (l, d)

pub decided :
    (t : ℕ) (policy : TrialPolicy) (s : StateRecord) (user : User) (l later : Store)
    (d : EntitlementDecision)
    → (do d' ← decision_of t policy s user; returning l d') ≡ ok (later, d)
    → (decision_of t policy s user ≡ ok d) × (l ≡ later)
decided t policy s user l later d h = by_result (decision_of t policy s user) h
  where
    by_result :
        (r : Result EntitlementDecision)
        → (do d' ← r; returning l d') ≡ ok (later, d)
        → (r ≡ ok d) × (l ≡ later)
    by_result (ok d') h = (cc, cc)
    by_result (err e) h = ground arith

after_reconcile :
    (now id u t : ℕ) (policy : TrialPolicy) (reason : Str) (store l later : Store) (s : StateRecord)
    (d : EntitlementDecision)
    → IsBacked u store
    → reconcile now id u (some (aware t)) reason store ≡ ok (l, s)
    → (do user ← or_missing (find_user u l); d' ← decision_of t policy s user; returning l d')
      ≡ ok (later, d)
    → Answer u store later policy t d
unfolding decision_of
after_reconcile now id u t policy reason store l later s d b e h =
    let (user, f, h₂) = found_user (find_user u l) _ h in
    let (ed, kept_store) = decided t policy s user l later d h₂ in
    let w = (reconcile-Write now id u (some (aware t)) reason store).holds l s e in
    let (user', f', r) = reconcile-Reconciled now id u t reason store l s e in
    let f'' : find_user u store ≡ some user = sym (same_user u store l (Write-SameInputs w)) ∙ f in
    let same : user' ≡ user = unsome (sym f' ∙ f'') in
    subst (λ x. Answer u store x policy t d) kept_store
      (answer user u policy t s d b f'' w
        (subst (λ x. Reconciled x (periods_of u store) t store l s) same r) ed)
  where
    unsome : {a b : User} → ◌≡◌ {A = Option User} (some a) (some b) → a ≡ b
    unsome h = cc

-- Whenever the checker decides about a user whose stored row is backed by periods with distinct
-- ids, deliveries are allowed exactly if access is due to the user at the instant, by the stored
-- periods and the trial, in a row that is neither paused nor cancelled.
pub check-IsDueTo :
    (now id u : ℕ) (clock : Option Datetime) (policy : TrialPolicy) (store later : Store)
    (d : EntitlementDecision)
    → IsBacked u store
    → check now id u clock policy store ≡ ok (later, d)
    → (user : User) × (s : StateRecord) × (find_user u store ≡ some user)
      × (get_state u later ≡ some s)
      × ((d.can_receive_deliveries ≡ true)
          ↔ IsDueTo user (periods_of u store) s policy (instant now clock))
unfolding check decision_of
check-IsDueTo now id u clock policy store later d b h =
    let reason = codes "entitlement.reconcile" in
    let ((l, s), e, h₁) =
      bind-ok (reconcile now id u (some (aware (instant now clock))) reason store) _ h in
    after_reconcile now id u (instant now clock) policy reason store l later s d b e h₁
