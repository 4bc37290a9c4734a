-- ===== src/Entitlements/Granted.antt =====
-- When access is due to a user, and what the stored row says about it.
use footjob.Base.{
  ◌⊎◌, ℕ, ◌≡◌, refl, sym, subst, Bool, false, Option, none, some, List, [], ◌∷◌, In, ◌==◌, ==_self,
  arith, inl, inr, Distinct, find-In, find,
}
use footjob.Billing.{SubscriptionState, paused, cancelled, PaidEntitlementPeriod, TrialPolicy}
use footjob.Billing.Due
use footjob.Billing.Due.{IsDue, by_period, by_trial, IsHalted, TrialRuns}
use footjob.Subscriptions.{is_halted, period_id}
use footjob.Subscriptions.Tables.{Store, StateRecord, User, Period, periods_of, get_state}
use footjob.Subscriptions.Backing
use footjob.Subscriptions.Backing.{Backed, Natural, natural_projection-Natural}
use footjob.Subscriptions.Audit.{Write, kept, created, moved}
use footjob.Entitlements.{stored_period, complete_period}

-- Access is due to the user: the subscription is not halted, and a period of the user covers the
-- instant or the trial runs.
pub data IsDueTo (user : User) (ps : List Period) (s : StateRecord) (policy : TrialPolicy) (t : ℕ)
    : Type 0 where
  paid :
      is_halted s.state ≡ false
      → (p : Period) → In p ps
      → Backing.Covers t p
      → IsDueTo user ps s policy t
  trial :
      is_halted s.state ≡ false
      → TrialRuns user.trial_started_at user.trial_expires_at policy t
      → IsDueTo user ps s policy t

abbrev pub same_period_id : Period → Period → Bool
same_period_id a b = b.id == a.id

pub unhalted : (s : SubscriptionState) → is_halted s ≡ false → ¬ IsHalted (some s)
unhalted paused h = λ x. cc
unhalted cancelled h = λ x. cc
unhalted _ h = λ x. x

pub halted_iff : (s : SubscriptionState) → (¬ IsHalted (some s)) → is_halted s ≡ false
halted_iff paused h = absurd (h tt)
halted_iff cancelled h = absurd (h tt)
halted_iff _ h = refl

abbrev entitlement_of : Period → PaidEntitlementPeriod
entitlement_of p = record {
  id = p.id;
  provider = p.provider;
  period_start_at = p.period_start_at;
  period_end_at = p.period_end_at;
}

-- The checker reads back the period that backs the row, or none.
stored_backing :
    (ps : List Period) (s : StateRecord)
    → Backed ps s
    → ((p : Period) × In p ps
        × (s.current_period_id ≡ some p.id)
        × (stored_period s ≡ entitlement_of p ∷ []))
      ⊎ ((s.current_period_id ≡ none) × (stored_period s ≡ []))
unfolding stored_period complete_period
stored_backing ps s (Backed.by_period p m st pr i a b) = inl (p, m, i, rw (i, pr, a, b))
stored_backing ps s (Backed.without_period st i) = inr (i, rw i)

pub due_period :
    (ps : List Period) (s : StateRecord) (t : ℕ) (q : PaidEntitlementPeriod)
    → Backed ps s
    → In q (stored_period s)
    → Due.Covers t q
    → (p : Period) × In p ps × Backing.Covers t p
due_period ps s t q b h c = elim (stored_backing ps s b) [
  | inr (i, e) ↦ absurd (rw e at h)
  | inl (p, m, i, e) ↦ elim (rw e at h) [
    | inl same ↦ (p, m, rw same at c)
    | inr none_left ↦ absurd none_left
  ]
]

same_period :
    (ps : List Period) (p q : Period)
    → Distinct same_period_id ps
    → In p ps
    → In q ps
    → p.id ≡ q.id
    → p ≡ q
same_period ps p q d mp mq e =
    let self = λ (a : Period). ==_self a.id in
    let flip : (a b : Period) → same_period_id a b ≡ same_period_id b a = λ a b. ground arith in
    let f = find-In same_period_id ps p self flip d mp in
    let g = find-In same_period_id ps q self flip d mq in
    let k : find (same_period_id p) ps ≡ some q =
      subst (λ i. find (λ b. b.id == i) ps ≡ some q) (sym e) g in
    cc

-- An unhalted row that the natural projection describes holds a period that covers the instant, if
-- some period of the user does.
pub projected_period :
    (ps : List Period) (s : StateRecord) (t : ℕ) {state : SubscriptionState} {o : Option Period}
    → Natural ps t state o
    → s.current_period_id ≡ period_id o
    → Backed ps s
    → Distinct same_period_id ps
    → (p : Period) → In p ps
    → Backing.Covers t p
    → (q : PaidEntitlementPeriod) × In q (stored_period s) × Due.Covers t q
projected_period ps s t (Natural.unpaid st e none_covers) i b d p m c = absurd (none_covers p m c)
projected_period ps s t (Natural.paid r mr cr) i b d p m c = elim (stored_backing ps s b) [
  | inr (gone, e) ↦ cc
  | inl (q, mq, iq, e) ↦
      let same : q ≡ r = same_period ps q r d mq mr (ground arith) in
      (entitlement_of q, rw e (inl refl), subst (Backing.Covers t) (sym same) cr)
]

-- What the checker's decision rests on: the user's stored row, if there is one, is backed by the
-- user's periods, which have distinct ids.
pub record IsBacked (u : ℕ) (store : Store) : Type 0 where
  pub rows : (s : StateRecord) → get_state u store ≡ some s → Backed (periods_of u store) s
  pub ids : Distinct same_period_id (periods_of u store)

pub Write-Backed :
    {u : ℕ} {store later : Store} {s : StateRecord}
    → Write u store later s
    → IsBacked u store
    → Backed (periods_of u store) s
Write-Backed (kept s h) b = b.rows s h
Write-Backed (created now id s reason at e v b h) _ = b
Write-Backed (moved now id s reason at e v b w) _ = b
