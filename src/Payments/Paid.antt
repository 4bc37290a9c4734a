-- ===== src/Payments/Paid.antt =====
-- A payment that succeeds gives its user the paid state.
use footjob.Base.{
  ℕ, ◌≡◌, ◌≤◌, ◌<◌, ◌⊎◌, inl, inr, refl, sym, ◌∙◌, subst, true, Option, none, some, Str, codes,
  List, In, In-select, found-In, ok, arith, ==→eq, ==_self,
}
use footjob.Billing.{SubscriptionState, paid_active}
use footjob.Subscriptions.{is_halted}
use footjob.Subscriptions.Backing
use footjob.Subscriptions.Backing.{Natural, natural_projection-Natural}
use footjob.Subscriptions.Audit.{get_state-Write}
use footjob.Subscriptions.Methods.{reconcile-Write}
use footjob.Subscriptions.Tables.{Store, StateRecord, User, Period, periods_of, get_state}
use footjob.Subscriptions.Reconcile.{
  Reconciled, stopped, projected, reconcile-Reconciled, reconcile_now, Write-SameInputs,
}
use footjob.Payments.{
  VerifiedPaymentEvent, PaymentProviderEventRecord, PaymentStore, PaymentWriteOutcome, is_succeeded,
  get_period, same_period, record_verified_event,
}
use footjob.Payments.Recorded.{Settled, unpaid, paid, record_verified_event-Recorded, found_after}

-- The row in the paid state, or the halt that a payment does not end.
abbrev pub PaidOrHalted : StateRecord → Type 0
PaidOrHalted s = (s.state ≡ paid_active) ⊎ (is_halted s.state ≡ true)

covered-paid :
    {ps : List Period} {t : ℕ} {state : SubscriptionState} {o : Option Period}
    → Natural ps t state o
    → (p : Period) → In p ps
    → Backing.Covers t p
    → state ≡ paid_active
covered-paid (Natural.unpaid st e none_covers) p m c = absurd (none_covers p m c)
covered-paid (Natural.paid r mr cr) p m c = refl

Reconciled-paid :
    {t : ℕ} {store later : Store} {s : StateRecord} {user : User} (ps : List Period)
    → Reconciled user ps t store later s
    → (p : Period) → In p ps
    → Backing.Covers t p
    → PaidOrHalted s
Reconciled-paid ps (stopped e h) p m c = inr e
Reconciled-paid {t} {user = user} ps (projected pr np a b) p m c =
    inl (a ∙ covered-paid (natural_projection-Natural user ps t pr np) p m c)

period-In :
    (provider id : Str) (u : ℕ) (s : Store) (p : Period)
    → get_period provider id s ≡ some p
    → p.user_id ≡ u
    → In p (periods_of u s)
unfolding get_period periods_of
period-In provider id u s p h e =
    In-select _ s.periods p (found-In _ s.periods p h) (rw e (==_self u))

module _ (e : VerifiedPaymentEvent) (p : Period) (start end : ℕ) where
  same_parts :
      same_period p e start end ≡ true
      → (p.user_id ≡ e.user_id) × (p.period_start_at ≡ start) × (p.period_end_at ≡ end)
  unfolding same_period
  same_parts h = (==→eq _ _ (ground arith), ==→eq _ _ (ground arith), ==→eq _ _ (ground arith))

settled-paid :
    (now : ℕ) (e : VerifiedPaymentEvent) (s : PaymentStore) (start end : ℕ)
    {r : PaymentProviderEventRecord} {o : Option Period}
    → Settled now e r s o
    → is_succeeded e.status ≡ true
    → e.period_start_at ≡ some start
    → e.period_end_at ≡ some end
    → start ≤ now
    → now < end
    → (state : StateRecord) × (get_state e.user_id s.store ≡ some state) × PaidOrHalted state
settled-paid now e s start end (unpaid failed) succ hs he from to = cc
settled-paid now e s start end (paid _ start' end' hs' he' p hp same id middle state h) succ hs he
      from to =
    let (own, a, b) = same_parts e p start' end' same in
    let (user, f, r) =
      reconcile-Reconciled now id e.user_id now (codes "payment.confirmed") middle s.store state
        (sym (reconcile_now now id e.user_id (codes "payment.confirmed") middle) ∙ h) in
    let w =
      (reconcile-Write now id e.user_id none (codes "payment.confirmed") middle).holds s.store state
        h in
    let rows = Write-SameInputs w in
    let m =
      period-In e.provider e.provider_payment_id e.user_id middle p
        (found_after _ _ s.store middle p (sym rows.periods) hp) own in
    let start_same : start ≡ p.period_start_at = ground arith in
    let end_same : end ≡ p.period_end_at = ground arith in
    (
      state,
      get_state-Write w,
      Reconciled-paid (periods_of e.user_id middle) r p m
          (subst (λ x. x ≤ now) start_same from, subst (λ x. now < x) end_same to),
    )

-- After a payment that succeeded is recorded while its period runs, the user's row is in the paid
-- state, or the subscription is paused or cancelled.
pub record-paid_active :
    (now event_uuid period_uuid id : ℕ) (e : VerifiedPaymentEvent) (s later : PaymentStore)
    (o : PaymentWriteOutcome) (start end : ℕ)
    → record_verified_event now event_uuid period_uuid id e s ≡ ok (later, o)
    → is_succeeded e.status ≡ true
    → e.period_start_at ≡ some start
    → e.period_end_at ≡ some end
    → start ≤ now
    → now < end
    → (state : StateRecord) × (get_state e.user_id later.store ≡ some state) × PaidOrHalted state
record-paid_active now event_uuid period_uuid id e s later o start end h =
    settled-paid now e later start end
      ((record_verified_event-Recorded now event_uuid period_uuid id e s).holds (later, o)
        h).1.settled
