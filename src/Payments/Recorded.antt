-- ===== src/Payments/Recorded.antt =====
-- What one recorded payment leaves behind, and what recording it again does.
use footjob.Base.{
  ℕ, ◌≡◌, refl, subst, Bool, true, false, Option, none, some, [], ◌∷◌, ◌++◌, Str, codes, ◌⊎◌, inl,
  inr, Result, ok, err, persistence_conflict, any, is_some, Bool-cases, Yields, Yields-pure,
  Yields-bind, Yields-guard, Yields-if, find-append, find-any, integrity_error,
}
use footjob.Subscriptions.{reconcile}
use footjob.Subscriptions.Tables.{Store, Period, StateRecord, find_user}
use footjob.Subscriptions.Reconcile.{Write-SameInputs}
use footjob.Subscriptions.Methods.{reconcile-Write}
use footjob.Payments.{
  VerifiedPaymentEvent, PaymentProviderEventRecord, PaymentStore, PaymentWriteOutcome, is_event,
  is_payment, is_succeeded, get_event, get_period, same_evidence, same_period, insert_event,
  insert_period, period_of, record_period, record_verified_event, or_conflict,
}

pub conflict_free : {A : Type 0} (o : Option A) {a : A} → or_conflict o ≡ ok a → o ≡ some a
conflict_free none h = cc
conflict_free (some a) h = cc

-- What was stored before is found afterwards, unchanged.
pub record Kept (a b : PaymentStore) : Type 0 where
  pub events :
      (provider id : Str) (r : PaymentProviderEventRecord)
      → get_event provider id a ≡ some r
      → get_event provider id b ≡ some r
  pub periods :
      (provider id : Str) (p : Period)
      → get_period provider id a.store ≡ some p
      → get_period provider id b.store ≡ some p

-- The rows that show a payment was recorded, and that the subscription was reconciled with them.
pub data Settled (now : ℕ) (e : VerifiedPaymentEvent) (r : PaymentProviderEventRecord)
    (s : PaymentStore) : Option Period → Type 0 where
  unpaid : is_succeeded e.status ≡ false → Settled now e r s none
  paid :
      is_succeeded e.status ≡ true
      → (start end : ℕ) → e.period_start_at ≡ some start
      → e.period_end_at ≡ some end
      → (p : Period) → get_period e.provider e.provider_payment_id s.store ≡ some p
      → same_period p e start end ≡ true
      → (id : ℕ) (middle : Store) (state : StateRecord)
      → reconcile now id e.user_id none (codes "payment.confirmed") middle ≡ ok (s.store, state)
      → Settled now e r s (some p)

pub record Recorded (now : ℕ) (e : VerifiedPaymentEvent) (s : PaymentStore)
    (o : PaymentWriteOutcome) : Type 0 where
  pub stored : get_event e.provider e.provider_event_id s ≡ some o.event
  pub evidence : same_evidence o.event.event e ≡ true
  pub settled : Settled now e o.event s o.period

abbrev appended : ℕ → VerifiedPaymentEvent → PaymentStore → PaymentStore
appended id e s = record s {
  payment_events = s.payment_events ++ record { id = id; event = e } ∷ [];
}

insert_event_cases :
    (id : ℕ) (e : VerifiedPaymentEvent) (s s' : PaymentStore) (c : Bool)
    → insert_event id e s ≡ ok (s', c)
    → (s ≡ s') ⊎ (appended id e s ≡ s')
unfolding insert_event
insert_event_cases id e s s' c h =
    elim (Bool-cases (any (is_event e.provider e.provider_event_id) s.payment_events)) [
      | inl t ↦
          let q : ◌≡◌ {A = Result (PaymentStore × Bool)} (ok (s, false)) (ok (s', c)) = rw t at h in
          inl cc
      | inr t ↦ elim (Bool-cases (is_some (find_user e.user_id s.store))) [
        | inl f ↦
            let q : ◌≡◌ {A = Result (PaymentStore × Bool)} (ok (appended id e s, true))
                (ok (s', c)) =
              rw (t, f) at h in
            inr cc
        | inr f ↦
            let q : ◌≡◌ {A = Result (PaymentStore × Bool)} (err integrity_error) (ok (s', c)) =
              rw (t, f) at h in
            cc
      ]
    ]

Kept-self : (s : PaymentStore) → Kept s s
Kept-self s = record { events = λ p i r f. f; periods = λ p i r f. f }

appended-Kept : (id : ℕ) (e : VerifiedPaymentEvent) (s : PaymentStore) → Kept s (appended id e s)
unfolding get_event
appended-Kept id e s = record {
  events = λ p i r f. find-append (is_event p i) s.payment_events _ r f;
  periods = λ p i r f. f;
}

insert_event-Kept :
    (id : ℕ) (e : VerifiedPaymentEvent) (s s' : PaymentStore) (c : Bool)
    → insert_event id e s ≡ ok (s', c)
    → Kept s s' × (s'.store ≡ s.store)
insert_event-Kept id e s s' c h = elim (insert_event_cases id e s s' c h) [
  | inl q ↦ subst (λ x. Kept s x × (x.store ≡ s.store)) q (Kept-self s, refl)
  | inr q ↦ subst (λ x. Kept s x × (x.store ≡ s.store)) q (appended-Kept id e s, refl)
]

-- An event that is stored is not inserted again.
pub insert_event_again :
    (id : ℕ) (e : VerifiedPaymentEvent) (s : PaymentStore) (r : PaymentProviderEventRecord)
    → get_event e.provider e.provider_event_id s ≡ some r
    → insert_event id e s ≡ ok (s, false)
unfolding insert_event get_event
insert_event_again id e s r h = rw (find-any _ s.payment_events r h)

insert_period-Kept :
    (p : Period) (s : Store) (provider id : Str) (q : Period)
    → get_period provider id s ≡ some q
    → get_period provider id (insert_period p s).0 ≡ some q
unfolding insert_period get_period
insert_period-Kept p s provider id q h =
    elim (Bool-cases (any (is_payment p.provider p.provider_payment_id) s.periods)) [
      | inl t ↦ rw t h
      | inr t ↦ rw t (find-append (is_payment provider id) s.periods _ q h)
    ]

pub insert_period_again :
    (p : Period) (s : Store) (q : Period)
    → get_period p.provider p.provider_payment_id s ≡ some q
    → insert_period p s ≡ (s, false)
unfolding insert_period get_period
insert_period_again p s q h = rw (find-any _ s.periods q h)

reconcile_periods :
    (now id u : ℕ) (reason : Str) (store later : Store) (s : StateRecord)
    → reconcile now id u none reason store ≡ ok (later, s)
    → later.periods ≡ store.periods
reconcile_periods now id u reason store later s h =
    (Write-SameInputs ((reconcile-Write now id u none reason store).holds later s h)).periods

-- What recording the period of a payment leaves behind.
abbrev PeriodSettled :
    ℕ
    → VerifiedPaymentEvent
    → PaymentProviderEventRecord
    → PaymentStore
    → Store × Period × Bool
    → Type 0
PeriodSettled now e r s (t, p, c) =
    Kept s (record s { store = t }) × Settled now e r (record s { store = t }) (some p)

pub found_after :
    (provider id : Str) (a b : Store) (p : Period)
    → b.periods ≡ a.periods
    → get_period provider id a ≡ some p
    → get_period provider id b ≡ some p
unfolding get_period
found_after provider id a b p e h = rw e h

record_period-Settled :
    (now period_uuid id : ℕ) (r : PaymentProviderEventRecord) (e : VerifiedPaymentEvent)
    (s : PaymentStore)
    → is_succeeded e.status ≡ true
    → Yields (PeriodSettled now e r s) (record_period now period_uuid id r e s.store)
unfolding record_period get_event
record_period-Settled now period_uuid id r e s succ =
    Yields-bind (or_conflict e.period_start_at) _ λ start hs.
      Yields-bind (or_conflict e.period_end_at) _ λ end he.
        let period = period_of now period_uuid r.id e start end in
        let middle = (insert_period period s.store).0 in
        Yields-bind (or_conflict (get_period e.provider e.provider_payment_id middle)) _ λ p hp.
          Yields-guard (same_period p e start end) persistence_conflict _ λ same.
            Yields-bind (reconcile now id e.user_id none (codes "payment.confirmed") middle) _
              λ x hx.
                let same_rows = reconcile_periods now id e.user_id _ middle x.0 x.1 hx in
                Yields-pure (
                  record {
                    events = λ provider i q f. f;
                    periods = λ provider i q f.
                        found_after provider i middle x.0 q same_rows
                          (insert_period-Kept period s.store provider i q f);
                  },
                  paid succ start end (conflict_free _ hs) (conflict_free _ he) p
                      (found_after _ _ middle x.0 p same_rows (conflict_free _ hp)) same id middle
                      x.1 hx,
                )

-- What a successful recording leaves behind: every row that was there, the event's row with the
-- same evidence, and, if the payment succeeded, its period.
pub record_verified_event-Recorded :
    (now event_uuid period_uuid id : ℕ) (e : VerifiedPaymentEvent) (s : PaymentStore)
    → Yields
        (λ x. Kept s x.0 × Recorded now e x.0 x.1)
        (record_verified_event now event_uuid period_uuid id e s)
unfolding record_verified_event
record_verified_event-Recorded now event_uuid period_uuid id e s =
    Yields-bind (insert_event event_uuid e s) _ λ x hx.
      let (kept, same_store) = insert_event-Kept event_uuid e s x.0 x.1 hx in
      Yields-bind (or_conflict (get_event e.provider e.provider_event_id x.0)) _ λ r hr.
        Yields-guard (same_evidence r.event e) persistence_conflict _ λ same.
          Yields-if (is_succeeded e.status) _ _
            (λ succ. Yields-bind (record_period now period_uuid id r e x.0.store) _ λ y hy.
              let (k, settled) =
                (record_period-Settled now period_uuid id r e x.0 succ).holds y hy in
              Yields-pure (
                record {
                  events = λ p i q f. k.events p i q (kept.events p i q f);
                  periods = λ p i q f. k.periods p i q (kept.periods p i q f);
                },
                record {
                  stored = k.events _ _ r (conflict_free _ hr);
                  evidence = same;
                  settled = settled;
                },
              ))
            λ failed. Yields-pure (
              kept,
              record { stored = conflict_free _ hr; evidence = same; settled = unpaid failed },
            )
