-- ===== src/Payments/Replay.antt =====
-- Recording a payment again.
use footjob.Base.{ℕ, ◌≡◌, true, false, Option, none, some, codes, ok}
use footjob.Subscriptions.Tables.{Period}
use footjob.Subscriptions.Reconcile.{reconcile_settled}
use footjob.Payments.{
  VerifiedPaymentEvent, PaymentProviderEventRecord, PaymentStore, PaymentWriteOutcome, is_succeeded,
  get_event, same_evidence, same_period, period_of, record_period, record_verified_event,
}
use footjob.Payments.Recorded.{
  Kept, Settled, unpaid, paid, insert_event_again, insert_period_again,
  record_verified_event-Recorded,
}

-- The outcome of a recording that found everything in place.
abbrev pub replayed : PaymentWriteOutcome → PaymentWriteOutcome
replayed o = record o { event_created = false; period_created = false }

period_again :
    (now period_uuid id : ℕ) (r : PaymentProviderEventRecord) (e : VerifiedPaymentEvent)
    (s : PaymentStore) (p : Period)
    → Settled now e r s (some p)
    → record_period now period_uuid id r e s.store ≡ ok (s.store, p, false)
unfolding record_period same_period
period_again now period_uuid id r e s p (paid succ start end hs he q hp same id' middle state h) =
    rw (
      hs,
      he,
      insert_period_again (period_of now period_uuid r.id e start end) s.store p hp,
      hp,
      same,
      reconcile_settled now id' id e.user_id (codes "payment.confirmed") middle s.store state h,
    )

again :
    (now event_uuid period_uuid id : ℕ) (e : VerifiedPaymentEvent) (s : PaymentStore)
    (r : PaymentProviderEventRecord) (o : Option Period)
    → get_event e.provider e.provider_event_id s ≡ some r
    → same_evidence r.event e ≡ true
    → Settled now e r s o
    → record_verified_event now event_uuid period_uuid id e s
      ≡ ok (s, record { event = r; period = o; event_created = false; period_created = false })
unfolding record_verified_event
again now event_uuid period_uuid id e s r none f same (unpaid failed) =
    rw (insert_event_again event_uuid e s r f, f, same, failed)
again now event_uuid period_uuid id e s r (some p) f same settled = rw (
  insert_event_again event_uuid e s r f,
  f,
  same,
  succeeded_of settled,
  period_again now period_uuid id r e s p settled,
)
  where
    succeeded_of : {p : Period} → Settled now e r s (some p) → is_succeeded e.status ≡ true
    succeeded_of (paid succ start end hs he p hp same id' middle state h) = succ

-- A payment that was recorded is recorded again at the same reading of the clock, under whatever
-- identifiers, without any change to the tables, and the outcome names the same rows and says
-- that neither is new.
pub record_again :
    (now event_uuid period_uuid id event_uuid' period_uuid' id' : ℕ) (e : VerifiedPaymentEvent)
    (s later : PaymentStore) (o : PaymentWriteOutcome)
    → record_verified_event now event_uuid period_uuid id e s ≡ ok (later, o)
    → record_verified_event now event_uuid' period_uuid' id' e later ≡ ok (later, replayed o)
record_again now event_uuid period_uuid id event_uuid' period_uuid' id' e s later o h =
    let (kept, r) =
      (record_verified_event-Recorded now event_uuid period_uuid id e s).holds (later, o) h in
    again now event_uuid' period_uuid' id' e later o.event o.period r.stored r.evidence r.settled

-- Recording a payment loses nothing: each event and each period that was stored is found again by
-- the same identity and unchanged, and the payment's own event is stored with the same evidence.
pub record-Kept :
    (now event_uuid period_uuid id : ℕ) (e : VerifiedPaymentEvent) (s later : PaymentStore)
    (o : PaymentWriteOutcome)
    → record_verified_event now event_uuid period_uuid id e s ≡ ok (later, o)
    → Kept s later
      × (get_event e.provider e.provider_event_id later ≡ some o.event)
      × (same_evidence o.event.event e ≡ true)
record-Kept now event_uuid period_uuid id e s later o h =
    let (kept, r) =
      (record_verified_event-Recorded now event_uuid period_uuid id e s).holds (later, o) h in
    (kept, r.stored, r.evidence)
