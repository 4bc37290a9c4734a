-- ===== src/Payments/Tests.antt =====
-- The payments of one user.
use footjob.Base.{
  ℕ, ◌≤◌, ◌<◌, ◌≡◌, refl, true, Option, none, some, List, [], ◌∷◌, codes, Result, ok, arith,
}
use footjob.Subscriptions.{reconcile}
use footjob.Subscriptions.Tables.{Store, StateRecord, get_state}
use footjob.Subscriptions.Tests.{after_payment, paid_period, ada, reconciles_ada}
use footjob.Payments.{
  PaymentStatus, succeeded, VerifiedPaymentEvent, PaymentProviderEventRecord, PaymentStore,
  PaymentWriteOutcome, get_event, same_evidence, record_verified_event,
}
use footjob.Payments.Recorded.{Kept}
use footjob.Payments.Replay.{replayed, record_again, record-Kept}
use footjob.Payments.Paid.{PaidOrHalted, record-paid_active}

abbrev payment : VerifiedPaymentEvent
payment = record {
  provider = codes "shop";
  provider_event_id = codes "e-1";
  event_type = codes "payment.succeeded";
  provider_payment_id = codes "p-1";
  user_id = 1;
  status = succeeded;
  amount = 500;
  currency = codes "EUR";
  period_start_at = some 100;
  period_end_at = some 200;
  occurred_at = 140;
  received_at = 149;
  payload = codes "{}";
  verification_version = codes "v1";
}

-- The same event with another amount.
abbrev forged : VerifiedPaymentEvent
forged = record payment { amount = 1 }

abbrev unpaid : PaymentStore
unpaid = record {
  payment_events = [];
  store = record { users = ada ∷ []; periods = []; states = []; events = [] };
}

abbrev stored : PaymentProviderEventRecord
stored = record { id = 10; event = payment }

abbrev recorded : PaymentStore
recorded = record { payment_events = stored ∷ []; store = after_payment }

abbrev outcome : PaymentWriteOutcome
outcome = record {
  event = stored;
  period = some paid_period;
  event_created = true;
  period_created = true;
}

records_payment : record_verified_event 150 10 11 12 payment unpaid ≡ ok (recorded, outcome)
unfolding record_verified_event footjob.Payments.insert_event footjob.Base.any
    footjob.Subscriptions.Tables.find_user footjob.Base.find get_event footjob.Base.str_eq
    same_evidence footjob.Payments.record_period footjob.Payments.get_period
    footjob.Payments.insert_period footjob.Payments.same_period
records_payment = rw reconciles_ada refl

record_again_example :
    record_verified_event 150 20 21 22 payment recorded ≡ ok (recorded, replayed outcome)
record_again_example =
    record_again 150 10 11 12 20 21 22 payment unpaid recorded outcome records_payment

record-Kept_example :
    Kept unpaid recorded
    × (get_event (codes "shop") (codes "e-1") recorded ≡ some stored)
    × (same_evidence payment payment ≡ true)
record-Kept_example = record-Kept 150 10 11 12 payment unpaid recorded outcome records_payment

record-paid_active_example :
    (state : StateRecord) × (get_state 1 after_payment ≡ some state) × PaidOrHalted state
record-paid_active_example =
    record-paid_active 150 10 11 12 payment unpaid recorded outcome 100 200 records_payment refl
      refl refl (omega arith) (omega arith)
