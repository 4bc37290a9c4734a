-- ===== src/Subscriptions/Tests.antt =====
-- The theorems about `SubscriptionRepository` at concrete tables and calls, and the tables that the
-- tests of its clients share.
use footjob.Base.{
  inl, ℕ, ◌≡◌, refl, true, false, Option, none, some, List, [], ◌∷◌, Str, codes, Result, ok, err,
  Datetime, aware, arith,
}
use footjob.Billing.{SubscriptionState, paid_active, paused, cancelled}
use footjob.Subscriptions.{reconcile, pause, cancel}
use footjob.Subscriptions.Tables.{
  Store, StateRecord, EventRecord, User, Period, get_state, find_user, periods_of, events_of,
}
use footjob.Subscriptions.Success.{IsSafe, reconcile-IsDone}
use footjob.Subscriptions.Audit.{IsAudited}
use footjob.Subscriptions.Histories.{Request, reconciles, pauses, run, run-IsAudited}
use footjob.Subscriptions.Reconcile.{reconcile_again}

abbrev pub ada : User
ada = record {
  id = 1;
  trial_started_at = none;
  trial_expires_at = none;
  trial_policy_version = none;
}

-- A payment of 5.00 for the time from 100 to 200, recorded at 150.
abbrev pub paid_period : Period
paid_period = record {
  id = 11;
  provider = codes "shop";
  provider_payment_id = codes "p-1";
  payment_provider_event_id = 10;
  user_id = 1;
  amount = 500;
  currency = codes "EUR";
  period_start_at = 100;
  period_end_at = 200;
  created_at = 150;
}

abbrev pub before : Store
before = record { users = ada ∷ []; periods = paid_period ∷ []; states = []; events = [] }

abbrev pub paid_row : StateRecord
paid_row = record {
  user_id = 1;
  state = paid_active;
  state_version = 1;
  provider = some (codes "shop");
  current_period_id = some 11;
  current_period_start_at = some 100;
  current_period_end_at = some 200;
  reason = codes "payment.confirmed";
  changed_at = 150;
  created_at = 150;
  updated_at = 150;
}

abbrev pub paid_event : EventRecord
paid_event = record {
  id = 12;
  user_id = 1;
  state_version = 1;
  from_state = none;
  to_state = paid_active;
  provider = some (codes "shop");
  subscription_period_id = some 11;
  reason = codes "payment.confirmed";
  effective_at = 150;
  created_at = 150;
}

abbrev pub after_payment : Store
after_payment = record before { states = paid_row ∷ []; events = paid_event ∷ [] }

abbrev paused_row : StateRecord
paused_row = record paid_row { state = paused; state_version = 2 }

abbrev paused_store : Store
paused_store = record before { states = paused_row ∷ [] }

pub reconciles_ada :
    reconcile 150 12 1 none (codes "payment.confirmed") before ≡ ok (after_payment, paid_row)
unfolding reconcile find_user footjob.Base.find footjob.Subscriptions.reconcile_state get_state
    footjob.Subscriptions.natural_projection footjob.Subscriptions.latest_period
    footjob.Subscriptions.active_periods footjob.Base.select periods_of
    footjob.Subscriptions.create_state footjob.Subscriptions.Tables.safe_reason footjob.Base.lower
    footjob.Base.strip footjob.Base.lstrip footjob.Subscriptions.requested_or_natural_reason
    footjob.Base.str_eq footjob.Base.is_space footjob.Base.aware_utc footjob.Base.any
    footjob.Base.all_chars footjob.Base.is_ascii_alpha footjob.Base.is_ascii_digit
    footjob.Base.is_identifier_char footjob.Base.is_joiner footjob.Base.lower_char
    footjob.Billing.is_active footjob.Subscriptions.Tables.state_values
    footjob.Subscriptions.Tables.valid_reason footjob.Subscriptions.effective
    footjob.Subscriptions.insert_state footjob.Subscriptions.latest_from
    footjob.Subscriptions.record_event
reconciles_ada = refl

reconciles_ada_at :
    reconcile 150 12 1 (some (aware 150)) (codes "payment.confirmed") before
    ≡ ok (after_payment, paid_row)
unfolding reconcile find_user footjob.Base.find footjob.Subscriptions.reconcile_state get_state
    footjob.Subscriptions.natural_projection footjob.Subscriptions.latest_period
    footjob.Subscriptions.active_periods footjob.Base.select periods_of
    footjob.Subscriptions.create_state footjob.Subscriptions.Tables.safe_reason footjob.Base.lower
    footjob.Base.strip footjob.Base.lstrip footjob.Subscriptions.requested_or_natural_reason
    footjob.Base.str_eq footjob.Base.is_space footjob.Base.aware_utc footjob.Base.any
    footjob.Base.all_chars footjob.Base.is_ascii_alpha footjob.Base.is_ascii_digit
    footjob.Base.is_identifier_char footjob.Base.is_joiner footjob.Base.lower_char
    footjob.Billing.is_active footjob.Subscriptions.Tables.state_values
    footjob.Subscriptions.Tables.valid_reason footjob.Subscriptions.effective
    footjob.Subscriptions.insert_state footjob.Subscriptions.latest_from
    footjob.Subscriptions.record_event
reconciles_ada_at = refl

pub reconciles_again :
    reconcile 170 20 1 (some (aware 170)) (codes "entitlement.reconcile") after_payment
    ≡ ok (after_payment, paid_row)
unfolding reconcile find_user footjob.Base.find footjob.Subscriptions.reconcile_state get_state
    footjob.Subscriptions.natural_projection footjob.Subscriptions.latest_period
    footjob.Subscriptions.active_periods footjob.Base.select periods_of
    footjob.Subscriptions.create_state footjob.Subscriptions.Tables.safe_reason footjob.Base.lower
    footjob.Base.strip footjob.Base.lstrip footjob.Subscriptions.requested_or_natural_reason
    footjob.Base.str_eq footjob.Base.is_space footjob.Base.aware_utc footjob.Base.any
    footjob.Base.all_chars footjob.Base.is_ascii_alpha footjob.Base.is_ascii_digit
    footjob.Base.is_identifier_char footjob.Base.is_joiner footjob.Base.lower_char
    footjob.Billing.is_active footjob.Subscriptions.Tables.state_values
    footjob.Subscriptions.Tables.valid_reason footjob.Subscriptions.effective
    footjob.Subscriptions.insert_state footjob.Subscriptions.latest_from
    footjob.Subscriptions.record_event footjob.Subscriptions.same_projection
reconciles_again = refl

after_payment-IsAudited : IsAudited 1 after_payment
unfolding get_state events_of footjob.Base.select footjob.Base.find
after_payment-IsAudited = (refl, refl, (refl, refl))

-- Two calls that end in a pause, and a reconciliation that keeps it.
abbrev requests : List Request
requests =
    record { now = 160; user_id = 1; call = pauses 13 14 (aware 160) (codes "user.pause") }
    ∷ record { now = 170; user_id = 1; call = reconciles 15 none (codes "entitlement.reconcile") }
    ∷ []

run-IsAudited_example : IsAudited 1 (run after_payment requests)
run-IsAudited_example = run-IsAudited 1 after_payment requests after_payment-IsAudited

reconcile_again_example :
    reconcile 190 16 1 (some (aware 150)) (codes "entitlement.reconcile") after_payment
    ≡ ok (after_payment, paid_row)
reconcile_again_example =
    reconcile_again 150 190 12 16 1 150 (codes "payment.confirmed") (codes "entitlement.reconcile")
      before after_payment paid_row reconciles_ada_at

find_ada : find_user 1 before ≡ some ada
unfolding find_user footjob.Base.find
find_ada = refl

confirmed-IsSafe : IsSafe (codes "payment.confirmed")
unfolding footjob.Subscriptions.Tables.safe_reason footjob.Base.lower footjob.Base.strip
    footjob.Base.lstrip footjob.Base.is_space footjob.Base.is_ascii_alpha footjob.Base.lower_char
    footjob.Base.all_chars footjob.Base.is_identifier_char
confirmed-IsSafe = (codes "payment.confirmed", refl)

reconcile-IsDone_example :
    (later : Store) × (s : StateRecord) × (reconcile 150 12 1
        (some (aware 150))
        (codes "payment.confirmed")
        before
      ≡ ok (later, s))
reconcile-IsDone_example =
    reconcile-IsDone 150 12 1 150 (codes "payment.confirmed") before ada find_ada (inl refl)
      confirmed-IsSafe

abbrev pub paused_at_160 : StateRecord
paused_at_160 = record paid_row {
  state = paused;
  state_version = 2;
  provider = none;
  current_period_id = none;
  current_period_start_at = none;
  current_period_end_at = none;
  reason = codes "user.pause";
  changed_at = 160;
  updated_at = 160;
}

abbrev pub halt_event : SubscriptionState → Str → EventRecord
halt_event state reason = record paid_event {
  id = 14;
  state_version = 2;
  from_state = some paid_active;
  to_state = state;
  provider = none;
  subscription_period_id = none;
  reason = reason;
  effective_at = 160;
  created_at = 160;
}

abbrev pub after_pause : Store
after_pause = record before {
  states = paused_at_160 ∷ [];
  events = paid_event ∷ halt_event paused (codes "user.pause") ∷ [];
}

abbrev pub cancelled_at_160 : StateRecord
cancelled_at_160 = record paused_at_160 { state = cancelled; reason = codes "user.cancel" }

abbrev pub after_cancel : Store
after_cancel = record before {
  states = cancelled_at_160 ∷ [];
  events = paid_event ∷ halt_event cancelled (codes "user.cancel") ∷ [];
}

pub pauses_ada :
    pause 160 13 14 1 (aware 160) (codes "user.pause") after_payment
    ≡ ok (after_pause, paused_at_160)
unfolding reconcile find_user footjob.Base.find footjob.Subscriptions.reconcile_state get_state
    footjob.Subscriptions.natural_projection footjob.Subscriptions.latest_period
    footjob.Subscriptions.active_periods footjob.Base.select periods_of
    footjob.Subscriptions.create_state footjob.Subscriptions.Tables.safe_reason footjob.Base.lower
    footjob.Base.strip footjob.Base.lstrip footjob.Subscriptions.requested_or_natural_reason
    footjob.Base.str_eq footjob.Base.is_space footjob.Base.aware_utc footjob.Base.any
    footjob.Base.all_chars footjob.Base.is_ascii_alpha footjob.Base.is_ascii_digit
    footjob.Base.is_identifier_char footjob.Base.is_joiner footjob.Base.lower_char
    footjob.Billing.is_active footjob.Subscriptions.Tables.state_values
    footjob.Subscriptions.Tables.valid_reason footjob.Subscriptions.effective
    footjob.Subscriptions.insert_state footjob.Subscriptions.latest_from
    footjob.Subscriptions.record_event footjob.Subscriptions.state_for_transition
    footjob.Subscriptions.transition footjob.Subscriptions.replace_state footjob.Base.update_where
    footjob.Billing.utc pause cancel
pauses_ada = refl

pub cancels_ada :
    cancel 160 13 14 1 (aware 160) (codes "user.cancel") after_payment
    ≡ ok (after_cancel, cancelled_at_160)
unfolding reconcile find_user footjob.Base.find footjob.Subscriptions.reconcile_state get_state
    footjob.Subscriptions.natural_projection footjob.Subscriptions.latest_period
    footjob.Subscriptions.active_periods footjob.Base.select periods_of
    footjob.Subscriptions.create_state footjob.Subscriptions.Tables.safe_reason footjob.Base.lower
    footjob.Base.strip footjob.Base.lstrip footjob.Subscriptions.requested_or_natural_reason
    footjob.Base.str_eq footjob.Base.is_space footjob.Base.aware_utc footjob.Base.any
    footjob.Base.all_chars footjob.Base.is_ascii_alpha footjob.Base.is_ascii_digit
    footjob.Base.is_identifier_char footjob.Base.is_joiner footjob.Base.lower_char
    footjob.Billing.is_active footjob.Subscriptions.Tables.state_values
    footjob.Subscriptions.Tables.valid_reason footjob.Subscriptions.effective
    footjob.Subscriptions.insert_state footjob.Subscriptions.latest_from
    footjob.Subscriptions.record_event footjob.Subscriptions.state_for_transition
    footjob.Subscriptions.transition footjob.Subscriptions.replace_state footjob.Base.update_where
    footjob.Billing.utc pause cancel
cancels_ada = refl

pub paused_stays :
    reconcile 170 20 1 (some (aware 170)) (codes "entitlement.reconcile") after_pause
    ≡ ok (after_pause, paused_at_160)
unfolding reconcile find_user footjob.Base.find footjob.Subscriptions.reconcile_state get_state
    footjob.Subscriptions.natural_projection footjob.Subscriptions.latest_period
    footjob.Subscriptions.active_periods footjob.Base.select periods_of
    footjob.Subscriptions.create_state footjob.Subscriptions.Tables.safe_reason footjob.Base.lower
    footjob.Base.strip footjob.Base.lstrip footjob.Subscriptions.requested_or_natural_reason
    footjob.Base.str_eq footjob.Base.is_space footjob.Base.aware_utc footjob.Base.any
    footjob.Base.all_chars footjob.Base.is_ascii_alpha footjob.Base.is_ascii_digit
    footjob.Base.is_identifier_char footjob.Base.is_joiner footjob.Base.lower_char
    footjob.Billing.is_active footjob.Subscriptions.Tables.state_values
    footjob.Subscriptions.Tables.valid_reason footjob.Subscriptions.effective
    footjob.Subscriptions.insert_state footjob.Subscriptions.latest_from
    footjob.Subscriptions.record_event footjob.Subscriptions.state_for_transition
    footjob.Subscriptions.transition footjob.Subscriptions.replace_state footjob.Base.update_where
    footjob.Billing.utc pause cancel
paused_stays = refl

pub cancelled_stays :
    reconcile 170 20 1 (some (aware 170)) (codes "entitlement.reconcile") after_cancel
    ≡ ok (after_cancel, cancelled_at_160)
unfolding reconcile find_user footjob.Base.find footjob.Subscriptions.reconcile_state get_state
    footjob.Subscriptions.natural_projection footjob.Subscriptions.latest_period
    footjob.Subscriptions.active_periods footjob.Base.select periods_of
    footjob.Subscriptions.create_state footjob.Subscriptions.Tables.safe_reason footjob.Base.lower
    footjob.Base.strip footjob.Base.lstrip footjob.Subscriptions.requested_or_natural_reason
    footjob.Base.str_eq footjob.Base.is_space footjob.Base.aware_utc footjob.Base.any
    footjob.Base.all_chars footjob.Base.is_ascii_alpha footjob.Base.is_ascii_digit
    footjob.Base.is_identifier_char footjob.Base.is_joiner footjob.Base.lower_char
    footjob.Billing.is_active footjob.Subscriptions.Tables.state_values
    footjob.Subscriptions.Tables.valid_reason footjob.Subscriptions.effective
    footjob.Subscriptions.insert_state footjob.Subscriptions.latest_from
    footjob.Subscriptions.record_event footjob.Subscriptions.state_for_transition
    footjob.Subscriptions.transition footjob.Subscriptions.replace_state footjob.Base.update_where
    footjob.Billing.utc pause cancel
cancelled_stays = refl
