-- ===== src/Collector/Tests.antt =====
-- Runs of the gate of one account.
use footjob.Base.{
  ℕ, ◌+◌, ◌*◌, ◌<◌, ◌≡◌, ◌≢◌, refl, true, false, Option, none, some, List, [], ◌∷◌, Str, codes, ltb,
  Result, ok, err, pos, aware, arith, All, any, update_where,
}
use footjob.Collector.State.{
  TelegramCollectorOperationState, TelegramRequestReservation, TelegramOperationOutcome, completed,
  floodwait, pacing, Gate, initial, OperationEvent,
}
use footjob.Collector.{reserve, finish}
use footjob.Collector.State.{TelegramCollectorStatus}
use footjob.Collector.Rows.{row_of}
use footjob.Collector.Calls.{Call, reserves, finishes, run, started}
use footjob.Collector.Shut.{Early}
use footjob.Collector.Exclusion.{exclusive, floodwait_quiet, paced}
use footjob.Collector.Integrity.{IsConstrained, initial-Fits, run-IsConstrained}

abbrev idle : TelegramCollectorOperationState
idle = initial 100 1

abbrev pub gate : Gate
gate = record { accounts = 1 ∷ []; states = idle ∷ []; events = [] }

-- Token 5 holds the gate from 110 to 140.
abbrev busy : TelegramCollectorOperationState
busy = record idle {
  status = pacing;
  active_request_token = some 5;
  active_request_category = some (codes "history");
  active_request_started_at = some 110;
  active_request_lease_until = some 140;
  updated_at = 111;
}

abbrev pub gate_held : Gate
gate_held = record gate { states = busy ∷ [] }

abbrev pub reservation : TelegramRequestReservation
reservation = record { acquired = true; wait_until = none; state = busy }

busy_row : row_of 1 gate_held ≡ some busy
unfolding footjob.Base.find
busy_row = refl

pub reserves_gate :
    reserve 111 1 5 (codes " History") (aware 110) 30 gate ≡ ok (gate_held, reservation)
unfolding reserve footjob.Base.aware_utc footjob.Base.lower footjob.Base.strip footjob.Base.lstrip
    footjob.Base.is_space footjob.Base.all_chars footjob.Base.is_identifier_char
    footjob.Base.lower_char any footjob.Base.find update_where
reserves_gate = refl

-- Another worker tries twice, and a stranger tries to finish the request.
abbrev pub rivals : List (ℕ × Call)
rivals =
    (121, reserves 1 6 (codes "audit_history") 120 30)
    ∷ (131, finishes 1 6 130 completed none none)
    ∷ (138, reserves 1 6 (codes "audit_history") 137 30)
    ∷ []

pub rivals-Early : All (Early 1 (110 + 30) (some 5)) rivals
rivals-Early = (λ _. omega arith, (λ _. refl, (λ _. omega arith, tt)))

abbrev event : TelegramOperationOutcome → Option ℕ → OperationEvent
event outcome seconds = record {
  collector_account_id = 1;
  request_token = 5;
  request_category = codes "history";
  started_at = 110;
  finished_at = 120;
  outcome = outcome;
  floodwait_seconds = seconds;
}

abbrev flooded_row : TelegramCollectorOperationState
flooded_row = record idle {
  status = TelegramCollectorStatus.floodwait;
  last_request_at = some 120;
  next_allowed_request_at = some 2000120;
  cooldown_until = some 2000120;
  last_request_category = some (codes "history");
  last_floodwait_detected_at = some 120;
  last_floodwait_seconds = some 2;
  updated_at = 121;
}

abbrev flooded : Gate
flooded = record gate { states = flooded_row ∷ []; events = event floodwait (some 2) ∷ [] }

finishes_flooded :
    finish 121 1 5 (aware 120) floodwait none (some (pos 2)) gate_held ≡ ok (flooded, flooded_row)
unfolding finish footjob.Base.aware_utc footjob.Base.find update_where
finishes_flooded = refl

abbrev impatient : List (ℕ × Call)
impatient =
    (1000, reserves 1 6 (codes "history") 1000 30)
    ∷ (2000000, reserves 1 7 (codes "history") 2000119 30)
    ∷ []

impatient-Early : All (Early 1 (120 + 2 * 1000000) none) impatient
impatient-Early = (λ _. omega arith, (λ _. omega arith, tt))

abbrev paced_row : TelegramCollectorOperationState
paced_row = record idle {
  last_request_at = some 120;
  next_allowed_request_at = some 125;
  last_request_category = some (codes "history");
  updated_at = 121;
}

abbrev rested : Gate
rested = record gate { states = paced_row ∷ []; events = event completed none ∷ [] }

finishes_completed :
    finish 121 1 5 (aware 120) completed (some (aware 125)) none gate_held ≡ ok (rested, paced_row)
unfolding finish footjob.Base.aware_utc footjob.Base.find update_where
finishes_completed = refl

abbrev hasty : List (ℕ × Call)
hasty =
    (122, reserves 1 6 (codes "history") 122 30) ∷ (123, reserves 1 7 (codes "history") 124 30) ∷ []

hasty-Early : All (Early 1 125 none) hasty
hasty-Early = (λ _. omega arith, (λ _. omega arith, tt))

not_flooded : completed ≢ floodwait
not_flooded = λ e. cc

gate-IsConstrained : IsConstrained gate.states
unfolding any
gate-IsConstrained = record { fits = (initial-Fits 100 1, tt); distinct = (refl, tt) }

exclusive_example : started 1 gate_held rivals ≡ 0
exclusive_example =
    exclusive 111 1 5 (codes " History") 110 30 gate gate_held reservation rivals reserves_gate refl
      rivals-Early

floodwait_quiet_example : started 1 flooded impatient ≡ 0
floodwait_quiet_example =
    floodwait_quiet 121 1 5 120 2 none gate_held flooded busy flooded_row impatient busy_row
      finishes_flooded impatient-Early

paced_example : started 1 rested hasty ≡ 0
paced_example =
    paced 121 1 5 120 125 completed none gate_held rested busy paced_row hasty busy_row not_flooded
      finishes_completed hasty-Early

run-IsConstrained_example : IsConstrained (run gate rivals).states
run-IsConstrained_example = run-IsConstrained gate rivals gate-IsConstrained
