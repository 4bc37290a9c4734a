-- ===== src/Collector/Finishing.antt =====
-- Finishing the request that holds the gate.
use footjob.Base.{
  ℕ, ◌+◌, ◌*◌, ◌≡◌, refl, true, Option, none, some, [], ◌∷◌, ◌++◌, ltb, ==_self, is_some, ok, ℤ,
  pos, Datetime, aware, aware_utc, update_where,
}
use footjob.Collector.State.{
  TelegramCollectorStatus, ready, TelegramCollectorOperationState, TelegramOperationOutcome,
  OperationEvent, Gate, Verdict, of_account, finished_values, event_of, optional_utc, floodwait,
  completed, error,
}
use footjob.Collector.{verdict, finish}
use footjob.Collector.Rows.{row_of, get-row_of, row_of-updated}
use footjob.Collector.Exclusion.{Held, finished_token}

-- A held row can be finished: the event is written, and the row's request is over.
event-Held :
    (token at until : ℕ) (outcome : TelegramOperationOutcome) (v : Verdict)
    (s : TelegramCollectorOperationState)
    → Held token until s
    → (e : OperationEvent) × (event_of token at outcome v s ≡ ok e)
unfolding event_of
event-Held token at until outcome v s h =
    let (c, hc) = is_set_some s.active_request_category h.category in
    let (t, ht) = is_set_some s.active_request_started_at h.started_at in
    (
      record {
        collector_account_id = s.collector_account_id;
        request_token = token;
        request_category = c;
        started_at = t;
        finished_at = at;
        outcome = outcome;
        floodwait_seconds = v.seconds;
      },
      rw (hc, ht),
    )
  where
    is_set_some : {A : Type 0} (o : Option A) → is_some o ≡ true → (x : A) × (o ≡ some x)
    is_set_some none h = cc
    is_set_some (some x) h = (x, refl)

-- The gate after a request of the account was given back.
abbrev pub GivenBack : ℕ → Gate → Type 0
GivenBack a g =
    (s : TelegramCollectorOperationState) × (row_of a g ≡ some s) × (s.active_request_token ≡ none)

-- The holder of the gate can finish its request.
pub finish-GivenBack :
    (now a token at until : ℕ) (outcome : TelegramOperationOutcome) (next : Option Datetime)
    (n : Option ℕ) (seconds : Option ℤ) (v : Verdict) (g : Gate)
    (s : TelegramCollectorOperationState)
    → row_of a g ≡ some s
    → Held token until s
    → optional_utc next ≡ ok n
    → verdict outcome seconds at n ≡ ok v
    → (g' : Gate) × (s' : TelegramCollectorOperationState) × (finish now a token
          (aware at)
          outcome
          next
          seconds
          g
        ≡ ok (g', s'))
      × GivenBack a g'
unfolding finish aware_utc
finish-GivenBack now a token at until outcome next n seconds v g s row h hn hv =
    let (e, he) = event-Held token at until outcome v s h in
    let later = row_of-updated a (finished_values now at v) (kept v) g s row in
    let after : Gate = record g {
      states = update_where (of_account a) (finished_values now at v) g.states;
      events = g.events ++ e ∷ [];
    } in
    (
      after,
      finished_values now at v s,
      rw (hn, hv, get-row_of g a s row, h.owner, ==_self token, he, get-row_of after a _ later)
          refl,
      (finished_values now at v s, later, finished_token now at v s),
    )
  where
    kept :
        (v : Verdict) (s : TelegramCollectorOperationState)
        → (finished_values now at v s).collector_account_id ≡ s.collector_account_id
    kept v s = unfold finished_values in refl

-- The verdicts of the outcomes.
abbrev pub plain : Option ℕ → Verdict
plain n = record { status = ready; next_allowed = n; cooldown_until = none; seconds = none }

abbrev pub flooded : ℕ → ℕ → Verdict
flooded at k = record {
  status = TelegramCollectorStatus.floodwait;
  next_allowed = some (at + k * 1000000);
  cooldown_until = some (at + k * 1000000);
  seconds = some k;
}

pub verdict-completed :
    (seconds : Option ℤ) (at : ℕ) (n : Option ℕ) → verdict completed seconds at n ≡ ok (plain n)
unfolding verdict
verdict-completed seconds at n = refl

pub verdict-error :
    (seconds : Option ℤ) (at : ℕ) (n : Option ℕ) → verdict error seconds at n ≡ ok (plain n)
unfolding verdict
verdict-error seconds at n = refl

pub verdict-floodwait :
    (k at : ℕ) (n : Option ℕ)
    → ltb 0 k ≡ true
    → verdict floodwait (some (pos k)) at n ≡ ok (flooded at k)
unfolding verdict
verdict-floodwait k at n h = rw h
