-- ===== src/Collector/Exclusion.antt =====
-- When the next request of an account may start: after the lease of the one before, or after the
-- pause or the FloodWait that it ended with.
use footjob.Base.{
  is_some, ℕ, ◌+◌, ◌*◌, ◌≡◌, ◌≢◌, refl, sym, subst, true, Option, none, some, List, ◌++◌, [], ◌∷◌,
  Str, ok, ℤ, pos, Datetime, aware, aware_utc, arith, runtime_error, Yields, Yields-pure,
  Yields-bind, Yields-guard, update_where, All,
}
use footjob.Collector.State.{
  TelegramCollectorOperationState, TelegramRequestReservation, TelegramOperationOutcome, Gate,
  Verdict, of_account, reserved_values, finished_values, event_of, owns, optional_utc, floodwait,
  completed, error,
}
use footjob.Collector.{get, reserve, verdict, finish}
use footjob.Collector.Rows.{row_of, get-row_of, row_of-updated}
use footjob.Collector.Verdicts.{Answer, granted, deferred, reserve-Answered}
use footjob.Collector.Calls.{Call, started}
use footjob.Collector.Shut.{Shut, leased, spaced, Early, run-steady}

-- The row of a request that was granted.
pub record Held (token until : ℕ) (s : TelegramCollectorOperationState) : Type 0 where
  pub shut : Shut until s
  pub owner : s.active_request_token ≡ some token
  pub category : is_some s.active_request_category ≡ true
  pub started_at : is_some s.active_request_started_at ≡ true

reserved_values-Held :
    (now token : ℕ) (category : Str) (at lease : ℕ) (s : TelegramCollectorOperationState)
    → Held token (at + lease) (reserved_values now token category at lease s)
unfolding reserved_values
reserved_values-Held now token category at lease s = record {
  shut = leased refl (at + lease) refl (omega arith);
  owner = refl;
  category = refl;
  started_at = refl;
}

-- A reservation that was acquired holds the account's row, until the lease ends.
pub reserved-Held :
    (now a token : ℕ) (category : Str) (at lease : ℕ) (g g' : Gate) (r : TelegramRequestReservation)
    → reserve now a token category (aware at) lease g ≡ ok (g', r)
    → r.acquired ≡ true
    → Held token (at + lease) r.state × (row_of a g' ≡ some r.state)
reserved-Held now a token category at lease g g' r e q =
    let (g₀, s, answer) = (reserve-Answered now a token category at lease g).holds (g', r) e in
    by_answer g₀ s (g', r) answer q
  where
    by_answer :
        (g₀ : Gate) (s : TelegramCollectorOperationState) (x : Gate × TelegramRequestReservation)
        → Answer now a token at lease s g₀ x
        → x.1.acquired ≡ true
        → Held token (at + lease) x.1.state × (row_of a x.0 ≡ some x.1.state)
    by_answer g₀ s x (granted o safe g'' ev row) q =
        (reserved_values-Held now token safe at lease s, row)
    by_answer g₀ s x (deferred t m) q = cc

-- After a request of an account is granted, no sequence of calls starts another request of the
-- account, as long as their clocks read earlier than the end of the lease and none finishes the
-- request by its token.
pub exclusive :
    (now a token : ℕ) (category : Str) (at lease : ℕ) (g g' : Gate) (r : TelegramRequestReservation)
    (cs : List (ℕ × Call))
    → reserve now a token category (aware at) lease g ≡ ok (g', r)
    → r.acquired ≡ true
    → All (Early a (at + lease) (some token)) cs
    → started a g' cs ≡ 0
exclusive now a token category at lease g g' r cs e q calls =
    let (held, row) = reserved-Held now a token category at lease g g' r e q in
    (run-steady a (at + lease) r.state held.shut g' cs row
      (subst (λ o. All (Early a (at + lease) o) cs) (sym held.owner) calls)).0

-- What `finish` leaves behind.
pub finish-Row :
    (now a token at : ℕ) (outcome : TelegramOperationOutcome) (next : Option Datetime)
    (seconds : Option ℤ) (g : Gate) (s : TelegramCollectorOperationState)
    → row_of a g ≡ some s
    → Yields
        (λ x.
          (n : Option ℕ) × (v : Verdict) × (optional_utc next ≡ ok n)
          × (verdict outcome seconds at n ≡ ok v)
          × (row_of a x.0 ≡ some (finished_values now at v s)))
        (finish now a token (aware at) outcome next seconds g)
unfolding finish aware_utc finished_values
finish-Row now a token at outcome next seconds g s h = Yields-bind (optional_utc next) _ λ n hn.
    Yields-bind (verdict outcome seconds at n) _ λ v hv. rw (get-row_of g a s h) (
      Yields-guard (owns token s.active_request_token) runtime_error _ λ owned.
        Yields-bind (event_of token at outcome v s) _ λ e he.
          Yields-bind
            (get
              (record g {
                states = update_where (of_account a) (finished_values now at v) g.states;
                events = g.events ++ e ∷ [];
              })
              a)
            _
            λ y hy.
              Yields-pure
                (n, v, hn, hv, row_of-updated a (finished_values now at v) (λ z. refl) g s h))

finished-Shut :
    (now at : ℕ) (v : Verdict) (s : TelegramCollectorOperationState) (t : ℕ)
    → v.next_allowed ≡ some t
    → Shut t (finished_values now at v s)
unfolding finished_values
finished-Shut now at v s t h = spaced t h (omega arith)

pub finished_token :
    (now at : ℕ) (v : Verdict) (s : TelegramCollectorOperationState)
    → (finished_values now at v s).active_request_token ≡ none
unfolding finished_values
finished_token now at v s = refl

quiet_after :
    (now a token at : ℕ) (outcome : TelegramOperationOutcome) (next : Option Datetime)
    (seconds : Option ℤ) (g g' : Gate) (s s' : TelegramCollectorOperationState) (t : ℕ)
    (cs : List (ℕ × Call))
    → row_of a g ≡ some s
    → finish now a token (aware at) outcome next seconds g ≡ ok (g', s')
    → ((n : Option ℕ) (v : Verdict)
        → optional_utc next ≡ ok n
        → verdict outcome seconds at n ≡ ok v
        → v.next_allowed ≡ some t)
    → All (Early a t none) cs
    → started a g' cs ≡ 0
quiet_after now a token at outcome next seconds g g' s s' t cs h e opens calls =
    let (n, v, hn, hv, row) =
      (finish-Row now a token at outcome next seconds g s h).holds (g', s') e in
    (run-steady a t (finished_values now at v s) (finished-Shut now at v s t (opens n v hn hv)) g'
      cs row (subst (λ o. All (Early a t o) cs) (sym (finished_token now at v s)) calls)).0

-- After a request of an account ended with a FloodWait, no sequence of calls starts another as
-- long as their clocks read earlier than the seconds that were asked for after the end.
pub floodwait_quiet :
    (now a token at seconds : ℕ) (next : Option Datetime) (g g' : Gate)
    (s s' : TelegramCollectorOperationState) (cs : List (ℕ × Call))
    → row_of a g ≡ some s
    → finish now a token (aware at) floodwait next (some (pos seconds)) g ≡ ok (g', s')
    → All (Early a (at + seconds * 1000000) none) cs
    → started a g' cs ≡ 0
floodwait_quiet now a token at seconds next g g' s s' cs h e calls =
    quiet_after now a token at floodwait next (some (pos seconds)) g g' s s' _ cs h e
      (λ n v hn hv. opens n v hv) calls
  where
    opens :
        (n : Option ℕ) (v : Verdict)
        → verdict floodwait (some (pos seconds)) at n ≡ ok v
        → v.next_allowed ≡ some (at + seconds * 1000000)
    opens n v hv = unfold verdict in ground arith

-- After a request of an account ended otherwise than with a FloodWait, no sequence of calls
-- starts another as long as their clocks read earlier than the next instant that finishing it was
-- given.
pub paced :
    (now a token at t : ℕ) (outcome : TelegramOperationOutcome) (seconds : Option ℤ) (g g' : Gate)
    (s s' : TelegramCollectorOperationState) (cs : List (ℕ × Call))
    → row_of a g ≡ some s
    → outcome ≢ floodwait
    → finish now a token (aware at) outcome (some (aware t)) seconds g ≡ ok (g', s')
    → All (Early a t none) cs
    → started a g' cs ≡ 0
paced now a token at t outcome seconds g g' s s' cs h other e calls =
    quiet_after now a token at outcome (some (aware t)) seconds g g' s s' t cs h e
      (λ n v hn hv. opens outcome n v other (instant n hn) hv) calls
  where
    opens :
        (o : TelegramOperationOutcome) (n : Option ℕ) (v : Verdict)
        → o ≢ floodwait
        → n ≡ some t
        → verdict o seconds at n ≡ ok v
        → v.next_allowed ≡ some t
    opens floodwait n v other hn hv = absurd (other refl)
    opens completed n v other hn hv = unfold verdict in ground arith
    opens error n v other hn hv = unfold verdict in ground arith

    instant : (n : Option ℕ) → optional_utc (some (aware t)) ≡ ok n → n ≡ some t
    instant n h = unfold aware_utc in cc
