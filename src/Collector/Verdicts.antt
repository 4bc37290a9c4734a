-- ===== src/Collector/Verdicts.antt =====
-- What a reservation grants, and what `finish` decides.
use footjob.Base.{
  ℕ, ◌<◌, ◌≡◌, refl, sym, subst, Bool, true, false, ◌&&◌, not, Option, none, some, ltb, Str, Result,
  ok, value_error, collector_paused, floodwait_active, ◌>>=◌, ◌>>◌, guard, aware, aware_utc, arith,
  Yields, Yields-pure, Yields-err, Yields-bind, Yields-guard, Yields-if,
}
use footjob.Collector.State.{
  TelegramCollectorOperationState, TelegramRequestReservation, Gate, is_later, is_set, is_paused,
  is_floodwait, reserved_values, waiting,
}
use footjob.Collector.{insert_default, get, ensure, reserve_row, reserve, safe_category}
use footjob.Collector.Rows.{row_of-get, row_of, get-row_of, row_of-updated, insert_default_present}

-- The row lets a request start at the instant: the collector is not paused, its last FloodWait is
-- over, no other request holds a lease, and the pause between requests is over.
pub record IsOpen (at : ℕ) (s : TelegramCollectorOperationState) : Type 0 where
  pub running : is_paused s.status ≡ false
  pub cooled : (is_floodwait s.status && is_later s.cooldown_until at) ≡ false
  pub free : (is_set s.active_request_token && is_later s.active_request_lease_until at) ≡ false
  pub spaced : is_later s.next_allowed_request_at at ≡ false

-- The answer to a request: the gate is taken if it is open, and otherwise stays as it is, and the
-- caller learns of a later instant to wait for.
pub data Answer (now account_id token at lease : ℕ) (s : TelegramCollectorOperationState) (g : Gate)
    : Gate × TelegramRequestReservation → Type 0 where
  granted :
      IsOpen at s
      → (category : Str) (g' : Gate) → g'.events ≡ g.events
      → row_of account_id g' ≡ some (reserved_values now token category at lease s)
      → Answer now account_id token at lease s g (
        g',
        record {
          acquired = true;
          wait_until = none;
          state = reserved_values now token category at lease s;
        },
      )
  deferred :
      (until : ℕ)
      → at < until
      → Answer now account_id token at lease s g (g, waiting (some until) s)

later_time : (o : Option ℕ) (at : ℕ) → is_later o at ≡ true → (t : ℕ) × (o ≡ some t) × (at < t)
later_time none at h = ground arith
later_time (some t) at h = (t, refl, ground arith)

not-true : (b : Bool) → not b ≡ true → b ≡ false
not-true true h = cc
not-true false h = refl

second : (a b : Bool) → (a && b) ≡ true → b ≡ true
second true b h = h
second false b h = cc

deferred_to :
    (now account_id token at lease : ℕ) (s : TelegramCollectorOperationState) (g : Gate)
    (o : Option ℕ)
    → is_later o at ≡ true
    → Answer now account_id token at lease s g (g, waiting o s)
deferred_to now account_id token at lease s g o h =
    let (t, e, l) = later_time o at h in
    subst (λ x. Answer now account_id token at lease s g (g, waiting x s)) (sym e) (deferred t l)

same_account :
    (now token : ℕ) (category : Str) (at lease : ℕ) (s : TelegramCollectorOperationState)
    → (reserved_values now token category at lease s).collector_account_id ≡ s.collector_account_id
unfolding reserved_values
same_account now token category at lease s = refl

reserve_row-Answer :
    (now account_id token : ℕ) (category : Str) (at lease : ℕ) (g : Gate)
    (s : TelegramCollectorOperationState)
    → row_of account_id g ≡ some s
    → Yields
        (Answer now account_id token at lease s g)
        (reserve_row now account_id token category at lease g s)
unfolding reserve_row get
reserve_row-Answer now account_id token category at lease g s h =
    Yields-guard (not (is_paused s.status)) collector_paused _ λ running.
      Yields-guard (not (is_floodwait s.status && is_later s.cooldown_until at)) floodwait_active _
        λ cooled.
          Yields-if (is_set s.active_request_token && is_later s.active_request_lease_until at) _ _
            (λ held. Yields-pure (
              deferred_to now account_id token at lease s g s.active_request_lease_until
                (second _ _ held)))
            λ free.
              Yields-if (is_later s.next_allowed_request_at at) _ _
                (λ early.
                  Yields-pure
                    (deferred_to now account_id token at lease s g s.next_allowed_request_at early))
                λ spaced.
                  let updated_row =
                    row_of-updated account_id (reserved_values now token category at lease)
                      (same_account now token category at lease) g s h in
                  rw updated_row (
                    Yields-pure (
                      granted
                        (record {
                          running = not-true _ running;
                          cooled = not-true _ cooled;
                          free = free;
                          spaced = spaced;
                        })
                        category _ refl updated_row))

abbrev ensured :
    Bool → Gate → TelegramCollectorOperationState → Result (Gate × TelegramCollectorOperationState)
ensured b g s = guard b value_error >> ok (g, s)

ensure_present :
    (now a : ℕ) (g : Gate) (s : TelegramCollectorOperationState)
    → row_of a g ≡ some s
    → ensure now a g ≡ ensured (ltb 0 a) g s
unfolding ensure
ensure_present now a g s h = rw (insert_default_present now a g s h, get-row_of g a s h) refl

pub reserve-Answer :
    (now account_id token : ℕ) (category : Str) (at lease : ℕ) (g : Gate)
    (s : TelegramCollectorOperationState)
    → row_of account_id g ≡ some s
    → Yields
        (Answer now account_id token at lease s g)
        (reserve now account_id token category (aware at) lease g)
unfolding reserve aware_utc
reserve-Answer now account_id token category at lease g s h =
    Yields-bind (safe_category category) _ λ safe hs.
      Yields-guard (ltb 0 lease) value_error _
        λ positive. rw (ensure_present now account_id g s h) (answer (ltb 0 account_id) safe)
  where
    answer :
        (b : Bool) (safe : Str)
        → Yields
            (Answer now account_id token at lease s g)
            (ensured b g s >>= λ x. reserve_row now account_id token safe at lease x.0 x.1)
    answer true safe = reserve_row-Answer now account_id token safe at lease g s h
    answer false safe = Yields-err value_error

-- The answer to a request for any account, whose row is inserted if there is none.
pub reserve-Answered :
    (now account_id token : ℕ) (category : Str) (at lease : ℕ) (g : Gate)
    → Yields
        (λ x.
          (g₀ : Gate) × (s : TelegramCollectorOperationState) × Answer now account_id token at lease
            s g₀ x)
        (reserve now account_id token category (aware at) lease g)
unfolding reserve ensure aware_utc
reserve-Answered now account_id token category at lease g =
    Yields-bind (safe_category category) _ λ safe hs.
      Yields-guard (ltb 0 lease) value_error _ λ lasts.
        Yields-bind (ensure now account_id g) _ λ x hx.
          let row = (ensured_row now account_id g).holds x hx in
          let answered = reserve_row-Answer now account_id token safe at lease x.0 x.1 row in
          record { holds = λ y e. (x.0, x.1, answered.holds y e) }
  where
    ensured_row : (now a : ℕ) (g : Gate) → Yields (λ x. row_of a x.0 ≡ some x.1) (ensure now a g)
    ensured_row now a g = Yields-guard (ltb 0 a) value_error _ λ positive.
        Yields-bind (insert_default now a g) _
          λ g' hg. Yields-bind (get g' a) _ λ s hs. Yields-pure (row_of-get g' a s hs)
