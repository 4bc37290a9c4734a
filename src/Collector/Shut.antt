-- ===== src/Collector/Shut.antt =====
-- The gate stays shut: after a request was granted, or finished, no other starts too early.
use footjob.Base.{
  ℕ, ◌≤◌, ◌<◌, ◌≡◌, refl, sym, subst, Bool, true, false, ◌&&◌, Option, some, List, [], ◌∷◌, ltb,
  ◌==◌, ==→eq, ==_self, Str, Result, ok, err, ℤ, Datetime, aware, arith, Yields, All,
}
use footjob.Collector.State.{
  TelegramCollectorOperationState, TelegramRequestReservation, TelegramOperationOutcome, Gate,
  is_later, is_set, is_paused, is_floodwait, owns,
}
use footjob.Collector.{reserve}
use footjob.Collector.Rows.{row_of}
use footjob.Collector.Others.{reserve-Other, finish-Other, finish-Refused}
use footjob.Collector.Verdicts.{IsOpen, Answer, granted, deferred, reserve-Answer}
use footjob.Collector.Calls.{
  Call, reserves, finishes, committed, is_acquired, step, run, acquires, started,
}

-- The row lets no request start before `until`.
pub data Shut (until : ℕ) (s : TelegramCollectorOperationState) : Type 0 where
  stopped : is_paused s.status ≡ true → Shut until s
  cooling :
      is_floodwait s.status ≡ true → (t : ℕ) → s.cooldown_until ≡ some t → until ≤ t → Shut until s
  leased :
      is_set s.active_request_token ≡ true
      → (t : ℕ) → s.active_request_lease_until ≡ some t
      → until ≤ t
      → Shut until s
  spaced : (t : ℕ) → s.next_allowed_request_at ≡ some t → until ≤ t → Shut until s

early : (at until t : ℕ) → at < until → until ≤ t → ltb at t ≡ false → ⊥
early at until t l m h = ground arith

rest_false : (b c : Bool) → b ≡ true → (b && c) ≡ false → c ≡ false
rest_false true c e h = h
rest_false false c e h = cc

not_later :
    (o : Option ℕ) (at until t : ℕ)
    → o ≡ some t
    → at < until
    → until ≤ t
    → is_later o at ≡ false
    → ⊥
not_later o at until t c l m h = early at until t l m (rw c at h)

pub Shut-IsOpen :
    (until at : ℕ) (s : TelegramCollectorOperationState)
    → at < until
    → Shut until s
    → IsOpen at s
    → ⊥
Shut-IsOpen until at s l (stopped e) o = let r = o.running in cc
Shut-IsOpen until at s l (cooling e t c m) o =
    not_later _ at until t c l m (rest_false _ _ e o.cooled)
Shut-IsOpen until at s l (leased e t c m) o = not_later _ at until t c l m (rest_false _ _ e o.free)
Shut-IsOpen until at s l (spaced t c m) o = not_later _ at until t c l m o.spaced

-- A call that comes too early to start a request of the account, or that does not hold its gate.
abbrev pub Early : ℕ → ℕ → Option ℕ → ℕ × Call → Type 0
Early a until owner (now, reserves b token category at lease) = b == a ≡ true → at < until
Early a until owner (now, finishes b token at outcome next seconds) =
    b == a ≡ true → owns token owner ≡ false

committed-Keeps :
    {A : Type 0} (P : Gate → Type 0) (g : Gate) (r : Result (Gate × A))
    → P g
    → Yields (λ x. P x.0) r
    → P (committed g r)
committed-Keeps P g (ok x) h y = y.holds x refl
committed-Keeps P g (err e) h y = h

module _ (a until : ℕ) (s : TelegramCollectorOperationState) (shut : Shut until s) where
  deferred-kept :
      {now token at lease : ℕ} (g : Gate) (x : Gate × TelegramRequestReservation)
      → at < until
      → Answer now a token at lease s g x
      → (x.0 ≡ g) × (x.1.acquired ≡ false)
  deferred-kept {at = at} g x l (granted o category g' ev row) =
      absurd (Shut-IsOpen until at s l shut o)
  deferred-kept g x l (deferred t m) = (refl, refl)

  -- A request that comes before the gate opens is not granted, and changes nothing.
  reserve-shut :
      (now token : ℕ) (category : Str) (at lease : ℕ) (g : Gate)
      → row_of a g ≡ some s
      → at < until
      → Yields
          (λ x. (x.0 ≡ g) × (x.1.acquired ≡ false))
          (reserve now a token category (aware at) lease g)
  reserve-shut now token category at lease g h l = record {
    holds =
        λ x e. deferred-kept g x l ((reserve-Answer now a token category at lease g s h).holds x e);
  }

  not_acquired :
      (g : Gate) (r : Result (Gate × TelegramRequestReservation))
      → Yields (λ x. (x.0 ≡ g) × (x.1.acquired ≡ false)) r
      → is_acquired r ≡ false
  not_acquired g (ok x) y = (y.holds x refl).1
  not_acquired g (err e) y = refl

  Steady : Gate → ℕ × Call → Type 0
  Steady g c = (row_of a (step g c) ≡ some s) × (acquires a g c ≡ false)

  reserve-Steady :
      (test : Bool) (now b token : ℕ) (category : Str) (at lease : ℕ) (g : Gate)
      → b == a ≡ test
      → (test ≡ true → at < until)
      → row_of a g ≡ some s
      → Steady g (now, reserves b token category at lease)
  unfolding Steady step acquires
  reserve-Steady false now b token category at lease g other l h = (
    committed-Keeps (λ x. row_of a x ≡ some s) g _ h
        (reserve-Other now b token category at lease g a s other h),
    rw other,
  )
  reserve-Steady true now b token category at lease g own l h =
      let e : a ≡ b = sym (==→eq b a own) in
      subst (λ b. Steady g (now, reserves b token category at lease)) e
        (let y = reserve-shut now token category at lease g h (l refl) in
          (
            committed-Keeps (λ x. row_of a x ≡ some s) g _ h
                (record {
                  holds = λ x q. subst (λ z. row_of a z ≡ some s) (sym (y.holds x q).0) h;
                }),
            rw (==_self a, not_acquired g _ y),
          ))

  finish-Steady :
      (test : Bool) (now b token at : ℕ) (outcome : TelegramOperationOutcome)
      (next : Option Datetime) (seconds : Option ℤ) (g : Gate)
      → b == a ≡ test
      → (test ≡ true → owns token s.active_request_token ≡ false)
      → row_of a g ≡ some s
      → Steady g (now, finishes b token at outcome next seconds)
  unfolding Steady step acquires
  finish-Steady false now b token at outcome next seconds g other l h = (
    committed-Keeps (λ x. row_of a x ≡ some s) g _ h
        (finish-Other now b token at outcome next seconds g a s other h),
    refl,
  )
  finish-Steady true now b token at outcome next seconds g own l h =
      let e : a ≡ b = sym (==→eq b a own) in
      subst (λ b. Steady g (now, finishes b token at outcome next seconds)) e
        (
          committed-Keeps (λ x. row_of a x ≡ some s) g _ h
              (record {
                holds = λ x q.
                    absurd (
                      (finish-Refused now a token at outcome next seconds g s h (l refl)).holds x
                        q);
              }),
          refl,
        )

  step-Steady :
      (g : Gate) (c : ℕ × Call)
      → row_of a g ≡ some s
      → Early a until s.active_request_token c
      → Steady g c
  step-Steady g (now, reserves b token category at lease) h l =
      reserve-Steady (b == a) now b token category at lease g refl l h
  step-Steady g (now, finishes b token at outcome next seconds) h l =
      finish-Steady (b == a) now b token at outcome next seconds g refl l h

  -- While the gate is shut, no call starts a request and the row stays as it is.
  pub run-steady :
      (g : Gate) (cs : List (ℕ × Call))
      → row_of a g ≡ some s
      → All (Early a until s.active_request_token) cs
      → (started a g cs ≡ 0) × (row_of a (run g cs) ≡ some s)
  unfolding run started Steady
  run-steady g [] h l = (refl, h)
  run-steady g (c ∷ cs) h l =
      let (row, none_started) = step-Steady g c h l.0 in
      let (rest, end) = run-steady (step g c) cs row l.1 in (rw (none_started, rest) refl, end)
