-- ===== src/Collector/Integrity.antt =====
-- The constraints of `telegram_collector_operation_state`, kept by every call.
use footjob.Base.{
  ℕ, ◌≡◌, refl, ap, Bool, true, false, Option, none, some, List, ◌++◌, [], ◌∷◌, ltb, ◌==◌, ◌&&◌,
  not, Str, Result, ok, err, ℤ, pos, negsuc, Datetime, aware, aware_utc, arith, value_error,
  runtime_error, collector_paused, floodwait_active, integrity_error, Yields, Yields-pure,
  Yields-err, Yields-bind, Yields-guard, Yields-if, update_where, updated, All, All-append,
  All-update_where, Distinct, Distinct-append, Distinct-update_where, any, Bool-cases, inl, inr,
}
use footjob.Collector.State.{
  TelegramCollectorOperationState, TelegramOperationOutcome, Gate, Verdict, is_set, is_later,
  is_paused, is_floodwait, of_account, initial, or_else, reserved_values, finished_values, event_of,
  owns, optional_utc, floodwait, completed, error,
}
use footjob.Collector.{
  get, insert_default, ensure, reserve, reserve_row, safe_category, verdict, finish,
}
use footjob.Collector.Calls.{Call, reserves, finishes, committed, step, run}

-- `active_request_consistent`
pub active_request_consistent : Option ℕ → Option Str → Option ℕ → Option ℕ → Bool
active_request_consistent none none none none = true
active_request_consistent (some _) (some _) (some _) (some _) = true
active_request_consistent _ _ _ _ = false

-- `last_floodwait_seconds_positive`
pub seconds_positive : Option ℕ → Bool
seconds_positive none = true
seconds_positive (some n) = ltb 0 n

pub record Fits (s : TelegramCollectorOperationState) : Type 0 where
  pub consistent :
      active_request_consistent s.active_request_token s.active_request_category
        s.active_request_started_at s.active_request_lease_until
      ≡ true
  pub positive : seconds_positive s.last_floodwait_seconds ≡ true

-- The primary key.
abbrev pub same_account : TelegramCollectorOperationState → TelegramCollectorOperationState → Bool
same_account a b = of_account a.collector_account_id b

-- The constraints of the table.
pub record IsConstrained (rows : List TelegramCollectorOperationState) : Type 0 where
  pub fits : All Fits rows
  pub distinct : Distinct same_account rows

pub initial-Fits : (now a : ℕ) → Fits (initial now a)
unfolding active_request_consistent seconds_positive
initial-Fits now a = record { consistent = refl; positive = refl }

reserved-Fits :
    (now token : ℕ) (category : Str) (at lease : ℕ) (s : TelegramCollectorOperationState)
    → Fits s
    → Fits (reserved_values now token category at lease s)
unfolding reserved_values active_request_consistent
reserved-Fits now token category at lease s f = record { consistent = refl; positive = f.positive }

verdict_positive :
    (outcome : TelegramOperationOutcome) (seconds : Option ℤ) (at : ℕ) (n : Option ℕ) (v : Verdict)
    → verdict outcome seconds at n ≡ ok v
    → seconds_positive v.seconds ≡ true
unfolding verdict seconds_positive
verdict_positive completed seconds at n v h = ground arith
verdict_positive error seconds at n v h = ground arith
verdict_positive floodwait none at n v h = cc
verdict_positive floodwait (some (negsuc k)) at n v h = cc
verdict_positive floodwait (some (pos k)) at n v h = ground arith

or_else_positive :
    (a b : Option ℕ)
    → seconds_positive a ≡ true
    → seconds_positive b ≡ true
    → seconds_positive (or_else a b) ≡ true
or_else_positive none b p q = q
or_else_positive (some a) b p q = p

finished-Fits :
    (now at : ℕ) (v : Verdict) (s : TelegramCollectorOperationState)
    → seconds_positive v.seconds ≡ true
    → Fits s
    → Fits (finished_values now at v s)
unfolding finished_values active_request_consistent
finished-Fits now at v s p f = record {
  consistent = refl;
  positive = or_else_positive v.seconds s.last_floodwait_seconds p f.positive;
}

update-IsConstrained :
    (a : ℕ) (f : TelegramCollectorOperationState → TelegramCollectorOperationState)
    → ((s : TelegramCollectorOperationState) → (f s).collector_account_id ≡ s.collector_account_id)
    → ((s : TelegramCollectorOperationState) → Fits s → Fits (f s))
    → (rows : List TelegramCollectorOperationState) → IsConstrained rows
    → IsConstrained (update_where (of_account a) f rows)
update-IsConstrained a f keep fits rows v = record {
  fits = All-update_where Fits (of_account a) f (λ s h _. fits s h) rows v.fits;
  distinct =
      Distinct-update_where same_account (of_account a) f (λ x y. right x y) (λ x y. left x y) rows
        v.distinct;
}
  where
    kept_id :
        (s : TelegramCollectorOperationState)
        → (updated (of_account a) f s).collector_account_id ≡ s.collector_account_id
    kept_id s = elim (Bool-cases (of_account a s)) [ inl e ↦ rw e (keep s) | inr e ↦ rw e refl ]

    right :
        (x y : TelegramCollectorOperationState)
        → same_account x (updated (of_account a) f y) ≡ same_account x y
    right x y = ap (λ i. i == x.collector_account_id) (kept_id y)

    left :
        (x y : TelegramCollectorOperationState)
        → same_account (updated (of_account a) f x) y ≡ same_account x y
    left x y = ap (λ i. y.collector_account_id == i) (kept_id x)

abbrev Constrained : {A : Type 0} → Gate × A → Type 0
Constrained x = IsConstrained x.0.states

insert_default-IsConstrained :
    (now a : ℕ) (g : Gate)
    → IsConstrained g.states
    → Yields (λ x. IsConstrained x.states) (insert_default now a g)
unfolding insert_default
insert_default-IsConstrained now a g v =
    Yields-if (any (of_account a) g.states) _ _ (λ e. Yields-pure v)
      λ fresh.
        Yields-if (any (λ x. x == a) g.accounts) _ _
          (λ known. Yields-pure (record {
            fits = All-append Fits g.states _ v.fits (initial-Fits now a, tt);
            distinct =
                Distinct-append same_account g.states (initial now a) (λ x. ground arith) fresh
                  v.distinct;
          }))
          λ unknown. Yields-err integrity_error

ensure-IsConstrained :
    (now a : ℕ) (g : Gate) → IsConstrained g.states → Yields Constrained (ensure now a g)
unfolding ensure
ensure-IsConstrained now a g v = Yields-guard (ltb 0 a) value_error _ λ positive.
    Yields-bind (insert_default now a g) _ λ g' hg.
      Yields-bind (get g' a) _
        λ s hs. Yields-pure ((insert_default-IsConstrained now a g v).holds g' hg)

reserve-IsConstrained :
    (now a token : ℕ) (category : Str) (clock : Datetime) (lease : ℕ) (g : Gate)
    → IsConstrained g.states
    → Yields Constrained (reserve now a token category clock lease g)
unfolding reserve reserve_row reserved_values
reserve-IsConstrained now a token category clock lease g v =
    Yields-bind (aware_utc clock) _ λ at ha. Yields-bind (safe_category category) _ λ safe hs.
      Yields-guard (ltb 0 lease) value_error _ λ positive. Yields-bind (ensure now a g) _ λ x hx.
        let w = (ensure-IsConstrained now a g v).holds x hx in
        let changes = reserved_values now token safe at lease in
        Yields-guard (not (is_paused x.1.status)) collector_paused _ λ running.
          Yields-guard (not (is_floodwait x.1.status && is_later x.1.cooldown_until at))
            floodwait_active _
            λ cooled.
              Yields-if
                (is_set x.1.active_request_token && is_later x.1.active_request_lease_until at) _ _
                (λ held. Yields-pure w)
                λ free.
                  Yields-if (is_later x.1.next_allowed_request_at at) _ _ (λ soon. Yields-pure w)
                    λ spaced.
                      Yields-bind
                        (get
                          (record x.0 { states = update_where (of_account a) changes x.0.states })
                          a)
                        _
                        λ r hr. Yields-pure (
                          update-IsConstrained a changes (λ s. refl)
                            (λ s f. reserved-Fits now token safe at lease s f) x.0.states w)

finish-IsConstrained :
    (now a token : ℕ) (clock : Datetime) (outcome : TelegramOperationOutcome)
    (next : Option Datetime) (seconds : Option ℤ) (g : Gate)
    → IsConstrained g.states
    → Yields Constrained (finish now a token clock outcome next seconds g)
unfolding finish finished_values
finish-IsConstrained now a token clock outcome next seconds g valid =
    Yields-bind (aware_utc clock) _ λ at ha. Yields-bind (optional_utc next) _ λ n hn.
      Yields-bind (verdict outcome seconds at n) _ λ v hv. Yields-bind (get g a) _ λ x hx.
        Yields-guard (owns token x.active_request_token) runtime_error _ λ owned.
          Yields-bind (event_of token at outcome v x) _ λ e he.
            let changes = finished_values now at v in
            Yields-bind
              (get
                (record g {
                  states = update_where (of_account a) changes g.states;
                  events = g.events ++ e ∷ [];
                })
                a)
              _
              λ y hy. Yields-pure (
                update-IsConstrained a changes (λ s. refl)
                  (λ s f. finished-Fits now at v s (verdict_positive outcome seconds at n v hv) f)
                  g.states valid)

committed-IsConstrained :
    {A : Type 0} (g : Gate) (r : Result (Gate × A))
    → IsConstrained g.states
    → Yields Constrained r
    → IsConstrained (committed g r).states
committed-IsConstrained g (ok x) v y = y.holds x refl
committed-IsConstrained g (err e) v y = v

step-IsConstrained :
    (g : Gate) (c : ℕ × Call) → IsConstrained g.states → IsConstrained (step g c).states
unfolding step
step-IsConstrained g (now, reserves a token category at lease) v =
    committed-IsConstrained g _ v (reserve-IsConstrained now a token category (aware at) lease g v)
step-IsConstrained g (now, finishes a token at outcome next seconds) v =
    committed-IsConstrained g _ v
      (finish-IsConstrained now a token (aware at) outcome next seconds g v)

-- Whatever calls are made on the gate, each account goes on to have one row at most, its
-- request's columns are all set or all empty, and a recorded FloodWait has a positive length.
pub run-IsConstrained :
    (g : Gate) (cs : List (ℕ × Call)) → IsConstrained g.states → IsConstrained (run g cs).states
unfolding run
run-IsConstrained g [] v = v
run-IsConstrained g (c ∷ cs) v = run-IsConstrained (step g c) cs (step-IsConstrained g c v)
