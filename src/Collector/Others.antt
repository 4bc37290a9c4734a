-- ===== src/Collector/Others.antt =====
-- Calls that do not concern a row: those for other accounts, and those by other tokens.
use footjob.Base.{
  ℕ, ◌≡◌, refl, sym, ◌∙◌, subst, Bool, true, false, ◌&&◌, Option, some, [], ◌∷◌, ◌++◌, ltb, ◌==◌,
  Str, Result, ok, ℤ, Datetime, aware, aware_utc, value_error, runtime_error, collector_paused,
  floodwait_active, not, Yields, Yields-pure, Yields-bind, Yields-guard, Yields-if, update_where,
}
use footjob.Collector.State.{
  TelegramCollectorOperationState, TelegramOperationOutcome, Gate, of_account, is_later, is_set,
  is_paused, is_floodwait, reserved_values, finished_values, event_of, owns, optional_utc,
}
use footjob.Collector.{
  get, ensure, insert_default, reserve_row, reserve, safe_category, verdict, finish,
}
use footjob.Collector.Rows.{row_of, get-row_of, row_of-other, insert_default-Keeps}

-- Calls for other accounts leave a row as it is.
pub reserve-Other :
    (now b token : ℕ) (category : Str) (at lease : ℕ) (g : Gate) (a : ℕ)
    (s : TelegramCollectorOperationState)
    → b == a ≡ false
    → row_of a g ≡ some s
    → Yields (λ x. row_of a x.0 ≡ some s) (reserve now b token category (aware at) lease g)
unfolding reserve ensure reserve_row aware_utc reserved_values
reserve-Other now b token category at lease g a s other h =
    Yields-bind (safe_category category) _ λ safe hs.
      Yields-guard (ltb 0 lease) value_error _ λ positive. Yields-bind (ensure now b g) _ λ x hx.
        let m = (ensure-Keeps now b g a s h).holds x hx in
        Yields-guard (not (is_paused x.1.status)) collector_paused _ λ running.
          Yields-guard (not (is_floodwait x.1.status && is_later x.1.cooldown_until at))
            floodwait_active _
            λ cooled.
              Yields-if
                (is_set x.1.active_request_token && is_later x.1.active_request_lease_until at) _ _
                (λ held. Yields-pure m)
                λ free.
                  Yields-if (is_later x.1.next_allowed_request_at at) _ _ (λ soon. Yields-pure m)
                    λ spaced.
                      Yields-bind
                        (get
                          (record x.0 {
                            states =
                                update_where (of_account b)
                                  (reserved_values now token safe at lease) x.0.states;
                          })
                          b)
                        _
                        λ r hr. Yields-pure (
                          row_of-other b a (reserved_values now token safe at lease) (λ z. refl) x.0
                            s other m)
  where
    ensure-Keeps :
        (now b : ℕ) (g : Gate) (a : ℕ) (s : TelegramCollectorOperationState)
        → row_of a g ≡ some s
        → Yields (λ x. row_of a x.0 ≡ some s) (ensure now b g)
    ensure-Keeps now b g a s h = Yields-guard (ltb 0 b) value_error _ λ positive.
        Yields-bind (insert_default now b g) _ λ g' hg.
          Yields-bind (get g' b) _
            λ r hr. Yields-pure ((insert_default-Keeps now b g a s h).holds g' hg)

pub finish-Other :
    (now b token at : ℕ) (outcome : TelegramOperationOutcome) (next : Option Datetime)
    (seconds : Option ℤ) (g : Gate) (a : ℕ) (s : TelegramCollectorOperationState)
    → b == a ≡ false
    → row_of a g ≡ some s
    → Yields (λ x. row_of a x.0 ≡ some s) (finish now b token (aware at) outcome next seconds g)
unfolding finish finished_values aware_utc
finish-Other now b token at outcome next seconds g a s other h =
    Yields-bind (optional_utc next) _ λ n hn. Yields-bind (verdict outcome seconds at n) _ λ v hv.
      Yields-bind (get g b) _ λ x hx.
        Yields-guard (owns token x.active_request_token) runtime_error _ λ owned.
          Yields-bind (event_of token at outcome v x) _ λ e he.
            Yields-bind
              (get
                (record g {
                  states = update_where (of_account b) (finished_values now at v) g.states;
                  events = g.events ++ e ∷ [];
                })
                b)
              _
              λ y hy.
                Yields-pure (row_of-other b a (finished_values now at v) (λ z. refl) g s other h)

-- A call of `finish` by a token that does not hold the gate is refused.
pub finish-Refused :
    (now a token at : ℕ) (outcome : TelegramOperationOutcome) (next : Option Datetime)
    (seconds : Option ℤ) (g : Gate) (s : TelegramCollectorOperationState)
    → row_of a g ≡ some s
    → owns token s.active_request_token ≡ false
    → Yields (λ x. ⊥) (finish now a token (aware at) outcome next seconds g)
unfolding finish aware_utc
finish-Refused now a token at outcome next seconds g s h stranger =
    Yields-bind (optional_utc next) _ λ n hn. Yields-bind (verdict outcome seconds at n) _ λ v hv.
      Yields-bind (get g a) _ λ x hx.
        let same : ◌≡◌ {A = Result TelegramCollectorOperationState} (ok s) (ok x) =
          sym (get-row_of g a s h) ∙ hx in
        let e : s ≡ x = cc in
        Yields-guard (owns token x.active_request_token) runtime_error _ λ owned.
          absurd (clash _ (subst (λ z. owns token z.active_request_token ≡ false) e stranger) owned)
  where
    clash : (b : Bool) → b ≡ false → b ≡ true → ⊥
    clash b h k = cc
