-- ===== src/Subscriptions/Success.antt =====
-- When a reconciliation succeeds.
use footjob.Base.{
  ℕ, ◌≡◌, refl, sym, subst, ap, ◌∙◌, Bool, true, false, ◌⊎◌, inl, inr, Option, none, some, List, [],
  ◌∷◌, Str, codes, str_eq, ltb, if◌then◌else◌, Result, ok, err, ◌>>=◌, Datetime, aware, aware_utc,
  Bool-cases, Option-cases, find,
}
use footjob.Billing.{SubscriptionState}
use footjob.Subscriptions.Tables.{
  Store, StateRecord, User, Period, find_user, get_state, periods_of, safe_reason, state_values,
}
use footjob.Subscriptions.Methods.{find_user-id}
use footjob.Subscriptions.{
  Projection, natural_projection, trial_projection, latest_period, active_periods, has_periods,
  is_halted, same_projection, transition_reason, requested_or_natural_reason, insert_state,
  record_event, create_state, transition, reconcile_state, reconcile, effective, or_missing,
}

-- A reason that the repository accepts.
abbrev pub IsSafe : Str → Type 0
IsSafe r = (r' : Str) × (safe_reason r ≡ ok r')

-- A trial that was started has its expiry.
abbrev pub IsComplete : User → Type 0
IsComplete user = (user.trial_started_at ≡ none) ⊎ ((t : ℕ) × (user.trial_expires_at ≡ some t))

renewed-IsSafe : IsSafe (codes "subscription.renewed")
unfolding safe_reason footjob.Base.lower footjob.Base.strip footjob.Base.lstrip
    footjob.Base.is_space footjob.Base.is_ascii_alpha footjob.Base.lower_char footjob.Base.all_chars
    footjob.Base.is_identifier_char
renewed-IsSafe = (codes "subscription.renewed", refl)

paid-IsSafe : IsSafe (codes "paid_period_active")
unfolding safe_reason footjob.Base.lower footjob.Base.strip footjob.Base.lstrip
    footjob.Base.is_space footjob.Base.is_ascii_alpha footjob.Base.lower_char footjob.Base.all_chars
    footjob.Base.is_identifier_char
paid-IsSafe = (codes "paid_period_active", refl)

expired-IsSafe : IsSafe (codes "subscription_expired")
unfolding safe_reason footjob.Base.lower footjob.Base.strip footjob.Base.lstrip
    footjob.Base.is_space footjob.Base.is_ascii_alpha footjob.Base.lower_char footjob.Base.all_chars
    footjob.Base.is_identifier_char
expired-IsSafe = (codes "subscription_expired", refl)

trial_expired-IsSafe : IsSafe (codes "trial_expired")
unfolding safe_reason footjob.Base.lower footjob.Base.strip footjob.Base.lstrip
    footjob.Base.is_space footjob.Base.is_ascii_alpha footjob.Base.lower_char footjob.Base.all_chars
    footjob.Base.is_identifier_char
trial_expired-IsSafe = (codes "trial_expired", refl)

trial_active-IsSafe : IsSafe (codes "trial_active")
unfolding safe_reason footjob.Base.lower footjob.Base.strip footjob.Base.lstrip
    footjob.Base.is_space footjob.Base.is_ascii_alpha footjob.Base.lower_char footjob.Base.all_chars
    footjob.Base.is_identifier_char
trial_active-IsSafe = (codes "trial_active", refl)

not_started-IsSafe : IsSafe (codes "trial_not_started")
unfolding safe_reason footjob.Base.lower footjob.Base.strip footjob.Base.lstrip
    footjob.Base.is_space footjob.Base.is_ascii_alpha footjob.Base.lower_char footjob.Base.all_chars
    footjob.Base.is_identifier_char
not_started-IsSafe = (codes "trial_not_started", refl)

-- A projection whose reason the repository accepts.
abbrev Projected : Result Projection → Type 0
Projected r = (p : Projection) × (r ≡ ok p) × IsSafe p.reason

if-Projected :
    (b : Bool) (p q : Projection)
    → IsSafe p.reason
    → IsSafe q.reason
    → Projected (ok (if b then p else q))
if-Projected true p q hp hq = (p, refl, hp)
if-Projected false p q hp hq = (q, refl, hq)

if-IsSafe : (b : Bool) (r s : Str) → (b ≡ true → IsSafe r) → IsSafe s → IsSafe (if b then r else s)
if-IsSafe true r s hr hs = hr refl
if-IsSafe false r s hr hs = hs

trial-Projected :
    (started expires : Option ℕ) (ps : List Period) (t : ℕ)
    → (started ≡ none) ⊎ ((e : ℕ) × (expires ≡ some e))
    → Projected (trial_projection started expires ps t)
unfolding trial_projection has_periods
trial-Projected none expires [] t c = (_, refl, not_started-IsSafe)
trial-Projected none expires (p ∷ ps) t c = (_, refl, expired-IsSafe)
trial-Projected (some s) none ps t (inl e) = cc
trial-Projected (some s) none ps t (inr (e, h)) = cc
trial-Projected (some s) (some e) [] t c =
    if-Projected (ltb t e) _ _ trial_active-IsSafe trial_expired-IsSafe
trial-Projected (some s) (some e) (p ∷ ps) t c =
    if-Projected (ltb t e) _ _ trial_active-IsSafe expired-IsSafe

natural-Projected :
    (user : User) (ps : List Period) (t : ℕ)
    → IsComplete user
    → Projected (natural_projection user ps t)
unfolding natural_projection
natural-Projected user ps t c = elim (Option-cases (latest_period (active_periods t ps))) [
  | inl e ↦
      rw (natural_projection, e)
        (trial-Projected user.trial_started_at user.trial_expires_at ps t c)
  | inr (p, e) ↦ rw (natural_projection, e) (_, refl, paid-IsSafe)
]

transition_reason-IsSafe :
    (s : StateRecord) (p : Projection) → IsSafe p.reason → IsSafe (transition_reason s p)
unfolding transition_reason
transition_reason-IsSafe s p h = if-IsSafe _ _ p.reason (λ e. renewed-IsSafe) h

chosen-IsSafe :
    (requested natural : Str)
    → IsSafe requested
    → IsSafe natural
    → IsSafe (requested_or_natural_reason requested natural)
unfolding requested_or_natural_reason
chosen-IsSafe requested natural r n = if-IsSafe _ natural requested (λ e. n) r

-- A computation of the repository that succeeds.
abbrev IsDone : Result (Store × StateRecord) → Type 0
IsDone r = (later : Store) × (s : StateRecord) × (r ≡ ok (later, s))

IsDone-bind :
    {A : Type 0} (r : Result A) (f : A → Result (Store × StateRecord)) (a : A)
    → r ≡ ok a
    → IsDone (f a)
    → IsDone (r >>= f)
IsDone-bind r f a e d = subst (λ x. IsDone (x >>= f)) (sym e) d

done : (later : Store) (s : StateRecord) → IsDone (ok (later, s))
done later s = (later, s, refl)

IsDone-if :
    (b : Bool) (x y : Result (Store × StateRecord))
    → IsDone x
    → IsDone y
    → IsDone (if b then x else y)
IsDone-if true x y hx hy = hx
IsDone-if false x y hx hy = hy

create_state-IsDone :
    (now id u : ℕ) (state : SubscriptionState) (period : Option Period) (reason : Str) (at : ℕ)
    (store : Store)
    → IsSafe reason
    → get_state u store ≡ none
    → IsDone (create_state now id u state period reason at store)
unfolding create_state
create_state-IsDone now id u state period reason at store (r, h) g =
    IsDone-bind (safe_reason reason) _ r h (by_row (get_state u store) g)
  where
    by_row :
        (o : Option StateRecord)
        → o ≡ none
        → IsDone (elim o [
          | some current ↦ ok (store, current)
          | none ↦
              let current = state_values now now u state 1 period r at in
              ok (record_event now id current none r at (insert_state current store), current)
        ])
    by_row none e = done _ _
    by_row (some s) e = done _ _

transition-IsDone :
    (now id : ℕ) (s : StateRecord) (state : SubscriptionState) (period : Option Period)
    (reason : Str) (at : ℕ) (store : Store)
    → IsSafe reason
    → IsDone (transition now id s state period reason at store)
unfolding transition
transition-IsDone now id s state period reason at store (r, h) =
    IsDone-bind (safe_reason reason) _ r h (done _ _)

reconcile_state-IsDone :
    (now id : ℕ) (user : User) (ps : List Period) (t : ℕ) (reason : Str) (o : Option StateRecord)
    (store : Store)
    → IsComplete user
    → IsSafe reason
    → get_state user.id store ≡ o
    → IsDone (reconcile_state now id user ps t reason o store)
unfolding reconcile_state
reconcile_state-IsDone now id user ps t reason none store c r g =
    let (p, e, safe) = natural-Projected user ps t c in
    IsDone-bind (natural_projection user ps t) _ p e (
      create_state-IsDone now id user.id p.state p.period _ t store
        (chosen-IsSafe reason p.reason r safe) g)
reconcile_state-IsDone now id user ps t reason (some current) store c r g =
    let (p, e, safe) = natural-Projected user ps t c in
    IsDone-if (is_halted current.state) _ _ (done store current) (
      IsDone-bind (natural_projection user ps t) _ p e (
        IsDone-if (same_projection current p) _ _ (done store current) (
          transition-IsDone now id current p.state p.period _ t store
            (chosen-IsSafe reason _ r (transition_reason-IsSafe current p safe)))))

-- A reconciliation at an instant in UTC returns a row, whatever the tables hold, for a user that
-- is found, whose trial has an expiry if it was started, and for a reason that is accepted.
pub reconcile-IsDone :
    (now id u t : ℕ) (reason : Str) (store : Store) (user : User)
    → find_user u store ≡ some user
    → IsComplete user
    → IsSafe reason
    → (later : Store) × (s : StateRecord) × (reconcile now id u (some (aware t)) reason store
        ≡ ok (later, s))
unfolding reconcile effective aware_utc
reconcile-IsDone now id u t reason store user f c r =
    let there : or_missing (find_user u store) ≡ ok user = ap or_missing f in
    let own : user.id ≡ u = find_user-id u store user there in
    IsDone-bind (or_missing (find_user u store)) _ user there (
      reconcile_state-IsDone now id user (periods_of u store) t reason (get_state u store) store c r
        (rw own refl))
