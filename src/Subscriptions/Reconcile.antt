-- ===== src/Subscriptions/Reconcile.antt =====
-- What `reconcile` leaves behind.
use footjob.Base.{
  ℕ, ◌+◌, ◌≡◌, refl, sym, ◌∙◌, true, ◌&&◌, Option, none, some, List, Str, Result, ok, arith,
  Bool-cases, inl, inr, aware, aware_utc, ◌>>=◌,
}
use footjob.Billing.{SubscriptionState}
use footjob.Subscriptions.Tables.{
  Store, StateRecord, User, Period, get_state, find_user, safe_reason, state_values, periods_of,
}
use footjob.Subscriptions.{
  insert_state, replace_state, record_event, create_state, transition, reconcile_state, reconcile,
  is_halted, natural_projection, same_projection, state_eq, period_id, option_eq, or_missing,
  effective, Projection,
}
use footjob.Subscriptions.Outcome.{Succeeds, Succeeds-pure, Succeeds-bind, Succeeds-if}
use footjob.Subscriptions.Audit.{Write, kept, created, moved, get_state-Write, state-state_values}
use footjob.Subscriptions.Methods.{reconcile-Write, find_user-id}

-- The columns that reconciling does not touch.
pub record SameInputs (a b : Store) : Type 0 where
  pub users : b.users ≡ a.users
  pub periods : b.periods ≡ a.periods

record_event-SameInputs :
    (now id : ℕ) (s : StateRecord) (from : Option SubscriptionState) (reason : Str) (at : ℕ)
    (store : Store)
    → SameInputs store (record_event now id s from reason at store)
unfolding record_event
record_event-SameInputs now id s from reason at store = record {
  users = ground arith;
  periods = ground arith;
}

pub Write-SameInputs :
    {u : ℕ} {store later : Store} {s : StateRecord} → Write u store later s → SameInputs store later
unfolding insert_state replace_state
Write-SameInputs (kept s h) = record { users = refl; periods = refl }
Write-SameInputs {store = store} (created now id s reason at e v b h) =
    let p = record_event-SameInputs now id s none reason at (insert_state s store) in
    record { users = p.users; periods = p.periods }
Write-SameInputs (moved {middle} {current} now id s reason at e v b w) =
    let p =
      record_event-SameInputs now id s (some current.state) reason at (replace_state s middle) in
    let q = Write-SameInputs w in
    record { users = p.users ∙ q.users; periods = p.periods ∙ q.periods }

-- The row that `reconcile` returns: a halted one is the stored one, and any other has the state
-- and the period of the natural projection at the instant.
pub data Reconciled (user : User) (ps : List Period) (t : ℕ) (store later : Store) (s : StateRecord)
    : Type 0 where
  stopped : is_halted s.state ≡ true → later ≡ store → Reconciled user ps t store later s
  projected :
      (p : Projection)
      → natural_projection user ps t ≡ ok p
      → s.state ≡ p.state
      → s.current_period_id ≡ period_id p.period
      → Reconciled user ps t store later s

pub period_id-state_values :
    (born now u : ℕ) (state : SubscriptionState) (v : ℕ) (period : Option Period) (reason : Str)
    (at : ℕ)
    → (state_values born now u state v period reason at).current_period_id ≡ period_id period
unfolding state_values
period_id-state_values born now u state v none reason at = refl
period_id-state_values born now u state v (some p) reason at = refl

pub state_eq→eq : (a b : SubscriptionState) → state_eq a b ≡ true → a ≡ b
state_eq→eq a b h = ground arith

option_eq→eq : (a b : Option ℕ) → option_eq a b ≡ true → a ≡ b
option_eq→eq a b h = ground arith

same_parts :
    (s : StateRecord) (p : Projection)
    → same_projection s p ≡ true
    → (s.state ≡ p.state) × (s.current_period_id ≡ period_id p.period)
unfolding same_projection
same_parts s p h = (
  state_eq→eq s.state p.state (ground arith),
  option_eq→eq s.current_period_id (period_id p.period) (ground arith),
)

module _ {user : User} {ps : List Period} {t : ℕ} {store : Store} where
  inserted_projection :
      (now id u : ℕ) (p : Projection) (reason : Str) (at : ℕ) (middle : Store)
      → get_state u middle ≡ none
      → natural_projection user ps t ≡ ok p
      → Succeeds
          (Reconciled user ps t store)
          (create_state now id u p.state p.period reason at middle)
  unfolding create_state
  inserted_projection now id u p reason at middle h n =
      Succeeds-bind (safe_reason reason) _ λ reason' _. rw h (
        Succeeds-pure (
          projected p n (state-state_values now now u p.state 1 p.period reason' at)
            (period_id-state_values now now u p.state 1 p.period reason' at)))

  moved_projection :
      (now id : ℕ) (current : StateRecord) (p : Projection) (reason : Str) (at : ℕ) (middle : Store)
      → natural_projection user ps t ≡ ok p
      → Succeeds
          (Reconciled user ps t store)
          (transition now id current p.state p.period reason at middle)
  unfolding transition
  moved_projection now id current p reason at middle n =
      Succeeds-bind (safe_reason reason) _ λ reason' _. Succeeds-pure (
        projected p n
          (state-state_values current.created_at now current.user_id p.state
            (current.state_version + 1) p.period reason' at)
          (period_id-state_values current.created_at now current.user_id p.state
            (current.state_version + 1) p.period reason' at))

reconcile_state-Reconciled :
    (now id : ℕ) (user : User) (ps : List Period) (t : ℕ) (reason : Str) (o : Option StateRecord)
    (store : Store)
    → get_state user.id store ≡ o
    → Succeeds (Reconciled user ps t store) (reconcile_state now id user ps t reason o store)
unfolding reconcile_state
reconcile_state-Reconciled now id user ps t reason none store h =
    Succeeds-bind (natural_projection user ps t) _
      λ p n. inserted_projection now id user.id p _ t store h n
reconcile_state-Reconciled now id user ps t reason (some current) store h =
    Succeeds-if (is_halted current.state) _ _ (λ e. Succeeds-pure (stopped e refl))
      λ _. Succeeds-bind (natural_projection user ps t) _ λ p n.
        Succeeds-if (same_projection current p) _ _
          (λ e. let (a, b) = same_parts current p e in Succeeds-pure (projected p n a b))
          λ _. moved_projection now id current p _ t store n

-- A row that is halted, or that the natural projection describes, is left alone.
reconcile_state-steady :
    (now id : ℕ) (user : User) (ps : List Period) (t : ℕ) (reason : Str) (store later : Store)
    (s : StateRecord)
    → Reconciled user ps t store later s
    → reconcile_state now id user ps t reason (some s) later ≡ ok (later, s)
unfolding reconcile_state
reconcile_state-steady now id user ps t reason store later s (stopped e _) = rw e
reconcile_state-steady now id user ps t reason store later s (projected p n a b) =
    elim (Bool-cases (is_halted s.state)) [
      | inl e ↦ rw e
      | inr e ↦ rw (e, n) (rw (same_by_parts s p a b))
    ]
  where
    same_by_parts :
        (s : StateRecord) (p : Projection)
        → s.state ≡ p.state
        → s.current_period_id ≡ period_id p.period
        → same_projection s p ≡ true
    same_by_parts s p a b = unfold same_projection in rw (a, b) (self p.state (period_id p.period))
      where
        self : (x : SubscriptionState) (o : Option ℕ) → (state_eq x x && option_eq o o) ≡ true
        self x o = ground arith

pub found_user :
    (o : Option User) {A : Type 0} (f : User → Result A) {a : A}
    → (or_missing o >>= f) ≡ ok a
    → (user : User) × (o ≡ some user) × (f user ≡ ok a)
found_user none f h = ground arith
found_user (some user) f h = (user, refl, h)

pub reconcile-Reconciled :
    (now id u t : ℕ) (reason : Str) (store later : Store) (s : StateRecord)
    → reconcile now id u (some (aware t)) reason store ≡ ok (later, s)
    → (user : User) × (find_user u store ≡ some user)
      × Reconciled user (periods_of u store) t store later s
unfolding reconcile effective aware_utc
reconcile-Reconciled now id u t reason store later s h =
    let (user, e, r) = found_user (find_user u store) _ h in
    let own : user.id ≡ u = find_user-id u store user (rw e) in
    (user, e, (reconcile_state-Reconciled now id user _ t reason _ store (rw own)).holds later s r)

pub same_user : (u : ℕ) (a b : Store) → SameInputs a b → find_user u b ≡ find_user u a
unfolding find_user
same_user u a b i = rw i.users

same_periods : (u : ℕ) (a b : Store) → SameInputs a b → periods_of u b ≡ periods_of u a
unfolding periods_of
same_periods u a b i = rw i.periods

-- A reconciliation that succeeded, repeated for the same instant at any time and for any reason,
-- returns the same row and changes nothing.
pub reconcile_again :
    (now now' id id' u t : ℕ) (reason reason' : Str) (store later : Store) (s : StateRecord)
    → reconcile now id u (some (aware t)) reason store ≡ ok (later, s)
    → reconcile now' id' u (some (aware t)) reason' later ≡ ok (later, s)
unfolding reconcile effective aware_utc
reconcile_again now now' id id' u t reason reason' store later s h =
    let w = (reconcile-Write now id u (some (aware t)) reason store).holds later s h in
    let i = Write-SameInputs w in
    let (user, e, r) = reconcile-Reconciled now id u t reason store later s h in
    rw (same_user u store later i, e, same_periods u store later i, get_state-Write w)
      (reconcile_state-steady now' id' user _ t reason' store later s r)

-- Without an instant of its own, a reconciliation is for the clock's.
pub reconcile_now :
    (now id u : ℕ) (reason : Str) (s : Store)
    → reconcile now id u none reason s ≡ reconcile now id u (some (aware now)) reason s
unfolding reconcile effective aware_utc
reconcile_now now id u reason s = refl

-- At the same reading of the clock, the second reconciliation changes nothing.
pub reconcile_settled :
    (now id id' u : ℕ) (reason : Str) (store later : Store) (s : StateRecord)
    → reconcile now id u none reason store ≡ ok (later, s)
    → reconcile now id' u none reason later ≡ ok (later, s)
reconcile_settled now id id' u reason store later s h =
    reconcile_now now id' u reason later
    ∙ reconcile_again now now id id' u now reason reason store later s
        (sym (reconcile_now now id u reason store) ∙ h)

pub halted-steady :
    (now id u t : ℕ) (reason : Str) (store later : Store) (s before : StateRecord)
    → get_state u store ≡ some before
    → is_halted before.state ≡ true
    → reconcile now id u (some (aware t)) reason store ≡ ok (later, s)
    → (later ≡ store) × (s ≡ before)
unfolding reconcile reconcile_state effective aware_utc
halted-steady now id u t reason store later s before g e h =
    let (user, f, r) = found_user (find_user u store) _ h in
    let q : ◌≡◌ {A = Result (Store × StateRecord)} (ok (store, before)) (ok (later, s)) =
      rw (g, e) at r in
    (cc, cc)
