-- ===== src/Subscriptions/Methods.antt =====
-- Each method of `SubscriptionRepository`, when it succeeds, is a write of the user's state.
use footjob.Base.{
  transition_error, ℕ, ◌+◌, ◌≡◌, refl, ◌∙◌, not, Option, none, some, List, Str, ◌==◌, ==→eq, Result,
  ok, arith, Datetime, aware_utc, ◌>>=◌, guard, is_some, find, find-key, user_not_found,
}
use footjob.Billing.{SubscriptionState, paused, cancelled, paid_active, utc}
use footjob.Subscriptions.Tables.{
  Store, StateRecord, User, Period, get_state, find_user, safe_reason, state_values, periods_of,
}
use footjob.Subscriptions.{
  insert_state, record_event, create_state, transition, reconcile_state, reconcile,
  state_for_transition, pause, cancel, resume, resume_state, is_halted, natural_projection,
  same_projection, state_eq, can_cancel, or_missing, effective, Projection,
}
use footjob.Subscriptions.Audit.{
  Write, kept, created, moved, user_id-state_values, state_version-state_values,
}
use footjob.Subscriptions.Outcome.{
  Succeeds, Succeeds-pure, Succeeds-err, Succeeds-bind, Succeeds-if,
}
use footjob.Subscriptions.Backing.{
  Fits, bare, Fits-Backed, Natural-Fits, natural_projection-Natural,
}

fits :
    {ps : List Period} (user : User) (at : ℕ) (p : Projection)
    → natural_projection user ps at ≡ ok p
    → Fits ps p.state p.period
fits user at p h = Natural-Fits (natural_projection-Natural user _ at p h)

module _ {u : ℕ} {store : Store} where
  inserted_state :
      (now id : ℕ) (state : SubscriptionState) (period : Option Period) (reason : Str) (at : ℕ)
      (o : Option StateRecord)
      → Fits (periods_of u store) state period
      → get_state u store ≡ o
      → Succeeds (Write u store) (elim o [
        | some current ↦ ok (store, current)
        | none ↦
            let current = state_values now now u state 1 period reason at in
            ok (record_event now id current none reason at (insert_state current store), current)
      ])
  inserted_state now id state period reason at (some c) f h = Succeeds-pure (kept c h)
  inserted_state now id state period reason at none f h = Succeeds-pure (
      created now id _ reason at (user_id-state_values now now u state 1 period reason at)
        (state_version-state_values now now u state 1 period reason at)
        (Fits-Backed now now u 1 reason at f) h)

  create_state-Write :
      (now id : ℕ) (state : SubscriptionState) (period : Option Period) (reason : Str) (at : ℕ)
      → Fits (periods_of u store) state period
      → Succeeds (Write u store) (create_state now id u state period reason at store)
  unfolding create_state
  create_state-Write now id state period reason at f =
      Succeeds-bind (safe_reason reason) _
        λ reason' _. inserted_state now id state period reason' at (get_state u store) f refl

  transition-Write :
      {middle : Store} {current : StateRecord} (now id : ℕ) (state : SubscriptionState)
      (period : Option Period) (reason : Str) (at : ℕ)
      → Fits (periods_of u store) state period
      → Write u store middle current
      → Succeeds (Write u store) (transition now id current state period reason at middle)
  unfolding transition
  transition-Write {current = current} now id state period reason at f w =
      Succeeds-bind (safe_reason reason) _ λ reason' _. Succeeds-pure (
        moved now id _ reason' at
          (user_id-state_values current.created_at now current.user_id state
            (current.state_version + 1) period reason' at)
          (state_version-state_values current.created_at now current.user_id state
              (current.state_version + 1) period reason' at
            ∙ omega arith)
          (Fits-Backed current.created_at now current.user_id (current.state_version + 1) reason' at
            f)
          w)

  reconcile_state-Write :
      (now id : ℕ) (user : User) (periods : List Period) (at : ℕ) (reason : Str)
      (o : Option StateRecord)
      → periods ≡ periods_of u store
      → user.id ≡ u
      → get_state u store ≡ o
      → Succeeds (Write u store) (reconcile_state now id user periods at reason o store)
  unfolding reconcile_state
  reconcile_state-Write now id user periods at reason none q e h =
      Succeeds-bind (natural_projection user periods at) _
        λ p n. rw e (create_state-Write now id p.state p.period _ at (fits user at p (rw q at n)))
  reconcile_state-Write now id user periods at reason (some current) q e h =
      Succeeds-if (is_halted current.state) _ _ (λ _. Succeeds-pure (kept current h))
        λ _. Succeeds-bind (natural_projection user periods at) _ λ p n.
          Succeeds-if (same_projection current p) _ _ (λ _. Succeeds-pure (kept current h))
            λ _.
              transition-Write now id p.state p.period _ at (fits user at p (rw q at n))
                (kept current h)

pub find_user-id :
    (u : ℕ) (store : Store) (user : User) → or_missing (find_user u store) ≡ ok user → user.id ≡ u
unfolding find_user
find_user-id u store user h =
    ==→eq user.id u
      (find-key (λ x. x.id == u) store.users user (found (find (λ x. x.id == u) store.users) h))
  where
    found : (o : Option User) → or_missing o ≡ ok user → o ≡ some user
    found none e = ground arith
    found (some x) e = ground arith

pub reconcile-Write :
    (now id u : ℕ) (at : Option Datetime) (reason : Str) (store : Store)
    → Succeeds (Write u store) (reconcile now id u at reason store)
unfolding reconcile
reconcile-Write now id u at reason store =
    Succeeds-bind (or_missing (find_user u store)) _ λ user e.
      Succeeds-bind (effective now at) _ λ t _.
        reconcile_state-Write now id user _ t reason _ refl (find_user-id u store user e) refl

state_for_transition-Write :
    (now id u : ℕ) (at : Datetime) (o : Option StateRecord) (store : Store)
    → get_state u store ≡ o
    → Succeeds (Write u store) (state_for_transition now id u at o store)
unfolding state_for_transition
state_for_transition-Write now id u at (some c) store h =
    Succeeds-bind (guard (is_some (find_user u store)) user_not_found) _
      λ _ _. Succeeds-pure (kept c h)
state_for_transition-Write now id u at none store h =
    Succeeds-bind (guard (is_some (find_user u store)) user_not_found) _
      λ _ _. reconcile-Write now id u (some at) _ store

-- A method that goes on from the state that `_state_for_transition` gives.
continued :
    {u : ℕ} {store : Store} (r : Result (Store × StateRecord))
    (f : Store × StateRecord → Result (Store × StateRecord))
    → Succeeds (Write u store) r
    → ((middle : Store) (current : StateRecord)
        → Write u store middle current
        → Succeeds (Write u store) (f (middle, current)))
    → Succeeds (Write u store) (r >>= f)
continued r f w next =
    Succeeds-bind r f λ (middle, current) e. next middle current (w.holds middle current e)

pub pause-Write :
    (now id id' u : ℕ) (at : Datetime) (reason : Str) (store : Store)
    → Succeeds (Write u store) (pause now id id' u at reason store)
unfolding pause
pause-Write now id id' u at reason store =
    continued _ _ (state_for_transition-Write now id u at _ store refl) λ middle current w.
      Succeeds-if (state_eq current.state paused) _ _ (λ _. Succeeds-pure w)
        λ _.
          Succeeds-if (not (state_eq current.state paid_active)) _ _
            (λ _. Succeeds-err transition_error)
            λ _. transition-Write now id' paused none reason (utc at) (bare _ refl) w

pub cancel-Write :
    (now id id' u : ℕ) (at : Datetime) (reason : Str) (store : Store)
    → Succeeds (Write u store) (cancel now id id' u at reason store)
unfolding cancel
cancel-Write now id id' u at reason store =
    continued _ _ (state_for_transition-Write now id u at _ store refl) λ middle current w.
      Succeeds-if (state_eq current.state cancelled) _ _ (λ _. Succeeds-pure w)
        λ _.
          Succeeds-if (not (can_cancel current.state)) _ _ (λ _. Succeeds-err transition_error)
            λ _. transition-Write now id' cancelled none reason (utc at) (bare _ refl) w

resumed :
    (now id u : ℕ) (user : User) (at : Datetime) (t : ℕ) (reason : Str) (store : Store)
    (o : Option StateRecord)
    → get_state u store ≡ o
    → Succeeds (Write u store) (elim o [
      | none ↦ reconcile now id u (some at) reason store
      | some current ↦ resume_state now id user (periods_of u store) t reason current store
    ])
unfolding resume_state
resumed now id u user at t reason store none h = reconcile-Write now id u (some at) reason store
resumed now id u user at t reason store (some current) h =
    Succeeds-if (not (is_halted current.state)) _ _ (λ _. Succeeds-pure (kept current h))
      λ _.
        Succeeds-bind (natural_projection user (periods_of u store) t) _
          λ p n. transition-Write now id p.state p.period _ t (fits user t p n) (kept current h)

pub resume-Write :
    (now id u : ℕ) (at : Datetime) (reason : Str) (store : Store)
    → Succeeds (Write u store) (resume now id u at reason store)
unfolding resume
resume-Write now id u at reason store =
    Succeeds-bind (or_missing (find_user u store)) _
      λ user _. Succeeds-bind (aware_utc at) _ λ t _. resumed now id u user at t reason store _ refl
