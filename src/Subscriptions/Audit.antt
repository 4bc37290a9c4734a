-- ===== src/Subscriptions/Audit.antt =====
-- The events of a user tell the history of the user's state: every version has its event, and each
-- event starts where the one before it ended.
use mathlib.Core.Option
use footjob.Base.{
  ℕ, suc, ◌≡◌, refl, ◌∙◌, ap, Option, none, some, List, [], ◌∷◌, Str, ==→eq, find, updated,
  find-update_where, find-append_none, find-key, arith,
}
use footjob.Billing.{SubscriptionState}
use footjob.Subscriptions.Tables.{
  Store, Period, StateRecord, EventRecord, of_user, get_state, events_of, state_values, periods_of,
}
use footjob.Subscriptions.Backing.{Backed}
use footjob.Subscriptions.{insert_state, replace_state, record_event}

-- How a method changed the state of a user: not at all, by a first row, or by a transition of the
-- row that it had found or made.
pub data Write (u : ℕ) (store : Store) : Store → StateRecord → Type 0 where
  kept : (s : StateRecord) → get_state u store ≡ some s → Write u store store s
  created :
      (now event_id : ℕ) (s : StateRecord) (reason : Str) (at : ℕ)
      → s.user_id ≡ u
      → s.state_version ≡ 1
      → Backed (periods_of u store) s
      → get_state u store ≡ none
      → Write u store (record_event now event_id s none reason at (insert_state s store)) s
  moved :
      {middle : Store} {current : StateRecord} (now event_id : ℕ) (s : StateRecord) (reason : Str)
      (at : ℕ)
      → s.user_id ≡ current.user_id
      → s.state_version ≡ suc current.state_version
      → Backed (periods_of u store) s
      → Write u store middle current
      → Write u store
          (record_event now event_id s (some current.state) reason at (replace_state s middle))
          s

pub user_id-state_values :
    (born now u : ℕ) (state : SubscriptionState) (v : ℕ) (period : Option Period) (reason : Str)
    (at : ℕ)
    → (state_values born now u state v period reason at).user_id ≡ u
unfolding state_values
user_id-state_values born now u state v none reason at = refl
user_id-state_values born now u state v (some p) reason at = refl

pub state_version-state_values :
    (born now u : ℕ) (state : SubscriptionState) (v : ℕ) (period : Option Period) (reason : Str)
    (at : ℕ)
    → (state_values born now u state v period reason at).state_version ≡ v
unfolding state_values
state_version-state_values born now u state v none reason at = refl
state_version-state_values born now u state v (some p) reason at = refl

pub state-state_values :
    (born now u : ℕ) (state : SubscriptionState) (v : ℕ) (period : Option Period) (reason : Str)
    (at : ℕ)
    → (state_values born now u state v period reason at).state ≡ state
unfolding state_values
state-state_values born now u state v none reason at = refl
state-state_values born now u state v (some p) reason at = refl

pub get_state-record_event :
    (u now event_id : ℕ) (s : StateRecord) (from : Option SubscriptionState) (reason : Str) (at : ℕ)
    (store : Store)
    → get_state u (record_event now event_id s from reason at store) ≡ get_state u store
unfolding record_event get_state
get_state-record_event u now event_id s from reason at store = ground arith

pub get_state-user :
    (u : ℕ) (store : Store) (s : StateRecord) → get_state u store ≡ some s → s.user_id ≡ u
unfolding get_state
get_state-user u store s h = ==→eq s.user_id u (find-key (of_user u) store.states s h)

pub get_state-insert :
    (u : ℕ) (s : StateRecord) (store : Store)
    → s.user_id ≡ u
    → get_state u store ≡ none
    → get_state u (insert_state s store) ≡ some s
unfolding get_state insert_state find
get_state-insert u s store e h = find-append_none (of_user u) store.states (s ∷ []) h ∙ own
  where
    own : find (of_user u) (s ∷ []) ≡ some s
    own = ground arith

pub get_state-replace :
    (u : ℕ) (s c : StateRecord) (store : Store)
    → s.user_id ≡ u
    → get_state u store ≡ some c
    → get_state u (replace_state s store) ≡ some s
unfolding get_state replace_state
get_state-replace u s c store e h =
    find-update_where (of_user u) (of_user s.user_id) (λ _. s) (λ x. ground arith) store.states
    ∙ ap (Option.map (updated (of_user s.user_id) (λ _. s))) h
    ∙ ground (arith, get_state-user u store c h)

-- The row that a write returns is the user's row.
pub get_state-Write :
    {u : ℕ} {store later : Store} {s : StateRecord}
    → Write u store later s
    → get_state u later ≡ some s
get_state-Write (kept s h) = h
get_state-Write {u} {store} (created now event_id s reason at e v b h) =
    get_state-record_event u now event_id s none reason at _ ∙ get_state-insert u s store e h
get_state-Write {u} (moved {middle} {current} now event_id s reason at e v b w) =
    let g = get_state-Write w in
    get_state-record_event u now event_id s _ reason at _
    ∙ get_state-replace u s current middle (e ∙ get_state-user u middle current g) g

-- From a state and a version, the events lead to the row.
abbrev pub Chain : Option SubscriptionState → ℕ → List EventRecord → Option StateRecord → Type 0
Chain from v [] none = (from ≡ none) × (v ≡ 0)
Chain from v [] (some s) = (from ≡ some s.state) × (s.state_version ≡ v)
Chain from v (e ∷ es) s =
    (e.from_state ≡ from) × (e.state_version ≡ suc v) × Chain (some e.to_state) (suc v) es s

-- The user's events lead from nothing to the user's row, version by version.
abbrev pub IsAudited : ℕ → Store → Type 0
IsAudited u store = Chain none 0 (events_of u store) (get_state u store)
