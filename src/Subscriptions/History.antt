-- ===== src/Subscriptions/History.antt =====
-- Each write of a subscription's state keeps the users' histories.
use footjob.Base.{
  ℕ, suc, ◌≤◌, ◌<◌, ◌≡◌, ◌≢◌, refl, sym, ◌∙◌, ap, subst, Bool, false, ◌&&◌, Option, none, some,
  List, [], ◌∷◌, ◌++◌, Str, ◌==◌, ==→eq, select, find, any, update_where, select-append, any-select,
  arith, Bool-cases, inl, inr,
}
use mathlib.Core.List.{append-nil}
use mathlib.Core.Path.{subst₂}
use footjob.Billing.{SubscriptionState}
use footjob.Subscriptions.Tables.{
  Store, StateRecord, EventRecord, of_user, same_version, get_state, events_of,
}
use footjob.Subscriptions.{insert_state, replace_state, record_event, event_of}
use footjob.Subscriptions.Audit.{
  Write, kept, created, moved, Chain, IsAudited, get_state-Write, get_state-user,
  get_state-record_event, get_state-insert, get_state-replace,
}

abbrev state_of : Option StateRecord → Option SubscriptionState
state_of none = none
state_of (some s) = some s.state

abbrev version_of : Option StateRecord → ℕ
version_of none = 0
version_of (some s) = s.state_version

Chain-append :
    (from : Option SubscriptionState) (v : ℕ) (es : List EventRecord) (o : Option StateRecord)
    (e : EventRecord) (s : StateRecord)
    → Chain from v es o
    → e.from_state ≡ state_of o
    → e.state_version ≡ suc (version_of o)
    → s.state ≡ e.to_state
    → s.state_version ≡ e.state_version
    → Chain from v (es ++ e ∷ []) (some s)
Chain-append from v [] none e s c f n t m =
    (ground arith, ground arith, (ground arith, ground arith))
Chain-append from v [] (some x) e s c f n t m =
    (ground arith, ground arith, (ground arith, ground arith))
Chain-append from v (x ∷ es) o e s c f n t m =
    (c.0, c.1, Chain-append (some x.to_state) (suc v) es o e s c.2 f n t m)

Chain-le :
    (from : Option SubscriptionState) (v : ℕ) (es : List EventRecord) (o : Option StateRecord)
    → Chain from v es o
    → v ≤ version_of o
Chain-le from v [] none c = omega arith
Chain-le from v [] (some s) c = omega arith
Chain-le from v (e ∷ es) o c = omega (arith, Chain-le (some e.to_state) (suc v) es o c.2)

abbrev has_version : ℕ → EventRecord → Bool
has_version n e = e.state_version == n

Chain-fresh :
    (from : Option SubscriptionState) (v : ℕ) (es : List EventRecord) (o : Option StateRecord)
    (n : ℕ)
    → Chain from v es o
    → version_of o < n
    → any (has_version n) es ≡ false
unfolding any
Chain-fresh from v [] o n c h = refl
Chain-fresh from v (e ∷ es) o n c h = ground (
  arith,
  Chain-le (some e.to_state) (suc v) es o c.2,
  Chain-fresh (some e.to_state) (suc v) es o n c.2,
)

-- The version after the user's row has no event yet.
next_is_fresh :
    (u n : ℕ) (store : Store)
    → IsAudited u store
    → version_of (get_state u store) < n
    → any (λ e. e.user_id == u && e.state_version == n) store.events ≡ false
unfolding events_of
next_is_fresh u n store a h =
    any-select (λ e. e.user_id == u) (has_version n) store.events
    ∙ Chain-fresh none 0 _ (get_state u store) n a h

-- An event of a new version is appended to its user's events, and to no other's.
events-record_event :
    (now id : ℕ) (s : StateRecord) (from : Option SubscriptionState) (reason : Str) (at : ℕ)
    (store : Store)
    → any (same_version (event_of now id s from reason at)) store.events ≡ false
    → events_of s.user_id (record_event now id s from reason at store)
      ≡ events_of s.user_id store ++ event_of now id s from reason at ∷ []
unfolding record_event events_of select
events-record_event now id s from reason at store fresh =
    let e = event_of now id s from reason at in
    rw fresh (select-append (λ f. f.user_id == s.user_id) store.events (e ∷ []) ∙ ground arith)

other_user : (u : ℕ) (e : EventRecord) → e.user_id ≢ u → select (λ f. f.user_id == u) (e ∷ []) ≡ []
unfolding select
other_user u e h = ground arith

events-other :
    (u now id : ℕ) (s : StateRecord) (from : Option SubscriptionState) (reason : Str) (at : ℕ)
    (store : Store)
    → s.user_id ≢ u
    → events_of u (record_event now id s from reason at store) ≡ events_of u store
unfolding record_event events_of
events-other u now id s from reason at store other =
    let e = event_of now id s from reason at in
    elim (Bool-cases (any (same_version e) store.events)) [
      | inl seen ↦ rw seen
      | inr fresh ↦ rw fresh (
          select-append (λ f. f.user_id == u) store.events (e ∷ [])
          ∙ ap (λ z. select (λ f. f.user_id == u) store.events ++ z) (other_user u e other)
          ∙ append-nil _)
    ]

get_state-insert_other :
    (u : ℕ) (s : StateRecord) (store : Store)
    → s.user_id ≢ u
    → get_state u (insert_state s store) ≡ get_state u store
unfolding get_state insert_state find
get_state-insert_other u s store other = ground (arith, find_last store.states)
  where
    find_last : (xs : List StateRecord) → find (of_user u) (xs ++ s ∷ []) ≡ find (of_user u) xs
    find_last [] = ground arith
    find_last (x ∷ xs) = ground (arith, find_last xs)

get_state-replace_other :
    (u : ℕ) (s : StateRecord) (store : Store)
    → s.user_id ≢ u
    → get_state u (replace_state s store) ≡ get_state u store
unfolding get_state replace_state find update_where
get_state-replace_other u s store other = same store.states
  where
    same :
        (xs : List StateRecord)
        → find (of_user u) (update_where (of_user s.user_id) (λ _. s) xs) ≡ find (of_user u) xs
    same [] = refl
    same (x ∷ xs) = ground (arith, same xs)

-- The row `s`, written over a store whose user has the row `o`, with its event.
module _ (u now id : ℕ) (s : StateRecord) (o : Option StateRecord) (reason : Str) (at : ℕ)
    (store later : Store) (own : s.user_id ≡ u) (next : s.state_version ≡ suc (version_of o))
    (before : get_state u store ≡ o) (same : later.events ≡ store.events)
    (row : get_state u later ≡ some s) (audited : IsAudited u store) where
  written_events :
      events_of u (record_event now id s (state_of o) reason at later)
      ≡ events_of u store ++ event_of now id s (state_of o) reason at ∷ []
  written_events =
      subst
        (λ z.
          events_of z (record_event now id s (state_of o) reason at later)
          ≡ events_of z store ++ event_of now id s (state_of o) reason at ∷ [])
        own
        (events-record_event now id s (state_of o) reason at later (rw (same, own) fresh) ∙ carried)
    where
      fresh : any (λ e. e.user_id == u && e.state_version == s.state_version) store.events ≡ false
      fresh = next_is_fresh u s.state_version store audited (rw before (omega arith))

      carried :
          events_of s.user_id later ++ event_of now id s (state_of o) reason at ∷ []
          ≡ events_of s.user_id store ++ event_of now id s (state_of o) reason at ∷ []
      carried = unfold events_of in rw same

  written-IsAudited : IsAudited u (record_event now id s (state_of o) reason at later)
  written-IsAudited =
      subst₂ (Chain none 0) (sym written_events)
        (sym (get_state-record_event u now id s (state_of o) reason at later ∙ row))
        (Chain-append none 0 (events_of u store) o _ s (rw before at audited) refl next refl refl)

same_events-insert :
    (s : StateRecord) (store : Store) → (insert_state s store).events ≡ store.events
unfolding insert_state
same_events-insert s store = refl

same_events-replace :
    (s : StateRecord) (store : Store) → (replace_state s store).events ≡ store.events
unfolding replace_state
same_events-replace s store = refl

own_history :
    {u : ℕ} {store later : Store} {s : StateRecord}
    → Write u store later s
    → IsAudited u store
    → IsAudited u later
own_history (kept s h) a = a
own_history {u} {store} (created now id s reason at own v b h) a =
    written-IsAudited u now id s none reason at store (insert_state s store) own v h
      (same_events-insert s store) (get_state-insert u s store own h) a
own_history {u} (moved {middle} {current} now id s reason at own v b w) a =
    let g = get_state-Write w in
    let e = own ∙ get_state-user u middle current g in
    written-IsAudited u now id s (some current) reason at middle (replace_state s middle) e v g
      (same_events-replace s middle) (get_state-replace u s current middle e g) (own_history w a)

pub Write-user :
    {u : ℕ} {store later : Store} {s : StateRecord} → Write u store later s → s.user_id ≡ u
Write-user {u} {later = later} {s} w = get_state-user u later s (get_state-Write w)

events_of-same : (w : ℕ) (a b : Store) → a.events ≡ b.events → events_of w a ≡ events_of w b
unfolding events_of
events_of-same w a b e = rw e

unaffected :
    (w : ℕ) (a b : Store)
    → events_of w a ≡ events_of w b
    → get_state w a ≡ get_state w b
    → IsAudited w b
    → IsAudited w a
unaffected w a b p q h = subst₂ (Chain none 0) (sym p) (sym q) h

other_history :
    {u : ℕ} {store later : Store} {s : StateRecord} (w : ℕ)
    → Write u store later s
    → u ≢ w
    → IsAudited w store
    → IsAudited w later
other_history w (kept s h) ne a = a
other_history {u} {store} w (created now id s reason at own v b h) ne a =
    let ne' : s.user_id ≢ w = λ e. ne (sym own ∙ e) in
    let inserted = insert_state s store in
    unaffected w _ store
      (events-other w now id s none reason at inserted ne'
        ∙ events_of-same w inserted store (same_events-insert s store))
      (get_state-record_event w now id s none reason at inserted
        ∙ get_state-insert_other w s store ne')
      a
other_history {u} w (moved {middle} {current} now id s reason at own v b wr) ne a =
    let ne' : s.user_id ≢ w = λ e. ne (sym (own ∙ Write-user wr) ∙ e) in
    let replaced = replace_state s middle in
    unaffected w _ middle
      (events-other w now id s (some current.state) reason at replaced ne'
        ∙ events_of-same w replaced middle (same_events-replace s middle))
      (get_state-record_event w now id s (some current.state) reason at replaced
        ∙ get_state-replace_other w s middle ne')
      (other_history w wr ne a)

-- A write keeps the history of every user.
pub Write-IsAudited :
    {u : ℕ} {store later : Store} {s : StateRecord} (w : ℕ)
    → Write u store later s
    → IsAudited w store
    → IsAudited w later
Write-IsAudited {u} {store} {later} w wr a = elim (Bool-cases (u == w)) [
  | inl e ↦
      let p = ==→eq u w e in
      subst (λ z. IsAudited z later) p (own_history wr (subst (λ z. IsAudited z store) (sym p) a))
  | inr e ↦ other_history w wr (λ p. ground arith) a
]
