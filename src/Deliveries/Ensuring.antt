-- ===== src/Deliveries/Ensuring.antt =====
-- A delivery is ensured once: the call that repeats it finds what the first one left.
use footjob.Base.{==_self, All, Bool, Bool-cases, In, In-All, In-select, List, Option}
use footjob.Base.{Option-cases, Str, Yields, Yields-bind, Yields-err, Yields-guard, Yields-if}
use footjob.Base.{Yields-pure, [], any, ap, arith, bind-ok, false, find, find-any}
use footjob.Base.{find-append_none, found-In, guard, inl, inr, insert_sorted, integrity_error}
use footjob.Base.{none, ok, persistence_conflict, refl, select, select-append, some, sorted}
use footjob.Base.{str_eq, str_eq_self, subst, sym, true, value_error, ℕ, ◌++◌, ◌∙◌, ◌∷◌, ◌≡◌}
use footjob.Base.{◌⊎◌}
use footjob.Jobs.{Table}
use footjob.Deliveries.{Store, MatchTrace, User, LeadCard}
use footjob.Deliveries.Cards.{Digest, ensure, ensure_identity, create}
use footjob.Deliveries.Cards.{
  record_delivery, enqueue_delivery, insert_delivery, validated, new_delivery,
}
use footjob.Deliveries.Cards.{
  validate_existing, same_content, logical_identity, get_by_logical_identity,
}
use footjob.Deliveries.{has_key}
use footjob.Deliveries.Cards.{first_of, created_before, clashes, telegram_chat_id, belongs}
use footjob.Deliveries.Cards.{delivery_schema_version}
use footjob.Deliveries.Row.{Delivery, checks}

-- Every row has the version of the schema that the code writes.
abbrev pub IsCurrent : List Delivery → Type 0
IsCurrent ds = All (λ d. d.schema_version ≡ delivery_schema_version) ds

first_of-insert_sorted :
    (precedes : Delivery → Delivery → Bool) (d : Delivery) (ds : List Delivery)
    → first_of (insert_sorted precedes d ds) ≡ none
    → ⊥
unfolding first_of insert_sorted
first_of-insert_sorted precedes d [] h = cc
first_of-insert_sorted precedes d (e ∷ ds) h = elim (Bool-cases (precedes e d)) [
  | inl p ↦ let q = rw p at h in cc (q)
  | inr p ↦ let q = rw p at h in cc (q)
]

module _ (match : MatchTrace) (card : LeadCard) where
  not_found-select : (ds : List Delivery) → first_of (sorted created_before ds) ≡ none → ds ≡ []
  unfolding sorted
  not_found-select [] h = refl
  not_found-select (d ∷ ds) h =
      absurd (first_of-insert_sorted created_before d (sorted created_before ds) h)

  -- Without a row of the identity, the new row is the one that is found.
  get_by_logical_identity-append :
      (d : Delivery) (ds : List Delivery)
      → get_by_logical_identity match card ds ≡ none
      → logical_identity match card d ≡ true
      → get_by_logical_identity match card (ds ++ d ∷ []) ≡ some d
  unfolding get_by_logical_identity select first_of
  get_by_logical_identity-append d ds h own = rw (
    select-append (logical_identity match card) ds (d ∷ []),
    not_found-select (select (logical_identity match card) ds) h,
    own,
  )

  get_by_logical_identity-In :
      (d : Delivery) (ds : List Delivery)
      → In d ds
      → logical_identity match card d ≡ true
      → get_by_logical_identity match card ds ≡ none
      → ⊥
  unfolding get_by_logical_identity
  get_by_logical_identity-In d ds m own h =
      subst (In d) (not_found-select (select (logical_identity match card) ds) h)
        (In-select (logical_identity match card) ds d m own)

  same_content-logical_identity :
      (user : User) (d : Delivery)
      → same_content match user card d ≡ true
      → d.schema_version ≡ delivery_schema_version
      → logical_identity match card d ≡ true
  unfolding same_content logical_identity
  same_content-logical_identity user d h current =
      let version =
        subst (λ v. str_eq d.schema_version v ≡ true) current (str_eq_self d.schema_version) in
      ground arith

module _ (match : MatchTrace) (user : User) (card : LeadCard) where
  -- What a later call finds in the store.
  abbrev Found : Store → Delivery → Type 0
  Found s d =
      (get_by_logical_identity match card s.deliveries ≡ some d)
      × (same_content match user card d ≡ true)

  -- What a validation lets through.
  record Validated (o : Option Delivery) (s : Store) (r : Store × (Delivery × Bool)) : Type 0 where
    pub given : o ≡ some r.1.0
    pub content : same_content match user card r.1.0 ≡ true
    pub store : s ≡ r.0

  validated-Validated :
      (o : Option Delivery) (created : Bool) (s : Store)
      → Yields (Validated o s) (validated o match user card created s)
  unfolding validated validate_existing
  validated-Validated none created s = Yields-err persistence_conflict
  validated-Validated (some d) created s =
      Yields-guard (same_content match user card d) persistence_conflict _
        (λ same. Yields-pure (record { given = refl; content = same; store = refl }))

  -- The insert was skipped on the key, or appended the row.
  abbrev Inserted : Delivery → List Delivery → List Delivery × Bool → Type 0
  Inserted d ds w =
      (ds ≡ w.0) ⊎ ((any (has_key d.idempotency_key) ds ≡ false) × (ds ++ d ∷ [] ≡ w.0))

  insert_delivery-Inserted :
      (d : Delivery) (ds : List Delivery) → Yields (Inserted d ds) (insert_delivery d ds)
  unfolding insert_delivery
  insert_delivery-Inserted d ds = Yields-guard (checks d) integrity_error _ (λ checked.
      Yields-if (any (has_key d.idempotency_key) ds) _ _ (λ old. Yields-pure (inl refl))
        (λ fresh.
          Yields-if (any (clashes d) ds) _ _ (λ clash. Yields-err integrity_error)
            (λ apart. Yields-pure (inr (fresh, refl)))))

  none_with :
      (test : Delivery → Bool) (ds : List Delivery) → any test ds ≡ false → find test ds ≡ none
  none_with test ds h = elim (Option-cases (find test ds)) [
    | inl n ↦ n
    | inr (d, f) ↦ let g = find-any test ds d f in cc
  ]

  found_new :
      (d : Delivery) (ds : List Delivery)
      → any (has_key d.idempotency_key) ds ≡ false
      → find (has_key d.idempotency_key) (ds ++ d ∷ []) ≡ some d
  unfolding find
  found_new d ds h =
      find-append_none (has_key d.idempotency_key) ds (d ∷ []) (none_with _ ds h)
      ∙ rw (str_eq_self d.idempotency_key)

  some_of : (x y : Delivery) → ◌≡◌ {A = Option Delivery} (some x) (some y) → x ≡ y
  some_of x y e = cc

  module _ (s : Store) (current : IsCurrent s.deliveries) where
    insert_delivery-Found :
        (d : Delivery) (w : List Delivery × Bool) (r : Delivery)
        → get_by_logical_identity match card s.deliveries ≡ none
        → logical_identity match card d ≡ true
        → Inserted d s.deliveries w
        → find (has_key d.idempotency_key) w.0 ≡ some r
        → same_content match user card r ≡ true
        → get_by_logical_identity match card w.0 ≡ some r
    insert_delivery-Found d w r absent own (inl old) f same =
        let m =
          found-In (has_key d.idempotency_key) s.deliveries r
            (subst (λ ds. find (has_key d.idempotency_key) ds ≡ some r) (sym old) f) in
        absurd (
          get_by_logical_identity-In match card r s.deliveries m
            (same_content-logical_identity match card user r same
              (In-All (λ x. x.schema_version ≡ delivery_schema_version) s.deliveries current r m))
            absent)
    insert_delivery-Found d w r absent own (inr (fresh, e)) f same =
        let at_end = found_new d s.deliveries fresh in
        let g = subst (λ ds. find (has_key d.idempotency_key) ds ≡ some r) (sym e) f in
        let same_row = some_of d r (sym at_end ∙ g) in
        subst (λ ds. get_by_logical_identity match card ds ≡ some r) e
          (get_by_logical_identity-append match card d s.deliveries absent own ∙ ap some same_row)

    record_delivery-Found :
        (d : Delivery) (jobs : Table)
        → get_by_logical_identity match card s.deliveries ≡ none
        → logical_identity match card d ≡ true
        → Yields (λ r. Found r.0 r.1.0) (record_delivery d match user card jobs s)
    unfolding record_delivery
    record_delivery-Found d jobs absent own =
        Yields-bind (insert_delivery d s.deliveries) _
          (λ w q. recorded w ((insert_delivery-Inserted d s.deliveries).holds w q))
      where
        recorded :
            (w : List Delivery × Bool)
            → Inserted d s.deliveries w
            → Yields
                (λ r. Found r.0 r.1.0)
                (validated
                  (find (has_key d.idempotency_key) w.0)
                  match
                  user
                  card
                  w.1
                  (record { deliveries = w.0; jobs = jobs }))
        recorded w how = record {
          holds = λ r e.
              let v =
                (validated-Validated _ w.1 (record { deliveries = w.0; jobs = jobs })).holds r e in
              (
                ap (λ z. get_by_logical_identity match card z.deliveries) (sym v.store)
                    ∙ insert_delivery-Found d w r.1.0 absent own how v.given v.content,
                v.content,
              );
        }

    new_delivery-logical_identity :
        (now id : ℕ) (key chat_id : Str) (job_id rendered_at : ℕ)
        → logical_identity match card
            (new_delivery now id key chat_id job_id match user card rendered_at)
          ≡ true
    unfolding logical_identity new_delivery str_eq
    new_delivery-logical_identity now id key chat_id job_id rendered_at = rw (
      ==_self match.opportunity_id,
      ==_self match.search_profile_id,
      ==_self match.profile_revision,
      str_eq_self card.schema_version,
    )

    ensure_identity-Found :
        (digest : Digest) (now id job_id : ℕ) (chat_id : Str) (rendered_at : ℕ)
        → (o : Option Delivery) → get_by_logical_identity match card s.deliveries ≡ o
        → Yields
            (λ r. Found r.0 r.1.0)
            (ensure_identity digest now id job_id chat_id match user card rendered_at s o)
    unfolding ensure_identity create
    ensure_identity-Found digest now id job_id chat_id rendered_at (some d) found = record {
      holds = λ r e.
          let v = (validated-Validated (some d) false s).holds r e in
          (
            ap (λ z. get_by_logical_identity match card z.deliveries) (sym v.store)
                ∙ found
                ∙ v.given,
            v.content,
          );
    }
    ensure_identity-Found digest now id job_id chat_id rendered_at none absent =
        Yields-bind (enqueue_delivery now id job_id _ s.jobs) _ (λ queue e.
          record_delivery-Found _ queue.0 absent
            (new_delivery-logical_identity now id _ chat_id queue.1 rendered_at))

    -- Where every stored delivery has the schema version that the code writes, an ensure that
    -- returned can be repeated at any time, with fresh identifiers and another time of rendering:
    -- it returns the same delivery as not created and leaves the deliveries and the jobs as they
    -- are.
    pub ensure_again :
        (digest : Digest) (now id job_id rendered_at later id' job_id' rendered_later : ℕ)
        {s' : Store} {d : Delivery} {created : Bool}
        → ensure digest now id job_id match user card rendered_at s ≡ ok (s', (d, created))
        → ensure digest later id' job_id' match user card rendered_later s' ≡ ok (s', (d, false))
    unfolding ensure ensure_identity validated validate_existing
    ensure_again digest now id job_id rendered_at later id' job_id' rendered_later {s'} {d}
          {created} h =
        let (chat_id, chat, rest) = bind-ok (telegram_chat_id user) _ h in
        let (done, own, inner) = bind-ok (guard (belongs match card) value_error) _ rest in
        let found =
          (ensure_identity-Found digest now id job_id chat_id rendered_at
              (get_by_logical_identity match card s.deliveries) refl).holds
            (s', (d, created)) inner in
        rw (chat, own, found.0, found.1)
