-- ===== src/Deliveries/Kept.antt =====
-- Every call keeps the constraints of the table and the deliveries that are done.
use footjob.Base.{All-append, Bool, Distinct-append, Distinct-eq, In, List, Option}
use footjob.Base.{Option-cases, Result, Str, Yields, Yields-bind, Yields-err, Yields-guard}
use footjob.Base.{Yields-if, Yields-pure, [], any, any-weaken, append-In, arith, err, false}
use footjob.Base.{find, find-key, found-In, inl, inr, integrity_error, ltb, none, ok}
use footjob.Base.{persistence_conflict, refl, some, str_eq_flip, true, value_error, ℕ, ◌++◌}
use footjob.Base.{◌∙◌, ◌∷◌, ◌≡◌}
use footjob.Billing.{EntitlementDecision}
use footjob.Jobs.Row.{JobClaim}
use footjob.Jobs.{Table}
use footjob.Deliveries.Cards.{record_delivery, enqueue_delivery, new_delivery, telegram_chat_id}
use footjob.Deliveries.Cards.{
  delivery_idempotency_key, belongs, ensure_identity, get_by_logical_identity,
}
use footjob.Deliveries.{Store, MatchTrace, User, LeadCard, prepare_attempt, mark_sent}
use footjob.Deliveries.Cards.{Digest}
use footjob.Deliveries.{mark_attempt_failed, has_id, has_job, owned, attempt_on}
use footjob.Deliveries.Cards.{ensure}
use footjob.Deliveries.{is_over, prepare_current, sent_now, sent_before, failed_now}
use footjob.Deliveries.Cards.{clashes}
use footjob.Deliveries.{has_key}
use footjob.Deliveries.Cards.{validate_existing, insert_delivery, validated, create}
use footjob.Deliveries.Row.{Delivery, Eligibility, is_final, is_sending, is_sent, checks}
use footjob.Deliveries.Steps.{Call, prepares, marks_sent, marks_failed, ensures, committed, step}
use footjob.Deliveries.Steps.{run, same_id, same_job, same_key, same_trace, IsValid, Keeps}
use footjob.Deliveries.Updates.{update-Keeps, Keeps-refl, job_flip, id_flip, key_flip, trace_flip}
use footjob.Deliveries.Updates.{
  suppressed-Identifies, sending-Identifies, sent-Identifies, failed-Identifies,
}

-- A call's result keeps the table.
abbrev pub Kept {ℓ} : {A : Type ℓ} → Store → Store × A → Type 0
Kept s r = Keeps s.deliveries r.0.deliveries

module _ (now : ℕ) (claim : JobClaim) (s : Store) (v : IsValid s.deliveries) where
  only_id :
      (d : Delivery)
      → In d s.deliveries
      → (x : Delivery) → In x s.deliveries
      → has_id d.id x ≡ true
      → x ≡ d
  only_id d m x n e = Distinct-eq same_id s.deliveries x d id_flip v.ids n m e

  only_owned :
      (d : Delivery)
      → find (owned claim) s.deliveries ≡ some d
      → (x : Delivery) → In x s.deliveries
      → owned claim x ≡ true
      → x ≡ d
  unfolding owned
  only_owned d f x n e =
      let m = found-In (owned claim) s.deliveries d f in
      let k = find-key (owned claim) s.deliveries d f in
      Distinct-eq same_job s.deliveries x d job_flip v.job_ids n m (ground arith)

  owned-waits :
      (d : Delivery) → find (owned claim) s.deliveries ≡ some d → is_final d.status ≡ false
  unfolding owned is_sending is_final
  owned-waits d f = let k = find-key (owned claim) s.deliveries d f in ground arith

  attempt_on-Kept :
      (d : Delivery) (code : Option Str)
      → In d s.deliveries
      → is_final d.status ≡ false
      → Yields (Kept s) (attempt_on now claim d s code)
  unfolding attempt_on
  attempt_on-Kept d none m waits = Yields-bind _ _ (λ s' e.
      Yields-pure (update-Keeps _ _ (sending-Identifies now claim) d s s' v waits (only_id d m) e))
  attempt_on-Kept d (some code) m waits = Yields-bind _ _ (λ s' e.
      Yields-pure
        (update-Keeps _ _ (suppressed-Identifies now claim code) d s s' v waits (only_id d m) e))

  pub prepare_attempt-Kept :
      (row : Eligibility) (entitlement : EntitlementDecision)
      → Yields (Kept s) (prepare_attempt now claim row entitlement s)
  unfolding prepare_attempt prepare_current is_over
  prepare_attempt-Kept row entitlement =
      elim (Option-cases (find (has_job claim.id) s.deliveries)) [
        | inl n ↦ rw n (Yields-err persistence_conflict)
        | inr (d, f) ↦ rw f (
            Yields-if (is_over claim d) _ _ (λ over. Yields-pure (Keeps-refl s.deliveries v))
              (λ ready.
                attempt_on-Kept d _ (found-In (has_job claim.id) s.deliveries d f) (ground arith)))
      ]

  sent_before-Kept : (o : Option Delivery) → Yields (Kept s) (sent_before o s)
  unfolding sent_before
  sent_before-Kept none = Yields-err persistence_conflict
  sent_before-Kept (some d) =
      Yields-if (is_sent d.status) _ _ (λ sent. Yields-pure (Keeps-refl s.deliveries v))
        (λ other. Yields-err persistence_conflict)

  pub mark_sent-Kept : (message_id : ℕ) → Yields (Kept s) (mark_sent now claim message_id s)
  unfolding mark_sent sent_now
  mark_sent-Kept message_id = Yields-guard (ltb 0 message_id) value_error _ (λ positive.
      elim (Option-cases (find (owned claim) s.deliveries)) [
        | inl n ↦ rw n (sent_before-Kept (find (has_job claim.id) s.deliveries))
        | inr (d, f) ↦ rw f (
            Yields-bind _ _ (λ s' e. Yields-pure (
              update-Keeps _ _ (sent-Identifies now claim message_id) d s s' v (owned-waits d f)
                (only_owned d f) e)))
      ])

  pub mark_attempt_failed-Kept :
      (code : Str) → Yields (Kept s) (mark_attempt_failed now claim code s)
  unfolding mark_attempt_failed failed_now
  mark_attempt_failed-Kept code = elim (Option-cases (find (owned claim) s.deliveries)) [
    | inl n ↦ rw n (Yields-err persistence_conflict)
    | inr (d, f) ↦ rw f (
        Yields-bind _ _ (λ s' e. Yields-pure (
          update-Keeps _ _ (failed-Identifies now claim code) d s s' v (owned-waits d f)
            (only_owned d f) e)))
  ]

-- A row that is appended under fresh keys.
appended-Keeps :
    (d : Delivery) (ds : List Delivery)
    → IsValid ds
    → checks d ≡ true
    → any (has_key d.idempotency_key) ds ≡ false
    → any (clashes d) ds ≡ false
    → Keeps ds (ds ++ d ∷ [])
unfolding clashes
appended-Keeps d ds v checked fresh apart = record {
  valid = record {
    checked = All-append _ ds (d ∷ []) v.checked (checked, tt);
    ids =
        Distinct-append same_id ds d (λ x. id_flip x d)
          (any-weaken (same_id d) (clashes d) (λ x h. ground arith) ds apart) v.ids;
    job_ids =
        Distinct-append same_job ds d (λ x. job_flip x d)
          (any-weaken (same_job d) (clashes d) (λ x h. ground arith) ds apart) v.job_ids;
    keys =
        Distinct-append same_key ds d (λ x. key_flip x d)
          (any-weaken (same_key d) (has_key d.idempotency_key)
            (λ x h. str_eq_flip x.idempotency_key d.idempotency_key ∙ h) ds fresh)
          v.keys;
    traces =
        Distinct-append same_trace ds d (λ x. trace_flip x d)
          (any-weaken (same_trace d) (clashes d)
            (λ x h. ground (arith, str_eq_flip x.renderer_schema_version d.renderer_schema_version))
            ds apart)
          v.traces;
  };
  final_rows = λ x m f. append-In ds (d ∷ []) x (inl m);
}

insert_delivery-Keeps :
    (d : Delivery) (ds : List Delivery)
    → IsValid ds
    → Yields (λ r. Keeps ds r.0) (insert_delivery d ds)
unfolding insert_delivery
insert_delivery-Keeps d ds v = Yields-guard (checks d) integrity_error _ (λ checked.
    Yields-if (any (has_key d.idempotency_key) ds) _ _ (λ old. Yields-pure (Keeps-refl ds v))
      (λ fresh.
        Yields-if (any (clashes d) ds) _ _ (λ clash. Yields-err integrity_error)
          (λ apart. Yields-pure (appended-Keeps d ds v checked fresh apart))))

module _ (s : Store) where
  validated-Kept :
      (o : Option Delivery) (match : MatchTrace) (user : User) (card : LeadCard) (created : Bool)
      (s' : Store)
      → Keeps s.deliveries s'.deliveries
      → Yields (Kept s) (validated o match user card created s')
  unfolding validated
  validated-Kept none match user card created s' k = Yields-err persistence_conflict
  validated-Kept (some d) match user card created s' k =
      Yields-bind (validate_existing d match user card) _ (λ same e. Yields-pure k)

  record_delivery-Kept :
      (d : Delivery) (match : MatchTrace) (user : User) (card : LeadCard) (jobs : Table)
      → IsValid s.deliveries
      → Yields (Kept s) (record_delivery d match user card jobs s)
  unfolding record_delivery
  record_delivery-Kept d match user card jobs v =
      Yields-bind (insert_delivery d s.deliveries) _ (λ written q.
        validated-Kept (find (has_key d.idempotency_key) written.0) match user card written.1
          (record { deliveries = written.0; jobs = jobs })
          ((insert_delivery-Keeps d s.deliveries v).holds written q))

  create-Kept :
      (digest : Digest) (now id job_id : ℕ) (chat_id : Str) (match : MatchTrace) (user : User)
      (card : LeadCard) (rendered_at : ℕ)
      → IsValid s.deliveries
      → Yields (Kept s) (create digest now id job_id chat_id match user card rendered_at s)
  unfolding create
  create-Kept digest now id job_id chat_id match user card rendered_at v =
      let key = delivery_idempotency_key digest match card in
      Yields-bind (enqueue_delivery now id job_id key s.jobs) _ (λ queue e.
        record_delivery-Kept (new_delivery now id key chat_id queue.1 match user card rendered_at)
          match user card queue.0 v)

  ensure_identity-Kept :
      (digest : Digest) (now id job_id : ℕ) (chat_id : Str) (match : MatchTrace) (user : User)
      (card : LeadCard) (rendered_at : ℕ)
      → IsValid s.deliveries
      → (o : Option Delivery)
      → Yields
          (Kept s)
          (ensure_identity digest now id job_id chat_id match user card rendered_at s o)
  unfolding ensure_identity
  ensure_identity-Kept digest now id job_id chat_id match user card rendered_at v (some d) =
      validated-Kept (some d) match user card false s (Keeps-refl s.deliveries v)
  ensure_identity-Kept digest now id job_id chat_id match user card rendered_at v none =
      create-Kept digest now id job_id chat_id match user card rendered_at v

  pub ensure-Kept :
      (digest : Digest) (now id job_id : ℕ) (match : MatchTrace) (user : User) (card : LeadCard)
      (rendered_at : ℕ)
      → IsValid s.deliveries
      → Yields (Kept s) (ensure digest now id job_id match user card rendered_at s)
  unfolding ensure
  ensure-Kept digest now id job_id match user card rendered_at v =
      Yields-bind (telegram_chat_id user) _ (λ chat_id e.
        Yields-guard (belongs match card) value_error _ (λ own.
          ensure_identity-Kept digest now id job_id chat_id match user card rendered_at v
            (get_by_logical_identity match card s.deliveries)))

pub committed-Keeps {ℓ} :
    {A : Type ℓ} (s : Store) (r : Result (Store × A))
    → IsValid s.deliveries
    → Yields (Kept s) r
    → Keeps s.deliveries (committed s r).deliveries
committed-Keeps s (ok a) v y = y.holds a refl
committed-Keeps s (err e) v y = Keeps-refl s.deliveries v

step-Keeps :
    (digest : Digest) (s : Store) (c : ℕ × Call)
    → IsValid s.deliveries
    → Keeps s.deliveries (step digest s c).deliveries
unfolding step
step-Keeps digest s (now, prepares claim row e) v =
    committed-Keeps s _ v (prepare_attempt-Kept now claim s v row e)
step-Keeps digest s (now, marks_sent claim n) v =
    committed-Keeps s _ v (mark_sent-Kept now claim s v n)
step-Keeps digest s (now, marks_failed claim code) v =
    committed-Keeps s _ v (mark_attempt_failed-Kept now claim s v code)
step-Keeps digest s (now, ensures id job match user card at) v =
    committed-Keeps s _ v (ensure-Kept s digest now id job match user card at v)

-- Whatever deliveries are ensured, prepared, confirmed and failed, by whichever claims, at
-- whichever times and whatever is read meanwhile, a table that meets its CHECK constraints and
-- its unique keys goes on to meet them, and a delivery that is sent, failed or suppressed stays
-- as it is.
pub run-Keeps :
    (digest : Digest) (s : Store) (cs : List (ℕ × Call))
    → IsValid s.deliveries
    → Keeps s.deliveries (run digest s cs).deliveries
unfolding run
run-Keeps digest s [] v = Keeps-refl s.deliveries v
run-Keeps digest s (c ∷ cs) v =
    let first = step-Keeps digest s c v in
    let rest = run-Keeps digest (step digest s c) cs first.valid in
    record {
      valid = rest.valid;
      final_rows = λ d m f. rest.final_rows d (first.final_rows d m f) f;
    }
