-- ===== src/Deliveries/Once.antt =====
-- A message that was sent is not sent again: the processor leaves a delivery that is done as it is.
use footjob.Base.{Bool-cases, Distinct-eq, In, In-find, List, Option, Option-cases, Result}
use footjob.Base.{Yields, Yields-bind, Yields-err, Yields-guard, Yields-if, Yields-pure, ap}
use footjob.Base.{arith, bind-ok, err, find, find-key, found-In, guard, inl, inr}
use footjob.Base.{integrity_error, ltb, none, ok, persistence_conflict, refl, some, str_eq}
use footjob.Base.{subst, sym, true, updated-In, value_error, ℕ, ◌==◌, ◌∙◌, ◌≡◌}
use footjob.Billing.{EntitlementDecision}
use footjob.Jobs.Row.{JobClaim}
use footjob.Deliveries.{Store, DeliveryAttempt, prepare_attempt, mark_sent, has_job, owned}
use footjob.Deliveries.Cards.{Digest}
use footjob.Deliveries.{mark_attempt_failed, is_over, prepare_current, sent_now}
use footjob.Deliveries.Cards.{delivery_job_type}
use footjob.Deliveries.{sent_before, update}
use footjob.Deliveries.Row.{Delivery, Eligibility, is_final, is_sent, checks, sent_values}
use footjob.Deliveries.Steps.{Call, committed, run, IsValid, same_job}
use footjob.Deliveries.Updates.{job_flip}
use footjob.Deliveries.Kept.{Kept, prepare_attempt-Kept, mark_sent-Kept, mark_attempt_failed-Kept}
use footjob.Deliveries.Kept.{run-Keeps, committed-Keeps}
use footjob.Deliveries.Processing.{
  SendOutcome, TelegramMessage, Processed, process, proceed, settle,
}
use footjob.Deliveries.Processing.{receipt, raised, message_of, sent_result, failed_result}

-- What the processor left: a valid table, where the delivery it returned is the one of the job.
record Left (job_id : ℕ) (p : Processed) : Type 0 where
  pub valid : IsValid p.store.deliveries
  pub returned :
      (d : Delivery) → p.result ≡ ok (some d) → In d p.store.deliveries × (d.job_id ≡ job_id)

-- The delivery that a statement returned stands in the table, for the claim's job.
abbrev Stored : JobClaim → Store × Delivery → Type 0
Stored claim r = In r.1 r.0.deliveries × (r.1.job_id ≡ claim.id)

owned-job : (claim : JobClaim) (d : Delivery) → owned claim d ≡ true → d.job_id ≡ claim.id
unfolding owned
owned-job claim d h = ground arith

sent_values-job :
    (now message_id : ℕ) (d : Delivery) → (sent_values now message_id d).job_id ≡ d.job_id
unfolding sent_values
sent_values-job now message_id d = refl

has_job-eq : (id : ℕ) (d : Delivery) → has_job id d ≡ true → d.job_id ≡ id
has_job-eq id d h = ground arith

unok : {A : Type 0} {x y : A} → ◌≡◌ {A = Result A} (ok x) (ok y) → x ≡ y
unok e = cc

module _ (now : ℕ) (claim : JobClaim) (s : Store) where
  sent_before-Stored :
      (o : Option Delivery)
      → find (has_job claim.id) s.deliveries ≡ o
      → Yields (Stored claim) (sent_before o s)
  unfolding sent_before
  sent_before-Stored none f = Yields-err persistence_conflict
  sent_before-Stored (some d) f =
      Yields-if (is_sent d.status) _ _
        (λ sent. Yields-pure (
          found-In (has_job claim.id) s.deliveries d f,
          has_job-eq claim.id d (find-key (has_job claim.id) s.deliveries d f),
        ))
        (λ other. Yields-err persistence_conflict)

  mark_sent-Stored : (message_id : ℕ) → Yields (Stored claim) (mark_sent now claim message_id s)
  unfolding mark_sent sent_now update
  mark_sent-Stored message_id = Yields-guard (ltb 0 message_id) value_error _ (λ positive.
      elim (Option-cases (find (owned claim) s.deliveries)) [
        | inl n ↦ rw n (sent_before-Stored (find (has_job claim.id) s.deliveries) refl)
        | inr (d, f) ↦ rw f (
            Yields-bind _ _ (λ s' e. Yields-pure (
              written d s' (found-In (owned claim) s.deliveries d f)
                (find-key (owned claim) s.deliveries d f) e)))
      ])
    where
      written :
          (d : Delivery) (s' : Store)
          → In d s.deliveries
          → owned claim d ≡ true
          → update (owned claim) (sent_values now message_id) d s ≡ ok s'
          → Stored claim (s', sent_values now message_id d)
      written d s' m o e =
          let (done, g, r) =
            bind-ok (guard (checks (sent_values now message_id d)) integrity_error) _ e in
          (
            subst (λ z. In (sent_values now message_id d) z.deliveries) (unok r)
                (updated-In (owned claim) (sent_values now message_id) s.deliveries d m o),
            sent_values-job now message_id d ∙ owned-job claim d o,
          )

committed-Stored :
    (claim : JobClaim) (s : Store) (r : Result (Store × Delivery)) (d : Delivery)
    → Yields (Stored claim) r
    → sent_result r ≡ ok (some d)
    → In d (committed s r).deliveries × (d.job_id ≡ claim.id)
unfolding sent_result
committed-Stored claim s (ok (s', d')) d y e =
    subst (λ x. Stored claim (s', x)) (unsome e) (y.holds (s', d') refl)
  where
    unsome : ◌≡◌ {A = Result (Option Delivery)} (ok (some d')) (ok (some d)) → d' ≡ d
    unsome e = cc
committed-Stored claim s (err x) d y e = cc

failed_result-raises :
    (r : Result (Store × Delivery)) (d : Delivery) → failed_result r ≡ ok (some d) → ⊥
unfolding failed_result
failed_result-raises (ok r) d e = cc
failed_result-raises (err x) d e = cc

settle-Left :
    (now : ℕ) (claim : JobClaim) (message : TelegramMessage) (outcome : SendOutcome) (s : Store)
    → IsValid s.deliveries
    → Left claim.id (settle now claim message outcome s)
unfolding settle
settle-Left now claim message (receipt message_id) s v = record {
  valid = (committed-Keeps s _ v (mark_sent-Kept now claim s v message_id)).valid;
  returned = λ d e.
      committed-Stored claim s (mark_sent now claim message_id s) d
        (mark_sent-Stored now claim s message_id) e;
}
settle-Left now claim message (raised code) s v = record {
  valid = (committed-Keeps s _ v (mark_attempt_failed-Kept now claim s v code)).valid;
  returned = λ d e. absurd (failed_result-raises (mark_attempt_failed now claim code s) d e);
}

proceed-Left :
    (digest : Digest) (claim : JobClaim) (others : List (ℕ × Call)) (later : ℕ)
    (outcome : SendOutcome) (s : Store) (r : Result (Store × Option DeliveryAttempt))
    → IsValid s.deliveries
    → Yields (Kept s) r
    → Left claim.id (proceed digest claim others later outcome s r)
unfolding proceed
proceed-Left digest claim others later outcome s (err e) v y = record {
  valid = v;
  returned = λ d q. cc;
}
proceed-Left digest claim others later outcome s (ok (s', none)) v y = record {
  valid = (y.holds (s', none) refl).valid;
  returned = λ d q.
      let f = unok q in
      (
        found-In (has_job claim.id) s'.deliveries d f,
        has_job-eq claim.id d (find-key (has_job claim.id) s'.deliveries d f),
      );
}
proceed-Left digest claim others later outcome s (ok (s', some attempt)) v y =
    settle-Left later claim (message_of attempt) outcome (run digest s' others)
      (run-Keeps digest s' others (y.holds (s', some attempt) refl).valid).valid

process-Left :
    (digest : Digest) (now : ℕ) (claim : JobClaim) (row : Eligibility)
    (entitlement : EntitlementDecision) (others : List (ℕ × Call)) (later : ℕ)
    (outcome : SendOutcome) (s : Store)
    → IsValid s.deliveries
    → Left claim.id (process digest now claim row entitlement others later outcome s)
unfolding process
process-Left digest now claim row entitlement others later outcome s v =
    elim (Bool-cases (str_eq claim.job_type delivery_job_type)) [
      | inl t ↦ rw t (
          proceed-Left digest claim others later outcome s _ v
            (prepare_attempt-Kept now claim s v row entitlement))
      | inr t ↦ rw t (record { valid = v; returned = λ d q. cc })
    ]

process-typed :
    (digest : Digest) (now : ℕ) (claim : JobClaim) (row : Eligibility)
    (entitlement : EntitlementDecision) (others : List (ℕ × Call)) (later : ℕ)
    (outcome : SendOutcome) (s : Store) (d : Delivery)
    → (process digest now claim row entitlement others later outcome s).result ≡ ok (some d)
    → str_eq claim.job_type delivery_job_type ≡ true
unfolding process
process-typed digest now claim row entitlement others later outcome s d e =
    elim (Bool-cases (str_eq claim.job_type delivery_job_type)) [
      | inl t ↦ t
      | inr t ↦ let q = rw t at e in cc
    ]

module _ (claim : JobClaim) (s : Store) (v : IsValid s.deliveries) (d : Delivery) where
  found_by_job :
      In d s.deliveries → d.job_id ≡ claim.id → find (has_job claim.id) s.deliveries ≡ some d
  found_by_job m j =
      let (e, f) = In-find (has_job claim.id) s.deliveries d m (==_iff j) in
      f
      ∙ ap some (
          Distinct-eq same_job s.deliveries e d job_flip v.job_ids
            (found-In (has_job claim.id) s.deliveries e f) m
            (same e (find-key (has_job claim.id) s.deliveries e f)))
    where
      ==_iff : d.job_id ≡ claim.id → (d.job_id == claim.id) ≡ true
      ==_iff e = ground arith

      same : (e : Delivery) → (e.job_id == claim.id) ≡ true → (e.job_id == d.job_id) ≡ true
      same e h = ground arith

  -- The processor finds the delivery done.
  process_final :
      In d s.deliveries
      → d.job_id ≡ claim.id
      → is_final d.status ≡ true
      → str_eq claim.job_type delivery_job_type ≡ true
      → (digest : Digest) (now : ℕ) (row : Eligibility) (entitlement : EntitlementDecision)
        (others : List (ℕ × Call)) (later : ℕ) (outcome : SendOutcome)
      → process digest now claim row entitlement others later outcome s
        ≡ record { store = s; message = none; result = ok (some d) }
  unfolding process prepare_attempt prepare_current is_over
  process_final m j f t digest now row entitlement others later outcome =
      let q = found_by_job m j in rw (t, q, f, q)

module _ (digest : Digest) (s : Store) (v : IsValid s.deliveries) (now : ℕ) (claim : JobClaim)
    (row : Eligibility) (entitlement : EntitlementDecision) (others : List (ℕ × Call)) (later : ℕ)
    (outcome : SendOutcome) where
  -- When the processor, with whatever calls of others in between, returned a delivery of a valid
  -- table that is sent, failed or suppressed, no later run on the job of its claim, after any
  -- further calls and with whatever is then read, sends a message: it returns the same delivery
  -- and leaves the tables as they are.
  pub process_once :
      {d : Delivery}
      → (process digest now claim row entitlement others later outcome s).result ≡ ok (some d)
      → is_final d.status ≡ true
      → (calls : List (ℕ × Call)) (again : JobClaim) → again.id ≡ claim.id
      → again.job_type ≡ claim.job_type
      → (now' : ℕ) (row' : Eligibility) (entitlement' : EntitlementDecision)
        (others' : List (ℕ × Call)) (later' : ℕ) (outcome' : SendOutcome)
      → let left =
          run digest
            (process digest now claim row entitlement others later outcome s).store
            calls in
        process digest now' again row' entitlement' others' later' outcome' left
        ≡ record { store = left; message = none; result = ok (some d) }
  process_once {d} e final calls again same_id same_type now' row' entitlement' others' later'
        outcome' =
      let left = process-Left digest now claim row entitlement others later outcome s v in
      let (m, j) = left.returned d e in
      let kept = run-Keeps digest _ calls left.valid in
      let typed = process-typed digest now claim row entitlement others later outcome s d e in
      process_final again _ kept.valid d (kept.final_rows d m final) (j ∙ sym same_id) final
        (subst (λ t. str_eq t delivery_job_type ≡ true) (sym same_type) typed) digest now' row'
        entitlement' others' later' outcome'
