-- ===== src/Deliveries/Updates.antt =====
-- An UPDATE of one delivery that is not done keeps the constraints of the table.
use footjob.Base.{All-update_where-In, Bool, Bool-cases, Distinct-update_where, In}
use footjob.Base.{In-update_where, List, Str, arith, false, guard, inl, inr, integrity_error}
use footjob.Base.{ok, refl, str_eq_flip, subst, sym, true, update_where, updated, ℕ, ◌>>◌}
use footjob.Base.{◌≡◌}
use footjob.Jobs.Row.{JobClaim}
use footjob.Deliveries.{Store}
use footjob.Deliveries.{update}
use footjob.Deliveries.Row.{Delivery, is_final, checks, suppressed_values}
use footjob.Deliveries.Row.{sending_values, sent_values, failed_values}
use footjob.Deliveries.Steps.{same_id, same_job, same_key, same_trace, IsValid, Keeps}

-- The columns that identify a delivery stay.
pub record Identifies (values : Delivery → Delivery) : Type 0 where
  pub id : (d : Delivery) → (values d).id ≡ d.id
  pub job : (d : Delivery) → (values d).job_id ≡ d.job_id
  pub key : (d : Delivery) → (values d).idempotency_key ≡ d.idempotency_key
  pub trace : (d : Delivery) → (values d).match_trace_id ≡ d.match_trace_id
  pub renderer : (d : Delivery) → (values d).renderer_schema_version ≡ d.renderer_schema_version

module _ (test : Delivery → Bool) (values : Delivery → Delivery) (stay : Identifies values) where
  ids_right : (x y : Delivery) → same_id x (updated test values y) ≡ same_id x y
  ids_right x y = ground (arith, stay.id y)

  ids_left : (x y : Delivery) → same_id (updated test values x) y ≡ same_id x y
  ids_left x y = ground (arith, stay.id x)

  jobs_right : (x y : Delivery) → same_job x (updated test values y) ≡ same_job x y
  jobs_right x y = ground (arith, stay.job y)

  jobs_left : (x y : Delivery) → same_job (updated test values x) y ≡ same_job x y
  jobs_left x y = ground (arith, stay.job x)

  keys_right : (x y : Delivery) → same_key x (updated test values y) ≡ same_key x y
  keys_right x y = ground (arith, stay.key y)

  keys_left : (x y : Delivery) → same_key (updated test values x) y ≡ same_key x y
  keys_left x y = ground (arith, stay.key x)

  traces_right : (x y : Delivery) → same_trace x (updated test values y) ≡ same_trace x y
  traces_right x y = ground (arith, stay.trace y, stay.renderer y)

  traces_left : (x y : Delivery) → same_trace (updated test values x) y ≡ same_trace x y
  traces_left x y = ground (arith, stay.trace x, stay.renderer x)

  -- The update reaches the row that was found, and no other.
  update_where-Keeps :
      (d : Delivery) (ds : List Delivery)
      → IsValid ds
      → is_final d.status ≡ false
      → ((x : Delivery) → In x ds → test x ≡ true → x ≡ d)
      → checks (values d) ≡ true
      → Keeps ds (update_where test values ds)
  update_where-Keeps d ds v waits only checked = record {
    valid = record {
      checked =
          All-update_where-In (λ x. checks x ≡ true) test values ds
            (λ x m c t. subst (λ y. checks (values y) ≡ true) (sym (only x m t)) checked) v.checked;
      ids = Distinct-update_where same_id test values ids_right ids_left ds v.ids;
      job_ids = Distinct-update_where same_job test values jobs_right jobs_left ds v.job_ids;
      keys = Distinct-update_where same_key test values keys_right keys_left ds v.keys;
      traces = Distinct-update_where same_trace test values traces_right traces_left ds v.traces;
    };
    final_rows = λ x m f. In-update_where test values ds x m (untouched x m f);
  }
    where
      clash : is_final d.status ≡ true → ⊥
      clash f = cc (waits)

      untouched : (x : Delivery) → In x ds → is_final x.status ≡ true → test x ≡ false
      untouched x m f = elim (Bool-cases (test x)) [
        | inl t ↦ absurd (clash (subst (λ y. is_final y.status ≡ true) (only x m t) f))
        | inr t ↦ t
      ]

  pub update-Keeps :
      (d : Delivery) (s s' : Store)
      → IsValid s.deliveries
      → is_final d.status ≡ false
      → ((x : Delivery) → In x s.deliveries → test x ≡ true → x ≡ d)
      → update test values d s ≡ ok s'
      → Keeps s.deliveries s'.deliveries
  unfolding update
  update-Keeps d s s' v waits only h =
      let (checked, e) = guard_ok (checks (values d)) _ s' h in
      subst (λ z. Keeps s.deliveries z.deliveries) e
        (update_where-Keeps d s.deliveries v waits only checked)
    where
      guard_ok :
          (b : Bool) (t u : Store) → (guard b integrity_error >> ok t) ≡ ok u → (b ≡ true) × (t ≡ u)
      guard_ok true t u h = (refl, cc)
      guard_ok false t u h = cc

pub Keeps-refl : (ds : List Delivery) → IsValid ds → Keeps ds ds
Keeps-refl ds v = record { valid = v; final_rows = λ d m f. m }

pub job_flip : (x y : Delivery) → same_job x y ≡ same_job y x
job_flip x y = ground arith

pub id_flip : (x y : Delivery) → same_id x y ≡ same_id y x
id_flip x y = ground arith

pub key_flip : (x y : Delivery) → same_key x y ≡ same_key y x
key_flip x y = str_eq_flip x.idempotency_key y.idempotency_key

pub trace_flip : (x y : Delivery) → same_trace x y ≡ same_trace y x
trace_flip x y = ground (arith, str_eq_flip x.renderer_schema_version y.renderer_schema_version)

module _ (now : ℕ) (claim : JobClaim) where
  pub suppressed-Identifies : (code : Str) → Identifies (suppressed_values now claim code)
  unfolding suppressed_values
  suppressed-Identifies code = record {
    id = λ d. refl;
    job = λ d. refl;
    key = λ d. refl;
    trace = λ d. refl;
    renderer = λ d. refl;
  }

  pub sending-Identifies : Identifies (sending_values now claim)
  unfolding sending_values
  sending-Identifies = record {
    id = λ d. refl;
    job = λ d. refl;
    key = λ d. refl;
    trace = λ d. refl;
    renderer = λ d. refl;
  }

  pub sent-Identifies : (message_id : ℕ) → Identifies (sent_values now message_id)
  unfolding sent_values
  sent-Identifies message_id = record {
    id = λ d. refl;
    job = λ d. refl;
    key = λ d. refl;
    trace = λ d. refl;
    renderer = λ d. refl;
  }

  pub failed-Identifies : (code : Str) → Identifies (failed_values now claim code)
  unfolding failed_values
  failed-Identifies code = record {
    id = λ d. refl;
    job = λ d. refl;
    key = λ d. refl;
    trace = λ d. refl;
    renderer = λ d. refl;
  }
