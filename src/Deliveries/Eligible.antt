-- ===== src/Deliveries/Eligible.antt =====
-- An attempt is handed out exactly when the delivery may be sent.
use footjob.Base.{Bool, Bool-cases, Option, Result, Str, arith, bind-ok, false, find, inl}
use footjob.Base.{inr, is_none, none, ok, refl, some, str_eq, str_eq_self, str_eq→eq, subst}
use footjob.Base.{true, update_where, ℕ, ◌&&◌, ◌<◌, ◌↔◌, ◌≡◌}
use footjob.Billing.{EntitlementDecision}
use footjob.Jobs.Row.{JobClaim}
use footjob.Deliveries.{
  Store, DeliveryAttempt, has_job, has_id, update, attempt_on, prepare_attempt,
}
use footjob.Deliveries.{is_over, prepare_current}
use footjob.Deliveries.Row.{DeliveryStatus, Delivery, is_sending, is_final, checks, fixed_checks}
use footjob.Deliveries.Row.{consistent, sending_values, Eligibility, suppression_code}

-- What holds of a delivery that may be sent now.
pub record MaySend (d : Delivery) (row : Eligibility) (e : EntitlementDecision) : Type 0 where
  pub owner : row.profile_user_id ≡ d.user_id
  pub entitled : e.can_receive_deliveries ≡ true
  pub revision : row.current_profile_revision ≡ d.profile_revision
  pub confirmed : row.is_confirmed ≡ true
  pub active : row.is_active ≡ true
  pub primary : row.is_primary ≡ true
  pub platform : row.current_recipient_platform ≡ d.recipient_platform
  pub recipient : row.current_external_user_id ≡ d.recipient_external_user_id
  pub opportunity : row.opportunity_active ≡ true
  pub trace : row.trace_eligible ≡ true
  pub filters : row.hard_filter_eligible ≡ true
  pub decision : row.decision_eligible ≡ true
  pub fresh : row.current_last_seen_at ≡ row.opportunity_last_seen_at

-- The delivery waits, or an earlier attempt of it was left.
pub record IsReady (claim : JobClaim) (d : Delivery) : Type 0 where
  pub waits : is_final d.status ≡ false
  pub earlier : is_sending d.status ≡ true → d.attempt_count < claim.attempt_count

suppression_code-MaySend :
    (d : Delivery) (row : Eligibility) (e : EntitlementDecision)
    → suppression_code d row e ≡ none
    → MaySend d row e
unfolding suppression_code
suppression_code-MaySend d row e h = ground (
  arith,
  str_eq→eq row.current_recipient_platform d.recipient_platform,
  str_eq→eq row.current_external_user_id d.recipient_external_user_id,
)

eq_str : (s t : Str) → s ≡ t → str_eq s t ≡ true
eq_str s t e = subst (λ u. str_eq s u ≡ true) e (str_eq_self s)

MaySend-suppression_code :
    (d : Delivery) (row : Eligibility) (e : EntitlementDecision)
    → MaySend d row e
    → suppression_code d row e ≡ none
unfolding suppression_code
MaySend-suppression_code d row e h = ground (
  arith,
  eq_str row.current_recipient_platform d.recipient_platform h.platform,
  eq_str row.current_external_user_id d.recipient_external_user_id h.recipient,
)

unsent :
    (status : DeliveryStatus) (d : Delivery)
    → is_final status ≡ false
    → consistent status d ≡ true
    → (is_none d.sent_at && is_none d.telegram_message_id) ≡ true
unfolding is_final consistent
unsent DeliveryStatus.queued d w h = ground arith
unsent DeliveryStatus.sending d w h = ground arith
unsent DeliveryStatus.sent d w h = cc
unsent DeliveryStatus.failed d w h = cc
unsent DeliveryStatus.suppressed d w h = cc

sending_values-fixed :
    (now : ℕ) (claim : JobClaim) (d : Delivery)
    → fixed_checks (sending_values now claim d) ≡ fixed_checks d
unfolding fixed_checks sending_values
sending_values-fixed now claim d = refl

parts : (a b c : Bool) → (a && b && c) ≡ true → (a ≡ true) × (c ≡ true)
parts a b c h = ground arith

sending_values-consistent :
    (now : ℕ) (claim : JobClaim) (d : Delivery)
    → 0 < claim.attempt_count
    → (is_none d.sent_at && is_none d.telegram_message_id) ≡ true
    → consistent DeliveryStatus.sending (sending_values now claim d) ≡ true
unfolding consistent sending_values
sending_values-consistent now claim d positive open_still = ground arith

sending_values-checks :
    (now : ℕ) (claim : JobClaim) (d : Delivery)
    → checks d ≡ true
    → is_final d.status ≡ false
    → 0 < claim.attempt_count
    → checks (sending_values now claim d) ≡ true
unfolding checks sending_values
sending_values-checks now claim d h waits positive =
    let (fixed, whole) = parts (fixed_checks d) _ (consistent d.status d) h in
    rw (
      sending_values-fixed now claim d,
      fixed,
      sending_values-consistent now claim d positive (unsent d.status d waits whole),
    )

is_over-IsReady : (claim : JobClaim) (d : Delivery) → is_over claim d ≡ false → IsReady claim d
unfolding is_over
is_over-IsReady claim d h = record { waits = ground arith; earlier = λ sending. ground arith }

IsReady-is_over : (claim : JobClaim) (d : Delivery) → IsReady claim d → is_over claim d ≡ false
unfolding is_over
IsReady-is_over claim d r = ground (arith, r.waits, r.earlier)

module _ (now : ℕ) (claim : JobClaim) (row : Eligibility) (e : EntitlementDecision) (s : Store)
    (d : Delivery) where
  -- The attempt that goes out, with the row as it is written.
  abbrev pub HandsOut : Type 0
  HandsOut =
      prepare_attempt now claim row e s
      ≡ ok (
        record s {
          deliveries = update_where (has_id d.id) (sending_values now claim) s.deliveries;
        },
        some (record {
          delivery = sending_values now claim d;
          recipient_chat_id = d.recipient_external_user_id;
        }),
      )

  not_suppressed :
      (code : Option Str) (s' : Store) (a : DeliveryAttempt)
      → attempt_on now claim d s code ≡ ok (s', some a)
      → code ≡ none
  unfolding attempt_on
  not_suppressed none s' a h = refl
  not_suppressed (some code) s' a h =
      let (t, u, wrong) = bind-ok (update (has_id d.id) _ d s) _ h in cc

  handed :
      (s' : Store) (a : DeliveryAttempt)
      → prepare_current now claim row e s (some d) ≡ ok (s', some a)
      → IsReady claim d × MaySend d row e
  unfolding prepare_current
  handed s' a h = elim (Bool-cases (is_over claim d)) [
    | inl over ↦ absurd (idle (rw over at h))
    | inr ready ↦ (
      is_over-IsReady claim d ready,
      suppression_code-MaySend d row e (not_suppressed _ s' a (rw ready at h)),
    )
  ]
    where
      idle : ◌≡◌ {A = Result (Store × Option DeliveryAttempt)} (ok (s, none)) (ok (s', some a)) → ⊥
      idle q = cc

  hands_out :
      checks d ≡ true
      → 0 < claim.attempt_count
      → IsReady claim d
      → MaySend d row e
      → find (has_job claim.id) s.deliveries ≡ some d
      → HandsOut
  unfolding prepare_attempt prepare_current attempt_on update
  hands_out valid positive ready may found = rw (
    found,
    IsReady-is_over claim d ready,
    MaySend-suppression_code d row e may,
    sending_values-checks now claim d valid ready.waits positive,
  )

  -- For a claim with an attempt, whose delivery is found and meets its CHECK constraints, an
  -- attempt to send is handed out exactly if the delivery waits or was left by an earlier
  -- attempt, and all of owner, entitlement, profile, recipient, opportunity and match trace still
  -- stand; the row is then written as one that this attempt is sending.
  pub prepare_attempt-MaySend :
      find (has_job claim.id) s.deliveries ≡ some d
      → checks d ≡ true
      → 0 < claim.attempt_count
      → (IsReady claim d × MaySend d row e) ↔ HandsOut
  unfolding prepare_attempt
  prepare_attempt-MaySend found valid positive =
      (λ (ready, may). hands_out valid positive ready may found, λ h. handed _ _ (rw found at h))
