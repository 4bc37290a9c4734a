-- ===== src/Deliveries/Steps.antt =====
-- Histories of the deliveries: any calls, by any workers, at any times, with whatever the joins and
-- the entitlement checker then read.
use footjob.Base.{All, Bool, Distinct, In, List, Result, Str, [], err, ok, str_eq, true, ℕ}
use footjob.Base.{◌&&◌, ◌==◌, ◌∷◌, ◌≡◌}
use footjob.Billing.{EntitlementDecision}
use footjob.Jobs.Row.{JobClaim}
use footjob.Deliveries.{Store, MatchTrace, User, LeadCard, prepare_attempt, mark_sent}
use footjob.Deliveries.Cards.{Digest}
use footjob.Deliveries.{mark_attempt_failed}
use footjob.Deliveries.Cards.{ensure}
use footjob.Deliveries.Row.{Delivery, Eligibility, is_final, checks}

-- A call with its arguments. The identifiers of `ensure` are fresh values of `uuid4()`.
pub data Call : Type 0 where
  prepares : JobClaim → Eligibility → EntitlementDecision → Call
  marks_sent : JobClaim → ℕ → Call
  marks_failed : JobClaim → Str → Call
  ensures : ℕ → ℕ → MatchTrace → User → LeadCard → ℕ → Call

-- A call that raises is rolled back.
abbrev pub committed {ℓ} : {A : Type ℓ} → Store → Result (Store × A) → Store
committed s (ok (s', a)) = s'
committed s (err e) = s

unfoldable pub step : Digest → Store → ℕ × Call → Store
step digest s (now, prepares claim row entitlement) =
    committed s (prepare_attempt now claim row entitlement s)
step digest s (now, marks_sent claim message_id) = committed s (mark_sent now claim message_id s)
step digest s (now, marks_failed claim code) = committed s (mark_attempt_failed now claim code s)
step digest s (now, ensures id job_id match user card rendered_at) =
    committed s (ensure digest now id job_id match user card rendered_at s)

unfoldable pub run : Digest → Store → List (ℕ × Call) → Store
run digest s [] = s
run digest s (c ∷ cs) = run digest (step digest s c) cs

abbrev pub same_id : Delivery → Delivery → Bool
same_id d e = d.id == e.id

abbrev pub same_job : Delivery → Delivery → Bool
same_job d e = d.job_id == e.job_id

abbrev pub same_key : Delivery → Delivery → Bool
same_key d e = str_eq d.idempotency_key e.idempotency_key

abbrev pub same_trace : Delivery → Delivery → Bool
same_trace d e =
    d.match_trace_id == e.match_trace_id
    && str_eq d.renderer_schema_version e.renderer_schema_version

-- The constraints of the table.
pub record IsValid (ds : List Delivery) : Type 0 where
  pub checked : All (λ d. checks d ≡ true) ds
  pub ids : Distinct same_id ds
  pub job_ids : Distinct same_job ds
  pub keys : Distinct same_key ds
  pub traces : Distinct same_trace ds

-- The table stays valid, and what is sent, failed or suppressed stays as it is.
pub record Keeps (before after : List Delivery) : Type 0 where
  pub valid : IsValid after
  pub final_rows : (d : Delivery) → In d before → is_final d.status ≡ true → In d after
