-- ===== src/Deliveries/Scheduling.antt =====
-- `PersonalizedDeliveryService` of freelancer_bot/delivery.py: the delivery of one match trace, and of
-- each match of a run. What a transaction reads of profiles, users, opportunities and entitlements,
-- and the card that it renders, are arguments; each of them may be an exception.
use footjob.Base.{Bool, Error, List, Option, Result, [], delivery_scheduling_error, err}
use footjob.Base.{guard, lookup_error, none, ok, some, ℕ, ◌&&◌, ◌==◌, ◌>>=◌, ◌>>◌, ◌∷◌}
use footjob.Billing.{EntitlementDecision}
use footjob.Deliveries.{Store, MatchTrace, User, LeadCard}
use footjob.Deliveries.Cards.{Digest, ensure}
use footjob.Deliveries.Row.{Delivery}
use footjob.Deliveries.Steps.{committed}

pub record Profile : Type 0 where
  pub is_active : Bool
  pub is_primary : Bool
  pub revision : ℕ

-- What one transaction meets: the trace that is scheduled, the rows and the card, the clock of the
-- database and the fresh identifiers.
pub record Reading : Type 0 where
  pub match_trace_id : ℕ
  pub match : Option MatchTrace
  pub profile : Result Profile
  pub user : Result User
  pub opportunity_found : Bool
  pub entitlement : Result EntitlementDecision
  pub card : Result LeadCard
  pub now : ℕ
  pub delivery_id : ℕ
  pub job_id : ℕ

unfoldable pub describes : Profile → MatchTrace → Bool
describes profile match =
    profile.is_active && profile.is_primary && profile.revision == match.profile_revision

unfoldable pub schedule_match :
    Digest → ℕ → Reading → Store → Option MatchTrace → Result (Store × (Delivery × Bool))
unfolding describes
schedule_match digest rendered_at r s none = err delivery_scheduling_error
schedule_match digest rendered_at r s (some match) = r.profile >>= (λ profile. r.user >>= (λ user.
    guard r.opportunity_found lookup_error
    >> (guard (describes profile match) delivery_scheduling_error
        >> (r.entitlement >>= (λ entitlement.
            guard entitlement.can_receive_deliveries delivery_scheduling_error
            >> (r.card >>= (λ card.
                ensure digest r.now r.delivery_id r.job_id match user card rendered_at s)))))))

unfoldable pub schedule_trace : Digest → ℕ → Reading → Store → Result (Store × (Delivery × Bool))
unfolding schedule_match
schedule_trace digest rendered_at r s = schedule_match digest rendered_at r s r.match

-- The code of a failure is the class of the exception.
pub record DeliveryScheduleFailure : Type 0 where
  pub match_trace_id : ℕ
  pub failure : Error

-- An outcome is a delivery and whether it was created.
pub record DeliveryScheduleReport : Type 0 where
  pub deliveries : List (Delivery × Bool)
  pub failures : List DeliveryScheduleFailure

unfoldable pub report :
    ℕ → Result (Store × (Delivery × Bool)) → DeliveryScheduleReport → DeliveryScheduleReport
report match_trace_id (ok (s, outcome)) rest = record {
  deliveries = outcome ∷ rest.deliveries;
  failures = rest.failures;
}
report match_trace_id (err e) rest = record {
  deliveries = rest.deliveries;
  failures = record { match_trace_id = match_trace_id; failure = e } ∷ rest.failures;
}

-- Each match in a transaction of its own.
unfoldable pub schedule_run : Digest → ℕ → List Reading → Store → Store × DeliveryScheduleReport
unfolding schedule_trace report
schedule_run digest rendered_at [] s = (s, record { deliveries = []; failures = [] })
schedule_run digest rendered_at (r ∷ rs) s =
    let result = schedule_trace digest rendered_at r s in
    let rest = schedule_run digest rendered_at rs (committed s result) in
    (rest.0, report r.match_trace_id result rest.1)
