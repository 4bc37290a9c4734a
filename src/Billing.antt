-- ===== src/Billing.antt =====
-- freelancer_bot/billing.py: which access a trial, paid periods and the subscription's state give.
-- Instants are microseconds since `datetime.min` in UTC.
pub mod Due
pub mod Access
pub mod Tests
use footjob.Base.{
  ℕ, ◌+◌, Bool, true, false, ◌&&◌, Option, none, some, List, [], ◌∷◌, Str, codes, str_eq, ltb, leb,
  ◌==◌, if◌then◌else◌, select, Result, ok, err, value_error, ◌>>=◌, ◌>>◌, guard, Datetime, aware,
  naive, ◌||◌,
}

pub data EntitlementState : Type 0 where
  trial_not_started trial_active trial_expired paid_active expired cancelled paused :
      EntitlementState

pub data SubscriptionState : Type 0 where
  trial_not_started trial_active paid_active expired cancelled paused : SubscriptionState

pub record TrialPolicy : Type 0 where
  pub duration : ℕ
  pub version : Str

pub record EntitlementDecision : Type 0 where
  pub state : EntitlementState
  pub can_receive_deliveries : Bool
  pub evaluated_at : ℕ
  pub trial_started_at : Option ℕ
  pub trial_expires_at : Option ℕ
  pub trial_policy_version : Option Str
  pub subscription_state : Option SubscriptionState
  pub paid_period_id : Option ℕ
  pub paid_provider : Option Str
  pub paid_period_start_at : Option ℕ
  pub paid_period_end_at : Option ℕ

-- `EntitlementDecision.failure_code`
failure_name : EntitlementState → Str
failure_name EntitlementState.trial_expired = codes "TrialExpired"
failure_name EntitlementState.trial_not_started = codes "TrialNotStarted"
failure_name EntitlementState.expired = codes "SubscriptionExpired"
failure_name EntitlementState.cancelled = codes "SubscriptionCancelled"
failure_name EntitlementState.paused = codes "SubscriptionPaused"
failure_name _ = codes "EntitlementRequired"

pub failure_code : EntitlementDecision → Option Str
unfolding failure_name
failure_code d = if d.can_receive_deliveries then none else some (failure_name d.state)

pub record PaidEntitlementPeriod : Type 0 where
  pub id : ℕ
  pub provider : Str
  pub period_start_at : ℕ
  pub period_end_at : ℕ

-- `_utc`: a value without a timezone is read as UTC.
unfoldable pub utc : Datetime → ℕ
utc (aware t) = t
utc (naive t) = t

-- The half-open interval of a period.
unfoldable pub is_active : ℕ → ℕ → ℕ → Bool
is_active start end now = leb start now && ltb now end

-- The sort key of `max`: the end, the start, and the id as text, which orders as the number does.
unfoldable pub later_key : ℕ → ℕ → ℕ → ℕ → ℕ → ℕ → Bool
later_key end start id end' start' id' =
    ltb end' end || (end == end' && (ltb start' start || (start == start' && ltb id' id)))

unfoldable pub later : PaidEntitlementPeriod → PaidEntitlementPeriod → Bool
unfolding later_key
later a b = later_key a.period_end_at a.period_start_at a.id b.period_end_at b.period_start_at b.id

-- Python's `max` keeps the first of the greatest.
unfoldable pub max_from : PaidEntitlementPeriod → List PaidEntitlementPeriod → PaidEntitlementPeriod
unfolding later
max_from best [] = best
max_from best (p ∷ ps) = max_from (if later p best then p else best) ps

pub latest : List PaidEntitlementPeriod → Option PaidEntitlementPeriod
unfolding max_from
latest [] = none
latest (p ∷ ps) = some (max_from p ps)

pub active_periods : ℕ → List PaidEntitlementPeriod → List PaidEntitlementPeriod
unfolding is_active
active_periods now = select (λ p. is_active p.period_start_at p.period_end_at now)

-- `value or policy.version`
or_version : Option Str → Str → Str
or_version none version = version
or_version (some []) version = version
or_version (some (c ∷ s)) version = c ∷ s

trial_end : ℕ → Option ℕ → TrialPolicy → ℕ
trial_end started none policy = started + policy.duration
trial_end started (some expires) policy = expires

-- `_trial_expiry`
pub trial_expiry : Option ℕ → Option ℕ → TrialPolicy → Result (Option ℕ)
unfolding trial_end
trial_expiry none none policy = ok none
trial_expiry none (some expires) policy = err value_error
trial_expiry (some started) expires policy =
    let end = trial_end started expires policy in
    if leb end started then err value_error else ok (some end)

abbrev undecided : EntitlementState → ℕ → EntitlementDecision
undecided state now = record {
  state = state;
  can_receive_deliveries = false;
  evaluated_at = now;
  trial_started_at = none;
  trial_expires_at = none;
  trial_policy_version = none;
  subscription_state = none;
  paid_period_id = none;
  paid_provider = none;
  paid_period_start_at = none;
  paid_period_end_at = none;
}

pub evaluate_trial_entitlement :
    Option Datetime
    → Datetime
    → Option Datetime
    → Option Str
    → TrialPolicy
    → Result EntitlementDecision
unfolding utc trial_end or_version
evaluate_trial_entitlement none evaluated_at none version policy =
    ok (undecided EntitlementState.trial_not_started (utc evaluated_at))
evaluate_trial_entitlement none evaluated_at (some expires) version policy = err value_error
evaluate_trial_entitlement (some start) evaluated_at expires_at version policy =
    let now = utc evaluated_at in
    let started = utc start in
    let expires =
      trial_end started (elim expires_at [ none ↦ none | some e ↦ some (utc e) ]) policy in
    let active = ltb now expires in
    if leb expires started
    then err value_error
    else ok (record (undecided EntitlementState.trial_active now) {
      state = if active then EntitlementState.trial_active else EntitlementState.trial_expired;
      can_receive_deliveries = active;
      trial_started_at = some started;
      trial_expires_at = some expires;
      trial_policy_version = some (or_version version policy.version);
    })

-- The state of a subscription that is halted by a decision of its own.
pub halted : Option SubscriptionState → Option EntitlementState
halted (some SubscriptionState.paused) = some EntitlementState.paused
halted (some SubscriptionState.cancelled) = some EntitlementState.cancelled
halted _ = none

abbrev is_expired : Option SubscriptionState → Bool
is_expired (some SubscriptionState.expired) = true
is_expired _ = false

-- `lifecycle_reason in {None, "trial_expired"}`
trial_reason : Option Str → Bool
trial_reason none = true
trial_reason (some reason) = str_eq reason (codes "trial_expired")

abbrev paid_decision :
    PaidEntitlementPeriod → ℕ → Option ℕ → Option ℕ → Option Str → EntitlementDecision
paid_decision p now started expires version = record {
  state = EntitlementState.paid_active;
  can_receive_deliveries = true;
  evaluated_at = now;
  trial_started_at = started;
  trial_expires_at = expires;
  trial_policy_version = version;
  subscription_state = some SubscriptionState.paid_active;
  paid_period_id = some p.id;
  paid_provider = some p.provider;
  paid_period_start_at = some p.period_start_at;
  paid_period_end_at = some p.period_end_at;
}

unpaid_decision :
    ℕ
    → Option ℕ
    → Option ℕ
    → Option Str
    → Option SubscriptionState
    → Option Str
    → TrialPolicy
    → EntitlementDecision
unfolding trial_reason or_version
unpaid_decision now (some started) (some expires) version lifecycle reason policy =
    let active = ltb now expires in
    let ended =
      if trial_reason reason then EntitlementState.trial_expired else EntitlementState.expired in
    record (undecided EntitlementState.trial_active now) {
      state = if active then EntitlementState.trial_active else ended;
      can_receive_deliveries = active;
      trial_started_at = some started;
      trial_expires_at = some expires;
      trial_policy_version = some (or_version version policy.version);
      subscription_state =
          some (if active then SubscriptionState.trial_active else SubscriptionState.expired);
    }
unpaid_decision now _ _ version lifecycle reason policy =
    if is_expired lifecycle
    then record (undecided EntitlementState.expired now) {
      subscription_state = some SubscriptionState.expired;
    }
    else record (undecided EntitlementState.trial_not_started now) {
      subscription_state = some SubscriptionState.trial_not_started;
    }

pub evaluate_subscription_entitlement :
    Option ℕ
    → ℕ
    → Option ℕ
    → Option Str
    → List PaidEntitlementPeriod
    → Option SubscriptionState
    → Option Str
    → TrialPolicy
    → Result EntitlementDecision
unfolding unpaid_decision
evaluate_subscription_entitlement started now expires_at version periods lifecycle reason policy =
    do
      expires ← trial_expiry started expires_at policy
      elim (halted lifecycle) [
        | some state ↦ ok (record (undecided state now) {
          trial_started_at = started;
          trial_expires_at = expires;
          trial_policy_version = version;
          subscription_state = lifecycle;
        })
        | none ↦ elim (latest (active_periods now periods)) [
          | some p ↦ ok (paid_decision p now started expires version)
          | none ↦ ok (unpaid_decision now started expires version lifecycle reason policy)
        ]
      ]
