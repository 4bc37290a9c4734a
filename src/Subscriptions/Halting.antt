-- ===== src/Subscriptions/Halting.antt =====
-- What `pause`, `cancel` and `resume` leave behind.
use footjob.Base.{ℕ, ◌≡◌, not, Option, none, Str, Datetime, ◌+◌}
use footjob.Billing.{SubscriptionState, paid_active, paused, cancelled, utc}
use footjob.Subscriptions.Tables.{Store, StateRecord, Period, get_state, safe_reason}
use footjob.Subscriptions.{transition, state_for_transition, pause, cancel, can_cancel, state_eq}
use footjob.Subscriptions.Outcome.{
  Succeeds, Succeeds-pure, Succeeds-bind, Succeeds-if, Succeeds-err,
}
use footjob.Subscriptions.Audit.{state-state_values}
use footjob.Subscriptions.Reconcile.{state_eq→eq}

transition_state :
    (now id : ℕ) (current : StateRecord) (state : SubscriptionState) (period : Option Period)
    (reason : Str) (at : ℕ) (store : Store)
    → Succeeds (λ later s. s.state ≡ state) (transition now id current state period reason at store)
unfolding transition
transition_state now id current state period reason at store =
    Succeeds-bind (safe_reason reason) _ λ reason' _. Succeeds-pure (
      state-state_values current.created_at now current.user_id state (current.state_version + 1)
        period reason' at)

pub pause_state :
    (now id id' u : ℕ) (at : Datetime) (reason : Str) (store : Store)
    → Succeeds (λ later s. s.state ≡ paused) (pause now id id' u at reason store)
unfolding pause
pause_state now id id' u at reason store =
    Succeeds-bind (state_for_transition now id u at (get_state u store) store) _ λ x _.
      Succeeds-if (state_eq x.1.state paused) _ _
        (λ e. Succeeds-pure (state_eq→eq x.1.state paused e))
        λ _.
          Succeeds-if (not (state_eq x.1.state paid_active)) _ _ (λ _. Succeeds-err _)
            λ _. transition_state now id' x.1 paused none reason (utc at) x.0

pub cancel_state :
    (now id id' u : ℕ) (at : Datetime) (reason : Str) (store : Store)
    → Succeeds (λ later s. s.state ≡ cancelled) (cancel now id id' u at reason store)
unfolding cancel
cancel_state now id id' u at reason store =
    Succeeds-bind (state_for_transition now id u at (get_state u store) store) _ λ x _.
      Succeeds-if (state_eq x.1.state cancelled) _ _
        (λ e. Succeeds-pure (state_eq→eq x.1.state cancelled e))
        λ _.
          Succeeds-if (not (can_cancel x.1.state)) _ _ (λ _. Succeeds-err _)
            λ _. transition_state now id' x.1 cancelled none reason (utc at) x.0
