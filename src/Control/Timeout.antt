-- ===== src/Control/Timeout.antt =====
-- internal/release/control/timeout_policy.go, timeout_evaluator.go and timeout_scanner.go.
use devflow_service.Base.{Bool, Option, false, if◌then◌else◌, ltb, none, some, ℕ, ◌&&◌, ◌*◌, ◌-◌}
use devflow_service.Control.Lifecycle.{LifecycleStatus, dispatching, failed, finalizing, running}
use devflow_service.Control.State.{
  FailureReason, ReleaseControlState, RuntimeObservation, TransitionDecision, dispatch_failed,
  finalize_failed, new_state_transition_decision, new_step_write, no_transition_decision,
  observation_stalled, rollout_timeout, with_failure, with_status,
}
use devflow_service.Release.Types.{StepStatus}
use devflow_service.Text.{Text, codes}
-- A duration is a number of nanoseconds; a policy of 0 disables its check, as a negative one does.
pub mod Exact

pub record TimeoutPolicy : Type 0 where
  pub dispatch_timeout : ℕ
  pub progress_timeout : ℕ
  pub finalize_timeout : ℕ
  pub observation_stall_timeout : ℕ

abbrev pub minutes : ℕ → ℕ
minutes n = n * 60000000000

-- `timeout > 0 && now.Sub(since) > timeout`. Where `now` lies before `since`, the difference is
-- negative in Go and 0 here, and neither exceeds a positive timeout.
abbrev exceeds : ℕ → ℕ → ℕ → Bool
exceeds now since timeout = ltb 0 timeout && ltb timeout (now - since)

-- The failed state and the step write that each branch returns.
abbrev timed_out : ReleaseControlState → FailureReason → Text → Text → ℕ → TransitionDecision
timed_out state reason code message now =
    new_state_transition_decision (with_failure (with_status state failed now) reason message now)
      (new_step_write code StepStatus.failed 100 message)

abbrev stalled : Option RuntimeObservation → ℕ → ℕ → Bool
stalled none now timeout = false
stalled (some observation) now timeout = exceeds now observation.observed_at timeout

evaluate_status :
    LifecycleStatus
    → ReleaseControlState
    → Option RuntimeObservation
    → TimeoutPolicy
    → ℕ
    → TransitionDecision
evaluate_status dispatching state last policy now =
    if exceeds now state.updated_at policy.dispatch_timeout
    then timed_out state dispatch_failed (codes "start_deployment")
        (codes "release dispatch timed out") now
    else no_transition_decision
evaluate_status running state last policy now =
    if exceeds now state.updated_at policy.progress_timeout
    then timed_out state rollout_timeout (codes "observe_rollout")
        (codes "release rollout timed out") now
    else if stalled last now policy.observation_stall_timeout
    then timed_out state observation_stalled (codes "observe_rollout")
        (codes "release observation stalled") now
    else no_transition_decision
evaluate_status finalizing state last policy now =
    if exceeds now state.updated_at policy.finalize_timeout
    then timed_out state finalize_failed (codes "finalize_release")
        (codes "release finalization timed out") now
    else no_transition_decision
evaluate_status _ state last policy now = no_transition_decision

-- `TimeoutEvaluator.Evaluate`.
unfoldable pub evaluate_timeout :
    ReleaseControlState → Option RuntimeObservation → TimeoutPolicy → ℕ → TransitionDecision
unfolding evaluate_status
evaluate_timeout state last policy now =
    evaluate_status state.lifecycle_status state last policy now

-- `TimeoutScanner.Evaluate`.
unfoldable pub scan_timeout : ReleaseControlState → TimeoutPolicy → ℕ → TransitionDecision
unfolding evaluate_timeout
scan_timeout state policy now = evaluate_timeout state none policy now
