-- ===== src/Control/Rolling.antt =====
-- internal/release/strategy/rolling/controller.go.
pub mod Laws
use devflow_service.Base.{if◌then◌else◌, not, ◌&&◌}
use devflow_service.Control.Engine.{StrategyController}
use devflow_service.Control.Lifecycle.{failed, finalizing, running, succeeded}
use devflow_service.Control.State.{
  ReleaseControlState, RuntimeObservation, TransitionDecision, new_state_transition_decision,
  new_step_write, no_phase, no_transition_decision, rolling, rolling_progressing, rollout_failed,
  with_failure, with_phase, with_status,
}
use devflow_service.Control.Timeout.{TimeoutPolicy, minutes}
use devflow_service.Release.Types.{StepStatus}
use devflow_service.Text.{codes}

-- `EvaluateObservation`.
unfoldable pub evaluate_rolling : ReleaseControlState → RuntimeObservation → TransitionDecision
evaluate_rolling state obs =
    if obs.healthy && obs.terminal
    then new_state_transition_decision
        (with_phase (with_status state finalizing obs.observed_at) no_phase obs.observed_at)
        (new_step_write (codes "observe_rollout") StepStatus.succeeded 100 obs.message)
    else if obs.degraded && obs.terminal
    then new_state_transition_decision
        (with_failure
          (with_phase (with_status state finalizing obs.observed_at) no_phase obs.observed_at)
          rollout_failed obs.message obs.observed_at)
        (new_step_write (codes "observe_rollout") StepStatus.failed 100 obs.message)
    else if obs.progressing && not obs.terminal
    then new_state_transition_decision (with_phase state rolling_progressing obs.observed_at)
        (new_step_write (codes "observe_rollout") StepStatus.running 25 obs.message)
    else no_transition_decision

-- `TimeoutPolicy`.
abbrev pub rolling_timeout_policy : TimeoutPolicy
rolling_timeout_policy = record {
  dispatch_timeout = minutes 2;
  progress_timeout = minutes 10;
  finalize_timeout = minutes 2;
  observation_stall_timeout = minutes 5;
}

-- `Controller`.
pub rolling_controller : StrategyController
unfolding evaluate_rolling
rolling_controller = record {
  strategy = rolling;
  evaluate_observation = evaluate_rolling;
  timeout_policy = λ _. rolling_timeout_policy;
}
