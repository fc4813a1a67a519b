-- ===== src/Runtime/Reconcile/Timeouts.antt =====
-- applyRunningReleaseTimeouts of internal/runtime/reconcile/release_reconciler.go.
use devflow_service.Base.{Bool, List, [], false, if◌then◌else◌, none, some, true, ℕ, ◌&&◌}
use devflow_service.Control.Lifecycle.{LifecycleStatus}
use devflow_service.Control.Rolling.{rolling_timeout_policy}
use devflow_service.Control.State.{
  FailureReason, ReleaseControlState, StepWrite, TransitionDecision, no_failure, rolling,
  rolling_progressing,
}
use devflow_service.Control.Timeout.{evaluate_timeout}
use devflow_service.Release.Types.{StepStatus}
use devflow_service.Runtime.Observed.{NormalizedReleaseObservedState, ReleaseStepWrite}
use devflow_service.Runtime.Observed.BlueGreen.{finalize_write}
use devflow_service.Runtime.Observed.Deployments.{observation_of}
use devflow_service.Runtime.Observed.Normalize.{take_writes}
use devflow_service.Runtime.Reconcile.{ReleaseRecord}
use devflow_service.Runtime.Types.{RuntimeObservedWorkload}
use devflow_service.Text.{codes, equal_fold, trim_space}

-- The control state of a running rollout that was last observed at an instant.
abbrev pub observed_state : ℕ → ReleaseControlState
observed_state at = record {
  lifecycle_status = LifecycleStatus.running;
  strategy = rolling;
  strategy_phase = rolling_progressing;
  failure_reason = no_failure;
  failure_message = [];
  terminal = false;
  updated_at = at;
}

-- What the evaluator decides about a workload; the policy's progress timeout is positive.
unfoldable pub timeout_decision :
    RuntimeObservedWorkload → NormalizedReleaseObservedState → ℕ → TransitionDecision
unfolding evaluate_timeout
timeout_decision w state now =
    evaluate_timeout (observed_state w.observed_at)
      (some (observation_of state.phase state.message w.observed_at)) rolling_timeout_policy now

abbrev timeout_finalize : ReleaseStepWrite
timeout_finalize =
    finalize_write StepStatus.failed (codes "release finalized after timeout or observation stall")

abbrev take_failure :
    FailureReason → List StepWrite → NormalizedReleaseObservedState → NormalizedReleaseObservedState
take_failure no_failure writes state = state
take_failure _ writes state = record (take_writes writes state) {
  finalize_state = some timeout_finalize;
}

abbrev take_timeout :
    TransitionDecision → NormalizedReleaseObservedState → NormalizedReleaseObservedState
take_timeout decision state = elim decision.next_state [
  | none ↦ state
  | some next ↦ take_failure next.failure_reason decision.step_writes state
]

abbrev is_under_way : StepStatus → Bool
is_under_way StepStatus.running = true
is_under_way _ = false

-- The tests at the head of the function.
unfoldable pub may_time_out :
    ReleaseRecord → RuntimeObservedWorkload → NormalizedReleaseObservedState → Bool
unfolding equal_fold trim_space
may_time_out release w state =
    equal_fold (trim_space w.workload_kind) (codes "deployment")
    && equal_fold (trim_space release.status) (codes "Running")
    && is_under_way state.phase

-- `applyRunningReleaseTimeouts`.
unfoldable pub apply_timeouts :
    ReleaseRecord
    → RuntimeObservedWorkload
    → NormalizedReleaseObservedState
    → ℕ
    → NormalizedReleaseObservedState
unfolding may_time_out timeout_decision take_writes
apply_timeouts release w state now =
    if may_time_out release w state
    then take_timeout (timeout_decision w state now) state
    else state
