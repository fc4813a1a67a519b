-- ===== src/Runtime/Observed/Normalize.antt =====
-- The entry points of internal/runtime/reconcile/release_observed_state.go, with the rolling
-- controller that a Deployment's report passes through, and normalizeObservedStateForReconcile of
-- release_reconciler.go there.
use devflow_service.Base.{List, Option, [], false, if◌then◌else◌, none, some, ℕ, ◌++◌, ◌∷◌}
use devflow_service.Control.Engine.{EngineResult, apply_observation, new_engine}
use devflow_service.Control.Lifecycle.{LifecycleStatus}
use devflow_service.Control.Rolling.{rolling_controller}
use devflow_service.Control.State.{
  FailureReason, ReleaseControlState, StepWrite, no_failure, no_phase, rolling, rollout_failed,
}
use devflow_service.Release.Types.{StepStatus}
use devflow_service.Runtime.Observed.{
  NormalizedReleaseObservedState, ReleaseStepWrite, first_non_empty, workload_kind_of,
  workload_name_of, workload_namespace_of, workload_primary_name, write_of,
}
use devflow_service.Runtime.Observed.BlueGreen.{derive_blue_green_state, finalize_write}
use devflow_service.Runtime.Observed.Canary.{derive_canary_state}
use devflow_service.Runtime.Observed.Deployments.{
  Deployment, DeploymentReport, conditions_from, derive_deployment_state, observation_of,
}
use devflow_service.Runtime.Observed.Rollouts.{Rollout, rollout_from_observed_workload}
use devflow_service.Runtime.Types.{RuntimeObservedWorkload}
use devflow_service.Text.{Text, codes, equal_fold, text_eq, trim_space}

abbrev pub running_state : ℕ → ReleaseControlState
running_state now = record {
  lifecycle_status = LifecycleStatus.running;
  strategy = rolling;
  strategy_phase = no_phase;
  failure_reason = no_failure;
  failure_message = [];
  terminal = false;
  updated_at = now;
}

-- The writes of a decision that name `observe_rollout`: the last of them stays.
unfoldable pub take_writes :
    List StepWrite → NormalizedReleaseObservedState → NormalizedReleaseObservedState
unfolding text_eq
take_writes [] state = state
take_writes (write ∷ writes) state =
    if text_eq write.step_code (codes "observe_rollout")
    then take_writes writes (record state {
      phase = write.status;
      progress = write.progress;
      message = write.message;
      step_writes = write_of write.step_code write.status write.progress write.message ∷ [];
    })
    else take_writes writes state

abbrev finalize_after : FailureReason → ReleaseStepWrite
finalize_after rollout_failed =
    finalize_write StepStatus.failed (codes "release finalized after deployment failure")
finalize_after _ =
    finalize_write StepStatus.succeeded (codes "release finalized after deployment became healthy")

abbrev with_finalize :
    LifecycleStatus
    → FailureReason
    → NormalizedReleaseObservedState
    → NormalizedReleaseObservedState
with_finalize LifecycleStatus.finalizing reason state = record state {
  finalize_state = some (finalize_after reason);
}
with_finalize _ reason state = state

abbrev take_next :
    Option ReleaseControlState
    → List StepWrite
    → NormalizedReleaseObservedState
    → NormalizedReleaseObservedState
take_next none writes state = state
take_next (some next) writes state =
    with_finalize next.lifecycle_status next.failure_reason (take_writes writes state)

abbrev pub take_result :
    EngineResult → NormalizedReleaseObservedState → NormalizedReleaseObservedState
take_result (EngineResult.err e) state = state
take_result (EngineResult.ok decision) state =
    take_next decision.next_state decision.step_writes state

-- `normalizeDeploymentObservedStateWithEngine`, at the instant `now`.
unfoldable pub with_engine : NormalizedReleaseObservedState → ℕ → NormalizedReleaseObservedState
unfolding take_writes apply_observation new_engine
with_engine state now =
    take_result
      (apply_observation (new_engine (some rolling_controller ∷ [])) (running_state now)
        (observation_of state.phase state.message now))
      state

abbrev pub normalized_of : DeploymentReport → NormalizedReleaseObservedState
normalized_of reported = record {
  phase = reported.phase;
  progress = reported.progress;
  message = reported.message;
  state_key = reported.state_key;
  step_writes =
      write_of (codes "observe_rollout") reported.phase reported.progress reported.message ∷ [];
  finalize_state = none;
}

-- `NormalizeReleaseObservedStateFromDeployment`, at the instant `now`.
unfoldable pub normalize_deployment :
    Text → Text → Option Deployment → ℕ → NormalizedReleaseObservedState
unfolding with_engine derive_deployment_state
normalize_deployment namespace name deployment now =
    with_engine (normalized_of (derive_deployment_state namespace name deployment)) now

abbrev pub missing_rollout : Text → NormalizedReleaseObservedState
missing_rollout message = record {
  phase = StepStatus.running;
  progress = 10;
  message = message;
  state_key = codes "rollout|missing";
  step_writes = write_of (codes "deploy_canary") StepStatus.running 10 message ∷ [];
  finalize_state = none;
}

-- `NormalizeReleaseObservedStateFromRollout`; `rolloutStrategyType` is the test of `blue_green`.
unfoldable pub normalize_rollout :
    Text → Text → Text → Option Rollout → NormalizedReleaseObservedState
unfolding derive_blue_green_state derive_canary_state first_non_empty
normalize_rollout namespace observed_name primary_name none = missing_rollout (
    codes "waiting for rollout "
    ++ first_non_empty (observed_name ∷ primary_name ∷ codes "application" ∷ [])
    ++ codes " in namespace "
    ++ first_non_empty (namespace ∷ codes "unknown" ∷ []))
normalize_rollout namespace observed_name primary_name (some r) =
    if r.blue_green then derive_blue_green_state r else derive_canary_state r

abbrev pub deployment_with : ℕ → RuntimeObservedWorkload → Deployment
deployment_with generation w = record {
  generation = generation;
  replicas = some w.desired_replicas;
  observed_generation = w.observed_generation;
  updated_replicas = w.updated_replicas;
  ready_replicas = w.ready_replicas;
  available_replicas = w.available_replicas;
  unavailable_replicas = w.unavailable_replicas;
  conditions = conditions_from w.conditions;
}

-- `deploymentFromObservedWorkload`, which sets no generation.
unfoldable pub deployment_from_observed_workload :
    Option RuntimeObservedWorkload → Option Deployment
unfolding conditions_from
deployment_from_observed_workload none = none
deployment_from_observed_workload (some w) = some (deployment_with 0 w)

-- `NormalizeReleaseObservedState`.
unfoldable pub normalize_observed :
    Option RuntimeObservedWorkload → ℕ → NormalizedReleaseObservedState
unfolding normalize_deployment normalize_rollout equal_fold trim_space
    deployment_from_observed_workload rollout_from_observed_workload workload_kind_of
    workload_name_of workload_namespace_of workload_primary_name
normalize_observed w now =
    if equal_fold (trim_space (workload_kind_of w)) (codes "rollout")
    then normalize_rollout (workload_namespace_of w) (workload_name_of w) (workload_primary_name w)
        (rollout_from_observed_workload w)
    else normalize_deployment (workload_namespace_of w) (workload_name_of w)
        (deployment_from_observed_workload w) now

-- `normalizeObservedStateForReconcile`: of a Deployment, the observed generation counts as its
-- generation.
unfoldable pub normalize_for_reconcile :
    RuntimeObservedWorkload → ℕ → NormalizedReleaseObservedState
unfolding normalize_observed normalize_deployment equal_fold trim_space conditions_from
normalize_for_reconcile w now =
    if equal_fold (trim_space w.workload_kind) (codes "deployment")
    then normalize_deployment (trim_space w.namespace) (trim_space w.workload_name)
        (some (deployment_with w.observed_generation w)) now
    else normalize_observed (some w) now
