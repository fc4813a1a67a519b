-- ===== src/Runtime/Observed/BlueGreen.antt =====
-- deriveBlueGreenObservedState of internal/runtime/reconcile/release_observed_state.go.
use devflow_service.Base.{Bool, [], any, if◌then◌else◌, none, some, ◌++◌, ◌∷◌}
use devflow_service.Release.Types.{StepStatus}
use devflow_service.Runtime.Observed.{
  NormalizedReleaseObservedState, ReleaseStepWrite, detailed_message, write_of,
}
use devflow_service.Runtime.Observed.Rollouts.{
  Rollout, rollout_progress_candidate, rollout_replica_summary, summary_key, summary_text,
}
use devflow_service.Text.{Text, codes, text_eq, to_lower, trim_space}

abbrev pub phase_text : Rollout → Text
phase_text r = to_lower (trim_space r.phase)

unfoldable pub is_healthy_phase : Text → Bool
unfolding text_eq
is_healthy_phase phase = any (text_eq phase) (codes "healthy" ∷ codes "completed" ∷ [])

unfoldable pub is_failed_phase : Text → Bool
unfolding text_eq
is_failed_phase phase = any (text_eq phase) (codes "degraded" ∷ codes "error" ∷ codes "failed" ∷ [])

-- `firstNonEmptyString(nestedString(rollout.Object, "status", "message"))`.
abbrev pub details_of : Rollout → Text
details_of r = trim_space r.message

abbrev pub finalize_write : StepStatus → Text → ReleaseStepWrite
finalize_write status message = write_of (codes "finalize_release") status 100 message

abbrev key_of_rollout : Rollout → Text
key_of_rollout r =
    codes "bluegreen|" ++ phase_text r ++ codes "|" ++ summary_key (rollout_replica_summary r)

abbrev pub healthy_blue_green : Rollout → NormalizedReleaseObservedState
healthy_blue_green r = record {
  phase = StepStatus.succeeded;
  progress = 100;
  message =
      detailed_message
        (codes "blue-green rollout healthy " ++ summary_text (rollout_replica_summary r))
        (details_of r);
  state_key = key_of_rollout r;
  step_writes =
      write_of (codes "deploy_preview") StepStatus.succeeded 100
        (detailed_message (codes "preview deployment ready") (details_of r))
      ∷ write_of (codes "observe_preview") StepStatus.succeeded 100
          (detailed_message (codes "preview rollout observed healthy") (details_of r))
      ∷ write_of (codes "switch_traffic") StepStatus.succeeded 100
          (detailed_message (codes "traffic switched to active workload") (details_of r))
      ∷ write_of (codes "verify_active") StepStatus.succeeded 100
          (detailed_message (codes "active workload verified healthy") (details_of r))
      ∷ [];
  finalize_state = some (
      finalize_write StepStatus.succeeded
        (codes "release finalized after blue-green rollout became healthy"));
}

abbrev pub failed_blue_green : Rollout → NormalizedReleaseObservedState
failed_blue_green r = record {
  phase = StepStatus.failed;
  progress = 100;
  message =
      detailed_message
        (codes "blue-green rollout failed " ++ summary_text (rollout_replica_summary r))
        (details_of r);
  state_key = key_of_rollout r;
  step_writes =
      write_of (codes "observe_preview") StepStatus.failed 100
        (detailed_message (codes "preview rollout failed") (details_of r))
      ∷ [];
  finalize_state = some (
      finalize_write StepStatus.failed
        (codes "release finalized after blue-green rollout failure"));
}

abbrev pub running_blue_green : Rollout → NormalizedReleaseObservedState
running_blue_green r =
    let progress = rollout_progress_candidate (rollout_replica_summary r) 25 in
    record {
      phase = StepStatus.running;
      progress = progress;
      message =
          detailed_message
            (codes "blue-green rollout progressing " ++ summary_text (rollout_replica_summary r))
            (details_of r);
      state_key = key_of_rollout r;
      step_writes =
          write_of (codes "deploy_preview") StepStatus.succeeded 100
            (codes "preview deployment created")
          ∷ write_of (codes "observe_preview") StepStatus.running progress (
              detailed_message
                (codes "preview rollout progressing " ++ summary_text (rollout_replica_summary r))
                (details_of r))
          ∷ [];
      finalize_state = none;
    }

-- `deriveBlueGreenObservedState`.
unfoldable pub derive_blue_green_state : Rollout → NormalizedReleaseObservedState
unfolding to_lower trim_space is_healthy_phase is_failed_phase detailed_message summary_text
    summary_key rollout_progress_candidate
derive_blue_green_state r =
    if is_healthy_phase (phase_text r)
    then healthy_blue_green r
    else if is_failed_phase (phase_text r)
    then failed_blue_green r
    else running_blue_green r
