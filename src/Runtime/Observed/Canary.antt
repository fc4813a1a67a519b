-- ===== src/Runtime/Observed/Canary.antt =====
-- deriveCanaryObservedState of internal/runtime/reconcile/release_observed_state.go.
use devflow_service.Base.{
  List, Option, [], if◌then◌else◌, negsuc, none, pos, some, suc, ℕ, ℤ, ◌++◌, ◌==◌, ◌||◌, ◌∷◌,
}
use devflow_service.Release.Types.{StepStatus}
use devflow_service.Runtime.Observed.{
  NormalizedReleaseObservedState, ReleaseStepWrite, detailed_message, first_non_empty, write_of,
}
use devflow_service.Runtime.Observed.BlueGreen.{
  details_of, finalize_write, is_failed_phase, is_healthy_phase, phase_text,
}
use devflow_service.Runtime.Observed.Rollouts.{
  Rollout, rollout_progress_candidate, rollout_replica_summary, summary_key, summary_text,
}
use devflow_service.Runtime.Store.Calls.{step}
use devflow_service.Text.{Text, codes, replace_all, text_eq, to_lower, trim_space}
use devflow_service.Text.Format.{digits}

-- `canaryStepForIndex`.
unfoldable pub canary_step_for_index : ℤ → Text
canary_step_for_index (pos n) =
    if n == 0 || n == 1
    then codes "canary_10"
    else if n == 2 || n == 3
    then codes "canary_30"
    else if n == 4 || n == 5
    then codes "canary_60"
    else if n == 6
    then codes "canary_100"
    else codes "deploy_canary"
canary_step_for_index _ = codes "deploy_canary"

-- `canaryProgressForIndex`.
unfoldable pub canary_progress_for_index : ℤ → ℕ
canary_progress_for_index (pos n) =
    if n == 0
    then 30
    else if n == 1
    then 35
    else if n == 2
    then 50
    else if n == 3
    then 55
    else if n == 4
    then 70
    else if n == 5
    then 75
    else if n == 6
    then 90
    else 20
canary_progress_for_index _ = 20

-- `canaryNextStep`, where the empty text is `none`.
unfoldable pub canary_next_step : Text → Option Text
unfolding text_eq
canary_next_step step =
    if text_eq step (codes "canary_10")
    then some (codes "canary_30")
    else if text_eq step (codes "canary_30")
    then some (codes "canary_60")
    else if text_eq step (codes "canary_60")
    then some (codes "canary_100")
    else none

abbrev pub canary_steps : List Text
canary_steps =
    codes "deploy_canary"
    ∷ codes "canary_10"
    ∷ codes "canary_30"
    ∷ codes "canary_60"
    ∷ codes "canary_100"
    ∷ []

-- `strings.ReplaceAll(step, "_", " ")`.
abbrev spaced : Text → Text
spaced = replace_all b'_' b' '

-- The loop of `canarySucceededWritesBefore`.
unfoldable pub succeeded_before : Text → List Text → List ReleaseStepWrite
unfolding text_eq replace_all
succeeded_before active [] = []
succeeded_before active (step ∷ steps) =
    let rest = succeeded_before active steps in
    if text_eq step active
    then []
    else write_of step StepStatus.succeeded 100 (spaced step ++ codes " completed") ∷ rest

-- `canarySucceededWritesBefore`.
unfoldable pub canary_succeeded_writes_before : Text → List ReleaseStepWrite
unfolding succeeded_before
canary_succeeded_writes_before active = succeeded_before active canary_steps

abbrev index_text : ℤ → Text
index_text (pos n) = digits n
index_text (negsuc n) = codes "-" ++ digits (suc n)

abbrev index_key : Option ℤ → Text
index_key none = codes "false|0|"
index_key (some index) = codes "true|" ++ index_text index ++ codes "|"

abbrev key_of_canary : Rollout → Text
key_of_canary r =
    codes "canary|"
    ++ phase_text r
    ++ codes "|"
    ++ index_key r.current_step_index
    ++ summary_key (rollout_replica_summary r)

-- A missing index is read as 0.
abbrev pub index_or_zero : Option ℤ → ℤ
index_or_zero none = pos 0
index_or_zero (some index) = index

abbrev pub active_step : Rollout → Text
active_step r = canary_step_for_index (index_or_zero r.current_step_index)

abbrev done_write : Text → Text → ReleaseStepWrite
done_write code message = write_of code StepStatus.succeeded 100 message

abbrev pub healthy_canary : Rollout → NormalizedReleaseObservedState
healthy_canary r = record {
  phase = StepStatus.succeeded;
  progress = 100;
  message =
      detailed_message (codes "canary rollout healthy " ++ summary_text (rollout_replica_summary r))
        (details_of r);
  state_key = key_of_canary r;
  step_writes =
      done_write (codes "deploy_canary") (codes "canary workload deployed")
      ∷ done_write (codes "canary_10") (codes "canary 10% traffic completed")
      ∷ done_write (codes "canary_30") (codes "canary 30% traffic completed")
      ∷ done_write (codes "canary_60") (codes "canary 60% traffic completed")
      ∷ done_write (codes "canary_100")
          (detailed_message (codes "canary 100% traffic completed") (details_of r))
      ∷ [];
  finalize_state = some (
      finalize_write StepStatus.succeeded
        (codes "release finalized after canary rollout became healthy"));
}

abbrev pub failed_canary : Rollout → Text → NormalizedReleaseObservedState
failed_canary r failed_step = record {
  phase = StepStatus.failed;
  progress = 100;
  message =
      detailed_message
        (codes "canary rollout failed at "
          ++ failed_step
          ++ codes " "
          ++ summary_text (rollout_replica_summary r))
        (details_of r);
  state_key = key_of_canary r;
  step_writes =
      canary_succeeded_writes_before (active_step r)
      ++ write_of failed_step StepStatus.failed 100
          (detailed_message (spaced failed_step ++ codes " failed") (details_of r))
        ∷ [];
  finalize_state =
      some
        (finalize_write StepStatus.failed (codes "release finalized after canary rollout failure"));
}

-- The rollout has no step index yet, or a negative one.
abbrev pub deploying_canary : Rollout → NormalizedReleaseObservedState
deploying_canary r =
    let progress = rollout_progress_candidate (rollout_replica_summary r) 20 in
    let message =
      detailed_message
        (codes "deploying canary workload " ++ summary_text (rollout_replica_summary r))
        (details_of r) in
    record {
      phase = StepStatus.running;
      progress = progress;
      message = message;
      state_key = key_of_canary r;
      step_writes = write_of (codes "deploy_canary") StepStatus.running progress message ∷ [];
      finalize_state = none;
    }

abbrev pub next_writes : Option Text → ℕ → Text → List ReleaseStepWrite
next_writes none progress details = []
next_writes (some step) progress details =
    write_of step StepStatus.running progress
      (detailed_message (spaced step ++ codes " pending promotion") details)
    ∷ []

-- A pause, at an odd index, ends the step before it.
unfoldable pub active_writes : Text → ℕ → ℕ → Text → List ReleaseStepWrite
unfolding canary_next_step detailed_message replace_all
active_writes active index progress details =
    if index == 1 || index == 3 || index == 5
    then done_write active (detailed_message (spaced active ++ codes " completed") details)
      ∷ next_writes (canary_next_step active) progress details
    else write_of active StepStatus.running progress
        (detailed_message (spaced active ++ codes " in progress") details)
      ∷ []

abbrev pub stepping_canary : Rollout → ℕ → NormalizedReleaseObservedState
stepping_canary r index =
    let active = canary_step_for_index (pos index) in
    let progress = canary_progress_for_index (pos index) in
    record {
      phase = StepStatus.running;
      progress = progress;
      message =
          detailed_message
            (codes "canary rollout progressing at "
              ++ active
              ++ codes " "
              ++ summary_text (rollout_replica_summary r))
            (details_of r);
      state_key = key_of_canary r;
      step_writes =
          canary_succeeded_writes_before active
          ++ active_writes active index progress (details_of r);
      finalize_state = none;
    }

abbrev pub progressing_canary : Rollout → Option ℤ → NormalizedReleaseObservedState
progressing_canary r (some (pos index)) = stepping_canary r index
progressing_canary r _ = deploying_canary r

-- `deriveCanaryObservedState`.
unfoldable pub derive_canary_state : Rollout → NormalizedReleaseObservedState
unfolding to_lower trim_space is_healthy_phase is_failed_phase detailed_message summary_text
    summary_key rollout_progress_candidate canary_succeeded_writes_before active_writes
    canary_step_for_index canary_progress_for_index digits replace_all first_non_empty
derive_canary_state r =
    if is_healthy_phase (phase_text r)
    then healthy_canary r
    else if is_failed_phase (phase_text r)
    then failed_canary r (first_non_empty (active_step r ∷ codes "deploy_canary" ∷ []))
    else progressing_canary r r.current_step_index
