-- ===== src/Service/Operations.antt =====
-- internal/release/service/release_operation_manager.go: pause, resume, cancel and rollback.
pub mod Rollback
pub mod Target
pub mod Deployed
use devflow_service.Base.{
  Bool, List, Option, [], false, if◌then◌else◌, ltb, none, not, pos, some, true, ℕ, ◌&&◌, ◌==◌, ◌∷◌,
}
use devflow_service.Control.Lifecycle.{LifecycleStatus, paused}
use devflow_service.Control.Operation.{
  ReleaseOperation, evaluate_operation_request, normalize_release_operation, rollback,
}
use devflow_service.Control.Remediation.{
  RemediationKind, assess_remediation_need, cleanup_only, pending_rollback,
}
use devflow_service.Control.State.{ReleaseControlState, StepWrite}
use devflow_service.Release.Steps.{default_release_steps, is_release_terminal_status}
use devflow_service.Release.Steps.Update.{
  StepChange, apply_release_step_update, find_release_step, mark_release_step_completed,
}
use devflow_service.Release.Types.{
  Release, ReleaseStatus, ReleaseStep, ReleaseType, StepStatus, blue_green, canary, failed, normal,
  pending, release_rollback, release_strategy_to_type, rolling_back, running, succeeded, syncing,
}
use devflow_service.Runtime.Store.Calls.{step}
use devflow_service.Service.Status.{
  load_release, remediation_text, update_status, write_remediation,
}
use devflow_service.Service.Store.{insert, list, selects, update_row, update_steps}
use devflow_service.Service.Timeouts.{
  apply_timeout_step_write, compat_control_state_from_release, current_lifecycle_step_code,
}
use devflow_service.Service.World.{
  M, done, fail, no_control_state, no_rollback_target, operation_rejected, return,
  rollback_not_implemented, rollback_not_pending, unknown_step, ◌>>=◌, ◌>>◌,
}
use devflow_service.Text.{Text, codes, is_empty, text_eq, trim_space}

-- What `applyOperationStepMessage` does with the step that it found: only the message changes.
unfoldable pub store_message : Release → Text → Option ReleaseStep → Text → ℕ → M (Unit {0})
store_message release step_code none message now = fail unknown_step
store_message release step_code (some step) message now =
    let change : StepChange = record {
      status = step.status;
      progress = step.progress;
      message = trim_space message;
      start = none;
      end = none;
    } in
    update_steps (record release {
      steps = apply_release_step_update release.steps step_code change;
      updated_at = now;
    })

unfoldable pub write_message : Release → Text → Text → ℕ → M (Unit {0})
write_message release step_code message now =
    if is_release_terminal_status release.status
    then done
    else store_message release step_code (find_release_step release.steps step_code) message now

-- `applyOperationStepMessage`.
unfoldable pub apply_operation_step_message : ℕ → Text → Text → ℕ → M (Unit {0})
apply_operation_step_message id step_code message now = do
  release ← load_release id
  write_message release step_code message now

abbrev cancel_message : RemediationKind → Text
cancel_message cleanup_only = codes "release canceled by operator; cleanup required"
cancel_message pending_rollback = codes "release canceled by operator; rollback required"
cancel_message _ = codes "release canceled by operator"

-- `applyOperationCancellation`, with `applyOperationFailureStep` and `applyReleaseRemediation`.
unfoldable pub apply_operation_cancellation :
    Release → ReleaseControlState → Text → ℕ → M (Unit {0})
apply_operation_cancellation release state operation now = do
  let step_code = current_lifecycle_step_code release state
  let remediation = assess_remediation_need state step_code operation
  let write : StepWrite = record {
    step_code = step_code;
    status = StepStatus.failed;
    progress = 100;
    message = trim_space (cancel_message remediation.kind);
  }
  apply_timeout_step_write release.id write now
  write_remediation release.id (remediation_text remediation.kind) (trim_space remediation.reason)
      now
  update_status release.id ReleaseStatus.failed now

abbrev pub carry_out_target :
    LifecycleStatus → Release → ReleaseControlState → Text → ℕ → M (Unit {0})
carry_out_target paused release state operation now =
    apply_operation_step_message release.id (current_lifecycle_step_code release state)
      (codes "deployment paused by operator") now
carry_out_target LifecycleStatus.running release state operation now =
    apply_operation_step_message release.id (current_lifecycle_step_code release state)
      (codes "deployment resumed by operator") now
carry_out_target LifecycleStatus.failed release state operation now =
    apply_operation_cancellation release state operation now
carry_out_target LifecycleStatus.pending release state operation now = fail rollback_not_implemented
carry_out_target _ release state operation now = done

unfoldable pub operate : Release → Option ReleaseControlState → Text → ℕ → M Bool
operate release none operation now = fail no_control_state
operate release (some state) operation now =
    let decision = evaluate_operation_request state operation in
    if decision.allowed
    then (do carry_out_target decision.target_status release state operation now; return true)
    else fail (operation_rejected (trim_space decision.reason))

abbrev pub is_succeeded_release : ReleaseStatus → Bool
is_succeeded_release ReleaseStatus.succeeded = true
is_succeeded_release _ = false

-- The candidates of `selectRollbackTarget`.
unfoldable pub is_candidate : ℕ → Release → Bool
is_candidate id item =
    not (item.id == id)
    && is_succeeded_release item.status
    && not (
        is_empty (trim_space item.artifact_ref)
        && is_empty (trim_space item.artifact_digest)
        && is_empty (trim_space item.artifact_repository))

-- `candidates[0]` after the sort by `CreatedAt`, newest first. Of two candidates created at one
-- instant Go's unstable sort may take either; here it is the first of the list.
unfoldable pub newest : (Release → Bool) → List Release → Option Release
newest test [] = none
newest test (item ∷ items) =
    let rest = newest test items in
    if test item
    then elim rest [
      | none ↦ some item
      | some r ↦ if ltb item.created_at r.created_at then some r else some item
    ]
    else rest

abbrev pub or_no_target : Option Release → M Release
or_no_target none = fail no_rollback_target
or_no_target (some item) = return item

-- `selectRollbackTarget`.
unfoldable pub select_rollback_target : Release → M Release
select_rollback_target release = do
  items ← list (selects release.application_id release.environment_id)
  or_no_target (newest (is_candidate release.id) items)

-- `releaseDeploymentStartStep` of release_handoff_runtime.go.
abbrev start_step : ReleaseType → Text × Text
start_step ReleaseType.blue_green = (codes "deploy_preview", codes "preview deployment started")
start_step ReleaseType.canary = (codes "deploy_canary", codes "canary deployment started")
start_step normal = (codes "start_deployment", codes "deployment sync started")

unfoldable pub release_deployment_start_step : Text → Text × Text
release_deployment_start_step strategy = start_step (release_strategy_to_type strategy)

-- The loop of `spawnRollbackRelease`, which compares the code as it stands.
unfoldable pub start_first : Text → Text → List ReleaseStep → List ReleaseStep
start_first code message [] = []
start_first code message (step ∷ steps) =
    if text_eq step.code code
    then record step { status = StepStatus.running; progress = pos 25; message = message } ∷ steps
    else step ∷ start_first code message steps

-- The release that `spawnRollbackRelease` inserts. `fresh` is the id that `uuid.New` makes, and `now`
-- is not the zero time.
unfoldable pub rollback_release : Release → Release → ℕ → ℕ → Release
rollback_release release target fresh now =
    let steps =
      default_release_steps (release_strategy_to_type release.strategy) release_rollback in
    let frozen =
      mark_release_step_completed (codes "freeze_inputs")
        (codes "rollback release inputs frozen successfully") now steps in
    let start = release_deployment_start_step release.strategy in
    record {
      id = fresh;
      created_at = now;
      updated_at = now;
      deleted_at = none;
      execution_intent_id = none;
      application_id = release.application_id;
      manifest_id = release.manifest_id;
      environment_id = release.environment_id;
      strategy = release.strategy;
      routes_snapshot = release.routes_snapshot;
      app_config_snapshot = release.app_config_snapshot;
      artifact_repository = [];
      artifact_tag = [];
      artifact_digest = [];
      artifact_ref = [];
      rollback_source_release_id = some target.id;
      rollback_target_artifact_repository = trim_space target.artifact_repository;
      rollback_target_artifact_tag = trim_space target.artifact_tag;
      rollback_target_artifact_digest = trim_space target.artifact_digest;
      rollback_target_artifact_ref = trim_space target.artifact_ref;
      action = release_rollback;
      steps = start_first start.0 start.1 frozen;
      status = syncing;
      remediation_status = [];
      remediation_reason = [];
      argocd_application_name = [];
      external_ref = [];
    }

-- `applyRollbackOperation`.
unfoldable pub apply_rollback_operation : Release → ℕ → ℕ → M Bool
apply_rollback_operation release fresh now =
    if text_eq (trim_space release.remediation_status) (remediation_text pending_rollback)
    then (do
      target ← select_rollback_target release
      insert (rollback_release release target fresh now)
      update_row (record release {
        remediation_status = remediation_text RemediationKind.rolling_back;
        remediation_reason = codes "rollback release created";
        updated_at = now;
      })
      return true)
    else fail rollback_not_pending

abbrev pub is_rollback : ReleaseOperation → Bool
is_rollback rollback = true
is_rollback _ = false

unfoldable pub request_operation : Release → Text → ℕ → ℕ → M Bool
request_operation release operation fresh now =
    if is_rollback (normalize_release_operation operation)
    then apply_rollback_operation release fresh now
    else operate release (compat_control_state_from_release release) operation now

-- `applyOperationRequest`. `normalizeReleaseOperationForService` finds a rollback exactly where
-- `normalizeReleaseOperation` does.
unfoldable pub apply_operation_request : ℕ → Text → ℕ → ℕ → M Bool
apply_operation_request id operation fresh now = do
  release ← load_release id
  request_operation release operation fresh now
