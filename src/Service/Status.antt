-- ===== src/Service/Status.antt =====
-- loadRelease, Get and UpdateStatus of internal/release/service/release.go, release_status_manager.go
-- and release_remediation_manager.go. What a status change tells Argo CD and Kubernetes
-- (release_observe_controller.go) returns no error and touches no row; it is left out.
use devflow_service.Base.{Bool, Option, if◌then◌else◌, is_yes, none, some, ℕ, ◌||◌}
use devflow_service.Control.Remediation.{
  RemediationKind, cleanup_only, no_remediation, not_required, pending_rollback, rollback_done,
  rollback_failed,
}
use devflow_service.Release.Steps.{is_release_terminal_status}
use devflow_service.Release.Steps.Canonical.{normalize_release_steps}
use devflow_service.Release.Types.{
  Release, ReleaseStatus, ReleaseStatus-discrete, failed, normalize_release_action,
  normalize_release_strategy, release_rollback, release_upgrade, rolled_back, sync_failed,
}
use devflow_service.Service.Store.{get, update_row}
use devflow_service.Service.World.{M, done, return, ◌>>=◌, ◌>>◌}
use devflow_service.Text.{Text, codes, equal_fold, is_empty, trim_space}

-- What `loadRelease` makes of a row.
unfoldable pub normalize_release : Release → Release
normalize_release row =
    let normalized = normalize_release_action row.action in
    let action' = if is_empty normalized then release_upgrade else normalized in
    let strategy' = normalize_release_strategy row.strategy in
    record row {
      action = action';
      strategy = strategy';
      steps = normalize_release_steps strategy' action' row.steps;
    }

-- `loadRelease`, which is `Get` of the service.
unfoldable pub load_release : ℕ → M Release
load_release id = do row ← get id; return (normalize_release row)

-- The text of a `RemediationKind`.
abbrev pub remediation_text : RemediationKind → Text
remediation_text no_remediation = codes ""
remediation_text not_required = codes "NotRequired"
remediation_text cleanup_only = codes "CleanupOnly"
remediation_text pending_rollback = codes "PendingRollback"
remediation_text RemediationKind.rolling_back = codes "RollingBack"
remediation_text rollback_failed = codes "RollbackFailed"
remediation_text rollback_done = codes "RollbackSucceeded"

-- The switch of `syncRollbackSource`.
abbrev pub rollback_result : ReleaseStatus → Option (RemediationKind × Text)
rollback_result rolled_back = some (rollback_done, codes "rollback release succeeded")
rollback_result failed = some (rollback_failed, codes "rollback release failed")
rollback_result sync_failed = some (rollback_failed, codes "rollback release failed")
rollback_result _ = none

unfoldable pub write_remediation : ℕ → Text → Text → ℕ → M (Unit {0})
write_remediation id status reason now = do
  release ← load_release id
  update_row (record release {
    remediation_status = status;
    remediation_reason = reason;
    updated_at = now;
  })

abbrev pub sync_source : Option ℕ → Option (RemediationKind × Text) → ℕ → M (Unit {0})
sync_source (some source) (some (kind, reason)) now =
    write_remediation source (remediation_text kind) reason now
sync_source _ _ now = done

-- `syncRollbackSource`.
unfoldable pub sync_rollback_source : Release → ReleaseStatus → ℕ → M (Unit {0})
sync_rollback_source release status now =
    if equal_fold (trim_space release.action) release_rollback
    then sync_source release.rollback_source_release_id (rollback_result status) now
    else done

abbrev pub same_status : ReleaseStatus → ReleaseStatus → Bool
same_status a b = is_yes (ReleaseStatus-discrete a b)

-- What `updateStatus` does with the release that it loaded.
unfoldable pub change_status : Release → ReleaseStatus → ℕ → M (Unit {0})
change_status release status' now =
    if is_release_terminal_status release.status || same_status release.status status'
    then done
    else (do
      let changed = record release { status = status'; updated_at = now }
      update_row changed
      sync_rollback_source changed status' now)

-- `UpdateStatus`.
unfoldable pub update_status : ℕ → ReleaseStatus → ℕ → M (Unit {0})
update_status id status now = do release ← load_release id; change_status release status now
