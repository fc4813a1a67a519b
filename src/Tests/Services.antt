-- ===== src/Tests/Services.antt =====
-- The release service.
use devflow_service.Base.{Option, [], clamp_percent, none, pos, refl, some, ◌∷◌, ◌≡◌}
use devflow_service.Release.Steps.{
  default_release_steps, derive_release_status_from_steps, is_release_terminal_status,
  new_release_step,
}
use devflow_service.Release.Steps.Canonical.{normalize_release_steps}
use devflow_service.Release.Steps.Keys.{normalize_release_step_key}
use devflow_service.Release.Steps.Update.{
  StepChange, apply_release_step_update, find_release_step, step_matches,
}
use devflow_service.Release.Types.{
  Release, ReleaseStatus, StepStatus, failed, normalize_release_action, normalize_release_strategy,
  release_strategy_to_type, rolled_back, syncing,
}
use devflow_service.Service.Operations.{
  is_candidate, or_no_target, rollback_release, select_rollback_target,
}
use devflow_service.Service.Operations.Rollback.{rollback_result_missed}
use devflow_service.Service.Operations.Target.{Newest, eligible, rollback_target-Newest}
use devflow_service.Service.Status.{
  load_release, normalize_release, sync_rollback_source, write_remediation,
}
use devflow_service.Service.Step.{update_step}
use devflow_service.Service.Step.Derived.{update_step_derives}
use devflow_service.Service.Store.{get, lookup_row, update_row}
use devflow_service.Service.Terminal.Operations.Runs.{
  requests, run, scans, sets_status, sets_step, terminal_status_final,
}
use devflow_service.Service.Terminal.Store.{StatusAt}
use devflow_service.Service.World.{World, store_failed}
use devflow_service.Tests.Data.{release_of, syncing_release, syncing_world}
use devflow_service.Text.{codes, equal_fold, is_empty, trim_space}

abbrev failed_world : World
failed_world = record {
  rows = release_of 3 syncing [] ∷ release_of 4 failed [] ∷ [];
  intents = [];
  manifests = [];
  faults = none ∷ some (store_failed (codes "connection reset")) ∷ [];
}

abbrev step_done : StepChange
step_done = record {
  status = StepStatus.succeeded;
  progress = pos 250;
  message = [];
  start = none;
  end = some 9;
}

terminal_status_final_example : StatusAt 4 failed (
    run
      (sets_status 4 ReleaseStatus.running 6
        ∷ sets_step 4 (codes "observe_rollout") step_done 7
        ∷ scans 8
        ∷ requests 4 (codes "Resume") 5 9
        ∷ [])
      failed_world)
unfolding lookup_row is_release_terminal_status
terminal_status_final_example =
    terminal_status_final 4 failed
      (sets_status 4 ReleaseStatus.running 6
        ∷ sets_step 4 (codes "observe_rollout") step_done 7
        ∷ scans 8
        ∷ requests 4 (codes "Resume") 5 9
        ∷ [])
      failed_world refl (release_of 4 failed [], refl, refl)

update_step_derives_example :
    StatusAt syncing_release.id
      (derive_release_status_from_steps (normalize_release syncing_release).action syncing (
        apply_release_step_update
          (normalize_release syncing_release).steps
          (normalize_release_step_key (codes "Observe Rollout"))
          (record step_done { progress = clamp_percent step_done.progress })))
      (update_step syncing_release.id (codes "Observe Rollout") step_done 7 syncing_world).1
unfolding lookup_row is_release_terminal_status normalize_release normalize_release_strategy
    normalize_release_action normalize_release_step_key normalize_release_steps find_release_step
    is_empty default_release_steps release_strategy_to_type step_matches
update_step_derives_example =
    update_step_derives (codes "Observe Rollout") step_done 7 syncing_world syncing_release
      (new_release_step (codes "observe_rollout") (codes "Observe rollout")) refl refl refl refl
      refl refl

abbrev succeeded_release : Release
succeeded_release = release_of 3 ReleaseStatus.succeeded []

abbrev rollback_world : World
rollback_world = record {
  rows = succeeded_release ∷ release_of 4 failed [] ∷ [];
  intents = [];
  manifests = [];
  faults = [];
}

rollback_result_missed_example :
    lookup_row 4
      (sync_rollback_source
        (rollback_release (release_of 4 failed []) succeeded_release 5 6)
        rolled_back
        7
        rollback_world).1.rows
    ≡ lookup_row 4 rollback_world.rows
unfolding is_candidate is_empty trim_space
rollback_result_missed_example =
    rollback_result_missed (release_of 4 failed []) succeeded_release 5 6 7 rolled_back
      rollback_world refl

-- The row of the release that the rollback goes back to is the one that is written.
written_test :
    (r : Release) × (lookup_row 3
        (sync_rollback_source
          (rollback_release (release_of 4 failed []) succeeded_release 5 6)
          rolled_back
          7
          rollback_world).1.rows
      ≡ some r)
    × (r.remediation_status ≡ codes "RollbackSucceeded")
unfolding sync_rollback_source rollback_release equal_fold trim_space write_remediation load_release
    get update_row normalize_release
written_test = (_, refl, refl)

rollback_target-Newest_example :
    (o : Option Release) × Newest (eligible (release_of 4 failed [])) rollback_world.rows o
    × (select_rollback_target (release_of 4 failed []) rollback_world
        ≡ or_no_target o rollback_world)
rollback_target-Newest_example = rollback_target-Newest (release_of 4 failed []) rollback_world refl
