-- ===== src/Service/Terminal/Operations/Runs.antt =====
-- Any sequence of operations of the release service keeps a terminal status.
use devflow_service.Base.{List, [], true, ℕ, ◌∷◌, ◌≡◌}
use devflow_service.Release.Steps.{is_release_terminal_status}
use devflow_service.Release.Steps.Update.{StepChange}
use devflow_service.Release.Types.{Release, ReleaseStatus}
use devflow_service.Service.Artifact.{ArtifactChange, update, update_artifact}
use devflow_service.Service.Operations.{apply_operation_request}
use devflow_service.Service.Status.{update_status}
use devflow_service.Service.Step.{update_step}
use devflow_service.Service.Store.{delete, insert, update_argo_metadata}
use devflow_service.Service.Terminal.Kept.{Keeps-state}
use devflow_service.Service.Terminal.Operations.Requests.{apply_operation_request-Keeps}
use devflow_service.Service.Terminal.Operations.Steps.{
  update-Keeps, update_artifact-Keeps, update_status-Keeps, update_step-Keeps,
}
use devflow_service.Service.Terminal.Operations.Timeouts.{process_timeouts-Keeps}
use devflow_service.Service.Terminal.Store.{
  Any, StatusAt, delete-Keeps, insert-Keeps, update_argo_metadata-Keeps,
}
use devflow_service.Service.Timeouts.{process_timeouts}
use devflow_service.Service.World.{World}
use devflow_service.Text.{Text}

-- One call of an operation, with its arguments.
pub data Call : Type 0 where
  sets_status : ℕ → ReleaseStatus → ℕ → Call
  sets_step : ℕ → Text → StepChange → ℕ → Call
  sets_artifact : ℕ → ArtifactChange → StepChange → ℕ → Call
  replaces : Release → ℕ → Call
  deletes : ℕ → ℕ → Call
  inserts : Release → Call
  records_argo : ℕ → Text → Text → ℕ → Call
  scans : ℕ → Call
  requests : ℕ → Text → ℕ → ℕ → Call

-- The world after a call, whatever it returns.
run_call : Call → World → World
run_call (sets_status id status now) w = (update_status id status now w).1
run_call (sets_step id step_name c now) w = (update_step id step_name c now w).1
run_call (sets_artifact id a c now) w = (update_artifact id a c now w).1
run_call (replaces release now) w = (update release now w).1
run_call (deletes id now) w = (delete id now w).1
run_call (inserts release) w = (insert release w).1
run_call (records_argo id app_name external_ref now) w =
    (update_argo_metadata id app_name external_ref now w).1
run_call (scans now) w = (process_timeouts now w).1
run_call (requests id operation fresh now) w = (apply_operation_request id operation fresh now w).1

pub run : List Call → World → World
unfolding run_call
run [] w = w
run (call ∷ calls) w = run calls (run_call call w)

module _ (id : ℕ) (s : ReleaseStatus) (final : is_release_terminal_status s ≡ true) where
  run_call-StatusAt : (call : Call) (w : World) → StatusAt id s w → StatusAt id s (run_call call w)
  unfolding run_call
  run_call-StatusAt (sets_status k status now) w h =
      Keeps-state (StatusAt id s) (Any id s) _ (update_status-Keeps id s final k status now w h)
  run_call-StatusAt (sets_step k step_name c now) w h =
      Keeps-state (StatusAt id s) (Any id s) _ (update_step-Keeps id s final k step_name c now w h)
  run_call-StatusAt (sets_artifact k a c now) w h =
      Keeps-state (StatusAt id s) (Any id s) _ (update_artifact-Keeps id s final k a c now w h)
  run_call-StatusAt (replaces r now) w h =
      Keeps-state (StatusAt id s) (Any id s) _ (update-Keeps id s final r now w h)
  run_call-StatusAt (deletes k now) w h =
      Keeps-state (StatusAt id s) (Any id s) _ (delete-Keeps id s k now w h)
  run_call-StatusAt (inserts r) w h =
      Keeps-state (StatusAt id s) (Any id s) _ (insert-Keeps id s r w h)
  run_call-StatusAt (records_argo k app_name external_ref now) w h =
      Keeps-state (StatusAt id s) (Any id s) _
        (update_argo_metadata-Keeps id s k app_name external_ref now w h)
  run_call-StatusAt (scans now) w h =
      Keeps-state (StatusAt id s) (Any id s) _ (process_timeouts-Keeps id s final now w h)
  run_call-StatusAt (requests k operation fresh now) w h =
      Keeps-state (StatusAt id s) (Any id s) _
        (apply_operation_request-Keeps id s final k operation fresh now w h)

-- Once the row of a release has a terminal status (succeeded, failed, rolled back or sync failed), it
-- has that status after any sequence of status, step and artifact updates, replacements, deletions,
-- insertions, writes of the Argo metadata, timeout scans and operator requests, on any releases,
-- whatever statements of the store fail.
pub terminal_status_final :
    (id : ℕ) (s : ReleaseStatus) (calls : List Call) (w : World)
    → is_release_terminal_status s ≡ true
    → StatusAt id s w
    → StatusAt id s (run calls w)
unfolding run
terminal_status_final id s [] w final h = h
terminal_status_final id s (call ∷ calls) w final h =
    terminal_status_final id s calls (run_call call w) final (run_call-StatusAt id s final call w h)
