-- ===== src/Tests/Writebacks.antt =====
-- The callbacks of the observers.
use devflow_service.Base.{pos, refl, some, true, ◌≡◌}
use devflow_service.Release.Steps.{
  default_release_steps, is_release_terminal_status, new_release_step,
}
use devflow_service.Release.Steps.Canonical.{normalize_release_steps}
use devflow_service.Release.Steps.Keys.{normalize_release_step_key}
use devflow_service.Release.Steps.Update.{find_release_step, step_matches}
use devflow_service.Release.Types.{
  ReleaseStatus, StepStatus, normalize_release_action, normalize_release_strategy,
  release_strategy_to_type,
}
use devflow_service.Service.Status.{normalize_release}
use devflow_service.Service.Store.{lookup_row}
use devflow_service.Service.Terminal.Store.{StatusAt}
use devflow_service.Tests.Data.{syncing_release, syncing_world}
use devflow_service.Text.{codes, is_empty, to_lower, trim_space}
use devflow_service.Transport.Writeback.{
  handle_argo_event, map_argo_status_to_release_status, no_content, require_observer_token,
}
use devflow_service.Transport.Writeback.Events.{missing_release_no_content}
use devflow_service.Transport.Writeback.Failures.{argo_error_fails}
use devflow_service.Transport.Writeback.Handlers.{normalized_release_step_message}

missing_release_no_content_example :
    handle_argo_event (some 9) (codes "Succeeded") 7 syncing_world ≡ (no_content, syncing_world)
unfolding lookup_row
missing_release_no_content_example =
    missing_release_no_content 9 (codes "Succeeded") 7 syncing_world refl refl

argo_error_fails_example :
    StatusAt syncing_release.id ReleaseStatus.failed
      (handle_argo_event (some syncing_release.id) (codes " Error") 7 syncing_world).1
unfolding lookup_row is_release_terminal_status normalize_release normalize_release_strategy
    normalize_release_action normalize_release_step_key normalize_release_steps find_release_step
    is_empty default_release_steps release_strategy_to_type step_matches to_lower trim_space
argo_error_fails_example =
    argo_error_fails (codes " Error") 7 syncing_world syncing_release
      (new_release_step (codes "observe_rollout") (codes "Observe rollout")) refl refl refl refl
      refl refl

-- The status that the phase is mapped to.
mapped_test : map_argo_status_to_release_status (codes "Error") ≡ ReleaseStatus.sync_failed
unfolding map_argo_status_to_release_status
mapped_test = refl

-- With a space after it the phase is no case of the mapping, and is stored as it stands.
unmapped_test :
    map_argo_status_to_release_status (codes "Running ") ≡ ReleaseStatus.other (codes "Running ")
unfolding map_argo_status_to_release_status
unmapped_test = refl

token_test : require_observer_token (codes "secret") (codes "") (codes " secret ") ≡ true
unfolding require_observer_token
token_test = refl

message_test :
    normalized_release_step_message (codes "canary_10") StepStatus.running (pos 45) (codes " ")
    ≡ codes "canary 10 running (45%)"
unfolding normalized_release_step_message
message_test = refl
