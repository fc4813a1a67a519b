-- ===== src/Transport/Writeback/Handlers.antt =====
-- HandleReleaseStep and HandleReleaseArtifact of
-- internal/release/transport/http/release_writeback.go, with the messages that they make.
use devflow_service.Base.{Option, [], if◌then◌else◌, none, pos, some, suc, ℕ, ℤ, ◌++◌}
use devflow_service.Release.Steps.Update.{StepChange}
use devflow_service.Release.Types.{StepStatus}
use devflow_service.Service.Artifact.{ArtifactChange, update_artifact}
use devflow_service.Service.Step.{update_step}
use devflow_service.Service.World.{World}
use devflow_service.Text.{Text, codes, is_empty, replace_all, trim_space}
use devflow_service.Text.Format.{decimal}
use devflow_service.Transport.Writeback.{
  Response, answer, bad_request, normalize_artifact_step_status, normalize_step_status,
  resolve_release_step_key,
}

abbrev running_message : Text → ℤ → Text
running_message label (pos (suc n)) =
    label ++ codes " running (" ++ decimal 10 (suc n) ++ codes "%)"
running_message label _ = label ++ codes " running"

abbrev step_message : Text → StepStatus → ℤ → Text
step_message label StepStatus.running progress = running_message label progress
step_message label StepStatus.succeeded progress = label ++ codes " succeeded"
step_message label StepStatus.failed progress = label ++ codes " failed"
step_message label StepStatus.pending progress = label ++ codes " pending"
step_message label _ progress = label

-- `normalizedReleaseStepMessage`.
unfoldable pub normalized_release_step_message : Text → StepStatus → ℤ → Text → Text
unfolding decimal trim_space replace_all is_empty
normalized_release_step_message step_code status progress message =
    if is_empty (trim_space message)
    then step_message (replace_all b'_' b' ' (trim_space step_code)) status progress
    else trim_space message

-- The body of `HandleReleaseStep`.
pub record ReleaseStepRequest : Type 0 where
  pub release_id : Option ℕ
  pub step_code : Text
  pub step_name : Text
  pub status : Text
  pub progress : ℤ
  pub message : Text

abbrev pub reported_step : Text → ReleaseStepRequest → StepChange
reported_step key request =
    let status' = normalize_step_status request.status in
    record {
      status = status';
      progress = request.progress;
      message = normalized_release_step_message key status' request.progress request.message;
      start = none;
      end = none;
    }

abbrev report_step : Option ℕ → Option Text → ReleaseStepRequest → ℕ → World → Response × World
report_step none key request now w = (bad_request, w)
report_step (some id) none request now w = (bad_request, w)
report_step (some id) (some key) request now w =
    answer (update_step id key (reported_step key request) now w)

-- `HandleReleaseStep`.
unfoldable handle_release_step : ReleaseStepRequest → ℕ → World → Response × World
unfolding normalized_release_step_message resolve_release_step_key
handle_release_step request now w =
    report_step request.release_id (resolve_release_step_key request.step_code request.step_name)
      request now w

-- The body of `HandleReleaseArtifact`.
pub record ReleaseArtifactRequest : Type 0 where
  pub release_id : Option ℕ
  pub artifact : ArtifactChange
  pub status : Text
  pub progress : ℤ
  pub message : Text

abbrev pub with_ref : Text → Text → Text
with_ref text ref = if is_empty ref then text else text ++ codes ": " ++ ref

abbrev artifact_message : StepStatus → Text → Text
artifact_message StepStatus.succeeded ref =
    with_ref (codes "deployment bundle artifact recorded") ref
artifact_message StepStatus.running ref =
    with_ref (codes "recording deployment bundle artifact") ref
artifact_message StepStatus.failed ref = with_ref (codes "deployment bundle artifact failed") ref
artifact_message _ ref = []

-- `normalizedArtifactMessage`.
normalized_artifact_message : ReleaseArtifactRequest → Text
unfolding trim_space is_empty normalize_artifact_step_status
normalized_artifact_message request =
    if is_empty (trim_space request.message)
    then artifact_message (normalize_artifact_step_status request.status)
        (trim_space request.artifact.ref)
    else trim_space request.message

abbrev reported_artifact : ReleaseArtifactRequest → StepChange
reported_artifact request = record {
  status = normalize_artifact_step_status request.status;
  progress = request.progress;
  message = normalized_artifact_message request;
  start = none;
  end = none;
}

abbrev report_artifact : Option ℕ → ReleaseArtifactRequest → ℕ → World → Response × World
report_artifact none request now w = (bad_request, w)
report_artifact (some id) request now w =
    answer (update_artifact id request.artifact (reported_artifact request) now w)

-- `HandleReleaseArtifact`.
unfoldable handle_release_artifact : ReleaseArtifactRequest → ℕ → World → Response × World
unfolding normalized_artifact_message
handle_release_artifact request now w = report_artifact request.release_id request now w
