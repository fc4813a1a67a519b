-- ===== src/Service/Artifact.antt =====
-- Update, UpdateArtifact and Delete of internal/release/service/release.go.
use devflow_service.Base.{Bool, clamp_percent, false, if◌then◌else◌, none, true, ℕ}
use devflow_service.Release.Steps.{is_release_terminal_status}
use devflow_service.Release.Steps.Update.{StepChange}
use devflow_service.Release.Types.{Release, StepStatus, unset}
use devflow_service.Service.Status.{load_release}
use devflow_service.Service.Step.{update_step}
use devflow_service.Service.Store.{update_row}
use devflow_service.Service.World.{M, done, ◌>>=◌, ◌>>◌}
use devflow_service.Text.{Text, codes, is_empty, trim_space}

-- `Update`: the row is replaced by the caller's release, but for its creation and deletion.
unfoldable pub replace_release : Release → Release → ℕ → M (Unit {0})
replace_release current release now =
    if is_release_terminal_status current.status
    then done
    else update_row (record release {
      created_at = current.created_at;
      deleted_at = current.deleted_at;
      updated_at = now;
    })

unfoldable pub update : Release → ℕ → M (Unit {0})
update release now = do current ← load_release release.id; replace_release current release now

-- The arguments of `UpdateArtifact`.
pub record ArtifactChange : Type 0 where
  pub repository : Text
  pub tag : Text
  pub digest : Text
  pub ref : Text

-- `if value != "" { field = value }`, on the trimmed value.
abbrev trimmed_or : Text → Text → Text
trimmed_or value old = if is_empty (trim_space value) then old else trim_space value

abbrev with_artifact : ArtifactChange → ℕ → Release → Release
with_artifact a now release = record release {
  artifact_repository = trimmed_or a.repository release.artifact_repository;
  artifact_tag = trimmed_or a.tag release.artifact_tag;
  artifact_digest = trimmed_or a.digest release.artifact_digest;
  artifact_ref = trimmed_or a.ref release.artifact_ref;
  updated_at = now;
}

abbrev pub is_unset : StepStatus → Bool
is_unset unset = true
is_unset _ = false

-- The step that `UpdateArtifact` updates when it is given a status.
unfoldable pub publish_step : ℕ → StepChange → ℕ → M (Unit {0})
publish_step id c now =
    if is_unset c.status
    then done
    else update_step id (codes "publish_bundle")
        (record c { progress = clamp_percent c.progress; start = none; end = none }) now

unfoldable pub store_artifact : Release → ℕ → ArtifactChange → StepChange → ℕ → M (Unit {0})
store_artifact release id a c now =
    if is_release_terminal_status release.status
    then done
    else (do update_row (with_artifact a now release); publish_step id c now)

-- `UpdateArtifact`.
unfoldable pub update_artifact : ℕ → ArtifactChange → StepChange → ℕ → M (Unit {0})
update_artifact id a c now = do release ← load_release id; store_artifact release id a c now
