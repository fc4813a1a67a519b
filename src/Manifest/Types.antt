-- ===== src/Manifest/Types.antt =====
-- ImageTask of internal/release/domain/types.go, and Manifest of
-- internal/manifest/domain/manifest.go.
use devflow_service.Base.{List, Option, ℕ}
use devflow_service.Release.Types.{ManifestStatus, StepStatus}
use devflow_service.Text.{Text}

pub record ImageTask : Type 0 where
  pub task_name : Text
  pub task_run : Text
  pub status : StepStatus
  pub start_time : Option ℕ
  pub end_time : Option ℕ
  pub message : Text

-- The snapshots of the services and of the workload, which no update reads, are left out.
pub record Manifest : Type 0 where
  pub id : ℕ
  pub created_at : ℕ
  pub updated_at : ℕ
  pub deleted_at : Option ℕ
  pub application_id : ℕ
  pub git_revision : Text
  pub repo_address : Text
  pub commit_hash : Text
  pub image_ref : Text
  pub image_tag : Text
  pub image_digest : Text
  pub pipeline_id : Text
  pub trace_id : Text
  pub span_id : Text
  pub steps : List ImageTask
  pub status : ManifestStatus
