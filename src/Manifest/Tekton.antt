-- ===== src/Manifest/Tekton.antt =====
-- internal/release/transport/http/manifest_writeback.go: the handlers of the reports that come from
-- Tekton. A request is a decoded body; its manifest id is `none` where the parser refuses it.
use devflow_service.Base.{
  Bool, Option, [], false, if◌then◌else◌, none, not, some, true, ℕ, ◌&&◌, ◌∷◌,
}
use devflow_service.Manifest.Store.{BuildResult, get_manifest}
use devflow_service.Manifest.Types.{Manifest}
use devflow_service.Manifest.Updates.{
  TaskReport, assign_pipeline_id, bind_task_run, update_build_result, update_manifest_status_by_id,
  update_step_status,
}
use devflow_service.Release.Types.{ManifestStatus}
use devflow_service.Service.World.{
  M, Result, ServiceError, World, done, err, fail, no_rows, ok, return, ◌>>=◌, ◌>>◌,
}
use devflow_service.Text.{Text, codes, is_empty, text_eq, to_lower, trim_space}
use devflow_service.Transport.Writeback.{
  Response, bad_request, internal_error, no_content, normalize_step_status, not_found, switch_text,
}

-- `normalizeManifestStatus`.
unfoldable pub manifest_status_of : Text → ManifestStatus
unfolding to_lower text_eq
manifest_status_of status =
    switch_text (to_lower status)
      ((codes "pending", ManifestStatus.pending)
        ∷ (codes "running", ManifestStatus.running)
        ∷ (codes "available", ManifestStatus.available)
        ∷ (codes "unavailable", ManifestStatus.unavailable)
        ∷ (codes "ready", ManifestStatus.available)
        ∷ (codes "succeeded", ManifestStatus.available)
        ∷ (codes "failed", ManifestStatus.unavailable)
        ∷ [])
      (ManifestStatus.other status)

-- `ManifestTektonStatusRequest`; the message is not read.
pub record StatusRequest : Type 0 where
  pub pipeline : Text
  pub status : Text

-- `ManifestTektonTaskRequest`.
pub record TaskRequest : Type 0 where
  pub pipeline : Text
  pub task_name : Text
  pub task_run : Text
  pub status : Text
  pub message : Text
  pub start_time : Option ℕ
  pub end_time : Option ℕ

-- `ManifestTektonResultRequest`.
pub record ResultRequest : Type 0 where
  pub pipeline : Text
  pub built : BuildResult

pub data TektonRequest : Type 0 where
  status_request : StatusRequest → TektonRequest
  task_request : TaskRequest → TektonRequest
  result_request : ResultRequest → TektonRequest

abbrev pub known_pipeline : Manifest → M Text
known_pipeline m =
    if is_empty (trim_space m.pipeline_id) then fail no_rows else return (trim_space m.pipeline_id)

-- `resolveManifestPipelineID`.
unfoldable pub resolve_pipeline : ℕ → Text → M Text
unfolding get_manifest trim_space is_empty
resolve_pipeline id pipeline =
    if not (is_empty (trim_space pipeline))
    then return (trim_space pipeline)
    else (get_manifest id >>= known_pipeline)

abbrev pub unless_blank : Text → M (Unit {0}) → M (Unit {0})
unless_blank s change = if is_empty s then done else change

abbrev pub task_report : TaskRequest → TaskReport
task_report r = record {
  task_name = r.task_name;
  status = normalize_step_status r.status;
  message = trim_space r.message;
  start_time = r.start_time;
  end_time = r.end_time;
}

-- What `HandleTektonTask` does with the row.
unfoldable pub task_changes : TaskRequest → ℕ → Text → M (Unit {0})
unfolding bind_task_run update_step_status normalize_step_status trim_space is_empty
task_changes r now pipeline = do
  unless_blank r.task_run (bind_task_run pipeline r.task_name r.task_run now)
  update_step_status pipeline (task_report r) now

-- What each handler does once its manifest id is parsed.
unfoldable pub tekton_update : ℕ → TektonRequest → ℕ → M (Unit {0})
unfolding assign_pipeline_id update_manifest_status_by_id task_changes update_build_result
    resolve_pipeline manifest_status_of is_empty
tekton_update id (status_request r) now = do
  unless_blank r.pipeline (assign_pipeline_id id r.pipeline now)
  update_manifest_status_by_id id (manifest_status_of r.status) now
tekton_update id (task_request r) now = resolve_pipeline id r.pipeline >>= task_changes r now
tekton_update id (result_request r) now = do
  pipeline ← resolve_pipeline id r.pipeline
  update_build_result pipeline r.built now

-- `writeManifestVerifyError`.
abbrev pub is_missing_row : ServiceError → Bool
is_missing_row no_rows = true
is_missing_row _ = false

abbrev pub tekton_answer : Result (Unit {0}) × World → Response × World
tekton_answer (ok x, w) = (no_content, w)
tekton_answer (err e, w) = ((if is_missing_row e then not_found else internal_error e), w)

-- The fields that the binding of the body requires, beside the id.
abbrev pub is_bound : TektonRequest → Bool
is_bound (status_request r) = not (is_empty r.status)
is_bound (task_request r) = not (is_empty r.task_name) && not (is_empty r.status)
is_bound (result_request r) = true

-- `HandleTektonStatus`, `HandleTektonTask` and `HandleTektonResult`.
unfoldable pub handle_tekton : Option ℕ → TektonRequest → ℕ → World → Response × World
unfolding tekton_update is_empty
handle_tekton none r now w = (bad_request, w)
handle_tekton (some id) r now w =
    if is_bound r then tekton_answer (tekton_update id r now w) else (bad_request, w)
