-- ===== src/Manifest/Handlers.antt =====
-- What Tekton's reports leave of the row of a manifest whose build has ended.
use devflow_service.Base.{Bool-cases, Option, inl, inr, none, some, true, ℕ, ◌≡◌}
use devflow_service.Manifest.Kept.{
  EndedAs, assign_pipeline_id-Kept, bind_task_run-Kept, update_build_result-Kept,
  update_manifest_status_by_id-Kept, update_step_status-Kept,
}
use devflow_service.Manifest.Rows.{Found, Post, Post-bind, Rows, read-Post}
use devflow_service.Manifest.Store.{get_manifest, has_manifest_id, read_manifest}
use devflow_service.Manifest.Tekton.{
  TaskRequest, TektonRequest, handle_tekton, is_bound, known_pipeline, manifest_status_of,
  resolve_pipeline, result_request, status_request, task_changes, task_report, task_request,
  tekton_answer, tekton_update, unless_blank,
}
use devflow_service.Manifest.Types.{Manifest}
use devflow_service.Manifest.Updates.{
  assign_pipeline_id, bind_task_run, is_ended, update_build_result, update_manifest_status_by_id,
  update_step_status,
}
use devflow_service.Service.World.{M, Result, World, and_then, err, faulty, ok}
use devflow_service.Text.{Text, is_empty, trim_space}

module _ (id : ℕ) (P : Manifest → Type 0)
    (ended : (m : Manifest) → P m → is_ended m.status ≡ true) where
  abbrev Kept : {A : Type 0} → Result A × World → Type 0
  Kept r = Post (λ _. Rows id P) (Rows id P) r

  known_pipeline-Kept :
      (m : Manifest) (w : World) → Rows id P w.manifests → Kept (known_pipeline m w)
  known_pipeline-Kept m w h = elim (Bool-cases (is_empty (trim_space m.pipeline_id))) [
    | inl blank ↦ rw blank h
    | inr named ↦ rw named h
  ]

  resolve_pipeline-Kept :
      (k : ℕ) (pipeline : Text) (w : World)
      → Rows id P w.manifests
      → Kept (resolve_pipeline k pipeline w)
  unfolding resolve_pipeline get_manifest
  resolve_pipeline-Kept k pipeline w h = elim (Bool-cases (is_empty (trim_space pipeline))) [
    | inl blank ↦ rw blank (
        Post-bind (Found id P (has_manifest_id k)) _ _
          (faulty (read_manifest (has_manifest_id k)) w) known_pipeline
          (read-Post id P (has_manifest_id k) w h) (λ m v found. known_pipeline-Kept m v found.1.1))
    | inr named ↦ rw named h
  ]

  unless_blank-Kept :
      (s : Text) (change : M (Unit {0})) (w : World)
      → ((v : World) → Rows id P v.manifests → Kept (change v))
      → Rows id P w.manifests
      → Kept (unless_blank s change w)
  unless_blank-Kept s change w keeps h = elim (Bool-cases (is_empty s)) [
    | inl blank ↦ rw blank h
    | inr named ↦ rw named (keeps w h)
  ]

  Kept-bind :
      {A : Type 0} (m : Result A × World) (f : A → M (Unit {0}))
      → Kept m
      → ((a : A) (v : World) → Rows id P v.manifests → Kept (f a v))
      → Kept (and_then m f)
  Kept-bind m f h keeps = Post-bind (λ _. Rows id P) (λ _. Rows id P) (Rows id P) m f h keeps

  task_changes-Kept :
      (r : TaskRequest) (now : ℕ) (pipeline : Text) (w : World)
      → Rows id P w.manifests
      → Kept (task_changes r now pipeline w)
  unfolding task_changes
  task_changes-Kept r now pipeline w h =
      Kept-bind (unless_blank r.task_run (bind_task_run pipeline r.task_name r.task_run now) w)
        (λ x. update_step_status pipeline (task_report r) now)
        (unless_blank-Kept r.task_run (bind_task_run pipeline r.task_name r.task_run now) w
          (bind_task_run-Kept id P ended pipeline r.task_name r.task_run now) h)
        (λ x. update_step_status-Kept id P ended pipeline (task_report r) now)

  pub tekton_update-Kept :
      (k : ℕ) (r : TektonRequest) (now : ℕ) (w : World)
      → Rows id P w.manifests
      → Kept (tekton_update k r now w)
  unfolding tekton_update
  tekton_update-Kept k (status_request r) now w h =
      Kept-bind (unless_blank r.pipeline (assign_pipeline_id k r.pipeline now) w)
        (λ x. update_manifest_status_by_id k (manifest_status_of r.status) now)
        (unless_blank-Kept r.pipeline (assign_pipeline_id k r.pipeline now) w
          (assign_pipeline_id-Kept id P ended k r.pipeline now) h)
        (λ x. update_manifest_status_by_id-Kept id P ended k (manifest_status_of r.status) now)
  tekton_update-Kept k (task_request r) now w h =
      Kept-bind (resolve_pipeline k r.pipeline w) (task_changes r now)
        (resolve_pipeline-Kept k r.pipeline w h) (task_changes-Kept r now)
  tekton_update-Kept k (result_request r) now w h =
      Kept-bind (resolve_pipeline k r.pipeline w)
        (λ pipeline. update_build_result pipeline r.built now)
        (resolve_pipeline-Kept k r.pipeline w h)
        (λ pipeline. update_build_result-Kept id P ended pipeline r.built now)

  tekton_answer-state :
      (r : Result (Unit {0}) × World) → Kept r → Rows id P (tekton_answer r).1.manifests
  tekton_answer-state (ok x, w) h = h
  tekton_answer-state (err e, w) h = h

  pub handle_tekton-Kept :
      (k : Option ℕ) (r : TektonRequest) (now : ℕ) (w : World)
      → Rows id P w.manifests
      → Rows id P (handle_tekton k r now w).1.manifests
  unfolding handle_tekton
  handle_tekton-Kept none r now w h = h
  handle_tekton-Kept (some k) r now w h = elim (Bool-cases (is_bound r)) [
    | inl bound ↦
        rw bound (tekton_answer-state (tekton_update k r now w) (tekton_update-Kept k r now w h))
    | inr refused ↦ rw refused h
  ]

-- Once the build of a manifest has ended, no report from Tekton, whatever it says and whichever
-- manifest it names, changes the status, the steps or the build result of its row.
pub handle_tekton-keeps_ended :
    (id : ℕ) (row : Manifest) (k : Option ℕ) (r : TektonRequest) (now : ℕ) (w : World)
    → Rows id (EndedAs row) w.manifests
    → Rows id (EndedAs row) (handle_tekton k r now w).1.manifests
handle_tekton-keeps_ended id row k r now w h =
    handle_tekton-Kept id (EndedAs row) (λ m p. p.0) k r now w h
