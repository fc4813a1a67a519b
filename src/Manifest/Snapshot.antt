-- ===== src/Manifest/Snapshot.antt =====
-- The snapshots of internal/runtime/watch/tekton_cache.go, with the result of a build, and the keys
-- that internal/runtime/reconcile/manifest_reconciler.go makes of them.
use devflow_service.Base.{
  Bool, List, Option, [], find, if◌then◌else◌, map, none, not, some, sort_by, ℕ-Key, ◌&&◌, ◌++◌,
  ◌∷◌,
}
use devflow_service.Manifest.Store.{BuildResult}
use devflow_service.Release.Names.{or_text}
use devflow_service.Text.{Text, codes, is_empty, text_eq, text_leb, trim_space}
use devflow_service.Text.Format.{join_texts}
use devflow_service.Text.Laws.{Text-Key}

-- The fields of `PipelineRunSnapshot` that are read here.
pub record PipelineSnapshot : Type 0 where
  pub name : Text
  pub status : Text
  pub message : Text
  pub state_key : Text

-- The fields of `TaskRunSnapshot` that are read here.
pub record TaskSnapshot : Type 0 where
  pub task_name : Text
  pub task_run : Text
  pub status : Text
  pub message : Text
  pub params : List (Text × Text)
  pub results : List (Text × Text)

-- `TektonSnapshot`, with the task runs of the one manifest.
pub record TektonSnapshot : Type 0 where
  pub pipelines : List PipelineSnapshot
  pub tasks : List TaskSnapshot

-- `m[key]` of a map to texts, trimmed.
trimmed_entry : Text → List (Text × Text) → Text
unfolding find text_eq trim_space
trimmed_entry key m = elim (find key m) [ none ↦ [] | some v ↦ trim_space v ]

-- `imageRefFromTaskSnapshot`.
image_ref_of : TaskSnapshot → Text → Text → Text
unfolding trimmed_entry is_empty
image_ref_of task tag digest =
    let repository = trimmed_entry (codes "IMAGE_REPOSITORY") task.params in
    if is_empty repository
    then []
    else if not (is_empty digest)
    then repository ++ (codes "@" ++ digest)
    else if not (is_empty tag)
    then repository ++ (codes ":" ++ tag)
    else []

no_result : BuildResult
no_result = record { commit_hash = []; image_ref = []; image_tag = []; image_digest = [] }

-- One turn of the loop of `BuildManifestResultSnapshot`.
add_task : BuildResult → TaskSnapshot → BuildResult
unfolding trimmed_entry image_ref_of is_empty
add_task r task =
    let commit = or_text r.commit_hash (trimmed_entry (codes "commit") task.results) in
    let tag = or_text r.image_tag (
      or_text (trimmed_entry (codes "IMAGE_TAG") task.results)
        (trimmed_entry (codes "IMAGE_TAG") task.params)) in
    let digest = or_text r.image_digest (trimmed_entry (codes "IMAGE_DIGEST") task.results) in
    record {
      commit_hash = commit;
      image_ref = or_text r.image_ref (image_ref_of task tag digest);
      image_tag = tag;
      image_digest = digest;
    }

add_tasks : BuildResult → List TaskSnapshot → BuildResult
unfolding add_task
add_tasks r [] = r
add_tasks r (task ∷ tasks) = add_tasks (add_task r task) tasks

is_blank_result : BuildResult → Bool
unfolding trim_space is_empty
is_blank_result r =
    is_empty (trim_space r.commit_hash)
    && is_empty (trim_space r.image_ref)
    && is_empty (trim_space r.image_tag)
    && is_empty (trim_space r.image_digest)

-- `BuildManifestResultSnapshot`.
unfoldable pub build_manifest_result : List TaskSnapshot → Option BuildResult
unfolding add_tasks no_result is_blank_result
build_manifest_result tasks =
    let r = add_tasks no_result tasks in if is_blank_result r then none else some r

abbrev task_key : TaskSnapshot → Text
task_key task = join_texts (codes "|") (
    trim_space task.task_name
    ∷ trim_space task.task_run
    ∷ trim_space task.status
    ∷ trim_space task.message
    ∷ [])

abbrev result_keys : Option BuildResult → List Text
result_keys none = []
result_keys (some r) =
    trim_space r.commit_hash
    ∷ trim_space r.image_ref
    ∷ trim_space r.image_tag
    ∷ trim_space r.image_digest
    ∷ []

-- `manifestSnapshotStateKey`.
unfoldable pub manifest_state_key : PipelineSnapshot → List TaskSnapshot → Text
unfolding build_manifest_result trim_space join_texts sort_by
manifest_state_key pipeline tasks = join_texts (codes "\n") (
    trim_space pipeline.state_key
    ∷ trim_space pipeline.status
    ∷ trim_space pipeline.message
    ∷ (sort_by text_leb (map task_key tasks) ++ result_keys (build_manifest_result tasks)))
