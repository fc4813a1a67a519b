-- ===== src/Manifest/Reconciler.antt =====
-- `Reconcile` of internal/runtime/reconcile/manifest_reconciler.go, with the writer of
-- internal/runtime/bootstrap/manifest_runtime.go. The reports reach the handlers of the release
-- service; any answer but 204 counts as an error. A manifest's id is a number, which is never blank.
use devflow_service.Base.{
  Bool, List, Option, [], erase, false, find, if◌then◌else◌, map, none, not, put, some, true, ℕ,
  ℕ-Key, ◌&&◌, ◌++◌, ◌||◌, ◌∷◌,
}
use devflow_service.Manifest.Snapshot.{
  PipelineSnapshot, TaskSnapshot, TektonSnapshot, build_manifest_result, manifest_state_key,
}
use devflow_service.Manifest.Store.{BuildResult}
use devflow_service.Manifest.Tekton.{
  TektonRequest, handle_tekton, result_request, status_request, task_request,
}
use devflow_service.Runtime.Store.Calls.{answered}
use devflow_service.Service.World.{World}
use devflow_service.Text.{Text, is_empty, text_eq, trim_space}
use devflow_service.Text.Laws.{Text-Key}
use devflow_service.Transport.Writeback.{Response, no_content}

-- A post that was answered, and the next one.
abbrev pub posted : Response × World → Bool × World
posted (no_content, w) = (true, w)
posted (answered, w) = (false, w)

abbrev pub post_next : Bool × World → (World → Bool × World) → Bool × World
post_next (true, w) next = next w
post_next (false, w) next = (false, w)

abbrev pub post_request : ℕ → TektonRequest → ℕ → World → Bool × World
post_request id r now w = posted (handle_tekton (some id) r now w)

-- `WriteStatus`.
abbrev pub status_write : Text → PipelineSnapshot → TektonRequest
status_write pipeline p =
    status_request (record { pipeline = pipeline; status = trim_space p.status })

-- `WriteTask`.
abbrev task_write : Text → TaskSnapshot → TektonRequest
task_write pipeline task = task_request (record {
  pipeline = pipeline;
  task_name = trim_space task.task_name;
  task_run = trim_space task.task_run;
  status = trim_space task.status;
  message = trim_space task.message;
  start_time = none;
  end_time = none;
})

-- `WriteResult`.
abbrev result_write : Text → BuildResult → TektonRequest
result_write pipeline r = result_request (record {
  pipeline = pipeline;
  built = record {
    commit_hash = trim_space r.commit_hash;
    image_ref = trim_space r.image_ref;
    image_tag = trim_space r.image_tag;
    image_digest = trim_space r.image_digest;
  };
})

-- The writes of one snapshot, in order.
abbrev task_writes : Text → List TaskSnapshot → List TektonRequest
task_writes pipeline tasks = map (task_write pipeline) tasks

abbrev result_writes : Text → Option BuildResult → List TektonRequest
result_writes pipeline none = []
result_writes pipeline (some r) = result_write pipeline r ∷ []

unfoldable pub later_writes : Text → List TaskSnapshot → List TektonRequest
unfolding build_manifest_result trim_space
later_writes pipeline tasks =
    task_writes pipeline tasks ++ result_writes pipeline (build_manifest_result tasks)

-- The writes up to the first that fails.
unfoldable pub post_all : ℕ → List TektonRequest → ℕ → World → Bool × World
unfolding handle_tekton
post_all id [] now w = (true, w)
post_all id (r ∷ later) now w = post_next (post_request id r now w) (post_all id later now)

unfoldable pub post_snapshot :
    ℕ → Text → PipelineSnapshot → List TaskSnapshot → ℕ → World → Bool × World
unfolding post_all later_writes handle_tekton trim_space
post_snapshot id pipeline p tasks now w =
    post_next (post_request id (status_write pipeline p) now w)
      (post_all id (later_writes pipeline tasks) now)

-- The reconciler's map `last`, beside the world.
pub record Processed : Type 0 where
  pub last : List (ℕ × Text)
  pub world : World

abbrev pub last_key : Option Text → Text
last_key none = []
last_key (some key) = key

-- `isProcessed`.
unfoldable pub is_processed : ℕ → Text → List (ℕ × Text) → Bool
unfolding find trim_space is_empty text_eq
is_processed id key last =
    not (is_empty (trim_space key)) && text_eq (last_key (find id last)) (trim_space key)

-- `markProcessed`.
unfoldable pub mark_processed : ℕ → Text → List (ℕ × Text) → List (ℕ × Text)
unfolding erase trim_space is_empty
mark_processed id key last =
    if is_empty (trim_space key) then last else put id (trim_space key) last

abbrev pub mark_posted : ℕ → Text → List (ℕ × Text) → Bool × World → Bool × Processed
mark_posted id key last (true, w) = (true, record { last = mark_processed id key last; world = w })
mark_posted id key last (false, w) = (false, record { last = last; world = w })

unfoldable pub reconcile_pipeline :
    ℕ → PipelineSnapshot → List TaskSnapshot → ℕ → Processed → Bool × Processed
unfolding post_snapshot manifest_state_key is_processed mark_processed trim_space is_empty
reconcile_pipeline id p tasks now st =
    let key = manifest_state_key p tasks in
    if is_empty (trim_space p.name) || is_processed id key st.last
    then (true, st)
    else mark_posted id key st.last (post_snapshot id (trim_space p.name) p tasks now st.world)

-- `Reconcile`.
unfoldable pub reconcile_manifest : ℕ → Option TektonSnapshot → ℕ → Processed → Bool × Processed
unfolding reconcile_pipeline
reconcile_manifest id none now st = (true, st)
reconcile_manifest id (some snapshot) now st = elim snapshot.pipelines [
  | [] ↦ (true, st)
  | p ∷ pipelines ↦ reconcile_pipeline id p snapshot.tasks now st
]
