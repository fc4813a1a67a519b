-- ===== src/Tests/Manifests.antt =====
-- Runs of the manifests' handlers and of their reconciler.
use devflow_service.Base.{[], false, none, refl, some, true, ◌∷◌, ◌≡◌}
use devflow_service.Manifest.Handlers.{handle_tekton-keeps_ended}
use devflow_service.Manifest.Kept.{EndedAs, SameWork}
use devflow_service.Manifest.Reconciler.{Processed, reconcile_manifest, reconcile_pipeline}
use devflow_service.Manifest.Repeats.{reconcile_pipeline_again}
use devflow_service.Manifest.Results.{reconcile_manifest-loses_result}
use devflow_service.Manifest.Rows.{Rows}
use devflow_service.Manifest.Snapshot.{
  PipelineSnapshot, TaskSnapshot, build_manifest_result, manifest_state_key,
}
use devflow_service.Manifest.Tekton.{
  TektonRequest, handle_tekton, manifest_status_of, result_request, task_request,
}
use devflow_service.Manifest.Types.{ImageTask, Manifest}
use devflow_service.Manifest.Updates.{is_ended}
use devflow_service.Release.Types.{ManifestStatus, StepStatus}
use devflow_service.Service.World.{World}
use devflow_service.Text.{codes, is_empty, trim_space}

abbrev compile : ImageTask
compile = record {
  task_name = codes "compile";
  task_run = [];
  status = StepStatus.running;
  start_time = none;
  end_time = none;
  message = [];
}

abbrev pub building : Manifest
building = record {
  id = 4;
  created_at = 1;
  updated_at = 1;
  deleted_at = none;
  application_id = 7;
  git_revision = codes "main";
  repo_address = codes "repo";
  commit_hash = [];
  image_ref = [];
  image_tag = codes "t1";
  image_digest = [];
  pipeline_id = codes "run-1";
  trace_id = [];
  span_id = [];
  steps = compile ∷ [];
  status = ManifestStatus.running;
}

abbrev built_row : Manifest
built_row = record building { status = ManifestStatus.available }

abbrev pub with_manifest : Manifest → World
with_manifest m = record { rows = []; intents = []; manifests = m ∷ []; faults = [] }

abbrev finished_pipeline : PipelineSnapshot
finished_pipeline = record {
  name = codes "run-1";
  status = codes "Available";
  message = [];
  state_key = codes "key";
}

abbrev finished_task : TaskSnapshot
finished_task = record {
  task_name = codes "compile";
  task_run = codes "pod";
  status = codes "Succeeded";
  message = [];
  params = (codes "IMAGE_REPOSITORY", codes "r") ∷ [];
  results = (codes "commit", codes "abc") ∷ (codes "IMAGE_DIGEST", codes "sha") ∷ [];
}

abbrev failed_task_request : TektonRequest
failed_task_request = task_request (record {
  pipeline = codes "run-1";
  task_name = codes "compile";
  task_run = [];
  status = codes "failed";
  message = [];
  start_time = none;
  end_time = none;
})

abbrev fresh : Processed
fresh = record { last = []; world = with_manifest building }

-- The snapshot of the finished pipeline does hold a result.
finished_result_test :
    build_manifest_result (finished_task ∷ [])
    ≡ some (record {
      commit_hash = codes "abc";
      image_ref = codes "r@sha";
      image_tag = [];
      image_digest = codes "sha";
    })
unfolding build_manifest_result
finished_result_test = refl

reconcile_test :
    (reconcile_manifest 4
      (some (record { pipelines = finished_pipeline ∷ []; tasks = finished_task ∷ [] }))
      9
      fresh).1.world.manifests
    ≡ record built_row { updated_at = 9 } ∷ []
unfolding reconcile_manifest
reconcile_test = refl

-- While the build runs, the same writes do store the result.
running_result_test :
    (handle_tekton
      (some 4)
      (result_request (record {
        pipeline = [];
        built = record {
          commit_hash = codes "abc";
          image_ref = codes "r@sha";
          image_tag = codes "t1";
          image_digest = codes "sha";
        };
      }))
      9
      (with_manifest building)).1.manifests
    ≡ record building {
      commit_hash = codes "abc";
      image_ref = codes "r@sha";
      image_digest = codes "sha";
      updated_at = 9;
    }
      ∷ []
unfolding handle_tekton
running_result_test = refl

handle_tekton-keeps_ended_example :
    Rows 4
      (EndedAs built_row)
      (handle_tekton (some 4) failed_task_request 9 (with_manifest built_row)).1.manifests
handle_tekton-keeps_ended_example =
    handle_tekton-keeps_ended 4 built_row (some 4) failed_task_request 9 (with_manifest built_row)
      (λ on. (refl, (refl, (refl, refl, refl, refl, refl))), tt)

finished_is_ended : is_ended (manifest_status_of (trim_space finished_pipeline.status)) ≡ true
unfolding manifest_status_of trim_space
finished_is_ended = refl

reconcile_manifest-loses_result_example :
    Rows 4
      (SameWork building)
      (reconcile_manifest 4
        (some (record { pipelines = finished_pipeline ∷ []; tasks = finished_task ∷ [] }))
        9
        fresh).1.world.manifests
reconcile_manifest-loses_result_example =
    reconcile_manifest-loses_result 4 building finished_pipeline [] (finished_task ∷ []) 9 fresh
      finished_is_ended (λ on. (refl, (refl, refl, refl, refl, refl)), tt)

finished_key :
    is_empty (trim_space (manifest_state_key finished_pipeline (finished_task ∷ []))) ≡ false
unfolding manifest_state_key trim_space is_empty
finished_key = refl

finished_posted : (reconcile_pipeline 4 finished_pipeline (finished_task ∷ []) 9 fresh).0 ≡ true
unfolding reconcile_pipeline
finished_posted = refl

reconcile_pipeline_again_example :
    reconcile_pipeline 4 finished_pipeline
      (finished_task ∷ [])
      12
      (reconcile_pipeline 4 finished_pipeline (finished_task ∷ []) 9 fresh).1
    ≡ (true, (reconcile_pipeline 4 finished_pipeline (finished_task ∷ []) 9 fresh).1)
reconcile_pipeline_again_example =
    reconcile_pipeline_again 4 finished_pipeline (finished_task ∷ []) 9 12 fresh finished_key
      finished_posted
