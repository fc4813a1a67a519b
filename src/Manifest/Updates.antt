-- ===== src/Manifest/Updates.antt =====
-- The updates of internal/manifest/service/manifest.go. Each runs at one instant, `now`. The mark
-- that an ended build leaves on its pipeline run, whose errors the code drops, is left out.
use devflow_service.Base.{
  Bool, List, Option, [], false, if◌then◌else◌, is_yes, none, not, some, true, ℕ, ℕ_discrete, ◌&&◌,
  ◌==◌, ◌||◌, ◌∷◌, ◌≡◌,
}
use devflow_service.Manifest.Store.{
  BuildResult, get_by_pipeline_id, get_manifest, store_build_result, store_pipeline_id,
  store_status_and_steps,
}
use devflow_service.Manifest.Types.{ImageTask, Manifest}
use devflow_service.Release.Types.{ManifestStatus, StepStatus, StepStatus-discrete}
use devflow_service.Service.Step.{is_settled}
use devflow_service.Service.World.{M, done, fail, invalid_argument, ◌>>=◌}
use devflow_service.Text.{Text, codes, text_eq, trim_space}

unfoldable ManifestStatus-discrete : Discrete ManifestStatus
ManifestStatus-discrete = hlevel ℕ_discrete

unfoldable pub same_manifest_status : ManifestStatus → ManifestStatus → Bool
unfolding ManifestStatus-discrete
same_manifest_status a b = is_yes (ManifestStatus-discrete a b)

yes_equal : (a b : ManifestStatus) (d : Dec (a ≡ b)) → is_yes d ≡ true → a ≡ b
yes_equal a b (yes e) h = e
yes_equal a b (no h) k = cc

pub same_manifest_status_equal : (a b : ManifestStatus) → same_manifest_status a b ≡ true → a ≡ b
unfolding same_manifest_status
same_manifest_status_equal a b h = yes_equal a b (ManifestStatus-discrete a b) h

abbrev same_step_status : StepStatus → StepStatus → Bool
same_step_status a b = is_yes (StepStatus-discrete a b)

-- `isManifestTerminalStatus`.
abbrev pub is_ended : ManifestStatus → Bool
is_ended ManifestStatus.available = true
is_ended ManifestStatus.unavailable = true
is_ended _ = false

-- The empty status counts as pending.
abbrev current_or_pending : ManifestStatus → ManifestStatus
current_or_pending (ManifestStatus.other []) = ManifestStatus.pending
current_or_pending status = status

-- `normalizeRuntimeManifestStatus`.
unfoldable pub normalize_manifest_status : ManifestStatus → ManifestStatus → ManifestStatus
normalize_manifest_status (ManifestStatus.other s) current = current_or_pending current
normalize_manifest_status requested current = requested

abbrev refuse_nil : ℕ → M (Unit {0}) → M (Unit {0})
refuse_nil id m =
    if id == 0 then fail (invalid_argument (codes "manifest id cannot be zero")) else m

abbrev pub unless_ended : Manifest → M (Unit {0}) → M (Unit {0})
unless_ended m change = if is_ended m.status then done else change

-- `AssignPipelineID`.
unfoldable pub assign_pipeline_id : ℕ → Text → ℕ → M (Unit {0})
unfolding get_manifest store_pipeline_id trim_space
assign_pipeline_id id pipeline now = refuse_nil id (do
  current ← get_manifest id
  unless_ended current (store_pipeline_id id (trim_space pipeline) now))

-- What `UpdateManifestStatusByID` and `UpdateManifestStatus` do with the row.
unfoldable pub move_manifest : Manifest → ManifestStatus → ℕ → M (Unit {0})
unfolding store_status_and_steps normalize_manifest_status same_manifest_status
move_manifest m requested now =
    let next = normalize_manifest_status requested m.status in
    if same_manifest_status m.status next
    then done
    else store_status_and_steps m.id next m.steps m.pipeline_id now

-- `UpdateManifestStatusByID`.
unfoldable pub update_manifest_status_by_id : ℕ → ManifestStatus → ℕ → M (Unit {0})
unfolding get_manifest move_manifest
update_manifest_status_by_id id requested now =
    refuse_nil id
      (do current ← get_manifest id; unless_ended current (move_manifest current requested now))

-- `UpdateManifestStatus`.
unfoldable pub update_manifest_status : Text → ManifestStatus → ℕ → M (Unit {0})
unfolding get_by_pipeline_id move_manifest
update_manifest_status pipeline requested now = do
  m ← get_by_pipeline_id pipeline
  unless_ended m (move_manifest m requested now)

-- A report on one task.
pub record TaskReport : Type 0 where
  pub task_name : Text
  pub status : StepStatus
  pub message : Text
  pub start_time : Option ℕ
  pub end_time : Option ℕ

abbrev or_old : Option ℕ → Option ℕ → Option ℕ
or_old (some t) old = some t
or_old none old = old

abbrev reported_task : TaskReport → ImageTask → ImageTask
reported_task r task = record task {
  status = r.status;
  message = r.message;
  start_time = or_old r.start_time task.start_time;
  end_time = or_old r.end_time task.end_time;
}

-- The steps with a change, and whether there was one; `none` where the code returns early.
pub record TaskChange : Type 0 where
  pub steps : List ImageTask
  pub changed : Bool

abbrev with_task : ImageTask → Bool → Option TaskChange → Option TaskChange
with_task task now_changed none = none
with_task task now_changed (some rest) =
    some (record { steps = task ∷ rest.steps; changed = now_changed || rest.changed })

-- The loop of `UpdateStepStatus`.
unfoldable pub change_tasks : TaskReport → List ImageTask → Option TaskChange
unfolding text_eq
change_tasks r [] = some (record { steps = []; changed = false })
change_tasks r (task ∷ tasks) =
    let rest = change_tasks r tasks in
    if not (text_eq task.task_name r.task_name)
    then with_task task false rest
    else if is_settled task.status || same_step_status task.status r.status
    then none
    else with_task (reported_task r task) true rest

-- The loop of `BindTaskRun`.
unfoldable pub bind_tasks : Text → Text → List ImageTask → Option TaskChange
unfolding text_eq
bind_tasks name pod [] = some (record { steps = []; changed = false })
bind_tasks name pod (task ∷ tasks) =
    let rest = bind_tasks name pod tasks in
    if not (text_eq task.task_name name)
    then with_task task false rest
    else if text_eq task.task_run pod
    then none
    else with_task (record task { task_run = pod }) true rest

abbrev pub store_change : Manifest → Option TaskChange → ℕ → M (Unit {0})
store_change m none now = done
store_change m (some change) now =
    if change.changed
    then store_status_and_steps m.id m.status change.steps m.pipeline_id now
    else done

-- `UpdateStepStatus`.
unfoldable pub update_step_status : Text → TaskReport → ℕ → M (Unit {0})
unfolding get_by_pipeline_id store_status_and_steps change_tasks
update_step_status pipeline r now = do
  m ← get_by_pipeline_id pipeline
  unless_ended m (store_change m (change_tasks r m.steps) now)

-- `BindTaskRun`.
unfoldable pub bind_task_run : Text → Text → Text → ℕ → M (Unit {0})
unfolding get_by_pipeline_id store_status_and_steps bind_tasks
bind_task_run pipeline name pod now = do
  m ← get_by_pipeline_id pipeline
  unless_ended m (store_change m (bind_tasks name pod m.steps) now)

abbrev pub trimmed_result : BuildResult → BuildResult
trimmed_result r = record {
  commit_hash = trim_space r.commit_hash;
  image_ref = trim_space r.image_ref;
  image_tag = trim_space r.image_tag;
  image_digest = trim_space r.image_digest;
}

abbrev pub holds_result : Manifest → BuildResult → Bool
holds_result m r =
    text_eq m.commit_hash r.commit_hash
    && text_eq m.image_ref r.image_ref
    && text_eq m.image_tag r.image_tag
    && text_eq m.image_digest r.image_digest

-- `UpdateBuildResult`.
unfoldable pub update_build_result : Text → BuildResult → ℕ → M (Unit {0})
unfolding get_by_pipeline_id store_build_result trim_space text_eq
update_build_result pipeline r now = do
  m ← get_by_pipeline_id pipeline
  unless_ended m (
      if holds_result m (trimmed_result r)
      then done
      else store_build_result m.id (trimmed_result r) m.status now)
