-- ===== src/Runtime/Reconcile.antt =====
-- internal/runtime/reconcile/release_reconciler.go: the workload of a release, with the release source of
-- internal/runtime/bootstrap/release_runtime.go, which reads the labels of observed workloads.
pub mod Timeouts
pub mod Run
pub mod Tracking
pub mod Matching
pub mod Loss
pub mod Stalls
use devflow_service.Base.{
  Bool, List, Option, [], erase, false, find, if◌then◌else◌, ltb, none, put, some, true, ℕ, ℕ-Key,
  ◌&&◌, ◌-◌, ◌==◌, ◌||◌, ◌∷◌,
}
use devflow_service.Control.Timeout.{minutes}
use devflow_service.Release.Types.{ReleaseStatus, StepStatus, failed, succeeded}
use devflow_service.Runtime.Observed.{ReleaseStepWrite, value_at}
use devflow_service.Runtime.Store.{MemoryStore, list_runtime_specs}
use devflow_service.Runtime.Store.Workloads.{upsert_observed_workload}
use devflow_service.Runtime.Types.{RuntimeObservedWorkload, RuntimeSpec}
use devflow_service.Service.World.{Result, err, no_rows, ok}
use devflow_service.Text.{Text, codes, text_eq, trim_space}
use devflow_service.Text.Laws.{Text-Key}

-- What the reconciler is built from. `uuid_string` and `uuid_parse` are `UUID.String` and
-- `uuid.Parse` of github.com/google/uuid; the label updater, which may be nil, and the writer of
-- steps call Kubernetes and the release service.
pub record WriteReleaseStepsInput : Type 0 where
  pub release_id : ℕ
  pub application_id : ℕ
  pub environment_id : Text
  pub namespace : Text
  pub observed_workload_kind : Text
  pub observed_workload_name : Text
  pub phase : StepStatus
  pub progress : ℕ
  pub message : Text
  pub step_writes : List ReleaseStepWrite

pub record Reconciler : Type 0 where
  pub control_plane_id : Text
  pub uuid_string : ℕ → Text
  pub uuid_parse : Text → Option ℕ
  pub label_updater : Option (RuntimeObservedWorkload → ReleaseStatus → Result (Unit {0}))
  pub steps_writer : WriteReleaseStepsInput → Result (Unit {0})

abbrev pub release_id_label : Text
release_id_label = codes "devflow.io/release-id"

abbrev pub release_status_label : Text
release_status_label = codes "devflow.io/release-status"

abbrev control_plane_label : Text
control_plane_label = codes "devflow.control-plane/id"

abbrev observe_state_label : Text
observe_state_label = codes "devflow.io/observe-state"

-- `ReleaseRecord`.
pub record ReleaseRecord : Type 0 where
  pub release_id : ℕ
  pub application_id : ℕ
  pub environment_id : Text
  pub control_plane_id : Text
  pub status : Text

abbrev pub status_text : ReleaseStatus → Text
status_text succeeded = codes "Succeeded"
status_text _ = codes "Failed"

abbrev restatus : Option ReleaseStatus → List (Text × Text) → List (Text × Text)
restatus none labels = erase release_status_label labels
restatus (some status) labels = put release_status_label (status_text status) labels

-- `clearObservedWorkloadReleaseTracking`.
unfoldable pub clear_tracking :
    Option ReleaseStatus → RuntimeObservedWorkload → RuntimeObservedWorkload
clear_tracking status w = record w {
  labels =
      put observe_state_label (codes "done") (restatus status (erase release_id_label w.labels));
}

-- `terminalReleaseStatus`.
abbrev pub terminal_release_status : StepStatus → Option ReleaseStatus
terminal_release_status StepStatus.succeeded = some ReleaseStatus.succeeded
terminal_release_status StepStatus.failed = some ReleaseStatus.failed
terminal_release_status _ = none

-- `defaultObservedReleaseTTL`: 45 minutes. An instant 0 is the zero time.
unfoldable pub is_stale : ℕ → RuntimeObservedWorkload → Bool
is_stale now w = w.observed_at == 0 || ltb (minutes 45) (now - w.observed_at)

abbrev pub record_if : ℕ → Option ReleaseRecord → Option ReleaseRecord → Option ReleaseRecord
record_if id none rest = rest
record_if id (some found) rest = if found.release_id == id then some found else rest

-- The tests before the age of a workload, in `getObservedWorkloadByRelease`.
unfoldable pub in_place : ReleaseRecord → RuntimeSpec → Bool
unfolding text_eq trim_space
in_place release spec =
    spec.application_id == release.application_id
    && text_eq (trim_space spec.environment) (trim_space release.environment_id)

-- `if matched == nil || workload.ObservedAt.After(matched.ObservedAt)`.
abbrev pub more_recent :
    Option RuntimeObservedWorkload → RuntimeObservedWorkload → RuntimeObservedWorkload
more_recent none w = w
more_recent (some matched) w = if ltb matched.observed_at w.observed_at then w else matched

abbrev pub cleared : RuntimeObservedWorkload → MemoryStore → MemoryStore
cleared w s = upsert_observed_workload (some (clear_tracking none w)) s

module _ (r : Reconciler) where
  abbrev or_no_id : Option ℕ → Option ℕ
  or_no_id none = none
  or_no_id (some id) = if id == 0 then none else some id

  -- The release that a workload is labelled with, if its label is a UUID other than `uuid.Nil`.
  unfoldable pub tracked_release : RuntimeObservedWorkload → Option ℕ
  unfolding value_at
  tracked_release w = or_no_id (r.uuid_parse (value_at release_id_label w.labels))

  abbrev pub record_of : RuntimeSpec → RuntimeObservedWorkload → ℕ → ReleaseRecord
  record_of spec w id = record {
    release_id = id;
    application_id = spec.application_id;
    environment_id = trim_space spec.environment;
    control_plane_id = value_at control_plane_label w.labels;
    status = value_at release_status_label w.labels;
  }

  -- `releaseFromObservedWorkload`.
  unfoldable pub release_from_workload :
      RuntimeSpec → RuntimeObservedWorkload → Option ReleaseRecord
  unfolding tracked_release value_at trim_space
  release_from_workload spec w = elim (tracked_release w) [
    | none ↦ none
    | some id ↦ some (record_of spec w id)
  ]

  -- The loop of `GetRelease` of the release source.
  unfoldable pub release_among : ℕ → List RuntimeSpec → MemoryStore → Option ReleaseRecord
  unfolding release_from_workload
  release_among id [] s = none
  release_among id (spec ∷ specs) s =
      let rest = release_among id specs s in
      elim (find spec.id s.observed_workloads) [
        | none ↦ rest
        | some w ↦ record_if id (release_from_workload spec w) rest
      ]

  -- `GetRelease` of the release source.
  unfoldable pub get_release : ℕ → MemoryStore → Option ReleaseRecord
  unfolding release_among list_runtime_specs
  get_release id s = release_among id (list_runtime_specs s) s

  unfoldable pub is_tracked : ReleaseRecord → RuntimeObservedWorkload → Bool
  unfolding text_eq value_at
  is_tracked release w =
      text_eq (value_at release_id_label w.labels) (r.uuid_string release.release_id)
      && elim w.deleted_at [ none ↦ true | some t ↦ false ]

  -- The loop of `getObservedWorkloadByRelease`: a spec without a workload is an error.
  unfoldable pub match_workload :
      ReleaseRecord
      → ℕ
      → List RuntimeSpec
      → Option RuntimeObservedWorkload
      → MemoryStore
      → Result (Option RuntimeObservedWorkload) × MemoryStore
  unfolding in_place is_tracked is_stale upsert_observed_workload clear_tracking
  match_workload release now [] matched s = (ok matched, s)
  match_workload release now (spec ∷ specs) matched s =
      let skip = match_workload release now specs matched s in
      elim (in_place release spec) [
        | false ↦ skip
        | true ↦ elim (find spec.id s.observed_workloads) [
          | none ↦ (err no_rows, s)
          | some w ↦ elim (is_tracked release w) [
            | false ↦ skip
            | true ↦ elim (is_stale now w) [
              | true ↦ match_workload release now specs matched (cleared w s)
              | false ↦ match_workload release now specs (some (more_recent matched w)) s
            ]
          ]
        ]
      ]
