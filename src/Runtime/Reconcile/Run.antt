-- ===== src/Runtime/Reconcile/Run.antt =====
-- Reconcile of internal/runtime/reconcile/release_reconciler.go.
use devflow_service.Base.{
  Bool, List, Option, [], false, if◌then◌else◌, none, some, true, ℕ, ◌++◌, ◌∷◌,
}
use devflow_service.Release.Types.{ReleaseStatus, StepStatus}
use devflow_service.Runtime.Observed.{NormalizedReleaseObservedState, ReleaseStepWrite}
use devflow_service.Runtime.Observed.Normalize.{normalize_for_reconcile}
use devflow_service.Runtime.Reconcile.{
  Reconciler, ReleaseRecord, WriteReleaseStepsInput, clear_tracking, get_release, match_workload,
  terminal_release_status,
}
use devflow_service.Runtime.Reconcile.Timeouts.{apply_timeouts}
use devflow_service.Runtime.Store.{MemoryStore, list_runtime_specs}
use devflow_service.Runtime.Store.Workloads.{upsert_observed_workload}
use devflow_service.Runtime.Types.{RuntimeObservedWorkload}
use devflow_service.Service.Artifact.{update}
use devflow_service.Service.World.{Result, ServiceError, err, ok}
use devflow_service.Text.{Text, text_eq, trim_space}

-- What a call returns: nil, an error, or the request to run again after five seconds.
pub data ReconcileResult : Type 0 where
  nothing_to_do : ReconcileResult
  broken : ServiceError → ReconcileResult
  requeue_after : ℕ → ReconcileResult

-- What a call leaves, the input of its call of the steps writer, if there is one, and its result.
pub record Reconciled : Type 0 where
  pub store : MemoryStore
  pub written : Option WriteReleaseStepsInput
  pub result : ReconcileResult

abbrev pub quiet : MemoryStore → Reconciled
quiet s = record { store = s; written = none; result = nothing_to_do }

abbrev stops : ServiceError → MemoryStore → Reconciled
stops e s = record { store = s; written = none; result = broken e }

abbrev with_final : Option ReleaseStepWrite → List ReleaseStepWrite
with_final none = []
with_final (some write) = write ∷ []

abbrev pub input_of :
    ReleaseRecord
    → RuntimeObservedWorkload
    → NormalizedReleaseObservedState
    → WriteReleaseStepsInput
input_of release w state = record {
  release_id = release.release_id;
  application_id = release.application_id;
  environment_id = release.environment_id;
  namespace = trim_space w.namespace;
  observed_workload_kind = trim_space w.workload_kind;
  observed_workload_name = trim_space w.workload_name;
  phase = state.phase;
  progress = state.progress;
  message = state.message;
  step_writes = state.step_writes ++ with_final state.finalize_state;
}

-- The cleanup of the store when the status is terminal.
abbrev pub cleaned : Option ReleaseStatus → RuntimeObservedWorkload → MemoryStore → MemoryStore
cleaned none w s = s
cleaned (some status) w s = upsert_observed_workload (some (clear_tracking (some status) w)) s

-- What is left after the writer succeeded, by whether the label updater did.
abbrev after_write : Bool → StepStatus → ReconcileResult
after_write false phase = nothing_to_do
after_write true StepStatus.running = requeue_after 5
after_write true _ = nothing_to_do

abbrev result_of : Result (Unit {0}) → Bool → StepStatus → ReconcileResult
result_of (err e) labelled phase = broken e
result_of (ok _) labelled phase = after_write labelled phase

abbrev is_ok : Result (Unit {0}) → Bool
is_ok (ok _) = true
is_ok (err e) = false

module _ (r : Reconciler) where
  -- Whether the call of the label updater, if there is one, succeeds.
  unfoldable pub label_updated : Option ReleaseStatus → RuntimeObservedWorkload → Bool
  label_updated none w = true
  label_updated (some status) w = elim r.label_updater [
    | none ↦ true
    | some update ↦ is_ok (update w status)
  ]

  -- The state that a call reports of a workload.
  unfoldable pub reported_state :
      ReleaseRecord → RuntimeObservedWorkload → ℕ → NormalizedReleaseObservedState
  unfolding normalize_for_reconcile apply_timeouts
  reported_state release w now = apply_timeouts release w (normalize_for_reconcile w now) now

  -- The part of `Reconcile` after the workload was found.
  unfoldable pub report_workload :
      ReleaseRecord → RuntimeObservedWorkload → ℕ → MemoryStore → Reconciled
  unfolding reported_state label_updated upsert_observed_workload clear_tracking
  report_workload release w now s =
      let state = reported_state release w now in
      let status = terminal_release_status state.phase in
      let input = input_of release w state in
      record {
        store = cleaned status w s;
        written = some input;
        result = result_of (r.steps_writer input) (label_updated status w) state.phase;
      }

  abbrev pub after_match :
      ReleaseRecord → ℕ → Result (Option RuntimeObservedWorkload) × MemoryStore → Reconciled
  after_match release now (err e, s) = stops e s
  after_match release now (ok none, s) = quiet s
  after_match release now (ok (some w), s) = report_workload release w now s

  abbrev pub after_release : ℕ → MemoryStore → Option ReleaseRecord → Reconciled
  after_release now s none = quiet s
  after_release now s (some release) =
      if text_eq (trim_space release.control_plane_id) r.control_plane_id
      then after_match release now (match_workload r release now (list_runtime_specs s) none s)
      else quiet s

  abbrev pub after_parse : ℕ → MemoryStore → Option ℕ → Reconciled
  after_parse now s none = quiet s
  after_parse now s (some id) = after_release now s (get_release r id s)

  -- `Reconcile` of the release with an id in text, at the instant `now`.
  unfoldable pub reconcile : Text → ℕ → MemoryStore → Reconciled
  unfolding report_workload match_workload list_runtime_specs get_release trim_space text_eq
  reconcile release_id now s = after_parse now s (r.uuid_parse (trim_space release_id))
