-- ===== src/Transport/Writeback.antt =====
-- internal/release/transport/http/release_writeback.go and writeback_support.go. The binding of a
-- JSON body and the parsing of the release id belong to libraries: a request is a bound body, and
-- its id is `none` where the parser refuses it.
pub mod Handlers
pub mod Events
pub mod Failures
use devflow_service.Base.{
  Bool, List, Option, [], false, if◌then◌else◌, none, pos, some, true, ℕ, ◌||◌, ◌∷◌,
}
use devflow_service.Release.Steps.Update.{StepChange}
use devflow_service.Release.Types.{
  ReleaseStatus, StepStatus, failed, other, pending, rolled_back, rolling_back, running, succeeded,
  sync_failed, syncing, unset,
}
use devflow_service.Service.Status.{load_release, update_status}
use devflow_service.Service.Step.{update_step}
use devflow_service.Service.World.{
  M, Result, ServiceError, World, done, err, no_rows, ok, ◌>>=◌, ◌>>◌,
}
use devflow_service.Text.{Text, codes, is_empty, text_eq, to_lower, trim_space}

pub data Response : Type 0 where
  no_content bad_request unauthorized not_found : Response
  internal_error : ServiceError → Response

-- The cases of a switch on a text, in order.
abbrev pub switch_text {ℓ} : {A : Type ℓ} → Text → List (Text × A) → A → A
switch_text s [] otherwise = otherwise
switch_text s ((key, a) ∷ cases) otherwise =
    let rest = switch_text s cases otherwise in if text_eq s key then a else rest

-- `model.ReleaseStatus(phase)`.
release_status_of : Text → ReleaseStatus
unfolding text_eq
release_status_of phase =
    switch_text phase
      ((codes "", ReleaseStatus.unset)
        ∷ (codes "Pending", ReleaseStatus.pending)
        ∷ (codes "Running", ReleaseStatus.running)
        ∷ (codes "Succeeded", ReleaseStatus.succeeded)
        ∷ (codes "Failed", ReleaseStatus.failed)
        ∷ (codes "RollingBack", ReleaseStatus.rolling_back)
        ∷ (codes "RolledBack", ReleaseStatus.rolled_back)
        ∷ (codes "Syncing", ReleaseStatus.syncing)
        ∷ (codes "SyncFailed", ReleaseStatus.sync_failed)
        ∷ [])
      (ReleaseStatus.other phase)

-- `mapArgoStatusToReleaseStatus`.
unfoldable pub map_argo_status_to_release_status : Text → ReleaseStatus
unfolding to_lower release_status_of
map_argo_status_to_release_status phase =
    switch_text (to_lower phase)
      ((codes "succeeded", ReleaseStatus.succeeded)
        ∷ (codes "failed", ReleaseStatus.failed)
        ∷ (codes "error", ReleaseStatus.sync_failed)
        ∷ (codes "running", ReleaseStatus.running)
        ∷ [])
      (release_status_of phase)

-- `releaseStepUpdate`, with the change that `UpdateStep` is given: no times.
pub record ReleaseStepUpdate : Type 0 where
  pub step_code : Text
  pub change : StepChange

abbrev pub step_update : Text → StepStatus → Text → ReleaseStepUpdate
step_update code status message = record {
  step_code = code;
  change = record {
    status = status;
    progress = pos 100;
    message = message;
    start = none;
    end = none;
  };
}

abbrev ended_updates : StepStatus → Text → Text → List ReleaseStepUpdate
ended_updates status first_message last_message =
    step_update (codes "observe_rollout") status first_message
    ∷ step_update (codes "finalize_release") status last_message
    ∷ []

-- The cases of `deriveArgoStepUpdates`.
abbrev pub argo_updates : List (Text × List ReleaseStepUpdate)
argo_updates =
    (
      codes "succeeded",
      ended_updates StepStatus.succeeded (codes "rollout observed as succeeded by argocd")
          (codes "release finalized after rollout observed as succeeded by argocd"),
    )
    ∷ (
      codes "failed",
      ended_updates StepStatus.failed (codes "rollout observed as failed by argocd")
          (codes "release finalized after rollout observed as failed by argocd"),
    )
    ∷ (
      codes "error",
      ended_updates StepStatus.failed (codes "rollout observed as error by argocd")
          (codes "release finalized after rollout observed as error by argocd"),
    )
    ∷ (
      codes "running",
      step_update (codes "observe_rollout") StepStatus.running
            (codes "rollout is running in argocd")
          ∷ [],
    )
    ∷ []

-- `deriveArgoStepUpdates`.
pub derive_argo_step_updates : Text → List ReleaseStepUpdate
unfolding to_lower trim_space text_eq
derive_argo_step_updates phase = switch_text (to_lower (trim_space phase)) argo_updates []

-- The loop of `HandleArgoEvent`, which ends at the first error.
pub apply_updates : ℕ → List ReleaseStepUpdate → ℕ → M (Unit {0})
apply_updates id [] now = done
apply_updates id (u ∷ updates) now = do
  update_step id u.step_code u.change now
  apply_updates id updates now

-- `shouldIgnoreReleaseWritebackError`, and `writeReleaseVerifyError` for the errors that are left.
abbrev is_ignored : ServiceError → Bool
is_ignored no_rows = true
is_ignored _ = false

abbrev pub answer : Result (Unit {0}) × World → Response × World
answer (ok x, w) = (no_content, w)
answer (err e, w) = ((if is_ignored e then no_content else internal_error e), w)

-- The read at the end of `HandleArgoEvent` is for a metric; its error is dropped.
abbrev pub read_for_metric : ℕ → Result (Unit {0}) × World → Result (Unit {0}) × World
read_for_metric id (ok x, w) = (ok x, (load_release id w).1)
read_for_metric id (err e, w) = (err e, w)

pub write_argo_status : ℕ → Text → ℕ → M (Unit {0})
unfolding apply_updates derive_argo_step_updates map_argo_status_to_release_status
write_argo_status id phase now = do
  apply_updates id (derive_argo_step_updates phase) now
  update_status id (map_argo_status_to_release_status phase) now

-- `HandleArgoEvent`.
pub handle_argo_event : Option ℕ → Text → ℕ → World → Response × World
unfolding write_argo_status
handle_argo_event none phase now w = (bad_request, w)
handle_argo_event (some id) phase now w =
    answer (read_for_metric id (write_argo_status id phase now w))

-- `normalizeStepStatus`.
unfoldable pub normalize_step_status : Text → StepStatus
unfolding to_lower text_eq
normalize_step_status status =
    switch_text (to_lower status)
      ((codes "pending", StepStatus.pending)
        ∷ (codes "running", StepStatus.running)
        ∷ (codes "succeeded", StepStatus.succeeded)
        ∷ (codes "failed", StepStatus.failed)
        ∷ (codes "", StepStatus.unset)
        ∷ [])
      (StepStatus.other status)

-- `normalizeArtifactStepStatus`.
pub normalize_artifact_step_status : Text → StepStatus
unfolding normalize_step_status trim_space
normalize_artifact_step_status status = normalize_step_status (trim_space status)

-- `resolveReleaseStepKey`.
pub resolve_release_step_key : Text → Text → Option Text
unfolding trim_space is_empty
resolve_release_step_key step_code step_name =
    if is_empty (trim_space step_code)
    then (if is_empty (trim_space step_name) then none else some (trim_space step_name))
    else some (trim_space step_code)

-- `RequireObserverToken`, on the two headers: whether the request goes on to its handler.
unfoldable pub require_observer_token : Text → Text → Text → Bool
unfolding trim_space is_empty text_eq
require_observer_token expected observer_header verify_header =
    let token =
      if is_empty (trim_space observer_header)
      then trim_space verify_header
      else trim_space observer_header in
    is_empty (trim_space expected) || text_eq token (trim_space expected)
