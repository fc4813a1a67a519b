-- ===== src/Service/Create.antt =====
-- Create of internal/release/service/release.go, with populateReleaseDefaults and
-- freezeReleaseLiveInputs. The id that comes with an error is left out, and so is the log.
pub mod Guarded
use devflow_service.Base.{
  Bool, List, Option, [], false, if◌then◌else◌, none, not, some, true, ℕ, ◌==◌, ◌∷◌,
}
use devflow_service.Intent.Worker.{create_release_intent}
use devflow_service.Manifest.Store.{get_manifest}
use devflow_service.Manifest.Tekton.{is_missing_row}
use devflow_service.Manifest.Types.{Manifest}
use devflow_service.Release.Names.{or_text}
use devflow_service.Release.Steps.{default_release_steps}
use devflow_service.Release.Steps.Update.{mark_release_step_completed}
use devflow_service.Release.Types.{
  ManifestStatus, Release, ReleaseAppConfig, ReleaseRoute, ReleaseStatus, ReleaseStep, available,
  normalize_release_action, normalize_release_strategy, pending, release_strategy_to_type,
  sync_failed,
}
use devflow_service.Runtime.Store.Calls.{answered, step}
use devflow_service.Service.Status.{update_status}
use devflow_service.Service.Store.{insert}
use devflow_service.Service.World.{
  M, Result, World, and_then, err, fail, manifest_not_available, manifest_not_found, ok, return,
  ◌>>=◌, ◌>>◌,
}
use devflow_service.Text.{Text, codes, trim_space}

-- What other services and the configuration answer: `remote` is the client of another manifest
-- service, which is `none` without its address, and gives `no_rows` for the status 404; the snapshots
-- are `none` where the lookup fails or finds nothing; `inject` is `injectReleaseRuntimeConfigSnapshot`.
-- `dispatch` is `DispatchRelease`.
pub record CreateClients : Type 0 where
  pub remote : ℕ → Option (Result Manifest)
  pub find_app_config : ℕ → Text → Option ReleaseAppConfig
  pub list_routes : ℕ → Text → Option (List ReleaseRoute)
  pub inject : ReleaseAppConfig → ReleaseAppConfig
  pub intent_mode : Bool
  pub dispatch : ℕ → ℕ → M (Unit {0})

-- `releaseManifestReaderWithFallback.Get`.
abbrev pub fall_back : Option (Result Manifest) → Result Manifest × World → Result Manifest × World
fall_back none r = r
fall_back (some answered) (ok m, w) = (ok m, w)
fall_back (some answered) (err e, w) = ((if is_missing_row e then answered else err e), w)

-- The error of the first `if` of `Create`.
abbrev pub manifest_error : Result Manifest × World → Result Manifest × World
manifest_error (ok m, w) = (ok m, w)
manifest_error (err e, w) = (err (if is_missing_row e then manifest_not_found else e), w)

-- `isReleaseDeployableManifestStatus`.
abbrev pub is_deployable : ManifestStatus → Bool
is_deployable ManifestStatus.available = true
is_deployable _ = false

abbrev default_steps : Text → Text → List ReleaseStep → List ReleaseStep
default_steps strategy action [] = default_release_steps (release_strategy_to_type strategy) action
default_steps strategy action (step ∷ steps) = step ∷ steps

-- `populateReleaseDefaults`. The normalized action and strategy are never empty.
unfoldable pub populate_release_defaults : ℕ → Text → Release → Release
unfolding normalize_release_strategy normalize_release_action
populate_release_defaults application environment release =
    let strategy = normalize_release_strategy release.strategy in
    let action = normalize_release_action release.action in
    record release {
      application_id = application;
      strategy = strategy;
      action = action;
      environment_id = or_text release.environment_id environment;
      status = ReleaseStatus.pending;
      steps = default_steps strategy action release.steps;
    }

module _ (k : CreateClients) where
  abbrev with_config : Option ReleaseAppConfig → Release → Release
  with_config none release = release
  with_config (some config) release = record release { app_config_snapshot = k.inject config }

  abbrev with_routes : Option (List ReleaseRoute) → Release → Release
  with_routes none release = release
  with_routes (some routes) release = record release { routes_snapshot = routes }

  -- `freezeReleaseLiveInputs`.
  unfoldable pub freeze_release_live_inputs : Release → Release
  unfolding trim_space
  freeze_release_live_inputs release =
      with_routes (k.list_routes release.application_id release.environment_id) (
        with_config (k.find_app_config release.application_id (trim_space release.environment_id))
          release)

  -- `WithCreateDefault`, with the id that `uuid.New` makes.
  abbrev with_create_default : ℕ → ℕ → Release → Release
  with_create_default fresh now release = record release {
    id = if release.id == 0 then fresh else release.id;
    created_at = now;
    updated_at = now;
  }

  unfoldable pub frozen_release : Manifest → ℕ → ℕ → Release → Release
  unfolding populate_release_defaults freeze_release_live_inputs mark_release_step_completed
  frozen_release manifest fresh now release =
      let frozen = freeze_release_live_inputs (
        populate_release_defaults manifest.application_id (trim_space release.environment_id)
          release) in
      with_create_default fresh now (record frozen {
        steps =
            mark_release_step_completed (codes "freeze_inputs")
              (codes "release inputs frozen successfully") now frozen.steps;
      })

  -- `handleSyncArgoError`, whose own error is dropped.
  abbrev pub sync_failed_after : ℕ → ℕ → Result (Unit {0}) × World → Result ℕ × World
  sync_failed_after id now (ok x, w) = (ok id, w)
  sync_failed_after id now (err e, w) =
      (err e, (update_status id ReleaseStatus.sync_failed now w).1)

  unfoldable pub start_release : Release → ℕ → ℕ → M ℕ
  unfolding create_release_intent update_status
  start_release release intent now w =
      if k.intent_mode
      then (create_release_intent release intent now >>= λ r. return r.id) w
      else sync_failed_after release.id now (k.dispatch release.id now w)

  unfoldable pub create_from : Release → ℕ → ℕ → ℕ → Manifest → M ℕ
  unfolding insert frozen_release start_release
  create_from release fresh intent now manifest =
      if not (is_deployable manifest.status) then fail manifest_not_available else (do
        insert (frozen_release manifest fresh now release)
        start_release (frozen_release manifest fresh now release) intent now)

  -- `Create`.
  unfoldable pub create : Release → ℕ → ℕ → ℕ → M ℕ
  unfolding get_manifest create_from
  create release fresh intent now w =
      and_then
        (manifest_error
          (fall_back (k.remote release.manifest_id) (get_manifest release.manifest_id w)))
        (create_from release fresh intent now)
