-- ===== src/Tests/Creations.antt =====
-- Creations of a release.
use devflow_service.Base.{Option, [], map, none, refl, some, true, ℕ, ◌∷◌, ◌≡◌}
use devflow_service.Manifest.Types.{Manifest}
use devflow_service.Release.Steps.{is_release_terminal_status}
use devflow_service.Release.Types.{ManifestStatus, Release, ReleaseStatus}
use devflow_service.Service.Create.{CreateClients, create}
use devflow_service.Service.Create.Guarded.{Refused, create-Refused}
use devflow_service.Service.Dispatch.{dispatch_release, dispatch_release-ended}
use devflow_service.Service.Status.{change_status, normalize_release}
use devflow_service.Service.Store.{get, lookup_row, update_argo_metadata}
use devflow_service.Service.World.{M, World, done}
use devflow_service.Tests.Data.{release_of}
use devflow_service.Tests.Manifests.{building, with_manifest}
use devflow_service.Text.{Text, codes, is_empty, text_eq, trim_space}

abbrev plain_clients : CreateClients
plain_clients = record {
  remote = λ id. none;
  find_app_config = λ id env. none;
  list_routes = λ id env. none;
  inject = λ config. config;
  intent_mode = true;
  dispatch = λ id now. done;
}

abbrev manifest_eight : ManifestStatus → Manifest
manifest_eight status = record building { id = 8; status = status }

abbrev requested : Release
requested = record (release_of 0 ReleaseStatus.unset []) { strategy = []; action = [] }

abbrev row_summary : Release → ℕ × (Text × (ReleaseStatus × Option ℕ))
row_summary r = (r.id, (r.strategy, (r.status, r.execution_intent_id)))

created_test :
    map row_summary
      (create plain_clients requested 5 6 20
        (with_manifest (manifest_eight ManifestStatus.available))).1.rows
    ≡ (5, (codes "rolling", (ReleaseStatus.pending, some 6))) ∷ []
unfolding create text_eq
created_test = refl

create-Refused_example :
    Refused (with_manifest (manifest_eight ManifestStatus.running)) (
      create plain_clients requested 5 6 20 (with_manifest (manifest_eight ManifestStatus.running)))
create-Refused_example =
    create-Refused plain_clients requested 5 6 20
      (with_manifest (manifest_eight ManifestStatus.running)) tt ((λ on. refl), tt)

-- Phases that only record the Argo application.
abbrev recording : Release → ℕ → M (Unit {0})
recording r now = update_argo_metadata r.id (codes "shop") (codes "shop") now

abbrev cancelled : Release
cancelled = release_of 4 ReleaseStatus.failed []

abbrev with_cancelled : World
with_cancelled = record (with_manifest building) { rows = cancelled ∷ [] }

abbrev status_and_application : Release → ReleaseStatus × Text
status_and_application r = (r.status, r.argocd_application_name)

dispatched_test :
    map status_and_application (dispatch_release recording 4 9 with_cancelled).1.rows
    ≡ (ReleaseStatus.failed, codes "shop") ∷ []
unfolding dispatch_release update_argo_metadata text_eq is_empty trim_space get normalize_release
    change_status is_release_terminal_status
dispatched_test = refl

dispatch_release-ended_example :
    dispatch_release recording 4 9 with_cancelled
    ≡ recording
        (record (normalize_release cancelled) { status = ReleaseStatus.syncing })
        9
        with_cancelled
unfolding lookup_row is_release_terminal_status
dispatch_release-ended_example =
    dispatch_release-ended recording 4 9 with_cancelled cancelled refl refl refl
