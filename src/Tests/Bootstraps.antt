-- ===== src/Tests/Bootstraps.antt =====
-- The gates of a release on a cluster that is kept as three maps.
use devflow_service.Base.{
  Bool, Bool-cases, List, Option, [], false, if◌then◌else◌, inl, inr, map, none, refl, some, true,
  ◌&&◌, ◌∷◌, ◌≡◌,
}
use devflow_service.Bootstrap.{
  Cluster, Destination, Lookup, Secret, app_project_failed, found, missing, run_bootstrap_gates,
}
use devflow_service.Bootstrap.Again.{Clean, bootstrap_gates_again}
use devflow_service.Bootstrap.Established.{IsReady, bootstrap_gates-IsReady}
use devflow_service.Bootstrap.Ready.{IsCluster, IsFound}
use devflow_service.Text.{Text, codes, text_eq}
use devflow_service.Text.Laws.{text_eq_refl}

pub record Maps : Type 0 where
  pub namespaces : Text → Bool
  pub secrets : Text → Text → Option Secret
  pub projects : Text → Option (List Destination)

abbrev lookup_of : {A : Type 0} → Option A → Lookup A
lookup_of none = missing
lookup_of (some a) = found a

abbrev kept_maps : Cluster Maps
kept_maps = record {
  get_namespace = λ n c. if c.namespaces n then found tt else missing;
  create_namespace =
      λ n c. (none, record c { namespaces = λ m. if text_eq m n then true else c.namespaces m });
  get_secret = λ n name c. lookup_of (c.secrets n name);
  create_secret = λ n name s c. (
    none,
    record c {
      secrets = λ m other_name.
          if text_eq m n && text_eq other_name name then some s else c.secrets m other_name;
    },
  );
  get_project = λ p c. lookup_of (c.projects p);
  update_project =
      λ p ds c. (none, record c { projects = λ q. if text_eq q p then some ds else c.projects q });
}

maps_secret_stays :
    (n name : Text) (s : Secret) (c : Maps) (m other_name : Text)
    → IsFound (kept_maps.get_secret m other_name c)
    → IsFound (kept_maps.get_secret m other_name (kept_maps.create_secret n name s c).1)
maps_secret_stays n name s c m other_name h =
    elim (Bool-cases (text_eq m n && text_eq other_name name)) [
      | inl here ↦ rw here tt
      | inr there ↦ rw there h
    ]

maps-IsCluster : IsCluster kept_maps
maps-IsCluster = record {
  namespace_created = λ n c made. rw (text_eq_refl n) tt;
  secret_created = λ n name s c made. rw (text_eq_refl n, text_eq_refl name) tt;
  secret_stays = maps_secret_stays;
  secret_keeps_namespace = λ n name s c m. refl;
  project_updated = λ p ds c made. rw (text_eq_refl p) refl;
  project_keeps_namespace = λ p ds c m. refl;
  project_keeps_secret = λ p ds c m name. refl;
}

abbrev one_secret : Secret
one_secret = record { kind = codes "dockerconfig"; content = [] }

abbrev with_project : Maps
with_project = record {
  namespaces = λ n. false;
  secrets = λ n name. if text_eq n (codes "devflow-release-service") then some one_secret else none;
  projects = λ p. if text_eq p (codes "app") then some [] else none;
}

gates_test :
    map
      (λ r. r.message)
      (run_bootstrap_gates kept_maps (codes "shop") (codes "s") [] 5 with_project).0.0
    ≡ codes "namespace created"
      ∷ codes "pull secret copied to target namespace"
      ∷ codes "destination added to appproject allowlist"
      ∷ []
unfolding run_bootstrap_gates
gates_test = refl

missing_project_test :
    (run_bootstrap_gates kept_maps (codes "shop") (codes "s") (codes "x") 5 with_project).0.1
    ≡ some (app_project_failed (codes "appproject \"x\" not found"))
unfolding run_bootstrap_gates
missing_project_test = refl

gates_pass : (run_bootstrap_gates kept_maps (codes "shop") (codes "s") [] 5 with_project).0.1 ≡ none
unfolding run_bootstrap_gates
gates_pass = refl

bootstrap_gates-IsReady_example :
    IsReady kept_maps
      (codes "shop")
      (codes "s")
      []
      (run_bootstrap_gates kept_maps (codes "shop") (codes "s") [] 5 with_project).1
bootstrap_gates-IsReady_example =
    bootstrap_gates-IsReady kept_maps maps-IsCluster (codes "shop") (codes "s") [] 5 with_project
      gates_pass

bootstrap_gates_again_example :
    Clean (run_bootstrap_gates kept_maps (codes "shop") (codes "s") [] 5 with_project).1 (
      run_bootstrap_gates kept_maps
        (codes "shop")
        (codes "s")
        []
        9
        (run_bootstrap_gates kept_maps (codes "shop") (codes "s") [] 5 with_project).1)
bootstrap_gates_again_example =
    bootstrap_gates_again kept_maps maps-IsCluster (codes "shop") (codes "s") [] 5 9 with_project
      gates_pass
