-- ===== src/Bootstrap.antt =====
-- internal/release/service/release_bootstrap.go: the gates that a release passes before its Argo
-- application is applied. A gate reads one instant, `now`.
pub mod Ready
pub mod Established
pub mod Again
use devflow_service.Base.{
  Bool, List, Option, [], false, if◌then◌else◌, none, some, true, ℕ, ◌&&◌, ◌++◌, ◌||◌, ◌∷◌,
}
use devflow_service.Release.Types.{StepStatus, failed, succeeded}
use devflow_service.Text.{Text, codes, is_empty, text_eq}

-- The answer of a client to a read; `lookup_failed` stands for any error but "not found".
pub data Lookup {ℓ} (A : Type ℓ) : Type ℓ where
  found : A → Lookup A
  missing : Lookup A
  lookup_failed : Text → Lookup A

pub record Secret : Type 0 where
  pub kind : Text
  pub content : List (Text × Text)

pub record Destination : Type 0 where
  pub server : Text
  pub namespace : Text

-- The clients of Kubernetes and of Argo, on what they read and write. A write answers with the
-- text of its error.
pub record Cluster (C : Type 0) : Type 0 where
  pub get_namespace : Text → C → Lookup (Unit {0})
  pub create_namespace : Text → C → Option Text × C
  pub get_secret : Text → Text → C → Lookup Secret
  pub create_secret : Text → Text → Secret → C → Option Text × C
  pub get_project : Text → C → Lookup (List Destination)
  pub update_project : Text → List Destination → C → Option Text × C

-- `bootstrapResult`.
pub record GateResult : Type 0 where
  pub step_name : Text
  pub status : StepStatus
  pub message : Text
  pub start : Option ℕ
  pub end : Option ℕ

abbrev gate_result : StepStatus → Text → ℕ → Text → GateResult
gate_result status name now message = record {
  step_name = name;
  status = status;
  message = message;
  start = some now;
  end = some now;
}

abbrev pub passed : Text → ℕ → Text → GateResult
passed = gate_result StepStatus.succeeded

abbrev refused : Text → ℕ → Text → GateResult
refused = gate_result StepStatus.failed

pub data BootstrapError : Type 0 where
  missing_target : BootstrapError
  namespace_failed pull_secret_failed app_project_failed : Text → BootstrapError

abbrev pub source_namespace : Text
source_namespace = codes "devflow-release-service"

abbrev pub source_name : Text
source_name = codes "registry-credentials"

unfoldable pub lists_destination : Text → Text → List Destination → Bool
unfolding text_eq
lists_destination server namespace [] = false
lists_destination server namespace (d ∷ destinations) =
    (text_eq d.server server && text_eq d.namespace namespace)
    || lists_destination server namespace destinations

abbrev pub project_or_default : Text → Text
project_or_default project = if is_empty project then codes "app" else project

abbrev pub written : {C : Type 0} → Text → ℕ → Text → Text → Option Text × C → GateResult × C
written name now done_message failed_message (none, c) = (passed name now done_message, c)
written name now done_message failed_message (some e, c) =
    (refused name now (failed_message ++ e), c)

module _ {C : Type 0} (k : Cluster C) where
  abbrev pub namespace_gate : Text → ℕ → C → Lookup (Unit {0}) → GateResult × C
  namespace_gate namespace now c (found x) =
      (passed (codes "ensure_namespace") now (codes "namespace already exists"), c)
  namespace_gate namespace now c (lookup_failed e) =
      (refused (codes "ensure_namespace") now (codes "namespace lookup failed: " ++ e), c)
  namespace_gate namespace now c missing =
      written (codes "ensure_namespace") now (codes "namespace created")
        (codes "namespace create failed: ") (k.create_namespace namespace c)

  -- `gateEnsureNamespace`.
  unfoldable pub gate_ensure_namespace : Text → ℕ → C → GateResult × C
  gate_ensure_namespace namespace now c =
      namespace_gate namespace now c (k.get_namespace namespace c)

  abbrev pub target_secret_gate : Text → ℕ → C → Secret → Lookup Secret → GateResult × C
  target_secret_gate namespace now c source (found s) = (
    passed (codes "ensure_pull_secret") now
        (codes "pull secret already exists in target namespace"),
    c,
  )
  target_secret_gate namespace now c source (lookup_failed e) = (
    refused (codes "ensure_pull_secret") now (codes "target pull secret lookup failed: " ++ e),
    c,
  )
  target_secret_gate namespace now c source missing =
      written (codes "ensure_pull_secret") now (codes "pull secret copied to target namespace")
        (codes "pull secret create failed: ") (k.create_secret namespace source_name source c)

  abbrev pub secret_gate : Text → ℕ → C → Lookup Secret → GateResult × C
  secret_gate namespace now c missing =
      (passed (codes "ensure_pull_secret") now (codes "no source pull secret to copy; skipped"), c)
  secret_gate namespace now c (lookup_failed e) = (
    refused (codes "ensure_pull_secret") now (codes "source pull secret lookup failed: " ++ e),
    c,
  )
  secret_gate namespace now c (found source) =
      target_secret_gate namespace now c source (k.get_secret namespace source_name c)

  -- `gateEnsurePullSecret`.
  unfoldable pub gate_ensure_pull_secret : Text → ℕ → C → GateResult × C
  gate_ensure_pull_secret namespace now c =
      secret_gate namespace now c (k.get_secret source_namespace source_name c)

  abbrev pub project_gate : Text → Text → Text → ℕ → C → Lookup (List Destination) → GateResult × C
  project_gate project server namespace now c missing = (
    refused (codes "ensure_appproject_destination") now
        (codes "appproject \"" ++ (project ++ codes "\" not found")),
    c,
  )
  project_gate project server namespace now c (lookup_failed e) = (
    refused (codes "ensure_appproject_destination") now (codes "appproject lookup failed: " ++ e),
    c,
  )
  project_gate project server namespace now c (found destinations) =
      if lists_destination server namespace destinations
      then (
        passed (codes "ensure_appproject_destination") now
            (codes "destination already in allowlist"),
        c,
      )
      else written (codes "ensure_appproject_destination") now
          (codes "destination added to appproject allowlist") (codes "appproject update failed: ")
          (k.update_project project
            (destinations ++ (record { server = server; namespace = namespace } ∷ [])) c)

  -- `gateEnsureAppProjectDestination`.
  unfoldable pub gate_ensure_app_project_destination : Text → Text → Text → ℕ → C → GateResult × C
  unfolding lists_destination is_empty
  gate_ensure_app_project_destination project server namespace now c =
      project_gate (project_or_default project) server namespace now c
        (k.get_project (project_or_default project) c)

abbrev pub is_failed_gate : StepStatus → Bool
is_failed_gate StepStatus.failed = true
is_failed_gate _ = false

-- The results up to the first that fails, and the error.
abbrev pub Gates : Type 0 → Type 0
Gates C = (List GateResult × Option BootstrapError) × C

abbrev pub with_result : {C : Type 0} → GateResult → Gates C → Gates C
with_result r ((results, error), c) = ((r ∷ results, error), c)

abbrev pub after_gate :
    {C : Type 0} → (Text → BootstrapError) → GateResult × C → (C → Gates C) → Gates C
after_gate error (r, c) rest =
    if is_failed_gate r.status
    then ((r ∷ [], some (error r.message)), c)
    else with_result r (rest c)

-- `runBootstrapGates`.
unfoldable pub run_bootstrap_gates : {C : Type 0} → Cluster C → Text → Text → Text → ℕ → C → Gates C
unfolding gate_ensure_namespace gate_ensure_pull_secret gate_ensure_app_project_destination is_empty
run_bootstrap_gates k namespace server project now c =
    if is_empty namespace || is_empty server
    then (([], some missing_target), c)
    else after_gate namespace_failed (gate_ensure_namespace k namespace now c) λ c1.
      after_gate pull_secret_failed (gate_ensure_pull_secret k namespace now c1) λ c2.
        after_gate app_project_failed
          (gate_ensure_app_project_destination k project server namespace now c2)
          λ c3. (([], none), c3)
