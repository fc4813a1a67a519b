-- ===== src/Bootstrap/Again.antt =====
-- A run of the gates on a cluster that an earlier run has prepared.
use devflow_service.Base.{Bool-cases, List, [], false, inl, inr, none, refl, ℕ, ◌||◌, ◌≡◌}
use devflow_service.Bootstrap.{
  BootstrapError, Cluster, Destination, GateResult, Gates, Lookup, Secret, after_gate,
  app_project_failed, found, gate_ensure_app_project_destination, gate_ensure_namespace,
  gate_ensure_pull_secret, is_failed_gate, lookup_failed, missing, namespace_failed, namespace_gate,
  project_gate, project_or_default, pull_secret_failed, run_bootstrap_gates, secret_gate,
  source_name, source_namespace, target_secret_gate,
}
use devflow_service.Bootstrap.Established.{IsReady, bootstrap_gates-IsReady}
use devflow_service.Bootstrap.Ready.{IsCluster, IsFound, ListsTarget, SecretReady}
use devflow_service.Text.{Text, is_empty}

-- The gate passes and writes nothing.
abbrev Passes : {C : Type 0} → C → GateResult × C → Type 0
Passes c r = (is_failed_gate r.0.status ≡ false) × (r.1 ≡ c)

-- No error, and nothing written.
abbrev pub Clean : {C : Type 0} → C → Gates C → Type 0
Clean c g = (g.0.1 ≡ none) × (g.1 ≡ c)

after_gate-Clean :
    {C : Type 0} (c : C) (error : Text → BootstrapError) (r : GateResult × C) (rest : C → Gates C)
    → Passes c r
    → Clean c (rest c)
    → Clean c (after_gate error r rest)
after_gate-Clean c error (r, c1) rest (passing, same) clean = rw (passing, same) clean

namespace_gate-Passes :
    {C : Type 0} (k : Cluster C) (namespace : Text) (now : ℕ) (c : C) (l : Lookup (Unit {0}))
    → IsFound l
    → Passes c (namespace_gate k namespace now c l)
namespace_gate-Passes k namespace now c (found x) h = (refl, refl)
namespace_gate-Passes k namespace now c missing h = absurd h
namespace_gate-Passes k namespace now c (lookup_failed x) h = absurd h

target_gate-Passes :
    {C : Type 0} (k : Cluster C) (namespace : Text) (now : ℕ) (c : C) (s : Secret)
    (l : Lookup Secret)
    → IsFound l
    → Passes c (target_secret_gate k namespace now c s l)
target_gate-Passes k namespace now c s (found x) h = (refl, refl)
target_gate-Passes k namespace now c s missing h = absurd h
target_gate-Passes k namespace now c s (lookup_failed x) h = absurd h

secret_gate-Passes :
    {C : Type 0} (k : Cluster C) (namespace : Text) (now : ℕ) (c : C) (l : Lookup Secret)
    → SecretReady l (k.get_secret namespace source_name c)
    → Passes c (secret_gate k namespace now c l)
secret_gate-Passes k namespace now c (found s) h =
    target_gate-Passes k namespace now c s (k.get_secret namespace source_name c) h
secret_gate-Passes k namespace now c missing h = (refl, refl)
secret_gate-Passes k namespace now c (lookup_failed x) h = absurd h

project_gate-Passes :
    {C : Type 0} (k : Cluster C) (project server namespace : Text) (now : ℕ) (c : C)
    (l : Lookup (List Destination))
    → ListsTarget server namespace l
    → Passes c (project_gate k project server namespace now c l)
project_gate-Passes k project server namespace now c (found ds) h = rw h (refl, refl)
project_gate-Passes k project server namespace now c missing h = absurd h
project_gate-Passes k project server namespace now c (lookup_failed x) h = absurd h

ready_gates-Clean :
    {C : Type 0} (k : Cluster C) (namespace server project : Text) (now : ℕ) (c : C)
    → (is_empty namespace || is_empty server) ≡ false
    → IsReady k namespace server project c
    → Clean c (run_bootstrap_gates k namespace server project now c)
unfolding run_bootstrap_gates gate_ensure_namespace gate_ensure_pull_secret
    gate_ensure_app_project_destination
ready_gates-Clean k namespace server project now c named (here, secret, target) = rw named (
    after_gate-Clean c namespace_failed (gate_ensure_namespace k namespace now c)
      (λ c1. after_gate pull_secret_failed (gate_ensure_pull_secret k namespace now c1) λ c2.
        after_gate app_project_failed
          (gate_ensure_app_project_destination k project server namespace now c2)
          λ c3. (([], none), c3))
      (namespace_gate-Passes k namespace now c (k.get_namespace namespace c) here)
      (after_gate-Clean c pull_secret_failed (gate_ensure_pull_secret k namespace now c)
        (λ c2.
          after_gate app_project_failed
            (gate_ensure_app_project_destination k project server namespace now c2)
            λ c3. (([], none), c3))
        (secret_gate-Passes k namespace now c (k.get_secret source_namespace source_name c) secret)
        (after_gate-Clean c app_project_failed
          (gate_ensure_app_project_destination k project server namespace now c)
          (λ c3. (([], none), c3))
          (project_gate-Passes k (project_or_default project) server namespace now c
            (k.get_project (project_or_default project) c) target)
          (refl, refl))))

ran_is_named :
    {C : Type 0} (k : Cluster C) (namespace server project : Text) (now : ℕ) (c : C)
    → (run_bootstrap_gates k namespace server project now c).0.1 ≡ none
    → (is_empty namespace || is_empty server) ≡ false
unfolding run_bootstrap_gates
ran_is_named k namespace server project now c h =
    elim (Bool-cases (is_empty namespace || is_empty server)) [
      | inl blank ↦ absurd (cc (rw blank at h))
      | inr named ↦ named
    ]

-- With clients that read back what they wrote, after a run of the gates without an error another
-- run has no error either and writes nothing.
pub bootstrap_gates_again :
    {C : Type 0} (k : Cluster C) (laws : IsCluster k) (namespace server project : Text)
    (now second_now : ℕ) (c : C)
    → (run_bootstrap_gates k namespace server project now c).0.1 ≡ none
    → Clean (run_bootstrap_gates k namespace server project now c).1 (
        run_bootstrap_gates k namespace server project second_now
          (run_bootstrap_gates k namespace server project now c).1)
bootstrap_gates_again k laws namespace server project now second_now c h =
    ready_gates-Clean k namespace server project second_now
      (run_bootstrap_gates k namespace server project now c).1
      (ran_is_named k namespace server project now c h)
      (bootstrap_gates-IsReady k laws namespace server project now c h)
