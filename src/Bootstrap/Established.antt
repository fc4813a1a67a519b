-- ===== src/Bootstrap/Established.antt =====
-- What a run of the gates establishes.
use devflow_service.Base.{Bool-cases, [], false, inl, inr, none, refl, ℕ, ◌||◌, ◌≡◌}
use devflow_service.Bootstrap.{
  BootstrapError, Cluster, GateResult, Gates, after_gate, app_project_failed,
  gate_ensure_app_project_destination, gate_ensure_namespace, gate_ensure_pull_secret,
  is_failed_gate, namespace_failed, project_or_default, pull_secret_failed, run_bootstrap_gates,
  source_name, source_namespace,
}
use devflow_service.Bootstrap.Ready.{
  HasNamespace, HasSecret, HasTarget, IsCluster, namespace_gate_lem, project_gate-Keeps,
  project_gate_lem, secret_gate-Keeps, secret_gate_lem,
}
use devflow_service.Text.{Text, is_empty}

-- A run without an error passed its first gate, and went on without an error.
after_gate_lem :
    {C : Type 0} (P Q : C → Type 0) (error : Text → BootstrapError) (r : GateResult × C)
    (rest : C → Gates C)
    → (is_failed_gate r.0.status ≡ false → P r.1)
    → ((c : C) → P c → (rest c).0.1 ≡ none → Q (rest c).1)
    → (after_gate error r rest).0.1 ≡ none
    → Q (after_gate error r rest).1
after_gate_lem P Q error (r, c) rest gate goes h = elim (Bool-cases (is_failed_gate r.status)) [
  | inl failing ↦ absurd (cc (rw failing at h))
  | inr passing ↦ rw passing (goes c (gate passing) (rw passing at h))
]

-- The namespace is there, a secret to copy is in it, and the project lists the destination.
abbrev pub IsReady : {C : Type 0} → Cluster C → Text → Text → Text → C → Type 0
IsReady k namespace server project c =
    HasNamespace k namespace c × HasSecret k namespace c × HasTarget k namespace server project c

module _ {C : Type 0} (k : Cluster C) (laws : IsCluster k) (namespace server project : Text) where
  last_gates :
      (now : ℕ) (c : C)
      → HasNamespace k namespace c
      → HasSecret k namespace c
      → (after_gate app_project_failed
          (gate_ensure_app_project_destination k project server namespace now c)
          λ c3. (([], none), c3)).0.1
        ≡ none
      → IsReady k namespace server project
          (after_gate app_project_failed
            (gate_ensure_app_project_destination k project server namespace now c)
            λ c3. (([], none), c3)).1
  unfolding gate_ensure_app_project_destination
  last_gates now c h q e =
      after_gate_lem (IsReady k namespace server project) (IsReady k namespace server project)
        app_project_failed (gate_ensure_app_project_destination k project server namespace now c)
        (λ c3. (([], none), c3))
        (λ passing. (
          project_gate-Keeps k laws namespace server project (HasNamespace k namespace) now c
              (k.get_project (project_or_default project) c)
              (λ ds.
                rw (laws.project_keeps_namespace (project_or_default project) ds c namespace) h)
              h,
          project_gate-Keeps k laws namespace server project (HasSecret k namespace) now c
              (k.get_project (project_or_default project) c)
              (λ ds.
                rw
                  (
                    laws.project_keeps_secret (project_or_default project) ds c source_namespace
                        source_name,
                    laws.project_keeps_secret (project_or_default project) ds c namespace
                        source_name,
                  )
                  q)
              q,
          project_gate_lem k laws namespace server project now c
              (k.get_project (project_or_default project) c) refl passing,
        ))
        (λ c3 ready x. ready) e

  later_gates :
      (now : ℕ) (c : C)
      → HasNamespace k namespace c
      → (after_gate pull_secret_failed (gate_ensure_pull_secret k namespace now c) λ c2.
          after_gate app_project_failed
            (gate_ensure_app_project_destination k project server namespace now c2)
            λ c3. (([], none), c3)).0.1
        ≡ none
      → IsReady k namespace server project
          (after_gate pull_secret_failed (gate_ensure_pull_secret k namespace now c) λ c2.
            after_gate app_project_failed
              (gate_ensure_app_project_destination k project server namespace now c2)
              λ c3. (([], none), c3)).1
  unfolding gate_ensure_pull_secret
  later_gates now c h e =
      after_gate_lem (λ v. HasNamespace k namespace v × HasSecret k namespace v)
        (IsReady k namespace server project) pull_secret_failed
        (gate_ensure_pull_secret k namespace now c)
        (λ c2.
          after_gate app_project_failed
            (gate_ensure_app_project_destination k project server namespace now c2)
            λ c3. (([], none), c3))
        (λ passing. (
          secret_gate-Keeps k laws namespace server project now c
              (k.get_secret source_namespace source_name c) h,
          secret_gate_lem k laws namespace server project now c
              (k.get_secret source_namespace source_name c) refl passing,
        ))
        (λ v b. last_gates now v b.0 b.1) e

-- With clients that read back what they wrote, a run of the gates that reports no error leaves the
-- target namespace in the cluster, the pull secret in it if there is one to copy, and the
-- destination in the allowlist of the project.
pub bootstrap_gates-IsReady :
    {C : Type 0} (k : Cluster C) (laws : IsCluster k) (namespace server project : Text) (now : ℕ)
    (c : C)
    → (run_bootstrap_gates k namespace server project now c).0.1 ≡ none
    → IsReady k namespace server project (run_bootstrap_gates k namespace server project now c).1
unfolding run_bootstrap_gates gate_ensure_namespace
bootstrap_gates-IsReady k laws namespace server project now c h =
    elim (Bool-cases (is_empty namespace || is_empty server)) [
      | inl blank ↦ absurd (cc (rw blank at h))
      | inr named ↦ rw named (
          after_gate_lem (HasNamespace k namespace) (IsReady k namespace server project)
            namespace_failed (gate_ensure_namespace k namespace now c)
            (λ c1. after_gate pull_secret_failed (gate_ensure_pull_secret k namespace now c1) λ c2.
              after_gate app_project_failed
                (gate_ensure_app_project_destination k project server namespace now c2)
                λ c3. (([], none), c3))
            (λ passing.
              namespace_gate_lem k laws namespace server project now c (k.get_namespace namespace c)
                refl passing)
            (λ v b. later_gates k laws namespace server project now v b) (rw named at h))
    ]
