-- ===== src/Bootstrap/Ready.antt =====
-- What the gates establish in a cluster whose writes are read back.
use devflow_service.Base.{
  Bool-cases, List, Option, [], false, inl, inr, none, refl, some, true, ℕ, ◌&&◌, ◌++◌, ◌∷◌, ◌≡◌,
}
use devflow_service.Bootstrap.{
  Cluster, Destination, Lookup, Secret, found, is_failed_gate, lists_destination, lookup_failed,
  missing, namespace_gate, project_gate, project_or_default, secret_gate, source_name,
  source_namespace, target_secret_gate, written,
}
use devflow_service.Text.{Text, codes, text_eq}
use devflow_service.Text.Laws.{text_eq_refl}

abbrev pub IsFound {ℓ} : {A : Type ℓ} → Lookup A → Type 0
IsFound (found a) = Unit
IsFound missing = ⊥
IsFound (lookup_failed e) = ⊥

-- No secret to copy, or a secret in the target namespace.
abbrev pub SecretReady : Lookup Secret → Lookup Secret → Type 0
SecretReady missing target = Unit
SecretReady (found s) target = IsFound target
SecretReady (lookup_failed e) target = ⊥

abbrev pub ListsTarget : Text → Text → Lookup (List Destination) → Type 0
ListsTarget server namespace missing = ⊥
ListsTarget server namespace (lookup_failed e) = ⊥
ListsTarget server namespace (found destinations) =
    lists_destination server namespace destinations ≡ true

-- What the clients document: a write that succeeds is read back, and a write leaves the other
-- objects where they were.
pub record IsCluster {C : Type 0} (k : Cluster C) : Type 0 where
  pub namespace_created :
      (n : Text) (c : C)
      → (k.create_namespace n c).0 ≡ none
      → IsFound (k.get_namespace n (k.create_namespace n c).1)
  pub secret_created :
      (n name : Text) (s : Secret) (c : C)
      → (k.create_secret n name s c).0 ≡ none
      → IsFound (k.get_secret n name (k.create_secret n name s c).1)
  pub secret_stays :
      (n name : Text) (s : Secret) (c : C) (m other_name : Text)
      → IsFound (k.get_secret m other_name c)
      → IsFound (k.get_secret m other_name (k.create_secret n name s c).1)
  pub secret_keeps_namespace :
      (n name : Text) (s : Secret) (c : C) (m : Text)
      → k.get_namespace m (k.create_secret n name s c).1 ≡ k.get_namespace m c
  pub project_updated :
      (p : Text) (destinations : List Destination) (c : C)
      → (k.update_project p destinations c).0 ≡ none
      → k.get_project p (k.update_project p destinations c).1 ≡ found destinations
  pub project_keeps_namespace :
      (p : Text) (destinations : List Destination) (c : C) (m : Text)
      → k.get_namespace m (k.update_project p destinations c).1 ≡ k.get_namespace m c
  pub project_keeps_secret :
      (p : Text) (destinations : List Destination) (c : C) (m name : Text)
      → k.get_secret m name (k.update_project p destinations c).1 ≡ k.get_secret m name c

-- What a write leaves, once it has passed.
written_lem :
    {C : Type 0} (P : C → Type 0) (name : Text) (now : ℕ) (done_message failed_message : Text)
    (r : Option Text × C)
    → (r.0 ≡ none → P r.1)
    → is_failed_gate (written name now done_message failed_message r).0.status ≡ false
    → P (written name now done_message failed_message r).1
written_lem P name now done_message failed_message (none, c) k h = k refl
written_lem P name now done_message failed_message (some e, c) k h = absurd cc

lists_destination-added :
    (server namespace : Text) (ds : List Destination)
    → lists_destination server namespace
        (ds ++ (record { server = server; namespace = namespace } ∷ []))
      ≡ true
unfolding lists_destination
lists_destination-added server namespace [] = rw (text_eq_refl server, text_eq_refl namespace) refl
lists_destination-added server namespace (d ∷ ds) =
    elim (Bool-cases (text_eq d.server server && text_eq d.namespace namespace)) [
      | inl here ↦ rw here refl
      | inr later ↦ rw later (lists_destination-added server namespace ds)
    ]

abbrev pub HasNamespace : {C : Type 0} → Cluster C → Text → C → Type 0
HasNamespace k namespace c = IsFound (k.get_namespace namespace c)

abbrev pub HasSecret : {C : Type 0} → Cluster C → Text → C → Type 0
HasSecret k namespace c =
    SecretReady (k.get_secret source_namespace source_name c) (k.get_secret namespace source_name c)

abbrev pub HasTarget : {C : Type 0} → Cluster C → Text → Text → Text → C → Type 0
HasTarget k namespace server project c =
    ListsTarget server namespace (k.get_project (project_or_default project) c)

module _ {C : Type 0} (k : Cluster C) (laws : IsCluster k) (namespace server project : Text) where
  pub namespace_gate_lem :
      (now : ℕ) (c : C) (l : Lookup (Unit {0}))
      → k.get_namespace namespace c ≡ l
      → is_failed_gate (namespace_gate k namespace now c l).0.status ≡ false
      → (HasNamespace k namespace) (namespace_gate k namespace now c l).1
  namespace_gate_lem now c (found x) e h = rw e tt
  namespace_gate_lem now c missing e h =
      written_lem (HasNamespace k namespace) (codes "ensure_namespace") now
        (codes "namespace created") (codes "namespace create failed: ")
        (k.create_namespace namespace c) (laws.namespace_created namespace c) h
  namespace_gate_lem now c (lookup_failed x) e h = absurd cc

  both_found : (l t : Lookup Secret) → IsFound l → IsFound t → SecretReady l t
  both_found (found s) t h q = q
  both_found missing t h q = tt
  both_found (lookup_failed x) t h q = h

  target_gate_lem :
      (now : ℕ) (c : C) (s : Secret) (l : Lookup Secret)
      → k.get_secret source_namespace source_name c ≡ found s
      → k.get_secret namespace source_name c ≡ l
      → is_failed_gate (target_secret_gate k namespace now c s l).0.status ≡ false
      → (HasSecret k namespace) (target_secret_gate k namespace now c s l).1
  target_gate_lem now c s (found t) source e h = rw (source, e) tt
  target_gate_lem now c s (lookup_failed x) source e h = absurd cc
  target_gate_lem now c s missing source e h =
      written_lem (HasSecret k namespace) (codes "ensure_pull_secret") now
        (codes "pull secret copied to target namespace") (codes "pull secret create failed: ")
        (k.create_secret namespace source_name s c)
        (λ made.
          both_found
            (k.get_secret source_namespace source_name
              (k.create_secret namespace source_name s c).1)
            (k.get_secret namespace source_name (k.create_secret namespace source_name s c).1)
            (laws.secret_stays namespace source_name s c source_namespace source_name
              (rw source tt))
            (laws.secret_created namespace source_name s c made))
        h

  pub secret_gate_lem :
      (now : ℕ) (c : C) (l : Lookup Secret)
      → k.get_secret source_namespace source_name c ≡ l
      → is_failed_gate (secret_gate k namespace now c l).0.status ≡ false
      → (HasSecret k namespace) (secret_gate k namespace now c l).1
  secret_gate_lem now c (found s) e h =
      target_gate_lem now c s (k.get_secret namespace source_name c) e refl h
  secret_gate_lem now c missing e h = rw e tt
  secret_gate_lem now c (lookup_failed x) e h = absurd cc

  pub project_gate_lem :
      (now : ℕ) (c : C) (l : Lookup (List Destination))
      → k.get_project (project_or_default project) c ≡ l
      → is_failed_gate
          (project_gate k (project_or_default project) server namespace now c l).0.status
        ≡ false
      → (HasTarget k namespace server project)
          (project_gate k (project_or_default project) server namespace now c l).1
  project_gate_lem now c missing e h = absurd cc
  project_gate_lem now c (lookup_failed x) e h = absurd cc
  project_gate_lem now c (found ds) e h =
      elim (Bool-cases (lists_destination server namespace ds)) [
        | inl listed ↦ rw (listed, e) listed
        | inr new ↦ rw new (
            written_lem (HasTarget k namespace server project)
              (codes "ensure_appproject_destination") now
              (codes "destination added to appproject allowlist")
              (codes "appproject update failed: ")
              (k.update_project (project_or_default project)
                (ds ++ (record { server = server; namespace = namespace } ∷ [])) c)
              (λ made.
                rw
                  (laws.project_updated (project_or_default project)
                    (ds ++ (record { server = server; namespace = namespace } ∷ [])) c made)
                  (lists_destination-added server namespace ds))
              (rw new at h))
      ]

  -- A property that the writes of a gate keep.
  written_state :
      (P : C → Type 0) (name : Text) (now : ℕ) (done_message failed_message : Text)
      (r : Option Text × C)
      → P r.1
      → P (written name now done_message failed_message r).1
  written_state P name now done_message failed_message (none, c) h = h
  written_state P name now done_message failed_message (some e, c) h = h

  target_gate-Keeps :
      (now : ℕ) (c : C) (s : Secret) (l : Lookup Secret)
      → (HasNamespace k namespace) c
      → (HasNamespace k namespace) (target_secret_gate k namespace now c s l).1
  target_gate-Keeps now c s (found t) h = h
  target_gate-Keeps now c s (lookup_failed x) h = h
  target_gate-Keeps now c s missing h =
      written_state (HasNamespace k namespace) (codes "ensure_pull_secret") now
        (codes "pull secret copied to target namespace") (codes "pull secret create failed: ")
        (k.create_secret namespace source_name s c)
        (rw (laws.secret_keeps_namespace namespace source_name s c namespace) h)

  pub secret_gate-Keeps :
      (now : ℕ) (c : C) (l : Lookup Secret)
      → (HasNamespace k namespace) c
      → (HasNamespace k namespace) (secret_gate k namespace now c l).1
  secret_gate-Keeps now c (found s) h =
      target_gate-Keeps now c s (k.get_secret namespace source_name c) h
  secret_gate-Keeps now c missing h = h
  secret_gate-Keeps now c (lookup_failed x) h = h

  pub project_gate-Keeps :
      (P : C → Type 0) (now : ℕ) (c : C) (l : Lookup (List Destination))
      → ((ds : List Destination) → P (k.update_project (project_or_default project) ds c).1)
      → P c
      → P (project_gate k (project_or_default project) server namespace now c l).1
  project_gate-Keeps P now c missing keeps h = h
  project_gate-Keeps P now c (lookup_failed x) keeps h = h
  project_gate-Keeps P now c (found ds) keeps h =
      elim (Bool-cases (lists_destination server namespace ds)) [
        | inl listed ↦ rw listed h
        | inr new ↦ rw new (
            written_state P (codes "ensure_appproject_destination") now
              (codes "destination added to appproject allowlist")
              (codes "appproject update failed: ")
              (k.update_project (project_or_default project)
                (ds ++ (record { server = server; namespace = namespace } ∷ [])) c)
              (keeps (ds ++ (record { server = server; namespace = namespace } ∷ []))))
      ]
