-- ===== src/Runtime/Store/RoundTrip.antt =====
-- What a spec that is ensured reads back as, and what a deletion leaves.
use devflow_service.Base.{
  List, Option-cases, [], ap, erase, find, find-erase_other, find-erase_same, inl, inr, none, refl,
  same_ne, same_refl, some, sort_by, sym, ℕ, ℕ-Key, ◌∙◌, ◌≡◌, ◌≢◌,
}
use devflow_service.Runtime.Store.{
  MemoryStore, delete_runtime_spec, ensure_runtime_spec, find_runtime_spec, fresh_spec,
  get_runtime_spec, indexed_spec, row_or_missing, runtime_app_env_key, stored, without_spec,
}
use devflow_service.Runtime.Store.Revisions.{
  list_runtime_operations, list_runtime_spec_revisions, next_revision_number, operations_of,
  revisions_of,
}
use devflow_service.Runtime.Store.Table.{indexed-stored_same}
use devflow_service.Runtime.Store.Workloads.{get_observed_workload, list_observed_pods, pods_of}
use devflow_service.Runtime.Types.{RuntimeSpec}
use devflow_service.Service.World.{err, no_rows, ok}
use devflow_service.Text.{Text, trim_space}
use devflow_service.Text.Laws.{Text-Key, text_eq_iff}
use devflow_service.Text.Trim.{trim_space_idem}

module _ (uuid_string : ℕ → Text) where
  same_key :
      (app : ℕ) (s t : Text)
      → trim_space s ≡ trim_space t
      → runtime_app_env_key uuid_string app (trim_space s) ≡ runtime_app_env_key uuid_string app t
  unfolding runtime_app_env_key
  same_key app s t e = rw (trim_space_idem s, e) refl

  ensure_missing :
      (app : ℕ) (env : Text) (fresh now : ℕ) (s : MemoryStore)
      → indexed_spec (runtime_app_env_key uuid_string app (trim_space env)) s ≡ none
      → ensure_runtime_spec uuid_string app env fresh now s
        ≡ (ok (fresh_spec app env fresh now), stored uuid_string (fresh_spec app env fresh now) s)
  unfolding ensure_runtime_spec
  ensure_missing app env fresh now s e = rw (ensure_runtime_spec, e) refl

  ensure_found :
      (app : ℕ) (env : Text) (fresh now : ℕ) (s : MemoryStore) (spec : RuntimeSpec)
      → indexed_spec (runtime_app_env_key uuid_string app (trim_space env)) s ≡ some spec
      → ensure_runtime_spec uuid_string app env fresh now s ≡ (ok spec, s)
  unfolding ensure_runtime_spec
  ensure_found app env fresh now s spec e = rw (ensure_runtime_spec, e) refl

  -- After an application and an environment are ensured, they are found, with any spaces around
  -- the environment: the spec found is the one that was given, whether it was there or is new.
  pub find-ensure :
      (app : ℕ) (env env2 : Text) (fresh now : ℕ) (s : MemoryStore)
      → trim_space env ≡ trim_space env2
      → find_runtime_spec uuid_string app env2
          (ensure_runtime_spec uuid_string app env fresh now s).1
        ≡ (ensure_runtime_spec uuid_string app env fresh now s).0
  unfolding find_runtime_spec
  find-ensure app env env2 fresh now s e =
      let key = runtime_app_env_key uuid_string app (trim_space env) in
      let spec = fresh_spec app env fresh now in
      let same = same_key app env env2 e in
      elim (Option-cases (indexed_spec key s)) [
        | inl p ↦ rw (ensure_missing app env fresh now s p) (
            ap row_or_missing (
              indexed-stored_same uuid_string spec s (runtime_app_env_key uuid_string app env2)
                ((text_eq_iff _ _).1 same)))
        | inr (found, p) ↦
            rw (ensure_found app env fresh now s found p)
              (ap row_or_missing (ap (λ k. indexed_spec k s) (sym same) ∙ p))
      ]

module _ {V : Type 0} (m : List (ℕ × V)) where
  gone : (id : ℕ) → find id (erase id m) ≡ none
  gone id = find-erase_same id id m (same_refl id)

  left_alone : (other_id id : ℕ) → other_id ≢ id → find other_id (erase id m) ≡ find other_id m
  left_alone other_id id ne = find-erase_other other_id id m (same_ne id other_id (λ e. ne (sym e)))

-- Nothing is left under an id.
abbrev pub IsCleared : ℕ → MemoryStore → Type 0
IsCleared id s =
    (get_runtime_spec id s ≡ err no_rows)
    × (get_observed_workload id s ≡ err no_rows)
    × (list_observed_pods id s ≡ [])
    × (list_runtime_operations id s ≡ [])
    × (list_runtime_spec_revisions id s ≡ [])
    × (next_revision_number id s ≡ 1)

-- All that two stores hold under an id is the same.
abbrev pub SameUnder : ℕ → MemoryStore → MemoryStore → Type 0
SameUnder id s t =
    (get_runtime_spec id s ≡ get_runtime_spec id t)
    × (get_observed_workload id s ≡ get_observed_workload id t)
    × (list_observed_pods id s ≡ list_observed_pods id t)
    × (list_runtime_operations id s ≡ list_runtime_operations id t)
    × (list_runtime_spec_revisions id s ≡ list_runtime_spec_revisions id t)
    × (next_revision_number id s ≡ next_revision_number id t)

without-IsCleared : (key : Text) (id : ℕ) (s : MemoryStore) → IsCleared id (without_spec key id s)
unfolding get_observed_workload list_observed_pods pods_of list_runtime_operations operations_of
    list_runtime_spec_revisions revisions_of next_revision_number sort_by
without-IsCleared key id s = (
  rw (gone s.runtime_specs id) refl,
  rw (gone s.observed_workloads id) refl,
  rw (gone s.observed_pods id) refl,
  rw (gone s.runtime_operations id) refl,
  rw (gone s.runtime_spec_revisions id) refl,
  rw (gone s.runtime_spec_revisions id) refl,
)

without-SameUnder :
    (key : Text) (id other_id : ℕ) (s : MemoryStore)
    → other_id ≢ id
    → SameUnder other_id (without_spec key id s) s
unfolding get_observed_workload list_observed_pods pods_of list_runtime_operations operations_of
    list_runtime_spec_revisions revisions_of next_revision_number
without-SameUnder key id other_id s ne = (
  rw (left_alone s.runtime_specs other_id id ne) refl,
  rw (left_alone s.observed_workloads other_id id ne) refl,
  rw (left_alone s.observed_pods other_id id ne) refl,
  rw (left_alone s.runtime_operations other_id id ne) refl,
  rw (left_alone s.runtime_spec_revisions other_id id ne) refl,
  rw (left_alone s.runtime_spec_revisions other_id id ne) refl,
)

-- A deletion that finds an id in the index leaves nothing under that id (no spec, workload, pod,
-- operation or revision) and all that is under another id as it was.
pub delete_clears :
    (uuid_string : ℕ → Text) (app : ℕ) (env : Text) (id other_id : ℕ) (s : MemoryStore)
    → find (runtime_app_env_key uuid_string app env) s.runtime_spec_by_app_env ≡ some id
    → other_id ≢ id
    → IsCleared id (delete_runtime_spec uuid_string app env s).1
      × SameUnder other_id (delete_runtime_spec uuid_string app env s).1 s
unfolding delete_runtime_spec
delete_clears uuid_string app env id other_id s e ne =
    let key = runtime_app_env_key uuid_string app env in
    rw (delete_runtime_spec, e) (without-IsCleared key id s, without-SameUnder key id other_id s ne)
