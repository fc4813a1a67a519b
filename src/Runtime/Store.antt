-- ===== src/Runtime/Store.antt =====
-- internal/runtime/repository/memory.go: the store of the runtime service, and its specs.
pub mod Workloads
pub mod Revisions
pub mod Index
pub mod Table
pub mod Calls
pub mod Refines
pub mod RoundTrip
use devflow_service.Base.{
  Bool, List, Option, [], erase, find, leb, map, none, put, some, sort_by, ℕ, ℕ-Key, ◌++◌,
}
use devflow_service.Runtime.Types.{
  RuntimeObservedPod, RuntimeObservedWorkload, RuntimeOperation, RuntimeSpec, RuntimeSpecRevision,
}
use devflow_service.Service.World.{Result, err, no_rows, ok}
use devflow_service.Text.{Text, codes, trim_space}
use devflow_service.Text.Laws.{Text-Key}

-- A Go map is an association list; where the code ranges over a map, whose order Go leaves open,
-- the model takes the entries in the order of the list. A nil pointer is `none`. The copies that
-- the code makes of what it takes and gives keep the store from being shared, as values are here.
pub record MemoryStore : Type 0 where
  pub runtime_specs : List (ℕ × RuntimeSpec)
  pub runtime_spec_by_app_env : List (Text × ℕ)
  pub runtime_spec_revisions : List (ℕ × List RuntimeSpecRevision)
  pub observed_workloads : List (ℕ × RuntimeObservedWorkload)
  pub observed_pods : List (ℕ × List (Text × RuntimeObservedPod))
  pub runtime_operations : List (ℕ × List RuntimeOperation)

-- `NewMemoryStore`.
abbrev pub new_memory_store : MemoryStore
new_memory_store = record {
  runtime_specs = [];
  runtime_spec_by_app_env = [];
  runtime_spec_revisions = [];
  observed_workloads = [];
  observed_pods = [];
  runtime_operations = [];
}

-- The answer `sql.ErrNoRows` where there is no row.
abbrev pub row_or_missing {ℓ} : {A : Type ℓ} → Option A → Result A
row_or_missing (some row) = ok row
row_or_missing none = err no_rows

-- A missing entry of a map of lists is read like an empty list.
abbrev pub or_empty {ℓ} : {A : Type ℓ} → Option (List A) → List A
or_empty none = []
or_empty (some items) = items

-- `GetRuntimeSpec`.
abbrev pub get_runtime_spec : ℕ → MemoryStore → Result RuntimeSpec
get_runtime_spec id s = row_or_missing (find id s.runtime_specs)

-- `UpdateCurrentRevision`, at the instant `now`.
abbrev pub with_current_revision : ℕ → ℕ → RuntimeSpec → RuntimeSpec
with_current_revision revision_id now spec = record spec {
  current_revision_id = some revision_id;
  updated_at = now;
}

unfoldable pub update_current_revision : ℕ → ℕ → ℕ → MemoryStore → Result (Unit {0}) × MemoryStore
update_current_revision id revision_id now s = elim (find id s.runtime_specs) [
  | none ↦ (err no_rows, s)
  | some spec ↦ (
    ok tt,
    record s {
      runtime_specs = put id (with_current_revision revision_id now spec) s.runtime_specs;
    },
  )
]

abbrev newer_first : RuntimeSpec → RuntimeSpec → Bool
newer_first a b = leb b.created_at a.created_at

-- `ListRuntimeSpecs`.
unfoldable pub list_runtime_specs : MemoryStore → List RuntimeSpec
unfolding sort_by
list_runtime_specs s = sort_by newer_first (map (λ e. e.1) s.runtime_specs)

-- The spec that the index leads to.
unfoldable pub indexed_spec : Text → MemoryStore → Option RuntimeSpec
indexed_spec key s = elim (find key s.runtime_spec_by_app_env) [
  | none ↦ none
  | some id ↦ find id s.runtime_specs
]

abbrev pub fresh_spec : ℕ → Text → ℕ → ℕ → RuntimeSpec
fresh_spec app env fresh now = record {
  id = fresh;
  application_id = app;
  environment = trim_space env;
  current_revision_id = none;
  created_at = now;
  updated_at = now;
}

abbrev pub without_spec : Text → ℕ → MemoryStore → MemoryStore
without_spec key id s = record {
  runtime_specs = erase id s.runtime_specs;
  runtime_spec_by_app_env = erase key s.runtime_spec_by_app_env;
  runtime_spec_revisions = erase id s.runtime_spec_revisions;
  observed_workloads = erase id s.observed_workloads;
  observed_pods = erase id s.observed_pods;
  runtime_operations = erase id s.runtime_operations;
}

-- `uuid_string` is `UUID.String` of github.com/google/uuid.
module _ (uuid_string : ℕ → Text) where
  -- `runtimeAppEnvKey`.
  unfoldable pub runtime_app_env_key : ℕ → Text → Text
  unfolding trim_space
  runtime_app_env_key app env = uuid_string app ++ (codes "|" ++ trim_space env)

  abbrev pub key_of : RuntimeSpec → Text
  key_of spec = runtime_app_env_key spec.application_id spec.environment

  abbrev pub stored : RuntimeSpec → MemoryStore → MemoryStore
  stored spec s = record s {
    runtime_specs = put spec.id spec s.runtime_specs;
    runtime_spec_by_app_env = put (key_of spec) spec.id s.runtime_spec_by_app_env;
  }

  -- `CreateRuntimeSpec`.
  unfoldable pub create_runtime_spec : Option RuntimeSpec → MemoryStore → MemoryStore
  create_runtime_spec none s = s
  create_runtime_spec (some spec) s = stored spec s

  -- `FindRuntimeSpecByApplicationEnv`.
  unfoldable pub find_runtime_spec : ℕ → Text → MemoryStore → Result RuntimeSpec
  unfolding indexed_spec runtime_app_env_key
  find_runtime_spec app env s = row_or_missing (indexed_spec (runtime_app_env_key app env) s)

  -- `GetRuntimeSpecByApplicationEnv`: a missing spec is no error here.
  unfoldable pub get_runtime_spec_by_app_env : ℕ → Text → MemoryStore → Result (Option RuntimeSpec)
  unfolding indexed_spec runtime_app_env_key
  get_runtime_spec_by_app_env app env s = ok (indexed_spec (runtime_app_env_key app env) s)

  -- `EnsureRuntimeSpecByApplicationEnv`, where `uuid.New` gives `fresh`, at the instant `now`.
  unfoldable pub ensure_runtime_spec :
      ℕ → Text → ℕ → ℕ → MemoryStore → Result RuntimeSpec × MemoryStore
  unfolding indexed_spec runtime_app_env_key
  ensure_runtime_spec app env fresh now s =
      let spec = fresh_spec app env fresh now in
      elim (indexed_spec (runtime_app_env_key app (trim_space env)) s) [
        | some found ↦ (ok found, s)
        | none ↦ (ok spec, stored spec s)
      ]

  -- `DeleteRuntimeSpecByApplicationEnv`.
  unfoldable pub delete_runtime_spec : ℕ → Text → MemoryStore → Result (Unit {0}) × MemoryStore
  unfolding runtime_app_env_key
  delete_runtime_spec app env s =
      let key = runtime_app_env_key app env in
      elim (find key s.runtime_spec_by_app_env) [
        | none ↦ (err no_rows, s)
        | some id ↦ (ok tt, without_spec key id s)
      ]
