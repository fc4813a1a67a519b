-- ===== src/Runtime/Store/Workloads.antt =====
-- internal/runtime/repository/memory.go: what was observed of the workload and the pods of a spec.
use devflow_service.Base.{
  Bool, List, Option, [], erase, find, if◌then◌else◌, map, none, not, put, some, sort_by, ℕ, ℕ-Key,
  ◌&&◌, ◌==◌, ◌||◌, ◌∷◌,
}
use devflow_service.Runtime.Store.{MemoryStore, or_empty, row_or_missing, runtime_app_env_key}
use devflow_service.Runtime.Types.{RuntimeObservedPod, RuntimeObservedWorkload, RuntimeSpec}
use devflow_service.Service.World.{Result, err, no_rows, ok}
use devflow_service.Text.{Text, equal_fold, is_empty, text_eq, text_leb, trim_space}
use devflow_service.Text.Laws.{Text-Key}

-- `if strings.TrimSpace(filter) != "" && strings.TrimSpace(value) != strings.TrimSpace(filter)`:
-- an empty filter lets every value pass.
unfoldable pub differs : Text → Text → Bool
unfolding trim_space is_empty text_eq
differs filter value =
    not (is_empty (trim_space filter)) && not (text_eq (trim_space value) (trim_space filter))

-- The same test with `strings.EqualFold`.
unfoldable pub differs_fold : Text → Text → Bool
unfolding trim_space is_empty equal_fold
differs_fold filter value =
    not (is_empty (trim_space filter)) && not (equal_fold (trim_space value) (trim_space filter))

-- `UpsertObservedWorkload`.
unfoldable pub upsert_observed_workload : Option RuntimeObservedWorkload → MemoryStore → MemoryStore
upsert_observed_workload none s = s
upsert_observed_workload (some workload) s = record s {
  observed_workloads = put workload.runtime_spec_id workload s.observed_workloads;
}

unfoldable pub workload_differs : Text → Text → Text → RuntimeObservedWorkload → Bool
unfolding differs differs_fold
workload_differs namespace kind name item =
    differs namespace item.namespace
    || differs_fold kind item.workload_kind
    || differs name item.workload_name

-- `DeleteObservedWorkload`.
unfoldable pub delete_observed_workload :
    ℕ → Text → Text → Text → MemoryStore → Result (Unit {0}) × MemoryStore
unfolding workload_differs
delete_observed_workload id namespace kind name s = elim (find id s.observed_workloads) [
  | none ↦ (err no_rows, s)
  | some item ↦
      if workload_differs namespace kind name item
      then (err no_rows, s)
      else (ok tt, record s { observed_workloads = erase id s.observed_workloads })
]

-- `GetObservedWorkload`.
unfoldable pub get_observed_workload : ℕ → MemoryStore → Result RuntimeObservedWorkload
get_observed_workload id s = row_or_missing (find id s.observed_workloads)

unfoldable pub pods_of : ℕ → MemoryStore → List (Text × RuntimeObservedPod)
pods_of id s = or_empty (find id s.observed_pods)

-- `UpsertObservedPod`.
unfoldable pub upsert_observed_pod : Option RuntimeObservedPod → MemoryStore → MemoryStore
unfolding pods_of
upsert_observed_pod none s = s
upsert_observed_pod (some pod) s = record s {
  observed_pods =
      put pod.runtime_spec_id (put pod.pod_name pod (pods_of pod.runtime_spec_id s))
        s.observed_pods;
}

-- `if len(pods) == 0 { delete(s.observedPods, runtimeSpecID) }`.
abbrev set_pods :
    ℕ
    → List (Text × RuntimeObservedPod)
    → List (ℕ × List (Text × RuntimeObservedPod))
    → List (ℕ × List (Text × RuntimeObservedPod))
set_pods id [] all_pods = erase id all_pods
set_pods id (pod ∷ pods) all_pods = put id (pod ∷ pods) all_pods

-- `DeleteObservedPod`.
unfoldable pub delete_observed_pod : ℕ → Text → Text → MemoryStore → Result (Unit {0}) × MemoryStore
unfolding pods_of differs
delete_observed_pod id namespace name s = elim (find name (pods_of id s)) [
  | none ↦ (err no_rows, s)
  | some pod ↦ if differs namespace pod.namespace then (err no_rows, s) else (
    ok tt,
    record s { observed_pods = set_pods id (erase name (pods_of id s)) s.observed_pods },
  )
]

abbrev pub by_pod_name : RuntimeObservedPod → RuntimeObservedPod → Bool
by_pod_name a b = text_leb a.pod_name b.pod_name

-- `ListObservedPods`.
unfoldable pub list_observed_pods : ℕ → MemoryStore → List RuntimeObservedPod
unfolding pods_of sort_by
list_observed_pods id s = sort_by by_pod_name (map (λ e. e.1) (pods_of id s))

-- The first text that is not empty, once trimmed.
unfoldable pub first_trimmed : List Text → Option Text
unfolding trim_space is_empty
first_trimmed [] = none
first_trimmed (text ∷ texts) =
    let rest = first_trimmed texts in
    if is_empty (trim_space text) then rest else some (trim_space text)

abbrev names_of : List (ℕ × RuntimeObservedWorkload) → ℕ → List (ℕ × RuntimeSpec) → List Text
names_of workloads app [] = []
names_of workloads app (e ∷ specs) =
    let rest = names_of workloads app specs in
    if e.1.application_id == app
    then elim (find e.1.id workloads) [ none ↦ rest | some w ↦ w.workload_name ∷ rest ]
    else rest

-- `GetApplicationName`.
unfoldable pub get_application_name : ℕ → MemoryStore → Result Text
unfolding first_trimmed
get_application_name app s =
    row_or_missing (first_trimmed (names_of s.observed_workloads app s.runtime_specs))

abbrev namespaces_of : Option RuntimeObservedWorkload → List (Text × RuntimeObservedPod) → List Text
namespaces_of none pods = map (λ e. e.1.namespace) pods
namespaces_of (some workload) pods = workload.namespace ∷ map (λ e. e.1.namespace) pods

-- `ResolveTargetNamespace`.
unfoldable pub resolve_target_namespace : (ℕ → Text) → ℕ → Text → MemoryStore → Result Text
unfolding first_trimmed runtime_app_env_key pods_of
resolve_target_namespace uuid_string app env s =
    elim (find (runtime_app_env_key uuid_string app env) s.runtime_spec_by_app_env) [
      | none ↦ err no_rows
      | some id ↦
          row_or_missing
            (first_trimmed (namespaces_of (find id s.observed_workloads) (pods_of id s)))
    ]
