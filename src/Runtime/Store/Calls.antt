-- ===== src/Runtime/Store/Calls.antt =====
-- Calls on the specs of the store, and the same calls on the table by application and environment.
use devflow_service.Base.{List, Option, [], find, none, some, ℕ, ℕ-Key, ◌∷◌, ◌≡◌}
use devflow_service.Runtime.Store.{
  MemoryStore, create_runtime_spec, delete_runtime_spec, ensure_runtime_spec, find_runtime_spec,
  fresh_spec,
}
use devflow_service.Runtime.Store.Index.{Fits}
use devflow_service.Runtime.Store.Table.{SpecTable, at_place}
use devflow_service.Runtime.Types.{RuntimeSpec}
use devflow_service.Service.World.{Result, err, no_rows, ok}
use devflow_service.Text.{Text}
use devflow_service.Text.Laws.{Text-Key}

pub data SpecCall : Type 0 where
  create_spec : RuntimeSpec → SpecCall
  ensure_spec : ℕ → Text → ℕ → ℕ → SpecCall
  delete_spec : ℕ → Text → SpecCall
  find_spec : ℕ → Text → SpecCall

abbrev pub Answer : Type 0
Answer = Result (Option RuntimeSpec)

-- What a call answers and leaves, by the table alone.
unfoldable pub act : SpecCall → SpecTable → Answer × SpecTable
act (create_spec spec) table =
    (ok none, at_place spec.application_id spec.environment (some spec) table)
act (ensure_spec app env fresh now) table = elim (table app env) [
  | some spec ↦ (ok (some spec), table)
  | none ↦
      let spec = fresh_spec app env fresh now in
      (ok (some spec), at_place app env (some spec) table)
]
act (delete_spec app env) table = elim (table app env) [
  | none ↦ (err no_rows, table)
  | some spec ↦ (ok none, at_place app env none table)
]
act (find_spec app env) table = elim (table app env) [
  | none ↦ (err no_rows, table)
  | some spec ↦ (ok (some spec), table)
]

unfoldable pub replay : List SpecCall → SpecTable → List Answer × SpecTable
unfolding act
replay [] table = ([], table)
replay (call ∷ calls) table =
    let rest = replay calls (act call table).1 in ((act call table).0 ∷ rest.0, rest.1)

module _ (uuid_string : ℕ → Text) where
  abbrev pub answered : Result RuntimeSpec → Answer
  answered (ok spec) = ok (some spec)
  answered (err e) = err e

  abbrev pub emptied : Result (Unit {0}) → Answer
  emptied (ok _) = ok none
  emptied (err e) = err e

  -- The same call on the store.
  unfoldable pub step : SpecCall → MemoryStore → Answer × MemoryStore
  unfolding create_runtime_spec ensure_runtime_spec delete_runtime_spec find_runtime_spec
  step (create_spec spec) s = (ok none, create_runtime_spec uuid_string (some spec) s)
  step (ensure_spec app env fresh now) s =
      let after = ensure_runtime_spec uuid_string app env fresh now s in (answered after.0, after.1)
  step (delete_spec app env) s =
      let after = delete_runtime_spec uuid_string app env s in (emptied after.0, after.1)
  step (find_spec app env) s = (answered (find_runtime_spec uuid_string app env s), s)

  unfoldable pub run_store : List SpecCall → MemoryStore → List Answer × MemoryStore
  unfolding step
  run_store [] s = ([], s)
  run_store (call ∷ calls) s =
      let rest = run_store calls (step call s).1 in ((step call s).0 ∷ rest.0, rest.1)

  -- A fresh id is new to the store; a spec that is created has a new id, or the place of the old.
  abbrev pub Admits : SpecCall → MemoryStore → Type 0
  Admits (create_spec spec) s = Fits uuid_string spec s
  Admits (ensure_spec app env fresh now) s = find fresh s.runtime_specs ≡ none
  Admits _ s = Unit

  abbrev pub AdmitsAll : List SpecCall → MemoryStore → Type 0
  AdmitsAll [] s = Unit
  AdmitsAll (call ∷ calls) s = Admits call s × AdmitsAll calls (step call s).1
