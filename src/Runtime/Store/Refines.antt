-- ===== src/Runtime/Store/Refines.antt =====
-- Over any sequence of calls, the specs of the store answer as a table by application and
-- environment does.
use devflow_service.Base.{
  List, Option-cases, [], ap, find, if◌then◌else◌, inl, inr, none, refl, some, subst, ℕ, ℕ-Key,
  ◌&&◌, ◌==◌, ◌∙◌, ◌∷◌, ◌≡◌,
}
use devflow_service.Runtime.Store.{
  MemoryStore, create_runtime_spec, delete_runtime_spec, ensure_runtime_spec, find_runtime_spec,
  fresh_spec, indexed_spec, runtime_app_env_key, stored, without_spec,
}
use devflow_service.Runtime.Store.Calls.{
  Admits, AdmitsAll, Answer, SpecCall, act, create_spec, delete_spec, ensure_spec, find_spec,
  replay, run_store, step,
}
use devflow_service.Runtime.Store.Index.{
  Fits, IsIndexed, IsUuidText, stored-IsIndexed, without-IsIndexed,
}
use devflow_service.Runtime.Store.Table.{
  SpecTable, at_place, indexed_at, indexed_missing, table-stored, table-without, table_of,
}
use devflow_service.Runtime.Types.{RuntimeSpec}
use devflow_service.Service.World.{err, no_rows, ok}
use devflow_service.Text.{Text, text_eq, trim_space}
use devflow_service.Text.Laws.{Text-Key}
use devflow_service.Text.Trim.{trim_space_idem}
use devflow_service.Transport.Writeback.{answer}

module _ (uuid_string : ℕ → Text) where
  -- One call answers and acts as on the table, and keeps the index.
  abbrev AgreesWith : SpecCall → MemoryStore → Type 0
  AgreesWith call s =
      ((step uuid_string call s).0 ≡ (act call (table_of uuid_string s)).0)
      × (table_of uuid_string (step uuid_string call s).1 ≡ (act call (table_of uuid_string s)).1)
      × IsIndexed uuid_string (step uuid_string call s).1

  agrees_by :
      (call : SpecCall) (s after : MemoryStore) (answer : Answer) (table : SpecTable)
      → step uuid_string call s ≡ (answer, after)
      → act call (table_of uuid_string s) ≡ (answer, table)
      → table_of uuid_string after ≡ table
      → IsIndexed uuid_string after
      → AgreesWith call s
  agrees_by call s after answer table p q r h = rw (p, q) (refl, r, h)

  find-AgreesWith :
      (app : ℕ) (env : Text) (s : MemoryStore)
      → IsIndexed uuid_string s
      → AgreesWith (find_spec app env) s
  unfolding step act find_runtime_spec table_of
  find-AgreesWith app env s h =
      elim (Option-cases (indexed_spec (runtime_app_env_key uuid_string app env) s)) [
        | inl e ↦
            agrees_by (find_spec app env) s s (err no_rows) (table_of uuid_string s)
              (rw (step, find_runtime_spec, e) refl) (rw (act, table_of, e) refl) refl h
        | inr (spec, e) ↦
            agrees_by (find_spec app env) s s (ok (some spec)) (table_of uuid_string s)
              (rw (step, find_runtime_spec, e) refl) (rw (act, table_of, e) refl) refl h
      ]

  delete-AgreesWith :
      (app : ℕ) (env : Text) (s : MemoryStore)
      → IsUuidText uuid_string
      → IsIndexed uuid_string s
      → AgreesWith (delete_spec app env) s
  unfolding step act delete_runtime_spec table_of
  delete-AgreesWith app env s u h =
      let key = runtime_app_env_key uuid_string app env in
      elim (Option-cases (find key s.runtime_spec_by_app_env)) [
        | inl e ↦
            agrees_by (delete_spec app env) s s (err no_rows) (table_of uuid_string s)
              (rw (step, delete_runtime_spec, e) refl)
              (rw (act, table_of, indexed_missing uuid_string key s e) refl) refl h
        | inr (id, e) ↦
            let leads = h key id e in
            agrees_by (delete_spec app env) s (without_spec key id s) (ok none)
              (at_place app env none (table_of uuid_string s))
              (rw (step, delete_runtime_spec, e) refl)
              (rw (act, table_of, indexed_at uuid_string key s id e, leads.1) refl)
              (table-without uuid_string app env id s u h e)
              (without-IsIndexed uuid_string key id s e h)
      ]

  trimmed_key :
      (app : ℕ) (env : Text)
      → runtime_app_env_key uuid_string app (trim_space env)
        ≡ runtime_app_env_key uuid_string app env
  unfolding runtime_app_env_key
  trimmed_key app env = rw (trim_space_idem env) refl

  trimmed_place :
      (app : ℕ) (env : Text) (spec : RuntimeSpec) (s : MemoryStore)
      → at_place app (trim_space env) (some spec) (table_of uuid_string s)
        ≡ at_place app env (some spec) (table_of uuid_string s)
  trimmed_place app env spec s =
      let value = some spec in
      ap
        (λ place b t.
          if app == b && text_eq place (trim_space t) then value else table_of uuid_string s b t)
        (trim_space_idem env)

  ensure-AgreesWith :
      (app : ℕ) (env : Text) (fresh now : ℕ) (s : MemoryStore)
      → IsUuidText uuid_string
      → find fresh s.runtime_specs ≡ none
      → IsIndexed uuid_string s
      → AgreesWith (ensure_spec app env fresh now) s
  unfolding step act ensure_runtime_spec table_of
  ensure-AgreesWith app env fresh now s u new h =
      let key = runtime_app_env_key uuid_string app env in
      let spec = fresh_spec app env fresh now in
      let call = ensure_spec app env fresh now in
      let trimmed = ap (λ k. indexed_spec k s) (trimmed_key app env) in
      elim (Option-cases (indexed_spec key s)) [
        | inl e ↦
            agrees_by call s (stored uuid_string spec s) (ok (some spec))
              (at_place app env (some spec) (table_of uuid_string s))
              (rw (step, ensure_runtime_spec, trimmed ∙ e) refl) (rw (act, table_of, e) refl)
              (table-stored uuid_string spec s u (λ old e. absurd cc) h
                ∙ trimmed_place app env spec s)
              (stored-IsIndexed uuid_string spec s (λ old e. absurd cc) h)
        | inr (held, e) ↦
            agrees_by call s s (ok (some held)) (table_of uuid_string s)
              (rw (step, ensure_runtime_spec, trimmed ∙ e) refl) (rw (act, table_of, e) refl) refl h
      ]

  create-AgreesWith :
      (spec : RuntimeSpec) (s : MemoryStore)
      → IsUuidText uuid_string
      → Fits uuid_string spec s
      → IsIndexed uuid_string s
      → AgreesWith (create_spec spec) s
  unfolding step act create_runtime_spec
  create-AgreesWith spec s u fits h =
      (refl, table-stored uuid_string spec s u fits h, stored-IsIndexed uuid_string spec s fits h)

  step-AgreesWith :
      (call : SpecCall) (s : MemoryStore)
      → IsUuidText uuid_string
      → Admits uuid_string call s
      → IsIndexed uuid_string s
      → AgreesWith call s
  step-AgreesWith (create_spec spec) s u a h = create-AgreesWith spec s u a h
  step-AgreesWith (ensure_spec app env fresh now) s u a h =
      ensure-AgreesWith app env fresh now s u a h
  step-AgreesWith (delete_spec app env) s u a h = delete-AgreesWith app env s u h
  step-AgreesWith (find_spec app env) s u a h = find-AgreesWith app env s h

  -- Any list of creations, ensures, searches and deletions of runtime specs by application and
  -- environment, on an indexed store, gives the answers that the abstract table from application and
  -- environment to spec gives, leaves the store of the table that results, and keeps it indexed.
  -- `uuid.UUID.String` is as documented, and each call is admitted at the time it is made.
  pub run_store_refines :
      (calls : List SpecCall) (s : MemoryStore)
      → IsUuidText uuid_string
      → AdmitsAll uuid_string calls s
      → IsIndexed uuid_string s
      → ((run_store uuid_string calls s).0 ≡ (replay calls (table_of uuid_string s)).0)
        × (table_of uuid_string (run_store uuid_string calls s).1
            ≡ (replay calls (table_of uuid_string s)).1)
        × IsIndexed uuid_string (run_store uuid_string calls s).1
  unfolding run_store replay
  run_store_refines [] s u a h = (refl, refl, h)
  run_store_refines (call ∷ calls) s u (admits, later) h =
      let after = (step uuid_string call s).1 in
      let (answers, tables, still) = step-AgreesWith call s u admits h in
      let (p, q, r) = run_store_refines calls after u later still in
      let (p2, q2) =
        subst
          (λ t.
            ((run_store uuid_string calls after).0 ≡ (replay calls t).0)
            × (table_of uuid_string (run_store uuid_string calls after).1 ≡ (replay calls t).1))
          tables (p, q) in
      (cc (answers, p2), q2, r)
