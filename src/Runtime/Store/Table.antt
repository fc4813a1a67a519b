-- ===== src/Runtime/Store/Table.antt =====
-- The specs of the store as a table by application and environment, and what a write does to it.
use mathlib.Core.Path.{fun_ext}
use devflow_service.Base.{
  ==_iff, Bool, Bool-cases, Option, Option-cases, arith, erase, false, find, find-erase_other,
  find-erase_same, find-put_other, find-put_same, if◌then◌else◌, inl, inr, none, put, refl, some,
  sym, true, ℕ, ℕ-Key, ◌&&◌, ◌==◌, ◌∙◌, ◌≡◌,
}
use devflow_service.Runtime.Store.{
  MemoryStore, indexed_spec, key_of, runtime_app_env_key, stored, without_spec,
}
use devflow_service.Runtime.Store.Index.{
  Fits, IsIndexed, IsUuidText, Leads, runtime_app_env_key_inj, spec_unique,
}
use devflow_service.Runtime.Types.{RuntimeSpec}
use devflow_service.Text.{Text, text_eq, trim_space}
use devflow_service.Text.Laws.{Text-Key, text_eq_iff, text_eq_refl}

-- The abstract table, read at an application and a trimmed environment.
abbrev pub SpecTable : Type 0
SpecTable = ℕ → Text → Option RuntimeSpec

abbrev pub same_place : ℕ → Text → ℕ → Text → Bool
same_place a s b t = a == b && text_eq (trim_space s) (trim_space t)

-- The table with one place changed.
abbrev pub at_place : ℕ → Text → Option RuntimeSpec → SpecTable → SpecTable
at_place a s value table b t = if same_place a s b t then value else table b t

if_true : {b : Bool} (x y : Option RuntimeSpec) → b ≡ true → (if b then x else y) ≡ x
if_true x y e = rw e refl

if_false : {b : Bool} (x y : Option RuntimeSpec) → b ≡ false → (if b then x else y) ≡ y
if_false x y e = rw e refl

module _ (uuid_string : ℕ → Text) where
  -- What the store holds at a place.
  unfoldable pub table_of : MemoryStore → SpecTable
  unfolding indexed_spec runtime_app_env_key
  table_of s app env = indexed_spec (runtime_app_env_key uuid_string app env) s

  same_place_sound :
      (a b : ℕ) (s t : Text) → same_place a s b t ≡ true → (a ≡ b) × (trim_space s ≡ trim_space t)
  same_place_sound a b s t e = elim (Bool-cases (text_eq (trim_space s) (trim_space t))) [
    | inl p ↦ (ground arith, (text_eq_iff _ _).0 p)
    | inr p ↦ absurd (ground arith)
  ]

  key_of_place :
      (a b : ℕ) (s t : Text)
      → a ≡ b
      → trim_space s ≡ trim_space t
      → runtime_app_env_key uuid_string a s ≡ runtime_app_env_key uuid_string b t
  unfolding runtime_app_env_key
  key_of_place a b s t p q = cc

  same_place_complete :
      (a b : ℕ) (s t : Text) → a ≡ b → trim_space s ≡ trim_space t → same_place a s b t ≡ true
  same_place_complete a b s t p q = ground (arith, (text_eq_iff (trim_space s) (trim_space t)).1 q)

  -- Two keys are equal exactly where the places are.
  key-same_place :
      (a b : ℕ) (s t : Text)
      → IsUuidText uuid_string
      → text_eq (runtime_app_env_key uuid_string a s) (runtime_app_env_key uuid_string b t)
        ≡ same_place a s b t
  key-same_place a b s t u =
      let key = runtime_app_env_key uuid_string in
      elim (Bool-cases (same_place a s b t)) [
        | inl p ↦
            let places = same_place_sound a b s t p in
            (text_eq_iff _ _).1 (key_of_place a b s t places.0 places.1) ∙ sym p
        | inr p ↦ elim (Bool-cases (text_eq (key a s) (key b t))) [
          | inl e ↦
              let places = runtime_app_env_key_inj uuid_string a b s t u ((text_eq_iff _ _).0 e) in
              absurd (cc (p, same_place_complete a b s t places.0 places.1))
          | inr e ↦ e ∙ sym p
        ]
      ]

  pub indexed_at :
      (key : Text) (s : MemoryStore) (id : ℕ)
      → find key s.runtime_spec_by_app_env ≡ some id
      → indexed_spec key s ≡ find id s.runtime_specs
  unfolding indexed_spec
  indexed_at key s id e = rw (indexed_spec, e) refl

  pub indexed_missing :
      (key : Text) (s : MemoryStore)
      → find key s.runtime_spec_by_app_env ≡ none
      → indexed_spec key s ≡ none
  unfolding indexed_spec
  indexed_missing key s e = rw (indexed_spec, e) refl

  pub indexed-stored_same :
      (spec : RuntimeSpec) (s : MemoryStore) (key : Text)
      → text_eq (key_of uuid_string spec) key ≡ true
      → indexed_spec key (stored uuid_string spec s) ≡ some spec
  indexed-stored_same spec s key e =
      indexed_at key (stored uuid_string spec s) spec.id
        (find-put_same key (key_of uuid_string spec) spec.id s.runtime_spec_by_app_env e)
      ∙ find-put_same spec.id spec.id spec s.runtime_specs ((==_iff spec.id spec.id).1 refl)

  found_still :
      (spec : RuntimeSpec) (s : MemoryStore) (key : Text) (id : ℕ)
      → Fits uuid_string spec s
      → Leads uuid_string s key id
      → text_eq (key_of uuid_string spec) key ≡ false
      → find id (put spec.id spec s.runtime_specs) ≡ find id s.runtime_specs
  found_still spec s key id fits (old, found, same_id, same_key) ne =
      elim (Bool-cases (spec.id == id)) [
        | inl e ↦
            let this = fits old (rw ((==_iff _ _).0 e) found) in
            absurd (cc (this, same_key, ne, text_eq_refl key))
        | inr e ↦ find-put_other id spec.id spec s.runtime_specs e
      ]

  indexed-stored_other :
      (spec : RuntimeSpec) (s : MemoryStore) (key : Text)
      → Fits uuid_string spec s
      → IsIndexed uuid_string s
      → text_eq (key_of uuid_string spec) key ≡ false
      → indexed_spec key (stored uuid_string spec s) ≡ indexed_spec key s
  indexed-stored_other spec s key fits h ne =
      let same =
        find-put_other key (key_of uuid_string spec) spec.id s.runtime_spec_by_app_env ne in
      elim (Option-cases (find key s.runtime_spec_by_app_env)) [
        | inl e ↦
            indexed_missing key (stored uuid_string spec s) (same ∙ e)
            ∙ sym (indexed_missing key s e)
        | inr (id, e) ↦
            indexed_at key (stored uuid_string spec s) id (same ∙ e)
            ∙ found_still spec s key id fits (h key id e) ne
            ∙ sym (indexed_at key s id e)
      ]

  -- Storing a spec changes the table at its place.
  pub table-stored :
      (spec : RuntimeSpec) (s : MemoryStore)
      → IsUuidText uuid_string
      → Fits uuid_string spec s
      → IsIndexed uuid_string s
      → table_of (stored uuid_string spec s)
        ≡ at_place spec.application_id spec.environment (some spec) (table_of s)
  unfolding table_of
  table-stored spec s u fits h = fun_ext λ app. fun_ext λ env.
      let key = runtime_app_env_key uuid_string app env in
      let places = key-same_place spec.application_id app spec.environment env u in
      elim (Bool-cases (text_eq (key_of uuid_string spec) key)) [
        | inl e ↦ indexed-stored_same spec s key e ∙ sym (if_true _ _ (sym places ∙ e))
        | inr e ↦ indexed-stored_other spec s key fits h e ∙ sym (if_false _ _ (sym places ∙ e))
      ]

  found_without :
      (key : Text) (id : ℕ) (s : MemoryStore) (key2 : Text) (id2 : ℕ)
      → Leads uuid_string s key id
      → text_eq key key2 ≡ false
      → Leads uuid_string s key2 id2
      → find id2 (erase id s.runtime_specs) ≡ find id2 s.runtime_specs
  found_without key id s key2 id2 (gone, there, gone_id, gone_key) p
        (old, here, same_id, same_key) =
      elim (Bool-cases (id == id2)) [
        | inl e ↦
            let same = spec_unique s.runtime_specs there here ((==_iff _ _).0 e) in
            absurd (cc (same, gone_key, same_key, p, text_eq_refl key))
        | inr e ↦ find-erase_other id2 id s.runtime_specs e
      ]

  indexed-without_other :
      (key : Text) (id : ℕ) (s : MemoryStore) (key2 : Text)
      → find key s.runtime_spec_by_app_env ≡ some id
      → IsIndexed uuid_string s
      → text_eq key key2 ≡ false
      → indexed_spec key2 (without_spec key id s) ≡ indexed_spec key2 s
  indexed-without_other key id s key2 there h ne =
      let same = find-erase_other key2 key s.runtime_spec_by_app_env ne in
      elim (Option-cases (find key2 s.runtime_spec_by_app_env)) [
        | inl e ↦
            indexed_missing key2 (without_spec key id s) (same ∙ e) ∙ sym (indexed_missing key2 s e)
        | inr (id2, e) ↦
            indexed_at key2 (without_spec key id s) id2 (same ∙ e)
            ∙ found_without key id s key2 id2 (h key id there) ne (h key2 id2 e)
            ∙ sym (indexed_at key2 s id2 e)
      ]

  -- Deleting a spec empties its place.
  pub table-without :
      (app : ℕ) (env : Text) (id : ℕ) (s : MemoryStore)
      → IsUuidText uuid_string
      → IsIndexed uuid_string s
      → find (runtime_app_env_key uuid_string app env) s.runtime_spec_by_app_env ≡ some id
      → table_of (without_spec (runtime_app_env_key uuid_string app env) id s)
        ≡ at_place app env none (table_of s)
  unfolding table_of
  table-without app env id s u h there = fun_ext λ app2. fun_ext λ env2.
      let key = runtime_app_env_key uuid_string app env in
      let key2 = runtime_app_env_key uuid_string app2 env2 in
      let places = key-same_place app app2 env env2 u in
      elim (Bool-cases (text_eq key key2)) [
        | inl e ↦
            indexed_missing key2 (without_spec key id s)
              (find-erase_same key2 key s.runtime_spec_by_app_env e)
            ∙ sym (if_true _ _ (sym places ∙ e))
        | inr e ↦
            indexed-without_other key id s key2 there h e ∙ sym (if_false _ _ (sym places ∙ e))
      ]
