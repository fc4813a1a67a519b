-- ===== src/Runtime/Store/Index.antt =====
-- The index of the specs by application and environment leads to the specs that it names.
use devflow_service.Base.{
  ==_iff, Bool-cases, List, [], arith, false, find, find-erase_other, find-erase_same,
  find-put_other, find-put_same, inl, inr, length, refl, some, subst, sym, true, ℕ, ℕ-Key, ◌++◌,
  ◌==◌, ◌∙◌, ◌∷◌, ◌≡◌,
}
use devflow_service.Runtime.Store.{
  MemoryStore, key_of, new_memory_store, runtime_app_env_key, stored, without_spec,
}
use devflow_service.Runtime.Types.{RuntimeSpec}
use devflow_service.Text.{Text, text_eq, trim_space}
use devflow_service.Text.Laws.{Text-Key, text_eq_iff, text_eq_refl}

-- What the documentation of `UUID.String` says: 36 characters, and different for different ids.
pub record IsUuidText (uuid_string : ℕ → Text) : Type 0 where
  pub width : (a : ℕ) → length (uuid_string a) ≡ 36
  pub injective : (a b : ℕ) → uuid_string a ≡ uuid_string b → a ≡ b

append_same_length : (s t x y : Text) → length s ≡ length t → s ++ x ≡ t ++ y → (s ≡ t) × (x ≡ y)
append_same_length [] [] x y h e = (refl, e)
append_same_length [] (b ∷ t) x y h e = absurd (omega arith)
append_same_length (a ∷ s) [] x y h e = absurd (omega arith)
append_same_length (a ∷ s) (b ∷ t) x y h e = ground (arith, append_same_length s t x y)

pub spec_unique :
    (specs : List (ℕ × RuntimeSpec)) {a b : RuntimeSpec} {i j : ℕ}
    → find i specs ≡ some a
    → find j specs ≡ some b
    → i ≡ j
    → a ≡ b
spec_unique specs p q e = cc

module _ (uuid_string : ℕ → Text) where
  -- Keys are equal only for one application and one environment, up to spaces around it.
  pub runtime_app_env_key_inj :
      (a b : ℕ) (s t : Text)
      → IsUuidText uuid_string
      → runtime_app_env_key uuid_string a s ≡ runtime_app_env_key uuid_string b t
      → (a ≡ b) × (trim_space s ≡ trim_space t)
  unfolding runtime_app_env_key
  runtime_app_env_key_inj a b s t u e =
      let parts =
        append_same_length (uuid_string a) (uuid_string b) (124 ∷ trim_space s) (124 ∷ trim_space t)
          (u.width a ∙ sym (u.width b)) e in
      (u.injective a b parts.0, cc)

  -- What an entry leads to.
  abbrev pub Leads : MemoryStore → Text → ℕ → Type 0
  Leads s key id =
      (spec : RuntimeSpec) × (find id s.runtime_specs ≡ some spec)
      × (spec.id ≡ id)
      × (key_of uuid_string spec ≡ key)

  -- Each entry of the index leads to a spec of that id and that key.
  abbrev pub IsIndexed : MemoryStore → Type 0
  IsIndexed s =
      (key : Text) (id : ℕ)
      → find key s.runtime_spec_by_app_env ≡ some id
      → (spec : RuntimeSpec) × (find id s.runtime_specs ≡ some spec)
        × (spec.id ≡ id)
        × (key_of uuid_string spec ≡ key)

  pub new-IsIndexed : IsIndexed new_memory_store
  unfolding find
  new-IsIndexed key id e = cc

  -- A spec under an id that is new to the store, or that stands for the same key already.
  abbrev pub Fits : RuntimeSpec → MemoryStore → Type 0
  Fits spec s =
      (old : RuntimeSpec)
      → find spec.id s.runtime_specs ≡ some old
      → key_of uuid_string old ≡ key_of uuid_string spec

  stored-Leads_new :
      (spec : RuntimeSpec) (s : MemoryStore) (id : ℕ)
      → spec.id ≡ id
      → Leads (stored uuid_string spec s) (key_of uuid_string spec) id
  stored-Leads_new spec s id e =
      (spec, find-put_same id spec.id spec s.runtime_specs ((==_iff _ _).1 e), e, refl)

  stored-Leads :
      (spec : RuntimeSpec) (s : MemoryStore) (key : Text) (id : ℕ)
      → Fits spec s
      → text_eq (key_of uuid_string spec) key ≡ false
      → Leads s key id
      → Leads (stored uuid_string spec s) key id
  stored-Leads spec s key id fits ne (old, found, same_id, same_key) =
      elim (Bool-cases (spec.id == id)) [
        | inl e ↦
            let this = fits old (rw ((==_iff _ _).0 e) found) in
            absurd (cc (this, same_key, ne, text_eq_refl key))
        | inr e ↦ (old, find-put_other id spec.id spec s.runtime_specs e ∙ found, same_id, same_key)
      ]

  -- The index of a store with one more spec.
  module _ (spec : RuntimeSpec) (s : MemoryStore) (key : Text) where
    index-stored_same :
        text_eq (key_of uuid_string spec) key ≡ true
        → find key (stored uuid_string spec s).runtime_spec_by_app_env ≡ some spec.id
    index-stored_same e =
        find-put_same key (key_of uuid_string spec) spec.id s.runtime_spec_by_app_env e

    index-stored_other :
        text_eq (key_of uuid_string spec) key ≡ false
        → find key (stored uuid_string spec s).runtime_spec_by_app_env
          ≡ find key s.runtime_spec_by_app_env
    index-stored_other e =
        find-put_other key (key_of uuid_string spec) spec.id s.runtime_spec_by_app_env e

  pub stored-IsIndexed :
      (spec : RuntimeSpec) (s : MemoryStore)
      → Fits spec s
      → IsIndexed s
      → IsIndexed (stored uuid_string spec s)
  stored-IsIndexed spec s fits h key id e =
      elim (Bool-cases (text_eq (key_of uuid_string spec) key)) [
        | inl this ↦
            subst (λ k. Leads (stored uuid_string spec s) k id) ((text_eq_iff _ _).0 this)
              (stored-Leads_new spec s id (cc (index-stored_same spec s key this, e)))
        | inr that ↦
            stored-Leads spec s key id fits that
              (h key id (sym (index-stored_other spec s key that) ∙ e))
      ]

  -- What another entry leads to stays when one spec goes with its entry.
  without-Leads :
      (key : Text) (id : ℕ) (s : MemoryStore) (key2 : Text) (id2 : ℕ)
      → Leads s key id
      → text_eq key key2 ≡ false
      → Leads s key2 id2
      → Leads (without_spec key id s) key2 id2
  without-Leads key id s key2 id2 (gone, there, gone_id, gone_key) p
        (old, here, same_id, same_key) =
      elim (Bool-cases (id == id2)) [
        | inl e ↦
            let same = spec_unique s.runtime_specs there here ((==_iff _ _).0 e) in
            absurd (cc (same, gone_key, same_key, p, text_eq_refl key))
        | inr e ↦ (old, find-erase_other id2 id s.runtime_specs e ∙ here, same_id, same_key)
      ]

  pub without-IsIndexed :
      (key : Text) (id : ℕ) (s : MemoryStore)
      → find key s.runtime_spec_by_app_env ≡ some id
      → IsIndexed s
      → IsIndexed (without_spec key id s)
  without-IsIndexed key id s e h key2 id2 e2 = elim (Bool-cases (text_eq key key2)) [
    | inl p ↦ absurd (cc (e2, find-erase_same key2 key s.runtime_spec_by_app_env p))
    | inr p ↦
        without-Leads key id s key2 id2 (h key id e) p
          (h key2 id2 (sym (find-erase_other key2 key s.runtime_spec_by_app_env p) ∙ e2))
  ]
