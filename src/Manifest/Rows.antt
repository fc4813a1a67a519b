-- ===== src/Manifest/Rows.antt =====
-- Postconditions of the statements on the table `manifests`, for what its live rows with one id hold.
use devflow_service.Base.{
  ==_iff, All, Bool, Bool-cases, List, Option, [], arith, if◌then◌else◌, inl, inr, none, refl, some,
  subst, true, ℕ, ◌∷◌, ◌≡◌,
}
use devflow_service.Manifest.Store.{
  change_found, change_manifest, first_manifest, has_manifest_id, has_pipeline_id, is_live_manifest,
  manifest_or_no_rows, read_manifest, set_manifests,
}
use devflow_service.Manifest.Types.{Manifest}
use devflow_service.Service.World.{
  M, Result, ServiceError, World, and_then, err, faulty, faulty_on, ok,
}
use devflow_service.Text.{Text}

-- What holds of the table after an answer, and after an error.
abbrev pub Post {ℓ} :
    {A : Type ℓ}
    → (A → List Manifest → Type 0)
    → (List Manifest → Type 0)
    → Result A × World
    → Type 0
Post Q E (ok a, w) = Q a w.manifests
Post Q E (err e, w) = E w.manifests

pub Post-bind {ℓ κ} :
    {A : Type ℓ} {B : Type κ} (Q : A → List Manifest → Type 0) (R : B → List Manifest → Type 0)
    (E : List Manifest → Type 0) (m : Result A × World) (f : A → M B)
    → Post Q E m
    → ((a : A) (w : World) → Q a w.manifests → Post R E (f a w))
    → Post R E (and_then m f)
Post-bind Q R E (ok a, w) f h k = k a w h
Post-bind Q R E (err e, w) f h k = h

pub Post-weaken {ℓ} :
    {A : Type ℓ} (Q R : A → List Manifest → Type 0) (E F : List Manifest → Type 0)
    (m : Result A × World)
    → ((a : A) (ms : List Manifest) → Q a ms → R a ms)
    → ((ms : List Manifest) → E ms → F ms)
    → Post Q E m
    → Post R F m
Post-weaken Q R E F (ok a, w) answers errors h = answers a w.manifests h
Post-weaken Q R E F (err e, w) answers errors h = errors w.manifests h

-- A fault leaves the table as it is.
module _ {ℓ} {A : Type ℓ} (P : List Manifest → Type 0) (Q : A → List Manifest → Type 0)
    (E : List Manifest → Type 0) where
  faulty_on-Post :
      (faults : List (Option ServiceError)) (m : M A) (w : World)
      → ((v : World) → P v.manifests → Post Q E (m v))
      → ((ms : List Manifest) → P ms → E ms)
      → P w.manifests
      → Post Q E (faulty_on faults m w)
  faulty_on-Post [] m w k errors h = k w h
  faulty_on-Post (none ∷ rest) m w k errors h = k (record w { faults = rest }) h
  faulty_on-Post (some e ∷ rest) m w k errors h = errors w.manifests h

  pub faulty-Post :
      (m : M A) (w : World)
      → ((v : World) → P v.manifests → Post Q E (m v))
      → ((ms : List Manifest) → P ms → E ms)
      → P w.manifests
      → Post Q E (faulty m w)
  unfolding faulty
  faulty-Post m w k errors h = faulty_on-Post w.faults m w k errors h

some_injective : (a b : Manifest) → Path (Option Manifest) (some a) (some b) → a ≡ b
some_injective a b e = cc

module _ (id : ℕ) (P : Manifest → Type 0) where
  -- If this is a live row of the manifest, it has the property.
  abbrev pub Meets : Manifest → Type 0
  Meets m = has_manifest_id id m ≡ true → P m

  abbrev pub Rows : List Manifest → Type 0
  Rows ms = All Meets ms

  -- What a query finds: a row that it meets.
  abbrev pub Found : (Manifest → Bool) → Manifest → List Manifest → Type 0
  Found test m ms = (test m ≡ true) × (Meets m × Rows ms)

  pub first_manifest-Meets :
      (test : Manifest → Bool) (ms : List Manifest) (m : Manifest)
      → first_manifest test ms ≡ some m
      → Rows ms
      → (test m ≡ true) × Meets m
  unfolding first_manifest
  first_manifest-Meets test [] m e h = cc
  first_manifest-Meets test (row ∷ ms) m e h = elim (Bool-cases (test row)) [
    | inl hit ↦
        subst (λ (x : Manifest). (test x ≡ true) × Meets x) (some_injective row m (rw hit at e))
          (hit, h.0)
    | inr miss ↦ first_manifest-Meets test ms m (rw miss at e) h.1
  ]

  manifest_or_no_rows-Post :
      (o : Option Manifest) (test : Manifest → Bool) (w : World)
      → ((m : Manifest) → o ≡ some m → (test m ≡ true) × Meets m)
      → Rows w.manifests
      → Post (Found test) Rows (manifest_or_no_rows o w)
  manifest_or_no_rows-Post none test w facts h = h
  manifest_or_no_rows-Post (some m) test w facts h = ((facts m refl).0, ((facts m refl).1, h))

  pub read-Post :
      (test : Manifest → Bool) (w : World)
      → Rows w.manifests
      → Post (Found test) Rows (faulty (read_manifest test) w)
  unfolding read_manifest
  read-Post test w h =
      faulty-Post Rows (Found test) Rows (read_manifest test) w
        (λ v k.
          manifest_or_no_rows-Post (first_manifest test v.manifests) test v
            (λ m e. first_manifest-Meets test v.manifests m e k) k)
        (λ ms k. k) h

module _ (id : ℕ) (P Q : Manifest → Type 0) where
  -- A change turns the property into another one, on the rows that it reaches and on the others.
  abbrev pub Turns : ℕ → (Manifest → Manifest) → Type 0
  Turns k change =
      (m : Manifest) → Meets id P m → Meets id Q (if has_manifest_id k m then change m else m)

  set_manifests-Rows :
      (k : ℕ) (change : Manifest → Manifest) (ms : List Manifest)
      → Turns k change
      → Rows id P ms
      → Rows id Q (set_manifests (has_manifest_id k) change ms)
  unfolding set_manifests
  set_manifests-Rows k change [] turns h = tt
  set_manifests-Rows k change (m ∷ ms) turns h =
      (turns m h.0, set_manifests-Rows k change ms turns h.1)

  change_found-Post :
      (o : Option Manifest) (k : ℕ) (change : Manifest → Manifest) (w : World)
      → Turns k change
      → Rows id P w.manifests
      → Post (λ _. Rows id Q) (Rows id P) (change_found o k change w)
  change_found-Post none k change w turns h = h
  change_found-Post (some m) k change w turns h = set_manifests-Rows k change w.manifests turns h

  pub change-Post :
      (k : ℕ) (change : Manifest → Manifest) (w : World)
      → Turns k change
      → Rows id P w.manifests
      → Post (λ _. Rows id Q) (Rows id P) (faulty (change_manifest k change) w)
  unfolding change_manifest
  change-Post k change w turns h =
      faulty-Post (Rows id P) (λ _. Rows id Q) (Rows id P) (change_manifest k change) w
        (λ v. change_found-Post (first_manifest (has_manifest_id k) v.manifests) k change v turns)
        (λ ms b. b) h

pub has_manifest_id-id : (k : ℕ) (m : Manifest) → has_manifest_id k m ≡ true → m.id ≡ k
has_manifest_id-id k m h = ground (arith, ==_iff m.id k)

pub has_manifest_id-own : (m : Manifest) → is_live_manifest m ≡ true → has_manifest_id m.id m ≡ true
has_manifest_id-own m h = ground (arith, ==_iff m.id m.id, h)

module _ (id : ℕ) (P : Manifest → Type 0) where
  -- A change of the row of another manifest.
  pub change-Turns :
      (k : ℕ) (change : Manifest → Manifest)
      → (¬ (k ≡ id))
      → ((m : Manifest) → (change m).id ≡ m.id)
      → Turns id P P k change
  change-Turns k change apart keeps m meets on = elim (Bool-cases (has_manifest_id k m)) [
    | inl hit ↦
        let here = has_manifest_id-id k m hit in
        let there = has_manifest_id-id id (change m) (rw hit at on) in
        let kept = keeps m in absurd (apart cc)
    | inr miss ↦ rw miss (meets (rw miss at on))
  ]

pub has_manifest_id-live :
    (k : ℕ) (m : Manifest) → has_manifest_id k m ≡ true → is_live_manifest m ≡ true
has_manifest_id-live k m h = ground arith

pub has_pipeline_id-live :
    (pipeline : Text) (m : Manifest) → has_pipeline_id pipeline m ≡ true → is_live_manifest m ≡ true
unfolding has_pipeline_id
has_pipeline_id-live pipeline m h = ground arith
