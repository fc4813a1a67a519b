-- ===== src/Service/Create/Guarded.antt =====
-- Which manifests a release is created from.
use devflow_service.Base.{
  Bool-cases, List, Option, [], false, inl, inr, none, refl, some, ℕ, ◌∷◌, ◌≡◌,
}
use devflow_service.Manifest.Rows.{Rows, first_manifest-Meets}
use devflow_service.Manifest.Store.{
  first_manifest, get_manifest, has_manifest_id, manifest_or_no_rows, read_manifest,
}
use devflow_service.Manifest.Tekton.{is_missing_row}
use devflow_service.Manifest.Types.{Manifest}
use devflow_service.Release.Types.{Release}
use devflow_service.Runtime.Store.Calls.{answered}
use devflow_service.Service.Create.{
  CreateClients, create, create_from, fall_back, is_deployable, manifest_error,
}
use devflow_service.Service.World.{
  Result, ServiceError, World, and_then, err, faulty, faulty_on, ok,
}

-- The releases and the intents are those of another world.
abbrev pub SameReleases : World → World → Type 0
SameReleases w v = (v.rows ≡ w.rows) × (v.intents ≡ w.intents)

-- What a read of a manifest leaves, and that its result meets a property.
abbrev Reads : World → (Manifest → Type 0) → Result Manifest × World → Type 0
Reads w Q (ok m, v) = SameReleases w v × Q m
Reads w Q (err e, v) = SameReleases w v

module _ (w : World) (id : ℕ) (P : Manifest → Type 0) where
  first_of-Reads :
      (o : Option Manifest) (v : World)
      → SameReleases w v
      → ((m : Manifest) → o ≡ some m → P m)
      → Reads w P (manifest_or_no_rows o v)
  first_of-Reads none v h facts = h
  first_of-Reads (some m) v h facts = (h, facts m refl)

  read-Reads :
      (v : World)
      → SameReleases w v
      → Rows id P v.manifests
      → Reads w P (read_manifest (has_manifest_id id) v)
  unfolding read_manifest
  read-Reads v h rows = first_of-Reads (first_manifest (has_manifest_id id) v.manifests) v h (λ m e.
      let q = first_manifest-Meets id P (has_manifest_id id) v.manifests m e rows in q.1 q.0)

  faulty_on-Reads :
      (faults : List (Option ServiceError))
      → Rows id P w.manifests
      → Reads w P (faulty_on faults (read_manifest (has_manifest_id id)) w)
  faulty_on-Reads [] rows = read-Reads w (refl, refl) rows
  faulty_on-Reads (none ∷ rest) rows = read-Reads (record w { faults = rest }) (refl, refl) rows
  faulty_on-Reads (some e ∷ rest) rows = (refl, refl)

  get_manifest-Reads : Rows id P w.manifests → Reads w P (get_manifest id w)
  unfolding get_manifest faulty
  get_manifest-Reads rows = faulty_on-Reads w.faults rows

-- A refusal: an error, with the same releases and intents.
abbrev pub Refused {ℓ} : {A : Type ℓ} → World → Result A × World → Type 0
Refused w (ok a, v) = ⊥
Refused w (err e, v) = SameReleases w v

abbrev pub NotDeployable : Manifest → Type 0
NotDeployable m = is_deployable m.status ≡ false

create_from-Refused :
    (k : CreateClients) (release : Release) (fresh intent now : ℕ) (w : World)
    (r : Result Manifest × World)
    → Reads w NotDeployable r
    → Refused w (and_then r (create_from k release fresh intent now))
unfolding create_from
create_from-Refused k release fresh intent now w (ok m, v) h = rw h.1 h.0
create_from-Refused k release fresh intent now w (err e, v) h = h

-- The other manifest service, where there is one, does not answer with a deployable manifest.
abbrev RemoteRefuses : Option (Result Manifest) → Type 0
RemoteRefuses none = Unit
RemoteRefuses (some (ok m)) = NotDeployable m
RemoteRefuses (some (err e)) = Unit

answered-Reads :
    (w v : World) (answered : Result Manifest)
    → RemoteRefuses (some answered)
    → SameReleases w v
    → Reads w NotDeployable (answered, v)
answered-Reads w v (ok m) h same = (same, h)
answered-Reads w v (err e) h same = same

fall_back-Reads :
    (w : World) (o : Option (Result Manifest)) (r : Result Manifest × World)
    → RemoteRefuses o
    → Reads w NotDeployable r
    → Reads w NotDeployable (fall_back o r)
fall_back-Reads w none r remote h = h
fall_back-Reads w (some answered) (ok m, v) remote h = h
fall_back-Reads w (some answered) (err e, v) remote h = elim (Bool-cases (is_missing_row e)) [
  | inl gone ↦ rw gone (answered-Reads w v answered remote h)
  | inr other_error ↦ rw other_error h
]

manifest_error-Reads :
    (w : World) (r : Result Manifest × World)
    → Reads w NotDeployable r
    → Reads w NotDeployable (manifest_error r)
manifest_error-Reads w (ok m, v) h = h
manifest_error-Reads w (err e, v) h = h

-- Where no live row of the manifest is available, and the other manifest service has no available
-- one either, `Create` fails, and leaves the releases and the intents as they were, whichever
-- statements fail.
pub create-Refused :
    (k : CreateClients) (release : Release) (fresh intent now : ℕ) (w : World)
    → RemoteRefuses (k.remote release.manifest_id)
    → Rows release.manifest_id NotDeployable w.manifests
    → Refused w (create k release fresh intent now w)
unfolding create
create-Refused k release fresh intent now w remote rows =
    create_from-Refused k release fresh intent now w
      (manifest_error
        (fall_back (k.remote release.manifest_id) (get_manifest release.manifest_id w)))
      (manifest_error-Reads w
        (fall_back (k.remote release.manifest_id) (get_manifest release.manifest_id w))
        (fall_back-Reads w (k.remote release.manifest_id) (get_manifest release.manifest_id w)
          remote (get_manifest-Reads w release.manifest_id NotDeployable rows)))
