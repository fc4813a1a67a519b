-- ===== src/Manifest/Store.antt =====
-- internal/manifest/repository/repository.go: the table `manifests`, with the primary key `id`.
use devflow_service.Base.{
  Bool, List, Option, [], false, if◌then◌else◌, none, some, true, ℕ, ◌&&◌, ◌==◌, ◌∷◌,
}
use devflow_service.Manifest.Types.{ImageTask, Manifest}
use devflow_service.Release.Types.{ManifestStatus}
use devflow_service.Service.World.{M, err, fail, faulty, no_rows, ok, return, store_failed}
use devflow_service.Text.{Text, codes, text_eq}

abbrev pub is_live_manifest : Manifest → Bool
is_live_manifest m = elim m.deleted_at [ none ↦ true | some t ↦ false ]

-- `where id = $1 and deleted_at is null`.
abbrev pub has_manifest_id : ℕ → Manifest → Bool
has_manifest_id id m = m.id == id && is_live_manifest m

-- `where pipeline_id = $1 and deleted_at is null`.
unfoldable pub has_pipeline_id : Text → Manifest → Bool
unfolding text_eq
has_pipeline_id pipeline m = text_eq m.pipeline_id pipeline && is_live_manifest m

unfoldable pub first_manifest : (Manifest → Bool) → List Manifest → Option Manifest
first_manifest test [] = none
first_manifest test (m ∷ manifests) =
    let rest = first_manifest test manifests in if test m then some m else rest

unfoldable pub set_manifests :
    (Manifest → Bool) → (Manifest → Manifest) → List Manifest → List Manifest
set_manifests test change [] = []
set_manifests test change (m ∷ manifests) =
    (if test m then change m else m) ∷ set_manifests test change manifests

-- `QueryRowContext`: the first row that the query meets.
abbrev pub manifest_or_no_rows : Option Manifest → M Manifest
manifest_or_no_rows none = fail no_rows
manifest_or_no_rows (some m) = return m

unfoldable pub read_manifest : (Manifest → Bool) → M Manifest
unfolding first_manifest
read_manifest test w = manifest_or_no_rows (first_manifest test w.manifests) w

-- `Get`.
unfoldable pub get_manifest : ℕ → M Manifest
unfolding faulty read_manifest
get_manifest id = faulty (read_manifest (has_manifest_id id))

-- `GetByPipelineID`.
unfoldable pub get_by_pipeline_id : Text → M Manifest
unfolding faulty read_manifest has_pipeline_id
get_by_pipeline_id pipeline = faulty (read_manifest (has_pipeline_id pipeline))

-- `dbsql.EnsureRowsAffected`: a statement that met no row fails with `sql.ErrNoRows`.
abbrev pub change_found : Option Manifest → ℕ → (Manifest → Manifest) → M (Unit {0})
change_found none id change w = (err no_rows, w)
change_found (some m) id change w =
    (ok tt, record w { manifests = set_manifests (has_manifest_id id) change w.manifests })

-- `update manifests set ... where id = $1 and deleted_at is null`.
unfoldable pub change_manifest : ℕ → (Manifest → Manifest) → M (Unit {0})
unfolding first_manifest set_manifests
change_manifest id change w =
    change_found (first_manifest (has_manifest_id id) w.manifests) id change w

-- `AssignPipelineID`.
unfoldable pub store_pipeline_id : ℕ → Text → ℕ → M (Unit {0})
unfolding faulty change_manifest
store_pipeline_id id pipeline now =
    faulty (change_manifest id λ m. record m { pipeline_id = pipeline; updated_at = now })

-- `UpdateStatusAndSteps`.
unfoldable pub store_status_and_steps :
    ℕ → ManifestStatus → List ImageTask → Text → ℕ → M (Unit {0})
unfolding faulty change_manifest
store_status_and_steps id status steps pipeline now = faulty (
    change_manifest id
      λ m. record m { status = status; steps = steps; pipeline_id = pipeline; updated_at = now })

pub record BuildResult : Type 0 where
  pub commit_hash : Text
  pub image_ref : Text
  pub image_tag : Text
  pub image_digest : Text

-- `UpdateBuildResult`.
unfoldable pub store_build_result : ℕ → BuildResult → ManifestStatus → ℕ → M (Unit {0})
unfolding faulty change_manifest
store_build_result id built status now = faulty (
    change_manifest id λ m. record m {
      commit_hash = built.commit_hash;
      image_ref = built.image_ref;
      image_tag = built.image_tag;
      image_digest = built.image_digest;
      status = status;
      updated_at = now;
    })

-- `Delete`.
unfoldable pub delete_manifest : ℕ → ℕ → M (Unit {0})
unfolding faulty change_manifest
delete_manifest id now =
    faulty (change_manifest id λ m. record m { deleted_at = some now; updated_at = now })

abbrev insert_manifest_unless : Option Manifest → Manifest → M (Unit {0})
insert_manifest_unless (some old) m w = (err (store_failed (codes "duplicate key")), w)
insert_manifest_unless none m w = (ok tt, record w { manifests = m ∷ w.manifests })

-- `Insert`.
unfoldable pub insert_manifest : Manifest → M (Unit {0})
unfolding faulty first_manifest
insert_manifest m =
    faulty λ w. insert_manifest_unless (first_manifest (λ old. old.id == m.id) w.manifests) m w
