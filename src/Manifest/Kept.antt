-- ===== src/Manifest/Kept.antt =====
-- What the updates leave of the row of a manifest whose build has ended.
use devflow_service.Base.{
  Bool, Bool-cases, Option, false, if◌then◌else◌, inl, inr, none, refl, some, subst, true, ℕ, ◌==◌,
  ◌≡◌,
}
use devflow_service.Manifest.Rows.{
  Found, Post, Post-bind, Rows, change-Post, change-Turns, has_manifest_id-id, has_manifest_id-live,
  has_manifest_id-own, has_pipeline_id-live, read-Post,
}
use devflow_service.Manifest.Store.{
  BuildResult, change_manifest, get_by_pipeline_id, get_manifest, has_manifest_id, has_pipeline_id,
  is_live_manifest, read_manifest, store_build_result, store_pipeline_id, store_status_and_steps,
}
use devflow_service.Manifest.Types.{Manifest}
use devflow_service.Manifest.Updates.{
  TaskChange, TaskReport, assign_pipeline_id, bind_task_run, bind_tasks, change_tasks, holds_result,
  is_ended, move_manifest, normalize_manifest_status, same_manifest_status, store_change,
  trimmed_result, unless_ended, update_build_result, update_manifest_status,
  update_manifest_status_by_id, update_step_status,
}
use devflow_service.Release.Types.{ManifestStatus}
use devflow_service.Service.World.{M, Result, World, done, faulty, ◌>>=◌}
use devflow_service.Text.{Text, trim_space}

module _ (row : Manifest) where
  -- The steps and the build result of the row.
  abbrev pub SameWork : Manifest → Type 0
  SameWork m =
      (m.steps ≡ row.steps)
      × (m.commit_hash ≡ row.commit_hash)
      × (m.image_ref ≡ row.image_ref)
      × (m.image_tag ≡ row.image_tag)
      × (m.image_digest ≡ row.image_digest)

  -- Its status too.
  abbrev pub SameState : Manifest → Type 0
  SameState m = (m.status ≡ row.status) × SameWork m

  -- A build that has ended, with that work, and with that state.
  abbrev pub EndedWith : Manifest → Type 0
  EndedWith m = (is_ended m.status ≡ true) × SameWork m

  abbrev pub EndedAs : Manifest → Type 0
  EndedAs m = (is_ended m.status ≡ true) × SameState m

-- A property that only an ended build has.
module _ (id : ℕ) (P : Manifest → Type 0)
    (ended : (m : Manifest) → P m → is_ended m.status ≡ true) where
  abbrev Kept : Result (Unit {0}) × World → Type 0
  Kept r = Post (λ _. Rows id P) (Rows id P) r

  -- A change of the row of another manifest.
  change-Kept :
      (k : ℕ) (change : Manifest → Manifest) (w : World)
      → (¬ (k ≡ id))
      → ((m : Manifest) → (change m).id ≡ m.id)
      → Rows id P w.manifests
      → Kept (faulty (change_manifest k change) w)
  change-Kept k change w apart keeps h =
      change-Post id P P k change w (change-Turns id P k change apart keeps) h

  -- A row that was found, under `unless_ended`.
  unless_ended-Kept :
      (test : Manifest → Bool) (m : Manifest) (change : M (Unit {0})) (w : World)
      → (test m ≡ true → is_live_manifest m ≡ true)
      → ((¬ (m.id ≡ id)) → Kept (change w))
      → Found id P test m w.manifests
      → Kept (unless_ended m change w)
  unless_ended-Kept test m change w live keeps h = elim (Bool-cases (is_ended m.status)) [
    | inl stopped ↦ rw stopped h.1.1
    | inr going ↦ rw going (
        keeps λ e.
          let own = has_manifest_id-own m (live h.0) in
          let stopped = ended m (h.1.0 (subst (λ (k : ℕ). has_manifest_id k m ≡ true) e own)) in cc)
  ]

  by_id-Kept :
      (k : ℕ) (change : Manifest → M (Unit {0})) (w : World)
      → ((m : Manifest) (v : World)
          → (¬ (m.id ≡ id))
          → m.id ≡ k
          → Rows id P v.manifests
          → Kept (change m v))
      → Rows id P w.manifests
      → Kept ((get_manifest k >>= λ m. unless_ended m (change m)) w)
  unfolding get_manifest
  by_id-Kept k change w keeps h =
      Post-bind (Found id P (has_manifest_id k)) (λ _. Rows id P) (Rows id P)
        (faulty (read_manifest (has_manifest_id k)) w) (λ m. unless_ended m (change m))
        (read-Post id P (has_manifest_id k) w h)
        (λ m v found.
          unless_ended-Kept (has_manifest_id k) m (change m) v (λ hit. has_manifest_id-live k m hit)
            (λ apart. keeps m v apart (has_manifest_id-id k m found.0) found.1.1) found)

  by_pipeline-Kept :
      (pipeline : Text) (change : Manifest → M (Unit {0})) (w : World)
      → ((m : Manifest) (v : World) → (¬ (m.id ≡ id)) → Rows id P v.manifests → Kept (change m v))
      → Rows id P w.manifests
      → Kept ((get_by_pipeline_id pipeline >>= λ m. unless_ended m (change m)) w)
  unfolding get_by_pipeline_id
  by_pipeline-Kept pipeline change w keeps h =
      Post-bind (Found id P (has_pipeline_id pipeline)) (λ _. Rows id P) (Rows id P)
        (faulty (read_manifest (has_pipeline_id pipeline)) w) (λ m. unless_ended m (change m))
        (read-Post id P (has_pipeline_id pipeline) w h)
        (λ m v found.
          unless_ended-Kept (has_pipeline_id pipeline) m (change m) v
            (λ hit. has_pipeline_id-live pipeline m hit) (λ apart. keeps m v apart found.1.1) found)

  Kept-if :
      (b : Bool) (m n : M (Unit {0})) (w : World)
      → Kept (m w)
      → Kept (n w)
      → Kept ((if b then m else n) w)
  Kept-if true m n w h k = h
  Kept-if false m n w h k = k

  pub assign_pipeline_id-Kept :
      (k : ℕ) (pipeline : Text) (now : ℕ) (w : World)
      → Rows id P w.manifests
      → Kept (assign_pipeline_id k pipeline now w)
  unfolding assign_pipeline_id store_pipeline_id
  assign_pipeline_id-Kept k pipeline now w h = Kept-if (k == 0) _ _ w h (
      by_id-Kept k (λ m. store_pipeline_id k (trim_space pipeline) now) w
        (λ m v apart e. change-Kept k _ v (λ at. apart cc) (λ r. refl)) h)

  move_manifest-Kept :
      (m : Manifest) (requested : ManifestStatus) (now : ℕ) (w : World)
      → (¬ (m.id ≡ id))
      → Rows id P w.manifests
      → Kept (move_manifest m requested now w)
  unfolding move_manifest store_status_and_steps
  move_manifest-Kept m requested now w apart h =
      Kept-if (same_manifest_status m.status (normalize_manifest_status requested m.status)) done _
        w h (change-Kept m.id _ w apart (λ r. refl) h)

  pub update_manifest_status_by_id-Kept :
      (k : ℕ) (requested : ManifestStatus) (now : ℕ) (w : World)
      → Rows id P w.manifests
      → Kept (update_manifest_status_by_id k requested now w)
  unfolding update_manifest_status_by_id
  update_manifest_status_by_id-Kept k requested now w h = Kept-if (k == 0) _ _ w h (
      by_id-Kept k (λ m. move_manifest m requested now) w
        (λ m v apart e. move_manifest-Kept m requested now v apart) h)

  pub update_manifest_status-Kept :
      (pipeline : Text) (requested : ManifestStatus) (now : ℕ) (w : World)
      → Rows id P w.manifests
      → Kept (update_manifest_status pipeline requested now w)
  unfolding update_manifest_status
  update_manifest_status-Kept pipeline requested now w h =
      by_pipeline-Kept pipeline (λ m. move_manifest m requested now) w
        (λ m v apart. move_manifest-Kept m requested now v apart) h

  store_change-Kept :
      (m : Manifest) (o : Option TaskChange) (now : ℕ) (w : World)
      → (¬ (m.id ≡ id))
      → Rows id P w.manifests
      → Kept (store_change m o now w)
  unfolding store_status_and_steps
  store_change-Kept m none now w apart h = h
  store_change-Kept m (some change) now w apart h =
      Kept-if change.changed _ done w (change-Kept m.id _ w apart (λ r. refl) h) h

  pub update_step_status-Kept :
      (pipeline : Text) (r : TaskReport) (now : ℕ) (w : World)
      → Rows id P w.manifests
      → Kept (update_step_status pipeline r now w)
  unfolding update_step_status
  update_step_status-Kept pipeline r now w h =
      by_pipeline-Kept pipeline (λ m. store_change m (change_tasks r m.steps) now) w
        (λ m v. store_change-Kept m (change_tasks r m.steps) now v) h

  pub bind_task_run-Kept :
      (pipeline name pod : Text) (now : ℕ) (w : World)
      → Rows id P w.manifests
      → Kept (bind_task_run pipeline name pod now w)
  unfolding bind_task_run
  bind_task_run-Kept pipeline name pod now w h =
      by_pipeline-Kept pipeline (λ m. store_change m (bind_tasks name pod m.steps) now) w
        (λ m v. store_change-Kept m (bind_tasks name pod m.steps) now v) h

  pub update_build_result-Kept :
      (pipeline : Text) (r : BuildResult) (now : ℕ) (w : World)
      → Rows id P w.manifests
      → Kept (update_build_result pipeline r now w)
  unfolding update_build_result store_build_result
  update_build_result-Kept pipeline r now w h =
      by_pipeline-Kept pipeline
        (λ m.
          if holds_result m (trimmed_result r)
          then done
          else store_build_result m.id (trimmed_result r) m.status now)
        w
        (λ m v apart k.
          Kept-if (holds_result m (trimmed_result r)) done _ v k
            (change-Kept m.id _ v apart (λ row. refl) k))
        h
