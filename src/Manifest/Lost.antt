-- ===== src/Manifest/Lost.antt =====
-- The reports that the reconciler sends after the one that ends a build.
use devflow_service.Base.{All-mono, Bool-cases, List, false, inl, inr, refl, true, ℕ, ◌==◌, ◌≡◌}
use devflow_service.Manifest.Kept.{EndedWith, SameState}
use devflow_service.Manifest.Rows.{
  Found, Meets, Post, Post-bind, Rows, Turns, change-Post, has_manifest_id-id, read-Post,
}
use devflow_service.Manifest.Store.{
  get_manifest, has_manifest_id, read_manifest, store_pipeline_id, store_status_and_steps,
}
use devflow_service.Manifest.Tekton.{
  StatusRequest, manifest_status_of, status_request, tekton_update, unless_blank,
}
use devflow_service.Manifest.Types.{Manifest}
use devflow_service.Manifest.Updates.{
  assign_pipeline_id, is_ended, move_manifest, normalize_manifest_status, same_manifest_status,
  same_manifest_status_equal, unless_ended, update_manifest_status_by_id,
}
use devflow_service.Release.Types.{ManifestStatus}
use devflow_service.Service.World.{Result, World, faulty}
use devflow_service.Text.{Text, is_empty, trim_space}

ended_next :
    (requested current : ManifestStatus)
    → is_ended requested ≡ true
    → normalize_manifest_status requested current ≡ requested
unfolding normalize_manifest_status
ended_next ManifestStatus.pending current h = cc
ended_next ManifestStatus.running current h = cc
ended_next ManifestStatus.available current h = refl
ended_next ManifestStatus.unavailable current h = refl
ended_next (ManifestStatus.other s) current h = cc

module _ (id : ℕ) (row : Manifest) where
  -- The table after a report that ends the build, and after an error.
  abbrev Ends : Result (Unit {0}) × World → Type 0
  Ends r = Post (λ _. Rows id (EndedWith row)) (Rows id (SameState row)) r

  assigned-Turns :
      (k : ℕ) (pipeline : Text) (now : ℕ)
      → Turns id
          (SameState row)
          (SameState row)
          k
          λ m. record m { pipeline_id = pipeline; updated_at = now }
  assigned-Turns k pipeline now m meets on = elim (Bool-cases (has_manifest_id k m)) [
    | inl hit ↦ rw hit (meets (rw hit at on))
    | inr miss ↦ rw miss (meets (rw miss at on))
  ]

  ended-Turns :
      (m : Manifest) (requested : ManifestStatus) (now : ℕ)
      → is_ended requested ≡ true
      → m.id ≡ id
      → SameState row m
      → Turns id (SameState row) (EndedWith row) m.id λ r. record r {
        status = requested;
        steps = m.steps;
        pipeline_id = m.pipeline_id;
        updated_at = now;
      }
  ended-Turns m requested now ends here same r meets on =
      elim (Bool-cases (has_manifest_id m.id r)) [
        | inl hit ↦
            let q = (meets (rw hit at on)).1 in rw hit (ends, (same.1.0, q.1, q.2, q.3, q.4))
        | inr miss ↦ let other_row = rw here at miss in let own = rw miss at on in absurd cc
      ]

  move_manifest-Ends :
      (m : Manifest) (requested : ManifestStatus) (now : ℕ) (w : World)
      → is_ended requested ≡ true
      → is_ended m.status ≡ false
      → m.id ≡ id
      → SameState row m
      → Rows id (SameState row) w.manifests
      → Ends (move_manifest m requested now w)
  unfolding move_manifest store_status_and_steps
  move_manifest-Ends m requested now w ends going here same h =
      rw (ended_next requested m.status ends)
        (elim (Bool-cases (same_manifest_status m.status requested)) [
          | inl equal ↦ let e = same_manifest_status_equal m.status requested equal in absurd cc
          | inr moved ↦ rw moved (
              change-Post id (SameState row) (EndedWith row) m.id _ w
                (ended-Turns m requested now ends here same) h)
        ])

  already_ended :
      (ms : List Manifest)
      → is_ended row.status ≡ true
      → Rows id (SameState row) ms
      → Rows id (EndedWith row) ms
  already_ended ms e h =
      All-mono (Meets id (SameState row)) (Meets id (EndedWith row))
        (λ m meets on. (rw (meets on).0 e, (meets on).1)) ms h

  ended_row-Ends :
      (m : Manifest) (requested : ManifestStatus) (now : ℕ) (w : World)
      → is_ended requested ≡ true
      → Found id (SameState row) (has_manifest_id id) m w.manifests
      → Ends (unless_ended m (move_manifest m requested now) w)
  ended_row-Ends m requested now w ends found = elim (Bool-cases (is_ended m.status)) [
    | inl stopped ↦
        let e = (found.1.0 found.0).0 in rw stopped (already_ended w.manifests (cc) found.1.1)
    | inr going ↦ rw going (
        move_manifest-Ends m requested now w ends going (has_manifest_id-id id m found.0)
          (found.1.0 found.0) found.1.1)
  ]

  update_by_id-Ends :
      (requested : ManifestStatus) (now : ℕ) (w : World)
      → is_ended requested ≡ true
      → Rows id (SameState row) w.manifests
      → Ends (update_manifest_status_by_id id requested now w)
  unfolding update_manifest_status_by_id get_manifest
  update_by_id-Ends requested now w ends h = elim (Bool-cases (id == 0)) [
    | inl nil ↦ rw nil h
    | inr named ↦ rw named (
        Post-bind (Found id (SameState row) (has_manifest_id id)) (λ _. Rows id (EndedWith row))
          (Rows id (SameState row)) (faulty (read_manifest (has_manifest_id id)) w)
          (λ m. unless_ended m (move_manifest m requested now))
          (read-Post id (SameState row) (has_manifest_id id) w h)
          (λ m v. ended_row-Ends m requested now v ends))
  ]

  abbrev Same : Result (Unit {0}) × World → Type 0
  Same r = Post (λ _. Rows id (SameState row)) (Rows id (SameState row)) r

  assign_row-Same :
      (m : Manifest) (pipeline : Text) (now : ℕ) (w : World)
      → Rows id (SameState row) w.manifests
      → Same (unless_ended m (store_pipeline_id id pipeline now) w)
  unfolding store_pipeline_id
  assign_row-Same m pipeline now w h = elim (Bool-cases (is_ended m.status)) [
    | inl stopped ↦ rw stopped h
    | inr going ↦
        rw going
          (change-Post id (SameState row) (SameState row) id _ w (assigned-Turns id pipeline now) h)
  ]

  assign_pipeline_id-Same :
      (pipeline : Text) (now : ℕ) (w : World)
      → Rows id (SameState row) w.manifests
      → Same (assign_pipeline_id id pipeline now w)
  unfolding assign_pipeline_id get_manifest
  assign_pipeline_id-Same pipeline now w h = elim (Bool-cases (id == 0)) [
    | inl nil ↦ rw nil h
    | inr named ↦ rw named (
        Post-bind (Found id (SameState row) (has_manifest_id id)) (λ _. Rows id (SameState row))
          (Rows id (SameState row)) (faulty (read_manifest (has_manifest_id id)) w)
          (λ m. unless_ended m (store_pipeline_id id (trim_space pipeline) now))
          (read-Post id (SameState row) (has_manifest_id id) w h)
          (λ m v found. assign_row-Same m (trim_space pipeline) now v found.1.1))
  ]

  unless_blank-Same :
      (pipeline : Text) (now : ℕ) (w : World)
      → Rows id (SameState row) w.manifests
      → Same (unless_blank pipeline (assign_pipeline_id id pipeline now) w)
  unless_blank-Same pipeline now w h = elim (Bool-cases (is_empty pipeline)) [
    | inl blank ↦ rw blank h
    | inr named ↦ rw named (assign_pipeline_id-Same pipeline now w h)
  ]

  pub status_update-Ends :
      (r : StatusRequest) (now : ℕ) (w : World)
      → is_ended (manifest_status_of r.status) ≡ true
      → Rows id (SameState row) w.manifests
      → Ends (tekton_update id (status_request r) now w)
  unfolding tekton_update
  status_update-Ends r now w ends h =
      Post-bind (λ _. Rows id (SameState row)) (λ _. Rows id (EndedWith row))
        (Rows id (SameState row)) (unless_blank r.pipeline (assign_pipeline_id id r.pipeline now) w)
        (λ x. update_manifest_status_by_id id (manifest_status_of r.status) now)
        (unless_blank-Same r.pipeline now w h)
        (λ x v. update_by_id-Ends (manifest_status_of r.status) now v ends)
