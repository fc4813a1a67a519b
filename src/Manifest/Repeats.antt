-- ===== src/Manifest/Repeats.antt =====
-- The reconciler and a snapshot that it has already posted.
use devflow_service.Base.{
  Bool, Bool-cases, List, erase, false, find, find-put_same, inl, inr, refl, same_refl, true, ℕ,
  ℕ-Key, ◌||◌, ◌≡◌,
}
use devflow_service.Manifest.Reconciler.{
  Processed, is_processed, mark_posted, mark_processed, post_snapshot, reconcile_pipeline,
}
use devflow_service.Manifest.Snapshot.{PipelineSnapshot, TaskSnapshot, manifest_state_key}
use devflow_service.Service.World.{World}
use devflow_service.Text.{Text, is_empty, trim_space}
use devflow_service.Text.Laws.{Text-Key, text_eq_refl}

marked_is_processed :
    (id : ℕ) (key : Text) (last : List (ℕ × Text))
    → is_empty (trim_space key) ≡ false
    → is_processed id key (mark_processed id key last) ≡ true
unfolding is_processed mark_processed find erase
marked_is_processed id key last h =
    rw (h, find-put_same id id (trim_space key) last (same_refl id)) (text_eq_refl (trim_space key))

abbrev skips : ℕ → PipelineSnapshot → List TaskSnapshot → Processed → Bool
skips id p tasks st =
    is_empty (trim_space p.name) || is_processed id (manifest_state_key p tasks) st.last

skipped_pipeline :
    (id : ℕ) (p : PipelineSnapshot) (tasks : List TaskSnapshot) (now : ℕ) (st : Processed)
    → skips id p tasks st ≡ true
    → reconcile_pipeline id p tasks now st ≡ (true, st)
unfolding reconcile_pipeline
skipped_pipeline id p tasks now st h = rw h refl

posted_pipeline :
    (id : ℕ) (p : PipelineSnapshot) (tasks : List TaskSnapshot) (now : ℕ) (st : Processed)
    → skips id p tasks st ≡ false
    → reconcile_pipeline id p tasks now st
      ≡ mark_posted id
          (manifest_state_key p tasks)
          st.last
          (post_snapshot id (trim_space p.name) p tasks now st.world)
unfolding reconcile_pipeline
posted_pipeline id p tasks now st h = rw h refl

processed_pipeline :
    (id : ℕ) (p : PipelineSnapshot) (tasks : List TaskSnapshot) (now : ℕ) (st : Processed)
    → is_processed id (manifest_state_key p tasks) st.last ≡ true
    → reconcile_pipeline id p tasks now st ≡ (true, st)
processed_pipeline id p tasks now st h = elim (Bool-cases (is_empty (trim_space p.name))) [
  | inl blank ↦ skipped_pipeline id p tasks now st (rw blank refl)
  | inr named ↦ skipped_pipeline id p tasks now st (rw (named, h) refl)
]

marked_again :
    (id : ℕ) (key : Text) (last : List (ℕ × Text)) (r : Bool × World)
    → is_empty (trim_space key) ≡ false
    → (mark_posted id key last r).0 ≡ true
    → is_processed id key (mark_posted id key last r).1.last ≡ true
marked_again id key last (true, w) keyed h = marked_is_processed id key last keyed
marked_again id key last (false, w) keyed h = cc

-- After a reconciliation without an error, reconciling the same snapshot again posts nothing and
-- changes nothing, where the snapshot's key is not blank.
pub reconcile_pipeline_again :
    (id : ℕ) (p : PipelineSnapshot) (tasks : List TaskSnapshot) (now next_now : ℕ) (st : Processed)
    → is_empty (trim_space (manifest_state_key p tasks)) ≡ false
    → (reconcile_pipeline id p tasks now st).0 ≡ true
    → reconcile_pipeline id p tasks next_now (reconcile_pipeline id p tasks now st).1
      ≡ (true, (reconcile_pipeline id p tasks now st).1)
reconcile_pipeline_again id p tasks now next_now st keyed h =
    elim (Bool-cases (skips id p tasks st)) [
      | inl skipped ↦
          rw (skipped_pipeline id p tasks now st skipped)
            (skipped_pipeline id p tasks next_now st skipped)
      | inr posts ↦
          processed_pipeline id p tasks next_now (reconcile_pipeline id p tasks now st).1 (
            rw (posted_pipeline id p tasks now st posts) (
              marked_again id (manifest_state_key p tasks) st.last
                (post_snapshot id (trim_space p.name) p tasks now st.world) keyed
                (rw (posted_pipeline id p tasks now st posts) at h)))
    ]
