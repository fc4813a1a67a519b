-- ===== src/Manifest/Results.antt =====
-- What one reconciliation of a snapshot leaves of the row of its manifest, and a second one.
use devflow_service.Base.{
  All-mono, Bool, Bool-cases, List, [], false, inl, inr, some, true, ℕ, ◌||◌, ◌∷◌, ◌≡◌,
}
use devflow_service.Intent.Claim.{older}
use devflow_service.Manifest.Handlers.{handle_tekton-Kept}
use devflow_service.Manifest.Kept.{EndedWith, SameState, SameWork}
use devflow_service.Manifest.Lost.{status_update-Ends}
use devflow_service.Manifest.Reconciler.{
  Processed, is_processed, later_writes, mark_posted, post_all, post_next, post_request,
  post_snapshot, posted, reconcile_manifest, reconcile_pipeline, status_write,
}
use devflow_service.Manifest.Rows.{Meets, Post, Rows}
use devflow_service.Manifest.Snapshot.{PipelineSnapshot, TaskSnapshot, manifest_state_key}
use devflow_service.Manifest.Tekton.{
  StatusRequest, TektonRequest, handle_tekton, is_bound, is_missing_row, manifest_status_of,
  status_request, tekton_answer, tekton_update,
}
use devflow_service.Manifest.Types.{Manifest}
use devflow_service.Manifest.Updates.{is_ended}
use devflow_service.Service.World.{Result, World, err, ok}
use devflow_service.Text.{Text, is_empty, trim_space}
use devflow_service.Transport.Writeback.{
  Response, bad_request, internal_error, no_content, not_found, unauthorized,
}

module _ (id : ℕ) (P : Manifest → Type 0)
    (ended : (m : Manifest) → P m → is_ended m.status ≡ true) where
  posted-state : (r : Response × World) → Rows id P r.1.manifests → Rows id P (posted r).1.manifests
  posted-state (no_content, w) h = h
  posted-state (bad_request, w) h = h
  posted-state (unauthorized, w) h = h
  posted-state (not_found, w) h = h
  posted-state (internal_error e, w) h = h

  post_next-state :
      (r : Bool × World) (next : World → Bool × World)
      → Rows id P r.1.manifests
      → ((v : World) → Rows id P v.manifests → Rows id P (next v).1.manifests)
      → Rows id P (post_next r next).1.manifests
  post_next-state (true, w) next h keeps = keeps w h
  post_next-state (false, w) next h keeps = h

  pub post_all-Kept :
      (k : ℕ) (later : List TektonRequest) (now : ℕ) (w : World)
      → Rows id P w.manifests
      → Rows id P (post_all k later now w).1.manifests
  unfolding post_all
  post_all-Kept k [] now w h = h
  post_all-Kept k (r ∷ later) now w h =
      post_next-state (post_request k r now w) (post_all k later now)
        (posted-state (handle_tekton (some k) r now w)
          (handle_tekton-Kept id P ended (some k) r now w h))
        (λ v. post_all-Kept k later now v)

module _ (id : ℕ) (row : Manifest) where
  -- The table after a post that was answered, and after one that failed.
  abbrev AfterPost : Bool × World → Type 0
  AfterPost (true, w) = Rows id (EndedWith row) w.manifests
  AfterPost (false, w) = Rows id (SameState row) w.manifests

  answer-AfterPost :
      (r : Result (Unit {0}) × World)
      → Post (λ _. Rows id (EndedWith row)) (Rows id (SameState row)) r
      → AfterPost (posted (tekton_answer r))
  answer-AfterPost (ok x, w) h = h
  answer-AfterPost (err e, w) h = elim (Bool-cases (is_missing_row e)) [
    | inl missing ↦ rw missing h
    | inr failing ↦ rw failing h
  ]

  request-AfterPost :
      (r : StatusRequest) (now : ℕ) (w : World)
      → is_ended (manifest_status_of r.status) ≡ true
      → Rows id (SameState row) w.manifests
      → AfterPost (post_request id (status_request r) now w)
  unfolding handle_tekton
  request-AfterPost r now w ends h = elim (Bool-cases (is_bound (status_request r))) [
    | inl bound ↦ rw bound (
        answer-AfterPost (tekton_update id (status_request r) now w)
          (status_update-Ends id row r now w ends h))
    | inr refused ↦ rw refused h
  ]

  ended_work : (ms : List Manifest) → Rows id (EndedWith row) ms → Rows id (SameWork row) ms
  ended_work ms h =
      All-mono (Meets id (EndedWith row)) (Meets id (SameWork row)) (λ m meets on. (meets on).1) ms
        h

  pub same_work : (ms : List Manifest) → Rows id (SameState row) ms → Rows id (SameWork row) ms
  same_work ms h =
      All-mono (Meets id (SameState row)) (Meets id (SameWork row)) (λ m meets on. (meets on).1) ms
        h

  next-SameWork :
      (r : Bool × World) (later : List TektonRequest) (now : ℕ)
      → AfterPost r
      → Rows id (SameWork row) (post_next r (post_all id later now)).1.manifests
  next-SameWork (true, w) later now h =
      ended_work (post_all id later now w).1.manifests
        (post_all-Kept id (EndedWith row) (λ m p. p.0) id later now w h)
  next-SameWork (false, w) later now h = same_work w.manifests h

  pub post_snapshot-SameWork :
      (pipeline : Text) (p : PipelineSnapshot) (tasks : List TaskSnapshot) (now : ℕ) (w : World)
      → is_ended (manifest_status_of (trim_space p.status)) ≡ true
      → Rows id (SameState row) w.manifests
      → Rows id (SameWork row) (post_snapshot id pipeline p tasks now w).1.manifests
  unfolding post_snapshot
  post_snapshot-SameWork pipeline p tasks now w ends h =
      next-SameWork (post_request id (status_write pipeline p) now w) (later_writes pipeline tasks)
        now
        (request-AfterPost (record { pipeline = pipeline; status = trim_space p.status }) now w ends
          h)

  mark_posted-state :
      (key : Text) (last : List (ℕ × Text)) (r : Bool × World)
      → Rows id (SameWork row) r.1.manifests
      → Rows id (SameWork row) (mark_posted id key last r).1.world.manifests
  mark_posted-state key last (true, w) h = h
  mark_posted-state key last (false, w) h = h

-- Where the reported status of a pipeline run ends the build, reconciling its snapshot leaves the
-- steps and the build result of the manifest's row as they were, whatever the snapshot says of the
-- task runs and of their results, and whichever statements fail.
pub reconcile_manifest-loses_result :
    (id : ℕ) (row : Manifest) (p : PipelineSnapshot) (older : List PipelineSnapshot)
    (tasks : List TaskSnapshot) (now : ℕ) (st : Processed)
    → is_ended (manifest_status_of (trim_space p.status)) ≡ true
    → Rows id (SameState row) st.world.manifests
    → Rows id
        (SameWork row)
        (reconcile_manifest id
          (some (record { pipelines = p ∷ older; tasks = tasks }))
          now
          st).1.world.manifests
unfolding reconcile_manifest reconcile_pipeline
reconcile_manifest-loses_result id row p older tasks now st ends h =
    elim (Bool-cases
      (is_empty (trim_space p.name) || is_processed id (manifest_state_key p tasks) st.last)) [
        | inl skipped ↦ rw skipped (same_work id row st.world.manifests h)
        | inr posts ↦ rw posts (
            mark_posted-state id row (manifest_state_key p tasks) st.last
              (post_snapshot id (trim_space p.name) p tasks now st.world)
              (post_snapshot-SameWork id row (trim_space p.name) p tasks now st.world ends h))
      ]
