-- ===== src/Service/Terminal/Operations/Steps.antt =====
-- UpdateStatus, UpdateStep, UpdateArtifact and Update keep a terminal status.
-- internal/release/service/release.go and release_status_manager.go.
use devflow_service.Base.{
  Bool-cases, List, Option, ap, arith, false, inl, inr, none, some, true, ℕ, ◌||◌, ◌∙◌, ◌≡◌, ◌≢◌,
}
use devflow_service.Control.Remediation.{RemediationKind}
use devflow_service.Release.Steps.{derive_release_status_from_steps, is_release_terminal_status}
use devflow_service.Release.Steps.Keys.{normalize_release_step_key}
use devflow_service.Release.Steps.Update.{StepChange, find_release_step}
use devflow_service.Release.Types.{Release, ReleaseStatus, ReleaseStep, release_rollback}
use devflow_service.Service.Artifact.{
  ArtifactChange, is_unset, publish_step, replace_release, store_artifact, update, update_artifact,
}
use devflow_service.Service.Status.{
  change_status, load_release, normalize_release, remediation_text, rollback_result, same_status,
  sync_rollback_source, sync_source, update_status, write_remediation,
}
use devflow_service.Service.Step.{
  change_step, is_settled, store_step, update_status_from_steps, update_step,
}
use devflow_service.Service.Store.{get, get_now}
use devflow_service.Service.Terminal.Kept.{Keeps, Keeps-bind}
use devflow_service.Service.Terminal.Store.{
  Agrees, Any, StatusAt, get-Keeps, get_own-Keeps, update_row-Keeps, update_steps-Keeps,
}
use devflow_service.Service.World.{World}
use devflow_service.Text.{Text, equal_fold, is_empty, trim_space}

module _ (id : ℕ) (s : ReleaseStatus) where
  pub load_release-Keeps :
      (k : ℕ) (w : World) → StatusAt id s w → Keeps (StatusAt id s) (Agrees id s) (load_release k w)
  unfolding load_release normalize_release
  load_release-Keeps k w h =
      Keeps-bind (StatusAt id s) (Agrees id s) (Agrees id s) (get k w) _ (get-Keeps id s k w h)
        (λ r agrees w' h'. (h', agrees))

  pub write_remediation-Keeps :
      (k : ℕ) (status reason : Text) (now : ℕ) (w : World)
      → StatusAt id s w
      → Keeps (StatusAt id s) (Any id s) (write_remediation k status reason now w)
  unfolding write_remediation
  write_remediation-Keeps k status reason now w h =
      Keeps-bind (StatusAt id s) (Agrees id s) (Any id s) (load_release k w) _
        (load_release-Keeps k w h) (λ r agrees w' h'. update_row-Keeps id s _ w' agrees h')

  sync_source-Keeps :
      (o : Option ℕ) (result : Option (RemediationKind × Text)) (now : ℕ) (w : World)
      → StatusAt id s w
      → Keeps (StatusAt id s) (Any id s) (sync_source o result now w)
  sync_source-Keeps none result now w h = (h, tt)
  sync_source-Keeps (some source) none now w h = (h, tt)
  sync_source-Keeps (some source) (some (kind, reason)) now w h =
      write_remediation-Keeps source (remediation_text kind) reason now w h

  pub sync_rollback_source-Keeps :
      (r : Release) (status : ReleaseStatus) (now : ℕ) (w : World)
      → StatusAt id s w
      → Keeps (StatusAt id s) (Any id s) (sync_rollback_source r status now w)
  unfolding sync_rollback_source
  sync_rollback_source-Keeps r status now w h =
      elim (Bool-cases (equal_fold (trim_space r.action) release_rollback)) [
        | inl e ↦
            rw e (sync_source-Keeps r.rollback_source_release_id (rollback_result status) now w h)
        | inr e ↦ rw e ((h, tt))
      ]

-- From here on the status is a terminal one.
module _ (id : ℕ) (s : ReleaseStatus) (final : is_release_terminal_status s ≡ true) where
  -- A release that is not terminal is another one.
  Agrees-live :
      (r : Release) → Agrees id s r → is_release_terminal_status r.status ≡ false → r.id ≢ id
  Agrees-live r agrees live here = cc (ap is_release_terminal_status (agrees here))

  change_status-Keeps :
      (r : Release) (status : ReleaseStatus) (now : ℕ) (w : World)
      → Agrees id s r
      → StatusAt id s w
      → Keeps (StatusAt id s) (Any id s) (change_status r status now w)
  unfolding change_status
  change_status-Keeps r status now w agrees h =
      elim (Bool-cases (is_release_terminal_status r.status || same_status r.status status)) [
        | inl e ↦ rw e ((h, tt))
        | inr live ↦ rw live (
            Keeps-bind (StatusAt id s) (Any id s) (Any id s) _ _
              (update_row-Keeps id s _ w (λ here. absurd (Agrees-live r agrees (ground arith) here))
                h)
              (λ _ _ w' h'. sync_rollback_source-Keeps id s _ status now w' h'))
      ]

  pub update_status-Keeps :
      (k : ℕ) (status : ReleaseStatus) (now : ℕ) (w : World)
      → StatusAt id s w
      → Keeps (StatusAt id s) (Any id s) (update_status k status now w)
  unfolding update_status
  update_status-Keeps k status now w h =
      Keeps-bind (StatusAt id s) (Agrees id s) (Any id s) (load_release k w) _
        (load_release-Keeps id s k w h)
        (λ r agrees w' h'. change_status-Keeps r status now w' agrees h')

  update_status_from_steps-Keeps :
      (k : ℕ) (action : Text) (current : ReleaseStatus) (steps : List ReleaseStep) (now : ℕ)
      (w : World)
      → StatusAt id s w
      → Keeps (StatusAt id s) (Any id s) (update_status_from_steps k action current steps now w)
  unfolding update_status_from_steps
  update_status_from_steps-Keeps k action current steps now w h =
      elim (Bool-cases
        (same_status (derive_release_status_from_steps action current steps) current)) [
          | inl e ↦ rw e ((h, tt))
          | inr e ↦ rw e (
              update_status-Keeps k (derive_release_status_from_steps action current steps) now w h)
        ]

  store_step-Keeps :
      (r : Release) (key : Text) (o : Option ReleaseStep) (c : StepChange) (now : ℕ) (w : World)
      → StatusAt id s w
      → Keeps (StatusAt id s) (Any id s) (store_step r key o c now w)
  unfolding store_step
  store_step-Keeps r key none c now w h = h
  store_step-Keeps r key (some current) c now w h = elim (Bool-cases (is_settled current.status)) [
    | inl e ↦ rw e ((h, tt))
    | inr e ↦ rw e (
        Keeps-bind (StatusAt id s) (Any id s) (Any id s) _ _ (update_steps-Keeps id s _ w h)
          (λ _ _ w' h'. update_status_from_steps-Keeps r.id r.action r.status _ now w' h'))
  ]

  change_step-Keeps :
      (r : Release) (key : Text) (c : StepChange) (now : ℕ) (w : World)
      → StatusAt id s w
      → Keeps (StatusAt id s) (Any id s) (change_step r key c now w)
  unfolding change_step
  change_step-Keeps r key c now w h = elim (Bool-cases (is_release_terminal_status r.status)) [
    | inl e ↦ rw e ((h, tt))
    | inr e ↦ rw e (store_step-Keeps r key (find_release_step r.steps key) c now w h)
  ]

  pub update_step-Keeps :
      (k : ℕ) (step_name : Text) (c : StepChange) (now : ℕ) (w : World)
      → StatusAt id s w
      → Keeps (StatusAt id s) (Any id s) (update_step k step_name c now w)
  unfolding update_step
  update_step-Keeps k step_name c now w h =
      elim (Bool-cases (is_empty (normalize_release_step_key step_name))) [
        | inl e ↦ rw e ((h, tt))
        | inr e ↦ rw e (
            Keeps-bind (StatusAt id s) (Agrees id s) (Any id s) (load_release k w) _
              (load_release-Keeps id s k w h) (λ r agrees w' h'. change_step-Keeps r _ _ now w' h'))
      ]

  publish_step-Keeps :
      (k : ℕ) (c : StepChange) (now : ℕ) (w : World)
      → StatusAt id s w
      → Keeps (StatusAt id s) (Any id s) (publish_step k c now w)
  unfolding publish_step
  publish_step-Keeps k c now w h = elim (Bool-cases (is_unset c.status)) [
    | inl e ↦ rw e (h, tt)
    | inr e ↦ rw e (update_step-Keeps k _ _ now w h)
  ]

  store_artifact-Keeps :
      (r : Release) (k : ℕ) (a : ArtifactChange) (c : StepChange) (now : ℕ) (w : World)
      → Agrees id s r
      → StatusAt id s w
      → Keeps (StatusAt id s) (Any id s) (store_artifact r k a c now w)
  unfolding store_artifact
  store_artifact-Keeps r k a c now w agrees h =
      elim (Bool-cases (is_release_terminal_status r.status)) [
        | inl e ↦ rw e (h, tt)
        | inr e ↦ rw e (
            Keeps-bind (StatusAt id s) (Any id s) (Any id s) _ _
              (update_row-Keeps id s _ w agrees h) (λ _ _ w' h'. publish_step-Keeps k c now w' h'))
      ]

  pub update_artifact-Keeps :
      (k : ℕ) (a : ArtifactChange) (c : StepChange) (now : ℕ) (w : World)
      → StatusAt id s w
      → Keeps (StatusAt id s) (Any id s) (update_artifact k a c now w)
  unfolding update_artifact
  update_artifact-Keeps k a c now w h =
      Keeps-bind (StatusAt id s) (Agrees id s) (Any id s) (load_release k w) _
        (load_release-Keeps id s k w h)
        (λ r agrees w' h'. store_artifact-Keeps r k a c now w' agrees h')

  -- `Update` loads the row of the release that it writes.
  loaded_id :
      (r : Release) (w : World)
      → StatusAt id s w
      → Keeps
          (StatusAt id s)
          (λ (current : Release). Agrees id s current × (current.id ≡ r.id))
          (load_release r.id w)
  unfolding load_release normalize_release get get_now
  loaded_id r w h =
      Keeps-bind (StatusAt id s) (λ (row : Release). Agrees id s row × (row.id ≡ r.id)) _
        (get r.id w) _ (get_own-Keeps id s r.id w h) (λ row facts w' h'. (h', facts))

  replace_release-Keeps :
      (current r : Release) (now : ℕ) (w : World)
      → Agrees id s current
      → current.id ≡ r.id
      → StatusAt id s w
      → Keeps (StatusAt id s) (Any id s) (replace_release current r now w)
  unfolding replace_release
  replace_release-Keeps current r now w agrees same h =
      elim (Bool-cases (is_release_terminal_status current.status)) [
        | inl e ↦ rw e ((h, tt))
        | inr live ↦ rw live (
            update_row-Keeps id s _ w
              (λ here. absurd (Agrees-live current agrees live (same ∙ here))) h)
      ]

  pub update-Keeps :
      (r : Release) (now : ℕ) (w : World)
      → StatusAt id s w
      → Keeps (StatusAt id s) (Any id s) (update r now w)
  unfolding update
  update-Keeps r now w h =
      Keeps-bind (StatusAt id s) (λ (current : Release). Agrees id s current × (current.id ≡ r.id))
        (Any id s) (load_release r.id w) _ (loaded_id r w h)
        (λ current facts w' h'. replace_release-Keeps current r now w' facts.0 facts.1 h')
