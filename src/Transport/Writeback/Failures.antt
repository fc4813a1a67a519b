-- ===== src/Transport/Writeback/Failures.antt =====
-- What a failure that HandleArgoEvent of internal/release/transport/http/release_writeback.go is told
-- of does to the release.
use devflow_service.Base.{
  Bool, Bool-cases, List, [], arith, clamp_percent, false, inl, inr, refl, some, subst, true, ℕ,
  ◌∙◌, ◌∷◌, ◌≡◌, ◌≢◌,
}
use devflow_service.Release.Steps.{derive_release_status_from_steps, is_release_terminal_status}
use devflow_service.Release.Steps.Derive.{derive-Summary, is_failed, some_step}
use devflow_service.Release.Steps.Keys.{normalize_release_step_key}
use devflow_service.Release.Steps.Update.{
  StepChange, apply_release_step_update, find_release_step, find_step, step_matches, update_first,
  write_step,
}
use devflow_service.Release.Types.{Release, ReleaseStatus, ReleaseStep, StepStatus}
use devflow_service.Service.Status.{load_release, normalize_release, update_status}
use devflow_service.Service.Step.{is_settled, update_step}
use devflow_service.Service.Step.Derived.{update_step_derives}
use devflow_service.Service.Store.{live_row}
use devflow_service.Service.Terminal.Kept.{Keeps, Keeps-bind, Keeps-state}
use devflow_service.Service.Terminal.Operations.Steps.{
  load_release-Keeps, update_status-Keeps, update_step-Keeps,
}
use devflow_service.Service.Terminal.Store.{Agrees, StatusAt}
use devflow_service.Service.World.{Result, World, and_then, err, ok}
use devflow_service.Text.{Text, codes, is_empty, to_lower, trim_space}
use devflow_service.Transport.Writeback.{
  ReleaseStepUpdate, answer, apply_updates, derive_argo_step_updates, handle_argo_event,
  map_argo_status_to_release_status, read_for_metric, step_update, write_argo_status,
}

update_first-fails :
    (key : Text) (c : StepChange) (steps : List ReleaseStep) (current : ReleaseStep)
    → c.status ≡ StepStatus.failed
    → find_step key steps ≡ some current
    → some_step is_failed (update_first key c steps) ≡ true
unfolding find_step update_first write_step
update_first-fails key c [] current bad found = cc
update_first-fails key c (step ∷ steps) current bad found =
    elim (Bool-cases (step_matches key step)) [
      | inl e ↦ rw (e, bad) refl
      | inr e ↦
          let ih = update_first-fails key c steps current bad (rw e at found) in rw e (ground arith)
    ]

some_step-nonempty :
    (test : StepStatus → Bool) (steps : List ReleaseStep) → some_step test steps ≡ true → steps ≢ []
some_step-nonempty test [] h e = cc
some_step-nonempty test (step ∷ steps) h e = cc

-- A release with a failed step derives the failure.
derived-failed :
    (release_action : Text) (current : ReleaseStatus) (steps : List ReleaseStep)
    → is_release_terminal_status current ≡ false
    → some_step is_failed steps ≡ true
    → derive_release_status_from_steps release_action current steps ≡ ReleaseStatus.failed
derived-failed release_action current steps live bad =
    derive-Summary release_action current steps live (some_step-nonempty is_failed steps bad)
    ∙ rw bad refl

module _ (id : ℕ) where
  abbrev Failed : World → Type 0
  Failed w = StatusAt id ReleaseStatus.failed w

  kept : (m : Result (Unit {0}) × World) → Failed m.1 → Keeps Failed (λ x. Unit {0}) m
  kept (ok x, w) h = (h, tt)
  kept (err e, w) h = h

  updates-Failed :
      (updates : List ReleaseStepUpdate) (now : ℕ) (w : World)
      → Failed w
      → Keeps Failed (λ x. Unit {0}) (apply_updates id updates now w)
  unfolding apply_updates is_release_terminal_status
  updates-Failed [] now w h = (h, tt)
  updates-Failed (u ∷ updates) now w h =
      Keeps-bind Failed (λ x. Unit {0}) (λ x. Unit {0}) (update_step id u.step_code u.change now w)
        _ (update_step-Keeps id ReleaseStatus.failed refl id u.step_code u.change now w h)
        (λ x y w' h'. updates-Failed updates now w' h')

  answered-Failed :
      (m : Result (Unit {0}) × World)
      → Keeps Failed (λ x. Unit {0}) m
      → Failed (answer (read_for_metric id m)).1
  answered-Failed (ok x, w) h =
      Keeps-state Failed (Agrees id ReleaseStatus.failed) (load_release id w)
        (load_release-Keeps id ReleaseStatus.failed id w h.0)
  answered-Failed (err e, w) h = h

-- The rest of the event after the first step update.
event-Failed :
    (id : ℕ) (u : ReleaseStepUpdate) (updates : List ReleaseStepUpdate) (status : ReleaseStatus)
    (now : ℕ) (w : World)
    → Failed id (update_step id u.step_code u.change now w).1
    → Failed id
        (answer (
          read_for_metric id
            (and_then (apply_updates id (u ∷ updates) now w) (λ x. update_status id status now)))).1
unfolding apply_updates is_release_terminal_status
event-Failed id u updates status now w h = answered-Failed id _ (
    Keeps-bind (Failed id) (λ x. Unit {0}) (λ x. Unit {0}) (apply_updates id (u ∷ updates) now w)
      (λ x. update_status id status now)
      (Keeps-bind (Failed id) (λ x. Unit {0}) (λ x. Unit {0})
        (update_step id u.step_code u.change now w) (λ x. apply_updates id updates now)
        (kept id _ h) (λ x y w' h'. updates-Failed id updates now w' h'))
      (λ x y w' h'. update_status-Keeps id ReleaseStatus.failed refl id status now w' h'))

failed_step-Failed :
    (step_name : Text) (c : StepChange) (now : ℕ) (w : World) (r : Release) (current : ReleaseStep)
    → c.status ≡ StepStatus.failed
    → w.faults ≡ []
    → live_row r.id w.rows ≡ some r
    → is_release_terminal_status r.status ≡ false
    → is_empty (normalize_release_step_key step_name) ≡ false
    → find_release_step (normalize_release r).steps (normalize_release_step_key step_name)
      ≡ some current
    → is_settled current.status ≡ false
    → Failed r.id (update_step r.id step_name c now w).1
unfolding apply_release_step_update find_release_step
failed_step-Failed step_name c now w r current bad calm here live filled found open' =
    subst (λ s. StatusAt r.id s (update_step r.id step_name c now w).1)
      (derived-failed (normalize_release r).action r.status
        (apply_release_step_update (normalize_release r).steps
          (normalize_release_step_key step_name) (record c { progress = clamp_percent c.progress }))
        live
        (update_first-fails (normalize_release_step_key (normalize_release_step_key step_name))
          (record c { progress = clamp_percent c.progress }) (normalize_release r).steps current bad
          found))
      (update_step_derives step_name c now w r current calm here live filled found open')

-- An event with the phase error, in any case and with spaces around it, leaves a live, unfinished
-- release with an open step observe_rollout failed, when the database answers.
pub argo_error_fails :
    (phase : Text) (now : ℕ) (w : World) (r : Release) (current : ReleaseStep)
    → w.faults ≡ []
    → live_row r.id w.rows ≡ some r
    → is_release_terminal_status r.status ≡ false
    → to_lower (trim_space phase) ≡ codes "error"
    → find_release_step
        (normalize_release r).steps
        (normalize_release_step_key (codes "observe_rollout"))
      ≡ some current
    → is_settled current.status ≡ false
    → StatusAt r.id ReleaseStatus.failed (handle_argo_event (some r.id) phase now w).1
unfolding handle_argo_event write_argo_status derive_argo_step_updates normalize_release_step_key
    is_empty
argo_error_fails phase now w r current calm here live is_error found open' = rw is_error (
    event-Failed r.id
      (step_update (codes "observe_rollout") StepStatus.failed
        (codes "rollout observed as error by argocd"))
      (step_update (codes "finalize_release") StepStatus.failed
          (codes "release finalized after rollout observed as error by argocd")
        ∷ [])
      (map_argo_status_to_release_status phase) now w
      (failed_step-Failed (codes "observe_rollout") _ now w r current refl calm here live refl found
        open'))
