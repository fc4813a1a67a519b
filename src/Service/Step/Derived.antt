-- ===== src/Service/Step/Derived.antt =====
-- What UpdateStep of internal/release/service/release.go makes of the status.
use devflow_service.Base.{
  Bool-cases, List, [], ap, clamp_percent, false, inl, inr, is_yes, refl, some, subst, sym, true, ℕ,
  ◌∙◌, ◌≡◌,
}
use devflow_service.Release.Steps.{derive_release_status_from_steps, is_release_terminal_status}
use devflow_service.Release.Steps.Keys.{normalize_release_step_key}
use devflow_service.Release.Steps.Update.{StepChange, apply_release_step_update, find_release_step}
use devflow_service.Release.Types.{Release, ReleaseStatus, ReleaseStatus-discrete, ReleaseStep}
use devflow_service.Service.Calm.{
  live_row-lookup, live_row-written, load_release-calm, lookup_row-written, update_row-calm,
  update_steps-calm,
}
use devflow_service.Service.Status.{
  change_status, normalize_release, same_status, sync_rollback_source, update_status,
}
use devflow_service.Service.Step.{
  change_step, is_settled, store_step, update_status_from_steps, update_step,
}
use devflow_service.Service.Store.{live_row, lookup_row, overwrite, set_row, write_steps}
use devflow_service.Service.Terminal.Kept.{Keeps-state}
use devflow_service.Service.Terminal.Operations.Steps.{sync_rollback_source-Keeps}
use devflow_service.Service.Terminal.Store.{Any, StatusAt, lookup_row-id}
use devflow_service.Service.World.{Result, World, and_then}
use devflow_service.Text.{Text, is_empty}

yes_sound : (a b : ReleaseStatus) (d : Dec (a ≡ b)) → is_yes d ≡ true → a ≡ b
yes_sound a b (yes e) h = e
yes_sound a b (no e) h = cc

same_status_sound : (a b : ReleaseStatus) → same_status a b ≡ true → a ≡ b
same_status_sound a b h = yes_sound a b (ReleaseStatus-discrete a b) h

change_status-StatusAt :
    (release : Release) (status : ReleaseStatus) (now : ℕ) (w : World) (r : Release)
    → w.faults ≡ []
    → lookup_row release.id w.rows ≡ some r
    → r.status ≡ release.status
    → is_release_terminal_status release.status ≡ false
    → StatusAt release.id status (change_status release status now w).1
unfolding change_status
change_status-StatusAt release status now w r calm here agrees live =
    elim (Bool-cases (same_status release.status status)) [
      | inl same ↦ rw (live, same) (r, here, agrees ∙ same_status_sound release.status status same)
      | inr off ↦
          let changed = record release { status = status; updated_at = now } in
          rw (live, off)
            (subst
              (λ (m : Result (Unit {0}) × World).
                StatusAt release.id status
                  (and_then m (λ x. sync_rollback_source changed status now)).1)
              (sym (update_row-calm changed w r calm here))
              (Keeps-state (StatusAt release.id status) (Any release.id status) _ (
                sync_rollback_source-Keeps release.id status changed status now _ (
                  overwrite changed r,
                  lookup_row-written release.id (overwrite changed) w.rows r (λ row. refl) here,
                  refl,
                ))))
    ]

-- What `updateStatus` leaves, on a live row that is not terminal.
update_status-StatusAt :
    (status : ReleaseStatus) (now : ℕ) (w : World) (r : Release)
    → w.faults ≡ []
    → live_row r.id w.rows ≡ some r
    → is_release_terminal_status r.status ≡ false
    → StatusAt r.id status (update_status r.id status now w).1
unfolding update_status normalize_release
update_status-StatusAt status now w r calm here live =
    subst
      (λ (m : Result Release × World).
        StatusAt r.id status (and_then m (λ (x : Release). change_status x status now)).1)
      (sym (load_release-calm r.id w r calm here))
      (change_status-StatusAt (normalize_release r) status now w r calm
        (live_row-lookup r.id w.rows r here).0 refl live)

update_status_from_steps-StatusAt :
    (release_action : Text) (current : ReleaseStatus) (steps : List ReleaseStep) (now : ℕ)
    (w : World) (r : Release)
    → w.faults ≡ []
    → live_row r.id w.rows ≡ some r
    → r.status ≡ current
    → is_release_terminal_status current ≡ false
    → StatusAt r.id
        (derive_release_status_from_steps release_action current steps)
        (update_status_from_steps r.id release_action current steps now w).1
unfolding update_status_from_steps
update_status_from_steps-StatusAt release_action current steps now w r calm here agrees live =
    elim (Bool-cases
      (same_status (derive_release_status_from_steps release_action current steps) current)) [
        | inl same ↦ rw same (
          r,
          (live_row-lookup r.id w.rows r here).0,
          agrees ∙ sym (same_status_sound _ current same),
        )
        | inr off ↦ rw off (
            update_status-StatusAt (derive_release_status_from_steps release_action current steps)
              now w r calm here (ap is_release_terminal_status agrees ∙ live))
      ]

store_step-StatusAt :
    (release : Release) (key : Text) (current : ReleaseStep) (c : StepChange) (now : ℕ) (w : World)
    (r : Release)
    → w.faults ≡ []
    → live_row release.id w.rows ≡ some r
    → r.status ≡ release.status
    → is_release_terminal_status release.status ≡ false
    → is_settled current.status ≡ false
    → StatusAt release.id
        (derive_release_status_from_steps release.action release.status
          (apply_release_step_update release.steps key c))
        (store_step release key (some current) c now w).1
unfolding store_step
store_step-StatusAt release key current c now w r calm here agrees live open' =
    let next_steps = apply_release_step_update release.steps key c in
    let changed = record release { steps = next_steps; updated_at = now } in
    let (found, alive) = live_row-lookup release.id w.rows r here in
    let same_id = lookup_row-id release.id w.rows r found in
    let after = record w { rows = set_row release.id (write_steps changed) w.rows } in
    rw open' (
      subst
        (λ (m : Result (Unit {0}) × World).
          StatusAt release.id
            (derive_release_status_from_steps release.action release.status next_steps)
            (and_then m (λ x.
              update_status_from_steps release.id release.action release.status next_steps now)).1)
        (sym (update_steps-calm changed w r calm here))
        (subst
          (λ k.
            StatusAt k (derive_release_status_from_steps release.action release.status next_steps)
              (update_status_from_steps k release.action release.status next_steps now after).1)
          same_id
          (update_status_from_steps-StatusAt release.action release.status next_steps now after
            (write_steps changed r) calm
            (subst (λ k. live_row k after.rows ≡ some (write_steps changed r)) (sym same_id)
              (live_row-written release.id (write_steps changed) w.rows r (λ row. refl) alive
                found))
            agrees live)))

-- A step update of a live, unfinished release that names an open step of it, when the database
-- answers, leaves the release with the status that its steps, with the update, derive.
pub update_step_derives :
    (step_name : Text) (c : StepChange) (now : ℕ) (w : World) (r : Release) (current : ReleaseStep)
    → w.faults ≡ []
    → live_row r.id w.rows ≡ some r
    → is_release_terminal_status r.status ≡ false
    → is_empty (normalize_release_step_key step_name) ≡ false
    → find_release_step (normalize_release r).steps (normalize_release_step_key step_name)
      ≡ some current
    → is_settled current.status ≡ false
    → StatusAt r.id
        (derive_release_status_from_steps (normalize_release r).action r.status (
          apply_release_step_update
            (normalize_release r).steps
            (normalize_release_step_key step_name)
            (record c { progress = clamp_percent c.progress })))
        (update_step r.id step_name c now w).1
unfolding update_step change_step normalize_release
update_step_derives step_name c now w r current calm here live filled found open' = rw filled (
    subst
      (λ (m : Result Release × World).
        StatusAt r.id
          (derive_release_status_from_steps (normalize_release r).action r.status (
            apply_release_step_update (normalize_release r).steps
              (normalize_release_step_key step_name)
              (record c { progress = clamp_percent c.progress })))
          (and_then m (λ (release : Release).
            change_step release (normalize_release_step_key step_name)
              (record c { progress = clamp_percent c.progress }) now)).1)
      (sym (load_release-calm r.id w r calm here))
      (rw (live, found)
        (store_step-StatusAt (normalize_release r) (normalize_release_step_key step_name) current
          (record c { progress = clamp_percent c.progress }) now w r calm here refl live open')))
