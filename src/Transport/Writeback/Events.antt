-- ===== src/Transport/Writeback/Events.antt =====
-- What HandleArgoEvent of internal/release/transport/http/release_writeback.go leaves.
use devflow_service.Base.{
  All, Bool-cases, List, Option, [], ap, clamp_percent, false, inl, inr, none, refl, some, ℕ, ◌∙◌,
  ◌∷◌, ◌≡◌,
}
use devflow_service.Release.Steps.Keys.{normalize_release_step_key}
use devflow_service.Release.Steps.Update.{StepChange}
use devflow_service.Release.Types.{Release, ReleaseStatus}
use devflow_service.Service.Status.{change_status, load_release, normalize_release, update_status}
use devflow_service.Service.Step.{change_step, update_step}
use devflow_service.Service.Store.{get, get_now, live_row, or_no_rows}
use devflow_service.Service.World.{World, and_then, err, faulty_calm, no_rows, return}
use devflow_service.Text.{Text, is_empty, text_eq, to_lower, trim_space}
use devflow_service.Transport.Writeback.{
  ReleaseStepUpdate, answer, apply_updates, argo_updates, derive_argo_step_updates,
  handle_argo_event, map_argo_status_to_release_status, no_content, read_for_metric, switch_text,
  write_argo_status,
}

switch_text-satisfies {ℓ κ} :
    {A : Type ℓ} (P : A → Type κ) (s : Text) (cases : List (Text × A)) (otherwise : A)
    → All (λ (c : Text × A). P c.1) cases
    → P otherwise
    → P (switch_text s cases otherwise)
switch_text-satisfies P s [] otherwise h k = k
switch_text-satisfies P s ((key, a) ∷ cases) otherwise (p, h) k =
    elim (Bool-cases (text_eq s key)) [
      | inl e ↦ rw e p
      | inr e ↦ rw e (switch_text-satisfies P s cases otherwise h k)
    ]

abbrev NamesStep : ReleaseStepUpdate → Type 0
NamesStep u = is_empty (normalize_release_step_key u.step_code) ≡ false

updates-NamesStep : (phase : Text) → All NamesStep (derive_argo_step_updates phase)
unfolding derive_argo_step_updates normalize_release_step_key is_empty
updates-NamesStep phase =
    switch_text-satisfies (All NamesStep) (to_lower (trim_space phase)) argo_updates []
      ((refl, (refl, tt)), ((refl, (refl, tt)), ((refl, (refl, tt)), ((refl, tt), tt)))) tt

load_release-missing :
    (id : ℕ) (w : World)
    → w.faults ≡ []
    → live_row id w.rows ≡ none
    → load_release id w ≡ (err no_rows, w)
unfolding load_release get get_now
load_release-missing id w calm missing =
    ap (λ m. and_then m (λ row. return (normalize_release row)))
      (faulty_calm (get_now id) w calm ∙ ap (λ (o : Option Release). or_no_rows o w) missing)

update_status-missing :
    (id : ℕ) (status : ReleaseStatus) (now : ℕ) (w : World)
    → w.faults ≡ []
    → live_row id w.rows ≡ none
    → update_status id status now w ≡ (err no_rows, w)
unfolding update_status
update_status-missing id status now w calm missing =
    ap (λ m. and_then m (λ (x : Release). change_status x status now))
      (load_release-missing id w calm missing)

update_step-missing :
    (id : ℕ) (step_name : Text) (c : StepChange) (now : ℕ) (w : World)
    → is_empty (normalize_release_step_key step_name) ≡ false
    → w.faults ≡ []
    → live_row id w.rows ≡ none
    → update_step id step_name c now w ≡ (err no_rows, w)
unfolding update_step
update_step-missing id step_name c now w filled calm missing = rw filled (
    ap
      (λ m. and_then m (λ (x : Release).
        change_step x (normalize_release_step_key step_name)
          (record c { progress = clamp_percent c.progress }) now))
      (load_release-missing id w calm missing))

updates-missing :
    (id : ℕ) (updates : List ReleaseStepUpdate) (status : ReleaseStatus) (now : ℕ) (w : World)
    → All NamesStep updates
    → w.faults ≡ []
    → live_row id w.rows ≡ none
    → and_then (apply_updates id updates now w) (λ x. update_status id status now)
      ≡ (err no_rows, w)
unfolding apply_updates
updates-missing id [] status now w h calm missing =
    update_status-missing id status now w calm missing
updates-missing id (u ∷ updates) status now w (filled, h) calm missing =
    ap
      (λ m.
        and_then (and_then m (λ x. apply_updates id updates now))
          (λ x. update_status id status now))
      (update_step-missing id u.step_code u.change now w filled calm missing)

-- An event for a release that does not exist, or is deleted, changes nothing and is answered like a
-- success, with 204 and not with 404, whatever its phase, when the database answers.
pub missing_release_no_content :
    (id : ℕ) (phase : Text) (now : ℕ) (w : World)
    → w.faults ≡ []
    → live_row id w.rows ≡ none
    → handle_argo_event (some id) phase now w ≡ (no_content, w)
unfolding handle_argo_event write_argo_status
missing_release_no_content id phase now w calm missing =
    ap (λ m. answer (read_for_metric id m))
      (updates-missing id (derive_argo_step_updates phase) (map_argo_status_to_release_status phase)
        now w (updates-NamesStep phase) calm missing)
