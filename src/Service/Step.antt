-- ===== src/Service/Step.antt =====
-- UpdateStep and updateStatusFromSteps of internal/release/service/release.go.
pub mod Derived
use devflow_service.Base.{
  Bool, List, Option, clamp_percent, false, if◌then◌else◌, none, some, true, ℕ,
}
use devflow_service.Release.Steps.{derive_release_status_from_steps, is_release_terminal_status}
use devflow_service.Release.Steps.Keys.{normalize_release_step_key}
use devflow_service.Release.Steps.Update.{StepChange, apply_release_step_update, find_release_step}
use devflow_service.Release.Types.{
  Release, ReleaseStatus, ReleaseStep, StepStatus, failed, succeeded,
}
use devflow_service.Service.Status.{load_release, same_status, update_status}
use devflow_service.Service.Store.{update_steps}
use devflow_service.Service.World.{M, done, fail, unknown_step, ◌>>=◌, ◌>>◌}
use devflow_service.Text.{Text, is_empty}

abbrev pub is_settled : StepStatus → Bool
is_settled succeeded = true
is_settled failed = true
is_settled _ = false

-- `updateStatusFromSteps`.
unfoldable pub update_status_from_steps :
    ℕ → Text → ReleaseStatus → List ReleaseStep → ℕ → M (Unit {0})
update_status_from_steps id release_action current steps now =
    let next_status = derive_release_status_from_steps release_action current steps in
    if same_status next_status current then done else update_status id next_status now

-- What `UpdateStep` does with the step that it found.
unfoldable pub store_step : Release → Text → Option ReleaseStep → StepChange → ℕ → M (Unit {0})
store_step release key none c now = fail unknown_step
store_step release key (some current) c now =
    let next_steps = apply_release_step_update release.steps key c in
    if is_settled current.status then done else (do
      update_steps (record release { steps = next_steps; updated_at = now })
      update_status_from_steps release.id release.action release.status next_steps now)

unfoldable pub change_step : Release → Text → StepChange → ℕ → M (Unit {0})
change_step release key c now =
    if is_release_terminal_status release.status
    then done
    else store_step release key (find_release_step release.steps key) c now

-- `UpdateStep`.
unfoldable pub update_step : ℕ → Text → StepChange → ℕ → M (Unit {0})
update_step id step_name c now =
    let key = normalize_release_step_key step_name in
    let clamped = record c { progress = clamp_percent c.progress } in
    if is_empty key
    then done
    else (do release ← load_release id; change_step release key clamped now)
