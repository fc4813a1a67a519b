-- ===== src/Release/Steps.antt =====
-- The steps of a release: DefaultReleaseSteps and DeriveReleaseStatusFromSteps of
-- internal/release/domain/release.go, and the step helpers of internal/release/service/release.go.
use devflow_service.Base.{Bool, List, [], false, if◌then◌else◌, none, pos, true, ◌∷◌}
use devflow_service.Release.Types.{
  ReleaseStatus, ReleaseStep, ReleaseType, StepStatus, blue_green, canary, failed, normal, pending,
  release_rollback, rolled_back, running, succeeded, sync_failed, unset,
}
use devflow_service.Text.{Text, codes, text_eq}
pub mod Derive
pub mod Keys
pub mod Canonical
pub mod Update

-- `newReleaseStep`.
pub new_release_step : Text → Text → ReleaseStep
new_release_step code name = record {
  code = code;
  name = name;
  progress = pos 0;
  status = pending;
  message = [];
  start_time = none;
  end_time = none;
}

-- The entries that the three lists of the code begin with.
common_release_steps : List ReleaseStep → List ReleaseStep
unfolding new_release_step
common_release_steps rest =
    new_release_step (codes "freeze_inputs") (codes "Freeze release inputs")
    ∷ new_release_step (codes "ensure_namespace") (codes "Ensure namespace")
    ∷ new_release_step (codes "ensure_pull_secret") (codes "Ensure pull secret")
    ∷ new_release_step (codes "ensure_appproject_destination")
        (codes "Ensure AppProject destination")
    ∷ new_release_step (codes "render_deployment_bundle") (codes "Render deployment bundle")
    ∷ new_release_step (codes "publish_bundle") (codes "Publish bundle to OCI")
    ∷ new_release_step (codes "create_argocd_application") (codes "Create ArgoCD application")
    ∷ rest

-- `DefaultReleaseSteps`; the action is not used there either.
unfoldable pub default_release_steps : ReleaseType → Text → List ReleaseStep
unfolding common_release_steps
default_release_steps canary release_action = common_release_steps (
    new_release_step (codes "deploy_canary") (codes "Deploy canary")
    ∷ new_release_step (codes "canary_10") (codes "Canary 10% traffic")
    ∷ new_release_step (codes "canary_30") (codes "Canary 30% traffic")
    ∷ new_release_step (codes "canary_60") (codes "Canary 60% traffic")
    ∷ new_release_step (codes "canary_100") (codes "Canary 100% traffic")
    ∷ new_release_step (codes "finalize_release") (codes "Finalize release")
    ∷ [])
default_release_steps blue_green release_action = common_release_steps (
    new_release_step (codes "deploy_preview") (codes "Deploy preview")
    ∷ new_release_step (codes "observe_preview") (codes "Observe preview")
    ∷ new_release_step (codes "switch_traffic") (codes "Switch traffic")
    ∷ new_release_step (codes "verify_active") (codes "Verify active")
    ∷ new_release_step (codes "finalize_release") (codes "Finalize release")
    ∷ [])
default_release_steps normal release_action = common_release_steps (
    new_release_step (codes "start_deployment") (codes "Start deployment")
    ∷ new_release_step (codes "observe_rollout") (codes "Observe rollout")
    ∷ new_release_step (codes "finalize_release") (codes "Finalize release")
    ∷ [])

-- The three flags of the loop in `DeriveReleaseStatusFromSteps`.
pub record Tally : Type 0 where
  pub all_succeeded : Bool
  pub any_failed : Bool
  pub any_started : Bool

-- One round of the loop: its `switch step.Status`.
pub tally_step : Tally → StepStatus → Tally
tally_step t failed = record t { any_failed = true; all_succeeded = false }
tally_step t succeeded = record t { any_started = true }
tally_step t running = record t { any_started = true; all_succeeded = false }
tally_step t _ = record t { all_succeeded = false }

pub tally_steps : Tally → List ReleaseStep → Tally
unfolding tally_step
tally_steps t [] = t
tally_steps t (step ∷ steps) = tally_steps (tally_step t step.status) steps

-- `if currentStatus == "" { return ReleasePending }; return currentStatus`.
abbrev pub default_to_pending : ReleaseStatus → ReleaseStatus
default_to_pending unset = pending
default_to_pending s = s

-- `isReleaseTerminalStatus`, which is also the first switch of `DeriveReleaseStatusFromSteps`.
unfoldable pub is_release_terminal_status : ReleaseStatus → Bool
is_release_terminal_status succeeded = true
is_release_terminal_status failed = true
is_release_terminal_status rolled_back = true
is_release_terminal_status sync_failed = true
is_release_terminal_status _ = false

decide_release_status : Text → ReleaseStatus → Tally → ReleaseStatus
decide_release_status release_action current t =
    if t.any_failed
    then failed
    else if t.all_succeeded
    then (if text_eq release_action release_rollback then rolled_back else succeeded)
    else if t.any_started
    then running
    else default_to_pending current

derive_unfinished : Text → ReleaseStatus → List ReleaseStep → ReleaseStatus
unfolding tally_steps decide_release_status
derive_unfinished release_action current [] = default_to_pending current
derive_unfinished release_action current (step ∷ steps) =
    decide_release_status release_action current (
      tally_steps (record { all_succeeded = true; any_failed = false; any_started = false })
        (step ∷ steps))

-- `DeriveReleaseStatusFromSteps`.
unfoldable pub derive_release_status_from_steps :
    Text → ReleaseStatus → List ReleaseStep → ReleaseStatus
unfolding derive_unfinished is_release_terminal_status
derive_release_status_from_steps release_action current steps =
    if is_release_terminal_status current
    then current
    else derive_unfinished release_action current steps
