-- ===== src/Service/Timeouts.antt =====
-- internal/release/service/release_timeout_runtime.go and the helpers of release_operation_runtime.go.
use devflow_service.Base.{
  Bool, List, Option, [], false, if◌then◌else◌, none, not, pos, some, suc, true, ℕ, ◌&&◌, ◌||◌, ◌∷◌,
}
use devflow_service.Control.Lifecycle.{LifecycleStatus, dispatching, finalizing, paused}
use devflow_service.Control.Remediation.{
  RemediationKind, assess_remediation_need, no_remediation, not_required,
}
use devflow_service.Control.Rolling.{rolling_timeout_policy}
use devflow_service.Control.State.{
  ReleaseControlState, ReleaseStrategy, StepWrite, TransitionDecision, dispatch_failed,
  new_initial_control_state, rolling, with_status,
}
use devflow_service.Control.Timeout.{TimeoutPolicy, minutes, scan_timeout}
use devflow_service.Release.Steps.{is_release_terminal_status}
use devflow_service.Release.Steps.Canonical.{normalize_release_steps}
use devflow_service.Release.Steps.Update.{StepChange, apply_release_step_update, find_release_step}
use devflow_service.Release.Types.{
  Release, ReleaseStatus, ReleaseStep, StepStatus, normalize_release_strategy, rolled_back, running,
  strategy_blue_green, strategy_canary, sync_failed, syncing,
}
use devflow_service.Service.Status.{
  load_release, remediation_text, update_status, write_remediation,
}
use devflow_service.Service.Step.{is_settled}
use devflow_service.Service.Store.{is_live, list, update_steps}
use devflow_service.Service.World.{M, done, fail, return, unknown_step, ◌>>=◌, ◌>>◌}
use devflow_service.Text.{Text, codes, contains, is_empty, text_eq, to_lower, trim_space}

-- `compatReleaseStrategy`.
unfoldable pub compat_release_strategy : Text → ReleaseStrategy
compat_release_strategy value =
    let strategy = trim_space (normalize_release_strategy value) in
    if text_eq strategy strategy_canary
    then ReleaseStrategy.canary
    else if text_eq strategy strategy_blue_green
    then ReleaseStrategy.blue_green
    else rolling

abbrev is_running_step : StepStatus → Bool
is_running_step running = true
is_running_step _ = false

-- The loop of `hasPausedRunningStep`.
has_paused_step : List ReleaseStep → Bool
has_paused_step [] = false
has_paused_step (step ∷ steps) =
    (is_running_step step.status
      && contains (to_lower (trim_space step.message)) (codes "paused by operator"))
    || has_paused_step steps

-- `hasPausedRunningStep`.
unfoldable pub has_paused_running_step : Release → Bool
unfolding has_paused_step
has_paused_running_step release =
    has_paused_step (normalize_release_steps release.strategy release.action release.steps)

-- The statuses of the two steps that `inferRunningLifecycleStatus` looks up.
abbrev finalizing_or_running : Option ReleaseStep → Option ReleaseStep → LifecycleStatus
finalizing_or_running none finalize = LifecycleStatus.running
finalizing_or_running (some observe) none = LifecycleStatus.running
finalizing_or_running (some observe) (some finalize) = elim observe.status [
  | StepStatus.succeeded ↦
      if is_settled finalize.status then LifecycleStatus.running else finalizing
  | _ ↦ LifecycleStatus.running
]

-- `inferRunningLifecycleStatus`, which looks the two steps up in the steps as they are stored.
unfoldable pub infer_running_lifecycle_status : Release → LifecycleStatus
infer_running_lifecycle_status release =
    if has_paused_running_step release
    then paused
    else finalizing_or_running (find_release_step release.steps (codes "observe_rollout"))
        (find_release_step release.steps (codes "finalize_release"))

-- The switch of `compatControlStateFromRelease`, on the release's status.
abbrev lifecycle_of : ReleaseStatus → Release → Option LifecycleStatus
lifecycle_of syncing release = some dispatching
lifecycle_of ReleaseStatus.running release = some (infer_running_lifecycle_status release)
lifecycle_of ReleaseStatus.succeeded release = some LifecycleStatus.succeeded
lifecycle_of rolled_back release = some LifecycleStatus.succeeded
lifecycle_of ReleaseStatus.failed release = some LifecycleStatus.failed
lifecycle_of sync_failed release = some LifecycleStatus.failed
lifecycle_of _ release = none

abbrev control_state : Release → LifecycleStatus → ReleaseControlState
control_state release status =
    with_status
      (new_initial_control_state (compat_release_strategy release.strategy) release.updated_at)
      status release.updated_at

abbrev unless_terminal : ReleaseControlState → Option ReleaseControlState
unless_terminal state = if state.terminal then none else some state

-- `compatControlStateFromRelease`: `none` where its second result is false. The copy that
-- `applyPausedCompatibilityState` makes is equal to the release.
unfoldable pub compat_control_state_from_release : Release → Option ReleaseControlState
compat_control_state_from_release release = elim (lifecycle_of release.status release) [
  | none ↦ none
  | some status ↦ unless_terminal (control_state release status)
]

-- `compatTimeoutPolicy`.
abbrev compat_timeout_policy : ReleaseStrategy → TimeoutPolicy
compat_timeout_policy rolling = rolling_timeout_policy
compat_timeout_policy ReleaseStrategy.canary = record {
  dispatch_timeout = 0;
  progress_timeout = minutes 10;
  finalize_timeout = minutes 2;
  observation_stall_timeout = 0;
}
compat_timeout_policy ReleaseStrategy.blue_green = record {
  dispatch_timeout = 0;
  progress_timeout = minutes 10;
  finalize_timeout = minutes 2;
  observation_stall_timeout = 0;
}
compat_timeout_policy (ReleaseStrategy.other s) = record {
  dispatch_timeout = 0;
  progress_timeout = 0;
  finalize_timeout = 0;
  observation_stall_timeout = 0;
}

-- `compatReleaseStatusFromControlState`.
abbrev pub compat_release_status : ReleaseControlState → Option ReleaseStatus
compat_release_status state = elim state.lifecycle_status [
  | LifecycleStatus.failed ↦
      some (elim state.failure_reason [ dispatch_failed ↦ sync_failed | _ ↦ ReleaseStatus.failed ])
  | LifecycleStatus.succeeded ↦ some ReleaseStatus.succeeded
  | _ ↦ none
]

first_running : List ReleaseStep → Option Text
first_running [] = none
first_running (step ∷ steps) =
    if is_running_step step.status then some step.code else first_running steps

abbrev default_step_code : LifecycleStatus → Text
default_step_code dispatching = codes "create_argocd_application"
default_step_code finalizing = codes "finalize_release"
default_step_code _ = codes "observe_rollout"

abbrev or_default : Option Text → Text → Text
or_default (some code) default = code
or_default none default = default

-- `currentLifecycleStepCode`.
unfoldable pub current_lifecycle_step_code : Release → ReleaseControlState → Text
unfolding first_running
current_lifecycle_step_code release state =
    or_default
      (first_running (normalize_release_steps release.strategy release.action release.steps))
      (default_step_code state.lifecycle_status)

-- What `applyTimeoutStepWrite` does with the step that it found.
unfoldable pub store_timeout_step : Release → Option ReleaseStep → StepWrite → ℕ → M (Unit {0})
store_timeout_step release none write now = fail unknown_step
store_timeout_step release (some current) write now =
    let change : StepChange = record {
      status = write.status;
      progress = pos write.progress;
      message = write.message;
      start = none;
      end = some now;
    } in
    if is_settled current.status
    then done
    else update_steps (record release {
      steps = apply_release_step_update release.steps write.step_code change;
      updated_at = now;
    })

unfoldable pub write_timeout_step : Release → StepWrite → ℕ → M (Unit {0})
write_timeout_step release write now =
    if is_release_terminal_status release.status
    then done
    else store_timeout_step release (find_release_step release.steps write.step_code) write now

-- `applyTimeoutStepWrite`.
unfoldable pub apply_timeout_step_write : ℕ → StepWrite → ℕ → M (Unit {0})
apply_timeout_step_write id write now = do
  release ← load_release id
  write_timeout_step release write now

abbrev redirect : LifecycleStatus → Text → StepWrite → StepWrite
redirect LifecycleStatus.running current write =
    if text_eq (trim_space write.step_code) (codes "observe_rollout") && not (is_empty current)
    then record write { step_code = current }
    else write
redirect _ current write = write

unfoldable pub apply_writes : ℕ → LifecycleStatus → Text → List StepWrite → ℕ → M (Unit {0})
apply_writes id status current [] now = done
apply_writes id status current (write ∷ writes) now = do
  apply_timeout_step_write id (redirect status current write) now
  apply_writes id status current writes now

abbrev pub needs_remediation : RemediationKind → Bool
needs_remediation no_remediation = false
needs_remediation not_required = false
needs_remediation _ = true

-- The middle of `process`: a release that is to fail gets its remediation, if it needs one.
unfoldable pub remediate : ℕ → ReleaseControlState → Text → ℕ → M (Unit {0})
remediate id state current now =
    let remediation = assess_remediation_need state current (codes "Cancel") in
    if needs_remediation remediation.kind
    then write_remediation id (remediation_text remediation.kind) (trim_space remediation.reason)
        now
    else done

abbrev pub remediate_failed : LifecycleStatus → ℕ → ReleaseControlState → Text → ℕ → M (Unit {0})
remediate_failed LifecycleStatus.failed id state current now = remediate id state current now
remediate_failed _ id state current now = done

abbrev pub update_to : Option ReleaseStatus → ℕ → ℕ → M (Unit {0})
update_to none id now = done
update_to (some status) id now = update_status id status now

unfoldable pub carry_out :
    Release → ReleaseControlState → TransitionDecision → Option ReleaseControlState → ℕ → M Bool
carry_out release state decision none now = return false
carry_out release state decision (some next) now =
    if decision.state_changed
    then (do
      let current = current_lifecycle_step_code release state
      apply_writes release.id state.lifecycle_status current decision.step_writes now
      remediate_failed next.lifecycle_status release.id state current now
      update_to (compat_release_status next) release.id now
      return true)
    else return false

unfoldable pub process_state : Release → Option ReleaseControlState → ℕ → M Bool
process_state release none now = return false
process_state release (some state) now =
    let decision = scan_timeout state (compat_timeout_policy state.strategy) now in
    carry_out release state decision decision.next_state now

-- `process`.
unfoldable pub process_timeout : Release → ℕ → M Bool
process_timeout release now = process_state release (compat_control_state_from_release release) now

abbrev pub count_handled : Bool → ℕ → ℕ
count_handled true n = suc n
count_handled false n = n

-- The loop of `ProcessTimeouts`. It ends at the first error; the count that Go returns beside the
-- error is left out.
unfoldable pub process_all : List Release → ℕ → ℕ → M ℕ
process_all [] processed now = return processed
process_all (release ∷ releases) processed now = do
  handled ← process_timeout release now
  process_all releases (count_handled handled processed) now

-- `ProcessTimeouts`.
unfoldable pub process_timeouts : ℕ → M ℕ
process_timeouts now = do releases ← list is_live; process_all releases 0 now
