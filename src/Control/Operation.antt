-- ===== src/Control/Operation.antt =====
-- control_operation.go.
pub mod Laws
use devflow_service.Base.{Bool, [], false, if◌then◌else◌, true, ◌||◌}
use devflow_service.Control.Lifecycle.{
  LifecycleStatus, failed, is_terminal, paused, pending, running, unset,
}
use devflow_service.Control.State.{ReleaseControlState}
use devflow_service.Text.{Text, codes, text_eq, to_lower, trim_space}

pub data ReleaseOperation : Type 0 where
  pause resume cancel rollback : ReleaseOperation
  other : Text → ReleaseOperation

-- `normalizeReleaseOperation`.
unfoldable pub normalize_release_operation : Text → ReleaseOperation
normalize_release_operation operation =
    let key = to_lower (trim_space operation) in
    if text_eq key (codes "pause")
    then pause
    else if text_eq key (codes "resume")
    then resume
    else if text_eq key (codes "cancel")
    then cancel
    else if text_eq key (codes "rollback")
    then rollback
    else other (trim_space operation)

pub record OperationRequestDecision : Type 0 where
  pub allowed : Bool
  pub target_status : LifecycleStatus
  pub reason : Text

-- `allowOperation` and `rejectOperation`; the reasons are literals that trimming leaves alone.
abbrev allow_operation : LifecycleStatus → OperationRequestDecision
allow_operation target = record { allowed = true; target_status = target; reason = [] }

abbrev reject_operation : Text → OperationRequestDecision
reject_operation reason = record { allowed = false; target_status = unset; reason = reason }

abbrev is_running : LifecycleStatus → Bool
is_running running = true
is_running _ = false

abbrev is_paused : LifecycleStatus → Bool
is_paused paused = true
is_paused _ = false

pub evaluate_operation : ReleaseOperation → ReleaseControlState → OperationRequestDecision
evaluate_operation pause state =
    if is_running state.lifecycle_status
    then allow_operation paused
    else reject_operation (codes "pause is only allowed while release is running")
evaluate_operation resume state =
    if is_paused state.lifecycle_status
    then allow_operation running
    else reject_operation (codes "resume is only allowed while release is paused")
evaluate_operation cancel state =
    if state.terminal || is_terminal state.lifecycle_status
    then reject_operation (codes "cancel is not allowed after release reaches terminal state")
    else allow_operation failed
evaluate_operation rollback state =
    if is_terminal state.lifecycle_status
    then allow_operation pending
    else reject_operation (codes "rollback is only allowed after release succeeds or fails")
evaluate_operation (other operation) state =
    reject_operation (codes "unsupported release operation")

-- `EvaluateOperationRequest`.
pub evaluate_operation_request : ReleaseControlState → Text → OperationRequestDecision
unfolding evaluate_operation
evaluate_operation_request state operation =
    evaluate_operation (normalize_release_operation operation) state
