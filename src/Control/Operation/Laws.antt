-- ===== src/Control/Operation/Laws.antt =====
-- EvaluateOperationRequest of internal/release/domain/control_operation.go.
use devflow_service.Base.{arith, false, not, subst, true, ◌||◌, ◌↔◌, ◌≡◌, ◌≢◌}
use devflow_service.Control.Lifecycle.{
  LifecycleStatus, can_transition, dispatching, failed, finalizing, is_terminal, paused, pending,
  running, same_lifecycle,
}
use devflow_service.Control.Operation.{
  ReleaseOperation, cancel, evaluate_operation, evaluate_operation_request,
  normalize_release_operation, pause, resume, rollback,
}
use devflow_service.Control.State.{ReleaseControlState}
use devflow_service.Text.{Text, to_lower, trim_space}

-- What an operation needs, and the status that it leads to.
abbrev pub Permitted : ReleaseOperation → ReleaseControlState → LifecycleStatus → Type 0
Permitted pause s target = (s.lifecycle_status ≡ running) × (target ≡ paused)
Permitted resume s target = (s.lifecycle_status ≡ paused) × (target ≡ running)
Permitted cancel s target =
    (s.terminal ≡ false) × (is_terminal s.lifecycle_status ≡ false) × (target ≡ failed)
Permitted rollback s target = (is_terminal s.lifecycle_status ≡ true) × (target ≡ pending)
Permitted (ReleaseOperation.other name) s target = ⊥

granted :
    (op : ReleaseOperation) (s : ReleaseControlState)
    → (evaluate_operation op s).allowed ≡ true
    → Permitted op s (evaluate_operation op s).target_status
unfolding evaluate_operation
granted op s h = ground arith

grants :
    (op : ReleaseOperation) (s : ReleaseControlState) (target : LifecycleStatus)
    → Permitted op s target
    → ((evaluate_operation op s).allowed ≡ true)
      × ((evaluate_operation op s).target_status ≡ target)
unfolding evaluate_operation
grants op s target h = ground arith

-- A request is allowed with a target exactly when the release is in a state from which the named
-- operation leads to that target: running, paused, not terminal, or ended.
pub operation_exact :
    (s : ReleaseControlState) (operation : Text) (target : LifecycleStatus)
    → (((evaluate_operation_request s operation).allowed ≡ true)
        × ((evaluate_operation_request s operation).target_status ≡ target))
      ↔ Permitted (normalize_release_operation operation) s target
unfolding evaluate_operation_request
operation_exact s operation target = (
  λ h.
      subst (Permitted (normalize_release_operation operation) s) h.1
        (granted (normalize_release_operation operation) s h.0),
  grants (normalize_release_operation operation) s target,
)

-- Case and surrounding space do not matter: two spellings of one request get one answer.
pub operation-spelling :
    (s : ReleaseControlState) (a b : Text)
    → to_lower (trim_space a) ≡ to_lower (trim_space b)
    → evaluate_operation_request s a ≡ evaluate_operation_request s b
unfolding evaluate_operation_request normalize_release_operation evaluate_operation
operation-spelling s a b h = rw h (ground arith)

-- A pause or a resume that is allowed is a transition of the table. A cancellation is one only from
-- dispatching, paused and finalizing: the table has no way from pending or running to failed.
pub operation-can_transition :
    (s : ReleaseControlState) (operation : Text) (target : LifecycleStatus)
    → Permitted (normalize_release_operation operation) s target
    → target ≢ pending
    → can_transition s.lifecycle_status target ≡ (
        not (same_lifecycle target failed)
        || same_lifecycle s.lifecycle_status dispatching
        || same_lifecycle s.lifecycle_status paused
        || same_lifecycle s.lifecycle_status finalizing)
unfolding can_transition
operation-can_transition s operation target h ne =
    by_operation (normalize_release_operation operation) h
  where
    by_operation :
        (op : ReleaseOperation)
        → Permitted op s target
        → can_transition s.lifecycle_status target ≡ (
            not (same_lifecycle target failed)
            || same_lifecycle s.lifecycle_status dispatching
            || same_lifecycle s.lifecycle_status paused
            || same_lifecycle s.lifecycle_status finalizing)
    by_operation pause h = ground arith
    by_operation resume h = ground arith
    by_operation cancel h = ground arith
    by_operation rollback h = absurd (ne h.1)
    by_operation (ReleaseOperation.other name) h = absurd h
