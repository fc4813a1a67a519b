-- ===== src/Service/Terminal/Operations/Requests.antt =====
-- Pause, resume, cancel and rollback keep a terminal status:
-- internal/release/service/release_operation_manager.go.
use devflow_service.Base.{Bool-cases, Option, inl, inr, none, some, true, ℕ, ◌≡◌}
use devflow_service.Control.Lifecycle.{LifecycleStatus, paused}
use devflow_service.Control.Operation.{evaluate_operation_request, normalize_release_operation}
use devflow_service.Control.Remediation.{pending_rollback}
use devflow_service.Control.State.{ReleaseControlState}
use devflow_service.Release.Steps.{is_release_terminal_status}
use devflow_service.Release.Steps.Update.{find_release_step}
use devflow_service.Release.Types.{Release, ReleaseStatus, ReleaseStep}
use devflow_service.Service.Operations.{
  apply_operation_cancellation, apply_operation_request, apply_operation_step_message,
  apply_rollback_operation, carry_out_target, is_candidate, is_rollback, newest, operate,
  or_no_target, request_operation, rollback_release, select_rollback_target, store_message,
  write_message,
}
use devflow_service.Service.Status.{load_release, remediation_text}
use devflow_service.Service.Terminal.Kept.{Keeps, Keeps-bind}
use devflow_service.Service.Terminal.Operations.Steps.{
  load_release-Keeps, update_status-Keeps, write_remediation-Keeps,
}
use devflow_service.Service.Terminal.Operations.Timeouts.{apply_timeout_step_write-Keeps}
use devflow_service.Service.Terminal.Store.{
  Agrees, Any, StatusAt, insert-Keeps, list-Keeps, update_row-Keeps, update_steps-Keeps,
}
use devflow_service.Service.Timeouts.{compat_control_state_from_release}
use devflow_service.Service.World.{World}
use devflow_service.Text.{Text, text_eq, trim_space}

module _ (id : ℕ) (s : ReleaseStatus) (final : is_release_terminal_status s ≡ true) where
  store_message-Keeps :
      (r : Release) (code : Text) (o : Option ReleaseStep) (message : Text) (now : ℕ) (w : World)
      → StatusAt id s w
      → Keeps (StatusAt id s) (Any id s) (store_message r code o message now w)
  unfolding store_message
  store_message-Keeps r code none message now w h = h
  store_message-Keeps r code (some step) message now w h = update_steps-Keeps id s _ w h

  write_message-Keeps :
      (r : Release) (code message : Text) (now : ℕ) (w : World)
      → StatusAt id s w
      → Keeps (StatusAt id s) (Any id s) (write_message r code message now w)
  unfolding write_message
  write_message-Keeps r code message now w h =
      elim (Bool-cases (is_release_terminal_status r.status)) [
        | inl e ↦ rw e (h, tt)
        | inr e ↦ rw e (store_message-Keeps r code (find_release_step r.steps code) message now w h)
      ]

  apply_operation_step_message-Keeps :
      (k : ℕ) (code message : Text) (now : ℕ) (w : World)
      → StatusAt id s w
      → Keeps (StatusAt id s) (Any id s) (apply_operation_step_message k code message now w)
  unfolding apply_operation_step_message
  apply_operation_step_message-Keeps k code message now w h =
      Keeps-bind (StatusAt id s) (Agrees id s) (Any id s) (load_release k w) _
        (load_release-Keeps id s k w h)
        (λ r agrees w' h'. write_message-Keeps r code message now w' h')

  apply_operation_cancellation-Keeps :
      (r : Release) (state : ReleaseControlState) (operation : Text) (now : ℕ) (w : World)
      → StatusAt id s w
      → Keeps (StatusAt id s) (Any id s) (apply_operation_cancellation r state operation now w)
  unfolding apply_operation_cancellation
  apply_operation_cancellation-Keeps r state operation now w h =
      Keeps-bind (StatusAt id s) (Any id s) (Any id s) _ _
        (apply_timeout_step_write-Keeps id s final r.id _ now w h)
        (λ _ _ w' h'.
          Keeps-bind (StatusAt id s) (Any id s) (Any id s) _ _
            (write_remediation-Keeps id s r.id _ _ now w' h')
            (λ _ _ v g. update_status-Keeps id s final r.id ReleaseStatus.failed now v g))

  carry_out_target-Keeps :
      (target : LifecycleStatus) (r : Release) (state : ReleaseControlState) (operation : Text)
      (now : ℕ) (w : World)
      → StatusAt id s w
      → Keeps (StatusAt id s) (Any id s) (carry_out_target target r state operation now w)
  carry_out_target-Keeps paused r state operation now w h =
      apply_operation_step_message-Keeps r.id _ _ now w h
  carry_out_target-Keeps LifecycleStatus.running r state operation now w h =
      apply_operation_step_message-Keeps r.id _ _ now w h
  carry_out_target-Keeps LifecycleStatus.failed r state operation now w h =
      apply_operation_cancellation-Keeps r state operation now w h
  carry_out_target-Keeps LifecycleStatus.pending r state operation now w h = h
  carry_out_target-Keeps _ r state operation now w h = (h, tt)

  operate-Keeps :
      (r : Release) (o : Option ReleaseControlState) (operation : Text) (now : ℕ) (w : World)
      → StatusAt id s w
      → Keeps (StatusAt id s) (Any id s) (operate r o operation now w)
  unfolding operate
  operate-Keeps r none operation now w h = h
  operate-Keeps r (some state) operation now w h =
      elim (Bool-cases (evaluate_operation_request state operation).allowed) [
        | inl e ↦ rw e (
            Keeps-bind (StatusAt id s) (Any id s) (Any id s) _ _
              (carry_out_target-Keeps (evaluate_operation_request state operation).target_status r
                state operation now w h)
              (λ _ _ w' h'. (h', tt)))
        | inr e ↦ rw e h
      ]

  or_no_target-Keeps :
      (o : Option Release) (w : World)
      → StatusAt id s w
      → Keeps (StatusAt id s) (Any id s) (or_no_target o w)
  or_no_target-Keeps none w h = h
  or_no_target-Keeps (some item) w h = (h, tt)

  select_rollback_target-Keeps :
      (r : Release) (w : World)
      → StatusAt id s w
      → Keeps (StatusAt id s) (Any id s) (select_rollback_target r w)
  unfolding select_rollback_target
  select_rollback_target-Keeps r w h =
      Keeps-bind (StatusAt id s) (Any id s) (Any id s) _ _ (list-Keeps id s _ w h)
        (λ items _ w' h'. or_no_target-Keeps (newest (is_candidate r.id) items) w' h')

  apply_rollback_operation-Keeps :
      (r : Release) (fresh now : ℕ) (w : World)
      → Agrees id s r
      → StatusAt id s w
      → Keeps (StatusAt id s) (Any id s) (apply_rollback_operation r fresh now w)
  unfolding apply_rollback_operation
  apply_rollback_operation-Keeps r fresh now w agrees h =
      elim (Bool-cases
        (text_eq (trim_space r.remediation_status) (remediation_text pending_rollback))) [
          | inl e ↦ rw e (
              Keeps-bind (StatusAt id s) (Any id s) (Any id s) _ _
                (select_rollback_target-Keeps r w h)
                (λ target _ w' h'.
                  Keeps-bind (StatusAt id s) (Any id s) (Any id s) _ _
                    (insert-Keeps id s (rollback_release r target fresh now) w' h')
                    (λ _ _ v g.
                      Keeps-bind (StatusAt id s) (Any id s) (Any id s) _ _
                        (update_row-Keeps id s _ v agrees g) (λ _ _ v' g'. (g', tt)))))
          | inr e ↦ rw e h
        ]

  request_operation-Keeps :
      (r : Release) (operation : Text) (fresh now : ℕ) (w : World)
      → Agrees id s r
      → StatusAt id s w
      → Keeps (StatusAt id s) (Any id s) (request_operation r operation fresh now w)
  unfolding request_operation
  request_operation-Keeps r operation fresh now w agrees h =
      elim (Bool-cases (is_rollback (normalize_release_operation operation))) [
        | inl e ↦ rw e (apply_rollback_operation-Keeps r fresh now w agrees h)
        | inr e ↦ rw e (operate-Keeps r (compat_control_state_from_release r) operation now w h)
      ]

  pub apply_operation_request-Keeps :
      (k : ℕ) (operation : Text) (fresh now : ℕ) (w : World)
      → StatusAt id s w
      → Keeps (StatusAt id s) (Any id s) (apply_operation_request k operation fresh now w)
  unfolding apply_operation_request
  apply_operation_request-Keeps k operation fresh now w h =
      Keeps-bind (StatusAt id s) (Agrees id s) (Any id s) (load_release k w) _
        (load_release-Keeps id s k w h)
        (λ r agrees w' h'. request_operation-Keeps r operation fresh now w' agrees h')
