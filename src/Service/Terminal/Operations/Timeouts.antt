-- ===== src/Service/Terminal/Operations/Timeouts.antt =====
-- The timeout scan keeps a terminal status: internal/release/service/release_timeout_runtime.go.
use devflow_service.Base.{Bool-cases, List, Option, [], inl, inr, none, some, true, ℕ, ◌∷◌, ◌≡◌}
use devflow_service.Control.Lifecycle.{LifecycleStatus}
use devflow_service.Control.Remediation.{assess_remediation_need}
use devflow_service.Control.State.{ReleaseControlState, StepWrite, TransitionDecision}
use devflow_service.Release.Steps.{is_release_terminal_status}
use devflow_service.Release.Steps.Update.{find_release_step}
use devflow_service.Release.Types.{Release, ReleaseStatus, ReleaseStep}
use devflow_service.Service.Status.{load_release}
use devflow_service.Service.Step.{is_settled}
use devflow_service.Service.Store.{is_live}
use devflow_service.Service.Terminal.Kept.{Keeps, Keeps-bind}
use devflow_service.Service.Terminal.Operations.Steps.{
  load_release-Keeps, update_status-Keeps, write_remediation-Keeps,
}
use devflow_service.Service.Terminal.Store.{Agrees, Any, StatusAt, list-Keeps, update_steps-Keeps}
use devflow_service.Service.Timeouts.{
  apply_timeout_step_write, apply_writes, carry_out, compat_control_state_from_release,
  compat_release_status, count_handled, needs_remediation, process_all, process_state,
  process_timeout, process_timeouts, remediate, remediate_failed, store_timeout_step, update_to,
  write_timeout_step,
}
use devflow_service.Service.World.{World}
use devflow_service.Text.{Text, codes}

module _ (id : ℕ) (s : ReleaseStatus) (final : is_release_terminal_status s ≡ true) where
  store_timeout_step-Keeps :
      (r : Release) (o : Option ReleaseStep) (write : StepWrite) (now : ℕ) (w : World)
      → StatusAt id s w
      → Keeps (StatusAt id s) (Any id s) (store_timeout_step r o write now w)
  unfolding store_timeout_step
  store_timeout_step-Keeps r none write now w h = h
  store_timeout_step-Keeps r (some current) write now w h =
      elim (Bool-cases (is_settled current.status)) [
        | inl e ↦ rw e (h, tt)
        | inr e ↦ rw e (update_steps-Keeps id s _ w h)
      ]

  write_timeout_step-Keeps :
      (r : Release) (write : StepWrite) (now : ℕ) (w : World)
      → StatusAt id s w
      → Keeps (StatusAt id s) (Any id s) (write_timeout_step r write now w)
  unfolding write_timeout_step
  write_timeout_step-Keeps r write now w h =
      elim (Bool-cases (is_release_terminal_status r.status)) [
        | inl e ↦ rw e (h, tt)
        | inr e ↦
            rw e
              (store_timeout_step-Keeps r (find_release_step r.steps write.step_code) write now w h)
      ]

  pub apply_timeout_step_write-Keeps :
      (k : ℕ) (write : StepWrite) (now : ℕ) (w : World)
      → StatusAt id s w
      → Keeps (StatusAt id s) (Any id s) (apply_timeout_step_write k write now w)
  unfolding apply_timeout_step_write
  apply_timeout_step_write-Keeps k write now w h =
      Keeps-bind (StatusAt id s) (Agrees id s) (Any id s) (load_release k w) _
        (load_release-Keeps id s k w h)
        (λ r agrees w' h'. write_timeout_step-Keeps r write now w' h')

  apply_writes-Keeps :
      (k : ℕ) (status : LifecycleStatus) (current : Text) (writes : List StepWrite) (now : ℕ)
      (w : World)
      → StatusAt id s w
      → Keeps (StatusAt id s) (Any id s) (apply_writes k status current writes now w)
  unfolding apply_writes
  apply_writes-Keeps k status current [] now w h = (h, tt)
  apply_writes-Keeps k status current (write ∷ writes) now w h =
      Keeps-bind (StatusAt id s) (Any id s) (Any id s) _ _
        (apply_timeout_step_write-Keeps k _ now w h)
        (λ _ _ w' h'. apply_writes-Keeps k status current writes now w' h')

  remediate-Keeps :
      (k : ℕ) (state : ReleaseControlState) (current : Text) (now : ℕ) (w : World)
      → StatusAt id s w
      → Keeps (StatusAt id s) (Any id s) (remediate k state current now w)
  unfolding remediate
  remediate-Keeps k state current now w h =
      elim (Bool-cases
        (needs_remediation (assess_remediation_need state current (codes "Cancel")).kind)) [
          | inl e ↦ rw e (write_remediation-Keeps id s k _ _ now w h)
          | inr e ↦ rw e (h, tt)
        ]

  remediate_failed-Keeps :
      (status : LifecycleStatus) (k : ℕ) (state : ReleaseControlState) (current : Text) (now : ℕ)
      (w : World)
      → StatusAt id s w
      → Keeps (StatusAt id s) (Any id s) (remediate_failed status k state current now w)
  remediate_failed-Keeps LifecycleStatus.failed k state current now w h =
      remediate-Keeps k state current now w h
  remediate_failed-Keeps _ k state current now w h = (h, tt)

  update_to-Keeps :
      (o : Option ReleaseStatus) (k now : ℕ) (w : World)
      → StatusAt id s w
      → Keeps (StatusAt id s) (Any id s) (update_to o k now w)
  update_to-Keeps none k now w h = (h, tt)
  update_to-Keeps (some status) k now w h = update_status-Keeps id s final k status now w h

  carry_out-Keeps :
      (r : Release) (state : ReleaseControlState) (d : TransitionDecision)
      (o : Option ReleaseControlState) (now : ℕ) (w : World)
      → StatusAt id s w
      → Keeps (StatusAt id s) (Any id s) (carry_out r state d o now w)
  unfolding carry_out
  carry_out-Keeps r state d none now w h = (h, tt)
  carry_out-Keeps r state d (some next) now w h = elim (Bool-cases d.state_changed) [
    | inl e ↦ rw e (
        Keeps-bind (StatusAt id s) (Any id s) (Any id s) _ _
          (apply_writes-Keeps r.id state.lifecycle_status _ d.step_writes now w h)
          (λ _ _ w' h'.
            Keeps-bind (StatusAt id s) (Any id s) (Any id s) _ _
              (remediate_failed-Keeps next.lifecycle_status r.id state _ now w' h')
              (λ _ _ v g.
                Keeps-bind (StatusAt id s) (Any id s) (Any id s) _ _
                  (update_to-Keeps (compat_release_status next) r.id now v g)
                  (λ _ _ v' g'. (g', tt)))))
    | inr e ↦ rw e (h, tt)
  ]

  process_state-Keeps :
      (r : Release) (o : Option ReleaseControlState) (now : ℕ) (w : World)
      → StatusAt id s w
      → Keeps (StatusAt id s) (Any id s) (process_state r o now w)
  unfolding process_state
  process_state-Keeps r none now w h = (h, tt)
  process_state-Keeps r (some state) now w h = carry_out-Keeps r state _ _ now w h

  process_timeout-Keeps :
      (r : Release) (now : ℕ) (w : World)
      → StatusAt id s w
      → Keeps (StatusAt id s) (Any id s) (process_timeout r now w)
  unfolding process_timeout
  process_timeout-Keeps r now w h =
      process_state-Keeps r (compat_control_state_from_release r) now w h

  process_all-Keeps :
      (releases : List Release) (processed now : ℕ) (w : World)
      → StatusAt id s w
      → Keeps (StatusAt id s) (Any id s) (process_all releases processed now w)
  unfolding process_all
  process_all-Keeps [] processed now w h = (h, tt)
  process_all-Keeps (r ∷ releases) processed now w h =
      Keeps-bind (StatusAt id s) (Any id s) (Any id s) _ _ (process_timeout-Keeps r now w h)
        (λ handled _ w' h'. process_all-Keeps releases (count_handled handled processed) now w' h')

  pub process_timeouts-Keeps :
      (now : ℕ) (w : World)
      → StatusAt id s w
      → Keeps (StatusAt id s) (Any id s) (process_timeouts now w)
  unfolding process_timeouts
  process_timeouts-Keeps now w h =
      Keeps-bind (StatusAt id s) (Any id s) (Any id s) _ _ (list-Keeps id s is_live w h)
        (λ releases _ w' h'. process_all-Keeps releases 0 now w' h')
