-- ===== src/Control/Remediation/Laws.antt =====
-- AssessRemediationNeed of internal/release/domain/control_remediation.go along the steps of
-- DefaultReleaseSteps.
use devflow_service.Base.{List, [], arith, map, ℕ, ◌∷◌, ◌≡◌, ◌≤◌}
use devflow_service.Control.Remediation.{
  RemediationKind, assess_by_strategy, assess_remediation_need, cleanup_only, pending_rollback,
}
use devflow_service.Control.State.{ReleaseControlState, ReleaseStrategy, rolling}
use devflow_service.Release.Steps.{default_release_steps}
use devflow_service.Release.Types.{ReleaseStep, ReleaseType, normal}
use devflow_service.Text.{Text, text_eq, trim_space}

-- How much has to be undone.
abbrev severity : RemediationKind → ℕ
severity cleanup_only = 1
severity pending_rollback = 2
severity _ = 0

abbrev strategy_of : ReleaseType → ReleaseStrategy
strategy_of normal = rolling
strategy_of ReleaseType.canary = ReleaseStrategy.canary
strategy_of ReleaseType.blue_green = ReleaseStrategy.blue_green

abbrev pub Ascending : List ℕ → Type 0
Ascending [] = Unit
Ascending (a ∷ []) = Unit
Ascending (a ∷ b ∷ rest) = (a ≤ b) × Ascending (b ∷ rest)

-- The remediation that a failure at each step of a release asks for, in the order of the steps.
abbrev pub severities : ReleaseControlState → Text → List ReleaseStep → List ℕ
severities s operation steps =
    map (λ (step : ReleaseStep). severity (assess_remediation_need s step.code operation).kind)
      steps

-- The later a release fails, the more has to be undone: along the default steps of its type the
-- remediation never becomes lighter.
pub remediation_escalates :
    (t : ReleaseType) (s : ReleaseControlState) (operation release_action : Text)
    → s.strategy ≡ strategy_of t
    → Ascending (severities s operation (default_release_steps t release_action))
unfolding assess_remediation_need default_release_steps text_eq trim_space assess_by_strategy
remediation_escalates normal s operation release_action e = rw e (ground arith)
remediation_escalates ReleaseType.canary s operation release_action e = rw e (ground arith)
remediation_escalates ReleaseType.blue_green s operation release_action e = rw e (ground arith)
