-- ===== src/Tests/Releases.antt =====
-- The steps and statuses of releases.
use devflow_service.Base.{List, [], map, refl, ◌∷◌, ◌≡◌}
use devflow_service.Release.Steps.{
  default_release_steps, derive_release_status_from_steps, is_release_terminal_status,
}
use devflow_service.Release.Steps.Canonical.{infer_release_type, normalize_release_steps}
use devflow_service.Release.Steps.Canonical.Idempotent.{normalize_release_steps_idem}
use devflow_service.Release.Steps.Canonical.Laws.{aligned, normalize_release_steps-aligned}
use devflow_service.Release.Steps.Derive.{Summary, derive-Summary}
use devflow_service.Release.Types.{ReleaseStep, running, succeeded, syncing}
use devflow_service.Tests.Data.{step_of}
use devflow_service.Text.{codes}

abbrev two_steps : List ReleaseStep
two_steps =
    step_of (codes "freeze_inputs") succeeded ∷ step_of (codes "observe_rollout") running ∷ []

abbrev two_steps_swapped : List ReleaseStep
two_steps_swapped =
    step_of (codes "observe_rollout") running ∷ step_of (codes "freeze_inputs") succeeded ∷ []

two_steps_run : derive_release_status_from_steps (codes "Upgrade") syncing two_steps ≡ running
unfolding derive_release_status_from_steps
two_steps_run = refl

derive-Summary_example :
    derive_release_status_from_steps (codes "Upgrade") syncing two_steps
    ≡ Summary (codes "Upgrade") syncing two_steps
unfolding is_release_terminal_status
derive-Summary_example = derive-Summary (codes "Upgrade") syncing two_steps refl (λ e. cc)

normalize_release_steps-aligned_example :
    normalize_release_steps (codes "canary") (codes "Upgrade") two_steps
    ≡ map
        (aligned two_steps)
        (default_release_steps (infer_release_type (codes "canary") two_steps) (codes "Upgrade"))
normalize_release_steps-aligned_example =
    normalize_release_steps-aligned (codes "canary") (codes "Upgrade") two_steps

normalize_release_steps_idem_example :
    normalize_release_steps
      (codes "rolling")
      (codes "Upgrade")
      (normalize_release_steps (codes "rolling") (codes "Upgrade") two_steps)
    ≡ normalize_release_steps (codes "rolling") (codes "Upgrade") two_steps
normalize_release_steps_idem_example =
    normalize_release_steps_idem (codes "rolling") (codes "Upgrade") two_steps
