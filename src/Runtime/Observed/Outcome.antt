-- ===== src/Runtime/Observed/Outcome.antt =====
-- What the report of a Deployment comes to, after the rolling controller.
use mathlib.Core.Option
use devflow_service.Base.{
  Bool-cases, Option, [], arith, false, if◌then◌else◌, inl, inr, none, refl, some, subst, sym, ℕ,
  ◌∙◌, ◌∷◌, ◌≡◌, ◌≢◌,
}
use devflow_service.Control.Engine.{EngineResult, apply_observation}
use devflow_service.Control.Rolling.{evaluate_rolling}
use devflow_service.Control.Rolling.Laws.{rolling_engine, rolling_outcome}
use devflow_service.Release.Types.{StepStatus}
use devflow_service.Runtime.Observed.{
  NormalizedReleaseObservedState, workload_kind_of, workload_name_of, workload_namespace_of,
  write_of,
}
use devflow_service.Runtime.Observed.Deployments.{
  Deployment, DeploymentReport, deployment_failed, deployment_healthy, derive_deployment_state,
  generation_observed, observation_of, present_report,
}
use devflow_service.Runtime.Observed.Normalize.{
  deployment_from_observed_workload, deployment_with, normalize_deployment, normalize_for_reconcile,
  normalize_observed, normalized_of, running_state, take_result, take_writes, with_engine,
}
use devflow_service.Runtime.Types.{RuntimeObservedWorkload}
use devflow_service.Text.{Text, codes, equal_fold, text_eq, trim_space}

-- What a normalised state says: one write to `observe_rollout` with the phase, the progress and
-- the message of the state, and the write that ends the release.
abbrev pub Says : NormalizedReleaseObservedState → StepStatus → ℕ → Option StepStatus → Type 0
Says state phase progress final =
    (state.phase ≡ phase)
    × (state.progress ≡ progress)
    × (state.step_writes ≡ write_of (codes "observe_rollout") phase progress state.message ∷ [])
    × (Option.map (λ w. w.status) state.finalize_state ≡ final)

-- What the controller makes of a report, by the phase of the report.
abbrev pub end_of : StepStatus → Option StepStatus
end_of StepStatus.succeeded = some StepStatus.succeeded
end_of StepStatus.failed = some StepStatus.failed
end_of _ = none

abbrev pub progress_of : StepStatus → ℕ
progress_of StepStatus.running = 25
progress_of _ = 100

-- The phases that a report has.
abbrev IsReported : StepStatus → Type 0
IsReported StepStatus.running = Unit
IsReported StepStatus.succeeded = Unit
IsReported StepStatus.failed = Unit
IsReported _ = ⊥

decided :
    (phase : StepStatus) (progress : ℕ) (message key : Text) (now : ℕ)
    → IsReported phase
    → Says
        (take_result
          (EngineResult.ok
            (evaluate_rolling (running_state now) (observation_of phase message now)))
          (normalized_of
            (record { phase = phase; message = message; progress = progress; state_key = key })))
        phase
        (progress_of phase)
        (end_of phase)
unfolding evaluate_rolling take_writes text_eq
decided StepStatus.running progress message key now h = (refl, refl, refl, refl)
decided StepStatus.succeeded progress message key now h = (refl, refl, refl, refl)
decided StepStatus.failed progress message key now h = (refl, refl, refl, refl)
decided _ progress message key now h = absurd h

engine_decides :
    (phase : StepStatus) (message : Text) (now : ℕ)
    → IsReported phase
    → apply_observation rolling_engine (running_state now) (observation_of phase message now)
      ≡ EngineResult.ok (evaluate_rolling (running_state now) (observation_of phase message now))
engine_decides StepStatus.running message now h =
    rolling_outcome (running_state now) (observation_of StepStatus.running message now) refl
engine_decides StepStatus.succeeded message now h =
    rolling_outcome (running_state now) (observation_of StepStatus.succeeded message now) refl
engine_decides StepStatus.failed message now h =
    rolling_outcome (running_state now) (observation_of StepStatus.failed message now) refl
engine_decides _ message now h = absurd h

with_engine-Says :
    (reported : DeploymentReport) (now : ℕ)
    → IsReported reported.phase
    → Says
        (with_engine (normalized_of reported) now)
        reported.phase
        (progress_of reported.phase)
        (end_of reported.phase)
unfolding with_engine
with_engine-Says reported now h =
    rw (with_engine, engine_decides reported.phase reported.message now h)
      (decided reported.phase reported.progress reported.message reported.state_key now h)

-- The phase that the counts and the conditions of a Deployment call for.
abbrev pub phase_of : Deployment → StepStatus
phase_of d =
    if deployment_failed d
    then StepStatus.failed
    else if deployment_healthy d
    then StepStatus.succeeded
    else StepStatus.running

phase_of-IsReported : (d : Deployment) → IsReported (phase_of d)
phase_of-IsReported d = elim (Bool-cases (deployment_failed d)) [
  | inl e ↦ rw e tt
  | inr e ↦ elim (Bool-cases (deployment_healthy d)) [ inl p ↦ rw (e, p) tt | inr p ↦ rw (e, p) tt ]
]

present_report-phase : (d : Deployment) → (present_report d).phase ≡ phase_of d
present_report-phase d = ground arith

-- A Deployment that exceeded its deadline or could not make replicas fails `observe_rollout` and
-- the release; one that is observed at its generation with all replicas updated, ready and
-- available, and none unavailable, ends both well; any other one leaves `observe_rollout` running
-- at 25 percent, whatever its counts, and the release open.
pub deployment_outcome :
    (namespace name : Text) (d : Deployment) (now : ℕ)
    → Says
        (normalize_deployment namespace name (some d) now)
        (phase_of d)
        (progress_of (phase_of d))
        (end_of (phase_of d))
unfolding normalize_deployment derive_deployment_state
deployment_outcome namespace name d now =
    let same = present_report-phase d in
    subst
      (λ phase.
        Says (normalize_deployment namespace name (some d) now) phase (progress_of phase)
          (end_of phase))
      same
      (with_engine-Says (present_report d) now
        (subst IsReported (sym same) (phase_of-IsReported d)))

unobserved : (w : RuntimeObservedWorkload) → deployment_healthy (deployment_with 0 w) ≡ false
unfolding deployment_healthy generation_observed
unobserved w = ground arith

not_succeeded : (d : Deployment) → deployment_healthy d ≡ false → phase_of d ≢ StepStatus.succeeded
not_succeeded d e h = elim (Bool-cases (deployment_failed d)) [
  | inl f ↦ absurd (cc)
  | inr f ↦ absurd (cc)
]

-- A workload that is neither a Rollout nor a Deployment, such as a StatefulSet, never ends its
-- release well, however many of its replicas are ready: the object that the code makes of it has
-- no generation.
pub other_workload_never_succeeds :
    (w : RuntimeObservedWorkload) (now : ℕ)
    → equal_fold (trim_space w.workload_kind) (codes "deployment") ≡ false
    → equal_fold (trim_space (trim_space w.workload_kind)) (codes "rollout") ≡ false
    → (normalize_for_reconcile w now).phase ≢ StepStatus.succeeded
unfolding normalize_for_reconcile normalize_observed deployment_from_observed_workload
    workload_kind_of
other_workload_never_succeeds w now e k h =
    let says =
      deployment_outcome (workload_namespace_of (some w)) (workload_name_of (some w))
        (deployment_with 0 w) now in
    not_succeeded (deployment_with 0 w) (unobserved w) (sym says.0 ∙ rw (e, k) at h)
