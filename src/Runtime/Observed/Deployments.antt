-- ===== src/Runtime/Observed/Deployments.antt =====
-- What a Deployment reports, of internal/runtime/reconcile/release_observed_state.go, and
-- observation_mapper.go of that folder.
use devflow_service.Base.{
  Bool, List, Option, [], false, if◌then◌else◌, leb, ltb, map, none, some, true, ℕ, ◌&&◌, ◌*◌, ◌++◌,
  ◌/◌, ◌==◌, ◌||◌, ◌∷◌,
}
use devflow_service.Control.State.{RuntimeObservation}
use devflow_service.Release.Types.{StepStatus}
use devflow_service.Runtime.Observed.{as_int32, first_non_empty, raised}
use devflow_service.Runtime.Types.{RuntimeObservedWorkloadCondition}
use devflow_service.Text.{Text, codes, text_eq, trim_space}
use devflow_service.Text.Format.{bool_text, digits}

-- What the code reads of an `appsv1.Deployment`. A count is an `int32` that is not negative.
pub record DeploymentCondition : Type 0 where
  pub type : Text
  pub status : Text
  pub reason : Text
  pub message : Text

pub record Deployment : Type 0 where
  pub generation : ℕ
  pub replicas : Option ℕ
  pub observed_generation : ℕ
  pub updated_replicas : ℕ
  pub ready_replicas : ℕ
  pub available_replicas : ℕ
  pub unavailable_replicas : ℕ
  pub conditions : List DeploymentCondition

-- `deploymentConditionsFromObservedWorkload`, and `deploymentConditionsForReconcile` of
-- release_reconciler.go.
unfoldable pub conditions_from : List RuntimeObservedWorkloadCondition → List DeploymentCondition
unfolding trim_space
conditions_from = map λ condition. record {
  type = trim_space condition.type;
  status = trim_space condition.status;
  reason = trim_space condition.reason;
  message = trim_space condition.message;
}

-- `deploymentConditionSummary`: the reason and the status of the first condition of a type.
unfoldable pub condition_summary : Text → List DeploymentCondition → Text × Text
unfolding trim_space text_eq
condition_summary type [] = ([], [])
condition_summary type (condition ∷ conditions) =
    let rest = condition_summary type conditions in
    if text_eq condition.type type then (trim_space condition.reason, condition.status) else rest

abbrev pub desired_of : Deployment → ℕ
desired_of d = elim d.replicas [ none ↦ 0 | some n ↦ n ]

unfoldable pub generation_observed : Deployment → Bool
generation_observed d = ltb 0 d.generation && leb d.generation d.observed_generation

-- The test of the branch that fails.
unfoldable pub deployment_failed : Deployment → Bool
unfolding condition_summary text_eq
deployment_failed d =
    text_eq (condition_summary (codes "Progressing") d.conditions).0
      (codes "ProgressDeadlineExceeded")
    || text_eq (condition_summary (codes "ReplicaFailure") d.conditions).1 (codes "True")

-- The test of the branch that succeeds.
unfoldable pub deployment_healthy : Deployment → Bool
unfolding generation_observed
deployment_healthy d =
    ltb 0 (desired_of d)
    && generation_observed d
    && leb (desired_of d) d.updated_replicas
    && leb (desired_of d) d.ready_replicas
    && leb (desired_of d) d.available_replicas
    && d.unavailable_replicas == 0

abbrev ratio : ℕ → ℕ → Text
ratio count desired = digits count ++ codes "/" ++ digits desired

abbrev failed_message : Deployment → Text
failed_message d =
    codes "deployment failed (progressing_reason="
    ++ first_non_empty
        ((condition_summary (codes "Progressing") d.conditions).0 ∷ codes "unknown" ∷ [])
    ++ codes ", replica_failure_reason="
    ++ first_non_empty
        ((condition_summary (codes "ReplicaFailure") d.conditions).0 ∷ codes "unknown" ∷ [])
    ++ codes ", ready="
    ++ ratio d.ready_replicas (desired_of d)
    ++ codes ", updated="
    ++ ratio d.updated_replicas (desired_of d)
    ++ codes ")"

abbrev counts_message : Deployment → Text
counts_message d =
    codes "(ready="
    ++ ratio d.ready_replicas (desired_of d)
    ++ codes ", updated="
    ++ ratio d.updated_replicas (desired_of d)
    ++ codes ", available="
    ++ ratio d.available_replicas (desired_of d)

abbrev progressing_message : Deployment → Text
progressing_message d =
    codes "deployment progressing "
    ++ counts_message d
    ++ codes ", unavailable="
    ++ digits d.unavailable_replicas
    ++ codes ", observed_generation="
    ++ bool_text (generation_observed d)
    ++ codes ", progressing_status="
    ++ first_non_empty
        ((condition_summary (codes "Progressing") d.conditions).1 ∷ codes "Unknown" ∷ [])
    ++ codes ")"

abbrev counts_key : Deployment → Text
counts_key d =
    digits (desired_of d)
    ++ codes "|"
    ++ digits d.updated_replicas
    ++ codes "|"
    ++ digits d.ready_replicas
    ++ codes "|"
    ++ digits d.available_replicas

-- `available` and `desired` are of type `int` here, so only the conversion can wrap around.
abbrev deployment_progress : Deployment → ℕ
deployment_progress d =
    if ltb 0 (desired_of d)
    then raised 25 (as_int32 (d.available_replicas * 100 / desired_of d))
    else raised 25 none

pub record DeploymentReport : Type 0 where
  pub phase : StepStatus
  pub message : Text
  pub progress : ℕ
  pub state_key : Text

abbrev pub present_report : Deployment → DeploymentReport
present_report d =
    if deployment_failed d
    then record {
      phase = StepStatus.failed;
      message = failed_message d;
      progress = 100;
      state_key =
          codes "failed|"
          ++ (condition_summary (codes "Progressing") d.conditions).0
          ++ codes "|"
          ++ (condition_summary (codes "ReplicaFailure") d.conditions).0;
    }
    else if deployment_healthy d
    then record {
      phase = StepStatus.succeeded;
      message = codes "deployment healthy " ++ counts_message d ++ codes ")";
      progress = 100;
      state_key = codes "succeeded|" ++ counts_key d;
    }
    else record {
      phase = StepStatus.running;
      message = progressing_message d;
      progress = deployment_progress d;
      state_key =
          codes "running|"
          ++ counts_key d
          ++ codes "|"
          ++ digits d.unavailable_replicas
          ++ codes "|"
          ++ bool_text (generation_observed d)
          ++ codes "|"
          ++ (condition_summary (codes "Progressing") d.conditions).1
          ++ codes "|"
          ++ (condition_summary (codes "Progressing") d.conditions).0;
    }

-- `deriveReleaseObservedDeploymentState`.
unfoldable pub derive_deployment_state : Text → Text → Option Deployment → DeploymentReport
unfolding deployment_failed deployment_healthy first_non_empty condition_summary digits
    generation_observed
derive_deployment_state namespace app_name none = record {
  phase = StepStatus.running;
  message =
      codes "waiting for deployment "
      ++ first_non_empty (app_name ∷ codes "application" ∷ [])
      ++ codes " in namespace "
      ++ first_non_empty (namespace ∷ codes "unknown" ∷ []);
  progress = 10;
  state_key = codes "missing";
}
derive_deployment_state namespace app_name (some d) = present_report d

abbrev flagged : Bool → Bool → Bool → Text → ℕ → RuntimeObservation
flagged healthy degraded progressing message now = record {
  healthy = healthy;
  progressing = progressing;
  degraded = degraded;
  terminal = healthy || degraded;
  message = message;
  observed_at = now;
}

-- `MapNormalizedDeploymentStateToRuntimeObservation`, on the phase and the message of the state.
abbrev pub observation_of : StepStatus → Text → ℕ → RuntimeObservation
observation_of StepStatus.succeeded message now = flagged true false false message now
observation_of StepStatus.failed message now = flagged false true false message now
observation_of StepStatus.running message now = flagged false false true message now
observation_of _ message now = flagged false false false message now
