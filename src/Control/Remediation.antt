-- ===== src/Control/Remediation.antt =====
-- control_remediation.go.
pub mod Laws
use devflow_service.Base.{
  Bool, List, Option, [], false, if◌then◌else◌, none, some, true, ◌&&◌, ◌||◌, ◌∷◌,
}
use devflow_service.Control.Lifecycle.{LifecycleStatus, finalizing, paused, running}
use devflow_service.Control.Operation.{ReleaseOperation, cancel, normalize_release_operation}
use devflow_service.Control.State.{ReleaseControlState, ReleaseStrategy, rolling}
use devflow_service.Text.{Text, codes, text_eq, trim_space}

pub data RemediationKind : Type 0 where
  no_remediation not_required cleanup_only pending_rollback : RemediationKind
  rolling_back rollback_failed rollback_done : RemediationKind

pub record RemediationDecision : Type 0 where
  pub kind : RemediationKind
  pub reason : Text

abbrev pub one_of : Text → List Text → Bool
one_of step [] = false
one_of step (code ∷ list) = text_eq step code || one_of step list

-- The steps after which the live runtime may have changed.
abbrev live_steps : List Text
live_steps =
    codes "observe_rollout"
    ∷ codes "finalize_release"
    ∷ codes "observe_preview"
    ∷ codes "switch_traffic"
    ∷ codes "verify_active"
    ∷ codes "deploy_canary"
    ∷ codes "canary_10"
    ∷ codes "canary_30"
    ∷ codes "canary_60"
    ∷ codes "canary_100"
    ∷ []

abbrev is_cancel : ReleaseOperation → Bool
is_cancel cancel = true
is_cancel _ = false

abbrev is_active : LifecycleStatus → Bool
is_active running = true
is_active paused = true
is_active finalizing = true
is_active _ = false

-- `assessSharedRuntimeRemediationNeed`.
assess_shared_runtime_remediation_need :
    ReleaseControlState → Text → Text → Option RemediationDecision
assess_shared_runtime_remediation_need state step operation =
    if one_of step live_steps
    then some (record {
      kind = pending_rollback;
      reason = codes "release may have partially or fully affected live runtime state";
    })
    else if is_active state.lifecycle_status && is_cancel (normalize_release_operation operation)
    then some (record {
      kind = pending_rollback;
      reason = codes "canceled release may have active runtime changes";
    })
    else none

abbrev preparation_steps : List Text
preparation_steps =
    codes "freeze_inputs"
    ∷ codes "ensure_namespace"
    ∷ codes "ensure_pull_secret"
    ∷ codes "ensure_appproject_destination"
    ∷ codes "render_deployment_bundle"
    ∷ codes "publish_bundle"
    ∷ []

abbrev handoff_steps : List Text
handoff_steps = codes "create_argocd_application" ∷ codes "start_deployment" ∷ []

-- `assessRollingRemediationNeed`.
assess_rolling_remediation_need : Text → RemediationDecision
assess_rolling_remediation_need step =
    if one_of step preparation_steps
    then record { kind = not_required; reason = codes "release did not reach runtime activation" }
    else if one_of step handoff_steps
    then record {
      kind = cleanup_only;
      reason = codes "release reached handoff preparation but did not require runtime rollback";
    }
    else if one_of step (codes "observe_rollout" ∷ codes "finalize_release" ∷ [])
    then record {
      kind = pending_rollback;
      reason = codes "release may have partially or fully affected live runtime state";
    }
    else record {
      kind = not_required;
      reason = codes "no rollback remediation required for current release state";
    }

pub assess_by_strategy : ReleaseStrategy → Text → RemediationDecision
unfolding assess_rolling_remediation_need
assess_by_strategy rolling step = assess_rolling_remediation_need step
assess_by_strategy _ step = record {
  kind = not_required;
  reason = codes "release did not reach runtime activation";
}

abbrev or_by_strategy : Option RemediationDecision → ReleaseStrategy → Text → RemediationDecision
or_by_strategy (some decision) strategy step = decision
or_by_strategy none strategy step = assess_by_strategy strategy step

-- `AssessRemediationNeed`.
pub assess_remediation_need : ReleaseControlState → Text → Text → RemediationDecision
unfolding assess_shared_runtime_remediation_need assess_by_strategy
assess_remediation_need state failed_step operation =
    let step = trim_space failed_step in
    or_by_strategy (assess_shared_runtime_remediation_need state step operation) state.strategy step
