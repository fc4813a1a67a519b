-- ===== src/Tests/Data.antt =====
-- Releases, steps and worlds that the tests share.
use devflow_service.Base.{List, [], false, none, pos, true, ℕ, ◌∷◌}
use devflow_service.Control.Lifecycle.{LifecycleStatus, is_terminal}
use devflow_service.Control.State.{
  ReleaseControlState, RuntimeObservation, no_failure, no_phase, rolling,
}
use devflow_service.Release.Types.{
  Release, ReleaseAppConfig, ReleaseStatus, ReleaseStep, StepStatus,
}
use devflow_service.Service.World.{World}
use devflow_service.Text.{Text, codes}

abbrev pub step_of : Text → StepStatus → ReleaseStep
step_of code status = record {
  code = code;
  name = [];
  progress = pos 0;
  status = status;
  message = [];
  start_time = none;
  end_time = none;
}

abbrev empty_config : ReleaseAppConfig
empty_config = record {
  id = [];
  mount_path = [];
  files = [];
  source_directory = [];
  revision_id = [];
  source_commit = [];
}

abbrev pub release_of : ℕ → ReleaseStatus → List ReleaseStep → Release
release_of id status steps = record {
  id = id;
  created_at = 1;
  updated_at = 1;
  deleted_at = none;
  execution_intent_id = none;
  application_id = 7;
  manifest_id = 8;
  environment_id = codes "staging";
  strategy = codes "rolling";
  routes_snapshot = [];
  app_config_snapshot = empty_config;
  artifact_repository = codes "registry/app";
  artifact_tag = [];
  artifact_digest = [];
  artifact_ref = [];
  rollback_source_release_id = none;
  rollback_target_artifact_repository = [];
  rollback_target_artifact_tag = [];
  rollback_target_artifact_digest = [];
  rollback_target_artifact_ref = [];
  action = codes "Upgrade";
  steps = steps;
  status = status;
  remediation_status = [];
  remediation_reason = [];
  argocd_application_name = [];
  external_ref = [];
}

abbrev pub state_of : LifecycleStatus → ReleaseControlState
state_of status = record {
  lifecycle_status = status;
  strategy = rolling;
  strategy_phase = no_phase;
  failure_reason = no_failure;
  failure_message = [];
  terminal = is_terminal status;
  updated_at = 0;
}

abbrev pub healthy_end : RuntimeObservation
healthy_end = record {
  healthy = true;
  progressing = false;
  degraded = false;
  terminal = true;
  message = codes "rolled out";
  observed_at = 5;
}

abbrev pub syncing_release : Release
syncing_release = release_of 3 ReleaseStatus.syncing []

abbrev pub syncing_world : World
syncing_world = record { rows = syncing_release ∷ []; intents = []; manifests = []; faults = [] }
