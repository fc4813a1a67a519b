-- ===== src/Release/Types.antt =====
-- internal/release/domain/types.go, base.go and the records of release.go.
use devflow_service.Base.{List, Option, if◌then◌else◌, ℕ, ℕ_discrete, ℤ, ◌||◌}
use devflow_service.Text.{Text, codes, text_eq, to_lower, trim_space}

-- A Go type `type T string` with constants is a data type with those constants; `other` stands for
-- any string that is none of them, and `unset` for the empty string.
-- A UUID is a number, 0 for `uuid.Nil`; an instant is a number of nanoseconds.
-- Fields that no operation reads are left out: json tags, and `BundleSummary`, which is no column
-- and is attached for the reader of an answer only.
pub data ReleaseType : Type 0 where
  normal canary blue_green : ReleaseType

pub data StepStatus : Type 0 where
  unset pending running succeeded failed : StepStatus
  other : Text → StepStatus

pub data ManifestStatus : Type 0 where
  pending running available unavailable : ManifestStatus
  other : Text → ManifestStatus

pub data ReleaseStatus : Type 0 where
  unset pending running succeeded failed rolling_back rolled_back : ReleaseStatus
  syncing sync_failed : ReleaseStatus
  other : Text → ReleaseStatus

pub ReleaseStatus-discrete : Discrete ReleaseStatus
ReleaseStatus-discrete = hlevel ℕ_discrete

pub StepStatus-discrete : Discrete StepStatus
StepStatus-discrete = hlevel ℕ_discrete

abbrev release_install : Text
release_install = codes "Install"

abbrev pub release_upgrade : Text
release_upgrade = codes "Upgrade"

abbrev pub release_rollback : Text
release_rollback = codes "Rollback"

pub record ReleaseStep : Type 0 where
  pub code : Text
  pub name : Text
  pub progress : ℤ
  pub status : StepStatus
  pub message : Text
  pub start_time : Option ℕ
  pub end_time : Option ℕ

pub record ReleaseRoute : Type 0 where
  pub id : Text
  pub name : Text
  pub host : Text
  pub path : Text
  pub service_name : Text
  pub service_port : ℕ

pub record ReleaseFile : Type 0 where
  pub name : Text
  pub content : Text

pub record ReleaseAppConfig : Type 0 where
  pub id : Text
  pub mount_path : Text
  pub files : List ReleaseFile
  pub source_directory : Text
  pub revision_id : Text
  pub source_commit : Text

pub record Release : Type 0 where
  pub id : ℕ
  pub created_at : ℕ
  pub updated_at : ℕ
  pub deleted_at : Option ℕ
  pub execution_intent_id : Option ℕ
  pub application_id : ℕ
  pub manifest_id : ℕ
  pub environment_id : Text
  pub strategy : Text
  pub routes_snapshot : List ReleaseRoute
  pub app_config_snapshot : ReleaseAppConfig
  pub artifact_repository : Text
  pub artifact_tag : Text
  pub artifact_digest : Text
  pub artifact_ref : Text
  pub rollback_source_release_id : Option ℕ
  pub rollback_target_artifact_repository : Text
  pub rollback_target_artifact_tag : Text
  pub rollback_target_artifact_digest : Text
  pub rollback_target_artifact_ref : Text
  pub action : Text
  pub steps : List ReleaseStep
  pub status : ReleaseStatus
  pub remediation_status : Text
  pub remediation_reason : Text
  pub argocd_application_name : Text
  pub external_ref : Text

-- `NormalizeReleaseAction`.
unfoldable pub normalize_release_action : Text → Text
normalize_release_action value =
    let v = to_lower (trim_space value) in
    if text_eq v (codes "")
      || text_eq v (codes "deploy")
      || text_eq v (codes "upgrade")
      || text_eq v (codes "normal")
    then release_upgrade
    else if text_eq v (codes "install")
    then release_install
    else if text_eq v (codes "rollback")
    then release_rollback
    else trim_space value

abbrev strategy_rolling : Text
strategy_rolling = codes "rolling"

abbrev pub strategy_blue_green : Text
strategy_blue_green = codes "blueGreen"

abbrev pub strategy_canary : Text
strategy_canary = codes "canary"

-- `NormalizeReleaseStrategy`.
unfoldable pub normalize_release_strategy : Text → Text
normalize_release_strategy value =
    if text_eq value (codes "blue-green")
    then strategy_blue_green
    else if text_eq value strategy_blue_green || text_eq value strategy_canary
    then value
    else if text_eq value (codes "") || text_eq value strategy_rolling
    then strategy_rolling
    else value

-- `ReleaseStrategyToType`.
unfoldable pub release_strategy_to_type : Text → ReleaseType
unfolding normalize_release_strategy
release_strategy_to_type value =
    let strategy = normalize_release_strategy value in
    if text_eq strategy strategy_canary
    then canary
    else if text_eq strategy strategy_blue_green
    then blue_green
    else normal
