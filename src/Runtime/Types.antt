-- ===== src/Runtime/Types.antt =====
-- internal/runtime/domain/runtime_spec.go: the records of the runtime service.
use devflow_service.Base.{Bool, List, Option, ℕ}
use devflow_service.Text.{Text}

-- A map of labels or annotations is an association list.
pub record RuntimeSpec : Type 0 where
  pub id : ℕ
  pub application_id : ℕ
  pub environment : Text
  pub current_revision_id : Option ℕ
  pub created_at : ℕ
  pub updated_at : ℕ

pub record RuntimeSpecRevision : Type 0 where
  pub id : ℕ
  pub runtime_spec_id : ℕ
  pub revision : ℕ
  pub replicas : ℕ
  pub health_thresholds : Text
  pub resources : Text
  pub autoscaling : Text
  pub scheduling : Text
  pub pod_envs : Text
  pub created_by : Text
  pub created_at : ℕ

pub record RuntimeObservedPodContainer : Type 0 where
  pub name : Text
  pub image : Text
  pub image_id : Text
  pub ready : Bool
  pub restart_count : ℕ
  pub state : Text

pub record RuntimeObservedPod : Type 0 where
  pub id : ℕ
  pub runtime_spec_id : ℕ
  pub application_id : ℕ
  pub environment : Text
  pub namespace : Text
  pub pod_name : Text
  pub phase : Text
  pub ready : Bool
  pub restarts : ℕ
  pub node_name : Text
  pub pod_ip : Text
  pub host_ip : Text
  pub owner_kind : Text
  pub owner_name : Text
  pub labels : List (Text × Text)
  pub containers : List RuntimeObservedPodContainer
  pub observed_at : ℕ
  pub deleted_at : Option ℕ

pub record RuntimeObservedWorkloadCondition : Type 0 where
  pub type : Text
  pub status : Text
  pub reason : Text
  pub message : Text
  pub last_transition_time : Option ℕ

pub record RuntimeObservedWorkload : Type 0 where
  pub id : ℕ
  pub runtime_spec_id : ℕ
  pub application_id : ℕ
  pub environment : Text
  pub namespace : Text
  pub workload_kind : Text
  pub workload_name : Text
  pub desired_replicas : ℕ
  pub ready_replicas : ℕ
  pub updated_replicas : ℕ
  pub available_replicas : ℕ
  pub unavailable_replicas : ℕ
  pub observed_generation : ℕ
  pub summary_status : Text
  pub images : List Text
  pub conditions : List RuntimeObservedWorkloadCondition
  pub labels : List (Text × Text)
  pub annotations : List (Text × Text)
  pub observed_at : ℕ
  pub restart_at : Option ℕ
  pub deleted_at : Option ℕ

pub record RuntimeOperation : Type 0 where
  pub id : ℕ
  pub runtime_spec_id : ℕ
  pub operation_type : Text
  pub target_name : Text
  pub target_namespace : Text
  pub application_id : ℕ
  pub environment : Text
  pub convergence_state : Text
  pub operator : Text
  pub created_at : ℕ
