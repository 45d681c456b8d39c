-- ===== src/Api/Types.antt =====
-- api/v1alpha1/worker_types.go and temporalconnection_types.go. A pointer field is an `Option`.
-- Times and durations are integers of nanoseconds.
use temporal_worker_controll.Base.{ℤ, Text, Float32, Option, List, Bool}
use temporal_worker_controll.Api.Cluster.{PodTemplateSpec, KeySelector, ObjectReference}

pub record WorkerOptions : Type 0 where
  pub temporal_connection_ref : Text
  pub temporal_namespace : Text
  pub unsafe_custom_build_id : Text

pub data DefaultVersionUpdateStrategy : Type 0 where
  manual all_at_once progressive : DefaultVersionUpdateStrategy

pub record GateInputSource : Type 0 where
  pub config_map_key_ref : Option KeySelector
  pub secret_key_ref : Option KeySelector

-- `input` is the raw JSON.
pub record GateWorkflowConfig : Type 0 where
  pub workflow_type : Text
  pub input : Option Text
  pub input_from : Option GateInputSource

pub record RolloutStep : Type 0 where
  pub ramp_percentage : ℤ
  pub pause_duration : ℤ

pub record RolloutStrategy : Type 0 where
  pub strategy : DefaultVersionUpdateStrategy
  pub gate : Option GateWorkflowConfig
  pub steps : List RolloutStep

pub record SunsetStrategy : Type 0 where
  pub scaledown_delay : Option ℤ
  pub delete_delay : Option ℤ

pub record TemporalWorkerDeploymentSpec : Type 0 where
  pub replicas : Option ℤ
  pub template : PodTemplateSpec
  pub min_ready_seconds : ℤ
  pub progress_deadline_seconds : Option ℤ
  pub rollout_strategy : RolloutStrategy
  pub sunset_strategy : SunsetStrategy
  pub worker_options : WorkerOptions

pub data VersionStatus : Type 0 where
  not_registered inactive ramping current draining drained : VersionStatus

pub data WorkflowExecutionStatus : Type 0 where
  running completed failed canceled terminated timed_out : WorkflowExecutionStatus

pub record WorkflowExecution : Type 0 where
  pub workflow_id : Text
  pub run_id : Text
  pub status : WorkflowExecutionStatus
  pub task_queue : Text

-- A `TaskQueue` is its name.
pub record TaskQueue : Type 0 where
  pub name : Text

pub record BaseWorkerDeploymentVersion : Type 0 where
  pub build_id : Text
  pub status : VersionStatus
  pub healthy_since : Option ℤ
  pub deployment : Option ObjectReference
  pub task_queues : List TaskQueue
  pub managed_by : Text

pub record CurrentWorkerDeploymentVersion : Type 0 where
  pub base : BaseWorkerDeploymentVersion
  pub open base use *

pub record TargetWorkerDeploymentVersion : Type 0 where
  pub base : BaseWorkerDeploymentVersion
  pub open base use *
  pub test_workflows : List WorkflowExecution
  pub ramp_percentage : Option Float32
  pub ramping_since : Option ℤ
  pub ramp_last_modified_at : Option ℤ

pub record DeprecatedWorkerDeploymentVersion : Type 0 where
  pub base : BaseWorkerDeploymentVersion
  pub open base use *
  pub drained_since : Option ℤ
  pub eligible_for_deletion : Bool

pub record TemporalWorkerDeploymentStatus : Type 0 where
  pub target_version : TargetWorkerDeploymentVersion
  pub current_version : Option CurrentWorkerDeploymentVersion
  pub deprecated_versions : List DeprecatedWorkerDeploymentVersion
  pub version_conflict_token : Text
  pub last_modifier_identity : Text
  pub version_count : ℤ

-- The object's metadata: only what the controller reads of it.
pub record ObjectMeta : Type 0 where
  pub name : Text
  pub namespace : Text
  pub uid : Text

pub record TypeMeta : Type 0 where
  pub api_version : Text
  pub kind : Text

pub record TemporalWorkerDeployment : Type 0 where
  pub type_meta : TypeMeta
  pub object_meta : ObjectMeta
  pub spec : TemporalWorkerDeploymentSpec
  pub status : TemporalWorkerDeploymentStatus

-- `mutual_tls_secret_ref` is the name of the secret.
pub record TemporalConnectionSpec : Type 0 where
  pub host_port : Text
  pub mutual_tls_secret_ref : Option Text
  pub api_key_secret_ref : Option KeySelector

-- The comparisons `==` of the string types.
abbrev pub is_manual : DefaultVersionUpdateStrategy → Bool
is_manual DefaultVersionUpdateStrategy.manual = Bool.true
is_manual _ = Bool.false

abbrev pub is_progressive : DefaultVersionUpdateStrategy → Bool
is_progressive DefaultVersionUpdateStrategy.progressive = Bool.true
is_progressive _ = Bool.false

abbrev pub is_not_registered : VersionStatus → Bool
is_not_registered VersionStatus.not_registered = Bool.true
is_not_registered _ = Bool.false

abbrev pub is_inactive : VersionStatus → Bool
is_inactive VersionStatus.inactive = Bool.true
is_inactive _ = Bool.false

abbrev pub is_ramping : VersionStatus → Bool
is_ramping VersionStatus.ramping = Bool.true
is_ramping _ = Bool.false

abbrev pub is_drained : VersionStatus → Bool
is_drained VersionStatus.drained = Bool.true
is_drained _ = Bool.false

abbrev pub is_completed : WorkflowExecutionStatus → Bool
is_completed WorkflowExecutionStatus.completed = Bool.true
is_completed _ = Bool.false
