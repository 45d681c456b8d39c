-- ===== src/Api/Cluster.antt =====
-- The Kubernetes objects that the controller reads and writes, with the fields that it touches.
-- `rest` holds the other fields of an object, which the controller copies and never looks at.
use temporal_worker_controll.Base.{ℤ, Text, StringMap, Option, List, Bool}

-- `*corev1.SecretKeySelector` and `*corev1.ConfigMapKeySelector`
pub record KeySelector : Type 0 where
  pub name : Text
  pub key : Text

pub record EnvVar : Type 0 where
  pub name : Text
  pub value : Text
  pub secret_key_ref : Option KeySelector

pub record VolumeMount : Type 0 where
  pub name : Text
  pub mount_path : Text

pub record Container : Type 0 where
  pub name : Text
  pub image : Text
  pub env : List EnvVar
  pub volume_mounts : List VolumeMount
  pub rest : Text

-- `secret_name` is the name in the volume's `Secret` source, if it has one.
pub record Volume : Type 0 where
  pub name : Text
  pub secret_name : Option Text
  pub rest : Text

pub record PodSpec : Type 0 where
  pub containers : List Container
  pub volumes : List Volume
  pub rest : Text

pub record PodTemplateSpec : Type 0 where
  pub labels : Option (StringMap Text)
  pub annotations : Option (StringMap Text)
  pub spec : PodSpec

-- `status` is true for `ConditionTrue`, `available` for the type `DeploymentAvailable`.
pub record DeploymentCondition : Type 0 where
  pub available : Bool
  pub status : Bool
  pub last_transition_time : ℤ

pub record OwnerReference : Type 0 where
  pub api_version : Text
  pub kind : Text
  pub name : Text
  pub uid : Text
  pub block_owner_deletion : Bool

-- `appsv1.Deployment`: metadata, spec, and the part of the status that is read. `match_labels` is that
-- of the selector, which the API server asks each Deployment of apps/v1 to have.
pub record Deployment : Type 0 where
  pub name : Text
  pub namespace : Text
  pub uid : Text
  pub api_version : Text
  pub kind : Text
  pub creation_timestamp : ℤ
  pub labels : Option (StringMap Text)
  pub annotations : Option (StringMap Text)
  pub owner_references : List OwnerReference
  pub replicas : Option ℤ
  pub match_labels : StringMap Text
  pub template : PodTemplateSpec
  pub min_ready_seconds : ℤ
  pub conditions : List DeploymentCondition
  pub status_replicas : ℤ

-- `corev1.ObjectReference`
pub record ObjectReference : Type 0 where
  pub api_version : Text
  pub kind : Text
  pub name : Text
  pub namespace : Text
  pub uid : Text
