-- ===== src/Mapper.antt =====
-- internal/controller/state_mapper.go: the status of the resource from the states of the cluster
-- and of the server. `range` over the map of deployments visits its entries in the list's order.
pub mod Versions
pub mod Known
use temporal_worker_controll.Base.{
  ℕ, ℤ, pos, ltb_ℤ, to_int32, Float32, Text, ◌==◌, is_empty, StringMap, lookup, Option, none, some,
  List, [], ◌∷◌, ◌++◌, Bool, true, false, ◌&&◌, ◌||◌, length, if◌then◌else◌,
}
use temporal_worker_controll.Api.Cluster.{Deployment, ObjectReference}
use temporal_worker_controll.Api.Types.{
  VersionStatus, not_registered, TaskQueue, BaseWorkerDeploymentVersion,
  CurrentWorkerDeploymentVersion, TargetWorkerDeploymentVersion, DeprecatedWorkerDeploymentVersion,
  TemporalWorkerDeploymentStatus, is_ramping, is_drained,
}
use temporal_worker_controll.K8s.State.{DeploymentState, is_deployment_healthy}
use temporal_worker_controll.Server.Types.{VersionInfo, TemporalWorkerState}

abbrev pub version_status : Option VersionInfo → VersionStatus
version_status none = not_registered
version_status (some info) = info.status

abbrev pub version_task_queues : Option VersionInfo → List TaskQueue
version_task_queues none = []
version_task_queues (some info) = info.task_queues

-- The reference is looked up only where the deployment exists.
abbrev pub version_deployment : Option Deployment → Option ObjectReference → Option ObjectReference
version_deployment none ref = none
version_deployment (some d) ref = ref

abbrev pub version_healthy_since : Option Deployment → Option ℤ
version_healthy_since none = none
version_healthy_since (some d) = is_deployment_healthy d.conditions

-- The part that the three kinds of version share.
unfoldable pub base_version :
    DeploymentState → TemporalWorkerState → Text → BaseWorkerDeploymentVersion
base_version k8s_state temporal_state build_id =
    let d = lookup build_id k8s_state.deployments in
    let info = lookup build_id temporal_state.versions in
    record {
      build_id = build_id;
      status = version_status info;
      healthy_since = version_healthy_since d;
      deployment = version_deployment d (lookup build_id k8s_state.deployment_refs);
      task_queues = version_task_queues info;
      managed_by = [];
    }

-- `mapCurrentWorkerDeploymentVersionByBuildID`
unfoldable pub map_current :
    DeploymentState → TemporalWorkerState → Text → Option CurrentWorkerDeploymentVersion
map_current k8s_state temporal_state build_id =
    if is_empty build_id
    then none
    else some (record { base = base_version k8s_state temporal_state build_id })

-- The ramp of a version that the server calls ramping.
abbrev pub ramp_of_status : TemporalWorkerState → Option VersionInfo → Option Float32
ramp_of_status temporal_state none = none
ramp_of_status temporal_state (some info) =
    if is_ramping info.status && ltb_ℤ (pos 0) temporal_state.ramp_percentage
    then some temporal_state.ramp_percentage
    else none

-- `mapTargetWorkerDeploymentVersionByBuildID`
unfoldable pub map_target :
    DeploymentState → TemporalWorkerState → Text → TargetWorkerDeploymentVersion
map_target k8s_state temporal_state build_id =
    if is_empty build_id
    then record {
      base = record {
        build_id = build_id;
        status = not_registered;
        healthy_since = none;
        deployment = none;
        task_queues = [];
        managed_by = [];
      };
      test_workflows = [];
      ramp_percentage = none;
      ramping_since = none;
      ramp_last_modified_at = none;
    }
    else record {
      base = base_version k8s_state temporal_state build_id;
      test_workflows = elim (lookup build_id temporal_state.versions) [
        | none ↦ []
        | some info ↦ info.test_workflows
      ];
      ramp_percentage = ramp_of_status temporal_state (lookup build_id temporal_state.versions);
      ramping_since = none;
      ramp_last_modified_at = none;
    }

-- The target, with the ramp if it is the version that the server ramps.
unfoldable pub map_target_with_ramp :
    DeploymentState → TemporalWorkerState → Text → TargetWorkerDeploymentVersion
map_target_with_ramp k8s_state temporal_state build_id =
    let version = map_target k8s_state temporal_state build_id in
    if temporal_state.ramping_build_id == build_id
    then record version {
      ramp_percentage = some temporal_state.ramp_percentage;
      ramping_since = temporal_state.ramping_since;
      ramp_last_modified_at = temporal_state.ramp_last_modified_at;
    }
    else version

abbrev pub is_eligible : Option VersionInfo → Bool
is_eligible none = false
is_eligible (some info) = is_drained info.status && info.no_task_queues_have_versioned_poller

abbrev pub drain_time : Option VersionInfo → Option ℤ
drain_time none = none
drain_time (some info) = info.drained_since

-- `mapDeprecatedWorkerDeploymentVersionByBuildID`
unfoldable pub map_deprecated :
    DeploymentState → TemporalWorkerState → Text → Option DeprecatedWorkerDeploymentVersion
map_deprecated k8s_state temporal_state build_id =
    if is_empty build_id
    then none
    else some (record {
      base = base_version k8s_state temporal_state build_id;
      drained_since = drain_time (lookup build_id temporal_state.versions);
      eligible_for_deletion = is_eligible (lookup build_id temporal_state.versions);
    })

abbrev pub push :
    Option DeprecatedWorkerDeploymentVersion
    → List DeprecatedWorkerDeploymentVersion
    → List DeprecatedWorkerDeploymentVersion
push none vs = vs
push (some v) vs = v ∷ vs

-- The loop over the build IDs of the cluster's deployments.
unfoldable pub map_all_deprecated :
    DeploymentState
    → TemporalWorkerState
    → Text
    → StringMap Deployment
    → List DeprecatedWorkerDeploymentVersion
map_all_deprecated k8s_state temporal_state target [] = []
map_all_deprecated k8s_state temporal_state target ((build_id, d) ∷ ds) =
    let rest = map_all_deprecated k8s_state temporal_state target ds in
    if build_id == temporal_state.current_build_id || build_id == target
    then rest
    else push (map_deprecated k8s_state temporal_state build_id) rest

-- `mapToStatus`
unfoldable pub map_to_status :
    DeploymentState → TemporalWorkerState → Text → TemporalWorkerDeploymentStatus
map_to_status k8s_state temporal_state target_build_id = record {
  target_version = map_target_with_ramp k8s_state temporal_state target_build_id;
  current_version = map_current k8s_state temporal_state temporal_state.current_build_id;
  deprecated_versions =
      map_all_deprecated k8s_state temporal_state target_build_id k8s_state.deployments;
  version_conflict_token = temporal_state.version_conflict_token;
  last_modifier_identity = temporal_state.last_modifier_identity;
  version_count = to_int32 (pos (length temporal_state.versions));
}
