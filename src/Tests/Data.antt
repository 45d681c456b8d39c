-- ===== src/Tests/Data.antt =====
-- A worker deployment with a current version `a`, a target `b` and older versions.
use temporal_worker_controll.Base.{
  ℤ, pos, Text, codes, Option, none, some, List, [], ◌∷◌, true, false, to_float32,
}
use temporal_worker_controll.Api.Cluster.{Container, PodTemplateSpec, Deployment, ObjectReference}
use temporal_worker_controll.Api.Types.{
  progressive, GateWorkflowConfig, RolloutStep, RolloutStrategy, TemporalWorkerDeploymentSpec,
  VersionStatus, ramping, current, drained, BaseWorkerDeploymentVersion,
  TargetWorkerDeploymentVersion, DeprecatedWorkerDeploymentVersion, TemporalWorkerDeploymentStatus,
  TemporalWorkerDeployment, TemporalConnectionSpec,
}
use temporal_worker_controll.K8s.State.{DeploymentState}
use temporal_worker_controll.K8s.Names.{Libraries, Reference}
use temporal_worker_controll.Server.Types.{VersionInfo, TemporalWorkerState}
use temporal_worker_controll.Planner.Types.{VersionConfig}

abbrev pub id_a : Text
id_a = codes "a"

abbrev pub id_b : Text
id_b = codes "b"

abbrev pub id_c : Text
id_c = codes "c"

-- Stand-ins for the libraries that keep the length of what they encode.
abbrev pub sample_libraries : Libraries
sample_libraries = record {
  dump = λ t. codes "template";
  fnv32a = λ t. 123456789;
  sha256_hex = λ t. t;
  safe_encode_string = λ t. t;
  parse_reference = λ t. Reference.unparsed;
}

abbrev pub sample_container : Container
sample_container = record {
  name = codes "worker";
  image = codes "img:v1";
  env = [];
  volume_mounts = [];
  rest = [];
}

abbrev pub sample_template : PodTemplateSpec
sample_template = record {
  labels = none;
  annotations = none;
  spec = record { containers = sample_container ∷ []; volumes = []; rest = [] };
}

abbrev pub deployment_with : Option ℤ → Deployment
deployment_with replicas = record {
  name = codes "d";
  namespace = codes "ns";
  uid = codes "u";
  api_version = codes "apps/v1";
  kind = codes "Deployment";
  creation_timestamp = pos 0;
  labels = none;
  annotations = none;
  owner_references = [];
  replicas = replicas;
  match_labels = [];
  template = sample_template;
  min_ready_seconds = pos 0;
  conditions = [];
  status_replicas = pos 0;
}

abbrev pub sample_ref : ObjectReference
sample_ref = record {
  api_version = codes "apps/v1";
  kind = codes "Deployment";
  name = codes "d";
  namespace = codes "ns";
  uid = codes "u";
}

-- `c` is drained and has no replicas left.
abbrev pub sample_cluster : DeploymentState
sample_cluster = record {
  deployments =
      (id_a, deployment_with (some (pos 3)))
      ∷ (id_b, deployment_with (some (pos 1)))
      ∷ (id_c, deployment_with (some (pos 0)))
      ∷ [];
  deployments_by_time = [];
  deployment_refs = (id_a, sample_ref) ∷ (id_b, sample_ref) ∷ (id_c, sample_ref) ∷ [];
}

abbrev pub info_with : Text → VersionStatus → Option ℤ → VersionInfo
info_with build_id status drained_since = record {
  deployment_name = codes "ns/w";
  build_id = build_id;
  status = status;
  drained_since = drained_since;
  task_queues = record { name = codes "q" } ∷ [];
  test_workflows = [];
  all_task_queues_have_unversioned_poller = false;
  no_task_queues_have_versioned_poller = true;
}

-- The drain time of `c` is a parameter.
abbrev pub server_with : Option ℤ → TemporalWorkerState
server_with drained_since = record {
  current_build_id = id_a;
  version_conflict_token = codes "token";
  ramping_build_id = id_b;
  ramp_percentage = to_float32 (pos 50);
  ramping_since = some (pos 0);
  ramp_last_modified_at = some (pos 0);
  versions =
      (id_a, info_with id_a current none)
      ∷ (id_b, info_with id_b ramping none)
      ∷ (id_c, info_with id_c drained drained_since)
      ∷ [];
  last_modifier_identity = codes "temporal-worker-controller";
  ignore_last_modifier = false;
}

abbrev pub sample_steps : List RolloutStep
sample_steps =
    record { ramp_percentage = pos 10; pause_duration = pos 30000000000 }
    ∷ record { ramp_percentage = pos 50; pause_duration = pos 60000000000 }
    ∷ []

abbrev pub sample_strategy : RolloutStrategy
sample_strategy = record { strategy = progressive; gate = none; steps = sample_steps }

abbrev pub sample_spec : TemporalWorkerDeploymentSpec
sample_spec = record {
  replicas = some (pos 3);
  template = sample_template;
  min_ready_seconds = pos 0;
  progress_deadline_seconds = none;
  rollout_strategy = sample_strategy;
  sunset_strategy = record { scaledown_delay = some (pos 100); delete_delay = some (pos 200) };
  worker_options = record {
    temporal_connection_ref = codes "conn";
    temporal_namespace = codes "default";
    unsafe_custom_build_id = codes "v1.2";
  };
}

abbrev pub base_with : Text → VersionStatus → BaseWorkerDeploymentVersion
base_with build_id status = record {
  build_id = build_id;
  status = status;
  healthy_since = some (pos 0);
  deployment = some sample_ref;
  task_queues = record { name = codes "q" } ∷ [];
  managed_by = [];
}

abbrev pub sample_target : TargetWorkerDeploymentVersion
sample_target = record {
  base = base_with id_b ramping;
  test_workflows = [];
  ramp_percentage = some (to_float32 (pos 50));
  ramping_since = some (pos 0);
  ramp_last_modified_at = some (pos 0);
}

abbrev pub drained_version : Option ℤ → DeprecatedWorkerDeploymentVersion
drained_version t = record {
  base = base_with id_c drained;
  drained_since = t;
  eligible_for_deletion = true;
}

abbrev pub status_with : Option ℤ → TemporalWorkerDeploymentStatus
status_with t = record {
  target_version = sample_target;
  current_version = some (record { base = base_with id_a current });
  deprecated_versions = drained_version t ∷ [];
  version_conflict_token = codes "token";
  last_modifier_identity = codes "temporal-worker-controller";
  version_count = pos 3;
}

abbrev pub fresh_config : VersionConfig
fresh_config = record {
  conflict_token = codes "token";
  build_id = id_b;
  set_current = false;
  ramp_percentage = pos 0;
}

abbrev pub sample_gate : GateWorkflowConfig
sample_gate = record {
  workflow_type = codes "Gate";
  input = none;
  input_from = some (record {
    config_map_key_ref = none;
    secret_key_ref = some (record { name = codes "s"; key = codes "k" });
  });
}

abbrev pub gated_strategy : RolloutStrategy
gated_strategy = record { strategy = progressive; gate = some sample_gate; steps = sample_steps }

abbrev pub sample_worker : TemporalWorkerDeployment
sample_worker = record {
  type_meta = record {
    api_version = codes "temporal.io/v1alpha1";
    kind = codes "TemporalWorkerDeployment";
  };
  object_meta = record { name = codes "w"; namespace = codes "ns"; uid = codes "u" };
  spec = sample_spec;
  status = status_with (some (pos 0));
}

abbrev pub sample_connection : TemporalConnectionSpec
sample_connection = record {
  host_port = codes "host:7233";
  mutual_tls_secret_ref = none;
  api_key_secret_ref = none;
}
