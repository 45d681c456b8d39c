-- ===== src/Tests/Servers.antt =====
-- A server that has described a worker deployment.
use temporal_worker_controll.Base.{
  pos, Text, codes, ◌==◌, lookup, insert, Option, none, some, [], ◌∷◌, true, ok, panic, ◌≡◌, ◌↔◌,
  refl,
}
use temporal_worker_controll.Api.Types.{DefaultVersionUpdateStrategy}
use temporal_worker_controll.Server.Types.{TemporalWorkerState}
use temporal_worker_controll.Server.Client.{
  answer, ExecutionStatus, PollerMode, TaskQueueType, TaskQueueInfo, DrainageStatus,
  VersionDescription, Version, RoutingConfig, DeploymentDescription, Server, backoff_loop,
  with_backoff,
}
use temporal_worker_controll.Server.Pollers.{
  no_task_queues_have_versioned_pollers, all_task_queues_have_unversioned_poller,
}
use temporal_worker_controll.Server.Pollers.Counts.{
  NoneVersioned, SomeUnversioned, AllAnswered, pollers_iff,
}
use temporal_worker_controll.Server.Deployment.{
  is_version, until_drain_time, has_no_pods, drained_info, unrouted_info, version_info,
  read_versions, read_ignore_last_modifier, deployment_should_ignore_last_modifier, read_deployment,
  read_answer, get_worker_deployment_state,
}
use temporal_worker_controll.Server.Deployment.Versions.{
  AllRead, get_worker_deployment_state-AllRead,
}
use temporal_worker_controll.Server.Deployment.Modifier.{
  get_worker_deployment_state_panics, deployment_should_ignore_any_ramping,
}
use temporal_worker_controll.Tests.Data.{id_a, id_b, id_c}

abbrev pub version_of : Text → Version
version_of b = record { deployment_name = codes "ns/w"; build_id = b }

abbrev routing_with : Option Version → RoutingConfig
routing_with now = record {
  current_version = now;
  ramping_version = some (version_of id_b);
  ramping_version_percentage = pos 0;
  ramping_version_changed_time = pos 0;
  ramping_version_percentage_changed_time = pos 0;
}

abbrev pub queue : TaskQueueInfo
queue = record { name = codes "q"; kind = TaskQueueType.workflow }

abbrev drained_description : VersionDescription
drained_description = record {
  drainage_info =
      some (record { drainage_status = DrainageStatus.drained; last_changed_time = pos 7 });
  task_queues_infos = queue ∷ [];
  metadata = [];
}

abbrev pub description_with : Option Version → Text → DeploymentDescription
description_with now modifier = record {
  routing_config = routing_with now;
  last_modifier_identity = modifier;
  conflict_token = codes "token";
  version_summaries =
      record { version = version_of id_a; drainage_status = DrainageStatus.unspecified }
      ∷ record { version = version_of id_c; drainage_status = DrainageStatus.drained }
      ∷ [];
}

abbrev pub server_of : DeploymentDescription → Server
server_of desc = record {
  describe = answer desc;
  describe_version = λ call b. answer drained_description;
  describe_task_queue = λ b tq. some (PollerMode.unversioned ∷ []);
  describe_workflow_execution = λ workflow_id. answer (record {
    workflow_id = workflow_id;
    run_id = codes "r";
    task_queue = codes "q";
    status = ExecutionStatus.completed;
  });
  decode = λ payload. some payload;
  rounds = 10;
}

abbrev identity : Text
identity = codes "controller"

abbrev calm_description : DeploymentDescription
calm_description = description_with (some (version_of id_a)) identity

-- The state that is read: `a` is current, and `c` has been drained since 7.
reads_state :
    (state : TemporalWorkerState) × (get_worker_deployment_state
        (server_of calm_description)
        identity
        []
        id_b
        DefaultVersionUpdateStrategy.progressive
      ≡ ok state)
unfolding get_worker_deployment_state read_answer read_deployment read_ignore_last_modifier
    read_versions version_info is_version unrouted_info drained_info until_drain_time with_backoff
    backoff_loop has_no_pods no_task_queues_have_versioned_pollers lookup insert ◌==◌
reads_state = (_, refl)

get_worker_deployment_state-AllRead_example :
    (reads_state.0.current_build_id ≡ id_a)
    × (reads_state.0.ramping_build_id ≡ id_b)
    × AllRead
        (server_of calm_description)
        (routing_with (some (version_of id_a)))
        reads_state.0.versions
get_worker_deployment_state-AllRead_example =
    get_worker_deployment_state-AllRead (server_of calm_description) identity [] id_b
      DefaultVersionUpdateStrategy.progressive calm_description refl reads_state.1

abbrev taken_description : DeploymentDescription
taken_description = description_with none (codes "somebody")

get_worker_deployment_state_panics_example :
    get_worker_deployment_state
      (server_of taken_description)
      identity
      []
      id_b
      DefaultVersionUpdateStrategy.progressive
    ≡ panic
unfolding ◌==◌
get_worker_deployment_state_panics_example =
    get_worker_deployment_state_panics (server_of taken_description) identity [] id_b
      DefaultVersionUpdateStrategy.progressive taken_description (version_of id_b) refl refl refl
      refl refl

deployment_should_ignore_any_ramping_example :
    deployment_should_ignore_last_modifier
      (server_of calm_description)
      (record (routing_with (some (version_of id_a))) { ramping_version = some (version_of id_b) })
    ≡ deployment_should_ignore_last_modifier
        (server_of calm_description)
        (record (routing_with (some (version_of id_a))) {
          ramping_version = some (version_of id_c);
        })
deployment_should_ignore_any_ramping_example =
    deployment_should_ignore_any_ramping (server_of calm_description)
      (routing_with (some (version_of id_a))) (version_of id_b) (version_of id_c)

pollers_iff_example :
    ((no_task_queues_have_versioned_pollers (server_of calm_description) id_c (queue ∷ []) ≡ true)
      ↔ AllAnswered NoneVersioned (server_of calm_description) id_c (queue ∷ []))
    × ((all_task_queues_have_unversioned_poller (server_of calm_description) id_c (queue ∷ [])
          ≡ true)
        ↔ AllAnswered SomeUnversioned (server_of calm_description) id_c (queue ∷ []))
pollers_iff_example = pollers_iff (server_of calm_description) id_c (queue ∷ [])
