-- ===== src/Tests/Rounds.antt =====
-- One round of the controller, on a cluster and a server that answer.
use temporal_worker_controll.Base.{
  pos, ◌+ℤ◌, ◌-ℤ◌, to_int64, to_uint32, codes, ◌==◌, lookup, insert, none, some, [], ◌∷◌, true,
  false, ok, Elem, ◌≡◌, inl, inr, refl,
}
use temporal_worker_controll.Api.Cluster.{Deployment}
use temporal_worker_controll.Api.Types.{inactive, TemporalWorkerDeployment}
use temporal_worker_controll.Api.Times.{retimed-HasSameVersions}
use temporal_worker_controll.Api.Webhook.{
  default_spec, validate_step, validate_steps, validate_progressive, validate_gate,
  validate_rollout_strategy, validate_for_update_or_create,
}
use temporal_worker_controll.K8s.Names.{
  is_build_id, replace_runs, trim_left, trim_right, clean_build_id, truncate_string,
  compute_worker_deployment_name, compute_build_id,
}
use temporal_worker_controll.K8s.Pods.{compute_connection_spec_hash, new_deployment_with_owner_ref}
use temporal_worker_controll.K8s.State.{
  new_object_ref, insert_by_time, sort_by_time, track, track_all, get_deployment_state,
  is_deployment_healthy, managed,
}
use temporal_worker_controll.Mapper.{
  base_version, map_current, map_target, map_target_with_ramp, map_deprecated, map_all_deprecated,
  map_to_status,
}
use temporal_worker_controll.Planner.Types.{since}
use temporal_worker_controll.Planner.Delete.{
  has_no_replicas, drained_can_go, delete_by_status, delete_managed, should_delete, delete_loop,
  get_delete_deployments,
}
use temporal_worker_controll.Planner.Scale.{
  scale_current, scale_target, scale_by_status, scale_managed, scale_deprecated,
  get_scale_deployments,
}
use temporal_worker_controll.Planner.Create.{count_ineligible, should_create_deployment}
use temporal_worker_controll.Planner.Config.{gate_passed, is_ready, get_version_config_diff}
use temporal_worker_controll.Planner.Gate.{get_test_workflows}
use temporal_worker_controll.Planner.Update.{
  annotation, is_updated, update_deployment_with_connection, connection_update, template_update,
  check_connection, check_template, check_target, check_current, check_deprecated,
  get_update_deployments,
}
use temporal_worker_controll.Planner.Plan.{remove_builds, generate_plan}
use temporal_worker_controll.Server.Types.{VersionInfo, TemporalWorkerState}
use temporal_worker_controll.Server.Client.{Server, backoff_loop, with_backoff}
use temporal_worker_controll.Server.Pollers.{
  get_pollers, none_versioned, count_task_queues, has_no_versioned_pollers,
  no_task_queues_have_versioned_pollers,
}
use temporal_worker_controll.Server.Deployment.{
  is_version, until_drain_time, has_no_pods, drained_info, unrouted_info, version_info,
  read_versions, read_ignore_last_modifier, read_deployment, read_answer,
  get_worker_deployment_state,
}
use temporal_worker_controll.Server.TestWorkflows.{
  map_workflow_status, test_workflows_loop, test_workflows_described, get_test_workflow_status,
}
use temporal_worker_controll.Pool.Keys.{find_key, insert_key}
use temporal_worker_controll.Pool.{
  new, get_sdk_client, fetch_client_using_no_credentials, fetch_secret_by_name, upsert_with,
  upsert_client,
}
use temporal_worker_controll.Controller.Commands.{Command, for_each}
use temporal_worker_controll.Controller.Status.{
  append_test_workflows, with_test_workflows, generate_status,
}
use temporal_worker_controll.Controller.Status.Gate.{AllTested, gate_passed-AllTested}
use temporal_worker_controll.Controller.Execute.{
  ControllerPlan, create_if_set, scale_one, register_version, execute_plan,
}
use temporal_worker_controll.Controller.Execute.Refines.{
  Implements, plan_commands, execute_plan-Implements,
}
use temporal_worker_controll.Controller.Generate.{
  read_deployments, is_taken_over, effective_strategy, fetch_gate_input, objects_under,
  new_deployment_with_controller_ref, new_deployment, create_if_planned, controller_plan,
  generate_controller_plan,
}
use temporal_worker_controll.Controller.Generate.TakenOver.{generate_controller_plan_taken_over}
use temporal_worker_controll.Controller.Environment.{default_identity, get_controller_identity}
use temporal_worker_controll.Controller.Reconcile.{
  resolve_auth_secret_name, found_or_new, acquire_client, plan_and_execute, after_status_update,
  update_status, with_client, after_client, with_connection, with_worker, with_answer, reconcile,
}
use temporal_worker_controll.Controller.Reconcile.Deletes.{IsSpareNow, reconcile-IsSpareNow}
use temporal_worker_controll.Tests.Data.{
  id_a, sample_cluster, sample_connection, sample_libraries, sample_worker, server_with,
}
use temporal_worker_controll.Tests.Servers.{server_of, description_with, version_of}
use temporal_worker_controll.Tests.Cluster.{listing_cluster, sample_round, accepting, to_second}

-- The round creates a deployment for the target, and deletes the one of the drained version `c`.
deletes_spare :
    (d : Deployment) × Elem (Command.delete_deployment d) (reconcile sample_round accepting new).2
unfolding reconcile with_answer with_worker with_connection after_client with_client update_status
    after_status_update plan_and_execute execute_plan create_if_set scale_one register_version
    for_each acquire_client found_or_new resolve_auth_secret_name get_sdk_client find_key
    upsert_client upsert_with fetch_secret_by_name fetch_client_using_no_credentials insert_key
    default_spec validate_step validate_steps validate_progressive validate_gate
    validate_rollout_strategy validate_for_update_or_create read_deployments get_deployment_state
    track_all track sort_by_time insert_by_time new_object_ref compute_build_id clean_build_id
    replace_runs is_build_id trim_left trim_right truncate_string get_controller_identity
    get_worker_deployment_state read_answer read_deployment read_ignore_last_modifier read_versions
    version_info is_version unrouted_info drained_info until_drain_time with_backoff backoff_loop
    has_no_pods no_task_queues_have_versioned_pollers lookup insert ◌==◌ generate_status
    with_test_workflows get_test_workflow_status append_test_workflows map_to_status
    map_all_deprecated map_deprecated map_current map_target_with_ramp map_target base_version
    is_deployment_healthy generate_controller_plan is_taken_over effective_strategy fetch_gate_input
    objects_under new_deployment_with_controller_ref new_deployment create_if_planned
    controller_plan generate_plan get_delete_deployments delete_loop should_delete delete_managed
    delete_by_status drained_can_go has_no_replicas managed since ◌+ℤ◌ ◌-ℤ◌ to_int64
    get_scale_deployments scale_current scale_target scale_by_status scale_managed scale_deprecated
    to_uint32 should_create_deployment count_ineligible get_update_deployments check_target
    check_current check_deprecated check_connection check_template connection_update template_update
    get_version_config_diff is_ready get_test_workflows remove_builds annotation is_updated
    count_task_queues has_no_versioned_pollers get_pollers none_versioned
    compute_connection_spec_hash update_deployment_with_connection compute_worker_deployment_name
    new_deployment_with_owner_ref
deletes_spare = (_, inr (inr (inl refl)))

reconcile-IsSpareNow_example : IsSpareNow sample_round accepting new deletes_spare.0
reconcile-IsSpareNow_example =
    reconcile-IsSpareNow sample_round accepting (λ w. retimed-HasSameVersions to_second w.status)
      new deletes_spare.0 deletes_spare.1

-- The target of the sample worker, described with one task queue whose test workflow has completed.
abbrev target_info : VersionInfo
target_info = record {
  deployment_name = codes "ns/w";
  build_id = codes "v1.2";
  status = inactive;
  drained_since = none;
  task_queues = [];
  test_workflows = [];
  all_task_queues_have_unversioned_poller = false;
  no_task_queues_have_versioned_poller = false;
}

abbrev tested_server : Server
tested_server = server_of (description_with (some (version_of id_a)) default_identity)

abbrev tested_state : TemporalWorkerState
tested_state = record (server_with none) { versions = (codes "v1.2", target_info) ∷ [] }

target_is_known :
    lookup (compute_build_id sample_libraries sample_worker) tested_state.versions
    ≡ some target_info
unfolding compute_build_id clean_build_id replace_runs is_build_id trim_left trim_right
    truncate_string lookup ◌==◌
target_is_known = refl

target_is_not_current :
    (compute_build_id sample_libraries sample_worker == tested_state.current_build_id) ≡ false
unfolding compute_build_id clean_build_id replace_runs is_build_id trim_left trim_right
    truncate_string ◌==◌
target_is_not_current = refl

gate_is_passed :
    gate_passed
      (generate_status sample_libraries tested_server sample_worker tested_state
        sample_cluster).0.target_version
    ≡ true
unfolding gate_passed generate_status with_test_workflows append_test_workflows
    get_test_workflow_status test_workflows_described test_workflows_loop map_workflow_status
    map_to_status map_target_with_ramp map_target base_version compute_build_id clean_build_id
    replace_runs is_build_id trim_left trim_right truncate_string lookup insert ◌==◌
gate_is_passed = refl

gate_passed-AllTested_example : AllTested tested_server target_info
gate_passed-AllTested_example =
    gate_passed-AllTested sample_libraries tested_server sample_worker tested_state sample_cluster
      target_info target_is_known refl refl target_is_not_current gate_is_passed

-- Somebody has changed the routing, and asked to be left alone.
abbrev taken_worker : TemporalWorkerDeployment
taken_worker = record sample_worker {
  status = record sample_worker.status { last_modifier_identity = codes "somebody" };
}

plans_taken :
    (p : ControllerPlan) × (generate_controller_plan sample_libraries listing_cluster
        (pos 1000)
        default_identity
        (pos 75)
        taken_worker
        sample_connection
        (server_with none)
      ≡ ok p)
unfolding read_deployments get_deployment_state track_all track sort_by_time insert_by_time
    new_object_ref lookup insert ◌==◌ compute_build_id clean_build_id replace_runs is_build_id
    trim_left trim_right truncate_string generate_controller_plan is_taken_over effective_strategy
    fetch_gate_input objects_under new_deployment_with_controller_ref new_deployment
    create_if_planned controller_plan generate_plan get_delete_deployments delete_loop should_delete
    delete_managed delete_by_status drained_can_go has_no_replicas managed since ◌+ℤ◌ ◌-ℤ◌ to_int64
    get_scale_deployments scale_current scale_target scale_by_status scale_managed scale_deprecated
    to_uint32 should_create_deployment count_ineligible get_update_deployments check_target
    check_current check_deprecated check_connection check_template connection_update template_update
    get_version_config_diff is_ready get_test_workflows remove_builds annotation is_updated
    count_task_queues has_no_versioned_pollers get_pollers none_versioned
    compute_connection_spec_hash update_deployment_with_connection compute_worker_deployment_name
    new_deployment_with_owner_ref
plans_taken = (_, refl)

generate_controller_plan_taken_over_example :
    (plans_taken.0.update_version_config ≡ none)
    × (plans_taken.0.remove_ignore_last_modifier_builds ≡ [])
generate_controller_plan_taken_over_example =
    generate_controller_plan_taken_over sample_libraries listing_cluster (pos 1000) default_identity
      (pos 75) taken_worker sample_connection (server_with none) (λ e. absurd (cc))
      (λ e. absurd (cc)) (λ e. absurd (cc)) refl plans_taken.1

execute_plan-Implements_example :
    Implements accepting
      (execute_plan accepting default_identity (codes "v1") plans_taken.0)
      (plan_commands default_identity (codes "v1") plans_taken.0)
execute_plan-Implements_example =
    execute_plan-Implements accepting default_identity (codes "v1") plans_taken.0
