-- ===== src/Tests/Completed.antt =====
-- A round that completes, and a plan that is always made.
use temporal_worker_controll.Base.{
  pos, codes, ◌==◌, is_nil, lookup, insert, AllValues, entries-AllValues, none, some, [], ◌∷◌, true,
  false, ok, ◌≡◌, refl,
}
use temporal_worker_controll.Api.Times.{retimed, retimed-IsSameButTimes}
use temporal_worker_controll.Api.Types.{TemporalWorkerDeployment}
use temporal_worker_controll.Api.Webhook.{
  default_spec, validate_step, validate_steps, validate_progressive, validate_gate,
  validate_rollout_strategy, validate_for_update_or_create,
}
use temporal_worker_controll.K8s.State.{
  DeploymentState, get_deployment_state, track_all, track, sort_by_time, insert_by_time,
  new_object_ref,
}
use temporal_worker_controll.K8s.Names.{
  clean_build_id, replace_runs, is_build_id, trim_left, trim_right, truncate_string,
  compute_build_id,
}
use temporal_worker_controll.Mapper.{map_to_status}
use temporal_worker_controll.Mapper.Known.{IsDated}
use temporal_worker_controll.Planner.Plan.{Plan, generate_plan}
use temporal_worker_controll.Planner.Plan.Total.{IsComplete, generate_plan_total}
use temporal_worker_controll.Server.Types.{TemporalWorkerState}
use temporal_worker_controll.Server.Client.{answer, backoff_loop, with_backoff}
use temporal_worker_controll.Server.Pollers.{
  get_pollers, none_versioned, count_task_queues, has_no_versioned_pollers,
  no_task_queues_have_versioned_pollers,
}
use temporal_worker_controll.Server.Deployment.{
  is_version, until_drain_time, has_no_pods, drained_info, unrouted_info, version_info,
  read_versions, read_ignore_last_modifier, read_deployment, read_answer,
  get_worker_deployment_state,
}
use temporal_worker_controll.Pool.{
  ClientPool, new, get_sdk_client, fetch_client_using_no_credentials, fetch_secret_by_name,
  upsert_with, upsert_client,
}
use temporal_worker_controll.Pool.Keys.{find_key, insert_key}
use temporal_worker_controll.Controller.Commands.{Command}
use temporal_worker_controll.Controller.Status.{with_test_workflows}
use temporal_worker_controll.Controller.Execute.{ControllerPlan}
use temporal_worker_controll.Controller.Execute.Refines.{plan_commands}
use temporal_worker_controll.Controller.Generate.{
  for_status, for_plan, read_deployments, fetch_gate_input, generate_controller_plan,
}
use temporal_worker_controll.Controller.Environment.{
  get_controller_identity, get_controller_version,
}
use temporal_worker_controll.Controller.Reconcile.{
  Round, requeue_in_seconds, defaulted, resolve_auth_secret_name, found_or_new, acquire_client,
  reconcile,
}
use temporal_worker_controll.Controller.Reconcile.Completes.{with_status, reconcile_completes}
use temporal_worker_controll.Tests.Data.{
  id_b, server_with, sample_connection, sample_libraries, sample_spec, sample_strategy,
  sample_worker,
}
use temporal_worker_controll.Tests.Cluster.{
  spare, listing_cluster, sample_round, accepting, to_second,
}

-- A worker whose delays are left to the defaults, as the API server keeps it, and a round on it.
abbrev unset_worker : TemporalWorkerDeployment
unset_worker = record sample_worker {
  spec = record sample_spec {
    sunset_strategy = record { scaledown_delay = none; delete_delay = none };
  };
}

abbrev unset_round : Round
unset_round = record sample_round {
  worker = answer unset_worker;
  stored = λ w. record unset_worker { status = retimed to_second w.status };
}

abbrev listed : DeploymentState
listed = get_deployment_state (spare ∷ [])

reads_listed : read_deployments listing_cluster for_status ≡ ok listed
unfolding read_deployments
reads_listed = refl

reads_listed_again : read_deployments listing_cluster for_plan ≡ ok listed
unfolding read_deployments
reads_listed_again = refl

gets_client :
    (clients : ClientPool) × (acquire_client unset_round.outside
        (defaulted unset_worker)
        sample_connection
        (resolve_auth_secret_name sample_connection)
        new
      ≡ (ok 4, clients))
unfolding acquire_client found_or_new resolve_auth_secret_name get_sdk_client find_key upsert_client
    upsert_with fetch_secret_by_name fetch_client_using_no_credentials insert_key default_spec
gets_client = (_, refl)

is_valid : is_nil (validate_for_update_or_create (defaulted unset_worker)) ≡ true
unfolding default_spec validate_step validate_steps validate_progressive validate_gate
    validate_rollout_strategy validate_for_update_or_create
is_valid = refl

reads_server :
    (state : TemporalWorkerState) × (get_worker_deployment_state
        (unset_round.server 4)
        (get_controller_identity unset_round.environment)
        listed.deployments
        (compute_build_id sample_libraries (defaulted unset_worker))
        (defaulted unset_worker).spec.rollout_strategy.strategy
      ≡ ok state)
unfolding get_worker_deployment_state read_answer read_deployment read_ignore_last_modifier
    read_versions version_info is_version unrouted_info drained_info until_drain_time with_backoff
    backoff_loop has_no_pods no_task_queues_have_versioned_pollers count_task_queues
    has_no_versioned_pollers get_pollers none_versioned lookup insert ◌==◌ get_controller_identity
    get_deployment_state track_all track sort_by_time insert_by_time new_object_ref compute_build_id
    clean_build_id replace_runs is_build_id trim_left trim_right truncate_string default_spec
reads_server = (_, refl)

listed-IsComplete : AllValues IsComplete listed.deployments
unfolding get_deployment_state track_all track sort_by_time insert_by_time new_object_ref lookup
    insert ◌==◌
listed-IsComplete = entries-AllValues IsComplete listed.deployments ((refl, refl), tt)

server-IsDated : AllValues IsDated reads_server.0.versions
unfolding reads_server
server-IsDated =
    entries-AllValues IsDated reads_server.0.versions ((λ e. absurd (cc)), ((λ e. refl), tt))

gate_is_absent :
    fetch_gate_input listing_cluster
      (codes "ns")
      (defaulted unset_worker).spec.rollout_strategy.gate
    ≡ ok ([], false)
unfolding fetch_gate_input default_spec
gate_is_absent = refl

reconcile_completes_example :
    let state' =
      with_test_workflows
        (unset_round.server 4)
        (compute_build_id sample_libraries (defaulted unset_worker))
        reads_server.0 in
    let w' = with_status unset_round unset_worker listed state' in
    (p : ControllerPlan) × (generate_controller_plan sample_libraries listing_cluster
        (pos 1000)
        (get_controller_identity unset_round.environment)
        (pos 75)
        (defaulted (unset_round.stored w'))
        sample_connection
        state'
      ≡ ok p)
    × (reconcile unset_round accepting new ≡ (
      ok (requeue_in_seconds 10),
      gets_client.0,
      Command.update_status w'.status
          ∷ plan_commands
              (get_controller_identity unset_round.environment)
              (get_controller_version unset_round.environment)
              p,
    ))
reconcile_completes_example =
    reconcile_completes unset_round accepting (λ before c. refl) unset_worker sample_connection 4
      new gets_client.0 listed listed reads_server.0 ([], false) refl refl
      (retimed-IsSameButTimes to_second _) refl is_valid refl gets_client.1 reads_listed
      reads_server.1 reads_listed_again gate_is_absent (λ o d. refl) refl listed-IsComplete
      server-IsDated

abbrev dated_server : TemporalWorkerState
dated_server = server_with (some (pos 7))

dated_server_lem : AllValues IsDated dated_server.versions
dated_server_lem =
    entries-AllValues IsDated dated_server.versions
      ((λ e. absurd (cc)), ((λ e. absurd (cc)), ((λ e. refl), tt)))

generate_plan_total_example :
    (p : Plan) × (generate_plan sample_libraries
        (pos 1000)
        listed
        (map_to_status listed dated_server id_b)
        (default_spec sample_spec)
        (some dated_server)
        sample_connection
        sample_strategy
        (codes "ns/w")
        (pos 75)
        []
        false
      ≡ ok p)
generate_plan_total_example =
    generate_plan_total sample_libraries (pos 1000) listed listed dated_server id_b sample_spec
      sample_connection sample_strategy (codes "ns/w") (pos 75) [] false refl listed-IsComplete
      dated_server_lem
