-- ===== src/Tests/Updates.antt =====
-- Updates of deployments in place.
use temporal_worker_controll.Base.{
  pos, codes, lookup, insert, ◌==◌, some, none, [], ◌∷◌, ok, ◌≡◌, refl, arith,
}
use temporal_worker_controll.Api.Cluster.{PodTemplateSpec, Deployment}
use temporal_worker_controll.Api.Types.{TemporalConnectionSpec}
use temporal_worker_controll.K8s.State.{DeploymentState}
use temporal_worker_controll.K8s.Pods.{
  connection_spec_hash_annotation, compute_connection_spec_hash, new_deployment_with_owner_ref,
}
use temporal_worker_controll.Planner.Update.{
  Updates, is_updated, annotation, update_deployment_with_connection,
  update_deployment_with_pod_template_spec, connection_update, template_update, check_connection,
  check_template, check_target, check_current, check_deprecated, get_update_deployments,
  update_volumes,
}
use temporal_worker_controll.Planner.Update.Converges.{get_update_deployments_settle}
use temporal_worker_controll.Planner.Update.Named.{IsUnset}
use temporal_worker_controll.Planner.Update.Rebuild.{
  rebuild_of_new_deployment, new_deployment_settled,
}
use temporal_worker_controll.Planner.Update.Reconnect.{
  IsAddressFree, IsTlsFree, IsSameAuth, reconnect_of_new_deployment,
}
use temporal_worker_controll.Planner.Update.Credentials.{api_key_not_applied}
use temporal_worker_controll.Tests.Data.{
  id_a, id_c, sample_libraries, sample_template, deployment_with, sample_spec, status_with,
  sample_worker, sample_connection,
}

abbrev moved_connection : TemporalConnectionSpec
moved_connection = record sample_connection { host_port = codes "other:7233" }

abbrev key_connection : TemporalConnectionSpec
key_connection = record sample_connection {
  api_key_secret_ref = some (record { name = codes "k"; key = codes "v" });
}

-- A deployment whose pods have no annotation yet, and the same after an update.
abbrev live_template : PodTemplateSpec
live_template = record sample_template { annotations = some [] }

abbrev live_deployment : Deployment
live_deployment = record (deployment_with (some (pos 1))) { template = live_template }

abbrev hashed_template : TemporalConnectionSpec → PodTemplateSpec
hashed_template connection = record sample_template {
  annotations = some (
      (connection_spec_hash_annotation, compute_connection_spec_hash sample_libraries connection)
      ∷ []);
}

abbrev hashed_deployment : TemporalConnectionSpec → Deployment
hashed_deployment connection = record live_deployment { template = hashed_template connection }

abbrev live_cluster : DeploymentState
live_cluster = record {
  deployments = (id_c, live_deployment) ∷ [];
  deployments_by_time = [];
  deployment_refs = [];
}

abbrev live_updates : Updates
live_updates = ((id_c, hashed_deployment sample_connection) ∷ [], id_c ∷ [])

live_updates_lem :
    get_update_deployments sample_libraries live_cluster
      (status_with (some (pos 0)))
      sample_spec
      sample_connection
    ≡ ok live_updates
unfolding get_update_deployments check_target check_current check_deprecated check_template
    check_connection connection_update is_updated annotation update_deployment_with_connection
    update_volumes compute_connection_spec_hash lookup insert ◌==◌
live_updates_lem = refl

get_update_deployments_settle_example :
    get_update_deployments sample_libraries
      (record live_cluster { deployments = live_updates.0 })
      (status_with (some (pos 0)))
      sample_spec
      sample_connection
    ≡ ok (live_updates.0, [])
get_update_deployments_settle_example =
    get_update_deployments_settle sample_libraries sample_spec sample_connection live_cluster
      (status_with (some (pos 0))) live_updates_lem

abbrev made_for : TemporalConnectionSpec → Deployment
made_for connection =
    new_deployment_with_owner_ref sample_libraries sample_worker.type_meta sample_worker.object_meta
      sample_spec (codes "ns/w") id_a connection

rebuild_of_new_deployment_example :
    update_deployment_with_pod_template_spec sample_libraries
      (made_for sample_connection)
      sample_spec
      sample_connection
    ≡ made_for sample_connection
unfolding IsUnset
rebuild_of_new_deployment_example =
    rebuild_of_new_deployment sample_libraries sample_worker.type_meta sample_worker.object_meta
      sample_spec (codes "ns/w") id_a sample_connection (refl, tt) (omega arith)

new_deployment_settled_example :
    (connection_update sample_libraries sample_connection (made_for sample_connection) ≡ ok none)
    × (template_update sample_libraries sample_spec sample_connection (made_for sample_connection)
        ≡ none)
new_deployment_settled_example =
    new_deployment_settled sample_libraries sample_worker.type_meta sample_worker.object_meta
      sample_spec (codes "ns/w") id_a sample_connection

reconnect_of_new_deployment_example :
    update_deployment_with_connection sample_libraries (made_for sample_connection) moved_connection
    ≡ ok (made_for moved_connection)
unfolding IsAddressFree IsTlsFree IsSameAuth
reconnect_of_new_deployment_example =
    reconnect_of_new_deployment sample_libraries sample_worker.type_meta sample_worker.object_meta
      sample_spec (codes "ns/w") id_a sample_connection moved_connection (refl, tt) tt refl

-- The deployment runs with the key connection, or with the one that has no key.
live_update :
    update_deployment_with_connection sample_libraries live_deployment sample_connection
    ≡ ok (hashed_deployment sample_connection)
unfolding update_deployment_with_connection update_volumes compute_connection_spec_hash insert ◌==◌
live_update = refl

key_update :
    update_deployment_with_connection sample_libraries live_deployment key_connection
    ≡ ok (hashed_deployment key_connection)
unfolding update_deployment_with_connection update_volumes compute_connection_spec_hash insert ◌==◌
key_update = refl

api_key_not_applied_example :
    (hashed_template sample_connection).spec ≡ (hashed_template key_connection).spec
    × (connection_update sample_libraries key_connection (hashed_deployment key_connection)
        ≡ ok none)
api_key_not_applied_example =
    api_key_not_applied sample_libraries sample_connection key_connection live_deployment refl refl
      refl live_update key_update
