-- ===== src/Planner/Update.antt =====
-- `getUpdateDeployments` and what it calls. A deployment is changed in place: the functions take the
-- cluster's state and return it changed; a pointer is the build ID under which the state holds the
-- object.
pub mod Total
pub mod Changes
pub mod Metadata
pub mod Kept
pub mod Named
pub mod Credentials
pub mod Reconnect
pub mod Rebuild
pub mod Converges
use temporal_worker_controll.Base.{
  Text, codes, ◌==◌, is_empty, StringMap, lookup, insert, insert_all, entries, Option, none, some,
  List, [], ◌∷◌, ◌++◌, map, Bool, true, false, not, ◌&&◌, ◌||◌, is_some, any, if◌then◌else◌,
  Outcome, ok, panic, ◌>>=◌,
}
use temporal_worker_controll.Api.Cluster.{
  EnvVar, Container, Volume, PodSpec, PodTemplateSpec, Deployment,
}
use temporal_worker_controll.Api.Types.{
  TemporalConnectionSpec, TemporalWorkerDeploymentSpec, DeprecatedWorkerDeploymentVersion,
  CurrentWorkerDeploymentVersion, TemporalWorkerDeploymentStatus,
}
use temporal_worker_controll.K8s.State.{DeploymentState, build_id_label}
use temporal_worker_controll.K8s.Names.{Libraries}
use temporal_worker_controll.K8s.Pods.{
  connection_spec_hash_annotation, pod_template_spec_hash_annotation, compute_connection_spec_hash,
  compute_pod_template_spec_hash, pod_annotations, apply_controller_pod_spec_modifications,
}

abbrev pub text_or_empty : Option Text → Text
text_or_empty none = []
text_or_empty (some t) = t

-- `deployment.Spec.Template.Annotations[key]`
unfoldable pub annotation : Text → Deployment → Text
annotation key d = text_or_empty (lookup key (entries d.template.annotations))

-- The secret of the first volume `temporal-tls` that has one.
unfoldable pub update_tls_volume : Text → List Volume → List Volume
update_tls_volume secret [] = []
update_tls_volume secret (v ∷ vs) =
    if v.name == codes "temporal-tls" && is_some v.secret_name
    then record v { secret_name = some secret } ∷ vs
    else v ∷ update_tls_volume secret vs

unfoldable pub update_volumes : Option Text → List Volume → List Volume
update_volumes none vs = vs
update_volumes (some secret) vs = update_tls_volume secret vs

abbrev pub update_address : Text → EnvVar → EnvVar
update_address host_port e =
    if e.name == codes "TEMPORAL_ADDRESS" then record e { value = host_port } else e

abbrev pub update_container : Text → Container → Container
update_container host_port c = record c { env = map (update_address host_port) c.env }

-- The first value of `TEMPORAL_DEPLOYMENT_NAME`, in one container's variables.
unfoldable pub env_deployment_name : List EnvVar → Text
env_deployment_name [] = []
env_deployment_name (e ∷ es) =
    if e.name == codes "TEMPORAL_DEPLOYMENT_NAME" then e.value else env_deployment_name es

unfoldable pub find_deployment_name : List Container → Text
find_deployment_name [] = []
find_deployment_name (c ∷ cs) =
    if is_empty (env_deployment_name c.env)
    then find_deployment_name cs
    else env_deployment_name c.env

-- The state's objects and the build IDs that were updated, in order.
abbrev pub Updates : Type 0
Updates = StringMap Deployment × List Text

abbrev pub record_update : Text → Option Deployment → Updates → Updates
record_update b none u = u
record_update b (some d) (ds, bs) = (insert b d ds, bs ++ (b ∷ []))

-- `updatedBuildIDs[b]`
unfoldable pub is_updated : Text → List Text → Bool
is_updated b bs = any (λ x. x == b) bs

module _ (lib : Libraries) where
  -- `updateDeploymentWithConnection`; the write to a nil map of annotations panics.
  unfoldable pub update_deployment_with_connection :
      Deployment → TemporalConnectionSpec → Outcome Deployment
  update_deployment_with_connection d connection = elim d.template.annotations [
    | none ↦ panic
    | some annotations ↦ ok (record d {
      template = record (d.template) {
        annotations = some (
            insert connection_spec_hash_annotation (compute_connection_spec_hash lib connection)
              annotations);
        spec = record (d.template.spec) {
          containers = map (update_container connection.host_port) d.template.spec.containers;
          volumes = update_volumes connection.mutual_tls_secret_ref d.template.spec.volumes;
        };
      };
    })
  ]

  -- `updateDeploymentWithPodTemplateSpec`
  unfoldable pub update_deployment_with_pod_template_spec :
      Deployment → TemporalWorkerDeploymentSpec → TemporalConnectionSpec → Deployment
  update_deployment_with_pod_template_spec d spec connection =
      let build_id = text_or_empty (lookup build_id_label (entries d.labels)) in
      let name = find_deployment_name d.template.spec.containers in
      record d {
        template = record {
          labels = some (insert_all (insert_all [] (entries spec.template.labels)) d.match_labels);
          annotations = some (pod_annotations lib connection spec.template);
          spec =
              apply_controller_pod_spec_modifications spec.template.spec connection
                spec.worker_options.temporal_namespace name build_id;
        };
        replicas = spec.replicas;
        min_ready_seconds = spec.min_ready_seconds;
      }

  -- The change that the connection asks of a deployment, if any.
  unfoldable pub connection_update :
      TemporalConnectionSpec → Deployment → Outcome (Option Deployment)
  connection_update connection d =
      if compute_connection_spec_hash lib connection == annotation connection_spec_hash_annotation d
      then ok none
      else (do updated ← update_deployment_with_connection d connection; ok (some updated))

  abbrev pub template_drifted : Text → Text → Text → Bool
  template_drifted custom stored current =
      not (is_empty custom) && not (is_empty stored) && not (stored == current)

  -- The change that the pod template asks of a deployment, if any.
  unfoldable pub template_update :
      TemporalWorkerDeploymentSpec → TemporalConnectionSpec → Deployment → Option Deployment
  template_update spec connection d =
      if template_drifted spec.worker_options.unsafe_custom_build_id
        (annotation pod_template_spec_hash_annotation d)
        (compute_pod_template_spec_hash lib spec.template)
      then some (update_deployment_with_pod_template_spec d spec connection)
      else none

  -- `checkAndUpdateDeploymentConnectionSpec`, under the test that `b` was not updated before.
  unfoldable pub check_connection : TemporalConnectionSpec → Text → Updates → Outcome Updates
  check_connection connection b u = if is_updated b u.1 then ok u else elim (lookup b u.0) [
    | none ↦ ok u
    | some d ↦ connection_update connection d >>= λ change. ok (record_update b change u)
  ]

  -- `checkAndUpdateDeploymentPodTemplateSpec`
  unfoldable pub check_template :
      TemporalWorkerDeploymentSpec → TemporalConnectionSpec → Text → Updates → Updates
  check_template spec connection b u = elim (lookup b u.0) [
    | none ↦ u
    | some d ↦ record_update b (template_update spec connection d) u
  ]

  unfoldable pub check_target :
      TemporalWorkerDeploymentSpec → TemporalConnectionSpec → Text → Updates → Outcome Updates
  check_target spec connection b u =
      if is_empty b
      then ok u
      else check_connection connection b (check_template spec connection b u)

  unfoldable pub check_current :
      TemporalConnectionSpec → Option CurrentWorkerDeploymentVersion → Updates → Outcome Updates
  check_current connection none u = ok u
  check_current connection (some v) u =
      if is_empty v.build_id then ok u else check_connection connection v.build_id u

  unfoldable pub check_deprecated :
      TemporalConnectionSpec → List DeprecatedWorkerDeploymentVersion → Updates → Outcome Updates
  check_deprecated connection [] u = ok u
  check_deprecated connection (v ∷ vs) u = do
    u' ← check_connection connection v.build_id u
    check_deprecated connection vs u'

  -- `getUpdateDeployments`
  unfoldable pub get_update_deployments :
      DeploymentState
      → TemporalWorkerDeploymentStatus
      → TemporalWorkerDeploymentSpec
      → TemporalConnectionSpec
      → Outcome Updates
  get_update_deployments k8s_state status spec connection = do
    u ← check_target spec connection status.target_version.build_id (k8s_state.deployments, [])
    u' ← check_current connection status.current_version u
    check_deprecated connection status.deprecated_versions u'
