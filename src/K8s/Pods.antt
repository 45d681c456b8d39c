-- ===== src/K8s/Pods.antt =====
-- The pod templates and the deployments that the controller makes. `DeepCopy` copies, so a value is
-- its own copy here.
use temporal_worker_controll.Base.{
  Text, codes, is_empty, StringMap, insert, insert_all, entries, none, some, List, [], ◌∷◌, ◌++◌,
  map, true, if◌then◌else◌, pos,
}
use temporal_worker_controll.Api.Cluster.{
  KeySelector, EnvVar, VolumeMount, Container, Volume, PodSpec, PodTemplateSpec, Deployment,
}
use temporal_worker_controll.Api.Types.{
  TemporalConnectionSpec, TemporalWorkerDeploymentSpec, TypeMeta, ObjectMeta,
}
use temporal_worker_controll.K8s.State.{build_id_label}
use temporal_worker_controll.K8s.Names.{
  Libraries, clean_string_for_dns, truncate_string, compute_versioned_deployment_name,
}

-- `twdNameLabel`
abbrev pub twd_name_label : Text
twd_name_label = codes "temporal.io/deployment-name"

abbrev pub connection_spec_hash_annotation : Text
connection_spec_hash_annotation = codes "temporal.io/connection-spec-hash"

abbrev pub pod_template_spec_hash_annotation : Text
pod_template_spec_hash_annotation = codes "temporal.io/pod-template-spec-hash"

abbrev pub env_var : Text → Text → EnvVar
env_var name value = record { name = name; value = value; secret_key_ref = none }

abbrev pub secret_env_var : Text → KeySelector → EnvVar
secret_env_var name ref = record { name = name; value = []; secret_key_ref = some ref }

abbrev pub controller_env : TemporalConnectionSpec → Text → Text → Text → List EnvVar
controller_env connection temporal_namespace worker_deployment_name build_id =
    env_var (codes "TEMPORAL_ADDRESS") connection.host_port
    ∷ env_var (codes "TEMPORAL_NAMESPACE") temporal_namespace
    ∷ env_var (codes "TEMPORAL_DEPLOYMENT_NAME") worker_deployment_name
    ∷ env_var (codes "TEMPORAL_WORKER_BUILD_ID") build_id
    ∷ []

abbrev pub tls_env : List EnvVar
tls_env =
    env_var (codes "TEMPORAL_TLS") (codes "true")
    ∷ env_var (codes "TEMPORAL_TLS_CLIENT_KEY_PATH") (codes "/etc/temporal/tls/tls.key")
    ∷ env_var (codes "TEMPORAL_TLS_CLIENT_CERT_PATH") (codes "/etc/temporal/tls/tls.crt")
    ∷ []

abbrev pub tls_mount : VolumeMount
tls_mount = record { name = codes "temporal-tls"; mount_path = codes "/etc/temporal/tls" }

abbrev pub tls_volume : Text → Volume
tls_volume secret = record { name = codes "temporal-tls"; secret_name = some secret; rest = [] }

abbrev pub add_env : List EnvVar → Container → Container
add_env vars c = record c { env = c.env ++ vars }

abbrev pub add_tls : Container → Container
add_tls c = record c { env = c.env ++ tls_env; volume_mounts = c.volume_mounts ++ (tls_mount ∷ []) }

-- The credentials: mutual TLS first, then the API key.
unfoldable pub add_credentials : TemporalConnectionSpec → PodSpec → PodSpec
add_credentials connection p = elim connection.mutual_tls_secret_ref [
  | some secret ↦ record p {
    containers = map add_tls p.containers;
    volumes = p.volumes ++ (tls_volume secret ∷ []);
  }
  | none ↦ elim connection.api_key_secret_ref [
    | some ref ↦ record p {
      containers = map (add_env (secret_env_var (codes "TEMPORAL_API_KEY") ref ∷ [])) p.containers;
    }
    | none ↦ p
  ]
]

-- `ApplyControllerPodSpecModifications`
unfoldable pub apply_controller_pod_spec_modifications :
    PodSpec → TemporalConnectionSpec → Text → Text → Text → PodSpec
apply_controller_pod_spec_modifications p connection temporal_namespace worker_deployment_name
      build_id =
    let vars = controller_env connection temporal_namespace worker_deployment_name build_id in
    add_credentials connection (record p { containers = map (add_env vars) p.containers })

module _ (lib : Libraries) where
  abbrev pub connection_secret : TemporalConnectionSpec → Text
  connection_secret connection = elim connection.mutual_tls_secret_ref [
    | some secret ↦ secret
    | none ↦ elim connection.api_key_secret_ref [ some ref ↦ ref.name | none ↦ [] ]
  ]

  -- `ComputeConnectionSpecHash`; writes to a hasher are one after the other.
  unfoldable pub compute_connection_spec_hash : TemporalConnectionSpec → Text
  compute_connection_spec_hash connection =
      if is_empty connection.host_port
      then []
      else lib.sha256_hex (connection.host_port ++ connection_secret connection)

  -- `ComputePodTemplateSpecHash`
  unfoldable pub compute_pod_template_spec_hash : PodTemplateSpec → Text
  compute_pod_template_spec_hash template = lib.sha256_hex (lib.dump template)

  -- The annotations of the pods: the user's, then the two hashes.
  unfoldable pub pod_annotations : TemporalConnectionSpec → PodTemplateSpec → StringMap Text
  pod_annotations connection template =
      insert pod_template_spec_hash_annotation (compute_pod_template_spec_hash template) (
        insert connection_spec_hash_annotation (compute_connection_spec_hash connection)
          (insert_all [] (entries template.annotations)))

  unfoldable pub selector_labels : Text → Text → StringMap Text
  selector_labels name build_id =
      insert build_id_label (truncate_string build_id (pos 63))
        (insert twd_name_label (truncate_string (clean_string_for_dns name) (pos 63)) [])

  -- `NewDeploymentWithOwnerRef`; the object's uid, creation time and status are the cluster's to set.
  unfoldable pub new_deployment_with_owner_ref :
      TypeMeta
      → ObjectMeta
      → TemporalWorkerDeploymentSpec
      → Text
      → Text
      → TemporalConnectionSpec
      → Deployment
  new_deployment_with_owner_ref type_meta object_meta spec worker_deployment_name build_id
        connection =
      let selector = selector_labels object_meta.name build_id in
      record {
        name = compute_versioned_deployment_name object_meta.name build_id;
        namespace = object_meta.namespace;
        uid = [];
        api_version = [];
        kind = [];
        creation_timestamp = pos 0;
        labels = some selector;
        annotations = spec.template.annotations;
        owner_references =
            record {
              api_version = type_meta.api_version;
              kind = type_meta.kind;
              name = object_meta.name;
              uid = object_meta.uid;
              block_owner_deletion = true;
            }
            ∷ [];
        replicas = spec.replicas;
        match_labels = selector;
        template = record {
          labels = some (insert_all (insert_all [] (entries spec.template.labels)) selector);
          annotations = some (pod_annotations connection spec.template);
          spec =
              apply_controller_pod_spec_modifications spec.template.spec connection
                spec.worker_options.temporal_namespace worker_deployment_name build_id;
        };
        min_ready_seconds = spec.min_ready_seconds;
        conditions = [];
        status_replicas = pos 0;
      }
