-- ===== src/Controller/Reconcile.antt =====
-- internal/controller/worker_controller.go: `Reconcile`, one round for one resource. What the cluster,
-- the server and the SDK answer during the round is the parameter `Round`. A round changes the pool of
-- clients, and it issues commands, in the order in which they stand in the result.
pub mod Deletes
pub mod Clients
pub mod Completes
use temporal_worker_controll.Base.{
  ℕ, ◌*◌, ℤ, pos, Text, codes, ◌==◌, Option, none, some, List, [], ◌∷◌, ◌++◌, Bool, true, false,
  is_nil, not, ◌||◌, if◌then◌else◌, Outcome, Error, ok, err, or_fail, panic,
}
use temporal_worker_controll.Api.Types.{
  TemporalConnectionSpec, TemporalWorkerDeployment, TemporalWorkerDeploymentStatus,
}
use temporal_worker_controll.Api.Webhook.{default_spec, validate_for_update_or_create}
use temporal_worker_controll.Api.Cluster.{KeySelector, OwnerReference}
use temporal_worker_controll.K8s.Names.{Libraries, compute_build_id}
use temporal_worker_controll.Server.Types.{TemporalWorkerState}
use temporal_worker_controll.Server.Client.{Answer, answer, not_found, unavailable, Server}
use temporal_worker_controll.Server.Deployment.{get_worker_deployment_state}
use temporal_worker_controll.Pool.Keys.{AuthMode, ClientPoolKey}
use temporal_worker_controll.Pool.{
  ClientPool, NewClientOptions, Outside, get_sdk_client, upsert_client,
}
use temporal_worker_controll.Controller.Commands.{
  Command, World, Action, pure, lift, and_then, ◌>>=◌, ◌>>◌, answer_of, command,
}
use temporal_worker_controll.Controller.Status.{generate_status}
use temporal_worker_controll.Controller.Execute.{ControllerPlan, execute_plan}
use temporal_worker_controll.Controller.Generate.{
  Cluster, for_status, read_deployments, generate_controller_plan,
}
use temporal_worker_controll.Controller.Environment.{
  Environment, get_controller_identity, get_controller_version,
}

-- `ctrl.Result`
pub record RequeueResult : Type 0 where
  pub requeue : Bool
  pub requeue_after : ℤ

abbrev pub no_requeue : RequeueResult
no_requeue = record { requeue = false; requeue_after = pos 0 }

abbrev pub requeue_in_seconds : ℕ → RequeueResult
requeue_in_seconds n = record { requeue = true; requeue_after = pos (n * 1000000000) }

-- `stored` is the object that the API server answers a status update with. It need not be the one that
-- was sent: the defaults, which were never written, are missing from it, and times are kept to the
-- second. `is_conflict` tells from an error's text whether it is a conflict. A server stands behind each client.
pub record Round : Type 0 where
  pub worker : Answer TemporalWorkerDeployment
  pub connection : Text → Option TemporalConnectionSpec
  pub cluster : Cluster
  pub outside : Outside
  pub server : ℕ → Server
  pub stored : TemporalWorkerDeployment → TemporalWorkerDeployment
  pub is_conflict : Text → Bool
  pub libraries : Libraries
  pub environment : Environment
  pub max_ineligible : ℤ
  pub now : ℤ

-- `getTLSSecretName` and `getAPIKeySecretName`
unfoldable pub get_tls_secret_name : Option Text → Outcome Text
get_tls_secret_name ref = or_fail ref (codes "TLS secret name is not set")

unfoldable pub get_api_key_secret_name : Option KeySelector → Outcome Text
get_api_key_secret_name none = err (Error.external (codes "API key secret name is not set"))
get_api_key_secret_name (some ref) = ok ref.name

abbrev pub with_mode : AuthMode → Outcome Text → Outcome (AuthMode × Text)
with_mode mode (ok name) = ok (mode, name)
with_mode mode (err e) = err e
with_mode mode panic = panic

-- `resolveAuthSecretName`
unfoldable pub resolve_auth_secret_name : TemporalConnectionSpec → Outcome (AuthMode × Text)
resolve_auth_secret_name spec = elim spec.mutual_tls_secret_ref [
  | some name ↦ with_mode AuthMode.tls (get_tls_secret_name (some name))
  | none ↦ elim spec.api_key_secret_ref [
    | some ref ↦ with_mode AuthMode.api_key (get_api_key_secret_name (some ref))
    | none ↦ ok (AuthMode.no_credentials, [])
  ]
]

-- The object after `Default`.
abbrev pub defaulted : TemporalWorkerDeployment → TemporalWorkerDeployment
defaulted w = record w { spec = default_spec w.spec }

-- The key that the round looks its client up by.
abbrev pub client_key : TemporalConnectionSpec → Text → AuthMode × Text → ClientPoolKey
client_key connection temporal_namespace auth = record {
  host_port = connection.host_port;
  namespace = temporal_namespace;
  secret_name = auth.1;
  auth_mode = auth.0;
}

-- What the lookup found, or else a new client; and the pool after it.
unfoldable pub found_or_new :
    Outcome (Option ℕ) → Outcome (ℕ × ClientPool) → ClientPool → Outcome ℕ × ClientPool
found_or_new (ok (some c)) upserted clients = (ok c, clients)
found_or_new (ok none) (ok (c, clients')) clients = (ok c, clients')
found_or_new (ok none) (err e) clients = (err e, clients)
found_or_new (ok none) panic clients = (panic, clients)
found_or_new (err e) upserted clients = (err e, clients)
found_or_new panic upserted clients = (panic, clients)

abbrev pub client_options : TemporalWorkerDeployment → TemporalConnectionSpec → NewClientOptions
client_options w connection = record {
  temporal_namespace = w.spec.worker_options.temporal_namespace;
  k8s_namespace = w.object_meta.namespace;
  spec = connection;
}

unfoldable pub acquire_client :
    Outside
    → TemporalWorkerDeployment
    → TemporalConnectionSpec
    → Outcome (AuthMode × Text)
    → ClientPool
    → Outcome ℕ × ClientPool
acquire_client outside w connection (err e) clients = (err e, clients)
acquire_client outside w connection panic clients = (panic, clients)
acquire_client outside w connection (ok auth) clients =
    found_or_new
      (get_sdk_client outside.now
        (client_key connection w.spec.worker_options.temporal_namespace auth) clients)
      (upsert_client outside (client_options w connection) auth.1 auth.0 clients) clients

module _ (r : Round) (world : World) where
  -- The plan of a round and its execution.
  unfoldable pub plan_and_execute :
      TemporalWorkerDeployment → TemporalConnectionSpec → TemporalWorkerState → Action RequeueResult
  plan_and_execute w connection state = do
    p ← lift (
        generate_controller_plan r.libraries r.cluster r.now (get_controller_identity r.environment)
          r.max_ineligible w connection state)
    execute_plan world (get_controller_identity r.environment)
        (get_controller_version r.environment) p
    pure (requeue_in_seconds 10)

  -- What follows the status update, by its answer: a conflict is left to the next round.
  unfoldable pub after_status_update :
      TemporalWorkerDeployment
      → TemporalConnectionSpec
      → TemporalWorkerState
      → Option Text
      → Action RequeueResult
  after_status_update w connection state none =
      plan_and_execute (defaulted (r.stored w)) connection state
  after_status_update w connection state (some e) =
      if r.is_conflict e then pure (requeue_in_seconds 1) else lift (err (Error.external e))

  unfoldable pub update_status :
      TemporalWorkerDeployment → TemporalConnectionSpec → TemporalWorkerState → Action RequeueResult
  update_status w connection state issued =
      after_status_update w connection state (world issued (Command.update_status w.status))
        (issued ++ (Command.update_status w.status ∷ []))

  -- The round once it has a client.
  unfoldable pub with_client :
      TemporalWorkerDeployment → TemporalConnectionSpec → ℕ → Action RequeueResult
  with_client w connection c = do
    k8s_state ← lift (read_deployments r.cluster for_status)
    state ← lift (
        get_worker_deployment_state (r.server c) (get_controller_identity r.environment)
          k8s_state.deployments (compute_build_id r.libraries w) w.spec.rollout_strategy.strategy)
    let generated = generate_status r.libraries (r.server c) w state k8s_state
    update_status (record w { status = generated.0 }) connection generated.1

  -- Everything that a round leaves: its result, the pool, and the commands issued.
  abbrev pub Left : Type 0
  Left = Outcome RequeueResult × ClientPool × List Command

  unfoldable pub after_client :
      TemporalWorkerDeployment → TemporalConnectionSpec → Outcome ℕ × ClientPool → Left
  after_client w connection (c, clients) =
      let (result, issued) = and_then c (with_client w connection) [] in (result, clients, issued)

  unfoldable pub with_connection :
      TemporalWorkerDeployment → Option TemporalConnectionSpec → ClientPool → Left
  with_connection w none clients =
      (err (Error.external (codes "unable to fetch TemporalConnection")), clients, [])
  with_connection w (some connection) clients =
      after_client w connection
        (acquire_client r.outside w connection (resolve_auth_secret_name connection) clients)

  -- A resource that does not validate is tried again in five minutes.
  unfoldable pub with_worker : TemporalWorkerDeployment → ClientPool → Left
  with_worker w clients =
      if is_nil (validate_for_update_or_create w)
      then with_connection w (r.connection w.spec.worker_options.temporal_connection_ref) clients
      else (ok (requeue_in_seconds 300), clients, [])

  -- What follows the reading of the resource, after `Default`.
  unfoldable pub with_answer : Answer TemporalWorkerDeployment → ClientPool → Left
  with_answer not_found clients = (ok no_requeue, clients, [])
  with_answer unavailable clients =
      (err (Error.external (codes "unable to fetch TemporalWorker")), clients, [])
  with_answer (answer w) clients = with_worker (defaulted w) clients

  -- `Reconcile`
  unfoldable pub reconcile : ClientPool → Left
  reconcile clients = with_answer r.worker clients

-- `findTWDsUsingConnection`: the namespaces and names of the requests; a list call that fails gives none.
unfoldable pub requests_for : Text → List TemporalWorkerDeployment → List (Text × Text)
requests_for connection_name [] = []
requests_for connection_name (w ∷ ws) =
    if w.spec.worker_options.temporal_connection_ref == connection_name
    then (w.object_meta.namespace, w.object_meta.name) ∷ requests_for connection_name ws
    else requests_for connection_name ws

unfoldable pub find_twds_using_connection :
    Text → Option (List TemporalWorkerDeployment) → List (Text × Text)
find_twds_using_connection connection_name none = []
find_twds_using_connection connection_name (some ws) = requests_for connection_name ws

abbrev pub api_gv_str : Text
api_gv_str = codes "temporal.io/v1alpha1"

-- The values under which `SetupWithManager` indexes a deployment, by its controlling owner, which is
-- what `metav1.GetControllerOf` finds.
unfoldable pub owner_names : Option OwnerReference → List Text
owner_names none = []
owner_names (some owner) =
    if not (owner.api_version == api_gv_str) || not (owner.kind == codes "TemporalWorkerDeployment")
    then []
    else owner.name ∷ []
