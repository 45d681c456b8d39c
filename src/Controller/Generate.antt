-- ===== src/Controller/Generate.antt =====
-- internal/controller/genplan.go: `generatePlan`. The deployments are listed once more here, and the
-- planner works on this second reading; what the cluster answers is the parameter `Cluster`. A
-- deployment to delete or to update is the object that the planner's state holds under its build ID,
-- after the updates in place.
pub mod Parts
pub mod Deletes
pub mod TakenOver
pub mod Total
use temporal_worker_controll.Base.{
  ℤ, Text, codes, ◌==◌, is_empty, StringMap, lookup, Option, none, some, List, [], ◌∷◌, ◌++◌, map,
  Bool, true, false, not, ◌&&◌, if◌then◌else◌, Outcome, Error, ok, err, or_fail, ◌>>=◌,
}
use temporal_worker_controll.Api.Cluster.{Deployment, KeySelector}
use temporal_worker_controll.Api.Types.{
  manual, GateInputSource, GateWorkflowConfig, RolloutStrategy, TemporalConnectionSpec,
  TemporalWorkerDeployment,
}
use temporal_worker_controll.K8s.State.{DeploymentState, get_deployment_state}
use temporal_worker_controll.K8s.Names.{Libraries, compute_build_id, compute_worker_deployment_name}
use temporal_worker_controll.K8s.Pods.{new_deployment_with_owner_ref}
use temporal_worker_controll.Server.Types.{TemporalWorkerState}
use temporal_worker_controll.Planner.Types.{WorkflowConfig}
use temporal_worker_controll.Planner.Gate.{resolve_gate_input}
use temporal_worker_controll.Planner.Plan.{Plan, generate_plan}
use temporal_worker_controll.Controller.Execute.{StartWorkflowConfig, ControllerPlan}

-- Which of the two readings of the deployments it is.
pub data Listing : Type 0 where
  for_status for_plan : Listing

-- The cluster's answers; an error is none. A ConfigMap is its data and its binary data, and a secret
-- its data. `set_controller_reference` is controller-runtime's.
pub record Cluster : Type 0 where
  pub list_deployments : Listing → Option (List Deployment)
  pub get_config_map : Text → Option (Option (StringMap Text) × Option (StringMap Text))
  pub get_secret : Text → Option (Option (StringMap Text))
  pub set_controller_reference : TemporalWorkerDeployment → Deployment → Option Deployment

-- `GetDeploymentState`, with the call that lists.
unfoldable pub read_deployments : Cluster → Listing → Outcome DeploymentState
read_deployments cluster listing = do
  items ← or_fail (cluster.list_deployments listing) (codes "unable to list deployments")
  ok (get_deployment_state items)

-- `serverDeleteVersionIdentity`
abbrev pub server_delete_version_identity : Text
server_delete_version_identity = codes "try-delete-for-add-version"

-- Whether somebody else has changed the worker deployment, and the controller keeps off.
unfoldable pub is_taken_over : Text → Text → Bool → Bool
is_taken_over identity last ignore =
    not (last == identity)
    && not (last == server_delete_version_identity)
    && not (is_empty last)
    && not ignore

unfoldable pub effective_strategy : Bool → RolloutStrategy → RolloutStrategy
effective_strategy taken_over strategy =
    if taken_over then record strategy { strategy = manual } else strategy

unfoldable pub fetch_config_map :
    Cluster → Option KeySelector → Outcome (Option (StringMap Text) × Option (StringMap Text))
fetch_config_map cluster none = ok (none, none)
fetch_config_map cluster (some ref) =
    or_fail (cluster.get_config_map ref.name) (codes "failed to get ConfigMap")

unfoldable pub fetch_secret : Cluster → Option KeySelector → Outcome (Option (StringMap Text))
fetch_secret cluster none = ok none
fetch_secret cluster (some ref) =
    or_fail (cluster.get_secret ref.name) (codes "failed to get Secret")

abbrev pub config_map_ref : Option GateInputSource → Option KeySelector
config_map_ref none = none
config_map_ref (some source) = source.config_map_key_ref

abbrev pub secret_ref : Option GateInputSource → Option KeySelector
secret_ref none = none
secret_ref (some source) = source.secret_key_ref

-- The gate's input, and whether it comes from a secret.
unfoldable pub fetch_gate_input : Cluster → Text → Option GateWorkflowConfig → Outcome (Text × Bool)
fetch_gate_input cluster namespace none = ok ([], false)
fetch_gate_input cluster namespace (some gate) = do
  plain ← fetch_config_map cluster (config_map_ref gate.input_from)
  secret ← fetch_secret cluster (secret_ref gate.input_from)
  resolve_gate_input (some gate) namespace plain.0 plain.1 secret

unfoldable pub objects_under : StringMap Deployment → List Text → List Deployment
objects_under ds [] = []
objects_under ds (b ∷ bs) = elim (lookup b ds) [
  | none ↦ objects_under ds bs
  | some d ↦ d ∷ objects_under ds bs
]

abbrev pub start_config : WorkflowConfig → StartWorkflowConfig
start_config wf = record {
  workflow_type = wf.workflow_type;
  workflow_id = wf.workflow_id;
  build_id = wf.build_id;
  task_queue = wf.task_queue;
  input = wf.gate_input;
  is_input_secret = wf.is_input_secret;
}

module _ (lib : Libraries) (cluster : Cluster) where
  -- `NewDeploymentWithControllerRef` of internal/k8s/deployments.go
  unfoldable pub new_deployment_with_controller_ref :
      TemporalWorkerDeployment → Text → TemporalConnectionSpec → Outcome Deployment
  new_deployment_with_controller_ref w build_id connection =
      or_fail
        (cluster.set_controller_reference w (
          new_deployment_with_owner_ref lib w.type_meta w.object_meta w.spec
            (compute_worker_deployment_name w) build_id connection))
        (codes "unable to set the controller reference")

  -- `newDeployment`
  unfoldable pub new_deployment :
      TemporalWorkerDeployment → Text → TemporalConnectionSpec → Outcome Deployment
  new_deployment w build_id connection = new_deployment_with_controller_ref w build_id connection

  unfoldable pub create_if_planned :
      Bool → TemporalWorkerDeployment → TemporalConnectionSpec → Outcome (Option Deployment)
  create_if_planned false w connection = ok none
  create_if_planned true w connection = do
    d ← new_deployment w (compute_build_id lib w) connection
    ok (some d)

  -- The planner's result as the plan of the controller.
  unfoldable pub controller_plan :
      TemporalWorkerDeployment → Plan → Option Deployment → ControllerPlan
  controller_plan w p new = record {
    temporal_namespace = w.spec.worker_options.temporal_namespace;
    worker_deployment_name = compute_worker_deployment_name w;
    delete_deployments = objects_under p.updated p.delete_deployments;
    create_deployment = new;
    scale_deployments = p.scale_deployments;
    update_deployments = objects_under p.updated p.update_deployments;
    update_version_config = p.version_config;
    start_test_workflows = map start_config p.test_workflows;
    remove_ignore_last_modifier_builds = p.remove_ignore_last_modifier_builds;
  }

  -- `generatePlan`
  unfoldable pub generate_controller_plan :
      ℤ
      → Text
      → ℤ
      → TemporalWorkerDeployment
      → TemporalConnectionSpec
      → TemporalWorkerState
      → Outcome ControllerPlan
  generate_controller_plan now identity max_ineligible w connection temporal_state =
      let strategy =
        effective_strategy
          (is_taken_over identity w.status.last_modifier_identity
            temporal_state.ignore_last_modifier)
          w.spec.rollout_strategy in
      do
        k8s_state ← read_deployments cluster for_plan
        input ← fetch_gate_input cluster w.object_meta.namespace strategy.gate
        p ←
            generate_plan lib now k8s_state w.status w.spec (some temporal_state) connection
              strategy (compute_worker_deployment_name w) max_ineligible input.0 input.1
        new ← create_if_planned p.should_create_deployment w connection
        ok (controller_plan w p new)
