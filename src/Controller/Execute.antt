-- ===== src/Controller/Execute.antt =====
-- internal/controller/execplan.go: `executePlan`, a loop for each kind of command, in the order of the
-- source. The map of the counts is visited in the order of its list, which is arbitrary. What is only
-- logged is left out.
pub mod Refines
pub mod Issued
pub mod Accepted
use temporal_worker_controll.Base.{
  ℤ, pos, ltb_ℤ, ℕ, to_int32, to_float32, Text, codes, is_empty, StringMap, lookup, Option, none,
  some, List, [], ◌∷◌, ◌++◌, Bool, true, false, if◌then◌else◌,
}
use temporal_worker_controll.Api.Cluster.{Deployment, ObjectReference}
use temporal_worker_controll.Planner.Types.{VersionConfig}
use temporal_worker_controll.Planner.Scale.{ScaleDeployments}
use temporal_worker_controll.Server.Deployment.{ignore_last_modifier_key}
use temporal_worker_controll.Controller.Commands.{
  StartWorkflow, Command, World, Action, pure, ◌>>=◌, ◌>>◌, command, for_each,
}

-- `startWorkflowConfig`
pub record StartWorkflowConfig : Type 0 where
  pub workflow_type : Text
  pub workflow_id : Text
  pub build_id : Text
  pub task_queue : Text
  pub input : Text
  pub is_input_secret : Bool

-- `plan`
pub record ControllerPlan : Type 0 where
  pub temporal_namespace : Text
  pub worker_deployment_name : Text
  pub delete_deployments : List Deployment
  pub create_deployment : Option Deployment
  pub scale_deployments : ScaleDeployments
  pub update_deployments : List Deployment
  pub update_version_config : Option VersionConfig
  pub start_test_workflows : List StartWorkflowConfig
  pub remove_ignore_last_modifier_builds : List Text

-- The names of the metadata that the controller leaves on a version.
abbrev pub controller_identity_metadata_key : Text
controller_identity_metadata_key = codes "temporal.io/controller"

abbrev pub controller_version_metadata_key : Text
controller_version_metadata_key = codes "temporal.io/controller-version"

-- The options of the workflow's start, and its input if there is one.
unfoldable pub start_of : Text → StartWorkflowConfig → StartWorkflow
start_of deployment_name wf = record {
  id = wf.workflow_id;
  task_queue = wf.task_queue;
  workflow_type = wf.workflow_type;
  deployment_name = deployment_name;
  build_id = wf.build_id;
  input = if is_empty wf.input then none else some wf.input;
}

-- The command that changes the routing.
unfoldable pub routing_command : Text → VersionConfig → Command
routing_command identity vcfg =
    if vcfg.set_current
    then Command.set_current_version vcfg.build_id vcfg.conflict_token identity
    else Command.set_ramping_version vcfg.build_id (to_float32 vcfg.ramp_percentage)
        vcfg.conflict_token identity

-- The metadata that follows it.
unfoldable pub metadata_command : Text → Text → Text → VersionConfig → Command
metadata_command identity controller_version deployment_name vcfg =
    Command.upsert_metadata deployment_name vcfg.build_id (
      (controller_identity_metadata_key, identity)
      ∷ (controller_version_metadata_key, controller_version)
      ∷ [])

-- The identity and the version of the controller are those of its environment.
module _ (world : World) (identity controller_version : Text) where
  unfoldable pub create_if_set : Option Deployment → Action (Unit {0})
  create_if_set none = pure tt
  create_if_set (some d) = command world (Command.create_deployment d)

  unfoldable pub scale_one : ObjectReference × ℕ → Action (Unit {0})
  scale_one (ref, replicas) = command world (Command.scale_deployment ref (to_int32 (pos replicas)))

  unfoldable pub register_version : Text → Option VersionConfig → Action (Unit {0})
  register_version deployment_name none = pure tt
  register_version deployment_name (some vcfg) = do
    command world (routing_command identity vcfg)
    command world (metadata_command identity controller_version deployment_name vcfg)

  unfoldable pub remove_key : Text → Text → Action (Unit {0})
  remove_key deployment_name build_id =
      command world
        (Command.remove_metadata deployment_name build_id (ignore_last_modifier_key ∷ []))

  -- `executePlan`
  unfoldable pub execute_plan : ControllerPlan → Action (Unit {0})
  execute_plan p = do
    create_if_set p.create_deployment
    for_each (λ d. command world (Command.delete_deployment d)) p.delete_deployments
    for_each scale_one p.scale_deployments
    for_each (λ d. command world (Command.update_deployment d)) p.update_deployments
    for_each (λ wf. command world (Command.start_workflow (start_of p.worker_deployment_name wf)))
        p.start_test_workflows
    register_version p.worker_deployment_name p.update_version_config
    for_each (λ b. remove_key p.worker_deployment_name b) p.remove_ignore_last_modifier_builds
