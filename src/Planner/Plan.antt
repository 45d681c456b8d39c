-- ===== src/Planner/Plan.antt =====
-- `GeneratePlan`. The logger is left out. The updates of deployments come last of the four reads of
-- the cluster, so deletion and scaling see the objects as they were listed.
pub mod Parts
pub mod Total
use temporal_worker_controll.Base.{
  ℤ, Text, is_empty, StringMap, Option, none, some, List, [], ◌∷◌, ◌++◌, Bool, false, not, ◌&&◌,
  is_some, is_nil, if◌then◌else◌, Outcome, ok, ◌>>=◌,
}
use temporal_worker_controll.Api.Cluster.{Deployment}
use temporal_worker_controll.Api.Types.{
  RolloutStrategy, TemporalConnectionSpec, TemporalWorkerDeploymentSpec,
  TemporalWorkerDeploymentStatus,
}
use temporal_worker_controll.K8s.State.{DeploymentState}
use temporal_worker_controll.K8s.Names.{Libraries}
use temporal_worker_controll.Server.Types.{TemporalWorkerState}
use temporal_worker_controll.Planner.Types.{VersionConfig, WorkflowConfig}
use temporal_worker_controll.Planner.Delete.{get_delete_deployments}
use temporal_worker_controll.Planner.Scale.{ScaleDeployments, get_scale_deployments}
use temporal_worker_controll.Planner.Create.{should_create_deployment}
use temporal_worker_controll.Planner.Update.{get_update_deployments}
use temporal_worker_controll.Planner.Gate.{get_test_workflows}
use temporal_worker_controll.Planner.Config.{get_version_config_diff}

-- `updated` holds the objects of the cluster's state after the updates in place.
pub record Plan : Type 0 where
  pub delete_deployments : List Text
  pub scale_deployments : ScaleDeployments
  pub update_deployments : List Text
  pub updated : StringMap Deployment
  pub should_create_deployment : Bool
  pub version_config : Option VersionConfig
  pub test_workflows : List WorkflowConfig
  pub remove_ignore_last_modifier_builds : List Text

abbrev pub found_in_temporal : Option TemporalWorkerState → Bool
found_in_temporal none = false
found_in_temporal (some state) = not (is_nil state.versions)

abbrev pub build_if_set : Text → List Text
build_if_set b = if is_empty b then [] else b ∷ []

-- The builds that lose the `IgnoreLastModifierKey`.
unfoldable pub remove_builds : Option TemporalWorkerState → Option VersionConfig → List Text
remove_builds none vcfg = []
remove_builds (some state) vcfg =
    if state.ignore_last_modifier && is_some vcfg
    then build_if_set state.ramping_build_id ++ build_if_set state.current_build_id
    else []

unfoldable pub generate_plan :
    Libraries
    → ℤ
    → DeploymentState
    → TemporalWorkerDeploymentStatus
    → TemporalWorkerDeploymentSpec
    → Option TemporalWorkerState
    → TemporalConnectionSpec
    → RolloutStrategy
    → Text
    → ℤ
    → Text
    → Bool
    → Outcome Plan
generate_plan lib now k8s_state status spec temporal_state connection strategy name max_ineligible
      gate_input is_secret =
    do
      deletes ← get_delete_deployments now k8s_state status spec (found_in_temporal temporal_state)
      scales ← get_scale_deployments now k8s_state status spec
      updates ← get_update_deployments lib k8s_state status spec connection
      vcfg ← get_version_config_diff now status temporal_state strategy
      ok (record {
        delete_deployments = deletes;
        scale_deployments = scales;
        update_deployments = updates.1;
        updated = updates.0;
        should_create_deployment = should_create_deployment status max_ineligible;
        version_config = vcfg;
        test_workflows = get_test_workflows status strategy name gate_input is_secret;
        remove_ignore_last_modifier_builds = remove_builds temporal_state vcfg;
      })
