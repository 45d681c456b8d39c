-- ===== src/Planner/Plan/Parts.antt =====
-- The parts of a plan that `GeneratePlan` returns.
use mathlib.Core.Path.{subst}
use temporal_worker_controll.Base.{ℤ, Text, Option, Bool, ok, bind-eq-ok, ok-injective, ◌≡◌, refl}
use temporal_worker_controll.Api.Types.{
  RolloutStrategy, TemporalConnectionSpec, TemporalWorkerDeploymentSpec,
  TemporalWorkerDeploymentStatus,
}
use temporal_worker_controll.K8s.State.{DeploymentState}
use temporal_worker_controll.K8s.Names.{Libraries}
use temporal_worker_controll.Server.Types.{TemporalWorkerState}
use temporal_worker_controll.Planner.Delete.{get_delete_deployments}
use temporal_worker_controll.Planner.Scale.{get_scale_deployments}
use temporal_worker_controll.Planner.Update.{get_update_deployments}
use temporal_worker_controll.Planner.Config.{get_version_config_diff}
use temporal_worker_controll.Planner.Plan.{Plan, found_in_temporal, remove_builds, generate_plan}

module _ (lib : Libraries) (now : ℤ) (k8s_state : DeploymentState)
    (status : TemporalWorkerDeploymentStatus) (spec : TemporalWorkerDeploymentSpec)
    (state : Option TemporalWorkerState) (connection : TemporalConnectionSpec)
    (strategy : RolloutStrategy) (name : Text) (max : ℤ) (input : Text) (is_secret : Bool) where
  pub record Parts (p : Plan) : Type 0 where
    pub deletes :
        get_delete_deployments now k8s_state status spec (found_in_temporal state)
        ≡ ok p.delete_deployments
    pub updates :
        get_update_deployments lib k8s_state status spec connection
        ≡ ok (p.updated, p.update_deployments)
    pub routing : get_version_config_diff now status state strategy ≡ ok p.version_config
    pub removes : p.remove_ignore_last_modifier_builds ≡ remove_builds state p.version_config

  pub generate_plan-Parts :
      {p : Plan}
      → generate_plan lib now k8s_state status spec state connection strategy name max input
          is_secret
        ≡ ok p
      → Parts p
  unfolding generate_plan
  generate_plan-Parts {p} h =
      let (deletes, e, h1) =
        bind-eq-ok (get_delete_deployments now k8s_state status spec (found_in_temporal state)) _
          h in
      let (scales, e1, h2) = bind-eq-ok (get_scale_deployments now k8s_state status spec) _ h1 in
      let (updates, e2, h3) =
        bind-eq-ok (get_update_deployments lib k8s_state status spec connection) _ h2 in
      let (vcfg, e3, h4) = bind-eq-ok (get_version_config_diff now status state strategy) _ h3 in
      subst Parts (ok-injective h4)
        (record { deletes = e; updates = e2; routing = e3; removes = refl })
