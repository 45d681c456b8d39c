-- ===== src/Controller/Generate/Parts.antt =====
-- The parts of a plan that `generatePlan` returns.
use temporal_worker_controll.Base.{
  ℤ, Text, Option, some, Bool, ok, bind-eq-ok, ok-injective, ◌≡◌, sym,
}
use temporal_worker_controll.Api.Cluster.{Deployment}
use temporal_worker_controll.Api.Types.{
  RolloutStrategy, TemporalConnectionSpec, TemporalWorkerDeployment,
}
use temporal_worker_controll.K8s.State.{DeploymentState}
use temporal_worker_controll.K8s.Names.{Libraries, compute_worker_deployment_name}
use temporal_worker_controll.Server.Types.{TemporalWorkerState}
use temporal_worker_controll.Planner.Plan.{Plan, generate_plan}
use temporal_worker_controll.Controller.Execute.{ControllerPlan}
use temporal_worker_controll.Controller.Generate.{
  Cluster, for_plan, read_deployments, is_taken_over, effective_strategy, fetch_gate_input,
  create_if_planned, controller_plan, generate_controller_plan,
}

module _ (lib : Libraries) (cluster : Cluster) (now : ℤ) (identity : Text) (max : ℤ)
    (w : TemporalWorkerDeployment) (connection : TemporalConnectionSpec)
    (state : TemporalWorkerState) where
  abbrev pub used_strategy : RolloutStrategy
  used_strategy =
      effective_strategy
        (is_taken_over identity w.status.last_modifier_identity state.ignore_last_modifier)
        w.spec.rollout_strategy

  pub record PlannedFrom (p : ControllerPlan) : Type 0 where
    pub listed : DeploymentState
    pub input : Text × Bool
    pub planned : Plan
    pub new : Option Deployment
    pub reads : read_deployments cluster for_plan ≡ ok listed
    pub plans :
        generate_plan lib now listed w.status w.spec
          (some state)
          connection
          used_strategy
          (compute_worker_deployment_name w)
          max
          input.0
          input.1
        ≡ ok planned
    pub made : p ≡ controller_plan lib cluster w planned new

  pub generate_controller_plan_parts :
      {p : ControllerPlan}
      → generate_controller_plan lib cluster now identity max w connection state ≡ ok p
      → PlannedFrom p
  unfolding generate_controller_plan
  generate_controller_plan_parts {p} h =
      let (listed, e, h1) = bind-eq-ok (read_deployments cluster for_plan) _ h in
      let (input, e1, h2) =
        bind-eq-ok (fetch_gate_input cluster w.object_meta.namespace used_strategy.gate) _ h1 in
      let (planned, e2, h3) =
        bind-eq-ok
          (generate_plan lib now listed w.status w.spec (some state) connection used_strategy
            (compute_worker_deployment_name w) max input.0 input.1)
          _ h2 in
      let (new, e3, h4) =
        bind-eq-ok (create_if_planned lib cluster planned.should_create_deployment w connection) _
          h3 in
      record {
        listed = listed;
        input = input;
        planned = planned;
        new = new;
        reads = e;
        plans = e2;
        made = sym (ok-injective h4);
      }
