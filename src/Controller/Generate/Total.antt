-- ===== src/Controller/Generate/Total.antt =====
-- When `generatePlan` returns.
use temporal_worker_controll.Base.{
  ℤ, Text, AllValues, Option, none, some, Bool, true, false, is_some, ok, or_fail, ok-injective,
  Returns, bind-Returns, ◌≡◌, refl, sym, ap, ◌∙◌,
}
use mathlib.Core.Path.{subst}
use temporal_worker_controll.Api.Cluster.{Deployment}
use temporal_worker_controll.Api.Types.{
  RolloutStrategy, TemporalConnectionSpec, TemporalWorkerDeployment, TemporalWorkerDeploymentSpec,
}
use temporal_worker_controll.Api.Times.{IsSameButTimes}
use temporal_worker_controll.Api.Webhook.{default_spec}
use temporal_worker_controll.K8s.State.{DeploymentState}
use temporal_worker_controll.K8s.Names.{Libraries, compute_build_id, compute_worker_deployment_name}
use temporal_worker_controll.Server.Types.{TemporalWorkerState}
use temporal_worker_controll.Mapper.{map_to_status}
use temporal_worker_controll.Mapper.Known.{IsDated}
use temporal_worker_controll.Planner.Plan.{generate_plan}
use temporal_worker_controll.Planner.Plan.Total.{IsComplete, same_but_times-Returns}
use temporal_worker_controll.Controller.Generate.{
  Cluster, for_plan, read_deployments, is_taken_over, effective_strategy, fetch_gate_input,
  new_deployment_with_controller_ref, new_deployment, create_if_planned, controller_plan,
  generate_controller_plan,
}

effective_strategy_gate :
    (taken : Bool) (strategy : RolloutStrategy)
    → (effective_strategy taken strategy).gate ≡ strategy.gate
unfolding effective_strategy
effective_strategy_gate true strategy = refl
effective_strategy_gate false strategy = refl

or_fail-Returns :
    {A : Type 0} (o : Option A) (text : Text) → is_some o ≡ true → Returns (or_fail o text)
or_fail-Returns none text h = absurd (cc)
or_fail-Returns (some a) text h = (a, refl)

module _ (lib : Libraries) (cluster : Cluster)
    (owns : (w : TemporalWorkerDeployment) (d : Deployment)
      → is_some (cluster.set_controller_reference w d) ≡ true) where
  new_deployment-Returns :
      (w : TemporalWorkerDeployment) (b : Text) (connection : TemporalConnectionSpec)
      → Returns (new_deployment lib cluster w b connection)
  unfolding new_deployment new_deployment_with_controller_ref
  new_deployment-Returns w b connection = or_fail-Returns _ _ (owns w _)

  create_if_planned-Returns :
      (wanted : Bool) (w : TemporalWorkerDeployment) (connection : TemporalConnectionSpec)
      → Returns (create_if_planned lib cluster wanted w connection)
  unfolding create_if_planned
  create_if_planned-Returns false w connection = (none, refl)
  create_if_planned-Returns true w connection =
      bind-Returns (new_deployment lib cluster w (compute_build_id lib w) connection) _
        (new_deployment-Returns w (compute_build_id lib w) connection) (λ d e. (some d, refl))

  -- For an object whose spec has its defaults and whose status is the mapped one, but for its times.
  pub generate_controller_plan-Returns :
      (now : ℤ) (identity : Text) (max : ℤ) (w : TemporalWorkerDeployment)
      (connection : TemporalConnectionSpec) (state : TemporalWorkerState)
      (k8s_state k8s_state' : DeploymentState) (target : Text) (spec : TemporalWorkerDeploymentSpec)
      (input : Text × Bool)
      → IsSameButTimes w.status (map_to_status k8s_state state target)
      → w.spec ≡ default_spec spec
      → read_deployments cluster for_plan ≡ ok k8s_state'
      → fetch_gate_input cluster w.object_meta.namespace w.spec.rollout_strategy.gate ≡ ok input
      → is_some spec.replicas ≡ true
      → AllValues IsComplete k8s_state'.deployments
      → AllValues IsDated state.versions
      → Returns (generate_controller_plan lib cluster now identity max w connection state)
  unfolding generate_controller_plan
  generate_controller_plan-Returns now identity max w connection state k8s_state k8s_state' target
        spec input mapped filled listed fetched counted complete dated =
      let taken =
        is_taken_over identity w.status.last_modifier_identity state.ignore_last_modifier in
      let strategy = effective_strategy taken w.spec.rollout_strategy in
      bind-Returns (read_deployments cluster for_plan) _ (k8s_state', listed)
        (λ listed' e.
          bind-Returns (fetch_gate_input cluster w.object_meta.namespace strategy.gate) _
            (
              input,
              ap (λ gate. fetch_gate_input cluster w.object_meta.namespace gate)
                    (effective_strategy_gate taken w.spec.rollout_strategy)
                  ∙ fetched,
            )
            (λ input' e'.
              bind-Returns
                (generate_plan lib now listed' w.status w.spec (some state) connection strategy
                  (compute_worker_deployment_name w) max input'.0 input'.1)
                _ (planned listed' e input'.0 input'.1)
                (λ p e''.
                  bind-Returns
                    (create_if_planned lib cluster p.should_create_deployment w connection) _
                    (create_if_planned-Returns p.should_create_deployment w connection)
                    (λ new e'''. (controller_plan lib cluster w p new, refl)))))
    where
      planned :
          (found : DeploymentState)
          → read_deployments cluster for_plan ≡ ok found
          → (i : Text) (is_secret : Bool)
          → Returns (
              generate_plan lib now found w.status w.spec
                (some state)
                connection
                (effective_strategy
                  (is_taken_over identity w.status.last_modifier_identity
                    state.ignore_last_modifier)
                  w.spec.rollout_strategy)
                (compute_worker_deployment_name w)
                max
                i
                is_secret)
      planned found e i is_secret =
          let strategy =
            effective_strategy
              (is_taken_over identity w.status.last_modifier_identity state.ignore_last_modifier)
              w.spec.rollout_strategy in
          let name = compute_worker_deployment_name w in
          subst
            (λ ds. Returns (
              generate_plan lib now ds w.status w.spec (some state) connection strategy name max i
                is_secret))
            (ok-injective (sym listed ∙ e))
            (subst
              (λ sp. Returns (
                generate_plan lib now k8s_state' w.status sp (some state) connection strategy name
                  max i is_secret))
              (sym filled)
              (same_but_times-Returns lib now k8s_state k8s_state' w.status state target spec
                connection strategy name max i is_secret mapped counted complete dated))
