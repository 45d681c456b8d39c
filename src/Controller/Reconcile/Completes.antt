-- ===== src/Controller/Reconcile/Completes.antt =====
-- A round of `Reconcile` that is answered completes.
use temporal_worker_controll.Base.{
  ℕ, Text, AllValues, none, some, List, [], ◌∷◌, ◌++◌, Bool, true, is_nil, is_some, Outcome, ok,
  ◌≡◌, ap, ◌∙◌,
}
use temporal_worker_controll.Api.Cluster.{Deployment}
use temporal_worker_controll.Api.Times.{IsSameButTimes}
use temporal_worker_controll.Api.Types.{
  ObjectMeta, TemporalConnectionSpec, TemporalWorkerDeployment, TemporalWorkerDeploymentSpec,
}
use temporal_worker_controll.Api.Webhook.{default_spec, validate_for_update_or_create}
use temporal_worker_controll.K8s.State.{DeploymentState}
use temporal_worker_controll.K8s.Names.{compute_build_id}
use temporal_worker_controll.Mapper.{map_to_status}
use temporal_worker_controll.Mapper.Known.{IsDated}
use temporal_worker_controll.Server.Types.{TemporalWorkerState}
use temporal_worker_controll.Server.Client.{answer}
use temporal_worker_controll.Server.Deployment.{get_worker_deployment_state}
use temporal_worker_controll.Planner.Plan.Total.{IsComplete}
use temporal_worker_controll.Pool.{ClientPool}
use temporal_worker_controll.Controller.Commands.{Command, World, Action, and_then, pure}
use temporal_worker_controll.Controller.Status.{with_test_workflows, generate_status}
use temporal_worker_controll.Controller.Execute.{ControllerPlan}
use temporal_worker_controll.Controller.Status.Dated.{with_test_workflows-IsDated}
use temporal_worker_controll.Controller.Execute.Accepted.{execute_plan_accepted}
use temporal_worker_controll.Controller.Execute.Refines.{plan_commands}
use temporal_worker_controll.Controller.Generate.{
  for_status, for_plan, read_deployments, fetch_gate_input, generate_controller_plan,
}
use temporal_worker_controll.Controller.Generate.Total.{generate_controller_plan-Returns}
use temporal_worker_controll.Controller.Environment.{
  get_controller_identity, get_controller_version,
}
use temporal_worker_controll.Controller.Reconcile.{
  RequeueResult, Round, requeue_in_seconds, defaulted, resolve_auth_secret_name, acquire_client,
  plan_and_execute, after_status_update, update_status, with_client, after_client, with_connection,
  with_worker, with_answer, reconcile,
}

and_then-ok :
    {A B : Type 0} (m : Outcome A) (f : A → Action B) (issued : List Command) {a : A}
    → m ≡ ok a
    → and_then m f issued ≡ f a issued
and_then-ok m f issued e = rw e

-- The object that the round writes the status of.
abbrev pub with_status :
    Round
    → TemporalWorkerDeployment
    → DeploymentState
    → TemporalWorkerState
    → TemporalWorkerDeployment
with_status r w k8s_state state = record (defaulted w) {
  status = map_to_status k8s_state state (compute_build_id r.libraries (defaulted w));
}

module _ (r : Round) (world : World)
    (accepts : (before : List Command) (c : Command) → world before c ≡ none) where
  abbrev identity : Text
  identity = get_controller_identity r.environment

  abbrev version : Text
  version = get_controller_version r.environment

  plan_and_execute_lem :
      (w : TemporalWorkerDeployment) (connection : TemporalConnectionSpec)
      (state : TemporalWorkerState) (issued : List Command) {p : ControllerPlan}
      → generate_controller_plan r.libraries r.cluster r.now identity r.max_ineligible w connection
          state
        ≡ ok p
      → plan_and_execute r world w connection state issued
        ≡ (ok (requeue_in_seconds 10), issued ++ plan_commands identity version p)
  unfolding plan_and_execute
  plan_and_execute_lem w connection state issued {p} made =
      and_then-ok
        (generate_controller_plan r.libraries r.cluster r.now identity r.max_ineligible w connection
          state)
        _ issued made
      ∙ ap
          (λ (out : Outcome (Unit {0}) × List Command).
            and_then out.0 (λ _. pure (requeue_in_seconds 10)) out.1)
          (execute_plan_accepted world accepts identity version p issued)

  update_status_lem :
      (w : TemporalWorkerDeployment) (connection : TemporalConnectionSpec)
      (state : TemporalWorkerState) {p : ControllerPlan}
      → generate_controller_plan r.libraries r.cluster r.now identity r.max_ineligible
          (defaulted (r.stored w))
          connection
          state
        ≡ ok p
      → update_status r world w connection state [] ≡ (
        ok (requeue_in_seconds 10),
        Command.update_status w.status ∷ plan_commands identity version p,
      )
  unfolding update_status after_status_update
  update_status_lem w connection state made =
      rw (update_status, after_status_update, accepts [] (Command.update_status w.status))
        (plan_and_execute_lem (defaulted (r.stored w)) connection state
          (Command.update_status w.status ∷ []) made)

  with_client_lem :
      (w : TemporalWorkerDeployment) (connection : TemporalConnectionSpec) (c : ℕ)
      (k8s_state k8s_state' : DeploymentState) (state : TemporalWorkerState) (input : Text × Bool)
      → let target = compute_build_id r.libraries (defaulted w) in
        let state' = with_test_workflows (r.server c) target state in
        let w' = with_status r w k8s_state state' in
        ((r.stored w').spec ≡ w.spec)
        → (r.stored w').object_meta ≡ w.object_meta
        → IsSameButTimes (r.stored w').status w'.status
        → read_deployments r.cluster for_status ≡ ok k8s_state
        → get_worker_deployment_state
            (r.server c)
            identity
            k8s_state.deployments
            target
            (defaulted w).spec.rollout_strategy.strategy
          ≡ ok state
        → read_deployments r.cluster for_plan ≡ ok k8s_state'
        → fetch_gate_input r.cluster w.object_meta.namespace
            (defaulted w).spec.rollout_strategy.gate
          ≡ ok input
        → ((o : TemporalWorkerDeployment) (d : Deployment)
            → is_some (r.cluster.set_controller_reference o d) ≡ true)
        → is_some w.spec.replicas ≡ true
        → AllValues IsComplete k8s_state'.deployments
        → AllValues IsDated state.versions
        → (p : ControllerPlan) × (generate_controller_plan r.libraries r.cluster r.now identity
              r.max_ineligible
              (defaulted (r.stored w'))
              connection
              state'
            ≡ ok p)
          × (with_client r world (defaulted w) connection c [] ≡ (
            ok (requeue_in_seconds 10),
            Command.update_status w'.status ∷ plan_commands identity version p,
          ))
  unfolding with_client generate_status default_spec
  with_client_lem w connection c k8s_state k8s_state' state input specified named same listed found
        listed' fetched owns counted complete dated =
      let target = compute_build_id r.libraries (defaulted w) in
      let state' = with_test_workflows (r.server c) target state in
      let w' = with_status r w k8s_state state' in
      let refetched =
        ap
          (λ (meta : ObjectMeta).
            fetch_gate_input r.cluster meta.namespace
              (defaulted (r.stored w')).spec.rollout_strategy.gate)
          named
        ∙ (ap
              (λ (spec : TemporalWorkerDeploymentSpec).
                fetch_gate_input r.cluster w.object_meta.namespace
                  (default_spec spec).rollout_strategy.gate)
              specified
            ∙ fetched) in
      let (p, made) =
        generate_controller_plan-Returns r.libraries r.cluster owns r.now identity r.max_ineligible
          (defaulted (r.stored w')) connection state' k8s_state k8s_state' target w.spec input same
          (ap default_spec specified) listed' refetched counted complete
          (with_test_workflows-IsDated (r.server c) target state dated) in
      (
        p,
        made,
        and_then-ok (read_deployments r.cluster for_status) _ [] listed
            ∙ (and_then-ok
                  (get_worker_deployment_state (r.server c) identity k8s_state.deployments target
                    (defaulted w).spec.rollout_strategy.strategy)
                  _ [] found
                ∙ update_status_lem w' connection state' made),
      )

  -- A round that is answered completes, and does all that it has planned. The conditions: the resource
  -- is there and validates, its connection is there and gives a client, the deployments, the state of
  -- the server and the gate's input can be read, and every command is accepted; the API server answers
  -- the status update with the metadata and the spec that were read, so without the defaults, which
  -- were never written to it, and with the status it was given, but for the values of its times, which
  -- it may cut off; the spec states its replicas, every deployment states its own and has annotations
  -- on its pod template, each Drained version of the server has a drain time, and a new deployment can
  -- be given its owner. Then a plan is made for the object of that answer, with its defaults filled in
  -- again, the round writes the status mapped from what it has read and issues the commands of the
  -- plan, and no others, in order; it leaves the pool that it has got its client from, and asks for the
  -- next round in ten seconds.
  pub reconcile_completes :
      (w : TemporalWorkerDeployment) (connection : TemporalConnectionSpec) (c : ℕ)
      (clients clients' : ClientPool) (k8s_state k8s_state' : DeploymentState)
      (state : TemporalWorkerState) (input : Text × Bool)
      → let target = compute_build_id r.libraries (defaulted w) in
        let state' = with_test_workflows (r.server c) target state in
        let w' = with_status r w k8s_state state' in
        ((r.stored w').spec ≡ w.spec)
        → (r.stored w').object_meta ≡ w.object_meta
        → IsSameButTimes (r.stored w').status w'.status
        → r.worker ≡ answer w
        → is_nil (validate_for_update_or_create (defaulted w)) ≡ true
        → r.connection w.spec.worker_options.temporal_connection_ref ≡ some connection
        → acquire_client r.outside
            (defaulted w)
            connection
            (resolve_auth_secret_name connection)
            clients
          ≡ (ok c, clients')
        → read_deployments r.cluster for_status ≡ ok k8s_state
        → get_worker_deployment_state
            (r.server c)
            identity
            k8s_state.deployments
            target
            (defaulted w).spec.rollout_strategy.strategy
          ≡ ok state
        → read_deployments r.cluster for_plan ≡ ok k8s_state'
        → fetch_gate_input r.cluster w.object_meta.namespace
            (defaulted w).spec.rollout_strategy.gate
          ≡ ok input
        → ((o : TemporalWorkerDeployment) (d : Deployment)
            → is_some (r.cluster.set_controller_reference o d) ≡ true)
        → is_some w.spec.replicas ≡ true
        → AllValues IsComplete k8s_state'.deployments
        → AllValues IsDated state.versions
        → (p : ControllerPlan) × (generate_controller_plan r.libraries r.cluster r.now identity
              r.max_ineligible
              (defaulted (r.stored w'))
              connection
              state'
            ≡ ok p)
          × (reconcile r world clients ≡ (
            ok (requeue_in_seconds 10),
            clients',
            Command.update_status w'.status ∷ plan_commands identity version p,
          ))
  unfolding reconcile with_answer with_worker with_connection after_client default_spec
  reconcile_completes w connection c clients clients' k8s_state k8s_state' state input specified
        named same read valid connected acquired listed found listed' fetched owns counted complete
        dated =
      let (p, made, done) =
        with_client_lem w connection c k8s_state k8s_state' state input specified named same listed
          found listed' fetched owns counted complete dated in
      (
        p,
        made,
        ap (λ a. with_answer r world a clients) read
            ∙ rw valid (
                ap (λ o. with_connection r world (defaulted w) o clients) connected
                ∙ (ap (λ got. after_client r world (defaulted w) connection got) acquired
                    ∙ ap (λ (out : Outcome RequeueResult × List Command). (out.0, clients', out.1))
                        done)),
      )
