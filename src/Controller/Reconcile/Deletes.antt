-- ===== src/Controller/Reconcile/Deletes.antt =====
-- What a round of `Reconcile` deletes.
use mathlib.Core.Path.{subst}
use temporal_worker_controll.Base.{
  ℕ, Text, Option, none, some, List, [], ◌∷◌, Bool, is_nil, if◌then◌else◌, Outcome, Error, ok, err,
  panic, Elem, ◌≡◌, refl, inl, inr, sym, Bool-cases,
}
use temporal_worker_controll.Api.Cluster.{Deployment}
use temporal_worker_controll.Api.Types.{TemporalConnectionSpec, TemporalWorkerDeployment}
use temporal_worker_controll.Api.Times.{HasSameVersions}
use temporal_worker_controll.Api.Webhook.{default_spec, validate_for_update_or_create}
use temporal_worker_controll.K8s.State.{DeploymentState}
use temporal_worker_controll.K8s.Names.{compute_build_id}
use temporal_worker_controll.Mapper.{map_to_status}
use temporal_worker_controll.Server.Types.{TemporalWorkerState}
use temporal_worker_controll.Server.Client.{Answer, answer, not_found, unavailable}
use temporal_worker_controll.Server.Deployment.{get_worker_deployment_state}
use temporal_worker_controll.Pool.{ClientPool}
use temporal_worker_controll.Controller.Commands.{Command, World, Action, and_then, pure, lift}
use temporal_worker_controll.Controller.Status.{with_test_workflows, generate_status}
use temporal_worker_controll.Controller.Status.Current.{with_test_workflows-current}
use temporal_worker_controll.Controller.Execute.{ControllerPlan, execute_plan}
use temporal_worker_controll.Controller.Execute.Issued.{execute_plan-delete}
use temporal_worker_controll.Controller.Generate.{
  for_status, read_deployments, generate_controller_plan,
}
use temporal_worker_controll.Controller.Generate.Deletes.{IsSpare, generate_controller_plan-IsSpare}
use temporal_worker_controll.Controller.Environment.{
  get_controller_identity, get_controller_version,
}
use temporal_worker_controll.Controller.Reconcile.{
  Round, defaulted, plan_and_execute, after_status_update, update_status, with_client, after_client,
  with_connection, with_worker, with_answer, reconcile, acquire_client, resolve_auth_secret_name,
  requeue_in_seconds,
}

module _ (r : Round) (world : World) where
  -- The round has read the resource, its connection and its deployments, has got a client, and has read
  -- the state of the server through it; and the object is of a build ID that is neither current on the
  -- server nor the target of the resource.
  pub record IsSpareNow (clients : ClientPool) (d : Deployment) : Type 0 where
    pub w : TemporalWorkerDeployment
    pub connection : TemporalConnectionSpec
    pub client : ℕ
    pub k8s_state : DeploymentState
    pub state : TemporalWorkerState
    pub worker_read : r.worker ≡ answer w
    pub connection_read :
        r.connection w.spec.worker_options.temporal_connection_ref ≡ some connection
    pub client_acquired :
        (acquire_client r.outside
          (defaulted w)
          connection
          (resolve_auth_secret_name connection)
          clients).0
        ≡ ok client
    pub deployments_read : read_deployments r.cluster for_status ≡ ok k8s_state
    pub state_read :
        get_worker_deployment_state
          (r.server client)
          (get_controller_identity r.environment)
          k8s_state.deployments
          (compute_build_id r.libraries (defaulted w))
          (defaulted w).spec.rollout_strategy.strategy
        ≡ ok state
    pub spare : IsSpare state.current_build_id (compute_build_id r.libraries (defaulted w)) d

  -- Whatever the commands delete has the property.
  abbrev Deletes : (Deployment → Type 0) → List Command → Type 0
  Deletes P issued = (d : Deployment) → Elem (Command.delete_deployment d) issued → P d

  and_then-Deletes :
      {A B : Type 0} (P : Deployment → Type 0) (m : Outcome A) (f : A → Action B)
      (issued : List Command)
      → Deletes P issued
      → ((a : A) → m ≡ ok a → Deletes P (f a issued).1)
      → Deletes P (and_then m f issued).1
  and_then-Deletes P (ok a) f issued before after = after a refl
  and_then-Deletes P (err e) f issued before after = before
  and_then-Deletes P panic f issued before after = before

  plan_and_execute-Deletes :
      (w : TemporalWorkerDeployment) (connection : TemporalConnectionSpec)
      (state : TemporalWorkerState) (k8s_state : DeploymentState) (target : Text)
      (issued : List Command)
      → HasSameVersions w.status (map_to_status k8s_state state target)
      → Deletes (IsSpare state.current_build_id target) issued
      → Deletes
          (IsSpare state.current_build_id target)
          (plan_and_execute r world w connection state issued).1
  unfolding plan_and_execute
  plan_and_execute-Deletes w connection state k8s_state target issued mapped before =
      let identity = get_controller_identity r.environment in
      let version = get_controller_version r.environment in
      and_then-Deletes (IsSpare state.current_build_id target)
        (generate_controller_plan r.libraries r.cluster r.now identity r.max_ineligible w connection
          state)
        _ issued before
        (λ p made.
          and_then-Deletes (IsSpare state.current_build_id target)
            (execute_plan world identity version p issued).0 _
            (execute_plan world identity version p issued).1 (executed p made)
            (λ u e. executed p made))
    where
      executed :
          (p : ControllerPlan)
          → generate_controller_plan r.libraries r.cluster r.now
              (get_controller_identity r.environment)
              r.max_ineligible
              w
              connection
              state
            ≡ ok p
          → Deletes
              (IsSpare state.current_build_id target)
              (execute_plan world
                (get_controller_identity r.environment)
                (get_controller_version r.environment)
                p
                issued).1
      executed p made d m =
          elim (execute_plan-delete world (get_controller_identity r.environment)
            (get_controller_version r.environment) p issued d m) [
              | inl old ↦ before d old
              | inr planned ↦
                  generate_controller_plan-IsSpare r.libraries r.cluster r.now
                    (get_controller_identity r.environment) r.max_ineligible w connection state
                    k8s_state target mapped made d planned
            ]

  after_status_update-Deletes :
      (w : TemporalWorkerDeployment) (connection : TemporalConnectionSpec)
      (state : TemporalWorkerState) (k8s_state : DeploymentState) (target : Text)
      (response : Option Text) (issued : List Command)
      → HasSameVersions (r.stored w).status (map_to_status k8s_state state target)
      → Deletes (IsSpare state.current_build_id target) issued
      → Deletes
          (IsSpare state.current_build_id target)
          (after_status_update r world w connection state response issued).1
  unfolding after_status_update
  after_status_update-Deletes w connection state k8s_state target none issued mapped before =
      plan_and_execute-Deletes (defaulted (r.stored w)) connection state k8s_state target issued
        mapped before
  after_status_update-Deletes w connection state k8s_state target (some e) issued mapped before =
      elim (Bool-cases (r.is_conflict e)) [
        | inl conflict ↦
            subst
              (λ (b : Bool).
                Deletes (IsSpare state.current_build_id target)
                  ((if b then pure (requeue_in_seconds 1) else lift (err (Error.external e)))
                    issued).1)
              (sym conflict) before
        | inr other ↦
            subst
              (λ (b : Bool).
                Deletes (IsSpare state.current_build_id target)
                  ((if b then pure (requeue_in_seconds 1) else lift (err (Error.external e)))
                    issued).1)
              (sym other) before
      ]

  update_status-Deletes :
      (w : TemporalWorkerDeployment) (connection : TemporalConnectionSpec)
      (state : TemporalWorkerState) (k8s_state : DeploymentState) (target : Text)
      → HasSameVersions (r.stored w).status (map_to_status k8s_state state target)
      → Deletes
          (IsSpare state.current_build_id target)
          (update_status r world w connection state []).1
  unfolding update_status
  update_status-Deletes w connection state k8s_state target mapped =
      after_status_update-Deletes w connection state k8s_state target
        (world [] (Command.update_status w.status)) (Command.update_status w.status ∷ []) mapped
        (λ d m. elim m [ inl e ↦ absurd (cc) | inr none_left ↦ absurd none_left ])

  module _
      (keeps : (w : TemporalWorkerDeployment) → HasSameVersions (r.stored w).status w.status) where
    with_client-Deletes :
        (clients : ClientPool) (w : TemporalWorkerDeployment) (connection : TemporalConnectionSpec)
        (c : ℕ)
        → r.worker ≡ answer w
        → r.connection w.spec.worker_options.temporal_connection_ref ≡ some connection
        → (acquire_client r.outside
            (defaulted w)
            connection
            (resolve_auth_secret_name connection)
            clients).0
          ≡ ok c
        → Deletes (IsSpareNow clients) (with_client r world (defaulted w) connection c []).1
    unfolding with_client generate_status
    with_client-Deletes clients w connection c read connected acquired =
        and_then-Deletes (IsSpareNow clients) (read_deployments r.cluster for_status) _ []
          (λ d m. absurd m)
          (λ k8s_state listed.
            and_then-Deletes (IsSpareNow clients)
              (get_worker_deployment_state (r.server c) (get_controller_identity r.environment)
                k8s_state.deployments target (defaulted w).spec.rollout_strategy.strategy)
              _ [] (λ d m. absurd m)
              (λ state found d m.
                let state' = with_test_workflows (r.server c) target state in
                record {
                  w = w;
                  connection = connection;
                  client = c;
                  k8s_state = k8s_state;
                  state = state;
                  worker_read = read;
                  connection_read = connected;
                  client_acquired = acquired;
                  deployments_read = listed;
                  state_read = found;
                  spare =
                      subst (λ (current : Text). IsSpare current target d)
                        (with_test_workflows-current (r.server c) target state)
                        (update_status-Deletes
                          (record (defaulted w) { status = map_to_status k8s_state state' target })
                          connection state' k8s_state target (keeps _) d m);
                }))
      where
        target : Text
        target = compute_build_id r.libraries (defaulted w)

    with_connection-Deletes :
        (w : TemporalWorkerDeployment) (o : Option TemporalConnectionSpec) (clients : ClientPool)
        → r.worker ≡ answer w
        → r.connection w.spec.worker_options.temporal_connection_ref ≡ o
        → Deletes (IsSpareNow clients) (with_connection r world (defaulted w) o clients).2
    unfolding with_connection after_client
    with_connection-Deletes w none clients read connected = λ d m. absurd m
    with_connection-Deletes w (some connection) clients read connected =
        and_then-Deletes (IsSpareNow clients)
          (acquire_client r.outside (defaulted w) connection (resolve_auth_secret_name connection)
            clients).0
          _ [] (λ d m. absurd m)
          (λ c acquired. with_client-Deletes clients w connection c read connected acquired)

    with_answer-Deletes :
        (a : Answer TemporalWorkerDeployment)
        → r.worker ≡ a
        → (clients : ClientPool) → Deletes (IsSpareNow clients) (with_answer r world a clients).2
    unfolding with_answer with_worker default_spec
    with_answer-Deletes not_found e clients = λ d m. absurd m
    with_answer-Deletes unavailable e clients = λ d m. absurd m
    with_answer-Deletes (answer w) e clients =
        elim (Bool-cases (is_nil (validate_for_update_or_create (defaulted w)))) [
          | inl valid ↦ rw valid (with_connection-Deletes w _ clients e refl)
          | inr invalid ↦ rw invalid (λ d m. absurd m)
        ]

    -- What a round of `Reconcile` asks to delete has the label of a build ID, not empty, that is neither
    -- the target of the resource nor the one that is current in the state the round has read from the
    -- server, through the client it has got from the pool for the resource's connection; the round has
    -- then read the resource, its connection, its deployments and that state without an error. The pool
    -- of clients, the plan's clock and what every call answers are arbitrary, except that the object
    -- that a status update gives back has the deprecated versions that it was given, by build ID.
    pub reconcile-IsSpareNow :
        (clients : ClientPool) (d : Deployment)
        → Elem (Command.delete_deployment d) (reconcile r world clients).2
        → IsSpareNow clients d
    unfolding reconcile
    reconcile-IsSpareNow clients d m = with_answer-Deletes r.worker refl clients d m
