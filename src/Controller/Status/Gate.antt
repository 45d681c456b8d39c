-- ===== src/Controller/Status/Gate.antt =====
-- What a gate that has passed says of the server.
use mathlib.Core.Path.{subst}
use temporal_worker_controll.Base.{
  Text, ◌==◌, is_empty, lookup, insert, lookup-insert_self, length, is_nil, some, List, [], ◌∷◌,
  ◌++◌, true, false, Outcome, ok, err, panic, ◌≤◌, Elem, ◌≡◌, refl, inl, inr, ap, arith, Bool-cases,
}
use temporal_worker_controll.Api.Types.{
  WorkflowExecution, TaskQueue, TargetWorkerDeploymentVersion, TemporalWorkerDeployment,
}
use temporal_worker_controll.K8s.State.{DeploymentState}
use temporal_worker_controll.K8s.Names.{Libraries, compute_build_id}
use temporal_worker_controll.Server.Types.{VersionInfo, TemporalWorkerState}
use temporal_worker_controll.Server.Client.{
  Answer, answer, not_found, unavailable, TaskQueueInfo, VersionDescription, Call, Server,
}
use temporal_worker_controll.Server.TestWorkflows.{
  is_workflow_queue, Found, test_workflows_loop, test_workflows_described, get_test_workflow_status,
}
use temporal_worker_controll.Server.TestWorkflows.Counts.{all_completed, IsTested, loop-Gathers}
use temporal_worker_controll.Mapper.{base_version, map_target, map_target_with_ramp, map_to_status}
use temporal_worker_controll.Planner.Config.{gate_passed}
use temporal_worker_controll.Controller.Status.{
  or_no_workflows, append_test_workflows, with_test_workflows, generate_status,
}

-- What `gate_passed` asks of the task queues and the workflows.
abbrev IsPassed : List TaskQueue → List WorkflowExecution → Type 0
IsPassed queues wfs =
    (is_nil queues ≡ false) × (length queues ≤ length wfs) × (all_completed wfs ≡ true)

gate_passed-IsPassed :
    (v : TargetWorkerDeploymentVersion)
    → gate_passed v ≡ true
    → IsPassed v.task_queues v.test_workflows
unfolding gate_passed
gate_passed-IsPassed v h = (ground arith, ground arith, ground arith)

module _ (server : Server) (info : VersionInfo) where
  -- The version has been described, and each of its task queues with workflows has been tested.
  abbrev pub AllTested : Type 0
  AllTested =
      (desc : VersionDescription) × (server.describe_version Call.task_queues_of_tests info.build_id
        ≡ answer desc)
      × ((tq : TaskQueueInfo)
          → Elem tq desc.task_queues_infos
          → is_workflow_queue tq ≡ true
          → IsTested server info tq)

  described_tested :
      (a : Answer VersionDescription)
      → server.describe_version Call.task_queues_of_tests info.build_id ≡ a
      → info.task_queues ≡ []
      → let out = test_workflows_described server info a in
        IsPassed out.0 (or_no_workflows out.1) → AllTested
  unfolding test_workflows_described test_workflows_loop
  described_tested not_found e fresh (full, enough, done) = absurd (cc)
  described_tested unavailable e fresh (full, enough, done) = absurd (cc)
  described_tested (answer desc) e fresh passed = (
    desc,
    e,
    by_result (test_workflows_loop server info desc.task_queues_infos info.task_queues []).1 refl
        passed,
  )
    where
      queues : List TaskQueue
      queues = (test_workflows_loop server info desc.task_queues_infos info.task_queues []).0

      nonempty : (qs : List TaskQueue) → is_nil qs ≡ false → length qs ≤ 0 → ⊥
      nonempty [] h k = cc
      nonempty (q ∷ qs) h k = omega arith

      by_result :
          (r : Outcome (List WorkflowExecution))
          → (test_workflows_loop server info desc.task_queues_infos info.task_queues []).1 ≡ r
          → IsPassed queues (or_no_workflows r)
          → (tq : TaskQueueInfo) → Elem tq desc.task_queues_infos
          → is_workflow_queue tq ≡ true
          → IsTested server info tq
      by_result (ok results) same (full, enough, done) =
          (loop-Gathers server info desc.task_queues_infos info.task_queues [] same).tested
            (omega (arith, ap length fresh)) done
      by_result (err x) same (full, enough, done) = absurd (nonempty queues full enough)
      by_result panic same (full, enough, done) = absurd (nonempty queues full enough)

  abbrev described : Found
  described =
      test_workflows_described server info
        (server.describe_version Call.task_queues_of_tests info.build_id)

  -- The entry of the version with its task queues, and then with its test workflows.
  abbrev queued_info : VersionInfo
  queued_info = record info { task_queues = described.0 }

  abbrev tested_info : VersionInfo
  tested_info = record info {
    task_queues = described.0;
    test_workflows = info.test_workflows ++ or_no_workflows described.1;
  }

  get_test_workflow_status_lem :
      (b : Text) (state : TemporalWorkerState)
      → lookup b state.versions ≡ some info
      → get_test_workflow_status server b state
        ≡ (record state { versions = insert b queued_info state.versions }, described.1)
  unfolding get_test_workflow_status
  get_test_workflow_status_lem b state here = rw (get_test_workflow_status, here)

  append_test_workflows_entry :
      (b : Text) (wfs : List WorkflowExecution) (state : TemporalWorkerState) (entry : VersionInfo)
      → lookup b state.versions ≡ some entry
      → lookup b (append_test_workflows b wfs state).versions
        ≡ some (record entry { test_workflows = entry.test_workflows ++ wfs })
  unfolding append_test_workflows
  append_test_workflows_entry b wfs state entry here =
      rw (append_test_workflows, here)
        (lookup-insert_self b (record entry { test_workflows = entry.test_workflows ++ wfs })
          state.versions)

  with_test_workflows_entry :
      (b : Text) (state : TemporalWorkerState)
      → lookup b state.versions ≡ some info
      → (b == state.current_build_id) ≡ false
      → lookup b (with_test_workflows server b state).versions ≡ some tested_info
  unfolding with_test_workflows
  with_test_workflows_entry b state here other =
      rw (other, get_test_workflow_status_lem b state here)
        (append_test_workflows_entry b (or_no_workflows described.1)
          (record state { versions = insert b queued_info state.versions }) queued_info
          (lookup-insert_self b queued_info state.versions))

target_version_fields :
    (k8s_state : DeploymentState) (state : TemporalWorkerState) (b : Text) (info : VersionInfo)
    → lookup b state.versions ≡ some info
    → is_empty b ≡ false
    → let v = (map_to_status k8s_state state b).target_version in
      (v.task_queues ≡ info.task_queues) × (v.test_workflows ≡ info.test_workflows)
unfolding map_to_status map_target_with_ramp map_target base_version
target_version_fields k8s_state state b info here full =
    elim (Bool-cases (state.ramping_build_id == b)) [
      | inl ramps ↦ (rw (ramps, full, here), rw (ramps, full, here))
      | inr other ↦ (rw (other, full, here), rw (other, full, here))
    ]

empty_target_fields :
    (k8s_state : DeploymentState) (state : TemporalWorkerState) (b : Text)
    → is_empty b ≡ true
    → (map_to_status k8s_state state b).target_version.task_queues ≡ []
unfolding map_to_status map_target_with_ramp map_target
empty_target_fields k8s_state state b empty = elim (Bool-cases (state.ramping_build_id == b)) [
  | inl ramps ↦ rw (ramps, empty)
  | inr other ↦ rw (other, empty)
]

-- When the target version of a status that `generateStatus` has computed passes the gate, the server
-- has described that version, and for each of its task queues with workflows it has found the test
-- workflow of that queue, under the ID that the controller gives it, with the status Completed. The
-- target is not the current version, and its entry in the state of the server starts with no task
-- queues and no test workflows.
pub gate_passed-AllTested :
    (lib : Libraries) (server : Server) (w : TemporalWorkerDeployment) (state : TemporalWorkerState)
    (k8s_state : DeploymentState) (info : VersionInfo)
    → lookup (compute_build_id lib w) state.versions ≡ some info
    → info.task_queues ≡ []
    → info.test_workflows ≡ []
    → (compute_build_id lib w == state.current_build_id) ≡ false
    → gate_passed (generate_status lib server w state k8s_state).0.target_version ≡ true
    → AllTested server info
unfolding generate_status
gate_passed-AllTested lib server w state k8s_state info here no_queues no_workflows other passed =
    elim (Bool-cases (is_empty target)) [
      | inl empty ↦
          absurd (cc (ap is_nil (empty_target_fields k8s_state state' target empty), pass.0))
      | inr full ↦
          let (queues, wfs) =
            target_version_fields k8s_state state' target (tested_info server info)
              (with_test_workflows_entry server info target state here other) full in
          described_tested server info
            (server.describe_version Call.task_queues_of_tests info.build_id) refl no_queues
            (subst
              (λ x.
                IsPassed (described server info).0 (x ++ or_no_workflows (described server info).1))
              no_workflows
              (subst
                (λ x. IsPassed x (info.test_workflows ++ or_no_workflows (described server info).1))
                queues
                (subst
                  (λ x.
                    IsPassed (map_to_status k8s_state state' target).target_version.task_queues x)
                  wfs pass)))
    ]
  where
    target : Text
    target = compute_build_id lib w

    state' : TemporalWorkerState
    state' = with_test_workflows server target state

    pass :
        IsPassed
          (map_to_status k8s_state state' target).target_version.task_queues
          (map_to_status k8s_state state' target).target_version.test_workflows
    pass = gate_passed-IsPassed (map_to_status k8s_state state' target).target_version passed
