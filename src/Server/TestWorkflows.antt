-- ===== src/Server/TestWorkflows.antt =====
-- `GetTestWorkflowStatus`: the workflows that a gate has started, as the server knows them. The task
-- queues are appended to the version's entry in the state while the loop runs, so they stay there
-- when a later call fails; the function gives back the state beside its result.
pub mod Counts
use temporal_worker_controll.Base.{
  Text, codes, lookup, insert, Option, none, some, List, [], ◌∷◌, ◌++◌, Bool, true, false,
  if◌then◌else◌, Outcome, Error, ok, err,
}
use temporal_worker_controll.Api.Types.{WorkflowExecutionStatus, WorkflowExecution, TaskQueue}
use temporal_worker_controll.Server.Types.{VersionInfo, TemporalWorkerState, get_test_workflow_id}
use temporal_worker_controll.Server.Client.{
  Answer, answer, not_found, unavailable, TaskQueueType, TaskQueueInfo, VersionDescription,
  ExecutionStatus, ExecutionInfo, Call, Server,
}

-- `mapWorkflowStatus`
unfoldable pub map_workflow_status : ExecutionStatus → WorkflowExecutionStatus
map_workflow_status ExecutionStatus.running = WorkflowExecutionStatus.running
map_workflow_status ExecutionStatus.continued_as_new = WorkflowExecutionStatus.running
map_workflow_status ExecutionStatus.completed = WorkflowExecutionStatus.completed
map_workflow_status ExecutionStatus.failed = WorkflowExecutionStatus.failed
map_workflow_status ExecutionStatus.canceled = WorkflowExecutionStatus.canceled
map_workflow_status ExecutionStatus.terminated = WorkflowExecutionStatus.terminated
map_workflow_status ExecutionStatus.timed_out = WorkflowExecutionStatus.timed_out
map_workflow_status ExecutionStatus.unspecified = WorkflowExecutionStatus.running
map_workflow_status ExecutionStatus.other = WorkflowExecutionStatus.running

abbrev pub is_workflow_queue : TaskQueueInfo → Bool
is_workflow_queue tq = elim tq.kind [
  | TaskQueueType.workflow ↦ true
  | TaskQueueType.activity ↦ false
  | TaskQueueType.other ↦ false
]

abbrev pub workflow_of : ExecutionInfo → WorkflowExecution
workflow_of x = record {
  workflow_id = x.workflow_id;
  run_id = x.run_id;
  status = map_workflow_status x.status;
  task_queue = x.task_queue;
}

-- The task queues appended so far, and the result, which is an error or the workflows found.
abbrev pub Found : Type 0
Found = List TaskQueue × Outcome (List WorkflowExecution)

module _ (server : Server) where
  -- The loop over the version's task queues.
  unfoldable pub test_workflows_loop :
      VersionInfo → List TaskQueueInfo → List TaskQueue → List WorkflowExecution → Found
  test_workflows_loop info [] queues results = (queues, ok results)
  test_workflows_loop info (tq ∷ tqs) queues results = elim (is_workflow_queue tq) [
    | false ↦ test_workflows_loop info tqs queues results
    | true ↦
        let queues' = queues ++ (record { name = tq.name } ∷ []) in
        elim (server.describe_workflow_execution
          (get_test_workflow_id info.deployment_name info.build_id tq.name)) [
            | answer x ↦ test_workflows_loop info tqs queues' (results ++ (workflow_of x ∷ []))
            | not_found ↦ test_workflows_loop info tqs queues' results
            | unavailable ↦
                (queues', err (Error.external (codes "unable to describe test workflow")))
          ]
  ]

  -- After the version has been described; one that is not found has no task queues.
  unfoldable pub test_workflows_described : VersionInfo → Answer VersionDescription → Found
  test_workflows_described info (answer desc) =
      test_workflows_loop info desc.task_queues_infos info.task_queues []
  test_workflows_described info not_found = test_workflows_loop info [] info.task_queues []
  test_workflows_described info unavailable = (
    info.task_queues,
    err (Error.external (codes "unable to describe worker deployment version")),
  )

  -- `GetTestWorkflowStatus`
  unfoldable pub get_test_workflow_status :
      Text → TemporalWorkerState → TemporalWorkerState × Outcome (List WorkflowExecution)
  get_test_workflow_status build_id state = elim (lookup build_id state.versions) [
    | none ↦ (state, ok [])
    | some info ↦
        let (queues, result) =
          test_workflows_described info
            (server.describe_version Call.task_queues_of_tests info.build_id) in
        (
          record state {
            versions = insert build_id (record info { task_queues = queues }) state.versions;
          },
          result,
        )
  ]
