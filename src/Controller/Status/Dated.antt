-- ===== src/Controller/Status/Dated.antt =====
-- The drain times in the state of the server, while the test workflows are gathered.
use temporal_worker_controll.Base.{
  Text, ◌==◌, lookup, AllValues, insert-AllValues, List, inl, inr, Bool-cases, Option-cases,
}
use temporal_worker_controll.Api.Types.{WorkflowExecution}
use temporal_worker_controll.Mapper.Known.{IsDated}
use temporal_worker_controll.Server.Types.{TemporalWorkerState}
use temporal_worker_controll.Server.Client.{Server}
use temporal_worker_controll.Server.TestWorkflows.{get_test_workflow_status}
use temporal_worker_controll.Controller.Status.{
  or_no_workflows, append_test_workflows, with_test_workflows,
}

append_test_workflows-IsDated :
    (b : Text) (wfs : List WorkflowExecution) (state : TemporalWorkerState)
    → AllValues IsDated state.versions
    → AllValues IsDated (append_test_workflows b wfs state).versions
unfolding append_test_workflows
append_test_workflows-IsDated b wfs state dated = elim (Option-cases (lookup b state.versions)) [
  | inl missing ↦ rw (append_test_workflows, missing) dated
  | inr (info, here) ↦
      rw (append_test_workflows, here)
        (insert-AllValues IsDated b _ state.versions (dated b info here) dated)
]

get_test_workflow_status-IsDated :
    (server : Server) (b : Text) (state : TemporalWorkerState)
    → AllValues IsDated state.versions
    → AllValues IsDated (get_test_workflow_status server b state).0.versions
unfolding get_test_workflow_status
get_test_workflow_status-IsDated server b state dated =
    elim (Option-cases (lookup b state.versions)) [
      | inl missing ↦ rw (get_test_workflow_status, missing) dated
      | inr (info, here) ↦
          rw (get_test_workflow_status, here)
            (insert-AllValues IsDated b _ state.versions (dated b info here) dated)
    ]

pub with_test_workflows-IsDated :
    (server : Server) (b : Text) (state : TemporalWorkerState)
    → AllValues IsDated state.versions
    → AllValues IsDated (with_test_workflows server b state).versions
unfolding with_test_workflows
with_test_workflows-IsDated server b state dated = elim (Bool-cases (b == state.current_build_id)) [
  | inl same ↦ rw same dated
  | inr other ↦ rw other (
      append_test_workflows-IsDated b (or_no_workflows (get_test_workflow_status server b state).1)
        (get_test_workflow_status server b state).0
        (get_test_workflow_status-IsDated server b state dated))
]
