-- ===== src/Controller/Status/Current.antt =====
-- The current version, which gathering the test workflows does not change.
use temporal_worker_controll.Base.{
  Text, ◌==◌, lookup, List, ◌≡◌, inl, inr, ◌∙◌, Bool-cases, Option-cases,
}
use temporal_worker_controll.Api.Types.{WorkflowExecution}
use temporal_worker_controll.Server.Types.{TemporalWorkerState}
use temporal_worker_controll.Server.Client.{Server}
use temporal_worker_controll.Server.TestWorkflows.{get_test_workflow_status}
use temporal_worker_controll.Controller.Status.{
  or_no_workflows, append_test_workflows, with_test_workflows,
}

append_test_workflows-current :
    (b : Text) (wfs : List WorkflowExecution) (state : TemporalWorkerState)
    → (append_test_workflows b wfs state).current_build_id ≡ state.current_build_id
unfolding append_test_workflows
append_test_workflows-current b wfs state = elim (Option-cases (lookup b state.versions)) [
  | inl missing ↦ rw (append_test_workflows, missing)
  | inr (info, here) ↦ rw (append_test_workflows, here)
]

get_test_workflow_status-current :
    (server : Server) (b : Text) (state : TemporalWorkerState)
    → (get_test_workflow_status server b state).0.current_build_id ≡ state.current_build_id
unfolding get_test_workflow_status
get_test_workflow_status-current server b state = elim (Option-cases (lookup b state.versions)) [
  | inl missing ↦ rw (get_test_workflow_status, missing)
  | inr (info, here) ↦ rw (get_test_workflow_status, here)
]

pub with_test_workflows-current :
    (server : Server) (b : Text) (state : TemporalWorkerState)
    → (with_test_workflows server b state).current_build_id ≡ state.current_build_id
unfolding with_test_workflows
with_test_workflows-current server b state = elim (Bool-cases (b == state.current_build_id)) [
  | inl same ↦ rw same
  | inr other ↦ rw other (
      append_test_workflows-current b (or_no_workflows (get_test_workflow_status server b state).1)
        (get_test_workflow_status server b state).0
      ∙ get_test_workflow_status-current server b state)
]
