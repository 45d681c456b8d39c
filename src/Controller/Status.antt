-- ===== src/Controller/Status.antt =====
-- internal/controller/genstatus.go: the status of the resource. The state of the server is changed on
-- the way, so it is given back beside the status.
pub mod Gate
pub mod Dated
pub mod Current
use temporal_worker_controll.Base.{
  Text, ◌==◌, lookup, insert, Option, none, some, List, [], ◌++◌, not, if◌then◌else◌, Outcome, ok,
  err, panic,
}
use temporal_worker_controll.Api.Types.{
  WorkflowExecution, TemporalWorkerDeployment, TemporalWorkerDeploymentStatus,
}
use temporal_worker_controll.K8s.State.{DeploymentState}
use temporal_worker_controll.K8s.Names.{Libraries, compute_build_id}
use temporal_worker_controll.Server.Types.{TemporalWorkerState}
use temporal_worker_controll.Server.Client.{Server}
use temporal_worker_controll.Server.TestWorkflows.{get_test_workflow_status}
use temporal_worker_controll.Mapper.{map_to_status}

-- What an error leaves of the result: it is logged, and the status goes on without the workflows.
abbrev pub or_no_workflows : Outcome (List WorkflowExecution) → List WorkflowExecution
or_no_workflows (ok wfs) = wfs
or_no_workflows (err e) = []
or_no_workflows panic = []

-- `versionInfo.TestWorkflows = append(...)`, for an entry that exists.
unfoldable pub append_test_workflows :
    Text → List WorkflowExecution → TemporalWorkerState → TemporalWorkerState
append_test_workflows b wfs state = elim (lookup b state.versions) [
  | none ↦ state
  | some info ↦ record state {
    versions =
        insert b (record info { test_workflows = info.test_workflows ++ wfs }) state.versions;
  }
]

-- The state with the test workflows of the target, unless the target is current.
unfoldable pub with_test_workflows : Server → Text → TemporalWorkerState → TemporalWorkerState
with_test_workflows server target state =
    if target == state.current_build_id
    then state
    else (let (described, result) = get_test_workflow_status server target state in
        append_test_workflows target (or_no_workflows result) described)

-- `generateStatus`
unfoldable pub generate_status :
    Libraries
    → Server
    → TemporalWorkerDeployment
    → TemporalWorkerState
    → DeploymentState
    → TemporalWorkerDeploymentStatus × TemporalWorkerState
generate_status lib server w temporal_state k8s_state =
    let target = compute_build_id lib w in
    let state = with_test_workflows server target temporal_state in
    (map_to_status k8s_state state target, state)
