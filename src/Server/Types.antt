-- ===== src/Server/Types.antt =====
-- `VersionInfo` and `TemporalWorkerState`.
use temporal_worker_controll.Base.{ℤ, Float32, Text, codes, StringMap, Option, List, ◌++◌, Bool}
use temporal_worker_controll.Api.Types.{VersionStatus, TaskQueue, WorkflowExecution}

pub record VersionInfo : Type 0 where
  pub deployment_name : Text
  pub build_id : Text
  pub status : VersionStatus
  pub drained_since : Option ℤ
  pub task_queues : List TaskQueue
  pub test_workflows : List WorkflowExecution
  pub all_task_queues_have_unversioned_poller : Bool
  pub no_task_queues_have_versioned_poller : Bool

-- An empty build ID stands for no version.
pub record TemporalWorkerState : Type 0 where
  pub current_build_id : Text
  pub version_conflict_token : Text
  pub ramping_build_id : Text
  pub ramp_percentage : Float32
  pub ramping_since : Option ℤ
  pub ramp_last_modified_at : Option ℤ
  pub versions : StringMap VersionInfo
  pub last_modifier_identity : Text
  pub ignore_last_modifier : Bool

-- `GetTestWorkflowID`
unfoldable pub get_test_workflow_id : Text → Text → Text → Text
get_test_workflow_id deployment_name build_id task_queue =
    codes "test-" ++ (deployment_name ++ (codes ":" ++ (build_id ++ (codes "-" ++ task_queue))))
