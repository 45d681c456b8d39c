-- ===== src/Server/Client.antt =====
-- What the controller asks of the Temporal server: the SDK client's answers are parameters, in the
-- record `Server`, and the calls that read them are those of `internal/temporal`. A call that may be
-- made more than once carries which call it is, so that its answers may differ.
use temporal_worker_controll.Base.{
  ◌≡◌, refl, ◌⊎◌, inl, inr, ℤ, Float32, ℕ, zero, suc, Text, StringMap, Option, none, some, List,
}

pub data Answer (A : Type 0) : Type 0 where
  answer : A → Answer A
  not_found : Answer A
  unavailable : Answer A

-- To split on an answer and keep the equation.
pub Answer-cases :
    {A : Type 0} (a : Answer A) → ((x : A) × (a ≡ answer x)) ⊎ ((a ≡ not_found) ⊎ (a ≡ unavailable))
Answer-cases (answer x) = inl (x, refl)
Answer-cases not_found = inr (inl refl)
Answer-cases unavailable = inr (inr refl)

-- `WorkerVersioningMode` of a poller
pub data PollerMode : Type 0 where
  unspecified unversioned versioned : PollerMode

pub data TaskQueueType : Type 0 where
  workflow activity other : TaskQueueType

pub record TaskQueueInfo : Type 0 where
  pub name : Text
  pub kind : TaskQueueType

pub data DrainageStatus : Type 0 where
  unspecified draining drained : DrainageStatus

pub record DrainageInfo : Type 0 where
  pub drainage_status : DrainageStatus
  pub last_changed_time : ℤ

-- `metadata` holds encoded payloads.
pub record VersionDescription : Type 0 where
  pub drainage_info : Option DrainageInfo
  pub task_queues_infos : List TaskQueueInfo
  pub metadata : StringMap Text

pub record Version : Type 0 where
  pub deployment_name : Text
  pub build_id : Text

pub record RoutingConfig : Type 0 where
  pub current_version : Option Version
  pub ramping_version : Option Version
  pub ramping_version_percentage : Float32
  pub ramping_version_changed_time : ℤ
  pub ramping_version_percentage_changed_time : ℤ

pub record VersionSummary : Type 0 where
  pub version : Version
  pub drainage_status : DrainageStatus

pub record DeploymentDescription : Type 0 where
  pub routing_config : RoutingConfig
  pub last_modifier_identity : Text
  pub conflict_token : Text
  pub version_summaries : List VersionSummary

-- `enumspb.WorkflowExecutionStatus`; `other` is a value that the code does not name.
pub data ExecutionStatus : Type 0 where
  unspecified running completed failed canceled terminated continued_as_new timed_out other :
      ExecutionStatus

pub record ExecutionInfo : Type 0 where
  pub workflow_id : Text
  pub run_id : Text
  pub task_queue : Text
  pub status : ExecutionStatus

-- Which call of `DescribeVersion` it is.
pub data Call : Type 0 where
  metadata_of_current metadata_of_ramping : Call
  drain_time unversioned_pollers : ℕ → Call
  task_queues_of_tests : Call

-- The answers. Task queues are described for one version at a time, by its build ID; `decode` reads a
-- payload as a string; a workflow is not found if the error's text says so; `rounds` is how many rounds of a backoff start before its deadline.
pub record Server : Type 0 where
  pub describe : Answer DeploymentDescription
  pub describe_version : Call → Text → Answer VersionDescription
  pub describe_task_queue : Text → TaskQueueInfo → Option (List PollerMode)
  pub describe_workflow_execution : Text → Answer ExecutionInfo
  pub decode : Text → Option Text
  pub rounds : ℕ

-- The loop of `withBackoff`: the rounds left, the number of the next, and the last failure.
unfoldable pub backoff_loop :
    {A : Type 0} → ℕ → ℕ → Option (Answer A) → (ℕ → Answer A) → Option (Answer A)
backoff_loop zero i last f = last
backoff_loop (suc n) i last f = elim (f i) [
  | answer a ↦ some (answer a)
  | not_found ↦ backoff_loop n (suc i) (some not_found) f
  | unavailable ↦ backoff_loop n (suc i) (some unavailable) f
]

-- `withBackoff`: `none` is the nil error of a loop that had no round at all.
unfoldable pub with_backoff : {A : Type 0} → ℕ → (ℕ → Answer A) → Option (Answer A)
with_backoff rounds f = backoff_loop rounds zero none f
