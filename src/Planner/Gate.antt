-- ===== src/Planner/Gate.antt =====
-- `getTestWorkflows`, `validateGateInputConfig` and `ResolveGateInput`. A Go set of names is a list;
-- the byte slices are texts, nil and empty alike.
pub mod Workflows
pub mod Input
use temporal_worker_controll.Base.{
  Text, ◌==◌, StringMap, lookup, entries, Option, none, some, List, [], ◌∷◌, map, any, Bool, true,
  false, not, ◌&&◌, ◌||◌, is_some, is_none, if◌then◌else◌, Outcome, ok, err, Error,
  gate_input_and_input_from, gate_input_from_not_one, key_not_in_config_map, key_not_in_secret,
}
use temporal_worker_controll.Api.Cluster.{KeySelector}
use temporal_worker_controll.Api.Types.{
  TaskQueue, WorkflowExecution, GateWorkflowConfig, GateInputSource, RolloutStrategy,
  CurrentWorkerDeploymentVersion, TargetWorkerDeploymentVersion, TemporalWorkerDeploymentStatus,
  is_not_registered,
}
use temporal_worker_controll.Server.Types.{get_test_workflow_id}
use temporal_worker_controll.Planner.Types.{WorkflowConfig}
use temporal_worker_controll.Planner.Scale.{is_current_target}

-- Whether the name is in the set of task queues with workflows.
unfoldable pub has_workflow : List WorkflowExecution → Text → Bool
has_workflow wfs name = any (λ wf. wf.task_queue == name) wfs

unfoldable pub missing_workflows :
    (Text → WorkflowConfig) → List WorkflowExecution → List TaskQueue → List WorkflowConfig
missing_workflows config wfs [] = []
missing_workflows config wfs (tq ∷ tqs) =
    if has_workflow wfs tq.name
    then missing_workflows config wfs tqs
    else config tq.name ∷ missing_workflows config wfs tqs

unfoldable pub gate_workflow :
    GateWorkflowConfig → Text → Text → Text → Bool → Text → WorkflowConfig
gate_workflow gate worker_deployment_name build_id gate_input is_secret task_queue = record {
  workflow_type = gate.workflow_type;
  workflow_id = get_test_workflow_id worker_deployment_name build_id task_queue;
  build_id = build_id;
  task_queue = task_queue;
  gate_input = gate_input;
  is_input_secret = is_secret;
}

unfoldable pub get_test_workflows :
    TemporalWorkerDeploymentStatus → RolloutStrategy → Text → Text → Bool → List WorkflowConfig
get_test_workflows status strategy worker_deployment_name gate_input is_secret =
    elim strategy.gate [
      | none ↦ []
      | some gate ↦
          if is_current_target status.current_version status.target_version.build_id
            || is_not_registered status.target_version.status
          then []
          else missing_workflows
              (gate_workflow gate worker_deployment_name status.target_version.build_id gate_input
                is_secret)
              status.target_version.test_workflows status.target_version.task_queues
    ]

abbrev pub check_one_source : GateInputSource → Option Error
check_one_source source =
    if (is_some source.config_map_key_ref && is_some source.secret_key_ref)
      || (not (is_some source.config_map_key_ref) && not (is_some source.secret_key_ref))
    then some gate_input_from_not_one
    else none

-- `validateGateInputConfig`, for a gate that is set.
unfoldable pub validate_gate_input_config : GateWorkflowConfig → Option Error
validate_gate_input_config gate =
    if is_some gate.input && is_some gate.input_from
    then some gate_input_and_input_from
    else elim gate.input_from [ none ↦ none | some source ↦ check_one_source source ]

-- The text under a key of the ConfigMap's data, or else of its binary data.
unfoldable pub from_config_map :
    KeySelector → Text → Option (StringMap Text) → Option (StringMap Text) → Outcome (Text × Bool)
from_config_map ref namespace plain binary = elim (lookup ref.key (entries plain)) [
  | some val ↦ ok (val, false)
  | none ↦ elim (lookup ref.key (entries binary)) [
    | some bval ↦ ok (bval, false)
    | none ↦ err (key_not_in_config_map ref.key namespace ref.name)
  ]
]

unfoldable pub from_secret : KeySelector → Text → Option (StringMap Text) → Outcome (Text × Bool)
from_secret ref namespace secret = elim (lookup ref.key (entries secret)) [
  | some bval ↦ ok (bval, true)
  | none ↦ err (key_not_in_secret ref.key namespace ref.name)
]

unfoldable pub from_source :
    GateInputSource
    → Text
    → Option (StringMap Text)
    → Option (StringMap Text)
    → Option (StringMap Text)
    → Outcome (Text × Bool)
from_source source namespace plain binary secret = elim source.config_map_key_ref [
  | some ref ↦ from_config_map ref namespace plain binary
  | none ↦ elim source.secret_key_ref [
    | some ref ↦ from_secret ref namespace secret
    | none ↦ ok ([], false)
  ]
]

unfoldable pub resolve_checked :
    GateWorkflowConfig
    → Text
    → Option (StringMap Text)
    → Option (StringMap Text)
    → Option (StringMap Text)
    → Outcome (Text × Bool)
resolve_checked gate namespace plain binary secret = elim gate.input [
  | some raw ↦ ok (raw, false)
  | none ↦ elim gate.input_from [
    | none ↦ ok ([], false)
    | some source ↦ from_source source namespace plain binary secret
  ]
]

-- `ResolveGateInput`
unfoldable pub resolve_gate_input :
    Option GateWorkflowConfig
    → Text
    → Option (StringMap Text)
    → Option (StringMap Text)
    → Option (StringMap Text)
    → Outcome (Text × Bool)
resolve_gate_input none namespace plain binary secret = ok ([], false)
resolve_gate_input (some gate) namespace plain binary secret =
    elim (validate_gate_input_config gate) [
      | some e ↦ err e
      | none ↦ resolve_checked gate namespace plain binary secret
    ]
