-- ===== src/Planner/Gate/Input.antt =====
-- `ResolveGateInput` and the check of the gate, beside the check of the webhook.
use temporal_worker_controll.Base.{
  Text, StringMap, lookup, entries, Option, none, some, [], Bool, true, is_some, ok, ◌≡◌, ◌↔◌,
  arith,
}
use temporal_worker_controll.Api.Types.{GateWorkflowConfig, GateInputSource}
use temporal_worker_controll.Api.Webhook.{validate_gate, validate_input_from}
use temporal_worker_controll.Planner.Gate.{
  validate_gate_input_config, from_config_map, from_secret, from_source, resolve_checked,
  resolve_gate_input,
}

-- The planner's own check accepts a gate exactly when the admission webhook does.
pub validate_gate_input_config_iff :
    (gate : GateWorkflowConfig)
    → (validate_gate_input_config gate ≡ none) ↔ (validate_gate (some gate) ≡ [])
unfolding validate_gate_input_config validate_gate validate_input_from
validate_gate_input_config_iff gate = (λ h. ground arith, λ h. ground arith)

-- The input of a valid gate, as a specification: the first place that has it.
abbrev pub first_of_maps : Text → Option (StringMap Text) → Option (StringMap Text) → Option Text
first_of_maps key plain binary = elim (lookup key (entries plain)) [
  | some v ↦ some v
  | none ↦ lookup key (entries binary)
]

-- The input is marked as secret exactly when the gate is valid, has no inline input, and takes it
-- from a Secret.
pub resolve_gate_input_secret :
    (gate : GateWorkflowConfig) (namespace : Text) (plain binary secret : Option (StringMap Text))
    (input : Text) (is_secret : Bool)
    → resolve_gate_input (some gate) namespace plain binary secret ≡ ok (input, is_secret)
    → (is_secret ≡ true) ↔ (
        (source : GateInputSource) × (gate.input_from ≡ some source)
        × (is_some source.secret_key_ref ≡ true))
unfolding resolve_gate_input validate_gate_input_config resolve_checked from_source from_config_map
    from_secret
resolve_gate_input_secret gate namespace plain binary secret input is_secret h =
    (λ s. ground arith, λ p. ground arith)
