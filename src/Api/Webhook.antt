-- ===== src/Api/Webhook.antt =====
-- api/v1alpha1/temporalworker_webhook.go: defaults and validation. An error of the `field` package
-- is the constructor of its path and message; the rest of its text is not kept.
pub mod Rollout
pub mod Defaults
pub mod Admission
use temporal_worker_controll.Base.{
  ℕ, ◌+◌, ℤ, pos, ltb_ℤ, leb_ℤ, ltb, Option, none, some, List, [], ◌∷◌, ◌++◌, Bool, true, false,
  ◌&&◌, ◌||◌, length, is_nil, is_some, is_none, if◌then◌else◌, Text,
}
use temporal_worker_controll.Api.Types.{
  RolloutStrategy, RolloutStep, GateWorkflowConfig, GateInputSource, TemporalWorkerDeploymentSpec,
  SunsetStrategy, TemporalWorkerDeployment, is_progressive,
}

pub data FieldError : Type 0 where
  name_too_long steps_required gate_two_inputs gate_not_one_source : FieldError
  pause_too_short ramp_not_increasing : ℕ → FieldError

abbrev pub second : ℤ
second = pos 1000000000

-- defaults.ScaledownDelay, 1h
abbrev pub default_scaledown_delay : ℤ
default_scaledown_delay = pos 3600000000000

-- defaults.DeleteDelay, 24h
abbrev pub default_delete_delay : ℤ
default_delete_delay = pos 86400000000000

abbrev pub max_temporal_worker_deployment_name_len : ℕ
max_temporal_worker_deployment_name_len = 63

abbrev pub or_default : Option ℤ → ℤ → Option ℤ
or_default none d = some d
or_default (some x) d = some x

-- `(*TemporalWorkerDeploymentSpec).Default`
unfoldable pub default_spec : TemporalWorkerDeploymentSpec → TemporalWorkerDeploymentSpec
default_spec s = record s {
  sunset_strategy = record {
    scaledown_delay = or_default s.sunset_strategy.scaledown_delay default_scaledown_delay;
    delete_delay = or_default s.sunset_strategy.delete_delay default_delete_delay;
  };
}

-- The two checks of one step; `last_ramp` is the percentage of the step before.
unfoldable pub validate_step : ℕ → ℤ → RolloutStep → List FieldError
validate_step i last_ramp s =
    (if ltb_ℤ s.pause_duration (pos 30000000000) then pause_too_short i ∷ [] else [])
    ++ (if leb_ℤ s.ramp_percentage last_ramp then ramp_not_increasing i ∷ [] else [])

-- The loop over the steps, from index `i`.
unfoldable pub validate_steps : ℕ → ℤ → List RolloutStep → List FieldError
validate_steps i last_ramp [] = []
validate_steps i last_ramp (s ∷ steps) =
    validate_step i last_ramp s ++ validate_steps (i + 1) s.ramp_percentage steps

unfoldable pub validate_progressive : List RolloutStep → List FieldError
validate_progressive steps =
    (if is_nil steps then steps_required ∷ [] else []) ++ validate_steps 0 (pos 0) steps

unfoldable pub validate_input_from : Option GateInputSource → List FieldError
validate_input_from none = []
validate_input_from (some source) =
    if (is_none source.config_map_key_ref && is_none source.secret_key_ref)
      || (is_some source.config_map_key_ref && is_some source.secret_key_ref)
    then gate_not_one_source ∷ []
    else []

unfoldable pub validate_gate : Option GateWorkflowConfig → List FieldError
validate_gate none = []
validate_gate (some gate) =
    (if is_some gate.input && is_some gate.input_from then gate_two_inputs ∷ [] else [])
    ++ validate_input_from gate.input_from

-- `validateRolloutStrategy`
unfoldable pub validate_rollout_strategy : RolloutStrategy → List FieldError
unfolding validate_progressive validate_gate
validate_rollout_strategy s =
    (if is_progressive s.strategy then validate_progressive s.steps else []) ++ validate_gate s.gate

-- `validateForUpdateOrCreate`: the errors found; none means that the object is admitted.
unfoldable pub validate_for_update_or_create : TemporalWorkerDeployment → List FieldError
validate_for_update_or_create new =
    (if ltb max_temporal_worker_deployment_name_len (length new.object_meta.name)
      then name_too_long ∷ []
      else [])
    ++ validate_rollout_strategy new.spec.rollout_strategy
