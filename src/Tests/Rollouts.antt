-- ===== src/Tests/Rollouts.antt =====
-- Rollouts and gates.
use temporal_worker_controll.Base.{
  Elem, ℤ, pos, Text, codes, to_float32, Option, none, some, [], ◌∷◌, true, false, ok, ◌+ℤ◌, ◌==◌,
  StringMap, lookup, ◌≡◌, ◌↔◌, refl, arith, is_some, is_empty, ◌-◌,
}
use temporal_worker_controll.Api.Types.{GateInputSource, TemporalWorkerDeploymentStatus, current}
use temporal_worker_controll.Api.Webhook.{validate_gate}
use temporal_worker_controll.Server.Types.{TemporalWorkerState}
use temporal_worker_controll.Planner.Types.{VersionConfig}
use temporal_worker_controll.Planner.Rollout.{
  handle_progressive_rollout, get_current_step_index, step_index_loop, at_step, continue_rollout,
  next_step,
}
use temporal_worker_controll.Planner.Rollout.Steps.{reached, get_current_step_index_lem}
use temporal_worker_controll.Planner.Rollout.Decision.{handle_progressive_rollout_total}
use temporal_worker_controll.Planner.Rollout.Trace.{rollout_trace, rollout_trace_completes}
use temporal_worker_controll.Planner.Config.{
  get_version_config_diff, is_ready, gate_passed, is_fast_track, after_fast_track, by_strategy,
  reset_ramp,
}
use temporal_worker_controll.Planner.Config.Safety.{IsReady, get_version_config_diff-IsReady}
use temporal_worker_controll.Planner.Config.SetCurrent.{
  MayBecomeCurrent, get_version_config_diff_set_current,
}
use temporal_worker_controll.Planner.Config.AtTarget.{get_version_config_diff_at_target}
use temporal_worker_controll.Planner.Gate.{
  get_test_workflows, validate_gate_input_config, resolve_gate_input, resolve_checked, from_source,
  from_secret,
}
use temporal_worker_controll.Planner.Gate.Workflows.{
  get_test_workflows_iff, workflow_for, IsAskedFor,
}
use temporal_worker_controll.Planner.Gate.Input.{
  validate_gate_input_config_iff, resolve_gate_input_secret,
}
use temporal_worker_controll.Tests.Data.{
  id_a, id_b, base_with, sample_steps, sample_strategy, status_with, server_with, fresh_config,
  sample_gate, gated_strategy,
}

abbrev late : ℤ
late = pos 100000000000

done_config :
    handle_progressive_rollout sample_steps late
      (some (pos 0))
      (some (to_float32 (pos 50)))
      fresh_config
    ≡ ok (some (record fresh_config { set_current = true }))
unfolding handle_progressive_rollout get_current_step_index step_index_loop at_step continue_rollout
    next_step to_float32 ◌+ℤ◌
done_config = refl

handle_progressive_rollout_total_example :
    (r : Option VersionConfig) × (handle_progressive_rollout sample_steps late none
        (some (to_float32 (pos 20)))
        fresh_config
      ≡ ok r)
handle_progressive_rollout_total_example =
    handle_progressive_rollout_total sample_steps late none (some (to_float32 (pos 20)))
      fresh_config

get_current_step_index_lem_example :
    (get_current_step_index sample_steps (some (to_float32 (pos 20)))
      ≡ reached (to_float32 (pos 20)) sample_steps - 1)
    × (get_current_step_index sample_steps none ≡ 0)
get_current_step_index_lem_example = get_current_step_index_lem sample_steps (to_float32 (pos 20))

rollout_trace_completes_example :
    rollout_trace 3 sample_steps late fresh_config none ≡ (pos 10 ∷ pos 50 ∷ [], true)
unfolding ◌+ℤ◌
rollout_trace_completes_example =
    rollout_trace_completes (record { ramp_percentage = pos 10; pause_duration = pos 30000000000 })
      (record { ramp_percentage = pos 50; pause_duration = pos 60000000000 } ∷ []) late fresh_config
      (omega arith) (ground arith) refl

finished_diff :
    get_version_config_diff late (status_with none) (some (server_with none)) sample_strategy
    ≡ ok (some (record fresh_config { set_current = true }))
unfolding get_version_config_diff is_ready gate_passed is_fast_track after_fast_track by_strategy
    ◌==◌ handle_progressive_rollout get_current_step_index step_index_loop at_step continue_rollout
    next_step to_float32 ◌+ℤ◌
finished_diff = refl

get_version_config_diff-IsReady_example : IsReady sample_strategy (status_with none).target_version
get_version_config_diff-IsReady_example =
    get_version_config_diff-IsReady late (status_with none) (some (server_with none))
      sample_strategy finished_diff

get_version_config_diff_set_current_example :
    MayBecomeCurrent late (status_with none) (some (server_with none)) sample_strategy
get_version_config_diff_set_current_example =
    get_version_config_diff_set_current late (status_with none) (some (server_with none))
      sample_strategy finished_diff refl

-- The ramp of `b` is left over after `a` was made the target again.
abbrev rolled_back : TemporalWorkerDeploymentStatus
rolled_back = record (status_with none) {
  target_version = record {
    base = base_with id_a current;
    test_workflows = [];
    ramp_percentage = none;
    ramping_since = none;
    ramp_last_modified_at = none;
  };
}

reset_diff :
    get_version_config_diff late rolled_back (some (server_with none)) sample_strategy
    ≡ ok (some (record fresh_config { build_id = [] }))
unfolding get_version_config_diff is_ready gate_passed is_fast_track after_fast_track reset_ramp
    ◌==◌
reset_diff = refl

get_version_config_diff_at_target_example :
    (false ≡ false)
    × (◌≡◌ {A = Text} [] [])
    × (pos 0 ≡ pos 0)
    × (state : TemporalWorkerState) × (some (server_with none) ≡ some state)
    × (is_empty state.ramping_build_id ≡ false)
get_version_config_diff_at_target_example =
    get_version_config_diff_at_target late rolled_back (some (server_with none)) sample_strategy
      (unfold ◌==◌ in refl) reset_diff

abbrev name : Text
name = codes "ns/w"

get_test_workflows_iff_example :
    Elem
      (workflow_for sample_gate name id_b [] true (codes "q"))
      (get_test_workflows (status_with none) gated_strategy name [] true)
    ↔ IsAskedFor
        (status_with none)
        gated_strategy
        name
        []
        true
        (workflow_for sample_gate name id_b [] true (codes "q"))
get_test_workflows_iff_example =
    get_test_workflows_iff (status_with none) gated_strategy name [] true
      (workflow_for sample_gate name id_b [] true (codes "q"))

validate_gate_input_config_iff_example :
    (validate_gate_input_config sample_gate ≡ none) ↔ (validate_gate (some sample_gate) ≡ [])
validate_gate_input_config_iff_example = validate_gate_input_config_iff sample_gate

abbrev secret_data : Option (StringMap Text)
secret_data = some ((codes "k", codes "v") ∷ [])

resolved :
    resolve_gate_input (some sample_gate) (codes "ns") none none secret_data ≡ ok (codes "v", true)
unfolding resolve_gate_input validate_gate_input_config resolve_checked from_source from_secret
    lookup ◌==◌
resolved = refl

resolve_gate_input_secret_example : (true ≡ true) ↔ (
    (source : GateInputSource) × (sample_gate.input_from ≡ some source)
    × (is_some source.secret_key_ref ≡ true))
resolve_gate_input_secret_example =
    resolve_gate_input_secret sample_gate (codes "ns") none none secret_data (codes "v") true
      resolved
