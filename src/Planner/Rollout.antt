-- ===== src/Planner/Rollout.antt =====
-- `handleProgressiveRollout` and `getCurrentStepIndex`.
pub mod Steps
pub mod Trace
pub mod Decision
use temporal_worker_controll.Base.{
  ℕ, ◌+◌, ◌-◌, ℤ, ltb_ℤ, eqb_ℤ, ltb, ◌+ℤ◌, Float32, to_float32, to_int32, Option, none, some, List,
  [], ◌∷◌, Bool, true, length, get_elem?, if◌then◌else◌, Outcome, ok, panic, ◌>>=◌, deref,
}
use temporal_worker_controll.Api.Types.{RolloutStep}
use temporal_worker_controll.Planner.Types.{VersionConfig}

-- The loop from index `i`, with the last index that was kept.
unfoldable pub step_index_loop : Float32 → ℕ → ℕ → List RolloutStep → ℕ
step_index_loop target i result [] = result
step_index_loop target i result (s ∷ steps) =
    let rest = step_index_loop target (i + 1) i steps in
    if ltb_ℤ target (to_float32 s.ramp_percentage) then result else rest

unfoldable pub get_current_step_index : List RolloutStep → Option Float32 → ℕ
get_current_step_index steps none = 0
get_current_step_index steps (some target) = step_index_loop target 0 0 steps

abbrev pub with_ramp : VersionConfig → RolloutStep → VersionConfig
with_ramp vcfg s = record vcfg { ramp_percentage = to_int32 s.ramp_percentage }

-- What follows a step whose pause is over.
unfoldable pub next_step : List RolloutStep → ℕ → VersionConfig → Outcome (Option VersionConfig)
next_step steps i vcfg =
    if ltb i (length steps - 1)
    then (do next ← deref (get_elem? steps (i + 1)); ok (some (with_ramp vcfg next)))
    else ok (some (record vcfg { set_current = true }))

-- The tests after the current step is known, with the ramp at `target`.
unfoldable pub continue_rollout :
    List RolloutStep
    → ℕ
    → RolloutStep
    → ℤ
    → Option ℤ
    → Float32
    → VersionConfig
    → Outcome (Option VersionConfig)
continue_rollout steps i current_step current_time ramp_last_modified_at target vcfg =
    if eqb_ℤ target (to_float32 current_step.ramp_percentage)
    then elim ramp_last_modified_at [
      | none ↦ ok none
      | some t ↦
          if ltb_ℤ (t +ℤ current_step.pause_duration) current_time
          then next_step steps i vcfg
          else ok none
    ]
    else ok (some (with_ramp vcfg current_step))

unfoldable pub at_step :
    List RolloutStep
    → ℕ
    → ℤ
    → Option ℤ
    → Option Float32
    → VersionConfig
    → RolloutStep
    → Outcome (Option VersionConfig)
at_step steps i current_time ramp_last_modified_at none vcfg current_step =
    ok (some (with_ramp vcfg current_step))
at_step steps i current_time ramp_last_modified_at (some target) vcfg current_step =
    continue_rollout steps i current_step current_time ramp_last_modified_at target vcfg

unfoldable pub handle_progressive_rollout :
    List RolloutStep
    → ℤ
    → Option ℤ
    → Option Float32
    → VersionConfig
    → Outcome (Option VersionConfig)
handle_progressive_rollout [] current_time ramp_last_modified_at target vcfg = ok none
handle_progressive_rollout (s ∷ steps) current_time ramp_last_modified_at target vcfg = do
  let i = get_current_step_index (s ∷ steps) target
  current_step ← deref (get_elem? (s ∷ steps) i)
  at_step (s ∷ steps) i current_time ramp_last_modified_at target vcfg current_step
