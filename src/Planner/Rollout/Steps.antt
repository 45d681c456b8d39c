-- ===== src/Planner/Rollout/Steps.antt =====
-- Which step is the current one.
use temporal_worker_controll.Base.{
  ℕ, suc, ◌+◌, ◌-◌, ◌≤◌, ◌<◌, ltb_ℤ, Float32, to_float32, Option, none, some, List, [], ◌∷◌, length,
  ◌≡◌, refl, arith, if◌then◌else◌,
}
use temporal_worker_controll.Api.Types.{RolloutStep}
use temporal_worker_controll.Planner.Rollout.{step_index_loop, get_current_step_index}

-- The number of leading steps whose percentage the ramp has reached.
abbrev pub reached : Float32 → List RolloutStep → ℕ
reached target [] = 0
reached target (s ∷ steps) =
    let rest = reached target steps in
    if ltb_ℤ target (to_float32 s.ramp_percentage) then 0 else suc rest

step_index_loop_lem :
    (target : Float32) (i result : ℕ) (steps : List RolloutStep)
    → i ≡ suc result
    → step_index_loop target i result steps ≡ result + reached target steps
unfolding step_index_loop
step_index_loop_lem target i result [] h = omega arith
step_index_loop_lem target i result (s ∷ steps) h =
    ground (arith, step_index_loop_lem target (i + 1) i steps)

-- With a ramp set, the current step is the last of the leading steps whose percentage the ramp has
-- reached, or the first step where it has reached none; without a ramp it is the first.
pub get_current_step_index_lem :
    (steps : List RolloutStep) (target : Float32)
    → (get_current_step_index steps (some target) ≡ reached target steps - 1)
      × (get_current_step_index steps none ≡ 0)
unfolding get_current_step_index step_index_loop
get_current_step_index_lem [] target = (refl, refl)
get_current_step_index_lem (s ∷ steps) target =
    (ground (arith, step_index_loop_lem target 1 0 steps), refl)

pub reached-le : (target : Float32) (steps : List RolloutStep) → reached target steps ≤ length steps
reached-le target [] = omega arith
reached-le target (s ∷ steps) = ground (arith, reached-le target steps)

-- The index is one of a step, so that `steps[i]` does not panic.
pub get_current_step_index-lt :
    (s : RolloutStep) (steps : List RolloutStep) (target : Option Float32)
    → get_current_step_index (s ∷ steps) target < length (s ∷ steps)
unfolding get_current_step_index
get_current_step_index-lt s steps none = omega arith
get_current_step_index-lt s steps (some target) =
    omega (arith, (get_current_step_index_lem (s ∷ steps) target).0, reached-le target (s ∷ steps))
