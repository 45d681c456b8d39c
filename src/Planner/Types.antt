-- ===== src/Planner/Types.antt =====
-- The planner's results, and Go's clock arithmetic.
use temporal_worker_controll.Base.{ℤ, pos, negsuc, ◌^◌, ◌-◌, ltb_ℤ, ◌-ℤ◌, Text, Bool, if◌then◌else◌}

pub record VersionConfig : Type 0 where
  pub conflict_token : Text
  pub build_id : Text
  pub set_current : Bool
  pub ramp_percentage : ℤ

pub record WorkflowConfig : Type 0 where
  pub workflow_type : Text
  pub workflow_id : Text
  pub build_id : Text
  pub task_queue : Text
  pub gate_input : Text
  pub is_input_secret : Bool

-- `time.Since(t)` at `now`: the difference, saturated to int64.
unfoldable pub since : ℤ → ℤ → ℤ
since now t =
    let d = now -ℤ t in
    if ltb_ℤ (pos (2 ^ 63 - 1)) d
    then pos (2 ^ 63 - 1)
    else if ltb_ℤ d (negsuc (2 ^ 63 - 1))
    then negsuc (2 ^ 63 - 1)
    else d
