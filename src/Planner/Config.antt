-- ===== src/Planner/Config.antt =====
-- `getVersionConfigDiff`. `now` is the reading of the clock. The state of the server is a pointer
-- that may be nil, and so may be the entry of a build ID in its map.
pub mod Safety
pub mod SetCurrent
pub mod AtTarget
pub mod Total
use temporal_worker_controll.Base.{
  ℕ, ℤ, pos, ltb, Text, ◌==◌, is_empty, lookup, Option, none, some, List, [], ◌∷◌, length, is_nil,
  all, Bool, true, false, not, ◌&&◌, ◌||◌, is_none, if◌then◌else◌, Outcome, ok, ◌>>=◌, deref,
}
use temporal_worker_controll.Api.Types.{
  DefaultVersionUpdateStrategy, manual, all_at_once, progressive, RolloutStrategy,
  TargetWorkerDeploymentVersion, TemporalWorkerDeploymentStatus, is_manual, is_not_registered,
  is_inactive, is_completed,
}
use temporal_worker_controll.Server.Types.{TemporalWorkerState}
use temporal_worker_controll.Planner.Types.{VersionConfig}
use temporal_worker_controll.Planner.Rollout.{handle_progressive_rollout}
use temporal_worker_controll.Planner.Scale.{is_current_target}

-- Whether the test workflows of a gate let the rollout go on.
unfoldable pub gate_passed : TargetWorkerDeploymentVersion → Bool
gate_passed target =
    not (is_nil target.task_queues)
    && not (ltb (length target.test_workflows) (length target.task_queues))
    && all (λ wf. is_completed wf.status) target.test_workflows

-- The early returns: whether the target version may receive traffic at all.
unfoldable pub is_ready : RolloutStrategy → TargetWorkerDeploymentVersion → Bool
is_ready strategy target =
    not (is_manual strategy.strategy)
    && not (is_none target.healthy_since || is_not_registered target.status)
    && (is_none strategy.gate || gate_passed target)

-- `!temporalState.Versions[buildID].AllTaskQueuesHaveUnversionedPoller`
unfoldable pub no_unversioned_pollers : Option TemporalWorkerState → Text → Outcome Bool
no_unversioned_pollers temporal_state build_id = do
  state ← deref temporal_state
  info ← deref (lookup build_id state.versions)
  ok (not info.all_task_queues_have_unversioned_poller)

-- The test for setting the first version current right away; `&&` reads the state last.
unfoldable pub is_fast_track :
    Bool → TargetWorkerDeploymentVersion → Option TemporalWorkerState → Outcome Bool
is_fast_track no_current target temporal_state =
    if no_current && is_inactive target.status
    then no_unversioned_pollers temporal_state target.build_id
    else ok false

-- The current version is the target: a ramp that is left over is taken away.
unfoldable pub reset_ramp :
    Option TemporalWorkerState → VersionConfig → Outcome (Option VersionConfig)
reset_ramp temporal_state vcfg = do
  state ← deref temporal_state
  ok (
      if is_empty state.ramping_build_id
      then none
      else some (record vcfg { build_id = []; ramp_percentage = pos 0 }))

-- The `switch` on the strategy.
unfoldable pub by_strategy :
    DefaultVersionUpdateStrategy
    → RolloutStrategy
    → ℤ
    → TargetWorkerDeploymentVersion
    → VersionConfig
    → Outcome (Option VersionConfig)
by_strategy manual strategy now target vcfg = ok none
by_strategy all_at_once strategy now target vcfg = ok (some (record vcfg { set_current = true }))
by_strategy progressive strategy now target vcfg =
    handle_progressive_rollout strategy.steps now target.ramp_last_modified_at
      target.ramp_percentage vcfg

abbrev pub new_version_config : TemporalWorkerDeploymentStatus → VersionConfig
new_version_config status = record {
  conflict_token = status.version_conflict_token;
  build_id = status.target_version.build_id;
  set_current = false;
  ramp_percentage = pos 0;
}

unfoldable pub after_fast_track :
    Bool
    → ℤ
    → TemporalWorkerDeploymentStatus
    → Option TemporalWorkerState
    → RolloutStrategy
    → VersionConfig
    → Outcome (Option VersionConfig)
after_fast_track true now status temporal_state strategy vcfg =
    ok (some (record vcfg { set_current = true }))
after_fast_track false now status temporal_state strategy vcfg =
    if is_current_target status.current_version status.target_version.build_id
    then reset_ramp temporal_state vcfg
    else by_strategy strategy.strategy strategy now status.target_version vcfg

-- `getVersionConfigDiff`
unfoldable pub get_version_config_diff :
    ℤ
    → TemporalWorkerDeploymentStatus
    → Option TemporalWorkerState
    → RolloutStrategy
    → Outcome (Option VersionConfig)
get_version_config_diff now status temporal_state strategy =
    if is_ready strategy status.target_version
    then (do
      fast ← is_fast_track (is_none status.current_version) status.target_version temporal_state
      after_fast_track fast now status temporal_state strategy (new_version_config status))
    else ok none
