-- ===== src/Planner/Config/Total.antt =====
-- When `getVersionConfigDiff` returns.
use temporal_worker_controll.Base.{
  ℤ, Text, lookup, none, some, Bool, true, false, ◌&&◌, is_some, is_none, is_some_value, Returns,
  bind-Returns, ◌≡◌, inl, inr, refl, arith, Bool-cases,
}
use temporal_worker_controll.Api.Types.{
  DefaultVersionUpdateStrategy, manual, all_at_once, progressive, RolloutStrategy,
  TargetWorkerDeploymentVersion, TemporalWorkerDeploymentStatus, is_inactive,
}
use temporal_worker_controll.Server.Types.{TemporalWorkerState}
use temporal_worker_controll.Planner.Types.{VersionConfig}
use temporal_worker_controll.Planner.Scale.{is_current_target}
use temporal_worker_controll.Planner.Rollout.Decision.{handle_progressive_rollout_total}
use temporal_worker_controll.Planner.Config.{
  is_ready, no_unversioned_pollers, is_fast_track, reset_ramp, by_strategy, new_version_config,
  after_fast_track, get_version_config_diff,
}

-- The state of the server has an entry for the target, if the target is Inactive.
abbrev pub IsServed : TemporalWorkerState → TargetWorkerDeploymentVersion → Type 0
IsServed state target =
    is_inactive target.status ≡ true → is_some (lookup target.build_id state.versions) ≡ true

module _ (state : TemporalWorkerState) where
  no_unversioned_pollers-Returns :
      (b : Text)
      → is_some (lookup b state.versions) ≡ true
      → Returns (no_unversioned_pollers (some state) b)
  unfolding no_unversioned_pollers
  no_unversioned_pollers-Returns b known =
      let (info, e) = is_some_value (lookup b state.versions) known in
      rw (no_unversioned_pollers, e) (_, refl)

  is_fast_track-Returns :
      (no_current : Bool) (target : TargetWorkerDeploymentVersion)
      → IsServed state target
      → Returns (is_fast_track no_current target (some state))
  unfolding is_fast_track
  is_fast_track-Returns no_current target served =
      elim (Bool-cases (no_current && is_inactive target.status)) [
        | inl asked ↦
            rw asked (no_unversioned_pollers-Returns target.build_id (served (ground arith)))
        | inr not_asked ↦ rw not_asked (false, refl)
      ]

  by_strategy-Returns :
      (kind : DefaultVersionUpdateStrategy) (strategy : RolloutStrategy) (now : ℤ)
      (target : TargetWorkerDeploymentVersion) (vcfg : VersionConfig)
      → Returns (by_strategy kind strategy now target vcfg)
  unfolding by_strategy
  by_strategy-Returns manual strategy now target vcfg = (none, refl)
  by_strategy-Returns all_at_once strategy now target vcfg = (_, refl)
  by_strategy-Returns progressive strategy now target vcfg =
      handle_progressive_rollout_total strategy.steps now target.ramp_last_modified_at
        target.ramp_percentage vcfg

  after_fast_track-Returns :
      (fast : Bool) (now : ℤ) (status : TemporalWorkerDeploymentStatus) (strategy : RolloutStrategy)
      (vcfg : VersionConfig)
      → Returns (after_fast_track fast now status (some state) strategy vcfg)
  unfolding after_fast_track reset_ramp
  after_fast_track-Returns true now status strategy vcfg = (_, refl)
  after_fast_track-Returns false now status strategy vcfg =
      elim (Bool-cases (is_current_target status.current_version status.target_version.build_id)) [
        | inl same ↦ rw same (_, refl)
        | inr other ↦
            rw other (by_strategy-Returns strategy.strategy strategy now status.target_version vcfg)
      ]

  pub get_version_config_diff-Returns :
      (now : ℤ) (status : TemporalWorkerDeploymentStatus) (strategy : RolloutStrategy)
      → IsServed state status.target_version
      → Returns (get_version_config_diff now status (some state) strategy)
  unfolding get_version_config_diff
  get_version_config_diff-Returns now status strategy served =
      elim (Bool-cases (is_ready strategy status.target_version)) [
        | inl ready ↦ rw ready (
            bind-Returns
              (is_fast_track (is_none status.current_version) status.target_version (some state)) _
              (is_fast_track-Returns (is_none status.current_version) status.target_version served)
              (λ fast e.
                after_fast_track-Returns fast now status strategy (new_version_config status)))
        | inr waiting ↦ rw waiting (none, refl)
      ]
