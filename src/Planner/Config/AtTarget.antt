-- ===== src/Planner/Config/AtTarget.antt =====
-- The routing while the target is current already.
use temporal_worker_controll.Base.{
  ℤ, pos, is_empty, Option, none, some, [], Bool, true, false, is_none, if◌then◌else◌, ok, deref,
  bind-eq-ok, deref-eq-ok, ok-injective, ◌≡◌, inl, inr, refl, arith, Bool-cases, sym, ◌∙◌,
}
use temporal_worker_controll.Api.Types.{
  CurrentWorkerDeploymentVersion, RolloutStrategy, TargetWorkerDeploymentVersion,
  TemporalWorkerDeploymentStatus,
}
use temporal_worker_controll.Server.Types.{TemporalWorkerState}
use temporal_worker_controll.Planner.Types.{VersionConfig}
use temporal_worker_controll.Planner.Scale.{is_current_target}
use temporal_worker_controll.Planner.Config.{
  is_ready, is_fast_track, reset_ramp, new_version_config, after_fast_track,
  get_version_config_diff,
}

is_fast_track_at_target :
    (version : Option CurrentWorkerDeploymentVersion) (target : TargetWorkerDeploymentVersion)
    (temporal_state : Option TemporalWorkerState)
    → is_current_target version target.build_id ≡ true
    → is_fast_track (is_none version) target temporal_state ≡ ok false
unfolding is_fast_track
is_fast_track_at_target none target temporal_state h = absurd (cc)
is_fast_track_at_target (some v) target temporal_state h = refl

after_slow_lem :
    (now : ℤ) (status : TemporalWorkerDeploymentStatus)
    (temporal_state : Option TemporalWorkerState) (strategy : RolloutStrategy)
    (vcfg : VersionConfig) {c : VersionConfig}
    → vcfg.set_current ≡ false
    → is_current_target status.current_version status.target_version.build_id ≡ true
    → after_fast_track false now status temporal_state strategy vcfg ≡ ok (some c)
    → (c.set_current ≡ false)
      × (c.build_id ≡ [])
      × (c.ramp_percentage ≡ pos 0)
      × (state : TemporalWorkerState) × (temporal_state ≡ some state)
      × (is_empty state.ramping_build_id ≡ false)
unfolding after_fast_track reset_ramp
after_slow_lem now status temporal_state strategy vcfg {c} fresh same h =
    let (state, e, h') = bind-eq-ok (deref temporal_state) _ (rw same at h) in
    let (kept, ramp) = reset (is_empty state.ramping_build_id) (ok-injective h') in
    (ground arith, ground arith, ground arith, state, deref-eq-ok temporal_state e, ramp)
  where
    reset :
        (b : Bool)
        → (if b then none else some (record vcfg { build_id = []; ramp_percentage = pos 0 }))
          ≡ some c
        → (record vcfg { build_id = []; ramp_percentage = pos 0 } ≡ c) × (b ≡ false)
    reset true e = absurd (cc)
    reset false e = (ground arith, refl)

-- While the target is already the current version, the only change is to take a left-over ramp
-- away: the version of the ramp is emptied and its percentage is 0.
pub get_version_config_diff_at_target :
    (now : ℤ) (status : TemporalWorkerDeploymentStatus)
    (temporal_state : Option TemporalWorkerState) (strategy : RolloutStrategy) {c : VersionConfig}
    → is_current_target status.current_version status.target_version.build_id ≡ true
    → get_version_config_diff now status temporal_state strategy ≡ ok (some c)
    → (c.set_current ≡ false)
      × (c.build_id ≡ [])
      × (c.ramp_percentage ≡ pos 0)
      × (state : TemporalWorkerState) × (temporal_state ≡ some state)
      × (is_empty state.ramping_build_id ≡ false)
unfolding get_version_config_diff
get_version_config_diff_at_target now status temporal_state strategy same h =
    elim (Bool-cases (is_ready strategy status.target_version)) [
      | inr early ↦ absurd (cc (rw early at h))
      | inl ready ↦
          let slow =
            is_fast_track_at_target status.current_version status.target_version temporal_state
              same in
          let (fast, e, h') =
            bind-eq-ok
              (is_fast_track (is_none status.current_version) status.target_version temporal_state)
              _ (rw ready at h) in
          let not_fast : fast ≡ false = ok-injective (sym e ∙ slow) in
          after_slow_lem now status temporal_state strategy (new_version_config status) refl same
            (rw not_fast at h')
    ]
