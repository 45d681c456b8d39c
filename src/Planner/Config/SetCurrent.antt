-- ===== src/Planner/Config/SetCurrent.antt =====
-- When a version is made current.
use temporal_worker_controll.Base.{
  ℤ, pos, is_empty, lookup, Option, none, some, [], length, get_elem?, ◌-◌, to_float32, Bool, true,
  false, ◌&&◌, is_none, if◌then◌else◌, ok, deref, bind-eq-ok, deref-eq-ok, ok-injective, ◌≡◌, ◌⊎◌,
  inl, inr, refl, arith, Bool-cases,
}
use temporal_worker_controll.Api.Types.{
  DefaultVersionUpdateStrategy, manual, all_at_once, progressive, RolloutStrategy, RolloutStep,
  TargetWorkerDeploymentVersion, TemporalWorkerDeploymentStatus, inactive, is_inactive,
}
use temporal_worker_controll.Server.Types.{TemporalWorkerState, VersionInfo}
use temporal_worker_controll.Planner.Types.{VersionConfig}
use temporal_worker_controll.Planner.Rollout.Decision.{
  set_current_only_after_last_step, IsPauseOver,
}
use temporal_worker_controll.Planner.Scale.{is_current_target}
use temporal_worker_controll.Planner.Config.{
  is_ready, no_unversioned_pollers, is_fast_track, reset_ramp, by_strategy, new_version_config,
  after_fast_track, get_version_config_diff,
}

-- Why a version may become current.
abbrev pub MayBecomeCurrent :
    ℤ → TemporalWorkerDeploymentStatus → Option TemporalWorkerState → RolloutStrategy → Type 0
MayBecomeCurrent now status temporal_state strategy =
    ((status.current_version ≡ none)
      × (status.target_version.status ≡ inactive)
      × (state : TemporalWorkerState) × (temporal_state ≡ some state)
      × (info : VersionInfo) × (lookup status.target_version.build_id state.versions ≡ some info)
      × (info.all_task_queues_have_unversioned_poller ≡ false))
    ⊎ ((strategy.strategy ≡ all_at_once)
        × (is_current_target status.current_version status.target_version.build_id ≡ false))
    ⊎ ((strategy.strategy ≡ progressive)
        × (is_current_target status.current_version status.target_version.build_id ≡ false)
        × (s : RolloutStep) × (get_elem? strategy.steps (length strategy.steps - 1) ≡ some s)
        × (status.target_version.ramp_percentage ≡ some (to_float32 s.ramp_percentage))
        × IsPauseOver s status.target_version.ramp_last_modified_at now)

is_fast_track_sound :
    (no_current : Bool) (target : TargetWorkerDeploymentVersion)
    (temporal_state : Option TemporalWorkerState)
    → is_fast_track no_current target temporal_state ≡ ok true
    → (no_current ≡ true)
      × (target.status ≡ inactive)
      × (state : TemporalWorkerState) × (temporal_state ≡ some state)
      × (info : VersionInfo) × (lookup target.build_id state.versions ≡ some info)
      × (info.all_task_queues_have_unversioned_poller ≡ false)
unfolding is_fast_track no_unversioned_pollers
is_fast_track_sound no_current target temporal_state h =
    elim (Bool-cases (no_current && is_inactive target.status)) [
      | inl both ↦
          let h' = rw both at h in
          let (state, e1, h1) = bind-eq-ok (deref temporal_state) _ h' in
          let (info, e2, h2) = bind-eq-ok (deref (lookup target.build_id state.versions)) _ h1 in
          (
            ground arith,
            ground arith,
            state,
            deref-eq-ok temporal_state e1,
            info,
            deref-eq-ok (lookup target.build_id state.versions) e2,
            ground (arith, ok-injective h2),
          )
      | inr no_way ↦ absurd (cc (rw no_way at h))
    ]

by_strategy_sound :
    (kind : DefaultVersionUpdateStrategy) (strategy : RolloutStrategy) (now : ℤ)
    (target : TargetWorkerDeploymentVersion) (vcfg : VersionConfig) {c : VersionConfig}
    → vcfg.set_current ≡ false
    → by_strategy kind strategy now target vcfg ≡ ok (some c)
    → c.set_current ≡ true
    → (kind ≡ all_at_once)
      ⊎ ((kind ≡ progressive)
          × (s : RolloutStep) × (get_elem? strategy.steps (length strategy.steps - 1) ≡ some s)
          × (target.ramp_percentage ≡ some (to_float32 s.ramp_percentage))
          × IsPauseOver s target.ramp_last_modified_at now)
unfolding by_strategy
by_strategy_sound manual strategy now target vcfg fresh h set = absurd (ground arith)
by_strategy_sound all_at_once strategy now target vcfg fresh h set = inl refl
by_strategy_sound progressive strategy now target vcfg fresh h set =
    let (s, last, ramp, over) =
      set_current_only_after_last_step strategy.steps now target.ramp_last_modified_at
        target.ramp_percentage vcfg fresh h set in
    inr (refl, s, last, ramp, over)

after_fast_track_sound :
    (fast : Bool) (now : ℤ) (status : TemporalWorkerDeploymentStatus)
    (temporal_state : Option TemporalWorkerState) (strategy : RolloutStrategy)
    (vcfg : VersionConfig) {c : VersionConfig}
    → vcfg.set_current ≡ false
    → after_fast_track fast now status temporal_state strategy vcfg ≡ ok (some c)
    → c.set_current ≡ true
    → (fast ≡ true)
      ⊎ ((is_current_target status.current_version status.target_version.build_id ≡ false)
          × (c : VersionConfig) × (by_strategy strategy.strategy strategy now status.target_version
                vcfg
              ≡ ok (some c))
          × (c.set_current ≡ true))
unfolding after_fast_track reset_ramp
after_fast_track_sound true now status temporal_state strategy vcfg fresh h set = inl refl
after_fast_track_sound false now status temporal_state strategy vcfg {c} fresh h set =
    elim (Bool-cases (is_current_target status.current_version status.target_version.build_id)) [
      | inl same ↦
          let (state, e, h') = bind-eq-ok (deref temporal_state) _ (rw same at h) in
          absurd (no_reset (is_empty state.ramping_build_id) (ok-injective h'))
      | inr other ↦ inr (other, c, rw other at h, set)
    ]
  where
    no_reset :
        (b : Bool)
        → (if b then none else some (record vcfg { build_id = []; ramp_percentage = pos 0 }))
          ≡ some c
        → ⊥
    no_reset true e = cc
    no_reset false e = ground arith

-- A version is made current only (1) while there is no current version, the target is inactive and
-- it is not confirmed that all its task queues have unversioned pollers; (2) under the all-at-once
-- strategy; or (3) under the progressive strategy, with the ramp exactly at the percentage of the
-- last step and the pause of that step over. In (2) and (3) the target is not already current.
pub get_version_config_diff_set_current :
    (now : ℤ) (status : TemporalWorkerDeploymentStatus)
    (temporal_state : Option TemporalWorkerState) (strategy : RolloutStrategy) {c : VersionConfig}
    → get_version_config_diff now status temporal_state strategy ≡ ok (some c)
    → c.set_current ≡ true
    → MayBecomeCurrent now status temporal_state strategy
unfolding get_version_config_diff
get_version_config_diff_set_current now status temporal_state strategy h set =
    elim (Bool-cases (is_ready strategy status.target_version)) [
      | inr early ↦ absurd (cc (rw early at h))
      | inl ready ↦
          let (fast, e, h') =
            bind-eq-ok
              (is_fast_track (is_none status.current_version) status.target_version temporal_state)
              _ (rw ready at h) in
          elim (after_fast_track_sound fast now status temporal_state strategy
            (new_version_config status) refl h' set) [
              | inl quick ↦
                  let (alone, idle, state, e1, info, e2, poller) =
                    is_fast_track_sound (is_none status.current_version) status.target_version
                      temporal_state (rw quick at e) in
                  inl (no_version status.current_version alone, idle, state, e1, info, e2, poller)
              | inr (other, d, by, now_current) ↦
                  elim (by_strategy_sound strategy.strategy strategy now status.target_version
                    (new_version_config status) refl by now_current) [
                      | inl at_once ↦ inr (inl (at_once, other))
                      | inr (p, s, last, ramp, over) ↦ inr (inr (p, other, s, last, ramp, over))
                    ]
            ]
    ]
  where
    no_version : {A : Type 0} (v : Option A) → is_none v ≡ true → v ≡ none
    no_version none h = refl
    no_version (some a) h = absurd (cc)
