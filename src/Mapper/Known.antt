-- ===== src/Mapper/Known.antt =====
-- What a mapped status says of the entries in the state of the server.
use mathlib.Core.Path.{subst}
use temporal_worker_controll.Base.{
  Text, ◌==◌, is_empty, StringMap, lookup, AllValues, Option, none, some, List, [], ◌∷◌, true, ◌||◌,
  is_some, some-eq-some, All, ◌≡◌, inl, inr, refl, Bool-cases,
}
use temporal_worker_controll.Api.Cluster.{Deployment}
use temporal_worker_controll.Api.Types.{drained, DeprecatedWorkerDeploymentVersion, is_inactive}
use temporal_worker_controll.K8s.State.{DeploymentState}
use temporal_worker_controll.Server.Types.{VersionInfo, TemporalWorkerState}
use temporal_worker_controll.Mapper.{
  version_status, drain_time, base_version, map_target, map_target_with_ramp, map_deprecated, push,
  map_all_deprecated, map_to_status,
}
use temporal_worker_controll.Planner.Scale.Total.{IsTimed}
use temporal_worker_controll.Planner.Config.Total.{IsServed}

-- A version that the server calls drained has a drain time.
abbrev pub IsDated : VersionInfo → Type 0
IsDated info = info.status ≡ drained → is_some info.drained_since ≡ true

module _ (k8s_state : DeploymentState) (state : TemporalWorkerState) where
  pub map_to_status-IsServed :
      (target : Text) → IsServed state (map_to_status k8s_state state target).target_version
  unfolding map_to_status map_target_with_ramp map_target base_version
  map_to_status-IsServed target = elim (Bool-cases (state.ramping_build_id == target)) [
    | inl ramps ↦ elim (Bool-cases (is_empty target)) [
      | inl empty ↦ rw (ramps, empty) (λ h. absurd (cc))
      | inr full ↦ rw (ramps, full) (by_entry (lookup target state.versions))
    ]
    | inr other ↦ elim (Bool-cases (is_empty target)) [
      | inl empty ↦ rw (other, empty) (λ h. absurd (cc))
      | inr full ↦ rw (other, full) (by_entry (lookup target state.versions))
    ]
  ]
    where
      by_entry :
          (info : Option VersionInfo)
          → is_inactive (version_status info) ≡ true
          → is_some info ≡ true
      by_entry none h = absurd (cc)
      by_entry (some info) h = refl

  drain_time_known :
      (info : Option VersionInfo)
      → ((i : VersionInfo) → info ≡ some i → IsDated i)
      → version_status info ≡ drained
      → is_some (drain_time info) ≡ true
  drain_time_known none dated h = absurd (cc)
  drain_time_known (some i) dated h = dated i refl h

  module _ (dated : AllValues IsDated state.versions) where
    map_deprecated-IsTimed :
        (b : Text) {v : DeprecatedWorkerDeploymentVersion}
        → map_deprecated k8s_state state b ≡ some v
        → IsTimed v
    unfolding map_deprecated base_version
    map_deprecated-IsTimed b {v} h = elim (Bool-cases (is_empty b)) [
      | inl empty ↦ absurd (cc (rw empty at h))
      | inr full ↦
          subst IsTimed (some-eq-some (rw full at h))
            (drain_time_known (lookup b state.versions) (λ i e. dated b i e))
    ]

    push-IsTimed :
        (o : Option DeprecatedWorkerDeploymentVersion) (vs : List DeprecatedWorkerDeploymentVersion)
        → ((v : DeprecatedWorkerDeploymentVersion) → o ≡ some v → IsTimed v)
        → All IsTimed vs
        → All IsTimed (push o vs)
    push-IsTimed none vs good all = all
    push-IsTimed (some v) vs good all = (good v refl, all)

    pub map_all_deprecated-IsTimed :
        (target : Text) (ds : StringMap Deployment)
        → All IsTimed (map_all_deprecated k8s_state state target ds)
    unfolding map_all_deprecated
    map_all_deprecated-IsTimed target [] = tt
    map_all_deprecated-IsTimed target ((b, d) ∷ ds) =
        elim (Bool-cases (b == state.current_build_id || b == target)) [
          | inl skipped ↦ rw skipped (map_all_deprecated-IsTimed target ds)
          | inr taken ↦ rw taken (
              push-IsTimed (map_deprecated k8s_state state b)
                (map_all_deprecated k8s_state state target ds) (λ v e. map_deprecated-IsTimed b e)
                (map_all_deprecated-IsTimed target ds))
        ]
