-- ===== src/Planner/Scale/Total.antt =====
-- When `getScaleDeployments` returns.
use temporal_worker_controll.Base.{
  ℤ, pos, ltb_ℤ, Text, lookup, Option, none, some, List, [], ◌∷◌, ◌++◌, ◌&&◌, All, is_some,
  is_some_value, deref, Returns, bind-Returns, ◌≡◌, refl, true,
}
use temporal_worker_controll.Api.Cluster.{Deployment}
use temporal_worker_controll.Api.Types.{
  VersionStatus, inactive, ramping, current, drained, DeprecatedWorkerDeploymentVersion,
  SunsetStrategy, TemporalWorkerDeploymentStatus, TemporalWorkerDeploymentSpec,
}
use temporal_worker_controll.K8s.State.{DeploymentState, managed}
use temporal_worker_controll.Planner.Types.{since}
use temporal_worker_controll.Planner.Scale.{
  is_off, scale_if, scale_by_status, scale_managed, scale_deprecated, get_scale_deployments,
}

-- A drained version whose drain time is known.
abbrev pub IsTimed : DeprecatedWorkerDeploymentVersion → Type 0
IsTimed version = version.status ≡ drained → is_some version.drained_since ≡ true

module _ (now : ℤ) (sunset : SunsetStrategy) (delayed : is_some sunset.scaledown_delay ≡ true)
    (replicas : ℤ) (target : Text) where
  scale_by_status-Returns :
      (status : VersionStatus) (version : DeprecatedWorkerDeploymentVersion) (d : Deployment)
      → (status ≡ drained → is_some version.drained_since ≡ true)
      → Returns (scale_by_status status now sunset replicas target version d)
  unfolding scale_by_status
  scale_by_status-Returns drained version d timed =
      let (t, e) = is_some_value version.drained_since (timed refl) in
      let (delay, e') = is_some_value sunset.scaledown_delay delayed in
      (
        scale_if (ltb_ℤ delay (since now t) && is_off d.replicas (pos 0)) version.deployment
            (pos 0),
        rw (e, e'),
      )
  scale_by_status-Returns inactive version d timed = (_, refl)
  scale_by_status-Returns ramping version d timed = (_, refl)
  scale_by_status-Returns current version d timed = (_, refl)
  scale_by_status-Returns _ version d timed = ([], refl)

  scale_managed-Returns :
      (m : Option Deployment) (version : DeprecatedWorkerDeploymentVersion)
      → IsTimed version
      → Returns (scale_managed m now sunset replicas target version)
  unfolding scale_managed
  scale_managed-Returns none version timed = ([], refl)
  scale_managed-Returns (some d) version timed =
      scale_by_status-Returns version.status version d timed

  scale_deprecated-Returns :
      (k8s_state : DeploymentState) (versions : List DeprecatedWorkerDeploymentVersion)
      → All IsTimed versions
      → Returns (scale_deprecated now k8s_state sunset replicas target versions)
  unfolding scale_deprecated
  scale_deprecated-Returns k8s_state [] timed = ([], refl)
  scale_deprecated-Returns k8s_state (v ∷ vs) timed =
      bind-Returns
        (scale_managed (managed v.deployment (lookup v.build_id k8s_state.deployments)) now sunset
          replicas target v)
        _
        (scale_managed-Returns (managed v.deployment (lookup v.build_id k8s_state.deployments)) v
          timed.0)
        (λ here e.
          bind-Returns (scale_deprecated now k8s_state sunset replicas target vs) _
            (scale_deprecated-Returns k8s_state vs timed.1) (λ rest e'. (here ++ rest, refl)))

pub get_scale_deployments-Returns :
    (now : ℤ) (k8s_state : DeploymentState) (status : TemporalWorkerDeploymentStatus)
    (spec : TemporalWorkerDeploymentSpec)
    → is_some spec.replicas ≡ true
    → is_some spec.sunset_strategy.scaledown_delay ≡ true
    → All IsTimed status.deprecated_versions
    → Returns (get_scale_deployments now k8s_state status spec)
unfolding get_scale_deployments
get_scale_deployments-Returns now k8s_state status spec counted delayed timed =
    let (replicas, e) = is_some_value spec.replicas counted in
    bind-Returns (deref spec.replicas) _ (replicas, rw e)
      (λ n e'.
        bind-Returns
          (scale_deprecated now k8s_state spec.sunset_strategy n status.target_version.build_id
            status.deprecated_versions)
          _
          (scale_deprecated-Returns now spec.sunset_strategy delayed n
            status.target_version.build_id k8s_state status.deprecated_versions timed)
          (λ others e''. (_, refl)))
