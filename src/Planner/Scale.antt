-- ===== src/Planner/Scale.antt =====
-- `getScaleDeployments`. The Go map is keyed by the pointers that the versions of the status hold;
-- each version has its own pointer, so no write replaces another, and the map is the list of its
-- entries. `now` is the reading of the clock.
pub mod Total
pub mod Table
use temporal_worker_controll.Base.{
  ℕ, ℤ, pos, ltb_ℤ, eqb_ℤ, to_uint32, Text, ◌==◌, lookup, Option, none, some, List, [], ◌∷◌, ◌++◌,
  Bool, true, false, not, ◌&&◌, ◌||◌, is_none, if◌then◌else◌, Outcome, ok, ◌>>=◌, deref,
}
use temporal_worker_controll.Api.Cluster.{Deployment, ObjectReference}
use temporal_worker_controll.Api.Types.{
  VersionStatus, inactive, ramping, current, drained, DeprecatedWorkerDeploymentVersion,
  CurrentWorkerDeploymentVersion, TargetWorkerDeploymentVersion, SunsetStrategy,
  TemporalWorkerDeploymentStatus, TemporalWorkerDeploymentSpec,
}
use temporal_worker_controll.K8s.State.{DeploymentState, managed}
use temporal_worker_controll.Planner.Types.{since}

abbrev pub ScaleDeployments : Type 0
ScaleDeployments = List (ObjectReference × ℕ)

-- `d.Spec.Replicas != nil && *d.Spec.Replicas != n`
abbrev pub is_off : Option ℤ → ℤ → Bool
is_off none n = false
is_off (some r) n = not (eqb_ℤ r n)

-- `scaleDeployments[ref] = uint32(n)` under a test.
abbrev pub scale_if : Bool → Option ObjectReference → ℤ → ScaleDeployments
scale_if true (some ref) n = (ref, to_uint32 n) ∷ []
scale_if true none n = []
scale_if false ref n = []

abbrev pub replicas_off : Option Deployment → ℤ → Bool
replicas_off none n = false
replicas_off (some d) n = is_off d.replicas n

-- The current version, if its count differs.
unfoldable pub scale_current :
    DeploymentState → ℤ → Option CurrentWorkerDeploymentVersion → ScaleDeployments
scale_current k8s_state replicas none = []
scale_current k8s_state replicas (some v) =
    scale_if
      (replicas_off (managed v.deployment (lookup v.build_id k8s_state.deployments)) replicas)
      v.deployment replicas

abbrev pub is_current_target : Option CurrentWorkerDeploymentVersion → Text → Bool
is_current_target none target = false
is_current_target (some v) target = v.build_id == target

-- For the target a count that is not set differs as well.
abbrev pub target_off : Option Deployment → ℤ → Bool
target_off none n = false
target_off (some d) n = is_none d.replicas || is_off d.replicas n

unfoldable pub scale_target :
    DeploymentState
    → ℤ
    → Option CurrentWorkerDeploymentVersion
    → TargetWorkerDeploymentVersion
    → ScaleDeployments
scale_target k8s_state replicas current_version target =
    scale_if
      (not (is_current_target current_version target.build_id)
        && target_off (managed target.deployment (lookup target.build_id k8s_state.deployments))
            replicas)
      target.deployment replicas

-- The `switch` on the status of a deprecated version, for its deployment.
unfoldable pub scale_by_status :
    VersionStatus
    → ℤ
    → SunsetStrategy
    → ℤ
    → Text
    → DeprecatedWorkerDeploymentVersion
    → Deployment
    → Outcome ScaleDeployments
scale_by_status inactive now sunset replicas target version d = ok (
    if target == version.build_id
    then scale_if (is_off d.replicas replicas) version.deployment replicas
    else scale_if (is_off d.replicas (pos 0)) version.deployment (pos 0))
scale_by_status ramping now sunset replicas target version d =
    ok (scale_if (is_off d.replicas replicas) version.deployment replicas)
scale_by_status current now sunset replicas target version d =
    ok (scale_if (is_off d.replicas replicas) version.deployment replicas)
scale_by_status drained now sunset replicas target version d = do
  drained_since ← deref version.drained_since
  scaledown_delay ← deref sunset.scaledown_delay
  ok (
      scale_if (ltb_ℤ scaledown_delay (since now drained_since) && is_off d.replicas (pos 0))
        version.deployment (pos 0))
scale_by_status _ now sunset replicas target version d = ok []

unfoldable pub scale_managed :
    Option Deployment
    → ℤ
    → SunsetStrategy
    → ℤ
    → Text
    → DeprecatedWorkerDeploymentVersion
    → Outcome ScaleDeployments
scale_managed none now sunset replicas target version = ok []
scale_managed (some d) now sunset replicas target version =
    scale_by_status version.status now sunset replicas target version d

unfoldable pub scale_deprecated :
    ℤ
    → DeploymentState
    → SunsetStrategy
    → ℤ
    → Text
    → List DeprecatedWorkerDeploymentVersion
    → Outcome ScaleDeployments
scale_deprecated now k8s_state sunset replicas target [] = ok []
scale_deprecated now k8s_state sunset replicas target (v ∷ vs) = do
  here ←
      scale_managed (managed v.deployment (lookup v.build_id k8s_state.deployments)) now sunset
        replicas target v
  rest ← scale_deprecated now k8s_state sunset replicas target vs
  ok (here ++ rest)

unfoldable pub get_scale_deployments :
    ℤ
    → DeploymentState
    → TemporalWorkerDeploymentStatus
    → TemporalWorkerDeploymentSpec
    → Outcome ScaleDeployments
get_scale_deployments now k8s_state status spec = do
  replicas ← deref spec.replicas
  others ←
      scale_deprecated now k8s_state spec.sunset_strategy replicas status.target_version.build_id
        status.deprecated_versions
  ok (
      scale_current k8s_state replicas status.current_version
      ++ (scale_target k8s_state replicas status.current_version status.target_version ++ others))
