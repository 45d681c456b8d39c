-- ===== src/Planner/Delete.antt =====
-- `getDeleteDeployments`. A deployment to delete is given by its build ID, the key under which the
-- cluster's state holds it. `now` is the reading of the clock.
pub mod Safety
pub mod Panics
use temporal_worker_controll.Base.{
  ℤ, pos, ltb_ℤ, eqb_ℤ, ◌+ℤ◌, to_int64, Text, ◌==◌, lookup, Option, none, some, List, [], ◌∷◌, Bool,
  true, false, not, ◌&&◌, if◌then◌else◌, Outcome, ok, panic, ◌>>=◌, deref,
}
use temporal_worker_controll.Api.Cluster.{Deployment}
use temporal_worker_controll.Api.Types.{
  VersionStatus, not_registered, drained, DeprecatedWorkerDeploymentVersion, SunsetStrategy,
  TemporalWorkerDeploymentStatus, TemporalWorkerDeploymentSpec,
}
use temporal_worker_controll.K8s.State.{DeploymentState, managed}
use temporal_worker_controll.Planner.Types.{since}

-- `late && *replicas == 0`: the pointer is read only if the first test passes.
unfoldable pub has_no_replicas : Bool → Option ℤ → Outcome Bool
has_no_replicas true (some replicas) = ok (eqb_ℤ replicas (pos 0))
has_no_replicas true none = panic
has_no_replicas false replicas = ok false

-- The test for a drained version: the delays have passed, and there are no replicas.
unfoldable pub drained_can_go :
    ℤ → SunsetStrategy → DeprecatedWorkerDeploymentVersion → Deployment → Outcome Bool
drained_can_go now sunset version d = do
  drained_since ← deref version.drained_since
  delete_delay ← deref sunset.delete_delay
  scaledown_delay ← deref sunset.scaledown_delay
  has_no_replicas (ltb_ℤ (to_int64 (delete_delay +ℤ scaledown_delay)) (since now drained_since))
      d.replicas

-- The `switch` on the status of a deprecated version whose deployment is `d`.
unfoldable pub delete_by_status :
    VersionStatus
    → ℤ
    → SunsetStrategy
    → Text
    → Bool
    → DeprecatedWorkerDeploymentVersion
    → Deployment
    → Outcome Bool
delete_by_status drained now sunset target found version d = drained_can_go now sunset version d
delete_by_status not_registered now sunset target found version d =
    ok (found && not (target == version.build_id))
delete_by_status _ now sunset target found version d = ok false

unfoldable pub delete_managed :
    Option Deployment
    → ℤ
    → SunsetStrategy
    → Text
    → Bool
    → DeprecatedWorkerDeploymentVersion
    → Outcome Bool
delete_managed none now sunset target found version = ok false
delete_managed (some d) now sunset target found version =
    delete_by_status version.status now sunset target found version d

-- One round of the loop: whether the version's deployment is to be deleted.
unfoldable pub should_delete :
    ℤ
    → DeploymentState
    → SunsetStrategy
    → Text
    → Bool
    → DeprecatedWorkerDeploymentVersion
    → Outcome Bool
should_delete now k8s_state sunset target found version =
    delete_managed (managed version.deployment (lookup version.build_id k8s_state.deployments)) now
      sunset target found version

unfoldable pub delete_loop :
    ℤ
    → DeploymentState
    → SunsetStrategy
    → Text
    → Bool
    → List DeprecatedWorkerDeploymentVersion
    → Outcome (List Text)
delete_loop now k8s_state sunset target found [] = ok []
delete_loop now k8s_state sunset target found (version ∷ versions) = do
  delete ← should_delete now k8s_state sunset target found version
  rest ← delete_loop now k8s_state sunset target found versions
  ok (if delete then version.build_id ∷ rest else rest)

unfoldable pub get_delete_deployments :
    ℤ
    → DeploymentState
    → TemporalWorkerDeploymentStatus
    → TemporalWorkerDeploymentSpec
    → Bool
    → Outcome (List Text)
get_delete_deployments now k8s_state status spec found_deployment_in_temporal =
    delete_loop now k8s_state spec.sunset_strategy status.target_version.build_id
      found_deployment_in_temporal status.deprecated_versions
