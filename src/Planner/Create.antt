-- ===== src/Planner/Create.antt =====
-- `shouldCreateDeployment`.
pub mod Limit
use temporal_worker_controll.Base.{
  ℤ, pos, leb_ℤ, ◌+ℤ◌, to_int32, is_some, Bool, true, false, not, List, [], ◌∷◌, if◌then◌else◌,
}
use temporal_worker_controll.Api.Types.{
  DeprecatedWorkerDeploymentVersion, TemporalWorkerDeploymentStatus,
}

-- The loop with its int32 counter.
unfoldable pub count_ineligible : ℤ → List DeprecatedWorkerDeploymentVersion → ℤ
count_ineligible count [] = count
count_ineligible count (v ∷ vs) =
    count_ineligible (if v.eligible_for_deletion then count else to_int32 (count +ℤ pos 1)) vs

unfoldable pub should_create_deployment : TemporalWorkerDeploymentStatus → ℤ → Bool
should_create_deployment status max_versions_ineligible_for_deletion =
    if is_some status.target_version.deployment
    then false
    else not (
        leb_ℤ max_versions_ineligible_for_deletion
          (count_ineligible (pos 0) status.deprecated_versions))
