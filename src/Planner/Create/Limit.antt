-- ===== src/Planner/Create/Limit.antt =====
-- When a new deployment is created.
use temporal_worker_controll.Base.{
  ℕ, ◌+◌, ◌<◌, ◌^◌, ℤ, pos, ◌<ℤ◌, ◌+ℤ◌, to_int32_in_range, true, List, [], ◌∷◌, if◌then◌else◌, none,
  length, ◌≡◌, ◌↔◌, arith,
}
use temporal_worker_controll.Api.Types.{
  DeprecatedWorkerDeploymentVersion, TemporalWorkerDeploymentStatus,
}
use temporal_worker_controll.Planner.Create.{count_ineligible, should_create_deployment}

-- The deprecated versions that the server may not delete.
abbrev pub ineligible :
    List DeprecatedWorkerDeploymentVersion → List DeprecatedWorkerDeploymentVersion
ineligible [] = []
ineligible (v ∷ vs) = if v.eligible_for_deletion then ineligible vs else v ∷ ineligible vs

count_ineligible_lem :
    (n : ℕ) (vs : List DeprecatedWorkerDeploymentVersion)
    → n + length vs < 2 ^ 31
    → count_ineligible (pos n) vs ≡ pos (n + length (ineligible vs))
unfolding count_ineligible ◌+ℤ◌
count_ineligible_lem n [] h = ground arith
count_ineligible_lem n (v ∷ vs) h = ground (
  arith,
  count_ineligible_lem n vs,
  count_ineligible_lem (n + 1) vs,
  to_int32_in_range (pos (n + 1)),
)

-- With fewer than 2^31 deprecated versions a deployment is created exactly when the target version
-- has none and fewer than the maximum of the deprecated versions are ineligible for deletion; the
-- int32 counter counts them without wrapping around.
pub should_create_deployment_iff :
    (status : TemporalWorkerDeploymentStatus) (max : ℤ)
    → length status.deprecated_versions < 2 ^ 31
    → (should_create_deployment status max ≡ true) ↔ (
        (status.target_version.deployment ≡ none)
        × (pos (length (ineligible status.deprecated_versions)) <ℤ max))
unfolding should_create_deployment
should_create_deployment_iff status max h =
    let e = count_ineligible_lem 0 status.deprecated_versions (omega arith) in
    (λ c. ground arith, λ p. ground arith)
