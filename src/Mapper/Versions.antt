-- ===== src/Mapper/Versions.antt =====
-- The kinds of version in a mapped status, and what the planner makes of them.
use temporal_worker_controll.Base.{
  ℤ, Text, ◌==◌, text_eq_iff, StringMap, Option, none, some, List, [], ◌∷◌, Bool, false, ◌||◌, Elem,
  ◌≡◌, ◌≢◌, ◌⊎◌, inl, inr, refl, sym, ◌∙◌, arith, Bool-cases, ok,
}
use temporal_worker_controll.Api.Cluster.{Deployment}
use temporal_worker_controll.Api.Types.{
  DeprecatedWorkerDeploymentVersion, TemporalWorkerDeploymentSpec, TemporalWorkerDeploymentStatus,
}
use temporal_worker_controll.Api.Times.{HasSameVersions, HasSameVersions-deprecated}
use temporal_worker_controll.K8s.State.{DeploymentState}
use temporal_worker_controll.Server.Types.{TemporalWorkerState}
use temporal_worker_controll.Mapper.{
  base_version, map_deprecated, push, map_all_deprecated, map_to_status,
}
use temporal_worker_controll.Planner.Delete.{get_delete_deployments}
use temporal_worker_controll.Planner.Delete.Safety.{get_delete_deployments_sound}

-- A deprecated version is neither the current nor the target one, and its build ID is not empty.
abbrev pub IsApart : Text → Text → DeprecatedWorkerDeploymentVersion → Type 0
IsApart current_id target_id version =
    (version.build_id ≢ current_id) × (version.build_id ≢ target_id) × (version.build_id ≢ [])

map_deprecated_build_id :
    (k8s_state : DeploymentState) (temporal_state : TemporalWorkerState) (b : Text)
    {v : DeprecatedWorkerDeploymentVersion}
    → map_deprecated k8s_state temporal_state b ≡ some v
    → (v.build_id ≡ b) × (b ≢ [])
unfolding map_deprecated base_version
map_deprecated_build_id k8s_state temporal_state [] h = absurd (cc)
map_deprecated_build_id k8s_state temporal_state (c ∷ b) h = (ground arith, λ e. cc)

Elem-push :
    (o : Option DeprecatedWorkerDeploymentVersion) (vs : List DeprecatedWorkerDeploymentVersion)
    (v : DeprecatedWorkerDeploymentVersion)
    → Elem v (push o vs)
    → (o ≡ some v) ⊎ Elem v vs
Elem-push none vs v m = inr m
Elem-push (some w) vs v (inl e) = inl (ground arith)
Elem-push (some w) vs v (inr m) = inr m

map_all_deprecated-IsApart :
    (k8s_state : DeploymentState) (temporal_state : TemporalWorkerState) (target : Text)
    (ds : StringMap Deployment) (v : DeprecatedWorkerDeploymentVersion)
    → Elem v (map_all_deprecated k8s_state temporal_state target ds)
    → IsApart temporal_state.current_build_id target v
unfolding map_all_deprecated
map_all_deprecated-IsApart k8s_state temporal_state target [] v m = absurd m
map_all_deprecated-IsApart k8s_state temporal_state target ((b, d) ∷ ds) v m =
    let ih = map_all_deprecated-IsApart k8s_state temporal_state target ds v in
    elim (Bool-cases (b == temporal_state.current_build_id || b == target)) [
      | inl skip ↦ ih (rw skip at m)
      | inr taken ↦
          elim (Elem-push (map_deprecated k8s_state temporal_state b)
            (map_all_deprecated k8s_state temporal_state target ds) v (rw taken at m)) [
              | inr later ↦ ih later
              | inl e ↦
                  let (same, full) = map_deprecated_build_id k8s_state temporal_state b e in
                  (
                    λ p.
                        apart_lem b temporal_state.current_build_id target taken
                          (inl (sym same ∙ p)),
                    λ p.
                        apart_lem b temporal_state.current_build_id target taken
                          (inr (sym same ∙ p)),
                    λ p. full (sym same ∙ p),
                  )
            ]
    ]
  where
    apart_lem : (b c t : Text) → (b == c || b == t) ≡ false → (b ≡ c) ⊎ (b ≡ t) → ⊥
    apart_lem b c t h (inl e) = ground (arith, text_eq_iff b c)
    apart_lem b c t h (inr e) = ground (arith, text_eq_iff b t)

-- The same for a status that has the deprecated versions of the mapped one.
pub same_versions-delete :
    (k8s_state k8s_state' : DeploymentState) (temporal_state : TemporalWorkerState) (target : Text)
    (now : ℤ) (status : TemporalWorkerDeploymentStatus) (spec : TemporalWorkerDeploymentSpec)
    (found : Bool) {bs : List Text}
    → HasSameVersions status (map_to_status k8s_state temporal_state target)
    → get_delete_deployments now k8s_state' status spec found ≡ ok bs
    → (b : Text) → Elem b bs
    → (b ≢ temporal_state.current_build_id) × (b ≢ target) × (b ≢ [])
unfolding map_to_status
same_versions-delete k8s_state k8s_state' temporal_state target now status spec found mapped h b m =
    let (v, here, same, d, e0, why) =
      get_delete_deployments_sound now k8s_state' status spec found h b m in
    let (u, there, equal) =
      HasSameVersions-deprecated status (map_to_status k8s_state temporal_state target) mapped v
        here in
    let (a, t, e) =
      map_all_deprecated-IsApart k8s_state temporal_state target k8s_state.deployments u there in
    let named = sym equal ∙ same in (λ p. a (named ∙ p), λ p. t (named ∙ p), λ p. e (named ∙ p))

-- With a status that is mapped from the state of the server and a state of the cluster, no deployment
-- of the current version, of the target version or of an empty build ID is ever deleted, also when the
-- cluster has changed before the deletions are computed from it.
pub map_to_status-delete :
    (k8s_state k8s_state' : DeploymentState) (temporal_state : TemporalWorkerState) (target : Text)
    (now : ℤ) (spec : TemporalWorkerDeploymentSpec) (found : Bool) {bs : List Text}
    → get_delete_deployments now k8s_state'
        (map_to_status k8s_state temporal_state target)
        spec
        found
      ≡ ok bs
    → (b : Text) → Elem b bs
    → (b ≢ temporal_state.current_build_id) × (b ≢ target) × (b ≢ [])
map_to_status-delete k8s_state k8s_state' temporal_state target now spec found h b m =
    same_versions-delete k8s_state k8s_state' temporal_state target now
      (map_to_status k8s_state temporal_state target) spec found refl h b m
