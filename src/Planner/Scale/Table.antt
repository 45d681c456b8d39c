-- ===== src/Planner/Scale/Table.antt =====
-- What a scale operation may do.
use temporal_worker_controll.Base.{
  ℕ, ℤ, pos, ltb_ℤ, to_uint32, Text, ◌==◌, text_eq_iff, Option, none, some, List, [], ◌∷◌, Bool,
  true, false, ok, deref, bind-eq-ok, deref-eq-ok, ok-injective, Elem, Elem-append, ◌≡◌, ◌≢◌, ◌⊎◌,
  inl, inr, refl, arith, Bool-cases, sym,
}
use mathlib.Core.Path.{subst}
use temporal_worker_controll.Api.Cluster.{Deployment, ObjectReference}
use temporal_worker_controll.Api.Types.{
  VersionStatus, not_registered, inactive, ramping, current, draining, drained,
  DeprecatedWorkerDeploymentVersion, CurrentWorkerDeploymentVersion, SunsetStrategy,
  TemporalWorkerDeploymentStatus, TemporalWorkerDeploymentSpec,
}
use temporal_worker_controll.K8s.State.{DeploymentState}
use temporal_worker_controll.Planner.Types.{since}
use temporal_worker_controll.Planner.Scale.{
  ScaleDeployments, scale_if, is_off, scale_current, scale_target, scale_by_status, scale_managed,
  scale_deprecated, get_scale_deployments,
}

-- The version may be scaled to zero: it is inactive and not the target, or it was drained longer
-- ago than the scale-down delay.
abbrev pub MayRest : ℤ → SunsetStrategy → Text → DeprecatedWorkerDeploymentVersion → Type 0
MayRest now sunset target version =
    ((version.status ≡ inactive) × (target ≢ version.build_id))
    ⊎ ((version.status ≡ drained)
        × ((t : ℤ) × (version.drained_since ≡ some t)
            × (delay : ℤ) × (sunset.scaledown_delay ≡ some delay)
            × (ltb_ℤ delay (since now t) ≡ true)))

-- An entry that scales to zero for the sake of a deprecated version.
abbrev pub IsRested :
    ℤ
    → SunsetStrategy
    → Text
    → List DeprecatedWorkerDeploymentVersion
    → ObjectReference × ℕ
    → Type 0
IsRested now sunset target versions e =
    (e.1 ≡ 0)
    × (version : DeprecatedWorkerDeploymentVersion) × Elem version versions
    × (version.deployment ≡ some e.0)
    × MayRest now sunset target version

scale_if_sound :
    (b : Bool) (ref : Option ObjectReference) (n : ℤ) (e : ObjectReference × ℕ)
    → Elem e (scale_if b ref n)
    → (b ≡ true) × (ref ≡ some e.0) × (e.1 ≡ to_uint32 n)
scale_if_sound true (some ref) n e (inl same) = (refl, ground arith, ground arith)
scale_if_sound true (some ref) n e (inr h) = absurd h
scale_if_sound true none n e h = absurd h
scale_if_sound false ref n e h = absurd h

scale_by_status_sound :
    (status : VersionStatus) (now : ℤ) (sunset : SunsetStrategy) (replicas : ℤ) (target : Text)
    (version : DeprecatedWorkerDeploymentVersion) (d : Deployment) {es : ScaleDeployments}
    → version.status ≡ status
    → scale_by_status status now sunset replicas target version d ≡ ok es
    → (e : ObjectReference × ℕ) → Elem e es
    → (e.1 ≡ to_uint32 replicas)
      ⊎ ((e.1 ≡ 0) × (version.deployment ≡ some e.0) × MayRest now sunset target version)
unfolding scale_by_status to_uint32
scale_by_status_sound inactive now sunset replicas target version d s h e m =
    elim (Bool-cases (target == version.build_id)) [
      | inl same ↦
          let m' = subst (Elem e) (sym (ok-injective h)) m in
          inl (
            (scale_if_sound (is_off d.replicas replicas) version.deployment replicas e
              (rw same at m')).2)
      | inr other ↦
          let m' = subst (Elem e) (sym (ok-injective h)) m in
          let (off, ref, zero_count) =
            scale_if_sound (is_off d.replicas (pos 0)) version.deployment (pos 0) e
              (rw other at m') in
          inr (zero_count, ref, inl (s, λ p. ground (arith, text_eq_iff target version.build_id)))
    ]
scale_by_status_sound ramping now sunset replicas target version d s h e m =
    inl
      (scale_if_sound (is_off d.replicas replicas) version.deployment replicas e
        (subst (Elem e) (sym (ok-injective h)) m)).2
scale_by_status_sound current now sunset replicas target version d s h e m =
    inl
      (scale_if_sound (is_off d.replicas replicas) version.deployment replicas e
        (subst (Elem e) (sym (ok-injective h)) m)).2
scale_by_status_sound drained now sunset replicas target version d s h e m =
    let (t, e1, h) = bind-eq-ok (deref version.drained_since) _ h in
    let (delay, e2, h) = bind-eq-ok (deref sunset.scaledown_delay) _ h in
    let (both, ref, zero_count) =
      scale_if_sound _ version.deployment (pos 0) e (subst (Elem e) (sym (ok-injective h)) m) in
    inr (
      zero_count,
      ref,
      inr (
        s,
        (
          t,
          deref-eq-ok version.drained_since e1,
          delay,
          deref-eq-ok sunset.scaledown_delay e2,
          ground arith,
        ),
      ),
    )
scale_by_status_sound not_registered now sunset replicas target version d s h e m =
    absurd (subst (Elem e) (sym (ok-injective h)) m)
scale_by_status_sound draining now sunset replicas target version d s h e m =
    absurd (subst (Elem e) (sym (ok-injective h)) m)

scale_managed_sound :
    (m : Option Deployment) (now : ℤ) (sunset : SunsetStrategy) (replicas : ℤ) (target : Text)
    (version : DeprecatedWorkerDeploymentVersion) {es : ScaleDeployments}
    → scale_managed m now sunset replicas target version ≡ ok es
    → (e : ObjectReference × ℕ) → Elem e es
    → (e.1 ≡ to_uint32 replicas)
      ⊎ ((e.1 ≡ 0) × (version.deployment ≡ some e.0) × MayRest now sunset target version)
unfolding scale_managed
scale_managed_sound none now sunset replicas target version h e m =
    absurd (subst (Elem e) (sym (ok-injective h)) m)
scale_managed_sound (some d) now sunset replicas target version h e m =
    scale_by_status_sound version.status now sunset replicas target version d refl h e m

scale_deprecated_sound :
    (now : ℤ) (k8s_state : DeploymentState) (sunset : SunsetStrategy) (replicas : ℤ) (target : Text)
    (versions : List DeprecatedWorkerDeploymentVersion) {es : ScaleDeployments}
    → scale_deprecated now k8s_state sunset replicas target versions ≡ ok es
    → (e : ObjectReference × ℕ) → Elem e es
    → (e.1 ≡ to_uint32 replicas) ⊎ IsRested now sunset target versions e
unfolding scale_deprecated
scale_deprecated_sound now k8s_state sunset replicas target [] h e m =
    absurd (subst (Elem e) (sym (ok-injective h)) m)
scale_deprecated_sound now k8s_state sunset replicas target (v ∷ vs) h e m =
    let (here, p, h) = bind-eq-ok (scale_managed _ now sunset replicas target v) _ h in
    let (rest, q, h) = bind-eq-ok (scale_deprecated now k8s_state sunset replicas target vs) _ h in
    elim (Elem-append e here rest (subst (Elem e) (sym (ok-injective h)) m)) [
      | inl x ↦ elim (scale_managed_sound _ now sunset replicas target v p e x) [
        | inl full ↦ inl full
        | inr (zero_count, ref, why) ↦ inr (zero_count, v, inl refl, ref, why)
      ]
      | inr y ↦ elim (scale_deprecated_sound now k8s_state sunset replicas target vs q e y) [
        | inl full ↦ inl full
        | inr (zero_count, w, later, ref, why) ↦ inr (zero_count, w, inr later, ref, why)
      ]
    ]

scale_current_sound :
    (k8s_state : DeploymentState) (replicas : ℤ) (v : Option CurrentWorkerDeploymentVersion)
    (e : ObjectReference × ℕ)
    → Elem e (scale_current k8s_state replicas v)
    → e.1 ≡ to_uint32 replicas
unfolding scale_current
scale_current_sound k8s_state replicas none e m = absurd m
scale_current_sound k8s_state replicas (some v) e m = (scale_if_sound _ v.deployment replicas e m).2

-- Every deployment that is scaled gets the count of the spec, as a uint32, or zero; zero only for
-- the deployment of a deprecated version that is inactive and not the target, or that was drained
-- longer ago than the scale-down delay.
pub get_scale_deployments_sound :
    (now : ℤ) (k8s_state : DeploymentState) (status : TemporalWorkerDeploymentStatus)
    (spec : TemporalWorkerDeploymentSpec) {es : ScaleDeployments}
    → get_scale_deployments now k8s_state status spec ≡ ok es
    → (e : ObjectReference × ℕ) → Elem e es
    → ((replicas : ℤ) × (spec.replicas ≡ some replicas) × (e.1 ≡ to_uint32 replicas))
      ⊎ IsRested now spec.sunset_strategy status.target_version.build_id status.deprecated_versions
          e
unfolding get_scale_deployments scale_target
get_scale_deployments_sound now k8s_state status spec h e m =
    let (replicas, r, h) = bind-eq-ok (deref spec.replicas) _ h in
    let known = deref-eq-ok spec.replicas r in
    let (others, p, h) =
      bind-eq-ok
        (scale_deprecated now k8s_state spec.sunset_strategy replicas status.target_version.build_id
          status.deprecated_versions)
        _ h in
    elim (Elem-append e (scale_current k8s_state replicas status.current_version) _
      (subst (Elem e) (sym (ok-injective h)) m)) [
        | inl x ↦
            inl (replicas, known, scale_current_sound k8s_state replicas status.current_version e x)
        | inr y ↦ elim (Elem-append e _ others y) [
          | inl x ↦
              inl (
                replicas,
                known,
                (scale_if_sound _ status.target_version.deployment replicas e x).2,
              )
          | inr z ↦
              elim (scale_deprecated_sound now k8s_state spec.sunset_strategy replicas
                status.target_version.build_id status.deprecated_versions p e z) [
                  | inl all ↦ inl (replicas, known, all)
                  | inr rested ↦ inr rested
                ]
        ]
      ]
