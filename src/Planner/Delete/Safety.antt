-- ===== src/Planner/Delete/Safety.antt =====
-- When a deployment is deleted, and when the computation panics.
use mathlib.Core.Path.{subst}
use temporal_worker_controll.Base.{
  ℤ, pos, ltb_ℤ, eqb_ℤ_iff, ◌+ℤ◌, to_int64, Text, text_eq_iff, lookup, Option, none, some, List, [],
  ◌∷◌, Bool, true, false, if◌then◌else◌, ok, deref, ok-injective, bind-eq-ok, deref-eq-ok, ◌≡◌, ◌≢◌,
  ◌⊎◌, inl, inr, refl, arith, Elem, is_some, ap, sym,
}
use temporal_worker_controll.Api.Cluster.{Deployment, ObjectReference}
use temporal_worker_controll.Api.Types.{
  VersionStatus, not_registered, drained, DeprecatedWorkerDeploymentVersion, SunsetStrategy,
  TemporalWorkerDeploymentStatus, TemporalWorkerDeploymentSpec,
}
use temporal_worker_controll.K8s.State.{DeploymentState, managed}
use temporal_worker_controll.Planner.Types.{since}
use temporal_worker_controll.Planner.Delete.{
  has_no_replicas, drained_can_go, delete_by_status, delete_managed, should_delete, delete_loop,
  get_delete_deployments,
}

-- The version was drained longer ago than both delays together, and its deployment has no replicas.
abbrev pub IsSunset : ℤ → SunsetStrategy → DeprecatedWorkerDeploymentVersion → Deployment → Type 0
IsSunset now sunset version d =
    (t : ℤ) × (version.drained_since ≡ some t)
    × (delete_delay : ℤ) × (sunset.delete_delay ≡ some delete_delay)
    × (scaledown_delay : ℤ) × (sunset.scaledown_delay ≡ some scaledown_delay)
    × (ltb_ℤ (to_int64 (delete_delay +ℤ scaledown_delay)) (since now t) ≡ true)
    × (d.replicas ≡ some (pos 0))

-- The reason for a deletion.
abbrev pub MayGo :
    ℤ → SunsetStrategy → Text → Bool → DeprecatedWorkerDeploymentVersion → Deployment → Type 0
MayGo now sunset target found version d =
    ((version.status ≡ drained) × IsSunset now sunset version d)
    ⊎ ((version.status ≡ not_registered) × (found ≡ true) × (target ≢ version.build_id))

has_no_replicas_sound :
    (late : Bool) (replicas : Option ℤ)
    → has_no_replicas late replicas ≡ ok true
    → (late ≡ true) × (replicas ≡ some (pos 0))
unfolding has_no_replicas
has_no_replicas_sound true (some r) h = (refl, ap some ((eqb_ℤ_iff r (pos 0)).0 (ground arith)))
has_no_replicas_sound true none h = absurd (cc)
has_no_replicas_sound false r h = absurd (ground arith)

drained_can_go_sound :
    (now : ℤ) (sunset : SunsetStrategy) (version : DeprecatedWorkerDeploymentVersion)
    (d : Deployment)
    → drained_can_go now sunset version d ≡ ok true
    → IsSunset now sunset version d
unfolding drained_can_go
drained_can_go_sound now sunset version d h =
    let (t, e, h) = bind-eq-ok (deref version.drained_since) _ h in
    let (dd, e1, h) = bind-eq-ok (deref sunset.delete_delay) _ h in
    let (sd, e2, h) = bind-eq-ok (deref sunset.scaledown_delay) _ h in
    let (late, empty) = has_no_replicas_sound _ d.replicas h in
    (
      t,
      deref-eq-ok version.drained_since e,
      dd,
      deref-eq-ok sunset.delete_delay e1,
      sd,
      deref-eq-ok sunset.scaledown_delay e2,
      late,
      empty,
    )

delete_by_status_sound :
    (status : VersionStatus) (now : ℤ) (sunset : SunsetStrategy) (target : Text) (found : Bool)
    (version : DeprecatedWorkerDeploymentVersion) (d : Deployment)
    → version.status ≡ status
    → delete_by_status status now sunset target found version d ≡ ok true
    → MayGo now sunset target found version d
unfolding delete_by_status
delete_by_status_sound drained now sunset target found version d e h =
    inl (e, drained_can_go_sound now sunset version d h)
delete_by_status_sound not_registered now sunset target found version d e h =
    inr (e, ground arith, λ same. ground (arith, text_eq_iff target version.build_id))
delete_by_status_sound _ now sunset target found version d e h = absurd (ground arith)

managed-eq-some :
    (ref : Option ObjectReference) (found : Option Deployment) {d : Deployment}
    → managed ref found ≡ some d
    → (is_some ref ≡ true) × (found ≡ some d)
unfolding managed
managed-eq-some none found h = absurd (cc)
managed-eq-some (some ref) found h = (refl, h)

delete_managed_sound :
    (m : Option Deployment) (now : ℤ) (sunset : SunsetStrategy) (target : Text) (found : Bool)
    (version : DeprecatedWorkerDeploymentVersion)
    → delete_managed m now sunset target found version ≡ ok true
    → (d : Deployment) × (m ≡ some d) × MayGo now sunset target found version d
unfolding delete_managed
delete_managed_sound none now sunset target found version h = absurd (ground arith)
delete_managed_sound (some d) now sunset target found version h =
    (d, refl, delete_by_status_sound version.status now sunset target found version d refl h)

should_delete_sound :
    (now : ℤ) (k8s_state : DeploymentState) (sunset : SunsetStrategy) (target : Text) (found : Bool)
    (version : DeprecatedWorkerDeploymentVersion)
    → should_delete now k8s_state sunset target found version ≡ ok true
    → (d : Deployment) × (lookup version.build_id k8s_state.deployments ≡ some d)
      × MayGo now sunset target found version d
unfolding should_delete
should_delete_sound now k8s_state sunset target found version h =
    let (d, e, why) =
      delete_managed_sound
        (managed version.deployment (lookup version.build_id k8s_state.deployments)) now sunset
        target found version h in
    (d, (managed-eq-some version.deployment _ e).1, why)

-- What is known of a build ID that is deleted: the version it belongs to and the reason.
abbrev pub IsDeletable :
    ℤ
    → DeploymentState
    → SunsetStrategy
    → Text
    → Bool
    → List DeprecatedWorkerDeploymentVersion
    → Text
    → Type 0
IsDeletable now k8s_state sunset target found versions b =
    (version : DeprecatedWorkerDeploymentVersion) × Elem version versions
    × (version.build_id ≡ b)
    × (d : Deployment) × (lookup b k8s_state.deployments ≡ some d)
    × MayGo now sunset target found version d

delete_loop_sound :
    (now : ℤ) (k8s_state : DeploymentState) (sunset : SunsetStrategy) (target : Text) (found : Bool)
    (versions : List DeprecatedWorkerDeploymentVersion) {bs : List Text}
    → delete_loop now k8s_state sunset target found versions ≡ ok bs
    → (b : Text) → Elem b bs
    → IsDeletable now k8s_state sunset target found versions b
unfolding delete_loop
delete_loop_sound now k8s_state sunset target found [] h b m = absurd (rw (← ok-injective h) at m)
delete_loop_sound now k8s_state sunset target found (v ∷ vs) {bs} h b m =
    let (delete, p, h) = bind-eq-ok (should_delete now k8s_state sunset target found v) _ h in
    let (rest, q, h) = bind-eq-ok (delete_loop now k8s_state sunset target found vs) _ h in
    let ih = delete_loop_sound now k8s_state sunset target found vs q b in
    let found_here : (Elem b rest) ⊎ ((delete ≡ true) × (b ≡ v.build_id)) =
      split delete rest (ok-injective h) m in
    elim found_here [
      | inl later ↦ let (w, here, same, d, e, why) = ih later in (w, inr here, same, d, e, why)
      | inr (deleted, same) ↦
          let (d, e, why) =
            should_delete_sound now k8s_state sunset target found v (rw (ap ok deleted) at p) in
          (v, inl refl, sym same, d, rw same e, why)
    ]
  where
    split :
        (delete : Bool) (rest : List Text)
        → (if delete then v.build_id ∷ rest else rest) ≡ bs
        → Elem b bs
        → (Elem b rest) ⊎ ((delete ≡ true) × (b ≡ v.build_id))
    split true rest e m = elim (subst (Elem b) (sym e) m) [ inl x ↦ inr (refl, x) | inr y ↦ inl y ]
    split false rest e m = inl (subst (Elem b) (sym e) m)

-- A deployment is deleted only if it is in the cluster, belongs to a deprecated version, and the
-- version either is drained, longer ago than the scale-down and the delete delay together (as an
-- int64 sum), with a deployment that has zero replicas, or is not registered, while the server does
-- know the worker deployment and the version is not the target.
pub get_delete_deployments_sound :
    (now : ℤ) (k8s_state : DeploymentState) (status : TemporalWorkerDeploymentStatus)
    (spec : TemporalWorkerDeploymentSpec) (found : Bool) {bs : List Text}
    → get_delete_deployments now k8s_state status spec found ≡ ok bs
    → (b : Text) → Elem b bs
    → IsDeletable now k8s_state spec.sunset_strategy status.target_version.build_id found
        status.deprecated_versions b
unfolding get_delete_deployments
get_delete_deployments_sound now k8s_state status spec found h =
    delete_loop_sound now k8s_state spec.sunset_strategy status.target_version.build_id found
      status.deprecated_versions h
