-- ===== src/Planner/Delete/Panics.antt =====
-- When `getDeleteDeployments` panics at a nil pointer.
use mathlib.Core.Path.{subst}
use temporal_worker_controll.Base.{
  ℤ, pos, ltb_ℤ, ◌+ℤ◌, to_int64, Text, lookup, Option, none, some, List, [], ◌∷◌, Bool, true, false,
  not, ◌&&◌, ◌==◌, eqb_ℤ, if◌then◌else◌, is_some_value, Outcome, ok, panic, ◌>>=◌, deref, ◌≡◌, ◌⊎◌,
  inl, inr, refl, Elem, All, is_some, Bool-cases,
}
use temporal_worker_controll.Api.Cluster.{Deployment, ObjectReference}
use temporal_worker_controll.Api.Types.{
  VersionStatus, not_registered, drained, DeprecatedWorkerDeploymentVersion, SunsetStrategy,
  TemporalWorkerDeploymentStatus, TemporalWorkerDeploymentSpec,
}
use temporal_worker_controll.K8s.State.{DeploymentState, managed}
use temporal_worker_controll.Planner.Types.{since}
use temporal_worker_controll.Planner.Delete.{
  has_no_replicas, drained_can_go, delete_by_status, delete_managed, should_delete, delete_loop,
  get_delete_deployments,
}

-- What the reads of pointers need of a version: if it is drained, the time is known and its
-- deployment, if the cluster has one, states its replicas.
abbrev pub IsReadable : DeploymentState → DeprecatedWorkerDeploymentVersion → Type 0
IsReadable k8s_state version =
    version.status ≡ drained
    → (is_some version.drained_since ≡ true)
      × ((d : Deployment)
          → lookup version.build_id k8s_state.deployments ≡ some d
          → is_some d.replicas ≡ true)

drained_can_go_total :
    (now : ℤ) (sunset : SunsetStrategy) (version : DeprecatedWorkerDeploymentVersion)
    (d : Deployment)
    → is_some sunset.delete_delay ≡ true
    → is_some sunset.scaledown_delay ≡ true
    → is_some version.drained_since ≡ true
    → is_some d.replicas ≡ true
    → (b : Bool) × (drained_can_go now sunset version d ≡ ok b)
unfolding drained_can_go has_no_replicas
drained_can_go_total now sunset version d h1 h2 h3 h4 =
    let (dd, e1) = is_some_value sunset.delete_delay h1 in
    let (sd, e2) = is_some_value sunset.scaledown_delay h2 in
    let (t, e3) = is_some_value version.drained_since h3 in
    let (r, e4) = is_some_value d.replicas h4 in
    elim (Bool-cases (ltb_ℤ (to_int64 (dd +ℤ sd)) (since now t))) [
      | inl late ↦ (eqb_ℤ r (pos 0), rw (e3, e1, e2, e4, late))
      | inr soon ↦ (false, rw (e3, e1, e2, e4, soon))
    ]

delete_by_status_total :
    (status : VersionStatus) (now : ℤ) (sunset : SunsetStrategy) (target : Text) (found : Bool)
    (version : DeprecatedWorkerDeploymentVersion) (d : Deployment)
    → is_some sunset.delete_delay ≡ true
    → is_some sunset.scaledown_delay ≡ true
    → (status ≡ drained → (is_some version.drained_since ≡ true) × (is_some d.replicas ≡ true))
    → (b : Bool) × (delete_by_status status now sunset target found version d ≡ ok b)
unfolding delete_by_status
delete_by_status_total drained now sunset target found version d h1 h2 h =
    drained_can_go_total now sunset version d h1 h2 (h refl).0 (h refl).1
delete_by_status_total not_registered now sunset target found version d h1 h2 h =
    (found && not (target == version.build_id), refl)
delete_by_status_total _ now sunset target found version d h1 h2 h = (false, refl)

delete_managed_total :
    (m : Option Deployment) (now : ℤ) (sunset : SunsetStrategy) (target : Text) (found : Bool)
    (version : DeprecatedWorkerDeploymentVersion)
    → is_some sunset.delete_delay ≡ true
    → is_some sunset.scaledown_delay ≡ true
    → (version.status ≡ drained
        → (is_some version.drained_since ≡ true)
          × ((d : Deployment) → m ≡ some d → is_some d.replicas ≡ true))
    → (b : Bool) × (delete_managed m now sunset target found version ≡ ok b)
unfolding delete_managed
delete_managed_total none now sunset target found version h1 h2 h = (false, refl)
delete_managed_total (some d) now sunset target found version h1 h2 h =
    delete_by_status_total version.status now sunset target found version d h1 h2
      (λ e. ((h e).0, (h e).1 d refl))

managed-lookup :
    (ref : Option ObjectReference) (found : Option Deployment) (d : Deployment)
    → managed ref found ≡ some d
    → found ≡ some d
unfolding managed
managed-lookup none found d h = absurd (cc)
managed-lookup (some ref) found d h = h

delete_loop_total :
    (now : ℤ) (k8s_state : DeploymentState) (sunset : SunsetStrategy) (target : Text) (found : Bool)
    (versions : List DeprecatedWorkerDeploymentVersion)
    → is_some sunset.delete_delay ≡ true
    → is_some sunset.scaledown_delay ≡ true
    → All (IsReadable k8s_state) versions
    → (bs : List Text) × (delete_loop now k8s_state sunset target found versions ≡ ok bs)
unfolding delete_loop should_delete
delete_loop_total now k8s_state sunset target found [] h1 h2 h = ([], refl)
delete_loop_total now k8s_state sunset target found (v ∷ vs) h1 h2 h =
    let (b, e) =
      delete_managed_total (managed v.deployment (lookup v.build_id k8s_state.deployments)) now
        sunset target found v h1 h2
        (λ dr. ((h.0 dr).0, λ d m. (h.0 dr).1 d (managed-lookup v.deployment _ d m))) in
    let (bs, es) = delete_loop_total now k8s_state sunset target found vs h1 h2 h.1 in
    (if b then v.build_id ∷ bs else bs, rw (e, es))

-- With both delays set, as the defaults do, the computation returns a list if for every drained
-- version the drain time is known and the deployment in the cluster states its replicas.
pub get_delete_deployments_total :
    (now : ℤ) (k8s_state : DeploymentState) (status : TemporalWorkerDeploymentStatus)
    (spec : TemporalWorkerDeploymentSpec) (found : Bool)
    → is_some spec.sunset_strategy.delete_delay ≡ true
    → is_some spec.sunset_strategy.scaledown_delay ≡ true
    → All (IsReadable k8s_state) status.deprecated_versions
    → (bs : List Text) × (get_delete_deployments now k8s_state status spec found ≡ ok bs)
unfolding get_delete_deployments
get_delete_deployments_total now k8s_state status spec found h1 h2 h =
    delete_loop_total now k8s_state spec.sunset_strategy status.target_version.build_id found
      status.deprecated_versions h1 h2 h

-- A drained version whose drain time is missing.
abbrev pub IsTimeless : DeploymentState → DeprecatedWorkerDeploymentVersion → Type 0
IsTimeless k8s_state version =
    (version.status ≡ drained)
    × (version.drained_since ≡ none)
    × (is_some (managed version.deployment (lookup version.build_id k8s_state.deployments)) ≡ true)

-- The result is a value or a panic, and no error.
abbrev IsPlain : {A : Type 0} → Outcome A → Type 0
IsPlain {A} r = ((a : A) × (r ≡ ok a)) ⊎ (r ≡ panic)

drained_can_go-IsPlain :
    (now : ℤ) (sunset : SunsetStrategy) (version : DeprecatedWorkerDeploymentVersion)
    (d : Deployment)
    → IsPlain (drained_can_go now sunset version d)
unfolding drained_can_go has_no_replicas
drained_can_go-IsPlain now sunset version d =
    plain version.drained_since sunset.delete_delay sunset.scaledown_delay d.replicas
  where
    late_plain : (late : Bool) (r : Option ℤ) → IsPlain (has_no_replicas late r)
    late_plain true (some r) = inl (eqb_ℤ r (pos 0), refl)
    late_plain true none = inr refl
    late_plain false r = inl (false, refl)

    plain :
        (t dd sd r : Option ℤ)
        → IsPlain (
            deref t >>= λ drained_since. deref dd >>= λ delete_delay.
            deref sd >>= λ scaledown_delay.
            has_no_replicas
              (ltb_ℤ (to_int64 (delete_delay +ℤ scaledown_delay)) (since now drained_since))
              r)
    plain none dd sd r = inr refl
    plain (some t) none sd r = inr refl
    plain (some t) (some dd) none r = inr refl
    plain (some t) (some dd) (some sd) r = late_plain (ltb_ℤ (to_int64 (dd +ℤ sd)) (since now t)) r

delete_by_status-IsPlain :
    (status : VersionStatus) (now : ℤ) (sunset : SunsetStrategy) (target : Text) (found : Bool)
    (version : DeprecatedWorkerDeploymentVersion) (d : Deployment)
    → IsPlain (delete_by_status status now sunset target found version d)
unfolding delete_by_status
delete_by_status-IsPlain drained now sunset target found version d =
    drained_can_go-IsPlain now sunset version d
delete_by_status-IsPlain not_registered now sunset target found version d = inl (_, refl)
delete_by_status-IsPlain _ now sunset target found version d = inl (_, refl)

delete_managed-IsPlain :
    (m : Option Deployment) (now : ℤ) (sunset : SunsetStrategy) (target : Text) (found : Bool)
    (version : DeprecatedWorkerDeploymentVersion)
    → IsPlain (delete_managed m now sunset target found version)
unfolding delete_managed
delete_managed-IsPlain none now sunset target found version = inl (false, refl)
delete_managed-IsPlain (some d) now sunset target found version =
    delete_by_status-IsPlain version.status now sunset target found version d

delete_managed_panics :
    (m : Option Deployment) (now : ℤ) (sunset : SunsetStrategy) (target : Text) (found : Bool)
    (version : DeprecatedWorkerDeploymentVersion)
    → is_some m ≡ true
    → version.status ≡ drained
    → version.drained_since ≡ none
    → delete_managed m now sunset target found version ≡ panic
unfolding delete_managed delete_by_status drained_can_go
delete_managed_panics none now sunset target found version h e t = absurd (cc)
delete_managed_panics (some d) now sunset target found version h e t = rw (e, t)

delete_loop_panics :
    (now : ℤ) (k8s_state : DeploymentState) (sunset : SunsetStrategy) (target : Text) (found : Bool)
    (versions : List DeprecatedWorkerDeploymentVersion)
    (version : DeprecatedWorkerDeploymentVersion)
    → Elem version versions
    → IsTimeless k8s_state version
    → delete_loop now k8s_state sunset target found versions ≡ panic
unfolding delete_loop should_delete
delete_loop_panics now k8s_state sunset target found [] version m h = absurd m
delete_loop_panics now k8s_state sunset target found (v ∷ vs) version (inl e) h =
    let t = subst (IsTimeless k8s_state) e h in
    let p =
      delete_managed_panics (managed v.deployment (lookup v.build_id k8s_state.deployments)) now
        sunset target found v t.2 t.0 t.1 in
    rw p
delete_loop_panics now k8s_state sunset target found (v ∷ vs) version (inr m) h =
    let later = delete_loop_panics now k8s_state sunset target found vs version m h in
    elim (delete_managed-IsPlain (managed v.deployment (lookup v.build_id k8s_state.deployments))
      now sunset target found v) [ inl (b, e) ↦ rw (e, later) | inr e ↦ rw e ]

-- If some deprecated version is drained with no drain time, and it has a deployment in the cluster,
-- the computation panics, whatever the other versions are.
pub get_delete_deployments_panics :
    (now : ℤ) (k8s_state : DeploymentState) (status : TemporalWorkerDeploymentStatus)
    (spec : TemporalWorkerDeploymentSpec) (found : Bool)
    (version : DeprecatedWorkerDeploymentVersion)
    → Elem version status.deprecated_versions
    → IsTimeless k8s_state version
    → get_delete_deployments now k8s_state status spec found ≡ panic
unfolding get_delete_deployments
get_delete_deployments_panics now k8s_state status spec found version m h =
    delete_loop_panics now k8s_state spec.sunset_strategy status.target_version.build_id found
      status.deprecated_versions version m h
