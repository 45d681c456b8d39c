-- ===== src/Planner/Update/Converges.antt =====
-- A second run of `getUpdateDeployments` on the state that the first one leaves.
use mathlib.Core.Path.{subst}
use temporal_worker_controll.Base.{
  Text, is_empty, StringMap, lookup, Option, none, some, List, [], ◌∷◌, false, ok, bind-eq-ok,
  ok-injective, ◌≡◌, inl, inr, refl, arith, Bool-cases, Option-cases,
}
use temporal_worker_controll.Api.Cluster.{Deployment}
use temporal_worker_controll.Api.Types.{
  TemporalConnectionSpec, TemporalWorkerDeploymentSpec, DeprecatedWorkerDeploymentVersion,
  CurrentWorkerDeploymentVersion, TemporalWorkerDeploymentStatus,
}
use temporal_worker_controll.K8s.State.{DeploymentState}
use temporal_worker_controll.K8s.Names.{Libraries}
use temporal_worker_controll.Planner.Update.{
  Updates, is_updated, check_connection, check_template, check_target, check_current,
  check_deprecated, get_update_deployments,
}
use temporal_worker_controll.Planner.Update.Kept.{
  AllConnected, AllUpToDate, UpdatedConnected, Keeps, unchanged-Keeps, check_connection-Keeps,
  check_template-Keeps,
}

module _ (lib : Libraries) (spec : TemporalWorkerDeploymentSpec)
    (connection : TemporalConnectionSpec) where
  Keeps-trans :
      (u v w : Updates)
      → Keeps lib spec connection u v
      → Keeps lib spec connection v w
      → Keeps lib spec connection u w
  Keeps-trans u v w p q = ((λ c h. q.0 c (p.0 c h)), (λ c h. q.1 c (p.1 c h)), q.2)

  -- Where a second run looks, it finds nothing to do.
  check_connection_idle :
      (b : Text) (ds : StringMap Deployment)
      → AllConnected lib spec connection b ds
      → check_connection lib connection b (ds, []) ≡ ok (ds, [])
  unfolding check_connection is_updated
  check_connection_idle b ds h = elim (Option-cases (lookup b ds)) [
    | inl missing ↦ rw missing
    | inr (d, here) ↦ rw (here, h d here)
  ]

  check_template_idle :
      (b : Text) (ds : StringMap Deployment)
      → AllUpToDate lib spec connection b ds
      → check_template lib spec connection b (ds, []) ≡ (ds, [])
  unfolding check_template
  check_template_idle b ds h = elim (Option-cases (lookup b ds)) [
    | inl missing ↦ rw (check_template, missing)
    | inr (d, here) ↦ rw (check_template, here, h d here)
  ]

  nothing_updated : (ds : StringMap Deployment) → UpdatedConnected lib spec connection (ds, [])
  unfolding is_updated
  nothing_updated ds c e = absurd (ground arith)

  check_target-Keeps :
      (b : Text) (u : Updates) {u' : Updates}
      → UpdatedConnected lib spec connection u
      → check_target lib spec connection b u ≡ ok u'
      → Keeps lib spec connection u u'
        × (is_empty b ≡ false
            → AllConnected lib spec connection b u'.0 × AllUpToDate lib spec connection b u'.0)
  unfolding check_target
  check_target-Keeps b u {u'} inv h = elim (Bool-cases (is_empty b)) [
    | inl empty ↦ (
      subst (λ x. Keeps lib spec connection u x) (ok-injective (rw empty at h))
          (unchanged-Keeps lib spec connection u inv),
      λ e. absurd (cc),
    )
    | inr full ↦
        let (p, fits) = check_template-Keeps lib spec connection b u inv in
        let (q, connected) =
          check_connection-Keeps lib spec connection b (check_template lib spec connection b u) p.2
            (rw full at h) in
        (
          Keeps-trans u (check_template lib spec connection b u) u' p q,
          λ e. (connected, q.1 b fits),
        )
  ]

  check_deprecated-Keeps :
      (vs : List DeprecatedWorkerDeploymentVersion) (u : Updates) {u' : Updates}
      → UpdatedConnected lib spec connection u
      → check_deprecated lib connection vs u ≡ ok u'
      → Keeps lib spec connection u u'
        × (check_deprecated lib connection vs (u'.0, []) ≡ ok (u'.0, []))
  unfolding check_deprecated
  check_deprecated-Keeps [] u inv h = (
    subst (λ x. Keeps lib spec connection u x) (ok-injective h)
        (unchanged-Keeps lib spec connection u inv),
    refl,
  )
  check_deprecated-Keeps (v ∷ vs) u {u'} inv h =
      let (w, p, q) = bind-eq-ok (check_connection lib connection v.build_id u) _ h in
      let (k, connected) = check_connection-Keeps lib spec connection v.build_id u inv p in
      let (k', rest) = check_deprecated-Keeps vs w k.2 q in
      (
        Keeps-trans u w u' k k',
        rw (check_connection_idle v.build_id u'.0 (k'.0 v.build_id connected)) rest,
      )

  check_current-Keeps :
      (v : Option CurrentWorkerDeploymentVersion) (u : Updates) {u' : Updates}
      → UpdatedConnected lib spec connection u
      → check_current lib connection v u ≡ ok u'
      → Keeps lib spec connection u u'
        × ((ds : StringMap Deployment)
            → ((c : Text)
                → AllConnected lib spec connection c u'.0
                → AllConnected lib spec connection c ds)
            → check_current lib connection v (ds, []) ≡ ok (ds, []))
  unfolding check_current
  check_current-Keeps none u inv h = (
    subst (λ x. Keeps lib spec connection u x) (ok-injective h)
        (unchanged-Keeps lib spec connection u inv),
    λ ds later. refl,
  )
  check_current-Keeps (some v) u {u'} inv h = elim (Bool-cases (is_empty v.build_id)) [
    | inl empty ↦ (
      subst (λ x. Keeps lib spec connection u x) (ok-injective (rw empty at h))
          (unchanged-Keeps lib spec connection u inv),
      λ ds later. rw empty,
    )
    | inr full ↦
        let (k, connected) =
          check_connection-Keeps lib spec connection v.build_id u inv (rw full at h) in
        (k, λ ds later. rw full (check_connection_idle v.build_id ds (later v.build_id connected)))
  ]

  check_target_idle :
      (b : Text) (ds : StringMap Deployment)
      → (is_empty b ≡ false
          → AllConnected lib spec connection b ds × AllUpToDate lib spec connection b ds)
      → check_target lib spec connection b (ds, []) ≡ ok (ds, [])
  unfolding check_target
  check_target_idle b ds h = elim (Bool-cases (is_empty b)) [
    | inl empty ↦ rw empty
    | inr full ↦
        let (connected, fits) = h full in
        rw (full, check_template_idle b ds fits) (check_connection_idle b ds connected)
  ]

  -- When the updates of a state are computed, and the state that they leave is given to the same
  -- function with the same status, spec and connection, then nothing is updated: the objects stay as
  -- they are and the list of updates is empty.
  pub get_update_deployments_settle :
      (k8s_state : DeploymentState) (status : TemporalWorkerDeploymentStatus) {u : Updates}
      → get_update_deployments lib k8s_state status spec connection ≡ ok u
      → get_update_deployments lib (record k8s_state { deployments = u.0 }) status spec connection
        ≡ ok (u.0, [])
  unfolding get_update_deployments
  get_update_deployments_settle k8s_state status {u} h =
      let b = status.target_version.build_id in
      let start : Updates = (k8s_state.deployments, []) in
      let (v, p, q) = bind-eq-ok (check_target lib spec connection b start) _ h in
      let (w, p', q') = bind-eq-ok (check_current lib connection status.current_version v) _ q in
      let (k, target) = check_target-Keeps b start (nothing_updated k8s_state.deployments) p in
      let (k', present) = check_current-Keeps status.current_version v k.2 p' in
      let (k'', rest) = check_deprecated-Keeps status.deprecated_versions w k'.2 q' in
      let all = Keeps-trans v w u k' k'' in
      rw
        (
          check_target_idle b u.0
              (λ e. let (connected, fits) = target e in (all.0 b connected, all.1 b fits)),
          present u.0 k''.0,
        )
        rest
