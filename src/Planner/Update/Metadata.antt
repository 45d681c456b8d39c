-- ===== src/Planner/Update/Metadata.antt =====
-- What the updates in place leave alone: the metadata of the objects.
use mathlib.Core.Path.{subst}
use temporal_worker_controll.Base.{
  Text, ◌==◌, text_eq_iff, is_empty, StringMap, lookup, insert, lookup-insert, Option, none, some,
  List, [], ◌∷◌, ok, bind-eq-ok, ok-injective, some-eq-some, ◌≡◌, refl, sym, ap, ◌∙◌, inl, inr,
  arith, Bool-cases, Option-cases,
}
use temporal_worker_controll.Api.Cluster.{Deployment}
use temporal_worker_controll.Api.Types.{
  TemporalConnectionSpec, TemporalWorkerDeploymentSpec, CurrentWorkerDeploymentVersion,
  DeprecatedWorkerDeploymentVersion, TemporalWorkerDeploymentStatus,
}
use temporal_worker_controll.K8s.State.{DeploymentState}
use temporal_worker_controll.K8s.Names.{Libraries}
use temporal_worker_controll.K8s.Pods.{
  connection_spec_hash_annotation, pod_template_spec_hash_annotation, compute_connection_spec_hash,
  compute_pod_template_spec_hash,
}
use temporal_worker_controll.Planner.Update.{
  Updates, annotation, update_deployment_with_connection, update_deployment_with_pod_template_spec,
  connection_update, template_update, template_drifted, record_update, is_updated, check_connection,
  check_template, check_target, check_current, check_deprecated, get_update_deployments,
}

-- The two objects are one and the same in the cluster, with the same labels.
abbrev pub IsSameObject : Deployment → Deployment → Type 0
IsSameObject d e = (d.name ≡ e.name) × (d.namespace ≡ e.namespace) × (d.labels ≡ e.labels)

-- Under each build ID there is, if anything, the object that was there at the start.
abbrev pub AllSame : StringMap Deployment → StringMap Deployment → Type 0
AllSame start ds =
    (b : Text) (d : Deployment)
    → lookup b ds ≡ some d
    → (e : Deployment) × (lookup b start ≡ some e) × IsSameObject d e

IsSameObject-trans : (c d e : Deployment) → IsSameObject c d → IsSameObject d e → IsSameObject c e
IsSameObject-trans c d e p q = (p.0 ∙ q.0, p.1 ∙ q.1, p.2 ∙ q.2)

insert-AllSame :
    (start ds : StringMap Deployment) (b : Text) (old d : Deployment)
    → lookup b ds ≡ some old
    → IsSameObject d old
    → AllSame start ds
    → AllSame start (insert b d ds)
insert-AllSame start ds b old d here same all c x h = elim (Bool-cases (c == b)) [
  | inl e ↦
      let (o, at, q) = all b old here in
      let made = some-eq-some (rw (lookup-insert b c d ds, e) at h) in
      (
        o,
        subst (λ y. lookup y start ≡ some o) (sym ((text_eq_iff c b).0 e)) at,
        subst (λ y. IsSameObject y o) made (IsSameObject-trans d old o same q),
      )
  | inr other ↦ all c x (rw (lookup-insert b c d ds, other) at h)
]

module _ (lib : Libraries) (spec : TemporalWorkerDeploymentSpec)
    (connection : TemporalConnectionSpec) (start : StringMap Deployment) where
  connected-IsSameObject :
      (annotations : Option (StringMap Text)) (d : Deployment) {d' : Deployment}
      → d.template.annotations ≡ annotations
      → update_deployment_with_connection lib d connection ≡ ok d'
      → IsSameObject d' d
  unfolding update_deployment_with_connection
  connected-IsSameObject none d e h = absurd (cc (rw e at h))
  connected-IsSameObject (some m) d e h =
      let made = ok-injective (rw e at h) in
      (
        sym (ap (λ (x : Deployment). x.name) made),
        sym (ap (λ (x : Deployment). x.namespace) made),
        sym (ap (λ (x : Deployment). x.labels) made),
      )

  connection_update-IsSameObject :
      (d : Deployment) {d' : Deployment}
      → connection_update lib connection d ≡ ok (some d')
      → IsSameObject d' d
  unfolding connection_update
  connection_update-IsSameObject d {d'} h =
      elim (Bool-cases (
        compute_connection_spec_hash lib connection
        == annotation connection_spec_hash_annotation d)) [
          | inl same ↦ absurd (ground (arith, rw same at h))
          | inr off ↦
              let (e, p, q) =
                bind-eq-ok (update_deployment_with_connection lib d connection) _ (rw off at h) in
              connected-IsSameObject d.template.annotations d refl (
                subst (λ x. update_deployment_with_connection lib d connection ≡ ok x)
                  (some-eq-some (ok-injective q)) p)
        ]

  template_update-IsSameObject :
      (d : Deployment) {d' : Deployment}
      → template_update lib spec connection d ≡ some d'
      → IsSameObject d' d
  unfolding template_update update_deployment_with_pod_template_spec
  template_update-IsSameObject d {d'} h =
      elim (Bool-cases (
        template_drifted lib spec.worker_options.unsafe_custom_build_id
          (annotation pod_template_spec_hash_annotation d)
          (compute_pod_template_spec_hash lib spec.template))) [
            | inr fits ↦ absurd (cc (rw fits at h))
            | inl drifted ↦
                let made = some-eq-some (rw drifted at h) in
                (
                  sym (ap (λ (x : Deployment). x.name) made),
                  sym (ap (λ (x : Deployment). x.namespace) made),
                  sym (ap (λ (x : Deployment). x.labels) made),
                )
          ]

  recorded-AllSame :
      (b : Text) (d : Deployment) (change : Option Deployment) (u : Updates)
      → lookup b u.0 ≡ some d
      → ((d' : Deployment) → change ≡ some d' → IsSameObject d' d)
      → AllSame start u.0
      → AllSame start (record_update b change u).0
  recorded-AllSame b d none u here same all = all
  recorded-AllSame b d (some d') u here same all =
      insert-AllSame start u.0 b d d' here (same d' refl) all

  check_connection-AllSame :
      (b : Text) (u : Updates) {u' : Updates}
      → AllSame start u.0
      → check_connection lib connection b u ≡ ok u'
      → AllSame start u'.0
  unfolding check_connection
  check_connection-AllSame b u {u'} all h = elim (Bool-cases (is_updated b u.1)) [
    | inl before ↦ subst (λ x. AllSame start x.0) (ok-injective (rw before at h)) all
    | inr first ↦ elim (Option-cases (lookup b u.0)) [
      | inl missing ↦
          subst (λ x. AllSame start x.0) (ok-injective (rw (check_connection, first, missing) at h))
            all
      | inr (d, here) ↦
          let (change, p, q) =
            bind-eq-ok (connection_update lib connection d) _
              (rw (check_connection, first, here) at h) in
          subst (λ x. AllSame start x.0) (ok-injective q)
            (recorded-AllSame b d change u here
              (λ d' e.
                connection_update-IsSameObject d
                  (subst (λ x. connection_update lib connection d ≡ ok x) e p))
              all)
    ]
  ]

  check_template-AllSame :
      (b : Text) (u : Updates)
      → AllSame start u.0
      → AllSame start (check_template lib spec connection b u).0
  unfolding check_template
  check_template-AllSame b u all = elim (Option-cases (lookup b u.0)) [
    | inl missing ↦ rw (check_template, missing) all
    | inr (d, here) ↦
        rw (check_template, here)
          (recorded-AllSame b d (template_update lib spec connection d) u here
            (λ d' e. template_update-IsSameObject d e) all)
  ]

  check_target-AllSame :
      (b : Text) (u : Updates) {u' : Updates}
      → AllSame start u.0
      → check_target lib spec connection b u ≡ ok u'
      → AllSame start u'.0
  unfolding check_target
  check_target-AllSame b u all h = elim (Bool-cases (is_empty b)) [
    | inl empty ↦ subst (λ x. AllSame start x.0) (ok-injective (rw empty at h)) all
    | inr full ↦
        check_connection-AllSame b (check_template lib spec connection b u)
          (check_template-AllSame b u all) (rw full at h)
  ]

  check_current-AllSame :
      (v : Option CurrentWorkerDeploymentVersion) (u : Updates) {u' : Updates}
      → AllSame start u.0
      → check_current lib connection v u ≡ ok u'
      → AllSame start u'.0
  unfolding check_current
  check_current-AllSame none u all h = subst (λ x. AllSame start x.0) (ok-injective h) all
  check_current-AllSame (some v) u all h = elim (Bool-cases (is_empty v.build_id)) [
    | inl empty ↦ subst (λ x. AllSame start x.0) (ok-injective (rw empty at h)) all
    | inr full ↦ check_connection-AllSame v.build_id u all (rw full at h)
  ]

  check_deprecated-AllSame :
      (vs : List DeprecatedWorkerDeploymentVersion) (u : Updates) {u' : Updates}
      → AllSame start u.0
      → check_deprecated lib connection vs u ≡ ok u'
      → AllSame start u'.0
  unfolding check_deprecated
  check_deprecated-AllSame [] u all h = subst (λ x. AllSame start x.0) (ok-injective h) all
  check_deprecated-AllSame (v ∷ vs) u all h =
      let (w, p, q) = bind-eq-ok (check_connection lib connection v.build_id u) _ h in
      check_deprecated-AllSame vs w (check_connection-AllSame v.build_id u all p) q

pub get_update_deployments-AllSame :
    (lib : Libraries) (k8s_state : DeploymentState) (status : TemporalWorkerDeploymentStatus)
    (spec : TemporalWorkerDeploymentSpec) (connection : TemporalConnectionSpec) {u : Updates}
    → get_update_deployments lib k8s_state status spec connection ≡ ok u
    → AllSame k8s_state.deployments u.0
unfolding get_update_deployments
get_update_deployments-AllSame lib k8s_state status spec connection h =
    let ds = k8s_state.deployments in
    let start : Updates = (ds, []) in
    let (v, p, q) =
      bind-eq-ok (check_target lib spec connection status.target_version.build_id start) _ h in
    let (w, p', q') = bind-eq-ok (check_current lib connection status.current_version v) _ q in
    check_deprecated-AllSame lib spec connection ds status.deprecated_versions w
      (check_current-AllSame lib spec connection ds status.current_version v
        (check_target-AllSame lib spec connection ds status.target_version.build_id start
          (λ b d here. (d, here, (refl, refl, refl))) p)
        p')
      q'
