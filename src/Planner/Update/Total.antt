-- ===== src/Planner/Update/Total.antt =====
-- When `getUpdateDeployments` returns.
use temporal_worker_controll.Base.{
  Text, ◌==◌, is_empty, lookup, AllValues, insert-AllValues, Option, none, some, List, [], ◌∷◌,
  true, is_some, is_some_value, some-eq-some, Outcome, ok, ◌>>=◌, Returns, ◌≡◌, inl, inr, refl,
  Bool-cases, Option-cases,
}
use mathlib.Core.Path.{subst}
use temporal_worker_controll.Api.Cluster.{Deployment}
use temporal_worker_controll.Api.Types.{
  TemporalConnectionSpec, TemporalWorkerDeploymentSpec, DeprecatedWorkerDeploymentVersion,
  CurrentWorkerDeploymentVersion, TemporalWorkerDeploymentStatus,
}
use temporal_worker_controll.K8s.State.{DeploymentState}
use temporal_worker_controll.K8s.Names.{Libraries}
use temporal_worker_controll.K8s.Pods.{
  connection_spec_hash_annotation, pod_template_spec_hash_annotation, compute_connection_spec_hash,
  compute_pod_template_spec_hash,
}
use temporal_worker_controll.Planner.Update.{
  Updates, annotation, update_deployment_with_connection, update_deployment_with_pod_template_spec,
  connection_update, template_drifted, template_update, record_update, is_updated, check_connection,
  check_template, check_target, check_current, check_deprecated, get_update_deployments,
}

-- The map of the pod template's annotations is not nil.
abbrev pub IsAnnotated : Deployment → Type 0
IsAnnotated d = is_some d.template.annotations ≡ true

-- The step returns, and every object has its annotations afterwards.
abbrev Proceeds : Outcome Updates → Type 0
Proceeds r = (u : Updates) × (r ≡ ok u) × AllValues IsAnnotated u.0

Proceeds-bind :
    (m : Outcome Updates) (f : Updates → Outcome Updates)
    → Proceeds m
    → ((u : Updates) → AllValues IsAnnotated u.0 → Proceeds (f u))
    → Proceeds (m >>= f)
Proceeds-bind m f (u, e, all) next = rw e (next u all)

module _ (lib : Libraries) (spec : TemporalWorkerDeploymentSpec)
    (connection : TemporalConnectionSpec) where
  update_deployment_with_connection-IsAnnotated :
      (d : Deployment)
      → IsAnnotated d
      → (d' : Deployment) × (update_deployment_with_connection lib d connection ≡ ok d')
        × IsAnnotated d'
  unfolding update_deployment_with_connection
  update_deployment_with_connection-IsAnnotated d h =
      let (annotations, e) = is_some_value d.template.annotations h in
      rw (update_deployment_with_connection, e) (_, refl, refl)

  recorded-IsAnnotated :
      (b : Text) (change : Option Deployment) (u : Updates)
      → ((d' : Deployment) → change ≡ some d' → IsAnnotated d')
      → AllValues IsAnnotated u.0
      → AllValues IsAnnotated (record_update b change u).0
  recorded-IsAnnotated b none u good all = all
  recorded-IsAnnotated b (some d') u good all =
      insert-AllValues IsAnnotated b d' u.0 (good d' refl) all

  connection_update-IsAnnotated :
      (d : Deployment)
      → IsAnnotated d
      → (change : Option Deployment) × (connection_update lib connection d ≡ ok change)
        × ((d' : Deployment) → change ≡ some d' → IsAnnotated d')
  unfolding connection_update
  connection_update-IsAnnotated d h =
      elim (Bool-cases (
        compute_connection_spec_hash lib connection
        == annotation connection_spec_hash_annotation d)) [
          | inl same ↦ (none, rw same, λ d' e. absurd (cc))
          | inr off ↦
              let (d', e, kept) = update_deployment_with_connection-IsAnnotated d h in
              (some d', rw (off, e), λ x e'. subst IsAnnotated (some-eq-some e') kept)
        ]

  template_update-IsAnnotated :
      (d : Deployment) {d' : Deployment}
      → template_update lib spec connection d ≡ some d'
      → IsAnnotated d'
  unfolding template_update update_deployment_with_pod_template_spec
  template_update-IsAnnotated d {d'} h =
      elim (Bool-cases (
        template_drifted lib spec.worker_options.unsafe_custom_build_id
          (annotation pod_template_spec_hash_annotation d)
          (compute_pod_template_spec_hash lib spec.template))) [
            | inl drifted ↦ subst IsAnnotated (some-eq-some (rw drifted at h)) refl
            | inr fits ↦ absurd (cc (rw fits at h))
          ]

  check_connection-Proceeds :
      (b : Text) (u : Updates)
      → AllValues IsAnnotated u.0
      → Proceeds (check_connection lib connection b u)
  unfolding check_connection
  check_connection-Proceeds b u all = elim (Bool-cases (is_updated b u.1)) [
    | inl before ↦ rw before (u, refl, all)
    | inr first ↦ elim (Option-cases (lookup b u.0)) [
      | inl missing ↦ rw (first, check_connection, missing) (u, refl, all)
      | inr (d, here) ↦
          let (change, e, good) = connection_update-IsAnnotated d (all b d here) in
          rw (first, check_connection, here, e)
            (record_update b change u, refl, recorded-IsAnnotated b change u good all)
    ]
  ]

  check_template-IsAnnotated :
      (b : Text) (u : Updates)
      → AllValues IsAnnotated u.0
      → AllValues IsAnnotated (check_template lib spec connection b u).0
  unfolding check_template
  check_template-IsAnnotated b u all = elim (Option-cases (lookup b u.0)) [
    | inl missing ↦ rw (check_template, missing) all
    | inr (d, here) ↦
        rw (check_template, here)
          (recorded-IsAnnotated b (template_update lib spec connection d) u
            (λ d' e. template_update-IsAnnotated d e) all)
  ]

  check_target-Proceeds :
      (b : Text) (u : Updates)
      → AllValues IsAnnotated u.0
      → Proceeds (check_target lib spec connection b u)
  unfolding check_target
  check_target-Proceeds b u all = elim (Bool-cases (is_empty b)) [
    | inl empty ↦ rw empty (u, refl, all)
    | inr full ↦ rw full (
        check_connection-Proceeds b (check_template lib spec connection b u)
          (check_template-IsAnnotated b u all))
  ]

  check_current-Proceeds :
      (v : Option CurrentWorkerDeploymentVersion) (u : Updates)
      → AllValues IsAnnotated u.0
      → Proceeds (check_current lib connection v u)
  unfolding check_current
  check_current-Proceeds none u all = (u, refl, all)
  check_current-Proceeds (some v) u all = elim (Bool-cases (is_empty v.build_id)) [
    | inl empty ↦ rw empty (u, refl, all)
    | inr full ↦ rw full (check_connection-Proceeds v.build_id u all)
  ]

  check_deprecated-Proceeds :
      (vs : List DeprecatedWorkerDeploymentVersion) (u : Updates)
      → AllValues IsAnnotated u.0
      → Proceeds (check_deprecated lib connection vs u)
  unfolding check_deprecated
  check_deprecated-Proceeds [] u all = (u, refl, all)
  check_deprecated-Proceeds (v ∷ vs) u all =
      Proceeds-bind (check_connection lib connection v.build_id u) _
        (check_connection-Proceeds v.build_id u all)
        (λ u' all'. check_deprecated-Proceeds vs u' all')

pub get_update_deployments-Returns :
    (lib : Libraries) (k8s_state : DeploymentState) (status : TemporalWorkerDeploymentStatus)
    (spec : TemporalWorkerDeploymentSpec) (connection : TemporalConnectionSpec)
    → AllValues IsAnnotated k8s_state.deployments
    → Returns (get_update_deployments lib k8s_state status spec connection)
unfolding get_update_deployments
get_update_deployments-Returns lib k8s_state status spec connection all =
    let (u, e, kept) =
      Proceeds-bind
        (check_target lib spec connection status.target_version.build_id
          (k8s_state.deployments, []))
        _
        (check_target-Proceeds lib spec connection status.target_version.build_id
          (k8s_state.deployments, []) all)
        (λ u all'.
          Proceeds-bind (check_current lib connection status.current_version u) _
            (check_current-Proceeds lib spec connection status.current_version u all')
            (λ u' all''.
              check_deprecated-Proceeds lib spec connection status.deprecated_versions u' all'')) in
    (u, e)
