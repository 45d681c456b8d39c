-- ===== src/Planner/Update/Changes.antt =====
-- When a deployment asks for a change in place, and what the change makes of it.
use mathlib.Core.Path.{subst}
use temporal_worker_controll.Base.{
  Text, ◌==◌, text_eq_refl, is_empty, StringMap, insert, entries, lookup-insert, lookup-insert_self,
  insert_all, Option, none, some, [], Bool, true, false, not, ◌&&◌, ok, bind-eq-ok, ok-injective,
  ◌≡◌, inl, inr, refl, arith, Bool-cases, some-eq-some,
}
use temporal_worker_controll.Api.Cluster.{Deployment}
use temporal_worker_controll.Api.Types.{TemporalConnectionSpec, TemporalWorkerDeploymentSpec}
use temporal_worker_controll.K8s.Names.{Libraries}
use temporal_worker_controll.K8s.Pods.{
  connection_spec_hash_annotation, pod_template_spec_hash_annotation, compute_connection_spec_hash,
  compute_pod_template_spec_hash, pod_annotations,
}
use temporal_worker_controll.Planner.Update.{
  annotation, update_deployment_with_connection, update_deployment_with_pod_template_spec,
  connection_update, template_drifted, template_update,
}

module _ (lib : Libraries) (connection : TemporalConnectionSpec) where
  -- The connection asks for no change of the deployment.
  abbrev pub IsConnected : Deployment → Type 0
  IsConnected d = connection_update lib connection d ≡ ok none

  IsConnected-of_annotation :
      (d : Deployment)
      → annotation connection_spec_hash_annotation d ≡ compute_connection_spec_hash lib connection
      → IsConnected d
  unfolding connection_update
  IsConnected-of_annotation d e = rw (e, text_eq_refl (compute_connection_spec_hash lib connection))

  pub update_connects :
      (annotations : Option (StringMap Text)) (d : Deployment) {d' : Deployment}
      → d.template.annotations ≡ annotations
      → update_deployment_with_connection lib d connection ≡ ok d'
      → IsConnected d'
        × (annotation pod_template_spec_hash_annotation d'
            ≡ annotation pod_template_spec_hash_annotation d)
  unfolding update_deployment_with_connection annotation
  update_connects none d e h = absurd (cc (rw e at h))
  update_connects (some m) d {d'} e h =
      let hash = compute_connection_spec_hash lib connection in
      let same : some (insert connection_spec_hash_annotation hash m) ≡ d'.template.annotations =
        ground (arith) in
      (
        IsConnected-of_annotation d'
            (rw (← same, lookup-insert_self connection_spec_hash_annotation hash m)),
        rw
            (
              ← same,
              e,
              lookup-insert connection_spec_hash_annotation pod_template_spec_hash_annotation hash
                  m,
            )
            (unfold ◌==◌ in refl),
      )

  pub connection_update_lem :
      (d : Deployment) {d' : Deployment}
      → connection_update lib connection d ≡ ok (some d')
      → IsConnected d'
        × (annotation pod_template_spec_hash_annotation d'
            ≡ annotation pod_template_spec_hash_annotation d)
  unfolding connection_update
  connection_update_lem d {d'} h =
      elim (Bool-cases (
        compute_connection_spec_hash lib connection
        == annotation connection_spec_hash_annotation d)) [
          | inl same ↦ absurd (ground (arith, rw same at h))
          | inr off ↦
              let (e, p, q) =
                bind-eq-ok (update_deployment_with_connection lib d connection) _ (rw off at h) in
              let made : e ≡ d' = ground (arith, ok-injective q) in
              update_connects d.template.annotations d refl (rw made at p)
        ]

module _ (lib : Libraries) (spec : TemporalWorkerDeploymentSpec)
    (connection : TemporalConnectionSpec) where
  -- The pod template asks for no change.
  abbrev pub IsUpToDate : Deployment → Type 0
  IsUpToDate d = template_update lib spec connection d ≡ none

  annotations_read :
      (d : Deployment)
      → d.template.annotations ≡ some (pod_annotations lib connection spec.template)
      → (annotation connection_spec_hash_annotation d ≡ compute_connection_spec_hash lib connection)
        × (annotation pod_template_spec_hash_annotation d
            ≡ compute_pod_template_spec_hash lib spec.template)
  unfolding pod_annotations annotation
  annotations_read d e =
      let hash = compute_connection_spec_hash lib connection in
      let pod_hash = compute_pod_template_spec_hash lib spec.template in
      let user = insert_all [] (entries spec.template.annotations) in
      let first = insert connection_spec_hash_annotation hash user in
      (
        rw
            (
              e,
              lookup-insert pod_template_spec_hash_annotation connection_spec_hash_annotation
                  pod_hash first,
            )
            (unfold ◌==◌ in rw (lookup-insert_self connection_spec_hash_annotation hash user)),
        rw (e, lookup-insert_self pod_template_spec_hash_annotation pod_hash first),
      )

  and-false : (a b : Bool) → b ≡ true → (a && not b) ≡ false
  and-false a b h = ground arith

  IsUpToDate-of_annotation :
      (d : Deployment)
      → annotation pod_template_spec_hash_annotation d
        ≡ compute_pod_template_spec_hash lib spec.template
      → IsUpToDate d
  unfolding template_update
  IsUpToDate-of_annotation d e =
      let fits =
        and-false
          (not (is_empty spec.worker_options.unsafe_custom_build_id)
            && not (is_empty (compute_pod_template_spec_hash lib spec.template)))
          (compute_pod_template_spec_hash lib spec.template
            == compute_pod_template_spec_hash lib spec.template)
          (text_eq_refl (compute_pod_template_spec_hash lib spec.template)) in
      rw (e, fits)

  pub settled_of_annotations :
      (d : Deployment)
      → d.template.annotations ≡ some (pod_annotations lib connection spec.template)
      → IsConnected lib connection d × IsUpToDate d
  settled_of_annotations d e =
      let (c, t) = annotations_read d e in
      (IsConnected-of_annotation lib connection d c, IsUpToDate-of_annotation d t)

  pub template_update_lem :
      (d : Deployment) {d' : Deployment}
      → template_update lib spec connection d ≡ some d'
      → IsConnected lib connection d' × IsUpToDate d'
  unfolding template_update
  template_update_lem d {d'} h =
      elim (Bool-cases (
        template_drifted lib spec.worker_options.unsafe_custom_build_id
          (annotation pod_template_spec_hash_annotation d)
          (compute_pod_template_spec_hash lib spec.template))) [
            | inr fits ↦ absurd (cc (rw fits at h))
            | inl drifted ↦
                let made : update_deployment_with_pod_template_spec lib d spec connection ≡ d' =
                  some-eq-some (rw drifted at h) in
                subst (λ x. IsConnected lib connection x × IsUpToDate x) made
                  (unfold update_deployment_with_pod_template_spec template_update in
                    settled_of_annotations
                      (update_deployment_with_pod_template_spec lib d spec connection) refl)
          ]

  -- A change of the connection leaves the pod template's test as it was.
  pub IsUpToDate-kept :
      (d d' : Deployment)
      → annotation pod_template_spec_hash_annotation d'
        ≡ annotation pod_template_spec_hash_annotation d
      → IsUpToDate d
      → IsUpToDate d'
  unfolding template_update
  IsUpToDate-kept d d' e h =
      elim (Bool-cases (
        template_drifted lib spec.worker_options.unsafe_custom_build_id
          (annotation pod_template_spec_hash_annotation d)
          (compute_pod_template_spec_hash lib spec.template))) [
            | inl drifted ↦ absurd (cc (rw drifted at h))
            | inr fits ↦ rw (e, fits)
          ]
