-- ===== src/Controller/Generate/Deletes.antt =====
-- Which objects a plan deletes.
use mathlib.Core.Path.{subst}
use temporal_worker_controll.Base.{
  ℤ, Text, codes, StringMap, lookup, entries, Option, some, List, [], ◌∷◌, ok, bind-eq-ok,
  ok-injective, or_fail, Elem, ◌≡◌, ◌≢◌, refl, sym, ap, ◌∙◌, inl, inr, Option-cases,
}
use temporal_worker_controll.Api.Cluster.{Deployment}
use temporal_worker_controll.Api.Types.{TemporalConnectionSpec, TemporalWorkerDeployment}
use temporal_worker_controll.Api.Times.{HasSameVersions}
use temporal_worker_controll.K8s.State.{build_id_label, DeploymentState}
use temporal_worker_controll.K8s.State.Index.{get_deployment_state-IsIndexed}
use temporal_worker_controll.K8s.Names.{Libraries, compute_worker_deployment_name}
use temporal_worker_controll.Server.Types.{TemporalWorkerState}
use temporal_worker_controll.Mapper.{map_to_status}
use temporal_worker_controll.Mapper.Versions.{same_versions-delete}
use temporal_worker_controll.Planner.Update.Metadata.{get_update_deployments-AllSame}
use temporal_worker_controll.Planner.Plan.{found_in_temporal}
use temporal_worker_controll.Planner.Plan.Parts.{generate_plan-Parts}
use temporal_worker_controll.Controller.Generate.Parts.{
  used_strategy, generate_controller_plan_parts,
}
use temporal_worker_controll.Controller.Execute.{ControllerPlan}
use temporal_worker_controll.Controller.Generate.{
  Cluster, for_plan, read_deployments, objects_under, controller_plan, generate_controller_plan,
}

-- The object carries the label of a build ID that is neither the current nor the target one.
abbrev pub IsSpare : Text → Text → Deployment → Type 0
IsSpare current target d =
    (b : Text) × (lookup build_id_label (entries d.labels) ≡ some b)
    × (b ≢ current)
    × (b ≢ target)
    × (b ≢ [])

objects_under_elem :
    (ds : StringMap Deployment) (bs : List Text) (d : Deployment)
    → Elem d (objects_under ds bs)
    → (b : Text) × Elem b bs × (lookup b ds ≡ some d)
unfolding objects_under
objects_under_elem ds [] d m = absurd m
objects_under_elem ds (b ∷ bs) d m = elim (Option-cases (lookup b ds)) [
  | inl missing ↦
      let (c, inside, e) = objects_under_elem ds bs d (rw (objects_under, missing) at m) in
      (c, inr inside, e)
  | inr (x, here) ↦ elim (rw (objects_under, here) at m) [
    | inl same ↦ (b, inl refl, here ∙ ap (λ (y : Deployment). some y) (sym same))
    | inr later ↦ let (c, inside, e) = objects_under_elem ds bs d later in (c, inr inside, e)
  ]
]

module _ (lib : Libraries) (cluster : Cluster) where
  read_deployments_label :
      {k8s_state : DeploymentState}
      → read_deployments cluster for_plan ≡ ok k8s_state
      → (b : Text) (d : Deployment) → lookup b k8s_state.deployments ≡ some d
      → lookup build_id_label (entries d.labels) ≡ some b
  unfolding read_deployments
  read_deployments_label {k8s_state} h b d here =
      let (items, p, q) =
        bind-eq-ok
          (or_fail (cluster.list_deployments for_plan) (codes "unable to list deployments")) _ h in
      ((get_deployment_state-IsIndexed items b).listed d (
        subst (λ (s : DeploymentState). lookup b s.deployments ≡ some d) (sym (ok-injective q))
          here)).1

  -- With the status that is mapped from the state of the server, but for its times.
  pub generate_controller_plan-IsSpare :
      (now : ℤ) (identity : Text) (max : ℤ) (w : TemporalWorkerDeployment)
      (connection : TemporalConnectionSpec) (state : TemporalWorkerState)
      (k8s_state : DeploymentState) (target : Text) {p : ControllerPlan}
      → HasSameVersions w.status (map_to_status k8s_state state target)
      → generate_controller_plan lib cluster now identity max w connection state ≡ ok p
      → (d : Deployment) → Elem d p.delete_deployments
      → IsSpare state.current_build_id target d
  unfolding controller_plan
  generate_controller_plan-IsSpare now identity max w connection state k8s_state target mapped h d
        m =
      let from = generate_controller_plan_parts lib cluster now identity max w connection state h in
      let strategy = used_strategy lib cluster now identity max w connection state in
      let parts =
        generate_plan-Parts lib now from.listed w.status w.spec (some state) connection strategy
          (compute_worker_deployment_name w) max from.input.0 from.input.1 from.plans in
      let (b, inside, here) =
        objects_under_elem from.planned.updated from.planned.delete_deployments d
          (subst (λ (x : ControllerPlan). Elem d x.delete_deployments) from.made m) in
      let (start, at, same) =
        get_update_deployments-AllSame lib from.listed w.status w.spec connection parts.updates b d
          here in
      let (not_current, not_target, not_empty) =
        same_versions-delete k8s_state from.listed state target now w.status w.spec
          (found_in_temporal (some state)) mapped parts.deletes b inside in
      (
        b,
        ap (λ (x : Option (StringMap Text)). lookup build_id_label (entries x)) same.2
            ∙ read_deployments_label from.reads b start at,
        not_current,
        not_target,
        not_empty,
      )
