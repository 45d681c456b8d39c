-- ===== src/Planner/Plan/Total.antt =====
-- When `GeneratePlan` returns.
use temporal_worker_controll.Base.{
  ℤ, Text, AllValues, some, List, [], ◌∷◌, map, Bool, true, is_some, All, ok, Returns, bind-Returns,
  ◌≡◌, refl, sym, ◌∙◌, arith,
}
use mathlib.Core.Path.{subst}
use temporal_worker_controll.Api.Cluster.{Deployment}
use temporal_worker_controll.Api.Types.{
  DeprecatedWorkerDeploymentVersion, RolloutStrategy, TemporalConnectionSpec,
  TemporalWorkerDeploymentSpec, TemporalWorkerDeploymentStatus,
}
use temporal_worker_controll.Api.Times.{timeless_deprecated, IsSameButTimes, is_some-forget}
use temporal_worker_controll.Api.Webhook.{default_spec}
use temporal_worker_controll.K8s.State.{DeploymentState}
use temporal_worker_controll.K8s.Names.{Libraries}
use temporal_worker_controll.Server.Types.{TemporalWorkerState}
use temporal_worker_controll.Mapper.{map_to_status}
use temporal_worker_controll.Mapper.Known.{
  IsDated, map_to_status-IsServed, map_all_deprecated-IsTimed,
}
use temporal_worker_controll.Planner.Delete.{get_delete_deployments}
use temporal_worker_controll.Planner.Delete.Panics.{IsReadable, get_delete_deployments_total}
use temporal_worker_controll.Planner.Scale.{get_scale_deployments}
use temporal_worker_controll.Planner.Scale.Total.{IsTimed, get_scale_deployments-Returns}
use temporal_worker_controll.Planner.Update.{get_update_deployments}
use temporal_worker_controll.Planner.Update.Total.{IsAnnotated, get_update_deployments-Returns}
use temporal_worker_controll.Planner.Config.{get_version_config_diff}
use temporal_worker_controll.Planner.Config.Total.{IsServed, get_version_config_diff-Returns}
use temporal_worker_controll.Planner.Plan.{Plan, found_in_temporal, generate_plan}

-- A deployment in the cluster states its replicas, and its pod template has annotations.
abbrev pub IsComplete : Deployment → Type 0
IsComplete d = (is_some d.replicas ≡ true) × IsAnnotated d

timed-IsReadable :
    (k8s_state : DeploymentState) (vs : List DeprecatedWorkerDeploymentVersion)
    → AllValues IsComplete k8s_state.deployments
    → All IsTimed vs
    → All (IsReadable k8s_state) vs
timed-IsReadable k8s_state [] complete timed = tt
timed-IsReadable k8s_state (v ∷ vs) complete timed = (
  λ e. (timed.0 e, λ d here. (complete v.build_id d here).0),
  timed-IsReadable k8s_state vs complete timed.1,
)

default_spec-delays :
    (spec : TemporalWorkerDeploymentSpec)
    → (is_some (default_spec spec).sunset_strategy.delete_delay ≡ true)
      × (is_some (default_spec spec).sunset_strategy.scaledown_delay ≡ true)
      × ((default_spec spec).replicas ≡ spec.replicas)
unfolding default_spec
default_spec-delays spec = ground arith

-- A plan is made from any status whose drained versions have a time and whose target the state of the
-- server knows, if it is Inactive.
pub generate_plan-Returns :
    (lib : Libraries) (now : ℤ) (k8s_state : DeploymentState)
    (status : TemporalWorkerDeploymentStatus) (state : TemporalWorkerState)
    (spec : TemporalWorkerDeploymentSpec) (connection : TemporalConnectionSpec)
    (strategy : RolloutStrategy) (name : Text) (max : ℤ) (input : Text) (is_secret : Bool)
    → is_some spec.replicas ≡ true
    → AllValues IsComplete k8s_state.deployments
    → All IsTimed status.deprecated_versions
    → IsServed state status.target_version
    → Returns (
        generate_plan lib now k8s_state status
          (default_spec spec)
          (some state)
          connection
          strategy
          name
          max
          input
          is_secret)
unfolding generate_plan
generate_plan-Returns lib now k8s_state status state spec connection strategy name max input
      is_secret counted complete timed served =
    let (deletes_delayed, scales_delayed, same) = default_spec-delays spec in
    bind-Returns
      (get_delete_deployments now k8s_state status (default_spec spec)
        (found_in_temporal (some state)))
      _
      (get_delete_deployments_total now k8s_state status (default_spec spec)
        (found_in_temporal (some state)) deletes_delayed scales_delayed
        (timed-IsReadable k8s_state status.deprecated_versions complete timed))
      (λ deletes e.
        bind-Returns (get_scale_deployments now k8s_state status (default_spec spec)) _
          (get_scale_deployments-Returns now k8s_state status (default_spec spec) (rw same counted)
            scales_delayed timed)
          (λ scales e'.
            bind-Returns
              (get_update_deployments lib k8s_state status (default_spec spec) connection) _
              (get_update_deployments-Returns lib k8s_state status (default_spec spec) connection
                (λ b d here. (complete b d here).1))
              (λ updates e''.
                bind-Returns (get_version_config_diff now status (some state) strategy) _
                  (get_version_config_diff-Returns state now status strategy served)
                  (λ vcfg e'''. (_, refl)))))

-- A plan is always made, without an error and without a panic, when the status is mapped from the
-- state of the server and the spec has had its defaults filled in: for every clock, strategy,
-- connection, target and state of the cluster. The conditions are that the spec states its replicas,
-- that every deployment in the cluster states its own and has annotations on its pod template, and
-- that each version that the server calls Drained has a drain time. The deployments may have changed
-- since the status was mapped.
pub generate_plan_total :
    (lib : Libraries) (now : ℤ) (k8s_state k8s_state' : DeploymentState)
    (state : TemporalWorkerState) (target : Text) (spec : TemporalWorkerDeploymentSpec)
    (connection : TemporalConnectionSpec) (strategy : RolloutStrategy) (name : Text) (max : ℤ)
    (input : Text) (is_secret : Bool)
    → is_some spec.replicas ≡ true
    → AllValues IsComplete k8s_state'.deployments
    → AllValues IsDated state.versions
    → (p : Plan) × (generate_plan lib now k8s_state'
          (map_to_status k8s_state state target)
          (default_spec spec)
          (some state)
          connection
          strategy
          name
          max
          input
          is_secret
        ≡ ok p)
unfolding map_to_status
generate_plan_total lib now k8s_state k8s_state' state target spec connection strategy name max
      input is_secret counted complete dated =
    generate_plan-Returns lib now k8s_state' (map_to_status k8s_state state target) state spec
      connection strategy name max input is_secret counted complete
      (map_all_deprecated-IsTimed k8s_state state dated target k8s_state.deployments)
      (map_to_status-IsServed k8s_state state target)

timeless-IsTimed :
    (vs : List DeprecatedWorkerDeploymentVersion)
    → All IsTimed vs
    → All IsTimed (map timeless_deprecated vs)
timeless-IsTimed [] timed = tt
timeless-IsTimed (v ∷ vs) timed =
    ((λ e. is_some-forget v.drained_since ∙ timed.0 e), timeless-IsTimed vs timed.1)

IsTimed-timeless :
    (vs : List DeprecatedWorkerDeploymentVersion)
    → All IsTimed (map timeless_deprecated vs)
    → All IsTimed vs
IsTimed-timeless [] timed = tt
IsTimed-timeless (v ∷ vs) timed =
    ((λ e. sym (is_some-forget v.drained_since) ∙ timed.0 e), IsTimed-timeless vs timed.1)

-- The same for a status that differs from the mapped one in its times.
pub same_but_times-Returns :
    (lib : Libraries) (now : ℤ) (k8s_state k8s_state' : DeploymentState)
    (status : TemporalWorkerDeploymentStatus) (state : TemporalWorkerState) (target : Text)
    (spec : TemporalWorkerDeploymentSpec) (connection : TemporalConnectionSpec)
    (strategy : RolloutStrategy) (name : Text) (max : ℤ) (input : Text) (is_secret : Bool)
    → IsSameButTimes status (map_to_status k8s_state state target)
    → is_some spec.replicas ≡ true
    → AllValues IsComplete k8s_state'.deployments
    → AllValues IsDated state.versions
    → Returns (
        generate_plan lib now k8s_state' status
          (default_spec spec)
          (some state)
          connection
          strategy
          name
          max
          input
          is_secret)
unfolding map_to_status
same_but_times-Returns lib now k8s_state k8s_state' status state target spec connection strategy
      name max input is_secret same counted complete dated =
    let mapped = map_to_status k8s_state state target in
    let timed =
      subst (λ (s : TemporalWorkerDeploymentStatus). All IsTimed s.deprecated_versions) (sym same)
        (timeless-IsTimed mapped.deprecated_versions
          (map_all_deprecated-IsTimed k8s_state state dated target k8s_state.deployments)) in
    let served =
      subst (λ (s : TemporalWorkerDeploymentStatus). IsServed state s.target_version) (sym same)
        (map_to_status-IsServed k8s_state state target) in
    generate_plan-Returns lib now k8s_state' status state spec connection strategy name max input
      is_secret counted complete (IsTimed-timeless status.deprecated_versions timed) served
