-- ===== src/Controller/Generate/TakenOver.antt =====
-- What a plan leaves alone when somebody else has changed the worker deployment.
use temporal_worker_controll.Base.{
  ℤ, Text, codes, text_eq_iff, Option, none, some, [], ◌∷◌, Bool, true, false, ok, ◌≢◌,
  ok-injective, ◌≡◌, refl, sym, ap, ◌∙◌, arith,
}
use temporal_worker_controll.Api.Types.{
  manual, RolloutStrategy, TemporalConnectionSpec, TemporalWorkerDeployment,
  TemporalWorkerDeploymentStatus,
}
use temporal_worker_controll.K8s.Names.{Libraries, compute_worker_deployment_name}
use temporal_worker_controll.Server.Types.{TemporalWorkerState}
use temporal_worker_controll.Planner.Config.{is_ready, get_version_config_diff}
use temporal_worker_controll.Planner.Plan.{remove_builds}
use temporal_worker_controll.Planner.Plan.Parts.{generate_plan-Parts}
use temporal_worker_controll.Controller.Generate.Parts.{
  used_strategy, generate_controller_plan_parts,
}
use temporal_worker_controll.Controller.Execute.{ControllerPlan}
use temporal_worker_controll.Controller.Generate.{
  Cluster, is_taken_over, effective_strategy, controller_plan, generate_controller_plan,
}

get_version_config_diff_manual :
    (now : ℤ) (status : TemporalWorkerDeploymentStatus) (state : Option TemporalWorkerState)
    (strategy : RolloutStrategy)
    → strategy.strategy ≡ manual
    → get_version_config_diff now status state strategy ≡ ok none
unfolding get_version_config_diff is_ready
get_version_config_diff_manual now status state strategy e = rw e

remove_builds-none : (state : Option TemporalWorkerState) → remove_builds state none ≡ []
unfolding remove_builds
remove_builds-none none = refl
remove_builds-none (some state) = ground arith

-- The test, spelled out.
is_taken_over_lem :
    (identity last : Text) (ignore : Bool)
    → last ≢ identity
    → last ≢ codes "try-delete-for-add-version"
    → last ≢ []
    → ignore ≡ false
    → is_taken_over identity last ignore ≡ true
unfolding is_taken_over
is_taken_over_lem identity [] ignore not_controller not_server not_nobody not_ignored =
    absurd (not_nobody refl)
is_taken_over_lem identity (x ∷ last) ignore not_controller not_server not_nobody not_ignored =
    ground (
      arith,
      text_eq_iff (x ∷ last) identity,
      text_eq_iff (x ∷ last) (codes "try-delete-for-add-version"),
    )

-- When the status names a last modifier that is neither the controller, nor the server while it
-- deletes versions, nor nobody, and no version carries the key that lets the controller go on, then a
-- plan neither changes the routing nor removes the key, whatever the strategy of the spec is.
pub generate_controller_plan_taken_over :
    (lib : Libraries) (cluster : Cluster) (now : ℤ) (identity : Text) (max : ℤ)
    (w : TemporalWorkerDeployment) (connection : TemporalConnectionSpec)
    (state : TemporalWorkerState) {p : ControllerPlan}
    → w.status.last_modifier_identity ≢ identity
    → w.status.last_modifier_identity ≢ codes "try-delete-for-add-version"
    → w.status.last_modifier_identity ≢ []
    → state.ignore_last_modifier ≡ false
    → generate_controller_plan lib cluster now identity max w connection state ≡ ok p
    → (p.update_version_config ≡ none) × (p.remove_ignore_last_modifier_builds ≡ [])
unfolding controller_plan effective_strategy
generate_controller_plan_taken_over lib cluster now identity max w connection state {p}
      not_controller not_server not_nobody not_ignored h =
    let taken =
      is_taken_over_lem identity w.status.last_modifier_identity state.ignore_last_modifier
        not_controller not_server not_nobody not_ignored in
    let from = generate_controller_plan_parts lib cluster now identity max w connection state h in
    let strategy = used_strategy lib cluster now identity max w connection state in
    let parts =
      generate_plan-Parts lib now from.listed w.status w.spec (some state) connection strategy
        (compute_worker_deployment_name w) max from.input.0 from.input.1 from.plans in
    let unset : from.planned.version_config ≡ none = ok-injective (
      sym parts.routing
      ∙ get_version_config_diff_manual now w.status (some state) strategy
          (rw (taken, effective_strategy))) in
    (
      ap (λ (x : ControllerPlan). x.update_version_config) from.made ∙ unset,
      ap (λ (x : ControllerPlan). x.remove_ignore_last_modifier_builds) from.made
          ∙ (parts.removes
              ∙ (ap (remove_builds (some state)) unset ∙ remove_builds-none (some state))),
    )
