-- ===== src/Server/Deployment/Modifier.antt =====
-- The test for the key that lets the controller ignore who modified the deployment last.
use mathlib.Core.Path.{subst}
use temporal_worker_controll.Base.{
  Text, ◌==◌, is_empty, StringMap, Option, none, some, Bool, true, false, Outcome, ok, err, panic,
  ◌>>=◌, ◌≡◌, refl, sym,
}
use temporal_worker_controll.Api.Cluster.{Deployment}
use temporal_worker_controll.Api.Types.{DefaultVersionUpdateStrategy}
use temporal_worker_controll.Server.Client.{
  answer, Version, RoutingConfig, DeploymentDescription, Server,
}
use temporal_worker_controll.Server.Deployment.{
  current_should_ignore, ramping_should_ignore, deployment_should_ignore_last_modifier,
  read_ignore_last_modifier, read_answer, read_deployment, get_worker_deployment_state,
}

module _ (server : Server) where
  -- When somebody other than the controller was the last to modify a deployment that has a ramping
  -- version and no current version, `GetWorkerDeploymentState` panics: the build ID of the nil current
  -- version is read in the branch of the ramping version.
  pub get_worker_deployment_state_panics :
      (identity : Text) (deployments : StringMap Deployment) (target : Text)
      (strategy : DefaultVersionUpdateStrategy) (desc : DeploymentDescription) (v : Version)
      → server.describe ≡ answer desc
      → desc.routing_config.current_version ≡ none
      → desc.routing_config.ramping_version ≡ some v
      → (desc.last_modifier_identity == identity) ≡ false
      → is_empty desc.last_modifier_identity ≡ false
      → get_worker_deployment_state server identity deployments target strategy ≡ panic
  unfolding get_worker_deployment_state read_answer read_deployment read_ignore_last_modifier
      deployment_should_ignore_last_modifier current_should_ignore ramping_should_ignore
  get_worker_deployment_state_panics identity deployments target strategy desc v e no_current ramps
        other full =
      subst (λ a. read_answer server identity deployments target strategy a ≡ panic) (sym e)
        (rw (other, full, no_current, ramps))

  -- The metadata of a ramping version is never asked for: whatever the ramping version is, the test
  -- for the key gives the same result, panics and errors included.
  pub deployment_should_ignore_any_ramping :
      (routing : RoutingConfig) (v w : Version)
      → deployment_should_ignore_last_modifier server (record routing { ramping_version = some v })
        ≡ deployment_should_ignore_last_modifier server
            (record routing { ramping_version = some w })
  unfolding deployment_should_ignore_last_modifier ramping_should_ignore
  deployment_should_ignore_any_ramping routing v w =
      bind_cong (current_should_ignore server routing.current_version)
        (λ ignore. same ignore routing.current_version)
    where
      bind_cong :
          (m : Outcome Bool) {f g : Bool → Outcome Bool}
          → ((b : Bool) → f b ≡ g b)
          → (m >>= f) ≡ (m >>= g)
      bind_cong (ok b) h = h b
      bind_cong (err e) h = refl
      bind_cong panic h = refl

      same :
          (ignore : Bool) (now : Option Version)
          → let at = λ (x : Version).
            ramping_should_ignore server
              (record routing { current_version = now; ramping_version = some x })
              ignore in
            at v ≡ at w
      same true now = refl
      same false now = refl
