-- ===== src/Server/Deployment/Versions.antt =====
-- What the state says of each version.
use mathlib.Core.Path.{subst}
use temporal_worker_controll.Base.{
  Text, ◌==◌, text_eq_iff, StringMap, lookup, insert, lookup-insert, Option, none, some, List, [],
  ◌∷◌, Bool, true, false, ◌&&◌, is_none, deref, ok, bind-eq-ok, ok-injective, some-eq-some, ◌≡◌,
  ◌≢◌, refl, ◌⊎◌, inl, inr, sym, ap, arith, Bool-cases,
}
use temporal_worker_controll.Api.Cluster.{Deployment}
use temporal_worker_controll.Api.Types.{DefaultVersionUpdateStrategy, VersionStatus, is_progressive}
use temporal_worker_controll.Server.Types.{VersionInfo, TemporalWorkerState}
use temporal_worker_controll.Server.Client.{
  Answer, answer, not_found, unavailable, VersionDescription, Version, RoutingConfig,
  VersionSummary, DrainageStatus, DeploymentDescription, Call, Server, with_backoff,
}
use temporal_worker_controll.Server.Deployment.{
  is_version, until_drain_time, drained_info, inactive_info, unrouted_info, version_info,
  new_version_info, read_ignore_last_modifier, read_answer, read_versions, read_deployment,
  get_worker_deployment_state, version_build_id,
}

module _ (server : Server) where
  -- The calls for the drain time of a version all failed, and the last of them did not say that the
  -- version is unknown.
  abbrev pub IsUndescribed : Text → Type 0
  IsUndescribed b =
      with_backoff server.rounds
        (λ i. until_drain_time (server.describe_version (Call.drain_time i) b))
      ≡ some unavailable

  -- What holds of a version's entry in the state.
  pub record IsRead (routing : RoutingConfig) (b : Text) (v : VersionInfo) : Type 0 where
    pub indexed : v.build_id ≡ b
    pub current_routed :
        v.status ≡ VersionStatus.current → version_build_id routing.current_version ≡ b
    pub ramping_routed :
        v.status ≡ VersionStatus.ramping → version_build_id routing.ramping_version ≡ b
    pub drained_timed : v.status ≡ VersionStatus.drained → v.drained_since ≡ none → IsUndescribed b
    pub not_drained_untimed : v.drained_since ≢ none → v.status ≡ VersionStatus.drained

  is_version_lem :
      (r : Option Version) (v : Version) → is_version r v ≡ true → version_build_id r ≡ v.build_id
  unfolding is_version
  is_version_lem none v h = absurd (cc)
  is_version_lem (some r) v h = ground (arith, text_eq_iff v.build_id r.build_id)

  drained_info-IsRead :
      (routing : RoutingConfig) (deployments : StringMap Deployment) (v : Version)
      (o : Option (Answer VersionDescription)) {info : VersionInfo}
      → with_backoff server.rounds
          (λ i. until_drain_time (server.describe_version (Call.drain_time i) v.build_id))
        ≡ o
      → drained_info server deployments v o ≡ ok info
      → IsRead routing v.build_id info
  unfolding drained_info
  drained_info-IsRead routing deployments v none {info} e h = absurd (cc)
  drained_info-IsRead routing deployments v (some not_found) {info} e h =
      subst (IsRead routing v.build_id) (ok-injective h) (record {
        indexed = refl;
        current_routed = λ p. absurd (cc);
        ramping_routed = λ p. absurd (cc);
        drained_timed = λ p q. absurd (cc);
        not_drained_untimed = λ p. absurd (p refl);
      })
  drained_info-IsRead routing deployments v (some unavailable) {info} e h =
      subst (IsRead routing v.build_id) (ok-injective h) (record {
        indexed = refl;
        current_routed = λ p. absurd (cc);
        ramping_routed = λ p. absurd (cc);
        drained_timed = λ p q. e;
        not_drained_untimed = λ p. absurd (p refl);
      })
  drained_info-IsRead routing deployments v (some (answer desc)) {info} e h =
      let (d, p, q) = bind-eq-ok (deref desc.drainage_info) _ h in
      subst (IsRead routing v.build_id) (ok-injective q) (record {
        indexed = refl;
        current_routed = λ p. absurd (cc);
        ramping_routed = λ p. absurd (cc);
        drained_timed = λ p q. absurd (cc);
        not_drained_untimed = λ p. refl;
      })

  inactive_info_lem :
      (v : Version) (o : Option (Answer VersionDescription))
      → let info = inactive_info server v o in
        (info.build_id ≡ v.build_id)
        × (info.status ≡ VersionStatus.inactive)
        × (info.drained_since ≡ none)
  unfolding inactive_info
  inactive_info_lem v none = (refl, refl, refl)
  inactive_info_lem v (some not_found) = (refl, refl, refl)
  inactive_info_lem v (some unavailable) = (refl, refl, refl)
  inactive_info_lem v (some (answer desc)) = (refl, refl, refl)

  untimed-IsRead :
      (routing : RoutingConfig) (b : Text) (info : VersionInfo)
      → info.build_id ≡ b
      → info.drained_since ≡ none
      → (info.status ≡ VersionStatus.inactive) ⊎ (info.status ≡ VersionStatus.draining)
      → IsRead routing b info
  untimed-IsRead routing b info indexed untimed status = record {
    indexed = indexed;
    current_routed = λ p. absurd (ground arith);
    ramping_routed = λ p. absurd (ground arith);
    drained_timed = λ p q. absurd (ground arith);
    not_drained_untimed = λ p. absurd (p untimed);
  }

  unrouted_info-IsRead :
      (routing : RoutingConfig) (deployments : StringMap Deployment) (checks : Bool) (v : Version)
      (status : DrainageStatus) {info : VersionInfo}
      → unrouted_info server deployments checks (record { version = v; drainage_status = status })
        ≡ ok info
      → IsRead routing v.build_id info
  unfolding unrouted_info
  unrouted_info-IsRead routing deployments checks v DrainageStatus.draining {info} h =
      subst (IsRead routing v.build_id) (ok-injective h) (
        untimed-IsRead routing v.build_id (new_version_info v VersionStatus.draining) refl refl
          (inr refl))
  unrouted_info-IsRead routing deployments checks v DrainageStatus.drained {info} h =
      drained_info-IsRead routing deployments v _ refl h
  unrouted_info-IsRead routing deployments false v DrainageStatus.unspecified {info} h =
      subst (IsRead routing v.build_id) (ok-injective h) (
        untimed-IsRead routing v.build_id (new_version_info v VersionStatus.inactive) refl refl
          (inl refl))
  unrouted_info-IsRead routing deployments true v DrainageStatus.unspecified {info} h =
      let found =
        with_backoff server.rounds
          (λ i. server.describe_version (Call.unversioned_pollers i) v.build_id) in
      let (indexed, inactive, untimed) = inactive_info_lem v found in
      subst (IsRead routing v.build_id) (ok-injective h) (
        untimed-IsRead routing v.build_id (inactive_info server v found) indexed untimed
          (inl inactive))

  version_info-IsRead :
      (routing : RoutingConfig) (deployments : StringMap Deployment) (target : Text)
      (strategy : DefaultVersionUpdateStrategy) (s : VersionSummary) {info : VersionInfo}
      → version_info server routing deployments target strategy s ≡ ok info
      → IsRead routing s.version.build_id info
  unfolding version_info
  version_info-IsRead routing deployments target strategy s {info} h =
      elim (Bool-cases (is_version routing.current_version s.version)) [
        | inl now ↦ subst (IsRead routing s.version.build_id) (ok-injective (rw now at h)) (record {
          indexed = refl;
          current_routed = λ p. is_version_lem routing.current_version s.version now;
          ramping_routed = λ p. absurd (cc);
          drained_timed = λ p q. absurd (cc);
          not_drained_untimed = λ p. absurd (p refl);
        })
        | inr not_now ↦ elim (Bool-cases (is_version routing.ramping_version s.version)) [
          | inl next ↦
              subst (IsRead routing s.version.build_id) (ok-injective (rw (not_now, next) at h))
                (record {
                  indexed = refl;
                  current_routed = λ p. absurd (cc);
                  ramping_routed = λ p. is_version_lem routing.ramping_version s.version next;
                  drained_timed = λ p q. absurd (cc);
                  not_drained_untimed = λ p. absurd (p refl);
                })
          | inr not_next ↦
              unrouted_info-IsRead routing deployments
                (s.version.build_id == target
                  && is_none routing.current_version
                  && is_progressive strategy)
                s.version s.drainage_status (rw (not_now, not_next) at h)
        ]
      ]

  -- Every entry of a map of versions is as read.
  abbrev pub AllRead : RoutingConfig → StringMap VersionInfo → Type 0
  AllRead routing versions =
      (b : Text) (v : VersionInfo) → lookup b versions ≡ some v → IsRead routing b v

  nothing-AllRead : (routing : RoutingConfig) → AllRead routing []
  unfolding lookup
  nothing-AllRead routing b v found = absurd (cc)

  insert-AllRead :
      (routing : RoutingConfig) (b : Text) (v : VersionInfo) (versions : StringMap VersionInfo)
      → IsRead routing b v
      → AllRead routing versions
      → AllRead routing (insert b v versions)
  insert-AllRead routing b v versions read all c w h = elim (Bool-cases (c == b)) [
    | inl same ↦
        let e : some v ≡ some w = rw (lookup-insert b c v versions, same) at h in
        subst (λ x. IsRead routing x w) (sym ((text_eq_iff c b).0 same))
          (subst (IsRead routing b) (some-eq-some e) read)
    | inr other ↦ all c w (rw (lookup-insert b c v versions, other) at h)
  ]

  read_versions-AllRead :
      (routing : RoutingConfig) (deployments : StringMap Deployment) (target : Text)
      (strategy : DefaultVersionUpdateStrategy) (ss : List VersionSummary)
      (versions : StringMap VersionInfo) {versions' : StringMap VersionInfo}
      → AllRead routing versions
      → read_versions server routing deployments target strategy ss versions ≡ ok versions'
      → AllRead routing versions'
  unfolding read_versions
  read_versions-AllRead routing deployments target strategy [] versions all h =
      subst (AllRead routing) (ok-injective h) all
  read_versions-AllRead routing deployments target strategy (s ∷ ss) versions all h =
      let (info, p, q) =
        bind-eq-ok (version_info server routing deployments target strategy s) _ h in
      read_versions-AllRead routing deployments target strategy ss
        (insert s.version.build_id info versions)
        (insert-AllRead routing s.version.build_id info versions
          (version_info-IsRead routing deployments target strategy s p) all)
        q

  -- In a state that `GetWorkerDeploymentState` returns, when the server has described the deployment,
  -- every version stands under its own build ID; one with the status Current or Ramping is the one
  -- that the state names as current or ramping; one with a drain time is Drained; and a Drained one
  -- without a drain time is one whose calls for it have all failed.
  pub get_worker_deployment_state-AllRead :
      (identity : Text) (deployments : StringMap Deployment) (target : Text)
      (strategy : DefaultVersionUpdateStrategy) (desc : DeploymentDescription)
      {state : TemporalWorkerState}
      → server.describe ≡ answer desc
      → get_worker_deployment_state server identity deployments target strategy ≡ ok state
      → (state.current_build_id ≡ version_build_id desc.routing_config.current_version)
        × (state.ramping_build_id ≡ version_build_id desc.routing_config.ramping_version)
        × AllRead desc.routing_config state.versions
  unfolding get_worker_deployment_state read_answer read_deployment
  get_worker_deployment_state-AllRead identity deployments target strategy desc {state} e h =
      let (ignore, p, q) =
        bind-eq-ok (read_ignore_last_modifier server identity desc) _
          (subst (λ a. read_answer server identity deployments target strategy a ≡ ok state) e h) in
      let (versions, p', q') =
        bind-eq-ok
          (read_versions server desc.routing_config deployments target strategy
            desc.version_summaries [])
          _ q in
      let made = ok-injective q' in
      (
        ap (λ x. x.current_build_id) (sym made),
        ap (λ x. x.ramping_build_id) (sym made),
        subst (λ x. AllRead desc.routing_config x) (ap (λ x. x.versions) made)
            (read_versions-AllRead desc.routing_config deployments target strategy
              desc.version_summaries [] (nothing-AllRead desc.routing_config) p'),
      )
