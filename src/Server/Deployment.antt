-- ===== src/Server/Deployment.antt =====
-- `GetWorkerDeploymentState`: the server's description of a worker deployment, read into a
-- `TemporalWorkerState`.
pub mod Versions
pub mod Modifier
use temporal_worker_controll.Base.{
  ℤ, pos, eqb_ℤ, ℕ, Text, codes, ◌==◌, is_empty, StringMap, lookup, insert, Option, none, some,
  List, [], ◌∷◌, Bool, true, false, not, ◌&&◌, is_none, map, if◌then◌else◌, Outcome, Error, ok, err,
  panic, ◌>>=◌, deref,
}
use temporal_worker_controll.Api.Cluster.{Deployment}
use temporal_worker_controll.Api.Types.{DefaultVersionUpdateStrategy, VersionStatus, is_progressive}
use temporal_worker_controll.Server.Types.{VersionInfo, TemporalWorkerState}
use temporal_worker_controll.Server.Client.{
  Answer, answer, not_found, unavailable, DrainageStatus, DrainageInfo, VersionDescription, Version,
  RoutingConfig, VersionSummary, DeploymentDescription, Call, Server, with_backoff,
}
use temporal_worker_controll.Server.Pollers.{
  no_task_queues_have_versioned_pollers, all_task_queues_have_unversioned_poller,
}

-- `IgnoreLastModifierKey`
abbrev pub ignore_last_modifier_key : Text
ignore_last_modifier_key = codes "temporal.io/ignore-last-modifier"

abbrev pub empty_state : TemporalWorkerState
empty_state = record {
  current_build_id = [];
  version_conflict_token = [];
  ramping_build_id = [];
  ramp_percentage = pos 0;
  ramping_since = none;
  ramp_last_modified_at = none;
  versions = [];
  last_modifier_identity = [];
  ignore_last_modifier = false;
}

-- `getShouldIgnoreLastModifier`
unfoldable pub get_should_ignore_last_modifier : Server → Call → Text → Outcome Bool
get_should_ignore_last_modifier server call b = elim (server.describe_version call b) [
  | not_found ↦ err (Error.external (codes "unable to describe version"))
  | unavailable ↦ err (Error.external (codes "unable to describe version"))
  | answer desc ↦ elim (lookup ignore_last_modifier_key desc.metadata) [
    | none ↦ ok false
    | some payload ↦ elim (server.decode payload) [
      | none ↦ err (Error.external (codes "unable to decode metadata payload"))
      | some s ↦ ok (s == codes "true")
    ]
  ]
]

-- The first test of `DeploymentShouldIgnoreLastModifier`.
unfoldable pub current_should_ignore : Server → Option Version → Outcome Bool
current_should_ignore server none = ok false
current_should_ignore server (some v) =
    get_should_ignore_last_modifier server Call.metadata_of_current v.build_id

-- Its second test, with the build ID that the code reads: that of the current version.
unfoldable pub ramping_should_ignore : Server → RoutingConfig → Bool → Outcome Bool
ramping_should_ignore server routing true = ok true
ramping_should_ignore server routing false = elim routing.ramping_version [
  | none ↦ ok false
  | some v ↦ deref routing.current_version >>= λ c.
      get_should_ignore_last_modifier server Call.metadata_of_ramping c.build_id
]

-- `DeploymentShouldIgnoreLastModifier`
unfoldable pub deployment_should_ignore_last_modifier : Server → RoutingConfig → Outcome Bool
deployment_should_ignore_last_modifier server routing =
    current_should_ignore server routing.current_version >>= λ ignore.
    ramping_should_ignore server routing ignore

-- Whether the summary is of the version that the routing names.
unfoldable pub is_version : Option Version → Version → Bool
is_version none v = false
is_version (some r) v = (v.deployment_name == r.deployment_name) && (v.build_id == r.build_id)

-- `describeVersionUntilDrainTime`: a version whose drainage is not yet there is tried again.
unfoldable pub until_drain_time : Answer VersionDescription → Answer VersionDescription
until_drain_time not_found = not_found
until_drain_time unavailable = unavailable
until_drain_time (answer desc) = elim desc.drainage_info [
  | none ↦ unavailable
  | some info ↦ elim info.drainage_status [
    | DrainageStatus.drained ↦ answer desc
    | DrainageStatus.draining ↦ unavailable
    | DrainageStatus.unspecified ↦ unavailable
  ]
]

unfoldable pub has_no_pods : Option Deployment → Bool
has_no_pods none = true
has_no_pods (some d) = eqb_ℤ d.status_replicas (pos 0)

abbrev pub new_version_info : Version → VersionStatus → VersionInfo
new_version_info v status = record {
  deployment_name = v.deployment_name;
  build_id = v.build_id;
  status = status;
  drained_since = none;
  task_queues = [];
  test_workflows = [];
  all_task_queues_have_unversioned_poller = false;
  no_task_queues_have_versioned_poller = false;
}

-- A version that is not there leaves the state's field at its zero value.
abbrev pub version_build_id : Option Version → Text
version_build_id none = []
version_build_id (some v) = v.build_id

abbrev pub if_ramping : Option Version → ℤ → Option ℤ
if_ramping none t = none
if_ramping (some v) t = some t

module _ (server : Server) where
  -- The branch of a drained version, after the backoff.
  unfoldable pub drained_info :
      StringMap Deployment → Version → Option (Answer VersionDescription) → Outcome VersionInfo
  drained_info deployments v none = panic
  drained_info deployments v (some not_found) = ok (new_version_info v VersionStatus.not_registered)
  drained_info deployments v (some unavailable) = ok (new_version_info v VersionStatus.drained)
  drained_info deployments v (some (answer desc)) = do
    info ← deref desc.drainage_info
    ok (record (new_version_info v VersionStatus.drained) {
      drained_since = some info.last_changed_time;
      no_task_queues_have_versioned_poller =
          has_no_pods (lookup v.build_id deployments)
          && no_task_queues_have_versioned_pollers server v.build_id desc.task_queues_infos;
    })

  -- The branch of an inactive version, after the backoff that it may take.
  unfoldable pub inactive_info : Version → Option (Answer VersionDescription) → VersionInfo
  inactive_info v none = record (new_version_info v VersionStatus.inactive) {
    all_task_queues_have_unversioned_poller =
        all_task_queues_have_unversioned_poller server v.build_id [];
  }
  inactive_info v (some not_found) = new_version_info v VersionStatus.inactive
  inactive_info v (some unavailable) = new_version_info v VersionStatus.inactive
  inactive_info v (some (answer desc)) = record (new_version_info v VersionStatus.inactive) {
    all_task_queues_have_unversioned_poller =
        all_task_queues_have_unversioned_poller server v.build_id desc.task_queues_infos;
  }

  -- The version as it stands without a place in the routing.
  unfoldable pub unrouted_info : StringMap Deployment → Bool → VersionSummary → Outcome VersionInfo
  unrouted_info deployments checks_pollers s = elim s.drainage_status [
    | DrainageStatus.draining ↦ ok (new_version_info s.version VersionStatus.draining)
    | DrainageStatus.drained ↦ drained_info deployments s.version (
        with_backoff server.rounds
          (λ i. until_drain_time (server.describe_version (Call.drain_time i) s.version.build_id)))
    | DrainageStatus.unspecified ↦ ok (
        if checks_pollers
        then inactive_info s.version (
            with_backoff server.rounds
              (λ i. server.describe_version (Call.unversioned_pollers i) s.version.build_id))
        else new_version_info s.version VersionStatus.inactive)
  ]

  -- The body of the loop over the version summaries.
  unfoldable pub version_info :
      RoutingConfig
      → StringMap Deployment
      → Text
      → DefaultVersionUpdateStrategy
      → VersionSummary
      → Outcome VersionInfo
  version_info routing deployments target strategy s =
      if is_version routing.current_version s.version
      then ok (new_version_info s.version VersionStatus.current)
      else if is_version routing.ramping_version s.version
      then ok (new_version_info s.version VersionStatus.ramping)
      else unrouted_info deployments
          (s.version.build_id == target
            && is_none routing.current_version
            && is_progressive strategy)
          s

  -- The loop over the version summaries.
  unfoldable pub read_versions :
      RoutingConfig
      → StringMap Deployment
      → Text
      → DefaultVersionUpdateStrategy
      → List VersionSummary
      → StringMap VersionInfo
      → Outcome (StringMap VersionInfo)
  read_versions routing deployments target strategy [] versions = ok versions
  read_versions routing deployments target strategy (s ∷ ss) versions = do
    info ← version_info routing deployments target strategy s
    read_versions routing deployments target strategy ss (insert s.version.build_id info versions)

  -- `state.IgnoreLastModifier`: the metadata is read only when somebody else was the last modifier.
  unfoldable pub read_ignore_last_modifier : Text → DeploymentDescription → Outcome Bool
  read_ignore_last_modifier identity desc =
      if not (desc.last_modifier_identity == identity) && not (is_empty desc.last_modifier_identity)
      then deployment_should_ignore_last_modifier server desc.routing_config
      else ok false

  -- The state, after the deployment has been described.
  unfoldable pub read_deployment :
      Text
      → StringMap Deployment
      → Text
      → DefaultVersionUpdateStrategy
      → DeploymentDescription
      → Outcome TemporalWorkerState
  read_deployment identity deployments target strategy desc = do
    ignore ← read_ignore_last_modifier identity desc
    versions ←
        read_versions desc.routing_config deployments target strategy desc.version_summaries []
    ok (record {
      current_build_id = version_build_id desc.routing_config.current_version;
      version_conflict_token = desc.conflict_token;
      ramping_build_id = version_build_id desc.routing_config.ramping_version;
      ramp_percentage = desc.routing_config.ramping_version_percentage;
      ramping_since =
          if_ramping desc.routing_config.ramping_version
            desc.routing_config.ramping_version_changed_time;
      ramp_last_modified_at =
          if_ramping desc.routing_config.ramping_version
            desc.routing_config.ramping_version_percentage_changed_time;
      versions = versions;
      last_modifier_identity = desc.last_modifier_identity;
      ignore_last_modifier = ignore;
    })

  unfoldable pub read_answer :
      Text
      → StringMap Deployment
      → Text
      → DefaultVersionUpdateStrategy
      → Answer DeploymentDescription
      → Outcome TemporalWorkerState
  read_answer identity deployments target strategy not_found = ok empty_state
  read_answer identity deployments target strategy unavailable =
      err (Error.external (codes "unable to describe worker deployment"))
  read_answer identity deployments target strategy (answer desc) =
      read_deployment identity deployments target strategy desc

  -- `GetWorkerDeploymentState`
  unfoldable pub get_worker_deployment_state :
      Text
      → StringMap Deployment
      → Text
      → DefaultVersionUpdateStrategy
      → Outcome TemporalWorkerState
  get_worker_deployment_state identity deployments target strategy =
      read_answer identity deployments target strategy server.describe
