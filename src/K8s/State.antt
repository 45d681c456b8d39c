-- ===== src/K8s/State.antt =====
-- `DeploymentState` and how it is read from the cluster. The listed objects are an argument: the
-- answer of `k8sClient.List`. A pointer into the listed items is the item itself here; the map from
-- build IDs owns the one object that the planner may later change.
pub mod Index
use temporal_worker_controll.Base.{
  ℤ, ltb_ℤ, Text, codes, StringMap, lookup, insert, entries, Option, none, some, List, [], ◌∷◌,
  ◌++◌, ◌&&◌, if◌then◌else◌,
}
use temporal_worker_controll.Api.Cluster.{Deployment, DeploymentCondition, ObjectReference}

-- `BuildIDLabel`
abbrev pub build_id_label : Text
build_id_label = codes "temporal.io/build-id"

pub record DeploymentState : Type 0 where
  pub deployments : StringMap Deployment
  pub deployments_by_time : List Deployment
  pub deployment_refs : StringMap ObjectReference

abbrev pub no_deployments : DeploymentState
no_deployments = record { deployments = []; deployments_by_time = []; deployment_refs = [] }

-- `NewObjectRef`
unfoldable pub new_object_ref : Deployment → ObjectReference
new_object_ref d = record {
  api_version = d.api_version;
  kind = d.kind;
  name = d.name;
  namespace = d.namespace;
  uid = d.uid;
}

-- `sort.SliceStable` by creation time: an item goes before the first one that is strictly later.
unfoldable pub insert_by_time : Deployment → List Deployment → List Deployment
insert_by_time d [] = d ∷ []
insert_by_time d (e ∷ ds) =
    if ltb_ℤ e.creation_timestamp d.creation_timestamp then e ∷ insert_by_time d ds else d ∷ e ∷ ds

unfoldable pub sort_by_time : List Deployment → List Deployment
sort_by_time [] = []
sort_by_time (d ∷ ds) = insert_by_time d (sort_by_time ds)

-- One round of the loop over the sorted items.
unfoldable pub track : DeploymentState → Deployment → DeploymentState
track state d = elim (lookup build_id_label (entries d.labels)) [
  | none ↦ state
  | some build_id ↦ record {
    deployments = insert build_id d state.deployments;
    deployments_by_time = state.deployments_by_time ++ (d ∷ []);
    deployment_refs = insert build_id (new_object_ref d) state.deployment_refs;
  }
]

unfoldable pub track_all : DeploymentState → List Deployment → DeploymentState
track_all state [] = state
track_all state (d ∷ ds) = track_all (track state d) ds

-- `GetDeploymentState`, after the list call.
unfoldable pub get_deployment_state : List Deployment → DeploymentState
get_deployment_state items = track_all no_deployments (sort_by_time items)

-- `IsDeploymentHealthy`: the time of the first condition that says so.
unfoldable pub is_deployment_healthy : List DeploymentCondition → Option ℤ
is_deployment_healthy [] = none
is_deployment_healthy (c ∷ cs) =
    if c.available && c.status then some c.last_transition_time else is_deployment_healthy cs

-- The deployment of a version: it has to have a reference in its status, and an entry under its
-- build ID. Otherwise the planner's loops `continue`.
unfoldable pub managed : Option ObjectReference → Option Deployment → Option Deployment
managed none d = none
managed (some ref) d = d
