-- ===== src/Lib.antt =====
-- The Temporal worker controller: a Kubernetes operator that keeps one Deployment per version of a
-- Temporal worker, and moves traffic from the current version to a target version.
--
-- The parts and how they interact. The admission webhook fills in defaults and refuses wrong specs.
-- A round of the reconciler reads the cluster's deployments, asks the Temporal server for the state
-- of the worker deployment, through a client from the pool, maps both to a status, writes it, and
-- gives all of it to the planner. The planner answers with what to create, delete, scale and update,
-- which gate workflows to start, and which version to make current or ramp; the round then executes
-- this plan, one command after the other, up to the first that fails.
--
-- Which file models which part:
--   Base               numbers, byte strings, maps and results that the parts share
--   Api/Types          api/v1alpha1/worker_types.go, temporalconnection_types.go: the records of the
--                      custom resources and the enumerations, with the source's names
--   Api/Times          statuses that agree in all but their times, as what the API server gives back of
--                      one does with it
--   Api/Cluster        the fields of the Kubernetes objects that the controller reads and writes
--   Api/Webhook        api/v1alpha1/temporalworker_webhook.go: Default, ValidateCreate and the
--                      other handlers, validateForUpdateOrCreate, validateRolloutStrategy
--   K8s/State          internal/k8s/deployments.go: GetDeploymentState, IsDeploymentHealthy
--   K8s/Names          the same file and internal/controller/k8s.io/utils/utils.go: ComputeBuildID,
--                      ComputeHash, cleanBuildID, CleanStringForDNS, TruncateString
--   K8s/Pods           the same file: NewDeploymentWithOwnerRef, ApplyControllerPodSpecModifications
--                      and the hashes of the connection and of the pod template
--   Server/Types       internal/temporal/worker_deployment.go: VersionInfo, TemporalWorkerState
--   Server/Client      the answers of the server, as the parameter `Server`, and withBackoff
--   Server/Pollers     HasUnversionedPoller, HasNoVersionedPollers and the counters over task queues
--   Server/Deployment  GetWorkerDeploymentState and DeploymentShouldIgnoreLastModifier
--   Server/TestWorkflows  GetTestWorkflowStatus and mapWorkflowStatus
--   Mapper             internal/controller/state_mapper.go: mapToStatus
--   Planner            internal/planner/planner.go, by what is planned: Create, Delete, Scale, Update
--                      (updates in place), Gate (test workflows and their input), Rollout
--                      (handleProgressiveRollout), Config (getVersionConfigDiff), Plan (GeneratePlan)
--   Pool               internal/controller/clientpool/clientpool.go: GetSDKClient, UpsertClient, Close
--   Controller         internal/controller, by file: Status (genstatus.go), Generate (genplan.go),
--                      Execute (execplan.go), Environment (util.go), Reconcile
--                      (worker_controller.go); Commands holds what they ask the cluster and the
--                      server to change, and the monad in which they do
--   Tests              sample data, runs, and the theorems at concrete inputs
--
-- How the code is read. Strings are lists of bytes; a Go map is an association list in the order in
-- which `range` visits it, so what is proved for all lists holds for every order; a map that may be
-- nil and a pointer are options. Times and durations are signed numbers of nanoseconds, with the
-- 64-bit wrap written out where the source adds; float32 values are exact multiples of 2^-149. A
-- function that may fail returns an `Outcome`: a result, an error, or a panic, for a nil pointer that
-- is read and a nil map that is written. Objects that are changed in place are held once, in the
-- state, and passed through the functions that change them. Loggers and contexts are left out.
--
-- Bounds and fuel. Recursion is structural throughout, on lists, but for two loops. A rollout is
-- followed, in Planner/Rollout/Trace, for two more rounds than there are steps, which is enough for
-- it to end. The rounds of `withBackoff` are counted by a parameter, since how many of them start
-- before the deadline is the clock's affair; what is proved holds for every number of them.
--
-- What changes the world. A round is a function from the pool of clients to a result, the pool it
-- leaves and the list of commands it has issued, in order; each command is answered by the parameter
-- `World`, which sees the commands before it. Commands stay issued when the round fails later. One
-- round is modelled at a time, so the lock of the pool is left out.
--
-- The object that goes on after a status update is what the API server answers, the parameter `stored`
-- of a round. It is not assumed to be the object sent: the spec comes back without the defaults, which
-- were never written, and times come back to the second. Where a theorem needs something of it, it is
-- that the status is the same but for the values of its times, and that the spec and the metadata are
-- those that were read; or, for what is deleted, that the deprecated versions are those it was sent.
--
-- What is a parameter, and not modelled: spew, FNV-1a, SHA-256, SafeEncodeString and reference.Parse,
-- in the record `Libraries`; the answers of the Temporal SDK, in the record `Server`; the answers of
-- the cluster to what only reads it and SetControllerReference, in `Cluster`; the clock, the secrets,
-- the parsing of certificates and the dialling, in `Outside`; the environment's variables, in
-- `Environment`; and what else a round of Reconcile is told, in `Round`. Not modelled: logging, the
-- timeout of a round, registration with the manager, the flags of cmd/main.go, the generated deep
-- copies, of which a value that never changes has no need, and the demonstrations and test helpers.
pub mod Base
pub mod Api
pub mod K8s
pub mod Server
pub mod Planner
pub mod Mapper
pub mod Pool
pub mod Controller
mod Tests
