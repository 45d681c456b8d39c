-- ===== src/Controller/Commands.antt =====
-- What the controller asks the cluster and the server to change, as explicit steps. An action gives a
-- result and adds the commands that it has issued to those issued before; they stay issued when the
-- action fails.
use temporal_worker_controll.Base.{
  ℤ, Float32, Text, Option, none, some, List, [], ◌∷◌, ◌++◌, Outcome, Error, ok, err, panic,
}
use temporal_worker_controll.Api.Cluster.{Deployment, ObjectReference}
use temporal_worker_controll.Api.Types.{TemporalWorkerDeploymentStatus}

-- `StartWorkflowOptions`, with what varies; the ID's reuse and conflict policies and the timeout are
-- constants. The version override is pinned to the deployment's name and the build ID.
pub record StartWorkflow : Type 0 where
  pub id : Text
  pub task_queue : Text
  pub workflow_type : Text
  pub deployment_name : Text
  pub build_id : Text
  pub input : Option Text

pub data Command : Type 0 where
  update_status : TemporalWorkerDeploymentStatus → Command
  create_deployment delete_deployment update_deployment : Deployment → Command
  scale_deployment : ObjectReference → ℤ → Command
  start_workflow : StartWorkflow → Command
  set_current_version : Text → Text → Text → Command
  set_ramping_version : Text → Float32 → Text → Text → Command
  upsert_metadata : Text → Text → List (Text × Text) → Command
  remove_metadata : Text → Text → List Text → Command

-- The answer to a command, after the commands before it: none, or the error's text.
abbrev pub World : Type 0
World = List Command → Command → Option Text

abbrev pub Action : Type 0 → Type 0
Action A = List Command → Outcome A × List Command

abbrev pub pure : {A : Type 0} → A → Action A
pure a issued = (ok a, issued)

-- A result that needs no command.
abbrev pub lift : {A : Type 0} → Outcome A → Action A
lift r issued = (r, issued)

abbrev pub and_then : {A B : Type 0} → Outcome A → (A → Action B) → Action B
and_then (ok a) f issued = f a issued
and_then (err e) f issued = (err e, issued)
and_then panic f issued = (panic, issued)

infixl 5 ◌>>=◌ ◌>>◌
abbrev pub ◌>>=◌ : {A B : Type 0} → Action A → (A → Action B) → Action B
◌>>=◌ m f issued = let (r, issued') = m issued in and_then r f issued'

abbrev pub ◌>>◌ : {B : Type 0} → Action (Unit {0}) → Action B → Action B
m >> k = m >>= λ _. k

abbrev pub answer_of : Option Text → Outcome (Unit {0})
answer_of none = ok tt
answer_of (some e) = err (Error.external e)

abbrev pub command : World → Command → Action (Unit {0})
command world c issued = (answer_of (world issued c), issued ++ (c ∷ []))

-- A loop that stops at the first error.
unfoldable pub for_each : {A : Type 0} → (A → Action (Unit {0})) → List A → Action (Unit {0})
for_each act [] = pure tt
for_each act (x ∷ xs) = act x >> for_each act xs
