-- ===== src/Tests/Cluster.antt =====
-- A cluster with one spare deployment, and a round of the controller on it.
use Prim.Native.Nat.{◌/◌}
use temporal_worker_controll.Base.{ℤ, pos, negsuc, ◌*◌, none, some, [], ◌∷◌, false}
use temporal_worker_controll.Api.Cluster.{Deployment}
use temporal_worker_controll.Api.Times.{retimed}
use temporal_worker_controll.K8s.State.{build_id_label}
use temporal_worker_controll.Server.Client.{answer}
use temporal_worker_controll.Controller.Commands.{World}
use temporal_worker_controll.Controller.Generate.{Cluster}
use temporal_worker_controll.Controller.Environment.{Environment, default_identity}
use temporal_worker_controll.Controller.Reconcile.{Round}
use temporal_worker_controll.Tests.Data.{
  id_a, id_c, deployment_with, sample_connection, sample_libraries, sample_template, sample_worker,
}
use temporal_worker_controll.Tests.Servers.{server_of, description_with, version_of}
use temporal_worker_controll.Tests.Pools.{outside_at}

abbrev pub spare : Deployment
spare = record (deployment_with (some (pos 0))) {
  labels = some ((build_id_label, id_c) ∷ []);
  template = record sample_template { annotations = some [] };
}

abbrev pub listing_cluster : Cluster
listing_cluster = record {
  list_deployments = λ listing. some (spare ∷ []);
  get_config_map = λ name. none;
  get_secret = λ name. none;
  set_controller_reference = λ owner d. some d;
}

abbrev pub empty_environment : Environment
empty_environment = record { version = []; getenv = λ name. []; atoi = λ s. none }

-- The time without its fraction of a second.
abbrev pub to_second : ℤ → ℤ
to_second (pos n) = pos (n / 1000000000 * 1000000000)
to_second (negsuc n) = negsuc n

-- A status update is answered with the object as it was created, whose spec has no defaults, and with
-- the new status, its times cut off to the second.
abbrev pub sample_round : Round
sample_round = record {
  worker = answer sample_worker;
  connection = λ name. some sample_connection;
  cluster = listing_cluster;
  outside = outside_at (pos 1000);
  server = λ c. server_of (description_with (some (version_of id_a)) default_identity);
  stored = λ w. record sample_worker { status = retimed to_second w.status };
  is_conflict = λ e. false;
  libraries = sample_libraries;
  environment = empty_environment;
  max_ineligible = pos 75;
  now = pos 1000;
}

abbrev pub accepting : World
accepting issued c = none
