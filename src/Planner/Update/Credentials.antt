-- ===== src/Planner/Update/Credentials.antt =====
-- What an update of the connection leaves as it was.
use temporal_worker_controll.Base.{
  Text, StringMap, Option, none, some, ok, ◌≡◌, refl, sym, ap, ◌∙◌, ok-injective,
}
use temporal_worker_controll.Api.Cluster.{Deployment}
use temporal_worker_controll.Api.Types.{TemporalConnectionSpec}
use temporal_worker_controll.K8s.Names.{Libraries}
use temporal_worker_controll.Planner.Update.{
  update_deployment_with_connection, update_volumes, connection_update,
}
use temporal_worker_controll.Planner.Update.Changes.{update_connects}

-- When a deployment is updated in place to one of two connections without mutual TLS, which share
-- the server's address, then its pods get the same spec from both, whatever API keys the connections
-- name; and after the update the connection asks for no further change.
pub api_key_not_applied :
    (lib : Libraries) (old new : TemporalConnectionSpec) (d : Deployment) {e e' : Deployment}
    → old.mutual_tls_secret_ref ≡ none
    → new.mutual_tls_secret_ref ≡ none
    → old.host_port ≡ new.host_port
    → update_deployment_with_connection lib d old ≡ ok e
    → update_deployment_with_connection lib d new ≡ ok e'
    → (e.template.spec ≡ e'.template.spec) × (connection_update lib new e' ≡ ok none)
unfolding update_deployment_with_connection update_volumes
api_key_not_applied lib old new d {e} {e'} no_tls no_tls' same h h' = (
  by_annotations d.template.annotations refl h h',
  (update_connects lib new d.template.annotations d refl h').0,
)
  where
    by_annotations :
        (annotations : Option (StringMap Text))
        → d.template.annotations ≡ annotations
        → update_deployment_with_connection lib d old ≡ ok e
        → update_deployment_with_connection lib d new ≡ ok e'
        → e.template.spec ≡ e'.template.spec
    by_annotations none missing h h' = absurd (cc (rw missing at h))
    by_annotations (some m) there h h' =
        let p = ap (λ x. x.template.spec) (ok-injective (rw (there, no_tls, same) at h)) in
        let p' = ap (λ x. x.template.spec) (ok-injective (rw (there, no_tls') at h')) in sym p ∙ p'
