-- ===== src/Planner/Update/Reconnect.antt =====
-- `updateDeploymentWithConnection` on a deployment that the controller has made.
use mathlib.Core.List.{map-append}
use temporal_worker_controll.Base.{
  Text, inl, inr, codes, ◌==◌, insert, insert-insert, insert_all, entries, Option, none, some, List,
  [], ◌∷◌, ◌++◌, map, false, any, All, ◌≡◌, refl, arith, Bool-cases, ok,
}
use temporal_worker_controll.Api.Cluster.{
  KeySelector, EnvVar, Container, Volume, PodSpec, PodTemplateSpec,
}
use temporal_worker_controll.Api.Types.{
  TypeMeta, ObjectMeta, TemporalConnectionSpec, TemporalWorkerDeploymentSpec,
}
use temporal_worker_controll.K8s.Names.{Libraries}
use temporal_worker_controll.K8s.Pods.{
  controller_env, tls_env, tls_volume, add_env, add_tls, secret_env_var, add_credentials,
  apply_controller_pod_spec_modifications, new_deployment_with_owner_ref, pod_annotations,
  connection_spec_hash_annotation, pod_template_spec_hash_annotation, compute_connection_spec_hash,
  compute_pod_template_spec_hash,
}
use temporal_worker_controll.Planner.Update.{
  update_address, update_container, update_volumes, update_tls_volume,
  update_deployment_with_connection,
}

-- The user's container leaves the server's address to the controller, and the user's volume the
-- name of the controller's.
unfoldable pub IsAddressFree : Container → Type 0
IsAddressFree c = any (λ e. e.name == codes "TEMPORAL_ADDRESS") c.env ≡ false

unfoldable pub IsTlsFree : Volume → Type 0
IsTlsFree v = (v.name == codes "temporal-tls") ≡ false

-- Both connections use mutual TLS, or neither does and the API key is the same.
unfoldable pub IsSameAuth :
    (old new : Option Text) → (old_key new_key : Option KeySelector) → Type 0
IsSameAuth (some s) (some t) a b = Unit
IsSameAuth none none a b = a ≡ b
IsSameAuth s t a b = ⊥

addresses_updated :
    (host_port : Text) (es tail tail' : List EnvVar)
    → any (λ e. e.name == codes "TEMPORAL_ADDRESS") es ≡ false
    → map (update_address host_port) tail ≡ tail'
    → map (update_address host_port) (es ++ tail) ≡ es ++ tail'
addresses_updated host_port [] tail tail' h same = same
addresses_updated host_port (e ∷ es) tail tail' h same =
    elim (Bool-cases (e.name == codes "TEMPORAL_ADDRESS")) [
      | inl own ↦ absurd (ground (arith, rw own at h))
      | inr other ↦ rw (other, addresses_updated host_port es tail tail' (rw other at h) same)
    ]

update_tls_volume-append :
    (vs : List Volume) (old new : Text)
    → All IsTlsFree vs
    → update_tls_volume new (vs ++ (tls_volume old ∷ [])) ≡ vs ++ (tls_volume new ∷ [])
unfolding update_tls_volume IsTlsFree ◌==◌
update_tls_volume-append [] old new h = refl
update_tls_volume-append (v ∷ vs) old new (other, h) =
    rw (other, update_tls_volume-append vs old new h)

module _ (old new : TemporalConnectionSpec) (temporal_namespace name build_id : Text) where
  abbrev old_env : List EnvVar
  old_env = controller_env old temporal_namespace name build_id

  abbrev new_env : List EnvVar
  new_env = controller_env new temporal_namespace name build_id

  address_updated :
      (es : List EnvVar)
      → any (λ e. e.name == codes "TEMPORAL_ADDRESS") es ≡ false
      → map (update_address new.host_port) (es ++ old_env) ≡ es ++ new_env
  address_updated es h = addresses_updated new.host_port es old_env new_env h (unfold ◌==◌ in refl)

  plain_updated :
      (c : Container)
      → IsAddressFree c
      → update_container new.host_port (add_env old_env c) ≡ add_env new_env c
  unfolding IsAddressFree
  plain_updated c h = rw (address_updated c.env h)

  tls_updated :
      (c : Container)
      → IsAddressFree c
      → update_container new.host_port (add_tls (add_env old_env c)) ≡ add_tls (add_env new_env c)
  unfolding IsAddressFree ◌==◌
  tls_updated c h = rw (
    map-append (update_address new.host_port) (c.env ++ old_env) tls_env,
    address_updated c.env h,
  )

  key_updated :
      (ref : KeySelector) (c : Container)
      → IsAddressFree c
      → let key = secret_env_var (codes "TEMPORAL_API_KEY") ref ∷ [] in
        update_container new.host_port (add_env key (add_env old_env c))
        ≡ add_env key (add_env new_env c)
  unfolding IsAddressFree ◌==◌
  key_updated ref c h = rw (
    map-append (update_address new.host_port) (c.env ++ old_env)
        (secret_env_var (codes "TEMPORAL_API_KEY") ref ∷ []),
    address_updated c.env h,
  )

  containers_updated :
      (f : Container → Container)
      → ((c : Container)
          → IsAddressFree c
          → update_container new.host_port (f (add_env old_env c)) ≡ f (add_env new_env c))
      → (cs : List Container) → All IsAddressFree cs
      → map (update_container new.host_port) (map f (map (add_env old_env) cs))
        ≡ map f (map (add_env new_env) cs)
  containers_updated f step [] h = refl
  containers_updated f step (c ∷ cs) (free, h) = rw (step c free, containers_updated f step cs h)

  plain_containers_updated :
      (cs : List Container)
      → All IsAddressFree cs
      → map (update_container new.host_port) (map (add_env old_env) cs) ≡ map (add_env new_env) cs
  plain_containers_updated [] h = refl
  plain_containers_updated (c ∷ cs) (free, h) =
      rw (plain_updated c free, plain_containers_updated cs h)

  -- The pods of the old connection, updated to the new one, are the pods of the new one.
  pods_updated :
      (p : PodSpec)
      → All IsAddressFree p.containers
      → All IsTlsFree p.volumes
      → IsSameAuth old.mutual_tls_secret_ref new.mutual_tls_secret_ref old.api_key_secret_ref
          new.api_key_secret_ref
      → let made = apply_controller_pod_spec_modifications p old temporal_namespace name build_id in
        record made {
          containers = map (update_container new.host_port) made.containers;
          volumes = update_volumes new.mutual_tls_secret_ref made.volumes;
        }
        ≡ apply_controller_pod_spec_modifications p new temporal_namespace name build_id
  unfolding apply_controller_pod_spec_modifications add_credentials update_volumes IsSameAuth
  pods_updated p free tls_free auth =
      by_secrets old.mutual_tls_secret_ref new.mutual_tls_secret_ref old.api_key_secret_ref refl
        refl refl auth
    where
      by_secrets :
          (s t : Option Text) (key : Option KeySelector)
          → old.mutual_tls_secret_ref ≡ s
          → new.mutual_tls_secret_ref ≡ t
          → old.api_key_secret_ref ≡ key
          → IsSameAuth s t key new.api_key_secret_ref
          → let made =
              apply_controller_pod_spec_modifications p old temporal_namespace name build_id in
            record made {
              containers = map (update_container new.host_port) made.containers;
              volumes = update_volumes new.mutual_tls_secret_ref made.volumes;
            }
            ≡ apply_controller_pod_spec_modifications p new temporal_namespace name build_id
      by_secrets (some s) (some t) key e e' k h = rw (
        e,
        e',
        containers_updated add_tls tls_updated p.containers free,
        update_tls_volume-append p.volumes s t tls_free,
      )
      by_secrets none none (some ref) e e' k h = rw (
        e,
        e',
        k,
        ← h,
        containers_updated (add_env (secret_env_var (codes "TEMPORAL_API_KEY") ref ∷ []))
            (key_updated ref) p.containers free,
      )
      by_secrets none none none e e' k h =
          rw (e, e', k, ← h, plain_containers_updated p.containers free)
      by_secrets (some s) none key e e' k h = absurd h
      by_secrets none (some t) key e e' k h = absurd h

-- Only the connection's hash changes among the annotations.
annotations_updated :
    (lib : Libraries) (old new : TemporalConnectionSpec) (template : PodTemplateSpec)
    → insert connection_spec_hash_annotation
        (compute_connection_spec_hash lib new)
        (pod_annotations lib old template)
      ≡ pod_annotations lib new template
unfolding pod_annotations ◌==◌
annotations_updated lib old new template =
    insert-insert connection_spec_hash_annotation pod_template_spec_hash_annotation
      (compute_connection_spec_hash lib new) (compute_connection_spec_hash lib old)
      (compute_pod_template_spec_hash lib template) (insert_all [] (entries template.annotations))
      refl

-- A deployment that the controller has made for one connection, updated in place to another
-- connection, is in all its fields the deployment that the controller would make for the other
-- connection. This holds when both connections use mutual TLS, or neither does and both name the
-- same API key, and when the user's pods set no variable `TEMPORAL_ADDRESS` and have no volume
-- `temporal-tls` of their own.
pub reconnect_of_new_deployment :
    (lib : Libraries) (type_meta : TypeMeta) (object_meta : ObjectMeta)
    (spec : TemporalWorkerDeploymentSpec) (name build_id : Text) (old new : TemporalConnectionSpec)
    → All IsAddressFree spec.template.spec.containers
    → All IsTlsFree spec.template.spec.volumes
    → IsSameAuth old.mutual_tls_secret_ref new.mutual_tls_secret_ref old.api_key_secret_ref
        new.api_key_secret_ref
    → update_deployment_with_connection lib
        (new_deployment_with_owner_ref lib type_meta object_meta spec name build_id old)
        new
      ≡ ok (new_deployment_with_owner_ref lib type_meta object_meta spec name build_id new)
unfolding new_deployment_with_owner_ref update_deployment_with_connection
reconnect_of_new_deployment lib type_meta object_meta spec name build_id old new free tls_free
      auth =
    rw (
      annotations_updated lib old new spec.template,
      pods_updated old new spec.worker_options.temporal_namespace name build_id spec.template.spec
          free tls_free auth,
    )
