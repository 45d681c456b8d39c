-- ===== src/Controller/Reconcile/Clients.antt =====
-- The client that a round of `Reconcile` works with, and the pool that the round leaves.
use mathlib.Core.Path.{subst}
use temporal_worker_controll.Base.{
  ℕ, Text, Option, none, some, Outcome, ok, err, panic, ok-injective, ◌≡◌, refl, ap, ◌∙◌, inl, inr,
  Option-cases,
}
use temporal_worker_controll.Api.Types.{TemporalConnectionSpec, TemporalWorkerDeployment}
use temporal_worker_controll.Pool.Keys.{AuthMode, find_key, find_key-insert_key_self}
use temporal_worker_controll.Pool.{
  ClientPool, NewClientOptions, Outside, get_sdk_client, key_with, upsert_client,
}
use temporal_worker_controll.Pool.Entries.{secret_of, Inserts, upsert_client-Inserts}
use temporal_worker_controll.Controller.Reconcile.{
  get_tls_secret_name, get_api_key_secret_name, resolve_auth_secret_name, client_key,
  client_options, found_or_new, acquire_client,
}

-- The mode and the name that `resolveAuthSecretName` gives belong together.
resolve_auth_secret_name_lem :
    (spec : TemporalConnectionSpec) {mode : AuthMode} {name : Text}
    → resolve_auth_secret_name spec ≡ ok (mode, name)
    → secret_of mode spec ≡ name
unfolding resolve_auth_secret_name get_tls_secret_name get_api_key_secret_name
resolve_auth_secret_name_lem spec {mode} {name} h = elim (Option-cases spec.mutual_tls_secret_ref) [
  | inl no_tls ↦ elim (Option-cases spec.api_key_secret_ref) [
    | inl no_key ↦ from_pair AuthMode.no_credentials _ (rw (no_tls, no_key) at h) refl
    | inr (ref, key) ↦ from_pair AuthMode.api_key _ (rw (no_tls, key) at h) (rw key)
  ]
  | inr (n, tls) ↦ from_pair AuthMode.tls _ (rw tls at h) (rw tls)
]
  where
    from_pair :
        (m : AuthMode) (n : Text)
        → ◌≡◌ {A = Outcome (AuthMode × Text)} (ok (m, n)) (ok (mode, name))
        → secret_of m spec ≡ n
        → secret_of mode spec ≡ name
    from_pair m n e same =
        subst (λ (p : AuthMode × Text). secret_of p.0 spec ≡ p.1) (ok-injective e) same

-- An entry that has just been put in is found.
Inserts-get_sdk_client :
    (outside : Outside) (opts : NewClientOptions) (mode : AuthMode) (clients : ClientPool) (c : ℕ)
    (clients' : ClientPool)
    → Inserts outside opts mode clients c clients'
    → get_sdk_client outside.now (key_with outside opts (secret_of mode opts.spec) mode) clients'
      ≡ ok (some c)
unfolding get_sdk_client
Inserts-get_sdk_client outside opts mode clients c clients' ins =
    let key = key_with outside opts (secret_of mode opts.spec) mode in
    let here : find_key key clients' ≡ some ins.info =
      ap (find_key key) ins.made ∙ find_key-insert_key_self key ins.info clients in
    rw (get_sdk_client, here, ins.fresh, ins.serves)

module _ (outside : Outside) (w : TemporalWorkerDeployment)
    (connection : TemporalConnectionSpec) where
  found_or_new_found :
      (auth : AuthMode × Text) (clients : ClientPool) {c : ℕ} {clients' : ClientPool}
      (found : Outcome (Option ℕ)) (upserted : Outcome (ℕ × ClientPool))
      → let key = client_key connection w.spec.worker_options.temporal_namespace auth in
        secret_of auth.0 connection ≡ auth.1
        → get_sdk_client outside.now key clients ≡ found
        → upsert_client outside (client_options w connection) auth.1 auth.0 clients ≡ upserted
        → found_or_new found upserted clients ≡ (ok c, clients')
        → get_sdk_client outside.now key clients' ≡ ok (some c)
  unfolding found_or_new
  found_or_new_found auth clients {c} {clients'} (ok (some x)) upserted named e u h =
      let kept : clients ≡ clients' = ap (λ (left : Outcome ℕ × ClientPool). left.1) h in
      let same : x ≡ c = ok-injective (ap (λ (left : Outcome ℕ × ClientPool). left.0) h) in
      subst
        (λ (p : ClientPool).
          get_sdk_client outside.now
            (client_key connection w.spec.worker_options.temporal_namespace auth) p
          ≡ ok (some c))
        kept (e ∙ ap (λ (y : ℕ). ok (some y)) same)
  found_or_new_found auth clients {c} {clients'} (ok none) (ok (x, added)) named e u h =
      let kept : added ≡ clients' = ap (λ (left : Outcome ℕ × ClientPool). left.1) h in
      let same : x ≡ c = ok-injective (ap (λ (left : Outcome ℕ × ClientPool). left.0) h) in
      let opts = client_options w connection in
      let put =
        Inserts-get_sdk_client outside opts auth.0 clients x added
          (upsert_client-Inserts outside opts auth.1 auth.0 clients u) in
      subst
        (λ (p : ClientPool).
          get_sdk_client outside.now
            (client_key connection w.spec.worker_options.temporal_namespace auth) p
          ≡ ok (some c))
        kept
        (subst
          (λ (name : Text).
            get_sdk_client outside.now
              (client_key connection w.spec.worker_options.temporal_namespace (auth.0, name)) added
            ≡ ok (some c))
          named (put ∙ ap (λ (y : ℕ). ok (some y)) same))
  found_or_new_found auth clients (ok none) (err x) named e u h = absurd (cc)
  found_or_new_found auth clients (ok none) panic named e u h = absurd (cc)
  found_or_new_found auth clients (err x) upserted named e u h = absurd (cc)
  found_or_new_found auth clients panic upserted named e u h = absurd (cc)

  -- The client that a round gets is the one that a lookup of the round's key gives in the pool that
  -- the round leaves, at the same time: whether it was there or has been made anew, it is kept under
  -- the key that the next round with this connection asks for, and is not stale.
  pub acquire_client_found :
      (clients : ClientPool) {auth : AuthMode × Text} {c : ℕ} {clients' : ClientPool}
      → resolve_auth_secret_name connection ≡ ok auth
      → acquire_client outside w connection (resolve_auth_secret_name connection) clients
        ≡ (ok c, clients')
      → get_sdk_client outside.now
          (client_key connection w.spec.worker_options.temporal_namespace auth)
          clients'
        ≡ ok (some c)
  unfolding acquire_client
  acquire_client_found clients {auth} resolved h =
      found_or_new_found auth clients _ _ (resolve_auth_secret_name_lem connection resolved) refl
        refl (rw (acquire_client, resolved) at h)
