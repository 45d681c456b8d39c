-- ===== src/Pool/Entries.antt =====
-- What an operation that succeeds puts into the pool.
use mathlib.Core.Path.{subst}
use temporal_worker_controll.Base.{
  ℕ, ℤ, Text, codes, Option, none, some, [], Bool, false, ok, or_fail, deref, bind-eq-ok,
  deref-eq-ok, ok-injective, ◌≡◌, refl, sym, ap, inl, inr, Bool-cases,
}
use temporal_worker_controll.Api.Cluster.{KeySelector}
use temporal_worker_controll.Api.Types.{TemporalConnectionSpec}
use temporal_worker_controll.Pool.Keys.{AuthMode, insert_key}
use temporal_worker_controll.Pool.{
  ClientInfo, ClientPool, NewClientOptions, SecretType, Secret, Outside, Credentials, secret_value,
  api_key_value, dial_with, expiry_buffer, calculate_certificate_expiration_time,
  is_certificate_expired, is_stale, checked_expiry, healthy_or_panic, key_with,
  fetch_client_using_mtls_secret, fetch_client_using_api_key_secret,
  fetch_client_using_no_credentials, fetch_secret_by_name, upsert_with, upsert_client,
}

-- The name of the secret that a connection has for a mode.
abbrev pub secret_of : AuthMode → TemporalConnectionSpec → Text
secret_of AuthMode.tls spec = elim spec.mutual_tls_secret_ref [ none ↦ [] | some name ↦ name ]
secret_of AuthMode.api_key spec = elim spec.api_key_secret_ref [ none ↦ [] | some ref ↦ ref.name ]
secret_of AuthMode.no_credentials spec = []
secret_of (AuthMode.other mode) spec = []

-- The pool has got one entry more, or one entry anew.
pub record Inserts (outside : Outside) (opts : NewClientOptions) (mode : AuthMode)
    (clients : ClientPool) (c : ℕ) (clients' : ClientPool) : Type 0 where
  pub info : ClientInfo
  pub made :
      clients' ≡ insert_key (key_with outside opts (secret_of mode opts.spec) mode) info clients
  pub serves : info.client ≡ c
  pub owned : info.auth.mode ≡ mode
  pub fresh : is_stale outside.now mode info ≡ ok false

module _ (outside : Outside) (opts : NewClientOptions) where
  checked_expiry_lem :
      (bytes : Text) {expiry : ℤ}
      → checked_expiry outside bytes ≡ ok expiry
      → is_certificate_expired outside.now expiry ≡ false
  unfolding checked_expiry
  checked_expiry_lem bytes {expiry} h =
      let (t, p, q) =
        bind-eq-ok (calculate_certificate_expiration_time outside bytes expiry_buffer) _ h in
      elim (Bool-cases (is_certificate_expired outside.now t)) [
        | inl late ↦ absurd (cc (rw late at q))
        | inr early ↦
            subst (λ x. is_certificate_expired outside.now x ≡ false) (ok-injective (rw early at q))
              early
      ]

  mtls-Inserts :
      (secret : Secret) (clients : ClientPool) {c : ℕ} {clients' : ClientPool}
      → fetch_client_using_mtls_secret outside opts secret clients ≡ ok (c, clients')
      → Inserts outside opts AuthMode.tls clients c clients'
  unfolding fetch_client_using_mtls_secret is_stale
  mtls-Inserts secret clients {c} {clients'} h =
      let (expiry, p, q) =
        bind-eq-ok (checked_expiry outside (secret_value (codes "tls.crt") secret)) _ h in
      let (cert, p', q') =
        bind-eq-ok
          (or_fail
            (outside.key_pair (secret_value (codes "tls.crt") secret)
              (secret_value (codes "tls.key") secret))
            (codes "unable to read the key pair"))
          _ q in
      let (d, p'', q'') = bind-eq-ok (dial_with outside opts (Credentials.certificate cert)) _ q' in
      let (u, healthy, r) = bind-eq-ok (healthy_or_panic (outside.is_healthy d)) _ q'' in
      let (name, named, r') = bind-eq-ok (deref opts.spec.mutual_tls_secret_ref) _ r in
      let entry : ClientInfo = record {
        client = d;
        auth = record {
          mode = AuthMode.tls;
          mtls = some (record { tls_config = cert; expiry_time = expiry });
        };
      } in
      subst (λ out. Inserts outside opts AuthMode.tls clients out.0 out.1) (ok-injective r')
        (record {
          info = entry;
          made =
              ap (λ (n : Text). insert_key (key_with outside opts n AuthMode.tls) entry clients)
                (ap (λ (ref : Option Text). elim ref as (λ _. Text) [ none ↦ [] | some n ↦ n ])
                  (sym (deref-eq-ok opts.spec.mutual_tls_secret_ref named)));
          serves = refl;
          owned = refl;
          fresh =
              ap (λ (b : Bool). ok b)
                (checked_expiry_lem (secret_value (codes "tls.crt") secret) p);
        })

  api_key-Inserts :
      (secret : Secret) (clients : ClientPool) {c : ℕ} {clients' : ClientPool}
      → fetch_client_using_api_key_secret outside opts secret clients ≡ ok (c, clients')
      → Inserts outside opts AuthMode.api_key clients c clients'
  unfolding fetch_client_using_api_key_secret is_stale
  api_key-Inserts secret clients {c} {clients'} h =
      let (d, p, q) =
        bind-eq-ok
          (dial_with outside opts
            (Credentials.api_key (api_key_value opts.spec.api_key_secret_ref secret)))
          _ h in
      let (ref, named, r) = bind-eq-ok (deref opts.spec.api_key_secret_ref) _ q in
      let entry : ClientInfo = record {
        client = d;
        auth = record { mode = AuthMode.api_key; mtls = none };
      } in
      subst (λ out. Inserts outside opts AuthMode.api_key clients out.0 out.1) (ok-injective r)
        (record {
          info = entry;
          made =
              ap (λ (n : Text). insert_key (key_with outside opts n AuthMode.api_key) entry clients)
                (ap
                  (λ (o : Option KeySelector). elim o as (λ _. Text) [
                    | none ↦ []
                    | some k ↦ k.name
                  ])
                  (sym (deref-eq-ok opts.spec.api_key_secret_ref named)));
          serves = refl;
          owned = refl;
          fresh = refl;
        })

  plain-Inserts :
      (clients : ClientPool) {c : ℕ} {clients' : ClientPool}
      → fetch_client_using_no_credentials outside opts clients ≡ ok (c, clients')
      → Inserts outside opts AuthMode.no_credentials clients c clients'
  unfolding fetch_client_using_no_credentials is_stale
  plain-Inserts clients {c} {clients'} h =
      let (d, p, q) = bind-eq-ok (dial_with outside opts Credentials.plain) _ h in
      let entry : ClientInfo = record {
        client = d;
        auth = record { mode = AuthMode.no_credentials; mtls = none };
      } in
      subst (λ out. Inserts outside opts AuthMode.no_credentials clients out.0 out.1)
        (ok-injective q)
        (record { info = entry; made = refl; serves = refl; owned = refl; fresh = refl })

  upsert_with-Inserts :
      (mode : AuthMode) (secret : Secret) (kind : SecretType) (clients : ClientPool) {c : ℕ}
      {clients' : ClientPool}
      → secret.kind ≡ kind
      → upsert_with outside opts mode secret clients ≡ ok (c, clients')
      → Inserts outside opts mode clients c clients'
  unfolding upsert_with
  upsert_with-Inserts AuthMode.tls secret SecretType.tls clients e h =
      mtls-Inserts secret clients (rw (upsert_with, e) at h)
  upsert_with-Inserts AuthMode.tls secret SecretType.opaque clients e h =
      absurd (cc (rw (upsert_with, e) at h))
  upsert_with-Inserts AuthMode.tls secret SecretType.other clients e h =
      absurd (cc (rw (upsert_with, e) at h))
  upsert_with-Inserts AuthMode.api_key secret SecretType.opaque clients e h =
      api_key-Inserts secret clients (rw (upsert_with, e) at h)
  upsert_with-Inserts AuthMode.api_key secret SecretType.tls clients e h =
      absurd (cc (rw (upsert_with, e) at h))
  upsert_with-Inserts AuthMode.api_key secret SecretType.other clients e h =
      absurd (cc (rw (upsert_with, e) at h))
  upsert_with-Inserts AuthMode.no_credentials secret kind clients e h = plain-Inserts clients h
  upsert_with-Inserts (AuthMode.other mode) secret kind clients e h = absurd (cc)

  pub upsert_client-Inserts :
      (name : Text) (mode : AuthMode) (clients : ClientPool) {c : ℕ} {clients' : ClientPool}
      → upsert_client outside opts name mode clients ≡ ok (c, clients')
      → Inserts outside opts mode clients c clients'
  unfolding upsert_client
  upsert_client-Inserts name mode clients h =
      let (secret, p, q) = bind-eq-ok (fetch_secret_by_name outside opts name) _ h in
      upsert_with-Inserts mode secret secret.kind clients refl q
