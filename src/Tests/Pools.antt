-- ===== src/Tests/Pools.antt =====
-- The pool of clients, with a connection of each mode.
use temporal_worker_controll.Base.{
  ℕ, ℤ, pos, ◌-ℤ◌, codes, ◌==◌, lookup, Option, none, some, [], ◌∷◌, true, ok, ◌≡◌, refl,
}
use temporal_worker_controll.Api.Types.{TemporalConnectionSpec}
use temporal_worker_controll.Pool.Keys.{AuthMode, ClientPoolKey, key_eq, find_key, insert_key}
use temporal_worker_controll.Pool.{
  ClientPool, NewClientOptions, SecretType, Secret, Outside, new,
  calculate_certificate_expiration_time, is_certificate_expired, is_stale, get_sdk_client,
  checked_expiry, fetch_client_using_mtls_secret, fetch_secret_by_name, upsert_with, upsert_client,
}
use temporal_worker_controll.Pool.Reachable.{upserts, start, next, get_sdk_client_total}
use temporal_worker_controll.Controller.Reconcile.{
  get_tls_secret_name, resolve_auth_secret_name, found_or_new, acquire_client,
}
use temporal_worker_controll.Controller.Reconcile.Clients.{acquire_client_found}
use temporal_worker_controll.Tests.Data.{sample_worker, sample_connection}

abbrev certificate_secret : Secret
certificate_secret = record {
  kind = SecretType.tls;
  contents = (codes "tls.crt", codes "crt") ∷ (codes "tls.key", codes "key") ∷ [];
}

-- A certificate that is valid until 900000000000, which the pool stops using five minutes earlier.
abbrev pub outside_at : ℤ → Outside
outside_at now = record {
  now = now;
  get_secret = λ name. some certificate_secret;
  decode_pem = λ bytes. some bytes;
  parse_certificate = λ block. some (pos 900000000000);
  key_pair = λ crt key. some crt;
  dial = λ options. some 4;
  is_healthy = λ c. true;
}

abbrev tls_connection : TemporalConnectionSpec
tls_connection = record sample_connection { mutual_tls_secret_ref = some (codes "certs") }

abbrev tls_options : NewClientOptions
tls_options = record {
  temporal_namespace = codes "default";
  k8s_namespace = codes "ns";
  spec = tls_connection;
}

abbrev tls_key : ClientPoolKey
tls_key = record {
  host_port = codes "host:7233";
  namespace = codes "default";
  secret_name = codes "certs";
  auth_mode = AuthMode.tls;
}

adds_client :
    (clients : ClientPool) × (upsert_client
        (outside_at (pos 5))
        tls_options
        (codes "certs")
        AuthMode.tls
        new
      ≡ ok (4, clients))
unfolding upsert_client upsert_with fetch_secret_by_name fetch_client_using_mtls_secret
    checked_expiry calculate_certificate_expiration_time is_certificate_expired ◌-ℤ◌ lookup
    insert_key ◌==◌
adds_client = (_, refl)

-- The certificate serves until five minutes before its end, and then no more.
serves_then_not :
    (get_sdk_client (pos 600000000000) tls_key adds_client.0 ≡ ok (some 4))
    × (get_sdk_client (pos 600000000001) tls_key adds_client.0 ≡ ok none)
unfolding get_sdk_client find_key key_eq is_stale is_certificate_expired ◌-ℤ◌ ◌==◌ adds_client
serves_then_not = (refl, refl)

get_sdk_client_total_example :
    (c : Option ℕ) × (get_sdk_client (pos 7) tls_key adds_client.0 ≡ ok c)
get_sdk_client_total_example =
    get_sdk_client_total
      (next start
        (upserts (outside_at (pos 5)) tls_options (codes "certs") AuthMode.tls 4 adds_client.1))
      (pos 7) tls_key

acquires :
    (clients : ClientPool) × (acquire_client
        (outside_at (pos 5))
        sample_worker
        tls_connection
        (resolve_auth_secret_name tls_connection)
        new
      ≡ (ok 4, clients))
unfolding acquire_client found_or_new resolve_auth_secret_name get_tls_secret_name get_sdk_client
    find_key upsert_client upsert_with fetch_secret_by_name fetch_client_using_mtls_secret
    checked_expiry calculate_certificate_expiration_time is_certificate_expired ◌-ℤ◌ lookup
    insert_key ◌==◌
acquires = (_, refl)

resolves : resolve_auth_secret_name tls_connection ≡ ok (AuthMode.tls, codes "certs")
unfolding resolve_auth_secret_name get_tls_secret_name
resolves = refl

acquire_client_found_example : get_sdk_client (pos 5) tls_key acquires.0 ≡ ok (some 4)
acquire_client_found_example =
    acquire_client_found (outside_at (pos 5)) sample_worker tls_connection new resolves acquires.1
