-- ===== src/Pool.antt =====
-- internal/controller/clientpool/clientpool.go: the SDK clients of the connections. The lock is left
-- out: an operation is one step on the map. A client is a handle; what the cluster, the clock, the
-- cryptographic libraries and the SDK answer during one operation is the parameter `Outside`.
pub mod Keys
pub mod Entries
pub mod Reachable
use temporal_worker_controll.Base.{
  ℕ, ℤ, pos, negsuc, ltb_ℤ, ◌-ℤ◌, Text, codes, ◌==◌, is_empty, StringMap, lookup, Option, none,
  some, List, [], ◌∷◌, map, Bool, true, false, not, ◌&&◌, if◌then◌else◌, Outcome, Error, ok, err,
  or_fail, panic, ◌>>=◌, deref,
}
use temporal_worker_controll.Api.Cluster.{KeySelector}
use temporal_worker_controll.Api.Types.{TemporalConnectionSpec}
use Keys.{AuthMode, ClientPoolKey, KeyMap, find_key, insert_key}

pub record MtlsAuth : Type 0 where
  pub tls_config : Text
  pub expiry_time : ℤ

pub record ClientAuth : Type 0 where
  pub mode : AuthMode
  pub mtls : Option MtlsAuth

pub record ClientInfo : Type 0 where
  pub client : ℕ
  pub auth : ClientAuth

-- The field `clients`.
abbrev pub ClientPool : Type 0
ClientPool = KeyMap ClientInfo

pub record NewClientOptions : Type 0 where
  pub temporal_namespace : Text
  pub k8s_namespace : Text
  pub spec : TemporalConnectionSpec

pub data SecretType : Type 0 where
  tls opaque other : SecretType

pub record Secret : Type 0 where
  pub kind : SecretType
  pub contents : StringMap Text

-- What a client is dialled with, besides the logger.
pub data Credentials : Type 0 where
  certificate : Text → Credentials
  api_key : Text → Credentials
  plain : Credentials

pub record ClientOptions : Type 0 where
  pub host_port : Text
  pub namespace : Text
  pub credentials : Credentials

-- `parse_certificate` gives the time after which the certificate is not valid.
pub record Outside : Type 0 where
  pub now : ℤ
  pub get_secret : Text → Option Secret
  pub decode_pem : Text → Option Text
  pub parse_certificate : Text → Option ℤ
  pub key_pair : Text → Text → Option Text
  pub dial : ClientOptions → Option ℕ
  pub is_healthy : ℕ → Bool

-- `New`
abbrev pub new : ClientPool
new = []

-- `secret.Data[key]`
abbrev pub secret_value : Text → Secret → Text
secret_value key secret = elim (lookup key secret.contents) [ none ↦ [] | some v ↦ v ]

-- What the closure of the credentials reads; it is not kept when there is no reference.
abbrev pub api_key_value : Option KeySelector → Secret → Text
api_key_value none secret = []
api_key_value (some ref) secret = secret_value ref.key secret

-- `isCertificateExpired`, which never returns an error.
unfoldable pub is_certificate_expired : ℤ → ℤ → Bool
is_certificate_expired now expiry_time = ltb_ℤ expiry_time now

-- Five minutes, in nanoseconds.
abbrev pub expiry_buffer : ℤ
expiry_buffer = pos 300000000000

-- `calculateCertificateExpirationTime`
unfoldable pub calculate_certificate_expiration_time : Outside → Text → ℤ → Outcome ℤ
calculate_certificate_expiration_time outside bytes buffer =
    if is_empty bytes then err (Error.external (codes "no certificate bytes provided")) else (do
      block ← or_fail (outside.decode_pem bytes) (codes "failed to decode PEM block")
      not_after ← or_fail (outside.parse_certificate block) (codes "failed to parse certificate")
      ok (not_after -ℤ buffer))

-- The test of an entry's certificate in `GetSDKClient`.
unfoldable pub is_stale : ℤ → AuthMode → ClientInfo → Outcome Bool
is_stale now AuthMode.tls info = do
  mtls ← deref info.auth.mtls
  ok (is_certificate_expired now mtls.expiry_time)
is_stale now AuthMode.api_key info = ok false
is_stale now AuthMode.no_credentials info = ok false
is_stale now (AuthMode.other mode) info = ok false

-- `GetSDKClient`
unfoldable pub get_sdk_client : ℤ → ClientPoolKey → ClientPool → Outcome (Option ℕ)
get_sdk_client now key clients = elim (find_key key clients) [
  | none ↦ ok none
  | some info ↦
      is_stale now key.auth_mode info >>= λ stale. ok (if stale then none else some info.client)
]

-- The certificate's time, if the certificate serves.
unfoldable pub checked_expiry : Outside → Text → Outcome ℤ
checked_expiry outside bytes = do
  expiry ← calculate_certificate_expiration_time outside bytes expiry_buffer
  if is_certificate_expired outside.now expiry
      then err (Error.external (codes "certificate is expired or is going to expire soon"))
      else ok expiry

-- A failed health check panics.
abbrev pub healthy_or_panic : Bool → Outcome (Unit {0})
healthy_or_panic true = ok tt
healthy_or_panic false = panic

module _ (outside : Outside) (opts : NewClientOptions) where
  abbrev pub key_with : Text → AuthMode → ClientPoolKey
  key_with name mode = record {
    host_port = opts.spec.host_port;
    namespace = opts.temporal_namespace;
    secret_name = name;
    auth_mode = mode;
  }

  abbrev pub dial_with : Credentials → Outcome ℕ
  dial_with credentials =
      or_fail
        (outside.dial (record {
          host_port = opts.spec.host_port;
          namespace = opts.temporal_namespace;
          credentials = credentials;
        }))
        (codes "unable to dial")

  -- `fetchClientUsingMTLSSecret`
  unfoldable pub fetch_client_using_mtls_secret : Secret → ClientPool → Outcome (ℕ × ClientPool)
  fetch_client_using_mtls_secret secret clients = do
    expiry ← checked_expiry outside (secret_value (codes "tls.crt") secret)
    cert ←
        or_fail
          (outside.key_pair (secret_value (codes "tls.crt") secret)
            (secret_value (codes "tls.key") secret))
          (codes "unable to read the key pair")
    c ← dial_with (Credentials.certificate cert)
    healthy ← healthy_or_panic (outside.is_healthy c)
    name ← deref opts.spec.mutual_tls_secret_ref
    ok (
      c,
      insert_key (key_with name AuthMode.tls)
          (record {
            client = c;
            auth = record {
              mode = AuthMode.tls;
              mtls = some (record { tls_config = cert; expiry_time = expiry });
            };
          })
          clients,
    )

  -- `fetchClientUsingAPIKeySecret`. The credentials read the secret that was fetched.
  unfoldable pub fetch_client_using_api_key_secret : Secret → ClientPool → Outcome (ℕ × ClientPool)
  fetch_client_using_api_key_secret secret clients = do
    c ← dial_with (Credentials.api_key (api_key_value opts.spec.api_key_secret_ref secret))
    ref ← deref opts.spec.api_key_secret_ref
    ok (
      c,
      insert_key (key_with ref.name AuthMode.api_key)
          (record { client = c; auth = record { mode = AuthMode.api_key; mtls = none } }) clients,
    )

  -- `fetchClientUsingNoCredentials`
  unfoldable pub fetch_client_using_no_credentials : ClientPool → Outcome (ℕ × ClientPool)
  fetch_client_using_no_credentials clients = do
    c ← dial_with Credentials.plain
    ok (
      c,
      insert_key (key_with [] AuthMode.no_credentials)
          (record { client = c; auth = record { mode = AuthMode.no_credentials; mtls = none } })
          clients,
    )

  abbrev pub no_secret : Secret
  no_secret = record { kind = SecretType.other; contents = [] }

  -- The secret, if it has a name; otherwise the zero value.
  unfoldable pub fetch_secret_by_name : Text → Outcome Secret
  fetch_secret_by_name name =
      if is_empty name
      then ok no_secret
      else or_fail (outside.get_secret name) (codes "unable to get the secret")

  -- The `switch` on the mode.
  unfoldable pub upsert_with : AuthMode → Secret → ClientPool → Outcome (ℕ × ClientPool)
  upsert_with AuthMode.tls secret clients = elim secret.kind [
    | SecretType.tls ↦ fetch_client_using_mtls_secret secret clients
    | SecretType.opaque ↦ err (Error.external (codes "secret must be of type kubernetes.io/tls"))
    | SecretType.other ↦ err (Error.external (codes "secret must be of type kubernetes.io/tls"))
  ]
  upsert_with AuthMode.api_key secret clients = elim secret.kind [
    | SecretType.opaque ↦ fetch_client_using_api_key_secret secret clients
    | SecretType.tls ↦ err (Error.external (codes "secret must be of type kubernetes.io/opaque"))
    | SecretType.other ↦ err (Error.external (codes "secret must be of type kubernetes.io/opaque"))
  ]
  upsert_with AuthMode.no_credentials secret clients = fetch_client_using_no_credentials clients
  upsert_with (AuthMode.other mode) secret clients =
      err (Error.external (codes "invalid auth mode"))

  -- `UpsertClient`: the client and the pool that then holds it. An operation that fails has not
  -- written to the pool.
  unfoldable pub upsert_client : Text → AuthMode → ClientPool → Outcome (ℕ × ClientPool)
  upsert_client name mode clients = do
    secret ← fetch_secret_by_name name
    upsert_with mode secret clients

-- `Close`: the clients that it closes, and the empty pool.
unfoldable pub close : ClientPool → List ℕ × ClientPool
close clients = (map (λ entry. entry.1.client) clients, new)
