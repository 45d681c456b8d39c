-- ===== src/Pool/Reachable.antt =====
-- The pools that the operations lead to, from the empty one.
use mathlib.Core.Path.{subst}
use temporal_worker_controll.Base.{
  ℕ, ℤ, Text, Option, none, some, Bool, false, if◌then◌else◌, ok, deref, bind-eq-ok, deref-eq-ok,
  some-eq-some, ◌≡◌, refl, sym, inl, inr, Bool-cases, Option-cases,
}
use temporal_worker_controll.Pool.Keys.{
  AuthMode, ClientPoolKey, key_eq, find_key, insert_key, key_eq_iff, find_key-insert_key,
}
use temporal_worker_controll.Pool.{
  MtlsAuth, ClientInfo, ClientPool, NewClientOptions, Outside, new, is_certificate_expired,
  is_stale, get_sdk_client, key_with, upsert_client, close,
}
use temporal_worker_controll.Pool.Entries.{secret_of, Inserts, upsert_client-Inserts}

-- One operation that writes: a client is added, or the pool is closed. What is outside may differ from
-- one operation to the next. An operation that fails writes nothing, and a lookup never writes.
pub data Step (clients clients' : ClientPool) : Type 0 where
  upserts :
      (outside : Outside) (opts : NewClientOptions) (name : Text) (mode : AuthMode) (c : ℕ)
      → upsert_client outside opts name mode clients ≡ ok (c, clients')
      → Step clients clients'
  closes : clients' ≡ (close clients).1 → Step clients clients'

pub data Reachable : ClientPool → Type 0 where
  start : Reachable new
  next :
      {clients clients' : ClientPool}
      → Reachable clients
      → Step clients clients'
      → Reachable clients'

-- An entry is of its key's mode, and has a certificate's time if that mode is mutual TLS.
abbrev IsSound : ClientPoolKey → ClientInfo → Type 0
IsSound key info =
    (info.auth.mode ≡ key.auth_mode)
    × (key.auth_mode ≡ AuthMode.tls → (m : MtlsAuth) × (info.auth.mtls ≡ some m))

abbrev AllSound : ClientPool → Type 0
AllSound clients =
    (key : ClientPoolKey) (info : ClientInfo) → find_key key clients ≡ some info → IsSound key info

fresh_mtls :
    (now : ℤ) (mode : AuthMode) (info : ClientInfo)
    → is_stale now mode info ≡ ok false
    → mode ≡ AuthMode.tls
    → (m : MtlsAuth) × (info.auth.mtls ≡ some m)
unfolding is_stale
fresh_mtls now AuthMode.tls info h e =
    let (m, p, q) = bind-eq-ok (deref info.auth.mtls) _ h in (m, deref-eq-ok info.auth.mtls p)
fresh_mtls now AuthMode.api_key info h e = absurd (cc)
fresh_mtls now AuthMode.no_credentials info h e = absurd (cc)
fresh_mtls now (AuthMode.other mode) info h e = absurd (cc)

Inserts-AllSound :
    (outside : Outside) (opts : NewClientOptions) (mode : AuthMode) (clients : ClientPool) (c : ℕ)
    (clients' : ClientPool)
    → Inserts outside opts mode clients c clients'
    → AllSound clients
    → AllSound clients'
Inserts-AllSound outside opts mode clients c clients' ins all key info h =
    let k = key_with outside opts (secret_of mode opts.spec) mode in
    let h' : find_key key (insert_key k ins.info clients) ≡ some info =
      subst (λ x. find_key key x ≡ some info) ins.made h in
    elim (Bool-cases (key_eq key k)) [
      | inl same ↦
          let e = some-eq-some (rw (find_key-insert_key k key ins.info clients, same) at h') in
          subst (λ x. IsSound x info) (sym ((key_eq_iff key k).0 same))
            (subst (IsSound k) e
              (ins.owned, λ tls. fresh_mtls outside.now mode ins.info ins.fresh tls))
      | inr other ↦ all key info (rw (find_key-insert_key k key ins.info clients, other) at h')
    ]

Reachable-AllSound : {clients : ClientPool} → Reachable clients → AllSound clients
unfolding find_key close
Reachable-AllSound start = λ key info h. absurd (cc)
Reachable-AllSound (next {clients} {clients'} r (upserts outside opts name mode c h)) =
    Inserts-AllSound outside opts mode clients c clients'
      (upsert_client-Inserts outside opts name mode clients h) (Reachable-AllSound r)
Reachable-AllSound (next r (closes e)) =
    λ key info h. absurd (cc (subst (λ x. find_key key x ≡ some info) e h))

is_stale_total :
    (now : ℤ) (mode : AuthMode) (info : ClientInfo)
    → (mode ≡ AuthMode.tls → (m : MtlsAuth) × (info.auth.mtls ≡ some m))
    → (stale : Bool) × (is_stale now mode info ≡ ok stale)
unfolding is_stale
is_stale_total now AuthMode.tls info h =
    let (m, e) = h refl in (is_certificate_expired now m.expiry_time, rw e)
is_stale_total now AuthMode.api_key info h = (false, refl)
is_stale_total now AuthMode.no_credentials info h = (false, refl)
is_stale_total now (AuthMode.other mode) info h = (false, refl)

-- In every pool that the operations lead to, looking up a client returns, with a client or with none,
-- for every key and at every time: the certificate that it reads for a key of mode TLS is never nil.
pub get_sdk_client_total :
    {clients : ClientPool}
    → Reachable clients
    → (now : ℤ) (key : ClientPoolKey) → (c : Option ℕ) × (get_sdk_client now key clients ≡ ok c)
unfolding get_sdk_client
get_sdk_client_total {clients} r now key = elim (Option-cases (find_key key clients)) [
  | inl missing ↦ (none, rw (get_sdk_client, missing))
  | inr (info, here) ↦
      let (stale, e) =
        is_stale_total now key.auth_mode info (Reachable-AllSound r key info here).1 in
      ((if stale then none else some info.client), rw (get_sdk_client, here, e))
]
