-- ===== src/Pool/Keys.antt =====
-- `AuthMode`, `ClientPoolKey`, and the map that the keys index.
use temporal_worker_controll.Base.{
  Text, ◌==◌, text_eq_iff, Option, none, some, List, [], ◌∷◌, Bool, true, false, ◌&&◌,
  if◌then◌else◌, ◌≡◌, ◌↔◌, refl, arith,
}

-- `other` is a mode that the code does not name.
pub data AuthMode : Type 0 where
  tls api_key no_credentials : AuthMode
  other : Text → AuthMode

pub record ClientPoolKey : Type 0 where
  pub host_port : Text
  pub namespace : Text
  pub secret_name : Text
  pub auth_mode : AuthMode

abbrev pub mode_eq : AuthMode → AuthMode → Bool
mode_eq AuthMode.tls AuthMode.tls = true
mode_eq AuthMode.api_key AuthMode.api_key = true
mode_eq AuthMode.no_credentials AuthMode.no_credentials = true
mode_eq (AuthMode.other s) (AuthMode.other t) = s == t
mode_eq m n = false

unfoldable pub key_eq : ClientPoolKey → ClientPoolKey → Bool
key_eq k j =
    k.host_port == j.host_port
    && k.namespace == j.namespace
    && k.secret_name == j.secret_name
    && mode_eq k.auth_mode j.auth_mode

abbrev pub KeyMap : Type 0 → Type 0
KeyMap V = List (ClientPoolKey × V)

module _ {V : Type 0} where
  unfoldable pub find_key : ClientPoolKey → KeyMap V → Option V
  find_key k [] = none
  find_key k ((j, v) ∷ m) = if key_eq k j then some v else find_key k m

  unfoldable pub insert_key : ClientPoolKey → V → KeyMap V → KeyMap V
  insert_key k v [] = (k, v) ∷ []
  insert_key k v ((j, w) ∷ m) = if key_eq k j then (j, v) ∷ m else (j, w) ∷ insert_key k v m

mode_eq_iff : (m n : AuthMode) → (mode_eq m n ≡ true) ↔ (m ≡ n)
mode_eq_iff AuthMode.tls AuthMode.tls = ground arith
mode_eq_iff AuthMode.tls AuthMode.api_key = ground arith
mode_eq_iff AuthMode.tls AuthMode.no_credentials = ground arith
mode_eq_iff AuthMode.tls (AuthMode.other t) = ground arith
mode_eq_iff AuthMode.api_key AuthMode.tls = ground arith
mode_eq_iff AuthMode.api_key AuthMode.api_key = ground arith
mode_eq_iff AuthMode.api_key AuthMode.no_credentials = ground arith
mode_eq_iff AuthMode.api_key (AuthMode.other t) = ground arith
mode_eq_iff AuthMode.no_credentials AuthMode.tls = ground arith
mode_eq_iff AuthMode.no_credentials AuthMode.api_key = ground arith
mode_eq_iff AuthMode.no_credentials AuthMode.no_credentials = ground arith
mode_eq_iff AuthMode.no_credentials (AuthMode.other t) = ground arith
mode_eq_iff (AuthMode.other s) AuthMode.tls = ground arith
mode_eq_iff (AuthMode.other s) AuthMode.api_key = ground arith
mode_eq_iff (AuthMode.other s) AuthMode.no_credentials = ground arith
mode_eq_iff (AuthMode.other s) (AuthMode.other t) = ground (arith, text_eq_iff s t)

pub key_eq_iff : (k j : ClientPoolKey) → (key_eq k j ≡ true) ↔ (k ≡ j)
unfolding key_eq
key_eq_iff k j = ground (
  arith,
  text_eq_iff k.host_port j.host_port,
  text_eq_iff k.namespace j.namespace,
  text_eq_iff k.secret_name j.secret_name,
  mode_eq_iff k.auth_mode j.auth_mode,
)

pub key_eq_refl : (k : ClientPoolKey) → key_eq k k ≡ true
key_eq_refl k = (key_eq_iff k k).1 refl

pub find_key-insert_key :
    {V : Type 0} (k j : ClientPoolKey) (v : V) (m : KeyMap V)
    → find_key j (insert_key k v m) ≡ (if key_eq j k then some v else find_key j m)
unfolding find_key insert_key
find_key-insert_key k j v [] = refl
find_key-insert_key k j v ((i, w) ∷ m) =
    ground (arith, key_eq_iff j k, key_eq_iff k i, key_eq_iff j i, find_key-insert_key k j v m)

pub find_key-insert_key_self :
    {V : Type 0} (k : ClientPoolKey) (v : V) (m : KeyMap V) → find_key k (insert_key k v m) ≡ some v
find_key-insert_key_self k v m = rw (find_key-insert_key k k v m, key_eq_refl k)
