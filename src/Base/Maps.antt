-- ===== src/Base/Maps.antt =====
-- A Go map with string keys, as an association list: the order of the entries is the order in
-- which `range` happens to visit them. A map that may be nil is an `Option` of one.
use mathlib.Core.Path.{◌≡◌, refl, subst}
use mathlib.Core.Logic.{inl, inr}
use mathlib.Core.Bool.{false}
use mathlib.Core.Option.{Option, none, some}
use mathlib.Core.List.{List, [], ◌∷◌}
use native.Mathlib.Omega.{arith}
use temporal_worker_controll.Base.Tests.{if◌then◌else◌, Bool-cases, some-eq-some}
use temporal_worker_controll.Base.Strings.{Text, ◌==◌, text_eq_iff, text_eq_refl}

abbrev pub StringMap {ℓ} : Type ℓ → Type ℓ
StringMap V = List (Text × V)

module _ {ℓ} {V : Type ℓ} where
  -- `v, ok := m[k]`
  unfoldable pub lookup : Text → StringMap V → Option V
  lookup k [] = none
  lookup k ((j, v) ∷ m) = if k == j then some v else lookup k m

  -- `m[k] = v`
  unfoldable pub insert : Text → V → StringMap V → StringMap V
  insert k v [] = (k, v) ∷ []
  insert k v ((j, w) ∷ m) = if k == j then (j, v) ∷ m else (j, w) ∷ insert k v m

  -- `for k, v := range n { m[k] = v }`
  unfoldable pub insert_all : StringMap V → StringMap V → StringMap V
  insert_all m [] = m
  insert_all m ((k, v) ∷ n) = insert_all (insert k v m) n

  -- A nil map reads as an empty one.
  abbrev pub entries : Option (StringMap V) → StringMap V
  entries none = []
  entries (some m) = m

  pub lookup-insert :
      (k j : Text) (v : V) (m : StringMap V)
      → lookup j (insert k v m) ≡ (if j == k then some v else lookup j m)
  unfolding lookup insert
  lookup-insert k j v [] = refl
  lookup-insert k j v ((i, w) ∷ m) =
      ground (arith, text_eq_iff j k, text_eq_iff k i, text_eq_iff j i, lookup-insert k j v m)

  pub lookup-insert_self : (k : Text) (v : V) (m : StringMap V) → lookup k (insert k v m) ≡ some v
  lookup-insert_self k v m = rw (lookup-insert k k v m, text_eq_refl k)

  insert-insert_self :
      (k : Text) (v w : V) (m : StringMap V) → insert k v (insert k w m) ≡ insert k v m
  unfolding insert
  insert-insert_self k v w [] = rw (text_eq_refl k)
  insert-insert_self k v w ((i, y) ∷ m) =
      ground (arith, text_eq_refl k, text_eq_iff k i, insert-insert_self k v w m)

  -- The later of two writes to one key wins, and stays at the key's place.
  pub insert-insert :
      (k j : Text) (v w x : V) (m : StringMap V)
      → (k == j) ≡ false
      → insert k v (insert j x (insert k w m)) ≡ insert j x (insert k v m)
  unfolding insert
  insert-insert k j v w x [] h = ground (arith, text_eq_refl k, text_eq_iff k j, text_eq_iff j k)
  insert-insert k j v w x ((i, y) ∷ m) h = ground (
    arith,
    text_eq_refl k,
    text_eq_iff k j,
    text_eq_iff j k,
    text_eq_iff k i,
    text_eq_iff j i,
    insert-insert_self k v w m,
    insert-insert k j v w x m h,
  )

-- Every value that a key has.
abbrev pub AllValues {ℓ κ} : {V : Type ℓ} → (V → Type κ) → StringMap V → Type (ℓ ⊔ κ)
AllValues {V = V} P m = (k : Text) (v : V) → lookup k m ≡ some v → P v

pub insert-AllValues {ℓ κ} :
    {V : Type ℓ} (P : V → Type κ) (k : Text) (v : V) (m : StringMap V)
    → P v
    → AllValues P m
    → AllValues P (insert k v m)
insert-AllValues P k v m good all j w h = elim (Bool-cases (j == k)) [
  | inl same ↦ subst P (some-eq-some (rw (lookup-insert k j v m, same) at h)) good
  | inr other ↦ all j w (rw (lookup-insert k j v m, other) at h)
]

abbrev pub AllEntries {ℓ} : {V : Type ℓ} → (V → Type 0) → StringMap V → Type 0
AllEntries P [] = Unit
AllEntries P ((k, v) ∷ m) = P v × AllEntries P m

-- A key has one of the entries, if any.
pub entries-AllValues {ℓ} :
    {V : Type ℓ} (P : V → Type 0) (m : StringMap V) → AllEntries P m → AllValues P m
unfolding lookup
entries-AllValues P [] all k v h = absurd (cc)
entries-AllValues P ((j, w) ∷ m) all k v h = elim (Bool-cases (k == j)) [
  | inl same ↦ subst P (some-eq-some (rw same at h)) all.0
  | inr other ↦ entries-AllValues P m all.1 k v (rw other at h)
]
