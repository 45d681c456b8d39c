-- ===== src/Base/Results.antt =====
-- The result of a Go function that may return an error, or panic at a nil pointer or a nil map.
use mathlib.Core.Path.{◌≡◌, refl}
use mathlib.Core.Option.{Option, none, some}
use temporal_worker_controll.Base.Strings.{Text}

-- The errors that the modelled code builds, and those that it passes on from outside.
pub data Error : Type 0 where
  gate_input_and_input_from gate_input_from_not_one : Error
  key_not_in_config_map key_not_in_secret : Text → Text → Text → Error
  external : Text → Error

pub data Outcome {ℓ} (A : Type ℓ) : Type ℓ where
  ok : A → Outcome A
  err : Error → Outcome A
  panic : Outcome A

infixl 5 ◌>>=◌
abbrev pub ◌>>=◌ {ℓ κ} : {A : Type ℓ} {B : Type κ} → Outcome A → (A → Outcome B) → Outcome B
ok a >>= f = f a
err e >>= f = err e
panic >>= f = panic

-- `*p`
abbrev pub deref {ℓ} : {A : Type ℓ} → Option A → Outcome A
deref none = panic
deref (some a) = ok a

abbrev pub or_fail {ℓ} : {A : Type ℓ} → Option A → Text → Outcome A
or_fail none text = err (external text)
or_fail (some a) text = ok a

pub ok-injective {ℓ} : {A : Type ℓ} {a b : A} → ok a ≡ ok b → a ≡ b
ok-injective h = cc

-- The parts of a bind that returned.
pub bind-eq-ok {ℓ κ} :
    {A : Type ℓ} {B : Type κ} (m : Outcome A) (f : A → Outcome B) {b : B}
    → (m >>= f) ≡ ok b
    → (a : A) × (m ≡ ok a) × (f a ≡ ok b)
bind-eq-ok (ok a) f h = (a, refl, h)
bind-eq-ok (err e) f h = absurd (cc)
bind-eq-ok panic f h = absurd (cc)

pub deref-eq-ok {ℓ} : {A : Type ℓ} (o : Option A) {a : A} → deref o ≡ ok a → o ≡ some a
deref-eq-ok none h = absurd (cc)
deref-eq-ok (some a) h = cc

-- The function gives a result: neither an error nor a panic.
abbrev pub Returns {ℓ} : {A : Type ℓ} → Outcome A → Type ℓ
Returns {A = A} r = (a : A) × (r ≡ ok a)

pub bind-Returns {ℓ κ} :
    {A : Type ℓ} {B : Type κ} (m : Outcome A) (f : A → Outcome B)
    → Returns m
    → ((a : A) → m ≡ ok a → Returns (f a))
    → Returns (m >>= f)
bind-Returns (ok a) f h g = g a refl
bind-Returns (err e) f (a, h) g = absurd (cc)
bind-Returns panic f (a, h) g = absurd (cc)
