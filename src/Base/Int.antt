-- ===== src/Base/Int.antt =====
-- Signed integers over the native numbers, Go's fixed widths, and float32 as scaled integers.
use Prim.Native.Nat.{ℕ, suc, ◌+◌, ◌-◌, ◌*◌, ◌%◌, ◌^◌, ◌≤◌, ◌<◌}
use mathlib.Core.Path.{◌≡◌}
use mathlib.Core.Logic.{◌↔◌}
use mathlib.Core.Bool.{Bool, true}
use native.Mathlib.Omega.{arith}
use temporal_worker_controll.Base.Tests.{ltb, leb, eqb, if◌then◌else◌}

-- `negsuc n` is -(n + 1).
pub data ℤ : Type 0 where
  pos : ℕ → ℤ
  negsuc : ℕ → ℤ

abbrev pub pos_part : ℤ → ℕ
pos_part (pos n) = n
pos_part (negsuc n) = 0

abbrev pub neg_part : ℤ → ℕ
neg_part (pos n) = 0
neg_part (negsuc n) = suc n

-- a - b, as an integer.
abbrev pub sub_ℕ : ℕ → ℕ → ℤ
sub_ℕ a b = if leb b a then pos (a - b) else negsuc (b - a - 1)

infixl 65 ◌+ℤ◌ ◌-ℤ◌
infix 50 ◌≤ℤ◌ ◌<ℤ◌
unfoldable pub ◌+ℤ◌ : ℤ → ℤ → ℤ
a +ℤ b = sub_ℕ (pos_part a + pos_part b) (neg_part a + neg_part b)

unfoldable pub ◌-ℤ◌ : ℤ → ℤ → ℤ
a -ℤ b = sub_ℕ (pos_part a + neg_part b) (neg_part a + pos_part b)

abbrev pub ◌≤ℤ◌ : ℤ → ℤ → Type 0
a ≤ℤ b = pos_part a + neg_part b ≤ pos_part b + neg_part a

abbrev pub ◌<ℤ◌ : ℤ → ℤ → Type 0
a <ℤ b = pos_part a + neg_part b < pos_part b + neg_part a

abbrev pub ltb_ℤ : ℤ → ℤ → Bool
ltb_ℤ a b = ltb (pos_part a + neg_part b) (pos_part b + neg_part a)

abbrev pub leb_ℤ : ℤ → ℤ → Bool
leb_ℤ a b = leb (pos_part a + neg_part b) (pos_part b + neg_part a)

abbrev pub eqb_ℤ : ℤ → ℤ → Bool
eqb_ℤ a b = eqb (pos_part a + neg_part b) (pos_part b + neg_part a)

-- `x mod 2^w`: the low `w` bits of the two's-complement pattern.
abbrev pub low_bits : ℕ → ℤ → ℕ
low_bits w (pos n) = n % 2 ^ w
low_bits w (negsuc n) = 2 ^ w - 1 - n % 2 ^ w

-- The signed integer that a pattern of `w + 1` bits stands for.
abbrev pub from_bits : ℕ → ℕ → ℤ
from_bits w n = if ltb n (2 ^ w) then pos n else sub_ℕ n (2 ^ suc w)

-- `int32(x)`
unfoldable pub to_int32 : ℤ → ℤ
to_int32 x = from_bits 31 (low_bits 32 x)

-- `int64(x)`
unfoldable pub to_int64 : ℤ → ℤ
to_int64 x = from_bits 63 (low_bits 64 x)

-- `uint32(x)`
unfoldable pub to_uint32 : ℤ → ℕ
to_uint32 x = low_bits 32 x

-- A finite float32 is a multiple of 2^-149, and is modelled by that multiple; comparisons are
-- exact. `float32(n)` is exact for |n| ≤ 2^24.
abbrev pub Float32 : Type 0
Float32 = ℤ

unfoldable pub to_float32 : ℤ → Float32
to_float32 (pos n) = pos (n * 2 ^ 149)
to_float32 (negsuc n) = negsuc (suc n * 2 ^ 149 - 1)

pub eqb_ℤ_iff : (a b : ℤ) → (eqb_ℤ a b ≡ true) ↔ (a ≡ b)
eqb_ℤ_iff a b = ground arith

-- A value in the range of the type is kept.
pub to_int32_in_range : (x : ℤ) → negsuc (2 ^ 31 - 1) ≤ℤ x → x <ℤ pos (2 ^ 31) → to_int32 x ≡ x
unfolding to_int32
to_int32_in_range x lo hi = ground arith

pub to_int64_in_range : (x : ℤ) → negsuc (2 ^ 63 - 1) ≤ℤ x → x <ℤ pos (2 ^ 63) → to_int64 x ≡ x
unfolding to_int64
to_int64_in_range x lo hi = ground arith

pub to_uint32_in_range : (n : ℕ) → n < 2 ^ 32 → to_uint32 (pos n) ≡ n
unfolding to_uint32
to_uint32_in_range n h = omega arith

-- `float32(_)` keeps the order of integers, and equality.
pub to_float32-lt : (a b : ℤ) → ltb_ℤ (to_float32 a) (to_float32 b) ≡ ltb_ℤ a b
unfolding to_float32
to_float32-lt a b = ground arith

pub to_float32-eq : (a b : ℤ) → eqb_ℤ (to_float32 a) (to_float32 b) ≡ eqb_ℤ a b
unfolding to_float32
to_float32-eq a b = ground arith
