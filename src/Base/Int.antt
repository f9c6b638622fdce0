-- ===== src/Base/Int.antt =====
-- Signed integers over the native numbers, and the 32-bit `int` of the sources: its conversion from
-- a wider value keeps the low 32 bits, read in two's complement.
use mathlib.Core.List.{List, [], ◌∷◌}
use Prim.Native.Nat.{ℕ, suc, ◌+◌, ◌-◌, ◌/◌, ◌%◌, ◌^◌, ◌≤◌, ◌<◌}
use mathlib.Core.Path.{◌≡◌}
use mathlib.Core.Bool.{Bool, true}
use native.Mathlib.Omega.{arith}
use disastr_os_message_queue.Base.Tests.{ltb, leb, ◌==◌, if◌then◌else◌}

-- `negsuc n` is -(n + 1).
pub data ℤ : Type 0 where
  pos : ℕ → ℤ
  negsuc : ℕ → ℤ

abbrev pub pos_part : ℤ → ℕ
pos_part (pos n) = n
pos_part (negsuc n) = 0

abbrev pub neg_part : ℤ → ℕ
neg_part (pos n) = 0
neg_part (negsuc n) = suc n

-- a - b, as an integer.
abbrev pub sub_ℕ : ℕ → ℕ → ℤ
sub_ℕ a b = if leb b a then pos (a - b) else negsuc (b - a - 1)

infixl 65 ◌+ℤ◌
unfoldable pub ◌+ℤ◌ : ℤ → ℤ → ℤ
a +ℤ b = sub_ℕ (pos_part a + pos_part b) (neg_part a + neg_part b)

infix 50 ◌≤ℤ◌ ◌==ℤ◌
abbrev pub ◌≤ℤ◌ : ℤ → ℤ → Type 0
a ≤ℤ b = pos_part a + neg_part b ≤ pos_part b + neg_part a

abbrev pub ltb_ℤ : ℤ → ℤ → Bool
ltb_ℤ a b = ltb (pos_part a + neg_part b) (pos_part b + neg_part a)

abbrev pub leb_ℤ : ℤ → ℤ → Bool
leb_ℤ a b = leb (pos_part a + neg_part b) (pos_part b + neg_part a)

abbrev pub ◌==ℤ◌ : ℤ → ℤ → Bool
a ==ℤ b = (pos_part a + neg_part b) == (pos_part b + neg_part a)

-- The `int` with these 32 bits.
abbrev from_bits : ℕ → ℤ
from_bits m = if ltb m 0x8000_0000 then pos m else negsuc (0xffff_ffff - m)

-- The 32 bits of an integer, in two's complement.
abbrev pub bits32 : ℤ → ℕ
bits32 (pos n) = n % 2 ^ 32
bits32 (negsuc n) = 0xffff_ffff - n % 2 ^ 32

-- Conversion to `int`.
unfoldable pub wrap32 : ℤ → ℤ
wrap32 (pos n) = from_bits (n % 2 ^ 32)
wrap32 (negsuc n) = from_bits (0xffff_ffff - n % 2 ^ 32)

-- The bytes of an `int`, the lowest first.
abbrev pub int_bytes : ℤ → List ℕ
int_bytes z = let m = bits32 z in m % 256 ∷ m / 256 % 256 ∷ m / 65536 % 256 ∷ m / 16777216 ∷ []

-- `bits & flag` and `bits | flag`, for a flag that is one bit.
abbrev pub has_flag : (flag bits : ℕ) → Bool
has_flag flag bits = bits / flag % 2 == 1

abbrev pub with_flag : (flag bits : ℕ) → ℕ
with_flag flag bits = if has_flag flag bits then bits else bits + flag

-- `a + b` on `int`, with the wrap-around of the machine.
unfoldable pub int_add : ℤ → ℤ → ℤ
unfolding wrap32 ◌+ℤ◌
int_add a b = wrap32 (a +ℤ b)

pub eq_of_==ℤ : (a b : ℤ) → (a ==ℤ b) ≡ true → a ≡ b
eq_of_==ℤ (pos a) (pos b) h = ground arith
eq_of_==ℤ (pos a) (negsuc b) h = ground arith
eq_of_==ℤ (negsuc a) (pos b) h = ground arith
eq_of_==ℤ (negsuc a) (negsuc b) h = ground arith

pub ==ℤ_refl : (a : ℤ) → (a ==ℤ a) ≡ true
==ℤ_refl a = ground arith

-- A value that an `int` can hold is converted to itself.
pub wrap32-pos : (n : ℕ) → n < 0x8000_0000 → wrap32 (pos n) ≡ pos n
unfolding wrap32
wrap32-pos n h = ground arith

pub wrap32-negsuc : (n : ℕ) → n < 0x8000_0000 → wrap32 (negsuc n) ≡ negsuc n
unfolding wrap32
wrap32-negsuc n h = ground arith
