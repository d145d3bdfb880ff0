-- ===== src/Common/Int.antt =====
-- Signed integers over the native numbers, under the library's names, and the 32-bit words of the
-- Win32 build: `size_t`, `uint32_t`, and `int` as the integer that a bit pattern stands for.
use lib_hh_old.Common.{
  ℕ, suc, ◌+◌, ◌-◌, ◌%◌, ◌^◌, ◌≤◌, ◌<◌, ◌≡◌, Bool, arith, ltb, leb, ◌==◌, if◌then◌else◌,
}

-- `negsuc n` is -(n + 1).
pub data ℤ : Type 0 where
  pos : ℕ → ℤ
  negsuc : ℕ → ℤ

abbrev pub pos_part : ℤ → ℕ
pos_part (pos n) = n
pos_part (negsuc n) = 0

abbrev pub neg_part : ℤ → ℕ
neg_part (pos n) = 0
neg_part (negsuc n) = suc n

-- a - b, as an integer.
abbrev pub sub_ℕ : ℕ → ℕ → ℤ
sub_ℕ a b = if leb b a then pos (a - b) else negsuc (b - a - 1)

infixl 65 ◌+ℤ◌
unfoldable pub ◌+ℤ◌ : ℤ → ℤ → ℤ
a +ℤ b = sub_ℕ (pos_part a + pos_part b) (neg_part a + neg_part b)

infix 50 ◌≤ℤ◌
abbrev pub ◌≤ℤ◌ : ℤ → ℤ → Type 0
a ≤ℤ b = pos_part a + neg_part b ≤ pos_part b + neg_part a

abbrev pub ltb_ℤ : ℤ → ℤ → Bool
ltb_ℤ a b = ltb (pos_part a + neg_part b) (pos_part b + neg_part a)

abbrev pub size_mod : ℕ
size_mod = 2 ^ 32

abbrev pub size_max : ℕ
size_max = size_mod - 1

-- `size_t` addition and subtraction.
abbrev pub add_size : ℕ → ℕ → ℕ
add_size a b = (a + b) % size_mod

abbrev pub sub_size : ℕ → ℕ → ℕ
sub_size a b = (a + size_mod - b) % size_mod

-- The `int` whose bits are those of a `uint32_t`, and back.
unfoldable pub to_int : ℕ → ℤ
to_int w = if ltb w (2 ^ 31) then pos w else negsuc (size_mod - w - 1)

unfoldable pub from_int : ℤ → ℕ
from_int (pos n) = n % size_mod
from_int (negsuc n) = size_mod - 1 - n % size_mod

-- The values of an `int`.
abbrev pub IsInt : ℤ → Type 0
IsInt (pos n) = n < 2 ^ 31
IsInt (negsuc n) = n < 2 ^ 31

pub to_int-from_int : (z : ℤ) → IsInt z → to_int (from_int z) ≡ z
unfolding to_int from_int
to_int-from_int (pos n) h = ground arith
to_int-from_int (negsuc n) h = ground arith

pub from_int-lt : (z : ℤ) → from_int z < size_mod
unfolding from_int
from_int-lt (pos n) = omega arith
from_int-lt (negsuc n) = omega arith

abbrev pub eq_ℤ : ℤ → ℤ → Bool
eq_ℤ a b = pos_part a + neg_part b == pos_part b + neg_part a
