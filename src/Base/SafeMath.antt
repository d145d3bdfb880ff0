-- ===== src/Base/SafeMath.antt =====
-- libHH/base/numerics/safe_math_impl.h: CheckedAdd, CheckedSub and CheckedNeg on the integer types of the
-- conversions. The sign bit of a bitwise expression is the expression of the sign bits.
pub mod Exact
pub mod Products
pub mod Numeric
pub mod Expressions
pub mod ExactProducts
mod Examples
use lib_hh_old.Common.{
  ℕ, zero, suc, ◌+◌, ◌-◌, ◌*◌, ◌%◌, ◌^◌, Bool, true, false, not, ◌&&◌, ◌||◌, leb, ltb, ◌==◌,
  if◌then◌else◌, Option, some, none,
}
use lib_hh_old.Common.Int.{ℤ, pos, negsuc, eq_ℤ}
use lib_hh_old.Base.Numbers.{IntType, int, unsigned_int, int64, uint64, is_signed, depth_of, negate}

pub data RangeConstraint : Type 0 where
  range_valid range_underflow range_overflow range_invalid : RangeConstraint

-- 2 to the number of bits.
abbrev pub modulus : IntType → ℕ
modulus int = 2 ^ 32
modulus unsigned_int = 2 ^ 32
modulus int64 = 2 ^ 64
modulus uint64 = 2 ^ 64

-- `static_cast<UnsignedDst>` of a value, and `static_cast<T>` back.
abbrev pub to_unsigned : IntType → ℤ → ℕ
to_unsigned t (pos n) = n
to_unsigned t (negsuc n) = modulus t - 1 - n

-- `HasSignBit`.
abbrev pub has_sign_bit : IntType → ℕ → Bool
has_sign_bit t u = leb (modulus t) (u * 2)

abbrev pub from_unsigned : IntType → ℕ → ℤ
from_unsigned t u = if is_signed t && has_sign_bit t u then negsuc (modulus t - 1 - u) else pos u

abbrev pub xor : Bool → Bool → Bool
xor true b = not b
xor false b = b

-- The direction of a wrap is the inverse of the sign of the result.
abbrev pub wrap_direction : Bool → RangeConstraint
wrap_direction negative = if negative then range_overflow else range_underflow

unfoldable pub checked_add : IntType → ℤ → ℤ → ℤ × RangeConstraint
checked_add t x y =
    let ux : ℕ = to_unsigned t x in
    let uy : ℕ = to_unsigned t y in
    let uresult : ℕ = (ux + uy) % modulus t in
    let sx : Bool = has_sign_bit t ux in
    let sy : Bool = has_sign_bit t uy in
    let sr : Bool = has_sign_bit t uresult in
    (
      from_unsigned t uresult,
      if is_signed t
          then (if not (xor sr sx && xor sr sy) then range_valid else wrap_direction sr)
          else (if leb uy (modulus t - 1 - ux) then range_valid else range_overflow),
    )

unfoldable pub checked_sub : IntType → ℤ → ℤ → ℤ × RangeConstraint
checked_sub t x y =
    let ux : ℕ = to_unsigned t x in
    let uy : ℕ = to_unsigned t y in
    let uresult : ℕ = (ux + modulus t - uy) % modulus t in
    let sx : Bool = has_sign_bit t ux in
    let sy : Bool = has_sign_bit t uy in
    let sr : Bool = has_sign_bit t uresult in
    (
      from_unsigned t uresult,
      if is_signed t
          then (if not (xor sr sx && xor sx sy) then range_valid else wrap_direction sr)
          else (if leb uy ux then range_valid else range_underflow),
    )

-- `CheckedNeg`. None is undefined behaviour: where the least value of the signed type is negated,
-- which is also what half the range of the unsigned type is cast to.
unfoldable pub checked_neg : IntType → ℤ → Option (ℤ × RangeConstraint)
checked_neg t value =
    let u : ℕ = to_unsigned t value in
    if u * 2 == modulus t
    then none
    else some (
      from_unsigned t ((modulus t - u) % modulus t),
      if is_signed t
          then (if eq_ℤ value (negate (depth_of t)) then range_overflow else range_valid)
          else (if u == 0 then range_valid else range_underflow),
    )
