-- ===== src/Base/SafeMath/Products.antt =====
-- libHH/base/numerics/safe_math_impl.h: CheckedMul, CheckedDiv, CheckedMod and CheckedAbs on the
-- integer types of the conversions, with DstRangeRelationToSrcRange of safe_conversions_impl.h.
-- `none` is undefined behaviour: a signed result that does not fit, or a division by zero.
use lib_hh_old.Common.{
  ℕ, suc, ◌-◌, ◌*◌, ◌/◌, ◌%◌, Bool, true, false, not, ◌&&◌, ◌||◌, Option, none, some, leb,
  if◌then◌else◌,
}
use lib_hh_old.Common.Int.{ℤ, pos, negsuc, ltb_ℤ, eq_ℤ}
use lib_hh_old.Base.Numbers.{
  IntType, int, unsigned_int, int64, uint64, is_signed, max_of, depth_of, negate,
}
use lib_hh_old.Base.SafeMath.{
  RangeConstraint, range_valid, range_underflow, range_overflow, range_invalid, modulus,
  from_unsigned, xor,
}

abbrev pub magnitude : ℤ → ℕ
magnitude (pos n) = n
magnitude (negsuc n) = suc n

abbrev pub is_negative : ℤ → Bool
is_negative (pos n) = false
is_negative (negsuc n) = true

abbrev pub with_sign : Bool → ℕ → ℤ
with_sign true n = negate n
with_sign false n = pos n

-- The product, and the quotient and the remainder towards zero.
unfoldable pub times : ℤ → ℤ → ℤ
times x y = with_sign (xor (is_negative x) (is_negative y)) (magnitude x * magnitude y)

unfoldable pub quotient : ℤ → ℤ → ℤ
quotient x y = with_sign (xor (is_negative x) (is_negative y)) (magnitude x / magnitude y)

unfoldable pub remainder : ℤ → ℤ → ℤ
remainder x y = with_sign (is_negative x) (magnitude x % magnitude y)

-- `DstRangeRelationToSrcRange` of a value of a wider type, and `static_cast` to the narrow one.
unfoldable pub dst_range_relation : IntType → ℤ → RangeConstraint
dst_range_relation t (pos n) = if leb n (max_of t) then range_valid else range_overflow
dst_range_relation t (negsuc n) = if leb (suc n) (depth_of t) then range_valid else range_underflow

unfoldable pub narrow : IntType → ℤ → ℤ
narrow t (pos n) = from_unsigned t (n % modulus t)
narrow t (negsuc n) = from_unsigned t (modulus t - 1 - n % modulus t)

abbrev pub at_least : ℤ → ℤ → Bool
at_least x y = not (ltb_ℤ x y)

-- The tests of the product of two 64-bit values that are not zero.
unfoldable pub product_range : ℤ → ℤ → RangeConstraint
product_range x y =
    if not (is_negative x)
    then (if not (is_negative y)
        then (if at_least (quotient (pos (max_of int64)) y) x then range_valid else range_overflow)
        else (if at_least y (quotient (negate (depth_of int64)) x)
            then range_valid
            else range_underflow))
    else (if not (is_negative y)
        then (if at_least x (quotient (negate (depth_of int64)) y)
            then range_valid
            else range_underflow)
        else (if at_least y (quotient (pos (max_of int64)) x) then range_valid else range_overflow))

abbrev pub is_zero : ℤ → Bool
is_zero z = eq_ℤ z (pos 0)

-- `x * y` of 64-bit values, which the standard defines where it fits.
unfoldable pub defined_product : ℤ → ℤ → RangeConstraint → Option (ℤ × RangeConstraint)
defined_product x y range_valid = some (times x y, range_valid)
defined_product x y range_underflow = none
defined_product x y range_overflow = none
defined_product x y range_invalid = none

-- `validity` is what the caller's variable holds; a zero factor leaves it as it is.
unfoldable pub checked_mul : IntType → RangeConstraint → ℤ → ℤ → Option (ℤ × RangeConstraint)
checked_mul int validity x y = some (narrow int (times x y), dst_range_relation int (times x y))
checked_mul unsigned_int validity x y =
    some (narrow unsigned_int (times x y), dst_range_relation unsigned_int (times x y))
checked_mul int64 validity x y =
    if is_zero x || is_zero y
    then some (pos 0, validity)
    else defined_product x y (product_range x y)
checked_mul uint64 validity x y = some (
  narrow uint64 (times x y),
  if is_zero y || at_least (quotient (pos (max_of uint64)) y) x
      then range_valid
      else range_overflow,
)

unfoldable pub checked_div : IntType → ℤ → ℤ → Option (ℤ × RangeConstraint)
checked_div t x y =
    if is_signed t && eq_ℤ x (negate (depth_of t)) && eq_ℤ y (negsuc 0)
    then some (negate (depth_of t), range_overflow)
    else (if is_zero y then none else some (quotient x y, range_valid))

unfoldable pub checked_mod : IntType → ℤ → ℤ → Option (ℤ × RangeConstraint)
checked_mod t x y =
    if is_zero y || (is_signed t && eq_ℤ x (negate (depth_of t)) && eq_ℤ y (negsuc 0))
    then none
    else some
        (remainder x y, if not (is_signed t) || ltb_ℤ (pos 0) y then range_valid else range_invalid)

-- `std::abs` of the least value is not defined.
unfoldable pub checked_abs : IntType → ℤ → Option (ℤ × RangeConstraint)
checked_abs t value =
    if is_signed t && eq_ℤ value (negate (depth_of t))
    then none
    else some (pos (magnitude value), range_valid)
