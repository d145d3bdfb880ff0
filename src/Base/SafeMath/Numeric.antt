-- ===== src/Base/SafeMath/Numeric.antt =====
-- CheckedNumeric of libHH/base/numerics/safe_math.h, with CheckedNumericState of safe_math_impl.h,
-- on the integer types of the conversions, each of which is its own arithmetic promotion.
use lib_hh_old.Common.{Bool, true, false, Option, none, some, ◌>>=◌, if◌then◌else◌}
use lib_hh_old.Common.Int.{ℤ, pos}
use lib_hh_old.Base.Numbers.{IntType}
use lib_hh_old.Base.SafeMath.{
  RangeConstraint, range_valid, range_underflow, range_overflow, range_invalid, checked_add,
  checked_sub, checked_neg,
}
use lib_hh_old.Base.SafeMath.Products.{
  dst_range_relation, narrow, checked_mul, checked_div, checked_mod, checked_abs,
}

-- `GetRangeConstraint` of the bitwise or.
unfoldable pub or_constraint : RangeConstraint → RangeConstraint → RangeConstraint
or_constraint range_valid b = b
or_constraint range_underflow range_valid = range_underflow
or_constraint range_underflow range_underflow = range_underflow
or_constraint range_underflow range_overflow = range_invalid
or_constraint range_underflow range_invalid = range_invalid
or_constraint range_overflow range_valid = range_overflow
or_constraint range_overflow range_underflow = range_invalid
or_constraint range_overflow range_overflow = range_overflow
or_constraint range_overflow range_invalid = range_invalid
or_constraint range_invalid b = range_invalid

pub record CheckedNumeric : Type 0 where
  pub value : ℤ
  pub validity : RangeConstraint

abbrev pub is_valid : CheckedNumeric → Bool
is_valid n = elim n.validity [ range_valid ↦ true | _ ↦ false ]

-- The constructors from a value, with a validity or without.
unfoldable pub with_validity : IntType → ℤ → RangeConstraint → CheckedNumeric
with_validity t value validity = record {
  value = narrow t value;
  validity = or_constraint validity (dst_range_relation t value);
}

abbrev pub from_value : IntType → ℤ → CheckedNumeric
from_value t value = with_validity t value range_valid

abbrev pub value_or_default : ℤ → CheckedNumeric → ℤ
value_or_default default_value n = if is_valid n then n.value else default_value

-- `ValueOrDie`; `none` is the crash.
abbrev pub value_or_die : CheckedNumeric → Option ℤ
value_or_die n = if is_valid n then some n.value else none

-- The operators of the macro BASE_NUMERIC_ARITHMETIC_OPERATORS.
pub data Operator : Type 0 where
  add sub mul div modulo : Operator

unfoldable pub checked : IntType → Operator → ℤ → ℤ → Option (ℤ × RangeConstraint)
checked t add x y = some (checked_add t x y)
checked t sub x y = some (checked_sub t x y)
checked t mul x y = checked_mul t range_valid x y
checked t div x y = checked_div t x y
checked t modulo x y = checked_mod t x y

unfoldable pub apply : IntType → Operator → CheckedNumeric → CheckedNumeric → Option CheckedNumeric
apply t op lhs rhs = checked t op lhs.value rhs.value >>= λ (result, validity).
    some (with_validity t result (or_constraint validity (or_constraint lhs.validity rhs.validity)))

unfoldable pub negated : IntType → CheckedNumeric → Option CheckedNumeric
negated t n = checked_neg t n.value >>= λ (value, validity).
    some (with_validity t value (or_constraint n.validity validity))

unfoldable pub abs : IntType → CheckedNumeric → Option CheckedNumeric
abs t n = checked_abs t n.value >>= λ (value, validity).
    some (with_validity t value (or_constraint n.validity validity))

-- `++` and `--`, in front of the variable.
abbrev pub increment : IntType → CheckedNumeric → Option CheckedNumeric
increment t n = apply t add n (from_value t (pos 1))

abbrev pub decrement : IntType → CheckedNumeric → Option CheckedNumeric
decrement t n = apply t sub n (from_value t (pos 1))
