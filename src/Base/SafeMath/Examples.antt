-- ===== src/Base/SafeMath/Examples.antt =====
-- Runs of the checked operations.
use lib_hh_old.Common.{◌^◌, ◌-◌, ◌≡◌, refl, some, none, arith}
use lib_hh_old.Common.Int.{pos, negsuc, ◌+ℤ◌}
use lib_hh_old.Base.Numbers.{int, int64}
use lib_hh_old.Base.SafeMath.{range_valid, range_overflow, checked_add, checked_sub, checked_neg}
use lib_hh_old.Base.Numbers.Print.{IsValueOf}
use lib_hh_old.Base.SafeMath.Products.{
  times, quotient, dst_range_relation, narrow, checked_mul, checked_mod, product_range,
  defined_product,
}
use lib_hh_old.Base.SafeMath.ExactProducts.{IsAnswer, checked_mul-IsAnswer}
use lib_hh_old.Base.SafeMath.Numeric.{
  CheckedNumeric, sub, mul, or_constraint, with_validity, checked, apply,
}
use lib_hh_old.Base.SafeMath.Expressions.{
  Expression, literal, binary, evaluate, exact_value, evaluate-exact_value,
}
use lib_hh_old.Base.SafeMath.Exact.{IsExact, IsNegation, checked_math-IsExact}

checked_math-IsExact_example :
    IsExact int (pos (2 ^ 31 - 1) +ℤ negsuc 6) (checked_add int (pos (2 ^ 31 - 1)) (negsuc 6))
    × IsExact int (pos (2 ^ 31 - 1) +ℤ pos 7) (checked_sub int (pos (2 ^ 31 - 1)) (negsuc 6))
    × IsNegation int (pos (2 ^ 31 - 1)) (checked_neg int (pos (2 ^ 31 - 1)))
checked_math-IsExact_example =
    checked_math-IsExact int (pos (2 ^ 31 - 1)) (negsuc 6) (omega arith) (omega arith)

wraps : checked_add int64 (pos (2 ^ 63 - 1)) (pos 1) ≡ (negsuc (2 ^ 63 - 1), range_overflow)
unfolding checked_add
wraps = refl

checked_mul-IsAnswer_example :
    IsAnswer int64
      (times (pos (2 ^ 62)) (negsuc 1))
      (checked_mul int64 range_valid (pos (2 ^ 62)) (negsuc 1))
checked_mul-IsAnswer_example =
    checked_mul-IsAnswer int64 (pos (2 ^ 62)) (negsuc 1) (omega arith) (omega arith)

-- 2^62 times 2 is no value of int64_t, and the product is not defined.
undefined_product : checked_mul int64 range_valid (pos (2 ^ 62)) (pos 2) ≡ none
unfolding checked_mul product_range defined_product times quotient
undefined_product = refl

-- A division by zero follows although the result is marked as invalid.
undefined_remainder : checked_mod int (pos 7) (pos 0) ≡ none
unfolding checked_mod
undefined_remainder = refl

-- A zero factor leaves the caller's variable as it was.
unset_validity : checked_mul int64 range_overflow (pos 0) (pos 2) ≡ some (pos 0, range_overflow)
unfolding checked_mul
unset_validity = refl

-- 100 * 7 - 701.
abbrev expression : Expression
expression = binary sub (binary mul (literal (pos 100)) (literal (pos 7))) (literal (pos 701))

abbrev result : CheckedNumeric
result = record { value = negsuc 0; validity = range_valid }

evaluate-expression : evaluate int expression ≡ some result
unfolding evaluate apply checked checked_mul checked_sub times narrow dst_range_relation
    with_validity or_constraint
evaluate-expression = refl

evaluate-exact_value_example : (exact_value expression ≡ some (negsuc 0)) × IsValueOf int (negsuc 0)
evaluate-exact_value_example = evaluate-exact_value int expression result evaluate-expression refl

-- The negation of the least int is answered with an overflow, but computed all the same.
undefined_negation : checked_neg int (negsuc (2 ^ 31 - 1)) ≡ none
unfolding checked_neg
undefined_negation = refl
