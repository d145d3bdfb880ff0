-- ===== src/Base/SafeMath/Expressions.antt =====
-- Expressions of checked numbers, libHH/base/numerics/safe_math.h, against the exact integers.
use lib_hh_old.Common.{
  ◌≡◌, refl, sym, ap, ap₂, ◌∙◌, true, Option, none, some, ◌>>=◌, if◌then◌else◌, arith,
}
use mathlib.Core.Path.{subst}
use lib_hh_old.Common.Int.{ℤ, pos, ◌+ℤ◌}
use lib_hh_old.Base.Numbers.{IntType}
use lib_hh_old.Base.Numbers.Print.{IsValueOf}
use lib_hh_old.Base.SafeMath.{
  RangeConstraint, range_valid, range_underflow, range_overflow, range_invalid, checked_add,
  checked_sub, checked_neg,
}
use lib_hh_old.Base.SafeMath.Exact.{IsExact, minus, IsNegation, checked_math-IsExact}
use lib_hh_old.Base.SafeMath.Products.{
  magnitude, times, quotient, remainder, is_zero, dst_range_relation, narrow, checked_mul,
  checked_div, checked_mod, checked_abs,
}
use lib_hh_old.Base.SafeMath.ExactProducts.{IsAnswer, narrow-IsExact, checked_mul-IsAnswer}
use lib_hh_old.Base.SafeMath.Numeric.{
  CheckedNumeric, is_valid, with_validity, from_value, Operator, add, sub, mul, div, modulo,
  checked, apply, negated, abs, or_constraint,
}

pub data Expression : Type 0 where
  literal : ℤ → Expression
  binary : Operator → Expression → Expression → Expression
  minus_of abs_of : Expression → Expression

unfoldable pub evaluate : IntType → Expression → Option CheckedNumeric
evaluate t (literal z) = some (from_value t z)
evaluate t (binary op a b) = evaluate t a >>= λ x. evaluate t b >>= λ y. apply t op x y
evaluate t (minus_of a) = evaluate t a >>= negated t
evaluate t (abs_of a) = evaluate t a >>= abs t

-- The value in the integers; there is none for a division by zero.
unfoldable pub exact_operator : Operator → ℤ → ℤ → Option ℤ
exact_operator add x y = some (x +ℤ y)
exact_operator sub x y = some (x +ℤ minus y)
exact_operator mul x y = some (times x y)
exact_operator div x y = if is_zero y then none else some (quotient x y)
exact_operator modulo x y = if is_zero y then none else some (remainder x y)

unfoldable pub exact_value : Expression → Option ℤ
exact_value (literal z) = some z
exact_value (binary op a b) = exact_value a >>= λ x. exact_value b >>= λ y. exact_operator op x y
exact_value (minus_of a) = exact_value a >>= λ x. some (minus x)
exact_value (abs_of a) = exact_value a >>= λ x. some (pos (magnitude x))

or_constraint-valid :
    (a b : RangeConstraint)
    → or_constraint a b ≡ range_valid
    → (a ≡ range_valid) × (b ≡ range_valid)
unfolding or_constraint
or_constraint-valid range_valid b h = (refl, h)
or_constraint-valid range_underflow range_valid h = absurd (ground arith)
or_constraint-valid range_underflow range_underflow h = absurd (ground arith)
or_constraint-valid range_underflow range_overflow h = absurd (ground arith)
or_constraint-valid range_underflow range_invalid h = absurd (ground arith)
or_constraint-valid range_overflow range_valid h = absurd (ground arith)
or_constraint-valid range_overflow range_underflow h = absurd (ground arith)
or_constraint-valid range_overflow range_overflow h = absurd (ground arith)
or_constraint-valid range_overflow range_invalid h = absurd (ground arith)
or_constraint-valid range_invalid b h = absurd (ground arith)

IsExact-valid :
    (t : IntType) (z r : ℤ) (v : RangeConstraint)
    → v ≡ range_valid
    → IsExact t z (r, v)
    → (r ≡ z) × IsValueOf t z
IsExact-valid t z r range_valid h e = e
IsExact-valid t z r range_underflow h e = absurd (ground arith)
IsExact-valid t z r range_overflow h e = absurd (ground arith)
IsExact-valid t z r range_invalid h e = absurd (ground arith)

is_valid-range :
    (v : RangeConstraint)
    → is_valid (record { value = pos 0; validity = v }) ≡ true
    → v ≡ range_valid
is_valid-range range_valid h = refl
is_valid-range range_underflow h = absurd (ground arith)
is_valid-range range_overflow h = absurd (ground arith)
is_valid-range range_invalid h = absurd (ground arith)

-- An answer is right where it is said to be valid.
abbrev IsRight : Option ℤ → Option (ℤ × RangeConstraint) → Type 0
IsRight z none = Unit {0}
IsRight z (some (r, v)) = v ≡ range_valid → z ≡ some r

abbrev IsRightNumber : IntType → Option ℤ → Option CheckedNumeric → Type 0
IsRightNumber t z none = Unit {0}
IsRightNumber t z (some n) = n.validity ≡ range_valid → (z ≡ some n.value) × IsValueOf t n.value

IsExact-IsRight :
    (t : IntType) (z : ℤ) (q : ℤ × RangeConstraint) → IsExact t z q → IsRight (some z) (some q)
IsExact-IsRight t z (r, v) e = λ h. ap some (sym (IsExact-valid t z r v h e).0)

module _ (t : IntType) where
  answer-IsRight : (z : ℤ) (o : Option (ℤ × RangeConstraint)) → IsAnswer t z o → IsRight (some z) o
  answer-IsRight z none a = tt
  answer-IsRight z (some q) a = IsExact-IsRight t z q a

  div-IsRight : (x y : ℤ) → IsRight (exact_operator div x y) (checked_div t x y)
  unfolding exact_operator checked_div
  div-IsRight x y = ground arith

  mod-IsRight : (x y : ℤ) → IsRight (exact_operator modulo x y) (checked_mod t x y)
  unfolding exact_operator checked_mod
  mod-IsRight x y = ground arith

  abs-IsRight : (x : ℤ) → IsRight (some (pos (magnitude x))) (checked_abs t x)
  unfolding checked_abs
  abs-IsRight x = ground arith

  checked-IsRight :
      (op : Operator) (x y : ℤ)
      → IsValueOf t x
      → IsValueOf t y
      → IsRight (exact_operator op x y) (checked t op x y)
  unfolding exact_operator checked
  checked-IsRight add x y hx hy =
      IsExact-IsRight t (x +ℤ y) (checked_add t x y) (checked_math-IsExact t x y hx hy).0
  checked-IsRight sub x y hx hy =
      let (sum, difference, negation) = checked_math-IsExact t x y hx hy in
      IsExact-IsRight t (x +ℤ minus y) (checked_sub t x y) difference
  checked-IsRight mul x y hx hy =
      answer-IsRight (times x y) (checked_mul t range_valid x y) (checked_mul-IsAnswer t x y hx hy)
  checked-IsRight div x y hx hy = div-IsRight x y
  checked-IsRight modulo x y hx hy = mod-IsRight x y

  -- A number that is made of a value, and valid.
  with_validity-valid :
      (z : ℤ) (v : RangeConstraint)
      → (with_validity t z v).validity ≡ range_valid
      → (v ≡ range_valid) × ((with_validity t z v).value ≡ z) × IsValueOf t z
  unfolding with_validity
  with_validity-valid z v h =
      let (valid, fits) = or_constraint-valid v (dst_range_relation t z) h in
      let (same, inside) =
        IsExact-valid t z (narrow t z) (dst_range_relation t z) fits (narrow-IsExact t z) in
      (valid, same, inside)

  -- A result that is put together with the validity of what it was made of.
  made-IsRightNumber :
      (z : Option ℤ) (r : ℤ) (v : RangeConstraint)
      → (v ≡ range_valid → z ≡ some r)
      → IsRightNumber t z (some (with_validity t r v))
  made-IsRightNumber z r v right h =
      let (valid, same, inside) = with_validity-valid r v h in
      (right valid ∙ ap some (sym same), subst (IsValueOf t) (sym same) inside)

  apply-IsRightNumber :
      (op : Operator) (zx zy : Option ℤ) (ox oy : Option CheckedNumeric)
      → IsRightNumber t zx ox
      → IsRightNumber t zy oy
      → IsRightNumber t
          (zx >>= λ x. zy >>= λ y. exact_operator op x y)
          (ox >>= λ x. oy >>= λ y. apply t op x y)
  unfolding apply
  apply-IsRightNumber op zx zy none oy hx hy = tt
  apply-IsRightNumber op zx zy (some m) none hx hy = tt
  apply-IsRightNumber op zx zy (some m) (some n) hx hy =
      answered (checked t op m.value n.value) (checked-IsRight op m.value n.value)
    where
      answered :
          (o : Option (ℤ × RangeConstraint))
          → (IsValueOf t m.value
              → IsValueOf t n.value
              → IsRight (exact_operator op m.value n.value) o)
          → IsRightNumber t (zx >>= λ x. zy >>= λ y. exact_operator op x y) (
              o >>= λ (result, validity). some (
                with_validity t result
                  (or_constraint validity (or_constraint m.validity n.validity))))
      answered none right = tt
      answered (some (r, v)) right =
          made-IsRightNumber _ r (or_constraint v (or_constraint m.validity n.validity)) (λ h.
            let (valid, both) = or_constraint-valid v (or_constraint m.validity n.validity) h in
            let (vm, vn) = or_constraint-valid m.validity n.validity both in
            let (em, im) = hx vm in
            let (en, in_) = hy vn in
            ap₂ (λ p q. p >>= λ x. q >>= λ y. exact_operator op x y) em en ∙ right im in_ valid)

  unary-IsRightNumber :
      (g : ℤ → ℤ) (z : Option ℤ) (n : CheckedNumeric) (o : Option (ℤ × RangeConstraint))
      → IsRightNumber t z (some n)
      → (IsValueOf t n.value → IsRight (some (g n.value)) o)
      → IsRightNumber t
          (z >>= λ x. some (g x))
          (o >>= λ (r, v). some (with_validity t r (or_constraint n.validity v)))
  unary-IsRightNumber g z n none h right = tt
  unary-IsRightNumber g z n (some (r, v)) h right =
      made-IsRightNumber _ r (or_constraint n.validity v) (λ e.
        let (vn, valid) = or_constraint-valid n.validity v e in
        let (en, inside) = h vn in ap (λ q. q >>= λ x. some (g x)) en ∙ right inside valid)

  negated-IsRightNumber :
      (z : Option ℤ) (o : Option CheckedNumeric)
      → IsRightNumber t z o
      → IsRightNumber t (z >>= λ x. some (minus x)) (o >>= negated t)
  unfolding negated
  negated-IsRightNumber z none h = tt
  negated-IsRightNumber z (some n) h =
      unary-IsRightNumber minus z n (checked_neg t n.value) h (λ inside.
        let (sum, difference, negation) = checked_math-IsExact t n.value n.value inside inside in
        IsNegation-IsRight (checked_neg t n.value) negation)
    where
      IsNegation-IsRight :
          (o : Option (ℤ × RangeConstraint))
          → IsNegation t n.value o
          → IsRight (some (minus n.value)) o
      IsNegation-IsRight none h = tt
      IsNegation-IsRight (some q) h = IsExact-IsRight t (minus n.value) q h

  abs-IsRightNumber :
      (z : Option ℤ) (o : Option CheckedNumeric)
      → IsRightNumber t z o
      → IsRightNumber t (z >>= λ x. some (pos (magnitude x))) (o >>= abs t)
  unfolding abs
  abs-IsRightNumber z none h = tt
  abs-IsRightNumber z (some n) h =
      unary-IsRightNumber (λ x. pos (magnitude x)) z n (checked_abs t n.value) h
        (λ inside. abs-IsRight n.value)

  evaluate-IsRightNumber : (e : Expression) → IsRightNumber t (exact_value e) (evaluate t e)
  unfolding evaluate exact_value
  evaluate-IsRightNumber (literal z) = made-IsRightNumber (some z) z range_valid (λ h. refl)
  evaluate-IsRightNumber (binary op a b) =
      apply-IsRightNumber op (exact_value a) (exact_value b) (evaluate t a) (evaluate t b)
        (evaluate-IsRightNumber a) (evaluate-IsRightNumber b)
  evaluate-IsRightNumber (minus_of a) =
      negated-IsRightNumber (exact_value a) (evaluate t a) (evaluate-IsRightNumber a)
  evaluate-IsRightNumber (abs_of a) =
      abs-IsRightNumber (exact_value a) (evaluate t a) (evaluate-IsRightNumber a)

  -- For an expression of CheckedNumeric over int, unsigned int, int64_t or uint64_t, built of values
  -- of any size by the five operators, negation and Abs: where it is evaluated without undefined
  -- behaviour and IsValid holds of the result, its value is the exact value of the expression in the
  -- integers, no step of which divides by zero, and is a value of the type.
  pub evaluate-exact_value :
      (e : Expression) (n : CheckedNumeric)
      → evaluate t e ≡ some n
      → is_valid n ≡ true
      → (exact_value e ≡ some n.value) × IsValueOf t n.value
  evaluate-exact_value e n run valid =
      subst (IsRightNumber t (exact_value e)) run (evaluate-IsRightNumber e)
        (is_valid-range n.validity valid)
