-- ===== src/Base/SafeMath/ExactProducts.antt =====
-- Checked products and quotients of libHH/base/numerics/safe_math_impl.h, against the exact ones.
use lib_hh_old.Common.{
  ℕ, zero, suc, ◌<◌, ◌≤◌, ◌*◌, ◌/◌, ◌≡◌, refl, ◌⊎◌, inl, inr, Bool-cases, Option, none, some, leb,
  leb→le, arith,
}
use native.Mathlib.Nat.{le-div_iff_mul-le}
use lib_hh_old.Common.Int.{ℤ, pos, negsuc, pos_part, neg_part}
use lib_hh_old.Base.Numbers.{IntType, int, unsigned_int, int64, uint64, max_of, depth_of}
use lib_hh_old.Base.Numbers.Print.{IsValueOf}
use lib_hh_old.Base.SafeMath.{RangeConstraint, range_valid}
use lib_hh_old.Base.SafeMath.Exact.{IsExact}
use lib_hh_old.Base.SafeMath.Products.{
  times, quotient, dst_range_relation, narrow, product_range, defined_product, checked_mul,
}

-- An answer is exact, and there is none only for a 64-bit result that does not fit.
abbrev pub IsAnswer : IntType → ℤ → Option (ℤ × RangeConstraint) → Type 0
IsAnswer t z (some q) = IsExact t z q
IsAnswer t z none = (t ≡ int64) × ((max_of t < pos_part z) ⊎ (depth_of t < neg_part z))

pub narrow-IsExact : (t : IntType) (z : ℤ) → IsExact t z (narrow t z, dst_range_relation t z)
unfolding narrow dst_range_relation
narrow-IsExact int (pos n) = ground arith
narrow-IsExact int (negsuc n) = ground arith
narrow-IsExact unsigned_int (pos n) = ground arith
narrow-IsExact unsigned_int (negsuc n) = ground arith
narrow-IsExact int64 (pos n) = ground arith
narrow-IsExact int64 (negsuc n) = ground arith
narrow-IsExact uint64 (pos n) = ground arith
narrow-IsExact uint64 (negsuc n) = ground arith

-- The test by division, for a divisor that is not zero.
quotient-cases :
    (a b n : ℕ)
    → ((suc a ≤ n / suc b) × (suc a * suc b ≤ n)) ⊎ ((n / suc b < suc a) × (n < suc a * suc b))
quotient-cases a b n =
    let (to, from) = le-div_iff_mul-le {k = suc b} {x = suc a} {y = n} (omega arith) in
    elim (Bool-cases (leb (suc a) (n / suc b))) [
      | inl h ↦ let fits = leb→le (suc a) (n / suc b) h in inl (fits, to fits)
      | inr h ↦
          let less : n / suc b < suc a = ground arith in
          inr (
            less,
            elim (Bool-cases (leb (suc a * suc b) n)) [
              | inl h' ↦ let again = from (leb→le (suc a * suc b) n h') in absurd (omega arith)
              | inr h' ↦ ground arith
            ],
          )
    ]

mul64 : (x y : ℤ) → IsAnswer int64 (times x y) (checked_mul int64 range_valid x y)
unfolding checked_mul product_range defined_product times quotient
mul64 (pos zero) (pos b) = ground arith
mul64 (pos zero) (negsuc b) = let e : 0 * suc b ≡ 0 = omega arith in rw e (refl, omega arith)
mul64 (pos (suc a)) (pos zero) = ground arith
mul64 (pos (suc a)) (pos (suc b)) = elim (quotient-cases a b (max_of int64)) [
  | inl (h, h') ↦ ground arith
  | inr (h, h') ↦ ground arith
]
mul64 (pos (suc a)) (negsuc b) = elim (quotient-cases b a (depth_of int64)) [
  | inl (h, h') ↦ ground arith
  | inr (h, h') ↦ ground arith
]
mul64 (negsuc a) (pos zero) = let e : suc a * 0 ≡ 0 = omega arith in rw e (ground arith)
mul64 (negsuc a) (pos (suc b)) = elim (quotient-cases a b (depth_of int64)) [
  | inl (h, h') ↦ ground arith
  | inr (h, h') ↦ ground arith
]
mul64 (negsuc a) (negsuc b) = elim (quotient-cases b a (max_of int64)) [
  | inl (h, h') ↦ ground arith
  | inr (h, h') ↦ ground arith
]

mul-uint64 :
    (x y : ℤ)
    → IsValueOf uint64 x
    → IsValueOf uint64 y
    → IsAnswer uint64 (times x y) (checked_mul uint64 range_valid x y)
unfolding checked_mul times quotient narrow
mul-uint64 (negsuc a) y hx hy = absurd (omega arith)
mul-uint64 (pos a) (negsuc b) hx hy = absurd (omega arith)
mul-uint64 (pos zero) (pos b) hx hy = ground arith
mul-uint64 (pos (suc a)) (pos zero) hx hy = ground arith
mul-uint64 (pos (suc a)) (pos (suc b)) hx hy = elim (quotient-cases a b (max_of uint64)) [
  | inl (h, h') ↦ ground arith
  | inr (h, h') ↦ ground arith
]

-- For values of int, unsigned int, int64_t and uint64_t and a validity that is valid before the
-- call: CheckedMul says valid only of a product that fits the type, and then gives the exact
-- product; it says overflow only where the exact product is greater than every value of the type,
-- underflow only where it is less, and never invalid; and it is undefined only for int64_t, where
-- the product does not fit.
pub checked_mul-IsAnswer :
    (t : IntType) (x y : ℤ)
    → IsValueOf t x
    → IsValueOf t y
    → IsAnswer t (times x y) (checked_mul t range_valid x y)
unfolding checked_mul
checked_mul-IsAnswer int x y hx hy = narrow-IsExact int (times x y)
checked_mul-IsAnswer unsigned_int x y hx hy = narrow-IsExact unsigned_int (times x y)
checked_mul-IsAnswer int64 x y hx hy = mul64 x y
checked_mul-IsAnswer uint64 x y hx hy = mul-uint64 x y hx hy
