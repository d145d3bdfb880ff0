-- ===== src/Base/SafeMath/Exact.antt =====
-- Checked sums and differences, against the exact ones.
use lib_hh_old.Common.{zero, suc, ◌<◌, ◌≤◌, ◌≡◌, ◌+◌, ◌*◌, Option, some, none, arith}
use lib_hh_old.Common.Int.{ℤ, pos, negsuc, pos_part, neg_part, ◌+ℤ◌}
use lib_hh_old.Base.Numbers.{IntType, int, unsigned_int, int64, uint64, max_of, depth_of}
use lib_hh_old.Base.Numbers.Print.{IsValueOf}
use lib_hh_old.Base.SafeMath.{
  RangeConstraint, range_valid, range_underflow, range_overflow, range_invalid, checked_add,
  checked_sub, checked_neg, modulus,
}

abbrev pub minus : ℤ → ℤ
minus (pos zero) = pos 0
minus (pos (suc n)) = negsuc n
minus (negsuc n) = pos (suc n)

-- The answer to a computation whose exact result is known.
abbrev pub IsExact : IntType → ℤ → ℤ × RangeConstraint → Type 0
IsExact t z (r, range_valid) = (r ≡ z) × IsValueOf t z
IsExact t z (r, range_underflow) = depth_of t < neg_part z
IsExact t z (r, range_overflow) = max_of t < pos_part z
IsExact t z (r, range_invalid) = 1 ≤ 0

checked_add-IsExact :
    (t : IntType) (x y : ℤ) → IsValueOf t x → IsValueOf t y → IsExact t (x +ℤ y) (checked_add t x y)
unfolding checked_add ◌+ℤ◌
checked_add-IsExact int (pos a) (pos b) hx hy = ground arith
checked_add-IsExact int (pos a) (negsuc b) hx hy = ground arith
checked_add-IsExact int (negsuc a) (pos b) hx hy = ground arith
checked_add-IsExact int (negsuc a) (negsuc b) hx hy = ground arith
checked_add-IsExact unsigned_int (pos a) (pos b) hx hy = ground arith
checked_add-IsExact unsigned_int (negsuc a) y hx hy = absurd (omega arith)
checked_add-IsExact unsigned_int (pos a) (negsuc b) hx hy = absurd (omega arith)
checked_add-IsExact int64 (pos a) (pos b) hx hy = ground arith
checked_add-IsExact int64 (pos a) (negsuc b) hx hy = ground arith
checked_add-IsExact int64 (negsuc a) (pos b) hx hy = ground arith
checked_add-IsExact int64 (negsuc a) (negsuc b) hx hy = ground arith
checked_add-IsExact uint64 (pos a) (pos b) hx hy = ground arith
checked_add-IsExact uint64 (negsuc a) y hx hy = absurd (omega arith)
checked_add-IsExact uint64 (pos a) (negsuc b) hx hy = absurd (omega arith)

checked_sub-IsExact :
    (t : IntType) (x y : ℤ)
    → IsValueOf t x
    → IsValueOf t y
    → IsExact t (x +ℤ minus y) (checked_sub t x y)
unfolding checked_sub ◌+ℤ◌
checked_sub-IsExact int (pos a) (pos zero) hx hy = ground arith
checked_sub-IsExact int (pos a) (pos (suc b)) hx hy = ground arith
checked_sub-IsExact int (pos a) (negsuc b) hx hy = ground arith
checked_sub-IsExact int (negsuc a) (pos zero) hx hy = ground arith
checked_sub-IsExact int (negsuc a) (pos (suc b)) hx hy = ground arith
checked_sub-IsExact int (negsuc a) (negsuc b) hx hy = ground arith
checked_sub-IsExact unsigned_int (pos a) (pos zero) hx hy = ground arith
checked_sub-IsExact unsigned_int (pos a) (pos (suc b)) hx hy = ground arith
checked_sub-IsExact unsigned_int (negsuc a) y hx hy = absurd (omega arith)
checked_sub-IsExact unsigned_int (pos a) (negsuc b) hx hy = absurd (omega arith)
checked_sub-IsExact int64 (pos a) (pos zero) hx hy = ground arith
checked_sub-IsExact int64 (pos a) (pos (suc b)) hx hy = ground arith
checked_sub-IsExact int64 (pos a) (negsuc b) hx hy = ground arith
checked_sub-IsExact int64 (negsuc a) (pos zero) hx hy = ground arith
checked_sub-IsExact int64 (negsuc a) (pos (suc b)) hx hy = ground arith
checked_sub-IsExact int64 (negsuc a) (negsuc b) hx hy = ground arith
checked_sub-IsExact uint64 (pos a) (pos zero) hx hy = ground arith
checked_sub-IsExact uint64 (pos a) (pos (suc b)) hx hy = ground arith
checked_sub-IsExact uint64 (negsuc a) y hx hy = absurd (omega arith)
checked_sub-IsExact uint64 (pos a) (negsuc b) hx hy = absurd (omega arith)

-- The answer to a negation, which is not defined at half the modulus from 0.
abbrev pub IsNegation : IntType → ℤ → Option (ℤ × RangeConstraint) → Type 0
IsNegation t x none = (pos_part x + neg_part x) * 2 ≡ modulus t
IsNegation t x (some q) = IsExact t (minus x) q

checked_neg-IsNegation : (t : IntType) (x : ℤ) → IsValueOf t x → IsNegation t x (checked_neg t x)
unfolding checked_neg
checked_neg-IsNegation int (pos zero) hx = ground arith
checked_neg-IsNegation int (pos (suc a)) hx = ground arith
checked_neg-IsNegation int (negsuc a) hx = ground arith
checked_neg-IsNegation unsigned_int (pos zero) hx = ground arith
checked_neg-IsNegation unsigned_int (pos (suc a)) hx = ground arith
checked_neg-IsNegation unsigned_int (negsuc a) hx = absurd (omega arith)
checked_neg-IsNegation int64 (pos zero) hx = ground arith
checked_neg-IsNegation int64 (pos (suc a)) hx = ground arith
checked_neg-IsNegation int64 (negsuc a) hx = ground arith
checked_neg-IsNegation uint64 (pos zero) hx = ground arith
checked_neg-IsNegation uint64 (pos (suc a)) hx = ground arith
checked_neg-IsNegation uint64 (negsuc a) hx = absurd (omega arith)

-- For values of int, unsigned int, int64_t and uint64_t: CheckedAdd, CheckedSub and CheckedNeg say
-- valid only of a result that fits the type, and then give the exact result; they say overflow only
-- where the exact result is greater than every value of the type, underflow only where it is less,
-- and never invalid; CheckedAdd and CheckedSub are always defined, and CheckedNeg is undefined only
-- at half the number of the type's values from 0, which is the least value of a signed type.
pub checked_math-IsExact :
    (t : IntType) (x y : ℤ)
    → IsValueOf t x
    → IsValueOf t y
    → IsExact t (x +ℤ y) (checked_add t x y)
      × IsExact t (x +ℤ minus y) (checked_sub t x y)
      × IsNegation t x (checked_neg t x)
checked_math-IsExact t x y hx hy = (
  checked_add-IsExact t x y hx hy,
  checked_sub-IsExact t x y hx hy,
  checked_neg-IsNegation t x hx,
)
