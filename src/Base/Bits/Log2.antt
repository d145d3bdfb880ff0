-- ===== src/Base/Bits/Log2.antt =====
-- What `Log2Floor` and `Log2Ceiling` compute.
use lib_hh_old.Common.{
  ℕ, zero, suc, ◌+◌, ◌-◌, ◌*◌, ◌/◌, ◌^◌, ◌≤◌, ◌<◌, ◌≡◌, refl, ap, ◌∙◌, inl, inr, arith,
}
use lib_hh_old.Common.{◌==◌, Bool-cases, ==_iff}
use lib_hh_old.Common.Int.{pos}
use lib_hh_old.Base.Bits.{log2_floor_loop, log2_floor, log2_ceiling}
use native.Mathlib.Decide.{dec_lt}
use native.Mathlib.Nat.{div-add-mod, mod-lt, div-lt_iff_lt-mul}

pow_add : (a b : ℕ) → 2 ^ (a + b) ≡ 2 ^ a * 2 ^ b
pow_add zero b = let e : zero + b ≡ b = omega arith in ap (λ t. 2 ^ t) e ∙ omega arith
pow_add (suc a) b =
    let e : suc a + b ≡ suc (a + b) = omega arith in
    ap (λ t. 2 ^ t) e ∙ omega (arith, pow_add a b, ap (λ (t : ℕ). t * 2 ^ b) (double a))
  where
    double : (k : ℕ) → 2 ^ suc k ≡ 2 * 2 ^ k
    double k = omega arith

pow_pos : (k : ℕ) → 0 < 2 ^ k
pow_pos zero = omega arith
pow_pos (suc k) = omega (arith, pow_pos k)

pow_mono : (a b : ℕ) → a ≤ b → 2 ^ a ≤ 2 ^ b
pow_mono a b h =
    let e : b ≡ a + (b - a) = omega arith in
    grind (arith, ap (λ t. 2 ^ t) e, pow_add a (b - a), pow_pos (b - a))

pow_lt : (a b : ℕ) → 2 ^ a < 2 ^ b → a < b
pow_lt a b h = elim (dec_lt a b) [
  | yes p ↦ p
  | no p ↦ absurd (omega (arith, pow_mono b a (omega arith)))
]

-- `r` is the place of the highest one of `v`.
abbrev pub IsLog2 : ℕ → ℕ → Type 0
IsLog2 v r = (2 ^ r ≤ v) × (v < 2 ^ suc r)

square : (i : ℕ) → 2 ^ 2 ^ suc i ≡ 2 ^ 2 ^ i * 2 ^ 2 ^ i
square i =
    let e : 2 ^ suc i ≡ 2 ^ i + 2 ^ i = omega arith in ap (λ t. 2 ^ t) e ∙ pow_add (2 ^ i) (2 ^ i)

-- A number whose quotient by `2 ^ s` has its highest one at `r` has it at `s + r`.
IsLog2-div : (s v r : ℕ) → IsLog2 (v / 2 ^ s) r → IsLog2 v (s + r)
IsLog2-div s v r (lo, hi) =
    let e : suc (s + r) ≡ s + suc r = omega arith in
    let top : 2 ^ suc (s + r) ≡ 2 ^ s * 2 ^ suc r = ap (λ t. 2 ^ t) e ∙ pow_add s (suc r) in
    (
      grind (arith, pow_add s r, div-add-mod v (2 ^ s)),
      grind (arith, top, div-add-mod v (2 ^ s), mod-lt v (pow_pos s)),
    )

log2_floor_loop-IsLog2 :
    (i value log : ℕ)
    → 0 < value
    → value < 2 ^ 2 ^ i
    → (r : ℕ) × (log2_floor_loop i value log ≡ log + r) × IsLog2 value r
unfolding log2_floor_loop
log2_floor_loop-IsLog2 zero value log p h = (0, omega arith, (omega arith, omega arith))
log2_floor_loop-IsLog2 (suc i) value log p h = elim (Bool-cases (value / 2 ^ 2 ^ i == 0)) [
  | inl e ↦ rw e (log2_floor_loop-IsLog2 i value log p (small ((==_iff _ 0).0 e)))
  | inr e ↦
      let (r, run, place) =
        log2_floor_loop-IsLog2 i (value / 2 ^ 2 ^ i) (log + 2 ^ i) (ground arith) below in
      rw e (2 ^ i + r, omega (arith, run), IsLog2-div (2 ^ i) value r place)
]
  where
    small : value / 2 ^ 2 ^ i ≡ 0 → value < 2 ^ 2 ^ i
    small e = grind (arith, div-add-mod value (2 ^ 2 ^ i), mod-lt value (pow_pos (2 ^ i)))

    below : value / 2 ^ 2 ^ i < 2 ^ 2 ^ i
    below = (div-lt_iff_lt-mul (pow_pos (2 ^ i))).1 (omega (arith, square i))

-- Log2Floor of a nonzero 32-bit word is the exponent r with 2^r at most the word and the word below
-- 2^(r+1).
pub log2_floor-IsLog2 :
    (n : ℕ) → 0 < n → n < 2 ^ 32 → (r : ℕ) × (log2_floor n ≡ pos r) × (2 ^ r ≤ n) × (n < 2 ^ suc r)
unfolding log2_floor
log2_floor-IsLog2 n p h =
    let (r, run, place) = log2_floor_loop-IsLog2 5 n 0 p h in
    (r, ground (arith, run), place.0, place.1)

log2_ceiling_one : log2_ceiling 1 ≡ pos 0
unfolding log2_ceiling log2_floor
log2_ceiling_one = refl

log2_ceiling_step :
    (m r : ℕ) → log2_floor (suc m) ≡ pos r → log2_ceiling (suc (suc m)) ≡ pos (suc r)
unfolding log2_ceiling
log2_ceiling_step m r run =
    let pred : suc (suc m) - 1 ≡ suc m = omega arith in ground (arith, ap log2_floor pred ∙ run)

-- Log2Ceiling of a nonzero 32-bit word is the least exponent whose power of two reaches it.
pub log2_ceiling-IsLeast :
    (n : ℕ)
    → 0 < n
    → n < 2 ^ 32
    → (r : ℕ) × (log2_ceiling n ≡ pos r) × (n ≤ 2 ^ r) × ((k : ℕ) → n ≤ 2 ^ k → r ≤ k)
log2_ceiling-IsLeast zero p h = absurd (omega arith)
log2_ceiling-IsLeast (suc zero) p h = (0, log2_ceiling_one, omega arith, λ k hk. omega arith)
log2_ceiling-IsLeast (suc (suc m)) p h =
    let (r, run, lo, hi) = log2_floor-IsLog2 (suc m) (omega arith) (omega arith) in
    (suc r, log2_ceiling_step m r run, hi, λ k hk. pow_lt r k (omega arith))
