-- ===== src/Common/Bits.antt =====
-- Masks of the native numbers as arithmetic: a mask of ones below, and one of ones above.
use Prim.Native.Nat.{digits, bit_and, bit_and-bitwise}
use lib_hh_old.Common.{
  ℕ, zero, suc, ◌+◌, ◌-◌, ◌*◌, ◌/◌, ◌%◌, ◌^◌, ◌≤◌, ◌<◌, ◌≡◌, refl, sym, ap, ◌∙◌, min, arith,
}
use native.Mathlib.Nat.{
  mod-lt, mod-eq_of_lt, div-add-mod, mul-add-mod_self_left, div-div-eq-div-mul,
}

abbrev digits_min : ℕ → ℕ → ℕ → ℕ
digits_min fuel a b = digits (λ b. zero) min fuel a b

-- More fuel than the number changes nothing.
digits_min_enough : (f g a b : ℕ) → a ≤ f → a ≤ g → digits_min f a b ≡ digits_min g a b
digits_min_enough zero zero a b p q = refl
digits_min_enough zero (suc g) zero b p q = refl
digits_min_enough zero (suc g) (suc a) b p q = absurd (omega arith)
digits_min_enough (suc f) zero zero b p q = refl
digits_min_enough (suc f) zero (suc a) b p q = absurd (omega arith)
digits_min_enough (suc f) (suc g) zero b p q = refl
digits_min_enough (suc f) (suc g) (suc a) b p q =
    omega (arith, digits_min_enough f g (suc a / 2) (b / 2) (omega arith) (omega arith))

bit_and_zero_left : (b : ℕ) → bit_and 0 b ≡ 0
bit_and_zero_left b = bit_and-bitwise 0 b

-- The lowest binary digit, and the rest.
pub bit_and_digit : (a b : ℕ) → bit_and a b ≡ bit_and (a / 2) (b / 2) * 2 + min (a % 2) (b % 2)
bit_and_digit zero b = omega (arith, bit_and_zero_left b, bit_and_zero_left (b / 2))
bit_and_digit (suc a) b = omega (
  arith,
  digits_min_enough a (suc a / 2) (suc a / 2) (b / 2) (omega arith) (omega arith),
  bit_and-bitwise (suc a / 2) (b / 2),
  bit_and-bitwise (suc a) b,
)

bit_and_zero_fuel : (n a : ℕ) → a ≤ n → bit_and a 0 ≡ 0
bit_and_zero_fuel n zero h = refl
bit_and_zero_fuel zero (suc a) h = absurd (omega arith)
bit_and_zero_fuel (suc n) (suc a) h =
    omega (arith, bit_and_digit (suc a) 0, bit_and_zero_fuel n (suc a / 2) (omega arith))

pub bit_and_zero_right : (a : ℕ) → bit_and a 0 ≡ 0
bit_and_zero_right a = bit_and_zero_fuel a a (omega arith)

pow_two_suc : (k : ℕ) → 2 ^ suc k ≡ 2 * 2 ^ k
pow_two_suc k = omega arith

pow_two_pos : (k : ℕ) → 0 < 2 ^ k
pow_two_pos zero = omega arith
pow_two_pos (suc k) = omega (arith, pow_two_pos k)

-- `%` by an even number, one binary digit at a time.
mod_double : (a p : ℕ) → 0 < p → a % (2 * p) ≡ a / 2 % p * 2 + a % 2
mod_double a p h =
    ap (λ t. t % (2 * p)) parts
    ∙ mul-add-mod_self_left (2 * p) (a / 2 / p) (a / 2 % p * 2 + a % 2)
    ∙ mod-eq_of_lt (omega (arith, mod-lt (a / 2) h))
  where
    parts : a ≡ 2 * p * (a / 2 / p) + (a / 2 % p * 2 + a % 2)
    parts = omega (arith, div-add-mod (a / 2) p)

-- A mask of `k` ones keeps the low `k` bits.
pub bit_and_ones : (k a : ℕ) → bit_and a (2 ^ k - 1) ≡ a % 2 ^ k
bit_and_ones zero a = omega (arith, bit_and_zero_right a)
bit_and_ones (suc k) a =
    bit_and_digit a (2 ^ suc k - 1)
    ∙ ap (λ t. bit_and (a / 2) t * 2 + min (a % 2) ((2 ^ suc k - 1) % 2)) half
    ∙ omega (
      arith,
      bit_and_ones k (a / 2),
      mod_double a (2 ^ k) (pow_two_pos k),
      pow_two_pos k,
      ap (λ t. a % t) (pow_two_suc k),
    )
  where
    half : (2 ^ suc k - 1) / 2 ≡ 2 ^ k - 1
    half = omega (arith, pow_two_pos k)

-- A mask that ends in `k` zeros cuts off the low `k` bits.
pub bit_and_shifted : (k a b : ℕ) → bit_and a (b * 2 ^ k) ≡ bit_and (a / 2 ^ k) b * 2 ^ k
bit_and_shifted zero a b =
    let one_b : b * 2 ^ 0 ≡ b = omega arith in
    let one_a : a / 2 ^ 0 ≡ a = omega arith in
    ap (bit_and a) one_b ∙ ap (λ t. bit_and t b) (sym one_a) ∙ omega arith
bit_and_shifted (suc k) a b =
    bit_and_digit a (b * 2 ^ suc k)
    ∙ ap (λ t. bit_and (a / 2) t * 2 + min (a % 2) (b * 2 ^ suc k % 2)) half
    ∙ omega (
      arith,
      bit_and_shifted k (a / 2) b,
      ap (λ t. bit_and t b * 2 ^ suc k) quotient,
      ap (λ t. b * t) (pow_two_suc k),
      ap (λ t. bit_and (a / 2 / 2 ^ k) b * t) (pow_two_suc k),
    )
  where
    half : b * 2 ^ suc k / 2 ≡ b * 2 ^ k
    half = omega (arith, ap (λ t. b * t) (pow_two_suc k))

    quotient : a / 2 / 2 ^ k ≡ a / 2 ^ suc k
    quotient = div-div-eq-div-mul a 2 (2 ^ k) ∙ ap (λ t. a / t) (omega arith)
