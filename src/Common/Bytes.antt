-- ===== src/Common/Bytes.antt =====
-- Little-endian bytes: how the program's integers lie in memory.
use lib_hh_old.Common.{
  ℕ, zero, suc, ◌+◌, ◌*◌, ◌/◌, ◌%◌, ◌^◌, ◌<◌, ◌≡◌, refl, ap, arith, List, [], ◌∷◌, ◌++◌, length,
  All, map, replicate, length-replicate,
}

abbrev pub IsByte : ℕ → Type 0
IsByte b = b < 256

unfoldable pub le_bytes : ℕ → ℕ → List ℕ
le_bytes zero v = []
le_bytes (suc n) v = v % 256 ∷ le_bytes n (v / 256)

unfoldable pub le_value : List ℕ → ℕ
le_value [] = 0
le_value (b ∷ bs) = b + 256 * le_value bs

pub length-le_bytes : (n v : ℕ) → length (le_bytes n v) ≡ n
unfolding le_bytes
length-le_bytes zero v = refl
length-le_bytes (suc n) v = ap suc (length-le_bytes n (v / 256))

-- Reading back what was written, where the value fits its bytes.
pub le_value-le_bytes : (n v : ℕ) → v < 256 ^ n → le_value (le_bytes n v) ≡ v
unfolding le_bytes le_value
le_value-le_bytes zero v h = omega arith
le_value-le_bytes (suc n) v h = omega (arith, le_value-le_bytes n (v / 256) (below n v h))
  where
    below : (n v : ℕ) → v < 256 ^ suc n → v / 256 < 256 ^ n
    below n v h = omega arith

pub le_bytes-IsByte : (n v : ℕ) → All IsByte (le_bytes n v)
unfolding le_bytes
le_bytes-IsByte zero v = tt
le_bytes-IsByte (suc n) v = (omega arith, le_bytes-IsByte n (v / 256))

pow_suc : (n : ℕ) → 256 ^ suc n ≡ 256 * 256 ^ n
pow_suc n = omega arith

pub le_value-lt : (bs : List ℕ) → All IsByte bs → le_value bs < 256 ^ length bs
unfolding le_value
le_value-lt [] h = omega arith
le_value-lt (b ∷ bs) h = omega (arith, le_value-lt bs h.1, pow_suc (length bs))

abbrev pub zeros : ℕ → List ℕ
zeros n = replicate n 0

pub length-zeros : (n : ℕ) → length (zeros n) ≡ n
length-zeros n = length-replicate n 0

-- 16-bit units as the bytes that they lie in, and back.
unfoldable pub wide_bytes : List ℕ → List ℕ
wide_bytes [] = []
wide_bytes (u ∷ us) = u % 256 ∷ (u / 256 % 256 ∷ wide_bytes us)

unfoldable pub wide_units : List ℕ → List ℕ
wide_units [] = []
wide_units (lo ∷ []) = []
wide_units (lo ∷ (hi ∷ bytes)) = (lo + 256 * hi) ∷ wide_units bytes

abbrev pub IsUnit : ℕ → Type 0
IsUnit u = u < 65536

pub wide_units-wide_bytes : (us : List ℕ) → All IsUnit us → wide_units (wide_bytes us) ≡ us
unfolding wide_bytes wide_units
wide_units-wide_bytes [] h = refl
wide_units-wide_bytes (u ∷ us) h =
    let unit : u % 256 + 256 * (u / 256 % 256) ≡ u = omega (arith, h.0) in
    rw (unit, wide_units-wide_bytes us h.1)

pub length-wide_bytes : (us : List ℕ) → length (wide_bytes us) ≡ length us * 2
unfolding wide_bytes
length-wide_bytes [] = omega arith
length-wide_bytes (u ∷ us) = omega (arith, length-wide_bytes us)

pub append-IsByte : (xs ys : List ℕ) → All IsByte xs → All IsByte ys → All IsByte (xs ++ ys)
append-IsByte [] ys hx hy = hy
append-IsByte (x ∷ xs) ys hx hy = (hx.0, append-IsByte xs ys hx.1 hy)

pub mod-IsByte : (bs : List ℕ) → All IsByte (map (λ b. b % 256) bs)
mod-IsByte [] = tt
mod-IsByte (b ∷ bs) = (omega arith, mod-IsByte bs)
