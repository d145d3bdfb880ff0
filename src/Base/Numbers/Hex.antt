-- ===== src/Base/Numbers/Hex.antt =====
-- Bytes as pairs of hexadecimal digits.
use lib_hh_old.Common.{
  ℕ, ◌+◌, ◌*◌, ◌/◌, ◌%◌, ◌<◌, ◌≡◌, refl, ap, true, false, List, [], ◌∷◌, arith, ◌==◌, length, All,
}
use lib_hh_old.Common.Bytes.{IsByte}
use lib_hh_old.Base.Numbers.{hexadecimal, hex_encode, hex_pairs, hex_string_to_bytes}
use lib_hh_old.Base.Numbers.Digits.{char_to_digit-hex_char}

length-hex_encode : (bytes : List ℕ) → length (hex_encode bytes) ≡ length bytes * 2
unfolding hex_encode
length-hex_encode [] = refl
length-hex_encode (b ∷ bytes) = omega (arith, length-hex_encode bytes)

hex_pairs-hex_encode :
    (bytes : List ℕ) → All IsByte bytes → hex_pairs (hex_encode bytes) ≡ (bytes, true)
unfolding hex_encode hex_pairs
hex_pairs-hex_encode [] h = refl
hex_pairs-hex_encode (b ∷ bytes) (hb, h) =
    rw
      (
        hex_pairs,
        char_to_digit-hex_char hexadecimal (b / 16 % 16) (omega arith),
        char_to_digit-hex_char hexadecimal (b % 16) (omega arith),
        hex_pairs-hex_encode bytes h,
      )
      (ap (λ c. (c ∷ bytes, true)) (whole b hb))
  where
    whole : (b : ℕ) → b < 256 → b / 16 % 16 * 16 + b % 16 ≡ b
    whole b h = omega arith

-- HexStringToBytes accepts what HexEncode makes of at least one byte, and gives the bytes back.
pub hex_string_to_bytes-hex_encode :
    (b : ℕ) (bytes : List ℕ)
    → All IsByte (b ∷ bytes)
    → hex_string_to_bytes (hex_encode (b ∷ bytes)) ≡ (b ∷ bytes, true)
unfolding hex_string_to_bytes
hex_string_to_bytes-hex_encode b bytes h =
    rw (some_pairs, even) (hex_pairs-hex_encode (b ∷ bytes) h)
  where
    some_pairs : (length (hex_encode (b ∷ bytes)) == 0) ≡ false
    some_pairs = ground (arith, length-hex_encode (b ∷ bytes))

    even : (length (hex_encode (b ∷ bytes)) % 2 == 0) ≡ true
    even = ground (arith, length-hex_encode (b ∷ bytes))
