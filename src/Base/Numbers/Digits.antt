-- ===== src/Base/Numbers/Digits.antt =====
-- Digits as characters, and the value of a sequence of digits.
use lib_hh_old.Common.{
  ℕ, ◌+◌, ◌*◌, ◌≤◌, ◌<◌, ◌≡◌, refl, some, List, [], ◌∷◌, ◌++◌, arith, leb, ◌-◌, ◌⊎◌, inl, inr, map,
  All, ap, ◌∙◌, ◌==◌, false,
}
use lib_hh_old.Base.Numbers.{
  Radix, decimal, hexadecimal, base_of, char_to_digit, check_bounds, hex_char,
}

-- The value of a sequence of digits behind others of a value.
unfoldable pub value_from : Radix → ℕ → List ℕ → ℕ
value_from r output [] = output
value_from r output (d ∷ ds) = value_from r (output * base_of r + d) ds

abbrev pub IsDigit : Radix → ℕ → Type 0
IsDigit r d = d < base_of r

pub char_to_digit-hex_char :
    (r : Radix) (d : ℕ) → IsDigit r d → char_to_digit r (hex_char d) ≡ some d
unfolding char_to_digit
char_to_digit-hex_char decimal d h = ground arith
char_to_digit-hex_char hexadecimal d h = ground arith

-- A character that stands for a digit: decimal or upper-case, or lower-case.
abbrev pub IsDigitChar : Radix → ℕ → ℕ → Type 0
IsDigitChar r c d = IsDigit r d × ((c ≡ hex_char d) ⊎ ((10 ≤ d) × (c ≡ 97 + (d - 10))))

-- A text that spells the digits, each letter in either case.
abbrev pub Spells : Radix → List ℕ → List ℕ → Type 0
Spells r [] [] = Unit
Spells r [] (d ∷ ds) = 1 ≤ 0
Spells r (c ∷ cs) [] = 1 ≤ 0
Spells r (c ∷ cs) (d ∷ ds) = IsDigitChar r c d × Spells r cs ds

pub Spells-hex_char : (r : Radix) (ds : List ℕ) → All (IsDigit r) ds → Spells r (map hex_char ds) ds
Spells-hex_char r [] all = tt
Spells-hex_char r (d ∷ ds) (h, all) = ((h, inl refl), Spells-hex_char r ds all)

char_to_digit-lower :
    (r : Radix) (d : ℕ) → IsDigit r d → 10 ≤ d → char_to_digit r (97 + (d - 10)) ≡ some d
unfolding char_to_digit
char_to_digit-lower decimal d h le = absurd (omega arith)
char_to_digit-lower hexadecimal d h le = ground arith

pub char_to_digit-IsDigitChar :
    (r : Radix) (c d : ℕ) → IsDigitChar r c d → char_to_digit r c ≡ some d
char_to_digit-IsDigitChar r c d (h, spelled) = elim spelled [
  | inl e ↦ ap (char_to_digit r) e ∙ char_to_digit-hex_char r d h
  | inr (le, e) ↦ ap (char_to_digit r) e ∙ char_to_digit-lower r d h le
]

-- Where a digit's character is in ASCII.
pub IsDigitChar-bounds : (r : Radix) (c d : ℕ) → IsDigitChar r c d → (48 ≤ c) × (c ≤ 102)
IsDigitChar-bounds decimal c d (h, inl e) = (ground arith, ground arith)
IsDigitChar-bounds decimal c d (h, inr (le, e)) = absurd (omega arith)
IsDigitChar-bounds hexadecimal c d (h, inl e) = (ground arith, ground arith)
IsDigitChar-bounds hexadecimal c d (h, inr (le, e)) = (omega arith, omega arith)

-- The letter of a prefix is no digit.
pub IsDigitChar-differs : (r : Radix) (c d : ℕ) → IsDigitChar r c d → (c == 88) ≡ false
IsDigitChar-differs decimal c d (h, inl e) = ground arith
IsDigitChar-differs decimal c d (h, inr (le, e)) = absurd (omega arith)
IsDigitChar-differs hexadecimal c d (h, inl e) = ground arith
IsDigitChar-differs hexadecimal c d (h, inr (le, e)) = ground arith

pub value_from-grows : (r : Radix) (output : ℕ) (ds : List ℕ) → output ≤ value_from r output ds
unfolding value_from
value_from-grows r output [] = omega arith
value_from-grows decimal output (d ∷ ds) =
    omega (arith, value_from-grows decimal (output * 10 + d) ds)
value_from-grows hexadecimal output (d ∷ ds) =
    omega (arith, value_from-grows hexadecimal (output * 16 + d) ds)

pub value_from-append :
    (r : Radix) (output : ℕ) (xs : List ℕ) (d : ℕ)
    → value_from r output (xs ++ (d ∷ [])) ≡ value_from r output xs * base_of r + d
unfolding value_from
value_from-append r output [] d = refl
value_from-append r output (x ∷ xs) d = value_from-append r (output * base_of r + x) xs d

-- The check before a digit is appended looks at whether the result stays within the limit.
pub check_bounds_iff :
    (r : Radix) (most output d : ℕ)
    → IsDigit r d
    → check_bounds r most output d ≡ leb (output * base_of r + d) most
unfolding check_bounds
check_bounds_iff decimal most output d h = ground arith
check_bounds_iff hexadecimal most output d h = ground arith
