-- ===== src/Base/Numbers/Examples.antt =====
-- Runs of the conversions, and their theorems at concrete inputs.
use lib_hh_old.Common.{
  ℕ, ◌≡◌, refl, arith, Bool, true, false, some, List, [], ◌∷◌, ◌==◌, ltb, ◌||◌, ◌&&◌, ◌^◌, ◌-◌,
}
use lib_hh_old.Common.Int.{pos, negsuc}
use lib_hh_old.Base.Numbers.{
  int, int64, hexadecimal, write_digits, write_sign, unsigned_abs, skip_spaces, convert_signed,
  skip_plus, convert, skip_prefix, convert_digits, char_to_digit, append_digit, int_to_string,
  string_to_int, range_to_number,
}
use lib_hh_old.Base.Numbers.Digits.{value_from}
use lib_hh_old.Base.Numbers.Numerals.{minus, outcome, SeesVisible}
use lib_hh_old.Base.Numbers.Print.{string_to_int-int_to_string}

-- White space in the C locale.
abbrev c_space : ℕ → Bool
c_space c = c == 32 || (ltb 8 c && ltb c 14)

c_space-SeesVisible : SeesVisible c_space
c_space-SeesVisible c lo hi = ground arith

abbrev digits : List ℕ
digits = 8 ∷ 0 ∷ 0 ∷ 15 ∷ 0 ∷ 0 ∷ 0 ∷ 10 ∷ []

-- "800f000A".
abbrev letters : List ℕ
letters = 56 ∷ 48 ∷ 48 ∷ 102 ∷ 48 ∷ 48 ∷ 48 ∷ 65 ∷ []

clamps : outcome int minus (value_from hexadecimal 0 digits) ≡ (negsuc (2 ^ 31 - 1), false)
unfolding value_from
clamps = refl

string_to_int-int_to_string_example :
    (text : List ℕ) × (int_to_string int64 (negsuc 41) ≡ some text)
    × (string_to_int c_space int64 text ≡ some (negsuc 41, true))
string_to_int-int_to_string_example =
    string_to_int-int_to_string c_space int64 (negsuc 41) c_space-SeesVisible (omega arith)

prints : int_to_string int (negsuc 41) ≡ some (45 ∷ 52 ∷ 50 ∷ [])
unfolding int_to_string write_digits write_sign unsigned_abs
prints = refl

-- " 7" is read, and answered with `false`.
leading_space : string_to_int c_space int (32 ∷ 55 ∷ []) ≡ some (pos 7, false)
unfolding string_to_int range_to_number skip_spaces convert_signed skip_plus convert skip_prefix
    convert_digits char_to_digit append_digit
leading_space = refl
