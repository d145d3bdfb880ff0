-- ===== src/Base/Numbers.antt =====
-- libHH/base/strings/string_number_conversions.cc: numbers to text and back. A character is its
-- code; `char` and `char16` text differ in what white space is alone, which is a parameter.
pub mod Digits
pub mod Parse
pub mod Numerals
pub mod Print
pub mod Hex
mod Examples
use lib_hh_old.Common.{
  ℕ, zero, suc, ◌+◌, ◌-◌, ◌*◌, ◌/◌, ◌%◌, ◌^◌, Bool, true, false, not, ◌&&◌, ◌||◌, Option, some,
  none, List, [], ◌∷◌, ltb, leb, ◌==◌, if◌then◌else◌, ◌>>=◌, length,
}
use lib_hh_old.Common.Int.{ℤ, pos, negsuc, pos_part, neg_part, eq_ℤ}

-- The types that the templates are instantiated with; `size_t` is `unsigned int`.
pub data IntType : Type 0 where
  int : IntType
  unsigned_int : IntType
  int64 : IntType
  uint64 : IntType

abbrev pub sizeof_int : IntType → ℕ
sizeof_int int = 4
sizeof_int unsigned_int = 4
sizeof_int int64 = 8
sizeof_int uint64 = 8

abbrev pub is_signed : IntType → Bool
is_signed int = true
is_signed unsigned_int = false
is_signed int64 = true
is_signed uint64 = false

-- `numeric_limits::max()`, and how far `numeric_limits::min()` lies below zero.
abbrev pub max_of : IntType → ℕ
max_of int = 2 ^ 31 - 1
max_of unsigned_int = 2 ^ 32 - 1
max_of int64 = 2 ^ 63 - 1
max_of uint64 = 2 ^ 64 - 1

abbrev pub depth_of : IntType → ℕ
depth_of int = 2 ^ 31
depth_of unsigned_int = 0
depth_of int64 = 2 ^ 63
depth_of uint64 = 0

-- Zero, or minus a number.
abbrev pub negate : ℕ → ℤ
negate zero = pos 0
negate (suc n) = negsuc n

-- `CheckedUnsignedAbs`.
unfoldable pub unsigned_abs : IntType → ℤ → ℕ
unsigned_abs t value =
    if is_signed t && eq_ℤ value (negate (depth_of t))
    then max_of t + 1
    else pos_part value + neg_part value

-- `kOutputBufSize`.
abbrev pub output_buf_size : IntType → ℕ
output_buf_size t = 3 * sizeof_int t + (if is_signed t then 1 else 0)

-- The loop that writes back to front; the first number is `i - outbuf`, and `none` a failed
-- `DCHECK(i != outbuf)`.
unfoldable pub write_digits : ℕ → ℕ → List ℕ → Option (ℕ × List ℕ)
write_digits zero res text = none
write_digits (suc i) res text =
    let text' : List ℕ = (res % 10 + 48) ∷ text in
    let rest : Option (ℕ × List ℕ) = write_digits i (res / 10) text' in
    if i == 0 then none else if res / 10 == 0 then some (i, text') else rest

unfoldable pub write_sign : ℕ → List ℕ → Option (List ℕ)
write_sign i text = if leb i 1 then none else some (45 ∷ text)

unfoldable pub int_to_string : IntType → ℤ → Option (List ℕ)
int_to_string t value = do
  (i, text) ← write_digits (output_buf_size t) (unsigned_abs t value) []
  elim value [ pos n ↦ some text | negsuc n ↦ write_sign i text ]

-- `kBase`.
pub data Radix : Type 0 where
  decimal : Radix
  hexadecimal : Radix

abbrev pub base_of : Radix → ℕ
base_of decimal = 10
base_of hexadecimal = 16

-- `BaseCharToDigit<CHAR, BASE, ...>::Convert`.
unfoldable pub char_to_digit : Radix → ℕ → Option ℕ
char_to_digit decimal c = if leb 48 c && ltb c (48 + 10) then some (c - 48) else none
char_to_digit hexadecimal c =
    if leb 48 c && leb c 57
    then some (c - 48)
    else if leb 97 c && ltb c (97 + 16 - 10)
    then some (c - 97 + 10)
    else if leb 65 c && ltb c (65 + 16 - 10)
    then some (c - 65 + 10)
    else none

-- The classes `Positive` and `Negative`: the output of `Negative` is minus the number here, which
-- `limit` bounds, and C++ divides `min()` towards zero.
abbrev pub limit : IntType → Bool → ℕ
limit t negative = if negative then depth_of t else max_of t

unfoldable pub check_bounds : Radix → ℕ → ℕ → ℕ → Bool
check_bounds r most output digit =
    not (
      ltb (most / base_of r) output || (output == most / base_of r && ltb (most % base_of r) digit))

-- Arithmetic of the value type: `none` where the result leaves the type.
abbrev pub in_range : ℕ → ℕ → Option ℕ
in_range most n = if leb n most then some n else none

unfoldable pub append_digit : Radix → ℕ → Bool → ℕ → ℕ → Option ℕ
append_digit r most first output digit = do
  scaled ← if first then some output else in_range most (output * base_of r)
  in_range most (scaled + digit)

-- The loop over the digits, with the output and the answer.
unfoldable pub convert_digits : Radix → ℕ → Bool → ℕ → List ℕ → Option (ℕ × Bool)
convert_digits r most first output [] = some (output, true)
convert_digits r most first output (c ∷ cs) = elim (char_to_digit r c) [
  | none ↦ some (output, false)
  | some digit ↦
      if not first && not (check_bounds r most output digit)
      then some (most, false)
      else (append_digit r most first output digit >>= λ next. convert_digits r most false next cs)
]

unfoldable pub skip_prefix : Radix → List ℕ → List ℕ
skip_prefix hexadecimal (a ∷ x ∷ y ∷ cs) =
    if a == 48 && (x == 120 || x == 88) then y ∷ cs else a ∷ x ∷ y ∷ cs
skip_prefix r cs = cs

-- `Base<Sign>::Invoke`.
unfoldable pub convert : Radix → ℕ → List ℕ → Option (ℕ × Bool)
convert r most [] = some (0, false)
convert r most (c ∷ cs) = convert_digits r most true 0 (skip_prefix r (c ∷ cs))

abbrev pub as_negative : ℕ × Bool → ℤ × Bool
as_negative (n, ok) = (negate n, ok)

abbrev pub as_positive : ℕ × Bool → ℤ × Bool
as_positive (n, ok) = (pos n, ok)

unfoldable pub skip_plus : List ℕ → List ℕ
skip_plus [] = []
skip_plus (c ∷ cs) = if c == 43 then cs else c ∷ cs

unfoldable pub convert_signed : IntType → Radix → List ℕ → Option (ℤ × Bool)
convert_signed t r [] = do res ← convert r (limit t false) []; some (as_positive res)
convert_signed t r (c ∷ cs) =
    if c == 45
    then (if is_signed t
        then (convert r (limit t true) cs >>= λ res. some (as_negative res))
        else some (pos 0, false))
    else (convert r (limit t false) (skip_plus (c ∷ cs)) >>= λ res. some (as_positive res))

-- `IteratorRangeToNumber::Invoke`; white space before the number makes the answer `false`.
module _ (is_space : ℕ → Bool) where
  unfoldable pub skip_spaces : List ℕ → List ℕ × Bool
  skip_spaces [] = ([], true)
  skip_spaces (c ∷ cs) =
      let rest : List ℕ × Bool = skip_spaces cs in
      if is_space c then (rest.0, false) else (c ∷ cs, true)

  unfoldable pub range_to_number : IntType → Radix → List ℕ → Option (ℤ × Bool)
  range_to_number t r input =
      let (text, valid) = skip_spaces input in
      convert_signed t r text >>= λ (output, ok). some (output, valid && ok)

  -- `StringToInt`, `StringToUint`, `StringToInt64`, `StringToUint64`, `StringToSizeT`.
  unfoldable pub string_to_int : IntType → List ℕ → Option (ℤ × Bool)
  string_to_int t input = range_to_number t decimal input

  -- `HexStringToInt`, `HexStringToUInt`, `HexStringToInt64`, `HexStringToUInt64`.
  unfoldable pub hex_string_to_int : IntType → List ℕ → Option (ℤ × Bool)
  hex_string_to_int t input = range_to_number t hexadecimal input

-- `kHexChars[d]`.
abbrev pub hex_char : ℕ → ℕ
hex_char d = if ltb d 10 then 48 + d else 65 + (d - 10)

unfoldable pub hex_encode : List ℕ → List ℕ
hex_encode [] = []
hex_encode (b ∷ bytes) = hex_char (b / 16 % 16) ∷ hex_char (b % 16) ∷ hex_encode bytes

-- The loop of `HexStringToBytesT`; the four low bits of `msb << 4` are zero, so `|` adds.
unfoldable pub hex_pairs : List ℕ → List ℕ × Bool
hex_pairs [] = ([], true)
hex_pairs (a ∷ []) = ([], false)
hex_pairs (a ∷ b ∷ cs) =
    let rest : List ℕ × Bool = hex_pairs cs in
    elim (char_to_digit hexadecimal a) [
      | none ↦ ([], false)
      | some msb ↦ elim (char_to_digit hexadecimal b) [
        | none ↦ ([], false)
        | some lsb ↦ ((msb * 16 + lsb) ∷ rest.0, rest.1)
      ]
    ]

unfoldable pub hex_string_to_bytes : List ℕ → List ℕ × Bool
hex_string_to_bytes input =
    if length input == 0 || not (length input % 2 == 0) then ([], false) else hex_pairs input
