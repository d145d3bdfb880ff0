-- ===== src/Base/Numbers/Numerals.antt =====
-- Numerals: a sign, a prefix and digits, read against their value.
use lib_hh_old.Common.{
  ℕ, ◌^◌, ◌≤◌, ◌<◌, ◌≡◌, refl, sym, ap, ◌∙◌, Bool, true, false, ◌&&◌, some, List, [], ◌∷◌, ◌++◌,
  arith, leb, ◌==◌, if◌then◌else◌, min,
}
use lib_hh_old.Common.Int.{ℤ, pos}
use lib_hh_old.Base.Numbers.{
  IntType, max_of, int, unsigned_int, int64, uint64, is_signed, limit, negate, Radix, decimal,
  hexadecimal, base_of, convert_digits, skip_prefix, convert, skip_plus, convert_signed,
  skip_spaces, range_to_number,
}
use lib_hh_old.Base.Numbers.Digits.{
  IsDigitChar, Spells, value_from, IsDigitChar-bounds, IsDigitChar-differs,
}
use lib_hh_old.Base.Numbers.Parse.{clamped, convert_digits-first}

-- The text of a number: a sign, `0x`, `0X` or nothing, and digits.
pub data Sign : Type 0 where
  minus plus bare : Sign

pub data Prefix : Type 0 where
  neither lower_x upper_x : Prefix

abbrev sign_chars : Sign → List ℕ
sign_chars minus = 45 ∷ []
sign_chars plus = 43 ∷ []
sign_chars bare = []

abbrev prefix_chars : Radix → Prefix → List ℕ
prefix_chars decimal prefix = []
prefix_chars hexadecimal neither = []
prefix_chars hexadecimal lower_x = 48 ∷ 120 ∷ []
prefix_chars hexadecimal upper_x = 48 ∷ 88 ∷ []

abbrev body : Radix → Prefix → List ℕ → List ℕ
body r prefix cs = prefix_chars r prefix ++ cs

abbrev pub numeral : Sign → Radix → Prefix → List ℕ → List ℕ
numeral sign r prefix cs = sign_chars sign ++ body r prefix cs

skip_prefix-body :
    (r : Radix) (prefix : Prefix) (c : ℕ) (cs ds : List ℕ)
    → Spells r cs ds
    → skip_prefix r (body r prefix (c ∷ cs)) ≡ c ∷ cs
unfolding skip_prefix
skip_prefix-body decimal prefix c cs ds h = refl
skip_prefix-body hexadecimal lower_x c cs ds h = refl
skip_prefix-body hexadecimal upper_x c cs ds h = refl
skip_prefix-body hexadecimal neither c [] ds h = refl
skip_prefix-body hexadecimal neither c (e ∷ []) ds h = refl
skip_prefix-body hexadecimal neither c (e ∷ f ∷ cs) [] h = absurd (omega arith)
skip_prefix-body hexadecimal neither c (e ∷ f ∷ cs) (d ∷ ds) (he, h) =
    rw
      (
        no_x e (IsDigitChar-bounds hexadecimal e d he).1,
        IsDigitChar-differs hexadecimal e d he,
        and-false (c == 48),
      )
      refl
  where
    no_x : (e : ℕ) → e ≤ 102 → (e == 120) ≡ false
    no_x e he = ground arith

    and-false : (b : Bool) → (b && false) ≡ false
    and-false true = refl
    and-false false = refl

convert-body :
    (r : Radix) (prefix : Prefix) (most c d : ℕ) (cs ds : List ℕ)
    → base_of r ≤ most
    → Spells r (c ∷ cs) (d ∷ ds)
    → convert r most (body r prefix (c ∷ cs)) ≡ some (clamped most (value_from r 0 (d ∷ ds)))
unfolding convert
convert-body r prefix most c d cs ds room (hd, hds) =
    nonempty r prefix
    ∙ ap (convert_digits r most true 0) (skip_prefix-body r prefix c cs ds hds)
    ∙ convert_digits-first r most c d cs ds room (hd, hds)
  where
    nonempty :
        (r : Radix) (prefix : Prefix)
        → convert r most (body r prefix (c ∷ cs))
          ≡ convert_digits r most true 0 (skip_prefix r (body r prefix (c ∷ cs)))
    nonempty decimal prefix = refl
    nonempty hexadecimal lower_x = refl
    nonempty hexadecimal upper_x = refl
    nonempty hexadecimal neither = refl

-- What is read from a numeral of the value.
abbrev pub outcome : IntType → Sign → ℕ → ℤ × Bool
outcome t minus v =
    if is_signed t then (negate (min (limit t true) v), leb v (limit t true)) else (pos 0, false)
outcome t plus v = (pos (min (limit t false) v), leb v (limit t false))
outcome t bare v = (pos (min (limit t false) v), leb v (limit t false))

-- No visible character of ASCII is white space, as C says of `isspace` and `iswspace`.
abbrev pub SeesVisible : (ℕ → Bool) → Type 0
SeesVisible is_space = (c : ℕ) → 33 ≤ c → c ≤ 126 → is_space c ≡ false

-- The first character of a body, which is no sign and no white space.
record StartsVisibly (text : List ℕ) : Type 0 where
  head : ℕ
  tail : List ℕ
  text_eq : text ≡ head ∷ tail
  above_signs : 48 ≤ head
  visible : head ≤ 126

body-StartsVisibly :
    (r : Radix) (prefix : Prefix) (c d : ℕ) (cs : List ℕ)
    → IsDigitChar r c d
    → StartsVisibly (body r prefix (c ∷ cs))
body-StartsVisibly decimal prefix c d cs h =
    let (lo, hi) = IsDigitChar-bounds decimal c d h in
    record { head = c; tail = cs; text_eq = refl; above_signs = lo; visible = omega (arith, hi) }
body-StartsVisibly hexadecimal neither c d cs h =
    let (lo, hi) = IsDigitChar-bounds hexadecimal c d h in
    record { head = c; tail = cs; text_eq = refl; above_signs = lo; visible = omega (arith, hi) }
body-StartsVisibly hexadecimal lower_x c d cs h = record {
  head = 48;
  tail = 120 ∷ c ∷ cs;
  text_eq = refl;
  above_signs = omega arith;
  visible = omega arith;
}
body-StartsVisibly hexadecimal upper_x c d cs h = record {
  head = 48;
  tail = 88 ∷ c ∷ cs;
  text_eq = refl;
  above_signs = omega arith;
  visible = omega arith;
}

base_of-bound : (r : Radix) → base_of r ≤ 16
base_of-bound decimal = omega arith
base_of-bound hexadecimal = omega arith

max_of-bound : (t : IntType) → 16 ≤ max_of t
max_of-bound int = omega arith
max_of-bound unsigned_int = omega arith
max_of-bound int64 = omega arith
max_of-bound uint64 = omega arith

module _ (t : IntType) (r : Radix) (prefix : Prefix) (c d : ℕ) (cs ds : List ℕ)
    (digits : Spells r (c ∷ cs) (d ∷ ds)) where
  value : ℕ
  value = value_from r 0 (d ∷ ds)

  positive-body : convert r (max_of t) (body r prefix (c ∷ cs)) ≡ some (clamped (max_of t) value)
  unfolding value
  positive-body =
      convert-body r prefix (max_of t) c d cs ds (omega (arith, base_of-bound r, max_of-bound t))
        digits

  convert_signed-minus :
      convert_signed t r (45 ∷ body r prefix (c ∷ cs)) ≡ some (outcome t minus value)
  unfolding value convert_signed
  convert_signed-minus =
      elim t
        as (λ t. convert_signed t r (45 ∷ body r prefix (c ∷ cs)) ≡ some (outcome t minus value)) [
          | int ↦
              rw (convert-body r prefix (2 ^ 31) c d cs ds (omega (arith, base_of-bound r)) digits)
                refl
          | unsigned_int ↦ refl
          | int64 ↦
              rw (convert-body r prefix (2 ^ 63) c d cs ds (omega (arith, base_of-bound r)) digits)
                refl
          | uint64 ↦ refl
        ]

  convert_signed-plus :
      convert_signed t r (43 ∷ body r prefix (c ∷ cs)) ≡ some (outcome t plus value)
  unfolding convert_signed skip_plus
  convert_signed-plus = rw positive-body refl

  convert_signed-bare : convert_signed t r (body r prefix (c ∷ cs)) ≡ some (outcome t bare value)
  unfolding convert_signed skip_plus
  convert_signed-bare =
      let start = body-StartsVisibly r prefix c d cs digits.0 in
      let at = start.text_eq in
      let other : (start.head == 45) ≡ false =
        differs start.head 45 start.above_signs (omega arith) in
      let other' : (start.head == 43) ≡ false =
        differs start.head 43 start.above_signs (omega arith) in
      ap (convert_signed t r) at ∙ rw (other, other', sym at, positive-body) refl
    where
      differs : (c k : ℕ) → 48 ≤ c → k < 48 → (c == k) ≡ false
      differs c k lo hi = ground arith

  convert_signed-numeral :
      (sign : Sign)
      → convert_signed t r (numeral sign r prefix (c ∷ cs)) ≡ some (outcome t sign value)
  convert_signed-numeral minus = convert_signed-minus
  convert_signed-numeral plus = convert_signed-plus
  convert_signed-numeral bare = convert_signed-bare

  numeral-StartsVisibly :
      (sign : Sign)
      → (k : ℕ) × (ks : List ℕ) × (numeral sign r prefix (c ∷ cs) ≡ k ∷ ks) × (33 ≤ k) × (k ≤ 126)
  numeral-StartsVisibly minus = (45, _, refl, omega arith, omega arith)
  numeral-StartsVisibly plus = (43, _, refl, omega arith, omega arith)
  numeral-StartsVisibly bare =
      let start = body-StartsVisibly r prefix c d cs digits.0 in
      (start.head, start.tail, start.text_eq, omega (arith, start.above_signs), start.visible)

  pub range_to_number-numeral :
      (is_space : ℕ → Bool) (sign : Sign)
      → SeesVisible is_space
      → range_to_number is_space t r (numeral sign r prefix (c ∷ cs))
        ≡ some (outcome t sign (value_from r 0 (d ∷ ds)))
  unfolding range_to_number skip_spaces value
  range_to_number-numeral is_space sign sees =
      let (k, ks, text, lo, hi) = numeral-StartsVisibly sign in
      let converted = convert_signed-numeral sign in
      ap (range_to_number is_space t r) text ∙ rw (sees k lo hi, sym text, converted) refl
