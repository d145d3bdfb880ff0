-- ===== src/Base/Numbers/Print.antt =====
-- Numbers as text, and back.
use lib_hh_old.Common.{
  ℕ, zero, suc, ◌+◌, ◌/◌, ◌%◌, ◌^◌, ◌≤◌, ◌<◌, ◌≡◌, refl, ap, ◌∙◌, Bool, true, false, Option, some,
  List, [], ◌∷◌, ◌++◌, append-nil, map, arith, ltb, lt→not-leb, ◌==◌, if◌then◌else◌, All, inl, inr,
  Bool-cases,
}
use mathlib.Core.Path.{subst}
use lib_hh_old.Common.Int.{ℤ, pos, negsuc}
use lib_hh_old.Base.Numbers.{
  IntType, int, unsigned_int, int64, uint64, is_signed, max_of, depth_of, unsigned_abs,
  output_buf_size, write_digits, write_sign, int_to_string, decimal, string_to_int, hex_char,
}
use lib_hh_old.Base.Numbers.Digits.{IsDigit, Spells-hex_char, value_from, value_from-append}
use lib_hh_old.Base.Numbers.Numerals.{
  minus, bare, neither, outcome, SeesVisible, range_to_number-numeral,
}

-- The digits that have been written before a text, with places left in front of them.
record Written (left res : ℕ) (text : List ℕ) (result : Option (ℕ × List ℕ)) : Type 0 where
  at : ℕ
  digit : ℕ
  digits : List ℕ
  run : result ≡ some (at, map hex_char (digit ∷ digits) ++ text)
  enough : left ≤ at
  are_digits : All (IsDigit decimal) (digit ∷ digits)
  value_eq : value_from decimal 0 (digit ∷ digits) ≡ res

last_digit : (res : ℕ) (text : List ℕ) → (res % 10 + 48) ∷ text ≡ hex_char (res % 10) ∷ text
last_digit res text = ap (λ c. c ∷ text) same
  where
    same : res % 10 + 48 ≡ hex_char (res % 10)
    same = ground arith

All-last : (P : ℕ → Type 0) (xs : List ℕ) (x : ℕ) → All P xs → P x → All P (xs ++ (x ∷ []))
All-last P [] x h hx = (hx, tt)
All-last P (y ∷ xs) x (hy, h) hx = (hy, All-last P xs x h hx)

map-last :
    (xs : List ℕ) (x : ℕ) (text : List ℕ)
    → map hex_char xs ++ (hex_char x ∷ text) ≡ map hex_char (xs ++ (x ∷ [])) ++ text
map-last [] x text = refl
map-last (y ∷ xs) x text = ap (λ t. hex_char y ∷ t) (map-last xs x text)

-- The last step of the loop.
last-Written :
    (i left res : ℕ) (text : List ℕ)
    → 0 < left
    → left ≤ i
    → res < 10
    → Written left res text (write_digits (suc i) res text)
unfolding write_digits value_from
last-Written i left res text room fits small = record {
  at = i;
  digit = res % 10;
  digits = [];
  run = rw (none_left, is_last) (ap (λ t. some (i, t)) (last_digit res text));
  enough = fits;
  are_digits = (omega arith, tt);
  value_eq = omega arith;
}
  where
    none_left : (i == 0) ≡ false
    none_left = ground arith

    is_last : (res / 10 == 0) ≡ true
    is_last = ground arith

-- A step with others to come.
more-Written :
    (i left res : ℕ) (text : List ℕ)
    → 0 < i
    → 10 ≤ res
    → Written left
        (res / 10)
        ((res % 10 + 48) ∷ text)
        (write_digits i (res / 10) ((res % 10 + 48) ∷ text))
    → Written left res text (write_digits (suc i) res text)
unfolding write_digits
more-Written i left res text room big w = record {
  at = w.at;
  digit = w.digit;
  digits = w.digits ++ (res % 10 ∷ []);
  run =
      rw (some_left, not_last)
        (w.run
          ∙ ap (λ t. some (w.at, t))
              (ap (λ t. map hex_char (w.digit ∷ w.digits) ++ t) (last_digit res text)
                ∙ map-last (w.digit ∷ w.digits) (res % 10) text));
  enough = w.enough;
  are_digits =
      All-last (IsDigit decimal) (w.digit ∷ w.digits) (res % 10) w.are_digits (omega arith);
  value_eq =
      value_from-append decimal 0 (w.digit ∷ w.digits) (res % 10) ∙ omega (arith, w.value_eq);
}
  where
    some_left : (i == 0) ≡ false
    some_left = ground arith

    not_last : (res / 10 == 0) ≡ false
    not_last = ground arith

write_digits-Written :
    (k left res : ℕ) (text : List ℕ)
    → 0 < left
    → res < 10 ^ suc k
    → Written left res text (write_digits (suc (k + left)) res text)
write_digits-Written zero left res text room small =
    last-Written (0 + left) left res text room (omega arith) (omega arith)
write_digits-Written (suc k) left res text room small = elim (Bool-cases (ltb res 10)) [
  | inl one ↦ last-Written (suc k + left) left res text room (omega arith) (ltb→lt res 10 one)
  | inr many ↦ more-Written (suc k + left) left res text (omega arith) (not-ltb→le res 10 many) (
      subst
        (λ i.
          Written left (res / 10) ((res % 10 + 48) ∷ text)
            (write_digits i (res / 10) ((res % 10 + 48) ∷ text)))
        (next k left)
        (write_digits-Written k left (res / 10) ((res % 10 + 48) ∷ text) room (below k res small)))
]
  where
    next : (k left : ℕ) → suc (k + left) ≡ suc k + left
    next k left = omega arith

    below : (k res : ℕ) → res < 10 ^ suc (suc k) → res / 10 < 10 ^ suc k
    below k res h = omega arith

    ltb→lt : (a b : ℕ) → ltb a b ≡ true → a < b
    ltb→lt a b h = ground arith

    not-ltb→le : (a b : ℕ) → ltb a b ≡ false → b ≤ a
    not-ltb→le a b h = ground arith

-- The values of a type.
abbrev pub IsValueOf : IntType → ℤ → Type 0
IsValueOf t (pos n) = n ≤ max_of t
IsValueOf t (negsuc n) = suc n ≤ depth_of t

abbrev magnitude : ℤ → ℕ
magnitude (pos n) = n
magnitude (negsuc n) = suc n

unsigned_abs-IsValueOf : (t : IntType) (z : ℤ) → IsValueOf t z → unsigned_abs t z ≡ magnitude z
unfolding unsigned_abs
unsigned_abs-IsValueOf int (pos n) h = ground arith
unsigned_abs-IsValueOf int (negsuc n) h = ground arith
unsigned_abs-IsValueOf unsigned_int (pos n) h = omega arith
unsigned_abs-IsValueOf unsigned_int (negsuc n) h = omega arith
unsigned_abs-IsValueOf int64 (pos n) h = ground arith
unsigned_abs-IsValueOf int64 (negsuc n) h = ground arith
unsigned_abs-IsValueOf uint64 (pos n) h = omega arith
unsigned_abs-IsValueOf uint64 (negsuc n) h = omega arith

-- The buffer has room for the digits, for a sign where the type has one, and for a place that is
-- never used.
places : IntType → ℕ
places t = if is_signed t then 2 else 1

buffer-Written :
    (t : IntType) (res : ℕ)
    → res ≤ max_of t + 1
    → Written (places t) res [] (write_digits (output_buf_size t) res [])
unfolding places
buffer-Written int res h = write_digits-Written 10 2 res [] (omega arith) (omega arith)
buffer-Written unsigned_int res h = write_digits-Written 10 1 res [] (omega arith) (omega arith)
buffer-Written int64 res h = write_digits-Written 22 2 res [] (omega arith) (omega arith)
buffer-Written uint64 res h = write_digits-Written 22 1 res [] (omega arith) (omega arith)

depth-max : (t : IntType) → depth_of t ≤ max_of t + 1
depth-max int = omega arith
depth-max unsigned_int = omega arith
depth-max int64 = omega arith
depth-max uint64 = omega arith

-- What a value of the type reads as.
outcome-bare : (t : IntType) (n : ℕ) → n ≤ max_of t → outcome t bare n ≡ (pos n, true)
outcome-bare t n h = ground arith

outcome-minus :
    (t : IntType) (n : ℕ)
    → suc n ≤ depth_of t
    → (outcome t minus (suc n) ≡ (negsuc n, true)) × (places t ≡ 2)
unfolding places
outcome-minus int n h = (ground arith, refl)
outcome-minus unsigned_int n h = absurd (omega arith)
outcome-minus int64 n h = (ground arith, refl)
outcome-minus uint64 n h = absurd (omega arith)

-- Where no visible ASCII character is white space: every value of int, unsigned int, int64_t and
-- uint64_t is printed without leaving the buffer or reaching its first place, and StringToInt and
-- its kin accept the text and give the value back.
pub string_to_int-int_to_string :
    (is_space : ℕ → Bool) (t : IntType) (z : ℤ)
    → SeesVisible is_space
    → IsValueOf t z
    → (text : List ℕ) × (int_to_string t z ≡ some text)
      × (string_to_int is_space t text ≡ some (z, true))
unfolding int_to_string string_to_int write_sign
string_to_int-int_to_string is_space t (pos n) sees h =
    let w = buffer-Written t n (omega arith) in
    let text = map hex_char (w.digit ∷ w.digits) in
    (
      text,
      rw (unsigned_abs-IsValueOf t (pos n) h, w.run) (ap some (append-nil text)),
      range_to_number-numeral t decimal neither (hex_char w.digit) w.digit (map hex_char w.digits)
            w.digits (Spells-hex_char decimal (w.digit ∷ w.digits) w.are_digits) is_space bare sees
          ∙ ap some (ap (outcome t bare) w.value_eq ∙ outcome-bare t n h),
    )
string_to_int-int_to_string is_space t (negsuc n) sees h =
    let w = buffer-Written t (suc n) (omega (arith, depth-max t)) in
    let (reads, two) = outcome-minus t n h in
    let text = map hex_char (w.digit ∷ w.digits) in
    (
      45 ∷ text,
      rw (unsigned_abs-IsValueOf t (negsuc n) h, w.run)
          (rw (lt→not-leb w.at 1 (omega (arith, w.enough, two)))
            (ap (λ tail. some (45 ∷ tail)) (append-nil text))),
      range_to_number-numeral t decimal neither (hex_char w.digit) w.digit (map hex_char w.digits)
            w.digits (Spells-hex_char decimal (w.digit ∷ w.digits) w.are_digits) is_space minus sees
          ∙ ap some (ap (outcome t minus) w.value_eq ∙ reads),
    )
