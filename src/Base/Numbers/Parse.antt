-- ===== src/Base/Numbers/Parse.antt =====
-- The digits of a number read, against their value.
use lib_hh_old.Common.{
  ℕ, ◌+◌, ◌*◌, ◌≤◌, ◌≡◌, sym, ap, ◌∙◌, Bool, true, false, some, List, [], ◌∷◌, arith, leb, leb→le,
  le→leb, min, inl, inr, Bool-cases,
}
use lib_hh_old.Base.Numbers.{Radix, decimal, hexadecimal, base_of, append_digit, convert_digits}
use lib_hh_old.Base.Numbers.Digits.{
  Spells, value_from, char_to_digit-IsDigitChar, value_from-grows, check_bounds_iff,
}

append_digit-fits :
    (r : Radix) (most output d : ℕ)
    → leb (output * base_of r + d) most ≡ true
    → append_digit r most false output d ≡ some (output * base_of r + d)
unfolding append_digit
append_digit-fits decimal most output d h = ground arith
append_digit-fits hexadecimal most output d h = ground arith

-- The value, clamped, and whether it fits.
abbrev pub clamped : ℕ → ℕ → ℕ × Bool
clamped most v = (min most v, leb v most)

clamped-fits : (most v : ℕ) → v ≤ most → clamped most v ≡ (v, true)
clamped-fits most v h = ground arith

clamped-over : (most v n : ℕ) → leb n most ≡ false → n ≤ v → clamped most v ≡ (most, false)
clamped-over most v n h le = ground arith

convert_digits-Spells :
    (r : Radix) (most output : ℕ) (cs ds : List ℕ)
    → output ≤ most
    → Spells r cs ds
    → convert_digits r most false output cs ≡ some (clamped most (value_from r output ds))
unfolding convert_digits value_from
convert_digits-Spells r most output [] [] h all = ap some (sym (clamped-fits most output h))
convert_digits-Spells r most output [] (d ∷ ds) h all = absurd (omega arith)
convert_digits-Spells r most output (c ∷ cs) [] h all = absurd (omega arith)
convert_digits-Spells r most output (c ∷ cs) (d ∷ ds) h (hd, hds) =
    rw (convert_digits, char_to_digit-IsDigitChar r c d hd, check_bounds_iff r most output d hd.0)
      (elim (Bool-cases (leb (output * base_of r + d) most)) [
        | inl fits ↦
            rw (fits, append_digit-fits r most output d fits)
              (convert_digits-Spells r most (output * base_of r + d) cs ds (leb→le _ most fits) hds)
        | inr over ↦ rw over (
            ap some (
              sym (
                clamped-over most (value_from r (output * base_of r + d) ds)
                  (output * base_of r + d) over (value_from-grows r (output * base_of r + d) ds))))
      ])

-- The first digit is not checked, and fits every type.
pub convert_digits-first :
    (r : Radix) (most c d : ℕ) (cs ds : List ℕ)
    → base_of r ≤ most
    → Spells r (c ∷ cs) (d ∷ ds)
    → convert_digits r most true 0 (c ∷ cs) ≡ some (clamped most (value_from r 0 (d ∷ ds)))
unfolding convert_digits append_digit value_from
convert_digits-first r most c d cs ds room (hd, hds) =
    rw
      (
        convert_digits,
        char_to_digit-IsDigitChar r c d hd,
        zero_add d,
        le→leb d most (omega (arith, hd.0)),
      )
      (convert_digits-Spells r most d cs ds (omega (arith, hd.0)) hds
        ∙ ap (λ v. some (clamped most v)) (start r))
  where
    zero_add : (d : ℕ) → 0 + d ≡ d
    zero_add d = omega arith

    start : (r : Radix) → value_from r d ds ≡ value_from r (0 * base_of r + d) ds
    start decimal = ap (λ k. value_from decimal k ds) (omega arith)
    start hexadecimal = ap (λ k. value_from hexadecimal k ds) (omega arith)
