-- ===== src/Base/CommandLine/Trim.antt =====
-- TrimWhitespace with TRIM_ALL of libHH/base/strings/string_util.cc, applied twice.
use lib_hh_old.Common.{
  ℕ, ◌≡◌, refl, sym, ap, ◌∙◌, ◌&&◌, inl, inr, Bool-cases, List, [], ◌∷◌, if◌then◌else◌, drop, arith,
}
use lib_hh_old.Base.Split.{
  whitespace_utf16, is_empty, one_of, trim_leading, trim_trailing, trim_string,
}
use lib_hh_old.Base.CommandLine.{trim}

module _ (chars : List ℕ) where
  trim_leading-idempotent :
      (text : List ℕ) → trim_leading chars (trim_leading chars text) ≡ trim_leading chars text
  unfolding trim_leading
  trim_leading-idempotent [] = refl
  trim_leading-idempotent (c ∷ cs) = elim (Bool-cases (one_of chars c)) [
    | inl e ↦ rw e (trim_leading-idempotent cs)
    | inr e ↦ rw (e, trim_leading, e) refl
  ]

  -- The last character decides whether a character in front of what is left is kept.
  abbrev keep : ℕ → List ℕ → List ℕ
  keep c rest = if is_empty rest && one_of chars c then [] else c ∷ rest

  trim_trailing-keep :
      (c : ℕ) (rest : List ℕ)
      → trim_trailing chars rest ≡ rest
      → trim_trailing chars (keep c rest) ≡ keep c rest
  unfolding trim_trailing
  trim_trailing-keep c rest e = elim (Bool-cases (is_empty rest && one_of chars c)) [
    | inl h ↦ rw h refl
    | inr h ↦ rw h (ap (keep c) e ∙ ap (λ b. if b then [] else c ∷ rest) h)
  ]

  trim_trailing-idempotent :
      (text : List ℕ) → trim_trailing chars (trim_trailing chars text) ≡ trim_trailing chars text
  unfolding trim_trailing
  trim_trailing-idempotent [] = refl
  trim_trailing-idempotent (c ∷ cs) =
      trim_trailing-keep c (trim_trailing chars cs) (trim_trailing-idempotent cs)

  keep-tail : (c : ℕ) (rest cs : List ℕ) → keep c rest ≡ c ∷ cs → rest ≡ cs
  unfolding is_empty
  keep-tail c rest cs h = elim (Bool-cases (is_empty rest && one_of chars c)) [
    | inl e ↦
        let none_left = ap is_empty (sym (ap (λ b. if b then [] else c ∷ rest) e) ∙ h) in
        absurd (ground arith)
    | inr e ↦ ap (drop 1) (sym (ap (λ b. if b then [] else c ∷ rest) e) ∙ h)
  ]

  trim_trailing-trim_leading :
      (text : List ℕ)
      → trim_trailing chars text ≡ text
      → trim_trailing chars (trim_leading chars text) ≡ trim_leading chars text
  unfolding trim_leading trim_trailing
  trim_trailing-trim_leading [] h = refl
  trim_trailing-trim_leading (c ∷ cs) h = elim (Bool-cases (one_of chars c)) [
    | inl e ↦ rw e (trim_trailing-trim_leading cs (keep-tail c (trim_trailing chars cs) cs h))
    | inr e ↦ rw e h
  ]

pub trim-idempotent : (text : List ℕ) → trim (trim text) ≡ trim text
unfolding trim trim_string
trim-idempotent text =
    let chars = whitespace_utf16 in
    ap (trim_leading chars) (
      trim_trailing-trim_leading chars (trim_trailing chars text)
        (trim_trailing-idempotent chars text))
    ∙ trim_leading-idempotent chars (trim_trailing chars text)
