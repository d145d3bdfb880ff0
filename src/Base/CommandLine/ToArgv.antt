-- ===== src/Base/CommandLine/ToArgv.antt =====
-- The rules by which Windows splits a command line into arguments, as its documentation has them
-- and as QuoteForCommandLineToArgvW of libHH/base/command_line.cpp relies on them.
use lib_hh_old.Common.{
  ℕ, zero, suc, ◌+◌, ◌≡◌, refl, sym, ap, ◌∙◌, Bool, true, false, ◌⊎◌, inl, inr, Bool-cases, ◌==◌,
  List, [], ◌∷◌, ◌++◌, append-nil, append_assoc, if◌then◌else◌, replicate, All, arith,
}
use lib_hh_old.Base.CommandLine.Quote.{escape_run, quote_loop}

-- Characters in front of the first of the arguments.
unfoldable pub prepend : List ℕ → List (List ℕ) → List (List ℕ)
prepend xs [] = []
prepend xs (arg ∷ args) = (xs ++ arg) ∷ args

abbrev pub IsBlank : ℕ → Type 0
IsBlank c = (c ≡ 32) ⊎ (c ≡ 9)

-- The end of an argument: the end of the text, or a space.
abbrev pub EndsArgument : List ℕ → Type 0
EndsArgument rest = (rest ≡ []) ⊎ ((next : List ℕ) × (rest ≡ 32 ∷ next))

abbrev pub StartsArgument : List ℕ → Type 0
StartsArgument text =
    (c : ℕ) × (cs : List ℕ) × (text ≡ c ∷ cs) × ((c == 32) ≡ false) × ((c == 9) ≡ false)

-- `behind quoted text` is what `text` is split into, inside an argument, and inside quotes or not.
pub record ArgvRules (behind : Bool → List ℕ → List (List ℕ)) : Type 0 where
  pub at_end : behind false [] ≡ [] ∷ []
  pub at_blank :
      (rest : List ℕ) → StartsArgument rest → behind false (32 ∷ rest) ≡ [] ∷ behind false rest
  pub bare :
      (c : ℕ) (rest : List ℕ)
      → (c == 32) ≡ false
      → (c == 9) ≡ false
      → (c == 34) ≡ false
      → (c == 92) ≡ false
      → behind false (c ∷ rest) ≡ prepend (c ∷ []) (behind false rest)
  pub opening : (rest : List ℕ) → behind false (34 ∷ rest) ≡ behind true rest
  -- Backslashes that no double quote follows.
  pub quoted :
      (n c : ℕ) (rest : List ℕ)
      → (c == 34) ≡ false
      → (c == 92) ≡ false
      → behind true (replicate n 92 ++ (c ∷ rest))
        ≡ prepend (replicate n 92 ++ (c ∷ [])) (behind true rest)
  -- An odd number of backslashes, and an even one, in front of a double quote.
  pub literal :
      (n : ℕ) (rest : List ℕ)
      → behind true (replicate (n + n) 92 ++ (92 ∷ 34 ∷ rest))
        ≡ prepend (replicate n 92 ++ (34 ∷ [])) (behind true rest)
  pub closing :
      (n : ℕ) (rest : List ℕ)
      → EndsArgument rest
      → behind true (replicate (n + n) 92 ++ (34 ∷ rest))
        ≡ prepend (replicate n 92) (behind false rest)

pub prepend-append :
    (xs ys : List ℕ) (args : List (List ℕ)) → prepend xs (prepend ys args) ≡ prepend (xs ++ ys) args
unfolding prepend
prepend-append xs ys [] = refl
prepend-append xs ys (arg ∷ args) = ap (λ text. text ∷ args) (sym (append_assoc xs ys arg))

replicate-snoc : (k : ℕ) (cs : List ℕ) → replicate (suc k) 92 ++ cs ≡ replicate k 92 ++ (92 ∷ cs)
replicate-snoc zero cs = refl
replicate-snoc (suc k) cs = ap (λ xs. 92 ∷ xs) (replicate-snoc k cs)

-- No character of a text is a tabulator.
abbrev pub HasNoTab : List ℕ → Type 0
HasNoTab text = All (λ c. (c == 9) ≡ false) text

-- One character of the loop: a backslash, a double quote, or another.
module _ (k c : ℕ) (cs : List ℕ) where
  abbrev quoted_char : Bool → List ℕ
  quoted_char is_quote =
      (if is_quote then replicate (k + k) 92 else replicate k 92)
      ++ (if is_quote then 92 ∷ 34 ∷ quote_loop 0 cs else c ∷ quote_loop 0 cs)

  abbrev quoted_step : Bool → List ℕ
  quoted_step is_backslash = elim is_backslash [
    | true ↦ quote_loop (suc k) cs
    | false ↦ quoted_char (c == 34)
  ]

  quote_loop-backslash : (c == 92) ≡ true → quote_loop k (c ∷ cs) ≡ quote_loop (suc k) cs
  unfolding quote_loop escape_run
  quote_loop-backslash e = ap quoted_step e

  quote_loop-other :
      (b : Bool) → (c == 92) ≡ false → (c == 34) ≡ b → quote_loop k (c ∷ cs) ≡ quoted_char b
  unfolding quote_loop escape_run
  quote_loop-other b e h = ap quoted_step e ∙ ap quoted_char h

module _ (behind : Bool → List ℕ → List (List ℕ)) (rules : ArgvRules behind) where
  pub quote_loop-ReadBack :
      (k : ℕ) (arg rest : List ℕ)
      → EndsArgument rest
      → behind true (quote_loop k arg ++ (34 ∷ rest))
        ≡ prepend (replicate k 92 ++ arg) (behind false rest)
  unfolding quote_loop escape_run
  quote_loop-ReadBack k [] rest h =
      rules.closing k rest h
      ∙ ap (λ xs. prepend xs (behind false rest)) (sym (append-nil (replicate k 92)))
  quote_loop-ReadBack k (c ∷ cs) rest h =
      let now = quote_loop-ReadBack 0 cs rest h in
      let tail = quote_loop 0 cs in
      let put : List ℕ → List (List ℕ) = λ text. behind true (text ++ (34 ∷ rest)) in
      elim (Bool-cases (c == 92)) [
        | inl e ↦
            let is_backslash : c ≡ 92 = ground arith in
            (ap put (quote_loop-backslash k c cs e)
              ∙ quote_loop-ReadBack (suc k) cs rest h
              ∙ ap (λ xs. prepend xs (behind false rest)) (replicate-snoc k cs)
              ∙ ap (λ x. prepend (replicate k 92 ++ (x ∷ cs)) (behind false rest))
                  (sym is_backslash))
        | inr other ↦ elim (Bool-cases (c == 34)) [
          | inl e ↦
              let is_quote : c ≡ 34 = ground arith in
              (ap put (quote_loop-other k c cs true other e)
                ∙ ap (behind true)
                    (append_assoc (replicate (k + k) 92) (92 ∷ 34 ∷ tail) (34 ∷ rest))
                ∙ rules.literal k (tail ++ (34 ∷ rest))
                ∙ ap (prepend (replicate k 92 ++ (34 ∷ []))) now
                ∙ prepend-append (replicate k 92 ++ (34 ∷ [])) cs (behind false rest)
                ∙ ap (λ xs. prepend xs (behind false rest))
                    (append_assoc (replicate k 92) (34 ∷ []) cs)
                ∙ ap (λ x. prepend (replicate k 92 ++ (x ∷ cs)) (behind false rest)) (sym is_quote))
          | inr plain ↦
              (ap put (quote_loop-other k c cs false other plain)
                ∙ ap (behind true) (append_assoc (replicate k 92) (c ∷ tail) (34 ∷ rest))
                ∙ rules.quoted k c (tail ++ (34 ∷ rest)) plain other
                ∙ ap (prepend (replicate k 92 ++ (c ∷ []))) now
                ∙ prepend-append (replicate k 92 ++ (c ∷ [])) cs (behind false rest)
                ∙ ap (λ xs. prepend xs (behind false rest))
                    (append_assoc (replicate k 92) (c ∷ []) cs))
        ]
      ]
