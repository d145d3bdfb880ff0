-- ===== src/Base/CommandLine/SampleArgv.antt =====
-- A splitting of a command line that keeps the documented rules, to run the command line of
-- libHH/base/command_line.cpp with.
use lib_hh_old.Common.{
  ℕ, zero, suc, ◌+◌, ◌/◌, ◌%◌, ◌≡◌, refl, ap, ap₂, ◌∙◌, Bool, true, false, not, ◌&&◌, ◌||◌, ◌==◌,
  List, [], ◌∷◌, ◌++◌, replicate, arith,
}
use lib_hh_old.Base.CommandLine.ToArgv.{ArgvRules, prepend}

-- Behind a run of `count` backslashes.
unfoldable pub scan : ℕ → Bool → List ℕ → List (List ℕ)
scan count quoted [] = replicate count 92 ∷ []
scan count quoted (c ∷ cs) = elim (c == 92) [
  | true ↦ scan (suc count) quoted cs
  | false ↦ elim (c == 34) [
    | true ↦ elim (count % 2 == 0) [
      | true ↦ prepend (replicate (count / 2) 92) (scan 0 (not quoted) cs)
      | false ↦ prepend (replicate (count / 2) 92 ++ (34 ∷ [])) (scan 0 quoted cs)
    ]
    | false ↦ elim (not quoted && (c == 32 || c == 9)) [
      | true ↦ replicate count 92 ∷ scan 0 false cs
      | false ↦ prepend (replicate count 92 ++ (c ∷ [])) (scan 0 quoted cs)
    ]
  ]
]

scan-replicate :
    (n count : ℕ) (quoted : Bool) (rest : List ℕ)
    → scan count quoted (replicate n 92 ++ rest) ≡ scan (count + n) quoted rest
unfolding scan
scan-replicate zero count quoted rest = ap (λ k. scan k quoted rest) (omega arith)
scan-replicate (suc n) count quoted rest =
    let e : suc count + n ≡ count + suc n = omega arith in
    scan-replicate n (suc count) quoted rest ∙ ap (λ k. scan k quoted rest) e

-- A character by what it is.
module _ (count : ℕ) (quoted : Bool) (c : ℕ) (cs : List ℕ) where
  abbrev on_blank : Bool → List (List ℕ)
  on_blank b = elim b [
    | true ↦ replicate count 92 ∷ scan 0 false cs
    | false ↦ prepend (replicate count 92 ++ (c ∷ [])) (scan 0 quoted cs)
  ]

  abbrev on_quote : Bool → List (List ℕ)
  on_quote b = elim b [
    | true ↦ elim (count % 2 == 0) [
      | true ↦ prepend (replicate (count / 2) 92) (scan 0 (not quoted) cs)
      | false ↦ prepend (replicate (count / 2) 92 ++ (34 ∷ [])) (scan 0 quoted cs)
    ]
    | false ↦ on_blank (not quoted && (c == 32 || c == 9))
  ]

  abbrev on_backslash : Bool → List (List ℕ)
  on_backslash b = elim b [ true ↦ scan (suc count) quoted cs | false ↦ on_quote (c == 34) ]

  scan-other :
      (blank : Bool)
      → (c == 92) ≡ false
      → (c == 34) ≡ false
      → (not quoted && (c == 32 || c == 9)) ≡ blank
      → scan count quoted (c ∷ cs) ≡ on_blank blank
  unfolding scan
  scan-other blank e h b = ap on_backslash e ∙ ap on_quote h ∙ ap on_blank b

module _ (count : ℕ) (quoted : Bool) (cs : List ℕ) where
  abbrev on_parity : Bool → List (List ℕ)
  on_parity b = elim b [
    | true ↦ prepend (replicate (count / 2) 92) (scan 0 (not quoted) cs)
    | false ↦ prepend (replicate (count / 2) 92 ++ (34 ∷ [])) (scan 0 quoted cs)
  ]

  scan-quote : (b : Bool) → (count % 2 == 0) ≡ b → scan count quoted (34 ∷ cs) ≡ on_parity b
  unfolding scan
  scan-quote b e = ap on_parity e

prepend-nothing : (args : List (List ℕ)) → prepend [] args ≡ args
unfolding prepend
prepend-nothing [] = refl
prepend-nothing (arg ∷ args) = refl

abbrev pub behind : Bool → List ℕ → List (List ℕ)
behind quoted text = scan 0 quoted text

behind-closing :
    (n : ℕ) (rest : List ℕ)
    → behind true (replicate (n + n) 92 ++ (34 ∷ rest))
      ≡ prepend (replicate n 92) (behind false rest)
behind-closing n rest =
    let even : ((0 + (n + n)) % 2 == 0) ≡ true = ground arith in
    let half : (0 + (n + n)) / 2 ≡ n = omega arith in
    scan-replicate (n + n) 0 true (34 ∷ rest)
    ∙ scan-quote (0 + (n + n)) true rest true even
    ∙ ap (λ k. prepend (replicate k 92) (behind false rest)) half

behind-literal :
    (n : ℕ) (rest : List ℕ)
    → behind true (replicate (n + n) 92 ++ (92 ∷ 34 ∷ rest))
      ≡ prepend (replicate n 92 ++ (34 ∷ [])) (behind true rest)
unfolding scan
behind-literal n rest =
    let odd : (suc (0 + (n + n)) % 2 == 0) ≡ false = ground arith in
    let half : suc (0 + (n + n)) / 2 ≡ n = omega arith in
    scan-replicate (n + n) 0 true (92 ∷ 34 ∷ rest)
    ∙ scan-quote (suc (0 + (n + n))) true rest false odd
    ∙ ap (λ k. prepend (replicate k 92 ++ (34 ∷ [])) (behind true rest)) half

pub behind-ArgvRules : ArgvRules behind
unfolding scan
behind-ArgvRules = record {
  at_end = refl;
  at_blank = λ rest h. refl;
  bare = λ c rest space tab quote backslash.
      scan-other 0 false c rest false backslash quote (ap₂ (λ a b. a || b) space tab);
  opening = λ rest. prepend-nothing (behind true rest);
  quoted = λ n c rest quote backslash.
      scan-replicate n 0 true (c ∷ rest)
      ∙ ap (λ k. scan k true (c ∷ rest)) (omega arith)
      ∙ scan-other n true c rest false backslash quote refl;
  literal = behind-literal;
  closing = λ n rest h. behind-closing n rest;
}
