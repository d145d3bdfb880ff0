-- ===== src/Base/CommandLine/Quoting.antt =====
-- GetArgumentsStringInternal of libHH/base/command_line.cpp, and what Windows splits its string
-- into.
use lib_hh_old.Common.{
  ℕ, ◌≡◌, refl, sym, ap, ◌∙◌, Bool, true, false, not, ◌&&◌, ◌⊎◌, inl, inr, Option-cases, ◌==◌, none,
  List, [], ◌∷◌, ◌++◌, append-nil, append_assoc, All, arith,
}
use mathlib.Core.Path.{subst}
use lib_hh_old.Base.Split.{find_first_of, one_of}
use lib_hh_old.Base.Split.Join.{FirstOf, find_first_of-FirstOf}
use lib_hh_old.Base.CommandLine.{same_text, switch_terminator}
use lib_hh_old.Base.CommandLine.Quote.{
  quotable_chars, quote_loop, quote_for_command_line_to_argv_w, argument_string, arguments_rest,
}
use lib_hh_old.Base.CommandLine.ToArgv.{
  ArgvRules, EndsArgument, StartsArgument, HasNoTab, prepend, prepend-append, quote_loop-ReadBack,
}

-- A character that has no meaning of its own in a command line.
pub record IsBare (c : ℕ) : Type 0 where
  pub no_space : (c == 32) ≡ false
  pub no_tab : (c == 9) ≡ false
  pub no_quote : (c == 34) ≡ false
  pub no_backslash : (c == 92) ≡ false

one_of-IsBare :
    (q : Bool) (c : ℕ) → one_of (quotable_chars q) c ≡ false → (c == 9) ≡ false → IsBare c
unfolding one_of
one_of-IsBare true c h t = record {
  no_space = ground arith;
  no_tab = t;
  no_quote = ground arith;
  no_backslash = ground arith;
}
one_of-IsBare false c h t = record {
  no_space = ground arith;
  no_tab = t;
  no_quote = ground arith;
  no_backslash = ground arith;
}

All-IsBare :
    (q : Bool) (text : List ℕ)
    → All (λ c. one_of (quotable_chars q) c ≡ false) text
    → HasNoTab text
    → All IsBare text
All-IsBare q [] all no_tab = tt
All-IsBare q (c ∷ cs) (h, all) (t, no_tab) = (one_of-IsBare q c h t, All-IsBare q cs all no_tab)

-- What the search for a character to quote means for the text.
quote-cases :
    (q : Bool) (arg : List ℕ)
    → HasNoTab arg
    → ((quote_for_command_line_to_argv_w arg q ≡ arg) × All IsBare arg)
      ⊎ (quote_for_command_line_to_argv_w arg q ≡ 34 ∷ (quote_loop 0 arg ++ (34 ∷ [])))
unfolding quote_for_command_line_to_argv_w
quote-cases q arg no_tab =
    let first = find_first_of-FirstOf (quotable_chars q) arg in
    elim (Option-cases (find_first_of (quotable_chars q) arg)) [
      | inl e ↦
          let whole : FirstOf (quotable_chars q) arg none =
            subst (FirstOf (quotable_chars q) arg) e first in
          inl (rw (quote_for_command_line_to_argv_w, e) refl, All-IsBare q arg whole no_tab)
      | inr (i, e) ↦ inr (rw (quote_for_command_line_to_argv_w, e) refl)
    ]

pub quote-StartsArgument :
    (q : Bool) (c : ℕ) (cs rest : List ℕ)
    → HasNoTab (c ∷ cs)
    → StartsArgument (quote_for_command_line_to_argv_w (c ∷ cs) q ++ rest)
quote-StartsArgument q c cs rest no_tab = elim (quote-cases q (c ∷ cs) no_tab) [
  | inl (e, (bare, all)) ↦ (c, cs ++ rest, ap (λ text. text ++ rest) e, bare.no_space, bare.no_tab)
  | inr e ↦
      (34, (quote_loop 0 (c ∷ cs) ++ (34 ∷ [])) ++ rest, ap (λ text. text ++ rest) e, refl, refl)
]

module _ (behind : Bool → List ℕ → List (List ℕ)) (rules : ArgvRules behind) where
  prepend-nil : (args : List (List ℕ)) → prepend [] args ≡ args
  unfolding prepend
  prepend-nil [] = refl
  prepend-nil (arg ∷ args) = refl

  pub bare-ReadBack :
      (text rest : List ℕ)
      → All IsBare text
      → behind false (text ++ rest) ≡ prepend text (behind false rest)
  bare-ReadBack [] rest all = sym (prepend-nil (behind false rest))
  bare-ReadBack (c ∷ cs) rest (bare, all) =
      rules.bare c (cs ++ rest) bare.no_space bare.no_tab bare.no_quote bare.no_backslash
      ∙ ap (prepend (c ∷ [])) (bare-ReadBack cs rest all)
      ∙ prepend-append (c ∷ []) cs (behind false rest)

  pub quote-prepend :
      (q : Bool) (arg rest : List ℕ)
      → HasNoTab arg
      → EndsArgument rest
      → behind false (quote_for_command_line_to_argv_w arg q ++ rest)
        ≡ prepend arg (behind false rest)
  quote-prepend q arg rest no_tab h = elim (quote-cases q arg no_tab) [
    | inl (e, all) ↦ ap (λ text. behind false (text ++ rest)) e ∙ bare-ReadBack arg rest all
    | inr e ↦
        ap (λ text. behind false (text ++ rest)) e
        ∙ ap (λ text. behind false (34 ∷ text)) (append_assoc (quote_loop 0 arg) (34 ∷ []) rest)
        ∙ rules.opening (quote_loop 0 arg ++ (34 ∷ rest))
        ∙ quote_loop-ReadBack behind rules 0 arg rest h
  ]

  -- Over any splitting of a command line that keeps the documented rules of CommandLineToArgvW: an
  -- argument that is not empty and holds no tabulator, quoted by QuoteForCommandLineToArgvW with or
  -- without placeholders, put behind a space and followed by a space or the end, is split off as an
  -- argument of its own, whatever quotes, backslashes and spaces it holds.
  pub quote-ReadBack :
      (q : Bool) (c : ℕ) (cs rest : List ℕ)
      → HasNoTab (c ∷ cs)
      → EndsArgument rest
      → behind false (32 ∷ (quote_for_command_line_to_argv_w (c ∷ cs) q ++ rest))
        ≡ [] ∷ prepend (c ∷ cs) (behind false rest)
  quote-ReadBack q c cs rest no_tab h =
      rules.at_blank (quote_for_command_line_to_argv_w (c ∷ cs) q ++ rest)
        (quote-StartsArgument q c cs rest no_tab)
      ∙ ap (λ args. [] ∷ args) (quote-prepend q (c ∷ cs) rest no_tab h)

  module _ (count : ℕ) (q : Bool) where
    -- That the text of an argument is split off as that argument.
    pub record IsReadable (parse : Bool) (arg : List ℕ) : Type 0 where
      pub starts : (rest : List ℕ) → StartsArgument (argument_string count q parse arg ++ rest)
      pub read :
          (rest : List ℕ)
          → EndsArgument rest
          → behind false (argument_string count q parse arg ++ rest)
            ≡ prepend arg (behind false rest)

    unfoldable pub AreReadable : Bool → List (List ℕ) → Type 0
    AreReadable parse [] = Unit
    AreReadable parse (arg ∷ args) =
        IsReadable (parse && not (same_text arg switch_terminator)) arg
        × AreReadable (parse && not (same_text arg switch_terminator)) args

    arguments_rest-EndsArgument :
        (parse : Bool) (args : List (List ℕ))
        → EndsArgument (arguments_rest count q false parse args)
    unfolding arguments_rest
    arguments_rest-EndsArgument parse [] = inl refl
    arguments_rest-EndsArgument parse (arg ∷ args) = inr (_, refl)

    arguments_rest-later :
        (parse : Bool) (args : List (List ℕ))
        → AreReadable parse args
        → behind false (arguments_rest count q false parse args) ≡ [] ∷ args
    unfolding arguments_rest AreReadable prepend
    arguments_rest-later parse [] all = rules.at_end
    arguments_rest-later parse (arg ∷ args) (readable, all) =
        let parse' = parse && not (same_text arg switch_terminator) in
        let rest = arguments_rest count q false parse' args in
        rules.at_blank (argument_string count q parse' arg ++ rest) (readable.starts rest)
        ∙ ap (λ xs. [] ∷ xs)
            (readable.read rest (arguments_rest-EndsArgument parse' args)
              ∙ ap (prepend arg) (arguments_rest-later parse' args all)
              ∙ ap (λ text. text ∷ args) (append-nil arg))

    pub arguments_rest-ReadBack :
        (parse : Bool) (arg : List ℕ) (args : List (List ℕ))
        → AreReadable parse (arg ∷ args)
        → behind false (arguments_rest count q true parse (arg ∷ args)) ≡ arg ∷ args
    unfolding arguments_rest AreReadable prepend
    arguments_rest-ReadBack parse arg args (readable, all) =
        let parse' = parse && not (same_text arg switch_terminator) in
        readable.read (arguments_rest count q false parse' args)
          (arguments_rest-EndsArgument parse' args)
        ∙ ap (prepend arg) (arguments_rest-later parse' args all)
        ∙ ap (λ text. text ∷ args) (append-nil arg)
