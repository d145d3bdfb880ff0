-- ===== src/Base/CommandLine/Launch.antt =====
-- The string that a process is started with, in libHH/base/command_line.cpp, and what the process
-- reads from it.
use lib_hh_old.Common.{
  ℕ, suc, ◌≡◌, refl, sym, ap, ◌∙◌, Bool, true, false, not, inl, inr, Option, none, some, List, [],
  ◌∷◌, ◌++◌, append_assoc, map, if◌then◌else◌, ◌>>=◌, All, drop, arith,
}
use mathlib.Core.Path.{subst}
use lib_hh_old.Base.Split.{is_empty}
use lib_hh_old.Base.CommandLine.{CommandLine, no_program, set_program, init_from_argv, trim}
use lib_hh_old.Base.CommandLine.Reading.{written}
use lib_hh_old.Base.CommandLine.Quote.{
  argument_string, quote_for_command_line_to_argv_w, get_arguments_string_internal, arguments_rest,
}
use lib_hh_old.Base.CommandLine.ToArgv.{
  ArgvRules, EndsArgument, StartsArgument, HasNoTab, prepend, prepend-append,
}
use lib_hh_old.Base.CommandLine.Quoting.{
  IsBare, quote-StartsArgument, bare-ReadBack, quote-prepend, IsReadable, AreReadable,
  arguments_rest-ReadBack,
}
use lib_hh_old.Base.CommandLine.Names.{
  IsName, dashed, value_suffix, combined_switch_string-name, written-is_other, is_switch-written,
}
use lib_hh_old.Base.CommandLine.Terminator.{IsOther}
use lib_hh_old.Base.CommandLine.Reparse.{
  Item, switches_of, args_of, IsTidySwitch, AreArguments, append_items, front_of, built,
  append_items-built, init_from_argv-built,
}

-- What the string can carry: no tabulator, no argument that is empty, and in the name of a switch
-- no character that Windows gives a meaning.
abbrev pub IsPassableSwitch : List ℕ × List ℕ → Type 0
IsPassableSwitch (name, value) = All IsBare name × HasNoTab value

abbrev pub IsPassableArgument : List ℕ → Type 0
IsPassableArgument arg = (is_empty arg ≡ false) × HasNoTab arg

dash-IsBare : IsBare 45
dash-IsBare = record { no_space = refl; no_tab = refl; no_quote = refl; no_backslash = refl }

equals-IsBare : IsBare 61
equals-IsBare = record { no_space = refl; no_tab = refl; no_quote = refl; no_backslash = refl }

module _ (behind : Bool → List ℕ → List (List ℕ)) (rules : ArgvRules behind) (n : ℕ)
    (q : Bool) where
  abbrev count : ℕ
  count = suc n

  abbrev Readable : Bool → List ℕ → Type 0
  Readable parse arg = IsReadable behind rules count q parse arg

  -- An argument that is quoted as a whole.
  argument-IsReadable :
      (parse : Bool) (arg : List ℕ)
      → IsPassableArgument arg
      → argument_string count q parse arg ≡ quote_for_command_line_to_argv_w arg q
      → Readable parse arg
  unfolding is_empty
  argument-IsReadable parse [] (nonempty, no_tab) e = absurd (ground arith)
  argument-IsReadable parse (c ∷ cs) (nonempty, no_tab) e = record {
    starts = λ rest.
        subst (λ text. StartsArgument (text ++ rest)) (sym e)
          (quote-StartsArgument q c cs rest no_tab);
    read = λ rest h.
        ap (λ text. behind false (text ++ rest)) e
        ∙ quote-prepend behind rules q (c ∷ cs) rest no_tab h;
  }

  -- A switch, of which only the value is quoted.
  abbrev quoted_suffix : List ℕ → List ℕ
  quoted_suffix value =
      if is_empty value then [] else (61 ∷ []) ++ quote_for_command_line_to_argv_w value q

  abbrev found_string : List ℕ → Option (List ℕ × List ℕ) → List ℕ
  found_string arg found = elim found [
    | none ↦ quote_for_command_line_to_argv_w arg q
    | some (name, value) ↦ name ++ quoted_suffix value
  ]

  argument_string-written :
      (name value : List ℕ)
      → IsName name
      → argument_string count q true (dashed name ++ value_suffix value)
        ≡ dashed name ++ quoted_suffix value
  unfolding argument_string
  argument_string-written name value is_name =
      ap (found_string (dashed name ++ value_suffix value)) (is_switch-written n name value is_name)

  suffix-ReadBack :
      (value rest : List ℕ)
      → HasNoTab value
      → EndsArgument rest
      → behind false (quoted_suffix value ++ rest)
        ≡ prepend (value_suffix value) (behind false rest)
  unfolding is_empty
  suffix-ReadBack [] rest no_tab h = bare-ReadBack behind rules [] rest tt
  suffix-ReadBack (c ∷ cs) rest no_tab h =
      bare-ReadBack behind rules (61 ∷ []) (quote_for_command_line_to_argv_w (c ∷ cs) q ++ rest)
        (equals-IsBare, tt)
      ∙ ap (prepend (61 ∷ [])) (quote-prepend behind rules q (c ∷ cs) rest no_tab h)
      ∙ prepend-append (61 ∷ []) (c ∷ cs) (behind false rest)

  written-IsReadable :
      (name value : List ℕ)
      → IsName name
      → All IsBare name
      → HasNoTab value
      → Readable true (dashed name ++ value_suffix value)
  written-IsReadable name value is_name bare no_tab =
      let e = argument_string-written name value is_name in
      record {
        starts = λ rest. (
          45,
          45 ∷ ((name ++ quoted_suffix value) ++ rest),
          ap (λ text. text ++ rest) e,
          refl,
          refl,
        );
        read = λ rest h.
            ap (λ text. behind false (text ++ rest)) e
            ∙ ap (behind false) (append_assoc (dashed name) (quoted_suffix value) rest)
            ∙ bare-ReadBack behind rules (dashed name) (quoted_suffix value ++ rest)
                (dash-IsBare, (dash-IsBare, bare))
            ∙ ap (prepend (dashed name)) (suffix-ReadBack value rest no_tab h)
            ∙ prepend-append (dashed name) (value_suffix value) (behind false rest);
      }

  abbrev Next : Bool → List ℕ → List (List ℕ) → Type 0
  Next parse arg args = Readable parse arg × AreReadable behind rules count q parse args

  literal-AreReadable :
      (args : List (List ℕ))
      → All IsPassableArgument args
      → AreReadable behind rules count q false args
  unfolding AreReadable argument_string
  literal-AreReadable [] all = tt
  literal-AreReadable (arg ∷ args) (passable, all) =
      (argument-IsReadable false arg passable refl, literal-AreReadable args all)

  args-AreReadable :
      (args : List (List ℕ))
      → AreArguments n args
      → All IsPassableArgument args
      → AreReadable behind rules count q true args
  unfolding AreReadable AreArguments argument_string
  args-AreReadable [] plain all = tt
  args-AreReadable (arg ∷ args) (e, inl (here, trimmed)) (passable, all) =
      subst (λ b. Next (not b) arg args) (sym here)
        (argument-IsReadable false arg passable refl, literal-AreReadable args all)
  args-AreReadable (arg ∷ args) (e, inr (other, no_switch, plain)) (passable, all) =
      subst (λ b. Next (not b) arg args) (sym other)
        (
          argument-IsReadable true arg passable (ap (found_string arg) no_switch),
          args-AreReadable args plain all,
        )

  items-AreReadable :
      (entries : List (List ℕ × List ℕ)) (args : List (List ℕ))
      → All IsTidySwitch entries
      → All IsPassableSwitch entries
      → AreReadable behind rules count q true args
      → AreReadable behind rules count q true (map (written count) entries ++ args)
  unfolding AreReadable
  items-AreReadable [] args tidy passable readable = readable
  items-AreReadable ((name, value) ∷ entries) args ((is_name, _), tidy) ((bare, no_tab), passable)
        readable =
      let rest = map (written count) entries ++ args in
      let w = combined_switch_string-name n name value is_name in
      let other : IsOther (written count (name, value)) =
        subst IsOther (sym w) (written-is_other n name value is_name) in
      subst (λ b. Next (not b) (written count (name, value)) rest) (sym other)
        (
          subst (Readable true) (sym w) (written-IsReadable name value is_name bare no_tab),
          items-AreReadable entries args tidy passable readable,
        )

  -- Over any splitting of a command line that keeps the documented rules of CommandLineToArgvW, with
  -- the prefix `--` in use: a command line to which switches with names of lower-case ASCII without
  -- a prefix, white space, an equals sign, a quote or a backslash, with values that end in no white
  -- space, and trimmed arguments that are not empty and that are not taken for switches, or stand
  -- from a terminator on, are appended in any order, with no tabulator in them and at least one of
  -- them: its arguments string is split into its list of strings behind the program, and
  -- InitFromArgv makes of those behind the trimmed program the same command line, the map of
  -- switches included.
  pub init_from_argv-get_arguments_string :
      (program : List ℕ) (items : List Item) (arg : List ℕ) (others : List (List ℕ))
      → All IsTidySwitch (switches_of items)
      → All IsPassableSwitch (switches_of items)
      → AreArguments n (args_of items)
      → All IsPassableArgument (args_of items)
      → front_of n items ++ args_of items ≡ arg ∷ others
      → (l : CommandLine) × ((set_program program no_program >>= append_items n items) ≡ some l)
        × (behind false (get_arguments_string_internal count q l) ≡ drop 1 l.argv)
        × ((other : CommandLine)
            → init_from_argv count
                (trim program ∷ behind false (get_arguments_string_internal count q l))
                other
              ≡ some l)
  unfolding get_arguments_string_internal
  init_from_argv-get_arguments_string program items arg others tidy passable plain passable' e =
      let readable =
        items-AreReadable (switches_of items) (args_of items) tidy passable
          (args-AreReadable (args_of items) plain passable') in
      let split : behind false (get_arguments_string_internal count q (built n program items))
          ≡ front_of n items ++ args_of items =
        ap (λ strings. behind false (arguments_rest count q true true strings)) e
        ∙ arguments_rest-ReadBack behind rules count q true arg others
            (subst (AreReadable behind rules count q true) e readable)
        ∙ sym e in
      (
        built n program items,
        append_items-built n program items,
        split,
        λ other.
            ap (λ strings. init_from_argv count (trim program ∷ strings) other) split
            ∙ init_from_argv-built n program items other tidy plain,
      )
