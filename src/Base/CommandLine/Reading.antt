-- ===== src/Base/CommandLine/Reading.antt =====
-- What InitFromArgv of libHH/base/command_line.cpp makes of a list of strings: the switches among
-- them and the arguments among them, each in their order.
use lib_hh_old.Common.{
  ℕ, suc, ◌≡◌, sym, ap, ap₂, ◌∙◌, Bool, true, not, ◌&&◌, Option, none, some, List, [], ◌∷◌, ◌++◌,
  append-nil, append_assoc, map, leb, le→leb, if◌then◌else◌, ◌>>=◌, length, length-append, take,
  drop, take-append_left, take-length, drop-append_right, arith,
}
use lib_hh_old.Base.CommandLine.{
  CommandLine, set_program, append_arg_native, insert_at, switch_terminator, append_switch_native,
  append_one, append_rest, init_from_argv, assign_switch, switch_keys, same_text, is_switch, trim,
  to_lower, to_ascii, switch_key, combined_switch_string,
}
use lib_hh_old.Base.CommandLine.Layout.{switch_keys-assign_switch}

-- A command line with its switches in front of its arguments.
abbrev pub line : List ℕ → List (List ℕ) → List (List ℕ) → List (List ℕ × List ℕ) → CommandLine
line program front args switches = record {
  argv = program ∷ (front ++ args);
  switches = switches;
  pieces = switch_keys switches;
  begin_args = suc (length front);
}

pub append_arg_native-line :
    (program : List ℕ) (front args : List (List ℕ)) (switches : List (List ℕ × List ℕ))
    (value : List ℕ)
    → append_arg_native value (line program front args switches)
      ≡ line program front (args ++ (value ∷ [])) switches
unfolding append_arg_native
append_arg_native-line program front args switches value =
    ap
      (λ strings. record {
        argv = program ∷ strings;
        switches = switches;
        pieces = switch_keys switches;
        begin_args = suc (length front);
      })
      (append_assoc front args (value ∷ []))

insert_at-between :
    (program x : List ℕ) (front args : List (List ℕ))
    → insert_at (suc (length front)) x (program ∷ (front ++ args))
      ≡ some (program ∷ ((front ++ (x ∷ [])) ++ args))
unfolding insert_at
insert_at-between program x front args =
    let fits : leb (suc (length front)) (suc (length (front ++ args))) ≡ true =
      le→leb (suc (length front)) (suc (length (front ++ args)))
        (omega (arith, length-append front args)) in
    let before : take (length front) (front ++ args) ≡ front =
      take-append_left (length front) front args (omega arith)
      ∙ take-length (length front) front (omega arith) in
    let after : drop (length front) (front ++ args) ≡ args =
      ap (λ n. drop n (front ++ args)) (omega arith) ∙ drop-append_right 0 front args in
    rw fits (
      ap₂ (λ xs ys. some (program ∷ (xs ++ (x ∷ ys)))) before after
      ∙ ap (λ strings. some (program ∷ strings)) (sym (append_assoc front (x ∷ []) args)))

module _ (count : ℕ) where
  -- The entry that a switch makes, from its name as it is written and its value.
  abbrev pub written : List ℕ × List ℕ → List ℕ
  written (name, value) = combined_switch_string count (to_lower name) value

  unfoldable pub enter : List (List ℕ × List ℕ) → List (List ℕ × List ℕ) → List (List ℕ × List ℕ)
  enter [] switches = switches
  enter ((name, value) ∷ entries) switches =
      enter entries (assign_switch (switch_key count (to_lower name)) value switches)

  pub append_switch_native-line :
      (program : List ℕ) (front args : List (List ℕ)) (switches : List (List ℕ × List ℕ))
      (name value : List ℕ)
      → append_switch_native count name value (line program front args switches)
        ≡ some (
            line program
              (front ++ (written (name, value) ∷ []))
              args
              (assign_switch (switch_key count (to_lower name)) value switches))
  unfolding append_switch_native
  append_switch_native-line program front args switches name value =
      let key = switch_key count (to_lower name) in
      let grown : suc (suc (length front)) ≡ suc (length (front ++ (written (name, value) ∷ []))) =
        omega (arith, length-append front (written (name, value) ∷ [])) in
      rw (insert_at-between program (written (name, value)) front args) (
        ap₂
          (λ pieces begin. some (record {
            argv = program ∷ ((front ++ (written (name, value) ∷ [])) ++ args);
            switches = assign_switch key value switches;
            pieces = pieces;
            begin_args = begin;
          }))
          (switch_keys-assign_switch key value switches) grown)

  -- The strings that are read as switches, and those that are read as arguments.
  abbrev pub reads : Bool → List ℕ → Bool
  reads parse string = parse && not (same_text (trim string) switch_terminator)

  abbrev pub read_one : Bool → List ℕ → Option (List ℕ × List ℕ)
  read_one parse string = if reads parse string then is_switch count (trim string) else none

  unfoldable pub switches_in : Bool → List (List ℕ) → List (List ℕ × List ℕ)
  switches_in parse [] = []
  switches_in parse (string ∷ strings) =
      let rest : List (List ℕ × List ℕ) = switches_in (reads parse string) strings in
      elim (read_one parse string) [
        | none ↦ rest
        | some (name, value) ↦ (to_ascii name, value) ∷ rest
      ]

  unfoldable pub arguments_in : Bool → List (List ℕ) → List (List ℕ)
  arguments_in parse [] = []
  arguments_in parse (string ∷ strings) =
      let rest : List (List ℕ) = arguments_in (reads parse string) strings in
      elim (read_one parse string) [ none ↦ trim string ∷ rest | some switch ↦ rest ]

  -- That the loop puts the switches behind the switches and the arguments behind the arguments.
  abbrev Sorts : Bool → List (List ℕ) → Type 0
  Sorts parse strings =
      (program : List ℕ) (front args : List (List ℕ)) (switches : List (List ℕ × List ℕ))
      → append_rest count parse strings (line program front args switches)
        ≡ some (
            line program (front ++ map written (switches_in parse strings))
              (args ++ arguments_in parse strings) (enter (switches_in parse strings) switches))

  module _ (parse : Bool) (strings : List (List ℕ)) (next : Sorts parse strings) where
    abbrev more_switches : Option (List ℕ × List ℕ) → List (List ℕ × List ℕ)
    more_switches found = elim found [
      | none ↦ switches_in parse strings
      | some (name, value) ↦ (to_ascii name, value) ∷ switches_in parse strings
    ]

    abbrev more_arguments : List ℕ → Option (List ℕ × List ℕ) → List (List ℕ)
    more_arguments arg found = elim found [
      | none ↦ arg ∷ arguments_in parse strings
      | some switch ↦ arguments_in parse strings
    ]

    abbrev append_found : List ℕ → Option (List ℕ × List ℕ) → CommandLine → Option CommandLine
    append_found arg found l = elim found [
      | none ↦ some (append_arg_native arg l)
      | some (name, value) ↦ append_switch_native count (to_ascii name) value l
    ]

    append_found-line :
        (arg : List ℕ) (found : Option (List ℕ × List ℕ)) (program : List ℕ)
        (front args : List (List ℕ)) (switches : List (List ℕ × List ℕ))
        → (append_found arg found (line program front args switches)
            >>= append_rest count parse strings)
          ≡ some (
              line program
                (front ++ map written (more_switches found))
                (args ++ more_arguments arg found)
                (enter (more_switches found) switches))
    unfolding enter
    append_found-line arg none program front args switches =
        let entries = switches_in parse strings in
        ap (append_rest count parse strings)
          (append_arg_native-line program front args switches arg)
        ∙ next program front (args ++ (arg ∷ [])) switches
        ∙ ap (λ xs. some (line program (front ++ map written entries) xs (enter entries switches)))
            (append_assoc args (arg ∷ []) (arguments_in parse strings))
    append_found-line arg (some (name, value)) program front args switches =
        let key = to_ascii name in
        let entries = switches_in parse strings in
        let entered = assign_switch (switch_key count (to_lower key)) value switches in
        ap (λ o. o >>= append_rest count parse strings)
          (append_switch_native-line program front args switches key value)
        ∙ next program (front ++ (written (key, value) ∷ [])) args entered
        ∙ ap
            (λ xs.
              some (line program xs (args ++ arguments_in parse strings) (enter entries entered)))
            (append_assoc front (written (key, value) ∷ []) (map written entries))

  pub append_rest-line : (parse : Bool) (strings : List (List ℕ)) → Sorts parse strings
  unfolding append_rest switches_in arguments_in enter append_one
  append_rest-line parse [] program front args switches =
      ap₂ (λ xs ys. some (line program xs ys switches)) (sym (append-nil front))
        (sym (append-nil args))
  append_rest-line parse (string ∷ strings) program front args switches =
      append_found-line (reads parse string) strings (append_rest-line (reads parse string) strings)
        (trim string) (read_one parse string) program front args switches

  -- x
  pub init_from_argv-Sorted :
      (program : List ℕ) (strings : List (List ℕ)) (l : CommandLine)
      → init_from_argv count (program ∷ strings) l
        ≡ some (
            line
              (trim program)
              (map written (switches_in true strings))
              (arguments_in true strings)
              (enter (switches_in true strings) []))
  unfolding init_from_argv set_program switch_keys
  init_from_argv-Sorted program strings l = append_rest-line true strings (trim program) [] [] []
