-- ===== src/Base/CommandLine/Terminator.antt =====
-- The terminator of the switches, in libHH/base/command_line.cpp: what stands behind it.
use lib_hh_old.Common.{
  ℕ, suc, ◌≡◌, refl, sym, ap, ◌∙◌, Bool, true, false, not, Option, none, some, List, [], ◌∷◌, ◌++◌,
  map, leb, le→leb, if◌then◌else◌, length, length-append, drop, drop-append_right, All, arith,
}
use mathlib.Core.Path.{subst}
use lib_hh_old.Base.CommandLine.{
  CommandLine, get_args, erase_text, switch_terminator, init_from_argv, same_text, is_switch, trim,
  to_ascii,
}
use lib_hh_old.Base.CommandLine.Reading.{
  line, switches_in, arguments_in, enter, init_from_argv-Sorted, written,
}

abbrev pub IsTerminator : List ℕ → Type 0
IsTerminator text = same_text text switch_terminator ≡ true

abbrev pub IsOther : List ℕ → Type 0
IsOther text = same_text text switch_terminator ≡ false

erase_text-append :
    (xs ys : List (List ℕ)) (t : List ℕ)
    → All IsOther xs
    → IsTerminator t
    → erase_text switch_terminator (xs ++ (t ∷ ys)) ≡ xs ++ ys
unfolding erase_text
erase_text-append [] ys t all e = rw e refl
erase_text-append (x ∷ xs) ys t (other, all) e =
    rw other (ap (λ zs. x ∷ zs) (erase_text-append xs ys t all e))

get_args-line :
    (program : List ℕ) (front args : List (List ℕ)) (switches : List (List ℕ × List ℕ))
    → get_args (line program front args switches) ≡ some (erase_text switch_terminator args)
unfolding get_args
get_args-line program front args switches =
    let fits : leb (suc (length front)) (suc (length (front ++ args))) ≡ true =
      le→leb (suc (length front)) (suc (length (front ++ args)))
        (omega (arith, length-append front args)) in
    let after : drop (length front) (front ++ args) ≡ args =
      ap (λ n. drop n (front ++ args)) (omega arith) ∙ drop-append_right 0 front args in
    rw (fits, after) refl

module _ (count : ℕ) where
  switches_in-nothing : (strings : List (List ℕ)) → switches_in count false strings ≡ []
  unfolding switches_in
  switches_in-nothing [] = refl
  switches_in-nothing (string ∷ strings) = switches_in-nothing strings

  arguments_in-everything :
      (strings : List (List ℕ)) → arguments_in count false strings ≡ map trim strings
  unfolding arguments_in
  arguments_in-everything [] = refl
  arguments_in-everything (string ∷ strings) =
      ap (λ xs. trim string ∷ xs) (arguments_in-everything strings)

  -- A string at the head of the list, from what it is found to be.
  abbrev pub found_switches :
      Option (List ℕ × List ℕ) → List (List ℕ × List ℕ) → List (List ℕ × List ℕ)
  found_switches found rest = elim found [
    | none ↦ rest
    | some (name, value) ↦ (to_ascii name, value) ∷ rest
  ]

  abbrev pub found_arguments : List ℕ → Option (List ℕ × List ℕ) → List (List ℕ) → List (List ℕ)
  found_arguments arg found rest = elim found [ none ↦ arg ∷ rest | some switch ↦ rest ]

  module _ (string : List ℕ) (strings : List (List ℕ)) where
    abbrev found_if : Bool → Option (List ℕ × List ℕ)
    found_if parse = if parse then is_switch count (trim string) else none

    abbrev switches_if : Bool → List (List ℕ × List ℕ)
    switches_if parse = found_switches (found_if parse) (switches_in count parse strings)

    abbrev arguments_if : Bool → List (List ℕ)
    arguments_if parse =
        found_arguments (trim string) (found_if parse) (arguments_in count parse strings)

    pub switches_in-other :
        IsOther (trim string)
        → switches_in count true (string ∷ strings)
          ≡ found_switches (is_switch count (trim string)) (switches_in count true strings)
    unfolding switches_in
    switches_in-other other = ap (λ b. switches_if (not b)) other

    pub arguments_in-other :
        IsOther (trim string)
        → arguments_in count true (string ∷ strings)
          ≡ found_arguments
              (trim string)
              (is_switch count (trim string))
              (arguments_in count true strings)
    unfolding arguments_in
    arguments_in-other other = ap (λ b. arguments_if (not b)) other

    pub switches_in-terminator :
        IsTerminator (trim string) → switches_in count true (string ∷ strings) ≡ []
    unfolding switches_in
    switches_in-terminator here = ap (λ b. switches_if (not b)) here ∙ switches_in-nothing strings

    pub arguments_in-terminator :
        IsTerminator (trim string)
        → arguments_in count true (string ∷ strings) ≡ trim string ∷ map trim strings
    unfolding arguments_in
    arguments_in-terminator here =
        ap (λ b. arguments_if (not b)) here
        ∙ ap (λ xs. trim string ∷ xs) (arguments_in-everything strings)

  found_arguments-append :
      (arg : List ℕ) (found : Option (List ℕ × List ℕ)) (xs ys : List (List ℕ))
      → found_arguments arg found (xs ++ ys) ≡ found_arguments arg found xs ++ ys
  found_arguments-append arg none xs ys = refl
  found_arguments-append arg (some switch) xs ys = refl

  found_arguments-All :
      (arg : List ℕ) (found : Option (List ℕ × List ℕ)) (xs : List (List ℕ))
      → IsOther arg
      → All IsOther xs
      → All IsOther (found_arguments arg found xs)
  found_arguments-All arg none xs other others = (other, others)
  found_arguments-All arg (some switch) xs other others = others

  module _ (t : List ℕ) (after : List (List ℕ)) (here : IsTerminator (trim t)) where
    record Ends (before : List (List ℕ)) : Type 0 where
      switches_eq : switches_in count true (before ++ (t ∷ after)) ≡ switches_in count true before
      arguments_eq :
          arguments_in count true (before ++ (t ∷ after))
          ≡ arguments_in count true before ++ (trim t ∷ map trim after)
      others : All IsOther (arguments_in count true before)

    before-Ends : (before : List (List ℕ)) → All (λ s. IsOther (trim s)) before → Ends before
    unfolding switches_in arguments_in
    before-Ends [] all = record {
      switches_eq = switches_in-terminator t after here;
      arguments_eq = arguments_in-terminator t after here;
      others = tt;
    }
    before-Ends (string ∷ before) (other, all) =
        let rest = before-Ends before all in
        let strings = before ++ (t ∷ after) in
        let found = is_switch count (trim string) in
        let args = arguments_in count true before in
        record {
          switches_eq =
              switches_in-other string strings other
              ∙ ap (found_switches found) rest.switches_eq
              ∙ sym (switches_in-other string before other);
          arguments_eq =
              arguments_in-other string strings other
              ∙ ap (found_arguments (trim string) found) rest.arguments_eq
              ∙ found_arguments-append (trim string) found args (trim t ∷ map trim after)
              ∙ ap (λ xs. xs ++ (trim t ∷ map trim after))
                  (sym (arguments_in-other string before other));
          others =
              subst (All IsOther) (sym (arguments_in-other string before other))
                (found_arguments-All (trim string) found args other rest.others);
        }

    -- InitFromArgv of a program and strings of which one is, trimmed, the first that is the
    -- terminator `--`: GetArgs gives the arguments among the strings in front of it and then all
    -- strings behind it, trimmed, whatever they look like, and the switches are those in front of it
    -- alone.
    pub get_args-init_from_argv :
        (program : List ℕ) (before : List (List ℕ)) (l : CommandLine)
        → All (λ s. IsOther (trim s)) before
        → (l' : CommandLine) × (init_from_argv count (program ∷ (before ++ (t ∷ after))) l
            ≡ some l')
          × (get_args l' ≡ some (arguments_in count true before ++ map trim after))
          × (l'.switches ≡ enter count (switches_in count true before) [])
    get_args-init_from_argv program before l all =
        let e = before-Ends before all in
        let strings = before ++ (t ∷ after) in
        let l' =
          line (trim program) (map (written count) (switches_in count true strings))
            (arguments_in count true strings) (enter count (switches_in count true strings) []) in
        (
          l',
          init_from_argv-Sorted count program strings l,
          get_args-line (trim program) (map (written count) (switches_in count true strings))
                (arguments_in count true strings) (enter count (switches_in count true strings) [])
              ∙ ap (λ xs. some (erase_text switch_terminator xs)) e.arguments_eq
              ∙ ap some (
                  erase_text-append (arguments_in count true before) (map trim after) (trim t)
                    e.others here),
          ap (λ entries. enter count entries []) e.switches_eq,
        )
