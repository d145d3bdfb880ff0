-- ===== src/Base/CommandLine/Reparse.antt =====
-- A command line that is built switch by switch, and the list of strings that it comes to, which
-- another process reads: libHH/base/command_line.cpp.
use lib_hh_old.Common.{
  ℕ, suc, ◌≡◌, refl, sym, ap, ap₂, ◌∙◌, true, ◌⊎◌, inl, inr, Option, none, some, List, [], ◌∷◌,
  ◌++◌, append-nil, append_assoc, map, ◌>>=◌, All,
}
use mathlib.Core.Path.{subst}
use lib_hh_old.Base.CommandLine.{
  CommandLine, no_program, set_program, append_arg_native, append_switch_native, init_from_argv,
  assign_switch, switch_keys, is_switch, trim, to_lower, switch_key,
}
use lib_hh_old.Base.CommandLine.Reading.{
  line, written, enter, switches_in, arguments_in, append_switch_native-line,
  append_arg_native-line, init_from_argv-Sorted,
}
use lib_hh_old.Base.CommandLine.Terminator.{
  IsTerminator, IsOther, found_switches, found_arguments, switches_in-other, arguments_in-other,
  switches_in-terminator, arguments_in-terminator,
}
use lib_hh_old.Base.CommandLine.Trim.{trim-idempotent}
use lib_hh_old.Base.CommandLine.Names.{
  IsName, IsTidy, dashed, value_suffix, combined_switch_string-name, combined_switch_string-dashed,
  switch_key-name, switch_key-dashed, to_ascii-dashed, trim-written, written-is_other,
  is_switch-written,
}

-- What a program appends, in any order.
pub data Item : Type 0 where
  switch_item : List ℕ → List ℕ → Item
  arg_item : List ℕ → Item

unfoldable pub switches_of : List Item → List (List ℕ × List ℕ)
switches_of [] = []
switches_of (switch_item name value ∷ items) = (name, value) ∷ switches_of items
switches_of (arg_item arg ∷ items) = switches_of items

unfoldable pub args_of : List Item → List (List ℕ)
args_of [] = []
args_of (switch_item name value ∷ items) = args_of items
args_of (arg_item arg ∷ items) = arg ∷ args_of items

abbrev pub IsTidySwitch : List ℕ × List ℕ → Type 0
IsTidySwitch (name, value) = IsName name × IsTidy value

module _ (n : ℕ) where
  abbrev count : ℕ
  count = suc n

  -- Arguments that are not taken for switches: none looks like one, up to a terminator.
  unfoldable pub AreArguments : List (List ℕ) → Type 0
  AreArguments [] = Unit
  AreArguments (arg ∷ args) =
      (trim arg ≡ arg)
      × ((IsTerminator arg × All (λ a. trim a ≡ a) args)
          ⊎ (IsOther arg × (is_switch count arg ≡ none) × AreArguments args))

  unfoldable pub append_items : List Item → CommandLine → Option CommandLine
  append_items [] l = some l
  append_items (switch_item name value ∷ items) l =
      append_switch_native count name value l >>= append_items items
  append_items (arg_item arg ∷ items) l = append_items items (append_arg_native arg l)

  append_items-line :
      (items : List Item) (program : List ℕ) (front args : List (List ℕ))
      (switches : List (List ℕ × List ℕ))
      → append_items items (line program front args switches)
        ≡ some (
            line program
              (front ++ map (written count) (switches_of items))
              (args ++ args_of items)
              (enter count (switches_of items) switches))
  unfolding append_items switches_of args_of enter
  append_items-line [] program front args switches =
      ap₂ (λ xs ys. some (line program xs ys switches)) (sym (append-nil front))
        (sym (append-nil args))
  append_items-line (switch_item name value ∷ items) program front args switches =
      let entered = assign_switch (switch_key count (to_lower name)) value switches in
      let entries = switches_of items in
      ap (λ o. o >>= append_items items)
        (append_switch_native-line count program front args switches name value)
      ∙ append_items-line items program (front ++ (written count (name, value) ∷ [])) args entered
      ∙ ap (λ xs. some (line program xs (args ++ args_of items) (enter count entries entered)))
          (append_assoc front (written count (name, value) ∷ []) (map (written count) entries))
  append_items-line (arg_item arg ∷ items) program front args switches =
      let entries = switches_of items in
      ap (append_items items) (append_arg_native-line program front args switches arg)
      ∙ append_items-line items program front (args ++ (arg ∷ [])) switches
      ∙ ap
          (λ xs.
            some (
              line program (front ++ map (written count) entries) xs
                (enter count entries switches)))
          (append_assoc args (arg ∷ []) (args_of items))

  trim-All : (args : List (List ℕ)) → All (λ a. trim a ≡ a) args → map trim args ≡ args
  trim-All [] all = refl
  trim-All (arg ∷ args) (e, all) = ap₂ (λ x xs. x ∷ xs) e (trim-All args all)

  -- What the strings of tidy arguments are read as.
  args-ReadBack :
      (args : List (List ℕ))
      → AreArguments args
      → (switches_in count true args ≡ []) × (arguments_in count true args ≡ args)
  unfolding AreArguments switches_in arguments_in
  args-ReadBack [] h = (refl, refl)
  args-ReadBack (arg ∷ args) (e, inl (here, all)) =
      let here' = subst IsTerminator (sym e) here in
      (
        switches_in-terminator count arg args here',
        arguments_in-terminator count arg args here' ∙ ap₂ (λ x xs. x ∷ xs) e (trim-All args all),
      )
  args-ReadBack (arg ∷ args) (e, inr (other, no_switch, rest)) =
      let other' = subst IsOther (sym e) other in
      let no = ap (is_switch count) e ∙ no_switch in
      let (no_switches, same) = args-ReadBack args rest in
      (
        switches_in-other count arg args other' ∙ ap₂ (found_switches count) no no_switches,
        arguments_in-other count arg args other'
            ∙ ap₂ (found_arguments count (trim arg)) no same
            ∙ ap (λ x. x ∷ args) e,
      )

  abbrev dashed_entry : List ℕ × List ℕ → List ℕ × List ℕ
  dashed_entry (name, value) = (dashed name, value)

  record ReadBack (entries : List (List ℕ × List ℕ)) (args : List (List ℕ)) : Type 0 where
    switches_eq :
        switches_in count true (map (written count) entries ++ args) ≡ map dashed_entry entries
    arguments_eq : arguments_in count true (map (written count) entries ++ args) ≡ args
    written_eq : map (written count) (map dashed_entry entries) ≡ map (written count) entries
    enter_eq :
        (switches : List (List ℕ × List ℕ))
        → enter count (map dashed_entry entries) switches ≡ enter count entries switches

  entries-ReadBack :
      (entries : List (List ℕ × List ℕ)) (args : List (List ℕ))
      → All IsTidySwitch entries
      → AreArguments args
      → ReadBack entries args
  unfolding enter
  entries-ReadBack [] args tidy h = record {
    switches_eq = (args-ReadBack args h).0;
    arguments_eq = (args-ReadBack args h).1;
    written_eq = refl;
    enter_eq = λ switches. refl;
  }
  entries-ReadBack ((name, value) ∷ entries) args ((is_name, tidy), all) h =
      let rest = entries-ReadBack entries args all h in
      let strings = map (written count) entries ++ args in
      let text = dashed name ++ value_suffix value in
      let w : written count (name, value) ≡ text =
        combined_switch_string-name n name value is_name in
      let trimmed : trim (written count (name, value)) ≡ text =
        ap trim w ∙ trim-written n name value is_name tidy in
      let other : IsOther (trim (written count (name, value))) =
        subst IsOther (sym trimmed) (written-is_other n name value is_name) in
      let found : is_switch count (trim (written count (name, value))) ≡ some (dashed name, value) =
        ap (is_switch count) trimmed ∙ is_switch-written n name value is_name in
      record {
        switches_eq =
            switches_in-other count (written count (name, value)) strings other
            ∙ ap₂ (found_switches count) found rest.switches_eq
            ∙ ap (λ key. (key, value) ∷ map dashed_entry entries)
                (to_ascii-dashed n name value is_name);
        arguments_eq =
            arguments_in-other count (written count (name, value)) strings other
            ∙ ap₂ (found_arguments count (trim (written count (name, value)))) found
                rest.arguments_eq;
        written_eq =
            ap₂ (λ x xs. x ∷ xs) (combined_switch_string-dashed n name value is_name ∙ sym w)
              rest.written_eq;
        enter_eq = λ switches.
            rest.enter_eq (assign_switch (switch_key count (to_lower (dashed name))) value switches)
            ∙ ap (λ key. enter count entries (assign_switch key value switches))
                (switch_key-dashed n name value is_name
                  ∙ sym (switch_key-name n name value is_name));
      }

  -- What a program comes to that appends the items.
  abbrev pub front_of : List Item → List (List ℕ)
  front_of items = map (written count) (switches_of items)

  abbrev pub built : List ℕ → List Item → CommandLine
  built program items =
      line (trim program) (front_of items) (args_of items) (enter count (switches_of items) [])

  pub append_items-built :
      (program : List ℕ) (items : List Item)
      → (set_program program no_program >>= append_items items) ≡ some (built program items)
  unfolding set_program switch_keys
  append_items-built program items = append_items-line items (trim program) [] [] []

  pub init_from_argv-built :
      (program : List ℕ) (items : List Item) (other : CommandLine)
      → All IsTidySwitch (switches_of items)
      → AreArguments (args_of items)
      → init_from_argv count (trim program ∷ (front_of items ++ args_of items)) other
        ≡ some (built program items)
  init_from_argv-built program items other tidy plain =
      let entries = switches_of items in
      let args = args_of items in
      let front = front_of items in
      let r = entries-ReadBack entries args tidy plain in
      init_from_argv-Sorted count (trim program) (front ++ args) other
      ∙ ap₂
          (λ xs ys.
            some (line (trim (trim program)) (map (written count) xs) ys (enter count xs [])))
          r.switches_eq r.arguments_eq
      ∙ ap₂ (λ p xs. some (line p xs args (enter count (map dashed_entry entries) [])))
          (trim-idempotent program) r.written_eq
      ∙ ap (λ s. some (line (trim program) front args s)) (r.enter_eq [])

  -- With the prefix `--` in use: a command line to which switches with names of lower-case ASCII
  -- without a prefix, white space or an equals sign, with values that end in no white space, and
  -- trimmed arguments that are not taken for switches, or stand from a terminator on, are appended
  -- in any order, is made again by InitFromArgv from its own list of strings, the map of switches
  -- and the place where the arguments begin included.
  pub init_from_argv-append_items :
      (program : List ℕ) (items : List Item)
      → All IsTidySwitch (switches_of items)
      → AreArguments (args_of items)
      → (l : CommandLine) × ((set_program program no_program >>= append_items items) ≡ some l)
        × ((other : CommandLine) → init_from_argv count l.argv other ≡ some l)
  init_from_argv-append_items program items tidy plain = (
    built program items,
    append_items-built program items,
    λ other. init_from_argv-built program items other tidy plain,
  )
