-- ===== src/Base/CommandLine/Examples.antt =====
-- Runs of the command line.
use lib_hh_old.Common.{
  ℕ, ◌≡◌, refl, true, false, inl, inr, some, List, [], ◌∷◌, ◌++◌, map, ◌>>=◌, All, drop, arith,
}
use lib_hh_old.Base.Split.{
  is_empty, find_first_of, one_of, trim_string, trim_leading, trim_trailing,
}
use lib_hh_old.Base.CommandLine.{
  CommandLine, no_program, set_program, append_switch_native, init_from_argv, prepend_wrapper,
  get_args, get_switch_value_native, has_switch, to_lower, to_ascii, to_utf16, switch_key,
  same_text, trim, append_rest, append_one, is_switch, get_switch_prefix_length, prefix_length_in,
  split_switch, combined_switch_string, insert_at, lower_char, switch_terminator,
}
use lib_hh_old.Base.CommandLine.Quote.{
  quote_for_command_line_to_argv_w, quote_loop, escape_run, get_arguments_string_internal,
}
use lib_hh_old.Base.CommandLine.Layout.{no_program-IsSound}
use lib_hh_old.Base.CommandLine.Steps.{from_no_program, Reachable-CannotFault}
use lib_hh_old.Base.CommandLine.Reading.{
  line, written, switches_in, arguments_in, enter, init_from_argv-Sorted,
}
use lib_hh_old.Base.CommandLine.Terminator.{get_args-init_from_argv}
use lib_hh_old.Base.CommandLine.Lookup.{append_switch_native-Found}
use lib_hh_old.Base.CommandLine.Names.{IsNameChar, IsName}
use lib_hh_old.Base.CommandLine.Reparse.{
  Item, switch_item, arg_item, switches_of, args_of, IsTidySwitch, AreArguments, append_items,
  front_of, init_from_argv-append_items,
}
use lib_hh_old.Base.CommandLine.ToArgv.{HasNoTab, prepend}
use lib_hh_old.Base.CommandLine.Quoting.{IsBare, quote-ReadBack}
use lib_hh_old.Base.CommandLine.Launch.{
  IsPassableSwitch, IsPassableArgument, init_from_argv-get_arguments_string,
}
use lib_hh_old.Base.CommandLine.SampleArgv.{behind, behind-ArgvRules}

-- "p", "Foo", "foo", "--foo=1", "a b", "--".
abbrev p_text : List ℕ
p_text = 112 ∷ []

abbrev foo_capital : List ℕ
foo_capital = 70 ∷ 111 ∷ 111 ∷ []

abbrev foo : List ℕ
foo = 102 ∷ 111 ∷ 111 ∷ []

abbrev foo_is_one : List ℕ
foo_is_one = 45 ∷ 45 ∷ 102 ∷ 111 ∷ 111 ∷ 61 ∷ 49 ∷ []

abbrev a_b : List ℕ
a_b = 97 ∷ 32 ∷ 98 ∷ []

abbrev dashes : List ℕ
dashes = 45 ∷ 45 ∷ []

Reachable-CannotFault_example :
    (l' : CommandLine) × (append_switch_native 3 foo p_text no_program ≡ some l')
    × ((l'' : CommandLine) × (prepend_wrapper a_b no_program ≡ some l''))
    × ((args : List (List ℕ)) × (get_args no_program ≡ some args))
    × ((found : List ℕ) × (get_switch_value_native foo no_program ≡ some found)
        × (has_switch foo no_program ≡ false → found ≡ []))
Reachable-CannotFault_example =
    Reachable-CannotFault 3 no_program from_no_program foo p_text a_b foo

init_from_argv-Sorted_example :
    init_from_argv 3 (p_text ∷ a_b ∷ foo_is_one ∷ []) no_program
    ≡ some (
        line
          (trim p_text)
          (map (written 3) (switches_in 3 true (a_b ∷ foo_is_one ∷ [])))
          (arguments_in 3 true (a_b ∷ foo_is_one ∷ []))
          (enter 3 (switches_in 3 true (a_b ∷ foo_is_one ∷ [])) []))
init_from_argv-Sorted_example = init_from_argv-Sorted 3 p_text (a_b ∷ foo_is_one ∷ []) no_program

trim-dashes : same_text (trim dashes) switch_terminator ≡ true
unfolding same_text trim trim_string trim_leading trim_trailing one_of is_empty
trim-dashes = refl

trim-a_b : same_text (trim a_b) switch_terminator ≡ false
unfolding same_text trim trim_string trim_leading trim_trailing one_of is_empty
trim-a_b = refl

get_args-init_from_argv_example :
    (l' : CommandLine) × (init_from_argv 3
        (p_text ∷ ((a_b ∷ []) ++ (dashes ∷ foo_is_one ∷ [])))
        no_program
      ≡ some l')
    × (get_args l' ≡ some (arguments_in 3 true (a_b ∷ []) ++ map trim (foo_is_one ∷ [])))
    × (l'.switches ≡ enter 3 (switches_in 3 true (a_b ∷ [])) [])
get_args-init_from_argv_example =
    get_args-init_from_argv 3 dashes (foo_is_one ∷ []) trim-dashes p_text (a_b ∷ []) no_program
      (trim-a_b, tt)

Foo-is_foo : same_text (switch_key 3 (to_lower foo_capital)) p_text ≡ false
unfolding same_text switch_key to_lower lower_char to_utf16 get_switch_prefix_length
    prefix_length_in
Foo-is_foo = refl

append_switch_native-Found_example :
    (l' : CommandLine) × (append_switch_native 3 foo_capital a_b no_program ≡ some l')
    × (has_switch (switch_key 3 (to_lower foo_capital)) l' ≡ true)
    × (get_switch_value_native (switch_key 3 (to_lower foo_capital)) l' ≡ some a_b)
    × (has_switch p_text l' ≡ has_switch p_text no_program)
    × (get_switch_value_native p_text l' ≡ get_switch_value_native p_text no_program)
    × (get_args l' ≡ get_args no_program)
append_switch_native-Found_example =
    append_switch_native-Found 3 no_program foo_capital a_b p_text (no_program-IsSound 3) Foo-is_foo

f-IsNameChar : IsNameChar 102
unfolding lower_char one_of
f-IsNameChar = record { ascii = omega arith; lower = refl; no_equals = refl; no_space = refl }

o-IsNameChar : IsNameChar 111
unfolding lower_char one_of
o-IsNameChar = record { ascii = omega arith; lower = refl; no_equals = refl; no_space = refl }

foo-IsName : IsName foo
foo-IsName = record {
  first = 102;
  others = 111 ∷ 111 ∷ [];
  name_eq = refl;
  no_dash = refl;
  no_slash = refl;
  chars = (f-IsNameChar, (o-IsNameChar, (o-IsNameChar, tt)));
}

f-IsBare : IsBare 102
f-IsBare = record { no_space = refl; no_tab = refl; no_quote = refl; no_backslash = refl }

o-IsBare : IsBare 111
o-IsBare = record { no_space = refl; no_tab = refl; no_quote = refl; no_backslash = refl }

-- The argument "a b", then the switch "foo" with the value "a b", and the argument "--".
abbrev items : List Item
items = arg_item a_b ∷ switch_item foo a_b ∷ arg_item dashes ∷ []

items-IsTidySwitch : All IsTidySwitch (switches_of items)
unfolding switches_of trim_trailing one_of is_empty
items-IsTidySwitch = ((foo-IsName, refl), tt)

items-AreArguments : AreArguments 2 (args_of items)
unfolding AreArguments args_of same_text trim trim_string trim_leading trim_trailing one_of is_empty
    is_switch get_switch_prefix_length prefix_length_in
items-AreArguments = (refl, inr (refl, refl, (refl, inl (refl, tt))))

init_from_argv-append_items_example :
    (l : CommandLine) × ((set_program p_text no_program >>= append_items 2 items) ≡ some l)
    × ((other : CommandLine) → init_from_argv 3 l.argv other ≡ some l)
init_from_argv-append_items_example =
    init_from_argv-append_items 2 p_text items items-IsTidySwitch items-AreArguments

a_b-HasNoTab : HasNoTab a_b
a_b-HasNoTab = (refl, (refl, (refl, tt)))

quote-ReadBack_example :
    behind false (32 ∷ (quote_for_command_line_to_argv_w a_b false ++ (32 ∷ 120 ∷ [])))
    ≡ [] ∷ prepend a_b (behind false (32 ∷ 120 ∷ []))
quote-ReadBack_example =
    quote-ReadBack behind behind-ArgvRules false 97 (32 ∷ 98 ∷ []) (32 ∷ 120 ∷ []) a_b-HasNoTab
      (inr (120 ∷ [], refl))

items-IsPassableSwitch : All IsPassableSwitch (switches_of items)
unfolding switches_of
items-IsPassableSwitch = (((f-IsBare, (o-IsBare, (o-IsBare, tt))), a_b-HasNoTab), tt)

items-IsPassableArgument : All IsPassableArgument (args_of items)
unfolding args_of is_empty
items-IsPassableArgument = ((refl, a_b-HasNoTab), ((refl, (refl, (refl, tt))), tt))

items-strings :
    front_of 2 items ++ args_of items ≡ (45 ∷ 45 ∷ 102 ∷ 111 ∷ 111 ∷ 61 ∷ a_b) ∷ a_b ∷ dashes ∷ []
unfolding args_of switches_of combined_switch_string to_lower lower_char to_utf16
    get_switch_prefix_length prefix_length_in same_text is_empty
items-strings = refl

init_from_argv-get_arguments_string_example :
    (l : CommandLine) × ((set_program p_text no_program >>= append_items 2 items) ≡ some l)
    × (behind false (get_arguments_string_internal 3 false l) ≡ drop 1 l.argv)
    × ((other : CommandLine)
        → init_from_argv 3
            (trim p_text ∷ behind false (get_arguments_string_internal 3 false l))
            other
          ≡ some l)
init_from_argv-get_arguments_string_example =
    init_from_argv-get_arguments_string behind behind-ArgvRules 2 false p_text items
      (45 ∷ 45 ∷ 102 ∷ 111 ∷ 111 ∷ 61 ∷ a_b) (a_b ∷ dashes ∷ []) items-IsTidySwitch
      items-IsPassableSwitch items-AreArguments items-IsPassableArgument items-strings

-- The switch "--=" is put into the list of strings as "--".
nameless :
    (init_from_argv 3 (p_text ∷ (45 ∷ 45 ∷ 61 ∷ []) ∷ foo_is_one ∷ []) no_program >>= λ l.
    some l.argv)
    ≡ some (p_text ∷ dashes ∷ foo_is_one ∷ [])
unfolding init_from_argv set_program append_rest append_one trim trim_string trim_leading
    trim_trailing one_of is_empty is_switch get_switch_prefix_length prefix_length_in same_text
    split_switch find_first_of append_switch_native insert_at combined_switch_string to_lower
    lower_char to_utf16 to_ascii
nameless = refl

-- An empty argument is not quoted, and neither is one that holds a tabulator.
unquoted_empty : quote_for_command_line_to_argv_w [] false ≡ []
unfolding quote_for_command_line_to_argv_w find_first_of
unquoted_empty = refl

unquoted_tab : quote_for_command_line_to_argv_w (97 ∷ 9 ∷ 98 ∷ []) false ≡ 97 ∷ 9 ∷ 98 ∷ []
unfolding quote_for_command_line_to_argv_w find_first_of one_of
unquoted_tab = refl

-- "a \" with a backslash at its end.
quoted_backslash :
    quote_for_command_line_to_argv_w (97 ∷ 32 ∷ 92 ∷ []) false ≡ 34 ∷ 97 ∷ 32 ∷ 92 ∷ 92 ∷ 34 ∷ []
unfolding quote_for_command_line_to_argv_w find_first_of one_of quote_loop escape_run
quoted_backslash = refl
