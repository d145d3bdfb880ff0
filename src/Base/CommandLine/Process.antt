-- ===== src/Base/CommandLine/Process.antt =====
-- The command line of the process: the static members of CommandLine in
-- libHH/base/command_line.cpp, and ParseFromString. Windows' functions that split a command line
-- and that give the process's own are parameters, as are the conversions from UTF-8.
use lib_hh_old.Common.{ℕ, Bool, true, false, Option, none, some, List, [], ◌∷◌, map, ◌>>=◌}
use lib_hh_old.Base.CommandLine.{CommandLine, no_program, init_from_argv, append_arg_native, trim}

-- The singleton and `switch_prefix_count`.
pub record Process : Type 0 where
  current : Option CommandLine
  switch_prefix_count : ℕ

abbrev pub initial_process : Process
initial_process = record { current = none; switch_prefix_count = 3 }

unfoldable pub set_slash_is_not_a_switch : Process → Process
set_slash_is_not_a_switch p = record p { switch_prefix_count = 2 }

-- `Reset`; nothing is there to delete when there is no command line.
unfoldable pub reset : Process → Process
reset p = record p { current = none }

unfoldable pub initialized_for_current_process : Process → Bool
initialized_for_current_process p = elim p.current [ none ↦ false | some l ↦ true ]

-- `ForCurrentProcess`; `none` is a null pointer.
abbrev pub for_current_process : Process → Option CommandLine
for_current_process p = p.current

unfoldable pub append_arg : (List ℕ → List ℕ) → List ℕ → CommandLine → CommandLine
append_arg utf8_to_wide value l = append_arg_native (utf8_to_wide value) l

module _ (command_line_to_argv : List ℕ → List (List ℕ)) where
  unfoldable pub parse_from_string : ℕ → List ℕ → CommandLine → Option CommandLine
  parse_from_string switch_prefix_count command_line l = elim (trim command_line) [
    | [] ↦ some l
    | c ∷ cs ↦ init_from_argv switch_prefix_count (command_line_to_argv (c ∷ cs)) l
  ]

  unfoldable pub from_string : ℕ → List ℕ → Option CommandLine
  from_string switch_prefix_count command_line =
      parse_from_string switch_prefix_count command_line no_program

  -- `Init`, with what GetCommandLineW gives; the result is whether the caller is to reset.
  unfoldable pub init : List ℕ → Process → Option (Bool × Process)
  init command_line p = elim p.current [
    | some l ↦ some (false, p)
    | none ↦ parse_from_string p.switch_prefix_count command_line no_program >>= λ l.
        some (true, record p { current = some l })
  ]

-- `InitUsingArgvForTesting`; a command line that is there already is leaked.
unfoldable pub init_using_argv_for_testing :
    (List ℕ → List ℕ) → List (List ℕ) → Process → Option Process
init_using_argv_for_testing utf8_to_utf16 argv p =
    init_from_argv p.switch_prefix_count (map utf8_to_utf16 argv) no_program >>= λ l.
    some (record p { current = some l })
