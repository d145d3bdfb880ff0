-- ===== src/Base/CommandLine/Quote.antt =====
-- The command line as a string: QuoteForCommandLineToArgvW, GetArgumentsStringInternal and
-- GetCommandLineStringInternal of libHH/base/command_line.cpp.
use lib_hh_old.Common.{
  ℕ, suc, ◌+◌, Bool, true, false, not, ◌&&◌, Option, none, some, List, [], ◌∷◌, ◌++◌, ◌==◌,
  if◌then◌else◌, ◌>>=◌, replicate, drop,
}
use lib_hh_old.Base.Split.{is_empty, find_first_of}
use lib_hh_old.Base.CommandLine.{
  CommandLine, is_switch, same_text, switch_terminator, switch_value_separator, get_program,
}

abbrev pub quotable_chars : Bool → List ℕ
quotable_chars true = 32 ∷ 92 ∷ 34 ∷ 37 ∷ []
quotable_chars false = 32 ∷ 92 ∷ 34 ∷ []

-- The backslashes of a run, with what the run is followed by.
unfoldable pub escape_run : ℕ → List ℕ → List ℕ
escape_run count [] = replicate (count + count) 92
escape_run count (c ∷ cs) = if c == 34 then replicate (count + count) 92 else replicate count 92

-- The loop over the characters, behind a run of `count` backslashes that is not put out yet.
unfoldable pub quote_loop : ℕ → List ℕ → List ℕ
quote_loop count [] = escape_run count []
quote_loop count (c ∷ cs) = elim (c == 92) [
  | true ↦ quote_loop (suc count) cs
  | false ↦
      let rest : List ℕ = quote_loop 0 cs in
      escape_run count (c ∷ cs) ++ (if c == 34 then 92 ∷ 34 ∷ rest else c ∷ rest)
]

unfoldable pub quote_for_command_line_to_argv_w : List ℕ → Bool → List ℕ
quote_for_command_line_to_argv_w arg quote_placeholders =
    elim (find_first_of (quotable_chars quote_placeholders) arg) [
      | none ↦ arg
      | some i ↦ 34 ∷ (quote_loop 0 arg ++ (34 ∷ []))
    ]

module _ (switch_prefix_count : ℕ) (quote_placeholders : Bool) where
  unfoldable pub argument_string : Bool → List ℕ → List ℕ
  argument_string parse_switches arg =
      elim (if parse_switches then is_switch switch_prefix_count arg else none) [
        | none ↦ quote_for_command_line_to_argv_w arg quote_placeholders
        | some (switch_string, switch_value) ↦
            switch_string
            ++ (if is_empty switch_value
                then []
                else switch_value_separator
                  ++ quote_for_command_line_to_argv_w switch_value quote_placeholders)
      ]

  -- The loop, each argument but the first behind a space.
  unfoldable pub arguments_rest : Bool → Bool → List (List ℕ) → List ℕ
  arguments_rest first parse_switches [] = []
  arguments_rest first parse_switches (arg ∷ args) =
      let parse : Bool = parse_switches && not (same_text arg switch_terminator) in
      (if first then [] else 32 ∷ [])
      ++ (argument_string parse arg ++ arguments_rest false parse args)

  unfoldable pub get_arguments_string_internal : CommandLine → List ℕ
  get_arguments_string_internal l = arguments_rest true true (drop 1 l.argv)

  unfoldable pub get_command_line_string_internal : CommandLine → Option (List ℕ)
  get_command_line_string_internal l = get_program l >>= λ program.
      let params : List ℕ = get_arguments_string_internal l in
      some (
        quote_for_command_line_to_argv_w program quote_placeholders
        ++ (if is_empty params then [] else 32 ∷ params))
