-- ===== src/Base/CommandLine.antt =====
-- libHH/base/command_line.cpp and command_line.h, as they are built for Windows, with
-- ToLowerASCII, IsStringASCII and the conversions between ASCII and UTF-16. A `string16` is the
-- list of its code units, a `std::string` the list of its bytes.
mod Quote
mod Process
mod Layout
mod Names
mod SampleArgv
mod Examples
mod Launch
mod Quoting
mod ToArgv
mod Trim
mod Reparse
mod Lookup
mod Terminator
mod Reading
mod Steps
use lib_hh_old.Common.{
  ℕ, zero, suc, ◌+◌, ◌%◌, Bool, true, false, not, ◌&&◌, ◌||◌, Option, none, some, List, [], ◌∷◌,
  ◌++◌, ◌==◌, leb, ltb, if◌then◌else◌, ◌>>=◌, length, take, drop,
}
use lib_hh_old.Base.Split.{
  whitespace_utf16, string16, is_empty, find_first_of, trim_string, trim_whitespace, split_want_all,
  split_string,
}

-- `TrimWhitespace` with `TRIM_ALL`.
unfoldable pub trim : List ℕ → List ℕ
trim text = trim_string whitespace_utf16 text

unfoldable pub lower_char : ℕ → ℕ
lower_char c = if leb 65 c && leb c 90 then c + 32 else c

unfoldable pub to_lower : List ℕ → List ℕ
to_lower [] = []
to_lower (c ∷ cs) = lower_char c ∷ to_lower cs

-- `UTF16ToASCII` keeps the low byte; its assertion that there is nothing else is off in a release.
unfoldable pub to_ascii : List ℕ → List ℕ
to_ascii [] = []
to_ascii (c ∷ cs) = c % 256 ∷ to_ascii cs

-- `ASCIIToUTF16`: a `char` is signed, so a byte from 128 on is extended by ones.
unfoldable pub to_utf16 : List ℕ → List ℕ
to_utf16 [] = []
to_utf16 (c ∷ cs) = (if ltb c 128 then c else c + 65280) ∷ to_utf16 cs

unfoldable pub is_string_ascii : List ℕ → Bool
is_string_ascii [] = true
is_string_ascii (c ∷ cs) = ltb c 128 && is_string_ascii cs

unfoldable pub same_text : List ℕ → List ℕ → Bool
same_text [] [] = true
same_text [] (d ∷ ds) = false
same_text (c ∷ cs) [] = false
same_text (c ∷ cs) (d ∷ ds) = c == d && same_text cs ds

-- `kSwitchTerminator`, `kSwitchValueSeparator` and `kSwitchPrefixes`.
abbrev pub switch_terminator : List ℕ
switch_terminator = 45 ∷ 45 ∷ []

abbrev pub switch_value_separator : List ℕ
switch_value_separator = 61 ∷ []

abbrev pub switch_prefixes : List (List ℕ)
switch_prefixes = (45 ∷ 45 ∷ []) ∷ (45 ∷ []) ∷ (47 ∷ []) ∷ []

unfoldable pub prefix_length_in : List (List ℕ) → List ℕ → ℕ
prefix_length_in [] string = 0
prefix_length_in (prefix ∷ prefixes) string =
    let rest : ℕ = prefix_length_in prefixes string in
    if same_text (take (length prefix) string) prefix then length prefix else rest

unfoldable pub split_switch : List ℕ → List ℕ × List ℕ
split_switch string = elim (find_first_of switch_value_separator string) [
  | none ↦ (string, [])
  | some equals_position ↦ (take equals_position string, drop (suc equals_position) string)
]

-- The map `switches_`, by its entries in the order of their insertion.
unfoldable pub find_switch : List (List ℕ × List ℕ) → List ℕ → Option (List ℕ)
find_switch [] key = none
find_switch ((k, v) ∷ entries) key =
    let rest : Option (List ℕ) = find_switch entries key in if same_text k key then some v else rest

unfoldable pub assign_switch : List ℕ → List ℕ → List (List ℕ × List ℕ) → List (List ℕ × List ℕ)
assign_switch key value [] = (key, value) ∷ []
assign_switch key value ((k, v) ∷ entries) =
    let rest : List (List ℕ × List ℕ) = assign_switch key value entries in
    if same_text k key then (k, value) ∷ entries else (k, v) ∷ rest

unfoldable pub has_text : List (List ℕ) → List ℕ → Bool
has_text [] key = false
has_text (k ∷ keys) key = same_text k key || has_text keys key

unfoldable pub index_text : List ℕ → List (List ℕ) → List (List ℕ)
index_text key [] = key ∷ []
index_text key (k ∷ keys) =
    let rest : List (List ℕ) = index_text key keys in if same_text k key then k ∷ keys else k ∷ rest

unfoldable pub switch_keys : List (List ℕ × List ℕ) → List (List ℕ)
switch_keys [] = []
switch_keys ((k, v) ∷ entries) = k ∷ switch_keys entries

-- `pieces` is the index `switches_by_stringpiece_`: its keys, each of which points to the value
-- that `switches` has under that key.
pub record CommandLine : Type 0 where
  argv : List (List ℕ)
  switches : List (List ℕ × List ℕ)
  pieces : List (List ℕ)
  begin_args : ℕ

-- `CommandLine(NO_PROGRAM)`.
abbrev pub no_program : CommandLine
no_program = record { argv = [] ∷ []; switches = []; pieces = []; begin_args = 1 }

-- The copy constructor and the assignment, with `ResetStringPieces`.
unfoldable pub copy : CommandLine → CommandLine
copy other = record {
  argv = other.argv;
  switches = other.switches;
  pieces = switch_keys other.switches;
  begin_args = other.begin_args;
}

-- `argv_[0]`; `none` is the element of an empty vector.
unfoldable pub get_program : CommandLine → Option (List ℕ)
get_program l = elim l.argv [ [] ↦ none | program ∷ rest ↦ some program ]

unfoldable pub set_program : List ℕ → CommandLine → Option CommandLine
set_program program l = elim l.argv [
  | [] ↦ none
  | old ∷ rest ↦ some (record l { argv = trim program ∷ rest })
]

unfoldable pub has_switch : List ℕ → CommandLine → Bool
has_switch switch_string l = has_text l.pieces switch_string

-- A piece that the index has and the map has not would be a dangling pointer, `none`.
unfoldable pub get_switch_value_native : List ℕ → CommandLine → Option (List ℕ)
get_switch_value_native switch_string l =
    if has_text l.pieces switch_string then find_switch l.switches switch_string else some []

unfoldable pub get_switch_value_ascii : List ℕ → CommandLine → Option (List ℕ)
get_switch_value_ascii switch_string l = get_switch_value_native switch_string l >>= λ value.
    some (if is_string_ascii value then to_ascii value else [])

unfoldable pub append_arg_native : List ℕ → CommandLine → CommandLine
append_arg_native value l = record l { argv = l.argv ++ (value ∷ []) }

-- `vector::insert`; a position behind the end is undefined.
unfoldable pub insert_at : ℕ → List ℕ → List (List ℕ) → Option (List (List ℕ))
insert_at i x xs = if leb i (length xs) then some (take i xs ++ (x ∷ drop i xs)) else none

-- The arguments after the last switch; the first terminator among them is erased.
unfoldable pub erase_text : List ℕ → List (List ℕ) → List (List ℕ)
erase_text text [] = []
erase_text text (x ∷ xs) =
    let rest : List (List ℕ) = erase_text text xs in if same_text x text then xs else x ∷ rest

unfoldable pub get_args : CommandLine → Option (List (List ℕ))
get_args l =
    if leb l.begin_args (length l.argv)
    then some (erase_text switch_terminator (drop l.begin_args l.argv))
    else none

unfoldable pub prepend_wrapper : List ℕ → CommandLine → Option CommandLine
prepend_wrapper [] l = some l
prepend_wrapper (c ∷ cs) l =
    split_string string16 (c ∷ cs) (32 ∷ []) trim_whitespace split_want_all >>= λ wrapper_argv.
    some
      (record l { argv = wrapper_argv ++ l.argv; begin_args = l.begin_args + length wrapper_argv })

-- What depends on `switch_prefix_count`, the number of prefixes that begin a switch.
module _ (switch_prefix_count : ℕ) where
  unfoldable pub get_switch_prefix_length : List ℕ → ℕ
  get_switch_prefix_length string =
      prefix_length_in (take switch_prefix_count switch_prefixes) string

  -- The switch with its prefix, and its value.
  unfoldable pub is_switch : List ℕ → Option (List ℕ × List ℕ)
  is_switch string =
      let prefix_length : ℕ = get_switch_prefix_length string in
      if prefix_length == 0 || prefix_length == length string
      then none
      else some (split_switch string)

  -- The string that a switch puts into `argv_`.
  unfoldable pub combined_switch_string : List ℕ → List ℕ → List ℕ
  combined_switch_string key value =
      let combined : List ℕ = to_utf16 key in
      let prefixed : List ℕ =
        if get_switch_prefix_length combined == 0 then (45 ∷ 45 ∷ []) ++ combined else combined in
      if is_empty value then prefixed else prefixed ++ (switch_value_separator ++ value)

  -- The key of a switch, without the prefix.
  unfoldable pub switch_key : List ℕ → List ℕ
  switch_key key = drop (get_switch_prefix_length (to_utf16 key)) key

  unfoldable pub append_switch_native : List ℕ → List ℕ → CommandLine → Option CommandLine
  append_switch_native switch_string value l =
      let key : List ℕ = to_lower switch_string in
      insert_at l.begin_args (combined_switch_string key value) l.argv >>= λ argv. some (record {
        argv = argv;
        switches = assign_switch (switch_key key) value l.switches;
        pieces = index_text (switch_key key) l.pieces;
        begin_args = suc l.begin_args;
      })

  abbrev pub append_switch : List ℕ → CommandLine → Option CommandLine
  append_switch switch_string l = append_switch_native switch_string [] l

  abbrev pub append_switch_ascii : List ℕ → List ℕ → CommandLine → Option CommandLine
  append_switch_ascii switch_string value_string l =
      append_switch_native switch_string (to_utf16 value_string) l

  -- The body of the loop of `AppendSwitchesAndArguments`, for a trimmed argument.
  unfoldable pub append_one : Bool → List ℕ → CommandLine → Option CommandLine
  append_one parse_switches arg l = elim (if parse_switches then is_switch arg else none) [
    | none ↦ some (append_arg_native arg l)
    | some (switch_string, switch_value) ↦
        append_switch_native (to_ascii switch_string) switch_value l
  ]

  unfoldable pub append_rest : Bool → List (List ℕ) → CommandLine → Option CommandLine
  append_rest parse_switches [] l = some l
  append_rest parse_switches (string ∷ strings) l =
      let arg : List ℕ = trim string in
      let parse : Bool = parse_switches && not (same_text arg switch_terminator) in
      append_one parse arg l >>= append_rest parse strings

  -- The loop begins at the second element of `argv`.
  abbrev pub append_switches_and_arguments : List (List ℕ) → CommandLine → Option CommandLine
  append_switches_and_arguments argv l = append_rest true (drop 1 argv) l

  unfoldable pub init_from_argv : List (List ℕ) → CommandLine → Option CommandLine
  init_from_argv argv l =
      set_program (elim argv [ [] ↦ [] | program ∷ rest ↦ program ]) no_program
      >>= append_switches_and_arguments argv

  unfoldable pub append_arguments : CommandLine → Bool → CommandLine → Option CommandLine
  append_arguments other true l = get_program other >>= λ program.
      set_program program l >>= append_switches_and_arguments other.argv
  append_arguments other false l = append_switches_and_arguments other.argv l

  unfoldable pub copy_switches_from : CommandLine → List (List ℕ) → CommandLine → Option CommandLine
  copy_switches_from source [] l = some l
  copy_switches_from source (switch ∷ switches) l =
      (if has_switch switch source
        then (get_switch_value_native switch source >>= λ value.
            append_switch_native switch value l)
        else some l)
      >>= copy_switches_from source switches
