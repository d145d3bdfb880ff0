-- ===== src/Base/CommandLine/Names.antt =====
-- Names of switches, as libHH/base/command_line.cpp writes them into the list of strings and reads
-- them there: in lower case, of ASCII characters that are neither white space nor an equals sign.
use lib_hh_old.Common.{
  ℕ, zero, suc, ◌+◌, ◌<◌, ◌≡◌, refl, sym, ap, ap₂, ◌∙◌, Bool, true, false, ◌&&◌, ◌==◌, Option, none,
  some, List, [], ◌∷◌, ◌++◌, append-nil, lt→ltb, if◌then◌else◌, ◌>>=◌, length, take, take-nil, drop,
  take-append_left, take-length, drop-append_right, All, arith,
}
use lib_hh_old.Base.Split.{
  whitespace_utf16, is_empty, one_of, find_first_of, trim_leading, trim_trailing, trim_string,
}
use lib_hh_old.Base.CommandLine.{
  trim, lower_char, to_lower, to_ascii, to_utf16, same_text, switch_terminator, prefix_length_in,
  get_switch_prefix_length, is_switch, split_switch, switch_key, combined_switch_string,
  switch_value_separator,
}

pub record IsNameChar (c : ℕ) : Type 0 where
  pub ascii : c < 128
  pub lower : lower_char c ≡ c
  pub no_equals : (c == 61) ≡ false
  pub no_space : one_of whitespace_utf16 c ≡ false

-- A name is not empty, and does not begin like a prefix.
pub record IsName (name : List ℕ) : Type 0 where
  pub first : ℕ
  pub others : List ℕ
  pub name_eq : name ≡ first ∷ others
  pub no_dash : (first == 45) ≡ false
  pub no_slash : (first == 47) ≡ false
  pub chars : All IsNameChar name

-- Text that ends in no white space.
abbrev pub IsTidy : List ℕ → Type 0
IsTidy text = trim_trailing whitespace_utf16 text ≡ text

abbrev pub value_suffix : List ℕ → List ℕ
value_suffix value = if is_empty value then [] else 61 ∷ value

to_lower-name : (cs : List ℕ) → All IsNameChar cs → to_lower cs ≡ cs
unfolding to_lower
to_lower-name [] all = refl
to_lower-name (c ∷ cs) (char, all) = ap₂ (λ x xs. x ∷ xs) char.lower (to_lower-name cs all)

to_ascii-name : (cs : List ℕ) → All IsNameChar cs → to_ascii cs ≡ cs
unfolding to_ascii
to_ascii-name [] all = refl
to_ascii-name (c ∷ cs) (char, all) =
    ap₂ (λ x xs. x ∷ xs) (omega (arith, char.ascii)) (to_ascii-name cs all)

to_utf16-name : (cs : List ℕ) → All IsNameChar cs → to_utf16 cs ≡ cs
unfolding to_utf16
to_utf16-name [] all = refl
to_utf16-name (c ∷ cs) (char, all) =
    rw (lt→ltb c 128 char.ascii) (ap (λ xs. c ∷ xs) (to_utf16-name cs all))

trim_trailing-append : (xs ys : List ℕ) → All IsNameChar xs → IsTidy ys → IsTidy (xs ++ ys)
unfolding trim_trailing
trim_trailing-append [] ys all tidy = tidy
trim_trailing-append (x ∷ xs) ys (char, all) tidy =
    rw (trim_trailing-append xs ys all tidy, char.no_space) (last (is_empty (xs ++ ys)))
  where
    last : (b : Bool) → (if b && false then [] else x ∷ (xs ++ ys)) ≡ x ∷ (xs ++ ys)
    last true = refl
    last false = refl

-- A text without an equals sign, in front of another.
find_first_of-append :
    (xs ys : List ℕ)
    → All IsNameChar xs
    → find_first_of switch_value_separator (xs ++ ys)
      ≡ (find_first_of switch_value_separator ys >>= λ k. some (length xs + k))
unfolding find_first_of one_of
find_first_of-append [] ys all = same (find_first_of switch_value_separator ys)
  where
    same : (o : Option ℕ) → o ≡ (o >>= λ k. some (0 + k))
    same none = refl
    same (some k) = ap some (omega arith)
find_first_of-append (x ∷ xs) ys (char, all) =
    rw (char.no_equals, find_first_of-append xs ys all)
      (next (find_first_of switch_value_separator ys))
  where
    next :
        (o : Option ℕ)
        → ((o >>= λ k. some (length xs + k)) >>= λ k. some (suc k))
          ≡ (o >>= λ k. some (suc (length xs) + k))
    next none = refl
    next (some k) = ap some (omega arith)

get_switch_prefix_length-none :
    (count c : ℕ) (cs : List ℕ)
    → (c == 45) ≡ false
    → (c == 47) ≡ false
    → get_switch_prefix_length count (c ∷ cs) ≡ 0
unfolding get_switch_prefix_length prefix_length_in same_text
get_switch_prefix_length-none zero c cs h h' = refl
get_switch_prefix_length-none (suc zero) c cs h h' = rw h refl
get_switch_prefix_length-none (suc (suc zero)) c cs h h' = rw h refl
get_switch_prefix_length-none (suc (suc (suc n))) c cs h h' =
    rw (h, h', take-nil {A = List ℕ} n) refl

-- A name behind the two dashes of the first prefix.
abbrev pub dashed : List ℕ → List ℕ
dashed name = 45 ∷ 45 ∷ name

dash-IsNameChar : IsNameChar 45
unfolding lower_char one_of
dash-IsNameChar = record { ascii = omega arith; lower = refl; no_equals = refl; no_space = refl }

dashed-All : (name : List ℕ) → IsName name → All IsNameChar (dashed name)
dashed-All name n = (dash-IsNameChar, (dash-IsNameChar, n.chars))

value_suffix-append :
    (xs value : List ℕ)
    → (if is_empty value then xs else xs ++ (61 ∷ value)) ≡ xs ++ value_suffix value
unfolding is_empty
value_suffix-append xs [] = sym (append-nil xs)
value_suffix-append xs (c ∷ cs) = refl

value_suffix-IsTidy : (value : List ℕ) → IsTidy value → IsTidy (value_suffix value)
unfolding is_empty trim_trailing one_of
value_suffix-IsTidy [] h = refl
value_suffix-IsTidy (c ∷ cs) h = rw h refl

split_switch-written :
    (name value : List ℕ)
    → All IsNameChar name
    → split_switch (name ++ value_suffix value) ≡ (name, value)
unfolding split_switch is_empty find_first_of one_of
split_switch-written name [] all =
    rw (split_switch, find_first_of-append name [] all) (ap (λ xs. (xs, [])) (append-nil name))
split_switch-written name (c ∷ cs) all =
    let value = c ∷ cs in
    let before : take (length name + 0) (name ++ (61 ∷ value)) ≡ name =
      take-append_left (length name + 0) name (61 ∷ value) (omega arith)
      ∙ take-length (length name + 0) name (omega arith) in
    let e : suc (length name + 0) ≡ length name + 1 = omega arith in
    let after : drop (suc (length name + 0)) (name ++ (61 ∷ value)) ≡ value =
      ap (λ k. drop k (name ++ (61 ∷ value))) e ∙ drop-append_right 1 name (61 ∷ value) in
    rw (split_switch, find_first_of-append name (61 ∷ value) all)
      (ap₂ (λ xs ys. (xs, ys)) before after)

module _ (n : ℕ) where
  abbrev count : ℕ
  count = suc n

  get_switch_prefix_length-dashed : (cs : List ℕ) → get_switch_prefix_length count (dashed cs) ≡ 2
  unfolding get_switch_prefix_length prefix_length_in same_text
  get_switch_prefix_length-dashed cs = refl

  module _ (name value : List ℕ) (is_name : IsName name) where
    get_switch_prefix_length-name : get_switch_prefix_length count name ≡ 0
    get_switch_prefix_length-name =
        ap (get_switch_prefix_length count) is_name.name_eq
        ∙ get_switch_prefix_length-none count is_name.first is_name.others is_name.no_dash
            is_name.no_slash

    pub combined_switch_string-name :
        combined_switch_string count (to_lower name) value ≡ dashed name ++ value_suffix value
    unfolding combined_switch_string
    combined_switch_string-name =
        rw
          (
            to_lower-name name is_name.chars,
            to_utf16-name name is_name.chars,
            get_switch_prefix_length-name,
          )
          (value_suffix-append (dashed name) value)

    pub combined_switch_string-dashed :
        combined_switch_string count (to_lower (dashed name)) value
        ≡ dashed name ++ value_suffix value
    unfolding combined_switch_string
    combined_switch_string-dashed =
        let all = dashed-All name is_name in
        rw
          (
            to_lower-name (dashed name) all,
            to_utf16-name (dashed name) all,
            get_switch_prefix_length-dashed name,
          )
          (value_suffix-append (dashed name) value)

    pub switch_key-name : switch_key count (to_lower name) ≡ name
    unfolding switch_key
    switch_key-name =
        rw
          (
            to_lower-name name is_name.chars,
            to_utf16-name name is_name.chars,
            get_switch_prefix_length-name,
          )
          refl

    pub switch_key-dashed : switch_key count (to_lower (dashed name)) ≡ name
    unfolding switch_key
    switch_key-dashed =
        let all = dashed-All name is_name in
        rw
          (
            to_lower-name (dashed name) all,
            to_utf16-name (dashed name) all,
            get_switch_prefix_length-dashed name,
          )
          refl

    pub to_ascii-dashed : to_ascii (dashed name) ≡ dashed name
    to_ascii-dashed = to_ascii-name (dashed name) (dashed-All name is_name)

    -- The string that a switch is written as, where its value is tidy.
    pub trim-written :
        IsTidy value → trim (dashed name ++ value_suffix value) ≡ dashed name ++ value_suffix value
    unfolding trim trim_string trim_leading one_of
    trim-written tidy = ap (trim_leading whitespace_utf16) (
        trim_trailing-append (dashed name) (value_suffix value) (dashed-All name is_name)
          (value_suffix-IsTidy value tidy))

    pub written-is_other : same_text (dashed name ++ value_suffix value) switch_terminator ≡ false
    unfolding same_text
    written-is_other = rw is_name.name_eq refl

    pub is_switch-written :
        is_switch count (dashed name ++ value_suffix value) ≡ some (dashed name, value)
    unfolding is_switch
    is_switch-written =
        let string = dashed name ++ value_suffix value in
        let long : (2 == length string) ≡ false = rw is_name.name_eq (ground arith) in
        rw (get_switch_prefix_length-dashed (name ++ value_suffix value), long)
          (ap some (split_switch-written (dashed name) value (dashed-All name is_name)))
