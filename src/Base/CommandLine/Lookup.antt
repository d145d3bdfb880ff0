-- ===== src/Base/CommandLine/Lookup.antt =====
-- Switches that are appended and looked up, in libHH/base/command_line.cpp.
use lib_hh_old.Common.{
  ℕ, suc, ◌+◌, ◌≤◌, ◌≡◌, refl, sym, ap, ap₂, ◌∙◌, Bool, true, false, inl, inr, Bool-cases, Option,
  none, some, List, [], ◌∷◌, ◌++◌, le→leb, if◌then◌else◌, length, length-append, length-take,
  length-drop, take, drop, drop-append_right, arith,
}
use lib_hh_old.Base.CommandLine.{
  CommandLine, has_switch, get_switch_value_native, insert_at, get_args, erase_text,
  switch_terminator, append_switch_native, assign_switch, index_text, switch_keys, same_text,
  has_text, find_switch, to_lower, switch_key, combined_switch_string,
}
use lib_hh_old.Base.CommandLine.Layout.{IsSound, switch_keys-assign_switch}

pub same_text_refl : (text : List ℕ) → same_text text text ≡ true
unfolding same_text
same_text_refl [] = refl
same_text_refl (c ∷ cs) = let e = same_text_refl cs in ground arith

pub same_text→eq : (a b : List ℕ) → same_text a b ≡ true → a ≡ b
unfolding same_text
same_text→eq [] [] h = refl
same_text→eq [] (d ∷ ds) h = absurd (ground arith)
same_text→eq (c ∷ cs) [] h = absurd (ground arith)
same_text→eq (c ∷ cs) (d ∷ ds) h =
    let first : c ≡ d = ground arith in
    let rest : same_text cs ds ≡ true = ground arith in
    ap₂ (λ x xs. x ∷ xs) first (same_text→eq cs ds rest)

find_switch-assign_switch_self :
    (key value : List ℕ) (entries : List (List ℕ × List ℕ))
    → find_switch (assign_switch key value entries) key ≡ some value
unfolding find_switch assign_switch
find_switch-assign_switch_self key value [] = rw (same_text_refl key) refl
find_switch-assign_switch_self key value ((k, v) ∷ entries) = elim (Bool-cases (same_text k key)) [
  | inl e ↦ rw (e, find_switch, e) refl
  | inr e ↦ rw (e, find_switch, e) (find_switch-assign_switch_self key value entries)
]

find_switch-assign_switch_other :
    (key value other : List ℕ) (entries : List (List ℕ × List ℕ))
    → same_text key other ≡ false
    → find_switch (assign_switch key value entries) other ≡ find_switch entries other
unfolding find_switch assign_switch
find_switch-assign_switch_other key value other [] h = rw h refl
find_switch-assign_switch_other key value other ((k, v) ∷ entries) h =
    elim (Bool-cases (same_text k key)) [
      | inl e ↦
          let apart : same_text k other ≡ false =
            ap (λ t. same_text t other) (same_text→eq k key e) ∙ h in
          rw (e, find_switch, apart) refl
      | inr e ↦
          rw (e, find_switch)
            (ap (λ o. if same_text k other then some v else o)
              (find_switch-assign_switch_other key value other entries h))
    ]

-- What the map holds decides what HasSwitch and GetSwitchValueNative answer.
abbrev is_some : Option (List ℕ) → Bool
is_some o = elim o [ none ↦ false | some value ↦ true ]

abbrev or_empty : Option (List ℕ) → List ℕ
or_empty o = elim o [ none ↦ [] | some value ↦ value ]

has_text-switch_keys :
    (key : List ℕ) (entries : List (List ℕ × List ℕ))
    → has_text (switch_keys entries) key ≡ is_some (find_switch entries key)
unfolding has_text switch_keys find_switch
has_text-switch_keys key [] = refl
has_text-switch_keys key ((k, v) ∷ entries) = elim (Bool-cases (same_text k key)) [
  | inl e ↦ rw e refl
  | inr e ↦ rw e (has_text-switch_keys key entries)
]

module _ (l : CommandLine) (indexed : l.pieces ≡ switch_keys l.switches) (key : List ℕ) where
  pub has_switch-find_switch : has_switch key l ≡ is_some (find_switch l.switches key)
  unfolding has_switch
  has_switch-find_switch =
      ap (λ keys. has_text keys key) indexed ∙ has_text-switch_keys key l.switches

  pub get_switch_value_native-find_switch :
      get_switch_value_native key l ≡ some (or_empty (find_switch l.switches key))
  unfolding get_switch_value_native has_switch
  get_switch_value_native-find_switch =
      ap (λ b. if b then find_switch l.switches key else some []) has_switch-find_switch
      ∙ found (find_switch l.switches key)
    where
      found : (o : Option (List ℕ)) → (if is_some o then o else some []) ≡ some (or_empty o)
      found none = refl
      found (some value) = refl

drop-insert :
    (i : ℕ) (x : List ℕ) (xs : List (List ℕ))
    → i ≤ length xs
    → drop (suc i) (take i xs ++ (x ∷ drop i xs)) ≡ drop i xs
drop-insert i x xs h =
    let e : suc i ≡ length (take i xs) + 1 = omega (arith, length-take i xs) in
    ap (λ n. drop n (take i xs ++ (x ∷ drop i xs))) e
    ∙ drop-append_right 1 (take i xs) (x ∷ drop i xs)

module _ (count : ℕ) where
  -- AppendSwitchNative on a command line with its index in step returns; the switch is then there,
  -- under its name in lower case without its prefix, and has the value given; a key that is another
  -- answers as before, and the arguments are as before.
  pub append_switch_native-Found :
      (l : CommandLine) (name value other : List ℕ)
      → IsSound l
      → same_text (switch_key count (to_lower name)) other ≡ false
      → (l' : CommandLine) × (append_switch_native count name value l ≡ some l')
        × (has_switch (switch_key count (to_lower name)) l' ≡ true)
        × (get_switch_value_native (switch_key count (to_lower name)) l' ≡ some value)
        × (has_switch other l' ≡ has_switch other l)
        × (get_switch_value_native other l' ≡ get_switch_value_native other l)
        × (get_args l' ≡ get_args l)
  unfolding append_switch_native insert_at get_args
  append_switch_native-Found l name value other s apart =
      let key = switch_key count (to_lower name) in
      let combined = combined_switch_string count (to_lower name) value in
      let argv' = take l.begin_args l.argv ++ (combined ∷ drop l.begin_args l.argv) in
      let l' : CommandLine = record {
        argv = argv';
        switches = assign_switch key value l.switches;
        pieces = index_text key l.pieces;
        begin_args = suc l.begin_args;
      } in
      let indexed : l'.pieces ≡ switch_keys l'.switches =
        ap (index_text key) s.indexed ∙ switch_keys-assign_switch key value l.switches in
      let here = find_switch-assign_switch_self key value l.switches in
      let there = find_switch-assign_switch_other key value other l.switches apart in
      let fits = le→leb l.begin_args (length l.argv) s.inside in
      let fits' = le→leb (suc l.begin_args) (length argv') (
        omega (
          arith,
          s.inside,
          length-append (take l.begin_args l.argv) (combined ∷ drop l.begin_args l.argv),
          length-take l.begin_args l.argv,
          length-drop l.begin_args l.argv,
        )) in
      (
        l',
        rw fits refl,
        has_switch-find_switch l' indexed key ∙ ap is_some here,
        get_switch_value_native-find_switch l' indexed key ∙ ap (λ o. some (or_empty o)) here,
        has_switch-find_switch l' indexed other
            ∙ ap is_some there
            ∙ sym (has_switch-find_switch l s.indexed other),
        get_switch_value_native-find_switch l' indexed other
            ∙ ap (λ o. some (or_empty o)) there
            ∙ sym (get_switch_value_native-find_switch l s.indexed other),
        rw (fits, fits')
            (ap (λ xs. some (erase_text switch_terminator xs))
              (drop-insert l.begin_args combined l.argv s.inside)),
      )
