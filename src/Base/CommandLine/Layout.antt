-- ===== src/Base/CommandLine/Layout.antt =====
-- That the operations of CommandLine keep `begin_args_` inside `argv_`, and the index of the
-- switches on the keys of the map.
use lib_hh_old.Common.{
  ℕ, ◌≤◌, ◌≡◌, refl, sym, ap, ◌∙◌, Bool, true, false, not, ◌&&◌, ◌||◌, inl, inr, Bool-cases, Option,
  none, some, List, [], ◌∷◌, le→leb, if◌then◌else◌, ◌>>=◌, length, length-append, length-take,
  length-drop, take, drop, arith,
}
use lib_hh_old.Base.CommandLine.{
  CommandLine, no_program, get_program, set_program, has_switch, get_switch_value_native,
  append_arg_native, insert_at, get_args, switch_terminator, append_switch_native, append_one,
  append_rest, append_switches_and_arguments, init_from_argv, append_arguments, copy_switches_from,
  assign_switch, index_text, switch_keys, same_text, has_text, find_switch, is_switch, trim,
  to_lower, to_ascii, switch_key, combined_switch_string,
}

pub record IsSound (l : CommandLine) : Type 0 where
  pub positive : 1 ≤ l.begin_args
  pub inside : l.begin_args ≤ length l.argv
  pub indexed : l.pieces ≡ switch_keys l.switches

-- That a step returns, with a result of which something holds.
abbrev pub Returns {ℓ κ} : {A : Type ℓ} → (A → Type κ) → Option A → Type (ℓ ⊔ κ)
Returns {A = A} P o = (a : A) × (o ≡ some a) × P a

pub bind-Returns {ℓ κ μ ν} :
    {A : Type ℓ} {B : Type κ} {P : A → Type μ} {Q : B → Type ν} (o : Option A) (f : A → Option B)
    → Returns P o
    → ((a : A) → P a → Returns Q (f a))
    → Returns Q (o >>= f)
bind-Returns o f (a, e, p) next = rw e (next a p)

pub switch_keys-assign_switch :
    (key value : List ℕ) (entries : List (List ℕ × List ℕ))
    → index_text key (switch_keys entries) ≡ switch_keys (assign_switch key value entries)
unfolding switch_keys assign_switch index_text
switch_keys-assign_switch key value [] = refl
switch_keys-assign_switch key value ((k, v) ∷ entries) = elim (Bool-cases (same_text k key)) [
  | inl e ↦ rw e refl
  | inr e ↦ rw e (ap (λ ks. k ∷ ks) (switch_keys-assign_switch key value entries))
]

pub has_text-find_switch :
    (key : List ℕ) (entries : List (List ℕ × List ℕ))
    → has_text (switch_keys entries) key ≡ true
    → (value : List ℕ) × (find_switch entries key ≡ some value)
unfolding switch_keys has_text find_switch
has_text-find_switch key [] h = absurd (ground arith)
has_text-find_switch key ((k, v) ∷ entries) h = elim (Bool-cases (same_text k key)) [
  | inl e ↦ (v, rw e refl)
  | inr e ↦
      let (value, found) =
        has_text-find_switch key entries
          (sym (ap (λ b. b || has_text (switch_keys entries) key) e) ∙ h) in
      (value, rw e found)
]

module _ (l : CommandLine) (s : IsSound l) where
  pub get_switch_value_native-Returns :
      (key : List ℕ)
      → (value : List ℕ) × (get_switch_value_native key l ≡ some value)
        × (has_switch key l ≡ false → value ≡ [])
  unfolding get_switch_value_native has_switch
  get_switch_value_native-Returns key = elim (Bool-cases (has_text l.pieces key)) [
    | inr e ↦ ([], rw e refl, λ h. refl)
    | inl e ↦
        let (value, found) =
          has_text-find_switch key l.switches (sym (ap (λ ks. has_text ks key) s.indexed) ∙ e) in
        (value, rw (e, found) refl, λ h. absurd (ground arith))
  ]

  pub get_args-Returns : (args : List (List ℕ)) × (get_args l ≡ some args)
  unfolding get_args
  get_args-Returns = rw (le→leb l.begin_args (length l.argv) s.inside) (_, refl)

  pub set_program-IsSound : (program : List ℕ) → Returns IsSound (set_program program l)
  unfolding set_program
  set_program-IsSound program = set_first l.argv refl
    where
      set_first :
          (argv : List (List ℕ)) (e : l.argv ≡ argv)
          → Returns IsSound (elim argv [
            | [] ↦ none
            | old ∷ rest ↦ some (record l { argv = trim program ∷ rest })
          ])
      set_first [] e = absurd (omega (arith, s.positive, s.inside, ap length e))
      set_first (old ∷ rest) e = (
        _,
        refl,
        record {
          positive = s.positive;
          inside = omega (arith, s.inside, ap length e);
          indexed = s.indexed;
        },
      )

  pub append_arg_native-IsSound : (value : List ℕ) → IsSound (append_arg_native value l)
  unfolding append_arg_native
  append_arg_native-IsSound value = record {
    positive = s.positive;
    inside = omega (arith, s.inside, length-append l.argv (value ∷ []));
    indexed = s.indexed;
  }

  pub append_switch_native-IsSound :
      (count : ℕ) (name value : List ℕ) → Returns IsSound (append_switch_native count name value l)
  unfolding append_switch_native insert_at
  append_switch_native-IsSound count name value =
      let combined = combined_switch_string count (to_lower name) value in
      let before = take l.begin_args l.argv in
      let after = drop l.begin_args l.argv in
      rw (le→leb l.begin_args (length l.argv) s.inside) (
        _,
        refl,
        record {
          positive = omega arith;
          inside = omega (
            arith,
            s.inside,
            length-append before (combined ∷ after),
            length-take l.begin_args l.argv,
            length-drop l.begin_args l.argv,
          );
          indexed =
              ap (index_text (switch_key count (to_lower name))) s.indexed
              ∙ switch_keys-assign_switch (switch_key count (to_lower name)) value l.switches;
        },
      )

module _ (count : ℕ) where
  append_one-IsSound :
      (parse : Bool) (arg : List ℕ) (l : CommandLine)
      → IsSound l
      → Returns IsSound (append_one count parse arg l)
  unfolding append_one
  append_one-IsSound parse arg l s = append_found (if parse then is_switch count arg else none)
    where
      append_found :
          (found : Option (List ℕ × List ℕ))
          → Returns IsSound (elim found [
            | none ↦ some (append_arg_native arg l)
            | some (switch_string, switch_value) ↦
                append_switch_native count (to_ascii switch_string) switch_value l
          ])
      append_found none = (_, refl, append_arg_native-IsSound l s arg)
      append_found (some (name, value)) =
          append_switch_native-IsSound l s count (to_ascii name) value

  append_rest-IsSound :
      (parse : Bool) (strings : List (List ℕ)) (l : CommandLine)
      → IsSound l
      → Returns IsSound (append_rest count parse strings l)
  unfolding append_rest
  append_rest-IsSound parse [] l s = (l, refl, s)
  append_rest-IsSound parse (string ∷ strings) l s =
      let parse' = parse && not (same_text (trim string) switch_terminator) in
      bind-Returns (append_one count parse' (trim string) l) (append_rest count parse' strings)
        (append_one-IsSound parse' (trim string) l s) (append_rest-IsSound parse' strings)

  pub no_program-IsSound : IsSound no_program
  unfolding switch_keys
  no_program-IsSound = record { positive = omega arith; inside = omega arith; indexed = refl }

  pub init_from_argv-IsSound :
      (argv : List (List ℕ)) (l : CommandLine) → Returns IsSound (init_from_argv count argv l)
  unfolding init_from_argv
  init_from_argv-IsSound argv l =
      bind-Returns _ (append_switches_and_arguments count argv)
        (set_program-IsSound no_program no_program-IsSound _)
        (append_rest-IsSound true (drop 1 argv))

  get_program-Returns :
      (l : CommandLine) → IsSound l → (program : List ℕ) × (get_program l ≡ some program)
  unfolding get_program
  get_program-Returns l s = first l.argv (omega (arith, s.positive, s.inside))
    where
      first :
          (argv : List (List ℕ))
          → 1 ≤ length argv
          → (program : List ℕ) × (elim argv [ [] ↦ none | program ∷ rest ↦ some program ]
              ≡ some program)
      first [] h = absurd (omega arith)
      first (program ∷ rest) h = (program, refl)

  pub append_arguments-IsSound :
      (other l : CommandLine) (include_program : Bool)
      → IsSound other
      → IsSound l
      → Returns IsSound (append_arguments count other include_program l)
  unfolding append_arguments
  append_arguments-IsSound other l false so s = append_rest-IsSound true (drop 1 other.argv) l s
  append_arguments-IsSound other l true so s =
      let (program, found) = get_program-Returns other so in
      rw found (
        bind-Returns (set_program program l) (append_switches_and_arguments count other.argv)
          (set_program-IsSound l s program) (append_rest-IsSound true (drop 1 other.argv)))

  pub copy_switches_from-IsSound :
      (source : CommandLine) (names : List (List ℕ)) (l : CommandLine)
      → IsSound source
      → IsSound l
      → Returns IsSound (copy_switches_from count source names l)
  unfolding copy_switches_from
  copy_switches_from-IsSound source [] l so s = (l, refl, s)
  copy_switches_from-IsSound source (name ∷ names) l so s =
      let (value, found, absent) = get_switch_value_native-Returns source so name in
      elim (Bool-cases (has_switch name source)) [
        | inl e ↦
            rw (e, found)
              (bind-Returns (append_switch_native count name value l)
                (copy_switches_from count source names)
                (append_switch_native-IsSound l s count name value)
                (λ l' s'. copy_switches_from-IsSound source names l' so s'))
        | inr e ↦ rw e (copy_switches_from-IsSound source names l so s)
      ]
