-- ===== src/Base/CommandLine/Steps.antt =====
-- The command lines that a program can come to by the operations of CommandLine.
use lib_hh_old.Common.{
  ℕ, zero, suc, ◌<◌, ◌≤◌, ◌≡◌, refl, sym, ap, ◌∙◌, Bool, false, inl, inr, Option-cases, Option,
  none, some, List, [], ◌∷◌, length, length-append, length-drop, drop, arith,
}
use mathlib.Core.Path.{subst}
use lib_hh_old.Base.Split.{
  Str, string16, find_first_of, WhitespaceHandling, SplitResult, split_loop, split_string,
  trim_whitespace, split_want_all,
}
use lib_hh_old.Base.CommandLine.{
  CommandLine, no_program, copy, set_program, has_switch, get_switch_value_native,
  append_arg_native, get_args, prepend_wrapper, append_switch_native, init_from_argv,
  append_arguments, copy_switches_from,
}
use lib_hh_old.Base.CommandLine.Layout.{
  IsSound, Returns, set_program-IsSound, append_arg_native-IsSound, append_switch_native-IsSound,
  no_program-IsSound, init_from_argv-IsSound, append_arguments-IsSound, copy_switches_from-IsSound,
  get_switch_value_native-Returns, get_args-Returns,
}

returned {ℓ κ} :
    {A : Type ℓ} {P : A → Type κ} {o : Option A} {b : A} → Returns P o → o ≡ some b → P b
returned {P = P} {b = b} (a, e, p) h =
    subst P (ap (λ o. elim o [ none ↦ b | some x ↦ x ]) (sym e ∙ h)) p

find_first_of-inside :
    (separators text : List ℕ) (end : ℕ)
    → find_first_of separators text ≡ some end
    → 1 ≤ length text
unfolding find_first_of
find_first_of-inside separators [] end h = absurd (ground arith)
find_first_of-inside separators (c ∷ cs) end h = omega arith

split_loop-Returns :
    (str : Str) (separators : List ℕ) (handling : WhitespaceHandling) (wanted : SplitResult)
    (fuel : ℕ) (text : List ℕ)
    → length text < fuel
    → (pieces : List (List ℕ)) × (split_loop str separators handling wanted fuel text ≡ some pieces)
unfolding split_loop
split_loop-Returns str separators handling wanted zero text h = absurd (omega arith)
split_loop-Returns str separators handling wanted (suc fuel) text h =
    elim (Option-cases (find_first_of separators text)) [
      | inl e ↦ rw (e, split_loop) (_, refl)
      | inr (end, e) ↦
          let (pieces, run) =
            split_loop-Returns str separators handling wanted fuel (drop (suc end) text) (
              omega
                (arith, length-drop (suc end) text, find_first_of-inside separators text end e)) in
          rw (e, split_loop, run) (_, refl)
    ]

pub prepend_wrapper-IsSound :
    (wrapper : List ℕ) (l : CommandLine) → IsSound l → Returns IsSound (prepend_wrapper wrapper l)
unfolding prepend_wrapper split_string
prepend_wrapper-IsSound [] l s = (l, refl, s)
prepend_wrapper-IsSound (c ∷ cs) l s =
    let (pieces, run) =
      split_loop-Returns string16 (32 ∷ []) trim_whitespace split_want_all (suc (length (c ∷ cs)))
        (c ∷ cs) (omega arith) in
    rw run (
      _,
      refl,
      record {
        positive = omega (arith, s.positive);
        inside = omega (arith, s.inside, length-append pieces l.argv);
        indexed = s.indexed;
      },
    )

copy-IsSound : (l : CommandLine) → IsSound l → IsSound (copy l)
unfolding copy
copy-IsSound l s = record { positive = s.positive; inside = s.inside; indexed = refl }

module _ (count : ℕ) where
  -- A command line that the constructors and the operations lead to.
  pub data Reachable : CommandLine → Type 0 where
    from_no_program : Reachable no_program
    from_argv :
        (argv : List (List ℕ)) (l l' : CommandLine)
        → init_from_argv count argv l ≡ some l'
        → Reachable l'
    by_copy : (l : CommandLine) → Reachable l → Reachable (copy l)
    by_set_program :
        (program : List ℕ) (l l' : CommandLine)
        → Reachable l
        → set_program program l ≡ some l'
        → Reachable l'
    by_append_switch_native :
        (name value : List ℕ) (l l' : CommandLine)
        → Reachable l
        → append_switch_native count name value l ≡ some l'
        → Reachable l'
    by_append_arg_native :
        (value : List ℕ) (l : CommandLine) → Reachable l → Reachable (append_arg_native value l)
    by_append_arguments :
        (other : CommandLine) (include_program : Bool) (l l' : CommandLine)
        → Reachable other
        → Reachable l
        → append_arguments count other include_program l ≡ some l'
        → Reachable l'
    by_copy_switches_from :
        (source : CommandLine) (names : List (List ℕ)) (l l' : CommandLine)
        → Reachable source
        → Reachable l
        → copy_switches_from count source names l ≡ some l'
        → Reachable l'
    by_prepend_wrapper :
        (wrapper : List ℕ) (l l' : CommandLine)
        → Reachable l
        → prepend_wrapper wrapper l ≡ some l'
        → Reachable l'

  Reachable-IsSound : (l : CommandLine) → Reachable l → IsSound l
  Reachable-IsSound _ from_no_program = no_program-IsSound count
  Reachable-IsSound _ (from_argv argv l₀ l₁ run) =
      returned (init_from_argv-IsSound count argv l₀) run
  Reachable-IsSound _ (by_copy l₀ r) = copy-IsSound l₀ (Reachable-IsSound l₀ r)
  Reachable-IsSound _ (by_set_program program l₀ l₁ r run) =
      returned (set_program-IsSound l₀ (Reachable-IsSound l₀ r) program) run
  Reachable-IsSound _ (by_append_switch_native name value l₀ l₁ r run) =
      returned (append_switch_native-IsSound l₀ (Reachable-IsSound l₀ r) count name value) run
  Reachable-IsSound _ (by_append_arg_native value l₀ r) =
      append_arg_native-IsSound l₀ (Reachable-IsSound l₀ r) value
  Reachable-IsSound _ (by_append_arguments other include l₀ l₁ ro r run) =
      returned
        (append_arguments-IsSound count other l₀ include (Reachable-IsSound other ro)
          (Reachable-IsSound l₀ r))
        run
  Reachable-IsSound _ (by_copy_switches_from source names l₀ l₁ rs r run) =
      returned
        (copy_switches_from-IsSound count source names l₀ (Reachable-IsSound source rs)
          (Reachable-IsSound l₀ r))
        run
  Reachable-IsSound _ (by_prepend_wrapper wrapper l₀ l₁ r run) =
      returned (prepend_wrapper-IsSound wrapper l₀ (Reachable-IsSound l₀ r)) run

  -- On every command line that the constructors, copying, SetProgram, AppendSwitchNative,
  -- AppendArgNative, AppendArguments, CopySwitchesFrom, PrependWrapper and InitFromArgv lead to, in
  -- any order: appending a switch inserts within the list, PrependWrapper ends, GetArgs reads within
  -- the list, and GetSwitchValueNative follows no dangling pointer, with the empty string for a
  -- switch that HasSwitch denies.
  pub Reachable-CannotFault :
      (l : CommandLine)
      → Reachable l
      → (name value wrapper key : List ℕ)
      → (l' : CommandLine) × (append_switch_native count name value l ≡ some l')
        × ((l'' : CommandLine) × (prepend_wrapper wrapper l ≡ some l''))
        × ((args : List (List ℕ)) × (get_args l ≡ some args))
        × ((found : List ℕ) × (get_switch_value_native key l ≡ some found)
            × (has_switch key l ≡ false → found ≡ []))
  Reachable-CannotFault l r name value wrapper key =
      let s = Reachable-IsSound l r in
      let (l', run, s') = append_switch_native-IsSound l s count name value in
      let (l'', run', s'') = prepend_wrapper-IsSound wrapper l s in
      (l', run, (l'', run'), get_args-Returns l s, get_switch_value_native-Returns l s key)
