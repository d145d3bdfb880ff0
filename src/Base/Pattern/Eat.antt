-- ===== src/Base/Pattern/Eat.antt =====
-- EatSameChars of libHH/base/strings/pattern.cc: what is left matches where the whole matched.
use lib_hh_old.Common.{
  ℕ, zero, suc, ◌<◌, ◌≤◌, ◌≡◌, refl, sym, ap, ◌∙◌, Bool, true, false, inl, inr, Bool-cases, Option,
  none, some, List, [], ◌∷◌, ◌==◌, length, length-drop, arith,
}
use mathlib.Core.Path.{subst}
use lib_hh_old.Base.Pattern.{is_wildcard, same_char, eat_same_chars}
use lib_hh_old.Base.Pattern.Matches.{
  NextRules, Matches, same, escaped, wildcards, wildcards-drop, same-Inverted, escaped-Inverted,
  dangling-Unmatched, nothing-Unmatched,
}

module _ (next : List ℕ → Option ℕ × List ℕ) (rules : NextRules next) where
  -- The pattern is at an end, or the text is, or a wildcard is next, or nothing matches any more.
  abbrev pub IsSettled : List ℕ → List ℕ → Type 0
  IsSettled (c ∷ cs) (d ∷ ds) = is_wildcard c ≡ false → Matches next (c ∷ cs) (d ∷ ds) → ⊥
  IsSettled _ _ = Unit {0}

  pub record Eaten (p s : List ℕ) (o : Option (List ℕ × List ℕ)) : Type 0 where
    pub pattern : List ℕ
    pub string : List ℕ
    pub run : o ≡ some (pattern, string)
    pub to : Matches next pattern string → Matches next p s
    pub from : Matches next p s → Matches next pattern string
    pub settled : IsSettled pattern string
    pub fewer : wildcards pattern ≤ wildcards p

  -- Where the loop stops.
  stays : (p s : List ℕ) → IsSettled p s → Eaten p s (some (p, s))
  stays p s settled = record {
    pattern = p;
    string = s;
    run = refl;
    to = λ m. m;
    from = λ m. m;
    settled = settled;
    fewer = omega arith;
  }

  -- A step of the loop.
  module _ (fuel c : ℕ) (cs : List ℕ) (d : ℕ) (ds : List ℕ) where
    abbrev go_on : Option (List ℕ × List ℕ)
    go_on = eat_same_chars next fuel none (next (c ∷ cs)).1 (next (d ∷ ds)).1

    abbrev on_same : List ℕ → Bool → Option (List ℕ × List ℕ)
    on_same stop b = elim b [ true ↦ go_on | false ↦ some (stop, d ∷ ds) ]

    abbrev on_backslash : Bool → Option (List ℕ × List ℕ)
    on_backslash b = elim b [
      | true ↦ eat_same_chars next fuel (some (c ∷ cs)) (next (c ∷ cs)).1 (d ∷ ds)
      | false ↦ on_same (c ∷ cs) (same_char (next (c ∷ cs)).0 (next (d ∷ ds)).0)
    ]

    abbrev on_wildcard : Bool → Option (List ℕ × List ℕ)
    on_wildcard b = elim b [ true ↦ some (c ∷ cs, d ∷ ds) | false ↦ on_backslash (c == 92) ]

    step-wildcard :
        is_wildcard c ≡ true
        → eat_same_chars next (suc fuel) none (c ∷ cs) (d ∷ ds) ≡ some (c ∷ cs, d ∷ ds)
    unfolding eat_same_chars
    step-wildcard w = ap on_wildcard w

    step-backslash :
        is_wildcard c ≡ false
        → (c == 92) ≡ true
        → eat_same_chars next (suc fuel) none (c ∷ cs) (d ∷ ds)
          ≡ eat_same_chars next fuel (some (c ∷ cs)) (next (c ∷ cs)).1 (d ∷ ds)
    unfolding eat_same_chars
    step-backslash w e = ap on_wildcard w ∙ ap on_backslash e

    step-plain :
        (b : Bool)
        → is_wildcard c ≡ false
        → (c == 92) ≡ false
        → same_char (next (c ∷ cs)).0 (next (d ∷ ds)).0 ≡ b
        → eat_same_chars next (suc fuel) none (c ∷ cs) (d ∷ ds) ≡ on_same (c ∷ cs) b
    unfolding eat_same_chars
    step-plain b w e h = ap on_wildcard w ∙ ap on_backslash e ∙ ap (on_same (c ∷ cs)) h

    step-escaped :
        (b : Bool) (escape : List ℕ)
        → same_char (next (c ∷ cs)).0 (next (d ∷ ds)).0 ≡ b
        → eat_same_chars next (suc fuel) (some escape) (c ∷ cs) (d ∷ ds) ≡ on_same escape b
    unfolding eat_same_chars
    step-escaped b escape h = ap (on_same escape) h

    length-next : suc (length (next (c ∷ cs)).1) ≤ length (c ∷ cs)
    length-next = let (k, e) = rules.forward c cs in omega (arith, ap length e, length-drop k cs)

    wildcards-next : wildcards (next (c ∷ cs)).1 ≤ wildcards (c ∷ cs)
    unfolding wildcards
    wildcards-next =
        let (k, e) = rules.forward c cs in omega (arith, ap wildcards e, wildcards-drop k cs)

  wildcards-tail : (c : ℕ) (cs : List ℕ) → wildcards cs ≤ wildcards (c ∷ cs)
  unfolding wildcards
  wildcards-tail c cs = omega arith

  abbrev AllEaten : ℕ → Type 0
  AllEaten fuel = (p s : List ℕ) → length p < fuel → Eaten p s (eat_same_chars next fuel none p s)

  module _ (fuel : ℕ) (all : AllEaten fuel) where
    -- The characters are the same, behind an escape or not: the loop goes on.
    goes_on :
        (p : List ℕ) (c : ℕ) (cs : List ℕ) (d : ℕ) (ds : List ℕ)
        → length (c ∷ cs) < suc fuel
        → wildcards (c ∷ cs) ≤ wildcards p
        → (Matches next (next (c ∷ cs)).1 (next (d ∷ ds)).1 → Matches next p (d ∷ ds))
        → (Matches next p (d ∷ ds) → Matches next (next (c ∷ cs)).1 (next (d ∷ ds)).1)
        → Eaten p (d ∷ ds) (go_on fuel c cs d ds)
    goes_on p c cs d ds h less to from =
        let r =
          all (next (c ∷ cs)).1 (next (d ∷ ds)).1 (omega (arith, length-next fuel c cs d ds)) in
        record {
          pattern = r.pattern;
          string = r.string;
          run = r.run;
          to = λ m. to (r.to m);
          from = λ m. r.from (from m);
          settled = r.settled;
          fewer = omega (arith, r.fewer, less, wildcards-next fuel c cs d ds);
        }

    plain-Eaten :
        (c : ℕ) (cs : List ℕ) (d : ℕ) (ds : List ℕ)
        → length (c ∷ cs) < suc fuel
        → is_wildcard c ≡ false
        → (c == 92) ≡ false
        → Eaten (c ∷ cs) (d ∷ ds) (eat_same_chars next (suc fuel) none (c ∷ cs) (d ∷ ds))
    plain-Eaten c cs d ds h w e =
        let test = same_char (next (c ∷ cs)).0 (next (d ∷ ds)).0 in
        elim (Bool-cases test) [
          | inl t ↦ subst (Eaten (c ∷ cs) (d ∷ ds)) (sym (step-plain fuel c cs d ds true w e t)) (
              goes_on (c ∷ cs) c cs d ds h (omega arith) (λ m. same c d cs ds w e t m)
                (λ m. (same-Inverted next c d cs ds w e m).1))
          | inr t ↦ subst (Eaten (c ∷ cs) (d ∷ ds)) (sym (step-plain fuel c cs d ds false w e t)) (
              stays (c ∷ cs) (d ∷ ds) (λ tame m.
                let found = (same-Inverted next c d cs ds w e m).0 in absurd (ground arith)))
        ]

    behind_escape :
        (c : ℕ) (cs : List ℕ) (d : ℕ) (ds : List ℕ)
        → length cs < suc fuel
        → (c == 92) ≡ true
        → Eaten (c ∷ cs) (d ∷ ds) (eat_same_chars next (suc fuel) (some (c ∷ cs)) cs (d ∷ ds))
    unfolding eat_same_chars wildcards
    behind_escape c [] d ds h e = record {
      pattern = [];
      string = d ∷ ds;
      run = refl;
      to = λ m. absurd (nothing-Unmatched next d ds m);
      from = λ m. absurd (dangling-Unmatched next c d ds e m);
      settled = tt;
      fewer = omega arith;
    }
    behind_escape c (b ∷ bs) d ds h e =
        let test = same_char (next (b ∷ bs)).0 (next (d ∷ ds)).0 in
        elim (Bool-cases test) [
          | inl t ↦
              subst (Eaten (c ∷ b ∷ bs) (d ∷ ds))
                (sym (step-escaped fuel b bs d ds true (c ∷ b ∷ bs) t))
                (goes_on (c ∷ b ∷ bs) b bs d ds h (wildcards-tail c (b ∷ bs))
                  (λ m. escaped c b d bs ds e t m) (λ m. (escaped-Inverted next c b d bs ds e m).1))
          | inr t ↦
              subst (Eaten (c ∷ b ∷ bs) (d ∷ ds))
                (sym (step-escaped fuel b bs d ds false (c ∷ b ∷ bs) t))
                (stays (c ∷ b ∷ bs) (d ∷ ds) (λ tame m.
                  let found = (escaped-Inverted next c b d bs ds e m).0 in absurd (ground arith)))
        ]

  pub eat_same_chars-Eaten : (fuel : ℕ) → AllEaten fuel
  unfolding eat_same_chars
  eat_same_chars-Eaten zero p s h = absurd (omega arith)
  eat_same_chars-Eaten (suc fuel) [] s h = stays [] s tt
  eat_same_chars-Eaten (suc fuel) (c ∷ cs) [] h = stays (c ∷ cs) [] tt
  eat_same_chars-Eaten (suc zero) (c ∷ cs) (d ∷ ds) h = absurd (omega arith)
  eat_same_chars-Eaten (suc (suc fuel)) (c ∷ cs) (d ∷ ds) h = elim (Bool-cases (is_wildcard c)) [
    | inl w ↦
        subst (Eaten (c ∷ cs) (d ∷ ds)) (sym (step-wildcard (suc fuel) c cs d ds w))
          (stays (c ∷ cs) (d ∷ ds) (λ tame m. absurd (ground arith)))
    | inr w ↦ elim (Bool-cases (c == 92)) [
      | inl e ↦
          let is_ascii : c < 128 = ground arith in
          let behind =
            ap (λ r. eat_same_chars next (suc fuel) (some (c ∷ cs)) r.1 (d ∷ ds))
              (rules.ascii c cs is_ascii) in
          subst (Eaten (c ∷ cs) (d ∷ ds)) (sym (step-backslash (suc fuel) c cs d ds w e ∙ behind))
            (behind_escape fuel (eat_same_chars-Eaten fuel) c cs d ds (omega arith) e)
      | inr e ↦ plain-Eaten (suc fuel) (eat_same_chars-Eaten (suc fuel)) c cs d ds (omega arith) w e
    ]
  ]
