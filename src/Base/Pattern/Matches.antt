-- ===== src/Base/Pattern/Matches.antt =====
-- What a pattern of libHH/base/strings/pattern.h matches: a backslash escapes the character behind
-- it, `?` stands for no character or one, and `*` for any code units.
use lib_hh_old.Common.{
  ℕ, zero, suc, ◌+◌, ◌<◌, ◌≤◌, ◌≡◌, refl, sym, ap, ◌∙◌, Bool, true, false, inl, inr, Bool-cases,
  Option, some, List, [], ◌∷◌, ◌==◌, if◌then◌else◌, length, drop, drop-drop, arith,
}
use mathlib.Core.Path.{subst}
use lib_hh_old.Base.Split.{is_empty}
use lib_hh_old.Base.Pattern.{is_wildcard, same_char, eat_wildcard, only_wildcards}

-- What UTF-8 and UTF-16 promise: an ASCII character is one unit, and reading a character moves
-- forward.
pub record NextRules (next : List ℕ → Option ℕ × List ℕ) : Type 0 where
  pub ascii : (c : ℕ) (cs : List ℕ) → c < 128 → next (c ∷ cs) ≡ (some c, cs)
  pub forward : (c : ℕ) (cs : List ℕ) → (k : ℕ) × ((next (c ∷ cs)).1 ≡ drop k cs)

pub wild-cases : (c : ℕ) → ((c == 63) ≡ false) → ((c == 42) ≡ false) → is_wildcard c ≡ false
unfolding is_wildcard
wild-cases c h h' = ground arith

pub question-IsWild : (c : ℕ) → (c == 63) ≡ true → is_wildcard c ≡ true
unfolding is_wildcard
question-IsWild c h = ground arith

pub star-IsWild : (c : ℕ) → (c == 42) ≡ true → is_wildcard c ≡ true
unfolding is_wildcard
star-IsWild c h = ground arith

pub backslash-IsTame : (c : ℕ) → (c == 92) ≡ true → is_wildcard c ≡ false
unfolding is_wildcard
backslash-IsTame c h = ground arith

pub wild-IsAscii : (c : ℕ) → is_wildcard c ≡ true → c < 128
unfolding is_wildcard
wild-IsAscii c h = ground arith

-- The units of a pattern that are wildcards, those that are escaped included.
unfoldable pub wildcards : List ℕ → ℕ
wildcards [] = 0
wildcards (c ∷ cs) = (if is_wildcard c then 1 else 0) + wildcards cs

pub wildcards-drop : (k : ℕ) (cs : List ℕ) → wildcards (drop k cs) ≤ wildcards cs
unfolding wildcards
wildcards-drop zero cs = omega arith
wildcards-drop (suc k) [] = omega arith
wildcards-drop (suc k) (c ∷ cs) = omega (arith, wildcards-drop k cs)

-- The pattern behind the wildcards that it begins with.
unfoldable pub strip : List ℕ → List ℕ
strip [] = []
strip (c ∷ cs) = let rest : List ℕ = strip cs in if is_wildcard c then rest else c ∷ cs

pub strip-wild : (c : ℕ) (cs : List ℕ) → is_wildcard c ≡ true → strip (c ∷ cs) ≡ strip cs
unfolding strip
strip-wild c cs h = rw h refl

pub strip-tame : (c : ℕ) (cs : List ℕ) → is_wildcard c ≡ false → strip (c ∷ cs) ≡ c ∷ cs
unfolding strip
strip-tame c cs h = rw h refl

pub wildcards-strip : (cs : List ℕ) → wildcards (strip cs) ≤ wildcards cs
unfolding wildcards strip
wildcards-strip [] = omega arith
wildcards-strip (c ∷ cs) = elim (Bool-cases (is_wildcard c)) [
  | inl h ↦ omega (arith, wildcards-strip cs, ap wildcards (strip-wild c cs h))
  | inr h ↦ omega (arith, ap wildcards (strip-tame c cs h))
]

module _ (next : List ℕ → Option ℕ × List ℕ) where
  pub data Matches : List ℕ → List ℕ → Type 0 where
    both_end : Matches [] []
    wild_nothing : (c : ℕ) (p s : List ℕ) → is_wildcard c ≡ true → Matches p s → Matches (c ∷ p) s
    question :
        (c d : ℕ) (p s : List ℕ)
        → (c == 63) ≡ true
        → Matches p (next (d ∷ s)).1
        → Matches (c ∷ p) (d ∷ s)
    star : (c d : ℕ) (p s : List ℕ) → (c == 42) ≡ true → Matches (c ∷ p) s → Matches (c ∷ p) (d ∷ s)
    same :
        (c d : ℕ) (p s : List ℕ)
        → is_wildcard c ≡ false
        → (c == 92) ≡ false
        → same_char (next (c ∷ p)).0 (next (d ∷ s)).0 ≡ true
        → Matches (next (c ∷ p)).1 (next (d ∷ s)).1
        → Matches (c ∷ p) (d ∷ s)
    escaped :
        (c b d : ℕ) (p s : List ℕ)
        → (c == 92) ≡ true
        → same_char (next (b ∷ p)).0 (next (d ∷ s)).0 ≡ true
        → Matches (next (b ∷ p)).1 (next (d ∷ s)).1
        → Matches (c ∷ b ∷ p) (d ∷ s)

  pub nothing-Unmatched : (d : ℕ) (ds : List ℕ) → Matches [] (d ∷ ds) → ⊥
  nothing-Unmatched d ds m = elim m [ ]

  -- What a match says of a character of the pattern that is no wildcard.
  pub same-Inverted :
      (c d : ℕ) (cs ds : List ℕ)
      → is_wildcard c ≡ false
      → (c == 92) ≡ false
      → Matches (c ∷ cs) (d ∷ ds)
      → (same_char (next (c ∷ cs)).0 (next (d ∷ ds)).0 ≡ true)
        × Matches (next (c ∷ cs)).1 (next (d ∷ ds)).1
  same-Inverted c d cs ds h h' (wild_nothing _ _ _ w m) = absurd (ground arith)
  same-Inverted c d cs ds h h' (question _ _ _ _ q m) =
      let w = question-IsWild c q in absurd (ground arith)
  same-Inverted c d cs ds h h' (star _ _ _ _ q m) = let w = star-IsWild c q in absurd (ground arith)
  same-Inverted c d cs ds h h' (same _ _ _ _ _ _ e m) = (e, m)
  same-Inverted c d cs ds h h' (escaped _ _ _ _ _ e _ m) = absurd (ground arith)

  pub escaped-Inverted :
      (c b d : ℕ) (bs ds : List ℕ)
      → (c == 92) ≡ true
      → Matches (c ∷ b ∷ bs) (d ∷ ds)
      → (same_char (next (b ∷ bs)).0 (next (d ∷ ds)).0 ≡ true)
        × Matches (next (b ∷ bs)).1 (next (d ∷ ds)).1
  escaped-Inverted c b d bs ds h (wild_nothing _ _ _ w m) =
      let t = backslash-IsTame c h in absurd (ground arith)
  escaped-Inverted c b d bs ds h (question _ _ _ _ q m) = absurd (ground arith)
  escaped-Inverted c b d bs ds h (star _ _ _ _ q m) = absurd (ground arith)
  escaped-Inverted c b d bs ds h (same _ _ _ _ _ e _ m) = absurd (ground arith)
  escaped-Inverted c b d bs ds h (escaped _ _ _ _ _ _ e m) = (e, m)

  pub dangling-Unmatched :
      (c d : ℕ) (ds : List ℕ) → (c == 92) ≡ true → Matches (c ∷ []) (d ∷ ds) → ⊥
  dangling-Unmatched c d ds h (wild_nothing _ _ _ w m) =
      let t = backslash-IsTame c h in absurd (ground arith)
  dangling-Unmatched c d ds h (question _ _ _ _ q m) = absurd (ground arith)
  dangling-Unmatched c d ds h (star _ _ _ _ q m) = absurd (ground arith)
  dangling-Unmatched c d ds h (same _ _ _ _ _ e _ m) = absurd (ground arith)

  -- A pattern that matches nothing is made of wildcards.
  pub nothing-Inverted : (p : List ℕ) → Matches p [] → strip p ≡ []
  unfolding strip
  nothing-Inverted _ both_end = refl
  nothing-Inverted _ (wild_nothing c p _ w m) = rw w (nothing-Inverted p m)

  pub strip-Matches : (p s : List ℕ) → Matches (strip p) s → Matches p s
  unfolding strip
  strip-Matches [] s m = m
  strip-Matches (c ∷ cs) s m = elim (Bool-cases (is_wildcard c)) [
    | inl h ↦
        wild_nothing c cs s h (strip-Matches cs s (subst (λ p. Matches p s) (strip-wild c cs h) m))
    | inr h ↦ subst (λ p. Matches p s) (strip-tame c cs h) m
  ]

  module _ (rules : NextRules next) where
    -- The wildcards in front of a pattern take some of the text.
    pub Matches-strip : (p s : List ℕ) → Matches p s → (k : ℕ) × Matches (strip p) (drop k s)
    unfolding strip
    Matches-strip _ _ both_end = (0, both_end)
    Matches-strip _ _ (wild_nothing c p s w m) =
        let (k, m') = Matches-strip p s m in
        (k, subst (λ q. Matches q (drop k s)) (sym (strip-wild c p w)) m')
    Matches-strip _ _ (question c d p s q m) =
        let (k, m') = Matches-strip p (next (d ∷ s)).1 m in
        let (j, e) = rules.forward d s in
        let moved : drop k (next (d ∷ s)).1 ≡ drop (j + k) s = ap (drop k) e ∙ drop-drop k j s in
        (
          suc (j + k),
          subst (λ q. Matches q (drop (j + k) s)) (sym (strip-wild c p (question-IsWild c q)))
              (subst (Matches (strip p)) moved m'),
        )
    Matches-strip _ _ (star c d p s q m) = let (k, m') = Matches-strip (c ∷ p) s m in (suc k, m')
    Matches-strip _ _ (same c d p s w b e m) =
        (0, subst (λ q. Matches q (d ∷ s)) (sym (strip-tame c p w)) (same c d p s w b e m))
    Matches-strip _ _ (escaped c b d p s h e m) = (
      0,
      subst (λ q. Matches q (d ∷ s)) (sym (strip-tame c (b ∷ p) (backslash-IsTame c h)))
          (escaped c b d p s h e m),
    )

    abbrev eaten_if : ℕ → ℕ → List ℕ → Bool → Option (List ℕ)
    eaten_if fuel c cs b = elim b [
      | true ↦ eat_wildcard next fuel (next (c ∷ cs)).1
      | false ↦ some (c ∷ cs)
    ]

    -- EatWildcard has enough fuel in the length of the pattern.
    pub eat_wildcard-strip :
        (fuel : ℕ) (p : List ℕ) → length p < fuel → eat_wildcard next fuel p ≡ some (strip p)
    unfolding eat_wildcard strip
    eat_wildcard-strip zero p h = absurd (omega arith)
    eat_wildcard-strip (suc fuel) [] h = refl
    eat_wildcard-strip (suc fuel) (c ∷ cs) h = elim (Bool-cases (is_wildcard c)) [
      | inl w ↦
          ap (eaten_if fuel c cs) w
          ∙ ap (λ r. eat_wildcard next fuel r.1) (rules.ascii c cs (wild-IsAscii c w))
          ∙ eat_wildcard-strip fuel cs (omega arith)
          ∙ ap some (sym (strip-wild c cs w))
      | inr w ↦ ap (eaten_if fuel c cs) w ∙ ap some (sym (strip-tame c cs w))
    ]

    pub only_wildcards-strip : (p : List ℕ) → only_wildcards next p ≡ some (is_empty (strip p))
    unfolding only_wildcards
    only_wildcards-strip p = rw (eat_wildcard-strip (suc (length p)) p (omega arith)) refl
