-- ===== src/Base/Pattern/Branches.antt =====
-- The verdicts of the branches of MatchPatternT in libHH/base/strings/pattern.cc.
use lib_hh_old.Common.{
  ℕ, zero, suc, ◌+◌, ◌<◌, ◌≡◌, refl, ap, ◌∙◌, Bool, true, false, inl, inr, Bool-cases, Option, some,
  List, [], ◌∷◌, ◌==◌, ◌⊎◌, if◌then◌else◌, ◌>>=◌, drop, drop-nil, arith,
}
use mathlib.Core.Path.{subst}
use lib_hh_old.Base.Split.{is_empty}
use lib_hh_old.Base.Pattern.{is_wildcard, only_wildcards, match_star, match_question}
use lib_hh_old.Base.Pattern.Matches.{
  NextRules, Matches, both_end, wild_nothing, question, star, same, escaped, wildcards, strip,
  strip-wild, nothing-Inverted, strip-Matches, Matches-strip, only_wildcards-strip, question-IsWild,
  star-IsWild,
}

-- A test that returns, says true only where `P` holds, and says so where `Q` holds besides.
pub record Verdict (P Q : Type 0) (o : Option Bool) : Type 0 where
  pub answer : Bool
  pub run : o ≡ some answer
  pub sound : answer ≡ true → P
  pub complete : Q → P → answer ≡ true

module _ (next : List ℕ → Option ℕ × List ℕ) (rules : NextRules next) where
  is_empty-strip : (p : List ℕ) → is_empty (strip p) ≡ true → Matches next p []
  unfolding is_empty
  is_empty-strip p h = strip-Matches next p [] (nothing-left (strip p) h)
    where
      nothing-left : (q : List ℕ) → is_empty q ≡ true → Matches next q []
      nothing-left [] h = both_end
      nothing-left (c ∷ cs) h = absurd (ground arith)

  -- The pattern at the end of the text.
  pub only_wildcards-Verdict :
      (p : List ℕ) (Q : Type 0) → Verdict (Matches next p []) Q (only_wildcards next p)
  unfolding is_empty
  only_wildcards-Verdict p Q = record {
    answer = is_empty (strip p);
    run = only_wildcards-strip next rules p;
    sound = is_empty-strip p;
    complete = λ q m. ap is_empty (nothing-Inverted next p m);
  }

  -- What a call one level deeper is taken to do.
  abbrev pub Deeper : ℕ → (List ℕ → List ℕ → Option Bool) → Type 0
  Deeper left deeper = (s p : List ℕ) → Verdict (Matches next p s) (wildcards p < left) (deeper s p)

  module _ (left : ℕ) (deeper : List ℕ → List ℕ → Option Bool) (d_ok : Deeper left deeper) where
    abbrev after_star : List ℕ → List ℕ → List ℕ → Bool → Option Bool
    after_star np p ds found = elim found [
      | true ↦ some true
      | false ↦ match_star next deeper np p ds
    ]

    -- The loop of `*`, over the rest of the text: some end of it matches the rest of the pattern.
    pub record StarVerdict (c : ℕ) (cs s : List ℕ) (o : Option Bool) : Type 0 where
      pub answer : Bool
      pub run : o ≡ some answer
      pub sound : answer ≡ true → Matches next (c ∷ cs) s
      pub complete :
          wildcards (strip cs) < left → (k : ℕ) → Matches next (strip cs) (drop k s) → answer ≡ true

    pub match_star-Verdict :
        (c : ℕ) (cs s : List ℕ)
        → (c == 42) ≡ true
        → StarVerdict c cs s (match_star next deeper (strip cs) (c ∷ cs) s)
    unfolding match_star
    match_star-Verdict c cs [] e =
        let v = only_wildcards-Verdict (c ∷ cs) (Unit {0}) in
        record {
          answer = v.answer;
          run = v.run;
          sound = v.sound;
          complete = λ fits k m. v.complete tt (
              wild_nothing c cs [] (star-IsWild c e)
                (strip-Matches next cs [] (subst (Matches next (strip cs)) (drop-nil k) m)));
        }
    match_star-Verdict c cs (d ∷ ds) e =
        let v = d_ok (d ∷ ds) (strip cs) in
        let r = match_star-Verdict c cs ds e in
        let first = ap (λ o. o >>= after_star (strip cs) (c ∷ cs) ds) v.run in
        elim (Bool-cases v.answer) [
          | inl found ↦ record {
            answer = true;
            run = first ∙ ap (after_star (strip cs) (c ∷ cs) ds) found;
            sound = λ t.
                wild_nothing c cs (d ∷ ds) (star-IsWild c e)
                  (strip-Matches next cs (d ∷ ds) (v.sound found));
            complete = λ fits k m. refl;
          }
          | inr not_found ↦ record {
            answer = r.answer;
            run = first ∙ ap (after_star (strip cs) (c ∷ cs) ds) not_found ∙ r.run;
            sound = λ t. star c d cs ds e (r.sound t);
            complete = λ fits k m. later v r not_found fits k m;
          }
        ]
      where
        later :
            (v : Verdict
              (Matches next (strip cs) (d ∷ ds))
              (wildcards (strip cs) < left)
              (deeper (d ∷ ds) (strip cs)))
            (r : StarVerdict c cs ds (match_star next deeper (strip cs) (c ∷ cs) ds))
            → v.answer ≡ false
            → wildcards (strip cs) < left
            → (k : ℕ) → Matches next (strip cs) (drop k (d ∷ ds))
            → r.answer ≡ true
        later v r not_found fits zero m = let found = v.complete fits m in absurd (ground arith)
        later v r not_found fits (suc k) m = r.complete fits k m

    pub star-Inverted :
        (c : ℕ) (cs s : List ℕ)
        → (c == 42) ≡ true
        → Matches next (c ∷ cs) s
        → (k : ℕ) × Matches next (strip cs) (drop k s)
    star-Inverted c cs s e m =
        let (k, m') = Matches-strip next rules (c ∷ cs) s m in
        (k, subst (λ p. Matches next p (drop k s)) (strip-wild c cs (star-IsWild c e)) m')

    question-Inverted :
        (c d : ℕ) (cs ds : List ℕ)
        → (c == 63) ≡ true
        → Matches next (c ∷ cs) (d ∷ ds)
        → Matches next cs (d ∷ ds) ⊎ Matches next cs (next (d ∷ ds)).1
    question-Inverted c d cs ds e (wild_nothing _ _ _ w m) = inl m
    question-Inverted c d cs ds e (question _ _ _ _ q m) = inr m
    question-Inverted c d cs ds e (star _ _ _ _ q m) = absurd (ground arith)
    question-Inverted c d cs ds e (same _ _ _ _ w _ _ m) =
        let t = question-IsWild c e in absurd (ground arith)
    question-Inverted c d cs ds e (escaped _ _ _ _ _ b _ m) = absurd (ground arith)

    abbrev after_question : List ℕ → List ℕ → Bool → Option Bool
    after_question p s found = elim found [ true ↦ some true | false ↦ deeper (next s).1 p ]

    pub match_question-Verdict :
        (c d : ℕ) (cs ds : List ℕ)
        → (c == 63) ≡ true
        → Verdict
            (Matches next (c ∷ cs) (d ∷ ds))
            (wildcards cs < left)
            (match_question next deeper cs (d ∷ ds))
    unfolding match_question
    match_question-Verdict c d cs ds e =
        let v = d_ok (d ∷ ds) cs in
        let r = d_ok (next (d ∷ ds)).1 cs in
        let first = ap (λ o. o >>= after_question cs (d ∷ ds)) v.run in
        elim (Bool-cases v.answer) [
          | inl found ↦ record {
            answer = true;
            run = first ∙ ap (after_question cs (d ∷ ds)) found;
            sound = λ t. wild_nothing c cs (d ∷ ds) (question-IsWild c e) (v.sound found);
            complete = λ fits m. refl;
          }
          | inr not_found ↦ record {
            answer = r.answer;
            run = first ∙ ap (after_question cs (d ∷ ds)) not_found ∙ r.run;
            sound = λ t. question c d cs ds e (r.sound t);
            complete = λ fits m. elim (question-Inverted c d cs ds e m) [
              | inl m' ↦ let found = v.complete fits m' in absurd (ground arith)
              | inr m' ↦ r.complete fits m'
            ];
          }
        ]

    pub wildcards-wild :
        (c : ℕ) (cs : List ℕ)
        → is_wildcard c ≡ true
        → wildcards (c ∷ cs) < suc left
        → wildcards cs < left
    unfolding wildcards
    wildcards-wild c cs w h =
        let e : wildcards (c ∷ cs) ≡ 1 + wildcards cs =
          ap (λ b. (if b then 1 else 0) + wildcards cs) w in
        omega (arith, e)
