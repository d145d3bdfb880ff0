-- ===== src/Base/Pattern/Decides.antt =====
-- MatchPattern of libHH/base/strings/pattern.h against what a pattern matches.
use lib_hh_old.Common.{
  ℕ, zero, suc, ◌<◌, ◌≤◌, ◌≡◌, refl, ap, ◌∙◌, Bool, true, false, inl, inr, Bool-cases, Option, some,
  List, [], ◌∷◌, ◌==◌, ◌>>=◌, length, arith,
}
use lib_hh_old.Base.Pattern.{
  eat_wildcard, match_star, match_question, match_rest, match_pattern_t, match_pattern, max_depth,
}
use lib_hh_old.Base.Pattern.Matches.{
  NextRules, Matches, wildcards, strip, wildcards-strip, nothing-Unmatched, eat_wildcard-strip,
  wild-cases, question-IsWild, star-IsWild, wild-IsAscii,
}
use lib_hh_old.Base.Pattern.Eat.{IsSettled, eat_same_chars-Eaten}
use lib_hh_old.Base.Pattern.Branches.{
  Verdict, Deeper, only_wildcards-Verdict, match_star-Verdict, star-Inverted,
  match_question-Verdict, wildcards-wild,
}

module _ (next : List ℕ → Option ℕ × List ℕ) (rules : NextRules next) where
  module _ (left : ℕ) (deeper : List ℕ → List ℕ → Option Bool)
      (d_ok : Deeper next rules left deeper) where
    -- The branches on the first character of the pattern.
    module _ (c d : ℕ) (cs ds : List ℕ) where
      abbrev on_star : Bool → Option Bool
      on_star b = elim b [
        | true ↦ eat_wildcard next (suc (length (next (c ∷ cs)).1)) (next (c ∷ cs)).1 >>= λ np.
            match_star next deeper np (c ∷ cs) (d ∷ ds)
        | false ↦ some false
      ]

      abbrev on_question : Bool → Option Bool
      on_question b = elim b [
        | true ↦ match_question next deeper (next (c ∷ cs)).1 (d ∷ ds)
        | false ↦ on_star (c == 42)
      ]

      rest-question :
          (c == 63) ≡ true
          → match_rest next deeper (c ∷ cs) (d ∷ ds) ≡ match_question next deeper cs (d ∷ ds)
      unfolding match_rest
      rest-question e =
          ap on_question e
          ∙ ap (λ r. match_question next deeper r.1 (d ∷ ds))
              (rules.ascii c cs (wild-IsAscii c (question-IsWild c e)))

      rest-star :
          (c == 63) ≡ false
          → (c == 42) ≡ true
          → match_rest next deeper (c ∷ cs) (d ∷ ds)
            ≡ match_star next deeper (strip cs) (c ∷ cs) (d ∷ ds)
      unfolding match_rest
      rest-star h e =
          ap on_question h
          ∙ ap on_star e
          ∙ ap
              (λ r. eat_wildcard next (suc (length r.1)) r.1 >>= λ np.
                match_star next deeper np (c ∷ cs) (d ∷ ds))
              (rules.ascii c cs (wild-IsAscii c (star-IsWild c e)))
          ∙ ap (λ o. o >>= λ np. match_star next deeper np (c ∷ cs) (d ∷ ds))
              (eat_wildcard-strip next rules (suc (length cs)) cs (omega arith))

      rest-plain :
          (c == 63) ≡ false
          → (c == 42) ≡ false
          → match_rest next deeper (c ∷ cs) (d ∷ ds) ≡ some false
      unfolding match_rest
      rest-plain h e = ap on_question h ∙ ap on_star e

    match_rest-Verdict :
        (p s : List ℕ)
        → IsSettled next rules p s
        → Verdict (Matches next p s) (wildcards p < suc left) (match_rest next deeper p s)
    unfolding match_rest
    match_rest-Verdict p [] h = only_wildcards-Verdict next rules p (wildcards p < suc left)
    match_rest-Verdict [] (d ∷ ds) h = record {
      answer = false;
      run = refl;
      sound = λ t. absurd (ground arith);
      complete = λ fits m. absurd (nothing-Unmatched next d ds m);
    }
    match_rest-Verdict (c ∷ cs) (d ∷ ds) h = elim (Bool-cases (c == 63)) [
      | inl e ↦
          let v = match_question-Verdict next rules left deeper d_ok c d cs ds e in
          record {
            answer = v.answer;
            run = rest-question c d cs ds e ∙ v.run;
            sound = v.sound;
            complete = λ fits m.
                v.complete
                  (wildcards-wild next rules left deeper d_ok c cs (question-IsWild c e) fits) m;
          }
      | inr e ↦ elim (Bool-cases (c == 42)) [
        | inl e' ↦
            let v = match_star-Verdict next rules left deeper d_ok c cs (d ∷ ds) e' in
            record {
              answer = v.answer;
              run = rest-star c d cs ds e e' ∙ v.run;
              sound = v.sound;
              complete = λ fits m.
                  let less =
                    wildcards-wild next rules left deeper d_ok c cs (star-IsWild c e') fits in
                  let (k, m') = star-Inverted next rules left deeper d_ok c cs (d ∷ ds) e' m in
                  v.complete (omega (arith, wildcards-strip cs)) k m';
            }
        | inr e' ↦ record {
          answer = false;
          run = rest-plain c d cs ds e e';
          sound = λ t. absurd (ground arith);
          complete = λ fits m. absurd (h (wild-cases c e e') m);
        }
      ]
    ]

  match_pattern_t-Verdict :
      (left : ℕ) (s p : List ℕ)
      → Verdict (Matches next p s) (wildcards p < left) (match_pattern_t next left s p)
  unfolding match_pattern_t
  match_pattern_t-Verdict zero s p = record {
    answer = false;
    run = refl;
    sound = λ t. absurd (ground arith);
    complete = λ fits m. absurd (omega arith);
  }
  match_pattern_t-Verdict (suc left) s p =
      let e = eat_same_chars-Eaten next rules (suc (length p)) p s (omega arith) in
      let v =
        match_rest-Verdict left (match_pattern_t next left) (match_pattern_t-Verdict left) e.pattern
          e.string e.settled in
      record {
        answer = v.answer;
        run =
            ap (λ o. o >>= λ r. match_rest next (match_pattern_t next left) r.0 r.1) e.run ∙ v.run;
        sound = λ t. e.to (v.sound t);
        complete = λ fits m. v.complete (omega (arith, e.fewer)) (e.from m);
      }

  -- Where reading a character moves forward and an ASCII character is one unit: MatchPattern ends on
  -- every text and pattern, says true only of a text that the pattern matches - a question mark
  -- stands for no character or one, a star for any units, a backslash escapes the character behind
  -- it - and says true of all such texts where at most 16 units of the pattern are wildcards.
  pub match_pattern-Decides :
      (string pattern : List ℕ)
      → (answer : Bool) × (match_pattern next string pattern ≡ some answer)
        × (answer ≡ true → Matches next pattern string)
        × (wildcards pattern ≤ 16 → Matches next pattern string → answer ≡ true)
  unfolding match_pattern
  match_pattern-Decides string pattern =
      let v = match_pattern_t-Verdict (suc max_depth) string pattern in
      (v.answer, v.run, v.sound, λ few m. v.complete (omega arith) m)
