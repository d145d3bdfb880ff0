-- ===== src/Base/Pattern/Examples.antt =====
-- Runs of MatchPattern over ASCII text.
use lib_hh_old.Common.{ℕ, ◌≤◌, ◌≡◌, refl, Bool, true, false, Option, some, none, List, [], ◌∷◌}
use lib_hh_old.Base.Split.{is_empty}
use lib_hh_old.Base.Pattern.{
  match_pattern, match_pattern_t, match_rest, match_star, match_question, only_wildcards,
  eat_wildcard, eat_same_chars, is_wildcard, same_char,
}
use lib_hh_old.Base.Pattern.Matches.{NextRules, Matches, wildcards}
use lib_hh_old.Base.Pattern.Decides.{match_pattern-Decides}

abbrev next_ascii : List ℕ → Option ℕ × List ℕ
next_ascii [] = (none, [])
next_ascii (c ∷ cs) = (some c, cs)

next_ascii-NextRules : NextRules next_ascii
next_ascii-NextRules = record { ascii = λ c cs h. refl; forward = λ c cs. (0, refl) }

-- "abbc" and "a*?c".
abbrev text : List ℕ
text = 97 ∷ 98 ∷ 98 ∷ 99 ∷ []

abbrev pattern_text : List ℕ
pattern_text = 97 ∷ 42 ∷ 63 ∷ 99 ∷ []

match_pattern-Decides_example :
    (answer : Bool) × (match_pattern next_ascii text pattern_text ≡ some answer)
    × (answer ≡ true → Matches next_ascii pattern_text text)
    × (wildcards pattern_text ≤ 16 → Matches next_ascii pattern_text text → answer ≡ true)
match_pattern-Decides_example =
    match_pattern-Decides next_ascii next_ascii-NextRules text pattern_text

matches : match_pattern next_ascii text pattern_text ≡ some true
unfolding match_pattern match_pattern_t match_rest match_star match_question only_wildcards
    eat_wildcard eat_same_chars is_wildcard same_char is_empty
matches = refl

-- "a*" and "a\*": the star is escaped.
escaped_star : match_pattern next_ascii (97 ∷ 42 ∷ []) (97 ∷ 92 ∷ 42 ∷ []) ≡ some true
unfolding match_pattern match_pattern_t match_rest match_star match_question only_wildcards
    eat_wildcard eat_same_chars is_wildcard same_char is_empty
escaped_star = refl

escaped_other : match_pattern next_ascii text (97 ∷ 92 ∷ 42 ∷ []) ≡ some false
unfolding match_pattern match_pattern_t match_rest match_star match_question only_wildcards
    eat_wildcard eat_same_chars is_wildcard same_char is_empty
escaped_other = refl
