-- ===== src/Base/Pattern.antt =====
-- libHH/base/strings/pattern.cc. A text is the list of its code units. The functors NextCharUTF8
-- and NextCharUTF16, macros of a third party, are a parameter: the character at the front of a text
-- that is not empty, none for CBU_SENTINEL, and the text behind it.
pub mod Matches
mod Eat
mod Branches
mod Examples
pub mod Decides
use lib_hh_old.Common.{
  ℕ, zero, suc, ◌+◌, Bool, true, false, not, ◌&&◌, ◌||◌, Option, none, some, List, [], ◌∷◌, ◌==◌,
  if◌then◌else◌, ◌>>=◌, length,
}
use lib_hh_old.Base.Split.{is_empty}

unfoldable pub is_wildcard : ℕ → Bool
is_wildcard c = c == 42 || c == 63

-- The test that two characters are the same, and not the sentinel.
unfoldable pub same_char : Option ℕ → Option ℕ → Bool
same_char none d = false
same_char (some c) none = false
same_char (some c) (some d) = c == d

-- `kMaxDepth`; the depth is counted by the calls that are left.
abbrev pub max_depth : ℕ
max_depth = 16

module _ (next : List ℕ → Option ℕ × List ℕ) where
  -- The loops of EatSameChars and EatWildcard; `none` is no fuel.
  unfoldable pub eat_same_chars : ℕ → Option (List ℕ) → List ℕ → List ℕ → Option (List ℕ × List ℕ)
  eat_same_chars zero escape pattern string = none
  eat_same_chars (suc fuel) escape [] string = some ([], string)
  eat_same_chars (suc fuel) escape (c ∷ cs) [] = some (c ∷ cs, [])
  eat_same_chars (suc fuel) none (c ∷ cs) (d ∷ ds) = elim (is_wildcard c) [
    | true ↦ some (c ∷ cs, d ∷ ds)
    | false ↦ elim (c == 92) [
      | true ↦ eat_same_chars fuel (some (c ∷ cs)) (next (c ∷ cs)).1 (d ∷ ds)
      | false ↦ elim (same_char (next (c ∷ cs)).0 (next (d ∷ ds)).0) [
        | true ↦ eat_same_chars fuel none (next (c ∷ cs)).1 (next (d ∷ ds)).1
        | false ↦ some (c ∷ cs, d ∷ ds)
      ]
    ]
  ]
  eat_same_chars (suc fuel) (some escape) (c ∷ cs) (d ∷ ds) =
      elim (same_char (next (c ∷ cs)).0 (next (d ∷ ds)).0) [
        | true ↦ eat_same_chars fuel none (next (c ∷ cs)).1 (next (d ∷ ds)).1
        | false ↦ some (escape, d ∷ ds)
      ]

  unfoldable pub eat_wildcard : ℕ → List ℕ → Option (List ℕ)
  eat_wildcard zero pattern = none
  eat_wildcard (suc fuel) [] = some []
  eat_wildcard (suc fuel) (c ∷ cs) = elim (is_wildcard c) [
    | true ↦ eat_wildcard fuel (next (c ∷ cs)).1
    | false ↦ some (c ∷ cs)
  ]

  -- Whether nothing but wildcards is left of the pattern.
  unfoldable pub only_wildcards : List ℕ → Option Bool
  only_wildcards pattern =
      eat_wildcard (suc (length pattern)) pattern >>= λ rest. some (is_empty rest)

  -- The calls of MatchPatternT inside it are those of `deeper`.
  module _ (deeper : List ℕ → List ℕ → Option Bool) where
    unfoldable pub match_star : List ℕ → List ℕ → List ℕ → Option Bool
    match_star next_pattern pattern [] = only_wildcards pattern
    match_star next_pattern pattern (d ∷ ds) = deeper (d ∷ ds) next_pattern >>= λ found.
        elim found [ true ↦ some true | false ↦ match_star next_pattern pattern ds ]

    unfoldable pub match_question : List ℕ → List ℕ → Option Bool
    match_question next_pattern string = deeper string next_pattern >>= λ found. elim found [
      | true ↦ some true
      | false ↦ deeper (next string).1 next_pattern
    ]

    -- What MatchPatternT does after EatSameChars.
    unfoldable pub match_rest : List ℕ → List ℕ → Option Bool
    match_rest pattern [] = only_wildcards pattern
    match_rest [] (d ∷ ds) = some false
    match_rest (c ∷ cs) (d ∷ ds) = elim (c == 63) [
      | true ↦ match_question (next (c ∷ cs)).1 (d ∷ ds)
      | false ↦ elim (c == 42) [
        | true ↦ eat_wildcard (suc (length (next (c ∷ cs)).1)) (next (c ∷ cs)).1 >>= λ next_pattern.
            match_star next_pattern (c ∷ cs) (d ∷ ds)
        | false ↦ some false
      ]
    ]

  unfoldable pub match_pattern_t : ℕ → List ℕ → List ℕ → Option Bool
  match_pattern_t zero string pattern = some false
  match_pattern_t (suc left) string pattern =
      eat_same_chars (suc (length pattern)) none pattern string >>= λ r.
      match_rest (match_pattern_t left) r.0 r.1

  unfoldable pub match_pattern : List ℕ → List ℕ → Option Bool
  match_pattern string pattern = match_pattern_t (suc max_depth) string pattern
