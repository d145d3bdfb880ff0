-- ===== src/Base/Split/Join.antt =====
-- Text that is split at a separator, and its pieces joined.
use lib_hh_old.Common.{
  ℕ, zero, suc, ◌≤◌, ◌<◌, ◌≡◌, refl, sym, ap, ◌∙◌, true, false, inl, inr, Bool-cases, Option, none,
  some, List, [], ◌∷◌, ◌++◌, append_assoc, arith, ◌>>=◌, length, length-drop, take, drop, All,
}
use lib_hh_old.Base.Split.{
  Str, one_of, find_first_of, keep_whitespace, split_want_all, handle_whitespace, push_piece,
  split_loop, split_string, join_rest, join_string,
}

join_rest-append :
    (sep xs ys : List ℕ) (parts : List (List ℕ))
    → join_rest sep (xs ++ ys) parts ≡ xs ++ join_rest sep ys parts
unfolding join_rest
join_rest-append sep xs ys [] = refl
join_rest-append sep xs ys (part ∷ parts) =
    ap (λ text. join_rest sep text parts)
      (ap (λ text. text ++ part) (append_assoc xs ys sep) ∙ append_assoc xs (ys ++ sep) part)
    ∙ join_rest-append sep xs (ys ++ sep ++ part) parts

-- No character of a piece is a separator.
abbrev pub IsWhole : List ℕ → List ℕ → Type 0
IsWhole separators piece = All (λ c. one_of separators c ≡ false) piece

-- The text up to the first separator, which it is followed by.
pub record SplitAt (separators text : List ℕ) (end : ℕ) : Type 0 where
  separator : ℕ
  found : one_of separators separator ≡ true
  text_eq : text ≡ take end text ++ (separator ∷ drop (suc end) text)
  whole : IsWhole separators (take end text)
  inside : end < length text

abbrev pub FirstOf : List ℕ → List ℕ → Option ℕ → Type 0
FirstOf separators text none = IsWhole separators text
FirstOf separators text (some end) = SplitAt separators text end

later-FirstOf :
    (separators : List ℕ) (c : ℕ) (cs : List ℕ) (res : Option ℕ)
    → one_of separators c ≡ false
    → FirstOf separators cs res
    → FirstOf separators (c ∷ cs) (res >>= λ k. some (suc k))
later-FirstOf separators c cs none other all = (other, all)
later-FirstOf separators c cs (some k) other s = record {
  separator = s.separator;
  found = s.found;
  text_eq = ap (λ t. c ∷ t) s.text_eq;
  whole = (other, s.whole);
  inside = omega (arith, s.inside);
}

pub find_first_of-FirstOf :
    (separators text : List ℕ) → FirstOf separators text (find_first_of separators text)
unfolding find_first_of
find_first_of-FirstOf separators [] = tt
find_first_of-FirstOf separators (c ∷ cs) = elim (Bool-cases (one_of separators c)) [
  | inl here ↦
      rw here
        (record { separator = c; found = here; text_eq = refl; whole = tt; inside = omega arith })
  | inr other ↦ rw other (
      later-FirstOf separators c cs (find_first_of separators cs) other
        (find_first_of-FirstOf separators cs))
]

one_of-singleton : (c x : ℕ) → one_of (c ∷ []) x ≡ true → x ≡ c
unfolding one_of
one_of-singleton c x h = ground arith

module _ (str : Str) (c : ℕ) where
  abbrev separators : List ℕ
  separators = c ∷ []

  -- The pieces of a text, of which there is at least one.
  record Pieces (text : List ℕ) (result : Option (List (List ℕ))) : Type 0 where
    first : List ℕ
    others : List (List ℕ)
    run : result ≡ some (first ∷ others)
    joins : join_rest separators first others ≡ text
    all_whole : All (IsWhole separators) (first ∷ others)

  loop : ℕ → List ℕ → Option (List (List ℕ))
  loop fuel text = split_loop str separators keep_whitespace split_want_all fuel text

  -- An iteration of the loop, from what the search gives.
  abbrev after_search : ℕ → List ℕ → Option ℕ → Option (List (List ℕ))
  after_search fuel text found = elim found [
    | none ↦ some (text ∷ [])
    | some end ↦ loop fuel (drop (suc end) text) >>= λ pieces. some (take end text ∷ pieces)
  ]

  after_search-Pieces :
      (fuel : ℕ) (text : List ℕ) (found : Option ℕ)
      → FirstOf separators text found
      → ((rest : List ℕ) → suc (length rest) ≤ length text → Pieces rest (loop fuel rest))
      → Pieces text (after_search fuel text found)
  unfolding join_rest
  after_search-Pieces fuel text none whole next = record {
    first = text;
    others = [];
    run = refl;
    joins = refl;
    all_whole = (whole, tt);
  }
  after_search-Pieces fuel text (some end) s next =
      let p = next (drop (suc end) text) (omega (arith, s.inside, length-drop (suc end) text)) in
      let same : s.separator ≡ c = one_of-singleton c s.separator s.found in
      record {
        first = take end text;
        others = p.first ∷ p.others;
        run = rw p.run refl;
        joins =
            join_rest-append separators (take end text ++ separators) p.first p.others
            ∙ ap (λ tail. (take end text ++ separators) ++ tail) p.joins
            ∙ append_assoc (take end text) separators (drop (suc end) text)
            ∙ ap (λ x. take end text ++ (x ∷ drop (suc end) text)) (sym same)
            ∙ sym s.text_eq;
        all_whole = (s.whole, p.all_whole);
      }

  split_loop-Pieces : (fuel : ℕ) (text : List ℕ) → length text < fuel → Pieces text (loop fuel text)
  unfolding loop split_loop push_piece handle_whitespace
  split_loop-Pieces zero text room = absurd (omega arith)
  split_loop-Pieces (suc fuel) text room =
      after_search-Pieces fuel text (find_first_of separators text)
        (find_first_of-FirstOf separators text)
        (λ rest less. split_loop-Pieces fuel rest (omega arith))

-- SplitString of a text of either type of string that is not empty at one separator character, with
-- all pieces wanted and whitespace kept, always ends; none of its pieces holds the separator, and
-- JoinString with the separator gives the text back.
pub join_string-split_string :
    (str : Str) (c x : ℕ) (xs : List ℕ)
    → (pieces : List (List ℕ)) × (split_string str (x ∷ xs) (c ∷ []) keep_whitespace split_want_all
        ≡ some pieces)
      × (join_string pieces (c ∷ []) ≡ x ∷ xs)
      × All (IsWhole (c ∷ [])) pieces
unfolding split_string join_string loop
join_string-split_string str c x xs =
    let p = split_loop-Pieces str c (suc (length (x ∷ xs))) (x ∷ xs) (omega arith) in
    (p.first ∷ p.others, p.run, p.joins, p.all_whole)
