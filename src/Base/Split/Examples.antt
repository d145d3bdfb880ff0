-- ===== src/Base/Split/Examples.antt =====
-- Runs of splitting and joining.
use lib_hh_old.Common.{ℕ, ◌≡◌, refl, some, List, [], ◌∷◌, All}
use lib_hh_old.Base.Split.{
  string, string16, keep_whitespace, trim_whitespace, split_want_all, split_want_nonempty,
  split_string, split_loop, find_first_of, one_of, push_piece, handle_whitespace, trim_string,
  trim_leading, trim_trailing, is_empty, join_string,
}
use lib_hh_old.Base.Split.Join.{IsWhole, join_string-split_string}

-- "a,,b" and a comma.
abbrev text : List ℕ
text = 97 ∷ 44 ∷ 44 ∷ 98 ∷ []

join_string-split_string_example :
    (pieces : List (List ℕ)) × (split_string string text (44 ∷ []) keep_whitespace split_want_all
      ≡ some pieces)
    × (join_string pieces (44 ∷ []) ≡ text)
    × All (IsWhole (44 ∷ [])) pieces
join_string-split_string_example = join_string-split_string string 44 97 (44 ∷ 44 ∷ 98 ∷ [])

-- " a ,," and a comma or a semicolon, trimmed, and the empty pieces left out.
trims :
    split_string string
      (32 ∷ 97 ∷ 32 ∷ 44 ∷ 44 ∷ [])
      (44 ∷ 59 ∷ [])
      trim_whitespace
      split_want_nonempty
    ≡ some ((97 ∷ []) ∷ [])
unfolding split_string split_loop find_first_of one_of push_piece handle_whitespace trim_string
    trim_leading trim_trailing is_empty
trims = refl

-- A no-break space is white space in UTF-16 text alone.
trims_utf16 :
    split_string string16 (160 ∷ 97 ∷ []) (44 ∷ []) trim_whitespace split_want_all
    ≡ some ((97 ∷ []) ∷ [])
unfolding split_string split_loop find_first_of one_of push_piece handle_whitespace trim_string
    trim_leading trim_trailing is_empty
trims_utf16 = refl

keeps_bytes :
    split_string string (160 ∷ 97 ∷ []) (44 ∷ []) trim_whitespace split_want_all
    ≡ some ((160 ∷ 97 ∷ []) ∷ [])
unfolding split_string split_loop find_first_of one_of push_piece handle_whitespace trim_string
    trim_leading trim_trailing is_empty
keeps_bytes = refl
