-- ===== src/Base/Split.antt =====
-- libHH/base/strings/string_split.cc, with TrimString and JoinString of
-- libHH/base/strings/string_util.cc. Text is the list of its characters; a search from a position
-- is a search in the text that begins there.
pub mod Join
mod Examples
use lib_hh_old.Common.{
  ℕ, zero, suc, ◌+◌, Bool, true, false, not, ◌&&◌, ◌||◌, Option, none, some, List, [], ◌∷◌, ◌++◌,
  ◌==◌, if◌then◌else◌, ◌>>=◌, length, take, drop,
}

unfoldable pub is_empty : List ℕ → Bool
is_empty [] = true
is_empty (c ∷ cs) = false

-- Whether a character is one of a set.
unfoldable pub one_of : List ℕ → ℕ → Bool
one_of [] c = false
one_of (x ∷ xs) c = c == x || one_of xs c

-- `FindFirstOf`; `none` is `npos`.
unfoldable pub find_first_of : List ℕ → List ℕ → Option ℕ
find_first_of chars [] = none
find_first_of chars (c ∷ cs) =
    let rest : Option ℕ = find_first_of chars cs in
    if one_of chars c then some 0 else (rest >>= λ k. some (suc k))

-- `kWhitespaceASCII` and `kWhitespaceUTF16`.
abbrev pub whitespace_ascii : List ℕ
whitespace_ascii = 9 ∷ 10 ∷ 11 ∷ 12 ∷ 13 ∷ 32 ∷ []

abbrev pub whitespace_utf16 : List ℕ
whitespace_utf16 =
    9 ∷ 10 ∷ 11 ∷ 12 ∷ 13 ∷ 32 ∷ 133 ∷ 160 ∷ 5760 ∷ 8192 ∷ 8193 ∷ 8194 ∷ 8195 ∷ 8196 ∷ 8197 ∷ 8198
    ∷ 8199 ∷ 8200 ∷ 8201 ∷ 8202 ∷ 8232 ∷ 8233 ∷ 8239 ∷ 8287 ∷ 12288 ∷ []

-- The types that the templates are used at: `std::string` and `string16`.
pub data Str : Type 0 where
  string string16 : Str

abbrev pub whitespace_for_type : Str → List ℕ
whitespace_for_type string = whitespace_ascii
whitespace_for_type string16 = whitespace_utf16

unfoldable pub trim_leading : List ℕ → List ℕ → List ℕ
trim_leading chars [] = []
trim_leading chars (c ∷ cs) =
    let rest : List ℕ = trim_leading chars cs in if one_of chars c then rest else c ∷ cs

unfoldable pub trim_trailing : List ℕ → List ℕ → List ℕ
trim_trailing chars [] = []
trim_trailing chars (c ∷ cs) =
    let rest : List ℕ = trim_trailing chars cs in
    if is_empty rest && one_of chars c then [] else c ∷ rest

-- `TrimString` of a piece with `TRIM_ALL`.
unfoldable pub trim_string : List ℕ → List ℕ → List ℕ
trim_string chars text = trim_leading chars (trim_trailing chars text)

-- `WhitespaceHandling` and `SplitResult`.
pub data WhitespaceHandling : Type 0 where
  keep_whitespace trim_whitespace : WhitespaceHandling

pub data SplitResult : Type 0 where
  split_want_all split_want_nonempty : SplitResult

unfoldable pub handle_whitespace : Str → WhitespaceHandling → List ℕ → List ℕ
handle_whitespace str keep_whitespace piece = piece
handle_whitespace str trim_whitespace piece = trim_string (whitespace_for_type str) piece

abbrev pub wants_all : SplitResult → Bool
wants_all split_want_all = true
wants_all split_want_nonempty = false

unfoldable pub push_piece : SplitResult → List ℕ → List (List ℕ) → List (List ℕ)
push_piece wanted piece pieces =
    if wants_all wanted || not (is_empty piece) then piece ∷ pieces else pieces

-- The loop of `SplitStringT`, over the text from `start` on; `none` is no fuel.
unfoldable pub split_loop :
    Str → List ℕ → WhitespaceHandling → SplitResult → ℕ → List ℕ → Option (List (List ℕ))
split_loop str separators handling wanted zero text = none
split_loop str separators handling wanted (suc fuel) text = elim (find_first_of separators text) [
  | none ↦ some (push_piece wanted (handle_whitespace str handling text) [])
  | some end ↦ split_loop str separators handling wanted fuel (drop (suc end) text) >>= λ pieces.
      some (push_piece wanted (handle_whitespace str handling (take end text)) pieces)
]

unfoldable pub split_string :
    Str → List ℕ → List ℕ → WhitespaceHandling → SplitResult → Option (List (List ℕ))
split_string str [] separators handling wanted = some []
split_string str (c ∷ cs) separators handling wanted =
    split_loop str separators handling wanted (suc (length (c ∷ cs))) (c ∷ cs)

-- The loop of `JoinStringT`.
unfoldable pub join_rest : List ℕ → List ℕ → List (List ℕ) → List ℕ
join_rest sep result [] = result
join_rest sep result (part ∷ parts) = join_rest sep (result ++ sep ++ part) parts

unfoldable pub join_string : List (List ℕ) → List ℕ → List ℕ
join_string [] sep = []
join_string (part ∷ parts) sep = join_rest sep part parts
