-- ===== src/Base/Pickle/Framing.antt =====
-- Finding where a pickle ends in a range of bytes, and the bytes that a written pickle gives.
use native.Mathlib.Decide.{dec_lt}
use lib_hh_old.Common.{
  ℕ, ◌+◌, ◌-◌, ◌≤◌, ◌<◌, ◌≡◌, refl, sym, ap, ◌∙◌, some, none, List, [], ◌++◌, inl, inr, arith, ltb,
  lt→ltb, le→not-ltb, Bool-cases, if◌then◌else◌, length, take, length-append, length-take,
  take-append_left, take-take,
}
use lib_hh_old.Common.Slices.{load_lem}
use lib_hh_old.Common.Bytes.{le_value}
use lib_hh_old.Common.Int.{size_max, add_size}
use lib_hh_old.Base.Pickle.{Pickle, contents, size, stored_payload_size, peek_next, find_next}
use lib_hh_old.Base.Pickle.Layout.{IsOwned}

-- `PeekNext` and `FindNext` on a range that holds a whole header, whose sizes do not overflow.
pub next_in_range :
    (header_size n : ℕ) (range : List ℕ)
    → 4 ≤ header_size
    → header_size ≤ length range
    → stored_payload_size range ≡ n
    → header_size + n < size_max
    → (peek_next header_size range ≡ some (header_size + n))
      × (find_next header_size range
          ≡ (if ltb (length range) (header_size + n) then none else some (header_size + n)))
unfolding find_next peek_next
next_in_range header_size n range lo hi e small =
    let sum : add_size header_size n ≡ header_size + n = omega arith in
    rw
      (
        e,
        le→not-ltb (length range) 4 (omega arith),
        le→not-ltb (length range) header_size hi,
        le→not-ltb (size_max - header_size) n (omega arith),
        sum,
      )
      (refl, refl)

-- And on a range without a whole header.
pub next_short :
    (header_size : ℕ) (range : List ℕ)
    → length range < header_size
    → (peek_next header_size range ≡ none) × (find_next header_size range ≡ none)
unfolding find_next peek_next
next_short header_size range h = elim (Bool-cases (ltb (length range) 4)) [
  | inl short ↦ rw short (refl, refl)
  | inr long ↦ rw (long, lt→ltb (length range) header_size h) (refl, refl)
]

-- The bytes of an owned pickle: its header and what it has written.
unfoldable pub used : Pickle → List ℕ → List ℕ
used p block = take (p.header_size + p.write_offset) block

module _ (p : Pickle) (block : List ℕ) (own : IsOwned p block) where
  -- For a well-formed pickle data() and size() never fault, and give the header and the written
  -- payload.
  pub contents-eq-used : contents p ≡ some (used p block)
  unfolding contents size used
  contents-eq-used =
      let total : add_size p.header_size (stored_payload_size block)
          ≡ p.header_size + p.write_offset =
        omega (arith, own.in_sync, own.within, own.capacity_bound) in
      rw (own.header_eq, total)
        (load_lem block 0 (p.header_size + p.write_offset) (omega (arith, own.filled, own.within)))

  pub length-used : length (used p block) ≡ p.header_size + p.write_offset
  unfolding used
  length-used =
      omega (arith, length-take (p.header_size + p.write_offset) block, own.filled, own.within)

  -- A range that starts with the bytes of the pickle states the pickle's payload size.
  pub stored-used : (rest : List ℕ) → stored_payload_size (used p block ++ rest) ≡ p.write_offset
  unfolding used
  stored-used rest =
      ap le_value (
        take-append_left 4 (used p block) rest (omega (arith, own.header_whole, length-used))
        ∙ take-take 4 (p.header_size + p.write_offset) block (omega (arith, own.header_whole)))
      ∙ own.in_sync

  no_overflow : p.header_size + p.write_offset < size_max
  no_overflow = omega (arith, own.within, own.capacity_bound)

  -- On a range that starts with the bytes of a well-formed pickle, whatever follows them, FindNext
  -- returns the end of those bytes.
  pub find_next-used :
      (rest : List ℕ)
      → find_next p.header_size (used p block ++ rest) ≡ some (length (used p block))
  find_next-used rest =
      let total = length-append (used p block) rest in
      let long : p.header_size + p.write_offset ≤ length (used p block ++ rest) =
        omega (arith, total, length-used) in
      (next_in_range p.header_size p.write_offset (used p block ++ rest) own.header_whole
        (omega arith) (stored-used rest) no_overflow).1
      ∙ rw (le→not-ltb _ _ long) (ap some (sym length-used))

  -- In a proper prefix of the bytes of a well-formed pickle FindNext finds nothing; from a whole
  -- header on, PeekNext states the size that the pickle will have.
  pub find_next_prefix :
      (k : ℕ)
      → k < p.header_size + p.write_offset
      → (find_next p.header_size (take k (used p block)) ≡ none)
        × (p.header_size ≤ k
            → peek_next p.header_size (take k (used p block))
              ≡ some (p.header_size + p.write_offset))
  find_next_prefix k h = elim (dec_lt k p.header_size) [
    | yes short ↦ (
      (next_short p.header_size (take k (used p block)) (omega (arith, cut))).1,
      λ long. absurd (omega arith),
    )
    | no long ↦
        let (peek, find) =
          next_in_range p.header_size p.write_offset (take k (used p block)) own.header_whole
            (omega (arith, cut)) (stored-prefix (omega arith)) no_overflow in
        (
          find
              ∙ rw (
                  lt→ltb (length (take k (used p block))) (p.header_size + p.write_offset)
                    (omega (arith, cut))),
          λ _. peek,
        )
  ]
    where
      cut : length (take k (used p block)) ≡ k
      cut = omega (arith, length-take k (used p block), length-used)

      stored-prefix :
          p.header_size ≤ k → stored_payload_size (take k (used p block)) ≡ p.write_offset
      stored-prefix le =
          ap le_value (take-take 4 k (used p block) (omega (arith, own.header_whole)))
          ∙ ap le_value (
              sym (
                take-append_left 4 (used p block) []
                  (omega (arith, own.header_whole, length-used))))
          ∙ stored-used []
