-- ===== src/Base/PickleIterator/Reads.antt =====
-- Reading back padded bytes that lie next in the payload.
use lib_hh_old.Common.{
  ℕ, ◌+◌, ◌-◌, ◌^◌, ◌≤◌, ◌<◌, ◌≡◌, sym, ap, ◌∙◌, false, some, List, ◌++◌, append_assoc, arith,
  length, take, drop, length-append, take-append_left, take-length, take-take, drop-append_right,
  drop-take, drop-drop,
}
use lib_hh_old.Common.Slices.{slice, length-slice}
use lib_hh_old.Common.Bytes.{zeros, length-zeros}
use lib_hh_old.Common.Int.{pos}
use lib_hh_old.Base.Bits.Alignment.{align_four}
use lib_hh_old.Base.Pickle.Layout.{padding, padded}
use lib_hh_old.Base.PickleIterator.{
  PickleIterator, advance, get_read_pointer_for, get_read_pointer_and_advance,
}

-- The iterator has exactly `rest` before it.
pub record Ahead (it : PickleIterator) (rest : List ℕ) : Type 0 where
  pub ordered : it.read_index ≤ it.end_index
  pub bounded : it.end_index < 2 ^ 31
  pub inside : it.end_index ≤ length it.payload
  pub present : it.is_null ≡ false
  pub rest_eq : slice it.read_index (it.end_index - it.read_index) it.payload ≡ rest

-- The iterator after `n` bytes and their padding.
abbrev pub past : PickleIterator → ℕ → PickleIterator
past it n = record it { read_index = it.read_index + (n + padding n) }

module _ (it : PickleIterator) (bytes rest : List ℕ) (ahead : Ahead it (padded bytes ++ rest)) where
  length-padded : length (padded bytes) ≡ length bytes + padding (length bytes)
  length-padded =
      length-append bytes (zeros (padding (length bytes)))
      ∙ ap (λ n. length bytes + n) (length-zeros (padding (length bytes)))

  remaining : it.end_index - it.read_index ≡ length bytes + padding (length bytes) + length rest
  remaining = omega (
    arith,
    length-padded,
    length-append (padded bytes) rest,
    ap length ahead.rest_eq,
    length-slice it.read_index (it.end_index - it.read_index) it.payload
        (omega (arith, ahead.inside, ahead.ordered)),
    ahead.ordered,
  )

  advance-past : advance it (length bytes) ≡ past it (length bytes)
  unfolding advance
  advance-past = ground (
    arith,
    align_four (length bytes) (omega (arith, remaining, ahead.bounded)),
    remaining,
    ahead.bounded,
    ahead.ordered,
  )

  pub get_read_pointer_for-Ahead :
      get_read_pointer_for (length bytes) it ≡ (some it.read_index, past it (length bytes))
  unfolding get_read_pointer_for
  get_read_pointer_for-Ahead = ground (arith, remaining, ahead.bounded, ahead.ordered, advance-past)

  pub get_read_pointer_and_advance-Ahead :
      get_read_pointer_and_advance (pos (length bytes)) it
      ≡ (some it.read_index, past it (length bytes))
  unfolding get_read_pointer_and_advance
  get_read_pointer_and_advance-Ahead =
      rw ahead.present (ground (arith, remaining, ahead.bounded, ahead.ordered, advance-past))

  -- The bytes at the pointer.
  pub slice-Ahead : slice it.read_index (length bytes) it.payload ≡ bytes
  slice-Ahead =
      sym (
        take-take (length bytes) (it.end_index - it.read_index) (drop it.read_index it.payload)
          (omega (arith, remaining)))
      ∙ ap (take (length bytes))
          (ahead.rest_eq ∙ append_assoc bytes (zeros (padding (length bytes))) rest)
      ∙ take-append_left (length bytes) bytes _ (omega arith)
      ∙ take-length (length bytes) bytes (omega arith)

  pub past-Ahead : Ahead (past it (length bytes)) rest
  past-Ahead = record {
    ordered = omega (arith, remaining, ahead.ordered);
    bounded = ahead.bounded;
    inside = ahead.inside;
    present = ahead.present;
    rest_eq =
        ap (take m) (sym (drop-drop k it.read_index it.payload))
        ∙ sym (drop-take k m (drop it.read_index it.payload))
        ∙ ap (λ n. drop k (take n (drop it.read_index it.payload))) split
        ∙ ap (drop k) ahead.rest_eq
        ∙ ap (λ n. drop n (padded bytes ++ rest)) cut
        ∙ drop-append_right 0 (padded bytes) rest;
  }
    where
      k : ℕ
      k = length bytes + padding (length bytes)

      m : ℕ
      m = it.end_index - (it.read_index + k)

      split : k + m ≡ it.end_index - it.read_index
      split = omega (arith, remaining)

      cut : k ≡ length (padded bytes) + 0
      cut = omega (arith, length-padded)
