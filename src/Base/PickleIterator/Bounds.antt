-- ===== src/Base/PickleIterator/Bounds.antt =====
-- Read pointers and the bounds of the payload, for the three ways to get one.
use lib_hh_old.Common.{
  ℕ, ◌+◌, ◌≤◌, ◌<◌, ◌≡◌, refl, sym, inl, inr, Option, some, none, true, arith, Bool-cases,
}
use mathlib.Core.Path.{subst}
use lib_hh_old.Common.Int.{ℤ, pos, negsuc, pos_part, size_mod, to_int, from_int, eq_ℤ}
use lib_hh_old.Base.PickleIterator.{
  PickleIterator, advance, get_read_pointer_for, get_read_pointer_and_advance,
  get_read_pointer_for_array, scale,
}

-- The two indices of an iterator over a payload of less than 4 GB.
pub record IsInBounds (it : PickleIterator) : Type 0 where
  pub ordered : it.read_index ≤ it.end_index
  pub bounded : it.end_index < size_mod

-- A read of `n` bytes either fails and leaves the iterator in bounds, or its `n` bytes lie between
-- the old index and the end, and the iterator stands in bounds over the same payload.
abbrev pub Safe : ℕ → PickleIterator → Option ℕ × PickleIterator → Type 0
Safe n it (none, it') = IsInBounds it' × (it'.end_index ≡ it.end_index)
Safe n it (some off, it') =
    IsInBounds it'
    × (it'.end_index ≡ it.end_index)
    × (off ≡ it.read_index)
    × (off + n ≤ it.end_index)

advance-IsInBounds : (it : PickleIterator) (n : ℕ) → IsInBounds it → IsInBounds (advance it n)
unfolding advance
advance-IsInBounds it n h = ground arith

advance-end_index : (it : PickleIterator) (n : ℕ) → (advance it n).end_index ≡ it.end_index
unfolding advance
advance-end_index it n = ground arith

-- An iterator in bounds asked for a built-in type of n bytes either fails and stays in bounds, or
-- gives the old index, from which n bytes lie before the unchanged end, and stays in bounds.
pub get_read_pointer_for-Safe :
    (n : ℕ) (it : PickleIterator) → IsInBounds it → Safe n it (get_read_pointer_for n it)
unfolding get_read_pointer_for
get_read_pointer_for-Safe n it h = ground (arith, advance-IsInBounds it n h, advance-end_index it n)

-- An iterator in bounds asked for num_bytes bytes either fails and stays in bounds, or gives the old
-- index, from which max(num_bytes, 0) bytes lie before the unchanged end, and stays in bounds.
pub get_read_pointer_and_advance-Safe :
    (num_bytes : ℤ) (it : PickleIterator)
    → IsInBounds it
    → Safe (pos_part num_bytes) it (get_read_pointer_and_advance num_bytes it)
unfolding get_read_pointer_and_advance
get_read_pointer_and_advance-Safe (pos n) it h =
    ground (arith, advance-IsInBounds it n h, advance-end_index it n)
get_read_pointer_and_advance-Safe (negsuc n) it h = ground arith

eq_ℤ→eq : (a b : ℤ) → eq_ℤ a b ≡ true → a ≡ b
eq_ℤ→eq a b h = ground arith

-- An iterator in bounds asked for num_elements elements of a size either fails and stays in bounds,
-- or gives the old index, from which the exact product of bytes lies before the unchanged end, and
-- stays in bounds: the product cannot overflow into a smaller one.
pub get_read_pointer_for_array-Safe :
    (num_elements : ℤ) (size_element : ℕ) (it : PickleIterator)
    → IsInBounds it
    → Safe
        (pos_part (scale num_elements size_element))
        it
        (get_read_pointer_for_array num_elements size_element it)
unfolding get_read_pointer_for_array
get_read_pointer_for_array-Safe num size it h = elim (Bool-cases (eq_ℤ n n32)) [
  | inl same ↦ rw same (
      subst (λ z. Safe (pos_part z) it (get_read_pointer_and_advance n32 it))
        (sym (eq_ℤ→eq n n32 same)) (get_read_pointer_and_advance-Safe n32 it h))
  | inr other ↦ rw other (h, refl)
]
  where
    n : ℤ
    n = scale num size

    n32 : ℤ
    n32 = to_int (from_int n)
