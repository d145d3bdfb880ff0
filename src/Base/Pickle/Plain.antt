-- ===== src/Base/Pickle/Plain.antt =====
-- A concrete allocator and concrete pickles for the runs of the other modules.
use lib_hh_old.Common.{
  ℕ, ◌-◌, refl, ◌∙◌, arith, some, List, [], ◌∷◌, ◌++◌, length, take, length-append, length-take,
  take-append_left, take-take, All,
}
use lib_hh_old.Common.Bytes.{zeros, length-zeros, IsByte, mod-IsByte, le_value}
use lib_hh_old.Base.Pickle.{Pickle, Allocator}
use lib_hh_old.Base.Pickle.Layout.{IsOwned}
use lib_hh_old.Base.Pickle.Copy.{IsReadable}

-- It clears what the caller did not have before.
abbrev pub plain : Allocator
plain = record {
  realloc = λ mem n. take n mem ++ zeros (n - length mem);
  length-realloc = λ mem n. omega (
    arith,
    length-append (take n mem) (zeros (n - length mem)),
    length-take n mem,
    length-zeros (n - length mem),
  );
  take-realloc = λ mem n k h h'.
      take-append_left k (take n mem) (zeros (n - length mem)) (omega (arith, length-take n mem))
      ∙ take-take k n mem h';
}

-- A pickle with a plain header that has written the four bytes 7, 0, 0, 0.
abbrev pub seven_block : List ℕ
seven_block = 4 ∷ 0 ∷ 0 ∷ 0 ∷ 7 ∷ 0 ∷ 0 ∷ 0 ∷ zeros 60

abbrev pub seven : Pickle
seven = record {
  header = some seven_block;
  header_size = 4;
  capacity_after_header = 64;
  write_offset = 4;
}

pub seven-IsOwned : IsOwned seven seven_block
unfolding le_value
seven-IsOwned = record {
  header_eq = refl;
  header_aligned = omega arith;
  header_whole = omega arith;
  header_bound = omega arith;
  capacity_aligned = omega arith;
  capacity_bound = omega arith;
  filled = refl;
  within = omega arith;
  offset_aligned = omega arith;
  in_sync = refl;
}

pub seven-IsReadable : IsReadable seven seven_block
unfolding le_value
seven-IsReadable = record {
  header_eq = refl;
  header_whole = omega arith;
  header_bound = omega arith;
  payload_bound = omega arith;
  inside = omega arith;
}

-- The same bytes as a receiver has them, with one byte of the next pickle behind.
abbrev pub seven_wire : List ℕ
seven_wire = 4 ∷ 0 ∷ 0 ∷ 0 ∷ 7 ∷ 0 ∷ 0 ∷ 0 ∷ 9 ∷ []

pub seven_wire-IsByte : All IsByte seven_wire
seven_wire-IsByte = mod-IsByte seven_wire
