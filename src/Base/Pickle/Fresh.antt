-- ===== src/Base/Pickle/Fresh.antt =====
-- The constructors of an empty pickle.
use lib_hh_old.Common.{
  ℕ, ◌+◌, ◌%◌, ◌/◌, ◌*◌, ◌^◌, ◌≤◌, ◌≡◌, refl, ap, ◌∙◌, Option, some, none, List, [], arith, length,
}
use lib_hh_old.Common.Slices.{slice, splice, store_lem, length-splice, slice-splice_self}
use lib_hh_old.Common.Bytes.{le_bytes, le_value, le_value-le_bytes, length-le_bytes}
use lib_hh_old.Base.Bits.{align}
use lib_hh_old.Base.Bits.Alignment.{align_unit, align_four}
use lib_hh_old.Base.Pickle.{
  Pickle, Allocator, resize, get_total_allocated_size, new_with_size, new_pickle,
  new_pickle_with_header,
}
use lib_hh_old.Base.Pickle.Layout.{IsOwned}

-- A new pickle that is well formed and has written nothing.
abbrev pub Fresh : ℕ → Option Pickle → Type 0
Fresh header_size result =
    (p : Pickle) × (block : List ℕ) × (result ≡ some p)
    × IsOwned p block
    × (p.header_size ≡ header_size)
    × (p.write_offset ≡ 0)

module _ (alloc : Allocator) (header_size : ℕ) (aligned : header_size % 4 ≡ 0)
    (whole : 4 ≤ header_size) (small : header_size ≤ 2 ^ 20) where
  total-resize :
      get_total_allocated_size (record {
        header = none;
        header_size = header_size;
        capacity_after_header = align 64 64;
        write_offset = 0;
      })
      ≡ header_size + 64
  unfolding get_total_allocated_size
  total-resize = rw (align_unit 64 (omega arith)) (ground arith)

  abbrev start : List ℕ
  start = alloc.realloc [] (header_size + 64)

  size_fits : 0 + length (le_bytes 4 0) ≤ length start
  size_fits = omega (arith, length-le_bytes 4 0, alloc.length-realloc [] (header_size + 64))

  abbrev fresh_block : List ℕ
  fresh_block = splice start 0 (le_bytes 4 0)

  abbrev fresh : Pickle
  fresh = record {
    header = some fresh_block;
    header_size = header_size;
    capacity_after_header = 64;
    write_offset = 0;
  }

  new_with_size-eq : new_with_size alloc header_size ≡ some fresh
  unfolding new_with_size resize
  new_with_size-eq =
      rw (total-resize, align_unit 64 (omega arith), store_lem start 0 (le_bytes 4 0) size_fits)
        refl

  fresh-IsOwned : IsOwned fresh fresh_block
  fresh-IsOwned = record {
    header_eq = refl;
    header_aligned = aligned;
    header_whole = whole;
    header_bound = small;
    capacity_aligned = omega arith;
    capacity_bound = omega arith;
    filled =
        length-splice start 0 (le_bytes 4 0) size_fits ∙ alloc.length-realloc [] (header_size + 64);
    within = omega arith;
    offset_aligned = omega arith;
    in_sync =
        ap (λ n. le_value (slice 0 n fresh_block)) four
        ∙ ap le_value (slice-splice_self start 0 (le_bytes 4 0) size_fits)
        ∙ le_value-le_bytes 4 0 (omega arith);
  }
    where
      four : 4 ≡ length (le_bytes 4 0)
      four = omega (arith, length-le_bytes 4 0)

  pub new_with_size-Fresh : Fresh header_size (new_with_size alloc header_size)
  new_with_size-Fresh = (fresh, fresh_block, new_with_size-eq, fresh-IsOwned, refl, refl)

-- Pickle() and Pickle(header_size), for a header size from 1 to 2^20, give a well-formed pickle with
-- nothing written; the header size is 4, or the one asked for rounded up to a multiple of four.
pub new_pickle-Fresh :
    (alloc : Allocator) (n : ℕ)
    → 1 ≤ n
    → n ≤ 2 ^ 20
    → Fresh 4 (new_pickle alloc) × Fresh ((n + 3) / 4 * 4) (new_pickle_with_header alloc n)
unfolding new_pickle new_pickle_with_header
new_pickle-Fresh alloc n lo hi = (
  new_with_size-Fresh alloc 4 (omega arith) (omega arith) (omega arith),
  rw (align_four n (omega arith))
      (new_with_size-Fresh alloc ((n + 3) / 4 * 4) (omega arith) (omega arith) (omega arith)),
)
