-- ===== src/Base/Pickle/Copy.antt =====
-- The copy constructor and the assignment: what a copy holds.
use lib_hh_old.Common.{
  ℕ, ◌+◌, ◌*◌, ◌/◌, ◌^◌, ◌≤◌, ◌≡◌, refl, sym, ap, ◌∙◌, Option, some, none, List, arith, ◌>>=◌,
  length, take, take-take,
}
use lib_hh_old.Common.Slices.{
  slice, splice, load_lem, store_lem, length-slice, length-splice, slice-splice_self,
}
use lib_hh_old.Common.Bytes.{le_value}
use lib_hh_old.Common.Int.{add_size}
use lib_hh_old.Base.Bits.{align}
use lib_hh_old.Base.Bits.Alignment.{align_unit}
use lib_hh_old.Base.Pickle.{
  Pickle, Allocator, block_of, stored_payload_size, contents, size, resize,
  get_total_allocated_size, copy_from, copy, assign, assign_start,
}

-- A pickle with a header whose sizes lie inside its block: one that was written, or a view that was
-- accepted.
pub record IsReadable (p : Pickle) (block : List ℕ) : Type 0 where
  pub header_eq : p.header ≡ some block
  pub header_whole : 4 ≤ p.header_size
  pub header_bound : p.header_size ≤ 2 ^ 20
  pub payload_bound : stored_payload_size block ≤ 2 ^ 30
  pub inside : p.header_size + stored_payload_size block ≤ length block

-- `q` owns a block that starts with the bytes of `p`; its capacity is the payload, rounded up.
pub record Copied (p : Pickle) (block : List ℕ) (q : Pickle) (block' : List ℕ) : Type 0 where
  pub header_eq : q.header ≡ some block'
  pub same_header_size : q.header_size ≡ p.header_size
  pub capacity_eq : q.capacity_after_header ≡ (stored_payload_size block + 63) / 64 * 64
  pub filled : length block' ≡ q.header_size + q.capacity_after_header
  pub same_payload_size : stored_payload_size block' ≡ stored_payload_size block
  pub same_contents : contents q ≡ contents p

pub contents-IsReadable :
    (p : Pickle) (block : List ℕ)
    → IsReadable p block
    → contents p ≡ some (take (p.header_size + stored_payload_size block) block)
unfolding contents size
contents-IsReadable p block readable =
    let total : add_size p.header_size (stored_payload_size block)
        ≡ p.header_size + stored_payload_size block =
      omega (arith, readable.header_bound, readable.payload_bound) in
    rw (readable.header_eq, total)
      (load_lem block 0 (p.header_size + stored_payload_size block)
        (omega (arith, readable.inside)))

module _ (alloc : Allocator) (other : Pickle) (other_block : List ℕ)
    (readable : IsReadable other other_block) where
  abbrev stored : ℕ
  stored = stored_payload_size other_block

  abbrev bytes : List ℕ
  bytes = slice 0 (other.header_size + stored) other_block

  inside_zero : 0 + (other.header_size + stored) ≤ length other_block
  inside_zero = omega (arith, readable.inside)

  contents-other : contents other ≡ some bytes
  contents-other = contents-IsReadable other other_block readable

  length-bytes : length bytes ≡ other.header_size + stored
  length-bytes = length-slice 0 (other.header_size + stored) other_block inside_zero

  module _ (p : Pickle) (same : p.header_size ≡ other.header_size) where
    rounded : align stored 64 ≡ (stored + 63) / 64 * 64
    rounded = align_unit stored (omega (arith, readable.payload_bound))

    total-resize :
        get_total_allocated_size (record p { capacity_after_header = align stored 64 })
        ≡ p.header_size + align stored 64
    unfolding get_total_allocated_size
    total-resize = ground (arith, rounded, same, readable.header_bound, readable.payload_bound)

    abbrev target : List ℕ
    target = alloc.realloc (block_of p.header) (p.header_size + align stored 64)

    fits : 0 + length bytes ≤ length target
    fits = omega (
      arith,
      length-bytes,
      rounded,
      same,
      alloc.length-realloc (block_of p.header) (p.header_size + align stored 64),
    )

    abbrev copied_block : List ℕ
    copied_block = splice target 0 bytes

    abbrev copied : Pickle
    copied = record p { header = some copied_block; capacity_after_header = align stored 64 }

    copy_from-eq : copy_from alloc p other_block ≡ some copied
    unfolding copy_from resize
    copy_from-eq =
        let sum : add_size p.header_size stored ≡ other.header_size + stored =
          omega (arith, same, readable.header_bound, readable.payload_bound) in
        rw
          (
            total-resize,
            sum,
            load_lem other_block 0 (other.header_size + stored) inside_zero,
            store_lem target 0 bytes fits,
          )
          refl

    -- The copy starts with the bytes.
    prefix : take (other.header_size + stored) copied_block ≡ bytes
    prefix =
        ap (λ n. slice 0 n copied_block) (sym length-bytes) ∙ slice-splice_self target 0 bytes fits

    same_size : stored_payload_size copied_block ≡ stored
    same_size = ap le_value (
        sym (
          take-take 4 (other.header_size + stored) copied_block
            (omega (arith, readable.header_whole)))
        ∙ ap (take 4) prefix
        ∙ take-take 4 (other.header_size + stored) other_block
            (omega (arith, readable.header_whole)))

    length-copied : length copied_block ≡ p.header_size + align stored 64
    length-copied =
        length-splice target 0 bytes fits
        ∙ alloc.length-realloc (block_of p.header) (p.header_size + align stored 64)

    contents-copied : (wo : ℕ) → contents (record copied { write_offset = wo }) ≡ contents other
    unfolding contents size
    contents-copied wo =
        let total : add_size p.header_size stored ≡ other.header_size + stored =
          omega (arith, same, readable.header_bound, readable.payload_bound) in
        rw
          (
            same_size,
            total,
            load_lem copied_block 0 (other.header_size + stored)
                (omega (arith, length-copied, rounded, same)),
          )
          (ap some prefix ∙ sym contents-other)

    copy_from-Copied :
        (wo : ℕ) → Copied other other_block (record copied { write_offset = wo }) copied_block
    copy_from-Copied wo = record {
      header_eq = refl;
      same_header_size = same;
      capacity_eq = rounded;
      filled = length-copied;
      same_payload_size = same_size;
      same_contents = contents-copied wo;
    }

-- Copying a readable pickle, a view included, never faults and gives a pickle that owns its block,
-- of the same header size and payload and with a capacity that is the payload rounded up to 64, and
-- shows the same bytes; the write offset is taken over.
pub copy-Copied :
    (alloc : Allocator) (other : Pickle) (block : List ℕ)
    → IsReadable other block
    → (q : Pickle) × (block' : List ℕ) × (copy alloc other ≡ some q)
      × Copied other block q block'
      × (q.write_offset ≡ other.write_offset)
unfolding copy
copy-Copied alloc other block readable =
    let start : Pickle = record {
      header = none;
      header_size = other.header_size;
      capacity_after_header = 0;
      write_offset = other.write_offset;
    } in
    (
      copied alloc other block readable start refl,
      copied_block alloc other block readable start refl,
      rw (readable.header_eq) (copy_from-eq alloc other block readable start refl),
      copy_from-Copied alloc other block readable start refl other.write_offset,
      refl,
    )

assign_start-header_size :
    (p other : Pickle) → (assign_start p other).header_size ≡ other.header_size
unfolding assign_start
assign_start-header_size p other = ground arith

-- Assigning a readable pickle to any other pickle gives what copying it gives, whatever the target
-- held: its own block, a view or nothing.
pub assign-Copied :
    (alloc : Allocator) (p other : Pickle) (block : List ℕ)
    → IsReadable other block
    → (q : Pickle) × (block' : List ℕ) × (assign alloc p other ≡ some q)
      × Copied other block q block'
      × (q.write_offset ≡ other.write_offset)
unfolding assign
assign-Copied alloc p other block readable =
    let start : Pickle = assign_start p other in
    let same = assign_start-header_size p other in
    (
      record (copied alloc other block readable start same) { write_offset = other.write_offset },
      copied_block alloc other block readable start same,
      ap (λ h. ◌>>=◌ {A = List ℕ} h (λ b. ◌>>=◌ {A = Pickle} (copy_from alloc start b) finish))
            readable.header_eq
          ∙ ap (λ r. ◌>>=◌ {A = Pickle} r finish)
              (copy_from-eq alloc other block readable start same),
      copy_from-Copied alloc other block readable start same other.write_offset,
      refl,
    )
  where
    finish : Pickle → Option Pickle
    finish q = some (record q { write_offset = other.write_offset })
