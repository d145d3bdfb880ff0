-- ===== src/Base/Pickle/Claim.antt =====
-- `ClaimUninitializedBytesInternal` on a pickle that owns its block: where it grows, and what the
-- block is afterwards.
use lib_hh_old.Common.{
  ℕ, ◌+◌, ◌*◌, ◌/◌, ◌%◌, ◌^◌, ◌≤◌, ◌<◌, ◌≡◌, refl, ap, ◌∙◌, some, List, inl, inr, arith, Bool-cases,
  ltb→lt, ltb, max, length, take,
}
use lib_hh_old.Common.Slices.{splice, store, store_lem}
use lib_hh_old.Common.Bytes.{le_bytes, zeros, length-zeros}
use lib_hh_old.Common.Int.{size_mod, size_max, add_size, sub_size}
use lib_hh_old.Base.Bits.{align}
use lib_hh_old.Base.Bits.Alignment.{align_four, align_unit, align_page}
use lib_hh_old.Base.Pickle.{
  Pickle, Allocator, finish_claim, grown_capacity, resize, get_total_allocated_size,
  claim_uninitialized_bytes_internal, block_of,
}
use lib_hh_old.Base.Pickle.Layout.{IsOwned, padding, size_fits, after_claim}

-- What a claim of `room` bytes needs of the block that it writes to: the old block with the written
-- part unchanged, in a capacity that holds the claim.
pub record Grown (p q : Pickle) (block block' : List ℕ) (new_size : ℕ) : Type 0 where
  pub header_eq : q.header ≡ some block'
  pub same_header : q.header_size ≡ p.header_size
  pub same_offset : q.write_offset ≡ p.write_offset
  pub capacity_aligned : q.capacity_after_header % 64 ≡ 0
  pub capacity_bound : q.header_size + q.capacity_after_header < size_max
  pub filled : length block' ≡ q.header_size + q.capacity_after_header
  pub room : new_size ≤ q.capacity_after_header
  pub kept :
      take (p.header_size + p.write_offset) block' ≡ take (p.header_size + p.write_offset) block

-- The growth rule asks for at most twice the capacity, rounded up to pages.
grown_capacity-le : (c : ℕ) → c ≤ 2 ^ 30 → grown_capacity c ≤ 2 ^ 31 + 4096
unfolding grown_capacity
grown_capacity-le c h = ground (arith, align_page (c * 2 % size_mod) (omega arith))

-- The capacity after `Resize`, and the length of the block.
module _ (p : Pickle) (capacity : ℕ) (bound : capacity ≤ 2 ^ 31 + 4096)
    (small : p.header_size ≤ 2 ^ 20) where
  capacity-resize : align capacity 64 ≡ (capacity + 63) / 64 * 64
  capacity-resize = align_unit capacity (omega arith)

  total-resize :
      get_total_allocated_size (record p { capacity_after_header = align capacity 64 })
      ≡ p.header_size + align capacity 64
  unfolding get_total_allocated_size
  total-resize = ground (arith, capacity-resize)

resize-Grown :
    (alloc : Allocator) (p : Pickle) (block : List ℕ) (capacity new_size : ℕ)
    → IsOwned p block
    → capacity ≤ 2 ^ 31 + 4096
    → new_size ≤ capacity
    → p.capacity_after_header ≤ new_size
    → (block' : List ℕ) × Grown p (resize alloc p capacity) block block' new_size
unfolding resize
resize-Grown alloc p block capacity new_size own bound fits grows = (
  alloc.realloc block (p.header_size + align capacity 64),
  record {
    header_eq =
        ap
          (λ b. some (
            alloc.realloc (block_of b)
              (get_total_allocated_size (record p { capacity_after_header = align capacity 64 }))))
          own.header_eq
        ∙ ap (λ n. some (alloc.realloc block n)) (total-resize p capacity bound own.header_bound);
    same_header = refl;
    same_offset = refl;
    capacity_aligned = omega (arith, rounded);
    capacity_bound = omega (arith, rounded, own.header_bound);
    filled = alloc.length-realloc block (p.header_size + align capacity 64);
    room = omega (arith, rounded);
    kept = alloc.take-realloc block _ _ (omega arith) (omega (arith, rounded));
  },
)
  where
    rounded : align capacity 64 ≡ (capacity + 63) / 64 * 64
    rounded = capacity-resize p capacity bound own.header_bound

keep-Grown :
    (p : Pickle) (block : List ℕ) (new_size : ℕ)
    → IsOwned p block
    → new_size ≤ p.capacity_after_header
    → Grown p p block block new_size
keep-Grown p block new_size own fits = record {
  header_eq = own.header_eq;
  same_header = refl;
  same_offset = refl;
  capacity_aligned = own.capacity_aligned;
  capacity_bound = own.capacity_bound;
  filled = own.filled;
  room = fits;
  kept = refl;
}

-- `finish_claim` inside its block.
module _ (q : Pickle) (block : List ℕ) (bytes : List ℕ) (pad new_size : ℕ)
    (e : q.header ≡ some block) (small : length bytes + pad < 2 ^ 31) (whole : 4 ≤ q.header_size)
    (room : q.header_size + q.write_offset + length bytes + pad ≤ length block) where
  abbrev write_at : ℕ
  write_at = q.header_size + q.write_offset

  abbrev claimed_block : List ℕ
  claimed_block = after_claim block q.header_size q.write_offset new_size bytes pad whole room

  zero_count : sub_size (length bytes + pad) (length bytes) ≡ pad
  zero_count = omega arith

  pad_stored :
      store block (write_at + length bytes) (zeros pad)
      ≡ some (splice block (write_at + length bytes) (zeros pad))
  pad_stored = store_lem block _ _ (omega (arith, length-zeros pad))

  size_stored :
      store (splice block (write_at + length bytes) (zeros pad)) 0 (le_bytes 4 new_size)
      ≡ some claimed_block
  size_stored =
      store_lem _ 0 (le_bytes 4 new_size)
        (size_fits block q.header_size q.write_offset new_size bytes pad whole room)

  pub finish_claim_lem :
      finish_claim q (length bytes) (length bytes + pad) new_size
      ≡ some (record q { header = some claimed_block; write_offset = new_size }, write_at)
  unfolding finish_claim
  finish_claim_lem = rw (e, zero_count, pad_stored, size_stored) refl

-- A claim is `finish_claim` at a block that holds it, grown or not.
pub claim-Grown :
    (alloc : Allocator) (p : Pickle) (block : List ℕ) (n : ℕ)
    → IsOwned p block
    → p.write_offset + n + 4 ≤ 2 ^ 30
    → (q : Pickle) × (block' : List ℕ) × (claim_uninitialized_bytes_internal alloc p n
        ≡ finish_claim q n (n + padding n) (p.write_offset + (n + padding n)))
      × Grown p q block block' (p.write_offset + (n + padding n))
unfolding claim_uninitialized_bytes_internal
claim-Grown alloc p block n own h = elim (Bool-cases (ltb p.capacity_after_header new_size)) [
  | inl less ↦
      let over : p.capacity_after_header < new_size = ltb→lt _ _ less in
      let request : ℕ = max (grown_capacity p.capacity_after_header) new_size in
      let (block', grown) =
        resize-Grown alloc p block request new_size own
          (omega (arith, grown_capacity-le p.capacity_after_header (omega arith))) (omega arith)
          (omega arith) in
      (resize alloc p request, block', rw (rounded, no_wrap, less), grown)
  | inr fits ↦
      (p, block, rw (rounded, no_wrap, fits), keep-Grown p block new_size own (ground arith))
]
  where
    rounded : align n 4 ≡ n + padding n
    rounded = align_four n (omega arith) ∙ omega arith

    new_size : ℕ
    new_size = p.write_offset + (n + padding n)

    no_wrap : add_size p.write_offset (n + padding n) ≡ p.write_offset + (n + padding n)
    no_wrap = omega arith
