-- ===== src/Base/Pickle/Write.antt =====
-- What `WriteBytes` does to a pickle that owns its block, and the writers built on it.
use lib_hh_old.Common.{
  ℕ, ◌+◌, ◌-◌, ◌^◌, ◌≤◌, ◌≡◌, refl, ap, ap₂, ◌∙◌, Option, some, List, ◌++◌, Bool, true, arith,
  append_assoc, length, length-append,
}
use lib_hh_old.Common.Slices.{slice, store_lem, slice-of_take, length-slice}
use lib_hh_old.Common.Bytes.{le_value, le_value-le_bytes}
use lib_hh_old.Base.Pickle.{
  Pickle, Allocator, claim_uninitialized_bytes_internal, write_bytes_common, write_bytes,
}
use lib_hh_old.Base.Pickle.Layout.{
  IsOwned, written, header_fields, padding, padded, after_write, bytes_fit, length-after_write,
  size-after_write, slice-after_write_before, payload-after_write,
}
use lib_hh_old.Base.Pickle.Claim.{Grown, claim-Grown, finish_claim_lem}

-- A write that succeeded: the new pickle is well formed, its payload is the old one and what was
-- added, and the rest of its header is the old one's.
pub record Appended (p : Pickle) (block : List ℕ) (added : List ℕ) (q : Pickle) (block' : List ℕ)
    : Type 0 where
  pub owned : IsOwned q block'
  pub same_header_size : q.header_size ≡ p.header_size
  pub same_fields : header_fields q block' ≡ header_fields p block
  pub appended : written q block' ≡ written p block ++ added

-- The pickle and the block after the bytes have been copied to the claimed place.
module _ (p q : Pickle) (block block' bytes : List ℕ) (new_size : ℕ) (own : IsOwned p block)
    (small : p.write_offset + length bytes + 4 ≤ 2 ^ 30)
    (sum : new_size ≡ p.write_offset + (length bytes + padding (length bytes)))
    (grown : Grown p q block block' new_size) where
  whole : 4 ≤ q.header_size
  whole = omega (arith, grown.same_header, own.header_whole)

  room : q.header_size + q.write_offset + length bytes + padding (length bytes) ≤ length block'
  room = omega (arith, grown.filled, grown.same_offset, grown.room)

  abbrev final_block : List ℕ
  final_block =
      after_write block' q.header_size q.write_offset new_size bytes (padding (length bytes)) whole
        room

  abbrev final : Pickle
  final = record q { header = some final_block; write_offset = new_size }

  final-IsOwned : IsOwned final final_block
  final-IsOwned = record {
    header_eq = refl;
    header_aligned = omega (arith, own.header_aligned, grown.same_header);
    header_whole = whole;
    header_bound = omega (arith, own.header_bound, grown.same_header);
    capacity_aligned = grown.capacity_aligned;
    capacity_bound = grown.capacity_bound;
    filled =
        length-after_write block' q.header_size q.write_offset new_size bytes _ whole room
        ∙ grown.filled;
    within = grown.room;
    offset_aligned = omega (arith, own.offset_aligned);
    in_sync =
        ap le_value
          (size-after_write block' q.header_size q.write_offset new_size bytes _ whole room)
        ∙ le_value-le_bytes 4 new_size (omega arith);
  }

  -- A range of the old block behind the size and before the write offset.
  slice-final :
      (i n : ℕ)
      → 4 ≤ i
      → i + n ≤ p.header_size + p.write_offset
      → slice i n final_block ≡ slice i n block
  slice-final i n lo hi =
      slice-after_write_before block' q.header_size q.write_offset new_size bytes _ whole room i n
        lo (omega (arith, grown.same_header, grown.same_offset))
      ∙ slice-of_take i n _ block' block hi grown.kept

  final-Appended : Appended p block (padded bytes) final final_block
  final-Appended = record {
    owned = final-IsOwned;
    same_header_size = grown.same_header;
    same_fields =
        ap (λ n. slice 4 (n - 4) final_block) grown.same_header
        ∙ slice-final 4 (p.header_size - 4) (omega arith) (omega (arith, own.header_whole));
    appended =
        ap (λ n. slice q.header_size n final_block) total
        ∙ payload-after_write block' q.header_size q.write_offset new_size bytes _ whole room
        ∙ ap (λ t. t ++ padded bytes) old;
  }
    where
      total : new_size ≡ q.write_offset + (length bytes + padding (length bytes))
      total = omega (arith, grown.same_offset)

      old : slice q.header_size q.write_offset block' ≡ written p block
      old =
          ap₂ (λ i n. slice i n block') grown.same_header grown.same_offset
          ∙ slice-of_take p.header_size p.write_offset _ block' block (omega arith) grown.kept

module _ (alloc : Allocator) where
  pub write_bytes_common-Appended :
      (p : Pickle) (block bytes : List ℕ)
      → IsOwned p block
      → p.write_offset + length bytes + 4 ≤ 2 ^ 30
      → (q : Pickle) × (block' : List ℕ) × (write_bytes_common alloc p bytes ≡ some q)
        × Appended p block (padded bytes) q block'
  unfolding write_bytes_common
  write_bytes_common-Appended p block bytes own h =
      let (q, block', claimed, grown) = claim-Grown alloc p block (length bytes) own h in
      let pad : ℕ = padding (length bytes) in
      let new_size : ℕ = p.write_offset + (length bytes + pad) in
      let whole = whole p q block block' bytes new_size own h refl grown in
      let room = room p q block block' bytes new_size own h refl grown in
      let claim : claim_uninitialized_bytes_internal alloc p (length bytes) ≡ some (_, _) =
        claimed
        ∙ finish_claim_lem q block' bytes pad new_size grown.header_eq (omega arith) whole room in
      let stored =
        store_lem _ (q.header_size + q.write_offset) bytes
          (bytes_fit block' q.header_size q.write_offset new_size bytes pad whole room) in
      (
        final p q block block' bytes new_size own h refl grown,
        final_block p q block block' bytes new_size own h refl grown,
        rw (claim, stored) refl,
        final-Appended p q block block' bytes new_size own h refl grown,
      )

-- The bytes that a pickle has written are as many as its offset says.
pub length-written :
    (p : Pickle) (block : List ℕ) → IsOwned p block → length (written p block) ≡ p.write_offset
length-written p block own =
    length-slice p.header_size p.write_offset block (omega (arith, own.filled, own.within))

pub offset-Appended :
    (p q : Pickle) (block block' added : List ℕ)
    → IsOwned p block
    → Appended p block added q block'
    → q.write_offset ≡ p.write_offset + length added
offset-Appended p q block block' added own done = omega (
  arith,
  length-written q block' done.owned,
  length-written p block own,
  ap length done.appended,
  length-append (written p block) added,
)

-- One write after another.
pub trans-Appended :
    (p q r : Pickle) (block block' block'' xs ys : List ℕ)
    → Appended p block xs q block'
    → Appended q block' ys r block''
    → Appended p block (xs ++ ys) r block''
trans-Appended p q r block block' block'' xs ys first second = record {
  owned = second.owned;
  same_header_size = second.same_header_size ∙ first.same_header_size;
  same_fields = second.same_fields ∙ first.same_fields;
  appended =
      second.appended ∙ ap (λ t. t ++ ys) first.appended ∙ append_assoc (written p block) xs ys;
}

-- A writer that succeeds and adds `added`.
abbrev pub Writes : Pickle → List ℕ → List ℕ → Option (Pickle × Bool) → Type 0
Writes p block added result =
    (q : Pickle) × (block' : List ℕ) × (result ≡ some (q, true)) × Appended p block added q block'

-- WriteBytes on a well-formed pickle of less than 1 GB never faults, keeps it well formed, adds the
-- bytes and their zero padding to the payload and leaves the rest of the header alone, whether or
-- not the block has to grow.
pub write_bytes-Writes :
    (alloc : Allocator) (p : Pickle) (block bytes : List ℕ)
    → IsOwned p block
    → p.write_offset + length bytes + 4 ≤ 2 ^ 30
    → Writes p block (padded bytes) (write_bytes alloc p bytes)
unfolding write_bytes
write_bytes-Writes alloc p block bytes own h =
    let (q, block', e, done) = write_bytes_common-Appended alloc p block bytes own h in
    (q, block', rw e, done)
