-- ===== src/Ipc/Message/Fields.antt =====
-- The header fields of a message that owns its block: what a write to one does to all of them.
use lib_hh_old.Common.{
  ℕ, ◌+◌, ◌*◌, ◌%◌, ◌≤◌, ◌<◌, ◌^◌, ◌≡◌, refl, sym, ap, ◌∙◌, ◌↔◌, ◌≢◌, true, not, some, List, arith,
  ◌==◌, length, take,
}
use lib_hh_old.Common.Slices.{
  slice, splice, store_lem, load_lem, length-splice, slice-splice_self, slice-splice_before,
  drop-splice_after,
}
use lib_hh_old.Common.Bytes.{le_bytes, le_value, length-le_bytes, le_value-le_bytes}
use lib_hh_old.Common.Int.{ℤ, pos, IsInt, size_mod, from_int, to_int-from_int, from_int-lt}
use lib_hh_old.Base.Pickle.{Allocator}
use lib_hh_old.Base.Pickle.Layout.{IsOwned}
use lib_hh_old.Base.Pickle.Fresh.{new_pickle-Fresh}
use lib_hh_old.Ipc.Message.{
  Message, header_field, set_header_field, set_header_values, new_message, routing_id, message_type,
  flags, is_reply,
}

-- The four bytes of the header at an offset.
abbrev pub field : ℕ → List ℕ → ℕ
field at block = le_value (slice at 4 block)

-- A message with a 16-byte header that owns its block.
pub record IsWritable (m : Message) (block : List ℕ) : Type 0 where
  pub owned : IsOwned m.pickle block
  pub header_eq : m.pickle.header_size ≡ 16

pub header_field-IsWritable :
    (at : ℕ) (m : Message) (block : List ℕ)
    → IsWritable m block
    → at + 4 ≤ 16
    → header_field at m ≡ some (field at block)
unfolding header_field
header_field-IsWritable at m block ok h =
    rw (ok.owned.header_eq, load_lem block at 4 (omega (arith, ok.owned.filled, ok.header_eq))) refl

-- A write to a field behind the payload size succeeds, and changes that field alone.
pub record FieldSet (at value : ℕ) (m : Message) (block : List ℕ) (m' : Message) (block' : List ℕ)
    : Type 0 where
  pub writable : IsWritable m' block'
  pub same_offset : m'.pickle.write_offset ≡ m.pickle.write_offset
  pub this_field : field at block' ≡ value
  pub lower_fields : (i : ℕ) → i + 4 ≤ at → field i block' ≡ field i block
  pub upper_fields : (i : ℕ) → at + 4 ≤ i → field i block' ≡ field i block

pub set_header_field-FieldSet :
    (at value : ℕ) (m : Message) (block : List ℕ)
    → IsWritable m block
    → 4 ≤ at
    → at + 4 ≤ 16
    → value < size_mod
    → (m' : Message) × (block' : List ℕ) × (set_header_field at value m ≡ some m')
      × FieldSet at value m block m' block'
unfolding set_header_field
set_header_field-FieldSet at value m block ok lo hi small = (
  record m { pickle = record (m.pickle) { header = some block' } },
  block',
  rw (own.header_eq, store_lem block at bytes fits) refl,
  record {
    writable = record { owned = owned'; header_eq = ok.header_eq };
    same_offset = refl;
    this_field =
        ap (λ n. le_value (slice at n block')) (sym four)
        ∙ ap le_value (slice-splice_self block at bytes fits)
        ∙ le_value-le_bytes 4 value small;
    lower_fields = λ i h. ap le_value (slice-splice_before block at bytes fits i 4 h);
    upper_fields = λ i h.
        ap (λ t. le_value (take 4 t))
          (drop-splice_after block at bytes fits i (omega (arith, four)));
  },
)
  where
    own : IsOwned m.pickle block
    own = ok.owned

    bytes : List ℕ
    bytes = le_bytes 4 value

    four : length (le_bytes 4 value) ≡ 4
    four = length-le_bytes 4 value

    block' : List ℕ
    block' = splice block at (le_bytes 4 value)

    fits : at + length (le_bytes 4 value) ≤ length block
    fits = omega (arith, four, ok.owned.filled, ok.header_eq)

    owned' :
        IsOwned
          (record (m.pickle) { header = some (splice block at (le_bytes 4 value)) })
          (splice block at (le_bytes 4 value))
    owned' = record {
      header_eq = refl;
      header_aligned = ok.owned.header_aligned;
      header_whole = ok.owned.header_whole;
      header_bound = ok.owned.header_bound;
      capacity_aligned = ok.owned.capacity_aligned;
      capacity_bound = ok.owned.capacity_bound;
      filled = length-splice block at (le_bytes 4 value) fits ∙ ok.owned.filled;
      within = ok.owned.within;
      offset_aligned = ok.owned.offset_aligned;
      in_sync =
          ap le_value (slice-splice_before block at (le_bytes 4 value) fits 0 4 (omega arith))
          ∙ ok.owned.in_sync;
    }

-- `SetHeaderValues` sets the three fields and nothing else of the header.
pub record HeaderSet (routing : ℤ) (type new_flags : ℕ) (m : Message) (block : List ℕ)
    : Type 0 where
  pub writable : IsWritable m block
  pub routing_eq : routing_id m ≡ some routing
  pub type_eq : message_type m ≡ some type
  pub flags_eq : flags m ≡ some new_flags

-- SetHeaderValues on a message that owns its block never faults, keeps it well formed and its write
-- offset as it was, and sets the routing id, type and flags to the given values, which fit their
-- types.
pub set_header_values-HeaderSet :
    (routing : ℤ) (type new_flags : ℕ) (m : Message) (block : List ℕ)
    → IsWritable m block
    → IsInt routing
    → type < size_mod
    → new_flags < size_mod
    → (m' : Message) × (block' : List ℕ) × (set_header_values routing type new_flags m ≡ some m')
      × (m'.pickle.write_offset ≡ m.pickle.write_offset)
      × HeaderSet routing type new_flags m' block'
unfolding set_header_values routing_id message_type flags
set_header_values-HeaderSet routing type new_flags m block ok hr ht hf =
    let (m1, b1, run1, set1) =
      set_header_field-FieldSet 4 (from_int routing) m block ok (omega arith) (omega arith)
        (from_int-lt routing) in
    let (m2, b2, run2, set2) =
      set_header_field-FieldSet 8 type m1 b1 set1.writable (omega arith) (omega arith) ht in
    let (m3, b3, run3, set3) =
      set_header_field-FieldSet 12 new_flags m2 b2 set2.writable (omega arith) (omega arith) hf in
    let routing_kept : field 4 b3 ≡ from_int routing =
      set3.lower_fields 4 (omega arith) ∙ set2.lower_fields 4 (omega arith) ∙ set1.this_field in
    (
      m3,
      b3,
      rw (run1, run2) run3,
      set3.same_offset ∙ set2.same_offset ∙ set1.same_offset,
      record {
        writable = set3.writable;
        routing_eq =
            rw (header_field-IsWritable 4 m3 b3 set3.writable (omega arith), routing_kept)
              (ap some (to_int-from_int routing hr));
        type_eq =
            header_field-IsWritable 8 m3 b3 set3.writable (omega arith)
            ∙ ap some (set3.lower_fields 8 (omega arith) ∙ set2.this_field);
        flags_eq =
            header_field-IsWritable 12 m3 b3 set3.writable (omega arith) ∙ ap some set3.this_field;
      },
    )

-- A new message with an int routing id and a 32-bit type is well formed and empty, and has that
-- routing id and type and no flags.
pub new_message-HeaderSet :
    (alloc : Allocator) (routing : ℤ) (type : ℕ)
    → IsInt routing
    → type < size_mod
    → (m : Message) × (block : List ℕ) × (new_message alloc routing type ≡ some m)
      × (m.pickle.write_offset ≡ 0)
      × HeaderSet routing type 0 m block
unfolding new_message
new_message-HeaderSet alloc routing type hr ht =
    let (p, block, made, own, header, offset) =
      (new_pickle-Fresh alloc 16 (omega arith) (omega arith)).1 in
    let (m, block', run, same, done) =
      set_header_values-HeaderSet routing type 0 (record { pickle = p; sender_pid = pos 0 }) block
        (record { owned = own; header_eq = header }) hr ht (omega arith) in
    (m, block', rw made run, same ∙ offset, done)

-- Where flags() gives a value, is_reply, which multiplies the flags by REPLY_BIT, answers true
-- exactly when the lower 31 bits of the value are not all zero.
pub is_reply_iff :
    (m : Message) (value : ℕ)
    → flags m ≡ some value
    → (is_reply m ≡ some true) ↔ (value % 2 ^ 31 ≢ 0)
unfolding is_reply
is_reply_iff m value e = rw e (there, back)
  where
    there : some (not (value * 2 % size_mod == 0)) ≡ some true → value % 2 ^ 31 ≢ 0
    there h z = ground arith

    back : value % 2 ^ 31 ≢ 0 → some (not (value * 2 % size_mod == 0)) ≡ some true
    back n = ground arith
