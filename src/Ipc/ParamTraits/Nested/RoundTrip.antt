-- ===== src/Ipc/ParamTraits/Nested/RoundTrip.antt =====
-- A message that is written as a parameter, and read back.
use mathlib.Core.Path.{subst}
use lib_hh_old.Common.{
  ℕ, ◌+◌, ◌≤◌, ◌<◌, ◌^◌, ◌≡◌, refl, sym, ap, ◌∙◌, some, List, [], ◌++◌, arith, append-nil, ◌>>=◌,
  length, length-drop, lt→ltb, take-length, drop,
}
use lib_hh_old.Common.Slices.{slice, load, load_lem}
use lib_hh_old.Common.Bytes.{zeros}
use lib_hh_old.Common.Int.{ℤ, pos, IsInt, size_mod, to_int, from_int, to_int-from_int, from_int-lt}
use lib_hh_old.Base.Pickle.{Pickle, Allocator, write_uint32, write_data, payload, payload_size}
use lib_hh_old.Base.Pickle.Layout.{IsOwned, written, padded, padding}
use lib_hh_old.Base.Pickle.Write.{Writes, length-written, write_bytes-Writes}
use lib_hh_old.Base.PickleIterator.{PickleIterator, read_uint32, read_data}
use lib_hh_old.Base.PickleIterator.Reads.{Ahead}
use lib_hh_old.Base.PickleItems.{Item, encode, write_item}
use lib_hh_old.Base.PickleItems.Write.{HasRoom, write_item-Writes}
use lib_hh_old.Base.PickleItems.Read.{
  Returns, >>=-Returns, pure-Returns, read_uint32-Returns, read_data-Returns,
}
use lib_hh_old.Ipc.Message.{Message, header_field, routing_id, message_type, flags}
use lib_hh_old.Ipc.Message.Fields.{IsWritable, HeaderSet, set_header_values-HeaderSet}
use lib_hh_old.Ipc.Message.Seen.{header_field-Appended}
use lib_hh_old.Ipc.ParamTraits.{dropping}
use lib_hh_old.Ipc.ParamTraits.Codec.{Puts, dropping-Puts, >>=-Puts}
use lib_hh_old.Ipc.ParamTraits.Many.{then-Returns}
use lib_hh_old.Ipc.ParamTraits.Nested.{write_message, read_fields, store_fields, read_message}

abbrev pub encode_message : ℤ → ℕ → ℕ → List ℕ → List ℕ
encode_message routing type new_flags bytes =
    encode (Item.uint32 (from_int routing))
    ++ (encode (Item.uint32 type) ++ (encode (Item.uint32 new_flags) ++ encode (Item.blob bytes)))

uint32-Puts :
    (alloc : Allocator) (v : ℕ) (p : Pickle) (block : List ℕ)
    → v < 2 ^ 32
    → IsOwned p block
    → HasRoom p (length (encode (Item.uint32 v)))
    → Puts p block (encode (Item.uint32 v)) (dropping (write_uint32 alloc p v))
unfolding write_item
uint32-Puts alloc v p block h own room =
    dropping-Puts p block _ (write_uint32 alloc p v)
      (write_item-Writes alloc p block own (Item.uint32 v) h room)

-- `WriteData` sees the bytes that it is given the length of.
write_data-prefix :
    (alloc : Allocator) (p : Pickle) (mem bytes : List ℕ) (n : ℕ)
    → load mem 0 n ≡ load bytes 0 n
    → write_data alloc p mem (pos n) ≡ write_data alloc p bytes (pos n)
unfolding write_data
write_data-prefix alloc p mem bytes n e = rw e refl

payload_size-IsOwned :
    (m : Message) (mb : List ℕ)
    → IsOwned m.pickle mb
    → m.pickle.write_offset < 2 ^ 30
    → to_int (payload_size m.pickle) ≡ pos m.pickle.write_offset
unfolding payload_size to_int
payload_size-IsOwned m mb mine small =
    rw (mine.header_eq, mine.in_sync, lt→ltb m.pickle.write_offset (2 ^ 31) (omega arith)) refl

payload-IsOwned :
    (m : Message) (mb : List ℕ)
    → IsOwned m.pickle mb
    → load (payload m.pickle) 0 m.pickle.write_offset
      ≡ load (written m.pickle mb) 0 m.pickle.write_offset
unfolding payload
payload-IsOwned m mb mine =
    rw
      (
        mine.header_eq,
        load_lem (drop m.pickle.header_size mb) 0 m.pickle.write_offset
            (omega (arith, length-drop m.pickle.header_size mb, mine.filled, mine.within)),
        load_lem (written m.pickle mb) 0 m.pickle.write_offset
            (omega (arith, length-written m.pickle mb mine)),
        take-length m.pickle.write_offset (written m.pickle mb)
            (omega (arith, length-written m.pickle mb mine)),
      )
      refl

-- The payload of a message, which lies in memory before the rest of its block.
payload-Puts :
    (alloc : Allocator) (m : Message) (mb : List ℕ) (p : Pickle) (block : List ℕ)
    → IsOwned m.pickle mb
    → m.pickle.write_offset < 2 ^ 30
    → IsOwned p block
    → HasRoom p (length (encode (Item.blob (written m.pickle mb))))
    → Puts p block
        (encode (Item.blob (written m.pickle mb)))
        (dropping (write_data alloc p (payload m.pickle) (to_int (payload_size m.pickle))))
unfolding write_item
payload-Puts alloc m mb p block mine small own room = dropping-Puts p block _ _ (
    subst (λ result. Writes p block (encode (Item.blob (written m.pickle mb))) result) (sym same)
      (write_item-Writes alloc p block own (Item.blob (written m.pickle mb))
        (omega (arith, length-written m.pickle mb mine)) room))
  where
    same :
        write_data alloc p (payload m.pickle) (to_int (payload_size m.pickle))
        ≡ write_data alloc p (written m.pickle mb) (pos (length (written m.pickle mb)))
    same =
        ap (write_data alloc p (payload m.pickle)) (payload_size-IsOwned m mb mine small)
        ∙ write_data-prefix alloc p (payload m.pickle) (written m.pickle mb) m.pickle.write_offset
            (payload-IsOwned m mb mine)
        ∙ ap (λ n. write_data alloc p (written m.pickle mb) (pos n))
            (sym (length-written m.pickle mb mine))

write_message-Puts :
    (alloc : Allocator) (routing : ℤ) (type new_flags : ℕ) (m : Message) (mb : List ℕ) (p : Pickle)
    (block : List ℕ)
    → HeaderSet routing type new_flags m mb
    → IsInt routing
    → type < size_mod
    → new_flags < size_mod
    → m.pickle.write_offset + 4 ≤ 2 ^ 30
    → IsOwned p block
    → HasRoom p (length (encode_message routing type new_flags (written m.pickle mb)))
    → Puts p block
        (encode_message routing type new_flags (written m.pickle mb))
        (write_message alloc m p)
unfolding write_message
write_message-Puts alloc routing type new_flags m mb p block set hr ht hf small own room =
    rw (set.routing_eq, set.type_eq, set.flags_eq)
      (>>=-Puts p block _ _ _ _ own room
        (uint32-Puts alloc (from_int routing) p block (from_int-lt routing) own)
        (λ p1 b1 o1 r1.
          >>=-Puts p1 b1 _ _ _ _ o1 r1 (uint32-Puts alloc type p1 b1 ht o1) (λ p2 b2 o2 r2.
            >>=-Puts p2 b2 _ _ _ _ o2 r2 (uint32-Puts alloc new_flags p2 b2 hf o2) (λ p3 b3 o3 r3.
              payload-Puts alloc m mb p3 b3 set.writable.owned (omega arith) o3 r3))))

read_fields-Returns :
    (routing : ℤ) (type new_flags : ℕ) (bytes rest : List ℕ) (it : PickleIterator)
    → type < size_mod
    → new_flags < size_mod
    → length bytes < 2 ^ 30
    → Ahead it (encode_message routing type new_flags bytes ++ rest)
    → Returns read_fields
        (record { routing = from_int routing; type = type; new_flags = new_flags; bytes = bytes })
        it
        rest
unfolding read_fields encode
read_fields-Returns routing type new_flags bytes rest it ht hf hb ahead =
    then-Returns read_uint32 _ (from_int routing) _ it (encode (Item.uint32 (from_int routing))) _
      rest ahead (read_uint32-Returns (from_int routing) _ it (from_int-lt routing))
      (λ i1 a1.
        then-Returns read_uint32 _ type _ i1 (encode (Item.uint32 type)) _ rest a1
          (read_uint32-Returns type _ i1 ht)
          (λ i2 a2.
            then-Returns read_uint32 _ new_flags _ i2 (encode (Item.uint32 new_flags)) _ rest a2
              (read_uint32-Returns new_flags _ i2 hf)
              (λ i3 a3.
                >>=-Returns read_data _ bytes _ i3 rest rest (read_data-Returns bytes rest i3 hb a3)
                  (λ i4 a4. pure-Returns _ i4 rest a4))))

-- The payload of a well-formed message is whole words.
padded-written :
    (m : Message) (mb : List ℕ)
    → IsOwned m.pickle mb
    → padded (written m.pickle mb) ≡ written m.pickle mb
padded-written m mb own =
    ap (λ n. written m.pickle mb ++ zeros n) none_left ∙ append-nil (written m.pickle mb)
  where
    none_left : padding (length (written m.pickle mb)) ≡ 0
    none_left = omega (arith, length-written m.pickle mb own, own.offset_aligned)

-- The values that were read, put into an empty message.
store_fields-HeaderSet :
    (alloc : Allocator) (routing : ℤ) (type new_flags : ℕ) (bytes : List ℕ) (it : PickleIterator)
    (r : Message) (rb : List ℕ)
    → IsInt routing
    → type < size_mod
    → new_flags < size_mod
    → length bytes + 4 ≤ 2 ^ 30
    → IsWritable r rb
    → r.pickle.write_offset ≡ 0
    → (r' : Message) × (rb' : List ℕ) × (store_fields alloc r (
      some (record {
        routing = from_int routing;
        type = type;
        new_flags = new_flags;
        bytes = bytes;
      }),
      it,
    )
        ≡ some (some r', it))
      × HeaderSet routing type new_flags r' rb'
      × (written r'.pickle rb' ≡ padded bytes)
unfolding routing_id message_type flags
store_fields-HeaderSet alloc routing type new_flags bytes it r rb hr ht hf small ok empty =
    let (m1, b1, run, offset, set) =
      set_header_values-HeaderSet routing type new_flags r rb ok hr ht hf in
    let (q, b2, run', done) =
      write_bytes-Writes alloc m1.pickle b1 bytes set.writable.owned (omega arith) in
    let nothing : written m1.pickle b1 ≡ [] =
      ap (λ n. slice m1.pickle.header_size n b1) (offset ∙ empty) in
    let kept : (at : ℕ)
        → 4 ≤ at
        → at + 4 ≤ 16
        → header_field at (record m1 { pickle = q }) ≡ header_field at m1 =
      λ at lo hi. header_field-Appended at m1 b1 (padded bytes) q b2 set.writable done lo hi in
    (
      record m1 { pickle = q },
      b2,
      rw (to_int-from_int routing hr, run, run') refl,
      record {
        writable = record {
          owned = done.owned;
          header_eq = done.same_header_size ∙ set.writable.header_eq;
        };
        routing_eq =
            ap (λ f. f >>= λ v. some (to_int v)) (kept 4 (omega arith) (omega arith))
            ∙ set.routing_eq;
        type_eq = kept 8 (omega arith) (omega arith) ∙ set.type_eq;
        flags_eq = kept 12 (omega arith) (omega arith) ∙ set.flags_eq;
      },
      done.appended ∙ ap (λ t. t ++ padded bytes) nothing,
    )

-- A well-formed message with an int routing id, a type and flags of 32 bits and at most 1 GB of
-- payload, written as a parameter to a well-formed pickle with room, never faults and appends its
-- encoding; a read of that encoding into an empty well-formed message never faults and gives a well-
-- formed message of the same routing id, type, flags and payload, and leaves what follows.
pub read_message-write_message :
    (alloc : Allocator) (routing : ℤ) (type new_flags : ℕ) (m : Message) (mb : List ℕ) (p : Pickle)
    (block : List ℕ) (r : Message) (rb : List ℕ)
    → HeaderSet routing type new_flags m mb
    → IsInt routing
    → type < size_mod
    → new_flags < size_mod
    → m.pickle.write_offset + 4 ≤ 2 ^ 30
    → IsOwned p block
    → HasRoom p (length (encode_message routing type new_flags (written m.pickle mb)))
    → IsWritable r rb
    → r.pickle.write_offset ≡ 0
    → Puts p block
        (encode_message routing type new_flags (written m.pickle mb))
        (write_message alloc m p)
      × ((it : PickleIterator) (rest : List ℕ)
          → Ahead it (encode_message routing type new_flags (written m.pickle mb) ++ rest)
          → (r' : Message) × (rb' : List ℕ) × (it' : PickleIterator) × (read_message alloc r it
              ≡ some (some r', it'))
            × HeaderSet routing type new_flags r' rb'
            × (written r'.pickle rb' ≡ written m.pickle mb)
            × Ahead it' rest)
unfolding read_message
read_message-write_message alloc routing type new_flags m mb p block r rb set hr ht hf small own
      room ok empty =
    let size = length-written m.pickle mb set.writable.owned in
    (
      write_message-Puts alloc routing type new_flags m mb p block set hr ht hf small own room,
      λ it rest ahead.
          let (it', run, ahead') =
            read_fields-Returns routing type new_flags (written m.pickle mb) rest it ht hf
              (omega (arith, size)) ahead in
          let (r', rb', run', set', same) =
            store_fields-HeaderSet alloc routing type new_flags (written m.pickle mb) it' r rb hr ht
              hf (omega (arith, size)) ok empty in
          (r', rb', it', rw run run', set', same ∙ padded-written m mb set.writable.owned, ahead'),
    )
