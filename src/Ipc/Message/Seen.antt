-- ===== src/Ipc/Message/Seen.antt =====
-- libHH/ipc/ipc_message.h and ipc_message.cpp: how the receiver sees a message over its bytes.
use mathlib.Core.Path.{subst}
use lib_hh_old.Common.{
  ℕ, ◌+◌, ◌-◌, ◌≤◌, ◌<◌, ◌^◌, ◌≡◌, refl, sym, ap, ap₂, ◌∙◌, Bool, true, false, ◌==◌, some, none,
  List, [], ◌++◌, arith, append-nil, ◌>>=◌, le→leb, length, length-append, length-drop, take, drop,
  take-take, take-append_left, drop-drop,
}
use lib_hh_old.Common.Slices.{slice, load_lem, slice-of_take}
use lib_hh_old.Common.Bytes.{le_value}
use lib_hh_old.Common.Int.{ℤ, IsInt, size_mod, to_int}
use lib_hh_old.Base.Pickle.{
  Pickle, Allocator, contents, stored_payload_size, payload, payload_size, view,
}
use lib_hh_old.Base.Pickle.Layout.{IsOwned, written}
use lib_hh_old.Base.Pickle.Write.{Appended, offset-Appended}
use lib_hh_old.Base.Pickle.View.{Sized, view-accepts}
use lib_hh_old.Base.Pickle.Framing.{used, contents-eq-used, length-used, stored-used, next_in_range}
use lib_hh_old.Base.PickleIterator.{iterate}
use lib_hh_old.Base.PickleIterator.Reads.{Ahead}
use lib_hh_old.Ipc.Message.{
  Message, find_next, new_message, view_message, header_field, routing_id, message_type,
}
use lib_hh_old.Ipc.Message.Fields.{IsWritable, header_field-IsWritable, new_message-HeaderSet}

iterate-header :
    (p : Pickle) (block : List ℕ)
    → p.header ≡ some block
    → iterate p ≡ record {
      payload = drop p.header_size block;
      is_null = false;
      read_index = 0;
      end_index = stored_payload_size block;
    }
unfolding iterate payload payload_size
iterate-header p block e =
    ap
      (λ h. record {
        payload = elim h as (λ _. List ℕ) [ none ↦ [] | some b ↦ drop p.header_size b ];
        is_null = elim h as (λ _. Bool) [ none ↦ p.header_size == 0 | some b ↦ false ];
        read_index = 0;
        end_index = elim h as (λ _. ℕ) [ none ↦ 0 | some b ↦ stored_payload_size b ];
      })
      e

-- The receiver's view of a message's bytes, whatever follows them.
module _ (m : Message) (block rest : List ℕ) (ok : IsWritable m block)
    (small : m.pickle.write_offset ≤ 2 ^ 30) where
  own : IsOwned m.pickle block
  own = ok.owned

  abbrev frame : List ℕ
  frame = used m.pickle block

  length-frame : length frame ≡ 16 + m.pickle.write_offset
  length-frame = omega (arith, length-used m.pickle block own, ok.header_eq)

  abbrev range : List ℕ
  range = frame ++ rest

  seen : Message
  seen = view_message range (length frame)

  sized : Sized range (length frame) (view range (length frame))
  sized =
      let stored = stored-used m.pickle block own rest in
      view-accepts range (length frame) (omega (arith, length-frame)) (omega (arith, length-frame))
        (omega (arith, length-frame, stored)) (omega (arith, length-frame, stored))

  header_size-seen : (view range (length frame)).header_size ≡ 16
  header_size-seen = omega (arith, sized.1, length-frame, stored-used m.pickle block own rest)

  -- Every header field reads the same.
  header_field-seen :
      (at : ℕ)
      → at + 4 ≤ 16
      → header_field at (view_message range (length frame)) ≡ header_field at m
  unfolding header_field view_message used
  header_field-seen at h =
      rw
        (
          sized.0,
          own.header_eq,
          load_lem range at 4 (omega (arith, length-append frame rest, length-frame)),
          load_lem block at 4 (omega (arith, own.filled, ok.header_eq)),
        )
        (ap (λ b. some (le_value b)) same)
    where
      n : ℕ
      n = m.pickle.header_size + m.pickle.write_offset

      same : slice at 4 range ≡ slice at 4 block
      same = slice-of_take at 4 16 range block h (
          take-append_left 16 frame rest (omega (arith, length-frame))
          ∙ take-take 16 (m.pickle.header_size + m.pickle.write_offset) block
              (omega (arith, ok.header_eq)))

  -- `FindNext` ends the message where its bytes end.
  find_next-seen : find_next range ≡ record {
    message_size = length frame;
    message_found = true;
    pickle_end = some (length frame);
    message_end = some (length frame);
  }
  unfolding find_next
  find_next-seen =
      let (peek, find) =
        next_in_range 16 m.pickle.write_offset range (omega arith)
          (omega (arith, length-append frame rest, length-frame))
          (stored-used m.pickle block own rest) (omega arith) in
      let peek' = peek ∙ ap some (sym length-frame) in
      rw
        (
          peek',
          find_next,
          le→leb (length frame) (length range) (omega (arith, length-append frame rest)),
        )
        refl

  -- The payload is what was written, and an iterator over it has exactly that before it.
  seen-Ahead : Ahead (iterate (view range (length frame))) (written m.pickle block)
  unfolding used
  seen-Ahead =
      subst (λ it. Ahead it (written m.pickle block))
        (sym (iterate-header (view range (length frame)) range sized.0))
        (record {
          ordered = omega arith;
          bounded = omega (arith, stored);
          inside = omega (
            arith,
            stored,
            length-drop (view range (length frame)).header_size range,
            length-append frame rest,
            length-frame,
            header_size-seen,
          );
          present = refl;
          rest_eq =
              ap₂ (λ h n. slice h n range) header_size-seen stored'
              ∙ slice-of_take 16 m.pickle.write_offset (16 + m.pickle.write_offset) range block
                  (omega arith) same
              ∙ ap (λ h. slice h m.pickle.write_offset block) (sym ok.header_eq);
        })
    where
      stored : stored_payload_size range ≡ m.pickle.write_offset
      stored = stored-used m.pickle block own rest

      stored' : stored_payload_size range - 0 ≡ m.pickle.write_offset
      stored' = omega (arith, stored)

      same : take (16 + m.pickle.write_offset) range ≡ take (16 + m.pickle.write_offset) block
      same =
          take-append_left (16 + m.pickle.write_offset) frame rest (omega (arith, length-frame))
          ∙ take-take (16 + m.pickle.write_offset) (m.pickle.header_size + m.pickle.write_offset)
              block (omega (arith, ok.header_eq))

-- A header field that writes to the payload leave alone.
pub header_field-Appended :
    (at : ℕ) (m : Message) (block added : List ℕ) (q : Pickle) (block' : List ℕ)
    → IsWritable m block
    → Appended m.pickle block added q block'
    → 4 ≤ at
    → at + 4 ≤ 16
    → header_field at (record m { pickle = q }) ≡ header_field at m
header_field-Appended at m block added q block' ok done lo hi =
    header_field-IsWritable at (record m { pickle = q }) block'
      (record { owned = done.owned; header_eq = done.same_header_size ∙ ok.header_eq }) hi
    ∙ ap (λ b. some (le_value b)) same
    ∙ sym (header_field-IsWritable at m block ok hi)
  where
    behind : (b : List ℕ) → slice at 4 b ≡ slice (at - 4) 4 (drop 4 b)
    behind b =
        let e : 4 + (at - 4) ≡ at = omega arith in
        ap (take 4) (sym (drop-drop (at - 4) 4 b ∙ ap (λ k. drop k b) e))

    same : slice at 4 block' ≡ slice at 4 block
    same =
        behind block'
        ∙ slice-of_take (at - 4) 4 12 (drop 4 block') (drop 4 block) (omega arith) (
            ap (λ n. slice 4 (n - 4) block') (sym ok.header_eq ∙ sym done.same_header_size)
            ∙ done.same_fields
            ∙ ap (λ n. slice 4 (n - 4) block) ok.header_eq)
        ∙ sym (behind block)

-- What the receiver sees of the bytes of a message with the payload `added`, whatever follows them.
pub record Seen (routing : ℤ) (type : ℕ) (q : Pickle) (bytes added rest : List ℕ) : Type 0 where
  pub contents_eq : contents q ≡ some bytes
  pub found : find_next (bytes ++ rest) ≡ record {
    message_size = length bytes;
    message_found = true;
    pickle_end = some (length bytes);
    message_end = some (length bytes);
  }
  pub routing_eq : routing_id (view_message (bytes ++ rest) (length bytes)) ≡ some routing
  pub type_eq : message_type (view_message (bytes ++ rest) (length bytes)) ≡ some type
  pub ahead : Ahead (iterate (view_message (bytes ++ rest) (length bytes)).pickle) (added ++ [])

-- A new message has no payload, and what is appended to it is seen.
pub new_message-Seen :
    (alloc : Allocator) (routing : ℤ) (type : ℕ)
    → IsInt routing
    → type < size_mod
    → (m : Message) × (block : List ℕ) × (new_message alloc routing type ≡ some m)
      × (m.pickle.write_offset ≡ 0)
      × IsOwned m.pickle block
      × ((added rest : List ℕ) (q : Pickle) (block' : List ℕ)
          → length added + 4 ≤ 2 ^ 30
          → Appended m.pickle block added q block'
          → Seen routing type q (used q block') added rest)
unfolding routing_id message_type seen view view_message
new_message-Seen alloc routing type hr ht =
    let (m, block, made, empty, set) = new_message-HeaderSet alloc routing type hr ht in
    let own = set.writable.owned in
    (
      m,
      block,
      made,
      empty,
      own,
      λ added rest q block' room done.
          let sent : Message = record m { pickle = q } in
          let ok : IsWritable sent block' = record {
            owned = done.owned;
            header_eq = done.same_header_size ∙ set.writable.header_eq;
          } in
          let small : q.write_offset ≤ 2 ^ 30 =
            omega (arith, offset-Appended m.pickle q block block' added own done) in
          let nothing : written m.pickle block ≡ [] =
            ap (λ n. slice m.pickle.header_size n block) empty in
          let payload_eq : written q block' ≡ added ++ [] =
            done.appended ∙ ap (λ t. t ++ added) nothing ∙ sym (append-nil added) in
          let kept : (at : ℕ)
              → 4 ≤ at
              → at + 4 ≤ 16
              → header_field at (seen sent block' rest ok small) ≡ header_field at m =
            λ at lo hi.
              header_field-seen sent block' rest ok small at hi
              ∙ header_field-Appended at m block added q block' set.writable done lo hi in
          record {
            contents_eq = contents-eq-used q block' done.owned;
            found = find_next-seen sent block' rest ok small;
            routing_eq =
                ap (λ f. f >>= λ v. some (to_int v)) (kept 4 (omega arith) (omega arith))
                ∙ set.routing_eq;
            type_eq = kept 8 (omega arith) (omega arith) ∙ set.type_eq;
            ahead = subst (Ahead _) payload_eq (seen-Ahead sent block' rest ok small);
          },
    )
