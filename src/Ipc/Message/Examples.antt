-- ===== src/Ipc/Message/Examples.antt =====
-- The theorems on messages at concrete inputs.
use lib_hh_old.Common.{
  ℕ, ◌^◌, ◌%◌, ◌≡◌, ◌≢◌, ◌↔◌, refl, arith, true, some, List, [], ◌∷◌, ◌++◌, map, length, All,
}
use lib_hh_old.Common.Bytes.{le_bytes, le_value, zeros}
use lib_hh_old.Common.Slices.{load}
use lib_hh_old.Common.Int.{pos}
use lib_hh_old.Base.Pickle.{Pickle, contents}
use lib_hh_old.Base.Pickle.Plain.{plain}
use lib_hh_old.Base.PickleIterator.{PickleIterator, iterate}
use lib_hh_old.Base.PickleItems.{Item, Fits, int, string, encode, kind}
use lib_hh_old.Base.PickleItems.RoundTrip.{write_items, read_items}
use lib_hh_old.Ipc.Message.{
  Message, find_next, new_message, view_message, routing_id, message_type, flags, header_field,
  is_reply,
}
use lib_hh_old.Ipc.Message.Fields.{IsWritable, is_reply_iff}
use lib_hh_old.Ipc.Message.Wire.{read_items-new_message}

-- A message without payload, whose flags are those of a synchronous message.
abbrev sync_block : List ℕ
sync_block = zeros 12 ++ (1 ∷ 0 ∷ 0 ∷ 0 ∷ zeros 64)

abbrev sync_message : Message
sync_message = record {
  pickle = record {
    header = some sync_block;
    header_size = 16;
    capacity_after_header = 64;
    write_offset = 0;
  };
  sender_pid = pos 0;
}

sync_message-IsWritable : IsWritable sync_message sync_block
unfolding le_value
sync_message-IsWritable = record {
  owned = record {
    header_eq = refl;
    header_aligned = omega arith;
    header_whole = omega arith;
    header_bound = omega arith;
    capacity_aligned = omega arith;
    capacity_bound = omega arith;
    filled = refl;
    within = omega arith;
    offset_aligned = omega arith;
    in_sync = refl;
  };
  header_eq = refl;
}

-- The flags of a synchronous message that is no reply make `is_reply` answer `true`.
is_reply_iff_example : (is_reply sync_message ≡ some true) ↔ (1 % 2 ^ 31 ≢ 0)
unfolding flags header_field le_value load
is_reply_iff_example = is_reply_iff sync_message 1 refl

abbrev values : List Item
values = int (pos 3) ∷ string (104 ∷ 105 ∷ []) ∷ []

values-Fits : All Fits values
values-Fits = (omega arith, (omega arith, tt))

read_items-new_message_example :
    (m : Message) × (q : Pickle) × (bytes : List ℕ) × (it : PickleIterator) × (new_message plain
        (pos 7)
        513
      ≡ some m)
    × (write_items plain m.pickle values ≡ some (q, true))
    × (contents q ≡ some bytes)
    × (find_next (bytes ++ 9 ∷ []) ≡ record {
      message_size = length bytes;
      message_found = true;
      pickle_end = some (length bytes);
      message_end = some (length bytes);
    })
    × (routing_id (view_message (bytes ++ 9 ∷ []) (length bytes)) ≡ some (pos 7))
    × (message_type (view_message (bytes ++ 9 ∷ []) (length bytes)) ≡ some 513)
    × (read_items (map kind values) (iterate (view_message (bytes ++ 9 ∷ []) (length bytes)).pickle)
        ≡ (some values, it))
unfolding encode le_bytes
read_items-new_message_example =
    read_items-new_message plain (pos 7) 513 values (9 ∷ []) (omega arith) (omega arith) values-Fits
      (omega arith)
