-- ===== src/Ipc/Message.antt =====
-- libHH/ipc/ipc_message.h and ipc_message.cpp: a pickle whose header also holds routing, type and
-- flags. `none` is undefined behaviour, as in `Base.Pickle`.
pub mod Fields
pub mod Seen
pub mod Wire
mod Examples
use Prim.Native.Nat.{bit_and, bit_or}
use lib_hh_old.Common.{
  ℕ, ◌+◌, ◌*◌, ◌%◌, Bool, true, false, not, Option, some, none, List, ltb, leb, ◌==◌, if◌then◌else◌,
  ◌>>=◌, length,
}
use lib_hh_old.Common.Slices.{store, load}
use lib_hh_old.Common.Bytes.{le_bytes, le_value}
use lib_hh_old.Common.Int.{ℤ, pos, size_mod, to_int, from_int}
use lib_hh_old.Base.Pickle.{
  Pickle, Allocator, new_pickle_with_header, copy, assign, view, peek_next,
}

pub record Message : Type 0 where
  pub pickle : Pickle
  pub sender_pid : ℤ

-- `sizeof(Message::Header)`, and where its fields lie under `#pragma pack(4)`.
abbrev pub sizeof_header : ℕ
sizeof_header = 16

abbrev pub routing_at : ℕ
routing_at = 4

abbrev pub type_at : ℕ
type_at = 8

abbrev pub flags_at : ℕ
flags_at = 12

abbrev pub sync_bit : ℕ
sync_bit = 1

abbrev pub reply_bit : ℕ
reply_bit = 2

-- A field of `header()`, read and written.
unfoldable pub header_field : ℕ → Message → Option ℕ
header_field at m = do block ← m.pickle.header; bytes ← load block at 4; some (le_value bytes)

unfoldable pub set_header_field : ℕ → ℕ → Message → Option Message
set_header_field at value m = do
  block ← m.pickle.header
  written ← store block at (le_bytes 4 value)
  some (record m { pickle = record (m.pickle) { header = some written } })

unfoldable pub routing_id : Message → Option ℤ
routing_id m = do value ← header_field routing_at m; some (to_int value)

unfoldable pub message_type : Message → Option ℕ
message_type m = header_field type_at m

unfoldable pub flags : Message → Option ℕ
flags m = header_field flags_at m

unfoldable pub set_routing_id : ℤ → Message → Option Message
set_routing_id new_id m = set_header_field routing_at (from_int new_id) m

unfoldable pub set_sync : Message → Option Message
set_sync m = do value ← flags m; set_header_field flags_at (bit_or value sync_bit) m

unfoldable pub is_sync : Message → Option Bool
is_sync m = do value ← flags m; some (not (bit_and value sync_bit == 0))

unfoldable pub set_reply : Message → Option Message
set_reply m = do value ← flags m; set_header_field flags_at (bit_or value reply_bit) m

-- `(header()->flags * REPLY_BIT) != 0`: the source multiplies.
unfoldable pub is_reply : Message → Option Bool
is_reply m = do value ← flags m; some (not (value * reply_bit % size_mod == 0))

-- `SetHeaderValues`, which the constructors also amount to.
unfoldable pub set_header_values : ℤ → ℕ → ℕ → Message → Option Message
set_header_values routing type new_flags m = do
  m1 ← set_header_field routing_at (from_int routing) m
  m2 ← set_header_field type_at type m1
  set_header_field flags_at new_flags m2

unfoldable pub set_sender_pid : ℤ → Message → Message
set_sender_pid id m = record m { sender_pid = id }

-- `Message(routing_id, type)`.
unfoldable pub new_message : Allocator → ℤ → ℕ → Option Message
new_message alloc routing type = do
  p ← new_pickle_with_header alloc sizeof_header
  set_header_values routing type 0 (record { pickle = p; sender_pid = pos 0 })

-- `Message(data, data_len)`.
unfoldable pub view_message : List ℕ → ℕ → Message
view_message bytes data_len = record { pickle = view bytes data_len; sender_pid = pos 0 }

unfoldable pub copy_message : Allocator → Message → Option Message
copy_message alloc other = do
  p ← copy alloc other.pickle
  some (record { pickle = p; sender_pid = other.sender_pid })

-- `operator=` assigns the pickle alone.
unfoldable pub assign_message : Allocator → Message → Message → Option Message
assign_message alloc m other = do
  p ← assign alloc m.pickle other.pickle
  some (record m { pickle = p })

-- `NextMessageInfo`; the two pointers are offsets, and null until a message is found.
pub record NextMessageInfo : Type 0 where
  pub message_size : ℕ
  pub message_found : Bool
  pub pickle_end : Option ℕ
  pub message_end : Option ℕ

abbrev found_at : ℕ → NextMessageInfo
found_at n = record {
  message_size = n;
  message_found = true;
  pickle_end = some n;
  message_end = some n;
}

abbrev not_found : ℕ → NextMessageInfo
not_found n = record {
  message_size = n;
  message_found = false;
  pickle_end = none;
  message_end = none;
}

unfoldable pub find_next : List ℕ → NextMessageInfo
find_next range = elim (peek_next sizeof_header range) [
  | none ↦ not_found 0
  | some n ↦ if leb n (length range) then found_at n else not_found n
]
