-- ===== src/Ipc/ParamTraits/Nested.antt =====
-- libHH/ipc/ipc_message_utils.cpp: a message as a parameter of another.
pub mod RoundTrip
use mathlib.Core.Path.{subst}
use lib_hh_old.Common.{
  ℕ, ◌+◌, ◌-◌, ◌%◌, ◌≤◌, ◌<◌, ◌^◌, ◌≡◌, refl, sym, ap, ◌∙◌, Bool, Option, some, none, List, [],
  ◌++◌, arith, append-nil, ◌>>=◌, if◌then◌else◌, length, length-drop, lt→ltb, take-length, take,
  drop,
}
use lib_hh_old.Common.Slices.{slice, load, load_lem, length-slice}
use lib_hh_old.Common.Bytes.{zeros}
use lib_hh_old.Common.Int.{ℤ, pos, IsInt, size_mod, to_int, from_int, to_int-from_int, from_int-lt}
use lib_hh_old.Base.Pickle.{
  Pickle, Allocator, write_uint32, write_data, write_bytes, payload, payload_size,
  stored_payload_size,
}
use lib_hh_old.Base.Pickle.Layout.{IsOwned, written, padded, padding}
use lib_hh_old.Base.Pickle.Write.{Writes, Appended, length-written, write_bytes-Writes}
use lib_hh_old.Base.PickleIterator.{PickleIterator, Reader, pure, read_uint32, read_data}
use lib_hh_old.Base.PickleIterator
use lib_hh_old.Base.PickleIterator.Reads.{Ahead}
use lib_hh_old.Base.PickleItems.{Item, encode, write_item}
use lib_hh_old.Base.PickleItems.Write.{HasRoom, write_item-Writes}
use lib_hh_old.Base.PickleItems.Read.{
  Returns, >>=-Returns, pure-Returns, read_uint32-Returns, read_data-Returns,
}
use lib_hh_old.Ipc.Message.{
  Message, header_field, routing_id, message_type, flags, set_header_values,
}
use lib_hh_old.Ipc.Message.Fields.{IsWritable, HeaderSet, set_header_values-HeaderSet}
use lib_hh_old.Ipc.Message.Seen.{header_field-Appended}
use lib_hh_old.Ipc.ParamTraits.{dropping}
use lib_hh_old.Ipc.ParamTraits.Codec.{Puts, dropping-Puts, >>=-Puts}
use lib_hh_old.Ipc.ParamTraits.Many.{then-Returns}

unfoldable pub write_message : Allocator → Message → Pickle → Option Pickle
write_message alloc m p = do
  routing ← routing_id m
  p1 ← dropping (write_uint32 alloc p (from_int routing))
  type ← message_type m
  p2 ← dropping (write_uint32 alloc p1 type)
  new_flags ← flags m
  p3 ← dropping (write_uint32 alloc p2 new_flags)
  dropping (write_data alloc p3 (payload m.pickle) (to_int (payload_size m.pickle)))

pub record Fields : Type 0 where
  pub routing : ℕ
  pub type : ℕ
  pub new_flags : ℕ
  pub bytes : List ℕ

-- What `Read` reads before it touches the object.
unfoldable pub read_fields : Reader Fields
read_fields = PickleIterator.◌>>=◌ read_uint32 λ routing. PickleIterator.◌>>=◌ read_uint32 λ type.
    PickleIterator.◌>>=◌ read_uint32 λ new_flags. PickleIterator.◌>>=◌ read_data λ bytes.
      pure (record { routing = routing; type = type; new_flags = new_flags; bytes = bytes })

-- `none` is a fault, `some (none, it)` is `false`.
abbrev pub store_fields :
    Allocator → Message → Option Fields × PickleIterator → Option (Option Message × PickleIterator)
store_fields alloc r (none, it) = some (none, it)
store_fields alloc r (some fs, it) = do
  r1 ← set_header_values (to_int fs.routing) fs.type fs.new_flags r
  (q, done) ← write_bytes alloc r1.pickle fs.bytes
  some (if done then some (record r1 { pickle = q }) else none, it)

unfoldable pub read_message :
    Allocator → Message → PickleIterator → Option (Option Message × PickleIterator)
read_message alloc r it = store_fields alloc r (read_fields it)
