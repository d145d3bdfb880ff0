-- ===== src/Ipc/ParamTraits/Schema.antt =====
-- libHH/ipc/ipc_message_utils_impl.h: the parameters of a message, from the sender to the receiver.
use lib_hh_old.Common.{
  ℕ, ◌+◌, ◌≤◌, ◌<◌, ◌^◌, ◌≡◌, refl, ap, true, some, List, [], ◌++◌, arith, length,
}
use lib_hh_old.Common.Int.{ℤ, IsInt, size_mod}
use lib_hh_old.Base.Pickle.{Allocator, contents}
use lib_hh_old.Base.Pickle.Framing.{used}
use lib_hh_old.Base.PickleIterator.{iterate}
use lib_hh_old.Ipc.Message.{Message, find_next, new_message, view_message, routing_id, message_type}
use lib_hh_old.Ipc.Message.Seen.{new_message-Seen}
use lib_hh_old.Ipc.ParamTraits.{ParamTraits, schema_write, schema_read}
use lib_hh_old.Ipc.ParamTraits.Codec.{IsCodec}

-- For any parameter type whose trait writes an encoding and reads it back: a message that is made
-- and into which MessageSchema writes a valid value of at most 1 GB has bytes that FindNext finds as
-- one whole message at the start of any range that they start, and a receiver over that range sees
-- the same routing id and type, and its MessageSchema reads the same value into a fresh object.
pub schema_read-schema_write :
    {A : Type 0} {Valid : A → Type 0} {encoding : A → List ℕ} (t : ParamTraits A)
    (alloc : Allocator) (routing : ℤ) (type : ℕ) (x : A) (rest : List ℕ)
    → IsCodec t Valid encoding
    → IsInt routing
    → type < size_mod
    → Valid x
    → length (encoding x) + 4 ≤ 2 ^ 30
    → (m m' : Message) × (bytes : List ℕ) × (new_message alloc routing type ≡ some m)
      × (schema_write t alloc x m ≡ some m')
      × (contents m'.pickle ≡ some bytes)
      × (find_next (bytes ++ rest) ≡ record {
        message_size = length bytes;
        message_found = true;
        pickle_end = some (length bytes);
        message_end = some (length bytes);
      })
      × (routing_id (view_message (bytes ++ rest) (length bytes)) ≡ some routing)
      × (message_type (view_message (bytes ++ rest) (length bytes)) ≡ some type)
      × (schema_read t t.fresh (view_message (bytes ++ rest) (length bytes)) ≡ some x)
unfolding schema_write schema_read
schema_read-schema_write {encoding} t alloc routing type x rest codec hr ht valid room =
    let (m, block, made, empty, own, seen) = new_message-Seen alloc routing type hr ht in
    let (q, block', run, done) = codec.puts alloc m.pickle block x own valid (omega arith) in
    let s = seen (encoding x) rest q block' room done in
    let (it, read, left) =
      codec.reads x [] (iterate (view_message (used q block' ++ rest) _).pickle) valid s.ahead in
    (
      m,
      record m { pickle = q },
      used q block',
      made,
      rw run refl,
      s.contents_eq,
      s.found,
      s.routing_eq,
      s.type_eq,
      ap (λ r. r.0) read,
    )
