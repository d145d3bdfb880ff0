-- ===== src/Ipc/Message/Wire.antt =====
-- A message as the bytes that are sent, and as the receiver sees it over those bytes.
use lib_hh_old.Common.{
  ℕ, ◌+◌, ◌≤◌, ◌<◌, ◌^◌, ◌≡◌, true, some, List, [], ◌++◌, map, arith, length, All,
}
use lib_hh_old.Common.Int.{ℤ, IsInt, size_mod}
use lib_hh_old.Base.Pickle.{Pickle, Allocator, contents}
use lib_hh_old.Base.Pickle.Framing.{used}
use lib_hh_old.Base.PickleIterator.{PickleIterator, iterate}
use lib_hh_old.Base.PickleItems.{Item, Fits, kind}
use lib_hh_old.Base.PickleItems.RoundTrip.{
  write_items, read_items, encode_all, write_items-Writes, read_items-Returns,
}
use lib_hh_old.Ipc.Message.{Message, find_next, new_message, view_message, routing_id, message_type}
use lib_hh_old.Ipc.Message.Seen.{new_message-Seen}

-- A message that is made, filled with values that fit their types and 1 GB in all, and sent: its
-- bytes are found as one whole message at the start of any range that they start, and the receiver
-- sees the same routing id and type and reads the same values.
pub read_items-new_message :
    (alloc : Allocator) (routing : ℤ) (type : ℕ) (xs : List Item) (rest : List ℕ)
    → IsInt routing
    → type < size_mod
    → All Fits xs
    → length (encode_all xs) + 4 ≤ 2 ^ 30
    → (m : Message) × (q : Pickle) × (bytes : List ℕ) × (it : PickleIterator) × (new_message alloc
          routing type
        ≡ some m)
      × (write_items alloc m.pickle xs ≡ some (q, true))
      × (contents q ≡ some bytes)
      × (find_next (bytes ++ rest) ≡ record {
        message_size = length bytes;
        message_found = true;
        pickle_end = some (length bytes);
        message_end = some (length bytes);
      })
      × (routing_id (view_message (bytes ++ rest) (length bytes)) ≡ some routing)
      × (message_type (view_message (bytes ++ rest) (length bytes)) ≡ some type)
      × (read_items (map kind xs) (iterate (view_message (bytes ++ rest) (length bytes)).pickle)
          ≡ (some xs, it))
read_items-new_message alloc routing type xs rest hr ht fits room =
    let (m, block, made, empty, own, seen) = new_message-Seen alloc routing type hr ht in
    let (q, block', run, done) =
      write_items-Writes alloc m.pickle block xs own fits (omega arith) in
    let s = seen (encode_all xs) rest q block' room done in
    let (it, read, left) =
      read_items-Returns xs [] (iterate (view_message (used q block' ++ rest) _).pickle) fits
        s.ahead in
    (m, q, used q block', it, made, run, s.contents_eq, s.found, s.routing_eq, s.type_eq, read)
