-- ===== src/Base/PickleItems/RoundTrip.antt =====
-- Whole sequences of items, written to a new pickle and read back.
use mathlib.Core.Path.{subst}
use lib_hh_old.Common.{
  ℕ, ◌+◌, ◌-◌, ◌^◌, ◌≤◌, ◌<◌, ◌≡◌, refl, sym, ap, ◌∙◌, Bool, true, false, Option, some, none, List,
  [], ◌∷◌, ◌++◌, append-nil, append_assoc, arith, length, length-append, if◌then◌else◌, All, map,
  drop, take, length-drop,
}
use lib_hh_old.Common
use lib_hh_old.Common.Slices.{slice, length-slice}
use lib_hh_old.Base.Pickle.{
  Pickle, Allocator, new_pickle, payload, payload_size, stored_payload_size,
}
use lib_hh_old.Base.Pickle.Layout.{IsOwned, written}
use lib_hh_old.Base.Pickle.Write.{Appended, Writes, trans-Appended, offset-Appended}
use lib_hh_old.Base.Pickle.Fresh.{new_pickle-Fresh}
use lib_hh_old.Base.PickleIterator.{PickleIterator, Reader, ◌>>=◌, pure, iterate}
use lib_hh_old.Base.PickleIterator.Reads.{Ahead}
use lib_hh_old.Base.PickleItems.{Item, Kind, Fits, encode, kind, write_item, read_item}
use lib_hh_old.Base.PickleItems.Write.{HasRoom, write_item-Writes}
use lib_hh_old.Base.PickleItems.Read.{Returns, >>=-Returns, pure-Returns, read_item-Returns}

unfoldable pub write_items : Allocator → Pickle → List Item → Option (Pickle × Bool)
write_items alloc p [] = some (p, true)
write_items alloc p (x ∷ xs) =
    Common.◌>>=◌ (write_item alloc p x)
      λ r. if r.1 then write_items alloc r.0 xs else some (r.0, false)

unfoldable pub read_items : List Kind → Reader (List Item)
read_items [] = pure []
read_items (k ∷ ks) = read_item k >>= λ x. read_items ks >>= λ xs. pure (x ∷ xs)

abbrev pub encode_all : List Item → List ℕ
encode_all [] = []
encode_all (x ∷ xs) = encode x ++ encode_all xs

-- Nothing added.
refl-Appended : (p : Pickle) (block : List ℕ) → IsOwned p block → Appended p block [] p block
refl-Appended p block own = record {
  owned = own;
  same_header_size = refl;
  same_fields = refl;
  appended = sym (append-nil (written p block));
}

-- Writing items one after the other appends their encodings in order.
pub write_items-Writes :
    (alloc : Allocator) (p : Pickle) (block : List ℕ) (xs : List Item)
    → IsOwned p block
    → All Fits xs
    → HasRoom p (length (encode_all xs))
    → Writes p block (encode_all xs) (write_items alloc p xs)
unfolding write_items
write_items-Writes alloc p block [] own h room = (p, block, refl, refl-Appended p block own)
write_items-Writes alloc p block (x ∷ xs) own (hx, hxs) room =
    let total = length-append (encode x) (encode_all xs) in
    let (q, block', run, done) = write_item-Writes alloc p block own x hx (omega (arith, total)) in
    let (r, block'', run', done') =
      write_items-Writes alloc q block' xs done.owned hxs
        (omega (arith, total, offset-Appended p q block block' (encode x) own done)) in
    (
      r,
      block'',
      rw run run',
      trans-Appended p q r block block' block'' (encode x) (encode_all xs) done done',
    )

pub read_items-Returns :
    (xs : List Item) (rest : List ℕ) (it : PickleIterator)
    → All Fits xs
    → Ahead it (encode_all xs ++ rest)
    → Returns (read_items (map kind xs)) xs it rest
unfolding read_items
read_items-Returns [] rest it h ahead = pure-Returns [] it rest ahead
read_items-Returns (x ∷ xs) rest it (hx, hxs) ahead =
    >>=-Returns (read_item (kind x)) _ x (x ∷ xs) it (encode_all xs ++ rest) rest
      (read_item-Returns x (encode_all xs ++ rest) it hx
        (subst (Ahead it) (append_assoc (encode x) (encode_all xs) rest) ahead))
      (λ it' ahead'.
        >>=-Returns (read_items (map kind xs)) _ xs (x ∷ xs) it' rest rest
          (read_items-Returns xs rest it' hxs ahead')
          (λ it'' ahead''. pure-Returns (x ∷ xs) it'' rest ahead''))

-- An iterator over a well-formed pickle has the whole written payload before it.
pub iterate-Ahead :
    (p : Pickle) (block : List ℕ)
    → IsOwned p block
    → p.write_offset < 2 ^ 31
    → Ahead (iterate p) (written p block)
unfolding iterate payload payload_size
iterate-Ahead p block own small = rw own.header_eq (record {
  ordered = omega arith;
  bounded = omega (arith, own.in_sync, own.within, own.capacity_bound, small);
  inside = omega (arith, own.in_sync, own.filled, own.within, length-drop p.header_size block);
  present = refl;
  rest_eq = ap (λ n. take n (drop p.header_size block)) size_eq;
})
  where
    size_eq : stored_payload_size block - 0 ≡ p.write_offset
    size_eq = omega (arith, own.in_sync)

-- Every sequence of values that fit their types and 1 GB in all can be written to a new pickle, and
-- the reads of the same types in the same order return it and end at the end of the payload.
pub read_items-write_items :
    (alloc : Allocator) (xs : List Item)
    → All Fits xs
    → length (encode_all xs) + 4 ≤ 2 ^ 30
    → (p : Pickle) × (q : Pickle) × (it : PickleIterator) × (new_pickle alloc ≡ some p)
      × (write_items alloc p xs ≡ some (q, true))
      × (read_items (map kind xs) (iterate q) ≡ (some xs, it))
      × (it.read_index ≡ it.end_index)
read_items-write_items alloc xs h room =
    let (p, block, made, own, header, offset) =
      (new_pickle-Fresh alloc 4 (omega arith) (omega arith)).0 in
    let (q, block', run, done) = write_items-Writes alloc p block xs own h (omega arith) in
    let nothing : written p block ≡ [] = ap (λ n. slice p.header_size n block) offset in
    let payload_eq : written q block' ≡ encode_all xs ++ [] =
      done.appended ∙ ap (λ t. t ++ encode_all xs) nothing ∙ sym (append-nil (encode_all xs)) in
    let small = offset-Appended p q block block' (encode_all xs) own done in
    let (it, read, left) = read_items-Returns xs [] (iterate q) h (
      subst (Ahead (iterate q)) payload_eq
        (iterate-Ahead q block' done.owned (omega (arith, small)))) in
    (
      p,
      q,
      it,
      made,
      run,
      read,
      omega (
        arith,
        left.ordered,
        ap length left.rest_eq,
        length-slice it.read_index (it.end_index - it.read_index) it.payload
            (omega (arith, left.ordered, left.inside)),
      ),
    )
