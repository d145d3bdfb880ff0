-- ===== src/Base/PickleItems/Examples.antt =====
-- The theorems on items at concrete inputs.
use lib_hh_old.Common.{◌≡◌, arith, true, some, List, [], ◌∷◌, map, All}
use lib_hh_old.Common.Bytes.{le_bytes, wide_bytes}
use lib_hh_old.Common.Int.{negsuc}
use lib_hh_old.Base.Pickle.{Pickle, new_pickle}
use lib_hh_old.Base.Pickle.Write.{Writes}
use lib_hh_old.Base.Pickle.Plain.{plain, seven, seven_block, seven-IsOwned}
use lib_hh_old.Base.PickleIterator.{PickleIterator, iterate}
use lib_hh_old.Base.PickleItems.{
  Item, Fits, bool, int, uint16, word64, string, string16, encode, kind, write_item,
}
use lib_hh_old.Base.PickleItems.Write.{write_item-Writes}
use lib_hh_old.Base.PickleItems.RoundTrip.{write_items, read_items, read_items-write_items}

abbrev items : List Item
items =
    bool true
    ∷ int (negsuc 4)
    ∷ uint16 513
    ∷ word64 0x1_0000_0002
    ∷ string (104 ∷ 105 ∷ [])
    ∷ string16 (0x20ac ∷ [])
    ∷ []

items-Fits : All Fits items
items-Fits = (
  tt,
  (
    omega arith,
    (omega arith, (omega arith, (omega arith, ((omega arith, (omega arith, tt)), tt)))),
  ),
)

write_item-Writes_example :
    Writes seven seven_block
      (encode (string (1 ∷ 2 ∷ [])))
      (write_item plain seven (string (1 ∷ 2 ∷ [])))
unfolding encode le_bytes
write_item-Writes_example =
    write_item-Writes plain seven seven_block seven-IsOwned (string (1 ∷ 2 ∷ [])) (omega arith)
      (omega arith)

read_items-write_items_example :
    (p : Pickle) × (q : Pickle) × (it : PickleIterator) × (new_pickle plain ≡ some p)
    × (write_items plain p items ≡ some (q, true))
    × (read_items (map kind items) (iterate q) ≡ (some items, it))
    × (it.read_index ≡ it.end_index)
unfolding encode le_bytes wide_bytes
read_items-write_items_example = read_items-write_items plain items items-Fits (omega arith)
