-- ===== src/Base/Pickle/Examples.antt =====
-- Runs of the writer, and its theorems at concrete inputs.
use lib_hh_old.Common.{ℕ, ◌≤◌, ◌≡◌, refl, arith, some, none, List, [], ◌∷◌, length}
use lib_hh_old.Common.Bytes.{le_value}
use lib_hh_old.Base.Pickle.{
  Pickle, write_bytes, copy, view, payload, payload_size, find_next, peek_next,
}
use lib_hh_old.Base.Pickle.Layout.{padded}
use lib_hh_old.Base.Pickle.Write.{Writes, write_bytes-Writes}
use lib_hh_old.Base.Pickle.Copy.{Copied, copy-Copied}
use lib_hh_old.Base.Pickle.View.{view-payload_inside}
use lib_hh_old.Base.Pickle.Plain.{
  plain, seven, seven_block, seven-IsOwned, seven-IsReadable, seven_wire, seven_wire-IsByte,
}

find_next_seven : find_next 4 seven_wire ≡ some 8
unfolding find_next peek_next le_value
find_next_seven = refl

write_bytes-Writes_example :
    Writes seven seven_block (padded (1 ∷ 2 ∷ 3 ∷ [])) (write_bytes plain seven (1 ∷ 2 ∷ 3 ∷ []))
write_bytes-Writes_example =
    write_bytes-Writes plain seven seven_block (1 ∷ 2 ∷ 3 ∷ []) seven-IsOwned (omega arith)

copy-Copied_example :
    (q : Pickle) × (block' : List ℕ) × (copy plain seven ≡ some q)
    × Copied seven seven_block q block'
    × (q.write_offset ≡ seven.write_offset)
copy-Copied_example = copy-Copied plain seven seven_block seven-IsReadable

abbrev other : Pickle
other = record { header = none; header_size = 8; capacity_after_header = 0; write_offset = 0 }

view-payload_inside_example :
    payload_size (view seven_wire 8) ≤ length (payload (view seven_wire 8))
view-payload_inside_example =
    view-payload_inside seven_wire 8 seven_wire-IsByte (omega arith) (omega arith)
