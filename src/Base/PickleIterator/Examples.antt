-- ===== src/Base/PickleIterator/Examples.antt =====
-- Runs of the reader, and its theorems at concrete inputs.
use lib_hh_old.Common.{◌≡◌, refl, arith, some, none, false, [], ◌∷◌}
use lib_hh_old.Common.Int.{pos, negsuc, pos_part}
use lib_hh_old.Base.Bits.Alignment.{align_four}
use lib_hh_old.Base.PickleIterator.{
  PickleIterator, advance, get_read_pointer_for, get_read_pointer_and_advance,
  get_read_pointer_for_array, scale,
}
use lib_hh_old.Base.PickleIterator.Bounds.{
  IsInBounds, Safe, get_read_pointer_and_advance-Safe, get_read_pointer_for_array-Safe,
}

abbrev start : PickleIterator
start = record { payload = 7 ∷ 0 ∷ 0 ∷ 0 ∷ []; is_null = false; read_index = 0; end_index = 4 }

start-IsInBounds : IsInBounds start
start-IsInBounds = record { ordered = omega arith; bounded = omega arith }

-- One byte is read, and its padding is skipped.
read_one : get_read_pointer_for 1 start ≡ (some 0, record start { read_index = 4 })
unfolding get_read_pointer_for advance
read_one = rw (align_four 1 (omega arith)) refl

read_negative :
    get_read_pointer_and_advance (negsuc 4) start ≡ (none, record start { read_index = 4 })
unfolding get_read_pointer_and_advance
read_negative = refl

get_read_pointer_and_advance-Safe_example :
    Safe 3 start (get_read_pointer_and_advance (pos 3) start)
get_read_pointer_and_advance-Safe_example =
    get_read_pointer_and_advance-Safe (pos 3) start start-IsInBounds

get_read_pointer_for_array-Safe_example :
    Safe
      (pos_part (scale (pos 0x4000_0001) 4))
      start
      (get_read_pointer_for_array (pos 0x4000_0001) 4 start)
get_read_pointer_for_array-Safe_example =
    get_read_pointer_for_array-Safe (pos 0x4000_0001) 4 start start-IsInBounds
