-- ===== src/Ipc/ParamTraits/Single.antt =====
-- The types that one write and one read of a pickle carry.
use mathlib.Core.Path.{subst}
use lib_hh_old.Common.{ℕ, ◌<◌, ◌^◌, ◌%◌, ◌≡◌, List, [], ◌++◌, arith, length, All}
use lib_hh_old.Common.Bytes.{le_bytes, le_value, le_value-le_bytes, length-le_bytes, IsUnit}
use lib_hh_old.Common.Int.{pos, IsInt, to_int, from_int, size_mod}
use lib_hh_old.Base.Pickle.{Pickle, Allocator}
use lib_hh_old.Base.Pickle.Layout.{IsOwned, padded}
use lib_hh_old.Base.PickleItems.{Item, Fits, encode, write_item}
use lib_hh_old.Base.PickleItems.Write.{HasRoom, write_item-Writes, pod-Writes}
use lib_hh_old.Base.PickleItems.Read.{
  Returns, >>=-Returns, pure-Returns, bytes-Returns, read_bool-Returns, read_int-Returns,
  read_uint32-Returns, read_word64-Returns, read_string-Returns, read_string16-Returns,
  read_data-Returns,
}
use lib_hh_old.Base.PickleIterator.{PickleIterator, Reader, ◌>>=◌, pure, read_int, read_bytes}
use lib_hh_old.Base.PickleIterator.Reads.{Ahead}
use lib_hh_old.Ipc.ParamTraits.{
  dropping, bool_param, int_param, uint_param, char_param, long_long_param, float_param,
  double_param, string_param, wstring_param, chars_param, unit_param,
}
use lib_hh_old.Ipc.ParamTraits.Codec.{IsCodec, Puts, dropping-Puts, nothing-Puts}

-- The write of an item, as the write of a parameter.
item-Puts :
    (alloc : Allocator) (p : Pickle) (block : List ℕ) (x : Item)
    → IsOwned p block
    → Fits x
    → HasRoom p (length (encode x))
    → Puts p block (encode x) (dropping (write_item alloc p x))
item-Puts alloc p block x own h room =
    dropping-Puts p block (encode x) (write_item alloc p x)
      (write_item-Writes alloc p block own x h room)

pub bool_param-IsCodec : IsCodec bool_param (λ v. Unit {0}) (λ v. encode (Item.bool v))
unfolding write_item
bool_param-IsCodec = record {
  puts = λ alloc p block v own h room. item-Puts alloc p block (Item.bool v) own tt room;
  reads = λ v rest it h ahead. read_bool-Returns v rest it ahead;
}

pub int_param-IsCodec : IsCodec int_param IsInt (λ v. encode (Item.int v))
unfolding write_item
int_param-IsCodec = record {
  puts = λ alloc p block v own h room. item-Puts alloc p block (Item.int v) own h room;
  reads = λ v rest it h ahead. read_int-Returns v rest it h (unfold encode in ahead);
}

from_int-to_int : (v : ℕ) → v < 2 ^ 32 → from_int (to_int v) ≡ v
unfolding from_int to_int
from_int-to_int v h = ground arith

to_int-IsInt : (v : ℕ) → v < 2 ^ 32 → IsInt (to_int v)
unfolding to_int
to_int-IsInt v h = ground arith

-- The value behind a read, changed by a function.
pub map-Returns :
    {A B : Type 0} (m : Reader A) (f : A → B) (a : A) (b : B) (it : PickleIterator) (rest : List ℕ)
    → f a ≡ b
    → Returns m a it rest
    → Returns (m >>= λ r. pure (f r)) b it rest
map-Returns m f a b it rest e r = >>=-Returns m _ a b it rest rest r (λ it' ahead.
    subst (λ c. Returns (pure (f a)) c it' rest) e (pure-Returns (f a) it' rest ahead))

pub uint_param-IsCodec : IsCodec uint_param (λ v. v < 2 ^ 32) (λ v. encode (Item.int (to_int v)))
unfolding write_item
uint_param-IsCodec = record {
  puts = λ alloc p block v own h room.
      item-Puts alloc p block (Item.int (to_int v)) own (to_int-IsInt v h) room;
  reads = λ v rest it h ahead.
      map-Returns read_int from_int (to_int v) v it rest (from_int-to_int v h)
        (read_int-Returns (to_int v) rest it (to_int-IsInt v h) (unfold encode in ahead));
}

-- A value of as many bytes, read as bytes.
pub bytes_value-Returns :
    (n v : ℕ) (rest : List ℕ) (it : PickleIterator)
    → v < 256 ^ n
    → Ahead it (padded (le_bytes n v) ++ rest)
    → Returns (read_bytes (pos n) >>= λ bytes. pure (le_value bytes)) v it rest
bytes_value-Returns n v rest it h ahead =
    map-Returns (read_bytes (pos n)) le_value (le_bytes n v) v it rest (le_value-le_bytes n v h) (
      subst (λ k. Returns (read_bytes (pos k)) (le_bytes n v) it rest) (length-le_bytes n v)
        (bytes-Returns (le_bytes n v) rest it ahead))

pub char_param-IsCodec : IsCodec char_param (λ v. v < 256) (λ v. padded (le_bytes 1 v))
char_param-IsCodec = record {
  puts = λ alloc p block v own h room.
      dropping-Puts p block _ _ (pod-Writes alloc p block own 1 v room);
  reads = λ v rest it h ahead. bytes_value-Returns 1 v rest it (omega arith) ahead;
}

pub long_long_param-IsCodec :
    IsCodec long_long_param (λ v. v < 2 ^ 64) (λ v. encode (Item.word64 v))
unfolding write_item
long_long_param-IsCodec = record {
  puts = λ alloc p block v own h room. item-Puts alloc p block (Item.word64 v) own h room;
  reads = λ v rest it h ahead. read_word64-Returns v rest it h (unfold encode in ahead);
}

pub float_param-IsCodec : IsCodec float_param (λ v. v < 2 ^ 32) (λ v. encode (Item.uint32 v))
unfolding write_item
float_param-IsCodec = record {
  puts = λ alloc p block v own h room. item-Puts alloc p block (Item.uint32 v) own h room;
  reads = λ v rest it h ahead. read_uint32-Returns v rest it h (unfold encode in ahead);
}

pub double_param-IsCodec : IsCodec double_param (λ v. v < 2 ^ 64) (λ v. padded (le_bytes 8 v))
double_param-IsCodec = record {
  puts = λ alloc p block v own h room.
      dropping-Puts p block _ _ (pod-Writes alloc p block own 8 v room);
  reads = λ v rest it h ahead. bytes_value-Returns 8 v rest it (omega arith) ahead;
}

pub string_param-IsCodec :
    (n : ℕ) → IsCodec (string_param n) (λ v. length v < 2 ^ 30) (λ v. encode (Item.string v))
unfolding write_item
string_param-IsCodec n = record {
  puts = λ alloc p block v own h room. item-Puts alloc p block (Item.string v) own h room;
  reads = λ v rest it h ahead. read_string-Returns v rest it h ahead;
}

pub wstring_param-IsCodec :
    (n : ℕ)
    → IsCodec
        (wstring_param n)
        (λ v. (length v < 2 ^ 29) × All IsUnit v)
        (λ v. encode (Item.string16 v))
unfolding write_item
wstring_param-IsCodec n = record {
  puts = λ alloc p block v own h room. item-Puts alloc p block (Item.string16 v) own h room;
  reads = λ v rest it h ahead. read_string16-Returns v rest it h.0 h.1 ahead;
}

pub length_as_int : (n : ℕ) → n < 2 ^ 30 → to_int (n % size_mod) ≡ pos n
unfolding to_int
length_as_int n h = ground arith

pub chars_param-IsCodec :
    (n : ℕ) → IsCodec (chars_param n) (λ v. length v < 2 ^ 30) (λ v. encode (Item.blob v))
unfolding write_item
chars_param-IsCodec n = record {
  puts = λ alloc p block v own h room.
      rw (length_as_int (length v) h) (item-Puts alloc p block (Item.blob v) own h room);
  reads = λ v rest it h ahead. read_data-Returns v rest it h ahead;
}

pub unit_param-IsCodec : (n : ℕ) → IsCodec (unit_param n) (λ v. Unit {0}) (λ v. [])
unit_param-IsCodec n = record {
  puts = λ alloc p block v own h room. nothing-Puts p block own;
  reads = λ v rest it h ahead. pure-Returns v it rest ahead;
}
