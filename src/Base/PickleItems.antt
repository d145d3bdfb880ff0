-- ===== src/Base/PickleItems.antt =====
-- The values that pickle.h writes and reads, as one type: what each write appends, and the read that
-- belongs to it.
pub mod Write
pub mod Read
pub mod RoundTrip
mod Examples
use lib_hh_old.Common.{ℕ, ◌^◌, ◌<◌, Bool, Option, List, ◌++◌, length, if◌then◌else◌, All}
use lib_hh_old.Common.Bytes.{le_bytes, wide_bytes, IsUnit}
use lib_hh_old.Common.Int.{ℤ, pos, IsInt, from_int}
use lib_hh_old.Base.Pickle.{
  Pickle, Allocator, write_bool, write_int, write_uint16, write_uint32, write_word64, write_size_t,
  write_string, write_string16, write_data,
}
use lib_hh_old.Base.Pickle.Layout.{padded}
use lib_hh_old.Base.PickleIterator.{
  Reader, ◌>>=◌, pure, read_bool, read_int, read_uint16, read_uint32, read_word64, read_size_t,
  read_string, read_string16, read_data,
}

-- What can be written to a pickle. Floats and 64-bit numbers are their bit patterns.
pub data Item : Type 0 where
  bool : Bool → Item
  int : ℤ → Item
  uint16 uint32 word64 size_t : ℕ → Item
  string string16 blob : List ℕ → Item

-- A value that its C++ type can hold; a text or a blob is shorter than 1 GB.
abbrev pub Fits : Item → Type 0
Fits (bool b) = Unit {0}
Fits (int z) = IsInt z
Fits (uint16 v) = v < 2 ^ 16
Fits (uint32 v) = v < 2 ^ 32
Fits (word64 v) = v < 2 ^ 64
Fits (size_t v) = v < 2 ^ 32
Fits (string bs) = length bs < 2 ^ 30
Fits (string16 us) = (length us < 2 ^ 29) × All IsUnit us
Fits (blob bs) = length bs < 2 ^ 30

-- The payload that an item takes.
unfoldable pub encode : Item → List ℕ
encode (bool b) = padded (le_bytes 4 (from_int (if b then pos 1 else pos 0)))
encode (int z) = padded (le_bytes 4 (from_int z))
encode (uint16 v) = padded (le_bytes 2 v)
encode (uint32 v) = padded (le_bytes 4 v)
encode (word64 v) = padded (le_bytes 8 v)
encode (size_t v) = padded (le_bytes 8 v)
encode (string bs) = padded (le_bytes 4 (from_int (pos (length bs)))) ++ padded bs
encode (string16 us) = padded (le_bytes 4 (from_int (pos (length us)))) ++ padded (wide_bytes us)
encode (blob bs) = padded (le_bytes 4 (from_int (pos (length bs)))) ++ padded bs

unfoldable pub write_item : Allocator → Pickle → Item → Option (Pickle × Bool)
write_item alloc p (bool b) = write_bool alloc p b
write_item alloc p (int z) = write_int alloc p z
write_item alloc p (uint16 v) = write_uint16 alloc p v
write_item alloc p (uint32 v) = write_uint32 alloc p v
write_item alloc p (word64 v) = write_word64 alloc p v
write_item alloc p (size_t v) = write_size_t alloc p v
write_item alloc p (string bs) = write_string alloc p bs
write_item alloc p (string16 us) = write_string16 alloc p us
write_item alloc p (blob bs) = write_data alloc p bs (pos (length bs))

-- The type of an item, and the read that belongs to it.
pub data Kind : Type 0 where
  bool int uint16 uint32 word64 size_t string string16 blob : Kind

unfoldable pub kind : Item → Kind
kind (Item.bool b) = Kind.bool
kind (Item.int z) = Kind.int
kind (Item.uint16 v) = Kind.uint16
kind (Item.uint32 v) = Kind.uint32
kind (Item.word64 v) = Kind.word64
kind (Item.size_t v) = Kind.size_t
kind (Item.string bs) = Kind.string
kind (Item.string16 us) = Kind.string16
kind (Item.blob bs) = Kind.blob

unfoldable pub read_item : Kind → Reader Item
read_item Kind.bool = do r ← read_bool; pure (Item.bool r)
read_item Kind.int = do r ← read_int; pure (Item.int r)
read_item Kind.uint16 = do r ← read_uint16; pure (Item.uint16 r)
read_item Kind.uint32 = do r ← read_uint32; pure (Item.uint32 r)
read_item Kind.word64 = do r ← read_word64; pure (Item.word64 r)
read_item Kind.size_t = do r ← read_size_t; pure (Item.size_t r)
read_item Kind.string = do r ← read_string; pure (Item.string r)
read_item Kind.string16 = do r ← read_string16; pure (Item.string16 r)
read_item Kind.blob = do r ← read_data; pure (Item.blob r)
