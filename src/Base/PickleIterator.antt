-- ===== src/Base/PickleIterator.antt =====
-- libHH/base/pickle.h and pickle.cpp: the reader `PickleIterator`. A read pointer is an offset into
-- the payload; a read that returns `false` has `none` beside the iterator that it leaves.
pub mod Bounds
pub mod Reads
mod Examples
use lib_hh_old.Common.{
  ℕ, zero, suc, ◌+◌, ◌-◌, ◌*◌, ◌%◌, Bool, true, false, not, ◌&&◌, Option, some, none, List, [], ◌∷◌,
  ltb, ◌==◌, if◌then◌else◌, take, drop,
}
use lib_hh_old.Common.Slices.{slice}
use lib_hh_old.Common.Bytes.{le_value, wide_units}
use lib_hh_old.Common.Int.{
  ℤ, pos, negsuc, pos_part, size_mod, add_size, sub_size, to_int, from_int, eq_ℤ,
}
use lib_hh_old.Base.Bits.{align}
use lib_hh_old.Base.Pickle.{Pickle}
use lib_hh_old.Base.Pickle

pub record PickleIterator : Type 0 where
  pub payload : List ℕ
  pub is_null : Bool
  pub read_index : ℕ
  pub end_index : ℕ

-- `payload()` is a null pointer where the header is null and has no size.
abbrev pub is_null_payload : Pickle → Bool
is_null_payload p = elim p.header [ none ↦ p.header_size == 0 | some block ↦ false ]

-- The constructor over a pickle.
unfoldable pub iterate : Pickle → PickleIterator
iterate p = record {
  payload = Pickle.payload p;
  is_null = is_null_payload p;
  read_index = 0;
  end_index = Pickle.payload_size p;
}

-- A step of a read: `none` stops the chain with `false`, as `if (!Read…) return false;` does.
abbrev pub Reader : Type 0 → Type 0
Reader A = PickleIterator → Option A × PickleIterator

abbrev pub continue :
    {A B : Type 0} → (A → Reader B) → Option A × PickleIterator → Option B × PickleIterator
continue f (none, it) = (none, it)
continue f (some a, it) = f a it

infixl 5 ◌>>=◌
abbrev pub ◌>>=◌ : {A B : Type 0} → Reader A → (A → Reader B) → Reader B
◌>>=◌ m f it = continue f (m it)

abbrev pub pure : {A : Type 0} → A → Reader A
pure a it = (some a, it)

abbrev pub fail : {A : Type 0} → Reader A
fail it = (none, it)

unfoldable pub advance : PickleIterator → ℕ → PickleIterator
advance it size =
    if ltb (sub_size it.end_index it.read_index) (align size 4)
    then record it { read_index = it.end_index }
    else record it { read_index = add_size it.read_index (align size 4) }

-- `GetReadPointerAndAdvance<Type>()`, by `sizeof(Type)`.
unfoldable pub get_read_pointer_for : ℕ → Reader ℕ
get_read_pointer_for sizeof_type it =
    if ltb (sub_size it.end_index it.read_index) sizeof_type
    then (none, record it { read_index = it.end_index })
    else (some it.read_index, advance it sizeof_type)

-- `GetReadPointerAndAdvance(int num_bytes)`; a null payload gives a null pointer, also for no bytes.
unfoldable pub get_read_pointer_and_advance : ℤ → Reader ℕ
get_read_pointer_and_advance (negsuc n) it = (none, record it { read_index = it.end_index })
get_read_pointer_and_advance (pos n) it =
    if ltb (sub_size it.end_index it.read_index) n
    then (none, record it { read_index = it.end_index })
    else (if it.is_null then none else some it.read_index, advance it n)

-- `static_cast<int64_t>(num_elements) * size_element`.
abbrev pub scale : ℤ → ℕ → ℤ
scale (pos n) size = pos (n * size)
scale (negsuc n) zero = pos 0
scale (negsuc n) (suc size) = negsuc (suc n * suc size - 1)

-- `GetReadPointerAndAdvance(int num_elements, size_t size_element)`.
unfoldable pub get_read_pointer_for_array : ℤ → ℕ → Reader ℕ
get_read_pointer_for_array num_elements size_element it =
    let num_bytes : ℤ = scale num_elements size_element in
    let num_bytes32 : ℤ = to_int (from_int num_bytes) in
    if eq_ℤ num_bytes num_bytes32 then get_read_pointer_and_advance num_bytes32 it else (none, it)

-- The bytes at a read pointer.
abbrev pub bytes_at : ℕ → ℕ → Reader (List ℕ)
bytes_at off n it = (some (slice off n it.payload), it)

-- `ReadBuiltinType` on the bytes of the value.
unfoldable pub read_builtin_type : ℕ → Reader (List ℕ)
read_builtin_type sizeof_type = do
  read_from ← get_read_pointer_for sizeof_type
  bytes_at read_from sizeof_type

unfoldable pub read_bool : Reader Bool
read_bool = do bytes ← read_builtin_type 1; pure (not (le_value bytes == 0))

unfoldable pub read_int : Reader ℤ
read_int = do bytes ← read_builtin_type 4; pure (to_int (le_value bytes))

unfoldable pub read_uint16 : Reader ℕ
read_uint16 = do bytes ← read_builtin_type 2; pure (le_value bytes)

-- `ReadUInt32`, and `ReadFloat` on the bits of the value.
unfoldable pub read_uint32 : Reader ℕ
read_uint32 = do bytes ← read_builtin_type 4; pure (le_value bytes)

-- `ReadInt64`, `ReadUInt64` and `ReadDouble`, on the 64 bits of the value.
unfoldable pub read_word64 : Reader ℕ
read_word64 = do bytes ← read_builtin_type 8; pure (le_value bytes)

-- The 64-bit value must fit `size_t`.
unfoldable pub read_size_t : Reader ℕ
read_size_t = do
  result ← read_word64
  if result % size_mod == result then pure (result % size_mod) else fail

unfoldable pub read_string : Reader (List ℕ)
read_string = do
  len ← read_int
  read_from ← get_read_pointer_and_advance len
  bytes_at read_from (pos_part len)

-- The 16-bit units of a `std::wstring`.
unfoldable pub read_string16 : Reader (List ℕ)
read_string16 = do
  len ← read_int
  read_from ← get_read_pointer_for_array len 2
  bytes ← bytes_at read_from (pos_part len * 2)
  pure (wide_units bytes)

unfoldable pub read_bytes : ℤ → Reader (List ℕ)
read_bytes len = do read_from ← get_read_pointer_and_advance len; bytes_at read_from (pos_part len)

unfoldable pub read_data : Reader (List ℕ)
read_data = do len ← read_int; read_bytes len

unfoldable pub read_length : Reader ℕ
read_length = do len ← read_int; elim len [ pos n ↦ pure n | negsuc n ↦ fail ]

unfoldable pub skip_bytes : ℤ → Reader (Unit {0})
skip_bytes num_bytes = do _ ← get_read_pointer_and_advance num_bytes; pure tt
