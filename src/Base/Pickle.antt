-- ===== src/Base/Pickle.antt =====
-- libHH/base/pickle.h and pickle.cpp: the writer `Pickle`. A block of memory is the list of its
-- bytes, and a pointer is an offset into it. `none` is undefined behaviour: a null `header_`
-- followed, or a byte outside its block.
pub mod Layout
pub mod Claim
pub mod Write
pub mod Fresh
pub mod Copy
pub mod View
pub mod Framing
pub mod Plain
mod Examples
use lib_hh_old.Common.{
  ℕ, suc, ◌+◌, ◌-◌, ◌*◌, ◌%◌, ◌≤◌, ◌≡◌, Bool, true, false, Option, some, none, List, [], ◌∷◌, ◌++◌,
  max, ltb, leb, ◌==◌, if◌then◌else◌, ◌>>=◌, length, take, drop,
}
use lib_hh_old.Common.Slices.{slice, store, load}
use lib_hh_old.Common.Bytes.{le_bytes, le_value, zeros, wide_bytes}
use lib_hh_old.Common.Int.{ℤ, pos, negsuc, size_mod, size_max, add_size, sub_size, to_int, from_int}
use lib_hh_old.Base.Bits.{align}

-- `realloc` of the C library: the block gets the new length and keeps its bytes up to the shorter
-- of the two lengths, and the rest is indeterminate. `malloc` is `realloc` of the null pointer.
pub record Allocator : Type 0 where
  pub realloc : List ℕ → ℕ → List ℕ
  pub length-realloc : (mem : List ℕ) (n : ℕ) → length (realloc mem n) ≡ n
  pub take-realloc :
      (mem : List ℕ) (n k : ℕ) → k ≤ length mem → k ≤ n → take k (realloc mem n) ≡ take k mem

-- `header_` is the block that starts with the header, or null.
pub record Pickle : Type 0 where
  pub header : Option (List ℕ)
  pub header_size : ℕ
  pub capacity_after_header : ℕ
  pub write_offset : ℕ

-- `kPayloadUnit`, `sizeof(Header)`, `kCapacityReadOnly`.
abbrev pub payload_unit : ℕ
payload_unit = 64

abbrev pub sizeof_header : ℕ
sizeof_header = 4

abbrev pub capacity_read_only : ℕ
capacity_read_only = size_max

-- `header_->payload_size`, the first field of the header.
abbrev pub stored_payload_size : List ℕ → ℕ
stored_payload_size block = le_value (slice 0 4 block)

unfoldable pub payload_size : Pickle → ℕ
payload_size p = elim p.header [ none ↦ 0 | some block ↦ stored_payload_size block ]

-- The memory from `payload()` on.
unfoldable pub payload : Pickle → List ℕ
payload p = elim p.header [ none ↦ [] | some block ↦ drop p.header_size block ]

unfoldable pub size : Pickle → Option ℕ
size p = do block ← p.header; some (add_size p.header_size (stored_payload_size block))

-- The bytes that `data()` and `size()` give to a caller.
unfoldable pub contents : Pickle → Option (List ℕ)
contents p = do block ← p.header; n ← size p; load block 0 n

unfoldable pub get_total_allocated_size : Pickle → ℕ
get_total_allocated_size p =
    if p.capacity_after_header == capacity_read_only
    then 0
    else add_size p.header_size p.capacity_after_header

abbrev pub block_of : Option (List ℕ) → List ℕ
block_of none = []
block_of (some block) = block

-- `memset(write + num_bytes, 0, data_len - num_bytes)`, then the two assignments at the end of
-- `ClaimUninitializedBytesInternal`.
unfoldable pub finish_claim : Pickle → ℕ → ℕ → ℕ → Option (Pickle × ℕ)
finish_claim p num_bytes data_len new_size = do
  block ← p.header
  let write = p.header_size + p.write_offset
  padded ← store block (write + num_bytes) (zeros (sub_size data_len num_bytes))
  sized ← store padded 0 (le_bytes 4 new_size)
  some (record p { header = some sized; write_offset = new_size }, write)

-- The capacity that is asked for when a claim does not fit.
unfoldable pub grown_capacity : ℕ → ℕ
grown_capacity capacity =
    let doubled : ℕ = capacity * 2 % size_mod in
    if ltb 4096 doubled then sub_size (align doubled 4096) payload_unit else doubled

-- `operator=` up to its `Resize`: a view is let go, and so is a block with another header size.
unfoldable pub assign_start : Pickle → Pickle → Pickle
assign_start p other =
    let owned : Pickle =
      if p.capacity_after_header == capacity_read_only
      then record p { header = none; capacity_after_header = 0 }
      else p in
    if owned.header_size == other.header_size
    then owned
    else record owned { header = none; header_size = other.header_size }

module _ (alloc : Allocator) where
  unfoldable pub resize : Pickle → ℕ → Pickle
  unfolding get_total_allocated_size
  resize p new_capacity =
      let q : Pickle = record p { capacity_after_header = align new_capacity payload_unit } in
      record q { header = some (alloc.realloc (block_of p.header) (get_total_allocated_size q)) }

  -- The body of the two constructors of an empty pickle.
  unfoldable pub new_with_size : ℕ → Option Pickle
  new_with_size header_size = do
    let p =
        resize
          (record {
            header = none;
            header_size = header_size;
            capacity_after_header = 0;
            write_offset = 0;
          })
          payload_unit
    block ← p.header
    sized ← store block 0 (le_bytes 4 0)
    some (record p { header = some sized })

  unfoldable pub new_pickle : Option Pickle
  new_pickle = new_with_size sizeof_header

  -- `Pickle(int header_size)`.
  unfoldable pub new_pickle_with_header : ℕ → Option Pickle
  new_pickle_with_header header_size = new_with_size (align header_size 4)

  -- `memcpy(header_, other.header_, header_size_ + other.header_->payload_size)`, which both the
  -- copy constructor and the assignment end with, after their `Resize`.
  unfoldable pub copy_from : Pickle → List ℕ → Option Pickle
  copy_from p other_block = do
    let q = resize p (stored_payload_size other_block)
    block ← q.header
    bytes ← load other_block 0 (add_size q.header_size (stored_payload_size other_block))
    copied ← store block 0 bytes
    some (record q { header = some copied })

  -- The copy constructor.
  unfoldable pub copy : Pickle → Option Pickle
  copy other = do
    other_block ← other.header
    copy_from
        (record {
          header = none;
          header_size = other.header_size;
          capacity_after_header = 0;
          write_offset = other.write_offset;
        })
        other_block

  -- `operator=` between different objects.
  unfoldable pub assign : Pickle → Pickle → Option Pickle
  assign p other = do
    other_block ← other.header
    q ← copy_from (assign_start p other) other_block
    some (record q { write_offset = other.write_offset })

  unfoldable pub claim_uninitialized_bytes_internal : Pickle → ℕ → Option (Pickle × ℕ)
  claim_uninitialized_bytes_internal p num_bytes =
      let data_len : ℕ = align num_bytes 4 in
      let new_size : ℕ = add_size p.write_offset data_len in
      if ltb p.capacity_after_header new_size
      then finish_claim (resize p (max (grown_capacity p.capacity_after_header) new_size)) num_bytes
          data_len new_size
      else finish_claim p num_bytes data_len new_size

  unfoldable pub claim_bytes : Pickle → ℕ → Option (Pickle × ℕ)
  claim_bytes p num_bytes = do
    (q, write) ← claim_uninitialized_bytes_internal p num_bytes
    block ← q.header
    zeroed ← store block write (zeros num_bytes)
    some (record q { header = some zeroed }, write)

  unfoldable pub write_bytes_common : Pickle → List ℕ → Option Pickle
  write_bytes_common p bytes = do
    (q, write) ← claim_uninitialized_bytes_internal p (length bytes)
    block ← q.header
    written ← store block write bytes
    some (record q { header = some written })

  -- `WriteBytes`, and `WritePOD` through `WriteBytesStatic`.
  unfoldable pub write_bytes : Pickle → List ℕ → Option (Pickle × Bool)
  write_bytes p bytes = do q ← write_bytes_common p bytes; some (q, true)

  unfoldable pub write_int : Pickle → ℤ → Option (Pickle × Bool)
  write_int p value = write_bytes p (le_bytes 4 (from_int value))

  unfoldable pub write_bool : Pickle → Bool → Option (Pickle × Bool)
  write_bool p value = write_int p (if value then pos 1 else pos 0)

  unfoldable pub write_uint16 : Pickle → ℕ → Option (Pickle × Bool)
  write_uint16 p value = write_bytes p (le_bytes 2 value)

  unfoldable pub write_uint32 : Pickle → ℕ → Option (Pickle × Bool)
  write_uint32 p value = write_bytes p (le_bytes 4 value)

  -- `WriteInt64`, `WriteUInt64` and `WriteDouble`, on the 64 bits of the value.
  unfoldable pub write_word64 : Pickle → ℕ → Option (Pickle × Bool)
  write_word64 p value = write_bytes p (le_bytes 8 value)

  -- `WriteSizeT` widens to 64 bits first.
  unfoldable pub write_size_t : Pickle → ℕ → Option (Pickle × Bool)
  write_size_t p value = write_word64 p value

  unfoldable pub write_string : Pickle → List ℕ → Option (Pickle × Bool)
  write_string p value = do
    (q, done) ← write_int p (to_int (length value % size_mod))
    if done then write_bytes q value else some (q, false)

  -- `WriteString16` on the 16-bit units of a `std::wstring`.
  unfoldable pub write_string16 : Pickle → List ℕ → Option (Pickle × Bool)
  write_string16 p value = do
    (q, done) ← write_int p (to_int (length value % size_mod))
    if done then write_bytes q (wide_bytes value) else some (q, false)

  -- `WriteData(data, length)` reads `length` bytes at `data`.
  unfoldable pub write_data : Pickle → List ℕ → ℤ → Option (Pickle × Bool)
  write_data p bytes (negsuc n) = some (p, false)
  write_data p bytes (pos n) = do
    (q, done) ← write_int p (pos n)
    read ← load bytes 0 n
    if done then write_bytes q read else some (q, false)

  unfoldable pub reserve : Pickle → ℕ → Pickle
  reserve p additional_capacity =
      let new_size : ℕ = add_size p.write_offset (align additional_capacity 4) in
      if ltb p.capacity_after_header new_size
      then resize p (add_size (p.capacity_after_header * 2) new_size)
      else p

-- `Pickle(const char* data, int data_len)`: `bytes` is the memory from `data` on.
unfoldable pub view : List ℕ → ℕ → Pickle
view bytes data_len =
    let given : ℕ =
      if leb sizeof_header data_len then sub_size data_len (stored_payload_size bytes) else 0 in
    let bounded : ℕ = if ltb data_len given then 0 else given in
    let aligned : ℕ = if bounded == align bounded 4 then bounded else 0 in
    record {
      header = if aligned == 0 then none else some bytes;
      header_size = aligned;
      capacity_after_header = capacity_read_only;
      write_offset = 0;
    }

-- `PeekNext`: the memory between the two ends of the range; `none` is `false`.
unfoldable pub peek_next : ℕ → List ℕ → Option ℕ
peek_next header_size range =
    if ltb (length range) sizeof_header
    then none
    else if ltb (length range) header_size
    then none
    else if ltb (size_max - header_size) (stored_payload_size range)
    then some size_max
    else some (add_size header_size (stored_payload_size range))

-- `FindNext`: the offset where the pickle ends, or null.
unfoldable pub find_next : ℕ → List ℕ → Option ℕ
find_next header_size range = do
  pickle_size ← peek_next header_size range
  if ltb (length range) pickle_size then none else some pickle_size
