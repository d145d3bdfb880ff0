-- ===== src/Base/PickleItems/Write.antt =====
-- The write of one item, and what it does to the payload.
use lib_hh_old.Common.{
  ℕ, ◌+◌, ◌%◌, ◌^◌, ◌≤◌, ◌<◌, ◌≡◌, refl, ap, ◌∙◌, false, some, List, ◌++◌, arith, length,
  length-append, take-length, if◌then◌else◌, ◌>>=◌,
}
use lib_hh_old.Common.Slices.{load_lem}
use lib_hh_old.Common.Bytes.{le_bytes, wide_bytes, zeros, length-zeros}
use lib_hh_old.Common.Int.{ℤ, pos, size_mod, to_int, from_int}
use lib_hh_old.Base.Pickle.{
  Pickle, Allocator, write_bytes, write_bool, write_int, write_uint16, write_uint32, write_word64,
  write_size_t, write_string, write_string16, write_data,
}
use lib_hh_old.Base.Pickle.Layout.{IsOwned, padded, padding}
use lib_hh_old.Base.Pickle.Write.{Writes, write_bytes-Writes, offset-Appended, trans-Appended}
use lib_hh_old.Base.PickleItems.{Item, Fits, encode, write_item}

length-padded : (bytes : List ℕ) → length (padded bytes) ≡ length bytes + padding (length bytes)
length-padded bytes =
    length-append bytes (zeros (padding (length bytes)))
    ∙ ap (λ n. length bytes + n) (length-zeros (padding (length bytes)))

-- There is room for `n` more bytes.
abbrev pub HasRoom : Pickle → ℕ → Type 0
HasRoom p n = p.write_offset + n + 4 ≤ 2 ^ 30

module _ (alloc : Allocator) (p : Pickle) (block : List ℕ) (own : IsOwned p block) where
  pub pod-Writes :
      (n v : ℕ)
      → HasRoom p (length (padded (le_bytes n v)))
      → Writes p block (padded (le_bytes n v)) (write_bytes alloc p (le_bytes n v))
  pod-Writes n v room =
      write_bytes-Writes alloc p block (le_bytes n v) own
        (omega (arith, length-padded (le_bytes n v)))

  -- A length and then the bytes.
  sized-Writes :
      (n : ℕ) (z : ℤ) (bytes : List ℕ)
      → z ≡ pos n
      → HasRoom p (length (padded (le_bytes 4 (from_int (pos n))) ++ padded bytes))
      → Writes p block (padded (le_bytes 4 (from_int (pos n))) ++ padded bytes) (
          write_int alloc p z >>= λ r.
          if r.1 then write_bytes alloc r.0 bytes else some (r.0, false))
  unfolding write_int
  sized-Writes n z bytes e room =
      let head : List ℕ = le_bytes 4 (from_int (pos n)) in
      let (q, block', run, done) = pod-Writes 4 (from_int (pos n)) (omega (arith, total)) in
      let (r, block'', run', done') =
        write_bytes-Writes alloc q block' bytes done.owned (
          omega (arith, total, length-padded bytes, offset-Appended p q block block' _ own done)) in
      (
        r,
        block'',
        rw (e, run) run',
        trans-Appended p q r block block' block'' (padded head) (padded bytes) done done',
      )
    where
      total :
          length (padded (le_bytes 4 (from_int (pos n))) ++ padded bytes)
          ≡ length (padded (le_bytes 4 (from_int (pos n)))) + length (padded bytes)
      total = length-append (padded (le_bytes 4 (from_int (pos n)))) (padded bytes)

  length_as_int : (n : ℕ) → n < 2 ^ 30 → to_int (n % size_mod) ≡ pos n
  unfolding to_int
  length_as_int n h = ground arith

  write_data-Writes :
      (bytes : List ℕ)
      → length bytes < 2 ^ 30
      → HasRoom p (length (padded (le_bytes 4 (from_int (pos (length bytes)))) ++ padded bytes))
      → Writes p block
          (padded (le_bytes 4 (from_int (pos (length bytes)))) ++ padded bytes)
          (write_data alloc p bytes (pos (length bytes)))
  unfolding write_data
  write_data-Writes bytes h room =
      let (q, block', run, done) =
        sized-Writes (length bytes) (pos (length bytes)) bytes refl room in
      (
        q,
        block',
        rw
            (
              load_lem bytes 0 (length bytes) (omega arith),
              take-length (length bytes) bytes (omega arith),
            )
            run,
        done,
      )

  -- Writing a value that fits its type to a well-formed pickle that has room below 1 GB never
  -- faults, keeps the pickle well formed, appends the value's encoding to the payload and leaves the
  -- rest of the header alone.
  pub write_item-Writes :
      (x : Item)
      → Fits x
      → HasRoom p (length (encode x))
      → Writes p block (encode x) (write_item alloc p x)
  unfolding write_item encode
  write_item-Writes (Item.bool b) h room = unfold write_bool write_int in pod-Writes 4 _ room
  write_item-Writes (Item.int z) h room = unfold write_int in pod-Writes 4 _ room
  write_item-Writes (Item.uint16 v) h room = unfold write_uint16 in pod-Writes 2 v room
  write_item-Writes (Item.uint32 v) h room = unfold write_uint32 in pod-Writes 4 v room
  write_item-Writes (Item.word64 v) h room = unfold write_word64 in pod-Writes 8 v room
  write_item-Writes (Item.size_t v) h room = unfold write_size_t write_word64 in pod-Writes 8 v room
  write_item-Writes (Item.string bs) h room =
      unfold write_string in sized-Writes (length bs) _ bs (length_as_int (length bs) h) room
  write_item-Writes (Item.string16 us) h room =
      unfold write_string16 in
      sized-Writes (length us) _ (wide_bytes us) (length_as_int (length us) (omega (arith, h.0)))
        room
  write_item-Writes (Item.blob bs) h room = write_data-Writes bs h room
