-- ===== src/Base/PickleItems/Read.antt =====
-- The read of one item whose bytes lie next.
use mathlib.Core.Path.{subst}
use lib_hh_old.Common.{
  ℕ, ◌*◌, ◌%◌, ◌^◌, ◌<◌, ◌≡◌, refl, ap, ◌∙◌, Bool, true, false, some, List, ◌++◌, append_assoc,
  arith, length, ◌==◌, ==_iff, not, All,
}
use lib_hh_old.Common.Bytes.{
  le_bytes, le_value, le_value-le_bytes, length-le_bytes, wide_bytes, wide_units,
  wide_units-wide_bytes, length-wide_bytes, IsUnit,
}
use lib_hh_old.Common.Int.{ℤ, pos, IsInt, size_mod, to_int, from_int, to_int-from_int, from_int-lt}
use lib_hh_old.Base.Pickle.Layout.{padded}
use lib_hh_old.Base.PickleIterator.{
  PickleIterator, Reader, ◌>>=◌, pure, continue, read_builtin_type, read_bool, read_int,
  read_uint16, read_uint32, read_word64, read_size_t, read_string, read_string16, read_data,
  read_bytes, bytes_at, get_read_pointer_for_array, get_read_pointer_and_advance,
}
use lib_hh_old.Base.PickleIterator.Reads.{
  Ahead, past, get_read_pointer_for-Ahead, get_read_pointer_and_advance-Ahead, slice-Ahead,
  past-Ahead,
}
use lib_hh_old.Base.PickleItems.{Item, Fits, encode, kind, read_item}

-- `read` returns `a` and leaves `rest`.
abbrev pub Returns : {A : Type 0} → Reader A → A → PickleIterator → List ℕ → Type 0
Returns read a it rest = (it' : PickleIterator) × (read it ≡ (some a, it')) × Ahead it' rest

read_builtin_type-Returns :
    (bytes rest : List ℕ) (it : PickleIterator)
    → Ahead it (padded bytes ++ rest)
    → Returns (read_builtin_type (length bytes)) bytes it rest
unfolding read_builtin_type
read_builtin_type-Returns bytes rest it ahead = (
  past it (length bytes),
  rw (get_read_pointer_for-Ahead it bytes rest ahead)
      (ap (λ b. (some b, past it (length bytes))) (slice-Ahead it bytes rest ahead)),
  past-Ahead it bytes rest ahead,
)

pub >>=-Returns :
    {A B : Type 0} (m : Reader A) (f : A → Reader B) (a : A) (b : B) (it : PickleIterator)
    (middle rest : List ℕ)
    → Returns m a it middle
    → ((it' : PickleIterator) → Ahead it' middle → Returns (f a) b it' rest)
    → Returns (m >>= f) b it rest
>>=-Returns m f a b it middle rest (it', e, ahead) next =
    let (it'', e', ahead') = next it' ahead in (it'', ap (λ r. continue f r) e ∙ e', ahead')

pub pure-Returns :
    {A : Type 0} (a : A) (it : PickleIterator) (rest : List ℕ)
    → Ahead it rest
    → Returns (pure a) a it rest
pure-Returns a it rest ahead = (it, refl, ahead)

-- A builtin value, decoded from its bytes.
decode-Returns :
    {A : Type 0} (n v : ℕ) (f : List ℕ → A) (a : A) (rest : List ℕ) (it : PickleIterator)
    → f (le_bytes n v) ≡ a
    → Ahead it (padded (le_bytes n v) ++ rest)
    → Returns (read_builtin_type n >>= λ bytes. pure (f bytes)) a it rest
decode-Returns {A} n v f a rest it e ahead =
    >>=-Returns (read_builtin_type n) (λ bytes. pure (f bytes)) (le_bytes n v) a it rest rest
      (subst (λ k. Returns (read_builtin_type k) (le_bytes n v) it rest) (length-le_bytes n v)
        (read_builtin_type-Returns (le_bytes n v) rest it ahead))
      (λ it' ahead'. (it', ap (λ r. (some r, it')) e, ahead'))

pub read_int-Returns :
    (z : ℤ) (rest : List ℕ) (it : PickleIterator)
    → IsInt z
    → Ahead it (padded (le_bytes 4 (from_int z)) ++ rest)
    → Returns read_int z it rest
unfolding read_int
read_int-Returns z rest it h =
    decode-Returns 4 (from_int z) (λ bytes. to_int (le_value bytes)) z rest it
      (ap to_int (le_value-le_bytes 4 (from_int z) (omega (arith, from_int-lt z)))
        ∙ to_int-from_int z h)

-- A pointer for as many bytes as a length that was read, and the bytes there.
pub bytes-Returns :
    (bytes rest : List ℕ) (it : PickleIterator)
    → Ahead it (padded bytes ++ rest)
    → Returns (read_bytes (pos (length bytes))) bytes it rest
unfolding read_bytes
bytes-Returns bytes rest it ahead = (
  past it (length bytes),
  rw (get_read_pointer_and_advance-Ahead it bytes rest ahead)
      (ap (λ b. (some b, past it (length bytes))) (slice-Ahead it bytes rest ahead)),
  past-Ahead it bytes rest ahead,
)

pub read_uint32-Returns :
    (v : ℕ) (rest : List ℕ) (it : PickleIterator)
    → v < 2 ^ 32
    → Ahead it (padded (le_bytes 4 v) ++ rest)
    → Returns read_uint32 v it rest
unfolding read_uint32
read_uint32-Returns v rest it h = decode-Returns 4 v le_value v rest it (le_value-le_bytes 4 v h)

read_uint16-Returns :
    (v : ℕ) (rest : List ℕ) (it : PickleIterator)
    → v < 2 ^ 16
    → Ahead it (padded (le_bytes 2 v) ++ rest)
    → Returns read_uint16 v it rest
unfolding read_uint16
read_uint16-Returns v rest it h = decode-Returns 2 v le_value v rest it (le_value-le_bytes 2 v h)

pub read_word64-Returns :
    (v : ℕ) (rest : List ℕ) (it : PickleIterator)
    → v < 2 ^ 64
    → Ahead it (padded (le_bytes 8 v) ++ rest)
    → Returns read_word64 v it rest
unfolding read_word64
read_word64-Returns v rest it h = decode-Returns 8 v le_value v rest it (le_value-le_bytes 8 v h)

-- A `size_t` comes back where the written value fits 32 bits.
read_size_t-Returns :
    (v : ℕ) (rest : List ℕ) (it : PickleIterator)
    → v < 2 ^ 32
    → Ahead it (padded (le_bytes 8 v) ++ rest)
    → Returns read_size_t v it rest
unfolding read_size_t
read_size_t-Returns v rest it h ahead =
    >>=-Returns read_word64 _ v v it rest rest (read_word64-Returns v rest it (omega arith) ahead)
      λ it' ahead'.
        let same : v % size_mod ≡ v = omega arith in (it', rw (same, (==_iff v v).1 refl), ahead')

-- One byte of the four that `WriteBool` writes is read.
pub read_bool-Returns :
    (b : Bool) (rest : List ℕ) (it : PickleIterator)
    → Ahead it (encode (Item.bool b) ++ rest)
    → Returns read_bool b it rest
unfolding read_bool encode
read_bool-Returns true rest it ahead =
    decode-Returns 1 1 (λ bytes. not (le_value bytes == 0)) true rest it
      (unfold le_bytes le_value in refl) (unfold le_bytes from_int in ahead)
read_bool-Returns false rest it ahead =
    decode-Returns 1 0 (λ bytes. not (le_value bytes == 0)) false rest it
      (unfold le_bytes le_value in refl) (unfold le_bytes from_int in ahead)

-- A length and then as many bytes.
read_sized-Returns :
    (bytes rest : List ℕ) (it : PickleIterator)
    → length bytes < 2 ^ 30
    → Ahead it ((padded (le_bytes 4 (from_int (pos (length bytes)))) ++ padded bytes) ++ rest)
    → Returns (read_int >>= read_bytes) bytes it rest
read_sized-Returns bytes rest it h ahead =
    >>=-Returns read_int read_bytes (pos (length bytes)) bytes it (padded bytes ++ rest) rest
      (read_int-Returns (pos (length bytes)) (padded bytes ++ rest) it (omega arith)
        (subst (Ahead it) (append_assoc _ (padded bytes) rest) ahead))
      (bytes-Returns bytes rest)

pub read_string-Returns :
    (bytes rest : List ℕ) (it : PickleIterator)
    → length bytes < 2 ^ 30
    → Ahead it (encode (Item.string bytes) ++ rest)
    → Returns read_string bytes it rest
unfolding encode read_string read_bytes
read_string-Returns bytes rest it h ahead = read_sized-Returns bytes rest it h ahead

pub read_data-Returns :
    (bytes rest : List ℕ) (it : PickleIterator)
    → length bytes < 2 ^ 30
    → Ahead it (encode (Item.blob bytes) ++ rest)
    → Returns read_data bytes it rest
unfolding encode read_data
read_data-Returns bytes rest it h ahead = read_sized-Returns bytes rest it h ahead

-- An array whose size in bytes is an `int` is read as its bytes.
array_as_bytes :
    (n : ℕ) (it : PickleIterator)
    → n < 2 ^ 29
    → get_read_pointer_for_array (pos n) 2 it ≡ get_read_pointer_and_advance (pos (n * 2)) it
unfolding get_read_pointer_for_array
array_as_bytes n it h = rw (to_int-from_int (pos (n * 2)) (omega arith), (==_iff _ _).1 refl)

wide-Returns :
    (units rest : List ℕ) (it : PickleIterator)
    → length units < 2 ^ 29
    → All IsUnit units
    → Ahead it (padded (wide_bytes units) ++ rest)
    → Returns
        (get_read_pointer_for_array (pos (length units)) 2 >>= λ off.
          bytes_at off (length units * 2) >>= λ bytes. pure (wide_units bytes))
        units
        it
        rest
wide-Returns units rest it h ok ahead = (
  past it (length (wide_bytes units)),
  rw
      (
        array_as_bytes (length units) it h,
        ← length-wide_bytes units,
        get_read_pointer_and_advance-Ahead it (wide_bytes units) rest ahead,
      )
      (ap (λ b. (some (wide_units b), past it (length (wide_bytes units))))
          (slice-Ahead it (wide_bytes units) rest ahead)
        ∙ ap (λ u. (some u, past it (length (wide_bytes units)))) (wide_units-wide_bytes units ok)),
  past-Ahead it (wide_bytes units) rest ahead,
)

pub read_string16-Returns :
    (units rest : List ℕ) (it : PickleIterator)
    → length units < 2 ^ 29
    → All IsUnit units
    → Ahead it (encode (Item.string16 units) ++ rest)
    → Returns read_string16 units it rest
unfolding encode read_string16
read_string16-Returns units rest it h ok ahead =
    >>=-Returns read_int _ (pos (length units)) units it (padded (wide_bytes units) ++ rest) rest
      (read_int-Returns (pos (length units)) (padded (wide_bytes units) ++ rest) it (omega arith)
        (subst (Ahead it) (append_assoc _ (padded (wide_bytes units)) rest) ahead))
      (λ it' ahead'. wide-Returns units rest it' h ok ahead')

-- A read whose value is wrapped as an item.
as_item :
    {A : Type 0} (m : Reader A) (f : A → Item) (a : A) (it : PickleIterator) (rest : List ℕ)
    → Returns m a it rest
    → Returns (m >>= λ r. pure (f r)) (f a) it rest
as_item m f a it rest r =
    >>=-Returns m _ a (f a) it rest rest r (λ it' ahead. pure-Returns (f a) it' rest ahead)

-- The read of an item's kind returns the item where its encoding lies next, and leaves the rest.
pub read_item-Returns :
    (x : Item) (rest : List ℕ) (it : PickleIterator)
    → Fits x
    → Ahead it (encode x ++ rest)
    → Returns (read_item (kind x)) x it rest
unfolding read_item kind
read_item-Returns (Item.bool b) rest it h ahead =
    as_item read_bool Item.bool b it rest (read_bool-Returns b rest it ahead)
read_item-Returns (Item.int z) rest it h ahead =
    as_item read_int Item.int z it rest (unfold encode in read_int-Returns z rest it h ahead)
read_item-Returns (Item.uint16 v) rest it h ahead =
    as_item read_uint16 Item.uint16 v it rest
      (unfold encode in read_uint16-Returns v rest it h ahead)
read_item-Returns (Item.uint32 v) rest it h ahead =
    as_item read_uint32 Item.uint32 v it rest
      (unfold encode in read_uint32-Returns v rest it h ahead)
read_item-Returns (Item.word64 v) rest it h ahead =
    as_item read_word64 Item.word64 v it rest
      (unfold encode in read_word64-Returns v rest it h ahead)
read_item-Returns (Item.size_t v) rest it h ahead =
    as_item read_size_t Item.size_t v it rest
      (unfold encode in read_size_t-Returns v rest it h ahead)
read_item-Returns (Item.string bs) rest it h ahead =
    as_item read_string Item.string bs it rest (read_string-Returns bs rest it h ahead)
read_item-Returns (Item.string16 us) rest it h ahead =
    as_item read_string16 Item.string16 us it rest (read_string16-Returns us rest it h.0 h.1 ahead)
read_item-Returns (Item.blob bs) rest it h ahead =
    as_item read_data Item.blob bs it rest (read_data-Returns bs rest it h ahead)
