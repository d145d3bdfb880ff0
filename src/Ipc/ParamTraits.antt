-- ===== src/Ipc/ParamTraits.antt =====
-- libHH/ipc/ipc_message_utils.h, ipc_message_utils.cpp and ipc_message_utils_impl.h: how the
-- parameters of a message are written and read. A `ParamTraits` for a C++ type is a record; a
-- template of `ParamTraits` is a function between such records. A read is into an object that
-- already holds a value, and what the object holds after a read that answers `false` is not kept.
pub mod Codec
pub mod Single
pub mod Many
pub mod Ordered
pub mod Log
pub mod Schema
pub mod Bounds
pub mod Sizes
pub mod Refusals
pub mod Nested
mod Examples
use lib_hh_old.Common
use lib_hh_old.Common.{
  ℕ, zero, suc, ◌+◌, ◌-◌, ◌*◌, ◌/◌, ◌%◌, ◌^◌, Bool, true, false, Option, some, none, List, [], ◌∷◌,
  ◌++◌, leb, ◌==◌, if◌then◌else◌, length, take, replicate,
}
use lib_hh_old.Common.Bytes.{le_bytes, le_value}
use lib_hh_old.Common.Int.{ℤ, pos, negsuc, size_mod, to_int, from_int}
use lib_hh_old.Base.Pickle.{
  Pickle, Allocator, write_bool, write_int, write_uint32, write_word64, write_bytes, write_string,
  write_string16, write_data,
}
use lib_hh_old.Base.PickleIterator.{
  PickleIterator, iterate, Reader, ◌>>=◌, pure, fail, read_bool, read_int, read_uint32, read_word64,
  read_bytes, read_string, read_string16, read_data, read_length,
}
use lib_hh_old.Ipc.Message.{Message}

-- `fresh` is the value of an object that a container or a caller has just made.
pub record ParamTraits (A : Type 0) : Type 0 where
  pub write : Allocator → A → Pickle → Option Pickle
  pub read : A → Reader A
  pub fresh : A
  pub sizeof_param : ℕ

-- A `Write` drops the answer of the pickle's writer.
abbrev pub dropping : Option (Pickle × Bool) → Option Pickle
dropping none = none
dropping (some (q, done)) = some q

-- `bool`, `int`, `unsigned int`.
abbrev pub bool_param : ParamTraits Bool
bool_param = record {
  write = λ alloc v p. dropping (write_bool alloc p v);
  read = λ r. read_bool;
  fresh = false;
  sizeof_param = 1;
}

abbrev pub int_param : ParamTraits ℤ
int_param = record {
  write = λ alloc v p. dropping (write_int alloc p v);
  read = λ r. read_int;
  fresh = pos 0;
  sizeof_param = 4;
}

abbrev pub uint_param : ParamTraits ℕ
uint_param = record {
  write = λ alloc v p. dropping (write_int alloc p (to_int v));
  read = λ r. read_int >>= λ z. pure (from_int z);
  fresh = 0;
  sizeof_param = 4;
}

-- `signed char` and `unsigned char`, as the byte.
abbrev pub char_param : ParamTraits ℕ
char_param = record {
  write = λ alloc v p. dropping (write_bytes alloc p (le_bytes 1 v));
  read = λ r. read_bytes (pos 1) >>= λ bytes. pure (le_value bytes);
  fresh = 0;
  sizeof_param = 1;
}

-- `long long` and `unsigned long long`, on the 64 bits of the value.
abbrev pub long_long_param : ParamTraits ℕ
long_long_param = record {
  write = λ alloc v p. dropping (write_word64 alloc p v);
  read = λ r. read_word64;
  fresh = 0;
  sizeof_param = 8;
}

-- `float`, on its 32 bits, and `double`, on its 64.
abbrev pub float_param : ParamTraits ℕ
float_param = record {
  write = λ alloc v p. dropping (write_uint32 alloc p v);
  read = λ r. read_uint32;
  fresh = 0;
  sizeof_param = 4;
}

abbrev pub double_param : ParamTraits ℕ
double_param = record {
  write = λ alloc v p. dropping (write_bytes alloc p (le_bytes 8 v));
  read = λ r. read_bytes (pos 8) >>= λ bytes. pure (le_value bytes);
  fresh = 0;
  sizeof_param = 8;
}

-- `std::string` and `std::wstring`; the size of the objects is a matter of the library.
abbrev pub string_param : ℕ → ParamTraits (List ℕ)
string_param sizeof_string = record {
  write = λ alloc v p. dropping (write_string alloc p v);
  read = λ r. read_string;
  fresh = [];
  sizeof_param = sizeof_string;
}

abbrev pub wstring_param : ℕ → ParamTraits (List ℕ)
wstring_param sizeof_wstring = record {
  write = λ alloc v p. dropping (write_string16 alloc p v);
  read = λ r. read_string16;
  fresh = [];
  sizeof_param = sizeof_wstring;
}

-- `std::vector<char>` and `std::vector<unsigned char>`.
abbrev pub chars_param : ℕ → ParamTraits (List ℕ)
chars_param sizeof_vector = record {
  write = λ alloc v p. dropping (write_data alloc p v (to_int (length v % size_mod)));
  read = λ r. read_data;
  fresh = [];
  sizeof_param = sizeof_vector;
}

-- `r->resize(size)`.
unfoldable pub resize_to : {A : Type 0} → A → ℕ → List A → List A
resize_to fresh size r = take size r ++ replicate (size - length r) fresh

module _ {A : Type 0} (t : ParamTraits A) where
  -- The loop over the elements, which `std::vector<bool>`, `std::vector` and `std::set` share.
  unfoldable pub write_each : Allocator → List A → Pickle → Option Pickle
  write_each alloc [] p = some p
  write_each alloc (x ∷ xs) p = Common.◌>>=◌ (t.write alloc x p) (write_each alloc xs)

  unfoldable pub write_counted : Allocator → List A → Pickle → Option Pickle
  write_counted alloc xs p =
      Common.◌>>=◌ (int_param.write alloc (to_int (length xs % size_mod)) p) (write_each alloc xs)

  -- The loop that reads into each element.
  unfoldable pub read_each : List A → Reader (List A)
  read_each [] = pure []
  read_each (r ∷ rs) = t.read r >>= λ x. read_each rs >>= λ xs. pure (x ∷ xs)

  -- `INT_MAX / sizeof(P) <= size` refuses.
  unfoldable pub read_vector : List A → Reader (List A)
  read_vector r = read_length >>= λ size.
      if leb ((2 ^ 31 - 1) / t.sizeof_param) size
      then fail
      else read_each (resize_to t.fresh size r)

  abbrev pub vector_param : ℕ → ParamTraits (List A)
  vector_param sizeof_vector = record {
    write = write_counted;
    read = read_vector;
    fresh = [];
    sizeof_param = sizeof_vector;
  }

-- `std::vector<bool>`: each element is read into a variable first, and no size is refused.
unfoldable pub read_bools : List Bool → Reader (List Bool)
read_bools r = read_length >>= λ size. read_each bool_param (resize_to false size r)

abbrev pub bools_param : ℕ → ParamTraits (List Bool)
bools_param sizeof_vector = record {
  write = write_counted bool_param;
  read = read_bools;
  fresh = [];
  sizeof_param = sizeof_vector;
}

-- `std::set`, as its elements in order, under the order `less`.
module _ {A : Type 0} (less : A → A → Bool) where
  unfoldable pub set_insert : A → List A → List A
  set_insert x [] = x ∷ []
  set_insert x (y ∷ ys) =
      if less x y then x ∷ (y ∷ ys) else if less y x then y ∷ set_insert x ys else y ∷ ys

  module _ (t : ParamTraits A) where
    unfoldable pub read_items_into : ℕ → List A → Reader (List A)
    read_items_into zero r = pure r
    read_items_into (suc n) r = t.read t.fresh >>= λ item. read_items_into n (set_insert item r)

    unfoldable pub read_set : List A → Reader (List A)
    read_set r = read_length >>= λ size. read_items_into size r

    abbrev pub set_param : ℕ → ParamTraits (List A)
    set_param sizeof_set = record {
      write = write_counted t;
      read = read_set;
      fresh = [];
      sizeof_param = sizeof_set;
    }

-- `std::map`, as its pairs in the order of the keys.
module _ {K V : Type 0} (less : K → K → Bool) where
  -- `(*r)[k]`: the value of the key, which is a fresh one where the key is new.
  unfoldable pub map_value : V → K → List (K × V) → V
  map_value fresh k [] = fresh
  map_value fresh k ((j, v) ∷ m) =
      if less k j then fresh else if less j k then map_value fresh k m else v

  -- The map after the value of the key has been assigned.
  unfoldable pub map_assign : K → V → List (K × V) → List (K × V)
  map_assign k v [] = (k, v) ∷ []
  map_assign k v ((j, w) ∷ m) =
      if less k j
      then (k, v) ∷ ((j, w) ∷ m)
      else if less j k
      then (j, w) ∷ map_assign k v m
      else (j, v) ∷ m

  module _ (s : ParamTraits K) (t : ParamTraits V) where
    unfoldable pub write_pairs : Allocator → List (K × V) → Pickle → Option Pickle
    write_pairs alloc [] p = some p
    write_pairs alloc ((k, v) ∷ m) p =
        Common.◌>>=◌ (s.write alloc k p) λ q. Common.◌>>=◌ (t.write alloc v q) (write_pairs alloc m)

    unfoldable pub write_map : Allocator → List (K × V) → Pickle → Option Pickle
    write_map alloc m p =
        Common.◌>>=◌ (int_param.write alloc (to_int (length m % size_mod)) p) (write_pairs alloc m)

    unfoldable pub read_pairs_into : ℕ → List (K × V) → Reader (List (K × V))
    read_pairs_into zero r = pure r
    read_pairs_into (suc n) r = s.read s.fresh >>= λ k.
        t.read (map_value t.fresh k r) >>= λ v. read_pairs_into n (map_assign k v r)

    unfoldable pub read_map : List (K × V) → Reader (List (K × V))
    read_map r = int_param.read int_param.fresh >>= λ size. elim size [
      | negsuc n ↦ fail
      | pos n ↦ read_pairs_into n r
    ]

    abbrev pub map_param : ℕ → ParamTraits (List (K × V))
    map_param sizeof_map = record {
      write = write_map;
      read = read_map;
      fresh = [];
      sizeof_param = sizeof_map;
    }

-- `std::pair`, and `std::tuple` of two.
abbrev pub pair_param : {A B : Type 0} → ParamTraits A → ParamTraits B → ℕ → ParamTraits (A × B)
pair_param s t sizeof_pair = record {
  write = λ alloc (a, b) p. Common.◌>>=◌ (s.write alloc a p) (t.write alloc b);
  read = λ (a, b). s.read a >>= λ x. t.read b >>= λ y. pure (x, y);
  fresh = (s.fresh, t.fresh);
  sizeof_param = sizeof_pair;
}

-- `std::tuple<>`, `std::tuple<A>`, and a tuple of one more: those of three to five write and read
-- their components one after the other, and stop at the first read that fails.
abbrev pub unit_param : ℕ → ParamTraits (Unit {0})
unit_param sizeof_tuple = record {
  write = λ alloc u p. some p;
  read = λ r. pure r;
  fresh = tt;
  sizeof_param = sizeof_tuple;
}

abbrev pub tuple_param_3 :
    {A B C : Type 0} → ParamTraits A → ParamTraits B → ParamTraits C → ℕ → ParamTraits (A × (B × C))
tuple_param_3 a b c n = pair_param a (pair_param b c n) n

abbrev pub tuple_param_4 :
    {A B C D : Type 0}
    → ParamTraits A
    → ParamTraits B
    → ParamTraits C
    → ParamTraits D
    → ℕ
    → ParamTraits (A × (B × (C × D)))
tuple_param_4 a b c d n = pair_param a (tuple_param_3 b c d n) n

abbrev pub tuple_param_5 :
    {A B C D E : Type 0}
    → ParamTraits A
    → ParamTraits B
    → ParamTraits C
    → ParamTraits D
    → ParamTraits E
    → ℕ
    → ParamTraits (A × (B × (C × (D × E))))
tuple_param_5 a b c d e n = pair_param a (tuple_param_4 b c d e n) n

-- `MessageSchema<ParamType>`: the parameters of a message are its payload, from the start.
module _ {A : Type 0} (t : ParamTraits A) where
  unfoldable pub schema_write : Allocator → A → Message → Option Message
  schema_write alloc x m =
      Common.◌>>=◌ (t.write alloc x m.pickle) λ q. some (record m { pickle = q })

  unfoldable pub schema_read : A → Message → Option A
  schema_read r m = (t.read r (iterate m.pickle)).0
