-- ===== src/Ipc/ParamTraits/Bounds.antt =====
-- Reads of parameters over bytes from elsewhere: iterators stay in bounds.
use lib_hh_old.Common.{
  ℕ, zero, suc, ◌/◌, ◌-◌, ◌^◌, ◌≡◌, refl, ◌∙◌, Option, some, none, Bool, true, false, List, [], ◌∷◌,
  leb, ◌==◌, not, if◌then◌else◌,
}
use lib_hh_old.Common.Bytes.{le_value}
use lib_hh_old.Common.Int.{ℤ, pos, negsuc, to_int, from_int, pos_part}
use lib_hh_old.Base.PickleIterator.{
  PickleIterator, Reader, continue, ◌>>=◌, pure, fail, read_int, read_uint32, read_word64,
  read_length, read_bytes, read_bool, read_string, read_string16, read_data, read_builtin_type,
  get_read_pointer_for, get_read_pointer_and_advance, get_read_pointer_for_array, scale,
}
use lib_hh_old.Base.PickleIterator.Bounds.{
  IsInBounds, Safe, get_read_pointer_for-Safe, get_read_pointer_and_advance-Safe,
  get_read_pointer_for_array-Safe,
}
use lib_hh_old.Ipc.ParamTraits.{
  ParamTraits, bool_param, int_param, uint_param, char_param, double_param, long_long_param,
  float_param, string_param, chars_param, wstring_param, pair_param, read_each, vector_param,
  bools_param, set_param, map_param, read_items_into, read_pairs_into, set_insert, map_value,
  map_assign, resize_to, read_vector, read_set, read_map, read_bools,
}
use lib_hh_old.Ipc.ParamTraits.Log.{LogData, log_data_param, read_log_data}

-- The iterator that a read leaves is in bounds and has the end of the one that it was given.
abbrev pub Kept : {A : Type 0} → PickleIterator → Option A × PickleIterator → Type 0
Kept it (_, it') = IsInBounds it' × (it'.end_index ≡ it.end_index)

abbrev pub Stays : {A : Type 0} → Reader A → Type 0
Stays read = (it : PickleIterator) → IsInBounds it → Kept it (read it)

pub pure-Stays : {A : Type 0} (x : A) → Stays (pure x)
pure-Stays x it h = (h, refl)

pub fail-Stays : (A : Type 0) → Stays {A = A} fail
fail-Stays A it h = (h, refl)

continue-Kept :
    {A B : Type 0} (it : PickleIterator) (f : A → Reader B) (res : Option A × PickleIterator)
    → Kept it res
    → ((x : A) → Stays (f x))
    → Kept it (continue f res)
continue-Kept it f (none, it') kept next = kept
continue-Kept it f (some x, it') kept next = let (h, e) = next x it' kept.0 in (h, e ∙ kept.1)

pub >>=-Stays :
    {A B : Type 0} (m : Reader A) (f : A → Reader B)
    → Stays m
    → ((x : A) → Stays (f x))
    → Stays (m >>= f)
>>=-Stays m f hm hf it h = continue-Kept it f (m it) (hm it h) hf

if-Stays :
    {A : Type 0} (b : Bool) (m m' : Reader A)
    → Stays m
    → Stays m'
    → Stays (λ it. (if b then m else m') it)
if-Stays true m m' h h' = h
if-Stays false m m' h h' = h'

Safe-Kept :
    (n : ℕ) (it : PickleIterator) (res : Option ℕ × PickleIterator) → Safe n it res → Kept it res
Safe-Kept n it (none, it') (h, e) = (h, e)
Safe-Kept n it (some off, it') (h, e, _, _) = (h, e)

read_builtin_type-Stays : (n : ℕ) → Stays (read_builtin_type n)
unfolding read_builtin_type
read_builtin_type-Stays n =
    >>=-Stays (get_read_pointer_for n) _
      (λ it h. Safe-Kept n it (get_read_pointer_for n it) (get_read_pointer_for-Safe n it h))
      (λ off it h. (h, refl))

read_int-Stays : Stays read_int
unfolding read_int
read_int-Stays =
    >>=-Stays (read_builtin_type 4) _ (read_builtin_type-Stays 4)
      (λ b. pure-Stays (to_int (le_value b)))

read_bytes-Stays : (len : ℤ) → Stays (read_bytes len)
unfolding read_bytes
read_bytes-Stays len =
    >>=-Stays (get_read_pointer_and_advance len) _
      (λ it h.
        Safe-Kept (pos_part len) it (get_read_pointer_and_advance len it)
          (get_read_pointer_and_advance-Safe len it h))
      (λ off it h. (h, refl))

read_length-Stays : Stays read_length
unfolding read_length
read_length-Stays = >>=-Stays read_int _ read_int-Stays (λ z. of_sign z)
  where
    of_sign : (z : ℤ) → Stays {A = ℕ} (elim z [ pos n ↦ pure n | negsuc n ↦ fail ])
    of_sign (pos n) = pure-Stays n
    of_sign (negsuc n) = fail-Stays ℕ

-- Whatever the object holds that is read into.
abbrev pub StaysInBounds : {A : Type 0} → ParamTraits A → Type 0
StaysInBounds t = (r : _) → Stays (t.read r)

pub bool_param-StaysInBounds : StaysInBounds bool_param
unfolding read_bool
bool_param-StaysInBounds r =
    >>=-Stays (read_builtin_type 1) _ (read_builtin_type-Stays 1)
      (λ b. pure-Stays (not (le_value b == 0)))

pub int_param-StaysInBounds : StaysInBounds int_param
int_param-StaysInBounds r = read_int-Stays

pub uint_param-StaysInBounds : StaysInBounds uint_param
uint_param-StaysInBounds r = >>=-Stays read_int _ read_int-Stays (λ z. pure-Stays (from_int z))

pub char_param-StaysInBounds : StaysInBounds char_param
char_param-StaysInBounds r =
    >>=-Stays (read_bytes (pos 1)) _ (read_bytes-Stays (pos 1)) (λ b. pure-Stays (le_value b))

pub double_param-StaysInBounds : StaysInBounds double_param
double_param-StaysInBounds r =
    >>=-Stays (read_bytes (pos 8)) _ (read_bytes-Stays (pos 8)) (λ b. pure-Stays (le_value b))

pub long_long_param-StaysInBounds : StaysInBounds long_long_param
unfolding read_word64
long_long_param-StaysInBounds r =
    >>=-Stays (read_builtin_type 8) _ (read_builtin_type-Stays 8) (λ b. pure-Stays (le_value b))

pub float_param-StaysInBounds : StaysInBounds float_param
unfolding read_uint32
float_param-StaysInBounds r =
    >>=-Stays (read_builtin_type 4) _ (read_builtin_type-Stays 4) (λ b. pure-Stays (le_value b))

pub string_param-StaysInBounds : (n : ℕ) → StaysInBounds (string_param n)
unfolding read_string read_bytes
string_param-StaysInBounds n r = >>=-Stays read_int _ read_int-Stays (λ len. read_bytes-Stays len)

pub chars_param-StaysInBounds : (n : ℕ) → StaysInBounds (chars_param n)
unfolding read_data
chars_param-StaysInBounds n r = >>=-Stays read_int _ read_int-Stays (λ len. read_bytes-Stays len)

pub wstring_param-StaysInBounds : (n : ℕ) → StaysInBounds (wstring_param n)
unfolding read_string16
wstring_param-StaysInBounds n r = >>=-Stays read_int _ read_int-Stays λ len.
    >>=-Stays (get_read_pointer_for_array len 2) _
      (λ it h.
        Safe-Kept (pos_part (scale len 2)) it (get_read_pointer_for_array len 2 it)
          (get_read_pointer_for_array-Safe len 2 it h))
      (λ off it h. (h, refl))

read_each-Stays :
    {A : Type 0} (t : ParamTraits A) → StaysInBounds t → (rs : List A) → Stays (read_each t rs)
unfolding read_each
read_each-Stays {A} t ht [] = pure-Stays {A = List A} []
read_each-Stays t ht (r ∷ rs) =
    >>=-Stays (t.read r) _ (ht r)
      λ x. >>=-Stays (read_each t rs) _ (read_each-Stays t ht rs) (λ xs. pure-Stays (x ∷ xs))

pub vector_param-StaysInBounds :
    {A : Type 0} (t : ParamTraits A) (n : ℕ) → StaysInBounds t → StaysInBounds (vector_param t n)
unfolding read_vector
vector_param-StaysInBounds {A} t n ht r = >>=-Stays read_length _ read_length-Stays λ size.
    if-Stays (leb ((2 ^ 31 - 1) / t.sizeof_param) size) fail
      (read_each t (resize_to t.fresh size r)) (fail-Stays (List A))
      (read_each-Stays t ht (resize_to t.fresh size r))

pub bools_param-StaysInBounds : (n : ℕ) → StaysInBounds (bools_param n)
unfolding read_bools
bools_param-StaysInBounds n r =
    >>=-Stays read_length _ read_length-Stays
      (λ size. read_each-Stays bool_param bool_param-StaysInBounds (resize_to false size r))

read_items_into-Stays :
    {A : Type 0} (less : A → A → Bool) (t : ParamTraits A)
    → StaysInBounds t
    → (n : ℕ) (r : List A) → Stays (read_items_into less t n r)
unfolding read_items_into
read_items_into-Stays less t ht zero r = pure-Stays r
read_items_into-Stays less t ht (suc n) r =
    >>=-Stays (t.read t.fresh) _ (ht t.fresh)
      (λ x. read_items_into-Stays less t ht n (set_insert less x r))

pub set_param-StaysInBounds :
    {A : Type 0} (less : A → A → Bool) (t : ParamTraits A) (n : ℕ)
    → StaysInBounds t
    → StaysInBounds (set_param less t n)
unfolding read_set
set_param-StaysInBounds less t n ht r =
    >>=-Stays read_length _ read_length-Stays (λ size. read_items_into-Stays less t ht size r)

read_pairs_into-Stays :
    {K V : Type 0} (less : K → K → Bool) (s : ParamTraits K) (t : ParamTraits V)
    → StaysInBounds s
    → StaysInBounds t
    → (n : ℕ) (r : List (K × V)) → Stays (read_pairs_into less s t n r)
unfolding read_pairs_into
read_pairs_into-Stays less s t hs ht zero r = pure-Stays r
read_pairs_into-Stays less s t hs ht (suc n) r = >>=-Stays (s.read s.fresh) _ (hs s.fresh) λ k.
    >>=-Stays (t.read (map_value less t.fresh k r)) _ (ht (map_value less t.fresh k r))
      (λ v. read_pairs_into-Stays less s t hs ht n (map_assign less k v r))

pub map_param-StaysInBounds :
    {K V : Type 0} (less : K → K → Bool) (s : ParamTraits K) (t : ParamTraits V) (n : ℕ)
    → StaysInBounds s
    → StaysInBounds t
    → StaysInBounds (map_param less s t n)
unfolding read_map
map_param-StaysInBounds {K} {V} less s t n hs ht r =
    >>=-Stays read_int _ read_int-Stays (λ z. of_sign z)
  where
    of_sign :
        (z : ℤ)
        → Stays {A = List (K × V)}
            (elim z [ negsuc m ↦ fail | pos m ↦ read_pairs_into less s t m r ])
    of_sign (pos m) = read_pairs_into-Stays less s t hs ht m r
    of_sign (negsuc m) = fail-Stays (List (K × V))

pub pair_param-StaysInBounds :
    {A B : Type 0} (s : ParamTraits A) (t : ParamTraits B) (n : ℕ)
    → StaysInBounds s
    → StaysInBounds t
    → StaysInBounds (pair_param s t n)
pair_param-StaysInBounds {A} {B} s t n hs ht (a, b) =
    >>=-Stays (s.read a) _ (hs a)
      λ x. >>=-Stays (t.read b) _ (ht b) (λ y. pure-Stays {A = A × B} (x, y))

pub log_data_param-StaysInBounds : (n m : ℕ) → StaysInBounds (log_data_param n m)
unfolding read_log_data
log_data_param-StaysInBounds n m r =
    let text = (string_param n).read in
    let ok = string_param-StaysInBounds n in
    >>=-Stays {B = LogData} (text r.channel) _ (ok r.channel) λ channel.
      >>=-Stays {B = LogData} (int_param.read r.routing_id) _ (int_param-StaysInBounds r.routing_id)
        λ routing.
          >>=-Stays {B = LogData} (uint_param.read r.type) _ (uint_param-StaysInBounds r.type)
            λ type. >>=-Stays {B = LogData} (text r.message_name) _ (ok r.message_name) λ name.
              >>=-Stays {B = LogData} (text r.params) _ (ok r.params) λ params.
                pure-Stays {A = LogData} (record {
                  channel = channel;
                  routing_id = routing;
                  type = type;
                  message_name = name;
                  params = params;
                })
