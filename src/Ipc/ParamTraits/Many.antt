-- ===== src/Ipc/ParamTraits/Many.antt =====
-- The types made of others in a fixed order: vectors, pairs and tuples, and `LogData`.
use mathlib.Core.Path.{subst}
use lib_hh_old.Common
use lib_hh_old.Common.{
  ℕ, zero, suc, ◌+◌, ◌-◌, ◌/◌, ◌≤◌, ◌<◌, ◌^◌, ◌%◌, ◌≡◌, refl, sym, ap, ◌∙◌, Bool, true, false, some,
  none, List, [], ◌∷◌, ◌++◌, append_assoc, arith, leb, if◌then◌else◌, length, take, replicate, All,
  Option,
}
use lib_hh_old.Common.Int.{pos, to_int, size_mod}
use lib_hh_old.Base.Pickle.{Pickle, Allocator}
use lib_hh_old.Base.Pickle.Layout.{IsOwned}
use lib_hh_old.Base.PickleItems.{Item, encode}
use lib_hh_old.Base.PickleItems.Write.{HasRoom}
use lib_hh_old.Base.PickleItems.Read.{Returns, >>=-Returns, pure-Returns}
use lib_hh_old.Base.PickleIterator.{PickleIterator, Reader, ◌>>=◌, read_length, read_int}
use lib_hh_old.Base.PickleIterator.Reads.{Ahead}
use lib_hh_old.Ipc.ParamTraits.{
  ParamTraits, bool_param, int_param, vector_param, bools_param, pair_param, resize_to, write_each,
  write_counted, read_each, read_vector, read_bools,
}
use lib_hh_old.Ipc.ParamTraits.Codec.{IsCodec, Puts, nothing-Puts, >>=-Puts}
use lib_hh_old.Ipc.ParamTraits.Single.{bool_param-IsCodec, int_param-IsCodec, length_as_int}

abbrev pub encode_each : {A : Type 0} → (A → List ℕ) → List A → List ℕ
encode_each e [] = []
encode_each e (x ∷ xs) = e x ++ encode_each e xs

-- The number of elements, and then the elements.
abbrev pub encode_counted : {A : Type 0} → (A → List ℕ) → List A → List ℕ
encode_counted e xs = encode (Item.int (pos (length xs))) ++ encode_each e xs

-- A read, and a read that depends on its value, where the two encodings lie one after the other.
pub then-Returns :
    {A B : Type 0} (m : Reader A) (f : A → Reader B) (a : A) (b : B) (it : PickleIterator)
    (xs ys rest : List ℕ)
    → Ahead it ((xs ++ ys) ++ rest)
    → (Ahead it (xs ++ (ys ++ rest)) → Returns m a it (ys ++ rest))
    → ((it' : PickleIterator) → Ahead it' (ys ++ rest) → Returns (f a) b it' rest)
    → Returns (m >>= f) b it rest
then-Returns m f a b it xs ys rest ahead one next =
    >>=-Returns m f a b it (ys ++ rest) rest
      (one (subst (Ahead it) (append_assoc xs ys rest) ahead)) next

pub read_length-Returns :
    (n : ℕ) (rest : List ℕ) (it : PickleIterator)
    → n < 2 ^ 31
    → Ahead it (encode (Item.int (pos n)) ++ rest)
    → Returns read_length n it rest
unfolding read_length
read_length-Returns n rest it h ahead =
    >>=-Returns read_int _ (pos n) n it rest rest (int_param-IsCodec.reads (pos n) rest it h ahead)
      (λ it' ahead'. pure-Returns n it' rest ahead')

-- A read of the count as an `int`.
pub count-Puts :
    (alloc : Allocator) (n : ℕ) (p : Pickle) (block : List ℕ)
    → IsOwned p block
    → n < 2 ^ 30
    → HasRoom p (length (encode (Item.int (pos n))))
    → Puts p block (encode (Item.int (pos n))) (int_param.write alloc (to_int (n % size_mod)) p)
count-Puts alloc n p block own h room =
    rw (length_as_int n h) (int_param-IsCodec.puts alloc p block (pos n) own (omega arith) room)

module _ {A : Type 0} (t : ParamTraits A) (Valid : A → Type 0) (e : A → List ℕ)
    (c : IsCodec t Valid e) where
  write_each-Puts :
      (alloc : Allocator) (xs : List A) (p : Pickle) (block : List ℕ)
      → IsOwned p block
      → All Valid xs
      → HasRoom p (length (encode_each e xs))
      → Puts p block (encode_each e xs) (write_each t alloc xs p)
  unfolding write_each
  write_each-Puts alloc [] p block own h room = nothing-Puts p block own
  write_each-Puts alloc (x ∷ xs) p block own (hx, hxs) room =
      >>=-Puts p block (e x) (encode_each e xs) (t.write alloc x p) (write_each t alloc xs) own room
        (c.puts alloc p block x own hx)
        (λ q block' own' room'. write_each-Puts alloc xs q block' own' hxs room')

  pub write_counted-Puts :
      (alloc : Allocator) (xs : List A) (p : Pickle) (block : List ℕ)
      → IsOwned p block
      → length xs < 2 ^ 30
      → All Valid xs
      → HasRoom p (length (encode_counted e xs))
      → Puts p block (encode_counted e xs) (write_counted t alloc xs p)
  unfolding write_counted
  write_counted-Puts alloc xs p block own few h room =
      >>=-Puts p block _ (encode_each e xs) _ (write_each t alloc xs) own room
        (count-Puts alloc (length xs) p block own few)
        (λ q block' own' room'. write_each-Puts alloc xs q block' own' h room')

  -- Each element is read into a fresh one.
  read_each-Returns :
      (xs : List A) (rest : List ℕ) (it : PickleIterator)
      → All Valid xs
      → Ahead it (encode_each e xs ++ rest)
      → Returns (read_each t (replicate (length xs) t.fresh)) xs it rest
  unfolding read_each
  read_each-Returns [] rest it h ahead = pure-Returns [] it rest ahead
  read_each-Returns (x ∷ xs) rest it (hx, hxs) ahead =
      then-Returns (t.read t.fresh) _ x (x ∷ xs) it (e x) (encode_each e xs) rest ahead
        (c.reads x (encode_each e xs ++ rest) it hx)
        (λ it' ahead'.
          >>=-Returns (read_each t (replicate (length xs) t.fresh)) _ xs (x ∷ xs) it' rest rest
            (read_each-Returns xs rest it' hxs ahead')
            (λ it'' ahead''. pure-Returns (x ∷ xs) it'' rest ahead''))

  resize_to-fresh : (n : ℕ) → resize_to t.fresh n [] ≡ replicate n t.fresh
  unfolding resize_to
  resize_to-fresh zero = refl
  resize_to-fresh (suc n) =
      let e : suc n - 0 ≡ suc n = omega arith in ap (λ k. replicate k t.fresh) e

  -- Where the trait of the elements writes an encoding and reads it back, so does the trait of
  -- std::vector, for vectors of fewer than 2^30 elements and than INT_MAX / sizeof elements: a read
  -- into an empty vector gives the vector back.
  pub vector_param-IsCodec :
      (sizeof_vector : ℕ)
      → IsCodec
          (vector_param t sizeof_vector)
          (λ xs. (length xs < 2 ^ 30) × (length xs < (2 ^ 31 - 1) / t.sizeof_param) × All Valid xs)
          (encode_counted e)
  unfolding read_vector
  vector_param-IsCodec sizeof_vector = record {
    puts = λ alloc p block xs own h room. write_counted-Puts alloc xs p block own h.0 h.2 room;
    reads = λ xs rest it h ahead.
        then-Returns read_length _ (length xs) xs it _ (encode_each e xs) rest ahead
          (read_length-Returns (length xs) (encode_each e xs ++ rest) it (omega arith))
          (λ it' ahead'.
            rw (Common.lt→not-leb _ _ h.1, resize_to-fresh (length xs))
              (read_each-Returns xs rest it' h.2 ahead'));
  }

pub bools_param-IsCodec :
    (sizeof_vector : ℕ)
    → IsCodec
        (bools_param sizeof_vector)
        (λ xs. (length xs < 2 ^ 30) × All (λ v. Unit {0}) xs)
        (encode_counted (λ v. encode (Item.bool v)))
unfolding read_bools
bools_param-IsCodec sizeof_vector = record {
  puts = λ alloc p block xs own h room.
      write_counted-Puts bool_param _ _ bool_param-IsCodec alloc xs p block own h.0 h.1 room;
  reads = λ xs rest it h ahead.
      then-Returns read_length _ (length xs) xs it _ (encode_each (λ v. encode (Item.bool v)) xs)
        rest ahead
        (read_length-Returns (length xs) (encode_each (λ v. encode (Item.bool v)) xs ++ rest) it
          (omega arith))
        (λ it' ahead'.
          rw (resize_to-fresh bool_param _ _ bool_param-IsCodec (length xs))
            (read_each-Returns bool_param _ _ bool_param-IsCodec xs rest it' h.1 ahead'));
}

-- Two parameters one after the other; the longer tuples are pairs of a parameter and a tuple.
pub pair_param-IsCodec :
    {A B : Type 0} (s : ParamTraits A) (t : ParamTraits B) (ValidA : A → Type 0)
    (ValidB : B → Type 0) (ea : A → List ℕ) (eb : B → List ℕ)
    → IsCodec s ValidA ea
    → IsCodec t ValidB eb
    → (sizeof_pair : ℕ)
    → IsCodec (pair_param s t sizeof_pair) (λ x. ValidA x.0 × ValidB x.1) (λ x. ea x.0 ++ eb x.1)
pair_param-IsCodec s t ValidA ValidB ea eb c d sizeof_pair = record {
  puts = λ alloc p block x own h room.
      >>=-Puts p block (ea x.0) (eb x.1) (s.write alloc x.0 p) (t.write alloc x.1) own room
        (c.puts alloc p block x.0 own h.0)
        (λ q block' own' room'. d.puts alloc q block' x.1 own' h.1 room');
  reads = λ x rest it h ahead.
      then-Returns (s.read s.fresh) _ x.0 x it (ea x.0) (eb x.1) rest ahead
        (c.reads x.0 (eb x.1 ++ rest) it h.0)
        (λ it' ahead'.
          >>=-Returns (t.read t.fresh) _ x.1 x it' rest rest (d.reads x.1 rest it' h.1 ahead')
            (λ it'' ahead''. pure-Returns x it'' rest ahead''));
}
