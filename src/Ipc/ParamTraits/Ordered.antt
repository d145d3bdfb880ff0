-- ===== src/Ipc/ParamTraits/Ordered.antt =====
-- Sets and maps: what is read back is inserted in order, behind what is there.
use lib_hh_old.Common.{
  ℕ, ◌<◌, ◌^◌, ◌≡◌, refl, ap, Bool, true, false, List, [], ◌∷◌, ◌++◌, append_assoc, append-nil,
  arith, length, All,
}
use lib_hh_old.Common.Int.{pos}
use lib_hh_old.Base.Pickle.{Pickle, Allocator}
use lib_hh_old.Base.Pickle.Layout.{IsOwned}
use lib_hh_old.Base.PickleItems.Write.{HasRoom}
use lib_hh_old.Base.PickleItems.Read.{Returns, pure-Returns}
use lib_hh_old.Base.PickleIterator.{PickleIterator, Reader, ◌>>=◌, read_length, read_int}
use lib_hh_old.Base.PickleIterator.Reads.{Ahead}
use lib_hh_old.Ipc.ParamTraits.{
  ParamTraits, set_param, map_param, set_insert, read_items_into, read_set, map_value, map_assign,
  write_pairs, write_map, read_pairs_into, read_map,
}
use lib_hh_old.Ipc.ParamTraits.Codec.{IsCodec, Puts, nothing-Puts, >>=-Puts}
use lib_hh_old.Ipc.ParamTraits.Single.{int_param-IsCodec}
use lib_hh_old.Ipc.ParamTraits.Many.{
  encode_each, encode_counted, then-Returns, read_length-Returns, count-Puts, write_counted-Puts,
}

All-zip :
    {A : Type 0} (P Q R : A → Type 0) (xs : List A)
    → ((x : A) → P x → Q x → R x)
    → All P xs
    → All Q xs
    → All R xs
All-zip P Q R [] f hp hq = tt
All-zip P Q R (x ∷ xs) f (p, ps) (q, qs) = (f x p q, All-zip P Q R xs f ps qs)

All-append : {A : Type 0} (P : A → Type 0) (xs ys : List A) → All P xs → All P ys → All P (xs ++ ys)
All-append P [] ys hx hy = hy
All-append P (x ∷ xs) ys (h, hx) hy = (h, All-append P xs ys hx hy)

-- The order tells the two apart, one way round.
abbrev pub Below : {A : Type 0} → (A → A → Bool) → A → A → Type 0
Below less x y = (less x y ≡ true) × (less y x ≡ false)

-- Each element is below all that follow it, as the iteration over a set has them.
abbrev pub IsAscending : {A : Type 0} → (A → A → Bool) → List A → Type 0
IsAscending less [] = Unit {0}
IsAscending less (x ∷ xs) = All (λ y. Below less x y) xs × IsAscending less xs

-- All of the first list is below all of the second.
abbrev AllBelow : {A : Type 0} → (A → A → Bool) → List A → List A → Type 0
AllBelow less xs ys = All (λ y. All (λ x. Below less x y) xs) ys

AllBelow-step :
    {A : Type 0} (less : A → A → Bool) (xs : List A) (y : A) (ys : List A)
    → AllBelow less xs ys
    → All (λ z. Below less y z) ys
    → AllBelow less (xs ++ (y ∷ [])) ys
AllBelow-step less xs y ys h hy =
    All-zip (λ z. All (λ x. Below less x z) xs) (λ z. Below less y z)
      (λ z. All (λ x. Below less x z) (xs ++ (y ∷ []))) ys
      (λ z hx hyz. All-append (λ x. Below less x z) xs (y ∷ []) hx (hyz, tt)) h hy

nothing-AllBelow : {A : Type 0} (less : A → A → Bool) (ys : List A) → AllBelow less [] ys
nothing-AllBelow less [] = tt
nothing-AllBelow less (y ∷ ys) = (tt, nothing-AllBelow less ys)

module _ {A : Type 0} (less : A → A → Bool) (t : ParamTraits A) (Valid : A → Type 0)
    (e : A → List ℕ) (c : IsCodec t Valid e) where
  set_insert-last :
      (x : A) (acc : List A)
      → All (λ y. Below less y x) acc
      → set_insert less x acc ≡ acc ++ (x ∷ [])
  unfolding set_insert
  set_insert-last x [] h = refl
  set_insert-last x (y ∷ acc) ((lt, not_gt), h) =
      rw (not_gt, lt) (ap (◌∷◌ y) (set_insert-last x acc h))

  read_items_into-Returns :
      (xs acc : List A) (rest : List ℕ) (it : PickleIterator)
      → All Valid xs
      → IsAscending less xs
      → AllBelow less acc xs
      → Ahead it (encode_each e xs ++ rest)
      → Returns (read_items_into less t (length xs) acc) (acc ++ xs) it rest
  unfolding read_items_into
  read_items_into-Returns [] acc rest it h up below ahead =
      rw (append-nil acc) (pure-Returns acc it rest ahead)
  read_items_into-Returns (x ∷ xs) acc rest it (hx, hxs) (above, up) (below, belows) ahead =
      then-Returns (t.read t.fresh)
        (λ item. read_items_into less t (length xs) (set_insert less item acc)) x (acc ++ (x ∷ xs))
        it (e x) (encode_each e xs) rest ahead (c.reads x (encode_each e xs ++ rest) it hx)
        (λ it' ahead'.
          rw (set_insert-last x acc below, ← append_assoc acc (x ∷ []) xs)
            (read_items_into-Returns xs (acc ++ (x ∷ [])) rest it' hxs up
              (AllBelow-step less acc x xs belows above) ahead'))

  -- Where the trait of the elements writes an encoding and reads it back, so does the trait of
  -- std::set, for sets of fewer than 2^30 elements that ascend in the order of the set: a read
  -- inserts them one by one into an empty set and gives the set back.
  pub set_param-IsCodec :
      (sizeof_set : ℕ)
      → IsCodec
          (set_param less t sizeof_set)
          (λ xs. (length xs < 2 ^ 30) × IsAscending less xs × All Valid xs)
          (encode_counted e)
  unfolding read_set
  set_param-IsCodec sizeof_set = record {
    puts = λ alloc p block xs own h room.
        write_counted-Puts t Valid e c alloc xs p block own h.0 h.2 room;
    reads = λ xs rest it h ahead.
        then-Returns read_length (λ size. read_items_into less t size []) (length xs) xs it _
          (encode_each e xs) rest ahead
          (read_length-Returns (length xs) (encode_each e xs ++ rest) it (omega arith))
          (λ it' ahead'.
            read_items_into-Returns xs [] rest it' h.2 h.1 (nothing-AllBelow less xs) ahead');
  }

-- Pairs, by their keys.
abbrev pub by_key : {K V : Type 0} → (K → K → Bool) → K × V → K × V → Bool
by_key less x y = less x.0 y.0

abbrev pub encode_pair : {K V : Type 0} → (K → List ℕ) → (V → List ℕ) → K × V → List ℕ
encode_pair ek ev x = ek x.0 ++ ev x.1

module _ {K V : Type 0} (less : K → K → Bool) (s : ParamTraits K) (t : ParamTraits V)
    (ValidK : K → Type 0) (ValidV : V → Type 0) (ek : K → List ℕ) (ev : V → List ℕ)
    (c : IsCodec s ValidK ek) (d : IsCodec t ValidV ev) where
  abbrev ValidPair : K × V → Type 0
  ValidPair x = ValidK x.0 × ValidV x.1

  write_pairs-Puts :
      (alloc : Allocator) (m : List (K × V)) (p : Pickle) (block : List ℕ)
      → IsOwned p block
      → All ValidPair m
      → HasRoom p (length (encode_each (encode_pair ek ev) m))
      → Puts p block (encode_each (encode_pair ek ev) m) (write_pairs less s t alloc m p)
  unfolding write_pairs
  write_pairs-Puts alloc [] p block own h room = nothing-Puts p block own
  write_pairs-Puts alloc ((k, v) ∷ m) p block own ((hk, hv), h) room =
      rw (append_assoc (ek k) (ev v) (encode_each (encode_pair ek ev) m)) (
        >>=-Puts p block (ek k) (ev v ++ encode_each (encode_pair ek ev) m) (s.write alloc k p) _
          own (rw (append_assoc (ek k) (ev v) (encode_each (encode_pair ek ev) m)) at room)
          (c.puts alloc p block k own hk)
          (λ q b' own' room'.
            >>=-Puts q b' (ev v) (encode_each (encode_pair ek ev) m) (t.write alloc v q) _ own'
              room' (d.puts alloc q b' v own' hv)
              (λ r b'' own'' room''. write_pairs-Puts alloc m r b'' own'' h room'')))

  map_assign-last :
      (k : K) (v : V) (acc : List (K × V))
      → All (λ y. Below (by_key less) y (k, v)) acc
      → (map_assign less k v acc ≡ acc ++ ((k, v) ∷ [])) × (map_value less t.fresh k acc ≡ t.fresh)
  unfolding map_assign map_value
  map_assign-last k v [] h = (refl, refl)
  map_assign-last k v ((j, w) ∷ acc) ((lt, not_gt), h) =
      let (assigned, value) = map_assign-last k v acc h in
      rw (not_gt, lt) (ap (◌∷◌ (j, w)) assigned, value)

  read_pairs_into-Returns :
      (m acc : List (K × V)) (rest : List ℕ) (it : PickleIterator)
      → All ValidPair m
      → IsAscending (by_key less) m
      → AllBelow (by_key less) acc m
      → Ahead it (encode_each (encode_pair ek ev) m ++ rest)
      → Returns (read_pairs_into less s t (length m) acc) (acc ++ m) it rest
  unfolding read_pairs_into
  read_pairs_into-Returns [] acc rest it h up below ahead =
      rw (append-nil acc) (pure-Returns acc it rest ahead)
  read_pairs_into-Returns ((k, v) ∷ m) acc rest it ((hk, hv), hm) (above, up) (below, belows)
        ahead =
      let more : List ℕ = encode_each (encode_pair ek ev) m in
      let (assigned, value) = map_assign-last k v acc below in
      let next : V → Reader (List (K × V)) =
        λ w. read_pairs_into less s t (length m) (map_assign less k w acc) in
      then-Returns (s.read s.fresh)
        (λ j. t.read (map_value less t.fresh j acc) >>= λ w.
          read_pairs_into less s t (length m) (map_assign less j w acc))
        k (acc ++ ((k, v) ∷ m)) it (ek k) (ev v ++ more) rest
        (rw (append_assoc (ek k) (ev v) more) at ahead) (c.reads k ((ev v ++ more) ++ rest) it hk)
        (λ it' ahead'.
          then-Returns (t.read (map_value less t.fresh k acc)) next v (acc ++ ((k, v) ∷ m)) it'
            (ev v) more rest ahead' (rw value (d.reads v (more ++ rest) it' hv))
            (λ it'' ahead''.
              rw (assigned, ← append_assoc acc ((k, v) ∷ []) m)
                (read_pairs_into-Returns m (acc ++ ((k, v) ∷ [])) rest it'' hm up
                  (AllBelow-step (by_key less) acc (k, v) m belows above) ahead'')))

  -- Where the traits of the keys and of the values write an encoding and read it back, so does the
  -- trait of std::map, for maps of fewer than 2^30 pairs whose keys ascend in the order of the map:
  -- with room below 1 GB a write appends the number of pairs and then each key and its value, and a
  -- read into an empty map gives the map back and leaves what follows.
  pub map_param-IsCodec :
      (sizeof_map : ℕ)
      → IsCodec
          (map_param less s t sizeof_map)
          (λ m.
            (length m < 2 ^ 30)
            × IsAscending (by_key less) m
            × All (λ x. ValidK x.0 × ValidV x.1) m)
          (encode_counted (encode_pair ek ev))
  unfolding write_map read_map
  map_param-IsCodec sizeof_map = record {
    puts = λ alloc p block m own h room.
        >>=-Puts p block _ (encode_each (encode_pair ek ev) m) _ (write_pairs less s t alloc m) own
          room (count-Puts alloc (length m) p block own h.0)
          (λ q b' own' room'. write_pairs-Puts alloc m q b' own' h.2 room');
    reads = λ m rest it h ahead.
        then-Returns read_int _ (pos (length m)) m it _ (encode_each (encode_pair ek ev) m) rest
          ahead
          (int_param-IsCodec.reads (pos (length m)) (encode_each (encode_pair ek ev) m ++ rest) it
            (omega arith))
          (λ it' ahead'.
            read_pairs_into-Returns m [] rest it' h.2 h.1 (nothing-AllBelow (by_key less) m)
              ahead');
  }
