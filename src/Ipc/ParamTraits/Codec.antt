-- ===== src/Ipc/ParamTraits/Codec.antt =====
-- What it is for a `ParamTraits` to write an encoding and to read it back, and how writes and reads
-- that do are put together.
use lib_hh_old.Common
use lib_hh_old.Common.{
  ℕ, ◌+◌, ◌≤◌, ◌^◌, ◌≡◌, refl, sym, ap, ◌∙◌, Option, some, List, [], ◌∷◌, ◌++◌, append_assoc,
  append-nil, arith, length, length-append,
}
use lib_hh_old.Base.Pickle.{Pickle, Allocator}
use lib_hh_old.Base.Pickle.Layout.{IsOwned, written}
use lib_hh_old.Base.Pickle.Write.{Appended, Writes, trans-Appended, offset-Appended}
use lib_hh_old.Base.PickleItems.Write.{HasRoom}
use lib_hh_old.Base.PickleItems.Read.{Returns}
use lib_hh_old.Base.PickleIterator.Reads.{Ahead}
use lib_hh_old.Ipc.ParamTraits.{ParamTraits, dropping}

-- A write that does not fault and appends the bytes.
abbrev pub Puts : Pickle → List ℕ → List ℕ → Option Pickle → Type 0
Puts p block added result =
    (q : Pickle) × (block' : List ℕ) × (result ≡ some q) × Appended p block added q block'

-- Every value that is `Valid` is written as its encoding, where there is room, and a fresh object
-- reads it back from there.
pub record IsCodec {A : Type 0} (t : ParamTraits A) (Valid : A → Type 0) (encoding : A → List ℕ)
    : Type 0 where
  pub puts :
      (alloc : Allocator) (p : Pickle) (block : List ℕ) (x : A)
      → IsOwned p block
      → Valid x
      → HasRoom p (length (encoding x))
      → Puts p block (encoding x) (t.write alloc x p)
  pub reads :
      (x : A) (rest : List ℕ) (it : _)
      → Valid x
      → Ahead it (encoding x ++ rest)
      → Returns (t.read t.fresh) x it rest

pub dropping-Puts :
    (p : Pickle) (block added : List ℕ) (result : Option (Pickle × _))
    → Writes p block added result
    → Puts p block added (dropping result)
dropping-Puts p block added result (q, block', run, done) = (q, block', ap dropping run, done)

-- Nothing written.
pub nothing-Puts : (p : Pickle) (block : List ℕ) → IsOwned p block → Puts p block [] (some p)
nothing-Puts p block own = (
  p,
  block,
  refl,
  record {
    owned = own;
    same_header_size = refl;
    same_fields = refl;
    appended = sym (append-nil (written p block));
  },
)

-- One write after another.
pub >>=-Puts :
    (p : Pickle) (block xs ys : List ℕ) (first : Option Pickle) (next : Pickle → Option Pickle)
    → IsOwned p block
    → HasRoom p (length (xs ++ ys))
    → (HasRoom p (length xs) → Puts p block xs first)
    → ((q : Pickle) (block' : List ℕ)
        → IsOwned q block'
        → HasRoom q (length ys)
        → Puts q block' ys (next q))
    → Puts p block (xs ++ ys) (Common.◌>>=◌ first next)
>>=-Puts p block xs ys first next own room one two =
    let total = length-append xs ys in
    let (q, block', run, done) = one (omega (arith, total)) in
    let (r, block'', run', done') =
      two q block' done.owned
        (omega (arith, total, offset-Appended p q block block' xs own done)) in
    (r, block'', rw run run', trans-Appended p q r block block' block'' xs ys done done')
