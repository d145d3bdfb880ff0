-- ===== src/Ipc/ParamTraits/Sizes.antt =====
-- ParamTraits<std::vector<P>>::Read of libHH/ipc/ipc_message_utils.h over bytes from elsewhere: the
-- guard on the size.
use lib_hh_old.Common.{
  ℕ, zero, suc, sym, ◌-◌, ◌*◌, ◌/◌, ◌^◌, ◌≤◌, ◌≡◌, refl, ◌∙◌, ap, Bool, true, false, Option, none,
  some, List, [], ◌∷◌, arith, leb, if◌then◌else◌, length, take, replicate, length-append,
  length-take,
}
use mathlib.Core.Path.{subst}
use native.Mathlib.Nat.{le-div_iff_mul-le}
use lib_hh_old.Base.PickleIterator.{PickleIterator, Reader, continue, fail, read_length}
use lib_hh_old.Base.PickleIterator.Bounds.{IsInBounds}
use lib_hh_old.Ipc.ParamTraits.{ParamTraits, resize_to, read_each, read_vector}
use lib_hh_old.Ipc.ParamTraits.Bounds.{Kept, StaysInBounds, vector_param-StaysInBounds}

-- What holds of the result, where there is one.
abbrev pub Gives : {A : Type 0} → (A → Type 0) → Option A × PickleIterator → Type 0
Gives P (none, it) = Unit
Gives P (some x, it) = P x

continue-Gives :
    {A B : Type 0} (Q : A → Type 0) (P : B → Type 0) (f : A → Reader B)
    (res : Option A × PickleIterator)
    → Gives Q res
    → ((x : A) (it : PickleIterator) → Q x → Gives P (f x it))
    → Gives P (continue f res)
continue-Gives Q P f (none, it) h next = tt
continue-Gives Q P f (some x, it) h next = next x it h

-- A result of which nothing is known.
Gives-any : {A : Type 0} (res : Option A × PickleIterator) → Gives (λ x. Unit) res
Gives-any (none, it) = tt
Gives-any (some x, it) = tt

if-Gives :
    {A : Type 0} (P : A → Type 0) (b : Bool) (m : Reader A) (it : PickleIterator)
    → (b ≡ false → Gives P (m it))
    → Gives P ((if b then fail else m) it)
if-Gives P true m it next = tt
if-Gives P false m it next = next refl

length-replicate : {A : Type 0} (n : ℕ) (x : A) → length (replicate n x) ≡ n
length-replicate zero x = refl
length-replicate (suc n) x = ap suc (length-replicate n x)

length-resize_to :
    {A : Type 0} (fresh : A) (n : ℕ) (xs : List A) → length (resize_to fresh n xs) ≡ n
unfolding resize_to
length-resize_to fresh n xs =
    length-append (take n xs) (replicate (n - length xs) fresh)
    ∙ omega (arith, length-take n xs, length-replicate (n - length xs) fresh)

module _ {A : Type 0} (t : ParamTraits A) where
  length-read_each :
      (rs : List A) (it : PickleIterator) → Gives (λ xs. length xs ≡ length rs) (read_each t rs it)
  unfolding read_each
  length-read_each [] it = refl
  length-read_each (r ∷ rs) it =
      continue-Gives (λ x. Unit) (λ xs. length xs ≡ suc (length rs)) _ (t.read r it)
        (Gives-any (t.read r it))
        (λ x it1 h.
          continue-Gives (λ xs. length xs ≡ length rs) (λ xs. length xs ≡ suc (length rs)) _
            (read_each t rs it1) (length-read_each rs it1) (λ xs it2 e. ap suc e))

  -- The storage of the elements is below the greatest int.
  abbrev pub Fits : List A → Type 0
  Fits xs = length xs * t.sizeof_param ≤ 2 ^ 31 - 1

  module _ (sized : 1 ≤ t.sizeof_param) where
    guard-bounds :
        (size : ℕ)
        → leb ((2 ^ 31 - 1) / t.sizeof_param) size ≡ false
        → size * t.sizeof_param ≤ 2 ^ 31 - 1
    guard-bounds size h =
        let (to, from) = le-div_iff_mul-le {k = t.sizeof_param} {x = size} {y = 2 ^ 31 - 1} sized in
        to (below ((2 ^ 31 - 1) / t.sizeof_param) size h)
      where
        below : (m n : ℕ) → leb m n ≡ false → n ≤ m
        below m n h = ground arith

    read_vector-Fits : (r : List A) (it : PickleIterator) → Gives Fits (read_vector t r it)
    unfolding read_vector
    read_vector-Fits r it =
        continue-Gives (λ size. Unit) Fits _ (read_length it) (Gives-any (read_length it))
          (λ size it1 h. if-Gives Fits _ _ it1 (λ guard.
            let whole : List A = resize_to t.fresh size r in
            fits (length whole) (read_each t whole it1)
              (subst (λ n. n * t.sizeof_param ≤ 2 ^ 31 - 1) (sym (length-resize_to t.fresh size r))
                (guard-bounds size guard))
              (length-read_each whole it1)))
      where
        fits :
            (n : ℕ) (res : Option (List A) × PickleIterator)
            → n * t.sizeof_param ≤ 2 ^ 31 - 1
            → Gives (λ xs. length xs ≡ n) res
            → Gives Fits res
        fits n (none, it) le e = tt
        fits n (some xs, it) le e = subst (λ n. n * t.sizeof_param ≤ 2 ^ 31 - 1) (sym e) le

    -- For elements of at least one byte, whose own reads leave every iterator that is in bounds in
    -- bounds with the same end: from an iterator in bounds, whatever the bytes are and whatever the
    -- vector holds that is read into, the read of a std::vector leaves the iterator in bounds with
    -- the same end, and a vector that it gives has at most INT_MAX bytes of elements.
    pub read_vector-StaysInBounds :
        (r : List A) (it : PickleIterator)
        → StaysInBounds t
        → IsInBounds it
        → Kept it (read_vector t r it) × Gives Fits (read_vector t r it)
    read_vector-StaysInBounds r it stays h =
        (vector_param-StaysInBounds t 12 stays r it h, read_vector-Fits r it)
