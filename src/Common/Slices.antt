-- ===== src/Common/Slices.antt =====
-- A block of memory is a list of bytes: the bytes at an offset, and the block with bytes put there.
use lib_hh_old.Common.{ℕ, ◌+◌, ◌-◌, ◌≤◌, ◌≡◌, sym, ap, ◌∙◌, List, ◌++◌, Option, some, none, arith}
use lib_hh_old.Common.{
  leb, if◌then◌else◌, length, take, drop, length-append, length-take, length-drop, take-append_left,
  take-length, drop-append_right, drop-drop, take-take, drop-take, take-add,
}

abbrev pub slice : ℕ → ℕ → List ℕ → List ℕ
slice off n mem = take n (drop off mem)

-- `memcpy(mem + off, bs, n)` inside the block.
unfoldable pub splice : List ℕ → ℕ → List ℕ → List ℕ
splice mem off bs = take off mem ++ (bs ++ drop (off + length bs) mem)

-- The same write as the program makes it: outside the block it is undefined behaviour.
unfoldable pub store : List ℕ → ℕ → List ℕ → Option (List ℕ)
store mem off bs = if leb (off + length bs) (length mem) then some (splice mem off bs) else none

pub store_lem :
    (mem : List ℕ) (off : ℕ) (bs : List ℕ)
    → off + length bs ≤ length mem
    → store mem off bs ≡ some (splice mem off bs)
unfolding store
store_lem mem off bs h = ground arith

module _ (mem : List ℕ) (off : ℕ) (bs : List ℕ) (fits : off + length bs ≤ length mem) where
  length-before : length (take off mem) ≡ off
  length-before = omega (arith, length-take off mem)

  pub length-splice : length (splice mem off bs) ≡ length mem
  unfolding splice
  length-splice = omega (
    arith,
    length-append (take off mem) (bs ++ drop (off + length bs) mem),
    length-append bs (drop (off + length bs) mem),
    length-before,
    length-drop (off + length bs) mem,
  )

  -- What lies from `off` on, after the write.
  pub drop-splice : drop off (splice mem off bs) ≡ bs ++ drop (off + length bs) mem
  unfolding splice
  drop-splice =
      let e : off ≡ length (take off mem) + 0 = omega (arith, length-before) in
      ap (λ k. drop k (take off mem ++ (bs ++ drop (off + length bs) mem))) e
      ∙ drop-append_right 0 (take off mem) (bs ++ drop (off + length bs) mem)

  pub slice-splice_self : slice off (length bs) (splice mem off bs) ≡ bs
  slice-splice_self =
      ap (take (length bs)) drop-splice
      ∙ take-append_left (length bs) bs _ (omega arith)
      ∙ take-length (length bs) bs (omega arith)

  pub take-splice : (k : ℕ) → k ≤ off → take k (splice mem off bs) ≡ take k mem
  unfolding splice
  take-splice k h =
      take-append_left k (take off mem) _ (omega (arith, length-before)) ∙ take-take k off mem h

  -- Bytes before the write keep their values.
  pub slice-splice_before : (i n : ℕ) → i + n ≤ off → slice i n (splice mem off bs) ≡ slice i n mem
  slice-splice_before i n h =
      sym (drop-take i n (splice mem off bs))
      ∙ ap (drop i) (take-splice (i + n) h)
      ∙ drop-take i n mem

  -- And so do those behind it.
  pub drop-splice_after : (i : ℕ) → off + length bs ≤ i → drop i (splice mem off bs) ≡ drop i mem
  drop-splice_after i h =
      let d = i - (off + length bs) in
      let e : i ≡ off + (length bs + d) = omega arith in
      let e' : off + length bs + d ≡ i = omega arith in
      ap (λ k. drop k (splice mem off bs)) e
      ∙ sym (drop-drop (length bs + d) off (splice mem off bs))
      ∙ ap (drop (length bs + d)) drop-splice
      ∙ drop-append_right d bs (drop (off + length bs) mem)
      ∙ drop-drop d (off + length bs) mem
      ∙ ap (λ k. drop k mem) e'

-- `memcpy` out of a block: outside the block it is undefined behaviour.
unfoldable pub load : List ℕ → ℕ → ℕ → Option (List ℕ)
load mem off n = if leb (off + n) (length mem) then some (slice off n mem) else none

pub load_lem :
    (mem : List ℕ) (off n : ℕ) → off + n ≤ length mem → load mem off n ≡ some (slice off n mem)
unfolding load
load_lem mem off n h = ground arith

pub length-slice : (off n : ℕ) (mem : List ℕ) → off + n ≤ length mem → length (slice off n mem) ≡ n
length-slice off n mem h = omega (arith, length-take n (drop off mem), length-drop off mem)

pub slice-add :
    (i n m : ℕ) (mem : List ℕ) → slice i (n + m) mem ≡ slice i n mem ++ slice (i + n) m mem
slice-add i n m mem =
    take-add n m (drop i mem) ∙ ap (λ t. slice i n mem ++ take m t) (drop-drop n i mem)

-- A range inside a common prefix.
pub slice-of_take :
    (i n k : ℕ) (a b : List ℕ) → i + n ≤ k → take k a ≡ take k b → slice i n a ≡ slice i n b
slice-of_take i n k a b h e =
    sym (drop-take i n a)
    ∙ ap (drop i) (sym (take-take (i + n) k a h) ∙ ap (take (i + n)) e ∙ take-take (i + n) k b h)
    ∙ drop-take i n b
