-- ===== src/Ipc/ChannelReader/Chunks.antt =====
-- The frames of a stream that arrives in pieces.
use mathlib.Core.Path.{subst}
use lib_hh_old.Common.{
  ℕ, zero, suc, ◌-◌, ◌≤◌, ◌≡◌, refl, sym, ap, ap₂, ◌∙◌, inl, inr, some, none, List, [], ◌∷◌, ◌++◌,
  arith, Option-cases, append_assoc, length, length-append, length-drop, drop, take,
  take-append_left, take-length, drop-append_left, take-append-drop, drop-length, All,
}
use lib_hh_old.Common.Bytes.{le_value}
use lib_hh_old.Base.Pickle.{stored_payload_size}
use lib_hh_old.Ipc.ChannelReader.Frames.{
  frame_size, next_frame, next_frame_bounds, frames_within, left_within, frames, left_over,
  length-left_over-le,
}

-- The two results of the cutting loop, side by side.
abbrev Cut : Type 0
Cut = List (List ℕ) × List ℕ

abbrev cut : ℕ → List ℕ → Cut
cut fuel bytes = (frames_within fuel bytes, left_within fuel bytes)

cut-none : (fuel : ℕ) (bytes : List ℕ) → next_frame bytes ≡ none → cut fuel bytes ≡ ([], bytes)
unfolding frames_within left_within
cut-none zero bytes e = refl
cut-none (suc fuel) bytes e = rw (e, frames_within, left_within) refl

cut-some :
    (fuel n : ℕ) (bytes : List ℕ)
    → next_frame bytes ≡ some n
    → cut (suc fuel) bytes
      ≡ (take n bytes ∷ frames_within fuel (drop n bytes), left_within fuel (drop n bytes))
unfolding frames_within left_within
cut-some fuel n bytes e = rw (e, frames_within, left_within) refl

pub next_frame_nil : next_frame [] ≡ none
unfolding next_frame
next_frame_nil = refl

-- As much fuel as there are bytes is enough, and more changes nothing.
cut_enough :
    (f g : ℕ) (bytes : List ℕ) → length bytes ≤ f → length bytes ≤ g → cut f bytes ≡ cut g bytes
cut_enough f g [] hf hg = cut-none f [] next_frame_nil ∙ sym (cut-none g [] next_frame_nil)
cut_enough zero g (b ∷ bytes) hf hg = absurd (omega arith)
cut_enough (suc f) zero (b ∷ bytes) hf hg = absurd (omega arith)
cut_enough (suc f) (suc g) (b ∷ bytes) hf hg = elim (Option-cases (next_frame (b ∷ bytes))) [
  | inl e ↦ cut-none (suc f) (b ∷ bytes) e ∙ sym (cut-none (suc g) (b ∷ bytes) e)
  | inr (n, e) ↦
      let (size_eq, lo, hi) = next_frame_bounds (b ∷ bytes) e in
      let shorter = length-drop n (b ∷ bytes) in
      cut-some f n (b ∷ bytes) e
      ∙ ap (λ (c : Cut). (take n (b ∷ bytes) ∷ c.0, c.1))
          (cut_enough f g (drop n (b ∷ bytes)) (omega (arith, shorter, lo))
            (omega (arith, shorter, lo)))
      ∙ sym (cut-some g n (b ∷ bytes) e)
]

-- More bytes behind do not change the first frame.
next_frame-append : (a b : List ℕ) (n : ℕ) → next_frame a ≡ some n → next_frame (a ++ b) ≡ some n
unfolding next_frame
next_frame-append a b n e =
    let (size_eq, lo, hi) = next_frame_bounds a e in
    let same : stored_payload_size (a ++ b) ≡ stored_payload_size a =
      ap le_value (take-append_left 4 a b (omega arith)) in
    ground (arith, same, length-append a b)

-- Cutting goes on with what was left and the next piece.
abbrev resume : ℕ → List ℕ → Cut → Cut
resume fuel b c = (c.0 ++ frames_within fuel (c.1 ++ b), left_within fuel (c.1 ++ b))

cut-append :
    (f g k : ℕ) (a b : List ℕ)
    → length a ≤ f
    → length (a ++ b) ≤ g
    → length (a ++ b) ≤ k
    → cut g (a ++ b) ≡ resume k b (cut f a)
cut-append zero g k a b hf hg hk =
    cut_enough g k (a ++ b) hg hk
    ∙ ap (resume k b) (
        sym
          (cut-none zero a (subst (λ l. next_frame l ≡ none) (sym (nothing a hf)) next_frame_nil)))
  where
    nothing : (xs : List ℕ) → length xs ≤ 0 → xs ≡ []
    nothing [] h = refl
    nothing (x ∷ xs) h = absurd (omega arith)
cut-append (suc f) g k a b hf hg hk = elim (Option-cases (next_frame a)) [
  | inl e ↦ cut_enough g k (a ++ b) hg hk ∙ ap (resume k b) (sym (cut-none (suc f) a e))
  | inr (n, e) ↦
      let (size_eq, lo, hi) = next_frame_bounds a e in
      let shorter = length-drop n a in
      let total = length-append a b in
      let total' = length-append (drop n a) b in
      let pred : suc (g - 1) ≡ g = omega (arith, total, lo) in
      ap (λ i. cut i (a ++ b)) (sym pred)
      ∙ cut-some (g - 1) n (a ++ b) (next_frame-append a b n e)
      ∙ ap₂ (λ h t. (h ∷ frames_within (g - 1) t, left_within (g - 1) t))
          (take-append_left n a b hi) (drop-append_left n a b hi)
      ∙ ap (λ (c : Cut). (take n a ∷ c.0, c.1))
          (cut-append f (g - 1) k (drop n a) b (omega (arith, shorter, lo))
            (omega (arith, total, total', shorter, lo)) (omega (arith, total, total', shorter)))
      ∙ ap (resume k b) (sym (cut-some f n a e))
]

-- The frames of two pieces are those of the first, and then those of what it left and the second.
pub frames-append :
    (a b : List ℕ)
    → (frames (a ++ b) ≡ frames a ++ frames (left_over a ++ b))
      × (left_over (a ++ b) ≡ left_over (left_over a ++ b))
unfolding frames left_over
frames-append a b =
    let n : ℕ = length (a ++ b) in
    let whole = cut-append (length a) n n a b (omega arith) (omega arith) (omega arith) in
    let same =
      cut_enough n (length (left_over a ++ b)) (left_over a ++ b)
        (omega (arith, length-append (left_over a) b, length-append a b, length-left_over-le a))
        (omega arith) in
    (
      ap (λ (c : Cut). c.0) whole ∙ ap (λ (c : Cut). frames a ++ c.0) same,
      ap (λ (c : Cut). c.1) whole ∙ ap (λ (c : Cut). c.1) same,
    )

-- Nothing is lost or made up: the frames and what is left are the bytes.
abbrev pub concat : List (List ℕ) → List ℕ
concat [] = []
concat (f ∷ fs) = f ++ concat fs

concat-cut :
    (fuel : ℕ) (bytes : List ℕ)
    → concat (frames_within fuel bytes) ++ left_within fuel bytes ≡ bytes
concat-cut zero bytes = unfold frames_within left_within in refl
concat-cut (suc fuel) bytes = elim (Option-cases (next_frame bytes)) [
  | inl e ↦ ap (λ (c : Cut). concat c.0 ++ c.1) (cut-none (suc fuel) bytes e)
  | inr (n, e) ↦
      ap (λ (c : Cut). concat c.0 ++ c.1) (cut-some fuel n bytes e)
      ∙ append_assoc (take n bytes) _ _
      ∙ ap (◌++◌ (take n bytes)) (concat-cut fuel (drop n bytes))
      ∙ take-append-drop n bytes
]

pub concat-frames : (bytes : List ℕ) → concat (frames bytes) ++ left_over bytes ≡ bytes
unfolding frames left_over
concat-frames bytes = concat-cut (length bytes) bytes

-- One whole frame: its size is what its header states.
abbrev pub IsFrame : List ℕ → Type 0
IsFrame f = (16 ≤ length f) × (frame_size f ≡ length f)

cut-IsFrame : (f : List ℕ) → IsFrame f → (frames f ≡ f ∷ []) × (left_over f ≡ [])
unfolding frames left_over
cut-IsFrame f (long, size_eq) =
    let first : next_frame f ≡ some (length f) = unfold next_frame in ground (arith, size_eq) in
    let pred : suc (length f - 1) ≡ length f = omega arith in
    let all : take (length f) f ≡ f = take-length (length f) f (omega arith) in
    let rest : drop (length f) f ≡ [] = drop-length (length f) f (omega arith) in
    let whole : cut (length f) f ≡ (f ∷ [], []) =
      ap (λ i. cut i f) (sym pred)
      ∙ cut-some (length f - 1) (length f) f first
      ∙ ap₂ (λ h t. (h ∷ frames_within (length f - 1) t, left_within (length f - 1) t)) all rest
      ∙ ap (λ (c : Cut). (f ∷ c.0, c.1)) (cut-none (length f - 1) [] next_frame_nil) in
    (ap (λ (c : Cut). c.0) whole, ap (λ (c : Cut). c.1) whole)

-- Frames that were sent one after the other are found again, and nothing is left.
pub frames-concat :
    (fs : List (List ℕ)) → All IsFrame fs → (frames (concat fs) ≡ fs) × (left_over (concat fs) ≡ [])
frames-concat [] h =
    unfold frames left_over in (ap (λ (c : Cut). c.0) nil, ap (λ (c : Cut). c.1) nil)
  where
    nil : cut 0 [] ≡ ([], [])
    nil = cut-none 0 [] next_frame_nil
frames-concat (f ∷ fs) (hf, hfs) =
    let (split, rest) = frames-append f (concat fs) in
    let (one, none_left) = cut-IsFrame f hf in
    let (ih, ih') = frames-concat fs hfs in
    (
      split ∙ ap₂ (λ a b. a ++ frames (b ++ concat fs)) one none_left ∙ ap (◌∷◌ f) ih,
      rest ∙ ap (λ b. left_over (b ++ concat fs)) none_left ∙ ih',
    )

left_within-next :
    (fuel : ℕ) (bytes : List ℕ) → length bytes ≤ fuel → next_frame (left_within fuel bytes) ≡ none
unfolding left_within
left_within-next fuel [] h =
    ap (λ (c : Cut). next_frame c.1) (cut-none fuel [] next_frame_nil) ∙ next_frame_nil
left_within-next zero (b ∷ bytes) h = absurd (omega arith)
left_within-next (suc fuel) (b ∷ bytes) h = elim (Option-cases (next_frame (b ∷ bytes))) [
  | inl e ↦ rw (e, left_within) e
  | inr (n, e) ↦
      let (size_eq, lo, hi) = next_frame_bounds (b ∷ bytes) e in
      rw (e, left_within)
        (left_within-next fuel (drop n (b ∷ bytes)) (omega (arith, length-drop n (b ∷ bytes), lo)))
]

-- What is left holds no whole frame.
pub left_over-next : (bytes : List ℕ) → next_frame (left_over bytes) ≡ none
unfolding left_over
left_over-next bytes = left_within-next (length bytes) bytes (omega arith)

pub frames-none :
    (bytes : List ℕ) → next_frame bytes ≡ none → (frames bytes ≡ []) × (left_over bytes ≡ bytes)
unfolding frames left_over
frames-none bytes e =
    let c = cut-none (length bytes) bytes e in (ap (λ (c : Cut). c.0) c, ap (λ (c : Cut). c.1) c)
