-- ===== src/Ipc/ChannelReader/Frames.antt =====
-- What a byte stream holds, without the reader: whole frames, and what is left. A frame is a header
-- of 16 bytes, which starts with the payload's size, and the payload.
use lib_hh_old.Common.{
  ℕ, zero, suc, ◌+◌, ◌≤◌, ◌^◌, ◌≡◌, refl, Bool, ◌&&◌, Option, some, none, List, [], ◌∷◌, min, leb,
  ◌==◌, if◌then◌else◌, arith, length, take, drop, length-drop, All, Option-cases, inl, inr,
}
use lib_hh_old.Common.Slices.{slice}
use lib_hh_old.Common.Bytes.{le_value, IsByte}
use lib_hh_old.Common.Int.{eq_ℤ, to_int, size_max}
use lib_hh_old.Base.Pickle.{stored_payload_size, peek_next}
use lib_hh_old.Base.Pickle.View.{stored_payload_size-lt}
use lib_hh_old.Ipc.Message.{find_next}
use lib_hh_old.Ipc.ChannelReader.{routing_none, hello_message_type}

abbrev pub frame_size : List ℕ → ℕ
frame_size bytes = 16 + stored_payload_size bytes

-- The size of the first frame, where the whole of it is there.
unfoldable pub next_frame : List ℕ → Option ℕ
next_frame bytes =
    if leb 16 (length bytes) && leb (frame_size bytes) (length bytes)
    then some (frame_size bytes)
    else none

-- The size that an unfinished frame announces: 0 before its header is there.
unfoldable pub announced_size : List ℕ → ℕ
announced_size bytes = if leb 16 (length bytes) then min (frame_size bytes) size_max else 0

-- The whole frames at the start of the bytes, and the bytes behind them.
unfoldable pub frames_within : ℕ → List ℕ → List (List ℕ)
frames_within zero bytes = []
frames_within (suc fuel) bytes = elim (next_frame bytes) [
  | none ↦ []
  | some n ↦ take n bytes ∷ frames_within fuel (drop n bytes)
]

unfoldable pub left_within : ℕ → List ℕ → List ℕ
left_within zero bytes = bytes
left_within (suc fuel) bytes = elim (next_frame bytes) [
  | none ↦ bytes
  | some n ↦ left_within fuel (drop n bytes)
]

unfoldable pub frames : List ℕ → List (List ℕ)
frames bytes = frames_within (length bytes) bytes

unfoldable pub left_over : List ℕ → List ℕ
left_over bytes = left_within (length bytes) bytes

-- The hello of the peer.
unfoldable pub is_internal_frame : List ℕ → Bool
is_internal_frame frame =
    eq_ℤ (to_int (le_value (slice 4 4 frame))) routing_none
    && le_value (slice 8 4 frame) == hello_message_type

pub next_frame_bounds :
    (bytes : List ℕ) {n : ℕ}
    → next_frame bytes ≡ some n
    → (n ≡ frame_size bytes) × (16 ≤ n) × (n ≤ length bytes)
unfolding next_frame
next_frame_bounds bytes h = ground arith

-- `FindNext` sees the same frames, on bytes that fit in memory.
pub find_next-next_frame :
    (bytes : List ℕ)
    → All IsByte bytes
    → length bytes ≤ 2 ^ 30
    → ((find_next bytes).message_end ≡ next_frame bytes)
      × (next_frame bytes ≡ none → (find_next bytes).message_size ≡ announced_size bytes)
unfolding find_next next_frame announced_size peek_next
find_next-next_frame bytes h small = ground (arith, stored_payload_size-lt bytes)

length-left_within-le : (fuel : ℕ) (bytes : List ℕ) → length (left_within fuel bytes) ≤ length bytes
unfolding left_within
length-left_within-le zero bytes = omega arith
length-left_within-le (suc fuel) bytes = elim (Option-cases (next_frame bytes)) [
  | inl e ↦ rw (e, left_within) (omega arith)
  | inr (n, e) ↦
      rw (e, left_within)
        (omega (arith, length-left_within-le fuel (drop n bytes), length-drop n bytes))
]

pub length-left_over-le : (bytes : List ℕ) → length (left_over bytes) ≤ length bytes
unfolding left_over
length-left_over-le bytes = length-left_within-le (length bytes) bytes

-- Where nothing was cut off, everything is left.
left_within_all :
    (fuel : ℕ) (bytes : List ℕ)
    → length (left_within fuel bytes) ≡ length bytes
    → left_within fuel bytes ≡ bytes
unfolding left_within
left_within_all zero bytes h = refl
left_within_all (suc fuel) bytes h = elim (Option-cases (next_frame bytes)) [
  | inl e ↦ rw (e, left_within) refl
  | inr (n, e) ↦
      let (size_eq, lo, hi) = next_frame_bounds bytes e in
      let same : length (left_within fuel (drop n bytes)) ≡ length bytes =
        rw (e, left_within) at h in
      absurd (omega (arith, same, length-left_within-le fuel (drop n bytes), length-drop n bytes))
]

pub left_over_all :
    (bytes : List ℕ) → length (left_over bytes) ≡ length bytes → left_over bytes ≡ bytes
unfolding left_over
left_over_all bytes h = left_within_all (length bytes) bytes h

drop-IsByte : (n : ℕ) (bytes : List ℕ) → All IsByte bytes → All IsByte (drop n bytes)
drop-IsByte zero bytes h = h
drop-IsByte (suc n) [] h = tt
drop-IsByte (suc n) (b ∷ bytes) h = drop-IsByte n bytes h.1

left_within-IsByte :
    (fuel : ℕ) (bytes : List ℕ) → All IsByte bytes → All IsByte (left_within fuel bytes)
unfolding left_within
left_within-IsByte zero bytes h = h
left_within-IsByte (suc fuel) bytes h = elim (Option-cases (next_frame bytes)) [
  | inl e ↦ rw (e, left_within) h
  | inr (n, e) ↦
      rw (e, left_within) (left_within-IsByte fuel (drop n bytes) (drop-IsByte n bytes h))
]

pub left_over-IsByte : (bytes : List ℕ) → All IsByte bytes → All IsByte (left_over bytes)
unfolding left_over
left_over-IsByte bytes h = left_within-IsByte (length bytes) bytes h
