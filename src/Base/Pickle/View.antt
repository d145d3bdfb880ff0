-- ===== src/Base/Pickle/View.antt =====
-- The read-only pickle over bytes that came from elsewhere: what it accepts, and
-- where its payload lies.
use mathlib.Core.Path.{subst}
use native.Mathlib.Decide.{dec_lt}
use lib_hh_old.Common.{
  ℕ, zero, suc, ◌+◌, ◌-◌, ◌%◌, ◌^◌, ◌≤◌, ◌<◌, ◌≡◌, ◌∙◌, ◌⊎◌, inl, inr, some, none, List, [], ◌∷◌,
  arith, length, take, length-drop, length-take, All,
}
use lib_hh_old.Common.Bytes.{IsByte, le_value, le_value-lt}
use lib_hh_old.Common.Int.{sub_size, size_mod}
use lib_hh_old.Base.Bits.{align}
use lib_hh_old.Base.Bits.Alignment.{align_four}
use lib_hh_old.Base.Pickle.{Pickle, view, payload, payload_size, stored_payload_size}

-- The sizes that the bytes state agree: the header is whole words, at least one, and the header and
-- the payload are together `data_len` bytes.
abbrev pub Sized : List ℕ → ℕ → Pickle → Type 0
Sized bytes data_len p =
    (p.header ≡ some bytes)
    × (p.header_size + stored_payload_size bytes ≡ data_len)
    × (p.header_size % 4 ≡ 0)
    × (4 ≤ p.header_size)

take-All : (n : ℕ) (bytes : List ℕ) → All IsByte bytes → All IsByte (take n bytes)
take-All zero bytes h = tt
take-All (suc n) [] h = tt
take-All (suc n) (b ∷ bytes) h = (h.0, take-All n bytes h.1)

pub stored_payload_size-lt :
    (bytes : List ℕ) → 4 ≤ length bytes → All IsByte bytes → stored_payload_size bytes < size_mod
stored_payload_size-lt bytes long h =
    let e : length (take 4 bytes) ≡ 4 = omega (arith, length-take 4 bytes) in
    subst (λ n. le_value (take 4 bytes) < 256 ^ n) e
      (le_value-lt (take 4 bytes) (take-All 4 bytes h))

-- A read-only pickle over any bytes, for a length below 2^31 that they have, is either null with an
-- empty header, or is over those bytes with a header of at least four bytes, a multiple of four,
-- that fills the length together with the stated payload.
pub view-Sized :
    (bytes : List ℕ) (data_len : ℕ)
    → All IsByte bytes
    → data_len ≤ length bytes
    → data_len < 2 ^ 31
    → (((view bytes data_len).header ≡ none) × ((view bytes data_len).header_size ≡ 0))
      ⊎ Sized bytes data_len (view bytes data_len)
unfolding view
view-Sized bytes data_len h inside small = elim (dec_lt data_len 4) [
  | yes short ↦ inl (ground (arith, align_four 0), ground (arith, align_four 0))
  | no long ↦
      let below = stored_payload_size-lt bytes (omega arith) h in
      ground
        (arith, below, align_four 0, align_four (sub_size data_len (stored_payload_size bytes)))
]

-- Bytes whose stated payload leaves a nonempty header of whole words in a length from 4 to 2^31 - 1
-- are accepted by the read-only constructor.
pub view-accepts :
    (bytes : List ℕ) (data_len : ℕ)
    → 4 ≤ data_len
    → data_len < 2 ^ 31
    → stored_payload_size bytes < data_len
    → (data_len - stored_payload_size bytes) % 4 ≡ 0
    → Sized bytes data_len (view bytes data_len)
unfolding view
view-accepts bytes data_len long small fits aligned =
    let e : sub_size data_len (stored_payload_size bytes) ≡ data_len - stored_payload_size bytes =
      omega arith in
    let rounded : align (data_len - stored_payload_size bytes) 4
        ≡ data_len - stored_payload_size bytes =
      align_four _ (omega arith) ∙ omega arith in
    rw e (ground (arith, rounded))

-- The payload that a read-only pickle over bytes from elsewhere states lies inside the bytes that it
-- was given, whatever they hold, for a length below 2^31 that they have.
pub view-payload_inside :
    (bytes : List ℕ) (data_len : ℕ)
    → All IsByte bytes
    → data_len ≤ length bytes
    → data_len < 2 ^ 31
    → payload_size (view bytes data_len) ≤ length (payload (view bytes data_len))
view-payload_inside bytes data_len h inside small =
    elim (view-Sized bytes data_len h inside small) [
      | inl (null, _) ↦ unfold payload payload_size in rw null (omega arith)
      | inr (e, sum, _, _) ↦
          unfold payload payload_size in
          rw e (omega (arith, length-drop (view bytes data_len).header_size bytes))
    ]
