-- ===== src/Base/Pickle/Layout.antt =====
-- The shape of the block of a pickle that owns its memory, and the block after one write.
use lib_hh_old.Common.{
  ℕ, ◌+◌, ◌-◌, ◌*◌, ◌/◌, ◌%◌, ◌^◌, ◌≤◌, ◌<◌, ◌≡◌, ap, ap₂, ◌∙◌, some, List, ◌++◌, arith, length,
  take,
}
use lib_hh_old.Common.Slices.{
  slice, splice, length-splice, slice-splice_self, slice-splice_before, drop-splice_after,
  slice-add,
}
use lib_hh_old.Common.Bytes.{le_bytes, length-le_bytes, zeros, length-zeros}
use lib_hh_old.Common.Int.{size_max}
use lib_hh_old.Base.Pickle.{Pickle, stored_payload_size}

-- The invariant of a pickle that owns its block and is only written to.
pub record IsOwned (p : Pickle) (block : List ℕ) : Type 0 where
  pub header_eq : p.header ≡ some block
  pub header_aligned : p.header_size % 4 ≡ 0
  pub header_whole : 4 ≤ p.header_size
  pub header_bound : p.header_size ≤ 2 ^ 20
  pub capacity_aligned : p.capacity_after_header % 64 ≡ 0
  pub capacity_bound : p.header_size + p.capacity_after_header < size_max
  pub filled : length block ≡ p.header_size + p.capacity_after_header
  pub within : p.write_offset ≤ p.capacity_after_header
  pub offset_aligned : p.write_offset % 4 ≡ 0
  pub in_sync : stored_payload_size block ≡ p.write_offset

-- The payload that has been written.
abbrev pub written : Pickle → List ℕ → List ℕ
written p block = slice p.header_size p.write_offset block

-- The header fields behind `payload_size`, which the writer leaves alone.
abbrev pub header_fields : Pickle → List ℕ → List ℕ
header_fields p block = slice 4 (p.header_size - 4) block

-- How many zero bytes fill the last word.
abbrev pub padding : ℕ → ℕ
padding n = (n + 3) / 4 * 4 - n

abbrev pub padded : List ℕ → List ℕ
padded bytes = bytes ++ zeros (padding (length bytes))

-- The block after a write: the padding, the new size, then the bytes.
module _ (block : List ℕ) (hs wo s : ℕ) (bytes : List ℕ) (pad : ℕ) (whole : 4 ≤ hs)
    (room : hs + wo + length bytes + pad ≤ length block) where
  abbrev pub after_claim : List ℕ
  after_claim = splice (splice block (hs + wo + length bytes) (zeros pad)) 0 (le_bytes 4 s)

  abbrev pub after_write : List ℕ
  after_write = splice after_claim (hs + wo) bytes

  zeros_fit : hs + wo + length bytes + length (zeros pad) ≤ length block
  zeros_fit = omega (arith, length-zeros pad)

  length-after_pad : length (splice block (hs + wo + length bytes) (zeros pad)) ≡ length block
  length-after_pad = length-splice block _ _ zeros_fit

  pub size_fits :
      0 + length (le_bytes 4 s) ≤ length (splice block (hs + wo + length bytes) (zeros pad))
  size_fits = omega (arith, length-le_bytes 4 s, length-after_pad)

  pub length-after_claim : length after_claim ≡ length block
  length-after_claim = length-splice _ 0 (le_bytes 4 s) size_fits ∙ length-after_pad

  pub bytes_fit : hs + wo + length bytes ≤ length after_claim
  bytes_fit = omega (arith, length-after_claim)

  pub length-after_write : length after_write ≡ length block
  length-after_write = length-splice after_claim (hs + wo) bytes bytes_fit ∙ length-after_claim

  pub size-after_write : slice 0 4 after_write ≡ le_bytes 4 s
  size-after_write =
      slice-splice_before after_claim (hs + wo) bytes bytes_fit 0 4 (omega arith)
      ∙ ap (λ n. slice 0 n after_claim) (sym_length)
      ∙ slice-splice_self _ 0 (le_bytes 4 s) size_fits
    where
      sym_length : 4 ≡ length (le_bytes 4 s)
      sym_length = omega (arith, length-le_bytes 4 s)

  -- A range behind the size and before the write keeps its bytes.
  pub slice-after_write_before :
      (i n : ℕ) → 4 ≤ i → i + n ≤ hs + wo → slice i n after_write ≡ slice i n block
  slice-after_write_before i n lo hi =
      slice-splice_before after_claim (hs + wo) bytes bytes_fit i n hi
      ∙ ap (take n)
          (drop-splice_after _ 0 (le_bytes 4 s) size_fits i (omega (arith, length-le_bytes 4 s)))
      ∙ slice-splice_before block _ _ zeros_fit i n (omega arith)

  zeros-after_write : slice (hs + wo + length bytes) pad after_write ≡ zeros pad
  zeros-after_write =
      ap (take pad) (drop-splice_after after_claim (hs + wo) bytes bytes_fit _ (omega arith))
      ∙ ap (take pad)
          (drop-splice_after _ 0 (le_bytes 4 s) size_fits _ (omega (arith, length-le_bytes 4 s)))
      ∙ ap
          (λ n.
            slice (hs + wo + length bytes) n (splice block (hs + wo + length bytes) (zeros pad)))
          same
      ∙ slice-splice_self block _ _ zeros_fit
    where
      same : pad ≡ length (zeros pad)
      same = omega (arith, length-zeros pad)

  -- The payload grows by the bytes and their padding.
  pub payload-after_write :
      slice hs (wo + (length bytes + pad)) after_write ≡ slice hs wo block ++ (bytes ++ zeros pad)
  payload-after_write =
      slice-add hs wo (length bytes + pad) after_write
      ∙ ap₂ ◌++◌ (slice-after_write_before hs wo whole (omega arith)) (
          slice-add (hs + wo) (length bytes) pad after_write
          ∙ ap₂ ◌++◌ (slice-splice_self after_claim (hs + wo) bytes bytes_fit) zeros-after_write)
