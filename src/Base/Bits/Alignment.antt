-- ===== src/Base/Bits/Alignment.antt =====
-- `Align` at the alignments that the program uses, as arithmetic.
use Prim.Native.Nat.{bit_and}
use lib_hh_old.Common.{ℕ, ◌+◌, ◌-◌, ◌*◌, ◌/◌, ◌%◌, ◌^◌, ◌≤◌, ◌≡◌, refl, ap, ◌∙◌, arith}
use lib_hh_old.Common.Bits.{bit_and_ones, bit_and_shifted}
use lib_hh_old.Common.Int.{size_mod, add_size, sub_size}
use lib_hh_old.Base.Bits.{align, complement}

-- `Align` to `2 ^ k` rounds up to a multiple, where the sum does not wrap.
align_pow_two :
    (k rest size : ℕ)
    → complement (2 ^ k - 1) ≡ (2 ^ rest - 1) * 2 ^ k
    → sub_size (2 ^ k) 1 ≡ 2 ^ k - 1
    → sub_size (add_size size (2 ^ k)) 1 ≡ size + (2 ^ k - 1)
    → (size + (2 ^ k - 1)) / 2 ^ k % 2 ^ rest ≡ (size + (2 ^ k - 1)) / 2 ^ k
    → align size (2 ^ k) ≡ (size + (2 ^ k - 1)) / 2 ^ k * 2 ^ k
unfolding align
align_pow_two k rest size mask less_one sum fits =
    ap (λ t. bit_and (sub_size (add_size size (2 ^ k)) 1) (complement t)) less_one
    ∙ ap (λ t. bit_and t (complement (2 ^ k - 1))) sum
    ∙ ap (bit_and (size + (2 ^ k - 1))) mask
    ∙ bit_and_shifted k (size + (2 ^ k - 1)) (2 ^ rest - 1)
    ∙ ap (λ t. t * 2 ^ k) (bit_and_ones rest ((size + (2 ^ k - 1)) / 2 ^ k) ∙ fits)

pub align_four : (size : ℕ) → size + 4 ≤ size_mod → align size 4 ≡ (size + 3) / 4 * 4
align_four size h = align_pow_two 2 30 size refl refl (omega arith) (omega arith)

pub align_unit : (size : ℕ) → size + 64 ≤ size_mod → align size 64 ≡ (size + 63) / 64 * 64
align_unit size h = align_pow_two 6 26 size refl refl (omega arith) (omega arith)

pub align_page : (size : ℕ) → size + 4096 ≤ size_mod → align size 4096 ≡ (size + 4095) / 4096 * 4096
align_page size h = align_pow_two 12 20 size refl refl (omega arith) (omega arith)
