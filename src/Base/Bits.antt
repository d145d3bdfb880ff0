-- ===== src/Base/Bits.antt =====
-- libHH/base/bits.h, over 32-bit words.
pub mod Alignment
pub mod Log2
mod Examples
use Prim.Native.Nat.{bit_and}
use lib_hh_old.Common.{ℕ, zero, suc, ◌+◌, ◌-◌, ◌/◌, ◌^◌, arith, ◌==◌, if◌then◌else◌}
use lib_hh_old.Common.Int.{ℤ, pos, negsuc, ◌+ℤ◌, size_max, add_size, sub_size}

-- `~x`.
abbrev pub complement : ℕ → ℕ
complement x = size_max - x

-- `(size + alignment - 1) & ~(alignment - 1)`, each step in `size_t`.
pub align : ℕ → ℕ → ℕ
align size alignment =
    bit_and (sub_size (add_size size alignment) 1) (complement (sub_size alignment 1))

-- The loop of `Log2Floor`: `i` runs down from `rounds - 1` to 0, and `shift` is `1 << i`.
unfoldable pub log2_floor_loop : ℕ → ℕ → ℕ → ℕ
log2_floor_loop zero value log = log
log2_floor_loop (suc i) value log =
    let shift : ℕ = 2 ^ i in
    let x : ℕ = value / 2 ^ shift in
    log2_floor_loop i (if x == 0 then value else x) (if x == 0 then log else log + shift)

unfoldable pub log2_floor : ℕ → ℤ
unfolding log2_floor_loop
log2_floor n = if n == 0 then negsuc 0 else pos (log2_floor_loop 5 n 0)

unfoldable pub log2_ceiling : ℕ → ℤ
unfolding ◌+ℤ◌
log2_ceiling n = if n == 0 then negsuc 0 else pos 1 +ℤ log2_floor (n - 1)
