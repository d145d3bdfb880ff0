-- ===== src/Base/Bits/Examples.antt =====
-- Runs of the functions of bits.h, and their theorems at concrete inputs.
use lib_hh_old.Common.{◌≡◌, refl}
use lib_hh_old.Common.Int.{pos, negsuc}
use lib_hh_old.Base.Bits.{align, log2_floor}

align_to_unit : align 65 64 ≡ 128
unfolding align
align_to_unit = refl

-- The sum wraps close to the largest `size_t`.
align_wraps : align 0xffff_fffe 4 ≡ 0
unfolding align
align_wraps = refl

log2_floor_zero : log2_floor 0 ≡ negsuc 0
unfolding log2_floor
log2_floor_zero = refl

log2_floor_run : log2_floor 4096 ≡ pos 12
unfolding log2_floor
log2_floor_run = refl
