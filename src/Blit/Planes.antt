-- ===== src/Blit/Planes.antt =====
-- The bits of a planar bitmap, told apart from the loop of chip_BlitPlanar2Chunky
-- (src/chip/chip_blit.c).
use virt_iogpu.Prelude.{
  ℕ, zero, suc, ◌+◌, ◌-◌, ◌*◌, ◌/◌, ◌%◌, ◌^◌, ◌<◌, ◌≡◌, refl, ◌==◌, if◌then◌else◌, arith,
}
use virt_iogpu.Blit.Expand.{BitMap, plane_bit}

-- What the leftmost pixel of a byte weighs in it, the next one, and so on: 128, 64, .. 1.
unfoldable pub weight : ℕ → ℕ
weight zero = 128
weight (suc i) = weight i / 2

-- The bit of plane `p` at column `x` and row `y`, if the plane is there and bit `p` of the mask
-- set.
abbrev pub enabled_bit : BitMap → (ℕ → ℕ) → ℕ → ℕ → ℕ → ℕ → ℕ
enabled_bit bm bits mask x y p =
    if bm.planes p == 0
    then 0
    else if mask / 2 ^ p % 2 == 1
    then bits (bm.planes p + y * bm.bytes_per_row + x / 8) / weight (x % 8) % 2
    else 0

weight_lem : (i : ℕ) → i < 8 → 2 ^ (7 - i) ≡ weight i
unfolding weight
weight_lem zero h = refl
weight_lem (suc zero) h = refl
weight_lem (suc (suc zero)) h = refl
weight_lem (suc (suc (suc zero))) h = refl
weight_lem (suc (suc (suc (suc zero)))) h = refl
weight_lem (suc (suc (suc (suc (suc zero))))) h = refl
weight_lem (suc (suc (suc (suc (suc (suc zero)))))) h = refl
weight_lem (suc (suc (suc (suc (suc (suc (suc zero))))))) h = refl
weight_lem (suc (suc (suc (suc (suc (suc (suc (suc i)))))))) h = absurd (omega arith)

pub plane_bit-enabled_bit :
    (bm : BitMap) (bits : ℕ → ℕ) (mask x y p : ℕ)
    → plane_bit bm bits mask x y p ≡ enabled_bit bm bits mask x y p
unfolding plane_bit
plane_bit-enabled_bit bm bits mask x y p = rw (weight_lem (x % 8) (omega arith)) (ground arith)
