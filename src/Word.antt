-- ===== src/Word.antt =====
-- Byte swaps of machine words (include/virtio/virtqueue.h: vr16, vr32, vr64).
pub mod Streams
use virt_iogpu.Prelude.{
  ℕ, ◌+◌, ◌*◌, ◌/◌, ◌%◌, ◌^◌, ◌<◌, ◌≡◌, Bool, true, false, refl, ◌∙◌, arith, if◌then◌else◌,
}

-- `__builtin_bswap16` and its wider forms: the bytes in the opposite order.
unfoldable pub bswap16 : ℕ → ℕ
bswap16 v = v % 2 ^ 8 * 2 ^ 8 + v / 2 ^ 8 % 2 ^ 8

unfoldable pub bswap32 : ℕ → ℕ
unfolding bswap16
bswap32 v = bswap16 (v % 2 ^ 16) * 2 ^ 16 + bswap16 (v / 2 ^ 16 % 2 ^ 16)

unfoldable pub bswap64 : ℕ → ℕ
bswap64 v = bswap32 (v % 2 ^ 32) * 2 ^ 32 + bswap32 (v / 2 ^ 32 % 2 ^ 32)

-- A vring field as it stands in memory: little-endian for a modern device, native for a legacy one.
unfoldable pub vr16 : Bool → ℕ → ℕ
vr16 modern v = if modern then bswap16 v else v

unfoldable pub vr32 : Bool → ℕ → ℕ
vr32 modern v = if modern then bswap32 v else v

unfoldable pub vr64 : Bool → ℕ → ℕ
vr64 modern v = if modern then bswap64 v else v

pub bswap16-bswap16 : (v : ℕ) → v < 2 ^ 16 → bswap16 (bswap16 v) ≡ v
unfolding bswap16
bswap16-bswap16 v h = omega arith

pub bswap16-lt : (v : ℕ) → bswap16 v < 2 ^ 16
unfolding bswap16
bswap16-lt v = omega arith

pub bswap32-lt : (v : ℕ) → bswap32 v < 2 ^ 32
unfolding bswap32
bswap32-lt v = omega arith

pub bswap32-bswap32 : (v : ℕ) → v < 2 ^ 32 → bswap32 (bswap32 v) ≡ v
unfolding bswap32
bswap32-bswap32 v h = omega arith

pub vr16-vr16 : (modern : Bool) (v : ℕ) → v < 2 ^ 16 → vr16 modern (vr16 modern v) ≡ v
unfolding vr16
vr16-vr16 true v h = bswap16-bswap16 v h
vr16-vr16 false v h = refl

pub vr32-vr32 : (modern : Bool) (v : ℕ) → v < 2 ^ 32 → vr32 modern (vr32 modern v) ≡ v
unfolding vr32
vr32-vr32 true v h = bswap32-bswap32 v h
vr32-vr32 false v h = refl

-- The halves of a swapped word are the swapped halves, crossed.
pub bswap64_halves :
    (v : ℕ)
    → (bswap64 v % 2 ^ 32 ≡ bswap32 (v / 2 ^ 32 % 2 ^ 32))
      × (bswap64 v / 2 ^ 32 % 2 ^ 32 ≡ bswap32 (v % 2 ^ 32))
unfolding bswap64
bswap64_halves v = omega (arith, bswap32-lt (v % 2 ^ 32), bswap32-lt (v / 2 ^ 32 % 2 ^ 32))

bswap64_lem : (w : ℕ) → bswap64 w ≡ bswap32 (w % 2 ^ 32) * 2 ^ 32 + bswap32 (w / 2 ^ 32 % 2 ^ 32)
unfolding bswap64
bswap64_lem w = refl

pub bswap64-bswap64 : (v : ℕ) → v < 2 ^ 64 → bswap64 (bswap64 v) ≡ v
bswap64-bswap64 v h =
    bswap64_lem (bswap64 v)
    ∙ rw
        (
          (bswap64_halves v).0,
          (bswap64_halves v).1,
          bswap32-bswap32 (v % 2 ^ 32) (omega arith),
          bswap32-bswap32 (v / 2 ^ 32 % 2 ^ 32) (omega arith),
        )
        (omega arith)

pub vr64-vr64 : (modern : Bool) (v : ℕ) → v < 2 ^ 64 → vr64 modern (vr64 modern v) ≡ v
unfolding vr64
vr64-vr64 true v h = bswap64-bswap64 v h
vr64-vr64 false v h = refl

pub vr16-lt : (modern : Bool) (v : ℕ) → v < 2 ^ 16 → vr16 modern v < 2 ^ 16
unfolding vr16
vr16-lt true v h = bswap16-lt v
vr16-lt false v h = h
