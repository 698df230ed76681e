-- ===== src/Blit/Memory.antt =====
-- The row helpers of src/chip/chip_blit.c. The memory is a function of the address, and a long is
-- its four bytes.
use virt_iogpu.Prelude.{
  ℕ, zero, suc, ◌+◌, ◌-◌, ◌*◌, ◌/◌, ◌%◌, Bool, ◌&&◌, ltb, leb, ◌==◌, if◌then◌else◌,
}

abbrev pub Mem : Type 0
Mem = ℕ → ℕ

-- What is stored: by the offset of the byte, the source's byte and the byte that was there.
abbrev pub Op : Type 0
Op = ℕ → ℕ → ℕ → ℕ

abbrev pub source : Op
source k s d = s

abbrev pub in_row : ℕ → ℕ → ℕ → Bool
in_row len d a = leb d a && ltb a (d + len)

-- `len` bytes at once: all are read before the first is stored.
abbrev pub combine : Op → ℕ → ℕ → ℕ → Mem → Mem
combine op len s d mem a = if in_row len d a then op (a - d) (mem (s + (a - d))) (mem a) else mem a

-- `for (i = 0; i < n; i++)` over units of `u` bytes.
unfoldable pub forward : Op → ℕ → ℕ → ℕ → ℕ → Mem → Mem
forward op u zero s d mem = mem
forward op u (suc n) s d mem = forward op u n (s + u) (d + u) (combine op u s d mem)

-- `for (i = n; i > 0; i--)` over units of `u` bytes.
unfoldable pub backward : Op → ℕ → ℕ → ℕ → ℕ → Mem → Mem
backward op u zero s d mem = mem
backward op u (suc n) s d mem = backward op u n s d (combine op u (s + n * u) (d + n * u) mem)

unfoldable pub lmemmove : ℕ → ℕ → ℕ → Bool → Mem → Mem
lmemmove src dst longs is_forward mem =
    if is_forward then forward source 4 longs src dst mem else backward source 4 longs src dst mem

-- The low two bits of all three are 0.
abbrev pub is_aligned : ℕ → ℕ → ℕ → Bool
is_aligned s d len = (s % 4 == 0) && ((d % 4 == 0) && (len % 4 == 0))

-- The rows of chip_BlitRect and chip_BlitRectNoMaskComplete that may overlap.
unfoldable pub move_row : ℕ → ℕ → ℕ → Mem → Mem
move_row row_bytes s d mem =
    if is_aligned s d row_bytes
    then lmemmove s d (row_bytes / 4) (ltb d s) mem
    else if ltb d s
    then forward source 1 row_bytes s d mem
    else backward source 1 row_bytes s d mem

-- CopyMem and CopyMemQuick of exec.library: source, destination and length.
pub record Exec : Type 0 where
  pub copy_mem : ℕ → ℕ → ℕ → Mem → Mem
  pub copy_mem_quick : ℕ → ℕ → ℕ → Mem → Mem

unfoldable pub row_copy : Exec → ℕ → ℕ → ℕ → Mem → Mem
row_copy exec len s d mem =
    if is_aligned s d len then exec.copy_mem_quick s d len mem else exec.copy_mem s d len mem

-- Longs as far as they go, where the addresses allow it, then bytes.
unfoldable pub mixed_row : Op → Bool → ℕ → ℕ → ℕ → Mem → Mem
mixed_row op aligned row_bytes s d mem =
    let longs = row_bytes / 4 in
    if aligned
    then forward op 1 (row_bytes - longs * 4) (s + longs * 4) (d + longs * 4)
        (forward op 4 longs s d mem)
    else forward op 1 row_bytes s d mem

-- `for (row = 0; row < h; row++)`
unfoldable pub rows : (ℕ → ℕ → Mem → Mem) → ℕ → ℕ → ℕ → ℕ → ℕ → Mem → Mem
rows line zero s s_stride d d_stride mem = mem
rows line (suc h) s s_stride d d_stride mem =
    rows line h (s + s_stride) s_stride (d + d_stride) d_stride (line s d mem)

-- `for (row = h; row > 0; row--)`
unfoldable pub rows_up : (ℕ → ℕ → Mem → Mem) → ℕ → ℕ → ℕ → ℕ → ℕ → Mem → Mem
rows_up line zero s s_stride d d_stride mem = mem
rows_up line (suc h) s s_stride d d_stride mem =
    rows_up line h s s_stride d d_stride (line (s + h * s_stride) (d + h * d_stride) mem)
