-- ===== src/Gpu/Wire.antt =====
-- The structures of include/gpu/virtio_gpu_proto.h as words of the command buffer. A message is the
-- list of its 32-bit words as they stand in memory. chip_zero has cleared the buffer, so a field
-- that the source does not assign is 0, which GP32 leaves alone.
use virt_iogpu.Prelude.{
  ℕ, zero, suc, ◌+◌, ◌-◌, ◌/◌, ◌%◌, ◌^◌, ◌≡◌, refl, List, [], ◌∷◌, ◌++◌, map, ltb, if◌then◌else◌,
}
use virt_iogpu.Word.{bswap32, bswap64, bswap64_halves}

-- GP32 of every word.
abbrev pub gp32 : List ℕ → List ℕ
gp32 = map bswap32

-- GP64: two words, the higher half of the big-endian number first.
unfoldable pub gp64 : ℕ → List ℕ
gp64 v = bswap64 v / 2 ^ 32 % 2 ^ 32 ∷ bswap64 v % 2 ^ 32 ∷ []

pub gp64_lem : (v : ℕ) → gp64 v ≡ gp32 (v % 2 ^ 32 ∷ v / 2 ^ 32 % 2 ^ 32 ∷ [])
unfolding gp64
gp64_lem v = rw ((bswap64_halves v).0, (bswap64_halves v).1) refl

-- `struct virtio_gpu_ctrl_hdr`: type, flags, fence_id, ctx_id, ring_idx and padding.
abbrev pub ctrl_hdr : ℕ → ℕ → List ℕ
ctrl_hdr type_id ctx_id = type_id ∷ 0 ∷ 0 ∷ 0 ∷ ctx_id ∷ 0 ∷ []

-- `struct virtio_gpu_rect`
pub record Rect : Type 0 where
  pub x : ℕ
  pub y : ℕ
  pub width : ℕ
  pub height : ℕ

abbrev pub rect_words : Rect → List ℕ
rect_words r = r.x ∷ r.y ∷ r.width ∷ r.height ∷ []

-- `struct virtio_gpu_box`
pub record Box : Type 0 where
  pub x : ℕ
  pub y : ℕ
  pub z : ℕ
  pub w : ℕ
  pub h : ℕ
  pub d : ℕ

abbrev pub box_words : Box → List ℕ
box_words b = b.x ∷ b.y ∷ b.z ∷ b.w ∷ b.h ∷ b.d ∷ []

-- `struct DMAEntry`, and `struct virtio_gpu_mem_entry` as a host reads it.
pub record MemEntry : Type 0 where
  pub addr : ℕ
  pub length : ℕ

-- The loop that writes `rounds` entries from entry `i` on.
unfoldable pub mem_entries : ℕ → ℕ → (ℕ → MemEntry) → List ℕ
mem_entries zero i dma_list = []
mem_entries (suc rounds) i dma_list =
    gp64 ((dma_list i).addr % 2 ^ 32)
    ++ gp32 ((dma_list i).length ∷ 0 ∷ [])
    ++ mem_entries rounds (i + 1) dma_list

-- How many entries fit the command buffer of 4096 bytes behind a structure of `size` bytes.
unfoldable pub clamp_entries : ℕ → ℕ → ℕ
clamp_entries size dma_count =
    let max_entries = (4096 - size) / 16 in
    if ltb max_entries dma_count then max_entries else dma_count
