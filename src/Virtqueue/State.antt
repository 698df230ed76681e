-- ===== src/Virtqueue/State.antt =====
-- The data of include/virtio/virtqueue.h: descriptors, rings and `struct virtqueue`.
-- Arrays are functions of the index. Pointers are numbers, and 0 is NULL. A field that the device
-- shares holds its bytes as the CPU reads them, so `vr16` and its like stand where the source has
-- them. Indirect tables stand in `heap`, by address, with whether they are mapped for DMA.
use virt_iogpu.Prelude.{ℕ, Bool, List, Option}

-- `struct vring_desc`, and `struct vring_indirect_desc`, which has the same layout.
pub record Desc : Type 0 where
  pub addr : ℕ
  pub len : ℕ
  pub flags : ℕ
  pub next : ℕ

-- `struct vring_used_elem`
pub record UsedElem : Type 0 where
  pub id : ℕ
  pub len : ℕ

-- `struct vring_sg`
pub record Sg : Type 0 where
  pub addr : ℕ
  pub len : ℕ

-- An indirect table in memory: its entries, and whether StartDMA holds without EndDMA.
pub record Table : Type 0 where
  pub entries : List Desc
  pub mapped : Bool

-- `struct virtqueue` with the rings that it points to; `avail_ring` at `num` is `used_event`.
pub record Virtqueue : Type 0 where
  pub num : ℕ
  pub desc : ℕ → Desc
  pub avail_flags : ℕ
  pub avail_idx : ℕ
  pub avail_ring : ℕ → ℕ
  pub used_idx : ℕ
  pub used_ring : ℕ → UsedElem
  pub free_head : ℕ
  pub num_free : ℕ
  pub last_used_idx : ℕ
  pub cookies : ℕ → ℕ
  pub indirect_tables : ℕ → ℕ
  pub modern : Bool
  pub use_event_idx : Bool
  pub use_indirect : Bool
  pub heap : ℕ → Option Table

-- VRING_DESC_F_NEXT, VRING_DESC_F_WRITE, VRING_DESC_F_INDIRECT
abbrev pub desc_f_next : ℕ
desc_f_next = 1

abbrev pub desc_f_write : ℕ
desc_f_write = 2

abbrev pub desc_f_indirect : ℕ
desc_f_indirect = 4
