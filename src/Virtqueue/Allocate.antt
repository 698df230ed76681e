-- ===== src/Virtqueue/Allocate.antt =====
-- VirtQueue_Allocate and VirtQueue_Free (src/virtio/virtqueue.c): the memory layout of the rings,
-- the first free list, and what is given back where an allocation fails.
use virt_iogpu.Prelude.{
  ℕ, zero, suc, ◌+◌, ◌-◌, ◌*◌, ◌/◌, ◌%◌, ◌^◌, Bool, false, List, [], ◌∷◌, ◌++◌, none, ltb, ◌==◌,
  if◌then◌else◌, update,
}
use virt_iogpu.Virtqueue.State.{Desc, Virtqueue}

-- VIRTIO_PCI_VRING_ALIGN
abbrev pub vring_align : ℕ
vring_align = 4096

-- Offsets and sizes in the ring memory, as uint32.
pub record Layout : Type 0 where
  pub desc_size : ℕ
  pub avail_size : ℕ
  pub used_offset : ℕ
  pub used_size : ℕ
  pub total_mem : ℕ

unfoldable pub layout : ℕ → Layout
layout queue_size =
    let desc_size = 16 * queue_size % 2 ^ 32 in
    let avail_size = 2 * (3 + queue_size) % 2 ^ 32 in
    let avail_end = (desc_size + avail_size) % 2 ^ 32 in
    let used_offset = (avail_end + vring_align - 1) % 2 ^ 32 / vring_align * vring_align in
    let used_size = (2 * 3 + 8 * queue_size) % 2 ^ 32 in
    record {
      desc_size = desc_size;
      avail_size = avail_size;
      used_offset = used_offset;
      used_size = used_size;
      total_mem = (used_offset + used_size) % 2 ^ 32;
    }

-- `for (j = 0; j < queue_size - 1; j++) desc[j].next = j + 1`, with the rounds left.
unfoldable pub link_free : ℕ → ℕ → (ℕ → Desc) → ℕ → Desc
link_free zero j desc = desc
link_free (suc rounds) j desc =
    link_free rounds (j + 1) (update desc j (record (desc j) { next = (j + 1) % 2 ^ 16 }))

abbrev pub zero_desc : Desc
zero_desc = record { addr = 0; len = 0; flags = 0; next = 0 }

unfoldable pub free_list : ℕ → ℕ → Desc
free_list queue_size =
    let last = (queue_size + 2 ^ 32 - 1) % 2 ^ 32 in
    let desc = link_free last 0 (λ i. zero_desc) in
    update desc last (record (desc last) { next = 0 })

-- The queue in cleared memory.
unfoldable pub fresh_queue : ℕ → Virtqueue
fresh_queue queue_size = record {
  num = queue_size;
  desc = free_list queue_size;
  avail_flags = 0;
  avail_idx = 0;
  avail_ring = λ i. 0;
  used_idx = 0;
  used_ring = λ i. record { id = 0; len = 0 };
  free_head = 0;
  num_free = queue_size % 2 ^ 16;
  last_used_idx = 0;
  cookies = λ i. 0;
  indirect_tables = λ i. 0;
  modern = false;
  use_event_idx = false;
  use_indirect = false;
  heap = λ p. none;
}

-- The allocations behind a queue: rings, struct, cookies, tables, and the live DMA mapping.
pub record Allocation : Type 0 where
  pub queue : Virtqueue
  pub index : ℕ
  pub self : ℕ
  pub mem_block : ℕ
  pub mem_size : ℕ
  pub cookies_mem : ℕ
  pub tables_mem : ℕ
  pub dma_entries : ℕ

-- The queue, or what FreeVec was called on before NULL was returned.
pub data AllocResult : Type 0 where
  made : Allocation → AllocResult
  failed : List ℕ → AllocResult

-- The four answers of AllocVecTags are its addresses, 0 for NULL.
unfoldable pub allocate : ℕ → ℕ → ℕ → ℕ → ℕ → ℕ → AllocResult
allocate queue_index queue_size raw self cookies tables =
    if raw == 0
    then failed []
    else if self == 0
    then failed (raw ∷ [])
    else if cookies == 0
    then failed (raw ∷ self ∷ [])
    else if tables == 0
    then failed (cookies ∷ raw ∷ self ∷ [])
    else made (record {
      queue = fresh_queue queue_size;
      index = queue_index;
      self = self;
      mem_block = raw;
      mem_size = (layout queue_size).total_mem;
      cookies_mem = cookies;
      tables_mem = tables;
      dma_entries = 0;
    })

abbrev free_vec : ℕ → List ℕ
free_vec p = if p == 0 then [] else p ∷ []

-- VirtQueue_Free of a queue that is there: the addresses that FreeVec is called on, in order, and
-- whether EndDMA is called on the rings.
unfoldable pub free : Allocation → List ℕ × Bool
free a = (
  free_vec a.tables_mem ++ free_vec a.cookies_mem ++ free_vec a.mem_block ++ (a.self ∷ []),
  ltb 0 a.dma_entries,
)
