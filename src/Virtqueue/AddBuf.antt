-- ===== src/Virtqueue/AddBuf.antt =====
-- VirtQueue_AddBuf (src/virtio/virtqueue.c): a request becomes a descriptor chain, or one
-- descriptor with an indirect table, and its head goes into the avail ring.
use virt_iogpu.Prelude.{
  ℕ, zero, suc, ◌+◌, ◌-◌, ◌*◌, ◌%◌, ◌^◌, bit_or, Bool, true, false, ◌&&◌, List, [], ◌∷◌, some, none,
  ltb, leb, ◌==◌, if◌then◌else◌, update,
}
use virt_iogpu.Word.{vr16, vr32, vr64}
use virt_iogpu.Virtqueue.State.{Desc, Sg, Virtqueue, desc_f_next, desc_f_write, desc_f_indirect}

-- What the operating system answers in one call: the address of the indirect table
-- (AllocVecTags), the entries of its DMA list (StartDMA), the list object (AllocSysObjectTags) and
-- the physical address in it (GetDMAList). 0 means that the call failed.
pub record OsAnswer : Type 0 where
  pub itbl : ℕ
  pub itbl_entries : ℕ
  pub itbl_dma : ℕ
  pub itbl_phys : ℕ

-- The int32 that AddBuf returns: 0 or -1.
pub data AddResult : Type 0 where
  queued queue_full : AddResult

-- The flags of entry `n` of a chain of `total`.
unfoldable pub direct_flags : ℕ → ℕ → ℕ → ℕ
direct_flags out_num total n =
    bit_or (if leb out_num n then desc_f_write else 0)
      (if ltb n (total - 1) then desc_f_next else 0)

-- The table's entries from `n` on, `rounds` of them.
unfoldable pub indirect_entries : Bool → (ℕ → Sg) → ℕ → ℕ → ℕ → List Desc
indirect_entries modern sg out_num zero n = []
indirect_entries modern sg out_num (suc rounds) n =
    record {
      addr = vr64 modern (sg n).addr;
      len = vr32 modern (sg n).len;
      flags = vr16 modern (if leb out_num n then desc_f_write else 0);
      next = 0;
    }
    ∷ indirect_entries modern sg out_num rounds (n + 1)

-- What entry `n` of a chain writes into its descriptor; the last one keeps `next`.
unfoldable pub direct_desc : Bool → (ℕ → Sg) → ℕ → ℕ → ℕ → ℕ → Desc
direct_desc modern sg out_num total n next_idx = record {
  addr = vr64 modern (sg n).addr;
  len = vr32 modern (sg n).len;
  flags = vr16 modern (direct_flags out_num total n);
  next = if ltb n (total - 1) then vr16 modern next_idx else next_idx;
}

-- The loop of the direct path, with `rounds` entries left: the descriptors and the free head.
unfoldable pub link_chain : Bool → (ℕ → Sg) → ℕ → ℕ → ℕ → ℕ → ℕ → (ℕ → Desc) → ℕ → (ℕ → Desc) × ℕ
link_chain modern sg out_num total zero n idx desc free_head = (desc, free_head)
link_chain modern sg out_num total (suc rounds) n idx desc free_head =
    let next_idx = (desc idx).next in
    link_chain modern sg out_num total rounds (n + 1) (if ltb n (total - 1) then next_idx else idx)
      (update desc idx (direct_desc modern sg out_num total n next_idx))
      (if ltb n (total - 1) then free_head else next_idx)

-- The head's entry in the avail ring, then the new ring index.
unfoldable pub publish : ℕ → Virtqueue → Virtqueue
publish head vq =
    let idx = vr16 vq.modern vq.avail_idx in
    record vq {
      avail_ring = update vq.avail_ring (idx % vq.num) (vr16 vq.modern head);
      avail_idx = vr16 vq.modern ((idx + 1) % 2 ^ 16);
    }

unfoldable pub add_direct : (ℕ → Sg) → ℕ → ℕ → ℕ → Virtqueue → Virtqueue
add_direct sg out_num total cookie vq =
    let head = vq.free_head in
    let (desc, free_head) =
      link_chain vq.modern sg out_num total total 0 head vq.desc vq.free_head in
    publish head (record vq {
      desc = desc;
      free_head = free_head;
      num_free = (vq.num_free + 2 ^ 16 - total % 2 ^ 16) % 2 ^ 16;
      cookies = update vq.cookies head cookie;
      indirect_tables = update vq.indirect_tables head 0;
    })

-- The direct path where the indirect one was not taken to its end.
unfoldable pub add_fallback : (ℕ → Sg) → ℕ → ℕ → ℕ → Virtqueue → AddResult × Virtqueue
add_fallback sg out_num total cookie vq =
    if ltb vq.num_free total
    then (queue_full, vq)
    else (queued, add_direct sg out_num total cookie vq)

-- The head descriptor of an indirect request, once its table is mapped.
unfoldable pub add_table : OsAnswer → ℕ → ℕ → Virtqueue → Virtqueue
add_table os total cookie vq =
    let head = vq.free_head in
    publish head (record vq {
      desc = update vq.desc head (record {
        addr = vr64 vq.modern os.itbl_phys;
        len = vr32 vq.modern (16 * total % 2 ^ 32);
        flags = vr16 vq.modern desc_f_indirect;
        next = 0;
      });
      free_head = (vq.desc head).next;
      num_free = (vq.num_free + 2 ^ 16 - 1) % 2 ^ 16;
      cookies = update vq.cookies head cookie;
      indirect_tables = update vq.indirect_tables head os.itbl;
    })

-- EndDMA and FreeVec of the table at `p`.
unfoldable pub unmap_table : ℕ → Virtqueue → Virtqueue
unmap_table p vq = record vq {
  heap =
      update vq.heap p
        (elim (vq.heap p) [ none ↦ none | some t ↦ some (record t { mapped = false }) ]);
}

unfoldable pub free_table : ℕ → Virtqueue → Virtqueue
free_table p vq = record vq { heap = update vq.heap p none }

-- The indirect table at `p`, filled from the scatter-gather list.
unfoldable pub with_table : ℕ → (ℕ → Sg) → ℕ → ℕ → Bool → Virtqueue → Virtqueue
with_table p sg out_num total mapped vq = record vq {
  heap =
      update vq.heap p (
        some (record { entries = indirect_entries vq.modern sg out_num total 0; mapped = mapped }));
}

unfoldable pub add_indirect : OsAnswer → (ℕ → Sg) → ℕ → ℕ → ℕ → Virtqueue → AddResult × Virtqueue
add_indirect os sg out_num total cookie vq =
    if os.itbl == 0
    then add_fallback sg out_num total cookie vq
    else if ltb 0 os.itbl_entries
    then if os.itbl_dma == 0
      then add_fallback sg out_num total cookie
          (free_table os.itbl (unmap_table os.itbl (with_table os.itbl sg out_num total true vq)))
      else (queued, add_table os total cookie (with_table os.itbl sg out_num total true vq))
    else add_fallback sg out_num total cookie
        (free_table os.itbl (with_table os.itbl sg out_num total false vq))

unfoldable pub add_buf : OsAnswer → (ℕ → Sg) → ℕ → ℕ → ℕ → Virtqueue → AddResult × Virtqueue
add_buf os sg out_num in_num cookie vq =
    let total = (out_num + in_num) % 2 ^ 32 in
    if vq.use_indirect && ltb 1 total
    then if ltb vq.num_free 1 then (queue_full, vq) else add_indirect os sg out_num total cookie vq
    else add_fallback sg out_num total cookie vq
