-- ===== src/Virtqueue/GetBuf.antt =====
-- VirtQueue_GetBuf (src/virtio/virtqueue.c): takes the next entry of the used ring, gives its
-- descriptors back to the free list and returns the request's cookie.
use virt_iogpu.Prelude.{
  ℕ, zero, suc, ◌+◌, ◌%◌, ◌^◌, Bool, Option, some, none, leb, ◌==◌, if◌then◌else◌, update,
}
use virt_iogpu.Word.{vr16, vr32}
use virt_iogpu.Virtqueue.State.{Desc, Virtqueue}
use virt_iogpu.Virtqueue.AddBuf.{unmap_table, free_table}

-- A descriptor as it is given back: `next` links it into the free list.
abbrev pub freed_desc : ℕ → Desc
freed_desc free_head = record { addr = 0; len = 0; flags = 0; next = free_head }

-- What the loop over a direct chain leaves: the descriptors, the free head, the count.
pub record Freed : Type 0 where
  pub desc : ℕ → Desc
  pub free_head : ℕ
  pub freed : ℕ

-- `while (1)` over a chain; `none` means that the fuel ran out.
unfoldable pub free_chain : ℕ → Bool → ℕ → Freed → Option Freed
free_chain zero modern idx s = none
free_chain (suc fuel) modern idx s =
    let next = vr16 modern (s.desc idx).next in
    let has_next = vr16 modern (s.desc idx).flags % 2 in
    let s' : Freed = record {
      desc = update s.desc idx (freed_desc s.free_head);
      free_head = idx;
      freed = (s.freed + 1) % 2 ^ 32;
    } in
    let rest = free_chain fuel modern next s' in if has_next == 0 then some s' else rest

-- One round more than there are uint16 indices.
unfoldable pub free_fuel : ℕ
free_fuel = 2 ^ 16 + 1

-- What both branches do after the descriptors are back.
unfoldable pub finish : Virtqueue → Freed → Virtqueue
finish vq s =
    let last = (vq.last_used_idx + 1) % 2 ^ 16 in
    record vq {
      desc = s.desc;
      free_head = s.free_head;
      num_free = (vq.num_free + s.freed % 2 ^ 16) % 2 ^ 16;
      last_used_idx = last;
      avail_ring =
          if vq.use_event_idx
          then update vq.avail_ring vq.num (vr16 vq.modern last)
          else vq.avail_ring;
    }

-- The descriptors of the request with head `idx`, whose table is `itbl` (0 for a direct one).
unfoldable pub give_back : ℕ → ℕ → Virtqueue → Option Virtqueue
give_back itbl idx vq =
    if itbl == 0
    then elim (free_chain free_fuel vq.modern idx
        (record { desc = vq.desc; free_head = vq.free_head; freed = 0 })) [
          | none ↦ none
          | some s ↦ some (finish vq s)
        ]
    else some (
        finish (free_table itbl (unmap_table itbl vq)) (record {
          desc = update vq.desc idx (freed_desc vq.free_head);
          free_head = idx;
          freed = 1;
        }))

-- What GetBuf returns: the cookie (0 for NULL), what it stored through `len_out`, the queue.
pub record Got : Type 0 where
  pub cookie : ℕ
  pub len_out : Option ℕ
  pub queue : Virtqueue

-- The entry with `id` and `written`, taken off the used ring.
unfoldable pub take_used : Bool → ℕ → ℕ → Virtqueue → Option Got
take_used wants_len desc_id written vq =
    if leb vq.num desc_id
    then some (record {
      cookie = 0;
      len_out = none;
      queue = record vq { last_used_idx = (vq.last_used_idx + 1) % 2 ^ 16 };
    })
    else elim (give_back (vq.indirect_tables desc_id) (desc_id % 2 ^ 16) (record vq {
      cookies = update vq.cookies desc_id 0;
      indirect_tables = update vq.indirect_tables desc_id 0;
    })) [
      | none ↦ none
      | some vq' ↦ some (record {
        cookie = vq.cookies desc_id;
        len_out = if wants_len then some written else none;
        queue = vq';
      })
    ]

unfoldable pub get_buf : Bool → Virtqueue → Option Got
get_buf wants_len vq =
    if vq.last_used_idx == vr16 vq.modern vq.used_idx
    then some (record { cookie = 0; len_out = none; queue = vq })
    else take_used wants_len (vr32 vq.modern (vq.used_ring (vq.last_used_idx % vq.num)).id)
        (vr32 vq.modern (vq.used_ring (vq.last_used_idx % vq.num)).len) vq
