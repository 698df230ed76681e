-- ===== src/Virtqueue/Tests.antt =====
-- Runs of src/virtio/virtqueue.c on small queues.
use virt_iogpu.Prelude.{ℕ, ◌+◌, ◌%◌, ◌^◌, ◌≡◌, refl, true, false, [], ◌∷◌, arith, ◌≤◌, ◌<◌}
use virt_iogpu.Word.{vr16, vr32}
use virt_iogpu.Virtqueue.State.{Sg}
use virt_iogpu.Virtqueue.AddBuf.{OsAnswer, queued, add_buf}
use virt_iogpu.Virtqueue.GetBuf.{get_buf}
use virt_iogpu.Virtqueue.Allocate.{layout, fresh_queue, allocate}
use virt_iogpu.Virtqueue.Invariant.{Inv}
use virt_iogpu.Virtqueue.Outcome.{Tables, Outcome, add_buf-Outcome}
use virt_iogpu.Virtqueue.DeviceView.{device_chain, requested}
use virt_iogpu.Virtqueue.Published.{newest, add_buf-view}
use virt_iogpu.Virtqueue.Get.{GotBack, get_buf-GotBack}
use virt_iogpu.Virtqueue.Fresh.{
  upto, layout_regions, fresh_queue-Inv, obtained, Leakless, allocate-Leakless,
}
use virt_iogpu.Virtqueue.Sample.{busy, request, busy-Inv, busy-Tables}

abbrev sg : ℕ → Sg
sg i = record { addr = 4096 + i % 8; len = 64 }

abbrev os : OsAnswer
os = record { itbl = 8192; itbl_entries = 1; itbl_dma = 1; itbl_phys = 8192 }

add_buf-Outcome_example : Outcome (upto 0 4) [] 3 77 (add_buf os sg 2 1 77 (fresh_queue 4))
unfolding fresh_queue
add_buf-Outcome_example =
    add_buf-Outcome os sg 2 1 77 (fresh_queue-Inv 4 (omega arith) (omega arith)).0
      (fresh_queue-Inv 4 (omega arith) (omega arith)).1 refl (omega arith) (omega arith)

get_buf-GotBack_example : GotBack true busy (2 ∷ 3 ∷ []) [] request [] (get_buf true busy)
unfolding vr16 vr32
get_buf-GotBack_example =
    get_buf-GotBack true busy (2 ∷ 3 ∷ []) [] request [] busy-Inv busy-Tables (omega arith) refl

add_buf-view_example :
    let (res, vq') = add_buf os sg 2 1 77 (fresh_queue 4) in
    (res ≡ queued)
    × (device_chain 7 false vq'.desc (newest (fresh_queue 4) vq') ≡ requested sg 2 3 0)
    × (vr16 false vq'.avail_idx ≡ (vr16 false 0 + 1) % 2 ^ 16)
unfolding fresh_queue
add_buf-view_example =
    add_buf-view os sg 2 1 77 4 (fresh_queue-Inv 4 (omega arith) (omega arith)).0 refl (omega arith)
      (omega arith) (λ i. (omega arith, omega arith))

layout_regions_example :
    let l = layout 256 in
    (l.desc_size ≡ 4096)
    × (518 ≤ l.avail_size)
    × (l.desc_size + l.avail_size ≤ l.used_offset)
    × (l.used_offset < l.desc_size + l.avail_size + 4096)
    × (l.used_offset % 4096 ≡ 0)
    × (2052 ≤ l.used_size)
    × (l.used_offset + l.used_size ≡ l.total_mem)
layout_regions_example = layout_regions 256 (omega arith)

fresh_queue-Inv_example : Inv (fresh_queue 4) (upto 0 4) [] × Tables (fresh_queue 4) []
fresh_queue-Inv_example = fresh_queue-Inv 4 (omega arith) (omega arith)

-- The cookies' block is refused.
allocate-Leakless_example : Leakless (obtained 4096 64 0 0) (allocate 1 256 4096 64 0 0)
allocate-Leakless_example = allocate-Leakless 1 256 4096 64 0 0
