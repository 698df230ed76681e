-- ===== src/Virtqueue/Get.antt =====
-- VirtQueue_GetBuf gives a finished request's descriptors and table back, and only those.
use virt_iogpu.Prelude.{
  ℕ, ◌+◌, ◌%◌, ◌^◌, ◌≡◌, refl, ◌≢◌, Bool, List, ◌∷◌, ◌++◌, arith, if◌then◌else◌, Option, some, none,
  lt→not_leb, ==-ne, reverse_onto,
}
use virt_iogpu.Word.{vr16, vr32}
use virt_iogpu.Virtqueue.State.{Virtqueue}
use virt_iogpu.Virtqueue.GetBuf.{Got, take_used, get_buf}
use virt_iogpu.Virtqueue.Invariant.{Req, descs, Inv}
use virt_iogpu.Virtqueue.GiveBack.{own, head-lt, give_back-Returned}
use virt_iogpu.Virtqueue.Outcome.{Tables}

-- What GetBuf returns for the request `r`, and the queue that it leaves.
pub record GotBack (wants_len : Bool) (vq : Virtqueue) (free : List ℕ) (pre : List Req) (r : Req)
    (post : List Req) (o : Option Got) : Type 0 where
  pub got : Got
  pub ended : o ≡ some got
  pub cookie : got.cookie ≡ r.cookie
  pub len_out : got.len_out ≡ (
      if wants_len
      then some (vr32 vq.modern (vq.used_ring (vq.last_used_idx % vq.num)).len)
      else none)
  pub inv : Inv got.queue (reverse_onto (descs r) free) (pre ++ post)
  pub tables : Tables got.queue (pre ++ post)
  pub last : got.queue.last_used_idx ≡ (vq.last_used_idx + 1) % 2 ^ 16

module _ (wants_len : Bool) (vq : Virtqueue) (free : List ℕ) (pre : List Req) (r : Req)
    (post : List Req) (v : Inv vq free (pre ++ r ∷ post)) (t : Tables vq (pre ++ r ∷ post)) where
  take_used-GotBack : GotBack wants_len vq free pre r post (
      take_used wants_len r.head (vr32 vq.modern (vq.used_ring (vq.last_used_idx % vq.num)).len) vq)
  unfolding take_used
  take_used-GotBack =
      let h = own vq free pre r post v in
      let lt = head-lt vq free pre r post v t in
      let b = give_back-Returned vq free pre r post v t in
      let narrow : r.head % 2 ^ 16 ≡ r.head = omega (arith, lt, v.num_small) in
      rw (lt→not_leb vq.num r.head lt, narrow, h.table_kept, b.ended)
        (record {
          got = _;
          ended = refl;
          cookie = h.cookie_kept;
          len_out = refl;
          inv = b.inv;
          tables = b.tables;
          last = b.last;
        })

  -- GetBuf terminates. Where the used ring's next entry names the request `r`, it returns the
  -- cookie that AddBuf was given for `r` and the length that the device wrote, puts all of the
  -- request's descriptors back on the free list, frees its indirect table, and leaves every other
  -- request, free descriptor and table owned as before.
  -- Conditions: descriptors and tables are owned as Inv and Tables say, the used ring is not empty,
  -- and its next entry is the head of `r`.
  pub get_buf-GotBack :
      (vq.last_used_idx ≢ vr16 vq.modern vq.used_idx)
      → vr32 vq.modern (vq.used_ring (vq.last_used_idx % vq.num)).id ≡ r.head
      → GotBack wants_len vq free pre r post (get_buf wants_len vq)
  unfolding get_buf
  get_buf-GotBack ne e =
      rw (==-ne vq.last_used_idx (vr16 vq.modern vq.used_idx) ne, e) take_used-GotBack
