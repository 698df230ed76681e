-- ===== src/Virtqueue/Published.antt =====
-- What the device finds after VirtQueue_AddBuf (src/virtio/virtqueue.c).
use virt_iogpu.Prelude.{
  ℕ, zero, suc, ◌+◌, ◌%◌, ◌^◌, ◌≤◌, ◌<◌, ◌≡◌, refl, ap, false, List, ◌∷◌, ◌++◌, arith, le→not_ltb,
  update_self, length, count-head, subst, ◌∙◌,
}
use native.Mathlib.Nat.{mod-eq_of_lt}
use virt_iogpu.Word.{vr16, vr16-vr16}
use virt_iogpu.Virtqueue.State.{Sg, Virtqueue}
use virt_iogpu.Virtqueue.AddBuf.{OsAnswer, queued, publish, add_direct, add_fallback, add_buf}
use virt_iogpu.Virtqueue.Invariant.{Req, Inv}
use virt_iogpu.Virtqueue.DeviceView.{device_chain, requested, encoded, encoded-eq-requested}
use virt_iogpu.Virtqueue.Add.{made, index-lt}
use virt_iogpu.Virtqueue.Outcome.{Split, split}

-- The newest entry of the avail ring, and the ring's index, as the device reads them.
abbrev pub newest : Virtqueue → Virtqueue → ℕ
newest vq vq' = vr16 vq.modern (vq'.avail_ring (vr16 vq.modern vq.avail_idx % vq.num))

module _ (sg : ℕ → Sg) (out_num cookie : ℕ) (vq : Virtqueue) (head : ℕ) (rest left : List ℕ)
    (reqs : List Req) (more : ℕ) (v : Inv vq (head ∷ rest ++ left) reqs) where
  add_direct-view :
      device_chain
        (suc (length rest + more))
        vq.modern
        (add_direct sg out_num (suc (length rest)) cookie vq).desc
        (newest vq (add_direct sg out_num (suc (length rest)) cookie vq))
      ≡ encoded vq.modern sg out_num (suc (length rest)) 0
  unfolding add_direct publish
  add_direct-view =
      let m = made sg out_num (suc (length rest)) cookie vq head rest left reqs v refl in
      let small : head < 2 ^ 16 =
        omega
          (arith, v.num_small, index-lt v head (omega (arith, count-head head (rest ++ left)))) in
      ap
        (λ h.
          device_chain (suc (length rest + more)) vq.modern
            (add_direct sg out_num (suc (length rest)) cookie vq).desc h)
        (rw
          (
            update_self vq.avail_ring (vr16 vq.modern vq.avail_idx % vq.num)
                (vr16 vq.modern vq.free_head),
            v.linked.0,
          )
          (vr16-vr16 vq.modern head small))
      ∙ m.view more

add_direct-view_split :
    (sg : ℕ → Sg) (out_num cookie n more : ℕ) (vq : Virtqueue) (free : List ℕ) (reqs : List Req)
    → Inv vq free reqs
    → Split n free
    → device_chain
        (suc (n + more))
        vq.modern
        (add_direct sg out_num (suc n) cookie vq).desc
        (newest vq (add_direct sg out_num (suc n) cookie vq))
      ≡ encoded vq.modern sg out_num (suc n) 0
add_direct-view_split sg out_num cookie n more vq free reqs v s = rw (← s.size) (
    add_direct-view sg out_num cookie vq s.head s.rest s.left reqs more
      (subst (λ l. Inv vq l reqs) s.whole v))

add_direct-view_total :
    (sg : ℕ → Sg) (out_num cookie total more : ℕ) (vq : Virtqueue) (free : List ℕ) (reqs : List Req)
    → Inv vq free reqs
    → 0 < total
    → total ≤ length free
    → device_chain
        (total + more)
        vq.modern
        (add_direct sg out_num total cookie vq).desc
        (newest vq (add_direct sg out_num total cookie vq))
      ≡ encoded vq.modern sg out_num total 0
add_direct-view_total sg out_num cookie zero more vq free reqs v pos enough = absurd (omega arith)
add_direct-view_total sg out_num cookie (suc n) more vq free reqs v pos enough =
    let longer : suc n + more ≡ suc (n + more) = omega arith in
    rw longer
      (add_direct-view_split sg out_num cookie n more vq free reqs v (split n free (omega arith)))

add_direct-idx :
    (sg : ℕ → Sg) (out_num total cookie : ℕ) (vq : Virtqueue)
    → vr16 vq.modern (add_direct sg out_num total cookie vq).avail_idx
      ≡ (vr16 vq.modern vq.avail_idx + 1) % 2 ^ 16
unfolding add_direct publish
add_direct-idx sg out_num total cookie vq =
    vr16-vr16 vq.modern ((vr16 vq.modern vq.avail_idx + 1) % 2 ^ 16) (omega arith)

add_buf-direct :
    (os : OsAnswer) (sg : ℕ → Sg) (out_num in_num cookie : ℕ) (vq : Virtqueue)
    → vq.use_indirect ≡ false
    → out_num + in_num < 2 ^ 32
    → out_num + in_num ≤ vq.num_free
    → add_buf os sg out_num in_num cookie vq
      ≡ (queued, add_direct sg out_num (out_num + in_num) cookie vq)
unfolding add_buf add_fallback
add_buf-direct os sg out_num in_num cookie vq direct small enough =
    rw (mod-eq_of_lt small, direct, le→not_ltb vq.num_free (out_num + in_num) enough)

-- On the direct path AddBuf publishes the request and nothing else: the entry at the old ring index
-- names a chain that the device reads as the scatter-gather list, its first `out_num` entries to
-- read and the others to write; the chain ends there, so that a device that is ready to follow any
-- number of descriptors more (`more`) reads no other; and the ring index advances by one.
-- Conditions: descriptors are owned as Inv says, no indirect table is used, there are enough free
-- descriptors and at least one entry, and addresses and lengths are uint32.
pub add_buf-view :
    (os : OsAnswer) (sg : ℕ → Sg) (out_num in_num cookie more : ℕ) {vq : Virtqueue} {free : List ℕ}
    {reqs : List Req}
    → Inv vq free reqs
    → vq.use_indirect ≡ false
    → 0 < out_num + in_num
    → out_num + in_num ≤ vq.num_free
    → ((i : ℕ) → ((sg i).addr < 2 ^ 32) × ((sg i).len < 2 ^ 32))
    → let (res, vq') = add_buf os sg out_num in_num cookie vq in
      (res ≡ queued)
      × (device_chain (out_num + in_num + more) vq.modern vq'.desc (newest vq vq')
          ≡ requested sg out_num (out_num + in_num) 0)
      × (vr16 vq.modern vq'.avail_idx ≡ (vr16 vq.modern vq.avail_idx + 1) % 2 ^ 16)
add_buf-view os sg out_num in_num cookie more {vq} {free} {reqs} v direct pos enough small =
    let total = out_num + in_num in
    rw
      (add_buf-direct os sg out_num in_num cookie vq direct
        (omega (arith, v.counted, v.total, v.num_small)) enough)
      (
        refl,
        add_direct-view_total sg out_num cookie total more vq free reqs v pos
              (omega (arith, v.counted))
            ∙ encoded-eq-requested vq.modern sg out_num total 0 small,
        add_direct-idx sg out_num total cookie vq,
      )
