-- ===== src/Virtqueue/Freeing.antt =====
-- The loop of VirtQueue_GetBuf (src/virtio/virtqueue.c) turns a chain back into the front of the
-- free list.
use virt_iogpu.Prelude.{
  ℕ, zero, suc, ◌+◌, ◌%◌, ◌^◌, ◌≤◌, ◌<◌, ◌≡◌, refl, Bool, List, [], ◌∷◌, Option, some, arith,
  update, length, count, count-head, reverse_onto, update-ne, update_self, ◌∙◌, ne_of_count,
}
use virt_iogpu.Word.{vr16}
use virt_iogpu.Virtqueue.GetBuf.{Freed, freed_desc, free_chain}
use virt_iogpu.Virtqueue.Invariant.{Linked, Chain}
use virt_iogpu.Virtqueue.Chains.{Linked-frame, Chain-frame, update-Agree}

-- The invariant of the loop that frees a chain: what is left is `idx` and `rest`, and `free` is
-- the free list so far.
pub record FreedAll (s : Freed) (idx : ℕ) (rest free : List ℕ) (o : Option Freed) : Type 0 where
  pub out : Freed
  pub ended : o ≡ some out
  pub linked : Linked out.desc out.free_head (reverse_onto (idx ∷ rest) free)
  pub count_freed : out.freed ≡ s.freed + suc (length rest)
  pub others : (i : ℕ) → count i (idx ∷ rest) ≡ 0 → out.desc i ≡ s.desc i

abbrev freed_one : ℕ → Freed → Freed
freed_one idx s = record {
  desc = update s.desc idx (freed_desc s.free_head);
  free_head = idx;
  freed = (s.freed + 1) % 2 ^ 32;
}

free_chain-last :
    (fuel : ℕ) (modern : Bool) (idx : ℕ) (s : Freed)
    → vr16 modern (s.desc idx).flags % 2 ≡ 0
    → free_chain (suc fuel) modern idx s ≡ some (freed_one idx s)
unfolding free_chain
free_chain-last fuel modern idx s h = rw h

free_chain-more :
    (fuel : ℕ) (modern : Bool) (idx : ℕ) (s : Freed)
    → vr16 modern (s.desc idx).flags % 2 ≡ 1
    → free_chain (suc fuel) modern idx s
      ≡ free_chain fuel modern (vr16 modern (s.desc idx).next) (freed_one idx s)
unfolding free_chain
free_chain-more fuel modern idx s h = rw h

freed_one-Linked :
    (idx : ℕ) (s : Freed) (free : List ℕ)
    → count idx free ≡ 0
    → Linked s.desc s.free_head free
    → Linked (freed_one idx s).desc idx (idx ∷ free)
freed_one-Linked idx s free apart l =
    let v = freed_desc s.free_head in
    (
      refl,
      rw (update_self s.desc idx v)
          (Linked-frame s.desc _ s.free_head free (update-Agree s.desc idx v free apart) l),
    )

pub free_chain-FreedAll :
    (rest free : List ℕ) (fuel : ℕ) (modern : Bool) (idx : ℕ) (s : Freed)
    → length rest < fuel
    → Chain modern s.desc idx rest
    → Linked s.desc s.free_head free
    → ((i : ℕ) → count i (idx ∷ rest) + count i free ≤ 1)
    → s.freed + suc (length rest) < 2 ^ 32
    → FreedAll s idx rest free (free_chain fuel modern idx s)
free_chain-FreedAll rest free zero modern idx s f c l once small = absurd (omega arith)
free_chain-FreedAll [] free (suc fuel) modern idx s f c l once small = record {
  out = freed_one idx s;
  ended = free_chain-last fuel modern idx s c;
  linked = freed_one-Linked idx s free (omega (arith, once idx, count-head idx [])) l;
  count_freed = omega arith;
  others = λ i h. update-ne s.desc idx i _ (ne_of_count i idx [] h);
}
free_chain-FreedAll (y ∷ rest) free (suc fuel) modern idx s f c l once small =
    let apart : count idx (y ∷ rest) + count idx free ≡ 0 =
      omega (arith, once idx, count-head idx (y ∷ rest)) in
    let s1 = freed_one idx s in
    let ih =
      free_chain-FreedAll rest (idx ∷ free) fuel modern y s1 (omega arith)
        (Chain-frame modern s.desc s1.desc y rest
          (update-Agree s.desc idx (freed_desc s.free_head) (y ∷ rest) (omega arith)) c.2)
        (freed_one-Linked idx s free (omega arith) l) (λ i. omega (arith, once i)) (omega arith) in
    record {
      out = ih.out;
      ended = free_chain-more fuel modern idx s c.0 ∙ rw c.1 ih.ended;
      linked = ih.linked;
      count_freed = omega (arith, ih.count_freed);
      others = λ i h.
          ih.others i (omega arith) ∙ update-ne s.desc idx i _ (ne_of_count i idx (y ∷ rest) h);
    }
