-- ===== src/Virtqueue/Linking.antt =====
-- The loop of VirtQueue_AddBuf (src/virtio/virtqueue.c) turns the front of the free list into a
-- chain.
use virt_iogpu.Prelude.{
  ℕ, suc, ◌+◌, ◌-◌, ◌/◌, ◌%◌, ◌==◌, leb, ◌^◌, ◌≤◌, ◌<◌, ◌≡◌, Bool, List, [], ◌∷◌, ◌++◌, arith, ltb,
  if◌then◌else◌, update, length, count, count-head, update-ne, update_self, ◌≢◌, sym, ap, ◌∙◌,
  ne_of_count, count-append, le→not_ltb, lt→ltb,
}
use virt_iogpu.Word.{vr16, vr32, vr64, vr16-vr16}
use virt_iogpu.Virtqueue.State.{Desc, Sg}
use virt_iogpu.Virtqueue.DeviceView.{
  read_seg, device_chain, device_chain-last, device_chain-more, encoded,
}
use virt_iogpu.Virtqueue.AddBuf.{link_chain, direct_desc, direct_flags}
use virt_iogpu.Virtqueue.Invariant.{Linked, Chain}
use virt_iogpu.Virtqueue.Chains.{Linked-frame, update-Agree}

-- The flags of a chain's entry, and what the device reads of them.
direct_flags_next :
    (out_num total n : ℕ)
    → (direct_flags out_num total n < 2 ^ 16)
      × (direct_flags out_num total n % 2 ≡ (if ltb n (total - 1) then 1 else 0))
      × ((direct_flags out_num total n / 2 % 2 == 1) ≡ leb out_num n)
unfolding direct_flags
direct_flags_next out_num total n = ground arith

module _ (modern : Bool) (sg : ℕ → Sg) (out_num total : ℕ) where
  read_flags :
      (n next_idx : ℕ)
      → vr16 modern (direct_desc modern sg out_num total n next_idx).flags % 2
        ≡ (if ltb n (total - 1) then 1 else 0)
  unfolding direct_desc
  read_flags n next_idx =
      let f = direct_flags_next out_num total n in
      rw (vr16-vr16 modern (direct_flags out_num total n) f.0) f.1

  read_seg_lem :
      (n next_idx : ℕ)
      → read_seg modern (direct_desc modern sg out_num total n next_idx) ≡ record {
        addr = vr64 modern (vr64 modern (sg n).addr);
        len = vr32 modern (vr32 modern (sg n).len);
        write = leb out_num n;
      }
  unfolding direct_desc
  read_seg_lem n next_idx =
      let f = direct_flags_next out_num total n in
      rw (vr16-vr16 modern (direct_flags out_num total n) f.0, f.2)

  encoded-cons :
      (n next_idx rounds : ℕ)
      → read_seg modern (direct_desc modern sg out_num total n next_idx)
          ∷ encoded modern sg out_num rounds (n + 1)
        ≡ encoded modern sg out_num (suc rounds) n
  unfolding encoded
  encoded-cons n next_idx rounds =
      ap (λ s. s ∷ encoded modern sg out_num rounds (n + 1)) (read_seg_lem n next_idx)

  read_next :
      (n next_idx : ℕ)
      → n + 1 < total
      → next_idx < 2 ^ 16
      → vr16 modern (direct_desc modern sg out_num total n next_idx).next ≡ next_idx
  unfolding direct_desc
  read_next n next_idx h small =
      rw (lt→ltb n (total - 1) (omega arith)) (vr16-vr16 modern next_idx small)

  link_chain-last :
      (n idx free_head : ℕ) (d : ℕ → Desc)
      → n + 1 ≡ total
      → link_chain modern sg out_num total 1 n idx d free_head
        ≡ (update d idx (direct_desc modern sg out_num total n (d idx).next), (d idx).next)
  unfolding link_chain
  link_chain-last n idx free_head d h = rw (le→not_ltb n (total - 1) (omega arith))

  link_chain-more :
      (rounds n idx free_head : ℕ) (d : ℕ → Desc)
      → n + 1 < total
      → link_chain modern sg out_num total (suc rounds) n idx d free_head
        ≡ link_chain modern sg out_num total rounds
            (n + 1)
            (d idx).next
            (update d idx (direct_desc modern sg out_num total n (d idx).next))
            free_head
  unfolding link_chain
  link_chain-more rounds n idx free_head d h = rw (lt→ltb n (total - 1) (omega arith))

  -- What the loop leaves when it has made a chain of `idx` and `rest`, with `left` behind them.
  pub record Made (d : ℕ → Desc) (n idx : ℕ) (rest left : List ℕ) (r : (ℕ → Desc) × ℕ)
      : Type 0 where
    pub chain : Chain modern r.0 idx rest
    pub linked : Linked r.0 r.1 left
    pub others : (i : ℕ) → count i (idx ∷ rest) ≡ 0 → r.0 i ≡ d i
    pub view :
        (more : ℕ)
        → device_chain (suc (length rest + more)) modern r.0 idx
          ≡ encoded modern sg out_num (suc (length rest)) n

  -- An entry before a chain that the loop made.
  Made-cons :
      (d : ℕ → Desc) (idx y n : ℕ) (rest left : List ℕ) (r : (ℕ → Desc) × ℕ)
      → n + 1 < total
      → y < 2 ^ 16
      → count idx (y ∷ rest) ≡ 0
      → Made (update d idx (direct_desc modern sg out_num total n y)) (n + 1) y rest left r
      → Made d n idx (y ∷ rest) left r
  Made-cons d idx y n rest left r more small apart m =
      let v = direct_desc modern sg out_num total n y in
      let here : r.0 idx ≡ v = m.others idx apart ∙ update_self d idx v in
      let flag : vr16 modern (r.0 idx).flags % 2 ≡ 1 =
        rw here
          (read_flags n y ∙ ap (λ b. if b then 1 else 0) (lt→ltb n (total - 1) (omega arith))) in
      let next : vr16 modern (r.0 idx).next ≡ y = rw here (read_next n y more small) in
      record {
        chain = (flag, next, m.chain);
        view = λ more.
            let e : suc (length rest) + more ≡ suc (length rest + more) = omega arith in
            rw e (
              device_chain-more (suc (length rest + more)) modern r.0 idx flag next
              ∙ rw (here, m.view more) (encoded-cons n y (suc (length rest))));
        linked = m.linked;
        others =
            λ i h. m.others i (omega arith) ∙ update-ne d idx i v (ne_of_count i idx (y ∷ rest) h);
      }

  pub link_chain-Made :
      (rest left : List ℕ) (n idx free_head : ℕ) (d : ℕ → Desc)
      → Linked d (d idx).next (rest ++ left)
      → ((i : ℕ) → count i (idx ∷ rest) + count i left ≤ 1)
      → ((i : ℕ) → 0 < count i (idx ∷ rest) → i < 2 ^ 16)
      → n + suc (length rest) ≡ total
      → Made d n idx rest left
          (link_chain modern sg out_num total (suc (length rest)) n idx d free_head)
  unfolding encoded
  link_chain-Made [] left n idx free_head d l once small e =
      let v = direct_desc modern sg out_num total n (d idx).next in
      let apart : count idx left ≡ 0 = omega (arith, once idx, count-head idx []) in
      let flag : vr16 modern v.flags % 2 ≡ 0 =
        read_flags n (d idx).next
        ∙ ap (λ b. if b then 1 else 0) (le→not_ltb n (total - 1) (omega arith)) in
      rw (link_chain-last n idx free_head d (omega arith)) (record {
        chain = rw (update_self d idx v) flag;
        view = λ more.
            device_chain-last (0 + more) modern (update d idx v) idx (rw (update_self d idx v) flag)
            ∙ rw (update_self d idx v) (encoded-cons n (d idx).next 0);
        linked = Linked-frame d (update d idx v) _ left (update-Agree d idx v left apart) l;
        others = λ i h. update-ne d idx i v (ne_of_count i idx [] h);
      })
  link_chain-Made (y ∷ rest) left n idx free_head d l once small e =
      let v = direct_desc modern sg out_num total n y in
      let d1 = update d idx v in
      let apart : count idx (y ∷ rest) + count idx left ≡ 0 =
        omega (arith, once idx, count-head idx (y ∷ rest)) in
      let apart_left : count idx (rest ++ left) ≡ 0 = omega (arith, count-append idx rest left) in
      let ne : idx ≢ y = λ h. ne_of_count idx y rest (omega arith) (sym h) in
      let ih =
        link_chain-Made rest left (n + 1) y free_head d1
          (rw (update-ne d idx y v ne) (
            Linked-frame d d1 _ (rest ++ left) (update-Agree d idx v (rest ++ left) apart_left)
              l.1))
          (λ i. omega (arith, once i)) (λ i h. small i (omega arith)) (omega arith) in
      rw (link_chain-more (suc (length rest)) n idx free_head d (omega arith), l.0)
        (Made-cons d idx y n rest left _ (omega arith) (small y (omega (arith, count-head y rest)))
          (omega arith) ih)
