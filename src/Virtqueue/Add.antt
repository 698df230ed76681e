-- ===== src/Virtqueue/Add.antt =====
-- VirtQueue_AddBuf keeps every descriptor owned once: the request takes the front of the free
-- list and nothing else moves.
use virt_iogpu.Prelude.{
  ℕ, suc, ◌+◌, ◌≤◌, ◌<◌, ◌≡◌, refl, ◌≢◌, inl, inr, List, [], ◌∷◌, ◌++◌, arith, update_self,
  update-ne, length, length-append, count, count-append, count-head, ne_of_count, All,
}
use virt_iogpu.Virtqueue.State.{Sg, Virtqueue}
use virt_iogpu.Virtqueue.AddBuf.{OsAnswer, link_chain, publish, add_direct, add_table}
use virt_iogpu.Virtqueue.Invariant.{Req, descs, count_reqs, Holds, Inv}
use virt_iogpu.Virtqueue.Chains.{Linked-frame, Chain-frame, update-Agree}
use virt_iogpu.Virtqueue.Linking.{Made, link_chain-Made}

-- `vq'` keeps what `vq` holds for the descriptor `i`.
pub record Keeps (vq vq' : Virtqueue) (i : ℕ) : Type 0 where
  pub desc : vq'.desc i ≡ vq.desc i
  pub cookie : vq'.cookies i ≡ vq.cookies i
  pub table : vq'.indirect_tables i ≡ vq.indirect_tables i

pub Holds-frame :
    (vq vq' : Virtqueue) (r : Req)
    → vq'.modern ≡ vq.modern
    → ((i : ℕ) → 0 < count i (descs r) → Keeps vq vq' i)
    → Holds vq r
    → Holds vq' r
Holds-frame vq vq' r m k h =
    let own = k r.head (omega (arith, count-head r.head r.rest)) in
    record {
      cookie_kept = rw own.cookie h.cookie_kept;
      table_kept = rw own.table h.table_kept;
      shape = elim h.shape [
        | inl (z, c) ↦
            inl (
              z,
              rw m (Chain-frame vq.modern vq.desc vq'.desc r.head r.rest (λ i p. (k i p).desc) c),
            )
        | inr s ↦ inr s
      ];
    }

pub Holds-frame-All :
    (vq vq' : Virtqueue) (rs : List Req)
    → vq'.modern ≡ vq.modern
    → ((i : ℕ) → 0 < count_reqs i rs → Keeps vq vq' i)
    → All (Holds vq) rs
    → All (Holds vq') rs
Holds-frame-All vq vq' [] m k h = tt
Holds-frame-All vq vq' (r ∷ rs) m k h = (
  Holds-frame vq vq' r m (λ i p. k i (omega arith)) h.0,
  Holds-frame-All vq vq' rs m (λ i p. k i (omega arith)) h.1,
)

pub index-lt :
    {vq : Virtqueue} {free : List ℕ} {reqs : List Req} (v : Inv vq free reqs) (i : ℕ)
    → 0 < count i free + count_reqs i reqs
    → i < vq.num
index-lt v i p = ground (arith, v.partition i)

pub count-le :
    {vq : Virtqueue} {free : List ℕ} {reqs : List Req} (v : Inv vq free reqs) (i : ℕ)
    → count i free + count_reqs i reqs ≤ 1
count-le v i = ground (arith, v.partition i)

-- The request of a direct path that took `head` and `rest`.
abbrev pub direct_req : ℕ → List ℕ → ℕ → Req
direct_req head rest cookie = record { head = head; rest = rest; cookie = cookie; table = 0 }

module _ (sg : ℕ → Sg) (out_num total cookie : ℕ) (vq : Virtqueue) (head : ℕ) (rest left : List ℕ)
    (reqs : List Req) (v : Inv vq (head ∷ rest ++ left) reqs)
    (taken : total ≡ suc (length rest)) where
  once : (i : ℕ) → count i (head ∷ rest) + count i left + count_reqs i reqs ≤ 1
  once i = omega (arith, count-le v i, count-append i rest left)

  pub made :
      Made vq.modern sg out_num total vq.desc 0 head rest left
        (link_chain vq.modern sg out_num total total 0 vq.free_head vq.desc vq.free_head)
  made =
      rw (taken, v.linked.0)
        (link_chain-Made vq.modern sg out_num (suc (length rest)) rest left 0 head head vq.desc
          v.linked.1 (λ i. omega (arith, once i))
          (λ i p.
            omega (arith, index-lt v i (omega (arith, count-append i rest left)), v.num_small))
          (omega arith))

  own-Holds : Holds (add_direct sg out_num total cookie vq) (direct_req head rest cookie)
  unfolding add_direct publish
  own-Holds = record {
    cookie_kept = rw v.linked.0 (update_self vq.cookies head cookie);
    table_kept = rw v.linked.0 (update_self vq.indirect_tables head 0);
    shape = inl (refl, made.chain);
  }

  others-Keeps :
      (i : ℕ) → 0 < count_reqs i reqs → Keeps vq (add_direct sg out_num total cookie vq) i
  unfolding add_direct publish
  others-Keeps i p =
      let apart : count i (head ∷ rest) ≡ 0 = omega (arith, once i) in
      let ne : vq.free_head ≢ i = rw v.linked.0 (ne_of_count i head rest apart) in
      record {
        desc = made.others i apart;
        cookie = update-ne vq.cookies vq.free_head i cookie ne;
        table = update-ne vq.indirect_tables vq.free_head i 0 ne;
      }

  pub add_direct-Inv :
      Inv (add_direct sg out_num total cookie vq) left (direct_req head rest cookie ∷ reqs)
  unfolding add_direct publish
  add_direct-Inv =
      let sizes = length-append rest left in
      record {
        num_pos = v.num_pos;
        num_small = v.num_small;
        linked = made.linked;
        counted = omega (arith, v.counted, v.total, sizes, v.num_small);
        total = omega (arith, v.total, sizes);
        partition = λ i. omega (arith, v.partition i, count-append i rest left);
        held = (own-Holds, Holds-frame-All vq _ reqs refl others-Keeps v.held);
      }

-- The request of an indirect path.
abbrev pub table_req : ℕ → ℕ → ℕ → Req
table_req head cookie table = record { head = head; rest = []; cookie = cookie; table = table }

module _ (os : OsAnswer) (total cookie : ℕ) (vq : Virtqueue) (head : ℕ) (left : List ℕ)
    (reqs : List Req) (v : Inv vq (head ∷ left) reqs) (table_ne : os.itbl ≢ 0) where
  pub add_table-Inv : Inv (add_table os total cookie vq) left (table_req head cookie os.itbl ∷ reqs)
  unfolding add_table publish
  add_table-Inv =
      let apart_left : count head left ≡ 0 = omega (arith, count-le v head, count-head head left) in
      let ne : (i : ℕ) → 0 < count_reqs i reqs → vq.free_head ≢ i =
        λ i p. rw v.linked.0 (ne_of_count i head [] (omega (arith, count-le v i))) in
      record {
        num_pos = v.num_pos;
        num_small = v.num_small;
        linked = rw v.linked.0 (
            Linked-frame vq.desc _ _ left (update-Agree vq.desc head _ left apart_left) v.linked.1);
        counted = omega (arith, v.counted, v.total, v.num_small);
        total = omega (arith, v.total);
        partition = λ i. omega (arith, v.partition i);
        held = (
          record {
            cookie_kept = rw v.linked.0 (update_self vq.cookies head cookie);
            table_kept = rw v.linked.0 (update_self vq.indirect_tables head os.itbl);
            shape = inr (table_ne, refl);
          },
          Holds-frame-All vq _ reqs refl
              (λ i p. record {
                desc = update-ne vq.desc vq.free_head i _ (ne i p);
                cookie = update-ne vq.cookies vq.free_head i cookie (ne i p);
                table = update-ne vq.indirect_tables vq.free_head i os.itbl (ne i p);
              })
              v.held,
        );
      }
