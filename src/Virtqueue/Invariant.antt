-- ===== src/Virtqueue/Invariant.antt =====
-- Who owns the descriptors of a virtqueue: the free list and the requests that the device has.
use virt_iogpu.Prelude.{
  ℕ, suc, ◌+◌, ◌%◌, ◌^◌, ◌<◌, ◌≡◌, ◌≢◌, ◌⊎◌, Bool, List, [], ◌∷◌, ltb, if◌then◌else◌, length, count,
  All,
}
use virt_iogpu.Word.{vr16}
use virt_iogpu.Virtqueue.State.{Desc, Virtqueue}

-- `xs` are the descriptors of the free list that begins at `h`; its links are native.
abbrev pub Linked : (ℕ → Desc) → ℕ → List ℕ → Type 0
Linked d h [] = Unit {0}
Linked d h (x ∷ xs) = (h ≡ x) × Linked d (d x).next xs

-- `x` and then `rest` are the descriptors of a chain as the device walks it.
abbrev pub Chain : Bool → (ℕ → Desc) → ℕ → List ℕ → Type 0
Chain modern d x [] = vr16 modern (d x).flags % 2 ≡ 0
Chain modern d x (y ∷ rest) =
    (vr16 modern (d x).flags % 2 ≡ 1) × (vr16 modern (d x).next ≡ y) × Chain modern d y rest

-- A request that the device has: its head, the chain's further descriptors, the caller's cookie,
-- the indirect table (0 for a direct request).
pub record Req : Type 0 where
  pub head : ℕ
  pub rest : List ℕ
  pub cookie : ℕ
  pub table : ℕ

abbrev pub descs : Req → List ℕ
descs r = r.head ∷ r.rest

abbrev pub count_reqs : ℕ → List Req → ℕ
count_reqs i [] = 0
count_reqs i (r ∷ rs) = count i (descs r) + count_reqs i rs

abbrev pub length_reqs : List Req → ℕ
length_reqs [] = 0
length_reqs (r ∷ rs) = suc (length r.rest) + length_reqs rs

-- The queue's memory says of a request what the request is.
pub record Holds (vq : Virtqueue) (r : Req) : Type 0 where
  pub cookie_kept : vq.cookies r.head ≡ r.cookie
  pub table_kept : vq.indirect_tables r.head ≡ r.table
  pub shape :
      ((r.table ≡ 0) × Chain vq.modern vq.desc r.head r.rest) ⊎ ((r.table ≢ 0) × (r.rest ≡ []))

-- Every descriptor stands exactly once, in the free list or in one request.
pub record Inv (vq : Virtqueue) (free : List ℕ) (reqs : List Req) : Type 0 where
  pub num_pos : 0 < vq.num
  pub num_small : vq.num < 2 ^ 16
  pub linked : Linked vq.desc vq.free_head free
  pub counted : vq.num_free ≡ length free
  pub total : length free + length_reqs reqs ≡ vq.num
  pub partition : (i : ℕ) → count i free + count_reqs i reqs ≡ (if ltb i vq.num then 1 else 0)
  pub held : All (Holds vq) reqs
