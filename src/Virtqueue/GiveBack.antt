-- ===== src/Virtqueue/GiveBack.antt =====
-- How VirtQueue_GetBuf gives the descriptors and the table of a finished request back.
use virt_iogpu.Prelude.{
  ℕ, suc, ◌+◌, ◌%◌, ◌^◌, ◌≤◌, ◌<◌, ◌≡◌, refl, sym, ◌≢◌, inl, inr, ap, List, [], ◌∷◌, ◌++◌, arith,
  if◌then◌else◌, update, update_self, update-ne, length, Option, some, none, All, ◌==◌, ==-self,
  ==-ne, count, count-head, ne_of_count, reverse_onto, count-reverse_onto, length-reverse_onto,
  All-left, All-right, All-append, subst,
}
use virt_iogpu.Virtqueue.State.{Virtqueue, Table}
use virt_iogpu.Virtqueue.AddBuf.{free_table, unmap_table}
use virt_iogpu.Virtqueue.GetBuf.{Freed, freed_desc, free_chain, free_fuel, finish, give_back}
use virt_iogpu.Virtqueue.Invariant.{Req, descs, count_reqs, length_reqs, Holds, Inv, Linked, Chain}
use virt_iogpu.Virtqueue.Chains.{Linked-frame, update-Agree}
use virt_iogpu.Virtqueue.Freeing.{free_chain-FreedAll, FreedAll}
use virt_iogpu.Virtqueue.Add.{Holds-frame-All, index-lt, count-le}
use virt_iogpu.Virtqueue.Outcome.{count_tables, count_live, Tables}

count_reqs-append :
    (i : ℕ) (xs ys : List Req) → count_reqs i (xs ++ ys) ≡ count_reqs i xs + count_reqs i ys
count_reqs-append i [] ys = omega arith
count_reqs-append i (x ∷ xs) ys = omega (arith, count_reqs-append i xs ys)

length_reqs-append : (xs ys : List Req) → length_reqs (xs ++ ys) ≡ length_reqs xs + length_reqs ys
length_reqs-append [] ys = omega arith
length_reqs-append (x ∷ xs) ys = omega (arith, length_reqs-append xs ys)

count_tables-append :
    (p : ℕ) (xs ys : List Req) → count_tables p (xs ++ ys) ≡ count_tables p xs + count_tables p ys
count_tables-append p [] ys = omega arith
count_tables-append p (x ∷ xs) ys = omega (arith, count_tables-append p xs ys)

count_live-le : (o : Option Table) → count_live o ≤ 1
count_live-le none = omega arith
count_live-le (some t) = omega arith

free_fuel_lem : free_fuel ≡ 2 ^ 16 + 1
unfolding free_fuel
free_fuel_lem = refl

last-finish :
    (vq : Virtqueue) (s : Freed) → (finish vq s).last_used_idx ≡ (vq.last_used_idx + 1) % 2 ^ 16
unfolding finish
last-finish vq s = refl

-- The queue once `take_used` has cleared the cookie and the table of `head`.
abbrev pub cleared : ℕ → Virtqueue → Virtqueue
cleared head vq = record vq {
  cookies = update vq.cookies head 0;
  indirect_tables = update vq.indirect_tables head 0;
}

module _ (vq : Virtqueue) (free : List ℕ) (pre : List Req) (r : Req) (post : List Req)
    (v : Inv vq free (pre ++ r ∷ post)) where
  once : (i : ℕ) → count i (descs r) + count i free + count_reqs i (pre ++ post) ≤ 1
  once i =
      omega (arith, count-le v i, count_reqs-append i pre (r ∷ post), count_reqs-append i pre post)

  pub own : Holds vq r
  own = (All-right (Holds vq) pre (r ∷ post) v.held).0

  others : All (Holds vq) (pre ++ post)
  others =
      All-append (Holds vq) pre post (All-left (Holds vq) pre (r ∷ post) v.held)
        (All-right (Holds vq) pre (r ∷ post) v.held).1

  -- What `finish` leaves, given what was freed.
  finish-Inv :
      (heap : ℕ → Option Table) (s : Freed)
      → Linked s.desc s.free_head (reverse_onto (descs r) free)
      → s.freed ≡ length (descs r)
      → ((i : ℕ) → count i (descs r) ≡ 0 → s.desc i ≡ vq.desc i)
      → Inv
          (finish (record (cleared r.head vq) { heap = heap }) s)
          (reverse_onto (descs r) free)
          (pre ++ post)
  unfolding finish
  finish-Inv heap s l c o = record {
    num_pos = v.num_pos;
    num_small = v.num_small;
    linked = l;
    counted = omega (
      arith,
      length_reqs-append pre (r ∷ post),
      length_reqs-append pre post,
      length-reverse_onto (descs r) free,
      v.total,
      v.counted,
      v.num_small,
    );
    total = omega (
      arith,
      length_reqs-append pre (r ∷ post),
      length_reqs-append pre post,
      length-reverse_onto (descs r) free,
      v.total,
    );
    partition = λ i. omega (
      arith,
      v.partition i,
      count_reqs-append i pre (r ∷ post),
      count_reqs-append i pre post,
      count-reverse_onto i (descs r) free,
    );
    held =
        Holds-frame-All vq _ (pre ++ post) refl
          (λ i p.
            let apart : count i (descs r) ≡ 0 = omega (arith, once i) in
            record {
              desc = o i apart;
              cookie = update-ne vq.cookies r.head i 0 (ne_of_count i r.head r.rest apart);
              table = update-ne vq.indirect_tables r.head i 0 (ne_of_count i r.head r.rest apart);
            })
          others;
  }

  -- The table of a finished request leaves the heap, all others stay.
  freed-Tables :
      (heap : ℕ → Option Table) (s : Freed)
      → Tables vq (pre ++ r ∷ post)
      → ((p : ℕ)
          → p ≢ 0
          → count_live (heap p) + (if r.table == p then 1 else 0) ≡ count_live (vq.heap p))
      → ((p : ℕ) (t : Table) → heap p ≡ some t → vq.heap p ≡ some t)
      → Tables (finish (record (cleared r.head vq) { heap = heap }) s) (pre ++ post)
  unfolding finish
  freed-Tables heap s t e k = record {
    once = λ p ne. omega (
      arith,
      t.once p ne,
      e p ne,
      count_tables-append p pre (r ∷ post),
      count_tables-append p pre post,
    );
    mapped = λ p u h. t.mapped p u (k p u h);
  }

-- What `give_back` leaves of the request `r`.
pub record Returned (vq : Virtqueue) (free : List ℕ) (reqs : List Req) (o : Option Virtqueue)
    : Type 0 where
  pub out : Virtqueue
  pub ended : o ≡ some out
  pub inv : Inv out free reqs
  pub tables : Tables out reqs
  pub last : out.last_used_idx ≡ (vq.last_used_idx + 1) % 2 ^ 16

module _ (vq : Virtqueue) (free : List ℕ) (pre : List Req) (r : Req) (post : List Req)
    (v : Inv vq free (pre ++ r ∷ post)) (t : Tables vq (pre ++ r ∷ post)) where
  size : suc (length r.rest) ≤ vq.num
  size = omega (arith, length_reqs-append pre (r ∷ post), v.total)

  freed_direct :
      Chain vq.modern vq.desc r.head r.rest
      → FreedAll
          (record { desc = vq.desc; free_head = vq.free_head; freed = 0 })
          r.head
          r.rest
          free
          (free_chain free_fuel vq.modern r.head
            (record { desc = vq.desc; free_head = vq.free_head; freed = 0 }))
  freed_direct c =
      free_chain-FreedAll r.rest free free_fuel vq.modern r.head _
        (omega (arith, size, v.num_small, free_fuel_lem)) c v.linked
        (λ i. omega (arith, once vq free pre r post v i)) (omega (arith, size, v.num_small))

  give_back_direct :
      r.table ≡ 0
      → Chain vq.modern vq.desc r.head r.rest
      → Returned vq
          (reverse_onto (descs r) free)
          (pre ++ post)
          (give_back r.table r.head (cleared r.head vq))
  unfolding give_back
  give_back_direct z c =
      let f = freed_direct c in
      rw (z, f.ended)
        (record {
          out = finish (cleared r.head vq) f.out;
          ended = refl;
          inv =
              finish-Inv vq free pre r post v vq.heap f.out f.linked (omega (arith, f.count_freed))
                f.others;
          tables =
              freed-Tables vq free pre r post v vq.heap f.out t (λ p ne. ground arith) (λ p u h. h);
          last = last-finish (cleared r.head vq) f.out;
        })

  table_live : r.table ≢ 0 → count_live (vq.heap r.table) ≡ 1
  table_live z = omega (
    arith,
    t.once r.table z,
    count_tables-append r.table pre (r ∷ post),
    ap {B = ℕ} (λ b. if b then 1 else 0) (==-self r.table),
    count_live-le (vq.heap r.table),
  )

  table_gone :
      r.table ≢ 0
      → (p : ℕ)
      → count_live ((free_table r.table (unmap_table r.table vq)).heap p)
          + (if r.table == p then 1 else 0)
        ≡ count_live (vq.heap p)
  unfolding free_table unmap_table
  table_gone z p = ground (arith, table_live z)

  freed_table : Freed
  freed_table = record {
    desc = update vq.desc r.head (freed_desc vq.free_head);
    free_head = r.head;
    freed = 1;
  }

  freed_table-Linked : r.rest ≡ [] → Linked freed_table.desc r.head (reverse_onto (descs r) free)
  unfolding freed_table
  freed_table-Linked e =
      let d = freed_desc vq.free_head in
      subst (λ l. Linked (update vq.desc r.head d) r.head (reverse_onto l (r.head ∷ free))) (sym e)
        (
          refl,
          rw (update_self vq.desc r.head d) (
              Linked-frame vq.desc _ vq.free_head free
                (update-Agree vq.desc r.head d free
                  (omega (arith, once vq free pre r post v r.head, count-head r.head r.rest)))
                v.linked),
        )

  give_back_table :
      r.table ≢ 0
      → r.rest ≡ []
      → Returned vq
          (reverse_onto (descs r) free)
          (pre ++ post)
          (give_back r.table r.head (cleared r.head vq))
  unfolding give_back free_table unmap_table freed_table
  give_back_table z e = rw (==-ne r.table 0 z) (record {
    out = _;
    ended = refl;
    inv =
        finish-Inv vq free pre r post v _ freed_table (freed_table-Linked e)
          (omega (arith, ap length e))
          (λ i h. update-ne vq.desc r.head i _ (ne_of_count i r.head r.rest h));
    tables =
        freed-Tables vq free pre r post v _ freed_table t (λ p ne. table_gone z p)
          (λ p u h. ground arith);
    last = last-finish _ freed_table;
  })

  pub give_back-Returned :
      Returned vq
        (reverse_onto (descs r) free)
        (pre ++ post)
        (give_back r.table r.head (cleared r.head vq))
  give_back-Returned = elim (own vq free pre r post v).shape [
    | inl (z, c) ↦ give_back_direct z c
    | inr (z, e) ↦ give_back_table z e
  ]

  pub head-lt : r.head < vq.num
  head-lt =
      index-lt v r.head
        (omega (arith, count_reqs-append r.head pre (r ∷ post), count-head r.head r.rest))
