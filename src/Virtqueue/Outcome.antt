-- ===== src/Virtqueue/Outcome.antt =====
-- VirtQueue_AddBuf as a whole: every branch, with the failures of the operating system.
use virt_iogpu.Prelude.{
  ℕ, suc, ◌+◌, ◌-◌, ◌^◌, ◌≤◌, ◌<◌, ◌≡◌, refl, sym, ◌≢◌, ◌⊎◌, inl, inr, true, ap, List, [], ◌∷◌,
  ◌++◌, arith, ltb, if◌then◌else◌, length, take, drop, Option, some, none, length-take,
  take-append-drop, Bool-cases, ltb→lt, not_ltb→le, ne_of_==, subst, ◌==◌, ◌&&◌,
}
use native.Mathlib.Nat.{mod-eq_of_lt}
use virt_iogpu.Virtqueue.State.{Sg, Virtqueue, Table}
use virt_iogpu.Virtqueue.AddBuf.{
  OsAnswer, AddResult, queued, queue_full, publish, add_direct, add_table, add_fallback,
  add_indirect, add_buf, with_table, free_table, unmap_table,
}
use virt_iogpu.Virtqueue.Invariant.{Req, descs, Inv}
use virt_iogpu.Virtqueue.Add.{Holds-frame-All, direct_req, table_req, add_direct-Inv, add_table-Inv}

abbrev pub count_tables : ℕ → List Req → ℕ
count_tables p [] = 0
count_tables p (r ∷ rs) = (if r.table == p then 1 else 0) + count_tables p rs

abbrev pub count_live : Option Table → ℕ
count_live none = 0
count_live (some t) = 1

-- The allocated indirect tables are those of the requests, once each, and all are mapped.
pub record Tables (vq : Virtqueue) (reqs : List Req) : Type 0 where
  pub once : (p : ℕ) → p ≢ 0 → count_tables p reqs ≡ count_live (vq.heap p)
  pub mapped : (p : ℕ) (t : Table) → vq.heap p ≡ some t → t.mapped ≡ true

-- What AddBuf leaves when it refuses: nothing has changed hands.
pub record Refused (free : List ℕ) (reqs : List Req) (total : ℕ) (vq : Virtqueue) : Type 0 where
  pub too_few : length free < total
  pub inv : Inv vq free reqs
  pub tables : Tables vq reqs

-- What it leaves when it accepts: the new request has the front of the free list.
pub record Accepted (free : List ℕ) (reqs : List Req) (total cookie : ℕ) (vq : Virtqueue)
    : Type 0 where
  pub req : Req
  pub left : List ℕ
  pub taken : free ≡ descs req ++ left
  pub cookie_kept : req.cookie ≡ cookie
  pub size : (length (descs req) ≡ total) ⊎ ((length (descs req) ≡ 1) × (req.table ≢ 0))
  pub inv : Inv vq left (req ∷ reqs)
  pub tables : Tables vq (req ∷ reqs)

abbrev pub Outcome : List ℕ → List Req → ℕ → ℕ → AddResult × Virtqueue → Type 0
Outcome free reqs total cookie (queue_full, vq) = Refused free reqs total vq
Outcome free reqs total cookie (queued, vq) = Accepted free reqs total cookie vq

Inv-heap :
    (vq : Virtqueue) (heap : ℕ → Option Table) (free : List ℕ) (reqs : List Req)
    → Inv vq free reqs
    → Inv (record vq { heap = heap }) free reqs
Inv-heap vq heap free reqs v = record {
  num_pos = v.num_pos;
  num_small = v.num_small;
  linked = v.linked;
  counted = v.counted;
  total = v.total;
  partition = v.partition;
  held =
      Holds-frame-All vq _ reqs refl (λ i p. record { desc = refl; cookie = refl; table = refl })
        v.held;
}

Tables-heap :
    (vq : Virtqueue) (heap : ℕ → Option Table) (reqs : List Req)
    → ((p : ℕ) → heap p ≡ vq.heap p)
    → Tables vq reqs
    → Tables (record vq { heap = heap }) reqs
Tables-heap vq heap reqs e t = record {
  once = λ p ne. rw (e p) (t.once p ne);
  mapped = λ p u. rw (e p) (t.mapped p u);
}

-- A list with at least `suc n` elements, split behind them.
pub record Split (n : ℕ) (free : List ℕ) : Type 0 where
  pub head : ℕ
  pub rest : List ℕ
  pub left : List ℕ
  pub whole : free ≡ head ∷ rest ++ left
  pub size : length rest ≡ n

pub split : (n : ℕ) (free : List ℕ) → suc n ≤ length free → Split n free
split n [] h = absurd (omega arith)
split n (x ∷ xs) h = record {
  head = x;
  rest = take n xs;
  left = drop n xs;
  whole = ap (◌∷◌ x) (sym (take-append-drop n xs));
  size = length-take n xs (omega arith);
}

module _ (sg : ℕ → Sg) (out_num cookie : ℕ) (vq : Virtqueue) (free : List ℕ) (reqs : List Req)
    (v : Inv vq free reqs) (t : Tables vq reqs) where
  add_direct-Tables :
      (total head : ℕ) (rest : List ℕ)
      → Tables (add_direct sg out_num total cookie vq) (direct_req head rest cookie ∷ reqs)
  unfolding add_direct publish
  add_direct-Tables total head rest = record {
    once = λ p ne. ground (arith, t.once p ne);
    mapped = t.mapped;
  }

  add_direct-Accepted :
      (n : ℕ)
      → Split n free
      → Accepted free reqs (suc n) cookie (add_direct sg out_num (suc n) cookie vq)
  add_direct-Accepted n s = record {
    req = direct_req s.head s.rest cookie;
    left = s.left;
    taken = s.whole;
    cookie_kept = refl;
    size = inl (ap suc s.size);
    inv =
        add_direct-Inv sg out_num (suc n) cookie vq s.head s.rest s.left reqs
          (subst (λ l. Inv vq l reqs) s.whole v) (ap suc (sym s.size));
    tables = add_direct-Tables (suc n) s.head s.rest;
  }

  add_fallback-Outcome :
      (n : ℕ) → Outcome free reqs (suc n) cookie (add_fallback sg out_num (suc n) cookie vq)
  unfolding add_fallback
  add_fallback-Outcome n = elim (Bool-cases (ltb vq.num_free (suc n))) [
    | inl few ↦ rw few (record {
      too_few = omega (arith, ltb→lt vq.num_free (suc n) few, v.counted);
      inv = v;
      tables = t;
    })
    | inr enough ↦ rw enough (
        add_direct-Accepted n
          (split n free (omega (arith, not_ltb→le vq.num_free (suc n) enough, v.counted))))
  ]

module _ (os : OsAnswer) (sg : ℕ → Sg) (out_num cookie : ℕ) (vq : Virtqueue) (free : List ℕ)
    (reqs : List Req) (v : Inv vq free reqs) (t : Tables vq reqs)
    (fresh : vq.heap os.itbl ≡ none) where
  add_table-Accepted :
      (n : ℕ)
      → os.itbl ≢ 0
      → Split 0 free
      → Accepted free reqs
          (suc n)
          cookie
          (add_table os (suc n) cookie (with_table os.itbl sg out_num (suc n) true vq))
  unfolding add_table with_table publish
  add_table-Accepted n ne s = record {
    req = table_req s.head cookie os.itbl;
    left = s.rest ++ s.left;
    taken = s.whole;
    cookie_kept = refl;
    size = inr (refl, ne);
    inv =
        add_table-Inv os (suc n) cookie (with_table os.itbl sg out_num (suc n) true vq) s.head
          (s.rest ++ s.left) reqs (Inv-heap vq _ _ reqs (subst (λ l. Inv vq l reqs) s.whole v)) ne;
    tables = record {
      once = λ p np. ground (arith, t.once p np, ap count_live fresh);
      mapped = λ p u h. ground (arith, t.mapped p u);
    };
  }

  -- Where StartDMA or the list object fails, the table is given back before the direct path.
  fallback_undone :
      (heap : ℕ → Option Table) (n : ℕ)
      → ((p : ℕ) → heap p ≡ vq.heap p)
      → Outcome free reqs
          (suc n)
          cookie
          (add_fallback sg out_num (suc n) cookie (record vq { heap = heap }))
  fallback_undone heap n e =
      add_fallback-Outcome sg out_num cookie (record vq { heap = heap }) free reqs
        (Inv-heap vq heap free reqs v) (Tables-heap vq heap reqs e t) n

  add_indirect-Outcome :
      (n : ℕ)
      → 0 < vq.num_free
      → Outcome free reqs (suc n) cookie (add_indirect os sg out_num (suc n) cookie vq)
  unfolding add_indirect free_table unmap_table with_table
  add_indirect-Outcome n some_free = elim (Bool-cases (os.itbl == 0)) [
    | inl null ↦ rw null (add_fallback-Outcome sg out_num cookie vq free reqs v t n)
    | inr here ↦ elim (Bool-cases (ltb 0 os.itbl_entries)) [
      | inl entries ↦ elim (Bool-cases (os.itbl_dma == 0)) [
        | inl no_list ↦
            rw (here, entries, no_list) (fallback_undone _ n (λ p. ground (arith, fresh)))
        | inr list ↦
            rw (here, entries, list)
              (add_table-Accepted n (ne_of_== os.itbl 0 here)
                (split 0 free (omega (arith, v.counted))))
      ]
      | inr no_dma ↦ rw (here, no_dma) (fallback_undone _ n (λ p. ground (arith, fresh)))
    ]
  ]

  add_buf-suc :
      (in_num n : ℕ)
      → out_num + in_num ≡ suc n
      → suc n < 2 ^ 32
      → Outcome free reqs (suc n) cookie (add_buf os sg out_num in_num cookie vq)
  unfolding add_buf
  add_buf-suc in_num n e small =
      rw (e, mod-eq_of_lt small)
        (elim (Bool-cases (vq.use_indirect && ltb 1 (suc n))) [
          | inr direct ↦ rw direct (add_fallback-Outcome sg out_num cookie vq free reqs v t n)
          | inl indirect ↦ elim (Bool-cases (ltb vq.num_free 1)) [
            | inl few ↦
                rw (indirect, few)
                  (record {
                    too_few = omega (arith, ltb→lt vq.num_free 1 few, v.counted);
                    inv = v;
                    tables = t;
                  })
            | inr enough ↦
                rw (indirect, enough) (add_indirect-Outcome n (not_ltb→le vq.num_free 1 enough))
          ]
        ])

-- AddBuf keeps the ownership of descriptors and of indirect tables, whatever the operating system
-- answers. It refuses only a request with more entries than there are free descriptors, and then
-- changes nothing that is owned. An accepted request takes the front of the free list: as many
-- descriptors as it has entries, or one where it has an indirect table.
-- Conditions: descriptors and tables are owned as Inv and Tables say, between 1 and 2 ^ 32 - 1
-- entries, and an address from AllocVecTags that is not in use.
pub add_buf-Outcome :
    (os : OsAnswer) (sg : ℕ → Sg) (out_num in_num cookie : ℕ) {vq : Virtqueue} {free : List ℕ}
    {reqs : List Req}
    → Inv vq free reqs
    → Tables vq reqs
    → vq.heap os.itbl ≡ none
    → 0 < out_num + in_num
    → out_num + in_num < 2 ^ 32
    → Outcome free reqs (out_num + in_num) cookie (add_buf os sg out_num in_num cookie vq)
add_buf-Outcome os sg out_num in_num cookie {vq} {free} {reqs} v t fresh pos small =
    let whole : out_num + in_num ≡ suc (out_num + in_num - 1) = omega arith in
    rw whole (
      add_buf-suc os sg out_num cookie vq free reqs v t fresh in_num (out_num + in_num - 1) whole
        (omega arith))
