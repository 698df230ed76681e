-- ===== src/Virtqueue/Fresh.antt =====
-- A new virtqueue: its rings do not overlap, it owns its descriptors, and failures leak nothing.
use virt_iogpu.Prelude.{
  ℕ, zero, suc, ◌+◌, ◌-◌, ◌*◌, ◌%◌, ◌^◌, ◌≤◌, ◌<◌, ◌≡◌, refl, inl, inr, Bool-cases, List, [], ◌∷◌,
  ◌&&◌, arith, ltb, leb, ◌==◌, if◌then◌else◌, update, length, count,
}
use virt_iogpu.Virtqueue.State.{Desc}
use virt_iogpu.Virtqueue.Allocate.{
  layout, link_free, free_list, fresh_queue, zero_desc, AllocResult, made, failed, allocate, free,
}
use virt_iogpu.Virtqueue.Invariant.{Linked, Inv}
use virt_iogpu.Virtqueue.Outcome.{Tables}

-- The three regions of the ring memory lie one behind the other, the used ring on a page, and the
-- avail ring has room for `num` entries and for `used_event` behind them.
-- Condition: at most 32768 entries, the most that the VirtIO standard allows.
pub layout_regions :
    (queue_size : ℕ)
    → queue_size ≤ 2 ^ 15
    → let l = layout queue_size in
      (l.desc_size ≡ 16 * queue_size)
      × (4 + 2 * queue_size + 2 ≤ l.avail_size)
      × (l.desc_size + l.avail_size ≤ l.used_offset)
      × (l.used_offset < l.desc_size + l.avail_size + 4096)
      × (l.used_offset % 4096 ≡ 0)
      × (4 + 8 * queue_size ≤ l.used_size)
      × (l.used_offset + l.used_size ≡ l.total_mem)
unfolding layout
layout_regions queue_size h = omega arith

-- The numbers from `j` on, `n` of them.
abbrev pub upto : ℕ → ℕ → List ℕ
upto j zero = []
upto j (suc n) = j ∷ upto (suc j) n

length-upto : (j n : ℕ) → length (upto j n) ≡ n
length-upto j zero = refl
length-upto j (suc n) = omega (arith, length-upto (suc j) n)

count-upto : (i j n : ℕ) → count i (upto j n) ≡ (if leb j i && ltb i (j + n) then 1 else 0)
count-upto i j zero = ground arith
count-upto i j (suc n) = ground (arith, count-upto i (suc j) n)

link_free-next :
    (rounds j : ℕ) (d : ℕ → Desc) (i : ℕ)
    → (link_free rounds j d i).next
      ≡ (if leb j i && ltb i (j + rounds) then (i + 1) % 2 ^ 16 else (d i).next)
unfolding link_free
link_free-next zero j d i = ground arith
link_free-next (suc rounds) j d i =
    ground (
      arith,
      link_free-next rounds (j + 1) (update d j (record (d j) { next = (j + 1) % 2 ^ 16 })) i,
    )

Linked-upto :
    (d : ℕ → Desc) (n j : ℕ)
    → ((i : ℕ) → j ≤ i → suc i < j + n → (d i).next ≡ suc i)
    → Linked d j (upto j n)
Linked-upto d zero j h = tt
Linked-upto d (suc zero) j h = (refl, tt)
Linked-upto d (suc (suc n)) j h = (
  refl,
  rw (h j (omega arith) (omega arith))
      (Linked-upto d (suc n) (suc j) (λ i p q. h i (omega arith) (omega arith))),
)

free_list-next :
    (queue_size i : ℕ)
    → queue_size < 2 ^ 16
    → suc i < queue_size
    → (free_list queue_size i).next ≡ suc i
unfolding free_list
free_list-next queue_size i small h =
    let last : (queue_size + 2 ^ 32 - 1) % 2 ^ 32 ≡ queue_size - 1 = omega arith in
    rw last (ground (arith, link_free-next (queue_size - 1) 0 (λ i. zero_desc) i))

-- VirtQueue_Allocate hands out a queue that owns each of its descriptors once, all free and in
-- order, with no request and no indirect table.
-- Condition: between 1 and 65535 entries.
pub fresh_queue-Inv :
    (queue_size : ℕ)
    → 0 < queue_size
    → queue_size < 2 ^ 16
    → Inv (fresh_queue queue_size) (upto 0 queue_size) [] × Tables (fresh_queue queue_size) []
unfolding fresh_queue
fresh_queue-Inv queue_size pos small = (
  record {
    num_pos = pos;
    num_small = small;
    linked =
        Linked-upto (free_list queue_size) queue_size 0
          (λ i p q. free_list-next queue_size i small (omega arith));
    counted = omega (arith, length-upto 0 queue_size);
    total = omega (arith, length-upto 0 queue_size);
    partition = λ i. ground (arith, count-upto i 0 queue_size);
    held = tt;
  },
  record { once = λ p ne. refl; mapped = λ p u h. cc },
)

-- The addresses that AllocVecTags gave before its first failure.
abbrev pub obtained : ℕ → ℕ → ℕ → ℕ → List ℕ
obtained raw self cookies tables =
    if raw == 0
    then []
    else raw
      ∷ (if self == 0
          then []
          else self
            ∷ (if cookies == 0 then [] else cookies ∷ (if tables == 0 then [] else tables ∷ [])))

abbrev pub Leakless : List ℕ → AllocResult → Type 0
Leakless got (failed freed) = (p : ℕ) → count p freed ≡ count p got
Leakless got (made a) = (p : ℕ) → count p (free a).0 ≡ count p got

-- Nothing leaks: where an allocation fails, VirtQueue_Allocate frees what it has obtained, each
-- block once; and VirtQueue_Free of a queue that it made frees all four blocks, each once.
pub allocate-Leakless :
    (queue_index queue_size raw self cookies tables : ℕ)
    → Leakless
        (obtained raw self cookies tables)
        (allocate queue_index queue_size raw self cookies tables)
unfolding allocate free
allocate-Leakless queue_index queue_size raw self cookies tables = elim (Bool-cases (raw == 0)) [
  | inl r ↦ rw r (λ p. refl)
  | inr r ↦ elim (Bool-cases (self == 0)) [
    | inl s ↦ rw (r, s) (λ p. refl)
    | inr s ↦ elim (Bool-cases (cookies == 0)) [
      | inl c ↦ rw (r, s, c) (λ p. omega arith)
      | inr c ↦ elim (Bool-cases (tables == 0)) [
        | inl t ↦ rw (r, s, c, t) (λ p. omega arith)
        | inr t ↦ rw (r, s, c, t) (λ p. ground arith)
      ]
    ]
  ]
]
