-- ===== src/BoardAlloc/Free.antt =====
-- board_free (src/chip/chip_alloc.c) gives back exactly one block.
use virt_iogpu.Prelude.{
  ℕ, suc, ◌+◌, ◌-◌, ◌%◌, ◌^◌, ◌≡◌, ◌≢◌, refl, Bool, true, false, List, [], ◌∷◌, Option, none, some,
  arith, ◌==◌, length, if-elim, inl, inr, ◌&&◌, ==-and, ==-ne,
}
use virt_iogpu.BoardAlloc.Slots.{
  Slot, Board, recalc_top, coalesce_at, find_used, mark_free, board_free,
}
use virt_iogpu.BoardAlloc.Invariant.{Tiled, inside, owners, Inv, Listed}
use virt_iogpu.BoardAlloc.Coalesce.{IsFree, coalesce_at-Inv}

-- The slot that `find_used` found, and the table once it is marked free.
pub record Marked (o top target i : ℕ) (s : List Slot) : Type 0 where
  pub size : ℕ
  pub listed : Listed target size s
  pub tiled : Tiled o (mark_free i s) top
  pub free : IsFree i (mark_free i s)
  pub owned : (x : ℕ) → owners x (mark_free i s) + inside target size x ≡ owners x s
  pub count : length (mark_free i s) ≡ length s

abbrev pub Found : ℕ → ℕ → ℕ → List Slot → Option ℕ → Type 0
Found o top target s none = (size : ℕ) → ¬ (Listed target size s)
Found o top target s (some i) = Marked o top target i s

found_here :
    (o top target : ℕ) (a : Slot) (s : List Slot)
    → Tiled o (a ∷ s) top
    → (a.offset ≡ target) × (a.used ≡ true)
    → Marked o top target 0 (a ∷ s)
unfolding mark_free
found_here o top target a s t h = record {
  size = a.size;
  listed = inl (h.0, refl, h.1);
  tiled = t;
  free = refl;
  owned = λ x. ground arith;
  count = refl;
}

Found-later :
    (o top target : ℕ) (a : Slot) (s : List Slot) (r : Option ℕ)
    → Tiled o (a ∷ s) top
    → ((a.offset == target) && a.used) ≡ false
    → Found (o + a.size) top target s r
    → Found o top target (a ∷ s) (elim r [ none ↦ none | some i ↦ some (suc i) ])
unfolding mark_free
Found-later o top target a s none t h k = not_here
  where
    not_here : (size : ℕ) → ¬ (Listed target size (a ∷ s))
    not_here size (inl e) = ground arith
    not_here size (inr l) = k size l
Found-later o top target a s (some i) t h k = record {
  size = k.size;
  listed = inr k.listed;
  tiled = (t.0, t.1, t.2, k.tiled);
  free = k.free;
  owned = λ x. omega (arith, k.owned x);
  count = omega (arith, k.count);
}

find_used-Found :
    (o top target : ℕ) (s : List Slot) → Tiled o s top → Found o top target s (find_used target s)
unfolding find_used
find_used-Found o top target [] t = λ size l. l
find_used-Found o top target (a ∷ s) t =
    if-elim (Found o top target (a ∷ s)) ((a.offset == target) && a.used) _ _
      (λ h. found_here o top target a s t (==-and a.offset target a.used h))
      (λ h.
        Found-later o top target a s (find_used target s) t h
          (find_used-Found (o + a.size) top target s t.3))

-- The offset that an address stands for.
abbrev pub offset_of : ℕ → Board → ℕ
offset_of mem b = (mem + 2 ^ 32 - b.board_mem) % 2 ^ 32

-- A block that was given back.
pub record Released (target : ℕ) (b b' : Board) : Type 0 where
  pub size : ℕ
  pub listed : Listed target size b.slots
  pub owned : (x : ℕ) → owners x b'.slots + inside target size x ≡ owners x b.slots
  pub inv : Inv b'
  pub same_memory : b'.board_mem ≡ b.board_mem

abbrev pub FreeOutcome : ℕ → Board → Bool × Board → Type 0
FreeOutcome target b (true, b') = Released target b b'
FreeOutcome target b (false, b') = (b' ≡ b) × ((size : ℕ) → ¬ (Listed target size b.slots))

board_mem-coalesce_at : (i : ℕ) (b : Board) → (coalesce_at i b).board_mem ≡ b.board_mem
unfolding coalesce_at recalc_top
board_mem-coalesce_at i b = refl

free-Found :
    (target : ℕ) (b : Board) (r : Option ℕ)
    → Inv b
    → Found 0 b.board_alloc_offset target b.slots r
    → FreeOutcome target b (elim r [
      | none ↦ (false, b)
      | some i ↦ (true, coalesce_at i (record b { slots = mark_free i b.slots }))
    ])
free-Found target b none v f = (refl, f)
free-Found target b (some i) v f =
    let c =
      coalesce_at-Inv i (record b { slots = mark_free i b.slots })
        (record {
          tiled = f.tiled;
          fits = v.fits;
          small = v.small;
          table = omega (arith, f.count, v.table);
          aligned = v.aligned;
        })
        f.free in
    record {
      size = f.size;
      listed = f.listed;
      owned = λ x. omega (arith, c.1 x, f.owned x);
      inv = c.0;
      same_memory = board_mem-coalesce_at i (record b { slots = mark_free i b.slots });
    }

-- board_free gives back the bytes of the used block at the address, keeps every other owner and
-- keeps the table well-formed; where no used block begins there it answers FALSE and changes
-- nothing. Conditions: a well-formed table, a board with memory, an address that is not NULL.
pub board_free-FreeOutcome :
    (mem : ℕ) (b : Board)
    → Inv b
    → mem ≢ 0
    → b.board_mem ≢ 0
    → FreeOutcome (offset_of mem b) b (board_free mem b)
unfolding board_free
board_free-FreeOutcome mem b v ne base =
    rw (==-ne b.board_mem 0 base, ==-ne mem 0 ne)
      (free-Found (offset_of mem b) b (find_used (offset_of mem b) b.slots) v
        (find_used-Found 0 b.board_alloc_offset (offset_of mem b) b.slots v.tiled))
