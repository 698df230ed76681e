-- ===== src/BoardAlloc/RoundTrip.antt =====
-- board_alloc followed by board_free (src/chip/chip_alloc.c), and a second board_free.
use virt_iogpu.Prelude.{
  ℕ, ◌+◌, ◌-◌, ◌%◌, ◌^◌, ◌≤◌, ◌<◌, ◌≡◌, ◌≢◌, refl, Bool, true, false, List, [], ◌∷◌, some, arith,
  inl, inr, subst, ap,
}
use virt_iogpu.BoardAlloc.Slots.{Slot, Board, board_alloc, board_free}
use virt_iogpu.BoardAlloc.Invariant.{Tiled, inside, owners, owners-le, Inv, Listed, Listed-unique}
use virt_iogpu.BoardAlloc.Alloc.{AllocOutcome, Handed, board_alloc-AllocOutcome}
use virt_iogpu.BoardAlloc.Free.{FreeOutcome, Released, offset_of, board_free-FreeOutcome}

-- The board memory is there, and its addresses are uint32.
pub record IsMapped (b : Board) : Type 0 where
  pub present : 0 < b.board_mem
  pub addressable : b.board_mem + b.board_mem_size ≤ 2 ^ 32

module _ (b b1 : Board) (size address : ℕ) (h : Handed b size address b1) where
  released_all :
      (r : Bool × Board)
      → FreeOutcome h.offset b1 r
      → (r.0 ≡ true) × ((x : ℕ) → owners x r.1.slots ≡ owners x b.slots) × Inv r.1
  released_all (false, b2) f = absurd (f.1 h.got h.listed)
  released_all (true, b2) f =
      let same : f.size ≡ h.got =
        Listed-unique h.offset f.size h.got 0 b1.slots b1.board_alloc_offset h.inv.tiled f.listed
          h.listed in
      (refl, λ x. omega (arith, f.owned x, h.owned x, ap (λ n. inside h.offset n x) same), f.inv)

  placed-offset : IsMapped b → 0 < h.got → offset_of address b1 ≡ h.offset
  placed-offset m pos =
      omega (arith, m.present, m.addressable, h.placed, h.in_memory, h.same_memory)

  placed-ne : IsMapped b → 0 < h.got → address ≢ 0
  placed-ne m pos = omega (arith, m.present, m.addressable, h.placed, h.in_memory)

-- A block that board_alloc hands out can be given back by its address: board_free finds it, and
-- afterwards each byte has the owner that it had before the allocation.
-- Conditions: a well-formed table, a size of at least one byte and so small that no uint32 sum
-- wraps, and a board memory with uint32 addresses.
pub free-alloc :
    (size address : ℕ) (b b1 : Board)
    → Inv b
    → IsMapped b
    → 0 < size
    → size + 16 + b.board_mem_size < 2 ^ 32
    → board_alloc size b ≡ (some address, b1)
    → let (found, b2) = board_free address b1 in
      (found ≡ true) × ((x : ℕ) → owners x b2.slots ≡ owners x b.slots) × Inv b2
free-alloc size address b b1 v m pos small e =
    let h : Handed b size address b1 =
      subst (AllocOutcome b size) e (board_alloc-AllocOutcome size b v small) in
    let got : 0 < h.got = omega (arith, h.enough) in
    released_all b b1 size address h (board_free address b1) (
      subst (λ o. FreeOutcome o b1 (board_free address b1))
        (placed-offset b b1 size address h m got)
        (board_free-FreeOutcome address b1 h.inv (placed-ne b b1 size address h m got)
          (omega (arith, m.present, h.same_memory))))

Listed-owner :
    (offset size o : ℕ) (slots : List Slot) (top : ℕ)
    → Tiled o slots top
    → Listed offset size slots
    → 0 < owners offset slots
Listed-owner offset size o [] top t l = absurd l
Listed-owner offset size o (a ∷ rest) top t (inl h) = ground arith
Listed-owner offset size o (a ∷ rest) top t (inr l) =
    omega (arith, Listed-owner offset size (o + a.size) rest top t.3 l)

Listed-pos :
    (offset size o : ℕ) (slots : List Slot) (top : ℕ)
    → Tiled o slots top
    → Listed offset size slots
    → 0 < size
Listed-pos offset size o [] top t l = absurd l
Listed-pos offset size o (a ∷ rest) top t (inl h) = omega (arith, t.1, h.1)
Listed-pos offset size o (a ∷ rest) top t (inr l) =
    Listed-pos offset size (o + a.size) rest top t.3 l

inside_start : (offset size : ℕ) → 0 < size → inside offset size offset ≡ 1
inside_start offset size h = ground arith

freed_twice :
    (target : ℕ) (b b1 : Board) (r : Bool × Board)
    → Inv b
    → Released target b b1
    → FreeOutcome target b1 r
    → r ≡ (false, b1)
freed_twice target b b1 (false, b2) v f g = ap (λ b'. (false, b')) g.0
freed_twice target b b1 (true, b2) v f g = absurd (
    omega (
      arith,
      f.owned target,
      inside_start target f.size (Listed-pos target f.size 0 b.slots _ v.tiled f.listed),
      Listed-owner target g.size 0 b1.slots _ f.inv.tiled g.listed,
      owners-le 0 b.slots b.board_alloc_offset target v.tiled,
    ))

-- A second board_free of the same address answers FALSE and changes nothing.
-- Conditions: a well-formed table, a board with memory, an address that is not NULL, and a first
-- call that found a block.
pub free-free :
    (mem : ℕ) (b b1 : Board)
    → Inv b
    → mem ≢ 0
    → b.board_mem ≢ 0
    → board_free mem b ≡ (true, b1)
    → board_free mem b1 ≡ (false, b1)
free-free mem b b1 v ne base e =
    let f : Released (offset_of mem b) b b1 =
      subst (FreeOutcome (offset_of mem b) b) e (board_free-FreeOutcome mem b v ne base) in
    freed_twice (offset_of mem b) b b1 (board_free mem b1) v f (
      subst (λ m. FreeOutcome ((mem + 2 ^ 32 - m) % 2 ^ 32) b1 (board_free mem b1)) f.same_memory
        (board_free-FreeOutcome mem b1 f.inv ne (rw f.same_memory base)))
