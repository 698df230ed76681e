-- ===== src/BoardAlloc/Alloc.antt =====
-- board_alloc (src/chip/chip_alloc.c) hands out bytes that nobody owned.
use virt_iogpu.Prelude.{
  ℕ, ◌+◌, ◌%◌, ◌^◌, ◌≤◌, ◌<◌, ◌≡◌, refl, true, List, [], ◌∷◌, ◌++◌, Option, none, some, arith, ltb,
  leb, length, length-append, inl, inr, if-elim, All, sym, leb→le, not_leb→lt, ltb→lt, not_ltb→le,
  ◌⊎◌,
}
use virt_iogpu.BoardAlloc.Slots.{Slot, Board, max_board_allocs, extend, board_alloc, rounded}
use virt_iogpu.BoardAlloc.Invariant.{Tiled, inside, owners, Inv, Listed}
use virt_iogpu.BoardAlloc.FirstFit.{IsShort, Scanned, first_fit-Scanned}

-- A block that was handed out, and the board after it.
pub record Handed (b : Board) (size address : ℕ) (b' : Board) : Type 0 where
  pub offset : ℕ
  pub got : ℕ
  pub placed : address ≡ (b.board_mem + offset) % 2 ^ 32
  pub enough : size ≤ got
  pub in_memory : offset + got ≤ b.board_mem_size
  pub aligned : offset % 16 ≡ 0
  pub owned : (x : ℕ) → owners x b'.slots ≡ owners x b.slots + inside offset got x
  pub listed : Listed offset got b'.slots
  pub inv : Inv b'
  pub same_memory : (b'.board_mem ≡ b.board_mem) × (b'.board_mem_size ≡ b.board_mem_size)

-- NULL: every free slot is too short, and the top has no room or the table is full.
pub record Denied (b : Board) (size : ℕ) (b' : Board) : Type 0 where
  pub same : b' ≡ b
  pub no_hole : All (IsShort (rounded size)) b.slots
  pub no_room :
      (b.board_mem_size < b.board_alloc_offset + rounded size) ⊎ (max_board_allocs ≤ length b.slots)

abbrev pub AllocOutcome : Board → ℕ → Option ℕ × Board → Type 0
AllocOutcome b size (none, b') = Denied b size b'
AllocOutcome b size (some address, b') = Handed b size address b'

rounded_bounds :
    (size : ℕ)
    → size + 16 < 2 ^ 32
    → (0 < rounded size)
      × (size ≤ rounded size)
      × (rounded size ≤ size + 16)
      × (rounded size % 16 ≡ 0)
unfolding rounded
rounded_bounds size h = ground arith

Tiled-append :
    (o top size : ℕ) (slots : List Slot)
    → 0 < size
    → size % 16 ≡ 0
    → Tiled o slots top
    → Tiled o (slots ++ (record { offset = top; size = size; used = true } ∷ [])) (top + size)
Tiled-append o top size [] pos even t = (sym t, pos, even, omega arith)
Tiled-append o top size (a ∷ rest) pos even t =
    (t.0, t.1, t.2, Tiled-append (o + a.size) top size rest pos even t.3)

owners-append : (x : ℕ) (xs ys : List Slot) → owners x (xs ++ ys) ≡ owners x xs + owners x ys
owners-append x [] ys = omega arith
owners-append x (a ∷ xs) ys = omega (arith, owners-append x xs ys)

Listed-append :
    (o size : ℕ) (slots : List Slot)
    → Listed o size (slots ++ (record { offset = o; size = size; used = true } ∷ []))
Listed-append o size [] = inl (refl, refl, refl)
Listed-append o size (a ∷ slots) = inr (Listed-append o size slots)

module _ (size : ℕ) (b : Board) (v : Inv b) (small : size + 16 + b.board_mem_size < 2 ^ 32) where
  extend-AllocOutcome :
      All (IsShort (rounded size)) b.slots → AllocOutcome b size (extend (rounded size) b)
  unfolding extend
  extend-AllocOutcome short =
      let r = rounded_bounds size (omega arith) in
      let wrap : (b.board_alloc_offset + rounded size) % 2 ^ 32
          ≡ b.board_alloc_offset + rounded size =
        omega (arith, v.fits, r.2) in
      if-elim (AllocOutcome b size) (ltb b.board_mem_size _) _ _
        (λ h. record {
          same = refl;
          no_hole = short;
          no_room = inl (omega (arith, ltb→lt _ _ h, wrap));
        })
        (λ room.
          if-elim (AllocOutcome b size) (leb max_board_allocs (length b.slots)) _ _
            (λ h. record { same = refl; no_hole = short; no_room = inr (leb→le _ _ h) })
            (λ h. record {
              offset = b.board_alloc_offset;
              got = rounded size;
              placed = refl;
              enough = r.1;
              in_memory = omega (arith, not_ltb→le _ _ room, wrap);
              aligned = v.aligned;
              owned = λ x. omega (
                arith,
                owners-append x b.slots (
                    record { offset = b.board_alloc_offset; size = rounded size; used = true }
                    ∷ []),
              );
              listed = Listed-append b.board_alloc_offset (rounded size) b.slots;
              inv = record {
                tiled =
                    rw wrap
                      (Tiled-append 0 b.board_alloc_offset (rounded size) b.slots r.0 r.3 v.tiled);
                fits = not_ltb→le _ _ room;
                small = v.small;
                table = omega (
                  arith,
                  not_leb→lt _ _ h,
                  length-append b.slots (
                      record { offset = b.board_alloc_offset; size = rounded size; used = true }
                      ∷ []),
                );
                aligned = omega (arith, wrap, v.aligned, r.3);
              };
              same_memory = (refl, refl);
            }))

  handed-AllocOutcome :
      (r : Option (ℕ × List Slot))
      → Scanned
          (rounded size)
          b.board_alloc_offset
          (ltb (length b.slots) max_board_allocs)
          0
          b.slots
          r
      → AllocOutcome b size (elim r [
        | none ↦ extend (rounded size) b
        | some (o, slots) ↦ (some ((b.board_mem + o) % 2 ^ 32), record b { slots = slots })
      ])
  handed-AllocOutcome none short = extend-AllocOutcome short
  handed-AllocOutcome (some out) h = record {
    offset = out.0;
    got = h.got;
    placed = refl;
    enough = omega (arith, h.enough, (rounded_bounds size (omega arith)).1);
    in_memory = omega (arith, h.below_top, v.fits);
    aligned = h.aligned;
    owned = h.owned;
    listed = h.listed;
    inv = record {
      tiled = h.tiled;
      fits = v.fits;
      small = v.small;
      table = ground (arith, h.grows, v.table);
      aligned = v.aligned;
    };
    same_memory = (refl, refl);
  }

-- board_alloc hands out a block of at least `size` bytes, on a 16-byte boundary and inside the
-- board memory, whose bytes had no owner and now have one; all other bytes keep theirs, and the
-- table stays well-formed. It answers NULL, and changes nothing, only where every hole is too
-- short and the top has no room or the table is full.
-- Conditions: a well-formed table, and a size so small that no uint32 sum wraps.
pub board_alloc-AllocOutcome :
    (size : ℕ) (b : Board)
    → Inv b
    → size + 16 + b.board_mem_size < 2 ^ 32
    → AllocOutcome b size (board_alloc size b)
unfolding board_alloc
board_alloc-AllocOutcome size b v small =
    let r = rounded_bounds size (omega arith) in
    handed-AllocOutcome size b v small _ (
      first_fit-Scanned (rounded size) b.board_alloc_offset _ r.0 r.3
        (omega (arith, v.fits, v.small)) 0 b.slots (omega arith) v.tiled)
