-- ===== src/BoardAlloc/Slots.antt =====
-- The slot table of src/chip/chip_alloc.c and the functions on it: board_recalc_top,
-- board_coalesce_at, board_free and board_alloc. The first `num_board_allocs` entries of the
-- array are a list, so that the shifting loops insert and remove an element.
use virt_iogpu.Prelude.{
  ℕ, zero, suc, ◌+◌, ◌-◌, ◌*◌, ◌/◌, ◌%◌, ◌^◌, Bool, true, false, ◌&&◌, ◌||◌, List, [], ◌∷◌, ◌++◌,
  Option, none, some, ltb, leb, ◌==◌, if◌then◌else◌, length,
}

-- MAX_BOARD_ALLOCS
unfoldable pub max_board_allocs : ℕ
max_board_allocs = 512

pub record Slot : Type 0 where
  pub offset : ℕ
  pub size : ℕ
  pub used : Bool

-- The table, and the fields of `struct ChipGPUState` that the allocator uses.
pub record Board : Type 0 where
  pub slots : List Slot
  pub board_alloc_offset : ℕ
  pub board_mem : ℕ
  pub board_mem_size : ℕ

-- The end of the last slot.
unfoldable pub top_of : List Slot → ℕ
top_of [] = 0
top_of (a ∷ []) = (a.offset + a.size) % 2 ^ 32
top_of (a ∷ b ∷ rest) = top_of (b ∷ rest)

unfoldable pub recalc_top : Board → Board
recalc_top b = record b { board_alloc_offset = top_of b.slots }

-- `a` takes over what `b`, the slot behind it, covers.
abbrev pub merged : Slot → Slot → Slot
merged a b = record a { size = (a.size + b.size) % 2 ^ 32 }

-- Slot `i` takes over its successor, if that is free.
unfoldable pub merge_next : ℕ → List Slot → List Slot
merge_next i [] = []
merge_next zero (a ∷ []) = a ∷ []
merge_next zero (a ∷ b ∷ rest) = if b.used then a ∷ b ∷ rest else merged a b ∷ rest
merge_next (suc i) (a ∷ rest) = a ∷ merge_next i rest

-- The predecessor of slot `i`, if there is one and it is free, takes slot `i` over.
unfoldable pub merge_prev : ℕ → List Slot → List Slot
merge_prev i [] = []
merge_prev i (a ∷ []) = a ∷ []
merge_prev zero (a ∷ b ∷ rest) = a ∷ b ∷ rest
merge_prev (suc zero) (a ∷ b ∷ rest) = if a.used then a ∷ b ∷ rest else merged a b ∷ rest
merge_prev (suc (suc i)) (a ∷ b ∷ rest) = a ∷ merge_prev (suc i) (b ∷ rest)

-- `rest` has lost its trailing free slots already.
unfoldable pub drop_free : Slot → List Slot → List Slot
drop_free a [] = if a.used then a ∷ [] else []
drop_free a (b ∷ rest) = a ∷ b ∷ rest

unfoldable pub drop_trailing : List Slot → List Slot
drop_trailing [] = []
drop_trailing (a ∷ rest) = drop_free a (drop_trailing rest)

-- board_coalesce_at. The predecessor's test reads the table after the successor is merged.
unfoldable pub coalesce_at : ℕ → Board → Board
coalesce_at i b =
    recalc_top (record b { slots = drop_trailing (merge_prev i (merge_next i b.slots)) })

-- The index of the first used slot at `target`.
unfoldable pub find_used : ℕ → List Slot → Option ℕ
find_used target [] = none
find_used target (a ∷ rest) =
    if (a.offset == target) && a.used
    then some 0
    else elim (find_used target rest) [ none ↦ none | some i ↦ some (suc i) ]

unfoldable pub mark_free : ℕ → List Slot → List Slot
mark_free i [] = []
mark_free zero (a ∷ rest) = record a { used = false } ∷ rest
mark_free (suc i) (a ∷ rest) = a ∷ mark_free i rest

-- board_free of an address; the answer is whether a slot was found. A board_mem of 0 is NULL.
unfoldable pub board_free : ℕ → Board → Bool × Board
board_free mem b =
    if (b.board_mem == 0) || (mem == 0)
    then (false, b)
    else elim (find_used ((mem + 2 ^ 32 - b.board_mem) % 2 ^ 32) b.slots) [
      | none ↦ (false, b)
      | some i ↦ (true, coalesce_at i (record b { slots = mark_free i b.slots }))
    ]

-- The size that a request is rounded up to: a multiple of 16 and not 0.
unfoldable pub rounded : ℕ → ℕ
rounded size = let up = (size + 15) % 2 ^ 32 / 16 * 16 in if up == 0 then 16 else up

-- A hole of exactly the size, a hole that is split, or a whole hole where the table is full.
unfoldable pub take_hole : ℕ → Bool → Slot → List Slot → List Slot
take_hole size room a rest =
    if a.size == size
    then record a { used = true } ∷ rest
    else if room
    then record a { size = size; used = true }
      ∷ record a { offset = (a.offset + size) % 2 ^ 32; size = a.size - size }
      ∷ rest
    else record a { used = true } ∷ rest

-- The first-fit scan: the offset and the table after it. `room` says that the table is not full.
unfoldable pub first_fit : ℕ → Bool → List Slot → Option (ℕ × List Slot)
first_fit size room [] = none
first_fit size room (a ∷ rest) =
    let later : Option (ℕ × List Slot) = elim (first_fit size room rest) [
      | none ↦ none
      | some (o, rest') ↦ some (o, a ∷ rest')
    ] in
    if a.used
    then later
    else if ltb a.size size
    then later
    else some (a.offset, take_hole size room a rest)

-- The extension at the top of the memory.
unfoldable pub extend : ℕ → Board → Option ℕ × Board
extend size b =
    if ltb b.board_mem_size ((b.board_alloc_offset + size) % 2 ^ 32)
    then (none, b)
    else if leb max_board_allocs (length b.slots)
    then (none, b)
    else (
      some ((b.board_mem + b.board_alloc_offset) % 2 ^ 32),
      record b {
        slots =
            b.slots ++ (record { offset = b.board_alloc_offset; size = size; used = true } ∷ []);
        board_alloc_offset = (b.board_alloc_offset + size) % 2 ^ 32;
      },
    )

-- board_alloc: the address, or `none` for NULL.
unfoldable pub board_alloc : ℕ → Board → Option ℕ × Board
board_alloc size b =
    elim (first_fit (rounded size) (ltb (length b.slots) max_board_allocs) b.slots) [
      | none ↦ extend (rounded size) b
      | some (o, slots) ↦ (some ((b.board_mem + o) % 2 ^ 32), record b { slots = slots })
    ]

-- chip_AllocCardMem and chip_FreeCardMem, the vtable's entries.
unfoldable pub alloc_card_mem : ℕ → Board → Option ℕ × Board
alloc_card_mem size b = if b.board_mem == 0 then (none, b) else board_alloc size b

unfoldable pub free_card_mem : ℕ → Board → Bool × Board
free_card_mem mem b = board_free mem b
