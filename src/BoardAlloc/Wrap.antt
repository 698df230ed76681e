-- ===== src/BoardAlloc/Wrap.antt =====
-- Where the uint32 sums of board_alloc (src/chip/chip_alloc.c) wrap.
use virt_iogpu.Prelude.{
  ℕ, ◌+◌, ◌-◌, ◌%◌, ◌^◌, ◌≤◌, ◌<◌, ◌≡◌, refl, Bool, true, List, [], ◌∷◌, none, some, arith, All,
  length, ltb, le→not_ltb, lt→not_leb,
}
use virt_iogpu.BoardAlloc.Slots.{
  Slot, Board, max_board_allocs, first_fit, extend, board_alloc, rounded,
}
use virt_iogpu.BoardAlloc.Invariant.{Inv}

first_fit-used :
    (size : ℕ) (room : Bool) (slots : List Slot)
    → All (λ a. a.used ≡ true) slots
    → first_fit size room slots ≡ none
unfolding first_fit
first_fit-used size room [] h = refl
first_fit-used size room (a ∷ rest) h = ground (arith, first_fit-used size room rest h.1)

-- A request of more than 2 ^ 32 - 16 bytes is rounded up to 16 bytes, not refused.
rounded_wraps : (size : ℕ) → 2 ^ 32 - 16 < size → size < 2 ^ 32 → rounded size ≡ 16
unfolding rounded
rounded_wraps size h k = ground arith

rounded_exact : (size : ℕ) → size % 16 ≡ 0 → 0 < size → size < 2 ^ 32 → rounded size ≡ size
unfolding rounded
rounded_exact size even pos word = ground arith

board_alloc-extend :
    (size : ℕ) (b : Board)
    → All (λ a. a.used ≡ true) b.slots
    → board_alloc size b ≡ extend (rounded size) b
unfolding board_alloc
board_alloc-extend size b used = rw (
  board_alloc,
  first_fit-used (rounded size) (ltb (length b.slots) max_board_allocs) b.slots used,
)

-- A request that is larger than the board memory succeeds where the uint32 sum of the top and the
-- rounded size wraps: board_alloc hands out the address of the top, and the top moves down, into
-- memory that is in use. Conditions: a well-formed table with no hole, at least 16 bytes in use,
-- room in the table, and a size that is a multiple of 16 and wraps to a top inside the memory.
board_alloc_wraps :
    (size : ℕ) (b : Board)
    → Inv b
    → All (λ a. a.used ≡ true) b.slots
    → length b.slots < max_board_allocs
    → size % 16 ≡ 0
    → b.board_mem_size < size
    → size < 2 ^ 32
    → 2 ^ 32 ≤ b.board_alloc_offset + size
    → ((board_alloc size b).0 ≡ some ((b.board_mem + b.board_alloc_offset) % 2 ^ 32))
      × ((board_alloc size b).1.board_alloc_offset < b.board_alloc_offset)
unfolding extend
board_alloc_wraps size b v used room even large word wraps =
    let exact : rounded size ≡ size = rounded_exact size even (omega arith) word in
    let sum : (b.board_alloc_offset + size) % 2 ^ 32 + 2 ^ 32 ≡ b.board_alloc_offset + size =
      omega (arith, v.fits, v.small) in
    rw
      (
        board_alloc-extend size b used,
        exact,
        extend,
        le→not_ltb b.board_mem_size ((b.board_alloc_offset + size) % 2 ^ 32)
            (omega (arith, sum, v.fits)),
        lt→not_leb max_board_allocs (length b.slots) room,
      )
      (refl, omega (arith, sum))
