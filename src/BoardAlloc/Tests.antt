-- ===== src/BoardAlloc/Tests.antt =====
-- Runs of src/chip/chip_alloc.c on a small board.
use virt_iogpu.Prelude.{ℕ, ◌≡◌, refl, true, false, [], ◌∷◌, some, arith}
use virt_iogpu.BoardAlloc.Slots.{
  Board, board_alloc, board_free, rounded, first_fit, max_board_allocs, take_hole, find_used,
  mark_free, coalesce_at, merge_next, merge_prev, drop_trailing, drop_free, recalc_top, top_of,
}
use virt_iogpu.BoardAlloc.Invariant.{Inv, owners}
use virt_iogpu.BoardAlloc.Alloc.{AllocOutcome, board_alloc-AllocOutcome}
use virt_iogpu.BoardAlloc.Free.{FreeOutcome, offset_of, board_free-FreeOutcome}
use virt_iogpu.BoardAlloc.RoundTrip.{free-alloc, free-free}

-- A hole of 32 bytes between two blocks, in 1 KiB at 0x10000.
abbrev board : Board
board = record {
  slots =
      record { offset = 0; size = 16; used = true }
      ∷ record { offset = 16; size = 32; used = false }
      ∷ record { offset = 48; size = 64; used = true }
      ∷ [];
  board_alloc_offset = 112;
  board_mem = 65536;
  board_mem_size = 1024;
}

-- After 16 bytes are taken from the hole.
abbrev taken : Board
taken = record board {
  slots =
      record { offset = 0; size = 16; used = true }
      ∷ record { offset = 16; size = 16; used = true }
      ∷ record { offset = 32; size = 16; used = false }
      ∷ record { offset = 48; size = 64; used = true }
      ∷ [];
}

-- One block, and no hole.
abbrev full : Board
full = record board { slots = record { offset = 0; size = 112; used = true } ∷ [] }

board-Inv : Inv board
unfolding max_board_allocs
board-Inv = record {
  tiled = ground arith;
  fits = omega arith;
  small = omega arith;
  table = omega arith;
  aligned = refl;
}

full-Inv : Inv full
unfolding max_board_allocs
full-Inv = record {
  tiled = ground arith;
  fits = omega arith;
  small = omega arith;
  table = omega arith;
  aligned = refl;
}

board_alloc-taken : board_alloc 10 board ≡ (some 65552, taken)
unfolding board_alloc first_fit rounded max_board_allocs take_hole
board_alloc-taken = refl

board_alloc-AllocOutcome_example : AllocOutcome board 10 (board_alloc 10 board)
board_alloc-AllocOutcome_example = board_alloc-AllocOutcome 10 board board-Inv (omega arith)

-- The last block, so that the hole before it goes too.
board_free-FreeOutcome_example : FreeOutcome (offset_of 65584 board) board (board_free 65584 board)
board_free-FreeOutcome_example =
    board_free-FreeOutcome 65584 board board-Inv (omega arith) (omega arith)

free-alloc_example :
    let (found, b2) = board_free 65552 taken in
    (found ≡ true) × ((x : ℕ) → owners x b2.slots ≡ owners x board.slots) × Inv b2
free-alloc_example =
    free-alloc 10 65552 board taken board-Inv
      (record { present = omega arith; addressable = omega arith }) (omega arith) (omega arith)
      board_alloc-taken

abbrev first_freed : Board
first_freed = record board {
  slots = record { offset = 0; size = 16; used = true } ∷ [];
  board_alloc_offset = 16;
}

board_free-first_freed : board_free 65584 board ≡ (true, first_freed)
unfolding board_free find_used mark_free coalesce_at merge_next merge_prev drop_trailing drop_free
    recalc_top top_of
board_free-first_freed = refl

free-free_example : board_free 65584 first_freed ≡ (false, first_freed)
free-free_example =
    free-free 65584 board first_freed board-Inv (omega arith) (omega arith) board_free-first_freed
