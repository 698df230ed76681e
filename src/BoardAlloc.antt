-- ===== src/BoardAlloc.antt =====
-- The board-memory allocator of src/chip/chip_alloc.c.
pub mod Slots
pub mod FirstFit
pub mod Alloc
pub mod Invariant
pub mod Coalesce
pub mod Free
pub mod RoundTrip
pub mod Wrap
mod Tests
