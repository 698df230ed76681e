-- ===== src/Blit.antt =====
-- The blitter of src/chip/chip_blit.c.
pub mod Memory
pub mod Rect
pub mod Units
pub mod Area
pub mod Clearance
pub mod Moved
pub mod Rops
pub mod Nmc
pub mod Fill
pub mod Pixels
pub mod Expand
pub mod Planes
pub mod Expanded
pub mod Tests
