-- ===== src/P96.antt =====
-- The Picasso96 callbacks of the chip driver (src/chip/chip_p96.c).
pub mod Clock
pub mod Nearest
pub mod State
pub mod Resize
pub mod Resized
pub mod Fitted
pub mod Display
pub mod Palette
pub mod Cursor
pub mod Sprite
pub mod Bits
pub mod Image
pub mod Uploaded
pub mod Placement
pub mod Callbacks
pub mod Soundness
pub mod Kept
pub mod Inside
pub mod Vtable
pub mod Slots
pub mod Switch
pub mod Tasks
pub mod Tests
