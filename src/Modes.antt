-- ===== src/Modes.antt =====
-- The mode table and its registration (src/chip/chip_modes.c).
pub mod Table
pub mod Register
pub mod Name
pub mod Unique
pub mod Complete
mod Tests
