-- ===== src/Flush.antt =====
-- The flush of the screen to the GPU (src/chip/chip_flush.c).
pub mod Convert
pub mod Panned
pub mod Screen
pub mod Shown
pub mod Wakes
pub mod Frames
pub mod Presented
pub mod Loop
pub mod Vsync
pub mod Task
pub mod Tests
