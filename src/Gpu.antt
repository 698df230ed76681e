-- ===== src/Gpu.antt =====
-- The GPU commands of src/chip/chip_gpu_cmds.c and src/chip/chip_gpu_3d.c.
pub mod Wire
pub mod Messages
pub mod Command
pub mod Parse
pub mod Decode
pub mod Request
pub mod Promise
pub mod Kept
pub mod Answers
pub mod Edid
pub mod Hotplug
pub mod Tests
