-- ===== src/Virgl.antt =====
-- The encoder of Virgl 3D commands (src/chip/chip_virgl.c, include/virgl/virgl_cmd.h).
pub mod CmdBuf
pub mod Encode
pub mod Bytes
pub mod Emit
pub mod Stream
pub mod Perform
pub mod Host
pub mod Unpack
pub mod Submit
mod Tests
