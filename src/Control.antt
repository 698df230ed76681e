-- ===== src/Control.antt =====
-- The synchronous control queue: chip_wait_ctrlq and chip_do_io (src/chip/chip_gpu_cmds.c) with the
-- interrupt handler (src/chip/chip_irq.c).
pub mod Irq
pub mod Wait
pub mod Answered
mod Tests
