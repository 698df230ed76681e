-- ===== src/Lib.antt =====
-- A verification library of the VirtIO GPU driver: the parts of the driver that carry its own
-- logic, as definitions translated from the C source, with the theorems about them.
--
-- The driver talks to the device over virtqueues. A command is put into a virtqueue's descriptor
-- table and avail ring (VirtQueue_AddBuf), the device answers in the used ring, and the driver
-- takes the answer out (VirtQueue_GetBuf). Bitmaps live in board memory, which the allocator of
-- chip_alloc.c hands out. The 3D path collects Virgl commands in a buffer (chip_virgl.c) and
-- submits the buffer as the payload of one such command.
--
-- Prelude has lists, Boolean tests, arrays as functions and `|` of disjoint fields, for all parts.
-- Word has vr16, vr32, vr64 and GP32 (include/virtio/virtqueue.h, include/gpu/virtio_gpu_proto.h).
--
-- Virtqueue models src/virtio/virtqueue.c. State has the structures of include/virtio/virtqueue.h,
-- AddBuf VirtQueue_AddBuf, GetBuf VirtQueue_GetBuf, Allocate VirtQueue_Allocate and
-- VirtQueue_Free. Invariant says who owns a descriptor, DeviceView how a device reads a chain.
--
-- BoardAlloc models src/chip/chip_alloc.c. Slots has board_recalc_top, board_coalesce_at,
-- board_free, board_alloc, chip_AllocCardMem and chip_FreeCardMem; Invariant says what the table
-- means.
--
-- Virgl models src/chip/chip_virgl.c. CmdBuf has the buffer and its emit helpers of
-- include/virgl/virgl_cmd.h and virgl_submit, Encode one function for each virgl_cmd_ function and
-- virgl_upload_vertex_floats of src/chip/chip_virgl_2d.c; Stream gives the packet that each call
-- stands for, Host a host that splits a stream.
--
-- Control models the transaction on the control queue: Wait has chip_wait_ctrlq and chip_do_io of
-- src/chip/chip_gpu_cmds.c, on top of the functions of Virtqueue; Irq has the interrupt handler of
-- src/chip/chip_irq.c, and the stores of chip_wait_ctrlq as steps that it can come between.
--
-- Modes models src/chip/chip_modes.c. Table has the mode table and the structures of
-- include/p96/boardinfo.h, Register chip_add_mode and chip_register_modes.
--
-- Gpu models the commands of src/chip/chip_gpu_cmds.c and src/chip/chip_gpu_3d.c. Wire has the
-- structures of include/gpu/virtio_gpu_proto.h, Messages what each chip_ function writes into the
-- command buffer, Command the calls and Parse a host that reads them by the VirtIO standard. Request
-- has chip_gpu_send and the functions whose answer is a header, with chip_SetScanout's attempts and
-- the guards; Promise is their specification without words, Kept the refinement. Answers has
-- chip_GetDisplayInfo, chip_GetCapset and chip_QueryCapsets, Edid the parser of chip_GetEDID, Hotplug
-- chip_GetEDID and chip_handle_display_change on top of Modes.
--
-- Blit models src/chip/chip_blit.c. Memory has its row helpers, Rect chip_FillRect, chip_InvertRect,
-- chip_BlitRect and chip_BlitRectNoMaskComplete, Pixels the loops over pixels, Expand
-- chip_BlitTemplate, chip_BlitPattern and the two planar blits.
--
-- Flush models src/chip/chip_flush.c: Convert the pixel converters, Screen chip_convert_rect and
-- the clipping of chip_flush, Frames chip_swap_buffers and chip_flush_all, Loop the flush task's
-- iterations with the rendezvous of chip_WaitVerticalSync, Task how the flush task begins and ends.
-- Panned says what the screen shows without those definitions. The path of chip_flush_all with two
-- framebuffers is dead code: src/chip/chip_init.c sets double_buffer to FALSE and fb_mem2 to NULL;
-- it is modelled, and no theorem is about it.
--
-- P96 models the callbacks of src/chip/chip_p96.c. State has their part of the driver's state and of
-- BoardInfo, Clock the pixel clocks and the beam, Display the modes, panning, the palette and the power,
-- Sprite the sprite, Switch chip_SetSwitch and chip_SetDisplay, Vtable the function table with the
-- parts of src/chip/chip_alloc.c and src/chip/chip_blit.c. Resize has chip_resize_fb_to_mode of
-- src/chip/chip_init.c and Cursor the cursor's functions of src/chip/chip_gpu_cmds.c, which they
-- call. Callbacks is any sequence of calls, with what the library writes between them;
-- the features that chip_TransferToHost2D asks for (fb_is_blob, fb_resource_id) stay those of the
-- start in it, which decides only whether that command is sent. Bits has the bytes of a sprite.
--
-- Numbers are natural numbers, and a sum that the C code computes in uint16 or uint32 has its
-- `% 2 ^ 16` or `% 2 ^ 32` written out. C arrays are functions of the index or lists of the part
-- that is in use. Pointers are numbers, and 0 is NULL. A float is its bit pattern.
--
-- The loop of VirtQueue_GetBuf over a chain runs on fuel of 2 ^ 16 + 1 rounds, one more than there
-- are 16-bit indices; the theorem about get_buf says that a pending request's chain ends before.
-- The byte loops of the encoder run on fuel of as many rounds as there are bytes, of which they
-- take four in each round. The digits of a 16-bit number take at most five rounds. The walk over an
-- EDID extension has seven rounds of fuel, of which it needs six. All other loops are structural.
--
-- The operating system is a parameter: the addresses that AllocVecTags, StartDMA, GetDMAList and
-- AllocSysObjectTags answer are arguments (OsAnswer), 0 where a call fails, and an address from
-- AllocVecTags is taken to be one that is not in use. So is chip_Submit3D's answer in virgl_submit.
-- What the device does to a virtqueue between two calls of VirtQueue_GetBuf is the argument
-- `device` of chip_wait_ctrlq, whose loops make 50 or a million attempts as in the source; that the
-- task sleeps between attempts is not modelled.
--
-- The outcome of chip_do_io for the newest request of a log is the parameter `host` of Gpu: how many
-- bytes the device has written, 0 where no answer came in time, and the words of the response. The
-- memory that the blitter changes is a function of the address; a long is its four bytes, and the
-- memory that a template, a pattern, planes or the shown bitmap are read from is another function.
-- CopyMem and CopyMemQuick are parameters that copy what does not overlap. Coordinates of the
-- blitter are not negative; those of chip_flush and of the panning are WORDs by their 16 bits.
--
-- Not modelled: memory barriers (eieio), cache maintenance and the mutex around the slot table,
-- since the operations are taken one at a time; debug output; floating-point arithmetic; PCI access
-- and the start of the device (the rest of src/chip/chip_init.c), the wait for a cursor command,
-- chip_DrawLine, statistics and profiling, compositing, MiniGL and the tools. The callbacks of P96
-- are taken after the start, when neither the driver's state nor BoardInfo is NULL.
pub mod Prelude
pub mod Word
pub mod Virtqueue
pub mod BoardAlloc
pub mod Virgl
pub mod Modes
pub mod P96
pub mod Control
pub mod Gpu
pub mod Blit
pub mod Flush
