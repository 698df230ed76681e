-- ===== src/P96/Cursor.antt =====
-- The cursor's operations of src/chip/chip_gpu_cmds.c: its buffer and resource, and the commands on
-- the cursor queue, up to the wait for the device, which changes nothing of this state.
use virt_iogpu.Prelude.{
  ℕ, ◌*◌, ◌%◌, ◌^◌, Bool, true, false, ◌&&◌, not, List, ◌∷◌, ◌==◌, if◌then◌else◌,
}
use virt_iogpu.Gpu.Wire.{Rect}
use virt_iogpu.Gpu.Command.{Command, Call}
use virt_iogpu.Gpu.Request.{Log, Host, Features, perform}
use virt_iogpu.Flush.Screen.{positive}
use virt_iogpu.P96.Resize.{Use, Memory, no_list, fail_dma, memory_taken}
use virt_iogpu.P96.State.{Cursor, Chip}

-- The bytes of 64 rows of 64 words.
abbrev pub cursor_size : ℕ
cursor_size = 64 * 64 * 4

-- `accepted` is whether VirtQueue_AddBuf returned 0; a command that is not accepted is dropped.
unfoldable pub cursor_send : Bool → Call → Cursor → Cursor
cursor_send accepted c cur = record cur {
  sent = if cur.has_queue && accepted then c ∷ cur.sent else cur.sent;
}

module _ (g : Features) (host : Host) (kernel : Memory) where
  abbrev pub no_stream : Call → Log → Bool × Log
  no_stream c log = perform g host c (λ i. 0) log

  abbrev pub without_buffer : Cursor → Cursor
  without_buffer cur = record cur { memory = 0 }

  abbrev pub filled_in : Cursor → Cursor
  filled_in cur = record cur {
    memory = kernel.block;
    phys = (kernel.entries 0).addr % 2 ^ 32;
    resource_id = 2;
  }

  -- All is given back, but for a resource of the device.
  abbrev pub lost_cursor : Log → Chip → Chip
  lost_cursor log c = record c {
    cursor = without_buffer (filled_in c.cursor);
    resize = record c.resize {
      log = log;
      uses = fail_dma kernel cursor_size (memory_taken kernel cursor_size c.resize.uses);
    };
  }

  -- The part behind GetDMAList: the resource 2, of which one entry is attached.
  unfoldable pub make_cursor : Chip → Bool × Chip
  make_cursor c =
      let create = no_stream (Command.new_2d 2 1 64 64) c.resize.log in
      let attach = no_stream (Command.attach 2 (kernel.entries, 1)) create.1 in
      let made = record c {
        cursor = record (filled_in c.cursor) { created = true };
        resize = record c.resize {
          log = attach.1;
          uses = Use.free_list kernel.dma_list ∷ memory_taken kernel cursor_size c.resize.uses;
        };
      } in
      if create.0
      then if attach.0 then (true, made) else (false, lost_cursor attach.1 c)
      else (false, lost_cursor create.1 c)

  abbrev pub failed_with : List Use → Chip → Bool × Chip
  failed_with uses c = (
    false,
    record c { cursor = without_buffer c.cursor; resize = record c.resize { uses = uses } },
  )

  -- The queue stands for `gs->vqs[VIRTIO_GPU_CURSQ]`, which is not NULL where the buffer is there.
  unfoldable pub cursor_create : Chip → Bool × Chip
  cursor_create c =
      let block = kernel.block in
      if c.cursor.created
      then (true, c)
      else if not c.cursor.has_queue
      then (false, c)
      else if block == 0
      then failed_with c.resize.uses c
      else if kernel.dma_count == 0
      then failed_with (Use.free_vec block ∷ Use.alloc_vec block ∷ c.resize.uses) c
      else if kernel.dma_list == 0
      then failed_with (no_list kernel cursor_size c.resize.uses) c
      else make_cursor c

abbrev pub cursor_rect : Rect
cursor_rect = record { x = 0; y = 0; width = 64; height = 64 }

module _ (g : Features) (host : Host) (accepted : Bool) where
  -- The image goes by the control queue, the position by the cursor queue.
  unfoldable pub cursor_update : ℕ → ℕ → Chip → Chip
  cursor_update hot_x hot_y c =
      let cur = c.cursor in
      let log =
        (perform g host (Command.to_host_2d cur.resource_id cursor_rect 0) (λ i. 0)
          c.resize.log).1 in
      let update =
        Command.update_cursor cur.resource_id (positive cur.x) (positive cur.y) hot_x hot_y in
      let sent = cursor_send accepted update cur in
      if cur.created
      then record c {
        resize = record c.resize { log = log };
        cursor = record sent { last_sent_x = cur.x; last_sent_y = cur.y };
      }
      else c

unfoldable pub cursor_move : Bool → ℕ → ℕ → Cursor → Cursor
cursor_move accepted x y cur =
    let moved = record cur { x = x; y = y } in
    let move = Command.move_cursor cur.resource_id (positive x) (positive y) 0 0 in
    if cur.created then cursor_send accepted move moved else cur

unfoldable pub cursor_hide : Bool → Cursor → Cursor
cursor_hide accepted cur =
    if cur.created then cursor_send accepted (Command.update_cursor 0 0 0 0 0) cur else cur
