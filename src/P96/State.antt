-- ===== src/P96/State.antt =====
-- The fields of `struct ChipGPUState` and of `struct BoardInfo` that the callbacks of
-- src/chip/chip_p96.c read and write, without the counters for statistics. A WORD is the number of
-- its 16 bits, a pointer that is NULL is 0.
use virt_iogpu.Prelude.{ℕ, ◌+◌, Bool, ◌||◌, Option, ◌==◌, if◌then◌else◌, List}
use virt_iogpu.Blit.Rect.{Format}
use virt_iogpu.Modes.Table.{ModeInfo}
use virt_iogpu.Flush.Screen.{Screen}
use virt_iogpu.Gpu.Command.{Call}
use virt_iogpu.P96.Resize.{Resize}

-- What the driver uses of `struct BoardInfo`. `mouse_image` is its bytes.
pub record BoardInfo : Type 0 where
  pub memory_base : ℕ
  pub mode_info : Option ModeInfo
  pub depth : ℕ
  pub rgb_format : Format
  pub x_offset : ℕ
  pub y_offset : ℕ
  pub clut : ℕ → ℕ
  pub mouse_x : ℕ
  pub mouse_y : ℕ
  pub mouse_width : ℕ
  pub mouse_height : ℕ
  pub mouse_x_offset : ℕ
  pub mouse_y_offset : ℕ
  pub mouse_image : Option (ℕ → ℕ)

-- The display's fields.
pub record Active : Type 0 where
  pub format : Format
  pub width : ℕ
  pub height : ℕ
  pub bpr : ℕ
  pub refresh_us : ℕ
  pub panning_mem : ℕ
  pub last_panning_mem : ℕ
  pub panning_width : ℕ
  pub pan_xoff : ℕ
  pub pan_yoff : ℕ
  pub palette : ℕ → ℕ
  pub clut_debug_done : Bool
  pub dpms_level : ℕ
  pub vbi_enabled : ℕ

-- The flush task as the callbacks see it, and the signals sent to it.
pub record Waker : Type 0 where
  pub flush_task : ℕ
  pub flush_sig_mask : ℕ
  pub signals : ℕ

unfoldable pub signal_activity : Waker → Waker
signal_activity w = record w {
  signals = if (w.flush_task == 0) || (w.flush_sig_mask == 0) then w.signals else w.signals + 1;
}

-- The cursor's fields; `pixels` is the buffer of 64 rows of 64 words, `memory` its address.
pub record Cursor : Type 0 where
  pub memory : ℕ
  pub phys : ℕ
  pub resource_id : ℕ
  pub created : Bool
  pub visible : Bool
  pub x : ℕ
  pub y : ℕ
  pub hot_x : ℕ
  pub hot_y : ℕ
  pub w : ℕ
  pub h : ℕ
  pub colors : ℕ → ℕ × ℕ × ℕ
  pub needs_refresh : Bool
  pub last_sent_x : ℕ
  pub last_sent_y : ℕ
  pub pixels : ℕ → ℕ
  -- The cursor queue and its buffer exist; the commands sent on it, the newest first.
  pub has_queue : Bool
  pub sent : List Call

pub record Chip : Type 0 where
  pub board : BoardInfo
  pub active : Active
  pub resize : Resize
  pub cursor : Cursor
  pub waker : Waker

-- What the flush reads.
abbrev pub shown_screen : Chip → Screen
shown_screen c = record {
  board_mem = c.board.memory_base;
  panning_mem = c.active.panning_mem;
  panning_width = c.active.panning_width;
  pan_xoff = c.active.pan_xoff;
  pan_yoff = c.active.pan_yoff;
  active_format = c.active.format;
  active_width = c.active.width;
  active_height = c.active.height;
  fb_mem = c.resize.fb.mem;
  fb_width = c.resize.fb.width;
  fb_height = c.resize.fb.height;
  fb_stride = c.resize.fb.stride;
}
