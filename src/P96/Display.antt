-- ===== src/P96/Display.antt =====
-- The callbacks of src/chip/chip_p96.c for modes, panning, the palette and the display's power.
-- `kernel` and `host` are what the kernel and the device answer; chip_SetDAC, which only logs,
-- changes nothing.
use virt_iogpu.Prelude.{
  ℕ, zero, suc, ◌+◌, ◌*◌, Bool, true, false, ◌&&◌, ◌||◌, not, Option, none, some, ltb, leb, ◌==◌,
  if◌then◌else◌, update,
}
use virt_iogpu.Blit.Rect.{Format, format_bpp, is_clut}
use virt_iogpu.Modes.Table.{ModeInfo}
use virt_iogpu.Gpu.Wire.{Rect}
use virt_iogpu.Gpu.Command.{Command}
use virt_iogpu.Gpu.Request.{Host, Features, perform}
use virt_iogpu.Flush.Convert.{pack}
use virt_iogpu.Flush.Screen.{smaller}
use virt_iogpu.P96.Clock.{compute_refresh_us}
use virt_iogpu.P96.Resize.{Memory, resize_fb_to_mode}
use virt_iogpu.P96.State.{Active, Chip, signal_activity}

-- Different numbers for different formats.
unfoldable pub format_number : Format → ℕ
format_number Format.clut = 0
format_number Format.r8g8b8 = 1
format_number Format.b8g8r8 = 2
format_number Format.r5g6b5pc = 3
format_number Format.r5g5b5pc = 4
format_number Format.r5g6b5 = 5
format_number Format.r5g5b5 = 6
format_number Format.b5g6r5pc = 7
format_number Format.b5g5r5pc = 8
format_number Format.a8r8g8b8 = 9
format_number Format.a8b8g8r8 = 10
format_number Format.r8g8b8a8 = 11
format_number Format.b8g8r8a8 = 12

abbrev pub same_format : Format → Format → Bool
same_format f f' = format_number f == format_number f'

abbrev pub format_of_depth : ℕ → Format
format_of_depth depth =
    if leb depth 8 then Format.clut else if leb depth 16 then Format.r5g6b5 else Format.a8r8g8b8

abbrev pub signalled : Chip → Chip
signalled c = record c { waker = signal_activity c.waker }

-- The fields of BoardInfo that follow the mode, and the interval, which follows it in every case.
abbrev pub announced : ModeInfo → Chip → Chip
announced mi c = record c {
  board = record c.board {
    mode_info = some mi;
    depth = mi.depth;
    rgb_format = format_of_depth mi.depth;
  };
  active = record c.active { refresh_us = compute_refresh_us (some mi) };
}

abbrev pub is_unchanged : ModeInfo → Active → Bool
is_unchanged mi a =
    ((a.width == mi.width) && (a.height == mi.height))
    && same_format a.format (format_of_depth mi.depth)

abbrev pub activated : ModeInfo → Chip → Chip
activated mi c = record c {
  active = record c.active {
    format = format_of_depth mi.depth;
    width = mi.width;
    height = mi.height;
    bpr = mi.width * format_bpp (format_of_depth mi.depth);
  };
}

module _ (g : Features) (host : Host) (kernel : Memory) where
  -- The framebuffer follows the mode where the size has changed.
  unfoldable pub refit : Bool → Chip → Chip
  refit dims_changed c =
      let resized = resize_fb_to_mode g host kernel c.active.width c.active.height c.resize in
      if dims_changed && not (c.resize.fb.mem == 0)
      then record c { resize = resized.1; cursor = record c.cursor { needs_refresh = true } }
      else c

  -- `none` is a mode that is NULL.
  unfoldable pub set_gc : Option ModeInfo → Chip → Chip
  set_gc none c = c
  set_gc (some mi) c =
      let dims_changed = not (c.active.width == mi.width) || not (c.active.height == mi.height) in
      if is_unchanged mi c.active
      then announced mi c
      else signalled (refit dims_changed (activated mi (announced mi c)))

unfoldable pub set_panning : ℕ → ℕ → ℕ → ℕ → Format → Chip → Chip
set_panning mem width x_off y_off format c =
    let board = record c.board { x_offset = x_off; y_offset = y_off } in
    let panned = record c.active {
      panning_mem = mem;
      last_panning_mem = mem;
      panning_width = width;
      pan_xoff = x_off;
      pan_yoff = y_off;
    } in
    let active =
      if same_format format c.active.format
      then panned
      else record panned { format = format; bpr = width * format_bpp format } in
    signalled (record c { board = board; active = if mem == 0 then c.active else active })

-- `bi->CLUT` holds R, G, B triplets.
abbrev pub clut_entry : (ℕ → ℕ) → ℕ → ℕ
clut_entry clut i = pack (clut (i * 3)) (clut (i * 3 + 1)) (clut (i * 3 + 2))

-- The loop from entry `i` on, for at most `rounds` entries.
unfoldable pub load_colors : ℕ → ℕ → (ℕ → ℕ) → (ℕ → ℕ) → ℕ → ℕ
load_colors zero i clut palette = palette
load_colors (suc rounds) i clut palette =
    let rest = load_colors rounds (i + 1) clut (update palette i (clut_entry clut i)) in
    if ltb i 256 then rest else palette

unfoldable pub set_color_array : ℕ → ℕ → Chip → Chip
set_color_array start count c =
    let loaded = record c {
      active = record c.active { palette = load_colors count start c.board.clut c.active.palette };
    } in
    if is_clut c.active.format && ltb 1 count
    then signalled (record loaded { active = record loaded.active { clut_debug_done = false } })
    else loaded

unfoldable pub set_interrupt : Bool → Chip → Bool × Chip
set_interrupt enable c =
    (true, record c { active = record c.active { vbi_enabled = if enable then 1 else 0 } })

module _ (g : Features) (host : Host) where
  -- SET_SCANOUT for scanout 0.
  unfoldable pub set_scanout : ℕ → ℕ → ℕ → Chip → Chip
  set_scanout id w h c =
      let rect : Rect = record { x = 0; y = 0; width = w; height = h } in
      record c {
        resize = record c.resize {
          log = (perform g host (Command.scanout 0 id rect) (λ i. 0) c.resize.log).1;
        };
      }

  -- Level 0 is DPMS_ON.
  unfoldable pub set_dpms_level : ℕ → Chip → Chip
  set_dpms_level level old =
      let c = record old { active = record old.active { dpms_level = level } } in
      let fb = c.resize.fb in
      let w = smaller c.active.width fb.width in
      let h = smaller c.active.height fb.height in
      if level == 0 then signalled (set_scanout fb.resource_id w h c) else set_scanout 0 0 0 c
