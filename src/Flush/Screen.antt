-- ===== src/Flush/Screen.antt =====
-- chip_convert_rect and the clipping of chip_flush (src/chip/chip_flush.c). The bitmap that is read
-- is the function `bits`, of which the framebuffer is no part.
use virt_iogpu.Prelude.{
  ℕ, ◌+◌, ◌-◌, ◌*◌, ◌%◌, ◌^◌, Bool, true, false, ◌||◌, ltb, leb, ◌==◌, if◌then◌else◌, Option, none,
  some,
}
use virt_iogpu.Blit.Memory.{Mem}
use virt_iogpu.Blit.Rect.{Format, format_bpp, no_area, colored}
use virt_iogpu.Blit.Pixels.{Ink, paint}
use virt_iogpu.Flush.Convert.{pick_row_converter}

-- The fields of `struct ChipGPUState` about the screen; the offsets are WORDs, by their 16 bits.
pub record Screen : Type 0 where
  pub board_mem : ℕ
  pub panning_mem : ℕ
  pub panning_width : ℕ
  pub pan_xoff : ℕ
  pub pan_yoff : ℕ
  pub active_format : Format
  pub active_width : ℕ
  pub active_height : ℕ
  pub fb_mem : ℕ
  pub fb_width : ℕ
  pub fb_height : ℕ
  pub fb_stride : ℕ

abbrev pub smaller : ℕ → ℕ → ℕ
smaller a b = if ltb a b then a else b

abbrev pub max_w : Screen → ℕ
max_w s = smaller s.active_width s.fb_width

abbrev pub max_h : Screen → ℕ
max_h s = smaller s.active_height s.fb_height

-- A WORD as an int, or 0 where it is negative.
abbrev pub positive : ℕ → ℕ
positive v = if ltb v (2 ^ 15) then v else 0

-- `if (x + w > max) w = max - x` on uint32.
unfoldable pub clamp_extent : ℕ → ℕ → ℕ → ℕ
clamp_extent limit x w = if ltb limit ((x + w) % 2 ^ 32) then (limit + 2 ^ 32 - x) % 2 ^ 32 else w

-- `if (pan + visible > limit) pan = limit > visible ? limit - visible : 0`
unfoldable pub clamp_pan : ℕ → ℕ → ℕ → ℕ
clamp_pan limit visible pan =
    if ltb limit (pan + visible) then if ltb visible limit then limit - visible else 0 else pan

-- A pixel of `bpp` bytes, as the processor loads it: the highest byte first.
unfoldable pub load_pixel : (ℕ → ℕ) → ℕ → ℕ → ℕ
load_pixel bits bpp a =
    if bpp == 1
    then bits a
    else if bpp == 2
    then bits a * 2 ^ 8 + bits (a + 1)
    else bits a * 2 ^ 24 + bits (a + 1) * 2 ^ 16 + bits (a + 2) * 2 ^ 8 + bits (a + 3)

abbrev pub src_base : Screen → ℕ
src_base s = if s.panning_mem == 0 then s.board_mem else s.panning_mem

-- The width of the bitmap that is shown.
abbrev pub shown_width : Screen → ℕ
shown_width s = if s.panning_width == 0 then s.active_width else s.panning_width

abbrev pub pan_x : Screen → ℕ
pan_x s = clamp_pan (shown_width s) (max_w s) (positive s.pan_xoff)

abbrev pub pan_y : Screen → ℕ
pan_y s = clamp_pan s.fb_height (max_h s) (positive s.pan_yoff)

-- Where the pixel of the bitmap stands that is shown at column `px` and row `py`.
abbrev pub source_at : Screen → ℕ → ℕ → ℕ
source_at s px py =
    let bpp = format_bpp s.active_format in
    src_base s + (py + pan_y s) * (shown_width s * bpp) + (px + pan_x s) * bpp

abbrev pub shown_ink : Screen → (ℕ → ℕ) → (ℕ → ℕ) → ℕ → ℕ → ℕ → ℕ → Ink
shown_ink s bits conv x y row col k old =
    colored 4
      (conv (load_pixel bits (format_bpp s.active_format) (source_at s (x + col) (y + row)))) k 0
      old

-- The loop over the rows, by a converter.
unfoldable pub convert_rows : Screen → (ℕ → ℕ) → (ℕ → ℕ) → ℕ → ℕ → ℕ → ℕ → ℕ → Mem → Mem
convert_rows s bits conv dst x y w h mem =
    paint (shown_ink s bits conv x y) 4 4 w h 0 (dst + y * s.fb_stride + x * 4) s.fb_stride mem

abbrev pub convert_by : Option (ℕ → ℕ) → Screen → (ℕ → ℕ) → ℕ → ℕ → ℕ → ℕ → ℕ → Mem → Mem
convert_by none s bits dst x y w h mem = mem
convert_by (some conv) s bits dst x y w h mem = convert_rows s bits conv dst x y w h mem

unfoldable pub convert_rect : Screen → (ℕ → ℕ) → (ℕ → ℕ) → ℕ → ℕ → ℕ → ℕ → ℕ → Mem → Mem
convert_rect s palette bits dst x y w h mem =
    let w' = clamp_extent (max_w s) x w in
    let h' = clamp_extent (max_h s) y h in
    if ((src_base s == 0) || (dst == 0)) || no_area w' h'
    then mem
    else convert_by (pick_row_converter s.active_format palette) s bits dst x y w' h' mem

-- The end of a range that begins at the WORD `x`; 0 where it is not above 0.
abbrev pub range_end : ℕ → ℕ → ℕ
range_end x w = if ltb x (2 ^ 15) then x + w else x + w - 2 ^ 16

-- Whether chip_flush wakes the flush task, for a rectangle at a place that may be negative.
unfoldable pub flush_wakes : Screen → ℕ → ℕ → ℕ → ℕ → Bool
flush_wakes s x y w h =
    let x0 = positive x in
    let y0 = positive y in
    let x1 = smaller (range_end x w) (max_w s) in
    let y1 = smaller (range_end y h) (max_h s) in
    if s.fb_mem == 0 then false else if leb x1 x0 || leb y1 y0 then false else true
