-- ===== src/Blit/Expand.antt =====
-- chip_BlitTemplate, chip_BlitPattern, chip_BlitPlanar2Chunky and chip_BlitPlanar2Direct
-- (src/chip/chip_blit.c), as far as they change the bitmap. The memory that they read, of which the
-- bitmap is no part, is the function `bits`. Coordinates and strides are not negative.
use virt_iogpu.Prelude.{
  ℕ, zero, suc, ◌+◌, ◌-◌, ◌*◌, ◌/◌, ◌%◌, ◌^◌, bit_or, bit_and, bit_xor, Bool, ◌||◌, ltb, ◌==◌,
  if◌then◌else◌,
}
use virt_iogpu.Blit.Memory.{Mem}
use virt_iogpu.Blit.Rect.{Format, format_bpp, is_clut, RenderInfo, pixel_at, no_area, colored}
use virt_iogpu.Blit.Pixels.{Ink, paint}

-- `struct ChipTemplate`
pub record Template : Type 0 where
  pub memory : ℕ
  pub bytes_per_row : ℕ
  pub x_offset : ℕ
  pub draw_mode : ℕ
  pub fg_pen : ℕ
  pub bg_pen : ℕ

-- `struct ChipPattern`
pub record Pattern : Type 0 where
  pub memory : ℕ
  pub x_offset : ℕ
  pub y_offset : ℕ
  pub fg_pen : ℕ
  pub bg_pen : ℕ
  pub size : ℕ
  pub draw_mode : ℕ

-- A pixel's byte for a bit of the template: COMPLEMENT (2), JAM2 (1), else JAM1.
unfoldable pub pen_ink : ℕ → ℕ → ℕ → ℕ → Bool → Ink
pen_ink bytes draw_mode fg bg bit_set k old =
    if draw_mode / 2 % 2 == 1
    then if bit_set then bit_xor old 0xFF else old
    else if draw_mode % 4 == 1
    then colored bytes (if bit_set then fg else bg) k 0 old
    else if bit_set
    then colored bytes fg k 0 old
    else old

-- The bytes that are stored for a pixel, which are four also where a pixel has three.
unfoldable pub stored_bytes : Format → ℕ
stored_bytes format = if is_clut format then 1 else if format_bpp format == 2 then 2 else 4

unfoldable pub template_bit : Template → (ℕ → ℕ) → ℕ → ℕ → Bool
template_bit tmpl bits row col =
    let bit_idx = tmpl.x_offset + col in
    bits (tmpl.memory + row * tmpl.bytes_per_row + bit_idx / 8) / 2 ^ (7 - bit_idx % 8) % 2 == 1

unfoldable pub blit_template : RenderInfo → Template → (ℕ → ℕ) → ℕ → ℕ → ℕ → ℕ → Format → Mem → Mem
blit_template ri tmpl bits x y w h format mem =
    let bpp = format_bpp format in
    let size = stored_bytes format in
    if ((ri.memory == 0) || (tmpl.memory == 0)) || no_area w h
    then mem
    else paint
        (λ row col.
          pen_ink size tmpl.draw_mode tmpl.fg_pen tmpl.bg_pen (template_bit tmpl bits row col))
        bpp size w h 0 (pixel_at ri bpp x y) ri.bytes_per_row mem

-- The pattern is 16 pixels wide and `1 << Size` high, in a UWORD.
unfoldable pub pattern_bit : Pattern → (ℕ → ℕ) → ℕ → ℕ → ℕ → ℕ → Bool
pattern_bit pat bits x y row col =
    let pat_h = 2 ^ pat.size % 2 ^ 16 in
    let line = y + row + pat.y_offset in
    let pat_row = if pat_h == 0 then line % 2 ^ 16 else line % pat_h in
    let pat_word = bits (pat.memory + pat_row * 2) * 2 ^ 8 + bits (pat.memory + pat_row * 2 + 1) in
    pat_word / 2 ^ (15 - (x + col + pat.x_offset) % 16) % 2 == 1

unfoldable pub blit_pattern : RenderInfo → Pattern → (ℕ → ℕ) → ℕ → ℕ → ℕ → ℕ → Format → Mem → Mem
blit_pattern ri pat bits x y w h format mem =
    let bpp = format_bpp format in
    let size = stored_bytes format in
    if ((ri.memory == 0) || (pat.memory == 0)) || no_area w h
    then mem
    else paint
        (λ row col.
          pen_ink size pat.draw_mode pat.fg_pen pat.bg_pen (pattern_bit pat bits x y row col))
        bpp size w h 0 (pixel_at ri bpp x y) ri.bytes_per_row mem

-- `struct BitMap`: a plane is 0 where it is missing.
pub record BitMap : Type 0 where
  pub bytes_per_row : ℕ
  pub depth : ℕ
  pub planes : ℕ → ℕ

-- The bit of plane `p` at a pixel, where the plane is there and its bit of the mask is set.
unfoldable pub plane_bit : BitMap → (ℕ → ℕ) → ℕ → ℕ → ℕ → ℕ → ℕ
plane_bit bm bits mask src_x src_y p =
    if (mask / 2 ^ p % 2 == 0) || (bm.planes p == 0)
    then 0
    else bits (bm.planes p + src_y * bm.bytes_per_row + src_x / 8) / 2 ^ (7 - src_x % 8) % 2

-- The loop over the planes from `p` on.
unfoldable pub gather : BitMap → (ℕ → ℕ) → ℕ → ℕ → ℕ → ℕ → ℕ → ℕ → ℕ
gather bm bits mask src_x src_y zero p pixel = pixel
gather bm bits mask src_x src_y (suc n) p pixel =
    gather bm bits mask src_x src_y n (p + 1)
      (bit_or pixel (plane_bit bm bits mask src_x src_y p * 2 ^ p))

unfoldable pub planar_pixel : BitMap → (ℕ → ℕ) → ℕ → ℕ → ℕ → ℕ
planar_pixel bm bits mask src_x src_y =
    gather bm bits mask src_x src_y (if ltb bm.depth 8 then bm.depth else 8) 0 0

unfoldable pub blit_planar_2_chunky :
    BitMap → (ℕ → ℕ) → RenderInfo → ℕ → ℕ → ℕ → ℕ → ℕ → ℕ → ℕ → Mem → Mem
blit_planar_2_chunky bm bits ri x y dx dy w h mask mem =
    if (ri.memory == 0) || no_area w h
    then mem
    else paint (λ row col k old. planar_pixel bm bits mask (x + col) (y + row)) 1 1 w h 0
        (pixel_at ri 1 dx dy) ri.bytes_per_row mem

-- `struct ColorIndexMapping`
pub record ColorIndexMapping : Type 0 where
  pub color_mask : ℕ
  pub colors : ℕ → ℕ

-- A pixel of two bytes of the upper bits of red, green and blue.
unfoldable pub packed_565 : ℕ → ℕ
packed_565 color =
    color / 2 ^ 19 % 2 ^ 5 * 2 ^ 11 + color / 2 ^ 10 % 2 ^ 6 * 2 ^ 5 + color / 2 ^ 3 % 2 ^ 5

-- A bitmap of pixels of three bytes gets the index, like one of a single byte.
unfoldable pub blit_planar_2_direct :
    BitMap → (ℕ → ℕ) → RenderInfo → ColorIndexMapping → ℕ → ℕ → ℕ → ℕ → ℕ → ℕ → ℕ → Mem → Mem
blit_planar_2_direct bm bits ri clut x y dx dy w h mask mem =
    let bpp = format_bpp ri.format in
    let pixel = λ (row col : ℕ). planar_pixel bm bits mask (x + col) (y + row) in
    let color = λ (row col : ℕ). bit_and (clut.colors (pixel row col)) clut.color_mask in
    let base = pixel_at ri bpp dx dy in
    let stride = ri.bytes_per_row in
    if (ri.memory == 0) || no_area w h
    then mem
    else if bpp == 4
    then paint (λ row col k old. colored 4 (color row col) k 0 old) 4 4 w h 0 base stride mem
    else if bpp == 2
    then paint (λ row col k old. colored 2 (packed_565 (color row col)) k 0 old) 2 2 w h 0 base
        stride mem
    else paint (λ row col k old. pixel row col) 1 1 w h 0 base stride mem
