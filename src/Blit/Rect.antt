-- ===== src/Blit/Rect.antt =====
-- chip_FillRect, chip_InvertRect, chip_BlitRect and chip_BlitRectNoMaskComplete
-- (src/chip/chip_blit.c), as far as they change the memory. A coordinate is never negative, and a
-- byte's address is a number below 2 ^ 32, so that no sum wraps.
use virt_iogpu.Prelude.{
  ℕ, ◌+◌, ◌-◌, ◌*◌, ◌/◌, ◌%◌, ◌^◌, bit_xor, Bool, true, false, ◌&&◌, ◌||◌, ltb, ◌==◌, if◌then◌else◌,
}
use virt_iogpu.Blit.Memory.{Mem, Op, Exec, forward, move_row, row_copy, mixed_row, rows, rows_up}

-- RGBFTYPE, as far as chip_format_bpp tells the formats apart.
pub data Format : Type 0 where
  clut r8g8b8 b8g8r8 : Format
  r5g6b5pc r5g5b5pc r5g6b5 r5g5b5 b5g6r5pc b5g5r5pc : Format
  a8r8g8b8 a8b8g8r8 r8g8b8a8 b8g8r8a8 : Format

unfoldable pub format_bpp : Format → ℕ
format_bpp Format.clut = 1
format_bpp Format.r8g8b8 = 3
format_bpp Format.b8g8r8 = 3
format_bpp Format.r5g6b5pc = 2
format_bpp Format.r5g5b5pc = 2
format_bpp Format.r5g6b5 = 2
format_bpp Format.r5g5b5 = 2
format_bpp Format.b5g6r5pc = 2
format_bpp Format.b5g5r5pc = 2
format_bpp Format.a8r8g8b8 = 4
format_bpp Format.a8b8g8r8 = 4
format_bpp Format.r8g8b8a8 = 4
format_bpp Format.b8g8r8a8 = 4

abbrev pub is_clut : Format → Bool
is_clut Format.clut = true
is_clut f = false

-- `struct RenderInfoChip`
pub record RenderInfo : Type 0 where
  pub memory : ℕ
  pub bytes_per_row : ℕ
  pub format : Format

abbrev pub pixel_at : RenderInfo → ℕ → ℕ → ℕ → ℕ
pixel_at ri bpp x y = ri.memory + y * ri.bytes_per_row + x * bpp

abbrev pub no_area : ℕ → ℕ → Bool
no_area w h = (w == 0) || (h == 0)

abbrev pub xor_source : Op
xor_source k s d = bit_xor d s

abbrev pub inverted : Op
inverted k s d = bit_xor d 0xFF

abbrev pub constant : ℕ → Op
constant v k s d = v

-- The bytes of a pixel of `bpp` bytes, the highest first.
abbrev pub colored : ℕ → ℕ → Op
colored bpp color k s d = color / 2 ^ (8 * (bpp - 1 - k % bpp)) % 2 ^ 8

unfoldable pub copy_rect : Exec → ℕ → ℕ → ℕ → ℕ → ℕ → ℕ → Mem → Mem
copy_rect exec src s_stride dst d_stride row_bytes h mem =
    if no_area row_bytes h
    then mem
    else rows (row_copy exec row_bytes) h src s_stride dst d_stride mem

unfoldable pub fill_rect_bytes : ℕ → ℕ → ℕ → ℕ → ℕ → Mem → Mem
fill_rect_bytes dst d_stride row_bytes h val mem =
    if no_area row_bytes h
    then mem
    else rows (λ s d. mixed_row (constant val) (d % 4 == 0) row_bytes s d) h dst d_stride dst
        d_stride mem

unfoldable pub xor_rect_with_src : ℕ → ℕ → ℕ → ℕ → ℕ → ℕ → Mem → Mem
xor_rect_with_src src s_stride dst d_stride row_bytes h mem =
    rows (λ s d. mixed_row xor_source ((s % 4 == 0) && (d % 4 == 0)) row_bytes s d) h src s_stride
      dst d_stride mem

unfoldable pub xor_rect_with_const : ℕ → ℕ → ℕ → ℕ → Mem → Mem
xor_rect_with_const dst d_stride row_bytes h mem =
    rows (λ s d. mixed_row inverted (d % 4 == 0) row_bytes s d) h dst d_stride dst d_stride mem

-- Pixels of three bytes are stored as longs.
unfoldable pub fill_rect : RenderInfo → ℕ → ℕ → ℕ → ℕ → ℕ → Format → Mem → Mem
fill_rect ri x y w h color format mem =
    let bpp = format_bpp format in
    let stride = ri.bytes_per_row in
    let base = pixel_at ri bpp x y in
    if (ri.memory == 0) || no_area w h
    then mem
    else if is_clut format
    then fill_rect_bytes base stride w h (color % 2 ^ 8) mem
    else if bpp == 2
    then rows (forward (colored 2 (color % 2 ^ 16)) 2 w) h base stride base stride mem
    else rows (forward (colored 4 color) 4 w) h base stride base stride mem

unfoldable pub invert_rect : RenderInfo → ℕ → ℕ → ℕ → ℕ → Format → Mem → Mem
invert_rect ri x y w h format mem =
    let bpp = format_bpp format in
    if (ri.memory == 0) || no_area w h
    then mem
    else xor_rect_with_const (pixel_at ri bpp x y) ri.bytes_per_row (w * bpp) h mem

unfoldable pub blit_rect : Exec → RenderInfo → ℕ → ℕ → ℕ → ℕ → ℕ → ℕ → Mem → Mem
blit_rect exec ri x y dx dy w h mem =
    let bpp = format_bpp ri.format in
    let stride = ri.bytes_per_row in
    let src = pixel_at ri bpp x y in
    let dst = pixel_at ri bpp dx dy in
    let row_bytes = w * bpp in
    if (ri.memory == 0) || no_area w h
    then mem
    else if ltb dy y
    then copy_rect exec src stride dst stride row_bytes h mem
    else if ltb y dy
    then rows_up (move_row row_bytes) h src stride dst stride mem
    else rows (move_row row_bytes) h src stride dst stride mem

-- The operation in an opcode: a minterm's high nibble, or the number itself.
unfoldable pub decode_rop : ℕ → ℕ
decode_rop opcode = if ltb 0x0F opcode then opcode / 2 ^ 4 else opcode

-- The copy of chip_BlitRectNoMaskComplete, also for an operation that it does not know.
unfoldable pub source_copy : Exec → Bool → ℕ → ℕ → ℕ → ℕ → ℕ → ℕ → Mem → Mem
source_copy exec reverse src s_stride dst d_stride row_bytes h mem =
    if reverse
    then rows_up (move_row row_bytes) h src s_stride dst d_stride mem
    else copy_rect exec src s_stride dst d_stride row_bytes h mem

unfoldable pub blit_rect_no_mask_complete :
    Exec → RenderInfo → RenderInfo → ℕ → ℕ → ℕ → ℕ → ℕ → ℕ → ℕ → Format → Mem → Mem
blit_rect_no_mask_complete exec src dst x y dx dy w h opcode format mem =
    let bpp = format_bpp format in
    let s_stride = src.bytes_per_row in
    let d_stride = dst.bytes_per_row in
    let s_base = pixel_at src bpp x y in
    let d_base = pixel_at dst bpp dx dy in
    let row_bytes = w * bpp in
    let rop = decode_rop opcode in
    let reverse = (src.memory == dst.memory) && (ltb y dy || ((dy == y) && ltb x dx)) in
    if ((src.memory == 0) || (dst.memory == 0)) || no_area w h
    then mem
    else if rop == 0xC
    then source_copy exec reverse s_base s_stride d_base d_stride row_bytes h mem
    else if rop == 0
    then fill_rect_bytes d_base d_stride row_bytes h 0 mem
    else if rop == 0xF
    then fill_rect_bytes d_base d_stride row_bytes h 0xFF mem
    else if rop == 5
    then xor_rect_with_const d_base d_stride row_bytes h mem
    else if rop == 6
    then xor_rect_with_src s_base s_stride d_base d_stride row_bytes h mem
    else source_copy exec reverse s_base s_stride d_base d_stride row_bytes h mem
