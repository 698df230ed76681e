-- ===== src/Blit/Moved.antt =====
-- chip_BlitRect (src/chip/chip_blit.c) moves a rectangle as if through a copy of it.
use virt_iogpu.Prelude.{
  ℕ, ◌+◌, ◌*◌, ◌≤◌, ◌<◌, ◌≡◌, ◌≢◌, false, ltb, arith, Bool-cases, inl, inr, ==-ne, ap,
}
use native.Mathlib.Nat.{mul-pos}
use virt_iogpu.Blit.Memory.{Mem, source, Exec, move_row, row_copy}
use virt_iogpu.Blit.Units.{move_row-combine}
use virt_iogpu.Blit.Area.{Works-always, area, rows-area, rows_up-area}
use virt_iogpu.Blit.Clearance.{Clear-ahead, ClearUp-behind, Copies, row_copy-Works, lines_apart}
use virt_iogpu.Blit.Rect.{Format, format_bpp, RenderInfo, pixel_at, no_area, copy_rect, blit_rect}

-- A rectangle of one row lies within the lines of the bitmap.
abbrev pub Fits : RenderInfo → ℕ → ℕ → ℕ → Type 0
Fits ri bpp x w = x * bpp + w * bpp ≤ ri.bytes_per_row

module _ (exec : Exec) (copies : Copies exec) where
  copy_rect-area :
      (len stride h s d : ℕ) (mem : Mem) (a : ℕ)
      → no_area len h ≡ false
      → len ≤ stride
      → d + len ≤ s
      → copy_rect exec s stride d stride len h mem a ≡ area source len stride stride h s d mem a
  unfolding copy_rect
  copy_rect-area len stride h s d mem a some_area narrow above = rw some_area (
      rows-area source len stride stride (row_copy exec len) narrow h s d mem a
        (row_copy-Works exec copies len stride h s d above)
        (Clear-ahead source len stride h s d (omega arith)))

pub bpp_pos : (f : Format) → 0 < format_bpp f
unfolding format_bpp
bpp_pos Format.clut = omega arith
bpp_pos f = omega arith

-- A rectangle with pixels has bytes.
pub some_bytes : (w h : ℕ) (f : Format) → no_area w h ≡ false → no_area (w * format_bpp f) h ≡ false
some_bytes w h f e =
    let p : 0 < w * format_bpp f = mul-pos (ground arith) (bpp_pos f) in ground arith

-- chip_BlitRect moves the pixels of a rectangle as if all were read before the first is stored, in
-- whichever direction the two rectangles overlap and however they are aligned, and leaves all other
-- bytes alone. Conditions: both rectangles lie within the lines of a bitmap that is there, and the
-- library's copy functions copy what does not overlap.
pub blit_rect-area :
    (exec : Exec)
    → Copies exec
    → (ri : RenderInfo) (x y dx dy w h : ℕ) (mem : Mem) (a : ℕ) → ri.memory ≢ 0
    → no_area w h ≡ false
    → Fits ri (format_bpp ri.format) x w
    → Fits ri (format_bpp ri.format) dx w
    → let bpp = format_bpp ri.format in
      blit_rect exec ri x y dx dy w h mem a
      ≡ area source
          (w * bpp)
          ri.bytes_per_row
          ri.bytes_per_row
          h
          (pixel_at ri bpp x y)
          (pixel_at ri bpp dx dy)
          mem
          a
unfolding blit_rect
blit_rect-area exec copies ri x y dx dy w h mem a there pixels fits fits' =
    let bpp = format_bpp ri.format in
    let stride = ri.bytes_per_row in
    let len = w * bpp in
    let s = pixel_at ri bpp x y in
    let d = pixel_at ri bpp dx dy in
    let is_there = ==-ne ri.memory 0 there in
    elim (Bool-cases (ltb dy y)) [
      | inl up ↦
          let line = lines_apart stride dy y (dx * bpp + len) (x * bpp) (ground arith) fits' in
          rw (is_there, pixels, up)
            (copy_rect-area exec copies len stride h s d mem a (some_bytes w h ri.format pixels)
              (omega arith) (omega arith))
      | inr e ↦ elim (Bool-cases (ltb y dy)) [
        | inl down ↦
            let line = lines_apart stride y dy (x * bpp + len) (dx * bpp) (ground arith) fits in
            rw (is_there, pixels, e, down)
              (rows_up-area source len stride stride (move_row len) (omega arith)
                (λ s' d' m b. move_row-combine len s' d' m b) h s d mem a
                (ClearUp-behind source len stride h s d (omega arith)))
        | inr f ↦
            let same : y ≡ dy = ground arith in
            let line : y * stride ≡ dy * stride = ap (λ (t : ℕ). t * stride) same in
            rw (is_there, pixels, e, f)
              (rows-area source len stride stride (move_row len) (omega arith) h s d mem a
                (Works-always source len stride stride (move_row len)
                  (λ s' d' m b. move_row-combine len s' d' m b) h s d)
                (Clear-ahead source len stride h s d (omega arith)))
      ]
    ]
