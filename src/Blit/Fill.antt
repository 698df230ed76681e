-- ===== src/Blit/Fill.antt =====
-- chip_FillRect and chip_InvertRect (src/chip/chip_blit.c) change the pixels of their rectangle.
use virt_iogpu.Prelude.{
  ℕ, ◌+◌, ◌-◌, ◌*◌, ◌%◌, ◌^◌, ◌≤◌, ◌≡◌, ◌≢◌, refl, ◌∙◌, false, ◌==◌, arith, inl, ==-ne, Bool-cases,
  inr,
}
use virt_iogpu.Blit.Memory.{Mem, forward, rows}
use virt_iogpu.Blit.Units.{IsPeriodic, forward-combine}
use virt_iogpu.Blit.Area.{area, rows-area}
use virt_iogpu.Blit.Clearance.{Clear-ahead}
use virt_iogpu.Blit.Rect.{
  Format, format_bpp, is_clut, RenderInfo, pixel_at, no_area, inverted, constant, colored,
  fill_rect, invert_rect,
}
use virt_iogpu.Blit.Moved.{Fits}
use virt_iogpu.Blit.Rops.{in_place}
use virt_iogpu.Blit.Nmc.{fill_rect_bytes-area, xor_rect_with_const-area, op_area}

colored-IsPeriodic :
    (bpp color : ℕ) → ((k : ℕ) → (k + bpp) % bpp ≡ k % bpp) → IsPeriodic bpp (colored bpp color)
colored-IsPeriodic bpp color e k s d = rw (e k) refl

-- A pixel of one byte is a constant.
colored_one : (color k s d : ℕ) → constant (color % 2 ^ 8) k s d ≡ colored 1 color k s d
colored_one color k s d = let e : 8 * (1 - 1 - k % 1) ≡ 0 = omega arith in rw e (omega arith)

-- The upper half of a colour does not reach a pixel of two bytes.
colored_two : (color k s d : ℕ) → colored 2 (color % 2 ^ 16) k s d ≡ colored 2 color k s d
colored_two color k s d = elim (Bool-cases (k % 2 == 0)) [
  | inl e ↦ let z : k % 2 ≡ 0 = ground arith in rw z (omega arith)
  | inr e ↦ let o : k % 2 ≡ 1 = ground arith in rw o (omega arith)
]

-- The loop of chip_FillRect over pixels of two or four bytes.
rows-colored :
    (bpp color w stride h base : ℕ) (mem : Mem) (a : ℕ)
    → ((k : ℕ) → (k + bpp) % bpp ≡ k % bpp)
    → w * bpp ≤ stride
    → rows (forward (colored bpp color) bpp w) h base stride base stride mem a
      ≡ area (colored bpp color) (w * bpp) stride stride h base base mem a
rows-colored bpp color w stride h base mem a e narrow =
    rows-area (colored bpp color) (w * bpp) stride stride (forward (colored bpp color) bpp w) narrow
      h base base mem a
      (in_place (colored bpp color) (w * bpp) stride (forward (colored bpp color) bpp w)
        (λ d m b.
          forward-combine (colored bpp color) bpp w d d m b (colored-IsPeriodic bpp color e)
            (inl (omega arith)))
        h base)
      (Clear-ahead (colored bpp color) (w * bpp) stride h base base (omega arith))

module _ (ri : RenderInfo) (x y w h : ℕ) (format : Format) (mem : Mem) (a : ℕ)
    (there : ri.memory ≢ 0) (pixels : no_area w h ≡ false)
    (fits : Fits ri (format_bpp format) x w) where
  -- chip_InvertRect inverts every byte of the rectangle and leaves all other bytes alone.
  -- Conditions: the bitmap is there, and the rectangle lies within its lines.
  invert_rect-area :
      invert_rect ri x y w h format mem a
      ≡ area inverted
          (w * format_bpp format)
          ri.bytes_per_row
          ri.bytes_per_row
          h
          (pixel_at ri (format_bpp format) x y)
          (pixel_at ri (format_bpp format) x y)
          mem
          a
  unfolding invert_rect
  invert_rect-area =
      rw (==-ne ri.memory 0 there, pixels)
        (xor_rect_with_const-area (w * format_bpp format) ri.bytes_per_row h
          (pixel_at ri (format_bpp format) x y) mem a (omega arith))

fill_clut :
    (ri : RenderInfo) (x y w h color : ℕ) (mem : Mem) (a : ℕ)
    → ri.memory ≢ 0
    → no_area w h ≡ false
    → x * 1 + w * 1 ≤ ri.bytes_per_row
    → fill_rect ri x y w h color Format.clut mem a
      ≡ area
          (colored 1 color)
          (w * 1)
          ri.bytes_per_row
          ri.bytes_per_row
          h
          (pixel_at ri 1 x y)
          (pixel_at ri 1 x y)
          mem
          a
unfolding fill_rect format_bpp
fill_clut ri x y w h color mem a there pixels fits =
    let stride = ri.bytes_per_row in
    let base = pixel_at ri 1 x y in
    let one : w * 1 ≡ w = omega arith in
    rw (==-ne ri.memory 0 there, pixels)
      (fill_rect_bytes-area w stride h base (color % 2 ^ 8) mem a pixels (omega arith)
        ∙ op_area (constant (color % 2 ^ 8)) (colored 1 color) w stride stride h base base mem a
            (colored_one color)
        ∙ rw one refl)

module _ (ri : RenderInfo) (x y w h color : ℕ) (format : Format) (mem : Mem) (a : ℕ)
    (there : ri.memory ≢ 0) (pixels : no_area w h ≡ false) (direct : is_clut format ≡ false) where
  fill_two :
      format_bpp format ≡ 2
      → x * 2 + w * 2 ≤ ri.bytes_per_row
      → fill_rect ri x y w h color format mem a
        ≡ area
            (colored 2 color)
            (w * 2)
            ri.bytes_per_row
            ri.bytes_per_row
            h
            (pixel_at ri 2 x y)
            (pixel_at ri 2 x y)
            mem
            a
  unfolding fill_rect
  fill_two e fits =
      let stride = ri.bytes_per_row in
      let base = pixel_at ri 2 x y in
      rw (==-ne ri.memory 0 there, pixels, direct, e)
        (rows-colored 2 (color % 2 ^ 16) w stride h base mem a (λ k. omega arith) (omega arith)
          ∙ op_area (colored 2 (color % 2 ^ 16)) (colored 2 color) (w * 2) stride stride h base base
              mem a (colored_two color))

  fill_four :
      format_bpp format ≡ 4
      → x * 4 + w * 4 ≤ ri.bytes_per_row
      → fill_rect ri x y w h color format mem a
        ≡ area
            (colored 4 color)
            (w * 4)
            ri.bytes_per_row
            ri.bytes_per_row
            h
            (pixel_at ri 4 x y)
            (pixel_at ri 4 x y)
            mem
            a
  unfolding fill_rect
  fill_four e fits =
      rw (==-ne ri.memory 0 there, pixels, direct, e)
        (rows-colored 4 color w ri.bytes_per_row h (pixel_at ri 4 x y) mem a (λ k. omega arith)
          (omega arith))

-- chip_FillRect stores the colour in every pixel of the rectangle, in one, two or four bytes with
-- the highest first, and leaves all other bytes alone. Conditions: the bitmap is there, the
-- rectangle lies within its lines, and a pixel is not of three bytes.
fill_rect-area :
    (ri : RenderInfo) (x y w h color : ℕ) (format : Format) (mem : Mem) (a : ℕ)
    → ri.memory ≢ 0
    → no_area w h ≡ false
    → format_bpp format ≢ 3
    → Fits ri (format_bpp format) x w
    → fill_rect ri x y w h color format mem a
      ≡ area
          (colored (format_bpp format) color)
          (w * format_bpp format)
          ri.bytes_per_row
          ri.bytes_per_row
          h
          (pixel_at ri (format_bpp format) x y)
          (pixel_at ri (format_bpp format) x y)
          mem
          a
unfolding format_bpp
fill_rect-area ri x y w h c Format.clut mem a n p b f = fill_clut ri x y w h c mem a n p f
fill_rect-area ri x y w h c Format.r8g8b8 mem a n p b f = absurd (b refl)
fill_rect-area ri x y w h c Format.b8g8r8 mem a n p b f = absurd (b refl)
fill_rect-area ri x y w h c Format.r5g6b5pc mem a n p b f =
    fill_two ri x y w h c Format.r5g6b5pc mem a n p refl refl f
fill_rect-area ri x y w h c Format.r5g5b5pc mem a n p b f =
    fill_two ri x y w h c Format.r5g5b5pc mem a n p refl refl f
fill_rect-area ri x y w h c Format.r5g6b5 mem a n p b f =
    fill_two ri x y w h c Format.r5g6b5 mem a n p refl refl f
fill_rect-area ri x y w h c Format.r5g5b5 mem a n p b f =
    fill_two ri x y w h c Format.r5g5b5 mem a n p refl refl f
fill_rect-area ri x y w h c Format.b5g6r5pc mem a n p b f =
    fill_two ri x y w h c Format.b5g6r5pc mem a n p refl refl f
fill_rect-area ri x y w h c Format.b5g5r5pc mem a n p b f =
    fill_two ri x y w h c Format.b5g5r5pc mem a n p refl refl f
fill_rect-area ri x y w h c Format.a8r8g8b8 mem a n p b f =
    fill_four ri x y w h c Format.a8r8g8b8 mem a n p refl refl f
fill_rect-area ri x y w h c Format.a8b8g8r8 mem a n p b f =
    fill_four ri x y w h c Format.a8b8g8r8 mem a n p refl refl f
fill_rect-area ri x y w h c Format.r8g8b8a8 mem a n p b f =
    fill_four ri x y w h c Format.r8g8b8a8 mem a n p refl refl f
fill_rect-area ri x y w h c Format.b8g8r8a8 mem a n p b f =
    fill_four ri x y w h c Format.b8g8r8a8 mem a n p refl refl f
