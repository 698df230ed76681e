-- ===== src/Blit/Expanded.antt =====
-- What chip_BlitTemplate, chip_BlitPattern and chip_BlitPlanar2Chunky (src/chip/chip_blit.c) leave
-- in a bitmap.
use virt_iogpu.Prelude.{
  ℕ, zero, suc, ◌+◌, ◌*◌, ◌^◌, ap, ◌≤◌, ◌<◌, ◌≡◌, ◌≢◌, ◌⊎◌, refl, ◌∙◌, false, ltb, if◌then◌else◌,
  arith, ==-ne, bit_or-shift, fun_ext, subst,
}
use native.Mathlib.Nat.{pow-suc, mul-add, mul_assoc, mul_comm}
use native.Mathlib.Numerals.{add-one}
use virt_iogpu.Blit.Memory.{Mem}
use virt_iogpu.Blit.Rect.{Format, format_bpp, RenderInfo, pixel_at, no_area}
use virt_iogpu.Blit.Pixels.{Ink, paint, paint-at, paint-Outside}
use virt_iogpu.Blit.Moved.{Fits}
use virt_iogpu.Blit.Planes.{enabled_bit, plane_bit-enabled_bit}
use virt_iogpu.Blit.Expand.{
  Template, Pattern, pen_ink, stored_bytes, template_bit, blit_template, pattern_bit, blit_pattern,
  BitMap, plane_bit, gather, planar_pixel, blit_planar_2_chunky,
}

-- Every byte of every pixel is what the ink makes of it, and no other byte has changed.
pub record Painted (inks : ℕ → ℕ → Ink) (size w h d stride : ℕ) (mem mem' : Mem) : Type 0 where
  pub inside :
      (r c k : ℕ)
      → r < h
      → c < w
      → k < size
      → mem' (d + r * stride + c * size + k) ≡ inks r c k (mem (d + r * stride + c * size + k))
  pub outside :
      (a : ℕ)
      → ((r : ℕ) → r < h → (a < d + r * stride) ⊎ (d + r * stride + w * size ≤ a))
      → mem' a ≡ mem a

pub paint-Painted :
    (inks : ℕ → ℕ → Ink) (size w h d stride : ℕ) (mem : Mem)
    → w * size ≤ stride
    → Painted inks size w h d stride mem (paint inks size size w h 0 d stride mem)
paint-Painted inks size w h d stride mem narrow = record {
  inside = λ r c k p q s.
      let e : 0 + r ≡ r = omega arith in
      paint-at size inks w stride narrow h 0 d mem r c k p q s ∙ rw e refl;
  outside = λ a out. paint-Outside size inks w stride narrow h 0 d mem a out;
}

-- Inks that store the same bytes are the same.
pub Painted-ext :
    (inks inks' : ℕ → ℕ → Ink) (size w h d stride : ℕ) (mem mem' : Mem)
    → ((r c k old : ℕ) → k < size → inks r c k old ≡ inks' r c k old)
    → Painted inks size w h d stride mem mem'
    → Painted inks' size w h d stride mem mem'
Painted-ext inks inks' size w h d stride mem mem' same p = record {
  inside = λ r c k a b l. p.inside r c k a b l ∙ same r c k _ l;
  outside = p.outside;
}

-- Pixels of one, two or four bytes are stored whole.
stored_bytes_lem : (f : Format) → format_bpp f ≢ 3 → stored_bytes f ≡ format_bpp f
unfolding stored_bytes format_bpp
stored_bytes_lem Format.clut h = refl
stored_bytes_lem Format.r8g8b8 h = absurd (h refl)
stored_bytes_lem Format.b8g8r8 h = absurd (h refl)
stored_bytes_lem f h = refl

module _ (ri : RenderInfo) (bits : ℕ → ℕ) (x y w h : ℕ) (format : Format) (mem : Mem)
    (there : ri.memory ≢ 0) (pixels : no_area w h ≡ false) (whole : format_bpp format ≢ 3)
    (fits : Fits ri (format_bpp format) x w) where
  -- chip_BlitTemplate draws every pixel of the rectangle with the pen for its bit of the template,
  -- by the drawing mode, and changes nothing else. Conditions: bitmap and template are there, the
  -- rectangle lies within the bitmap's lines, and a pixel is not of three bytes.
  blit_template-Painted :
      (tmpl : Template)
      → tmpl.memory ≢ 0
      → Painted
          (λ row col.
            pen_ink
              (format_bpp format)
              tmpl.draw_mode
              tmpl.fg_pen
              tmpl.bg_pen
              (template_bit tmpl bits row col))
          (format_bpp format)
          w
          h
          (pixel_at ri (format_bpp format) x y)
          ri.bytes_per_row
          mem
          (blit_template ri tmpl bits x y w h format mem)
  unfolding blit_template
  blit_template-Painted tmpl n =
      rw (==-ne ri.memory 0 there, ==-ne tmpl.memory 0 n, pixels, stored_bytes_lem format whole)
        (paint-Painted
          (λ row col.
            pen_ink (format_bpp format) tmpl.draw_mode tmpl.fg_pen tmpl.bg_pen
              (template_bit tmpl bits row col))
          (format_bpp format) w h (pixel_at ri (format_bpp format) x y) ri.bytes_per_row mem
          (omega arith))

  -- chip_BlitPattern does the same with its bit of the pattern.
  blit_pattern-Painted :
      (pat : Pattern)
      → pat.memory ≢ 0
      → Painted
          (λ row col.
            pen_ink
              (format_bpp format)
              pat.draw_mode
              pat.fg_pen
              pat.bg_pen
              (pattern_bit pat bits x y row col))
          (format_bpp format)
          w
          h
          (pixel_at ri (format_bpp format) x y)
          ri.bytes_per_row
          mem
          (blit_pattern ri pat bits x y w h format mem)
  unfolding blit_pattern
  blit_pattern-Painted pat n =
      rw (==-ne ri.memory 0 there, ==-ne pat.memory 0 n, pixels, stored_bytes_lem format whole)
        (paint-Painted
          (λ row col.
            pen_ink (format_bpp format) pat.draw_mode pat.fg_pen pat.bg_pen
              (pattern_bit pat bits x y row col))
          (format_bpp format) w h (pixel_at ri (format_bpp format) x y) ri.bytes_per_row mem
          (omega arith))

-- The number whose binary digits are the bits of `n` planes from `p` on, plane `p`'s the lowest.
unfoldable pub binary : (ℕ → ℕ) → ℕ → ℕ → ℕ
binary digit zero p = 0
binary digit (suc n) p = digit p + 2 * binary digit n (p + 1)

plane_bit-lt :
    (bm : BitMap) (bits : ℕ → ℕ) (mask src_x src_y p : ℕ) → plane_bit bm bits mask src_x src_y p < 2
unfolding plane_bit
plane_bit-lt bm bits mask src_x src_y p = ground arith

below : (b q x r : ℕ) → b < 2 → x < q → r ≡ q * 2 → x + b * q < r
below zero q x r l h e = omega arith
below (suc zero) q x r l h e = omega arith
below (suc (suc b)) q x r l h e = absurd (omega arith)

expand : (b q x v : ℕ) → x + b * q + q * 2 * v ≡ x + q * (b + 2 * v)
expand b q x v = omega (arith, mul-add q b (2 * v), mul_assoc q 2 v, mul_comm b q)

module _ (bm : BitMap) (bits : ℕ → ℕ) (mask src_x src_y : ℕ) where
  gather-binary :
      (n p pixel : ℕ)
      → pixel < 2 ^ p
      → gather bm bits mask src_x src_y n p pixel
        ≡ pixel + 2 ^ p * binary (plane_bit bm bits mask src_x src_y) n p
  unfolding gather binary
  gather-binary zero p pixel h = let e : 2 ^ p * 0 ≡ 0 = omega arith in rw e (omega arith)
  gather-binary (suc n) p pixel h =
      let b = plane_bit bm bits mask src_x src_y p in
      let lt = plane_bit-lt bm bits mask src_x src_y p in
      let v = binary (plane_bit bm bits mask src_x src_y) n (p + 1) in
      let pow : 2 ^ (p + 1) ≡ 2 ^ p * 2 = rw add-one (pow-suc 2 p) in
      let small : pixel + b * 2 ^ p < 2 ^ (p + 1) = below b (2 ^ p) pixel (2 ^ (p + 1)) lt h pow in
      rw (bit_or-shift p pixel b h)
        (gather-binary n (p + 1) (pixel + b * 2 ^ p) small ∙ rw pow (expand b (2 ^ p) pixel v))

  planar_pixel-binary :
      planar_pixel bm bits mask src_x src_y
      ≡ binary (enabled_bit bm bits mask src_x src_y) (if ltb bm.depth 8 then bm.depth else 8) 0
  unfolding planar_pixel
  planar_pixel-binary =
      let n = if ltb bm.depth 8 then bm.depth else 8 in
      gather-binary n 0 0 (omega arith)
      ∙ (let one : 2 ^ 0 ≡ 1 = refl in rw one (omega arith))
      ∙ ap (λ (digit : ℕ → ℕ). binary digit n 0)
          (fun_ext (λ p. plane_bit-enabled_bit bm bits mask src_x src_y p))

-- chip_BlitPlanar2Chunky stores in every pixel of the rectangle the number whose binary digits are
-- the bits of the planes at that pixel, plane 0's the lowest and the highest bit of a byte the
-- leftmost pixel; a plane that is missing or masked out counts as 0 and planes from the eighth on
-- are left out; and it changes nothing else.
-- Conditions: the bitmap is there, and the rectangle lies within its lines.
pub blit_planar_2_chunky-Painted :
    (bm : BitMap) (bits : ℕ → ℕ) (ri : RenderInfo) (x y dx dy w h mask : ℕ) (mem : Mem)
    → ri.memory ≢ 0
    → no_area w h ≡ false
    → Fits ri 1 dx w
    → Painted
        (λ row col k old.
          binary
            (enabled_bit bm bits mask (x + col) (y + row))
            (if ltb bm.depth 8 then bm.depth else 8)
            0)
        1
        w
        h
        (pixel_at ri 1 dx dy)
        ri.bytes_per_row
        mem
        (blit_planar_2_chunky bm bits ri x y dx dy w h mask mem)
unfolding blit_planar_2_chunky
blit_planar_2_chunky-Painted bm bits ri x y dx dy w h mask mem there pixels fits =
    let inks : ℕ → ℕ → Ink = λ row col k old. planar_pixel bm bits mask (x + col) (y + row) in
    let base = pixel_at ri 1 dx dy in
    rw (==-ne ri.memory 0 there, pixels)
      (subst
        (λ (i : ℕ → ℕ → Ink).
          Painted i 1 w h base ri.bytes_per_row mem
            (paint inks 1 1 w h 0 base ri.bytes_per_row mem))
        (fun_ext (λ row. fun_ext (λ col.
          fun_ext (λ k. fun_ext (λ old. planar_pixel-binary bm bits mask (x + col) (y + row))))))
        (paint-Painted inks 1 w h base ri.bytes_per_row mem (omega arith)))
