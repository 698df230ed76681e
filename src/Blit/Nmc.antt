-- ===== src/Blit/Nmc.antt =====
-- chip_BlitRectNoMaskComplete (src/chip/chip_blit.c) applies one operation to every byte of a
-- rectangle.
use virt_iogpu.Prelude.{
  ℕ, ◌*◌, ◌%◌, ◌≤◌, ◌≡◌, ◌≢◌, ◌⊎◌, refl, ◌∙◌, ap, ◌&&◌, true, false, ◌==◌, arith, Bool-cases, inl,
  inr, if◌then◌else◌, ==-ne, fun_ext,
}
use virt_iogpu.Blit.Memory.{Mem, Op, source, Exec, row_copy, mixed_row}
use virt_iogpu.Blit.Units.{mixed_row-combine}
use virt_iogpu.Blit.Area.{area, rows-area}
use virt_iogpu.Blit.Clearance.{Copies, row_copy-combine}
use virt_iogpu.Blit.Rect.{
  Format, format_bpp, RenderInfo, pixel_at, no_area, xor_source, inverted, constant, copy_rect,
  fill_rect_bytes, xor_rect_with_src, xor_rect_with_const, decode_rop, source_copy,
  blit_rect_no_mask_complete,
}
use virt_iogpu.Blit.Moved.{Fits, some_bytes}
use virt_iogpu.Blit.Rops.{Apart, Clear-Apart, Works-Apart, area-unary, unary_rows}

-- The operations by their number in a minterm. All but 0, 5, 6 and 15 copy, also 3, which the
-- comment on chip_BlitRectNoMaskComplete calls SrcInvert.
unfoldable pub rop_op : ℕ → Op
rop_op rop k s d =
    if rop == 0
    then 0
    else if rop == 0xF
    then 0xFF
    else if rop == 5
    then inverted k s d
    else if rop == 6
    then xor_source k s d
    else s

module _ (rop k x y : ℕ) where
  rop_op-clear : (rop == 0) ≡ true → 0 ≡ rop_op rop k x y
  unfolding rop_op
  rop_op-clear e = rw e refl

  rop_op-set : (rop == 0xF) ≡ true → 0xFF ≡ rop_op rop k x y
  unfolding rop_op
  rop_op-set e = let r : rop ≡ 0xF = ground arith in rw r refl

  rop_op-invert : (rop == 5) ≡ true → inverted k x y ≡ rop_op rop k x y
  unfolding rop_op
  rop_op-invert e = let r : rop ≡ 5 = ground arith in rw r refl

  rop_op-xor : (rop == 6) ≡ true → xor_source k x y ≡ rop_op rop k x y
  unfolding rop_op
  rop_op-xor e = let r : rop ≡ 6 = ground arith in rw r refl

  rop_op-copy :
      ((rop == 0xC) ≡ true)
        ⊎ (((rop == 0) ≡ false)
            × ((rop == 0xF) ≡ false)
            × ((rop == 5) ≡ false)
            × ((rop == 6) ≡ false))
      → x ≡ rop_op rop k x y
  unfolding rop_op
  rop_op-copy (inl e) = let r : rop ≡ 0xC = ground arith in rw r refl
  rop_op-copy (inr (z, f, i, o)) = rw (z, f, i, o) refl

pub fill_rect_bytes-area :
    (len d_stride h d val : ℕ) (mem : Mem) (a : ℕ)
    → no_area len h ≡ false
    → len ≤ d_stride
    → fill_rect_bytes d d_stride len h val mem a
      ≡ area (constant val) len d_stride d_stride h d d mem a
unfolding fill_rect_bytes
fill_rect_bytes-area len d_stride h d val mem a pixels narrow =
    rw pixels
      (unary_rows len d_stride h d narrow mem a (constant val) (λ d. d % 4 == 0) (λ u k s d. refl))

pub xor_rect_with_const-area :
    (len d_stride h d : ℕ) (mem : Mem) (a : ℕ)
    → len ≤ d_stride
    → xor_rect_with_const d d_stride len h mem a ≡ area inverted len d_stride d_stride h d d mem a
unfolding xor_rect_with_const
xor_rect_with_const-area len d_stride h d mem a narrow =
    unary_rows len d_stride h d narrow mem a inverted (λ d. d % 4 == 0) (λ u k s d. refl)

module _ (len s_stride d_stride h s d : ℕ) (mem : Mem) (a : ℕ) (s_narrow : len ≤ s_stride)
    (d_narrow : len ≤ d_stride) (apart : Apart h s s_stride d d_stride) where
  xor_rect_with_src-area :
      xor_rect_with_src s s_stride d d_stride len h mem a
      ≡ area xor_source len s_stride d_stride h s d mem a
  unfolding xor_rect_with_src
  xor_rect_with_src-area =
      let line = λ (s d : ℕ). mixed_row xor_source ((s % 4 == 0) && (d % 4 == 0)) len s d in
      rows-area xor_source len s_stride d_stride line d_narrow h s d mem a
        (Works-Apart xor_source len s_stride d_stride s_narrow d_narrow line
          (λ s d m b p.
            mixed_row-combine xor_source ((s % 4 == 0) && (d % 4 == 0)) len s d m b
              (λ u k x y. refl) (ground arith))
          h s d apart)
        (Clear-Apart xor_source len s_stride d_stride s_narrow d_narrow h s d apart)

  copy_rect-Apart :
      (exec : Exec)
      → Copies exec
      → no_area len h ≡ false
      → copy_rect exec s s_stride d d_stride len h mem a
        ≡ area source len s_stride d_stride h s d mem a
  unfolding copy_rect
  copy_rect-Apart exec copies pixels = rw pixels (
      rows-area source len s_stride d_stride (row_copy exec len) d_narrow h s d mem a
        (Works-Apart source len s_stride d_stride s_narrow d_narrow (row_copy exec len)
          (λ s d m b p. row_copy-combine exec copies len s d m b p) h s d apart)
        (Clear-Apart source len s_stride d_stride s_narrow d_narrow h s d apart))

pub op_area :
    (op op' : Op) (len s_stride d_stride h s d : ℕ) (mem : Mem) (a : ℕ)
    → ((k x y : ℕ) → op k x y ≡ op' k x y)
    → area op len s_stride d_stride h s d mem a ≡ area op' len s_stride d_stride h s d mem a
op_area op op' len s_stride d_stride h s d mem a same =
    ap (λ (f : Op). area f len s_stride d_stride h s d mem a)
      (fun_ext (λ k. fun_ext (λ x. fun_ext (λ y. same k x y))))

-- Between two bitmaps that do not overlap, chip_BlitRectNoMaskComplete stores in every byte of the
-- rectangle what the opcode's operation makes of the source's byte and the byte that was there, and
-- leaves all other bytes alone: 0 clears, 5 inverts what was there, 6 is the exclusive or, 15 sets,
-- and every other operation copies, 12 and also 3, for which SrcInvert is its name. Conditions:
-- both bitmaps are there, both rectangles lie within the lines of theirs, and the library's copy
-- functions copy what does not overlap.
pub blit_rect_no_mask_complete-area :
    (exec : Exec)
    → Copies exec
    → (src dst : RenderInfo) (x y dx dy w h opcode : ℕ) (format : Format) (mem : Mem) (a : ℕ)
    → src.memory ≢ 0
    → dst.memory ≢ 0
    → src.memory ≢ dst.memory
    → no_area w h ≡ false
    → Fits src (format_bpp format) x w
    → Fits dst (format_bpp format) dx w
    → Apart h
        (pixel_at src (format_bpp format) x y)
        src.bytes_per_row
        (pixel_at dst (format_bpp format) dx dy)
        dst.bytes_per_row
    → blit_rect_no_mask_complete exec src dst x y dx dy w h opcode format mem a
      ≡ area
          (rop_op (decode_rop opcode))
          (w * format_bpp format)
          src.bytes_per_row
          dst.bytes_per_row
          h
          (pixel_at src (format_bpp format) x y)
          (pixel_at dst (format_bpp format) dx dy)
          mem
          a
unfolding blit_rect_no_mask_complete source_copy
blit_rect_no_mask_complete-area exec copies src dst x y dx dy w h opcode format mem a n m ne pixels
      fits fits' apart =
    let bpp = format_bpp format in
    let len = w * bpp in
    let ss = src.bytes_per_row in
    let ds = dst.bytes_per_row in
    let s = pixel_at src bpp x y in
    let d = pixel_at dst bpp dx dy in
    let rop = decode_rop opcode in
    let sn : len ≤ ss = omega arith in
    let dn : len ≤ ds = omega arith in
    let bytes = some_bytes w h format pixels in
    let copy = copy_rect-Apart len ss ds h s d mem a sn dn apart exec copies bytes in
    let e1 = ==-ne src.memory 0 n in
    let e2 = ==-ne dst.memory 0 m in
    let e3 = ==-ne src.memory dst.memory ne in
    elim (Bool-cases (rop == 0xC)) [
      | inl c ↦
          rw (e1, e2, e3, pixels, c)
            (copy
              ∙ op_area source (rop_op rop) len ss ds h s d mem a
                  (λ k x y. rop_op-copy rop k x y (inl c)))
      | inr c ↦ elim (Bool-cases (rop == 0)) [
        | inl z ↦
            rw (e1, e2, e3, pixels, c, z)
              (fill_rect_bytes-area len ds h d 0 mem a bytes dn
                ∙ area-unary (constant 0) len ds ss ds h d s d mem a (λ k s s' d. refl)
                ∙ op_area (constant 0) (rop_op rop) len ss ds h s d mem a
                    (λ k x y. rop_op-clear rop k x y z))
        | inr z ↦ elim (Bool-cases (rop == 0xF)) [
          | inl f ↦
              rw (e1, e2, e3, pixels, c, z, f)
                (fill_rect_bytes-area len ds h d 0xFF mem a bytes dn
                  ∙ area-unary (constant 0xFF) len ds ss ds h d s d mem a (λ k s s' d. refl)
                  ∙ op_area (constant 0xFF) (rop_op rop) len ss ds h s d mem a
                      (λ k x y. rop_op-set rop k x y f))
          | inr f ↦ elim (Bool-cases (rop == 5)) [
            | inl i ↦
                rw (e1, e2, e3, pixels, c, z, f, i)
                  (xor_rect_with_const-area len ds h d mem a dn
                    ∙ area-unary inverted len ds ss ds h d s d mem a (λ k s s' d. refl)
                    ∙ op_area inverted (rop_op rop) len ss ds h s d mem a
                        (λ k x y. rop_op-invert rop k x y i))
            | inr i ↦ elim (Bool-cases (rop == 6)) [
              | inl o ↦
                  rw (e1, e2, e3, pixels, c, z, f, i, o)
                    (xor_rect_with_src-area len ss ds h s d mem a sn dn apart
                      ∙ op_area xor_source (rop_op rop) len ss ds h s d mem a
                          (λ k x y. rop_op-xor rop k x y o))
              | inr o ↦
                  rw (e1, e2, e3, pixels, c, z, f, i, o)
                    (copy
                      ∙ op_area source (rop_op rop) len ss ds h s d mem a
                          (λ k x y. rop_op-copy rop k x y (inr (z, f, i, o))))
            ]
          ]
        ]
      ]
    ]
