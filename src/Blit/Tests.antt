-- ===== src/Blit/Tests.antt =====
-- Blits of src/chip/chip_blit.c in a small bitmap.
use virt_iogpu.Prelude.{◌+◌, ◌*◌, ◌≡◌, refl, [], ◌∷◌, arith, inl}
use virt_iogpu.Blit.Memory.{
  Mem, source, combine, Exec, forward, backward, lmemmove, move_row, rows_up,
}
use virt_iogpu.Blit.Area.{area}
use virt_iogpu.Blit.Clearance.{Copies}
use virt_iogpu.Blit.Rect.{
  Format, format_bpp, RenderInfo, blit_rect, decode_rop, blit_rect_no_mask_complete,
}
use virt_iogpu.Blit.Moved.{blit_rect-area}
use virt_iogpu.Blit.Nmc.{rop_op, blit_rect_no_mask_complete-area}
use virt_iogpu.Blit.Pixels.{pixels, paint}
use virt_iogpu.Blit.Expand.{
  Template, pen_ink, stored_bytes, template_bit, blit_template, BitMap, blit_planar_2_chunky,
}
use virt_iogpu.Blit.Planes.{enabled_bit}
use virt_iogpu.Blit.Expanded.{Painted, binary, blit_planar_2_chunky-Painted}

-- Copy functions that read everything first.
abbrev exec : Exec
exec = record {
  copy_mem = λ s d len mem. combine source len s d mem;
  copy_mem_quick = λ s d len mem. combine source len s d mem;
}

exec-Copies : Copies exec
exec-Copies = record { any = λ s d len mem a h. refl; quick = λ s d len mem a e h. refl }

-- Lines of 16 bytes with pixels of one byte; every byte holds its address.
abbrev bitmap : RenderInfo
bitmap = record { memory = 64; bytes_per_row = 16; format = Format.clut }

abbrev other : RenderInfo
other = record { memory = 256; bytes_per_row = 32; format = Format.clut }

abbrev numbers : Mem
numbers a = a

-- Two rows of four pixels, one line further down and one pixel to the right.
moved_down :
    let mem = blit_rect exec bitmap 2 1 3 2 4 2 numbers in
    mem 99 ∷ mem 102 ∷ mem 103 ∷ mem 115 ∷ mem 118 ∷ mem 98 ∷ []
    ≡ 82 ∷ 85 ∷ 103 ∷ 98 ∷ 101 ∷ 98 ∷ []
unfolding blit_rect format_bpp rows_up move_row lmemmove forward backward
moved_down = refl

blit_rect-area_example :
    blit_rect exec bitmap 2 1 3 2 4 2 numbers 99 ≡ area source (4 * 1) 16 16 2 82 99 numbers 99
unfolding format_bpp
blit_rect-area_example =
    blit_rect-area exec exec-Copies bitmap 2 1 3 2 4 2 numbers 99 (omega arith) refl (omega arith)
      (omega arith)

blit_rect_no_mask_complete-area_example :
    blit_rect_no_mask_complete exec bitmap other 2 1 3 2 4 2 0x60 Format.clut numbers 323
    ≡ area (rop_op (decode_rop 0x60)) (4 * 1) 16 32 2 82 323 numbers 323
unfolding format_bpp
blit_rect_no_mask_complete-area_example =
    blit_rect_no_mask_complete-area exec exec-Copies bitmap other 2 1 3 2 4 2 0x60 Format.clut
      numbers 323 (omega arith) (omega arith) (omega arith) refl (omega arith) (omega arith)
      (inl (omega arith))

abbrev letter : Template
letter = record {
  memory = 512;
  bytes_per_row = 2;
  x_offset = 3;
  draw_mode = 1;
  fg_pen = 9;
  bg_pen = 5;
}

-- Bits 3 and 4 of the template are 0 and 1.
jam_2 :
    let mem = blit_template bitmap letter (λ a. 0x0A) 2 1 2 1 Format.clut numbers in
    mem 81 ∷ mem 82 ∷ mem 83 ∷ mem 84 ∷ [] ≡ 81 ∷ 5 ∷ 9 ∷ 84 ∷ []
unfolding blit_template format_bpp stored_bytes paint pixels pen_ink template_bit
jam_2 = refl

abbrev planes : BitMap
planes = record { bytes_per_row = 2; depth = 3; planes = λ p. 600 + 100 * p }

blit_planar_2_chunky-Painted_example :
    Painted
      (λ row col k old. binary (enabled_bit planes (λ a. 0x55) 7 (0 + col) (0 + row)) 3 0)
      1
      4
      2
      82
      16
      numbers
      (blit_planar_2_chunky planes (λ a. 0x55) bitmap 0 0 2 1 4 2 7 numbers)
blit_planar_2_chunky-Painted_example =
    blit_planar_2_chunky-Painted planes (λ a. 0x55) bitmap 0 0 2 1 4 2 7 numbers (omega arith) refl
      (omega arith)
