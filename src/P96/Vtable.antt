-- ===== src/P96/Vtable.antt =====
-- The function table of `struct BoardInfo` (include/p96/boardinfo.h), as the three fill functions
-- of src/chip/chip_alloc.c, src/chip/chip_blit.c and src/chip/chip_p96.c set it.
use virt_iogpu.Prelude.{Option, none, some}

-- The slots, in their order. A name with `_fb` is for the framebuffer itself.
pub data VtableSlot : Type 0 where
  alloc_card_mem free_card_mem set_switch set_color_array set_dac set_gc set_panning
        calculate_bytes_per_row :
      VtableSlot
  calculate_memory get_compatible_formats set_display resolve_pixel_clock get_pixel_clock set_clock
        set_memory_mode set_write_mask :
      VtableSlot
  set_clear_mask set_read_plane wait_vertical_sync set_interrupt wait_blitter fp21 fp22 fp23 :
      VtableSlot
  fp24 blit_planar_to_chunky blit_planar_to_chunky_fb fill_rect fill_rect_fb invert_rect
        invert_rect_fb blit_rect :
      VtableSlot
  blit_rect_fb blit_template blit_template_fb blit_pattern blit_pattern_fb draw_line draw_line_fb
        blit_rect_no_mask_complete :
      VtableSlot
  blit_rect_no_mask_complete_fb blit_planar_to_direct blit_planar_to_direct_fb fp43 fp44 fp45 fp46
        fp47 :
      VtableSlot
  fp48 fp49 fp50 fp51 fp52 get_v_sync_state get_current_y set_dpms_level : VtableSlot
  reset_chip fp57 alloc_bit_map free_bit_map get_bit_map_attr set_sprite set_sprite_position
        set_sprite_image :
      VtableSlot
  set_sprite_color fp65 fp66 fp67 : VtableSlot

-- A function of the driver by the name of the slot that it is called after: `chip_FillRect` is
-- `chip VtableSlot.fill_rect`, `stub_SetClock` is `stub VtableSlot.set_clock`.
pub data Function : Type 0 where
  chip stub : VtableSlot → Function

-- `none` is NULL.
abbrev pub Vtable : Type 0
Vtable = VtableSlot → Option Function

unfoldable pub alloc_fill_vtable : Vtable → Vtable
alloc_fill_vtable v VtableSlot.alloc_card_mem = some (chip VtableSlot.alloc_card_mem)
alloc_fill_vtable v VtableSlot.free_card_mem = some (chip VtableSlot.free_card_mem)
alloc_fill_vtable v VtableSlot.alloc_bit_map = none
alloc_fill_vtable v VtableSlot.free_bit_map = none
alloc_fill_vtable v VtableSlot.get_bit_map_attr = none
alloc_fill_vtable v s = v s

unfoldable pub blit_fill_vtable : Vtable → Vtable
blit_fill_vtable v VtableSlot.blit_planar_to_chunky = some (chip VtableSlot.blit_planar_to_chunky)
blit_fill_vtable v VtableSlot.blit_planar_to_chunky_fb =
    some (chip VtableSlot.blit_planar_to_chunky)
blit_fill_vtable v VtableSlot.blit_planar_to_direct = some (chip VtableSlot.blit_planar_to_direct)
blit_fill_vtable v VtableSlot.blit_planar_to_direct_fb =
    some (chip VtableSlot.blit_planar_to_direct)
blit_fill_vtable v VtableSlot.fill_rect = some (chip VtableSlot.fill_rect)
blit_fill_vtable v VtableSlot.fill_rect_fb = some (chip VtableSlot.fill_rect)
blit_fill_vtable v VtableSlot.invert_rect = some (chip VtableSlot.invert_rect)
blit_fill_vtable v VtableSlot.invert_rect_fb = some (chip VtableSlot.invert_rect)
blit_fill_vtable v VtableSlot.blit_rect = some (chip VtableSlot.blit_rect)
blit_fill_vtable v VtableSlot.blit_rect_fb = some (chip VtableSlot.blit_rect)
blit_fill_vtable v VtableSlot.blit_template = some (chip VtableSlot.blit_template)
blit_fill_vtable v VtableSlot.blit_template_fb = some (chip VtableSlot.blit_template)
blit_fill_vtable v VtableSlot.blit_pattern = some (chip VtableSlot.blit_pattern)
blit_fill_vtable v VtableSlot.blit_pattern_fb = some (chip VtableSlot.blit_pattern)
blit_fill_vtable v VtableSlot.draw_line = some (chip VtableSlot.draw_line)
blit_fill_vtable v VtableSlot.draw_line_fb = some (chip VtableSlot.draw_line)
blit_fill_vtable v VtableSlot.blit_rect_no_mask_complete =
    some (chip VtableSlot.blit_rect_no_mask_complete)
blit_fill_vtable v VtableSlot.blit_rect_no_mask_complete_fb =
    some (chip VtableSlot.blit_rect_no_mask_complete)
blit_fill_vtable v s = v s

-- The assignments of chip_fill_boardinfo_vtable itself.
unfoldable pub p96_fill_vtable : Vtable → Vtable
p96_fill_vtable v VtableSlot.set_switch = some (chip VtableSlot.set_switch)
p96_fill_vtable v VtableSlot.set_color_array = some (chip VtableSlot.set_color_array)
p96_fill_vtable v VtableSlot.set_dac = some (chip VtableSlot.set_dac)
p96_fill_vtable v VtableSlot.set_gc = some (chip VtableSlot.set_gc)
p96_fill_vtable v VtableSlot.set_panning = some (chip VtableSlot.set_panning)
p96_fill_vtable v VtableSlot.calculate_bytes_per_row =
    some (chip VtableSlot.calculate_bytes_per_row)
p96_fill_vtable v VtableSlot.calculate_memory = some (chip VtableSlot.calculate_memory)
p96_fill_vtable v VtableSlot.get_compatible_formats = some (chip VtableSlot.get_compatible_formats)
p96_fill_vtable v VtableSlot.set_display = some (chip VtableSlot.set_display)
p96_fill_vtable v VtableSlot.resolve_pixel_clock = some (chip VtableSlot.resolve_pixel_clock)
p96_fill_vtable v VtableSlot.get_pixel_clock = some (chip VtableSlot.get_pixel_clock)
p96_fill_vtable v VtableSlot.set_clock = some (stub VtableSlot.set_clock)
p96_fill_vtable v VtableSlot.set_memory_mode = some (stub VtableSlot.set_memory_mode)
p96_fill_vtable v VtableSlot.set_write_mask = some (stub VtableSlot.set_write_mask)
p96_fill_vtable v VtableSlot.set_clear_mask = some (stub VtableSlot.set_clear_mask)
p96_fill_vtable v VtableSlot.set_read_plane = some (stub VtableSlot.set_read_plane)
p96_fill_vtable v VtableSlot.wait_vertical_sync = some (chip VtableSlot.wait_vertical_sync)
p96_fill_vtable v VtableSlot.set_interrupt = some (chip VtableSlot.set_interrupt)
p96_fill_vtable v VtableSlot.wait_blitter = some (stub VtableSlot.wait_blitter)
p96_fill_vtable v VtableSlot.fp21 = some (stub VtableSlot.fp21)
p96_fill_vtable v VtableSlot.fp22 = some (stub VtableSlot.fp22)
p96_fill_vtable v VtableSlot.fp23 = some (stub VtableSlot.fp23)
p96_fill_vtable v VtableSlot.fp24 = some (stub VtableSlot.fp24)
p96_fill_vtable v VtableSlot.fp43 = some (stub VtableSlot.fp43)
p96_fill_vtable v VtableSlot.fp44 = some (stub VtableSlot.fp44)
p96_fill_vtable v VtableSlot.fp45 = some (stub VtableSlot.fp45)
p96_fill_vtable v VtableSlot.fp46 = some (stub VtableSlot.fp46)
p96_fill_vtable v VtableSlot.fp47 = some (stub VtableSlot.fp47)
p96_fill_vtable v VtableSlot.fp48 = some (stub VtableSlot.fp48)
p96_fill_vtable v VtableSlot.fp49 = some (stub VtableSlot.fp49)
p96_fill_vtable v VtableSlot.fp50 = some (stub VtableSlot.fp50)
p96_fill_vtable v VtableSlot.fp51 = some (stub VtableSlot.fp51)
p96_fill_vtable v VtableSlot.fp52 = some (stub VtableSlot.fp52)
p96_fill_vtable v VtableSlot.get_v_sync_state = some (chip VtableSlot.get_v_sync_state)
p96_fill_vtable v VtableSlot.get_current_y = some (chip VtableSlot.get_current_y)
p96_fill_vtable v VtableSlot.set_dpms_level = some (chip VtableSlot.set_dpms_level)
p96_fill_vtable v VtableSlot.reset_chip = some (stub VtableSlot.reset_chip)
p96_fill_vtable v VtableSlot.fp57 = some (stub VtableSlot.fp57)
p96_fill_vtable v VtableSlot.set_sprite = some (chip VtableSlot.set_sprite)
p96_fill_vtable v VtableSlot.set_sprite_position = some (chip VtableSlot.set_sprite_position)
p96_fill_vtable v VtableSlot.set_sprite_image = some (chip VtableSlot.set_sprite_image)
p96_fill_vtable v VtableSlot.set_sprite_color = some (chip VtableSlot.set_sprite_color)
p96_fill_vtable v VtableSlot.fp65 = some (stub VtableSlot.fp65)
p96_fill_vtable v VtableSlot.fp66 = some (stub VtableSlot.fp66)
p96_fill_vtable v VtableSlot.fp67 = some (stub VtableSlot.fp67)
p96_fill_vtable v s = v s

unfoldable pub fill_boardinfo_vtable : Vtable → Vtable
fill_boardinfo_vtable v = p96_fill_vtable (blit_fill_vtable (alloc_fill_vtable v))

-- The slots that are cleared for a comparison with the library's own drawing.
unfoldable pub without_drawing : Vtable → Vtable
without_drawing v VtableSlot.fill_rect = none
without_drawing v VtableSlot.fill_rect_fb = none
without_drawing v VtableSlot.invert_rect = none
without_drawing v VtableSlot.invert_rect_fb = none
without_drawing v VtableSlot.blit_rect = none
without_drawing v VtableSlot.blit_rect_fb = none
without_drawing v VtableSlot.blit_template = none
without_drawing v VtableSlot.blit_template_fb = none
without_drawing v VtableSlot.blit_pattern = none
without_drawing v VtableSlot.blit_pattern_fb = none
without_drawing v VtableSlot.draw_line = none
without_drawing v VtableSlot.draw_line_fb = none
without_drawing v VtableSlot.blit_rect_no_mask_complete = none
without_drawing v VtableSlot.blit_rect_no_mask_complete_fb = none
without_drawing v VtableSlot.blit_planar_to_chunky = none
without_drawing v VtableSlot.blit_planar_to_chunky_fb = none
without_drawing v VtableSlot.blit_planar_to_direct = none
without_drawing v VtableSlot.blit_planar_to_direct_fb = none
without_drawing v s = v s
