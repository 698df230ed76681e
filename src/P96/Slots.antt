-- ===== src/P96/Slots.antt =====
-- Which function each slot has (src/chip/chip_p96.c).
use virt_iogpu.Prelude.{◌≡◌, refl, Bool, true, false, Option, none, some, if◌then◌else◌}
use virt_iogpu.P96.Vtable.{
  VtableSlot, Function, chip, stub, Vtable, alloc_fill_vtable, blit_fill_vtable, p96_fill_vtable,
  fill_boardinfo_vtable, without_drawing,
}

-- The operation that a slot is for.
abbrev pub operation : VtableSlot → VtableSlot
operation VtableSlot.blit_planar_to_chunky_fb = VtableSlot.blit_planar_to_chunky
operation VtableSlot.fill_rect_fb = VtableSlot.fill_rect
operation VtableSlot.invert_rect_fb = VtableSlot.invert_rect
operation VtableSlot.blit_rect_fb = VtableSlot.blit_rect
operation VtableSlot.blit_template_fb = VtableSlot.blit_template
operation VtableSlot.blit_pattern_fb = VtableSlot.blit_pattern
operation VtableSlot.draw_line_fb = VtableSlot.draw_line
operation VtableSlot.blit_rect_no_mask_complete_fb = VtableSlot.blit_rect_no_mask_complete
operation VtableSlot.blit_planar_to_direct_fb = VtableSlot.blit_planar_to_direct
operation s = s

-- The bitmap functions, which the driver leaves to the library.
abbrev pub is_library : VtableSlot → Bool
is_library VtableSlot.alloc_bit_map = true
is_library VtableSlot.free_bit_map = true
is_library VtableSlot.get_bit_map_attr = true
is_library s = false

-- The slots that do nothing.
abbrev pub is_stub : VtableSlot → Bool
is_stub VtableSlot.set_clock = true
is_stub VtableSlot.set_memory_mode = true
is_stub VtableSlot.set_write_mask = true
is_stub VtableSlot.set_clear_mask = true
is_stub VtableSlot.set_read_plane = true
is_stub VtableSlot.wait_blitter = true
is_stub VtableSlot.fp21 = true
is_stub VtableSlot.fp22 = true
is_stub VtableSlot.fp23 = true
is_stub VtableSlot.fp24 = true
is_stub VtableSlot.fp43 = true
is_stub VtableSlot.fp44 = true
is_stub VtableSlot.fp45 = true
is_stub VtableSlot.fp46 = true
is_stub VtableSlot.fp47 = true
is_stub VtableSlot.fp48 = true
is_stub VtableSlot.fp49 = true
is_stub VtableSlot.fp50 = true
is_stub VtableSlot.fp51 = true
is_stub VtableSlot.fp52 = true
is_stub VtableSlot.reset_chip = true
is_stub VtableSlot.fp57 = true
is_stub VtableSlot.fp65 = true
is_stub VtableSlot.fp66 = true
is_stub VtableSlot.fp67 = true
is_stub s = false

-- The drawing operations.
abbrev pub is_drawing : VtableSlot → Bool
is_drawing VtableSlot.fill_rect = true
is_drawing VtableSlot.invert_rect = true
is_drawing VtableSlot.blit_rect = true
is_drawing VtableSlot.blit_template = true
is_drawing VtableSlot.blit_pattern = true
is_drawing VtableSlot.draw_line = true
is_drawing VtableSlot.blit_rect_no_mask_complete = true
is_drawing VtableSlot.blit_planar_to_chunky = true
is_drawing VtableSlot.blit_planar_to_direct = true
is_drawing s = false

abbrev pub own : VtableSlot → Option Function
own s = if is_library s then none else some (if is_stub s then stub s else chip s)

-- Every slot has the driver's function of its own name, a stub where the driver does nothing, the
-- slots for the framebuffer that of the same operation, and only the three bitmap slots are NULL;
-- without_drawing leaves NULL in the drawing operations' slots, of both kinds, and in no other.
pub fill_boardinfo_vtable-own :
    (v : Vtable) (s : VtableSlot)
    → (fill_boardinfo_vtable v s ≡ own (operation s))
      × (without_drawing (fill_boardinfo_vtable v) s
          ≡ (if is_drawing (operation s) then none else own (operation s)))
unfolding fill_boardinfo_vtable p96_fill_vtable blit_fill_vtable alloc_fill_vtable without_drawing
fill_boardinfo_vtable-own v VtableSlot.alloc_card_mem = (refl, refl)
fill_boardinfo_vtable-own v VtableSlot.free_card_mem = (refl, refl)
fill_boardinfo_vtable-own v VtableSlot.set_switch = (refl, refl)
fill_boardinfo_vtable-own v VtableSlot.set_color_array = (refl, refl)
fill_boardinfo_vtable-own v VtableSlot.set_dac = (refl, refl)
fill_boardinfo_vtable-own v VtableSlot.set_gc = (refl, refl)
fill_boardinfo_vtable-own v VtableSlot.set_panning = (refl, refl)
fill_boardinfo_vtable-own v VtableSlot.calculate_bytes_per_row = (refl, refl)
fill_boardinfo_vtable-own v VtableSlot.calculate_memory = (refl, refl)
fill_boardinfo_vtable-own v VtableSlot.get_compatible_formats = (refl, refl)
fill_boardinfo_vtable-own v VtableSlot.set_display = (refl, refl)
fill_boardinfo_vtable-own v VtableSlot.resolve_pixel_clock = (refl, refl)
fill_boardinfo_vtable-own v VtableSlot.get_pixel_clock = (refl, refl)
fill_boardinfo_vtable-own v VtableSlot.set_clock = (refl, refl)
fill_boardinfo_vtable-own v VtableSlot.set_memory_mode = (refl, refl)
fill_boardinfo_vtable-own v VtableSlot.set_write_mask = (refl, refl)
fill_boardinfo_vtable-own v VtableSlot.set_clear_mask = (refl, refl)
fill_boardinfo_vtable-own v VtableSlot.set_read_plane = (refl, refl)
fill_boardinfo_vtable-own v VtableSlot.wait_vertical_sync = (refl, refl)
fill_boardinfo_vtable-own v VtableSlot.set_interrupt = (refl, refl)
fill_boardinfo_vtable-own v VtableSlot.wait_blitter = (refl, refl)
fill_boardinfo_vtable-own v VtableSlot.fp21 = (refl, refl)
fill_boardinfo_vtable-own v VtableSlot.fp22 = (refl, refl)
fill_boardinfo_vtable-own v VtableSlot.fp23 = (refl, refl)
fill_boardinfo_vtable-own v VtableSlot.fp24 = (refl, refl)
fill_boardinfo_vtable-own v VtableSlot.blit_planar_to_chunky = (refl, refl)
fill_boardinfo_vtable-own v VtableSlot.blit_planar_to_chunky_fb = (refl, refl)
fill_boardinfo_vtable-own v VtableSlot.fill_rect = (refl, refl)
fill_boardinfo_vtable-own v VtableSlot.fill_rect_fb = (refl, refl)
fill_boardinfo_vtable-own v VtableSlot.invert_rect = (refl, refl)
fill_boardinfo_vtable-own v VtableSlot.invert_rect_fb = (refl, refl)
fill_boardinfo_vtable-own v VtableSlot.blit_rect = (refl, refl)
fill_boardinfo_vtable-own v VtableSlot.blit_rect_fb = (refl, refl)
fill_boardinfo_vtable-own v VtableSlot.blit_template = (refl, refl)
fill_boardinfo_vtable-own v VtableSlot.blit_template_fb = (refl, refl)
fill_boardinfo_vtable-own v VtableSlot.blit_pattern = (refl, refl)
fill_boardinfo_vtable-own v VtableSlot.blit_pattern_fb = (refl, refl)
fill_boardinfo_vtable-own v VtableSlot.draw_line = (refl, refl)
fill_boardinfo_vtable-own v VtableSlot.draw_line_fb = (refl, refl)
fill_boardinfo_vtable-own v VtableSlot.blit_rect_no_mask_complete = (refl, refl)
fill_boardinfo_vtable-own v VtableSlot.blit_rect_no_mask_complete_fb = (refl, refl)
fill_boardinfo_vtable-own v VtableSlot.blit_planar_to_direct = (refl, refl)
fill_boardinfo_vtable-own v VtableSlot.blit_planar_to_direct_fb = (refl, refl)
fill_boardinfo_vtable-own v VtableSlot.fp43 = (refl, refl)
fill_boardinfo_vtable-own v VtableSlot.fp44 = (refl, refl)
fill_boardinfo_vtable-own v VtableSlot.fp45 = (refl, refl)
fill_boardinfo_vtable-own v VtableSlot.fp46 = (refl, refl)
fill_boardinfo_vtable-own v VtableSlot.fp47 = (refl, refl)
fill_boardinfo_vtable-own v VtableSlot.fp48 = (refl, refl)
fill_boardinfo_vtable-own v VtableSlot.fp49 = (refl, refl)
fill_boardinfo_vtable-own v VtableSlot.fp50 = (refl, refl)
fill_boardinfo_vtable-own v VtableSlot.fp51 = (refl, refl)
fill_boardinfo_vtable-own v VtableSlot.fp52 = (refl, refl)
fill_boardinfo_vtable-own v VtableSlot.get_v_sync_state = (refl, refl)
fill_boardinfo_vtable-own v VtableSlot.get_current_y = (refl, refl)
fill_boardinfo_vtable-own v VtableSlot.set_dpms_level = (refl, refl)
fill_boardinfo_vtable-own v VtableSlot.reset_chip = (refl, refl)
fill_boardinfo_vtable-own v VtableSlot.fp57 = (refl, refl)
fill_boardinfo_vtable-own v VtableSlot.alloc_bit_map = (refl, refl)
fill_boardinfo_vtable-own v VtableSlot.free_bit_map = (refl, refl)
fill_boardinfo_vtable-own v VtableSlot.get_bit_map_attr = (refl, refl)
fill_boardinfo_vtable-own v VtableSlot.set_sprite = (refl, refl)
fill_boardinfo_vtable-own v VtableSlot.set_sprite_position = (refl, refl)
fill_boardinfo_vtable-own v VtableSlot.set_sprite_image = (refl, refl)
fill_boardinfo_vtable-own v VtableSlot.set_sprite_color = (refl, refl)
fill_boardinfo_vtable-own v VtableSlot.fp65 = (refl, refl)
fill_boardinfo_vtable-own v VtableSlot.fp66 = (refl, refl)
fill_boardinfo_vtable-own v VtableSlot.fp67 = (refl, refl)
