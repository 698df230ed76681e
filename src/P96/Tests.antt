-- ===== src/P96/Tests.antt =====
-- A small board for src/chip/chip_p96.c, and runs of its callbacks.
use virt_iogpu.Prelude.{
  ℕ, ◌+◌, ◌≡◌, refl, inl, ◌-◌, ◌^◌, List, [], ◌∷◌, Bool, true, false, none, some, arith, ◌==◌,
  if◌then◌else◌, All,
}
use virt_iogpu.Word.{bswap16, bswap32}
use virt_iogpu.Blit.Rect.{Format}
use virt_iogpu.Modes.Table.{ModeInfo}
use virt_iogpu.Gpu.Request.{Host, Features, perform, once, attempts, response_type, expected}
use virt_iogpu.Flush.Screen.{convert_rect}
use virt_iogpu.P96.Nearest.{IsNearest, resolve_pixel_clock-IsNearest}
use virt_iogpu.P96.Clock.{resolve_pixel_clock}
use virt_iogpu.P96.State.{BoardInfo, Active, Cursor, Waker, Chip, shown_screen}
use virt_iogpu.P96.Resize.{
  Fb, Use, Memory, Resize, resize_fb_to_mode, make_fb, replace_fb, alloc_resource_id, free_id,
}
use virt_iogpu.P96.Resized.{Thing, Balanced}
use virt_iogpu.P96.Display.{set_color_array, set_panning}
use virt_iogpu.P96.Palette.{Loads, set_color_array-Loads}
use virt_iogpu.P96.Sprite.{set_sprite_image, set_sprite_position}
use virt_iogpu.P96.Uploaded.{Uploaded, set_sprite_image-Uploaded}
use virt_iogpu.P96.Placement.{Placed, set_sprite_position-Placed}
use virt_iogpu.P96.Soundness.{with_cursor, Sound}
use virt_iogpu.P96.Callbacks.{Callback, call, call_all}
use virt_iogpu.P96.Kept.{IsCall, call_all-Sound}
use virt_iogpu.P96.Inside.{call_all-inside}
use virt_iogpu.P96.Vtable.{VtableSlot, Vtable, fill_boardinfo_vtable, without_drawing}
use virt_iogpu.P96.Slots.{operation, is_drawing, own, fill_boardinfo_vtable-own}
use virt_iogpu.P96.Switch.{Switch, SwitchAnswers, set_display, switch, display, switch_all}
use virt_iogpu.P96.Tasks.{Started, switch_all-once}

abbrev features : Features
features = record {
  has_blob = false;
  fb_is_blob = false;
  fb_resource_id = 1;
  has_cmd3d_buf = false;
}

-- A device that accepts everything.
abbrev willing : Host
willing log = record { written = 24; resp = λ i. bswap32 0x1100 }

abbrev mode : ℕ → ℕ → ℕ → ModeInfo
mode w h clock = record {
  width = w;
  height = h;
  depth = 8;
  flags = 0;
  hor_total = 800;
  hor_blank_size = 0;
  hor_sync_start = 0;
  hor_sync_size = 0;
  ver_total = 525;
  ver_blank_size = 0;
  ver_sync_start = 0;
  ver_sync_size = 0;
  clock = 0;
  clock_div = 0;
  pixel_clock = clock;
}

-- The clock asked for lies between the 65 and the 74.25 MHz of the table.
resolve_pixel_clock-IsNearest_example :
    IsNearest 70000000 (resolve_pixel_clock (some (mode 640 480 0)) 70000000).0
resolve_pixel_clock-IsNearest_example =
    resolve_pixel_clock-IsNearest (mode 640 480 0) 70000000 (omega arith)

-- The palette has the red 10, the green 20 and the blue 30 in each entry; the sprite's first row
-- has one pixel of each kind.
abbrev board : BoardInfo
board = record {
  memory_base = 0x8000;
  mode_info = some (mode 4 2 25175000);
  depth = 8;
  rgb_format = Format.clut;
  x_offset = 1;
  y_offset = 0;
  clut = λ i. 20;
  mouse_x = 0;
  mouse_y = 1;
  mouse_width = 4;
  mouse_height = 1;
  mouse_x_offset = 0;
  mouse_y_offset = 0;
  mouse_image = some (λ a. if a == 4 then 0b01010000 else if a == 6 then 0b00110000 else 0);
}

abbrev active : Active
active = record {
  format = Format.clut;
  width = 4;
  height = 2;
  bpr = 4;
  refresh_us = 16667;
  panning_mem = 0x8000;
  last_panning_mem = 0x8000;
  panning_width = 4;
  pan_xoff = 0;
  pan_yoff = 0;
  palette = λ i. 0;
  clut_debug_done = false;
  dpms_level = 0;
  vbi_enabled = 0;
}

abbrev fb : Fb
fb = record {
  mem = 1000;
  phys = 0x1000;
  width = 4;
  height = 2;
  stride = 16;
  size = 32;
  dma_count = 1;
  dma_list = 0x5000;
  resource_id = 1;
  fb_resource_id = 1;
  fb_resource_id2 = 3;
  cursor_resource_id = 2;
  next_resource_id = 4;
}

abbrev resize : Resize
resize = record {
  fb = fb;
  log = [];
  uses =
      Use.new_list 0x5000
      ∷ Use.start_dma 1000 32
      ∷ Use.alloc_vec 1000
      ∷ Use.start_dma 0x9000 16384
      ∷ Use.alloc_vec 0x9000
      ∷ [];
}

abbrev cursor : Cursor
cursor = record {
  memory = 0x9000;
  phys = 0x9000;
  resource_id = 2;
  created = true;
  visible = true;
  x = 0;
  y = 0;
  hot_x = 0;
  hot_y = 0;
  w = 4;
  h = 1;
  colors = λ i. (i, i + 1, i + 2);
  needs_refresh = true;
  last_sent_x = 0;
  last_sent_y = 0;
  pixels = λ i. 0;
  has_queue = true;
  sent = [];
}

abbrev waker : Waker
waker = record { flush_task = 7; flush_sig_mask = 1; signals = 0 }

abbrev chip : Chip
chip = record { board = board; active = active; resize = resize; cursor = cursor; waker = waker }

abbrev kernel : Memory
kernel = record {
  block = 2000;
  dma_count = 1;
  dma_list = 0x6000;
  entries = λ i. record { addr = 0x2000; length = 64 };
}

set_color_array-Loads_example : Loads 3 2 chip (set_color_array 3 2 chip) 4
set_color_array-Loads_example = set_color_array-Loads 3 2 chip 4 (λ k. omega arith)

set_sprite_image-Uploaded_example :
    Uploaded chip
      (set_sprite_image features willing true kernel chip)
      (λ a. if a == 4 then 0b01010000 else if a == 6 then 0b00110000 else 0)
set_sprite_image-Uploaded_example =
    set_sprite_image-Uploaded features willing kernel chip
      (λ a. if a == 4 then 0b01010000 else if a == 6 then 0b00110000 else 0) (λ a. ground arith)
      refl refl refl refl refl

-- The pointer at column -9 is put at column -3, where the sprite's last column is seen.
set_sprite_position-Placed_example :
    Placed true (2 ^ 16 - 8) 1 chip (set_sprite_position true (2 ^ 16 - 8) 1 chip)
set_sprite_position-Placed_example =
    set_sprite_position-Placed true (2 ^ 16 - 8) 1 chip (omega arith, omega arith, omega arith)
      (omega arith, omega arith, omega arith)

abbrev no_others : Thing → ℕ
no_others x = 0

balanced : Balanced (with_cursor no_others cursor) resize
balanced (Thing.block a) = omega arith
balanced (Thing.mapping a s) = omega arith
balanced (Thing.list l) = omega arith

sound : Sound no_others chip
sound = record {
  filled = (omega arith, omega arith);
  interval = (omega arith, omega arith);
  balanced = balanced;
  made = inl refl;
}

-- A larger mode, a bitmap, a palette, an image and the power off.
abbrev calls : List Callback
calls =
    Callback.gc kernel (some (mode 8 4 25175000))
    ∷ Callback.panning 0x8000 16 2 1 Format.clut
    ∷ Callback.color_array 0 16
    ∷ Callback.sprite_image true kernel
    ∷ Callback.dpms 3
    ∷ []

allowed : All IsCall calls
allowed = ((omega arith, omega arith), (tt, (tt, (tt, (tt, tt)))))

call_all-Sound_example : Sound no_others (call_all features willing calls chip)
call_all-Sound_example = call_all-Sound no_others features willing calls chip allowed sound

-- A device that accepts everything lets the framebuffer have the new size under a new id.
resized :
    let new = (resize_fb_to_mode features willing kernel 8 4 resize).1.fb in
    (new.mem ≡ 2000) × (new.width ≡ 8) × (new.size ≡ 128) × (new.resource_id ≡ 4)
unfolding resize_fb_to_mode make_fb replace_fb alloc_resource_id free_id perform once attempts
    response_type expected bswap32 bswap16
resized = (refl, refl, refl, refl)

-- A byte below the framebuffer, behind a call that pans.
abbrev panned : Chip
panned = call_all features willing (Callback.panning 0x8000 16 2 1 Format.clut ∷ []) chip

call_all-inside_example :
    convert_rect
      (shown_screen panned)
      panned.active.palette
      (λ a. 3)
      panned.resize.fb.mem
      0
      0
      4
      2
      (λ a. 7)
      5
    ≡ 7
unfolding call_all call set_panning
call_all-inside_example =
    call_all-inside no_others features willing (Callback.panning 0x8000 16 2 1 Format.clut ∷ [])
      chip (λ a. 3) 4 2 (λ a. 7) 5 (tt, tt) sound (omega arith) (omega arith) (inl (omega arith))

fill_boardinfo_vtable-own_example :
    (fill_boardinfo_vtable (λ s. none) VtableSlot.fill_rect_fb
      ≡ own (operation VtableSlot.fill_rect_fb))
    × (without_drawing (fill_boardinfo_vtable (λ s. none)) VtableSlot.fill_rect_fb ≡ (
        if is_drawing (operation VtableSlot.fill_rect_fb)
        then none
        else own (operation VtableSlot.fill_rect_fb)))
fill_boardinfo_vtable-own_example = fill_boardinfo_vtable-own (λ s. none) VtableSlot.fill_rect_fb

-- All is granted, or nothing.
abbrev grants : Bool → SwitchAnswers
grants b = record { library = b; interface = b; process = b; task = b; variable = b }

abbrev table : Vtable
table = fill_boardinfo_vtable (λ s. none)

abbrev fresh : Switch
fresh = record {
  rtg_output_enabled = false;
  flush_running = false;
  has_dos_base = false;
  has_dos = false;
  displayinfo_dumped = false;
  null_vtable_checked = false;
  virgl_2d_ready = false;
  tasks = 0;
  dipf_calls = 0;
  cuts = 0;
  vtable = table;
  waker = waker;
}

-- A refused chip_SetDisplay, one that is granted, and a chip_SetSwitch.
switch_all-once_example :
    let last =
      switch_all
        (switch (grants true) true ∷ [])
        (set_display (grants true) true (switch_all (display (grants false) true ∷ []) fresh)) in
    (last.tasks ≡ 1) × Started table last
switch_all-once_example =
    switch_all-once table (display (grants false) true ∷ []) (switch (grants true) true ∷ [])
      (grants true) fresh (record { running = refl; table = inl (refl, refl) }) refl
