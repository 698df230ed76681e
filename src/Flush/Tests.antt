-- ===== src/Flush/Tests.antt =====
-- A small screen of src/chip/chip_flush.c.
use virt_iogpu.Prelude.{
  ◌<◌, ℕ, ◌+◌, ◌-◌, ◌/◌, ◌%◌, ◌^◌, ◌≡◌, refl, List, [], ◌∷◌, Bool, not, none, count, true, false,
  some, arith, length,
}
use virt_iogpu.Blit.Memory.{Mem}
use virt_iogpu.Blit.Rect.{Format, format_bpp}
use virt_iogpu.Blit.Pixels.{pixels, paint}
use virt_iogpu.Blit.Expanded.{Painted}
use virt_iogpu.Flush.Convert.{
  conv_r5g6b5, pick_row_converter, Converts, pick_row_converter-Converts,
}
use virt_iogpu.Flush.Screen.{
  Screen, clamp_extent, clamp_pan, load_pixel, convert_rows, convert_rect,
}
use virt_iogpu.Word.{bswap32}
use virt_iogpu.Gpu.Request.{Host, response_type, expected, once, attempts, perform}
use virt_iogpu.Flush.Frames.{Frames, swap_buffers, transfer, flush_double, flush_all}
use virt_iogpu.Flush.Panned.{screen_pixel}
use virt_iogpu.Flush.Shown.{IsPlaced, on_screen, convert_rect-Painted}
use virt_iogpu.Flush.Loop.{
  Loop, Wake, iterate, present, wake_waiter, register, take_timer, arm_timer, Step, step, steps,
  tick, enter, power,
}
use virt_iogpu.Flush.Vsync.{Paced, steps-Paced, enter-signalled}
use virt_iogpu.Flush.Task.{
  Published, offer_of, open_all, run_loop, flush_task_entry, Ended, flush_task_entry-Ended,
}

-- A bitmap of six pixels of two bytes in a line, of which four are shown, from the second on.
abbrev screen : Screen
screen = record {
  board_mem = 100;
  panning_mem = 100;
  panning_width = 6;
  pan_xoff = 1;
  pan_yoff = 0;
  active_format = Format.r5g6b5;
  active_width = 4;
  active_height = 2;
  fb_mem = 1000;
  fb_width = 4;
  fb_height = 2;
  fb_stride = 16;
}

abbrev no_palette : ℕ → ℕ
no_palette i = 0

-- All pixels of the bitmap are white.
abbrev white : ℕ → ℕ
white a = 0xFF

abbrev empty : Mem
empty a = 7

-- The clamped rectangle at column 1 has three pixels in a row; the byte before it stays.
shown_white :
    let mem = convert_rect screen no_palette white 1000 1 0 9 9 empty in
    mem 1003 ∷ mem 1004 ∷ mem 1007 ∷ mem 1015 ∷ mem 1030 ∷ mem 1032 ∷ []
    ≡ 7 ∷ 255 ∷ 0 ∷ 0 ∷ 255 ∷ 7 ∷ []
unfolding convert_rect convert_rows clamp_extent pick_row_converter conv_r5g6b5 pixels paint
    clamp_pan format_bpp load_pixel
shown_white = refl

pick_row_converter-Converts_example :
    Converts Format.r5g6b5 no_palette 0x1234 (pick_row_converter Format.r5g6b5 no_palette)
pick_row_converter-Converts_example =
    pick_row_converter-Converts Format.r5g6b5 no_palette 0x1234 (omega arith)

placed : IsPlaced screen 1 0 9 9
placed = record {
  x_visible = omega arith;
  y_visible = omega arith;
  w_small = omega arith;
  h_small = omega arith;
  lines = omega arith;
}

picked : pick_row_converter Format.r5g6b5 no_palette ≡ some conv_r5g6b5
unfolding pick_row_converter
picked = refl

convert_rect-Painted_example :
    Painted
      (λ row col k old.
        conv_r5g6b5 (screen_pixel screen white (1 + col) (0 + row)) / 256 ^ (3 - k) % 256)
      4
      (on_screen 4 4 1 9)
      (on_screen 2 2 0 9)
      1004
      16
      empty
      (convert_rect screen no_palette white 1000 1 0 9 9 empty)
convert_rect-Painted_example =
    convert_rect-Painted screen no_palette white conv_r5g6b5 1000 1 0 9 9 empty placed (omega arith)
      (omega arith) picked (omega arith) (omega arith)

-- The frame in front is at 1000, the other one at 2000.
abbrev frames : Frames
frames = record {
  front = record {
    mem = 1000;
    phys = 0x1000;
    dma_count = 1;
    dma_list = 0x5000;
    resource_id = 1;
    virgl_resource = 0;
  };
  back = record {
    mem = 2000;
    phys = 0x2000;
    dma_count = 1;
    dma_list = 0x6000;
    resource_id = 3;
    virgl_resource = 0;
  };
  resource_id = 1;
  double_buffer = true;
  virgl_2d_ready = false;
  virgl_ctx_error = false;
  virgl_2d_ctx = 1;
  fb_is_blob = false;
  has_blob = false;
  has_cmd3d_buf = false;
}

-- A device that accepts everything.
abbrev willing : Host
willing log = record { written = 24; resp = λ i. bswap32 0x1100 }

-- The transfer, the scanout and the flush are sent, and the frames are exchanged.
turned :
    let r = (flush_all frames screen no_palette white willing [] empty).0 in
    (r.0.front.mem ≡ 2000) × (r.0.resource_id ≡ 3) × (length r.1 ≡ 3)
unfolding flush_all flush_double transfer perform attempts once response_type expected bswap32
    swap_buffers
turned = (refl, refl, refl)

-- One framebuffer, as the driver sets it up.
abbrev single : Frames
single = record frames { double_buffer = false }

-- A display that is on, and iterations that the timer or an activity begins.
abbrev idle : Loop
idle = record {
  timer_pending = false;
  timers_armed = 0;
  timers_fired = 0;
  iterations = 0;
  cycle = 0;
  dpms_level = 0;
  vsync_phase = 0;
  last_vsync = 0;
  has_timer = true;
  has_device_cfg = true;
  waiter = none;
  signalled = [];
  vbi_enabled = false;
  causes = 0;
  ctx_error = false;
  recoveries = 0;
  flushes = 0;
  display_changes = 0;
}

abbrev wake : Bool → Bool → Wake
wake timer ctrl_c = record {
  quit_before = false;
  ctrl_c = ctrl_c;
  quit_behind = false;
  timer = timer;
  activity = not timer;
  eclock = 5;
  has_handler = false;
  recovers = true;
  events = 0;
}

-- Task 8 enters, the display goes off for an iteration and on again.
abbrev off_and_on : List Step
off_and_on = power 1 ∷ tick (wake false false) ∷ power 0 ∷ []

steps-Paced_example : Paced 8 1 (steps (enter 8 1 ∷ off_and_on) idle)
steps-Paced_example =
    steps-Paced 8 0 (enter 8 1 ∷ off_and_on) idle (record { timers = refl; fair = omega arith })

enter-signalled_example :
    count 8 idle.signalled
    < count 8 (step (tick (wake true false)) (steps (enter 8 1 ∷ off_and_on) idle)).signalled
unfolding steps step register iterate take_timer arm_timer
enter-signalled_example =
    enter-signalled 8 1 off_and_on (wake true false) idle (omega arith) (omega arith)
      (tt, (tt, (tt, tt))) (refl, refl) refl

-- A second task takes the slot, and the first one is never signalled.
overwritten : (steps (enter 8 1 ∷ enter 9 1 ∷ tick (wake true false) ∷ []) idle).signalled ≡ 9 ∷ []
unfolding steps step register iterate present wake_waiter take_timer arm_timer
overwritten = refl

-- No task is signalled while the display is off.
dark :
    (steps
      (power 3 ∷ enter 8 1 ∷ tick (wake true false) ∷ tick (wake true false) ∷ [])
      idle).signalled
    ≡ []
unfolding steps step register iterate present wake_waiter take_timer arm_timer
dark = refl

abbrev unpublished : Published
unpublished = record {
  flush_task = 0;
  flush_sig_mask = 0;
  has_timer = false;
  eclock_freq = 0;
  refresh_us = 0;
}

-- The timer has no interface; the second iteration meets CTRL_C.
flush_task_entry-Ended_example :
    Ended true (offer_of true true true false true) 1000000 unpublished (
      flush_task_entry
        (offer_of true true true false true)
        7
        1
        1000000
        (wake true false ∷ wake true true ∷ [])
        idle
        unpublished)
unfolding open_all run_loop iterate take_timer arm_timer
flush_task_entry-Ended_example =
    flush_task_entry-Ended (offer_of true true true false true) 7 1 1000000
      (wake true false ∷ wake true true ∷ []) idle unpublished refl (refl, refl, refl)
