-- ===== src/Flush/Frames.antt =====
-- chip_flush_all and chip_swap_buffers (src/chip/chip_flush.c): the two framebuffers, of which one
-- is shown while the next frame is made in the other.
use virt_iogpu.Prelude.{ℕ, Bool, true, false, not, ◌&&◌, ◌||◌, ◌==◌, if◌then◌else◌}
use virt_iogpu.Blit.Memory.{Mem}
use virt_iogpu.Blit.Rect.{no_area}
use virt_iogpu.Gpu.Wire.{Rect}
use virt_iogpu.Gpu.Command.{Command, Call}
use virt_iogpu.Gpu.Request.{Log, Host, Features, perform}
use virt_iogpu.Flush.Screen.{Screen, max_w, max_h, convert_rect}

-- A framebuffer: the fields of `struct ChipGPUState` that chip_swap_buffers exchanges.
pub record Frame : Type 0 where
  pub mem : ℕ
  pub phys : ℕ
  pub dma_count : ℕ
  pub dma_list : ℕ
  pub resource_id : ℕ
  pub virgl_resource : ℕ

pub record Frames : Type 0 where
  pub front : Frame
  pub back : Frame
  pub resource_id : ℕ
  pub double_buffer : Bool
  pub virgl_2d_ready : Bool
  pub virgl_ctx_error : Bool
  pub virgl_2d_ctx : ℕ
  pub fb_is_blob : Bool
  pub has_blob : Bool
  pub has_cmd3d_buf : Bool

unfoldable pub swap_buffers : Frames → Frames
swap_buffers s = record s {
  front = s.back;
  back = s.front;
  resource_id =
      if s.virgl_2d_ready && (not s.virgl_ctx_error && not (s.back.virgl_resource == 0))
      then s.back.virgl_resource
      else s.back.resource_id;
}

abbrev pub features : Frames → Features
features s = record {
  has_blob = s.has_blob;
  fb_is_blob = s.fb_is_blob;
  fb_resource_id = s.front.resource_id;
  has_cmd3d_buf = s.has_cmd3d_buf;
}

abbrev pub whole : Screen → Rect
whole screen = record { x = 0; y = 0; width = max_w screen; height = max_h screen }

-- A command of the driver, which has no stream.
abbrev pub send : Frames → Host → Call → Log → Bool × Log
send s host c log = perform (features s) host c (λ i. 0) log

abbrev pub transfer_2d : Frames → Screen → Host → ℕ → Log → Bool × Log
transfer_2d s screen host res_2d log = send s host (Command.to_host_2d res_2d (whole screen) 0) log

-- The transfer of the whole frame: by the 3D command where it can be, else by the 2D one. The
-- second component says whether the 3D command has failed.
unfoldable pub transfer : Frames → Screen → Host → Bool → ℕ → ℕ → Log → Bool × Bool × Log
transfer s screen host use_virgl res_3d res_2d log =
    let call = Command.to_host_3d (record {
      ctx_id = s.virgl_2d_ctx;
      resource_id = res_3d;
      level = 0;
      stride = screen.fb_stride;
      layer_stride = 0;
      offset = 0;
      region = record { x = 0; y = 0; z = 0; w = max_w screen; h = max_h screen; d = 1 };
    }) in
    let (ok, log') = send s host call log in
    let (ok_2d, log_2d) = transfer_2d s screen host res_2d log in
    let (ok_again, log_again) = transfer_2d s screen host res_2d log' in
    if use_virgl
    then if ok then (true, false, log') else (ok_again, true, log_again)
    else (ok_2d, false, log_2d)

abbrev pub poisoned : Frames → Bool → Frames
poisoned s failed = record s { virgl_ctx_error = s.virgl_ctx_error || failed }

-- The frame is made in the buffer that is shown.
unfoldable pub flush_single : Frames → Screen → Host → Log → Frames × Log
flush_single s screen host log =
    let use_virgl = s.virgl_2d_ready && not s.virgl_ctx_error in
    let (ok, failed, log') =
      transfer s screen host use_virgl s.resource_id s.front.resource_id log in
    let s' = poisoned s failed in
    let res =
      if s'.virgl_ctx_error || not s'.virgl_2d_ready
      then s'.front.resource_id
      else s'.resource_id in
    (s', if ok then (send s' host (Command.flush res (whole screen)) log').1 else log')

-- The frame is made in the other buffer, which is shown afterwards, whatever SET_SCANOUT answers.
-- The driver has this path, but chip_InitCard_C makes no second framebuffer: it sets double_buffer
-- to FALSE and fb_mem2 to NULL.
unfoldable pub flush_double : Frames → Screen → Host → Log → Frames × Log
flush_double s screen host log =
    let use_virgl =
      s.virgl_2d_ready && (not s.virgl_ctx_error && not (s.back.virgl_resource == 0)) in
    let (ok, failed, log') =
      transfer s screen host use_virgl s.back.virgl_resource s.back.resource_id log in
    let s' = poisoned s failed in
    let res = if use_virgl && not failed then s.back.virgl_resource else s.back.resource_id in
    let shown = (send s' host (Command.scanout 0 res (whole screen)) log').1 in
    let flushed = (send s' host (Command.flush res (whole screen)) shown).1 in
    if ok then (swap_buffers s', flushed) else (s', log')

unfoldable pub flush_all :
    Frames → Screen → (ℕ → ℕ) → (ℕ → ℕ) → Host → Log → Mem → (Frames × Log) × Mem
flush_all s screen palette bits host log mem =
    let w = max_w screen in
    let h = max_h screen in
    if (s.front.mem == 0) || no_area w h
    then ((s, log), mem)
    else if not s.double_buffer || (s.back.mem == 0)
    then (flush_single s screen host log, convert_rect screen palette bits s.front.mem 0 0 w h mem)
    else (flush_double s screen host log, convert_rect screen palette bits s.back.mem 0 0 w h mem)
