-- ===== src/Flush/Presented.antt =====
-- What the device gets for a frame of chip_flush_all (src/chip/chip_flush.c) with one framebuffer.
use virt_iogpu.Prelude.{ℕ, ◌≡◌, ◌⊎◌, true, false, if◌then◌else◌}
use virt_iogpu.Gpu.Command.{Command, Call}
use virt_iogpu.Gpu.Request.{Log, Host}
use virt_iogpu.Flush.Screen.{Screen, max_w, max_h}
use virt_iogpu.Flush.Frames.{Frames, whole, send}

-- The transfer of the whole frame to a resource by the 3D command.
abbrev pub whole_3d : Frames → Screen → ℕ → Call
whole_3d s screen res = Command.to_host_3d (record {
  ctx_id = s.virgl_2d_ctx;
  resource_id = res;
  level = 0;
  stride = screen.fb_stride;
  layer_stride = 0;
  offset = 0;
  region = record { x = 0; y = 0; z = 0; w = max_w screen; h = max_h screen; d = 1 };
})

abbrev pub whole_2d : Screen → ℕ → Call
whole_2d screen res = Command.to_host_2d res (whole screen) 0

-- What the device gets for a frame, behind the requests of `log`.
pub data Sent (s : Frames) (screen : Screen) (host : Host) (log : Log) : Log → Type 0 where
  -- The 3D command transfers the frame to the 3D resource, which is flushed.
  by_3d :
      (after : Log)
      → s.virgl_ctx_error ≡ false
      → send s host (whole_3d s screen s.resource_id) log ≡ (true, after)
      → Sent s screen host log (send s host (Command.flush s.resource_id (whole screen)) after).1
  -- The 2D command does it, as the first command or because the 3D command has failed.
  by_2d :
      (before after : Log)
      → (before ≡ log) ⊎ (send s host (whole_3d s screen s.resource_id) log ≡ (false, before))
      → send s host (whole_2d screen s.front.resource_id) before ≡ (true, after)
      → Sent s screen host log
          (send s host (Command.flush s.front.resource_id (whole screen)) after).1
  -- No transfer succeeds, and nothing is flushed.
  refused :
      (before after : Log)
      → (before ≡ log) ⊎ (send s host (whole_3d s screen s.resource_id) log ≡ (false, before))
      → send s host (whole_2d screen s.front.resource_id) before ≡ (false, after)
      → Sent s screen host log after

module _ (s : Frames) (screen : Screen) (host : Host) (log : Log) where
  -- What the device gets by the 2D command, and by the 3D command with the 2D one behind it.
  abbrev end_2d : Log → Log
  end_2d before =
      let (ok, after) = send s host (whole_2d screen s.front.resource_id) before in
      if ok then (send s host (Command.flush s.front.resource_id (whole screen)) after).1 else after

  abbrev end_3d : Log
  end_3d =
      let (ok, after) = send s host (whole_3d s screen s.resource_id) log in
      if ok
      then (send s host (Command.flush s.resource_id (whole screen)) after).1
      else end_2d after
