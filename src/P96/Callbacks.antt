-- ===== src/P96/Callbacks.antt =====
-- The calls that graphics.library makes of the driver's BoardInfo functions (src/chip/chip_p96.c),
-- in any order. Each call that can take memory has the kernel's answers with it. The features that
-- the transfer command asks for (fb_is_blob, fb_resource_id) are those of the start throughout,
-- though a resize gives the framebuffer a new id; they only decide whether a command is sent.
use virt_iogpu.Prelude.{ℕ, Bool, List, [], ◌∷◌, Option}
use virt_iogpu.Blit.Rect.{Format}
use virt_iogpu.Modes.Table.{ModeInfo}
use virt_iogpu.Gpu.Request.{Host, Features}
use virt_iogpu.P96.Resize.{Memory}
use virt_iogpu.P96.State.{BoardInfo, Chip}
use virt_iogpu.P96.Display.{set_gc, set_panning, set_color_array, set_interrupt, set_dpms_level}
use virt_iogpu.P96.Sprite.{set_sprite, set_sprite_position, set_sprite_image, set_sprite_color}

-- The last one is what the library itself writes into BoardInfo between two calls.
pub data Callback : Type 0 where
  gc : Memory → Option ModeInfo → Callback
  panning : ℕ → ℕ → ℕ → ℕ → Format → Callback
  color_array : ℕ → ℕ → Callback
  interrupt : Bool → Callback
  dpms : ℕ → Callback
  sprite : Bool → Callback
  sprite_position : Bool → ℕ → ℕ → Callback
  sprite_image : Bool → Memory → Callback
  sprite_color : ℕ → ℕ → ℕ → ℕ → Callback
  library_writes : BoardInfo → Callback

module _ (g : Features) (host : Host) where
  unfoldable pub call : Callback → Chip → Chip
  call (Callback.gc kernel mi) c = set_gc g host kernel mi c
  call (Callback.panning mem width x y format) c = set_panning mem width x y format c
  call (Callback.color_array start count) c = set_color_array start count c
  call (Callback.interrupt enable) c = (set_interrupt enable c).1
  call (Callback.dpms level) c = set_dpms_level g host level c
  call (Callback.sprite activate) c = (set_sprite activate c).1
  call (Callback.sprite_position accepted x y) c = set_sprite_position accepted x y c
  call (Callback.sprite_image accepted kernel) c = set_sprite_image g host accepted kernel c
  call (Callback.sprite_color idx r green b) c = set_sprite_color idx r green b c
  call (Callback.library_writes board) c = record c { board = board }

  unfoldable pub call_all : List Callback → Chip → Chip
  call_all [] c = c
  call_all (k ∷ ks) c = call_all ks (call k c)
