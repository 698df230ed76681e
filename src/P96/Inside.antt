-- ===== src/P96/Inside.antt =====
-- The flush of a screen that any calls of the driver have left (src/chip/chip_p96.c,
-- src/chip/chip_flush.c).
use virt_iogpu.Prelude.{ℕ, ◌+◌, ◌^◌, ◌≤◌, ◌<◌, ◌≡◌, ◌⊎◌, inl, inr, List, All, arith}
use virt_iogpu.Blit.Memory.{Mem}
use virt_iogpu.Flush.Screen.{convert_rect}
use virt_iogpu.Flush.Shown.{convert_rect-inside}
use virt_iogpu.Gpu.Request.{Host, Features}
use virt_iogpu.P96.Resize.{Fb}
use virt_iogpu.P96.Resized.{Thing}
use virt_iogpu.P96.State.{Chip, shown_screen}
use virt_iogpu.P96.Soundness.{Sound}
use virt_iogpu.P96.Callbacks.{Callback, call_all}
use virt_iogpu.P96.Kept.{IsCall, call_all-Sound}

-- A byte that is not of the framebuffer's memory.
abbrev pub Foreign : Fb → ℕ → Type 0
Foreign fb a = (a < fb.mem) ⊎ (fb.mem + fb.size ≤ a)

Sound-inside :
    (others : Thing → ℕ) (c : Chip) (bits : ℕ → ℕ) (w h : ℕ) (mem : Mem) (a : ℕ)
    → Sound others c
    → w < 2 ^ 32
    → h < 2 ^ 32
    → Foreign c.resize.fb a
    → convert_rect (shown_screen c) c.active.palette bits c.resize.fb.mem 0 0 w h mem a ≡ mem a
Sound-inside others c bits w h mem a s p q foreign =
    convert_rect-inside (shown_screen c) c.active.palette bits c.resize.fb.mem 0 0 w h mem a
      record {
        x_visible = omega arith;
        y_visible = omega arith;
        w_small = omega arith;
        h_small = omega arith;
        lines = omega (arith, s.filled.0);
      }
      (elim foreign [ inl l ↦ inl l | inr r ↦ inr (rw (← s.filled.1) r) ])

-- After every sequence of calls of the driver, with any answers of the kernel and the device, a
-- flush of the screen by chip_convert_rect stores no byte outside the framebuffer's memory,
-- whatever the mode, the format and the panning are then. Conditions: the state is sound before,
-- the framebuffer of each mode has a size that is a uint32, and so are the rectangle's sides.
pub call_all-inside :
    (others : Thing → ℕ) (g : Features) (host : Host) (ks : List Callback) (c : Chip) (bits : ℕ → ℕ)
    (w h : ℕ) (mem : Mem) (a : ℕ)
    → All IsCall ks
    → Sound others c
    → w < 2 ^ 32
    → h < 2 ^ 32
    → Foreign (call_all g host ks c).resize.fb a
    → convert_rect
        (shown_screen (call_all g host ks c))
        (call_all g host ks c).active.palette
        bits
        (call_all g host ks c).resize.fb.mem
        0
        0
        w
        h
        mem
        a
      ≡ mem a
call_all-inside others g host ks c bits w h mem a calls s p q foreign =
    Sound-inside others (call_all g host ks c) bits w h mem a
      (call_all-Sound others g host ks c calls s) p q foreign
