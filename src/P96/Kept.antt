-- ===== src/P96/Kept.antt =====
-- Every order of calls keeps the driver's state sound (src/chip/chip_p96.c), and the flush stays
-- inside the framebuffer (src/chip/chip_flush.c).
use virt_iogpu.Prelude.{
  ℕ, ◌+◌, ◌*◌, ◌^◌, ◌<◌, ◌≡◌, ◌⊎◌, refl, sym, subst, Bool, true, false, ◌&&◌, ◌||◌, not, List, [],
  ◌∷◌, Option, none, some, ◌==◌, ltb, if-elim, All,
}
use virt_iogpu.Blit.Rect.{Format, is_clut}
use virt_iogpu.Flush.Screen.{smaller}
use virt_iogpu.Modes.Table.{ModeInfo}
use virt_iogpu.Gpu.Request.{Host, Features}
use virt_iogpu.P96.Clock.{IsInterval, compute_refresh_us-bounds}
use virt_iogpu.P96.Resize.{Fb, Memory, Resize, resize_fb_to_mode}
use virt_iogpu.P96.Fitted.{IsFilled, Fits, resize_fb_to_mode-Fits}
use virt_iogpu.P96.Resized.{Thing, Balanced, resize_fb_to_mode-Balanced}
use virt_iogpu.P96.State.{BoardInfo, Active, Cursor, Chip, signal_activity}
use virt_iogpu.P96.Display.{
  refit, announced, activated, is_unchanged, signalled, set_gc, set_panning, set_color_array,
  set_dpms_level, set_scanout, set_interrupt, same_format,
}
use virt_iogpu.P96.Cursor.{cursor_send, cursor_create, cursor_update, cursor_move}
use virt_iogpu.P96.Sprite.{
  placed_x, placed_y, set_sprite, image_or_none, set_sprite_position, set_sprite_image,
  set_sprite_color, upload_image,
}
use virt_iogpu.P96.Soundness.{held, with_cursor, Sound, cursor_create-Sound}
use virt_iogpu.P96.Callbacks.{Callback, call, call_all}

Fits-IsFilled :
    (w h : ℕ) (old : Fb) (r : Bool × Resize) → IsFilled old → Fits w h old r → IsFilled r.1.fb
Fits-IsFilled w h old (true, s) f (a, b, c) = c
Fits-IsFilled w h old (false, s) f e = subst IsFilled (sym e) f

-- The mode's framebuffer has a size that is a uint32.
abbrev pub IsMode : Option ModeInfo → Type 0
IsMode none = Unit {0}
IsMode (some mi) = (mi.width * 4 < 2 ^ 32) × (mi.height * (mi.width * 4) < 2 ^ 32)

abbrev pub IsCall : Callback → Type 0
IsCall (Callback.gc kernel mi) = IsMode mi
IsCall k = Unit {0}

signalled-Sound : (others : Thing → ℕ) (c : Chip) → Sound others c → Sound others (signalled c)
unfolding signal_activity
signalled-Sound others c s = record {
  filled = s.filled;
  interval = s.interval;
  balanced = s.balanced;
  made = s.made;
}

module _ (others : Thing → ℕ) (g : Features) (host : Host) where
  abbrev IsKept : (Chip → Chip) → Type 0
  IsKept f = (c : Chip) → Sound others c → Sound others (f c)

  resized-Sound :
      (kernel : Memory) (dims_changed : Bool) (c : Chip)
      → c.active.width * 4 < 2 ^ 32
      → c.active.height * (c.active.width * 4) < 2 ^ 32
      → Sound others c
      → Sound others (refit g host kernel dims_changed c)
  unfolding refit
  resized-Sound kernel dims_changed c p q s =
      let w = c.active.width in
      let h = c.active.height in
      if-elim (Sound others) (dims_changed && not (c.resize.fb.mem == 0)) _ _
        (λ e. record {
          filled =
              Fits-IsFilled w h c.resize.fb (resize_fb_to_mode g host kernel w h c.resize) s.filled
                (resize_fb_to_mode-Fits g host kernel w h c.resize p q s.filled);
          interval = s.interval;
          balanced =
              resize_fb_to_mode-Balanced g host kernel (with_cursor others c.cursor) w h c.resize
                s.balanced;
          made = s.made;
        })
        (λ e. s)

  set_gc-Sound :
      (kernel : Memory) (mi : Option ModeInfo) → IsMode mi → IsKept (set_gc g host kernel mi)
  unfolding set_gc
  set_gc-Sound kernel none h c s = s
  set_gc-Sound kernel (some mi) h c s =
      if-elim (Sound others) (is_unchanged mi c.active) _ _
        (λ e. record {
          filled = s.filled;
          interval = compute_refresh_us-bounds (some mi);
          balanced = s.balanced;
          made = s.made;
        })
        (λ e.
          let dims_changed =
            not (c.active.width == mi.width) || not (c.active.height == mi.height) in
          signalled-Sound others _ (
            resized-Sound kernel dims_changed (activated mi (announced mi c)) h.0 h.1 record {
              filled = s.filled;
              interval = compute_refresh_us-bounds (some mi);
              balanced = s.balanced;
              made = s.made;
            }))

  -- Only the display's fields, which keep the interval, and BoardInfo are new.
  shown_anew :
      (bi : BoardInfo) (a : Active) (c : Chip)
      → IsInterval a.refresh_us
      → Sound others c
      → Sound others (record c { board = bi; active = a })
  shown_anew bi a c interval s = record {
    filled = s.filled;
    interval = interval;
    balanced = s.balanced;
    made = s.made;
  }

  -- Only the cursor's fields are new, and neither its buffer nor whether it is made.
  pointed_anew :
      (cur : Cursor) (c : Chip)
      → cur.memory ≡ c.cursor.memory
      → cur.created ≡ c.cursor.created
      → Sound others c
      → Sound others (record c { cursor = cur })
  pointed_anew cur c same_memory same_created s = record {
    filled = s.filled;
    interval = s.interval;
    balanced =
        subst (λ (m : ℕ). Balanced (λ x. held x m + others x) c.resize) (sym same_memory)
          s.balanced;
    made =
        subst (λ (b : Bool). (b ≡ true) ⊎ (cur.memory ≡ 0)) (sym same_created)
          (subst (λ (m : ℕ). (c.cursor.created ≡ true) ⊎ (m ≡ 0)) (sym same_memory) s.made);
  }

  abbrev HasInterval : Active → Type 0
  HasInterval a = IsInterval a.refresh_us

  set_panning-Sound :
      (mem width x y : ℕ) (format : Format) → IsKept (set_panning mem width x y format)
  unfolding set_panning
  set_panning-Sound mem width x y format c s = signalled-Sound others _ (
      shown_anew _ _ c
        (if-elim HasInterval (mem == 0) _ _ (λ e. s.interval)
          (λ e.
            if-elim HasInterval (same_format format c.active.format) _ _ (λ e. s.interval)
              (λ e. s.interval)))
        s)

  set_color_array-Sound : (start count : ℕ) → IsKept (set_color_array start count)
  unfolding set_color_array
  set_color_array-Sound start count c s =
      if-elim (Sound others) (is_clut c.active.format && ltb 1 count) _ _
        (λ e. signalled-Sound others _ (shown_anew c.board _ c s.interval s))
        (λ e. shown_anew c.board _ c s.interval s)

  set_scanout-Sound : (id w h : ℕ) → IsKept (set_scanout g host id w h)
  unfolding set_scanout
  set_scanout-Sound id w h c s = record {
    filled = s.filled;
    interval = s.interval;
    balanced = s.balanced;
    made = s.made;
  }

  set_dpms_level-Sound : (level : ℕ) → IsKept (set_dpms_level g host level)
  unfolding set_dpms_level
  set_dpms_level-Sound level c s =
      let c' = record c { active = record c.active { dpms_level = level } } in
      let s' = shown_anew c.board (record c.active { dpms_level = level }) c s.interval s in
      if-elim (Sound others) (level == 0) _ _
        (λ e. signalled-Sound others _ (
          set_scanout-Sound c.resize.fb.resource_id (smaller c.active.width c.resize.fb.width)
            (smaller c.active.height c.resize.fb.height) c' s'))
        (λ e. set_scanout-Sound 0 0 0 c' s')

  set_sprite_position-Sound :
      (accepted : Bool) (x y : ℕ) → IsKept (set_sprite_position accepted x y)
  unfolding set_sprite_position cursor_move cursor_send
  set_sprite_position-Sound accepted x y c s =
      let vx = placed_x c.board x in
      let vy = placed_y c.board y in
      let cur = record c.cursor { x = vx; y = vy } in
      let moved = cursor_move accepted vx vy cur in
      if-elim (Sound others)
        ((cur.needs_refresh && cur.created)
          && (not (vx == cur.last_sent_x) || not (vy == cur.last_sent_y)))
        _ _
        (λ e.
          pointed_anew _ c
            (if-elim (λ (n : Cursor). n.memory ≡ c.cursor.memory) c.cursor.created _ _ (λ e. refl)
              (λ e. refl))
            (if-elim (λ (n : Cursor). n.created ≡ c.cursor.created) c.cursor.created _ _ (λ e. refl)
              (λ e. refl))
            s)
        (λ e. pointed_anew cur c refl refl s)

  set_sprite_color-Sound : (idx r green b : ℕ) → IsKept (set_sprite_color idx r green b)
  unfolding set_sprite_color
  set_sprite_color-Sound idx r green b c s =
      if-elim (Sound others) (ltb 2 idx) _ _ (λ e. s) (λ e. pointed_anew _ c refl refl s)

  cursor_update-Sound :
      (accepted : Bool) (hot_x hot_y : ℕ) → IsKept (cursor_update g host accepted hot_x hot_y)
  unfolding cursor_update cursor_send
  cursor_update-Sound accepted hot_x hot_y c s =
      if-elim (Sound others) c.cursor.created _ _
        (λ e. record {
          filled = s.filled;
          interval = s.interval;
          balanced = s.balanced;
          made = s.made;
        })
        (λ e. s)

  image_or_none-Sound :
      (accepted : Bool) (image : Option (ℕ → ℕ)) → IsKept (image_or_none g host accepted image)
  unfolding upload_image
  image_or_none-Sound accepted none c s = pointed_anew _ c refl refl s
  image_or_none-Sound accepted (some image) c s =
      cursor_update-Sound accepted c.board.mouse_x_offset c.board.mouse_y_offset _
        (pointed_anew _ c refl refl s)

  set_sprite_image-Sound :
      (accepted : Bool) (kernel : Memory) → IsKept (set_sprite_image g host accepted kernel)
  unfolding set_sprite_image
  set_sprite_image-Sound accepted kernel c s =
      let created = cursor_create g host kernel c in
      let c' = created.1 in
      let s' = cursor_create-Sound others g host kernel c s in
      if-elim (Sound others) (not created.0) _ _ (λ e. s')
        (λ e.
          if-elim (Sound others) (c'.cursor.memory == 0) _ _ (λ e. s')
            (λ e.
              if-elim (Sound others) ((c'.board.mouse_width == 0) || (c'.board.mouse_height == 0)) _
                _ (λ e. pointed_anew _ c' refl refl s')
                (λ e. image_or_none-Sound accepted c'.board.mouse_image c' s')))

  call-Sound : (k : Callback) → IsCall k → IsKept (call g host k)
  unfolding call set_interrupt set_sprite
  call-Sound (Callback.gc kernel mi) h = set_gc-Sound kernel mi h
  call-Sound (Callback.panning mem width x y format) h = set_panning-Sound mem width x y format
  call-Sound (Callback.color_array start count) h = set_color_array-Sound start count
  call-Sound (Callback.interrupt enable) h = λ c s. shown_anew c.board _ c s.interval s
  call-Sound (Callback.dpms level) h = set_dpms_level-Sound level
  call-Sound (Callback.sprite activate) h = λ c s. pointed_anew _ c refl refl s
  call-Sound (Callback.sprite_position accepted x y) h = set_sprite_position-Sound accepted x y
  call-Sound (Callback.sprite_image accepted kernel) h = set_sprite_image-Sound accepted kernel
  call-Sound (Callback.sprite_color idx r green b) h = set_sprite_color-Sound idx r green b
  call-Sound (Callback.library_writes board) h = λ c s. shown_anew board c.active c s.interval s

  -- Every sequence of calls of the driver keeps its state sound: the framebuffer's rows fill it,
  -- the flush interval is that of 30 to 240 pictures a second, no block, DMA mapping or DMA list is
  -- lost or given back twice, whatever the kernel and the device refuse, and the cursor has a
  -- buffer only while it is made. Conditions: the state is sound before, and the framebuffer of
  -- each mode has a size that is a uint32.
  pub call_all-Sound :
      (ks : List Callback) (c : Chip)
      → All IsCall ks
      → Sound others c
      → Sound others (call_all g host ks c)
  unfolding call_all
  call_all-Sound [] c h s = s
  call_all-Sound (k ∷ ks) c h s = call_all-Sound ks (call g host k c) h.1 (call-Sound k h.0 c s)
