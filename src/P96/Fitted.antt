-- ===== src/P96/Fitted.antt =====
-- The size of the framebuffer that chip_resize_fb_to_mode leaves (src/chip/chip_init.c), and the
-- ids of chip_alloc_resource_id (include/chip/chip_state.h).
use virt_iogpu.Prelude.{
  ℕ, ◌*◌, ◌%◌, ◌^◌, ◌<◌, ◌≡◌, refl, Bool, true, false, ◌&&◌, ◌||◌, List, ◌==◌, arith, if-elim,
}
use native.Mathlib.Nat.{mod-eq_of_lt}
use virt_iogpu.Gpu.Command.{Command}
use virt_iogpu.Gpu.Request.{Host, Features}
use virt_iogpu.P96.Resize.{
  Fb, is_reserved, free_id, alloc_resource_id, Use, Memory, Resize, memory_taken, send_on,
  replace_fb, make_fb, resize_fb_to_mode,
}

-- The rows fill the framebuffer.
abbrev pub IsFilled : Fb → Type 0
IsFilled fb = (fb.stride ≡ fb.width * 4) × (fb.size ≡ fb.height * fb.stride)

-- After a success the framebuffer has the size asked for; after a failure it is the old one, but
-- for the ids that are used up.
abbrev pub Fits : ℕ → ℕ → Fb → Bool × Resize → Type 0
Fits w h old (true, s) = (s.fb.width ≡ w) × (s.fb.height ≡ h) × IsFilled s.fb
Fits w h old (false, s) = s.fb ≡ record old { next_resource_id = s.fb.next_resource_id }

module _ (g : Features) (host : Host) (memory : Memory) where
  make_fb-Fits :
      (size w h : ℕ) (s : Resize) (uses : List Use)
      → w * 4 < 2 ^ 32
      → h * (w * 4) < 2 ^ 32
      → Fits w h s.fb (make_fb g host memory size w h s.fb s.log uses)
  unfolding make_fb replace_fb alloc_resource_id
  make_fb-Fits size w h s uses p q =
      let id = (alloc_resource_id s.fb).0 in
      let create = send_on g host memory (Command.new_2d id 2 w h) s.log in
      let attach =
        send_on g host memory (Command.attach id (memory.entries, memory.dma_count)) create.1 in
      let show =
        send_on g host memory
          (Command.scanout 0 id (record { x = 0; y = 0; width = w; height = h })) attach.1 in
      if-elim (Fits w h s.fb) create.0 _ _
        (λ e1.
          if-elim (Fits w h s.fb) attach.0 _ _
            (λ e2.
              if-elim (Fits w h s.fb) show.0 _ _
                (λ e3. (refl, refl, (mod-eq_of_lt p, rw (mod-eq_of_lt p) (mod-eq_of_lt q))))
                (λ e3. refl))
            (λ e2. refl))
        (λ e1. refl)

  -- When chip_resize_fb_to_mode returns TRUE, the framebuffer has the size asked for and its rows
  -- fill it; when it returns FALSE, the old framebuffer is still in place. Conditions: the bytes of
  -- the new framebuffer are a uint32, and the old one's rows fill it.
  pub resize_fb_to_mode-Fits :
      (w h : ℕ) (s : Resize)
      → w * 4 < 2 ^ 32
      → h * (w * 4) < 2 ^ 32
      → IsFilled s.fb
      → Fits w h s.fb (resize_fb_to_mode g host memory w h s)
  unfolding resize_fb_to_mode
  resize_fb_to_mode-Fits w h s p q f =
      if-elim (Fits w h s.fb) ((w == 0) || (h == 0)) _ _ (λ e. refl)
        (λ e0.
          if-elim (Fits w h s.fb) ((w == s.fb.width) && (h == s.fb.height)) _ _
            (λ e. (ground arith, ground arith, f))
            (λ e1.
              if-elim (Fits w h s.fb) (memory.block == 0) _ _ (λ e. refl)
                (λ e2.
                  if-elim (Fits w h s.fb) (memory.dma_count == 0) _ _ (λ e. refl)
                    (λ e3.
                      if-elim (Fits w h s.fb) (memory.dma_list == 0) _ _ (λ e. refl)
                        (λ e4.
                          make_fb-Fits (h * (w * 4 % 2 ^ 32) % 2 ^ 32) w h s
                            (memory_taken memory (h * (w * 4 % 2 ^ 32) % 2 ^ 32) s.uses) p q)))))

-- The id that chip_alloc_resource_id returns is none of the two framebuffers' and not the cursor's.
-- Condition: the next id is a uint32.
pub alloc_resource_id-free :
    (fb : Fb) → fb.next_resource_id < 2 ^ 32 → is_reserved fb (alloc_resource_id fb).0 ≡ false
unfolding alloc_resource_id free_id
alloc_resource_id-free fb h = ground arith
