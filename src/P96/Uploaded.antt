-- ===== src/P96/Uploaded.antt =====
-- chip_SetSpriteImage as a whole: what is in the buffer, and what the device is told
-- (src/chip/chip_p96.c, src/chip/chip_gpu_cmds.c).
use virt_iogpu.Prelude.{
  ℕ, ◌+◌, ◌*◌, ◌^◌, ◌<◌, ◌≡◌, ◌∙◌, ap, Bool, true, false, ◌&&◌, ◌||◌, ◌∷◌, some, ◌==◌, if_on,
  if_off, subst, sym, Option,
}
use virt_iogpu.Gpu.Command.{Command, Call}
use virt_iogpu.Gpu.Request.{Host, Features}
use virt_iogpu.Flush.Screen.{positive}
use virt_iogpu.P96.Resize.{Memory}
use virt_iogpu.P96.State.{Cursor, Chip}
use virt_iogpu.P96.Cursor.{cursor_send, cursor_create, cursor_update}
use virt_iogpu.P96.Sprite.{
  word_sub, capped_64, sprite_image, upload_image, image_or_none, after_create, set_sprite_image,
}
use virt_iogpu.P96.Image.{seen_at, sprite_image-at}

-- The buffer shows the image, and the newest command on the cursor queue shows the buffer, with the
-- pointer's place and its hot spot.
pub record Uploaded (old new : Chip) (image : ℕ → ℕ) : Type 0 where
  pub pixels_at :
      (r k : ℕ)
      → k < 64
      → new.cursor.pixels (r * 64 + k)
        ≡ seen_at image old.cursor.colors old.board.mouse_width old.board.mouse_height r k
  pub told :
      new.cursor.sent
      ≡ Command.update_cursor old.cursor.resource_id
          (positive (word_sub old.board.mouse_x old.board.x_offset))
          (positive (word_sub old.board.mouse_y old.board.y_offset))
          old.board.mouse_x_offset
          old.board.mouse_y_offset
        ∷ old.cursor.sent

sent-cursor_send :
    (c : Call) (cur : Cursor) → cur.has_queue ≡ true → (cursor_send true c cur).sent ≡ c ∷ cur.sent
unfolding cursor_send
sent-cursor_send c cur queue = if_on (cur.has_queue && true) _ _ (ap (λ b. b && true) queue)

module _ (g : Features) (host : Host) where
  set_sprite_image-upload :
      (kernel : Memory) (c : Chip) (image : ℕ → ℕ)
      → c.cursor.created ≡ true
      → (c.cursor.memory == 0) ≡ false
      → ((c.board.mouse_width == 0) || (c.board.mouse_height == 0)) ≡ false
      → c.board.mouse_image ≡ some image
      → set_sprite_image g host true kernel c ≡ upload_image g host true image c
  unfolding set_sprite_image cursor_create
  set_sprite_image-upload kernel c image created memory sized e =
      let made : cursor_create g host kernel c ≡ (true, c) = if_on c.cursor.created _ _ created in
      ap (λ (p : Bool × Chip). after_create g host true p) made
      ∙ (if_off (c.cursor.memory == 0) _ _ memory
          ∙ (if_off ((c.board.mouse_width == 0) || (c.board.mouse_height == 0)) _ _ sized
              ∙ ap (λ (o : Option (ℕ → ℕ)). image_or_none g host true o c) e))

  upload_image-Uploaded :
      (c : Chip) (image : ℕ → ℕ)
      → ((a : ℕ) → image a < 2 ^ 8)
      → c.cursor.created ≡ true
      → c.cursor.has_queue ≡ true
      → Uploaded c (upload_image g host true image c) image
  unfolding upload_image cursor_update cursor_send
  upload_image-Uploaded c image bytes created queue =
      let cur = record c.cursor {
        w = capped_64 c.board.mouse_width;
        h = capped_64 c.board.mouse_height;
        pixels =
            sprite_image image c.cursor.colors (capped_64 c.board.mouse_width)
              (capped_64 c.board.mouse_height);
        x = word_sub c.board.mouse_x c.board.x_offset;
        y = word_sub c.board.mouse_y c.board.y_offset;
        hot_x = c.board.mouse_x_offset;
        hot_y = c.board.mouse_y_offset;
      } in
      let told =
        Command.update_cursor c.cursor.resource_id
          (positive (word_sub c.board.mouse_x c.board.x_offset))
          (positive (word_sub c.board.mouse_y c.board.y_offset)) c.board.mouse_x_offset
          c.board.mouse_y_offset in
      subst (λ (n : Chip). Uploaded c n image) (sym (if_on c.cursor.created _ _ created))
        record {
          pixels_at = λ r k h.
              sprite_image-at image c.cursor.colors c.board.mouse_width c.board.mouse_height r k
                bytes h;
          told = sent-cursor_send told cur queue;
        }

-- The buffer that chip_SetSpriteImage fills shows the sprite's bytes: behind a header of one line,
-- each row has data bits and then mask bits, two bytes of each for a sprite of at most 16 columns
-- and else four, the leftmost pixel in a byte's highest bit; a pixel with neither bit is
-- transparent, and one with the data bit, the mask bit or both has the first, second or third
-- colour, opaque. Of at most 64 rows, at most the first 32 columns are used; every other pixel is
-- transparent. UPDATE_CURSOR tells the device the pointer's place, 0 where it is negative, and its
-- hot spot.
-- Conditions: the cursor's buffer, resource and queue exist, the queue takes the command, the
-- sprite has an image of bytes and is not empty.
pub set_sprite_image-Uploaded :
    (g : Features) (host : Host) (kernel : Memory) (c : Chip) (image : ℕ → ℕ)
    → ((a : ℕ) → image a < 2 ^ 8)
    → c.cursor.created ≡ true
    → c.cursor.has_queue ≡ true
    → (c.cursor.memory == 0) ≡ false
    → ((c.board.mouse_width == 0) || (c.board.mouse_height == 0)) ≡ false
    → c.board.mouse_image ≡ some image
    → Uploaded c (set_sprite_image g host true kernel c) image
set_sprite_image-Uploaded g host kernel c image bytes created queue memory sized e =
    subst (λ (n : Chip). Uploaded c n image)
      (sym (set_sprite_image-upload g host kernel c image created memory sized e))
      (upload_image-Uploaded g host c image bytes created queue)
