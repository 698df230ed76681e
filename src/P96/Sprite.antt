-- ===== src/P96/Sprite.antt =====
-- The sprite callbacks of src/chip/chip_p96.c.
use virt_iogpu.Prelude.{
  ℕ, zero, suc, ◌+◌, ◌-◌, ◌*◌, ◌/◌, ◌%◌, ◌^◌, Bool, false, ◌&&◌, ◌||◌, not, Option, none, some, ltb,
  ◌==◌, if◌then◌else◌, update,
}
use virt_iogpu.Modes.Table.{ModeInfo}
use virt_iogpu.Gpu.Request.{Host, Features}
use virt_iogpu.Flush.Convert.{pack}
use virt_iogpu.P96.Resize.{Memory}
use virt_iogpu.P96.State.{BoardInfo, Chip}
use virt_iogpu.P96.Cursor.{cursor_create, cursor_update, cursor_move}

unfoldable pub set_sprite : Bool → Chip → Bool × Chip
set_sprite activate c = (activate, record c { cursor = record c.cursor { visible = activate } })

-- `(WORD)(a - b)`
abbrev pub word_sub : ℕ → ℕ → ℕ
word_sub a b = (a + 2 ^ 16 - b) % 2 ^ 16

-- A WORD with its sign shifted away: the numbers stand in the order of the WORDs.
abbrev pub shifted : ℕ → ℕ
shifted v = (v + 2 ^ 15) % 2 ^ 16

abbrev pub word_lt : ℕ → ℕ → Bool
word_lt a b = ltb (shifted a) (shifted b)

-- `if (v > limit) v = limit` and `if (v < limit) v = limit`.
abbrev pub at_most : ℕ → ℕ → ℕ
at_most limit v = if word_lt limit v then limit else v

abbrev pub at_least : ℕ → ℕ → ℕ
at_least limit v = if word_lt v limit then limit else v

abbrev pub mode_limit : Option ℕ → ℕ → ℕ
mode_limit none v = v
mode_limit (some limit) v = at_most limit v

abbrev pub mode_width : Option ModeInfo → Option ℕ
mode_width none = none
mode_width (some mi) = some mi.width

abbrev pub mode_height : Option ModeInfo → Option ℕ
mode_height none = none
mode_height (some mi) = some mi.height

-- A coordinate behind the panned origin, at most the mode's size, and at least `1 - size`.
unfoldable pub sprite_place : ℕ → Option ℕ → ℕ → ℕ → ℕ
sprite_place origin limit size v = at_least (word_sub 1 size) (mode_limit limit (word_sub v origin))

abbrev pub placed_x : BoardInfo → ℕ → ℕ
placed_x bi x = sprite_place bi.x_offset (mode_width bi.mode_info) bi.mouse_width x

abbrev pub placed_y : BoardInfo → ℕ → ℕ
placed_y bi y = sprite_place bi.y_offset (mode_height bi.mode_info) bi.mouse_height y

unfoldable pub set_sprite_position : Bool → ℕ → ℕ → Chip → Chip
set_sprite_position accepted x y c =
    let vx = placed_x c.board x in
    let vy = placed_y c.board y in
    let cur = record c.cursor { x = vx; y = vy } in
    let refreshed = record (cursor_move accepted vx vy cur) {
      last_sent_x = vx;
      last_sent_y = vy;
      needs_refresh = false;
    } in
    if (cur.needs_refresh && cur.created)
      && (not (vx == cur.last_sent_x) || not (vy == cur.last_sent_y))
    then record c { cursor = refreshed }
    else record c { cursor = cur }

unfoldable pub set_sprite_color : ℕ → ℕ → ℕ → ℕ → Chip → Chip
set_sprite_color idx r g b c =
    if ltb 2 idx
    then c
    else record c { cursor = record c.cursor { colors = update c.cursor.colors idx (r, g, b) } }

abbrev pub opaque : ℕ × ℕ × ℕ → ℕ
opaque (r, g, b) = pack r g b + 0xFF

-- `colors[k]`: transparent, then the three colours, opaque.
abbrev pub sprite_colors : (ℕ → ℕ × ℕ × ℕ) → ℕ → ℕ
sprite_colors palette zero = 0
sprite_colors palette (suc k) = opaque (palette k)

-- The 16 or 32 bits of the data (`part` 0) or the mask (1) of a row, the leftmost highest of 32.
unfoldable pub sprite_bits : (ℕ → ℕ) → Bool → ℕ → ℕ → ℕ
sprite_bits image wide part row =
    let a = (row + 1) * 8 + part * 4 in
    let b = (row + 1) * 4 + part * 2 in
    if wide
    then image a * 2 ^ 24 + image (a + 1) * 2 ^ 16 + image (a + 2) * 2 ^ 8 + image (a + 3)
    else (image b * 2 ^ 8 + image (b + 1)) * 2 ^ 16

abbrev pub bit_at : ℕ → ℕ → ℕ
bit_at bits col = bits / 2 ^ (31 - col) % 2

-- `(m << 1) | d`
abbrev pub sprite_index : (ℕ → ℕ) → Bool → ℕ → ℕ → ℕ
sprite_index image wide row col =
    bit_at (sprite_bits image wide 1 row) col * 2 + bit_at (sprite_bits image wide 0 row) col

module _ (image : ℕ → ℕ) (wide : Bool) (colors : ℕ → ℕ) where
  -- The columns of a row from `col` on.
  unfoldable pub sprite_row : ℕ → ℕ → ℕ → (ℕ → ℕ) → ℕ → ℕ
  sprite_row zero col row pixels = pixels
  sprite_row (suc n) col row pixels =
      sprite_row n (col + 1) row
        (update pixels (row * 64 + col) (colors (sprite_index image wide row col)))

  -- The rows from `row` on, of `bits` pixels.
  unfoldable pub sprite_rows : ℕ → ℕ → ℕ → (ℕ → ℕ) → ℕ → ℕ
  sprite_rows bits zero row pixels = pixels
  sprite_rows bits (suc n) row pixels = sprite_rows bits n (row + 1) (sprite_row bits 0 row pixels)

abbrev pub capped_64 : ℕ → ℕ
capped_64 n = if ltb 64 n then 64 else n

-- The bits of a row that are used.
abbrev pub row_bits : ℕ → ℕ
row_bits mw = let bits = if ltb 16 mw then 32 else 16 in if ltb mw bits then mw else bits

-- The image behind the two tests for a size of 0 and for no image.
abbrev pub sprite_image : (ℕ → ℕ) → (ℕ → ℕ × ℕ × ℕ) → ℕ → ℕ → ℕ → ℕ
sprite_image image palette mw mh =
    sprite_rows image (ltb 16 mw) (sprite_colors palette) (row_bits mw) mh 0 (λ i. 0)

module _ (g : Features) (host : Host) (accepted : Bool) where
  -- The part behind chip_CursorCreate, where there is an image.
  unfoldable pub upload_image : (ℕ → ℕ) → Chip → Chip
  upload_image image c =
      let bi = c.board in
      let mw = capped_64 bi.mouse_width in
      let mh = capped_64 bi.mouse_height in
      let cur = record c.cursor {
        w = mw;
        h = mh;
        pixels = sprite_image image c.cursor.colors mw mh;
        x = word_sub bi.mouse_x bi.x_offset;
        y = word_sub bi.mouse_y bi.y_offset;
        hot_x = bi.mouse_x_offset;
        hot_y = bi.mouse_y_offset;
      } in
      cursor_update g host accepted bi.mouse_x_offset bi.mouse_y_offset (record c { cursor = cur })

  abbrev pub image_or_none : Option (ℕ → ℕ) → Chip → Chip
  image_or_none none c = record c {
    cursor = record c.cursor {
      w = capped_64 c.board.mouse_width;
      h = capped_64 c.board.mouse_height;
      pixels = λ i. 0;
    };
  }
  image_or_none (some image) c = upload_image image c

  -- What follows chip_CursorCreate.
  abbrev pub after_create : Bool × Chip → Chip
  after_create (created, c) =
      if not created
      then c
      else if c.cursor.memory == 0
      then c
      else if (c.board.mouse_width == 0) || (c.board.mouse_height == 0)
      then record c { cursor = record c.cursor { pixels = λ i. 0 } }
      else image_or_none c.board.mouse_image c

  unfoldable pub set_sprite_image : Memory → Chip → Chip
  set_sprite_image kernel c = after_create (cursor_create g host kernel c)
