-- ===== src/P96/Placement.antt =====
-- Where chip_SetSpritePosition puts the cursor, and what it tells the device
-- (src/chip/chip_p96.c).
use virt_iogpu.Prelude.{
  ℕ, ◌^◌, ◌≤◌, ◌<◌, ◌≡◌, ◌⊎◌, inl, inr, refl, sym, subst, ap, ◌∙◌, Bool, true, false, ◌&&◌, ◌||◌,
  not, ◌∷◌, Option, none, some, ◌==◌, if◌then◌else◌, if-elim, arith, if_on, if_off, not_ltb→le,
  le→not_ltb,
}
use virt_iogpu.Gpu.Command.{Command, Call}
use virt_iogpu.Flush.Screen.{positive}
use virt_iogpu.P96.State.{Cursor, Chip}
use virt_iogpu.P96.Cursor.{cursor_send, cursor_move}
use virt_iogpu.P96.Sprite.{
  word_sub, shifted, word_lt, at_most, at_least, mode_width, mode_height, sprite_place, placed_x,
  placed_y, set_sprite_position,
}

-- `a <= b` for two WORDs.
abbrev pub WordLe : ℕ → ℕ → Type 0
WordLe a b = shifted a ≤ shifted b

-- From the place where the sprite's last pixel is the screen's first one, up to the mode's size. In
-- sight is what is below the mode's size: at the size itself the sprite begins right behind the
-- last pixel, and nothing of it is seen.
abbrev pub InRange : Option ℕ → ℕ → ℕ → Type 0
InRange none size r = WordLe (word_sub 1 size) r
InRange (some limit) size r = WordLe (word_sub 1 size) r × WordLe r limit

-- A sprite that has a width, and a mode whose width is not negative as a WORD.
abbrev pub IsSize : Option ℕ → ℕ → Type 0
IsSize none size = (1 ≤ size) × (size < 2 ^ 8)
IsSize (some limit) size = (1 ≤ size) × (size < 2 ^ 8) × (limit < 2 ^ 15)

at_least-ge : (m v : ℕ) → WordLe m (at_least m v)
at_least-ge m v = if-elim (WordLe m) (word_lt v m) m v (λ e. omega arith) (λ e. not_ltb→le _ _ e)

at_least-le : (m v l : ℕ) → WordLe m l → WordLe v l → WordLe (at_least m v) l
at_least-le m v l p q = if-elim (λ r. WordLe r l) (word_lt v m) m v (λ e. p) (λ e. q)

at_most-le : (l v : ℕ) → WordLe (at_most l v) l
at_most-le l v =
    if-elim (λ r. WordLe r l) (word_lt l v) l v (λ e. omega arith) (λ e. not_ltb→le _ _ e)

sprite_place-InRange :
    (origin : ℕ) (limit : Option ℕ) (size v : ℕ)
    → IsSize limit size
    → InRange limit size (sprite_place origin limit size v)
unfolding sprite_place
sprite_place-InRange origin none size v h = at_least-ge (word_sub 1 size) (word_sub v origin)
sprite_place-InRange origin (some limit) size v h = (
  at_least-ge (word_sub 1 size) (at_most limit (word_sub v origin)),
  at_least-le (word_sub 1 size) (at_most limit (word_sub v origin)) limit (omega arith)
      (at_most-le limit (word_sub v origin)),
)

-- A place in that range is left as it is.
sprite_place-exact :
    (origin : ℕ) (limit : Option ℕ) (size v : ℕ)
    → InRange limit size (word_sub v origin)
    → sprite_place origin limit size v ≡ word_sub v origin
unfolding sprite_place
sprite_place-exact origin none size v h = if_off _ _ _ (le→not_ltb _ _ h)
sprite_place-exact origin (some limit) size v h =
    ap (at_least (word_sub 1 size)) (if_off _ _ _ (le→not_ltb _ _ h.1))
    ∙ if_off _ _ _ (le→not_ltb _ _ h.0)

-- What a call of chip_SetSpritePosition leaves: the cursor in range, at the place that was asked
-- for if that is in range, and at most one MOVE_CURSOR to where it is, which ends the need for one.
pub record Placed (accepted : Bool) (x y : ℕ) (old new : Chip) : Type 0 where
  pub x_in : InRange (mode_width old.board.mode_info) old.board.mouse_width new.cursor.x
  pub y_in : InRange (mode_height old.board.mode_info) old.board.mouse_height new.cursor.y
  pub x_exact :
      InRange (mode_width old.board.mode_info) old.board.mouse_width (word_sub x old.board.x_offset)
      → new.cursor.x ≡ word_sub x old.board.x_offset
  pub y_exact :
      InRange
        (mode_height old.board.mode_info)
        old.board.mouse_height
        (word_sub y old.board.y_offset)
      → new.cursor.y ≡ word_sub y old.board.y_offset
  pub moved :
      ((new.cursor.sent ≡ old.cursor.sent) × (new.cursor.needs_refresh ≡ old.cursor.needs_refresh))
      ⊎ ((old.cursor.needs_refresh ≡ true)
          × (new.cursor.needs_refresh ≡ false)
          × (new.cursor.sent ≡ (
              if old.cursor.has_queue && accepted
              then Command.move_cursor old.cursor.resource_id
                  (positive new.cursor.x)
                  (positive new.cursor.y)
                  0
                  0
                ∷ old.cursor.sent
              else old.cursor.sent)))

-- The parts of a cursor after a command.
record Sent (accepted : Bool) (c : Call) (old new : Cursor) : Type 0 where
  x_kept : new.x ≡ old.x
  y_kept : new.y ≡ old.y
  sent_if : new.sent ≡ (if old.has_queue && accepted then c ∷ old.sent else old.sent)

cursor_send-Sent :
    (accepted : Bool) (c : Call) (cur : Cursor) → Sent accepted c cur (cursor_send accepted c cur)
unfolding cursor_send
cursor_send-Sent accepted c cur = record { x_kept = refl; y_kept = refl; sent_if = refl }

abbrev move_to : ℕ → ℕ → Cursor → Call
move_to x y cur = Command.move_cursor cur.resource_id (positive x) (positive y) 0 0

cursor_move-Sent :
    (accepted : Bool) (x y : ℕ) (cur : Cursor)
    → cur.created ≡ true
    → Sent accepted (move_to x y cur) (record cur { x = x; y = y }) (cursor_move accepted x y cur)
unfolding cursor_move
cursor_move-Sent accepted x y cur created =
    subst (Sent accepted (move_to x y cur) (record cur { x = x; y = y }))
      (sym (if_on _ _ _ created))
      (cursor_send-Sent accepted (move_to x y cur) (record cur { x = x; y = y }))

both_on : (a b c : Bool) → ((a && b) && c) ≡ true → (a ≡ true) × (b ≡ true)
both_on true true c e = (refl, refl)
both_on true false c e = absurd (ground arith)
both_on false b c e = absurd (ground arith)

-- chip_SetSpritePosition puts the cursor at the place asked for, less the panned origin, if that is
-- in the range from where the sprite's last column and row are the screen's first up to the mode's
-- width and height, and else somewhere in this range; at its upper end the cursor begins behind the
-- mode's last column or row and is not seen. It sends the device at most one MOVE_CURSOR, to that
-- place with negative numbers as 0, only when a mode change has asked for it; that ends the
-- request. Conditions: the sprite has a width and a height below 256, and the mode's size is below
-- 2 ^ 15.
pub set_sprite_position-Placed :
    (accepted : Bool) (x y : ℕ) (c : Chip)
    → IsSize (mode_width c.board.mode_info) c.board.mouse_width
    → IsSize (mode_height c.board.mode_info) c.board.mouse_height
    → Placed accepted x y c (set_sprite_position accepted x y c)
unfolding set_sprite_position
set_sprite_position-Placed accepted x y c w h =
    let vx = placed_x c.board x in
    let vy = placed_y c.board y in
    let x_in =
      sprite_place-InRange c.board.x_offset (mode_width c.board.mode_info) c.board.mouse_width x
        w in
    let y_in =
      sprite_place-InRange c.board.y_offset (mode_height c.board.mode_info) c.board.mouse_height y
        h in
    let x_exact =
      sprite_place-exact c.board.x_offset (mode_width c.board.mode_info) c.board.mouse_width x in
    let y_exact =
      sprite_place-exact c.board.y_offset (mode_height c.board.mode_info) c.board.mouse_height y in
    let cur = record c.cursor { x = vx; y = vy } in
    if-elim (Placed accepted x y c)
      ((cur.needs_refresh && cur.created)
        && (not (vx == cur.last_sent_x) || not (vy == cur.last_sent_y)))
      _ _
      (λ e.
        let on = both_on _ _ _ e in
        let s = cursor_move-Sent accepted vx vy cur on.1 in
        let new = cursor_move accepted vx vy cur in
        let Told : ℕ → ℕ → Type 0 = λ p q.
          new.sent ≡ (if cur.has_queue && accepted then move_to p q cur ∷ cur.sent else cur.sent) in
        record {
          x_in =
              subst (InRange (mode_width c.board.mode_info) c.board.mouse_width) (sym s.x_kept)
                x_in;
          y_in =
              subst (InRange (mode_height c.board.mode_info) c.board.mouse_height) (sym s.y_kept)
                y_in;
          x_exact = λ r. s.x_kept ∙ x_exact r;
          y_exact = λ r. s.y_kept ∙ y_exact r;
          moved = inr (
            on.0,
            refl,
            subst (λ (p : ℕ). Told p new.y) (sym s.x_kept)
                (subst (Told vx) (sym s.y_kept) s.sent_if),
          );
        })
      (λ e. record {
        x_in = x_in;
        y_in = y_in;
        x_exact = x_exact;
        y_exact = y_exact;
        moved = inl (refl, refl);
      })
