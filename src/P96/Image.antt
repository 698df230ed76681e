-- ===== src/P96/Image.antt =====
-- The cursor image that chip_SetSpriteImage makes (src/chip/chip_p96.c), pixel by pixel.
use Prim.Native.Nat.{min}
use virt_iogpu.Prelude.{
  ℕ, zero, suc, ◌+◌, ◌*◌, ◌^◌, ◌≤◌, ◌<◌, ◌≡◌, refl, ◌∙◌, Bool, ◌&&◌, ltb, leb, ◌==◌, if◌then◌else◌,
  arith, update, Bool-cases, inl, inr,
}
use virt_iogpu.P96.Bits.{mask_bit, data_bit, sprite_bits-data_bit, sprite_bits-mask_bit}
use virt_iogpu.P96.Sprite.{
  sprite_colors, sprite_index, sprite_row, sprite_rows, row_bits, sprite_image, sprite_bits, bit_at,
  capped_64,
}

-- Whether a number is one of the `n` from `i` on.
abbrev pub among : ℕ → ℕ → ℕ → Bool
among i n k = leb i k && ltb k (i + n)

module _ (image : ℕ → ℕ) (wide : Bool) (colors : ℕ → ℕ) where
  here_or_behind :
      (n col row r k : ℕ) (pixels : ℕ → ℕ)
      → k < 64
      → col + suc n ≤ 64
      → (if (r == row) && among (col + 1) n k
          then colors (sprite_index image wide row k)
          else update pixels
              (row * 64 + col)
              (colors (sprite_index image wide row col))
              (r * 64 + k))
        ≡ (if (r == row) && among col (suc n) k
            then colors (sprite_index image wide row k)
            else pixels (r * 64 + k))
  here_or_behind n col row r k pixels h l = grind arith

  sprite_row-at :
      (n col row r k : ℕ) (pixels : ℕ → ℕ)
      → k < 64
      → col + n ≤ 64
      → sprite_row image wide colors n col row pixels (r * 64 + k) ≡ (
          if (r == row) && among col n k
          then colors (sprite_index image wide row k)
          else pixels (r * 64 + k))
  unfolding sprite_row
  sprite_row-at zero col row r k pixels h l = ground arith
  sprite_row-at (suc n) col row r k pixels h l =
      sprite_row-at n (col + 1) row r k
        (update pixels (row * 64 + col) (colors (sprite_index image wide row col))) h (omega arith)
      ∙ here_or_behind n col row r k pixels h l

  row_or_below :
      (bits n row r k : ℕ) (pixels : ℕ → ℕ)
      → k < 64
      → bits ≤ 64
      → (if among (row + 1) n r && ltb k bits
          then colors (sprite_index image wide r k)
          else sprite_row image wide colors bits 0 row pixels (r * 64 + k))
        ≡ (if among row (suc n) r && ltb k bits
            then colors (sprite_index image wide r k)
            else pixels (r * 64 + k))
  row_or_below bits n row r k pixels h l =
      rw (sprite_row-at bits 0 row r k pixels h (omega arith)) (grind arith)

  sprite_rows-at :
      (bits n row r k : ℕ) (pixels : ℕ → ℕ)
      → k < 64
      → bits ≤ 64
      → sprite_rows image wide colors bits n row pixels (r * 64 + k) ≡ (
          if among row n r && ltb k bits
          then colors (sprite_index image wide r k)
          else pixels (r * 64 + k))
  unfolding sprite_rows
  sprite_rows-at bits zero row r k pixels h l = ground arith
  sprite_rows-at bits (suc n) row r k pixels h l =
      sprite_rows-at bits n (row + 1) r k (sprite_row image wide colors bits 0 row pixels) h l
      ∙ row_or_below bits n row r k pixels h l

-- The cursor's colour, opaque: blue in the highest byte, then green and red.
abbrev shade : ℕ × ℕ × ℕ → ℕ
shade (r, g, b) = b * 2 ^ 24 + g * 2 ^ 16 + r * 2 ^ 8 + 255

-- The colour of a pixel by its bit of the mask and its bit of the data: transparent, or one of the
-- three colours of the sprite, opaque.
abbrev pub seen : (ℕ → ℕ × ℕ × ℕ) → ℕ → ℕ → ℕ
seen palette zero zero = 0
seen palette zero (suc d) = shade (palette 0)
seen palette (suc m) zero = shade (palette 1)
seen palette (suc m) (suc d) = shade (palette 2)

seen-index :
    (palette : ℕ → ℕ × ℕ × ℕ) (m d : ℕ)
    → m < 2
    → d < 2
    → sprite_colors palette (m * 2 + d) ≡ seen palette m d
seen-index palette zero zero h l = refl
seen-index palette zero (suc zero) h l = refl
seen-index palette (suc zero) zero h l = refl
seen-index palette (suc zero) (suc zero) h l = refl
seen-index palette m (suc (suc d)) h l = absurd (omega arith)
seen-index palette (suc (suc m)) d h l = absurd (omega arith)

-- The same by the bits of the longwords that the code loads.
abbrev loaded_at : (ℕ → ℕ) → (ℕ → ℕ × ℕ × ℕ) → ℕ → ℕ → ℕ → ℕ → ℕ
loaded_at image palette mw mh r k =
    if ltb r mh && ltb k (row_bits mw)
    then seen palette (bit_at (sprite_bits image (ltb 16 mw) 1 r) k)
        (bit_at (sprite_bits image (ltb 16 mw) 0 r) k)
    else 0

sprite_image-loaded :
    (image : ℕ → ℕ) (palette : ℕ → ℕ × ℕ × ℕ) (mw mh r k : ℕ)
    → k < 64
    → sprite_image image palette mw mh (r * 64 + k) ≡ loaded_at image palette mw mh r k
sprite_image-loaded image palette mw mh r k h =
    let wide = ltb 16 mw in
    let mask = bit_at (sprite_bits image wide 1 r) k in
    let data' = bit_at (sprite_bits image wide 0 r) k in
    sprite_rows-at image wide (sprite_colors palette) (row_bits mw) mh 0 r k (λ i. 0) h
      (ground arith)
    ∙ (rw (seen-index palette mask data' (omega arith) (omega arith)) (ground arith))

-- What is seen at row `r` and column `k` of a sprite of `width` by `height`, of which at most 64
-- rows and 32 columns are used.
abbrev pub seen_at : (ℕ → ℕ) → (ℕ → ℕ × ℕ × ℕ) → ℕ → ℕ → ℕ → ℕ → ℕ
seen_at image palette width height r k =
    if ltb r (min height 64) && ltb k (min width 32)
    then seen palette (mask_bit image (ltb 16 width) r k) (data_bit image (ltb 16 width) r k)
    else 0

pub sprite_image-at :
    (image : ℕ → ℕ) (palette : ℕ → ℕ × ℕ × ℕ) (width height r k : ℕ)
    → ((a : ℕ) → image a < 2 ^ 8)
    → k < 64
    → sprite_image image palette (capped_64 width) (capped_64 height) (r * 64 + k)
      ≡ seen_at image palette width height r k
sprite_image-at image palette width height r k bytes h =
    let wide : ltb 16 (capped_64 width) ≡ ltb 16 width = ground arith in
    let rows : ltb r (capped_64 height) ≡ ltb r (min height 64) = ground arith in
    let columns : ltb k (row_bits (capped_64 width)) ≡ ltb k (min width 32) = ground arith in
    sprite_image-loaded image palette (capped_64 width) (capped_64 height) r k h
    ∙ rw (columns, rows, wide)
        (elim (Bool-cases (ltb r (min height 64) && ltb k (min width 32))) [
          | inl on ↦
              let used : k < (if ltb 16 width then 32 else 16) = ground arith in
              rw
                (
                  sprite_bits-data_bit image bytes (ltb 16 width) r k used,
                  sprite_bits-mask_bit image bytes (ltb 16 width) r k used,
                )
                refl
          | inr off ↦ rw off refl
        ])
