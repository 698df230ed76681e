-- ===== src/Flush/Convert.antt =====
-- The pixel converters of src/chip/chip_flush.c, each on one pixel. A `|` of fields that have no
-- bit in common is their sum.
use virt_iogpu.Prelude.{ℕ, ◌+◌, ◌*◌, ◌/◌, ◌%◌, ◌^◌, ◌<◌, ◌≡◌, refl, Option, none, some, arith}
use virt_iogpu.Blit.Rect.{Format}

-- Five bits as eight, and six as eight, with the upper bits repeated.
abbrev pub expand_5 : ℕ → ℕ
expand_5 c = c * 2 ^ 3 + c / 2 ^ 2

abbrev pub expand_6 : ℕ → ℕ
expand_6 c = c * 2 ^ 2 + c / 2 ^ 4

-- `(b << 24) | (g << 16) | (r << 8)`
abbrev pub pack : ℕ → ℕ → ℕ → ℕ
pack r g b = b * 2 ^ 24 + g * 2 ^ 16 + r * 2 ^ 8

unfoldable pub conv_clut : (ℕ → ℕ) → ℕ → ℕ
conv_clut palette v = palette v

unfoldable pub conv_r5g6b5 : ℕ → ℕ
conv_r5g6b5 v =
    pack (expand_5 (v / 2 ^ 11 % 2 ^ 5)) (expand_6 (v / 2 ^ 5 % 2 ^ 6)) (expand_5 (v % 2 ^ 5))

unfoldable pub conv_r5g5b5 : ℕ → ℕ
conv_r5g5b5 v =
    pack (expand_5 (v / 2 ^ 10 % 2 ^ 5)) (expand_5 (v / 2 ^ 5 % 2 ^ 5)) (expand_5 (v % 2 ^ 5))

unfoldable pub conv_a8r8g8b8 : ℕ → ℕ
conv_a8r8g8b8 s =
    s * 2 ^ 24 % 2 ^ 32 + s / 2 ^ 8 % 2 ^ 8 * 2 ^ 16 + s / 2 ^ 16 % 2 ^ 8 * 2 ^ 8 + s / 2 ^ 24

unfoldable pub conv_b8g8r8a8 : ℕ → ℕ
conv_b8g8r8a8 s = s

unfoldable pub conv_r8g8b8a8 : ℕ → ℕ
conv_r8g8b8a8 s =
    s / 2 ^ 16 % 2 ^ 8 * 2 ^ 16 + s % 2 ^ 8 + s / 2 ^ 8 % 2 ^ 8 * 2 ^ 24 + s / 2 ^ 24 * 2 ^ 8

unfoldable pub conv_a8b8g8r8 : ℕ → ℕ
conv_a8b8g8r8 s = s * 2 ^ 8 % 2 ^ 32 + s / 2 ^ 24

unfoldable pub pick_row_converter : Format → (ℕ → ℕ) → Option (ℕ → ℕ)
pick_row_converter Format.clut palette = some (conv_clut palette)
pick_row_converter Format.r5g6b5 palette = some conv_r5g6b5
pick_row_converter Format.r5g5b5 palette = some conv_r5g5b5
pick_row_converter Format.a8r8g8b8 palette = some conv_a8r8g8b8
pick_row_converter Format.b8g8r8a8 palette = some conv_b8g8r8a8
pick_row_converter Format.r8g8b8a8 palette = some conv_r8g8b8a8
pick_row_converter Format.a8b8g8r8 palette = some conv_a8b8g8r8
pick_row_converter f palette = none

-- Red, green and blue of a pixel of the GPU's resource, which has them at bytes 2, 1 and 0.
abbrev pub red : ℕ → ℕ
red out = out / 2 ^ 8 % 2 ^ 8

abbrev pub green : ℕ → ℕ
green out = out / 2 ^ 16 % 2 ^ 8

abbrev pub blue : ℕ → ℕ
blue out = out / 2 ^ 24

-- The pixel shows the same colour as the one it is made of, whose letters are from the highest bit
-- on; of a channel with five or six bits, the upper bits are the channel.
abbrev pub Shows : Format → ℕ → ℕ → Type 0
Shows Format.r5g6b5 v out =
    (red out / 2 ^ 3 ≡ v / 2 ^ 11)
    × (green out / 2 ^ 2 ≡ v / 2 ^ 5 % 2 ^ 6)
    × (blue out / 2 ^ 3 ≡ v % 2 ^ 5)
Shows Format.r5g5b5 v out =
    (red out / 2 ^ 3 ≡ v / 2 ^ 10 % 2 ^ 5)
    × (green out / 2 ^ 3 ≡ v / 2 ^ 5 % 2 ^ 5)
    × (blue out / 2 ^ 3 ≡ v % 2 ^ 5)
Shows Format.a8r8g8b8 v out =
    (red out ≡ v / 2 ^ 16 % 2 ^ 8) × (green out ≡ v / 2 ^ 8 % 2 ^ 8) × (blue out ≡ v % 2 ^ 8)
Shows Format.b8g8r8a8 v out =
    (red out ≡ v / 2 ^ 8 % 2 ^ 8) × (green out ≡ v / 2 ^ 16 % 2 ^ 8) × (blue out ≡ v / 2 ^ 24)
Shows Format.r8g8b8a8 v out =
    (red out ≡ v / 2 ^ 24) × (green out ≡ v / 2 ^ 16 % 2 ^ 8) × (blue out ≡ v / 2 ^ 8 % 2 ^ 8)
Shows Format.a8b8g8r8 v out =
    (red out ≡ v % 2 ^ 8) × (green out ≡ v / 2 ^ 8 % 2 ^ 8) × (blue out ≡ v / 2 ^ 16 % 2 ^ 8)
Shows f v out = Unit {0}

-- The numbers that a pixel of the format can be.
abbrev pub limit : Format → ℕ
limit Format.r5g6b5 = 2 ^ 16
limit Format.r5g5b5 = 2 ^ 16
limit f = 2 ^ 32

conv_r5g6b5-Shows : (v : ℕ) → v < 2 ^ 16 → Shows Format.r5g6b5 v (conv_r5g6b5 v)
unfolding conv_r5g6b5
conv_r5g6b5-Shows v h = (omega arith, omega arith, omega arith)

conv_r5g5b5-Shows : (v : ℕ) → v < 2 ^ 16 → Shows Format.r5g5b5 v (conv_r5g5b5 v)
unfolding conv_r5g5b5
conv_r5g5b5-Shows v h = (omega arith, omega arith, omega arith)

conv_a8r8g8b8-Shows : (v : ℕ) → v < 2 ^ 32 → Shows Format.a8r8g8b8 v (conv_a8r8g8b8 v)
unfolding conv_a8r8g8b8
conv_a8r8g8b8-Shows v h = (omega arith, omega arith, omega arith)

conv_r8g8b8a8-Shows : (v : ℕ) → v < 2 ^ 32 → Shows Format.r8g8b8a8 v (conv_r8g8b8a8 v)
unfolding conv_r8g8b8a8
conv_r8g8b8a8-Shows v h = (omega arith, omega arith, omega arith)

conv_a8b8g8r8-Shows : (v : ℕ) → v < 2 ^ 32 → Shows Format.a8b8g8r8 v (conv_a8b8g8r8 v)
unfolding conv_a8b8g8r8
conv_a8b8g8r8-Shows v h = (omega arith, omega arith, omega arith)

-- The converter that is picked shows the pixel; a pixel of a palette is the palette's colour.
abbrev pub Converts : Format → (ℕ → ℕ) → ℕ → Option (ℕ → ℕ) → Type 0
Converts Format.clut palette v (some conv) = conv v ≡ palette v
Converts f palette v (some conv) = Shows f v (conv v)
Converts f palette v none = Unit {0}

-- For every format, the converter that chip_pick_row_converter picks keeps the colour of a pixel:
-- red, green and blue of the converted pixel are those of the source, in full or in the five or six
-- upper bits, and a palette's pixel has the palette's colour. Condition: the pixel is a number of
-- its size. A format without a converter is not covered.
pub pick_row_converter-Converts :
    (f : Format) (palette : ℕ → ℕ) (v : ℕ)
    → v < limit f
    → Converts f palette v (pick_row_converter f palette)
unfolding pick_row_converter conv_clut conv_b8g8r8a8
pick_row_converter-Converts Format.clut palette v h = refl
pick_row_converter-Converts Format.r5g6b5 palette v h = conv_r5g6b5-Shows v h
pick_row_converter-Converts Format.r5g5b5 palette v h = conv_r5g5b5-Shows v h
pick_row_converter-Converts Format.a8r8g8b8 palette v h = conv_a8r8g8b8-Shows v h
pick_row_converter-Converts Format.b8g8r8a8 palette v h = (refl, refl, refl)
pick_row_converter-Converts Format.r8g8b8a8 palette v h = conv_r8g8b8a8-Shows v h
pick_row_converter-Converts Format.a8b8g8r8 palette v h = conv_a8b8g8r8-Shows v h
pick_row_converter-Converts Format.r8g8b8 palette v h = tt
pick_row_converter-Converts Format.b8g8r8 palette v h = tt
pick_row_converter-Converts Format.r5g6b5pc palette v h = tt
pick_row_converter-Converts Format.r5g5b5pc palette v h = tt
pick_row_converter-Converts Format.b5g6r5pc palette v h = tt
pick_row_converter-Converts Format.b5g5r5pc palette v h = tt
