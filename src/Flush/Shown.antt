-- ===== src/Flush/Shown.antt =====
-- What chip_convert_rect shows and where it stores (src/chip/chip_flush.c).
use virt_iogpu.Prelude.{
  ℕ, suc, ◌+◌, ◌-◌, ◌*◌, ◌/◌, ◌%◌, ap, ◌∙◌, ◌^◌, ◌≤◌, ◌<◌, ◌≡◌, ◌≢◌, ◌⊎◌, refl, ◌||◌, ltb, ◌==◌,
  Option, none, some, arith, Bool-cases, inl, inr, ==-ne, ltb→lt, not_ltb→le,
}
use Prim.Native.Nat.{min}
use native.Mathlib.Nat.{mul-le-mul_right, add-mul, suc-mul}
use virt_iogpu.Blit.Memory.{Mem}
use virt_iogpu.Blit.Rect.{colored, no_area}
use virt_iogpu.Blit.Expanded.{Painted, Painted-ext, paint-Painted}
use virt_iogpu.Flush.Convert.{pick_row_converter}
use virt_iogpu.Flush.Panned.{
  smaller-min, clamp_extent-min, load_pixel-screen_pixel, screen_pixel, colored-byte,
}
use virt_iogpu.Flush.Screen.{
  Screen, max_w, max_h, clamp_extent, src_base, shown_ink, convert_rows, convert_by, convert_rect,
}

-- The place is on the screen, and all sizes are far from the end of uint32.
pub record IsPlaced (s : Screen) (x y w h : ℕ) : Type 0 where
  pub x_visible : x ≤ max_w s
  pub y_visible : y ≤ max_h s
  pub w_small : x + w < 2 ^ 32
  pub h_small : y + h < 2 ^ 32
  pub lines : s.fb_width * 4 ≤ s.fb_stride

clamp_extent_bounds :
    (limit x w : ℕ)
    → x ≤ limit
    → x + w < 2 ^ 32
    → (x + clamp_extent limit x w ≤ limit) × (clamp_extent limit x w ≤ w)
unfolding clamp_extent
clamp_extent_bounds limit x w p q =
    let e : (x + w) % 2 ^ 32 ≡ x + w = omega arith in
    elim (Bool-cases (ltb limit (x + w))) [
      | inl over ↦
          let l : limit < x + w = ltb→lt limit (x + w) over in
          let f : (limit + 2 ^ 32 - x) % 2 ^ 32 ≡ limit - x = omega arith in
          rw (e, over, f) (omega arith, omega arith)
      | inr inside ↦ rw (e, inside) (not_ltb→le limit (x + w) inside, omega arith)
    ]

max_bounds : (s : Screen) → (max_w s ≤ s.fb_width) × (max_h s ≤ s.fb_height)
max_bounds s = (ground arith, ground arith)

-- How many of `n` columns or rows from `p` on are on the screen, of which the display mode and the
-- framebuffer have so many each.
abbrev pub on_screen : ℕ → ℕ → ℕ → ℕ → ℕ
on_screen active framebuffer p n = min n (min active framebuffer - p)

visible_extents :
    (s : Screen) (x y w h : ℕ)
    → IsPlaced s x y w h
    → (clamp_extent (max_w s) x w ≡ on_screen s.active_width s.fb_width x w)
      × (clamp_extent (max_h s) y h ≡ on_screen s.active_height s.fb_height y h)
visible_extents s x y w h placed = (
  clamp_extent-min (max_w s) x w placed.x_visible placed.w_small
      ∙ ap (λ m. min w (m - x)) (smaller-min s.active_width s.fb_width),
  clamp_extent-min (max_h s) y h placed.y_visible placed.h_small
      ∙ ap (λ m. min h (m - y)) (smaller-min s.active_height s.fb_height),
)

line_room :
    (s : Screen) (x y w h : ℕ)
    → IsPlaced s x y w h
    → on_screen s.active_width s.fb_width x w * 4 ≤ s.fb_stride
line_room s x y w h placed = omega (arith, placed.lines)

-- chip_convert_rect stores in every pixel of the rectangle, as far as it is on the screen, the
-- converted number of the pixel of the bitmap that is shown there, the highest byte first, and
-- nothing else. The bitmap is the panned one where there is one, its lines follow each other
-- without a gap, and the screen shows it from the panning offsets on, which count as 0 where they
-- are negative and end where the screen would show what is behind the bitmap's lines or below the
-- framebuffer's height.
-- Conditions: bitmap and framebuffer are there, the format has a converter, the rectangle begins on
-- the screen and has a visible pixel, a line of the framebuffer has room for its pixels.
pub convert_rect-Painted :
    (s : Screen) (palette bits conv : ℕ → ℕ) (dst x y w h : ℕ) (mem : Mem)
    → IsPlaced s x y w h
    → src_base s ≢ 0
    → dst ≢ 0
    → pick_row_converter s.active_format palette ≡ some conv
    → 0 < on_screen s.active_width s.fb_width x w
    → 0 < on_screen s.active_height s.fb_height y h
    → Painted
        (λ row col k old. conv (screen_pixel s bits (x + col) (y + row)) / 256 ^ (3 - k) % 256)
        4
        (on_screen s.active_width s.fb_width x w)
        (on_screen s.active_height s.fb_height y h)
        (dst + y * s.fb_stride + x * 4)
        s.fb_stride
        mem
        (convert_rect s palette bits dst x y w h mem)
unfolding convert_rect convert_rows
convert_rect-Painted s palette bits conv dst x y w h mem placed there frame picked cols lines =
    let w' = on_screen s.active_width s.fb_width x w in
    let h' = on_screen s.active_height s.fb_height y h in
    let (p, q) = visible_extents s x y w h placed in
    let narrow = line_room s x y w h placed in
    rw
      (
        ==-ne (src_base s) 0 there,
        ==-ne dst 0 frame,
        p,
        q,
        ==-ne w' 0 (omega arith),
        ==-ne h' 0 (omega arith),
        picked,
      )
      (Painted-ext (shown_ink s bits conv x y) _ 4 w' h' (dst + y * s.fb_stride + x * 4) s.fb_stride
        mem _
        (λ row col k old l.
          ap (λ v. colored 4 (conv v) k 0 old)
            (load_pixel-screen_pixel s (x + col) (y + row) palette bits conv picked)
          ∙ colored-byte _ k old l)
        (paint-Painted (shown_ink s bits conv x y) 4 w' h' (dst + y * s.fb_stride + x * 4)
          s.fb_stride mem narrow))

-- A byte outside the framebuffer.
abbrev pub Beyond : Screen → ℕ → ℕ → Type 0
Beyond s dst a = (a < dst) ⊎ (dst + s.fb_height * s.fb_stride ≤ a)

row_inside :
    (s : Screen) (y r : ℕ)
    → y + r < s.fb_height
    → y * s.fb_stride + r * s.fb_stride + s.fb_stride ≤ s.fb_height * s.fb_stride
row_inside s y r h =
    let le = mul-le-mul_right {m = y + suc r} {n = s.fb_height} s.fb_stride (omega arith) in
    omega (arith, le, add-mul y (suc r) s.fb_stride, suc-mul r s.fb_stride)

convert_by-inside :
    (o : Option (ℕ → ℕ)) (s : Screen) (bits : ℕ → ℕ) (dst x y w h : ℕ) (mem : Mem) (a : ℕ)
    → x + w ≤ s.fb_width
    → y + h ≤ s.fb_height
    → s.fb_width * 4 ≤ s.fb_stride
    → Beyond s dst a
    → convert_by o s bits dst x y w h mem a ≡ mem a
unfolding convert_rows
convert_by-inside none s bits dst x y w h mem a fw fh lines beyond = refl
convert_by-inside (some conv) s bits dst x y w h mem a fw fh lines beyond =
    let d = dst + y * s.fb_stride + x * 4 in
    (paint-Painted (shown_ink s bits conv x y) 4 w h d s.fb_stride mem (omega arith)).outside a
      (λ r p.
        let row = row_inside s y r (omega arith) in
        elim beyond [ inl before ↦ inl (omega arith) | inr after ↦ inr (omega arith) ])

-- chip_convert_rect stores no byte outside the framebuffer, whatever the format and the panning.
-- Conditions: the rectangle begins on the screen, and a line of the framebuffer has room for its
-- pixels.
pub convert_rect-inside :
    (s : Screen) (palette bits : ℕ → ℕ) (dst x y w h : ℕ) (mem : Mem) (a : ℕ)
    → IsPlaced s x y w h
    → Beyond s dst a
    → convert_rect s palette bits dst x y w h mem a ≡ mem a
unfolding convert_rect
convert_rect-inside s palette bits dst x y w h mem a placed beyond =
    let w' = clamp_extent (max_w s) x w in
    let h' = clamp_extent (max_h s) y h in
    let (in_w, less_w) = clamp_extent_bounds (max_w s) x w placed.x_visible placed.w_small in
    let (in_h, less_h) = clamp_extent_bounds (max_h s) y h placed.y_visible placed.h_small in
    let (fb_w, fb_h) = max_bounds s in
    elim (Bool-cases (((src_base s == 0) || (dst == 0)) || no_area w' h')) [
      | inl skip ↦ rw skip refl
      | inr go ↦ rw go (
          convert_by-inside (pick_row_converter s.active_format palette) s bits dst x y w' h' mem a
            (omega arith) (omega arith) placed.lines beyond)
    ]
