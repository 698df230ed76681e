-- ===== src/Flush/Panned.antt =====
-- What the screen shows of the bitmap, told without the steps of chip_convert_rect
-- (src/chip/chip_flush.c).
use Prim.Native.Nat.{min}
use virt_iogpu.Prelude.{
  ℕ, zero, suc, ◌+◌, ◌-◌, ◌*◌, ◌/◌, ◌%◌, ◌^◌, ◌≤◌, ◌<◌, ◌≡◌, refl, ltb, ◌==◌, if◌then◌else◌, some,
  arith, Bool-cases, inl, inr, ltb→lt, not_ltb→le,
}
use native.Mathlib.Nat.{add-mul, mul_assoc}
use virt_iogpu.Blit.Rect.{Format, format_bpp, colored}
use virt_iogpu.Flush.Convert.{pick_row_converter}
use virt_iogpu.Flush.Screen.{
  Screen, smaller, max_w, max_h, positive, clamp_extent, clamp_pan, load_pixel, src_base,
  shown_width, pan_x, pan_y, source_at,
}

-- The number that `n` bytes from `a` on make, the first one its highest.
unfoldable pub number_at : (ℕ → ℕ) → ℕ → ℕ → ℕ
number_at bits a zero = 0
number_at bits a (suc n) = number_at bits a n * 256 + bits (a + n)

-- How far the visible part is moved over the whole: by the offset, a WORD that counts as 0 where it
-- is negative, but not over the end.
abbrev pub displaced : ℕ → ℕ → ℕ → ℕ
displaced offset visible whole = min (if ltb offset (2 ^ 15) then offset else 0) (whole - visible)

-- The pixel that is shown at a column and a row of the screen: pixels follow each other in the
-- bitmap line by line.
abbrev pub screen_pixel : Screen → (ℕ → ℕ) → ℕ → ℕ → ℕ
screen_pixel s bits col row =
    let bpp = format_bpp s.active_format in
    let bitmap = if s.panning_mem == 0 then s.board_mem else s.panning_mem in
    let width = if s.panning_width == 0 then s.active_width else s.panning_width in
    let left = displaced s.pan_xoff (min s.active_width s.fb_width) width in
    let top = displaced s.pan_yoff (min s.active_height s.fb_height) s.fb_height in
    number_at bits (bitmap + ((row + top) * width + (col + left)) * bpp) bpp

pub smaller-min : (a b : ℕ) → smaller a b ≡ min a b
smaller-min a b = ground arith

pub clamp_extent-min :
    (limit x w : ℕ) → x ≤ limit → x + w < 2 ^ 32 → clamp_extent limit x w ≡ min w (limit - x)
unfolding clamp_extent
clamp_extent-min limit x w h l =
    let e : (x + w) % 2 ^ 32 ≡ x + w = omega arith in
    elim (Bool-cases (ltb limit (x + w))) [
      | inl over ↦
          let lt : limit < x + w = ltb→lt limit (x + w) over in
          let f : (limit + 2 ^ 32 - x) % 2 ^ 32 ≡ limit - x = omega arith in
          rw (e, over, f) (omega arith)
      | inr inside ↦ let le = not_ltb→le limit (x + w) inside in rw (e, inside) (omega arith)
    ]

pub clamp_pan-min :
    (limit visible pan : ℕ) → clamp_pan limit visible pan ≡ min pan (limit - visible)
unfolding clamp_pan
clamp_pan-min limit visible pan = ground arith

module _ (bits : ℕ → ℕ) (a : ℕ) where
  one_byte : load_pixel bits 1 a ≡ number_at bits a 1
  unfolding load_pixel number_at
  one_byte = let z : a + 0 ≡ a = omega arith in rw z (omega arith)

  two_bytes : load_pixel bits 2 a ≡ number_at bits a 2
  unfolding load_pixel number_at
  two_bytes = let z : a + 0 ≡ a = omega arith in rw z (omega arith)

  four_bytes : load_pixel bits 4 a ≡ number_at bits a 4
  unfolding load_pixel number_at
  four_bytes = let z : a + 0 ≡ a = omega arith in rw z (omega arith)

  -- A format that has a converter has pixels of one, two or four bytes.
  load_pixel-number_at :
      (f : Format) (palette conv : ℕ → ℕ)
      → pick_row_converter f palette ≡ some conv
      → load_pixel bits (format_bpp f) a ≡ number_at bits a (format_bpp f)
  unfolding pick_row_converter format_bpp
  load_pixel-number_at Format.clut palette conv e = one_byte
  load_pixel-number_at Format.r5g6b5 palette conv e = two_bytes
  load_pixel-number_at Format.r5g5b5 palette conv e = two_bytes
  load_pixel-number_at Format.a8r8g8b8 palette conv e = four_bytes
  load_pixel-number_at Format.b8g8r8a8 palette conv e = four_bytes
  load_pixel-number_at Format.r8g8b8a8 palette conv e = four_bytes
  load_pixel-number_at Format.a8b8g8r8 palette conv e = four_bytes
  load_pixel-number_at f palette conv e = absurd (cc e)

-- The four bytes of a number are stored the highest first.
pub colored-byte : (v k old : ℕ) → k < 4 → colored 4 v k 0 old ≡ v / 256 ^ (3 - k) % 256
colored-byte v zero old h = refl
colored-byte v (suc zero) old h = refl
colored-byte v (suc (suc zero)) old h = refl
colored-byte v (suc (suc (suc zero))) old h = refl
colored-byte v (suc (suc (suc (suc k)))) old h = absurd (omega arith)

module _ (s : Screen) (col row : ℕ) where
  source_at-line :
      source_at s col row
      ≡ src_base s
        + ((row + pan_y s) * shown_width s + (col + pan_x s)) * format_bpp s.active_format
  source_at-line =
      let bpp = format_bpp s.active_format in
      omega (
        arith,
        add-mul ((row + pan_y s) * shown_width s) (col + pan_x s) bpp,
        mul_assoc (row + pan_y s) (shown_width s) bpp,
      )

  -- What chip_convert_rect loads is the pixel that is shown.
  pub load_pixel-screen_pixel :
      (palette bits conv : ℕ → ℕ)
      → pick_row_converter s.active_format palette ≡ some conv
      → load_pixel bits (format_bpp s.active_format) (source_at s col row)
        ≡ screen_pixel s bits col row
  load_pixel-screen_pixel palette bits conv e =
      rw
        (
          source_at-line,
          clamp_pan-min (shown_width s) (max_w s) (positive s.pan_xoff),
          clamp_pan-min s.fb_height (max_h s) (positive s.pan_yoff),
          smaller-min s.active_width s.fb_width,
          smaller-min s.active_height s.fb_height,
        )
        (load_pixel-number_at bits _ s.active_format palette conv e)
