-- ===== src/Blit/Pixels.antt =====
-- The loops over the pixels of a rectangle in src/chip/chip_blit.c and src/chip/chip_flush.c.
use virt_iogpu.Prelude.{
  ℕ, zero, suc, ◌+◌, ◌-◌, ◌*◌, ◌≤◌, ◌<◌, ◌≡◌, ◌⊎◌, refl, ◌∙◌, ap, if◌then◌else◌, arith, inl, inr,
}
use native.Mathlib.Nat.{add-mul, suc-mul}
use virt_iogpu.Blit.Memory.{Mem, in_row}
use virt_iogpu.Blit.Units.{in_row-outside, in_row-of}

-- What a pixel's byte becomes: by its offset in the pixel and the byte that was there.
abbrev pub Ink : Type 0
Ink = ℕ → ℕ → ℕ

abbrev pub store : Ink → ℕ → ℕ → Mem → Mem
store ink size d mem a = if in_row size d a then ink (a - d) (mem a) else mem a

-- The loop over the columns from `col` on: pixels of `size` bytes at every `step` bytes.
unfoldable pub pixels : (ℕ → Ink) → ℕ → ℕ → ℕ → ℕ → ℕ → Mem → Mem
pixels inks step size zero col d mem = mem
pixels inks step size (suc n) col d mem =
    pixels inks step size n (col + 1) (d + step) (store (inks col) size d mem)

-- The loop over the rows from `row` on, each of `w` pixels.
unfoldable pub paint : (ℕ → ℕ → Ink) → ℕ → ℕ → ℕ → ℕ → ℕ → ℕ → ℕ → Mem → Mem
paint inks step size w zero row d stride mem = mem
paint inks step size w (suc h) row d stride mem =
    paint inks step size w h (row + 1) (d + stride) stride (pixels (inks row) step size w 0 d mem)

module _ (size : ℕ) where
  pixels-outside :
      (inks : ℕ → Ink) (n col d : ℕ) (mem : Mem) (a : ℕ)
      → (a < d) ⊎ (d + n * size ≤ a)
      → pixels inks size size n col d mem a ≡ mem a
  unfolding pixels
  pixels-outside inks zero col d mem a out = refl
  pixels-outside inks (suc n) col d mem a out =
      let m : suc n * size ≡ size + n * size = omega arith in
      pixels-outside inks n (col + 1) (d + size) (store (inks col) size d mem) a (ground arith)
      ∙ rw (in_row-outside size d a (ground arith)) refl

  pixels-at :
      (inks : ℕ → Ink) (n col d : ℕ) (mem : Mem) (c k : ℕ)
      → c < n
      → k < size
      → pixels inks size size n col d mem (d + c * size + k)
        ≡ inks (col + c) k (mem (d + c * size + k))
  unfolding pixels
  pixels-at inks zero col d mem c k p q = absurd (omega arith)
  pixels-at inks (suc n) col d mem zero k p q =
      let a = d + zero * size + k in
      let e : a - d ≡ k = omega arith in
      let f : col + zero ≡ col = omega arith in
      pixels-outside inks n (col + 1) (d + size) (store (inks col) size d mem) a (omega arith)
      ∙ rw (in_row-of size d a (omega arith) (omega arith), e, f) refl
  pixels-at inks (suc n) col d mem (suc c) k p q =
      let a = d + suc c * size + k in
      let e : a ≡ d + size + c * size + k = omega arith in
      let f : col + suc c ≡ col + 1 + c = omega arith in
      rw (e, f)
        (pixels-at inks n (col + 1) (d + size) (store (inks col) size d mem) c k (omega arith) q
          ∙ rw (in_row-outside size d (d + size + c * size + k) (inr (omega arith))) refl)

  -- The last byte of a column stands before the end of the row.
  pixel_inside : (w c : ℕ) → c < w → c * size + size ≤ w * size
  pixel_inside w c p =
      let e : w ≡ suc c + (w - suc c) = omega arith in
      rw e (omega (arith, add-mul (suc c) (w - suc c) size, suc-mul c size))

  module _ (inks : ℕ → ℕ → Ink) (w stride : ℕ) (narrow : w * size ≤ stride) where
    -- A byte that no pixel of the rectangle has.
    abbrev pub Outside : ℕ → ℕ → ℕ → Type 0
    Outside h d a = (r : ℕ) → r < h → (a < d + r * stride) ⊎ (d + r * stride + w * size ≤ a)

    pub paint-Outside :
        (h row d : ℕ) (mem : Mem) (a : ℕ)
        → Outside h d a
        → paint inks size size w h row d stride mem a ≡ mem a
    unfolding paint
    paint-Outside zero row d mem a out = refl
    paint-Outside (suc h) row d mem a out =
        let first = out 0 (omega arith) in
        paint-Outside h (row + 1) (d + stride) (pixels (inks row) size size w 0 d mem) a
          (λ r p. let next = out (suc r) (omega arith) in ground arith)
        ∙ pixels-outside (inks row) w 0 d mem a (ground arith)

    pub paint-at :
        (h row d : ℕ) (mem : Mem) (r c k : ℕ)
        → r < h
        → c < w
        → k < size
        → paint inks size size w h row d stride mem (d + r * stride + c * size + k)
          ≡ inks (row + r) c k (mem (d + r * stride + c * size + k))
    unfolding paint
    paint-at zero row d mem r c k p q s = absurd (omega arith)
    paint-at (suc h) row d mem zero c k p q s =
        let a = d + zero * stride + c * size + k in
        let e : a ≡ d + c * size + k = omega arith in
        let f : row + zero ≡ row = omega arith in
        let inside : c * size + size ≤ w * size = pixel_inside w c q in
        paint-Outside h (row + 1) (d + stride) (pixels (inks row) size size w 0 d mem) a
          (λ r p. inl (omega arith))
        ∙ (let z : 0 + c ≡ c = omega arith in
            rw (e, f) (pixels-at (inks row) w 0 d mem c k q s ∙ rw z refl))
    paint-at (suc h) row d mem (suc r) c k p q s =
        let a = d + suc r * stride + c * size + k in
        let e : a ≡ d + stride + r * stride + c * size + k = omega arith in
        let f : row + suc r ≡ row + 1 + r = omega arith in
        rw (e, f)
          (paint-at h (row + 1) (d + stride) (pixels (inks row) size size w 0 d mem) r c k
              (omega arith) q s
            ∙ ap (inks (row + 1 + r) c k) (
                pixels-outside (inks row) w 0 d mem (d + stride + r * stride + c * size + k)
                  (inr (omega arith))))
