-- ===== src/P96/Bits.antt =====
-- The image of a sprite as its bytes give it (src/chip/chip_p96.c): a header of one line, then for
-- each row the data bits and behind them the mask bits, of two or of four bytes.
use virt_iogpu.Prelude.{
  ℕ, zero, suc, ◌+◌, ◌-◌, ◌*◌, ◌/◌, ◌%◌, ◌^◌, ◌<◌, ◌≡◌, refl, ◌∙◌, Bool, true, false, if◌then◌else◌,
  arith,
}
use native.Mathlib.Nat.{pow-suc, mul_assoc, mul_comm, div-div-eq-div-mul}
use virt_iogpu.P96.Sprite.{sprite_bits, bit_at}

-- Pixel `k` of a line that begins at byte `a`: eight pixels in a byte, the leftmost the highest.
abbrev pub line_bit : (ℕ → ℕ) → ℕ → ℕ → ℕ
line_bit image a k = image (a + k / 8) / 2 ^ (7 - k % 8) % 2

abbrev pub data_bit : (ℕ → ℕ) → Bool → ℕ → ℕ → ℕ
data_bit image wide r k = line_bit image (if wide then 8 + r * 8 else 4 + r * 4) k

abbrev pub mask_bit : (ℕ → ℕ) → Bool → ℕ → ℕ → ℕ
mask_bit image wide r k = line_bit image (if wide then 12 + r * 8 else 6 + r * 4) k

-- Only the lower byte has the bits below 256.
lower_byte : (a b m : ℕ) → m < 8 → (a * 256 + b) / 2 ^ (7 - m) % 2 ≡ b / 2 ^ (7 - m) % 2
lower_byte a b zero h = omega arith
lower_byte a b (suc zero) h = omega arith
lower_byte a b (suc (suc zero)) h = omega arith
lower_byte a b (suc (suc (suc zero))) h = omega arith
lower_byte a b (suc (suc (suc (suc zero)))) h = omega arith
lower_byte a b (suc (suc (suc (suc (suc zero))))) h = omega arith
lower_byte a b (suc (suc (suc (suc (suc (suc zero)))))) h = omega arith
lower_byte a b (suc (suc (suc (suc (suc (suc (suc zero))))))) h = omega arith
lower_byte a b (suc (suc (suc (suc (suc (suc (suc (suc m)))))))) h = absurd (omega arith)

pow_sum : (a b : ℕ) → 2 ^ (a + b) ≡ 2 ^ a * 2 ^ b
pow_sum zero b = let z : 0 + b ≡ b = omega arith in rw z (omega arith)
pow_sum (suc a) b =
    let e : suc a + b ≡ suc (a + b) = omega arith in
    rw (e, pow-suc 2 (a + b), pow-suc 2 a, pow_sum a b)
      (omega (arith, mul_assoc (2 ^ a) (2 ^ b) 2, mul_assoc (2 ^ a) 2 (2 ^ b), mul_comm 2 (2 ^ b)))

-- A bit of a number whose part above 2 ^ s is `a * 256 + b`.
byte_bit :
    (v s a b k : ℕ)
    → v / 2 ^ s ≡ a * 256 + b
    → 31 - k ≡ s + (7 - k % 8)
    → bit_at v k ≡ b / 2 ^ (7 - k % 8) % 2
byte_bit v s a b k above place =
    let d = div-div-eq-div-mul v (2 ^ s) (2 ^ (7 - k % 8)) in
    rw (place, pow_sum s (7 - k % 8), ← d, above) (lower_byte a b (k % 8) (omega arith))

-- The four bytes of a longword.
abbrev longword : ℕ → ℕ → ℕ → ℕ → ℕ
longword a b c d = a * 2 ^ 24 + b * 2 ^ 16 + c * 2 ^ 8 + d

abbrev part_of : ℕ → ℕ → ℕ → ℕ → ℕ → ℕ
part_of zero a b c d = a
part_of (suc zero) a b c d = b
part_of (suc (suc zero)) a b c d = c
part_of (suc (suc (suc q))) a b c d = d

longword_bit :
    (q a b c d k : ℕ)
    → (a < 2 ^ 8) × (b < 2 ^ 8) × (c < 2 ^ 8) × (d < 2 ^ 8)
    → k < 32
    → k / 8 ≡ q
    → bit_at (longword a b c d) k ≡ part_of q a b c d / 2 ^ (7 - k % 8) % 2
longword_bit zero a b c d k (ha, hb, hc, hd) h e =
    byte_bit (longword a b c d) 24 0 a k (omega arith) (omega arith)
longword_bit (suc zero) a b c d k (ha, hb, hc, hd) h e =
    byte_bit (longword a b c d) 16 a b k (omega arith) (omega arith)
longword_bit (suc (suc zero)) a b c d k (ha, hb, hc, hd) h e =
    byte_bit (longword a b c d) 8 (a * 256 + b) c k (omega arith) (omega arith)
longword_bit (suc (suc (suc zero))) a b c d k (ha, hb, hc, hd) h e =
    byte_bit (longword a b c d) 0 ((a * 256 + b) * 256 + c) d k
      (let one : 2 ^ 0 ≡ 1 = refl in rw one (omega arith)) (omega arith)
longword_bit (suc (suc (suc (suc q)))) a b c d k bytes h e = absurd (omega arith)

part_of-image :
    (image : ℕ → ℕ) (a q : ℕ)
    → q < 4
    → part_of q (image a) (image (a + 1)) (image (a + 2)) (image (a + 3)) ≡ image (a + q)
part_of-image image a zero h = let z : a + 0 ≡ a = omega arith in rw z refl
part_of-image image a (suc zero) h = refl
part_of-image image a (suc (suc zero)) h = refl
part_of-image image a (suc (suc (suc zero))) h = refl
part_of-image image a (suc (suc (suc (suc q)))) h = absurd (omega arith)

part_of-half :
    (image : ℕ → ℕ) (a q : ℕ) → q < 2 → part_of q (image a) (image (a + 1)) 0 0 ≡ image (a + q)
part_of-half image a zero h = let z : a + 0 ≡ a = omega arith in rw z refl
part_of-half image a (suc zero) h = refl
part_of-half image a (suc (suc q)) h = absurd (omega arith)

module _ (image : ℕ → ℕ) (bytes : (a : ℕ) → image a < 2 ^ 8) where
  longword-line_bit :
      (a k : ℕ)
      → k < 32
      → bit_at (longword (image a) (image (a + 1)) (image (a + 2)) (image (a + 3))) k
        ≡ line_bit image a k
  longword-line_bit a k h =
      longword_bit (k / 8) (image a) (image (a + 1)) (image (a + 2)) (image (a + 3)) k
        (bytes a, bytes (a + 1), bytes (a + 2), bytes (a + 3)) h refl
      ∙ rw (part_of-image image a (k / 8) (omega arith)) refl

  word-line_bit :
      (a k : ℕ)
      → k < 16
      → bit_at ((image a * 2 ^ 8 + image (a + 1)) * 2 ^ 16) k ≡ line_bit image a k
  word-line_bit a k h =
      let e : (image a * 2 ^ 8 + image (a + 1)) * 2 ^ 16 ≡ longword (image a) (image (a + 1)) 0 0 =
        omega arith in
      rw e (
        longword_bit (k / 8) (image a) (image (a + 1)) 0 0 k
          (bytes a, bytes (a + 1), omega arith, omega arith) (omega arith) refl
        ∙ rw (part_of-half image a (k / 8) (omega arith)) refl)

  pub sprite_bits-data_bit :
      (wide : Bool) (r k : ℕ)
      → k < (if wide then 32 else 16)
      → bit_at (sprite_bits image wide 0 r) k ≡ data_bit image wide r k
  unfolding sprite_bits
  sprite_bits-data_bit true r k h =
      let e : (r + 1) * 8 + 0 * 4 ≡ 8 + r * 8 = omega arith in
      rw e (longword-line_bit (8 + r * 8) k h)
  sprite_bits-data_bit false r k h =
      let e : (r + 1) * 4 + 0 * 2 ≡ 4 + r * 4 = omega arith in rw e (word-line_bit (4 + r * 4) k h)

  pub sprite_bits-mask_bit :
      (wide : Bool) (r k : ℕ)
      → k < (if wide then 32 else 16)
      → bit_at (sprite_bits image wide 1 r) k ≡ mask_bit image wide r k
  unfolding sprite_bits
  sprite_bits-mask_bit true r k h =
      let e : (r + 1) * 8 + 1 * 4 ≡ 12 + r * 8 = omega arith in
      rw e (longword-line_bit (12 + r * 8) k h)
  sprite_bits-mask_bit false r k h =
      let e : (r + 1) * 4 + 1 * 2 ≡ 6 + r * 4 = omega arith in rw e (word-line_bit (6 + r * 4) k h)
