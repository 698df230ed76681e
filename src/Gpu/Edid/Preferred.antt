-- ===== src/Gpu/Edid/Preferred.antt =====
-- The native size of chip_GetEDID (src/chip/chip_gpu_cmds.c).
use virt_iogpu.Prelude.{
  ℕ, ◌+◌, ◌*◌, ◌/◌, ◌%◌, ◌^◌, ◌≤◌, ◌<◌, ◌≡◌, ◌≢◌, refl, sym, ◌∙◌, true, List, [], ◌∷◌, ◌&&◌, ltb,
  length, some, get_elem?, arith, le→not_ltb, ==-ne,
}
use virt_iogpu.Gpu.Edid.{
  Sizes, is_listed, add_dtd, read_dtd, pixel_clock, base_block, extension_blocks, parse_edid,
  native_size,
}
use virt_iogpu.Gpu.Edid.Walk.{
  IsBytes, IsTable, Walked-bind, base_block-Walked, extension_blocks-Walked,
}

-- The first descriptor of the base block, at byte 54, is a timing of `w` times `h` pixels.
pub record Announces (edid : List ℕ) (w h : ℕ) : Type 0 where
  pub clock : ℕ
  pub w_low : ℕ
  pub h_low : ℕ
  pub w_high : ℕ
  pub h_high : ℕ
  pub is_timing : pixel_clock edid 54 ≡ some clock
  pub clock_ne : clock ≢ 0
  pub byte_2 : get_elem? edid 56 ≡ some w_low
  pub byte_4 : get_elem? edid 58 ≡ some w_high
  pub byte_5 : get_elem? edid 59 ≡ some h_low
  pub byte_7 : get_elem? edid 61 ≡ some h_high
  pub width : w ≡ w_low + w_high / 2 ^ 4 * 2 ^ 8
  pub height : h ≡ h_low + h_high / 2 ^ 4 * 2 ^ 8

add_dtd-empty : (w h : ℕ) → 0 < w → w < 2 ^ 16 → 0 < h → h < 2 ^ 16 → add_dtd w h [] ≡ (w, h) ∷ []
unfolding add_dtd is_listed
add_dtd-empty w h a b c d =
    let mw : w % 2 ^ 16 ≡ w = omega arith in
    let mh : h % 2 ^ 16 ≡ h = omega arith in
    let positive : (ltb 0 w && (ltb 0 h && true)) ≡ true = ground arith in
    rw (positive, mw, mh) refl

native_of :
    (w h : ℕ) (sizes more : Sizes) → some sizes ≡ some ((w, h) ∷ more) → native_size sizes ≡ (w, h)
unfolding native_size
native_of w h [] more e = cc
native_of w h (s ∷ rest) more e = cc

module _ (edid : List ℕ) (w h : ℕ) (a : Announces edid w h) (long : 62 ≤ length edid) (pw : 0 < w)
    (lw : w < 2 ^ 12) (ph : 0 < h) (lh : h < 2 ^ 12) where
  first_block :
      base_block edid (54 ∷ 72 ∷ 90 ∷ 108 ∷ []) []
      ≡ base_block edid (72 ∷ 90 ∷ 108 ∷ []) ((w, h) ∷ [])
  unfolding base_block read_dtd
  first_block =
      rw
        (
          le→not_ltb (length edid) 62 long,
          a.is_timing,
          ==-ne a.clock 0 a.clock_ne,
          a.byte_2,
          a.byte_4,
          a.byte_5,
          a.byte_7,
          sym a.width,
          sym a.height,
          add_dtd-empty w h pw (omega arith) ph (omega arith),
        )
        refl

  one_size : IsTable ((w, h) ∷ [])
  unfolding is_listed
  one_size = record { room = omega arith; distinct = (refl, tt); sized = ((pw, lw, ph, lh), tt) }

  -- Where the first descriptor of a blob of bytes is a timing, of a positive size of twelve bits,
  -- this size is the native one, whatever else the blob holds.
  pub parse_edid-preferred :
      IsBytes edid → (sizes : Sizes) → parse_edid edid ≡ some sizes → native_size sizes ≡ (w, h)
  unfolding parse_edid native_size
  parse_edid-preferred bytes sizes e =
      let walk =
        Walked-bind ((w, h) ∷ []) (base_block edid (72 ∷ 90 ∷ 108 ∷ []) ((w, h) ∷ []))
          (λ s. extension_blocks edid s)
          (base_block-Walked edid bytes (72 ∷ 90 ∷ 108 ∷ []) ((w, h) ∷ []) one_size)
          (extension_blocks-Walked edid bytes) in
      native_of w h sizes walk.new (sym (rw first_block at e) ∙ walk.ended)
