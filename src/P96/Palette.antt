-- ===== src/P96/Palette.antt =====
-- The palette that chip_SetColorArray loads (src/chip/chip_p96.c), as the flush shows it.
use virt_iogpu.Prelude.{
  ℕ, zero, suc, ◌+◌, ◌*◌, ◌^◌, ◌<◌, ◌≡◌, refl, ◌∙◌, ap, Bool, true, ◌&&◌, ltb, leb, if◌then◌else◌,
  arith, update, Bool-cases, inl, inr, if-elim,
}
use virt_iogpu.Blit.Rect.{is_clut}
use virt_iogpu.Flush.Convert.{conv_clut, red, green, blue}
use virt_iogpu.P96.State.{Chip}
use virt_iogpu.P96.Display.{clut_entry, load_colors, set_color_array}

-- The entries that are loaded: `rounds` from `i` on, up to the 256th.
abbrev pub is_loaded : ℕ → ℕ → ℕ → Bool
is_loaded rounds i q = (leb i q && ltb q (i + rounds)) && ltb q 256

in_or_here :
    (n i : ℕ) (clut palette : ℕ → ℕ) (q : ℕ)
    → ltb i 256 ≡ true
    → (if is_loaded n (i + 1) q then clut_entry clut q else update palette i (clut_entry clut i) q)
      ≡ (if is_loaded (suc n) i q then clut_entry clut q else palette q)
in_or_here n i clut palette q e = ground arith

load_colors-at :
    (rounds i : ℕ) (clut palette : ℕ → ℕ) (q : ℕ)
    → load_colors rounds i clut palette q
      ≡ (if is_loaded rounds i q then clut_entry clut q else palette q)
unfolding load_colors
load_colors-at zero i clut palette q = ground arith
load_colors-at (suc n) i clut palette q =
    let ih = load_colors-at n (i + 1) clut (update palette i (clut_entry clut i)) q in
    if-elim (λ (f : ℕ → ℕ). f q ≡ (if is_loaded (suc n) i q then clut_entry clut q else palette q))
      (ltb i 256) _ _ (λ e. ih ∙ in_or_here n i clut palette q e) (λ e. ground arith)

-- The colour that the flush shows for the index is the one that BoardInfo has for it.
abbrev pub HasColor : (ℕ → ℕ) → (ℕ → ℕ) → ℕ → Type 0
HasColor clut palette v =
    (red (conv_clut palette v) ≡ clut (v * 3))
    × (green (conv_clut palette v) ≡ clut (v * 3 + 1))
    × (blue (conv_clut palette v) ≡ clut (v * 3 + 2))

-- An entry that is loaded has its colour, any other stays.
abbrev pub Loads : ℕ → ℕ → Chip → Chip → ℕ → Type 0
Loads start count old new v =
    if is_loaded count start v
    then HasColor old.board.clut new.active.palette v
    else (new.active.palette v ≡ old.active.palette v)

palette-set_color_array :
    (start count : ℕ) (c : Chip)
    → (set_color_array start count c).active.palette
      ≡ load_colors count start c.board.clut c.active.palette
unfolding set_color_array
palette-set_color_array start count c =
    if-elim (λ (n : Chip). n.active.palette ≡ load_colors count start c.board.clut c.active.palette)
      (is_clut c.active.format && ltb 1 count) _ _ (λ e. refl) (λ e. refl)

clut_entry-HasColor :
    (clut palette : ℕ → ℕ) (v : ℕ)
    → ((k : ℕ) → clut k < 2 ^ 8)
    → palette v ≡ clut_entry clut v
    → HasColor clut palette v
unfolding conv_clut
clut_entry-HasColor clut palette v bytes e = rw e (
  omega (arith, bytes (v * 3), bytes (v * 3 + 1), bytes (v * 3 + 2)),
  omega (arith, bytes (v * 3), bytes (v * 3 + 1), bytes (v * 3 + 2)),
  omega (arith, bytes (v * 3), bytes (v * 3 + 1), bytes (v * 3 + 2)),
)

-- After chip_SetColorArray a pixel with the number of an entry from `start` on, up to `count`
-- entries and to the 256th, is shown by the flush in the red, green and blue that BoardInfo's CLUT
-- has for it, and every other entry is as before. Condition: the CLUT holds bytes.
pub set_color_array-Loads :
    (start count : ℕ) (c : Chip) (v : ℕ)
    → ((k : ℕ) → c.board.clut k < 2 ^ 8)
    → Loads start count c (set_color_array start count c) v
set_color_array-Loads start count c v bytes =
    let at = load_colors-at count start c.board.clut c.active.palette v in
    let e : (set_color_array start count c).active.palette v
        ≡ load_colors count start c.board.clut c.active.palette v =
      ap (λ (f : ℕ → ℕ). f v) (palette-set_color_array start count c) in
    elim (Bool-cases (is_loaded count start v)) [
      | inl t ↦ rw t (
          clut_entry-HasColor c.board.clut (set_color_array start count c).active.palette v bytes
            (e ∙ (at ∙ rw t refl)))
      | inr t ↦ rw t (e ∙ (at ∙ rw t refl))
    ]
