-- ===== src/Gpu/Edid/Rounds.antt =====
-- The rounds of the loop over an extension block in chip_GetEDID (src/chip/chip_gpu_cmds.c).
use virt_iogpu.Prelude.{
  ℕ, zero, suc, ◌+◌, ◌*◌, ◌≤◌, ◌<◌, ◌≡◌, refl, List, Option, none, some, arith, ◌⊎◌, Bool-cases,
  inl, inr, leb, ◌==◌, lt→not_leb,
}
use virt_iogpu.Gpu.Edid.{Sizes, ◌>>=◌, pixel_clock, read_dtd, cea_block}

Option-cases : (o : Option ℕ) → (o ≡ none) ⊎ ((c : ℕ) × (o ≡ some c))
Option-cases none = inl refl
Option-cases (some c) = inr (c, refl)

bind_same :
    (o : Option Sizes) (f g : Sizes → Option Sizes)
    → ((s : Sizes) → f s ≡ g s)
    → (o >>= f) ≡ (o >>= g)
bind_same none f g h = refl
bind_same (some s) f g h = h s

more_rounds :
    (edid : List ℕ) (n k ext_base off : ℕ) (s : Sizes)
    → ext_base + 126 < off + 18 * n + 18
    → cea_block (n + k) edid ext_base off s ≡ cea_block n edid ext_base off s
unfolding cea_block
more_rounds edid zero zero ext_base off s h = refl
more_rounds edid zero (suc k) ext_base off s h =
    let over = lt→not_leb (off + 18) (ext_base + 126) (omega arith) in
    let e : zero + suc k ≡ suc k = omega arith in rw (e, cea_block, over) refl
more_rounds edid (suc n) k ext_base off s h =
    let e : suc n + k ≡ suc (n + k) = omega arith in
    rw (e, cea_block)
      (elim (Bool-cases (leb (off + 18) (ext_base + 126))) [
        | inr over ↦ rw over refl
        | inl inside ↦ elim (Option-cases (pixel_clock edid off)) [
          | inl missing ↦ rw (inside, missing) refl
          | inr (clock, there) ↦ elim (Bool-cases (clock == 0)) [
            | inl z ↦ rw (inside, there, z) refl
            | inr nz ↦
                rw (inside, there, nz)
                  (bind_same (read_dtd edid off s) _ _
                    (λ s'. more_rounds edid n k ext_base (off + 18) s' (omega arith)))
          ]
        ]
      ])

-- The loop over an extension's timings ends by its own conditions: from the offset 4 on, where the
-- timings begin at the earliest, more than seven rounds change nothing.
cea_block-rounds :
    (edid : List ℕ) (k ext_base dtd_off : ℕ) (s : Sizes)
    → 4 ≤ dtd_off
    → cea_block (7 + k) edid ext_base (ext_base + dtd_off) s
      ≡ cea_block 7 edid ext_base (ext_base + dtd_off) s
cea_block-rounds edid k ext_base dtd_off s h =
    more_rounds edid 7 k ext_base (ext_base + dtd_off) s (omega arith)
