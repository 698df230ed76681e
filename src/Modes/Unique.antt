-- ===== src/Modes/Unique.antt =====
-- What a call of chip_add_mode does to the ResolutionsList (src/chip/chip_modes.c): at most one
-- resolution is added, and none twice.
use virt_iogpu.Prelude.{
  ℕ, ◌+◌, ◌≡◌, refl, sym, subst, ◌⊎◌, inl, inr, false, ◌&&◌, ◌||◌, List, [], ◌∷◌, ◌++◌, arith, ◌==◌,
  Bool-cases, drop,
}
use virt_iogpu.Modes.Table.{Timing, ModeEntry, Resolution, chip_modes}
use virt_iogpu.Modes.Register.{
  resolution_exists, modes_for, no_modes, ModeMemory, add_mode, add_modes, edid_modes,
  register_modes,
}

-- No two resolutions have the same size.
abbrev pub IsUnique : List Resolution → Type 0
IsUnique [] = Unit {0}
IsUnique (r ∷ rest) = (resolution_exists r.width r.height rest ≡ false) × IsUnique rest

-- A resolution of the size stands behind the others, where there was none.
pub record Added (mw mh : ℕ) (rs rs' : List Resolution) : Type 0 where
  pub new : Resolution
  pub appended : rs' ≡ rs ++ (new ∷ [])
  pub width : new.width ≡ mw
  pub height : new.height ≡ mh
  pub absent : resolution_exists mw mh rs ≡ false

module _ (memory : ModeMemory) (board_num mw mh : ℕ) (timing : Timing) (slot : ℕ)
    (rs : List Resolution) where
  pub add_mode-Added :
      ((add_mode memory board_num mw mh timing slot rs).1 ≡ rs)
      ⊎ Added mw mh rs (add_mode memory board_num mw mh timing slot rs).1
  unfolding add_mode modes_for
  add_mode-Added = elim (Bool-cases ((mw == 0) || (mh == 0))) [
    | inl zero_size ↦ rw zero_size (inl refl)
    | inr sized ↦ elim (Bool-cases (resolution_exists mw mh rs)) [
      | inl there ↦ rw (sized, there) (inl refl)
      | inr absent ↦ elim (Bool-cases memory.resolution) [
        | inr no_memory ↦ rw (sized, absent, no_memory) (inl refl)
        | inl room ↦ elim (Bool-cases (no_modes (modes_for memory mw mh timing slot))) [
          | inl none_made ↦ rw (sized, absent, room, none_made) (inl refl)
          | inr made ↦
              rw (sized, absent, room, made)
                (inr (record {
                  new = _;
                  appended = refl;
                  width = refl;
                  height = refl;
                  absent = absent;
                }))
        ]
      ]
    ]
  ]

pub resolution_exists-append :
    (w h : ℕ) (rs : List Resolution) (r : Resolution)
    → resolution_exists w h (rs ++ (r ∷ []))
      ≡ resolution_exists w h rs || ((r.width == w) && (r.height == h))
unfolding resolution_exists
resolution_exists-append w h [] r = ground arith
resolution_exists-append w h (a ∷ rs) r = ground (arith, resolution_exists-append w h rs r)

IsUnique-append :
    (rs : List Resolution) (r : Resolution)
    → IsUnique rs
    → resolution_exists r.width r.height rs ≡ false
    → IsUnique (rs ++ (r ∷ []))
unfolding resolution_exists
IsUnique-append [] r u absent = (refl, tt)
IsUnique-append (a ∷ rs) r u absent = (
  ground (arith, resolution_exists-append a.width a.height rs r, u.0),
  IsUnique-append rs r u.1 (ground arith),
)

IsUnique-Added :
    (mw mh : ℕ) (rs rs' : List Resolution) → Added mw mh rs rs' → IsUnique rs → IsUnique rs'
IsUnique-Added mw mh rs rs' a u =
    subst IsUnique (sym a.appended) (IsUnique-append rs a.new u (rw (a.width, a.height) a.absent))

pub add_mode-IsUnique :
    (memory : ModeMemory) (board_num mw mh : ℕ) (timing : Timing) (slot : ℕ) (rs : List Resolution)
    → IsUnique rs
    → IsUnique (add_mode memory board_num mw mh timing slot rs).1
add_mode-IsUnique memory board_num mw mh timing slot rs u =
    elim (add_mode-Added memory board_num mw mh timing slot rs) [
      | inl same ↦ subst IsUnique (sym same) u
      | inr added ↦ IsUnique-Added mw mh rs _ added u
    ]

add_modes-IsUnique :
    (memory : ℕ → ModeMemory) (board_num : ℕ) (es : List ModeEntry) (slot : ℕ)
    (rs : List Resolution)
    → IsUnique rs
    → IsUnique (add_modes memory board_num es slot rs)
unfolding add_modes
add_modes-IsUnique memory board_num [] slot rs u = u
add_modes-IsUnique memory board_num (e ∷ es) slot rs u =
    add_modes-IsUnique memory board_num es (slot + 1) _
      (add_mode-IsUnique (memory slot) board_num e.w e.h e.timing slot rs u)

-- The registration never makes two resolutions of the same size, whatever the EDID announces and
-- whichever allocations fail. Condition: there were none before.
pub register_modes-IsUnique :
    (memory : ℕ → ModeMemory) (board_num : ℕ) (edid : List (ℕ × ℕ)) (rs : List Resolution)
    → IsUnique rs
    → IsUnique (register_modes memory board_num edid rs)
unfolding register_modes
register_modes-IsUnique memory board_num edid rs u =
    add_modes-IsUnique memory board_num (edid_modes edid) 14 _
      (add_modes-IsUnique memory board_num (drop 2 chip_modes) 2 rs u)
