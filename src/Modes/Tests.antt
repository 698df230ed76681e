-- ===== src/Modes/Tests.antt =====
-- Registrations of src/chip/chip_modes.c on small lists.
use virt_iogpu.Prelude.{ℕ, ◌≡◌, refl, true, [], ◌∷◌, ◌++◌, arith, All, drop, ltb}
use virt_iogpu.Modes.Table.{chip_modes}
use virt_iogpu.Modes.Register.{digits_before, mode_name, ModeMemory, edid_modes, register_modes}
use virt_iogpu.Modes.Unique.{IsUnique, register_modes-IsUnique}
use virt_iogpu.Modes.Complete.{plenty, Has, register_modes-Has}

name_800 : mode_name 800 600 ≡ 86 ∷ 73 ∷ 79 ∷ 58 ∷ 56 ∷ 48 ∷ 48 ∷ 120 ∷ 54 ∷ 48 ∷ 48 ∷ []
unfolding mode_name digits_before
name_800 = refl

-- The EDID repeats a mode of the table, and the memory runs out at slot 5.
abbrev short_memory : ℕ → ModeMemory
short_memory s = record { resolution = ltb s 5; mode_info = λ c. true }

register_modes-IsUnique_example : IsUnique (register_modes short_memory 0 ((1920, 1080) ∷ []) [])
register_modes-IsUnique_example = register_modes-IsUnique short_memory 0 ((1920, 1080) ∷ []) [] tt

register_modes-Has_example :
    All
      (Has (register_modes (λ s. plenty) 0 ((1366, 768) ∷ []) []))
      (drop 2 chip_modes ++ edid_modes ((1366, 768) ∷ []))
register_modes-Has_example =
    register_modes-Has 0 ((1366, 768) ∷ []) [] ((omega arith, omega arith), tt)
