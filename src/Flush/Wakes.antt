-- ===== src/Flush/Wakes.antt =====
-- When chip_flush wakes the flush task (src/chip/chip_flush.c).
use virt_iogpu.Prelude.{ℕ, ◌+◌, ◌^◌, ◌≤◌, ◌<◌, ltb, if◌then◌else◌}
use virt_iogpu.Flush.Screen.{Screen}

-- Column or row `p` belongs to the range of `n` from the WORD `v` on, which may begin below 0.
abbrev pub Covers : ℕ → ℕ → ℕ → Type 0
Covers v n p = if ltb v (2 ^ 15) then (v ≤ p) × (p < v + n) else p + 2 ^ 16 < v + n
