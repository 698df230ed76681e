-- ===== src/Blit/Clearance.antt =====
-- Which rows of two rectangles of one bitmap overlap (src/chip/chip_blit.c).
use virt_iogpu.Prelude.{
  ℕ, zero, suc, ◌+◌, ◌-◌, ◌*◌, ◌≤◌, ◌<◌, ◌≡◌, ◌⊎◌, true, arith, inl, inr, Bool-cases,
}
use native.Mathlib.Nat.{add-mul, suc-mul}
use virt_iogpu.Blit.Memory.{Mem, Op, source, combine, Exec, is_aligned, row_copy}
use virt_iogpu.Blit.Units.{in_row-outside}
use virt_iogpu.Blit.Area.{Works, Clear, ClearUp}

module _ (op : Op) (len stride : ℕ) where
  pub Clear-ahead : (h s d : ℕ) → d + len ≤ s + stride → Clear op len stride stride h s d
  Clear-ahead zero s d p = tt
  Clear-ahead (suc h) s d p = (
    λ b q r. in_row-outside len d b (inr (omega arith)),
    Clear-ahead h (s + stride) (d + stride) (omega arith),
  )

  pub ClearUp-behind : (h s d : ℕ) → s + len ≤ d + stride → ClearUp op len stride stride h s d
  ClearUp-behind zero s d p = tt
  ClearUp-behind (suc h) s d p =
      (λ b q r. in_row-outside len (d + h * stride) b (inl (omega arith)), ClearUp-behind h s d p)

-- What the library's documentation promises: two areas that do not overlap are copied, by the
-- quick function where both addresses and the length are aligned.
pub record Copies (exec : Exec) : Type 0 where
  pub any :
      (s d len : ℕ) (mem : Mem) (a : ℕ)
      → (s + len ≤ d) ⊎ (d + len ≤ s)
      → exec.copy_mem s d len mem a ≡ combine source len s d mem a
  pub quick :
      (s d len : ℕ) (mem : Mem) (a : ℕ)
      → is_aligned s d len ≡ true
      → (s + len ≤ d) ⊎ (d + len ≤ s)
      → exec.copy_mem_quick s d len mem a ≡ combine source len s d mem a

pub row_copy-combine :
    (exec : Exec)
    → Copies exec
    → (len s d : ℕ) (mem : Mem) (a : ℕ) → (s + len ≤ d) ⊎ (d + len ≤ s)
    → row_copy exec len s d mem a ≡ combine source len s d mem a
unfolding row_copy
row_copy-combine exec copies len s d mem a apart = elim (Bool-cases (is_aligned s d len)) [
  | inl e ↦ rw e (copies.quick s d len mem a e apart)
  | inr e ↦ rw e (copies.any s d len mem a apart)
]

-- Rows of the library's copy, where the destination lies above the source.
pub row_copy-Works :
    (exec : Exec)
    → Copies exec
    → (len stride h s d : ℕ) → d + len ≤ s
    → Works source len stride stride (row_copy exec len) h s d
row_copy-Works exec copies len stride zero s d above = tt
row_copy-Works exec copies len stride (suc h) s d above = (
  λ mem a. row_copy-combine exec copies len s d mem a (inr above),
  row_copy-Works exec copies len stride h (s + stride) (d + stride) (omega arith),
)

-- A pixel of a line further up stands before one of a line further down.
pub lines_apart : (stride y y' i i' : ℕ) → y < y' → i ≤ stride → y * stride + i ≤ y' * stride + i'
lines_apart stride y y' i i' p q =
    let k = y' - suc y in
    let e : y' ≡ suc y + k = omega arith in
    rw e (omega (arith, add-mul (suc y) k stride, suc-mul y stride))
