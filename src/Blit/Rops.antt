-- ===== src/Blit/Rops.antt =====
-- chip_BlitRectNoMaskComplete, chip_FillRect and chip_InvertRect (src/chip/chip_blit.c) apply one
-- operation to every byte of a rectangle.
use virt_iogpu.Prelude.{
  ℕ, zero, suc, ◌+◌, ◌-◌, ◌*◌, ◌≤◌, ◌≡◌, ◌⊎◌, refl, Bool, arith, Bool-cases, inl, inr,
}
use virt_iogpu.Blit.Memory.{Mem, Op, in_row, combine, mixed_row, rows}
use virt_iogpu.Blit.Units.{IsPeriodic, in_row-outside, mixed_row-combine}
use virt_iogpu.Blit.Area.{Line, Works, Clear, area, rows-area}
use virt_iogpu.Blit.Clearance.{Clear-ahead}

-- The two rectangles, with all of their lines, do not overlap.
abbrev pub Apart : ℕ → ℕ → ℕ → ℕ → ℕ → Type 0
Apart h s s_stride d d_stride = (s + h * s_stride ≤ d) ⊎ (d + h * d_stride ≤ s)

module _ (op : Op) (len s_stride d_stride : ℕ) (s_narrow : len ≤ s_stride)
    (d_narrow : len ≤ d_stride) where
  pub Clear-Apart :
      (h s d : ℕ) → Apart h s s_stride d d_stride → Clear op len s_stride d_stride h s d
  Clear-Apart zero s d apart = tt
  Clear-Apart (suc h) s d apart =
      let m : suc h * s_stride ≡ s_stride + h * s_stride = omega arith in
      let n : suc h * d_stride ≡ d_stride + h * d_stride = omega arith in
      (
        λ b p q. in_row-outside len d b (ground arith),
        Clear-Apart h (s + s_stride) (d + d_stride) (ground arith),
      )

  -- A loop over a row that stores what it should where the row does not overlap its source.
  pub Works-Apart :
      (line : Line)
      → ((s d : ℕ) (mem : Mem) (a : ℕ)
          → (s + len ≤ d) ⊎ (d + len ≤ s)
          → line s d mem a ≡ combine op len s d mem a)
      → (h s d : ℕ) → Apart h s s_stride d d_stride
      → Works op len s_stride d_stride line h s d
  Works-Apart line f zero s d apart = tt
  Works-Apart line f (suc h) s d apart =
      let m : suc h * s_stride ≡ s_stride + h * s_stride = omega arith in
      let n : suc h * d_stride ≡ d_stride + h * d_stride = omega arith in
      (
        λ mem a. f s d mem a (ground arith),
        Works-Apart line f h (s + s_stride) (d + d_stride) (ground arith),
      )

-- An operation that does not read the source.
abbrev pub IsUnary : Op → Type 0
IsUnary op = (k s s' d : ℕ) → op k s d ≡ op k s' d

pub area-unary :
    (op : Op) (len s_stride s_stride' d_stride h s s' d : ℕ) (mem : Mem) (a : ℕ)
    → IsUnary op
    → area op len s_stride d_stride h s d mem a ≡ area op len s_stride' d_stride h s' d mem a
unfolding area
area-unary op len s_stride s_stride' d_stride zero s s' d mem a unary = refl
area-unary op len s_stride s_stride' d_stride (suc h) s s' d mem a unary =
    elim (Bool-cases (in_row len d a)) [
      | inl inside ↦ rw inside (unary (a - d) (mem (s + (a - d))) (mem (s' + (a - d))) (mem a))
      | inr out ↦ rw out (
          area-unary op len s_stride s_stride' d_stride h (s + s_stride) (s' + s_stride')
            (d + d_stride) mem a unary)
    ]

pub in_place :
    (op : Op) (len stride : ℕ) (line : Line)
    → ((d : ℕ) (mem : Mem) (a : ℕ) → line d d mem a ≡ combine op len d d mem a)
    → (h d : ℕ) → Works op len stride stride line h d d
in_place op len stride line f zero d = tt
in_place op len stride line f (suc h) d = (f d, in_place op len stride line f h (d + stride))

module _ (len d_stride h d : ℕ) (narrow : len ≤ d_stride) (mem : Mem) (a : ℕ) where
  -- A loop over rows that goes by the destination alone.
  pub unary_rows :
      (op : Op) (aligned : ℕ → Bool)
      → ((u : ℕ) → IsPeriodic u op)
      → rows (λ s d. mixed_row op (aligned d) len s d) h d d_stride d d_stride mem a
        ≡ area op len d_stride d_stride h d d mem a
  unary_rows op aligned periodic =
      rows-area op len d_stride d_stride (λ s d. mixed_row op (aligned d) len s d) narrow h d d mem
        a
        (in_place op len d_stride (λ s d. mixed_row op (aligned d) len s d)
          (λ d m b. mixed_row-combine op (aligned d) len d d m b periodic (inl (omega arith))) h d)
        (Clear-ahead op len d_stride h d d (omega arith))
