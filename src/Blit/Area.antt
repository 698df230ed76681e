-- ===== src/Blit/Area.antt =====
-- What a loop over the rows of a rectangle stores (src/chip/chip_blit.c), where no row is read
-- after it was stored.
use virt_iogpu.Prelude.{
  ℕ, zero, suc, ◌+◌, ◌-◌, ◌*◌, ◌≤◌, ◌<◌, ◌≡◌, refl, sym, ◌∙◌, false, if◌then◌else◌, arith,
  Bool-cases, inl, inr,
}
use virt_iogpu.Blit.Memory.{Mem, Op, in_row, combine, rows, rows_up}
use virt_iogpu.Blit.Units.{in_row-inside, in_row-outside}

-- A line's loop over one row.
abbrev pub Line : Type 0
Line = ℕ → ℕ → Mem → Mem

module _ (op : Op) (len s_stride d_stride : ℕ) where
  -- The byte at `a` after the operation on a rectangle of `h` rows, all of which are read first.
  unfoldable pub area : ℕ → ℕ → ℕ → Mem → ℕ → ℕ
  area zero s d mem a = mem a
  area (suc h) s d mem a =
      if in_row len d a
      then op (a - d) (mem (s + (a - d))) (mem a)
      else area h (s + s_stride) (d + d_stride) mem a

  pub area-before : (h s d : ℕ) (mem : Mem) (a : ℕ) → a < d → area h s d mem a ≡ mem a
  unfolding area
  area-before zero s d mem a p = refl
  area-before (suc h) s d mem a p =
      rw (in_row-outside len d a (inl p))
        (area-before h (s + s_stride) (d + d_stride) mem a (omega arith))

  area-after :
      (h s d : ℕ) (mem : Mem) (a : ℕ)
      → len ≤ d_stride
      → d + h * d_stride ≤ a
      → area h s d mem a ≡ mem a
  unfolding area
  area-after zero s d mem a narrow p = refl
  area-after (suc h) s d mem a narrow p =
      rw (in_row-outside len d a (inr (omega arith)))
        (area-after h (s + s_stride) (d + d_stride) mem a narrow (omega arith))

  -- Only the bytes of the source's rows are read.
  area-same :
      (h s d : ℕ) (mem mem' : Mem) (a : ℕ)
      → mem' a ≡ mem a
      → ((b : ℕ) → s ≤ b → b + s_stride < s + h * s_stride + len → mem' b ≡ mem b)
      → area h s d mem' a ≡ area h s d mem a
  unfolding area
  area-same zero s d mem mem' a e same = e
  area-same (suc h) s d mem mem' a e same =
      let m : suc h * s_stride ≡ s_stride + h * s_stride = omega arith in
      elim (Bool-cases (in_row len d a)) [
        | inl inside ↦
            let (p, q) = in_row-inside len d a inside in
            rw (inside, e, same (s + (a - d)) (omega arith) (omega arith)) refl
        | inr out ↦ rw out (
            area-same h (s + s_stride) (d + d_stride) mem mem' a e
              (λ b p q. same b (omega arith) (omega arith)))
      ]

  module _ (line : Line) where
    -- The loop over a row stores what it should, in all rows.
    abbrev pub Works : ℕ → ℕ → ℕ → Type 0
    Works zero s d = Unit {0}
    Works (suc h) s d =
        ((mem : Mem) (a : ℕ) → line s d mem a ≡ combine op len s d mem a)
        × Works h (s + s_stride) (d + d_stride)

    pub Works-always :
        ((s d : ℕ) (mem : Mem) (a : ℕ) → line s d mem a ≡ combine op len s d mem a)
        → (h s d : ℕ) → Works h s d
    Works-always f zero s d = tt
    Works-always f (suc h) s d = (f s d, Works-always f h (s + s_stride) (d + d_stride))

  -- No row that comes later is read where this row is stored.
  abbrev pub Clear : ℕ → ℕ → ℕ → Type 0
  Clear zero s d = Unit {0}
  Clear (suc h) s d =
      ((b : ℕ)
        → s + s_stride ≤ b
        → b + s_stride < s + s_stride + h * s_stride + len
        → in_row len d b ≡ false)
      × Clear h (s + s_stride) (d + d_stride)

  module _ (line : Line) (narrow : len ≤ d_stride) where
    pub rows-area :
        (h s d : ℕ) (mem : Mem) (a : ℕ)
        → Works line h s d
        → Clear h s d
        → rows line h s s_stride d d_stride mem a ≡ area h s d mem a
    unfolding rows area
    rows-area zero s d mem a works clear = refl
    rows-area (suc h) s d mem a (one, later) (clear, rest) =
        rows-area h (s + s_stride) (d + d_stride) (line s d mem) a later rest
        ∙ elim (Bool-cases (in_row len d a)) [
          | inl inside ↦
              let (p, q) = in_row-inside len d a inside in
              area-before h (s + s_stride) (d + d_stride) (line s d mem) a (omega arith)
              ∙ one mem a
              ∙ rw inside refl
          | inr out ↦
              area-same h (s + s_stride) (d + d_stride) mem (line s d mem) a
                (one mem a ∙ rw out refl) (λ b p q. one mem b ∙ rw (clear b p q) refl)
              ∙ rw out refl
        ]

  -- The last row is the first that a loop from below stores.
  area-last :
      (h s d : ℕ) (mem : Mem) (a : ℕ)
      → len ≤ d_stride
      → area (suc h) s d mem a ≡ (
          if in_row len (d + h * d_stride) a
          then op
              (a - (d + h * d_stride))
              (mem (s + h * s_stride + (a - (d + h * d_stride))))
              (mem a)
          else area h s d mem a)
  unfolding area
  area-last zero s d mem a narrow =
      let e : d + zero * d_stride ≡ d = omega arith in
      let f : s + zero * s_stride ≡ s = omega arith in rw (e, f) refl
  area-last (suc h) s d mem a narrow =
      let e : d + suc h * d_stride ≡ d + d_stride + h * d_stride = omega arith in
      let f : s + suc h * s_stride ≡ s + s_stride + h * s_stride = omega arith in
      elim (Bool-cases (in_row len d a)) [
        | inl inside ↦
            let (p, q) = in_row-inside len d a inside in
            let out = in_row-outside len (d + suc h * d_stride) a (inl (omega arith)) in
            rw (inside, out) refl
        | inr out ↦ rw (out, e, f) (area-last h (s + s_stride) (d + d_stride) mem a narrow)
      ]

  -- No row that is further up is read where this row is stored.
  abbrev pub ClearUp : ℕ → ℕ → ℕ → Type 0
  ClearUp zero s d = Unit {0}
  ClearUp (suc h) s d =
      ((b : ℕ)
        → s ≤ b
        → b + s_stride < s + h * s_stride + len
        → in_row len (d + h * d_stride) b ≡ false)
      × ClearUp h s d

  pub rows_up-area :
      (line : Line)
      → len ≤ d_stride
      → ((s d : ℕ) (mem : Mem) (a : ℕ) → line s d mem a ≡ combine op len s d mem a)
      → (h s d : ℕ) (mem : Mem) (a : ℕ) → ClearUp h s d
      → rows_up line h s s_stride d d_stride mem a ≡ area h s d mem a
  unfolding rows_up area
  rows_up-area line narrow works zero s d mem a clear = refl
  rows_up-area line narrow works (suc h) s d mem a (clear, rest) =
      let s' = s + h * s_stride in
      let d' = d + h * d_stride in
      rows_up-area line narrow works h s d (line s' d' mem) a rest
      ∙ elim (Bool-cases (in_row len d' a)) [
        | inl inside ↦
            let (p, q) = in_row-inside len d' a inside in
            area-after h s d (line s' d' mem) a narrow p
            ∙ works s' d' mem a
            ∙ rw inside (sym (area-last h s d mem a narrow ∙ rw inside refl))
        | inr out ↦
            area-same h s d mem (line s' d' mem) a (works s' d' mem a ∙ rw out refl)
              (λ b p q. works s' d' mem b ∙ rw (clear b p q) refl)
            ∙ sym (area-last h s d mem a narrow ∙ rw out refl)
      ]
