-- ===== src/Blit/Units.antt =====
-- The loops over a row of src/chip/chip_blit.c store what one step over the whole row would.
use virt_iogpu.Prelude.{
  ℕ, zero, suc, ◌+◌, ◌-◌, ◌*◌, ◌/◌, ◌≤◌, ◌<◌, ◌≡◌, ◌⊎◌, refl, sym, ◌∙◌, ap, Bool, true, false, ltb,
  arith, Bool-cases, inl, inr, fun_ext,
}
use virt_iogpu.Blit.Memory.{
  Mem, Op, source, in_row, combine, forward, backward, lmemmove, is_aligned, move_row, mixed_row,
}

-- The operation does not tell the units apart.
abbrev pub IsPeriodic : ℕ → Op → Type 0
IsPeriodic u op = (k s d : ℕ) → op (k + u) s d ≡ op k s d

-- Where a loop that goes forward reads no byte that it has stored.
abbrev pub Ahead : ℕ → ℕ → ℕ → Type 0
Ahead len s d = (d ≤ s) ⊎ (s + len ≤ d)

-- Where a loop that goes backward reads no byte that it has stored.
abbrev pub Behind : ℕ → ℕ → ℕ → Type 0
Behind len s d = (s ≤ d) ⊎ (d + len ≤ s)

pub in_row-inside : (len d a : ℕ) → in_row len d a ≡ true → (d ≤ a) × (a < d + len)
in_row-inside len d a e = (ground arith, ground arith)

pub in_row-outside : (len d a : ℕ) → (a < d) ⊎ (d + len ≤ a) → in_row len d a ≡ false
in_row-outside len d a h = ground arith

pub in_row-of : (len d a : ℕ) → d ≤ a → a < d + len → in_row len d a ≡ true
in_row-of len d a p q = ground arith

module _ (op : Op) (u len : ℕ) (s d : ℕ) (mem : Mem) (a : ℕ) where
  combine-twice :
      IsPeriodic u op
      → Ahead (u + len) s d
      → combine op len (s + u) (d + u) (combine op u s d mem) a ≡ combine op (u + len) s d mem a
  combine-twice periodic ahead = elim (Bool-cases (in_row len (d + u) a)) [
    | inl later ↦
        let (p, q) = in_row-inside len (d + u) a later in
        let i = a - (d + u) in
        let off : a - d ≡ i + u = omega arith in
        let at_dst = in_row-outside u d a (inr p) in
        let read : s + u + i ≡ s + (i + u) = omega arith in
        let at_src = in_row-outside u d (s + (i + u)) (ground arith) in
        let whole = in_row-of (u + len) d a (omega arith) (omega arith) in
        rw (later, whole, at_dst, off, read, at_src) (sym (periodic i (mem (s + (i + u))) (mem a)))
    | inr e ↦ elim (Bool-cases (in_row u d a)) [
      | inl first ↦
          let (p, q) = in_row-inside u d a first in
          let whole = in_row-of (u + len) d a p (omega arith) in rw (e, first, whole) refl
      | inr out ↦ let whole : in_row (u + len) d a ≡ false = ground arith in rw (e, out, whole) refl
    ]
  ]

combine-none : (op : Op) (s d : ℕ) (mem : Mem) (a : ℕ) → combine op 0 s d mem a ≡ mem a
combine-none op s d mem a = elim (Bool-cases (in_row 0 d a)) [
  | inl e ↦ absurd (ground arith)
  | inr e ↦ rw e refl
]

pub forward-combine :
    (op : Op) (u n s d : ℕ) (mem : Mem) (a : ℕ)
    → IsPeriodic u op
    → Ahead (n * u) s d
    → forward op u n s d mem a ≡ combine op (n * u) s d mem a
unfolding forward
forward-combine op u zero s d mem a periodic ahead =
    let e : zero * u ≡ 0 = omega arith in rw e (sym (combine-none op s d mem a))
forward-combine op u (suc n) s d mem a periodic ahead =
    let e : suc n * u ≡ u + n * u = omega arith in
    rw e (
      forward-combine op u n (s + u) (d + u) (combine op u s d mem) a periodic (ground arith)
      ∙ combine-twice op u (n * u) s d mem a periodic (rw e at ahead))

combine_back :
    (u len s d : ℕ) (mem : Mem) (a : ℕ)
    → Behind (len + u) s d
    → combine source len s d (combine source u (s + len) (d + len) mem) a
      ≡ combine source (len + u) s d mem a
combine_back u len s d mem a behind = elim (Bool-cases (in_row len d a)) [
  | inl first ↦
      let (p, q) = in_row-inside len d a first in
      let at_src = in_row-outside u (d + len) (s + (a - d)) (ground arith) in
      let whole = in_row-of (len + u) d a p (omega arith) in rw (first, whole, at_src) refl
  | inr e ↦ elim (Bool-cases (in_row u (d + len) a)) [
    | inl last ↦
        let (p, q) = in_row-inside u (d + len) a last in
        let whole = in_row-of (len + u) d a (omega arith) (omega arith) in
        let read : s + len + (a - (d + len)) ≡ s + (a - d) = omega arith in
        rw (e, last, whole, read) refl
    | inr out ↦ let whole : in_row (len + u) d a ≡ false = ground arith in rw (e, out, whole) refl
  ]
]

pub backward-combine :
    (u n s d : ℕ) (mem : Mem) (a : ℕ)
    → Behind (n * u) s d
    → backward source u n s d mem a ≡ combine source (n * u) s d mem a
unfolding backward
backward-combine u zero s d mem a behind =
    let e : zero * u ≡ 0 = omega arith in rw e (sym (combine-none source s d mem a))
backward-combine u (suc n) s d mem a behind =
    let e : suc n * u ≡ n * u + u = omega arith in
    rw e (
      backward-combine u n s d (combine source u (s + n * u) (d + n * u) mem) a (ground arith)
      ∙ combine_back u (n * u) s d mem a (rw e at behind))

-- Each row is moved as if its bytes were all read first, whichever way it overlaps, and whatever
-- the alignment.
pub move_row-combine :
    (len s d : ℕ) (mem : Mem) (a : ℕ) → move_row len s d mem a ≡ combine source len s d mem a
unfolding move_row lmemmove
move_row-combine len s d mem a =
    let one : len * 1 ≡ len = omega arith in
    elim (Bool-cases (is_aligned s d len)) [
      | inl al ↦
          let four : len / 4 * 4 ≡ len = ground arith in
          elim (Bool-cases (ltb d s)) [
            | inl lower ↦
                rw (al, lower)
                  (forward-combine source 4 (len / 4) s d mem a (λ k x y. refl) (ground arith)
                    ∙ rw four refl)
            | inr higher ↦
                rw (al, higher)
                  (backward-combine 4 (len / 4) s d mem a (ground arith) ∙ rw four refl)
          ]
      | inr un ↦ elim (Bool-cases (ltb d s)) [
        | inl lower ↦
            rw (un, lower)
              (forward-combine source 1 len s d mem a (λ k x y. refl) (ground arith) ∙ rw one refl)
        | inr higher ↦
            rw (un, higher) (backward-combine 1 len s d mem a (ground arith) ∙ rw one refl)
      ]
    ]

-- Longs and then bytes are the same as bytes, for an operation without offsets.
pub mixed_row-combine :
    (op : Op) (aligned : Bool) (len s d : ℕ) (mem : Mem) (a : ℕ)
    → ((u : ℕ) → IsPeriodic u op)
    → Ahead len s d
    → mixed_row op aligned len s d mem a ≡ combine op len s d mem a
unfolding mixed_row
mixed_row-combine op false len s d mem a periodic ahead =
    let one : len * 1 ≡ len = omega arith in
    forward-combine op 1 len s d mem a (periodic 1) (rw one ahead) ∙ rw one refl
mixed_row-combine op true len s d mem a periodic ahead =
    let m = len / 4 * 4 in
    let r = len - m in
    let one : r * 1 ≡ r = omega arith in
    let sum : m + r ≡ len = omega arith in
    forward-combine op 1 r (s + m) (d + m) (forward op 4 (len / 4) s d mem) a (periodic 1)
      (ground arith)
    ∙ rw one (
        ap (λ f. combine op r (s + m) (d + m) f a)
          (fun_ext (λ b. forward-combine op 4 (len / 4) s d mem b (periodic 4) (ground arith)))
        ∙ combine-twice op m r s d mem a (periodic m) (rw sum ahead)
        ∙ rw sum refl)
