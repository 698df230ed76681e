-- ===== src/BoardAlloc/FirstFit.antt =====
-- The first-fit scan of board_alloc (src/chip/chip_alloc.c) finds a hole wherever there is one.
use virt_iogpu.Prelude.{
  ℕ, ◌+◌, ◌-◌, ◌%◌, ◌^◌, ◌≤◌, ◌<◌, ◌≡◌, Bool, true, false, List, [], ◌∷◌, Option, none, some, arith,
  ltb, ◌==◌, if◌then◌else◌, length, Bool-cases, ne_of_==, subst, inl, inr, if-elim, All, ltb→lt,
  not_ltb→le, ◌⊎◌,
}
use virt_iogpu.BoardAlloc.Slots.{Slot, take_hole, first_fit}
use virt_iogpu.BoardAlloc.Invariant.{Tiled, Tiled-le, inside, owners, Listed}

-- `got` bytes at `out.0` have a new owner, and nothing else has changed.
pub record Fitted (o : ℕ) (slots : List Slot) (top size : ℕ) (room : Bool) (out : ℕ × List Slot)
    : Type 0 where
  pub got : ℕ
  pub enough : size ≤ got
  pub below_top : out.0 + got ≤ top
  pub tiled : Tiled o out.1 top
  pub aligned : out.0 % 16 ≡ 0
  pub owned : (x : ℕ) → owners x out.1 ≡ owners x slots + inside out.0 got x
  pub listed : Listed out.0 got out.1
  pub grows : length out.1 ≤ length slots + (if room then 1 else 0)

-- A slot that cannot be handed out for `size` bytes.
abbrev pub IsShort : ℕ → Slot → Type 0
IsShort size a = (a.used ≡ true) ⊎ (a.size < size)

-- What a hole gives: the rounded size where it is split, else all of it.
abbrev pub got_of : ℕ → Bool → Slot → ℕ
got_of size room a = if a.size == size then a.size else (if room then size else a.size)

-- The first-fit scan finds such a hole, or there is none.
abbrev pub Scanned : ℕ → ℕ → Bool → ℕ → List Slot → Option (ℕ × List Slot) → Type 0
Scanned size top room o slots none = All (IsShort size) slots
Scanned size top room o slots (some out) = Fitted o slots top size room out

module _ (size top : ℕ) (room : Bool) (pos : 0 < size) (even : size % 16 ≡ 0)
    (small : top < 2 ^ 32) where
  take_hole-Tiled :
      (o : ℕ) (a : Slot) (rest : List Slot)
      → size ≤ a.size
      → Tiled o (a ∷ rest) top
      → Tiled o (take_hole size room a rest) top
  unfolding take_hole
  take_hole-Tiled o a rest fits t = elim (Bool-cases (a.size == size)) [
    | inl exact ↦ rw exact (t.0, t.1, t.2, t.3)
    | inr larger ↦ elim (Bool-cases room) [
      | inr full ↦ rw (larger, full) (t.0, t.1, t.2, t.3)
      | inl split ↦
          let ne = ne_of_== a.size size larger in
          let end : o + a.size ≡ o + size + (a.size - size) = omega arith in
          rw (larger, split)
            (
              t.0,
              pos,
              even,
              (
                omega (arith, Tiled-le (o + a.size) rest top t.3),
                omega arith,
                omega (arith, t.2),
                subst (λ p. Tiled p rest top) end t.3,
              ),
            )
    ]
  ]

  take_hole-Fitted :
      (o : ℕ) (a : Slot) (rest : List Slot)
      → o % 16 ≡ 0
      → a.used ≡ false
      → size ≤ a.size
      → Tiled o (a ∷ rest) top
      → Fitted o (a ∷ rest) top size room (a.offset, take_hole size room a rest)
  unfolding take_hole
  take_hole-Fitted o a rest al free fits t = record {
    got = got_of size room a;
    enough = ground arith;
    below_top = ground (arith, Tiled-le (o + a.size) rest top t.3);
    tiled = take_hole-Tiled o a rest fits t;
    aligned = ground arith;
    owned = λ x. ground arith;
    listed = ground arith;
    grows = ground arith;
  }

  Scanned-cons :
      (o : ℕ) (a : Slot) (rest : List Slot) (r : Option (ℕ × List Slot))
      → IsShort size a
      → Tiled o (a ∷ rest) top
      → Scanned size top room (o + a.size) rest r
      → Scanned size top room o
          (a ∷ rest)
          (elim r [ none ↦ none | some (p, rest') ↦ some (p, a ∷ rest') ])
  Scanned-cons o a rest none short t h = (short, h)
  Scanned-cons o a rest (some out) short t h = record {
    got = h.got;
    enough = h.enough;
    below_top = h.below_top;
    tiled = (t.0, t.1, t.2, h.tiled);
    aligned = h.aligned;
    owned = λ x. omega (arith, h.owned x);
    listed = inr h.listed;
    grows = omega (arith, h.grows);
  }

  pub first_fit-Scanned :
      (o : ℕ) (slots : List Slot)
      → o % 16 ≡ 0
      → Tiled o slots top
      → Scanned size top room o slots (first_fit size room slots)
  unfolding first_fit
  first_fit-Scanned o [] al t = tt
  first_fit-Scanned o (a ∷ rest) al t =
      let later : IsShort size a → Scanned size top room o (a ∷ rest) _ = λ short.
        Scanned-cons o a rest (first_fit size room rest) short t
          (first_fit-Scanned (o + a.size) rest (omega (arith, t.2)) t.3) in
      if-elim (Scanned size top room o (a ∷ rest)) a.used _ _ (λ used. later (inl used))
        (λ free.
          if-elim (Scanned size top room o (a ∷ rest)) (ltb a.size size) _ _
            (λ short. later (inr (ltb→lt a.size size short)))
            (λ long. take_hole-Fitted o a rest al free (not_ltb→le a.size size long) t))
