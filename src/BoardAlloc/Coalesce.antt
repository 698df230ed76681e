-- ===== src/BoardAlloc/Coalesce.antt =====
-- board_coalesce_at (src/chip/chip_alloc.c) merges free slots and keeps every owner.
use virt_iogpu.Prelude.{
  ℕ, zero, suc, ◌+◌, ◌%◌, ◌^◌, ◌≤◌, ◌<◌, ◌≡◌, refl, false, List, [], ◌∷◌, arith, length, if-elim,
  subst, ◌∙◌,
}
use virt_iogpu.BoardAlloc.Slots.{
  Slot, Board, merged, merge_next, merge_prev, drop_free, drop_trailing, top_of, recalc_top,
  coalesce_at,
}
use virt_iogpu.BoardAlloc.Invariant.{Tiled, Tiled-le, owners, Inv, Tiled-aligned}

-- `s'` tiles the same range as `s` with the same owners, in no more slots.
pub record Same (o top : ℕ) (s s' : List Slot) : Type 0 where
  pub tiled : Tiled o s' top
  pub owned : (x : ℕ) → owners x s' ≡ owners x s
  pub shrinks : length s' ≤ length s

Same-refl : (o top : ℕ) (s : List Slot) → Tiled o s top → Same o top s s
Same-refl o top s t = record { tiled = t; owned = λ x. refl; shrinks = omega arith }

Same-cons :
    (o top : ℕ) (a : Slot) (s s' : List Slot)
    → Tiled o (a ∷ s) top
    → Same (o + a.size) top s s'
    → Same o top (a ∷ s) (a ∷ s')
Same-cons o top a s s' t h = record {
  tiled = (t.0, t.1, t.2, h.tiled);
  owned = λ x. omega (arith, h.owned x);
  shrinks = omega (arith, h.shrinks);
}

-- Two free slots become one.
merged-Same :
    (o top : ℕ) (a b : Slot) (rest : List Slot)
    → top < 2 ^ 32
    → a.used ≡ false
    → b.used ≡ false
    → Tiled o (a ∷ b ∷ rest) top
    → Same o top (a ∷ b ∷ rest) (merged a b ∷ rest)
merged-Same o top a b rest small fa fb t =
    let whole : (a.size + b.size) % 2 ^ 32 ≡ a.size + b.size =
      omega (arith, Tiled-le (o + a.size + b.size) rest top t.3.3) in
    record {
      tiled = (
        t.0,
        omega (arith, whole),
        omega (arith, whole, t.3.2),
        subst (λ e. Tiled e rest top) (omega (arith, whole)) t.3.3,
      );
      owned = λ x. ground arith;
      shrinks = omega arith;
    }

-- The slot at `i` is free.
abbrev pub IsFree : ℕ → List Slot → Type 0
IsFree i [] = Unit {0}
IsFree zero (a ∷ s) = a.used ≡ false
IsFree (suc i) (a ∷ s) = IsFree i s

merge_next-Same :
    (i o top : ℕ) (s : List Slot)
    → top < 2 ^ 32
    → IsFree i s
    → Tiled o s top
    → Same o top s (merge_next i s) × IsFree i (merge_next i s)
unfolding merge_next
merge_next-Same zero o top [] small f t = (Same-refl o top [] t, tt)
merge_next-Same (suc i) o top [] small f t = (Same-refl o top [] t, tt)
merge_next-Same zero o top (a ∷ []) small f t = (Same-refl o top _ t, f)
merge_next-Same zero o top (a ∷ b ∷ rest) small f t =
    if-elim (λ s'. Same o top (a ∷ b ∷ rest) s' × IsFree zero s') b.used _ _
      (λ u. (Same-refl o top _ t, f)) (λ u. (merged-Same o top a b rest small f u t, f))
merge_next-Same (suc i) o top (a ∷ s) small f t =
    let h = merge_next-Same i (o + a.size) top s small f t.3 in
    (Same-cons o top a s (merge_next i s) t h.0, h.1)

merge_prev-Same :
    (i o top : ℕ) (s : List Slot)
    → top < 2 ^ 32
    → IsFree i s
    → Tiled o s top
    → Same o top s (merge_prev i s)
unfolding merge_prev
merge_prev-Same zero o top [] small f t = Same-refl o top _ t
merge_prev-Same (suc i) o top [] small f t = Same-refl o top _ t
merge_prev-Same zero o top (a ∷ []) small f t = Same-refl o top _ t
merge_prev-Same (suc i) o top (a ∷ []) small f t = Same-refl o top _ t
merge_prev-Same zero o top (a ∷ b ∷ s) small f t = Same-refl o top _ t
merge_prev-Same (suc zero) o top (a ∷ b ∷ s) small f t =
    if-elim (Same o top (a ∷ b ∷ s)) a.used _ _ (λ u. Same-refl o top _ t)
      (λ u. merged-Same o top a b s small u f t)
merge_prev-Same (suc (suc i)) o top (a ∷ b ∷ s) small f t =
    Same-cons o top a (b ∷ s) (merge_prev (suc i) (b ∷ s)) t
      (merge_prev-Same (suc i) (o + a.size) top (b ∷ s) small f t.3)

-- `s'` is `s` without its last slots, which were free.
pub record Trimmed (o top : ℕ) (s s' : List Slot) : Type 0 where
  pub end : ℕ
  pub end-le : end ≤ top
  pub tiled : Tiled o s' end
  pub owned : (x : ℕ) → owners x s' ≡ owners x s
  pub shrinks : length s' ≤ length s

drop_free-Trimmed :
    (o top : ℕ) (a : Slot) (s s' : List Slot)
    → Tiled o (a ∷ s) top
    → Trimmed (o + a.size) top s s'
    → Trimmed o top (a ∷ s) (drop_free a s')
unfolding drop_free
drop_free-Trimmed o top a s [] t h =
    if-elim (Trimmed o top (a ∷ s)) a.used _ _
      (λ u. record {
        end = h.end;
        end-le = h.end-le;
        tiled = (t.0, t.1, t.2, h.tiled);
        owned = λ x. omega (arith, h.owned x);
        shrinks = omega arith;
      })
      (λ f. record {
        end = o;
        end-le = omega (arith, Tiled-le o (a ∷ s) top t);
        tiled = refl;
        owned = λ x. ground (arith, h.owned x);
        shrinks = omega arith;
      })
drop_free-Trimmed o top a s (b ∷ r) t h = record {
  end = h.end;
  end-le = h.end-le;
  tiled = (t.0, t.1, t.2, h.tiled);
  owned = λ x. omega (arith, h.owned x);
  shrinks = omega (arith, h.shrinks);
}

drop_trailing-Trimmed :
    (o top : ℕ) (s : List Slot) → Tiled o s top → Trimmed o top s (drop_trailing s)
unfolding drop_trailing
drop_trailing-Trimmed o top [] t = record {
  end = top;
  end-le = omega arith;
  tiled = t;
  owned = λ x. refl;
  shrinks = omega arith;
}
drop_trailing-Trimmed o top (a ∷ s) t =
    drop_free-Trimmed o top a s (drop_trailing s) t (drop_trailing-Trimmed (o + a.size) top s t.3)

top_of-Tiled :
    (o : ℕ) (a : Slot) (s : List Slot) (end : ℕ)
    → end < 2 ^ 32
    → Tiled o (a ∷ s) end
    → top_of (a ∷ s) ≡ end
unfolding top_of
top_of-Tiled o a [] end small t = omega arith
top_of-Tiled o a (b ∷ s) end small t = top_of-Tiled (o + a.size) b s end small t.3

top_of-end : (s : List Slot) (end : ℕ) → end < 2 ^ 32 → Tiled 0 s end → top_of s ≡ end
unfolding top_of
top_of-end [] end small t = t
top_of-end (a ∷ s) end small t = top_of-Tiled 0 a s end small t

-- Coalescing around a free slot keeps the table well-formed and every owner.
pub coalesce_at-Inv :
    (i : ℕ) (b : Board)
    → Inv b
    → IsFree i b.slots
    → Inv (coalesce_at i b) × ((x : ℕ) → owners x (coalesce_at i b).slots ≡ owners x b.slots)
unfolding coalesce_at recalc_top
coalesce_at-Inv i b v f =
    let top = b.board_alloc_offset in
    let small : top < 2 ^ 32 = omega (arith, v.fits, v.small) in
    let n = merge_next-Same i 0 top b.slots small f v.tiled in
    let p = merge_prev-Same i 0 top (merge_next i b.slots) small n.1 n.0.tiled in
    let d = drop_trailing-Trimmed 0 top (merge_prev i (merge_next i b.slots)) p.tiled in
    let e = top_of-end _ d.end (omega (arith, d.end-le)) d.tiled in
    (
      record {
        tiled = rw e d.tiled;
        fits = omega (arith, e, d.end-le, v.fits);
        small = v.small;
        table = omega (arith, d.shrinks, p.shrinks, n.0.shrinks, v.table);
        aligned = rw e (Tiled-aligned 0 _ d.end (omega arith) d.tiled);
      },
      λ x. d.owned x ∙ p.owned x ∙ n.0.owned x,
    )
