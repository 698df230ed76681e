-- ===== src/Virtqueue/Chains.antt =====
-- Free lists and chains depend only on their own descriptors.
use virt_iogpu.Prelude.{
  ℕ, ◌<◌, ◌≡◌, Bool, List, [], ◌∷◌, arith, update, count, count-head, update-ne, sym, subst,
}
use virt_iogpu.Virtqueue.State.{Desc}
use virt_iogpu.Virtqueue.Invariant.{Linked, Chain}

-- `d'` agrees with `d` on the descriptors of `xs`.
abbrev pub Agree : (ℕ → Desc) → (ℕ → Desc) → List ℕ → Type 0
Agree d d' xs = (i : ℕ) → 0 < count i xs → d' i ≡ d i

pub Agree-tail : (d d' : ℕ → Desc) (x : ℕ) (xs : List ℕ) → Agree d d' (x ∷ xs) → Agree d d' xs
Agree-tail d d' x xs h i p = h i (omega arith)

pub Linked-frame :
    (d d' : ℕ → Desc) (h : ℕ) (xs : List ℕ) → Agree d d' xs → Linked d h xs → Linked d' h xs
Linked-frame d d' h [] a l = tt
Linked-frame d d' h (x ∷ xs) a l = (
  l.0,
  rw (a x (omega (arith, count-head x xs))) (Linked-frame d d' _ xs (Agree-tail d d' x xs a) l.1),
)

pub Chain-frame :
    (modern : Bool) (d d' : ℕ → Desc) (x : ℕ) (rest : List ℕ)
    → Agree d d' (x ∷ rest)
    → Chain modern d x rest
    → Chain modern d' x rest
Chain-frame modern d d' x [] a c = rw (a x (omega (arith, count-head x []))) c
Chain-frame modern d d' x (y ∷ rest) a c =
    let e = a x (omega (arith, count-head x (y ∷ rest))) in
    (rw e c.0, rw e c.1, Chain-frame modern d d' y rest (Agree-tail d d' x (y ∷ rest) a) c.2)

pub update-Agree :
    (d : ℕ → Desc) (x : ℕ) (v : Desc) (xs : List ℕ) → count x xs ≡ 0 → Agree d (update d x v) xs
update-Agree d x v xs h i p =
    update-ne d x i v (λ e. absurd (omega (arith, subst (λ k. 0 < count k xs) (sym e) p)))
