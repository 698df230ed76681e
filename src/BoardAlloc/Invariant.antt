-- ===== src/BoardAlloc/Invariant.antt =====
-- What the slot table says: the slots tile the memory from 0 to the top, and each byte has at most
-- one owner.
use virt_iogpu.Prelude.{
  ℕ, ◌+◌, ◌%◌, ◌^◌, ◌≤◌, ◌<◌, ◌≡◌, refl, true, List, [], ◌∷◌, arith, ltb, leb, if◌then◌else◌,
  length, ◌⊎◌, inl, inr,
}
use virt_iogpu.BoardAlloc.Slots.{Slot, Board, max_board_allocs}

-- The slots lie one behind the other from `o` to `top`, in multiples of 16 bytes.
abbrev pub Tiled : ℕ → List Slot → ℕ → Type 0
Tiled o [] top = o ≡ top
Tiled o (a ∷ rest) top =
    (a.offset ≡ o) × (0 < a.size) × (a.size % 16 ≡ 0) × Tiled (o + a.size) rest top

-- 1 for a byte of the block, else 0.
abbrev pub inside : ℕ → ℕ → ℕ → ℕ
inside o size x = if leb o x then (if ltb x (o + size) then 1 else 0) else 0

-- How many used slots cover the byte `x`.
abbrev pub owners : ℕ → List Slot → ℕ
owners x [] = 0
owners x (a ∷ rest) = (if a.used then inside a.offset a.size x else 0) + owners x rest

pub record Inv (b : Board) : Type 0 where
  pub tiled : Tiled 0 b.slots b.board_alloc_offset
  pub fits : b.board_alloc_offset ≤ b.board_mem_size
  pub small : b.board_mem_size < 2 ^ 32
  pub table : length b.slots ≤ max_board_allocs
  pub aligned : b.board_alloc_offset % 16 ≡ 0

pub Tiled-le : (o : ℕ) (slots : List Slot) (top : ℕ) → Tiled o slots top → o ≤ top
Tiled-le o [] top t = omega arith
Tiled-le o (a ∷ rest) top t = omega (arith, Tiled-le (o + a.size) rest top t.3)

-- A byte outside of the tiled range has no owner, and none has two.
pub owners_outside :
    (o : ℕ) (slots : List Slot) (top x : ℕ) → Tiled o slots top → x < o → owners x slots ≡ 0
owners_outside o [] top x t h = refl
owners_outside o (a ∷ rest) top x t h = ground (arith, owners_outside (o + a.size) rest top x t.3)

pub owners-le : (o : ℕ) (slots : List Slot) (top x : ℕ) → Tiled o slots top → owners x slots ≤ 1
owners-le o [] top x t = omega arith
owners-le o (a ∷ rest) top x t =
    ground
      (arith, owners-le (o + a.size) rest top x t.3, owners_outside (o + a.size) rest top x t.3)

pub Tiled-aligned :
    (o : ℕ) (slots : List Slot) (top : ℕ) → o % 16 ≡ 0 → Tiled o slots top → top % 16 ≡ 0
Tiled-aligned o [] top h t = omega arith
Tiled-aligned o (a ∷ rest) top h t = Tiled-aligned (o + a.size) rest top (omega (arith, t.2)) t.3

-- A used slot of `size` bytes stands at `offset`.
abbrev pub IsBlock : ℕ → ℕ → Slot → Type 0
IsBlock offset size a = (a.offset ≡ offset) × (a.size ≡ size) × (a.used ≡ true)

abbrev pub Listed : ℕ → ℕ → List Slot → Type 0
Listed offset size [] = ⊥
Listed offset size (a ∷ rest) = IsBlock offset size a ⊎ Listed offset size rest

pub Listed-le :
    (offset size o : ℕ) (slots : List Slot) (top : ℕ)
    → Tiled o slots top
    → Listed offset size slots
    → o ≤ offset
Listed-le offset size o [] top t l = absurd l
Listed-le offset size o (a ∷ rest) top t (inl h) = omega arith
Listed-le offset size o (a ∷ rest) top t (inr l) =
    omega (arith, Listed-le offset size (o + a.size) rest top t.3 l)

-- A block's size is determined by its offset.
pub Listed-unique :
    (offset m n o : ℕ) (slots : List Slot) (top : ℕ)
    → Tiled o slots top
    → Listed offset m slots
    → Listed offset n slots
    → m ≡ n
Listed-unique offset m n o [] top t l k = absurd l
Listed-unique offset m n o (a ∷ rest) top t (inl h) (inl k) = omega (arith, h.1, k.1)
Listed-unique offset m n o (a ∷ rest) top t (inl h) (inr k) =
    absurd (omega (arith, h.0, t.0, t.1, Listed-le offset n (o + a.size) rest top t.3 k))
Listed-unique offset m n o (a ∷ rest) top t (inr l) (inl k) =
    absurd (omega (arith, k.0, t.0, t.1, Listed-le offset m (o + a.size) rest top t.3 l))
Listed-unique offset m n o (a ∷ rest) top t (inr l) (inr k) =
    Listed-unique offset m n (o + a.size) rest top t.3 l k
