-- ===== src/Prelude/Bits.antt =====
-- `|` of fields that have no bit in common is their sum.
use Prim.Native.Nat.{
  ℕ, zero, suc, ◌+◌, ◌*◌, ◌/◌, ◌%◌, ◌^◌, ◌≤◌, ◌<◌, max, digits, bit_or, bit_or-bitwise,
}
use mathlib.Core.Path.{◌≡◌, refl, ap}
use native.Mathlib.Nat.{pow-suc, le_refl}
use native.Mathlib.Omega.{arith}

abbrev or_digits : ℕ → ℕ → ℕ → ℕ
or_digits = digits (λ b. b) max

-- The fuel of `digits` does not matter, where it is at least the first number.
or_digits-fuel : (a b n m : ℕ) → a ≤ n → a ≤ m → or_digits n a b ≡ or_digits m a b
or_digits-fuel zero b zero zero p q = refl
or_digits-fuel zero b zero (suc m) p q = refl
or_digits-fuel zero b (suc n) zero p q = refl
or_digits-fuel zero b (suc n) (suc m) p q = refl
or_digits-fuel (suc a) b zero m p q = absurd (omega arith)
or_digits-fuel (suc a) b (suc n) zero p q = absurd (omega arith)
or_digits-fuel (suc a) b (suc n) (suc m) p q =
    rw (or_digits-fuel (suc a / 2) (b / 2) n m (omega arith) (omega arith))

bit_or-halves : (a b : ℕ) → bit_or a b ≡ bit_or (a / 2) (b / 2) * 2 + max (a % 2) (b % 2)
bit_or-halves zero b = simp bit_or-bitwise (omega arith)
bit_or-halves (suc a) b =
    simp bit_or-bitwise
      (omega (arith, or_digits-fuel (suc a / 2) (b / 2) a (suc a / 2) (omega arith) (le_refl _)))

-- A field of `k` bits below another one.
pub bit_or-shift : (k a b : ℕ) → a < 2 ^ k → bit_or a (b * 2 ^ k) ≡ a + b * 2 ^ k
bit_or-shift zero zero b h = simp bit_or-bitwise (omega arith)
bit_or-shift zero (suc a) b h = absurd (omega arith)
bit_or-shift (suc k) a b h =
    let shift : b * 2 ^ suc k ≡ b * 2 ^ k * 2 =
      omega (arith, ap (λ (t : ℕ). b * t) (pow-suc 2 k)) in
    ground (
      arith,
      pow-suc 2 k,
      shift,
      bit_or-halves a (b * 2 ^ suc k),
      bit_or-shift k (a / 2) b (omega arith),
    )
