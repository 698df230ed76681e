-- ===== src/P96/Nearest.antt =====
-- Which entry of the mode table chip_ResolvePixelClock picks (src/chip/chip_p96.c).
use virt_iogpu.Prelude.{
  ℕ, zero, suc, ◌+◌, ◌≤◌, ◌<◌, ◌^◌, ◌≡◌, ◌⊎◌, refl, inl, inr, List, [], ◌∷◌, some, ltb, arith,
  subst, drop, length, get_elem?, Bool-cases, ltb→lt, not_ltb→le,
}
use virt_iogpu.Modes.Table.{ModeEntry, ModeInfo, chip_modes, chip_num_modes}
use virt_iogpu.P96.Clock.{
  distance, clock_of, entry_clock, nearest, resolve_pixel_clock, get_pixel_clock,
}

-- How far the `j`-th entry's clock is from the one asked for.
abbrev far : ℕ → List ModeEntry → ℕ → ℕ
far p es j = distance p (entry_clock (get_elem? es j))

-- The entry `k` is closer than `d`, not farther than any entry, and closer than those before it.
record Closest (p : ℕ) (es : List ModeEntry) (d k : ℕ) : Type 0 where
  inside : k < length es
  under : far p es k < d
  least : (j : ℕ) → j < length es → far p es k ≤ far p es j
  first : (j : ℕ) → j < k → far p es k < far p es j

abbrev Picked : ℕ → List ModeEntry → ℕ → ℕ → ℕ → ℕ → Type 0
Picked p es i b d r =
    ((r ≡ b) × ((j : ℕ) → j < length es → d ≤ far p es j))
    ⊎ ((k : ℕ) × ((r ≡ i + k) × Closest p es d k))

before_all :
    (P : ℕ → Type 0) (n : ℕ) → P 0 → ((j : ℕ) → j < n → P (suc j)) → (j : ℕ) → j < suc n → P j
before_all P n p f zero h = p
before_all P n p f (suc j) h = f j (omega arith)

Closest-head :
    (p : ℕ) (e : ModeEntry) (es : List ModeEntry) (d : ℕ)
    → distance p (clock_of e) < d
    → ((j : ℕ) → j < length es → distance p (clock_of e) ≤ far p es j)
    → Closest p (e ∷ es) d 0
Closest-head p e es d h f = record {
  inside = omega arith;
  under = h;
  least = before_all (λ j. distance p (clock_of e) ≤ far p (e ∷ es) j) (length es) (omega arith) f;
  first = λ j q. absurd (omega arith);
}

Closest-tail :
    (p : ℕ) (e : ModeEntry) (es : List ModeEntry) (d d' k : ℕ)
    → d' ≤ d
    → d' ≤ distance p (clock_of e)
    → Closest p es d' k
    → Closest p (e ∷ es) d (suc k)
Closest-tail p e es d d' k h g c =
    let u = c.under in
    record {
      inside = omega (arith, c.inside);
      under = omega (arith, u);
      least =
          before_all (λ j. far p es k ≤ far p (e ∷ es) j) (length es) (omega (arith, u)) c.least;
      first = before_all (λ j. far p es k < far p (e ∷ es) j) k (omega (arith, u)) c.first;
    }

nearest-Picked : (p : ℕ) (es : List ModeEntry) (i b d : ℕ) → Picked p es i b d (nearest p es i b d)
unfolding nearest
nearest-Picked p [] i b d = inl (refl, λ j h. absurd (omega arith))
nearest-Picked p (e ∷ es) i b d = elim (Bool-cases (ltb (distance p (clock_of e)) d)) [
  | inl t ↦
      let lt = ltb→lt (distance p (clock_of e)) d t in
      rw t (elim (nearest-Picked p es (i + 1) i (distance p (clock_of e))) [
        | inl (q, f) ↦ inr (0, (omega arith, Closest-head p e es d lt f))
        | inr (k, (q, c)) ↦ inr (
          suc k,
          (
            omega arith,
            Closest-tail p e es d (distance p (clock_of e)) k (omega arith) (omega arith) c,
          ),
        )
      ])
  | inr t ↦
      let le = not_ltb→le (distance p (clock_of e)) d t in
      rw t (elim (nearest-Picked p es (i + 1) b d) [
        | inl (q, f) ↦ inl (q, before_all (λ j. d ≤ far p (e ∷ es) j) (length es) le f)
        | inr (k, (q, c)) ↦ inr (suc k, (omega arith, Closest-tail p e es d d k (omega arith) le c))
      ])
]

abbrev table : List ModeEntry
table = drop 1 chip_modes

get_pixel_clock-suc : (k : ℕ) → k < 13 → get_pixel_clock (suc k) ≡ entry_clock (get_elem? table k)
unfolding get_pixel_clock
get_pixel_clock-suc k h = ground arith

-- An index of the table whose clock is closest to `p`, the first of such.
pub record IsNearest (p idx : ℕ) : Type 0 where
  pub above : 1 ≤ idx
  pub below : idx < chip_num_modes
  pub least :
      (i : ℕ)
      → 1 ≤ i
      → i < chip_num_modes
      → distance p (get_pixel_clock idx) ≤ distance p (get_pixel_clock i)
  pub first :
      (i : ℕ) → 1 ≤ i → i < idx → distance p (get_pixel_clock idx) < distance p (get_pixel_clock i)

by_pred : (P : ℕ → Type 0) → ((k : ℕ) → P (suc k)) → (i : ℕ) → 1 ≤ i → P i
by_pred P f zero h = absurd (omega arith)
by_pred P f (suc k) h = f k

Closest-IsNearest : (p d k : ℕ) → Closest p table d k → IsNearest p (suc k)
Closest-IsNearest p d k c =
    let inside = c.inside in
    record {
      above = omega arith;
      below = omega arith;
      least = by_pred _ (λ j h.
          rw (get_pixel_clock-suc k (omega arith), get_pixel_clock-suc j (omega arith))
            (c.least j (omega arith)));
      first = by_pred _ (λ j h.
          rw (get_pixel_clock-suc k (omega arith), get_pixel_clock-suc j (omega arith))
            (c.first j (omega arith)));
    }

-- chip_ResolvePixelClock returns the index of an entry of the table, never 0, whose clock, as
-- chip_GetPixelClock gives it, is closest to the one asked for, and the first such entry.
-- Condition: the clock asked for is below 2 ^ 32.
pub resolve_pixel_clock-IsNearest :
    (mi : ModeInfo) (p : ℕ) → p < 2 ^ 32 → IsNearest p (resolve_pixel_clock (some mi) p).0
unfolding resolve_pixel_clock
resolve_pixel_clock-IsNearest mi p h = elim (nearest-Picked p table 1 1 0xFFFFFFFF) [
  | inl (q, f) ↦ absurd (ground (arith, f 0 (omega arith)))
  | inr (k, (q, c)) ↦ subst (IsNearest p) (omega (arith, q)) (Closest-IsNearest p 0xFFFFFFFF k c)
]
