-- ===== src/Gpu/Answers/Display.antt =====
-- chip_GetDisplayInfo (src/chip/chip_gpu_cmds.c) returns the first enabled scanout.
use virt_iogpu.Prelude.{
  ℕ, zero, suc, ◌+◌, ◌≤◌, ◌<◌, ◌≡◌, ◌≢◌, refl, ◌∷◌, ◌==◌, Option, none, some, arith, Bool-cases,
  inl, inr, ne_of_==, subst, ==-ne,
}
use virt_iogpu.Gpu.Command.{Command}
use virt_iogpu.Gpu.Request.{Reply, Log, Host, response_type, expected, request, once}
use virt_iogpu.Gpu.Answers.{no_data, pmode, first_enabled, get_display_info}

-- Of the scanouts from `i` up to `n`, the first enabled one's size; `none` where there is none.
abbrev pub IsFirst : Reply → ℕ → ℕ → Option (ℕ × ℕ) → Type 0
IsFirst r i n none = (j : ℕ) → i ≤ j → j < n → pmode r j 4 ≡ 0
IsFirst r i n (some (w, h)) =
    (k : ℕ) × (i ≤ k)
    × (k < n)
    × (pmode r k 4 ≢ 0)
    × (w ≡ pmode r k 2)
    × (h ≡ pmode r k 3)
    × ((j : ℕ) → i ≤ j → j < k → pmode r j 4 ≡ 0)

disabled_from :
    (r : Reply) (i m : ℕ)
    → pmode r i 4 ≡ 0
    → ((j : ℕ) → i + 1 ≤ j → j < m → pmode r j 4 ≡ 0)
    → (j : ℕ) → i ≤ j
    → j < m
    → pmode r j 4 ≡ 0
disabled_from r i m e f j p q = elim (Bool-cases (i == j)) [
  | inl same ↦ subst (λ x. pmode r x 4 ≡ 0) (ground arith) e
  | inr other ↦ f j (ground arith) q
]

IsFirst-later :
    (r : Reply) (i n : ℕ) (o : Option (ℕ × ℕ))
    → pmode r i 4 ≡ 0
    → IsFirst r (i + 1) n o
    → IsFirst r i n o
IsFirst-later r i n none e f = disabled_from r i n e f
IsFirst-later r i n (some (w, h)) e (k, a, b, c, d, g, f) =
    (k, omega arith, b, c, d, g, disabled_from r i k e f)

first_enabled-IsFirst : (n i : ℕ) (r : Reply) → IsFirst r i (i + n) (first_enabled n i r)
unfolding first_enabled
first_enabled-IsFirst zero i r = λ j p q. absurd (omega arith)
first_enabled-IsFirst (suc n) i r = elim (Bool-cases (pmode r i 4 == 0)) [
  | inl off ↦ rw off (
      IsFirst-later r i (i + suc n) (first_enabled n (i + 1) r) (ground arith) (
        subst (λ m. IsFirst r (i + 1) m (first_enabled n (i + 1) r)) (omega arith)
          (first_enabled-IsFirst n (i + 1) r)))
  | inr on ↦ rw on (
    i,
    omega arith,
    omega arith,
    ne_of_== (pmode r i 4) 0 on,
    refl,
    refl,
    λ j p q. absurd (omega arith),
  )
]

-- GET_DISPLAY_INFO is sent once; where its answer is a list of scanouts, the size of the first
-- enabled one of the sixteen is returned, and none exactly where all are disabled. Any other
-- answer, or none, returns no size.
get_display_info-IsFirst :
    (host : Host) (log : Log)
    → let log' = request Command.display_info no_data 408 ∷ log in
      ((get_display_info host log).1 ≡ log')
      × (response_type (host log') ≡ 0x1101
          → IsFirst (host log') 0 16 (get_display_info host log).0)
      × (response_type (host log') ≢ 0x1101 → (get_display_info host log).0 ≡ none)
unfolding get_display_info once expected
get_display_info-IsFirst host log =
    let log' = request Command.display_info no_data 408 ∷ log in
    (
      refl,
      λ e. rw e (first_enabled-IsFirst 16 0 (host log')),
      λ ne. rw (==-ne (response_type (host log')) 0x1101 ne) refl,
    )
