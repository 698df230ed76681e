-- ===== src/Modes/Name.antt =====
-- The mode names that chip_add_mode builds (src/chip/chip_modes.c), read back.
use virt_iogpu.Prelude.{
  ℕ, zero, suc, ◌+◌, ◌-◌, ◌*◌, ◌/◌, ◌%◌, ◌^◌, ◌≤◌, ◌<◌, ◌≡◌, refl, ◌∙◌, ap, true, List, [], ◌∷◌,
  Option, some, none, arith, ltb, leb, ◌==◌, ◌&&◌, if◌then◌else◌, length, Bool-cases, inl, inr,
  not_ltb→le,
}
use native.Mathlib.Nat.{pow-suc}
use virt_iogpu.Modes.Register.{digits_before, mode_name}

-- The decimal number in front of a text, appended to `acc`, and what follows it.
unfoldable pub read_number : ℕ → List ℕ → ℕ × List ℕ
read_number acc [] = (acc, [])
read_number acc (c ∷ cs) =
    let rest = read_number (acc * 10 + (c - 48)) cs in
    if leb 48 c && ltb c 58 then rest else (acc, c ∷ cs)

abbrev pub size_behind : ℕ → ℕ × List ℕ → Option (ℕ × ℕ)
size_behind w (h, []) = some (w, h)
size_behind w (h, c ∷ cs) = none

abbrev pub size_of : ℕ × List ℕ → Option (ℕ × ℕ)
size_of (w, []) = none
size_of (w, c ∷ cs) = if c == 120 then size_behind w (read_number 0 cs) else none

-- The size in a name `VIO:WxH`.
abbrev pub parse_name : List ℕ → Option (ℕ × ℕ)
parse_name (a ∷ b ∷ c ∷ d ∷ cs) = size_of (read_number 0 cs)
parse_name cs = none

read_number-digit :
    (acc v : ℕ) (rest : List ℕ)
    → v < 10
    → read_number acc ((48 + v) ∷ rest) ≡ read_number (acc * 10 + v) rest
unfolding read_number
read_number-digit acc v rest h =
    let digit : (leb 48 (48 + v) && ltb (48 + v) 58) ≡ true = ground arith in
    let value : 48 + v - 48 ≡ v = omega arith in rw (digit, value) refl

read_number-digits_before :
    (fuel val : ℕ) (rest : List ℕ)
    → val < 10 ^ fuel
    → read_number 0 (digits_before fuel val rest) ≡ read_number val rest
unfolding digits_before
read_number-digits_before zero val rest h =
    let none_left : val ≡ 0 = omega arith in rw none_left refl
read_number-digits_before (suc fuel) val rest h =
    let whole : val / 10 * 10 + val % 10 ≡ val = omega arith in
    elim (Bool-cases (ltb 0 (val / 10))) [
      | inl more ↦ rw more (
          read_number-digits_before fuel (val / 10) ((48 + val % 10) ∷ rest)
            (omega (arith, pow-suc 10 fuel))
          ∙ read_number-digit (val / 10) (val % 10) rest (omega arith)
          ∙ ap (λ n. read_number n rest) whole)
      | inr last ↦
          let small : 0 * 10 + val % 10 ≡ val = omega (arith, not_ltb→le 0 (val / 10) last) in
          rw last
            (read_number-digit 0 (val % 10) rest (omega arith) ∙ ap (λ n. read_number n rest) small)
    ]

length-digits_before :
    (fuel val : ℕ) (rest : List ℕ) → length (digits_before fuel val rest) ≤ fuel + length rest
unfolding digits_before
length-digits_before zero val rest = omega arith
length-digits_before (suc fuel) val rest =
    ground (arith, length-digits_before fuel (val / 10) ((48 + val % 10) ∷ rest))

read_number-behind : (n : ℕ) (rest : List ℕ) → read_number n (120 ∷ rest) ≡ (n, 120 ∷ rest)
unfolding read_number
read_number-behind n rest = refl

read_number-end : (n : ℕ) → read_number n [] ≡ (n, [])
unfolding read_number
read_number-end n = refl

-- The name of a mode can be read back as its width and height, and it fits the field of 22 bytes
-- with its NUL. Condition: both are UWORDs.
parse_name-mode_name :
    (mw mh : ℕ)
    → mw < 2 ^ 16
    → mh < 2 ^ 16
    → (parse_name (mode_name mw mh) ≡ some (mw, mh)) × (length (mode_name mw mh) < 22)
unfolding mode_name
parse_name-mode_name mw mh w h = (
  rw
      (
        read_number-digits_before 5 mw (120 ∷ digits_before 5 mh []) (omega arith),
        read_number-behind mw (digits_before 5 mh []),
        read_number-digits_before 5 mh [] (omega arith),
        read_number-end mh,
      )
      refl,
  omega (
    arith,
    length-digits_before 5 mw (120 ∷ digits_before 5 mh []),
    length-digits_before 5 mh [],
  ),
)
