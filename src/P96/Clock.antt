-- ===== src/P96/Clock.antt =====
-- The pixel clocks and the synthetic beam of src/chip/chip_p96.c.
use virt_iogpu.Prelude.{
  ℕ, zero, suc, ◌+◌, ◌-◌, ◌*◌, ◌/◌, ◌%◌, ◌^◌, ◌≤◌, ◌<◌, ◌≡◌, ◌⊎◌, inl, inr, refl, Bool, ◌||◌, not,
  List, [], ◌∷◌, Option, none, some, ltb, leb, ◌==◌, if◌then◌else◌, arith, drop, if-elim,
  not_leb→lt, get_elem?,
}
use native.Mathlib.Nat.{le-div_iff_mul-le, div-lt_iff_lt-mul, mul-lt-mul_of_pos_right}
use virt_iogpu.Blit.Rect.{Format, format_bpp}
use virt_iogpu.Modes.Table.{ModeEntry, ModeInfo, chip_modes, chip_num_modes}

-- `|pixelClock - clock|` on ULONG.
abbrev pub distance : ℕ → ℕ → ℕ
distance a b = if ltb b a then a - b else b - a

abbrev pub clock_of : ModeEntry → ℕ
clock_of e = e.timing.mode_clock

-- The loop over the table from index `i` on, with the best index and difference so far.
unfoldable pub nearest : ℕ → List ModeEntry → ℕ → ℕ → ℕ → ℕ
nearest pixel_clock [] i best_idx best_diff = best_idx
nearest pixel_clock (e ∷ es) i best_idx best_diff =
    let diff = distance pixel_clock (clock_of e) in
    let closer = nearest pixel_clock es (i + 1) i diff in
    let kept = nearest pixel_clock es (i + 1) best_idx best_diff in
    if ltb diff best_diff then closer else kept

-- `none` for a mode that is NULL; else the mode with its new clock.
unfoldable pub resolve_pixel_clock : Option ModeInfo → ℕ → ℕ × Option ModeInfo
resolve_pixel_clock none pixel_clock = (0, none)
resolve_pixel_clock (some mi) pixel_clock =
    let best_idx = nearest pixel_clock (drop 1 chip_modes) 1 1 0xFFFFFFFF in
    (
      best_idx,
      some (record mi { pixel_clock = pixel_clock; clock = best_idx % 2 ^ 8; clock_div = 1 }),
    )

abbrev pub entry_clock : Option ModeEntry → ℕ
entry_clock none = 0
entry_clock (some e) = clock_of e

unfoldable pub get_pixel_clock : ℕ → ℕ
get_pixel_clock index =
    if ltb index chip_num_modes then entry_clock (get_elem? chip_modes index) else 0

-- `hz` taken into 30..240.
abbrev pub clamp_hz : ℕ → ℕ
clamp_hz hz = let low = if ltb hz 30 then 30 else hz in if ltb 240 low then 240 else low

unfoldable pub compute_refresh_us : Option ModeInfo → ℕ
compute_refresh_us none = 16667
compute_refresh_us (some mi) =
    let total = mi.hor_total * mi.ver_total in
    if ((mi.pixel_clock == 0) || (mi.hor_total == 0)) || (mi.ver_total == 0)
    then 16667
    else if total == 0
    then 16667
    else 1000000 / clamp_hz (mi.pixel_clock / total)

-- The UWORD that chip_CalculateBytesPerRow returns.
unfoldable pub calculate_bytes_per_row : ℕ → Format → ℕ
calculate_bytes_per_row width format = width * format_bpp format % 2 ^ 16

-- What chip_GetCurrentY reads of the state, and the clock's low word now.
pub record Beam : Type 0 where
  pub has_timer : Bool
  pub eclock_freq : ℕ
  pub refresh_us : ℕ
  pub active_height : ℕ
  pub last_vsync : ℕ

unfoldable pub get_current_y : Beam → ℕ → ℕ
get_current_y b ev_lo =
    let delta_ticks = (ev_lo + 2 ^ 32 - b.last_vsync) % 2 ^ 32 in
    let delta_us = delta_ticks * 1000000 / b.eclock_freq in
    if ((not b.has_timer || (b.eclock_freq == 0)) || (b.refresh_us == 0)) || (b.active_height == 0)
    then 0
    else if leb b.refresh_us delta_us
    then b.active_height - 1
    else delta_us * b.active_height / b.refresh_us % 2 ^ 32

abbrev pub IsInterval : ℕ → Type 0
IsInterval us = (4166 ≤ us) × (us ≤ 33333)

-- The interval is that of 30 to 240 pictures a second.
hz_us : (hz : ℕ) → 30 ≤ hz → hz ≤ 240 → (4166 ≤ 1000000 / hz) × (1000000 / hz ≤ 33333)
hz_us hz l u = (
  (le-div_iff_mul-le {k = hz} {x = 4166} {y = 1000000} (omega arith)).1 (omega arith),
  omega
      (arith, (div-lt_iff_lt-mul {k = hz} {x = 1000000} {y = 33334} (omega arith)).1 (omega arith)),
)

-- The idle interval that chip_compute_refresh_us returns is that of 30 to 240 pictures a second,
-- for every mode and for none.
pub compute_refresh_us-bounds : (mi : Option ModeInfo) → IsInterval (compute_refresh_us mi)
unfolding compute_refresh_us
compute_refresh_us-bounds none = (omega arith, omega arith)
compute_refresh_us-bounds (some mi) =
    let total = mi.hor_total * mi.ver_total in
    let hz = clamp_hz (mi.pixel_clock / total) in
    if-elim IsInterval (((mi.pixel_clock == 0) || (mi.hor_total == 0)) || (mi.ver_total == 0)) 16667
      (if total == 0 then 16667 else 1000000 / hz) (λ e. (omega arith, omega arith))
      (λ e.
        if-elim IsInterval (total == 0) 16667 (1000000 / hz) (λ e. (omega arith, omega arith))
          (λ e. hz_us hz (ground arith) (ground arith)))

abbrev IsLine : ℕ → ℕ → Type 0
IsLine height y = (y < height) ⊎ ((height ≡ 0) × (y ≡ 0))

zero-IsLine : (height : ℕ) → IsLine height 0
zero-IsLine zero = inr (refl, refl)
zero-IsLine (suc n) = inl (omega arith)

share-lt : (t r h : ℕ) → t < r → 0 < h → t * h / r < h
share-lt t r h p q =
    let lt = mul-lt-mul_of_pos_right {m = t} {n = r} {k = h} p q in
    (div-lt_iff_lt-mul {k = r} {x = t * h} {y = h} (omega arith)).1 (omega (arith, lt))

-- The line that chip_GetCurrentY returns is one of the screen's, whatever the clock reads; it is 0
-- for a screen without lines. Condition: the height is a uint32.
pub get_current_y-IsLine :
    (b : Beam) (ev_lo : ℕ)
    → b.active_height < 2 ^ 32
    → IsLine b.active_height (get_current_y b ev_lo)
unfolding get_current_y
get_current_y-IsLine b ev_lo h =
    let height = b.active_height in
    let us = (ev_lo + 2 ^ 32 - b.last_vsync) % 2 ^ 32 * 1000000 / b.eclock_freq in
    let y = us * height / b.refresh_us % 2 ^ 32 in
    let off = ((not b.has_timer || (b.eclock_freq == 0)) || (b.refresh_us == 0)) || (height == 0) in
    if-elim (IsLine height) off 0 (if leb b.refresh_us us then height - 1 else y)
      (λ e. zero-IsLine height)
      (λ e.
        if-elim (IsLine height) (leb b.refresh_us us) (height - 1) y (λ t. inl (ground arith))
          (λ t. inl (
            omega (
              arith,
              share-lt us b.refresh_us height (not_leb→lt b.refresh_us us t) (ground arith),
            ))))
