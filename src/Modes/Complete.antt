-- ===== src/Modes/Complete.antt =====
-- Which modes chip_register_modes registers (src/chip/chip_modes.c), and which it does not.
use virt_iogpu.Prelude.{
  ℕ, ◌+◌, ◌<◌, ◌≡◌, refl, ◌∙◌, inl, inr, true, false, ◌&&◌, ◌||◌, List, [], ◌∷◌, ◌++◌, arith, ◌==◌,
  ==-self, Bool-cases, All, All-append, drop,
}
use virt_iogpu.Modes.Table.{Timing, ModeEntry, Resolution, chip_modes}
use virt_iogpu.Modes.Register.{
  resolution_exists, mode_infos, modes_for, ModeMemory, add_mode, add_modes, edid_mode, edid_modes,
  register_modes,
}
use virt_iogpu.Modes.Unique.{add_mode-Added, resolution_exists-append}

-- Every allocation succeeds.
abbrev pub plenty : ModeMemory
plenty = record { resolution = true; mode_info = λ c. true }

abbrev pub Has : List Resolution → ModeEntry → Type 0
Has rs e = resolution_exists e.w e.h rs ≡ true

abbrev pub IsSized : ModeEntry → Type 0
IsSized e = (0 < e.w) × (0 < e.h)

module _ (memory : ModeMemory) (board_num mw mh : ℕ) (timing : Timing) (slot : ℕ)
    (rs : List Resolution) where
  pub add_mode-keeps :
      (w h : ℕ)
      → resolution_exists w h rs ≡ true
      → resolution_exists w h (add_mode memory board_num mw mh timing slot rs).1 ≡ true
  add_mode-keeps w h e = elim (add_mode-Added memory board_num mw mh timing slot rs) [
    | inl same ↦ rw same e
    | inr added ↦ rw (added.appended, resolution_exists-append w h rs added.new, e) refl
  ]

  add_mode-other :
      (w h : ℕ)
      → ((mw == w) && (mh == h)) ≡ false
      → resolution_exists w h rs ≡ false
      → resolution_exists w h (add_mode memory board_num mw mh timing slot rs).1 ≡ false
  add_mode-other w h other e = elim (add_mode-Added memory board_num mw mh timing slot rs) [
    | inl same ↦ rw same e
    | inr added ↦
        rw
          (
            added.appended,
            resolution_exists-append w h rs added.new,
            e,
            added.width,
            added.height,
            other,
          )
          refl
  ]

pub add_mode-plenty :
    (board_num mw mh : ℕ) (timing : Timing) (slot : ℕ) (rs : List Resolution)
    → 0 < mw
    → 0 < mh
    → resolution_exists mw mh (add_mode plenty board_num mw mh timing slot rs).1 ≡ true
unfolding add_mode modes_for mode_infos
add_mode-plenty board_num mw mh timing slot rs w h =
    let sized : ((mw == 0) || (mh == 0)) ≡ false = ground arith in
    elim (Bool-cases (resolution_exists mw mh rs)) [
      | inl there ↦ rw (sized, there) there
      | inr absent ↦
          rw (sized, absent)
            (resolution_exists-append mw mh rs _ ∙ rw (absent, ==-self mw, ==-self mh) refl)
    ]

add_modes-keeps :
    (memory : ℕ → ModeMemory) (board_num : ℕ) (es : List ModeEntry) (slot : ℕ)
    (rs : List Resolution) (w h : ℕ)
    → resolution_exists w h rs ≡ true
    → resolution_exists w h (add_modes memory board_num es slot rs) ≡ true
unfolding add_modes
add_modes-keeps memory board_num [] slot rs w h e = e
add_modes-keeps memory board_num (m ∷ es) slot rs w h e =
    add_modes-keeps memory board_num es (slot + 1) _ w h
      (add_mode-keeps (memory slot) board_num m.w m.h m.timing slot rs w h e)

add_modes-Has :
    (board_num : ℕ) (es : List ModeEntry) (slot : ℕ) (rs : List Resolution)
    → All IsSized es
    → All (Has (add_modes (λ s. plenty) board_num es slot rs)) es
unfolding add_modes
add_modes-Has board_num [] slot rs s = tt
add_modes-Has board_num (m ∷ es) slot rs s =
    let rs' = (add_mode plenty board_num m.w m.h m.timing slot rs).1 in
    (
      add_modes-keeps (λ s. plenty) board_num es (slot + 1) rs' m.w m.h
          (add_mode-plenty board_num m.w m.h m.timing slot rs s.0.0 s.0.1),
      add_modes-Has board_num es (slot + 1) rs' s.1,
    )

All-Has :
    (board_num : ℕ) (new : List ModeEntry) (slot : ℕ) (rs : List Resolution) (es : List ModeEntry)
    → All (Has rs) es
    → All (Has (add_modes (λ s. plenty) board_num new slot rs)) es
All-Has board_num new slot rs [] h = tt
All-Has board_num new slot rs (e ∷ es) h = (
  add_modes-keeps (λ s. plenty) board_num new slot rs e.w e.h h.0,
  All-Has board_num new slot rs es h.1,
)

table-IsSized : All IsSized (drop 2 chip_modes)
table-IsSized = ground arith

edid-IsSized :
    (edid : List (ℕ × ℕ)) → All (λ s. (0 < s.0) × (0 < s.1)) edid → All IsSized (edid_modes edid)
unfolding edid_modes edid_mode
edid-IsSized [] h = tt
edid-IsSized ((a, b) ∷ edid) h = (h.0, edid-IsSized edid h.1)

-- With enough memory, every mode of the table from entry 2 on and every mode of the EDID is in the
-- list after the registration. Condition: the EDID's sizes are not 0.
pub register_modes-Has :
    (board_num : ℕ) (edid : List (ℕ × ℕ)) (rs : List Resolution)
    → All (λ s. (0 < s.0) × (0 < s.1)) edid
    → All
        (Has (register_modes (λ s. plenty) board_num edid rs))
        (drop 2 chip_modes ++ edid_modes edid)
unfolding register_modes
register_modes-Has board_num edid rs sized =
    let table = add_modes (λ s. plenty) board_num (drop 2 chip_modes) 2 rs in
    All-append (Has (add_modes (λ s. plenty) board_num (edid_modes edid) 14 table))
      (drop 2 chip_modes) (edid_modes edid)
      (All-Has board_num (edid_modes edid) 14 table (drop 2 chip_modes)
        (add_modes-Has board_num (drop 2 chip_modes) 2 rs table-IsSized))
      (add_modes-Has board_num (edid_modes edid) 14 table (edid-IsSized edid sized))

abbrev pub Differs : ℕ → ℕ → ModeEntry → Type 0
Differs w h e = ((e.w == w) && (e.h == h)) ≡ false

add_modes-other :
    (memory : ℕ → ModeMemory) (board_num : ℕ) (es : List ModeEntry) (slot : ℕ)
    (rs : List Resolution) (w h : ℕ)
    → All (Differs w h) es
    → resolution_exists w h rs ≡ false
    → resolution_exists w h (add_modes memory board_num es slot rs) ≡ false
unfolding add_modes
add_modes-other memory board_num [] slot rs w h d e = e
add_modes-other memory board_num (m ∷ es) slot rs w h d e =
    add_modes-other memory board_num es (slot + 1) _ w h d.1
      (add_mode-other (memory slot) board_num m.w m.h m.timing slot rs w h d.0 e)

-- The table's first mode, 640x480 in entry 1, is never registered by the table: the list has it
-- only where it was there before or the EDID announces it.
register_modes-lowest :
    (memory : ℕ → ModeMemory) (board_num : ℕ) (edid : List (ℕ × ℕ)) (rs : List Resolution)
    → All (Differs 640 480) (edid_modes edid)
    → resolution_exists 640 480 rs ≡ false
    → resolution_exists 640 480 (register_modes memory board_num edid rs) ≡ false
unfolding register_modes
register_modes-lowest memory board_num edid rs d e =
    add_modes-other memory board_num (edid_modes edid) 14 _ 640 480 d
      (add_modes-other memory board_num (drop 2 chip_modes) 2 rs 640 480 (ground arith) e)
