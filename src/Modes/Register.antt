-- ===== src/Modes/Register.antt =====
-- chip_add_mode and chip_register_modes (src/chip/chip_modes.c). The ResolutionsList is a list, to
-- which AddTail appends.
use virt_iogpu.Prelude.{
  ℕ, zero, suc, ◌+◌, ◌-◌, ◌*◌, ◌/◌, ◌%◌, ◌^◌, bit_or, Bool, true, false, ◌&&◌, ◌||◌, List, [], ◌∷◌,
  ◌++◌, ltb, ◌==◌, if◌then◌else◌, drop,
}
use virt_iogpu.Modes.Table.{
  Timing, ModeEntry, ModeInfo, Resolution, chip_modes, chip_num_modes, chip_depth_table,
}

unfoldable pub resolution_exists : ℕ → ℕ → List Resolution → Bool
resolution_exists w h [] = false
resolution_exists w h (r ∷ rest) = ((r.width == w) && (r.height == h)) || resolution_exists w h rest

-- The CVT reduced-blanking timing, where the caller has given none.
unfoldable pub timing_for : ℕ → ℕ → Timing → Timing
timing_for mw mh t =
    let hor_total = (mw + 160) % 2 ^ 16 in
    let ver_total = (mh + 23) % 2 ^ 16 in
    if (t.hor_total == 0) || (t.ver_total == 0)
    then record {
      hor_total = hor_total;
      hor_sync_start = 48;
      hor_sync_size = 32;
      ver_total = ver_total;
      ver_sync_start = 3;
      ver_sync_size = 6;
      mode_clock = hor_total * ver_total * 60 % 2 ^ 32;
      mode_flags = 12;
    }
    else t

-- `do { digits[nd++] = '0' + val % 10; val /= 10; } while (val > 0)`, and the digits written out
-- last first, before what follows. A UWORD has at most five.
unfoldable pub digits_before : ℕ → ℕ → List ℕ → List ℕ
digits_before zero val rest = rest
digits_before (suc fuel) val rest =
    let later = digits_before fuel (val / 10) ((48 + val % 10) ∷ rest) in
    if ltb 0 (val / 10) then later else (48 + val % 10) ∷ rest

abbrev pub digit_fuel : ℕ
digit_fuel = 5

-- `VIO:` and the size.
unfoldable pub mode_name : ℕ → ℕ → List ℕ
mode_name mw mh =
    86 ∷ 73 ∷ 79 ∷ 58 ∷ digits_before digit_fuel mw (120 ∷ digits_before digit_fuel mh [])

-- `RTG-0:` with the board's number.
unfoldable pub board_name : ℕ → List ℕ
board_name board_num = 82 ∷ 84 ∷ 71 ∷ 45 ∷ (48 + board_num % 10) ∷ 58 ∷ []

-- What AllocVecTags answers in one call of chip_add_mode: for the Resolution, and for the ModeInfo
-- of each mode class.
pub record ModeMemory : Type 0 where
  pub resolution : Bool
  pub mode_info : ℕ → Bool

unfoldable pub mode_info : ℕ → ℕ → Timing → ℕ → ℕ → ModeInfo
mode_info mw mh t slot_idx depth = record {
  width = mw;
  height = mh;
  depth = depth;
  flags = t.mode_flags;
  hor_total = t.hor_total;
  hor_blank_size = (t.hor_total + 2 ^ 16 - mw) % 2 ^ 16;
  hor_sync_start = t.hor_sync_start;
  hor_sync_size = t.hor_sync_size;
  ver_total = t.ver_total;
  ver_blank_size = (t.ver_total + 2 ^ 16 - mh) % 2 ^ 16;
  ver_sync_start = t.ver_sync_start;
  ver_sync_size = t.ver_sync_size;
  clock = (if ltb slot_idx chip_num_modes then slot_idx else 1) % 2 ^ 8;
  clock_div = 1;
  pixel_clock = t.mode_clock;
}

-- The loop over the depth table; a ModeInfo without memory is left out.
unfoldable pub mode_infos : (ℕ → Bool) → (ℕ → ModeInfo) → List (ℕ × ℕ) → List (ℕ × ModeInfo)
mode_infos memory info [] = []
mode_infos memory info ((mode_class, depth) ∷ rest) =
    let later = mode_infos memory info rest in
    if memory mode_class then (mode_class, info depth) ∷ later else later

abbrev pub no_modes : List (ℕ × ModeInfo) → Bool
no_modes [] = true
no_modes (m ∷ ms) = false

-- The ModeInfos of a call.
unfoldable pub modes_for : ModeMemory → ℕ → ℕ → Timing → ℕ → List (ℕ × ModeInfo)
modes_for memory mw mh timing slot_idx =
    mode_infos memory.mode_info (mode_info mw mh (timing_for mw mh timing) slot_idx)
      chip_depth_table

unfoldable pub add_mode :
    ModeMemory → ℕ → ℕ → ℕ → Timing → ℕ → List Resolution → Bool × List Resolution
add_mode memory board_num mw mh timing slot_idx rs =
    let modes = modes_for memory mw mh timing slot_idx in
    if (mw == 0) || (mh == 0)
    then (false, rs)
    else if resolution_exists mw mh rs
    then (true, rs)
    else if memory.resolution
    then if no_modes modes then (false, rs) else (
      true,
      rs
          ++ (record {
            board_id = board_name board_num;
            name = mode_name mw mh;
            display_id = bit_or (5 * 2 ^ 16) (slot_idx % 2 ^ 8 * 2 ^ 8);
            width = mw;
            height = mh;
            modes = modes;
          }
              ∷ []),
    )
    else (false, rs)

-- Calls of chip_add_mode, with slots from `slot` on.
unfoldable pub add_modes :
    (ℕ → ModeMemory) → ℕ → List ModeEntry → ℕ → List Resolution → List Resolution
add_modes memory board_num [] slot rs = rs
add_modes memory board_num (e ∷ rest) slot rs =
    add_modes memory board_num rest (slot + 1)
      (add_mode (memory slot) board_num e.w e.h e.timing slot rs).1

-- A detailed timing of the EDID, of which only the size is used.
unfoldable pub edid_mode : ℕ × ℕ → ModeEntry
edid_mode (w, h) = record {
  w = w;
  h = h;
  timing = record {
    hor_total = 0;
    hor_sync_start = 0;
    hor_sync_size = 0;
    ver_total = 0;
    ver_sync_start = 0;
    ver_sync_size = 0;
    mode_clock = 0;
    mode_flags = 0;
  };
}

unfoldable pub edid_modes : List (ℕ × ℕ) → List ModeEntry
edid_modes [] = []
edid_modes (s ∷ rest) = edid_mode s ∷ edid_modes rest

-- The loop over the table begins at 2. `edid` are the sizes of the EDID's timings, none where there
-- is no EDID.
unfoldable pub register_modes :
    (ℕ → ModeMemory) → ℕ → List (ℕ × ℕ) → List Resolution → List Resolution
register_modes memory board_num edid rs =
    add_modes memory board_num (edid_modes edid) chip_num_modes
      (add_modes memory board_num (drop 2 chip_modes) 2 rs)
