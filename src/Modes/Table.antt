-- ===== src/Modes/Table.antt =====
-- The mode table of src/chip/chip_modes.c and the data that a registration makes from it
-- (include/chip/chip_state.h, include/p96/boardinfo.h).
use virt_iogpu.Prelude.{ℕ, List, [], ◌∷◌}

-- The CRTC timing of a mode. The flags are GMF_HPOLARITY (4) and GMF_VPOLARITY (8).
pub record Timing : Type 0 where
  pub hor_total : ℕ
  pub hor_sync_start : ℕ
  pub hor_sync_size : ℕ
  pub ver_total : ℕ
  pub ver_sync_start : ℕ
  pub ver_sync_size : ℕ
  pub mode_clock : ℕ
  pub mode_flags : ℕ

-- `struct ChipModeEntry`
pub record ModeEntry : Type 0 where
  pub w : ℕ
  pub h : ℕ
  pub timing : Timing

-- `struct ModeInfo`
pub record ModeInfo : Type 0 where
  pub width : ℕ
  pub height : ℕ
  pub depth : ℕ
  pub flags : ℕ
  pub hor_total : ℕ
  pub hor_blank_size : ℕ
  pub hor_sync_start : ℕ
  pub hor_sync_size : ℕ
  pub ver_total : ℕ
  pub ver_blank_size : ℕ
  pub ver_sync_start : ℕ
  pub ver_sync_size : ℕ
  pub clock : ℕ
  pub clock_div : ℕ
  pub pixel_clock : ℕ

-- `struct Resolution`: the bytes of the name before its NUL, and the modes that are not NULL, each
-- under its mode class.
pub record Resolution : Type 0 where
  pub board_id : List ℕ
  pub name : List ℕ
  pub display_id : ℕ
  pub width : ℕ
  pub height : ℕ
  pub modes : List (ℕ × ModeInfo)

-- A row of the table, with its fields in the order of the source.
abbrev row : ℕ → ℕ → ℕ → ℕ → ℕ → ℕ → ℕ → ℕ → ℕ → ℕ → ModeEntry
row w h clock hor_total hor_sync_start hor_sync_size ver_total ver_sync_start ver_sync_size flags =
    record {
      w = w;
      h = h;
      timing = record {
        hor_total = hor_total;
        hor_sync_start = hor_sync_start;
        hor_sync_size = hor_sync_size;
        ver_total = ver_total;
        ver_sync_start = ver_sync_start;
        ver_sync_size = ver_sync_size;
        mode_clock = clock;
        mode_flags = flags;
      };
    }

abbrev pub chip_modes : List ModeEntry
chip_modes =
    row 0 0 0 0 0 0 0 0 0 0
    ∷ row 640 480 25175000 800 16 96 525 10 2 12
    ∷ row 800 600 40000000 1056 40 128 628 1 4 12
    ∷ row 1024 768 65000000 1344 24 136 806 3 6 12
    ∷ row 1280 720 74250000 1650 110 40 750 5 5 0
    ∷ row 1280 800 83500000 1440 48 32 823 3 6 12
    ∷ row 1280 1024 108000000 1688 48 112 1066 1 3 0
    ∷ row 1440 900 88750000 1600 48 32 926 3 6 12
    ∷ row 1600 900 108000000 1800 24 80 1000 1 3 0
    ∷ row 1600 1200 162000000 2160 64 192 1250 1 3 0
    ∷ row 1920 1080 148500000 2200 88 44 1125 4 5 0
    ∷ row 1920 1200 154000000 2080 48 32 1235 3 6 12
    ∷ row 2560 1440 241500000 2720 48 32 1478 3 5 12
    ∷ row 3840 2160 594000000 4400 176 88 2250 8 10 0
    ∷ []

abbrev pub chip_num_modes : ℕ
chip_num_modes = 14

-- Mode class and depth.
abbrev pub chip_depth_table : List (ℕ × ℕ)
chip_depth_table = (1, 8) ∷ (2, 16) ∷ (4, 32) ∷ []
