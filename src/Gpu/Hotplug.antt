-- ===== src/Gpu/Hotplug.antt =====
-- chip_GetEDID and chip_handle_display_change (src/chip/chip_gpu_cmds.c): the host's display and
-- the modes that the driver offers for it.
use virt_iogpu.Prelude.{
  ℕ, zero, suc, ◌+◌, ◌%◌, ◌^◌, ◌<◌, ◌≡◌, ◌⊎◌, refl, sym, bit_and, Bool, true, false, List, [], ◌∷◌,
  Option, none, some, if◌then◌else◌, arith, ◌==◌, subst, ◌||◌,
}
use virt_iogpu.Word.{bswap32}
use virt_iogpu.Gpu.Command.{Command}
use virt_iogpu.Gpu.Request.{Reply, Log, Host, once}
use virt_iogpu.Gpu.Answers.{no_data, resp_byte, capped, get_display_info}
use virt_iogpu.Gpu.Edid.{Sizes, parse_edid, native_size}
use virt_iogpu.Gpu.Edid.Walk.{IsTable}
use virt_iogpu.Modes.Table.{Timing, Resolution}
use virt_iogpu.Modes.Register.{resolution_exists, ModeMemory, add_mode, edid_mode, register_modes}
use virt_iogpu.Modes.Unique.{IsUnique, add_mode-IsUnique}
use virt_iogpu.Modes.Complete.{plenty, add_mode-keeps, add_mode-plenty}

-- The fields of `struct ChipGPUState` about the display.
pub record Display : Type 0 where
  pub has_edid : Bool
  pub edid : List ℕ
  pub sizes : Sizes
  pub native : ℕ × ℕ

-- `for (i = 0; i < n; i++) gs->edid[i] = resp->edid[i]`, from `i` on.
unfoldable pub edid_bytes : ℕ → ℕ → Reply → List ℕ
edid_bytes zero i r = []
edid_bytes (suc n) i r = resp_byte r (32 + i) ∷ edid_bytes n (i + 1) r

abbrev pub parsed : List ℕ → Option Sizes → Option Display
parsed edid none = none
parsed edid (some sizes) =
    some (record { has_edid = true; edid = edid; sizes = sizes; native = native_size sizes })

-- `none` where a byte is read that the device has not sent.
unfoldable pub get_edid : Host → ℕ → Display → Log → Option Display × Log
get_edid host scanout d log =
    let (ok, log') = once host (Command.edid scanout) no_data 1056 log in
    let edid = edid_bytes (capped 1024 (bswap32 ((host log').resp 6))) 0 (host log') in
    (if ok then parsed edid (parse_edid edid) else some (record d { has_edid = false }), log')

-- What chip_GetEDID may leave.
abbrev pub IsDisplay : Display → Display → Type 0
IsDisplay old new =
    (new ≡ record old { has_edid = false })
    ⊎ ((new.has_edid ≡ true) × (new.native ≡ native_size new.sizes) × IsTable new.sizes)

-- The start of the driver with an EDID: chip_GetEDID, then chip_register_modes with its sizes.
unfoldable pub offered : ℕ → Display → List Resolution → List Resolution
offered board_num d rs =
    register_modes (λ s. plenty) board_num (if d.has_edid then d.sizes else []) rs

-- The dimensions that chip_handle_display_change gives no timing for.
abbrev pub no_timing : Timing
no_timing = (edid_mode (0, 0)).timing

-- `hotplug_mode_count` and the ResolutionsList.
abbrev pub Hotplug : Type 0
Hotplug = ℕ × List Resolution

abbrev pub counted : ℕ → Bool × List Resolution → Hotplug
counted n (true, rs) = ((n + 1) % 2 ^ 32, rs)
counted n (false, rs) = (n, rs)

abbrev pub offer : ModeMemory → ℕ → Option (ℕ × ℕ) → Hotplug → Hotplug
offer memory board_num none (n, rs) = (n, rs)
offer memory board_num (some (w, h)) (n, rs) =
    counted n
      (add_mode memory board_num (w % 2 ^ 16) (h % 2 ^ 16) no_timing (0xC0 + bit_and n 0x3F) rs)

unfoldable pub handle_display_change : Host → ModeMemory → ℕ → Hotplug → Log → Hotplug × Log
handle_display_change host memory board_num hot log =
    let (info, log') = get_display_info host log in (offer memory board_num info hot, log')

-- The sizes of the EDID, where there is one.
abbrev pub known_sizes : Display → List (ℕ × ℕ)
known_sizes d = if d.has_edid then d.sizes else []

counted_list : (n : ℕ) (r : Bool × List Resolution) → (counted n r).1 ≡ r.1
counted_list n (true, rs) = refl
counted_list n (false, rs) = refl

-- A list goes on: no size twice, and all sizes that were there.
pub record Continues (rs rs' : List Resolution) : Type 0 where
  pub unique : IsUnique rs'
  pub kept : (w h : ℕ) → resolution_exists w h rs ≡ true → resolution_exists w h rs' ≡ true

offer-Continues :
    (memory : ModeMemory) (board_num : ℕ) (info : Option (ℕ × ℕ)) (n : ℕ) (rs : List Resolution)
    → IsUnique rs
    → Continues rs (offer memory board_num info (n, rs)).1
offer-Continues memory board_num none n rs u = record { unique = u; kept = λ w h e. e }
offer-Continues memory board_num (some (w, h)) n rs u =
    let slot = 0xC0 + bit_and n 0x3F in
    let mw = w % 2 ^ 16 in
    let mh = h % 2 ^ 16 in
    subst (Continues rs) (sym (counted_list n (add_mode memory board_num mw mh no_timing slot rs)))
      (record {
        unique = add_mode-IsUnique memory board_num mw mh no_timing slot rs u;
        kept = λ w' h' e. add_mode-keeps memory board_num mw mh no_timing slot rs w' h' e;
      })

-- A change of the display adds no size twice and loses none, whatever memory there is; and where
-- the device reports a size that is positive and fits 16 bits, and memory is there, this size is
-- offered afterwards. Condition: the list had no size twice.
pub handle_display_change-Continues :
    (host : Host) (board_num n : ℕ) (rs : List Resolution) (log : Log)
    → IsUnique rs
    → ((memory : ModeMemory)
        → Continues rs (handle_display_change host memory board_num (n, rs) log).0.1)
      × ((w h : ℕ)
          → (get_display_info host log).0 ≡ some (w, h)
          → 0 < w
          → w < 2 ^ 16
          → 0 < h
          → h < 2 ^ 16
          → resolution_exists w h (handle_display_change host plenty board_num (n, rs) log).0.1
            ≡ true)
unfolding handle_display_change
handle_display_change-Continues host board_num n rs log u = (
  λ memory. offer-Continues memory board_num (get_display_info host log).0 n rs u,
  λ w h e a b c d.
      let mw : w % 2 ^ 16 ≡ w = omega arith in
      let mh : h % 2 ^ 16 ≡ h = omega arith in
      let slot = 0xC0 + bit_and n 0x3F in
      rw (e, mw, mh, counted_list n (add_mode plenty board_num w h no_timing slot rs))
        (add_mode-plenty board_num w h no_timing slot rs a c),
)

-- A change to a size that is already offered leaves the list and counts a mode all the same.
handle_display_change-again :
    (host : Host) (memory : ModeMemory) (board_num n : ℕ) (rs : List Resolution) (log : Log)
    (w h : ℕ)
    → (get_display_info host log).0 ≡ some (w, h)
    → 0 < w % 2 ^ 16
    → 0 < h % 2 ^ 16
    → resolution_exists (w % 2 ^ 16) (h % 2 ^ 16) rs ≡ true
    → (handle_display_change host memory board_num (n, rs) log).0 ≡ ((n + 1) % 2 ^ 32, rs)
unfolding handle_display_change add_mode
handle_display_change-again host memory board_num n rs log w h e a c there =
    let sized : ((w % 2 ^ 16 == 0) || (h % 2 ^ 16 == 0)) ≡ false = ground arith in
    rw (e, sized, there) refl
