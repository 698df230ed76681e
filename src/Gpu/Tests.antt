-- ===== src/Gpu/Tests.antt =====
-- The GPU commands of src/chip/chip_gpu_cmds.c and src/chip/chip_gpu_3d.c on small inputs.
use virt_iogpu.Prelude.{
  ℕ, zero, suc, ◌+◌, ◌*◌, ◌^◌, ◌<◌, ◌≡◌, refl, ap, true, false, List, [], ◌∷◌, ◌==◌, if◌then◌else◌,
  Option, none, some, All, arith, length, Bool-cases, inl, inr, ◌≢◌,
}
use virt_iogpu.Word.{bswap32}
use virt_iogpu.Gpu.Wire.{Rect, MemEntry, clamp_entries}
use virt_iogpu.Gpu.Command.{Command, Call, message, listed, meaning}
use virt_iogpu.Gpu.Parse.{parse}
use virt_iogpu.Gpu.Decode.{words, entry_words, parse-message}
use virt_iogpu.Gpu.Request.{Reply, Log, Host, Features, expected, perform_all, response_type, once}
use virt_iogpu.Gpu.Promise.{
  success, first_bytes, payload, History, Device, tried, accepts, promise_all, promise, budget,
  needs_nothing, Reads, Writes, Carries, is_plain, IsCall,
}
use virt_iogpu.Gpu.Kept.{perform_all-promise_all}
use virt_iogpu.Gpu.Answers.{capped, first_enabled, get_display_info, Caps}
use virt_iogpu.Gpu.Answers.Fetched.{asked, Answers}
use virt_iogpu.Gpu.Edid.{
  Sizes, is_listed, add_dtd, read_dtd, pixel_clock, base_block, extension_blocks, parse_edid,
}
use virt_iogpu.Gpu.Edid.Walk.{IsTable, IsBytes, parse_edid-IsTable}
use virt_iogpu.Gpu.Edid.Preferred.{Announces}
use virt_iogpu.Gpu.Hotplug.{
  Display, handle_display_change, Continues, handle_display_change-Continues,
}
use virt_iogpu.Modes.Register.{resolution_exists, ModeMemory}
use virt_iogpu.Modes.Complete.{plenty}

abbrev screen : Rect
screen = record { x = 0; y = 0; width = 1920; height = 1080 }

abbrev two_pages : ℕ → MemEntry
two_pages n = record { addr = 0x10000 + n * 0x4000; length = 0x4000 }

attach_words : All (λ w. w < 2 ^ 32) (words (Command.attach 1 (two_pages, 2)))
unfolding words entry_words clamp_entries
attach_words = omega arith

parse-message_example :
    parse (message (Command.attach 1 (two_pages, 2)))
    ≡ some (meaning (Command.attach 1 (two_pages, 2)))
parse-message_example = parse-message (Command.attach 1 (two_pages, 2)) tt attach_words

attach_meaning :
    meaning (Command.attach 1 (two_pages, 2))
    ≡ Command.attach 1 (
        record { addr = 0x10000; length = 0x4000 }
        ∷ record { addr = 0x14000; length = 0x4000 }
        ∷ [])
unfolding meaning listed clamp_entries
attach_meaning = refl

-- A device that accepts all commands, but answers the second one too late.
abbrev busy : ℕ → Option ℕ
busy n = if n == 2 then none else some 0x1100

abbrev reply_of : Option ℕ → Reply
reply_of none = record { written = 0; resp = λ i. 0 }
reply_of (some t) = record { written = 24; resp = λ i. bswap32 t }

abbrev busy_host : Host
busy_host log = reply_of (busy (length log))

abbrev busy_device : Device
busy_device past = busy (length past)

Reads-length : (log : Log) (past : History) → Reads log past → length log ≡ length past
Reads-length [] [] h = refl
Reads-length (r ∷ log) (c ∷ past) h = ap suc (Reads-length log past h.1)
Reads-length [] (c ∷ past) h = absurd h
Reads-length (r ∷ log) [] h = absurd h

busy-Writes : (n : ℕ) → Writes (reply_of (busy n)) (busy n)
busy-Writes n = elim (Bool-cases (n == 2)) [
  | inl e ↦ rw e (omega arith)
  | inr e ↦ rw e (omega arith, refl, omega arith)
]

busy_host-Carries : Carries busy_host busy_device
busy_host-Carries log past h = rw (Reads-length log past h) (busy-Writes (length past))

abbrev features : Features
features = record { has_blob = false; fb_is_blob = false; fb_resource_id = 1; has_cmd3d_buf = true }

abbrev calls : List (Call × (ℕ → ℕ))
calls =
    (Command.flush 1 screen, λ i. 0)
    ∷ (Command.scanout 0 1 screen, λ i. 0)
    ∷ (Command.submit 1 2, λ i. 7 + i)
    ∷ (Command.submit 1 0, λ i. 0)
    ∷ []

-- SET_SCANOUT is sent twice, the empty stream not at all.
calls_promise : promise_all features busy_device calls [] ≡ (
  true ∷ true ∷ true ∷ false ∷ [],
  (Command.submit 1 2, 7 ∷ 8 ∷ [])
      ∷ (Command.scanout 0 1 screen, [])
      ∷ (Command.scanout 0 1 screen, [])
      ∷ (Command.flush 1 screen, [])
      ∷ [],
)
unfolding promise_all promise needs_nothing budget tried accepts success meaning payload first_bytes
calls_promise = refl

calls-IsCall : All (λ c. IsCall c.0) calls
unfolding is_plain words
calls-IsCall = (
  record { plain = refl; wide = tt; words = omega arith },
  (
    record { plain = refl; wide = tt; words = omega arith },
    (
      record { plain = refl; wide = tt; words = omega arith },
      (record { plain = refl; wide = tt; words = omega arith }, tt),
    ),
  ),
)

perform_all-promise_all_example :
    ((perform_all features busy_host calls []).0 ≡ (promise_all features busy_device calls []).0)
    × Reads
        (perform_all features busy_host calls []).1
        (promise_all features busy_device calls []).1
perform_all-promise_all_example =
    perform_all-promise_all busy_host busy_device busy_host-Carries features calls calls-IsCall []
      [] tt

-- A device with two scanouts, of which the second is enabled; it answers every request.
abbrev display_words : ℕ → ℕ
display_words i =
    if i == 0
    then 0x1101
    else if i == 14
    then 1366
    else if i == 15
    then 768
    else if i == 16
    then 1
    else 0

abbrev display_host : Host
display_host log = record { written = 408; resp = λ i. bswap32 (display_words i) }

display_size : (get_display_info display_host []).0 ≡ some (1366, 768)
unfolding get_display_info once response_type expected first_enabled bswap32
display_size = refl

-- A device that answers every request as if it were for a capability set.
abbrev caps_host : Host
caps_host log = record { written = 64; resp = λ i. bswap32 0x1103 }

abbrev no_caps : Caps
no_caps = record {
  has_virgl = true;
  valid = false;
  capset_id = 0;
  capset_ver = 0;
  size = 0;
  bytes = λ i. 0;
}

caps_host-Answers : Answers caps_host
unfolding response_type bswap32
caps_host-Answers id ver size log = refl

-- The bytes of VIRGL, version 1, are there when the fetch of VIRGL2 gets no answer.
abbrev virgl_caps : Caps
virgl_caps = record {
  has_virgl = true;
  valid = true;
  capset_id = 1;
  capset_ver = 1;
  size = 4;
  bytes = λ i. 7;
}

display_refuses : response_type (display_host (asked 2 2 (capped 2048 64) [])) ≢ 0x1103
unfolding response_type bswap32
display_refuses = omega arith

-- A blob with one timing, of 1366 times 768 pixels.
abbrev edid_byte : ℕ → ℕ
edid_byte i =
    if i == 54
    then 0x66
    else if i == 55
    then 0x21
    else if i == 56
    then 0x56
    else if i == 58
    then 0x51
    else if i == 61
    then 0x30
    else 0

abbrev bytes_from : ℕ → ℕ → List ℕ
bytes_from zero i = []
bytes_from (suc n) i = edid_byte i ∷ bytes_from n (i + 1)

abbrev blob : List ℕ
blob = bytes_from 64 0

blob_sizes : parse_edid blob ≡ some ((1366, 768) ∷ [])
unfolding parse_edid base_block pixel_clock read_dtd add_dtd is_listed extension_blocks
blob_sizes = refl

blob-IsBytes : IsBytes blob
blob-IsBytes = omega arith

parse_edid-IsTable_example : (sizes : Sizes) × (parse_edid blob ≡ some sizes) × IsTable sizes
parse_edid-IsTable_example = parse_edid-IsTable blob blob-IsBytes

blob-Announces : Announces blob 1366 768
unfolding pixel_clock
blob-Announces = record {
  clock = 0x2166;
  w_low = 0x56;
  h_low = 0;
  w_high = 0x51;
  h_high = 0x30;
  is_timing = refl;
  clock_ne = omega arith;
  byte_2 = refl;
  byte_4 = refl;
  byte_5 = refl;
  byte_7 = refl;
  width = refl;
  height = refl;
}

abbrev no_display : Display
no_display = record { has_edid = false; edid = []; sizes = []; native = (0, 0) }

handle_display_change-Continues_example :
    ((memory : ModeMemory)
      → Continues [] (handle_display_change display_host memory 0 (0, []) []).0.1)
    × ((w h : ℕ)
        → (get_display_info display_host []).0 ≡ some (w, h)
        → 0 < w
        → w < 2 ^ 16
        → 0 < h
        → h < 2 ^ 16
        → resolution_exists w h (handle_display_change display_host plenty 0 (0, []) []).0.1 ≡ true)
handle_display_change-Continues_example = handle_display_change-Continues display_host 0 0 [] [] tt
