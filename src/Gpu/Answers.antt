-- ===== src/Gpu/Answers.antt =====
-- The commands of src/chip/chip_gpu_cmds.c and src/chip/chip_gpu_3d.c that read an answer:
-- chip_GetDisplayInfo, chip_GetCapsetInfo, chip_GetCapset and chip_QueryCapsets.
pub mod Display
pub mod Capsets
pub mod Fetched
use virt_iogpu.Prelude.{
  ℕ, zero, suc, ◌+◌, ◌-◌, ◌*◌, ◌/◌, ◌%◌, ◌^◌, ◌≤◌, ◌<◌, ◌≡◌, ◌⊎◌, refl, Bool, true, false, ◌&&◌,
  ◌||◌, List, [], ◌∷◌, ◌==◌, ltb, if◌then◌else◌, Option, none, some, update, arith, Bool-cases, inl,
  inr,
}
use virt_iogpu.Word.{bswap32}
use virt_iogpu.Gpu.Command.{Command, Call}
use virt_iogpu.Gpu.Request.{Request, Reply, Log, Host, response_type, expected, request, once}

abbrev pub no_data : ℕ → ℕ
no_data i = 0

-- Field `i` of `pmodes[n]`: six words behind a header of six.
abbrev pub pmode : Reply → ℕ → ℕ → ℕ
pmode r n i = bswap32 (r.resp (6 + 6 * n + i))

-- The loop over the scanouts from `i` on: the first that is enabled.
unfoldable pub first_enabled : ℕ → ℕ → Reply → Option (ℕ × ℕ)
first_enabled zero i r = none
first_enabled (suc rounds) i r =
    let rest = first_enabled rounds (i + 1) r in
    if pmode r i 4 == 0 then rest else some (pmode r i 2, pmode r i 3)

unfoldable pub get_display_info : Host → Log → Option (ℕ × ℕ) × Log
get_display_info host log =
    let (ok, log') = once host Command.display_info no_data 408 log in
    (if ok then first_enabled 16 0 (host log') else none, log')

-- The identifier, the highest version and the size of a capability set.
unfoldable pub get_capset_info : Host → ℕ → Log → Option (ℕ × ℕ × ℕ) × Log
get_capset_info host index log =
    let (ok, log') = once host (Command.capset_info index) no_data 40 log in
    let r = host log' in
    (if ok then some (bswap32 (r.resp 6), bswap32 (r.resp 7), bswap32 (r.resp 8)) else none, log')

-- Byte `i` of the response buffer, whose words a big-endian processor reads.
unfoldable pub resp_byte : Reply → ℕ → ℕ
resp_byte r i = r.resp (i / 4) / 2 ^ (8 * (3 - i % 4)) % 2 ^ 8

-- `for (i = 0; i < n; i++) buf[i] = capset_data[i]`, from `i` on.
unfoldable pub copy_caps : ℕ → ℕ → Reply → (ℕ → ℕ) → ℕ → ℕ
copy_caps zero i r buf = buf
copy_caps (suc n) i r buf = copy_caps n (i + 1) r (update buf i (resp_byte r (24 + i)))

abbrev pub capped : ℕ → ℕ → ℕ
capped limit n = if ltb limit n then limit else n

-- The bytes that the response has room for, at most 4096 with its header.
unfoldable pub resp_expect : ℕ → ℕ
resp_expect buf_size = capped 4096 ((24 + buf_size) % 2 ^ 32)

-- The buffer after the call, and the size where the call succeeds.
unfoldable pub get_capset : Host → ℕ → ℕ → ℕ → (ℕ → ℕ) → Log → Option ℕ × (ℕ → ℕ) × Log
get_capset host capset_id capset_version buf_size buf log =
    let (ok, log') =
      once host (Command.capset capset_id capset_version) no_data (resp_expect buf_size) log in
    let copy_size = capped (resp_expect buf_size - 24) buf_size in
    if ok then (some copy_size, copy_caps copy_size 0 (host log') buf, log') else (none, buf, log')

-- The fields of `struct ChipGPUState` about the capability set.
pub record Caps : Type 0 where
  pub has_virgl : Bool
  pub valid : Bool
  pub capset_id : ℕ
  pub capset_ver : ℕ
  pub size : ℕ
  pub bytes : ℕ → ℕ

abbrev pub fetched : ℕ → ℕ → Caps → Option ℕ × (ℕ → ℕ) × Log → Caps × Log
fetched id ver caps (none, bytes, log) =
    (record caps { capset_id = id; capset_ver = ver; bytes = bytes }, log)
fetched id ver caps (some actual, bytes, log) = (
  record caps { capset_id = id; capset_ver = ver; bytes = bytes; size = actual; valid = true },
  log,
)

abbrev pub fetch : Host → ℕ → ℕ → ℕ → Caps → Log → Caps × Log
fetch host id ver size caps log =
    fetched id ver caps (get_capset host id ver (capped 2048 size) caps.bytes log)

-- What the loop does with a set that the device lists; true is `break`.
unfoldable pub consider : Host → Option (ℕ × ℕ × ℕ) → Caps → Log → Bool × Caps × Log
consider host none caps log = (false, caps, log)
consider host (some (id, ver, size)) caps log =
    if (id == 2) || ((id == 1) && (caps.capset_id == 0))
    then (let (caps', log') = fetch host id ver size caps log in (id == 2, caps', log'))
    else (false, caps, log)

unfoldable pub query_loop : Host → ℕ → ℕ → Caps → Log → Caps × Log
query_loop host zero i caps log = (caps, log)
query_loop host (suc n) i caps log =
    let (info, log') = get_capset_info host i log in
    let (stop, caps', log'') = consider host info caps log' in
    let rest = query_loop host n (i + 1) caps' log'' in if stop then (caps', log'') else rest

unfoldable pub query_capsets : Host → ℕ → Caps → Log → Caps × Log
query_capsets host num_capsets caps log =
    let (caps', log') =
      query_loop host num_capsets 0 (record caps { valid = false; capset_id = 0; capset_ver = 0 })
        log in
    (if caps'.valid then caps' else record caps' { has_virgl = false }, log')
