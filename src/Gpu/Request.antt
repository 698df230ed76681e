-- ===== src/Gpu/Request.antt =====
-- What the commands of src/chip/chip_gpu_cmds.c and src/chip/chip_gpu_3d.c send and return. The
-- parameter `host` is what chip_do_io brings back for the newest request of a log.
use virt_iogpu.Prelude.{
  ℕ, zero, suc, ◌+◌, ◌*◌, Bool, true, false, ◌&&◌, ◌||◌, List, [], ◌∷◌, ◌==◌, ltb, if◌then◌else◌,
}
use virt_iogpu.Word.{bswap32}
use virt_iogpu.Gpu.Command.{Command, Call, message}

-- A transaction: the words of cmd_buf, the bytes of cmd3d_buf, the room for the response.
pub record Request : Type 0 where
  pub cmd : List ℕ
  pub stream : List ℕ
  pub resp_size : ℕ

-- What the device wrote: how many bytes (0 where no answer came in time), and the words of
-- resp_buf.
pub record Reply : Type 0 where
  pub written : ℕ
  pub resp : ℕ → ℕ

abbrev pub Log : Type 0
Log = List Request

abbrev pub Host : Type 0
Host = Log → Reply

-- The fields of `struct ChipGPUState` that decide whether a command is sent.
pub record Features : Type 0 where
  pub has_blob : Bool
  pub fb_is_blob : Bool
  pub fb_resource_id : ℕ
  pub has_cmd3d_buf : Bool

-- The type of a response; 0 where it is too short for a header.
unfoldable pub response_type : Reply → ℕ
response_type r = if ltb r.written 24 then 0 else bswap32 (r.resp 0)

-- The bytes that chip_Submit3D copies, from the `i`-th on.
unfoldable pub copied : ℕ → ℕ → (ℕ → ℕ) → List ℕ
copied zero i src = []
copied (suc n) i src = src i ∷ copied n (i + 1) src

-- The second part that the device reads; only SUBMIT_3D has one.
unfoldable pub stream_of : Call → (ℕ → ℕ) → List ℕ
stream_of (Command.submit c n) cmd_data = copied n 0 cmd_data
stream_of c cmd_data = []

-- The responses that a function takes for a success, and their sizes.
unfoldable pub expected : Call → ℕ
expected Command.display_info = 0x1101
expected (Command.capset_info i) = 0x1102
expected (Command.capset i v) = 0x1103
expected (Command.edid s) = 0x1104
expected c = 0x1100

unfoldable pub request : Call → (ℕ → ℕ) → ℕ → Request
request c cmd_data resp_size = record {
  cmd = message c;
  stream = stream_of c cmd_data;
  resp_size = resp_size;
}

module _ (host : Host) (c : Call) (cmd_data : ℕ → ℕ) (resp_size : ℕ) where
  -- One transaction, and the test of its answer.
  unfoldable pub once : Log → Bool × Log
  once log =
      let log' = request c cmd_data resp_size ∷ log in
      (response_type (host log') == expected c, log')

  -- The loop of chip_SetScanout.
  unfoldable pub attempts : ℕ → Log → Bool × Log
  attempts zero log = (false, log)
  attempts (suc n) log =
      let (ok, log') = once log in let rest = attempts n log' in if ok then (true, log') else rest

-- A command whose answer is only a header.
unfoldable pub perform : Features → Host → Call → (ℕ → ℕ) → Log → Bool × Log
perform g host (Command.scanout s i r) cmd_data log =
    attempts host (Command.scanout s i r) cmd_data 24 3 log
perform g host (Command.to_host_2d i r o) cmd_data log =
    if g.fb_is_blob && (i == g.fb_resource_id)
    then (true, log)
    else once host (Command.to_host_2d i r o) cmd_data 24 log
perform g host (Command.new_blob b es) cmd_data log =
    if g.has_blob then once host (Command.new_blob b es) cmd_data 24 log else (false, log)
perform g host (Command.submit c n) cmd_data log =
    if g.has_cmd3d_buf
    then if (n == 0) || ltb (64 * 1024) n
      then (false, log)
      else once host (Command.submit c n) cmd_data 24 log
    else (false, log)
perform g host c cmd_data log = once host c cmd_data 24 log

-- A program's calls, one after the other: the results and the log.
unfoldable pub perform_all : Features → Host → List (Call × (ℕ → ℕ)) → Log → List Bool × Log
perform_all g host [] log = ([], log)
perform_all g host ((c, cmd_data) ∷ cs) log =
    let (ok, log') = perform g host c cmd_data log in
    let (oks, log'') = perform_all g host cs log' in (ok ∷ oks, log'')
