-- ===== src/Gpu/Promise.antt =====
-- What the commands of src/chip/chip_gpu_cmds.c and src/chip/chip_gpu_3d.c promise to a device that
-- reads them: the specification knows no words, only commands and answers.
use virt_iogpu.Prelude.{
  ℕ, zero, suc, ◌+◌, ◌*◌, ◌^◌, ◌≤◌, ◌<◌, ◌≡◌, ◌≢◌, refl, Bool, true, false, ◌&&◌, ◌||◌, List, [],
  ◌∷◌, ◌==◌, ltb, if◌then◌else◌, Option, none, some, All, le→not_ltb, lt→ltb, ==-ne,
}
use virt_iogpu.Word.{bswap32, bswap32-bswap32}
use virt_iogpu.Gpu.Command.{Command, Call, HostCommand, meaning}
use virt_iogpu.Gpu.Parse.{parse}
use virt_iogpu.Gpu.Decode.{IsWide, words}
use virt_iogpu.Gpu.Request.{Request, Reply, Log, Host, Features, response_type}

-- The commands that a device has read with their streams, the newest first.
abbrev pub History : Type 0
History = List (HostCommand × List ℕ)

-- A device: the type of its answer to the newest command, `none` where it does not answer in time.
abbrev pub Device : Type 0
Device = History → Option ℕ

unfoldable pub accepts : ℕ → Option ℕ → Bool
accepts t none = false
accepts t (some u) = u == t

-- The answer that means success (VirtIO 1.2, 5.7.6.7): the one with the information that the
-- command asks for, else VIRTIO_GPU_RESP_OK_NODATA.
unfoldable pub success : Call → ℕ
success Command.display_info = 0x1101
success (Command.capset_info i) = 0x1102
success (Command.capset i v) = 0x1103
success (Command.edid s) = 0x1104
success c = 0x1100

unfoldable pub first_bytes : ℕ → (ℕ → ℕ) → List ℕ
first_bytes zero bytes = []
first_bytes (suc n) bytes = bytes 0 ∷ first_bytes n (λ i. bytes (i + 1))

-- The bytes that stand behind a command: SUBMIT_3D's stream.
unfoldable pub payload : Call → (ℕ → ℕ) → List ℕ
payload (Command.submit c n) bytes = first_bytes n bytes
payload c bytes = []

-- At most `n` times the command, until it is accepted.
unfoldable pub tried : Device → ℕ → ℕ → HostCommand × List ℕ → History → Bool × History
tried device t zero c past = (false, past)
tried device t (suc n) c past =
    let rest = tried device t n c (c ∷ past) in
    if accepts t (device (c ∷ past)) then (true, c ∷ past) else rest

-- How often a command is sent at most.
unfoldable pub budget : Features → Call → ℕ
budget g (Command.scanout s i r) = 3
budget g (Command.new_blob b es) = if g.has_blob then 1 else 0
budget g (Command.submit c n) =
    if g.has_cmd3d_buf then if (n == 0) || ltb (64 * 1024) n then 0 else 1 else 0
budget g c = 1

-- The host reads the framebuffer's pages itself: nothing is to be sent.
unfoldable pub needs_nothing : Features → Call → Bool
needs_nothing g (Command.to_host_2d i r o) = g.fb_is_blob && (i == g.fb_resource_id)
needs_nothing g c = false

unfoldable pub promise : Features → Device → Call → (ℕ → ℕ) → History → Bool × History
promise g device c cmd_data past =
    if needs_nothing g c
    then (true, past)
    else tried device (success c) (budget g c) (meaning c, payload c cmd_data) past

unfoldable pub promise_all :
    Features → Device → List (Call × (ℕ → ℕ)) → History → List Bool × History
promise_all g device [] past = ([], past)
promise_all g device ((c, cmd_data) ∷ cs) past =
    let (ok, past') = promise g device c cmd_data past in
    let (oks, past'') = promise_all g device cs past' in (ok ∷ oks, past'')

-- A device reads the words of cmd_buf by the standard's layout, and the bytes of the stream.
abbrev pub Read : Request → HostCommand × List ℕ → Type 0
Read r (c, bytes) = (parse r.cmd ≡ some c) × (r.stream ≡ bytes)

abbrev pub Reads : Log → History → Type 0
Reads [] [] = Unit {0}
Reads (r ∷ log) (c ∷ past) = Read r c × Reads log past
Reads log past = ⊥

-- The words that an answer of the device leaves, in the wire's byte order.
abbrev pub Writes : Reply → Option ℕ → Type 0
Writes r none = r.written < 24
Writes r (some t) = (24 ≤ r.written) × (r.resp 0 ≡ bswap32 t) × (t < 2 ^ 32)

-- The transport brings the device's answers to what it has read.
abbrev pub Carries : Host → Device → Type 0
Carries host device =
    (log : Log) (past : History) → Reads log past → Writes (host log) (device past)

-- A call of one of the functions on the control queue whose answer is a header only, with
-- arguments in the range of their types.
unfoldable pub is_plain : Call → Bool
is_plain Command.display_info = false
is_plain (Command.capset_info i) = false
is_plain (Command.capset i v) = false
is_plain (Command.edid s) = false
is_plain (Command.update_cursor i x y hx hy) = false
is_plain (Command.move_cursor i x y hx hy) = false
is_plain c = true

pub record IsCall (c : Call) : Type 0 where
  pub plain : is_plain c ≡ true
  pub wide : IsWide c
  pub words : All (λ w. w < 2 ^ 32) (words c)

pub accepts-response_type :
    (r : Reply) (o : Option ℕ) (t : ℕ) → 0 ≢ t → Writes r o → (response_type r == t) ≡ accepts t o
unfolding response_type accepts
accepts-response_type r none t ne w = rw (lt→ltb r.written 24 w, ==-ne 0 t ne) refl
accepts-response_type r (some u) t ne (a, b, c) =
    rw (le→not_ltb r.written 24 a, b, bswap32-bswap32 u c) refl

-- The results agree, and the device has read what the specification lists.
abbrev pub Agrees : Bool × Log → Bool × History → Type 0
Agrees (ok, log) (ok', past) = (ok ≡ ok') × Reads log past
