-- ===== src/Gpu/Kept.antt =====
-- The commands of src/chip/chip_gpu_cmds.c and src/chip/chip_gpu_3d.c keep their promise.
use virt_iogpu.Prelude.{
  ℕ, zero, suc, ◌+◌, ◌*◌, ◌∙◌, ap, fun_ext, ◌≡◌, ◌≢◌, refl, Bool, true, false, ◌&&◌, ◌||◌, List, [],
  ◌∷◌, ◌==◌, ltb, if◌then◌else◌, All, arith, Bool-cases, inl, inr, subst,
}
use virt_iogpu.Gpu.Command.{Command, Call, meaning}
use virt_iogpu.Gpu.Decode.{parse-message}
use virt_iogpu.Gpu.Request.{
  Log, Host, Features, response_type, stream_of, copied, expected, request, once, attempts, perform,
  perform_all,
}
use virt_iogpu.Gpu.Promise.{
  success, first_bytes, payload, History, Device, accepts, tried, budget, needs_nothing, promise,
  promise_all, Reads, Carries, IsCall, accepts-response_type, Agrees,
}

expected-ne : (c : Call) → 0 ≢ expected c
unfolding expected
expected-ne Command.display_info = omega arith
expected-ne c = omega arith

request-Read :
    (c : Call) (cmd_data : ℕ → ℕ) (past : History) (log : Log)
    → IsCall c
    → Reads log past
    → Reads (request c cmd_data 24 ∷ log) ((meaning c, stream_of c cmd_data) ∷ past)
unfolding request
request-Read c cmd_data past log h reads = ((parse-message c h.wide h.words, refl), reads)

Agrees-if :
    (ok ok' : Bool) (log : Log) (past : History) (r : Bool × Log) (s : Bool × History)
    → ok ≡ ok'
    → Reads log past
    → Agrees r s
    → Agrees (if ok then (true, log) else r) (if ok' then (true, past) else s)
Agrees-if true true log past r s e reads a = (refl, reads)
Agrees-if false false log past r s e reads a = a
Agrees-if true false log past r s e reads a = cc
Agrees-if false true log past r s e reads a = cc

if-self :
    (ok : Bool) (log : Log)
    → ◌≡◌ {A = Bool × Log} (if ok then (true, log) else (false, log)) (ok, log)
if-self true log = refl
if-self false log = refl

module _ (host : Host) (device : Device) (carries : Carries host device) (c : Call)
    (cmd_data : ℕ → ℕ) (h : IsCall c) where
  attempts-raw :
      (n : ℕ) (log : Log) (past : History)
      → Reads log past
      → Agrees
          (attempts host c cmd_data 24 n log)
          (tried device (expected c) n (meaning c, stream_of c cmd_data) past)
  unfolding attempts once tried
  attempts-raw zero log past reads = (refl, reads)
  attempts-raw (suc n) log past reads =
      let log' = request c cmd_data 24 ∷ log in
      let past' = (meaning c, stream_of c cmd_data) ∷ past in
      let reads' = request-Read c cmd_data past log h reads in
      Agrees-if (response_type (host log') == expected c) (accepts (expected c) (device past')) log'
        past' (attempts host c cmd_data 24 n log')
        (tried device (expected c) n (meaning c, stream_of c cmd_data) past')
        (accepts-response_type (host log') (device past') (expected c) (expected-ne c)
          (carries log' past' reads'))
        reads' (attempts-raw n log' past' reads')

  once-raw :
      (log : Log) (past : History)
      → Reads log past
      → Agrees
          (once host c cmd_data 24 log)
          (tried device (expected c) 1 (meaning c, stream_of c cmd_data) past)
  unfolding attempts once
  once-raw log past reads =
      let log' = request c cmd_data 24 ∷ log in
      subst (λ x. Agrees x (tried device (expected c) 1 (meaning c, stream_of c cmd_data) past))
        (if-self (response_type (host log') == expected c) log') (attempts-raw 1 log past reads)

copied_lem : (n i : ℕ) (src : ℕ → ℕ) → copied n i src ≡ first_bytes n (λ k. src (k + i))
unfolding copied first_bytes
copied_lem zero i src = refl
copied_lem (suc n) i src =
    let z : 0 + i ≡ i = omega arith in
    let shift : (λ (k : ℕ). src (k + (i + 1))) ≡ (λ (k : ℕ). src (k + 1 + i)) =
      fun_ext (λ k. ap src (omega arith)) in
    rw (z, ← shift) (ap (λ l. src i ∷ l) (copied_lem n (i + 1) src))

stream_of-payload : (c : Call) (cmd_data : ℕ → ℕ) → stream_of c cmd_data ≡ payload c cmd_data
unfolding stream_of payload
stream_of-payload (Command.submit c n) d =
    copied_lem n 0 d ∙ ap (first_bytes n) (fun_ext (λ k. ap d (omega arith)))
stream_of-payload c d = refl

expected-success : (c : Call) → expected c ≡ success c
unfolding expected success
expected-success Command.display_info = refl
expected-success (Command.capset_info i) = refl
expected-success (Command.capset i v) = refl
expected-success (Command.edid s) = refl
expected-success c = refl

module _ (host : Host) (device : Device) (carries : Carries host device) (c : Call)
    (cmd_data : ℕ → ℕ) (h : IsCall c) where
  attempts-tried :
      (n : ℕ) (log : Log) (past : History)
      → Reads log past
      → Agrees
          (attempts host c cmd_data 24 n log)
          (tried device (success c) n (meaning c, payload c cmd_data) past)
  attempts-tried n log past reads =
      rw (← expected-success c, ← stream_of-payload c cmd_data)
        (attempts-raw host device carries c cmd_data h n log past reads)

  once-tried :
      (log : Log) (past : History)
      → Reads log past
      → Agrees
          (once host c cmd_data 24 log)
          (tried device (success c) 1 (meaning c, payload c cmd_data) past)
  once-tried log past reads =
      rw (← expected-success c, ← stream_of-payload c cmd_data)
        (once-raw host device carries c cmd_data h log past reads)

-- The guards of chip_Submit3D.
submit-promise :
    (host : Host) (device : Device)
    → Carries host device
    → (ctx_id n : ℕ) (cmd_data : ℕ → ℕ) → IsCall (Command.submit ctx_id n)
    → (g : Features) (log : Log) (past : History) → Reads log past
    → Agrees
        (perform g host (Command.submit ctx_id n) cmd_data log)
        (promise g device (Command.submit ctx_id n) cmd_data past)
unfolding perform promise needs_nothing budget tried
submit-promise host device carries c n d h g log past reads = elim (Bool-cases g.has_cmd3d_buf) [
  | inr e ↦ rw e (refl, reads)
  | inl e ↦ elim (Bool-cases ((n == 0) || ltb (64 * 1024) n)) [
    | inl bad ↦ rw (e, bad) (refl, reads)
    | inr good ↦
        rw (e, good) (once-tried host device carries (Command.submit c n) d h log past reads)
  ]
]

-- One call, by the command and by its guard.
pub perform-promise :
    (host : Host) (device : Device)
    → Carries host device
    → (c : Call) (cmd_data : ℕ → ℕ) → IsCall c
    → (g : Features) (log : Log) (past : History) → Reads log past
    → Agrees (perform g host c cmd_data log) (promise g device c cmd_data past)
unfolding perform promise needs_nothing budget tried
perform-promise host device carries (Command.scanout s i r) d h g log past reads =
    attempts-tried host device carries (Command.scanout s i r) d h 3 log past reads
perform-promise host device carries (Command.to_host_2d i r o) d h g log past reads =
    elim (Bool-cases (g.fb_is_blob && (i == g.fb_resource_id))) [
      | inl e ↦ rw e (refl, reads)
      | inr e ↦ rw e (once-tried host device carries (Command.to_host_2d i r o) d h log past reads)
    ]
perform-promise host device carries (Command.new_blob b es) d h g log past reads =
    elim (Bool-cases g.has_blob) [
      | inl e ↦ rw e (once-tried host device carries (Command.new_blob b es) d h log past reads)
      | inr e ↦ rw e (refl, reads)
    ]
perform-promise host device carries (Command.submit c n) d h g log past reads =
    submit-promise host device carries c n d h g log past reads
perform-promise host device carries c d h g log past reads =
    once-tried host device carries c d h log past reads

-- A program's calls of the commands whose answer is only a header: every call returns what the
-- specification says, and the device has read the specification's commands, no more and no fewer,
-- in their order and with the streams of SUBMIT_3D. SET_SCANOUT is repeated until it is accepted,
-- three times at most, and nothing is sent for a transfer to a framebuffer that the host reads
-- itself, for a blob without the feature, or for an empty stream or one above 64 KiB. Conditions:
-- the transport carries the answers of a device that reads the standard's layout, where it may
-- lose any answer, and the arguments are in the range of their types.
pub perform_all-promise_all :
    (host : Host) (device : Device)
    → Carries host device
    → (g : Features) (cs : List (Call × (ℕ → ℕ))) → All (λ c. IsCall c.0) cs
    → (log : Log) (past : History) → Reads log past
    → ((perform_all g host cs log).0 ≡ (promise_all g device cs past).0)
      × Reads (perform_all g host cs log).1 (promise_all g device cs past).1
unfolding perform_all promise_all
perform_all-promise_all host device carries g [] h log past reads = (refl, reads)
perform_all-promise_all host device carries g ((c, d) ∷ cs) (h, hs) log past reads =
    let one = perform-promise host device carries c d h g log past reads in
    let rest =
      perform_all-promise_all host device carries g cs hs (perform g host c d log).1
        (promise g device c d past).1 one.1 in
    (rw (one.0, rest.0) refl, rest.1)
