-- ===== src/Gpu/Answers/Fetched.antt =====
-- chip_QueryCapsets (src/chip/chip_gpu_3d.c): the bytes belong to the identifier, unless a fetch
-- fails.
use virt_iogpu.Prelude.{
  ℕ, zero, suc, ◌+◌, ◌-◌, ◌<◌, ◌≡◌, ◌≢◌, refl, sym, ◌∙◌, true, false, ◌&&◌, ◌||◌, ◌∷◌, ◌==◌, Option,
  none, some, arith, Bool-cases, inl, inr, ==-ne,
}
use virt_iogpu.Gpu.Command.{Command}
use virt_iogpu.Gpu.Request.{Log, Host, response_type, expected, request, once}
use virt_iogpu.Gpu.Answers.{
  no_data, resp_byte, capped, resp_expect, get_capset, get_capset_info, Caps, fetch, consider,
  query_loop, query_capsets,
}
use virt_iogpu.Gpu.Answers.Capsets.{copy_caps-inside}

-- The log with the request for a capability set.
abbrev pub asked : ℕ → ℕ → ℕ → Log → Log
asked id ver size past = request (Command.capset id ver) no_data (resp_expect size) ∷ past

-- The bytes are those of an answer to a request for the set and the version of `caps`.
pub record Fetched (host : Host) (caps : Caps) : Type 0 where
  pub room : ℕ
  pub past : Log
  pub answered : response_type (host (asked caps.capset_id caps.capset_ver room past)) ≡ 0x1103
  pub bytes :
      (j : ℕ)
      → j < caps.size
      → caps.bytes j ≡ resp_byte (host (asked caps.capset_id caps.capset_ver room past)) (24 + j)

module _ (host : Host) (id ver size : ℕ) (caps : Caps) (log : Log) where
  fetch-Fetched :
      response_type (host (asked id ver (capped 2048 size) log)) ≡ 0x1103
      → Fetched host (fetch host id ver size caps log).0
  unfolding get_capset once expected
  fetch-Fetched e =
      let room = capped 2048 size in
      rw e (record {
        room = room;
        past = log;
        answered = e;
        bytes = λ j h.
            copy_caps-inside (capped (resp_expect room - 24) room) 0 (host (asked id ver room log))
              caps.bytes j (omega arith) (omega arith);
      })

  -- Where GET_CAPSET fails, the identifier and the version are those of the set that failed, while
  -- the bytes, their size and whether they are valid stay as they were.
  pub fetch-failed :
      response_type (host (asked id ver (capped 2048 size) log)) ≢ 0x1103
      → (fetch host id ver size caps log).0 ≡ record caps { capset_id = id; capset_ver = ver }
  unfolding get_capset once expected
  fetch-failed ne =
      let room = capped 2048 size in
      rw (==-ne (response_type (host (asked id ver room log))) 0x1103 ne) refl

false_ne_true : false ≢ true
false_ne_true h = cc

-- No request for a capability set fails.
abbrev pub Answers : Host → Type 0
Answers host = (id ver size : ℕ) (log : Log) → response_type (host (asked id ver size log)) ≡ 0x1103

module _ (host : Host) (answers : Answers host) where
  consider-Fetched :
      (info : Option (ℕ × ℕ × ℕ)) (caps : Caps) (log : Log)
      → (caps.valid ≡ true → Fetched host caps)
      → (consider host info caps log).1.valid ≡ true
      → Fetched host (consider host info caps log).1
  unfolding consider
  consider-Fetched none caps log old v = old v
  consider-Fetched (some (id, ver, size)) caps log old v =
      elim (Bool-cases ((id == 2) || ((id == 1) && (caps.capset_id == 0)))) [
        | inl e ↦
            rw e (fetch-Fetched host id ver size caps log (answers id ver (capped 2048 size) log))
        | inr e ↦ rw e (old (rw e at v))
      ]

  query_loop-Fetched :
      (n i : ℕ) (caps : Caps) (log : Log)
      → (caps.valid ≡ true → Fetched host caps)
      → (query_loop host n i caps log).0.valid ≡ true
      → Fetched host (query_loop host n i caps log).0
  unfolding query_loop
  query_loop-Fetched zero i caps log old v = old v
  query_loop-Fetched (suc n) i caps log old v =
      let (info, log') = get_capset_info host i log in
      let next = consider host info caps log' in
      elim (Bool-cases next.0) [
        | inl e ↦ rw e (consider-Fetched info caps log' old (rw e at v))
        | inr e ↦ rw e (
            query_loop-Fetched n (i + 1) next.1 next.2 (consider-Fetched info caps log' old)
              (rw e at v))
      ]

  -- After the query of a device that answers every GET_CAPSET, a valid capability set holds the
  -- bytes of an answer for its own identifier and version, and without a valid one the driver does
  -- not use virgl.
  pub query_capsets-Fetched :
      (num_capsets : ℕ) (caps : Caps) (log : Log)
      → let end = (query_capsets host num_capsets caps log).0 in
        (end.valid ≡ true → Fetched host end) × (end.valid ≡ false → end.has_virgl ≡ false)
  unfolding query_capsets
  query_capsets-Fetched num caps log =
      let start : Caps = record caps { valid = false; capset_id = 0; capset_ver = 0 } in
      let end = query_loop host num 0 start log in
      elim (Bool-cases end.0.valid) [
        | inl e ↦ rw e (
          λ v. query_loop-Fetched num 0 start log (λ h. absurd (false_ne_true h)) e,
          λ v. absurd (false_ne_true (sym v ∙ e)),
        )
        | inr e ↦ rw e (λ v. absurd (false_ne_true v), λ v. refl)
      ]
