-- ===== src/Gpu/Answers/Capsets.antt =====
-- chip_QueryCapsets (src/chip/chip_gpu_3d.c): where the bytes of the capability set come from.
use virt_iogpu.Prelude.{
  ℕ, zero, suc, ◌+◌, ◌-◌, ◌≤◌, ◌<◌, ◌≡◌, ◌⊎◌, refl, ◌∙◌, false, ◌&&◌, ◌||◌, ◌∷◌, ◌==◌, Option, none,
  some, update, arith, Bool-cases, inl, inr, update_self, update-ne, subst, ap,
}
use virt_iogpu.Gpu.Command.{Command}
use virt_iogpu.Gpu.Request.{Reply, Log, Host, response_type, expected, request, once}
use virt_iogpu.Gpu.Answers.{
  no_data, resp_byte, copy_caps, capped, resp_expect, get_capset, get_capset_info, Caps, fetched,
  consider, query_loop, query_capsets,
}

copy_caps-outside :
    (n i : ℕ) (r : Reply) (buf : ℕ → ℕ) (j : ℕ)
    → (j < i) ⊎ (i + n ≤ j)
    → copy_caps n i r buf j ≡ buf j
unfolding copy_caps
copy_caps-outside zero i r buf j h = refl
copy_caps-outside (suc n) i r buf j h =
    copy_caps-outside n (i + 1) r (update buf i (resp_byte r (24 + i))) j (ground arith)
    ∙ update-ne buf i j (resp_byte r (24 + i)) (ground arith)

pub copy_caps-inside :
    (n i : ℕ) (r : Reply) (buf : ℕ → ℕ) (j : ℕ)
    → i ≤ j
    → j < i + n
    → copy_caps n i r buf j ≡ resp_byte r (24 + j)
unfolding copy_caps
copy_caps-inside zero i r buf j p q = absurd (omega arith)
copy_caps-inside (suc n) i r buf j p q = elim (Bool-cases (i == j)) [
  | inl same ↦
      let e : i ≡ j = ground arith in
      copy_caps-outside n (i + 1) r (update buf i (resp_byte r (24 + i))) j (inl (omega arith))
      ∙ subst (λ x. update buf i (resp_byte r (24 + i)) x ≡ resp_byte r (24 + x)) e
          (update_self buf i (resp_byte r (24 + i)))
  | inr other ↦
      copy_caps-inside n (i + 1) r (update buf i (resp_byte r (24 + i))) j (ground arith)
        (omega arith)
]

get_capset-outside :
    (host : Host) (id ver size : ℕ) (buf : ℕ → ℕ) (log : Log) (j : ℕ)
    → size ≤ j
    → (get_capset host id ver size buf log).1 j ≡ buf j
unfolding get_capset once
get_capset-outside host id ver size buf log j h =
    let log' = request (Command.capset id ver) no_data (resp_expect size) ∷ log in
    elim (Bool-cases (response_type (host log') == expected (Command.capset id ver))) [
      | inl ok ↦ rw ok (
          copy_caps-outside (capped (resp_expect size - 24) size) 0 (host log') buf j
            (inr (ground arith)))
      | inr e ↦ rw e refl
    ]

fetched-bytes :
    (id ver : ℕ) (caps : Caps) (got : Option ℕ × (ℕ → ℕ) × Log)
    → (fetched id ver caps got).0.bytes ≡ got.1
fetched-bytes id ver caps (none, bytes, log) = refl
fetched-bytes id ver caps (some n, bytes, log) = refl

-- The array `virgl_caps` of 2048 bytes.
abbrev Within : Caps → Caps → Type 0
Within old new = (j : ℕ) → 2048 ≤ j → new.bytes j ≡ old.bytes j

consider-Within :
    (host : Host) (info : Option (ℕ × ℕ × ℕ)) (caps : Caps) (log : Log)
    → Within caps (consider host info caps log).1
unfolding consider
consider-Within host none caps log j h = refl
consider-Within host (some (id, ver, size)) caps log j h =
    elim (Bool-cases ((id == 2) || ((id == 1) && (caps.capset_id == 0)))) [
      | inl e ↦ rw e (
          let got = get_capset host id ver (capped 2048 size) caps.bytes log in
          ap (λ f. f j) (fetched-bytes id ver caps got)
          ∙ get_capset-outside host id ver (capped 2048 size) caps.bytes log j (ground arith))
      | inr e ↦ rw e refl
    ]

query_loop-Within :
    (host : Host) (n i : ℕ) (caps : Caps) (log : Log) → Within caps (query_loop host n i caps log).0
unfolding query_loop
query_loop-Within host zero i caps log j h = refl
query_loop-Within host (suc n) i caps log j h =
    let (info, log') = get_capset_info host i log in
    let next = consider host info caps log' in
    let one = consider-Within host info caps log' j h in
    elim (Bool-cases next.0) [
      | inl e ↦ rw e one
      | inr e ↦ rw e (query_loop-Within host n (i + 1) next.1 next.2 j h ∙ one)
    ]

-- Whatever sizes the device lists, the query writes only the 2048 bytes of the capability buffer.
query_capsets-bounds :
    (host : Host) (num_capsets : ℕ) (caps : Caps) (log : Log) (j : ℕ)
    → 2048 ≤ j
    → (query_capsets host num_capsets caps log).0.bytes j ≡ caps.bytes j
unfolding query_capsets
query_capsets-bounds host num caps log j h =
    let start : Caps = record caps { valid = false; capset_id = 0; capset_ver = 0 } in
    let end = query_loop host num 0 start log in
    let one : end.0.bytes j ≡ caps.bytes j = query_loop-Within host num 0 start log j h in
    elim (Bool-cases end.0.valid) [ inl e ↦ rw e one | inr e ↦ rw e one ]
