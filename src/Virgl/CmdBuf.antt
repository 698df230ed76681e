-- ===== src/Virgl/CmdBuf.antt =====
-- The command buffer of include/virgl/virgl_cmd.h and its emit helpers, and virgl_submit of
-- src/chip/chip_virgl.c. A float is its IEEE 754 bit pattern, and so is a double.
use virt_iogpu.Prelude.{
  ℕ, zero, suc, ◌+◌, ◌*◌, ◌/◌, ◌%◌, ◌^◌, bit_or, Bool, true, false, not, List, [], ◌∷◌, ◌++◌,
  Option, none, some, ltb, ◌==◌, if◌then◌else◌, length,
}
use virt_iogpu.Word.{bswap32}

-- `struct VirglCmdBuf`: `words` are the first `dwords` words of `buf`, as they stand in memory.
pub record CmdBuf : Type 0 where
  pub words : List ℕ
  pub max_dwords : ℕ

-- virgl_cmd_init and virgl_cmd_reset
unfoldable pub init : ℕ → CmdBuf
init max_dwords = record { words = []; max_dwords = max_dwords }

unfoldable pub reset : CmdBuf → CmdBuf
reset cbuf = record cbuf { words = [] }

-- VIRGL_CMD_HDR
unfoldable pub cmd_hdr : ℕ → ℕ → ℕ → ℕ
cmd_hdr cmd obj length = bit_or (bit_or cmd (obj * 2 ^ 8 % 2 ^ 32)) (length * 2 ^ 16 % 2 ^ 32)

-- A word that does not fit is dropped.
unfoldable pub emit_dword : ℕ → CmdBuf → CmdBuf
emit_dword val cbuf =
    if ltb (length cbuf.words) cbuf.max_dwords
    then record cbuf { words = cbuf.words ++ (bswap32 val ∷ []) }
    else cbuf

-- Calls of virgl_emit_dword, one after the other.
unfoldable pub emit_dwords : List ℕ → CmdBuf → CmdBuf
emit_dwords [] cbuf = cbuf
emit_dwords (val ∷ vals) cbuf = emit_dwords vals (emit_dword val cbuf)

-- The words that virgl_emit_double emits.
unfoldable pub double_words : ℕ → List ℕ
double_words val = val % 2 ^ 32 ∷ val / 2 ^ 32 % 2 ^ 32 ∷ []

-- `for (i = ...; i < n; i++)` with `rounds` rounds left, which emits `vals i` in each.
unfoldable pub emit_loop : ℕ → ℕ → (ℕ → List ℕ) → CmdBuf → CmdBuf
emit_loop zero i vals cbuf = cbuf
emit_loop (suc rounds) i vals cbuf = emit_loop rounds (i + 1) vals (emit_dwords (vals i) cbuf)

-- The inner loop of virgl_pack_text_word and of virgl_cmd_resource_inline_write: `rounds` bytes
-- from byte `i` of the word on.
unfoldable pub pack_bytes : ℕ → ℕ → (ℕ → ℕ) → ℕ → ℕ → ℕ → ℕ
pack_bytes zero i src off len val = val
pack_bytes (suc rounds) i src off len val =
    let rest =
      pack_bytes rounds (i + 1) src off len (bit_or val (src (off + i) % 2 ^ 8 * 2 ^ (i * 8))) in
    if ltb (off + i) len then rest else val

unfoldable pub pack_word : (ℕ → ℕ) → ℕ → ℕ → ℕ
pack_word src off len = pack_bytes 4 0 src off len 0

-- `for (off = ...; off < len; off += 4)`, with fuel.
unfoldable pub emit_bytes : ℕ → (ℕ → ℕ) → ℕ → ℕ → CmdBuf → CmdBuf
emit_bytes zero src off len cbuf = cbuf
emit_bytes (suc fuel) src off len cbuf =
    let rest =
      emit_bytes fuel src ((off + 4) % 2 ^ 32) len (emit_dword (pack_word src off len) cbuf) in
    if ltb off len then rest else cbuf

-- What virgl_submit leaves: its answer, what it has sent, the context's state and the buffer.
pub record Submitted : Type 0 where
  pub ok : Bool
  pub sent : Option (List ℕ)
  pub virgl_ctx_error : Bool
  pub cbuf : CmdBuf

-- `accepted` is what chip_Submit3D answers, where it is called.
unfoldable pub submit : Bool → Bool → CmdBuf → Submitted
submit accepted virgl_ctx_error cbuf =
    if length cbuf.words == 0
    then record { ok = true; sent = none; virgl_ctx_error = virgl_ctx_error; cbuf = cbuf }
    else if virgl_ctx_error
    then record { ok = false; sent = none; virgl_ctx_error = true; cbuf = reset cbuf }
    else record {
      ok = accepted;
      sent = some cbuf.words;
      virgl_ctx_error = not accepted;
      cbuf = reset cbuf;
    }
