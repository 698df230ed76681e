-- ===== src/Virgl/Host.antt =====
-- The host's side of a stream of src/chip/chip_virgl.c: it reads little-endian words and splits
-- them by the headers, as virglrenderer's vrend_decode.c does.
use virt_iogpu.Prelude.{
  ℕ, zero, suc, ◌+◌, ◌*◌, ◌/◌, ◌%◌, ◌^◌, ◌≤◌, ◌<◌, ◌≡◌, refl, sym, ◌∙◌, ap, List, [], ◌∷◌, ◌++◌,
  map, Option, none, some, arith, ltb, if◌then◌else◌, length, take, drop, All, length-append,
  le→not_ltb,
}
use virt_iogpu.Word.{bswap32, bswap32-bswap32}
use virt_iogpu.Word.Streams.{length-map_bswap, map-append_bswap, map_bswap_twice}
use virt_iogpu.Virgl.CmdBuf.{CmdBuf, init, emit_dwords}
use virt_iogpu.Virgl.Emit.{emit_dwords-append, emit_dwords_lem, cmd_hdr_lem, take-all}
use virt_iogpu.Virgl.Stream.{Command, Packet, perform, meaning, packet_words, IsShort}
use virt_iogpu.Virgl.Perform.{perform-meaning}

-- The calls of a list, one after the other.
unfoldable pub run : List Command → CmdBuf → CmdBuf
run [] cbuf = cbuf
run (c ∷ cs) cbuf = run cs (perform c cbuf)

-- The words of all packets.
unfoldable pub stream : List Command → List ℕ
stream [] = []
stream (c ∷ cs) = packet_words (meaning c) ++ stream cs

run-stream :
    (cs : List Command) (cbuf : CmdBuf)
    → All IsShort cs
    → run cs cbuf ≡ emit_dwords (stream cs) cbuf
unfolding run stream emit_dwords
run-stream [] cbuf h = refl
run-stream (c ∷ cs) cbuf h =
    run-stream cs (perform c cbuf) h.1
    ∙ ap (emit_dwords (stream cs)) (perform-meaning cbuf c h.0)
    ∙ sym (emit_dwords-append (packet_words (meaning c)) (stream cs) cbuf)

-- A buffer of `max_dwords` words holds the stream of its commands as far as it fits, in the wire's
-- byte order, and drops the rest without an error. Condition: every payload's length fits 16 bits.
pub run-init :
    (cs : List Command) (max_dwords : ℕ)
    → All IsShort cs
    → (run cs (init max_dwords)).words ≡ take max_dwords (map bswap32 (stream cs))
unfolding init
run-init cs max_dwords h =
    ap (λ (b : CmdBuf). b.words)
      (run-stream cs (init max_dwords) h
        ∙ emit_dwords_lem (stream cs) (init max_dwords) (omega arith))

abbrev before : Packet → Option (List Packet) → Option (List Packet)
before p none = none
before p (some ps) = some (p ∷ ps)

-- The packets of a stream of words; `none` where the last one is cut off.
unfoldable pub split : ℕ → List ℕ → Option (List Packet)
split zero ws = some []
split (suc n) [] = none
split (suc n) (w ∷ ws) =
    let header = bswap32 w in
    let len = header / 2 ^ 16 in
    let rest = split n (drop len ws) in
    if ltb (length ws) len
    then none
    else before
        (record {
          cmd = header % 2 ^ 8;
          obj = header / 2 ^ 8 % 2 ^ 8;
          payload = map bswap32 (take len ws);
        })
        rest

-- The arguments of the call are uint32, and its object type and its length fit their fields.
pub record IsCall (c : Command) : Type 0 where
  pub short : IsShort c
  pub obj : (meaning c).obj < 2 ^ 8
  pub words : All (λ w. w < 2 ^ 32) (meaning c).payload

take-append_bswap : (xs ys : List ℕ) → take (length xs) (map bswap32 xs ++ ys) ≡ map bswap32 xs
take-append_bswap [] ys = refl
take-append_bswap (x ∷ xs) ys = ap (◌∷◌ (bswap32 x)) (take-append_bswap xs ys)

drop-append_bswap : (xs ys : List ℕ) → drop (length xs) (map bswap32 xs ++ ys) ≡ ys
drop-append_bswap [] ys = refl
drop-append_bswap (x ∷ xs) ys = drop-append_bswap xs ys

-- The fields of a swapped header, as the host reads them.
header_fields :
    (p : Packet)
    → p.cmd < 2 ^ 8
    → p.obj < 2 ^ 8
    → length p.payload < 2 ^ 16
    → let header = bswap32 (bswap32 (p.cmd + p.obj * 2 ^ 8 + length p.payload * 2 ^ 16)) in
      (header % 2 ^ 8 ≡ p.cmd)
      × (header / 2 ^ 8 % 2 ^ 8 ≡ p.obj)
      × (header / 2 ^ 16 ≡ length p.payload)
header_fields p c o l =
    rw (bswap32-bswap32 (p.cmd + p.obj * 2 ^ 8 + length p.payload * 2 ^ 16) (omega arith))
      (omega arith, omega arith, omega arith)

split-packet :
    (n : ℕ) (p : Packet) (ws : List ℕ) (ps : List Packet)
    → p.cmd < 2 ^ 8
    → p.obj < 2 ^ 8
    → length p.payload < 2 ^ 16
    → All (λ w. w < 2 ^ 32) p.payload
    → split n ws ≡ some ps
    → split (suc n) (map bswap32 (packet_words p) ++ ws) ≡ some (p ∷ ps)
unfolding split packet_words
split-packet n p ws ps c o l h e =
    let f = header_fields p c o l in
    rw
      (
        cmd_hdr_lem p.cmd p.obj (length p.payload) c o l,
        f.0,
        f.1,
        f.2,
        take-append_bswap p.payload ws,
        drop-append_bswap p.payload ws,
        map_bswap_twice p.payload h,
        e,
        le→not_ltb (length (map bswap32 p.payload ++ ws)) (length p.payload)
            (omega (arith, length-append (map bswap32 p.payload) ws, length-map_bswap p.payload)),
      )
      refl

cmd-lt : (c : Command) → (meaning c).cmd < 2 ^ 8
unfolding meaning
cmd-lt (Command.new_sub_ctx a) = omega arith
cmd-lt (Command.use_sub_ctx a) = omega arith
cmd-lt (Command.new_surface a b c d e) = omega arith
cmd-lt (Command.new_blend a b c) = omega arith
cmd-lt (Command.new_dsa a b c d e) = omega arith
cmd-lt (Command.new_rasterizer a b c d e f g h i) = omega arith
cmd-lt (Command.new_shader a b t) = omega arith
cmd-lt (Command.new_vertex_elements a n es) = omega arith
cmd-lt (Command.use_object a b) = omega arith
cmd-lt (Command.use_shader a b) = omega arith
cmd-lt (Command.drop_object a b) = omega arith
cmd-lt (Command.viewport a b c d e f g) = omega arith
cmd-lt (Command.framebuffer n z hs) = omega arith
cmd-lt (Command.vertex_buffers n vs) = omega arith
cmd-lt (Command.scissor a b c d e) = omega arith
cmd-lt (Command.clear_buffers a b c d e f g) = omega arith
cmd-lt (Command.draw a b c d e f g h i j k l) = omega arith
cmd-lt (Command.inline_write b s n) = omega arith
cmd-lt (Command.vertex_floats a fs n) = omega arith
cmd-lt (Command.copy_box a d s) = omega arith
cmd-lt (Command.new_sampler_state a b c d e f g h i) = omega arith
cmd-lt (Command.new_sampler_view a b c d e f g h i) = omega arith
cmd-lt (Command.sampler_views a b n hs) = omega arith
cmd-lt (Command.sampler_states a b n hs) = omega arith

abbrev pub meanings : List Command → List Packet
meanings [] = []
meanings (c ∷ cs) = meaning c ∷ meanings cs

split-stream :
    (cs : List Command)
    → All IsCall cs
    → split (length cs) (map bswap32 (stream cs)) ≡ some (meanings cs)
unfolding stream split
split-stream [] h = refl
split-stream (c ∷ cs) h = rw (map-append_bswap (packet_words (meaning c)) (stream cs)) (
    split-packet (length cs) (meaning c) (map bswap32 (stream cs)) (meanings cs) (cmd-lt c) h.0.obj
      h.0.short h.0.words (split-stream cs h.1))

All-IsShort : (cs : List Command) → All IsCall cs → All IsShort cs
All-IsShort [] h = tt
All-IsShort (c ∷ cs) h = (h.0.short, All-IsShort cs h.1)

-- The host splits what any sequence of encoder calls leaves in the buffer into exactly one packet
-- for each call, in order, with the call's command, object type and payload.
-- Conditions: the arguments and lengths fit their fields, and the stream fits the buffer.
pub split-run :
    (cs : List Command) (max_dwords : ℕ)
    → All IsCall cs
    → length (stream cs) ≤ max_dwords
    → split (length cs) (run cs (init max_dwords)).words ≡ some (meanings cs)
split-run cs max_dwords h fits =
    rw
      (
        run-init cs max_dwords (All-IsShort cs h),
        take-all max_dwords (map bswap32 (stream cs)) (omega (arith, length-map_bswap (stream cs))),
      )
      (split-stream cs h)
