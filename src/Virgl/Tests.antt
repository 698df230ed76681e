-- ===== src/Virgl/Tests.antt =====
-- Small streams of src/chip/chip_virgl.c.
use virt_iogpu.Prelude.{◌+◌, ◌≡◌, refl, true, false, List, [], ◌∷◌, some, arith, map, take}
use virt_iogpu.Word.{bswap16, bswap32}
use virt_iogpu.Virgl.CmdBuf.{cmd_hdr, init, emit_dwords, emit_dword, double_words}
use virt_iogpu.Virgl.Encode.{clear}
use virt_iogpu.Virgl.Stream.{Command, meaning, packet_words}
use virt_iogpu.Virgl.Host.{run, run-init, stream, split, split-run, meanings}
use virt_iogpu.Virgl.Emit.{each}
use virt_iogpu.Virgl.Submit.{Attempt, sends, until_refused, sends-until_refused}

-- Three surfaces, then a clear to opaque black.
abbrev calls : List Command
calls =
    Command.framebuffer 3 0 (λ i. 7 + i)
    ∷ Command.clear_buffers 4 0 0 0 0x3f800000 0x3ff0000000000000 0
    ∷ []

clear_words :
    (clear 4 0 0 0 0x3f800000 0x3ff0000000000000 0 (init 16)).words
    ≡ 0x07000800 ∷ 0x04000000 ∷ 0 ∷ 0 ∷ 0 ∷ 0x0000803f ∷ 0 ∷ 0x0000f03f ∷ 0 ∷ []
unfolding clear cmd_hdr init emit_dwords emit_dword double_words bswap16 bswap32
clear_words = refl

run-init_example : (run calls (init 8)).words ≡ take 8 (map bswap32 (stream calls))
unfolding meaning each
run-init_example = run-init calls 8 (omega arith, (omega arith, tt))

split-run_example : split 2 (run calls (init 64)).words ≡ some (meanings calls)
unfolding meaning each stream packet_words
split-run_example =
    split-run calls 64
      (
        record {
          short = omega arith;
          obj = omega arith;
          words = (omega arith, (omega arith, (omega arith, (omega arith, (omega arith, tt)))));
        },
        (
          record {
            short = omega arith;
            obj = omega arith;
            words = (
              omega arith,
              (
                omega arith,
                (
                  omega arith,
                  (omega arith, (omega arith, (omega arith, (omega arith, (omega arith, tt))))),
                ),
              ),
            );
          },
          tt,
        ),
      )
      (omega arith)

-- The second one is refused, the third one is not sent.
abbrev attempts : List Attempt
attempts =
    record { accepted = true; cbuf = record { words = 1 ∷ []; max_dwords = 8 } }
    ∷ record { accepted = false; cbuf = record { words = 2 ∷ []; max_dwords = 8 } }
    ∷ record { accepted = true; cbuf = record { words = 3 ∷ []; max_dwords = 8 } }
    ∷ []

sends-until_refused_example : sends false attempts ≡ (1 ∷ []) ∷ (2 ∷ []) ∷ []
unfolding until_refused
sends-until_refused_example = sends-until_refused attempts
