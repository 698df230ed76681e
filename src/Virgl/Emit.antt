-- ===== src/Virgl/Emit.antt =====
-- What a sequence of emits leaves in the buffer.
use virt_iogpu.Prelude.{
  ℕ, zero, suc, ◌+◌, ◌*◌, ◌%◌, ◌^◌, ◌≤◌, ◌<◌, ◌≡◌, refl, sym, ◌∙◌, ap, bit_or-shift, Bool-cases,
  inl, inr, List, [], ◌∷◌, ◌++◌, map, arith, ltb, length, take, length-append, ltb→lt, not_ltb→le,
}
use mathlib.Core.List.{append_assoc, append-nil}
use virt_iogpu.Word.{bswap32}
use virt_iogpu.Virgl.CmdBuf.{CmdBuf, cmd_hdr, emit_dword, emit_dwords, emit_loop}

pub emit_dwords-append :
    (xs ys : List ℕ) (cbuf : CmdBuf)
    → emit_dwords (xs ++ ys) cbuf ≡ emit_dwords ys (emit_dwords xs cbuf)
unfolding emit_dwords
emit_dwords-append [] ys cbuf = refl
emit_dwords-append (x ∷ xs) ys cbuf = emit_dwords-append xs ys (emit_dword x cbuf)

-- The words of a loop's rounds.
unfoldable pub each : ℕ → ℕ → (ℕ → List ℕ) → List ℕ
each zero i vals = []
each (suc rounds) i vals = vals i ++ each rounds (i + 1) vals

pub emit_loop_lem :
    (rounds i : ℕ) (vals : ℕ → List ℕ) (cbuf : CmdBuf)
    → emit_loop rounds i vals cbuf ≡ emit_dwords (each rounds i vals) cbuf
unfolding emit_loop each emit_dwords
emit_loop_lem zero i vals cbuf = refl
emit_loop_lem (suc rounds) i vals cbuf =
    emit_loop_lem rounds (i + 1) vals (emit_dwords (vals i) cbuf)
    ∙ sym (emit_dwords-append (vals i) (each rounds (i + 1) vals) cbuf)

pub length-each :
    (k rounds i : ℕ) (vals : ℕ → List ℕ)
    → ((j : ℕ) → length (vals j) ≡ k)
    → length (each rounds i vals) ≡ rounds * k
unfolding each
length-each k zero i vals h = omega arith
length-each k (suc rounds) i vals h = omega (
  arith,
  length-append (vals i) (each rounds (i + 1) vals),
  h i,
  length-each k rounds (i + 1) vals h,
)

-- The three fields of a header, as a sum.
pub cmd_hdr_lem :
    (cmd obj len : ℕ)
    → cmd < 2 ^ 8
    → obj < 2 ^ 8
    → len < 2 ^ 16
    → cmd_hdr cmd obj len ≡ cmd + obj * 2 ^ 8 + len * 2 ^ 16
unfolding cmd_hdr
cmd_hdr_lem cmd obj len c o l =
    let low : obj * 2 ^ 8 % 2 ^ 32 ≡ obj * 2 ^ 8 = omega arith in
    let high : len * 2 ^ 16 % 2 ^ 32 ≡ len * 2 ^ 16 = omega arith in
    rw (low, high, bit_or-shift 8 cmd obj c) (bit_or-shift 16 (cmd + obj * 2 ^ 8) len (omega arith))

pub take-all : (n : ℕ) (xs : List ℕ) → length xs ≤ n → take n xs ≡ xs
take-all zero [] h = refl
take-all zero (x ∷ xs) h = absurd (omega arith)
take-all (suc n) [] h = refl
take-all (suc n) (x ∷ xs) h = ap (◌∷◌ x) (take-all n xs (omega arith))

take-append_full : (xs ys : List ℕ) → take (length xs) (xs ++ ys) ≡ xs
take-append_full [] ys = refl
take-append_full (x ∷ xs) ys = ap (◌∷◌ x) (take-append_full xs ys)

emit_dwords-full :
    (vals : List ℕ) (cbuf : CmdBuf)
    → cbuf.max_dwords ≤ length cbuf.words
    → emit_dwords vals cbuf ≡ cbuf
unfolding emit_dwords emit_dword
emit_dwords-full [] cbuf h = refl
emit_dwords-full (x ∷ xs) cbuf h = elim (Bool-cases (ltb (length cbuf.words) cbuf.max_dwords)) [
  | inl room ↦ absurd (omega (arith, ltb→lt (length cbuf.words) cbuf.max_dwords room))
  | inr full ↦ rw full (emit_dwords-full xs cbuf h)
]

-- A buffer takes what fits, and drops the rest.
pub emit_dwords_lem :
    (vals : List ℕ) (cbuf : CmdBuf)
    → length cbuf.words ≤ cbuf.max_dwords
    → emit_dwords vals cbuf
      ≡ record cbuf { words = take cbuf.max_dwords (cbuf.words ++ map bswap32 vals) }
unfolding emit_dwords emit_dword
emit_dwords_lem [] cbuf h = rw (append-nil cbuf.words, take-all cbuf.max_dwords cbuf.words h) refl
emit_dwords_lem (x ∷ xs) cbuf h = elim (Bool-cases (ltb (length cbuf.words) cbuf.max_dwords)) [
  | inl room ↦
      let after : CmdBuf = record cbuf { words = cbuf.words ++ (bswap32 x ∷ []) } in
      let lt = ltb→lt (length cbuf.words) cbuf.max_dwords room in
      rw room (
        emit_dwords_lem xs after (omega (arith, lt, length-append cbuf.words (bswap32 x ∷ [])))
        ∙ rw (append_assoc cbuf.words (bswap32 x ∷ []) (map bswap32 xs)) refl)
  | inr full ↦
      let ge = not_ltb→le (length cbuf.words) cbuf.max_dwords full in
      let same : cbuf.max_dwords ≡ length cbuf.words = omega (arith, h, ge) in
      let whole : take cbuf.max_dwords (cbuf.words ++ map bswap32 (x ∷ xs)) ≡ cbuf.words =
        rw same (take-append_full cbuf.words (map bswap32 (x ∷ xs))) in
      rw (full, emit_dwords-full xs cbuf ge, whole) refl
]
