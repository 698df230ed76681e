-- ===== src/Virgl/Unpack.antt =====
-- The byte loops of virgl_cmd_create_shader and virgl_cmd_resource_inline_write
-- (src/chip/chip_virgl.c), as the host reads their words back byte by byte.
use virt_iogpu.Prelude.{
  ℕ, zero, suc, ◌+◌, ◌-◌, ◌*◌, ◌/◌, ◌%◌, ◌^◌, ◌≤◌, ◌<◌, ◌≡◌, refl, ◌∙◌, ap, subst, List, [], ◌∷◌,
  map, some, arith, ltb, if◌then◌else◌, get_elem?, All,
}
use virt_iogpu.Word.{bswap32}
use virt_iogpu.Virgl.CmdBuf.{CmdBuf, init, emit_bytes}
use virt_iogpu.Virgl.Bytes.{padded, le_word, le_words, length-le_words, emit_bytes_lem}
use virt_iogpu.Virgl.Emit.{emit_dwords_lem, take-all}
use virt_iogpu.Word.Streams.{map_bswap_twice, length-map_bswap}

-- The bytes of words, the lowest byte of each word first.
unfoldable pub unpack : List ℕ → List ℕ
unpack [] = []
unpack (w ∷ ws) =
    w % 2 ^ 8 ∷ w / 2 ^ 8 % 2 ^ 8 ∷ w / 2 ^ 16 % 2 ^ 8 ∷ w / 2 ^ 24 % 2 ^ 8 ∷ unpack ws

padded-lt : (src : ℕ → ℕ) (len k : ℕ) → padded src len k < 2 ^ 8
padded-lt src len k = ground arith

module _ (src : ℕ → ℕ) (len : ℕ) where
  word_bytes :
      (off : ℕ)
      → let w = le_word src len off in
        (w % 2 ^ 8 ≡ padded src len off)
        × (w / 2 ^ 8 % 2 ^ 8 ≡ padded src len (off + 1))
        × (w / 2 ^ 16 % 2 ^ 8 ≡ padded src len (off + 2))
        × (w / 2 ^ 24 % 2 ^ 8 ≡ padded src len (off + 3))
        × (w < 2 ^ 32)
  unfolding le_word
  word_bytes off =
      let a = padded-lt src len off in
      let b = padded-lt src len (off + 1) in
      let c = padded-lt src len (off + 2) in
      let d = padded-lt src len (off + 3) in
      (
        omega (arith, a, b, c, d),
        omega (arith, a, b, c, d),
        omega (arith, a, b, c, d),
        omega (arith, a, b, c, d),
        omega (arith, a, b, c, d),
      )

  le_words-lt : (n off : ℕ) → All (λ w. w < 2 ^ 32) (le_words n src len off)
  unfolding le_words
  le_words-lt zero off = tt
  le_words-lt (suc n) off = ((word_bytes off).4, le_words-lt n (off + 4))

  unpack-le_words :
      (n off k : ℕ)
      → k < 4 * n
      → get_elem? (unpack (le_words n src len off)) k ≡ some (padded src len (off + k))
  unfolding unpack le_words
  unpack-le_words zero off k h = absurd (omega arith)
  unpack-le_words (suc n) off zero h =
      let at : off + 0 ≡ off = omega arith in rw (at, (word_bytes off).0) refl
  unpack-le_words (suc n) off (suc zero) h = ap some (word_bytes off).1
  unpack-le_words (suc n) off (suc (suc zero)) h = ap some (word_bytes off).2
  unpack-le_words (suc n) off (suc (suc (suc zero))) h = ap some (word_bytes off).3
  unpack-le_words (suc n) off (suc (suc (suc (suc k)))) h =
      let at : off + suc (suc (suc (suc k))) ≡ off + 4 + k = omega arith in
      rw at (unpack-le_words n (off + 4) k (omega arith))

  emitted :
      (max_dwords : ℕ)
      → len + 4 < 2 ^ 32
      → (len + 3) / 4 ≤ max_dwords
      → map bswap32 (emit_bytes len src 0 len (init max_dwords)).words
        ≡ le_words ((len + 3) / 4) src len 0
  unfolding init
  emitted max_dwords small fits =
      let ws = le_words ((len + 3) / 4) src len 0 in
      let same : len - 0 ≡ len = omega arith in
      let short = length-map_bswap ws in
      let count = length-le_words ((len + 3) / 4) src len 0 in
      ap (λ (b : CmdBuf). map bswap32 b.words)
        (emit_bytes_lem len src 0 len (init max_dwords) (omega arith) small)
      ∙ rw
          (
            same,
            emit_dwords_lem ws (init max_dwords) (omega arith),
            take-all max_dwords (map bswap32 ws) (omega (arith, short, count)),
          )
          (map_bswap_twice ws (le_words-lt ((len + 3) / 4) 0))

-- The host reads every byte of the data at its place, and zeros behind the data up to the end of
-- the last word. Conditions: a uint32 length that does not wrap when it is rounded up, and a
-- buffer with room for the words.
emit_bytes-unpack :
    (src : ℕ → ℕ) (len max_dwords k : ℕ)
    → len + 4 < 2 ^ 32
    → (len + 3) / 4 ≤ max_dwords
    → k < 4 * ((len + 3) / 4)
    → get_elem? (unpack (map bswap32 (emit_bytes len src 0 len (init max_dwords)).words)) k
      ≡ some (if ltb k len then src k % 2 ^ 8 else 0)
emit_bytes-unpack src len max_dwords k small fits h =
    let at : 0 + k ≡ k = omega arith in
    rw (emitted src len max_dwords small fits) (
      subst
        (λ j. get_elem? (unpack (le_words ((len + 3) / 4) src len 0)) k ≡ some (padded src len j))
        at (unpack-le_words src len ((len + 3) / 4) 0 k h))
