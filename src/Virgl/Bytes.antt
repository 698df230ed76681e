-- ===== src/Virgl/Bytes.antt =====
-- How the encoder packs bytes into words, and what a little-endian host reads back.
use virt_iogpu.Prelude.{
  ℕ, zero, suc, ◌+◌, ◌-◌, ◌*◌, ◌/◌, ◌%◌, ◌^◌, ◌≤◌, ◌<◌, ◌≡◌, refl, bit_or, bit_or-shift, Bool-cases,
  inl, inr, List, [], ◌∷◌, arith, ltb, if◌then◌else◌, length,
}
use virt_iogpu.Virgl.CmdBuf.{CmdBuf, emit_dword, emit_dwords, pack_bytes, pack_word, emit_bytes}

-- Byte `k` of `len` bytes, and 0 behind them.
abbrev pub padded : (ℕ → ℕ) → ℕ → ℕ → ℕ
padded src len k = if ltb k len then src k % 2 ^ 8 else 0

-- Four bytes from `off` on, the first one lowest.
unfoldable pub le_word : (ℕ → ℕ) → ℕ → ℕ → ℕ
le_word src len off =
    padded src len off
    + padded src len (off + 1) * 2 ^ 8
    + padded src len (off + 2) * 2 ^ 16
    + padded src len (off + 3) * 2 ^ 24

-- `n` such words.
unfoldable pub le_words : ℕ → (ℕ → ℕ) → ℕ → ℕ → List ℕ
le_words zero src len off = []
le_words (suc n) src len off = le_word src len off ∷ le_words n src len (off + 4)

pub length-le_words : (n : ℕ) (src : ℕ → ℕ) (len off : ℕ) → length (le_words n src len off) ≡ n
unfolding le_words
length-le_words zero src len off = refl
length-le_words (suc n) src len off = omega (arith, length-le_words n src len (off + 4))

or_1 : (a : ℕ) → bit_or 0 (a * 2 ^ 0) ≡ a
or_1 a = omega (arith, bit_or-shift 0 0 a (omega arith))

or_2 : (a b : ℕ) → a < 2 ^ 8 → bit_or (bit_or 0 (a * 2 ^ 0)) (b * 2 ^ 8) ≡ a + b * 2 ^ 8
or_2 a b h = rw (or_1 a) (bit_or-shift 8 a b h)

or_3 :
    (a b c : ℕ)
    → a < 2 ^ 8
    → b < 2 ^ 8
    → bit_or (bit_or (bit_or 0 (a * 2 ^ 0)) (b * 2 ^ 8)) (c * 2 ^ 16) ≡ a + b * 2 ^ 8 + c * 2 ^ 16
or_3 a b c h k = rw (or_2 a b h) (bit_or-shift 16 (a + b * 2 ^ 8) c (omega arith))

or_4 :
    (a b c d : ℕ)
    → a < 2 ^ 8
    → b < 2 ^ 8
    → c < 2 ^ 8
    → bit_or (bit_or (bit_or (bit_or 0 (a * 2 ^ 0)) (b * 2 ^ 8)) (c * 2 ^ 16)) (d * 2 ^ 24)
      ≡ a + b * 2 ^ 8 + c * 2 ^ 16 + d * 2 ^ 24
or_4 a b c d h k l =
    rw (or_3 a b c h k) (bit_or-shift 24 (a + b * 2 ^ 8 + c * 2 ^ 16) d (omega arith))

pub pack_word_lem : (src : ℕ → ℕ) (off len : ℕ) → pack_word src off len ≡ le_word src len off
unfolding pack_word pack_bytes le_word
pack_word_lem src off len =
    let a = src (off + 0) % 2 ^ 8 in
    let b = src (off + 1) % 2 ^ 8 in
    let c = src (off + 2) % 2 ^ 8 in
    let d = src (off + 3) % 2 ^ 8 in
    ground (
      arith,
      or_1 a,
      or_2 a b (omega arith),
      or_3 a b c (omega arith) (omega arith),
      or_4 a b c d (omega arith) (omega arith) (omega arith),
    )

-- The loop emits the words of the bytes that are left.
pub emit_bytes_lem :
    (fuel : ℕ) (src : ℕ → ℕ) (off len : ℕ) (cbuf : CmdBuf)
    → len ≤ off + 4 * fuel
    → len + 4 < 2 ^ 32
    → emit_bytes fuel src off len cbuf
      ≡ emit_dwords (le_words ((len - off + 3) / 4) src len off) cbuf
unfolding emit_bytes emit_dwords le_words
emit_bytes_lem zero src off len cbuf h small =
    let none_left : (len - off + 3) / 4 ≡ 0 = omega arith in rw none_left refl
emit_bytes_lem (suc fuel) src off len cbuf h small = elim (Bool-cases (ltb off len)) [
  | inl more ↦
      let count : (len - off + 3) / 4 ≡ suc ((len - (off + 4) + 3) / 4) = ground arith in
      let next : (off + 4) % 2 ^ 32 ≡ off + 4 = ground arith in
      rw (more, count, next, pack_word_lem src off len)
        (emit_bytes_lem fuel src (off + 4) len (emit_dword (le_word src len off) cbuf) (omega arith)
          small)
  | inr done ↦ let none_left : (len - off + 3) / 4 ≡ 0 = ground arith in rw (done, none_left) refl
]
