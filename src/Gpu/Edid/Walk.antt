-- ===== src/Gpu/Edid/Walk.antt =====
-- The walk of chip_GetEDID (src/chip/chip_gpu_cmds.c) stays inside the blob and its tables.
use virt_iogpu.Prelude.{
  ℕ, zero, suc, ◌+◌, ◌*◌, ◌/◌, ◌%◌, ◌^◌, ◌≤◌, ◌<◌, ◌≡◌, refl, sym, ◌∙◌, ap, subst, false, ◌&&◌,
  ◌||◌, List, [], ◌∷◌, ◌++◌, ◌==◌, ltb, leb, Option, some, get_elem?, length, All, All-append,
  length-append, arith, Bool-cases, inl, inr, not_ltb→le, leb→le,
}
use mathlib.Core.List.{append_assoc}
use virt_iogpu.Gpu.Edid.{
  Sizes, ◌>>=◌, is_listed, add_dtd, read_dtd, pixel_clock, base_block, cea_block, extension,
  extensions, extension_blocks, parse_edid,
}

-- The sizes fit twelve bits, and none is zero.
abbrev pub IsSize : ℕ × ℕ → Type 0
IsSize (w, h) = (0 < w) × (w < 2 ^ 12) × (0 < h) × (h < 2 ^ 12)

-- No size is listed twice.
abbrev pub IsDistinct : Sizes → Type 0
IsDistinct [] = Unit {0}
IsDistinct ((w, h) ∷ rest) = (is_listed w h rest ≡ false) × IsDistinct rest

-- The contents of the two tables of 16 elements.
pub record IsTable (sizes : Sizes) : Type 0 where
  pub room : length sizes ≤ 16
  pub distinct : IsDistinct sizes
  pub sized : All IsSize sizes

-- A walk that came to its end: the table is behind what was there before.
pub record Walked (old : Sizes) (o : Option Sizes) : Type 0 where
  pub new : Sizes
  pub ended : o ≡ some (old ++ new)
  pub table : IsTable (old ++ new)

abbrev pub IsBytes : List ℕ → Type 0
IsBytes = All (λ b. b < 2 ^ 8)

is_listed-append :
    (w h : ℕ) (xs ys : Sizes) → is_listed w h (xs ++ ys) ≡ (is_listed w h xs || is_listed w h ys)
unfolding is_listed
is_listed-append w h [] ys = refl
is_listed-append w h ((w', h') ∷ xs) ys = ground (arith, is_listed-append w h xs ys)

IsDistinct-add :
    (w h : ℕ) (xs : Sizes)
    → IsDistinct xs
    → is_listed w h xs ≡ false
    → IsDistinct (xs ++ ((w, h) ∷ []))
unfolding is_listed
IsDistinct-add w h [] d e = (refl, tt)
IsDistinct-add w h ((w', h') ∷ xs) d e = (
  rw (is_listed-append w' h' xs ((w, h) ∷ [])) (ground arith),
  IsDistinct-add w h xs d.1 (ground arith),
)

append_nil : (xs : Sizes) → xs ++ [] ≡ xs
append_nil [] = refl
append_nil (x ∷ xs) = ap (◌∷◌ x) (append_nil xs)

nothing_new : (sizes : Sizes) → IsTable sizes → Walked sizes (some sizes)
nothing_new sizes t = record {
  new = [];
  ended = ap some (sym (append_nil sizes));
  table = subst IsTable (sym (append_nil sizes)) t;
}

add_dtd-Walked :
    (w h : ℕ) (sizes : Sizes)
    → w < 2 ^ 12
    → h < 2 ^ 12
    → IsTable sizes
    → Walked sizes (some (add_dtd w h sizes))
unfolding add_dtd
add_dtd-Walked w h sizes p q t = elim (Bool-cases (ltb 0 w && (ltb 0 h && ltb (length sizes) 16))) [
  | inr e ↦ rw e (nothing_new sizes t)
  | inl e ↦ elim (Bool-cases (is_listed w h sizes)) [
    | inl dup ↦ rw (e, dup) (nothing_new sizes t)
    | inr fresh ↦
        let a : w % 2 ^ 16 ≡ w = omega arith in
        let b : h % 2 ^ 16 ≡ h = omega arith in
        rw (e, fresh, a, b)
          (record {
            new = (w, h) ∷ [];
            ended = refl;
            table = record {
              room = ground (arith, length-append sizes ((w, h) ∷ []));
              distinct = IsDistinct-add w h sizes t.distinct fresh;
              sized =
                  All-append IsSize sizes ((w, h) ∷ []) t.sized
                    ((ground arith, p, ground arith, q), tt);
            };
          })
  ]
]

pub Walked-bind :
    (old : Sizes) (o : Option Sizes) (f : Sizes → Option Sizes)
    → Walked old o
    → ((s : Sizes) → IsTable s → Walked s (f s))
    → Walked old (o >>= f)
Walked-bind old o f w step =
    let next = step (old ++ w.new) w.table in
    let e = append_assoc old w.new next.new in
    record {
      new = w.new ++ next.new;
      ended = rw w.ended (next.ended ∙ ap some e);
      table = subst IsTable e next.table;
    }

byte_at :
    (edid : List ℕ) (i : ℕ)
    → IsBytes edid
    → i < length edid
    → (b : ℕ) × (get_elem? edid i ≡ some b) × (b < 2 ^ 8)
byte_at [] i bytes h = absurd (omega arith)
byte_at (x ∷ xs) zero bytes h = (x, refl, bytes.0)
byte_at (x ∷ xs) (suc i) bytes h = byte_at xs i bytes.1 (omega arith)

module _ (edid : List ℕ) (bytes : IsBytes edid) where
  read_dtd-Walked :
      (off : ℕ) (s : Sizes) → off + 8 ≤ length edid → IsTable s → Walked s (read_dtd edid off s)
  unfolding read_dtd
  read_dtd-Walked off s h t =
      let (d2, e2, l2) = byte_at edid (off + 2) bytes (omega arith) in
      let (d4, e4, l4) = byte_at edid (off + 4) bytes (omega arith) in
      let (d5, e5, l5) = byte_at edid (off + 5) bytes (omega arith) in
      let (d7, e7, l7) = byte_at edid (off + 7) bytes (omega arith) in
      rw (e2, e4, e5, e7)
        (add_dtd-Walked (d2 + d4 / 2 ^ 4 * 2 ^ 8) (d5 + d7 / 2 ^ 4 * 2 ^ 8) s (omega arith)
          (omega arith) t)

  clock_at : (off : ℕ) → off + 8 ≤ length edid → (clock : ℕ) × (pixel_clock edid off ≡ some clock)
  unfolding pixel_clock
  clock_at off h =
      let (d0, e0, l0) = byte_at edid off bytes (omega arith) in
      let (d1, e1, l1) = byte_at edid (off + 1) bytes (omega arith) in
      (d0 + d1 * 2 ^ 8, rw (e0, e1) refl)

  pub base_block-Walked :
      (offs : List ℕ) (s : Sizes) → IsTable s → Walked s (base_block edid offs s)
  unfolding base_block
  base_block-Walked [] s t = nothing_new s t
  base_block-Walked (off ∷ offs) s t = elim (Bool-cases (ltb (length edid) (off + 8))) [
    | inl e ↦ rw e (nothing_new s t)
    | inr e ↦
        let h = not_ltb→le (length edid) (off + 8) e in
        let (clock, ec) = clock_at off h in
        elim (Bool-cases (clock == 0)) [
          | inl z ↦ rw (e, ec, z) (base_block-Walked offs s t)
          | inr nz ↦
              rw (e, ec, nz)
                (Walked-bind s (read_dtd edid off s) (λ s'. base_block edid offs s')
                  (read_dtd-Walked off s h t) (λ s' t'. base_block-Walked offs s' t'))
        ]
  ]

  cea_block-Walked :
      (fuel ext_base off : ℕ) (s : Sizes)
      → ext_base + 128 ≤ length edid
      → IsTable s
      → Walked s (cea_block fuel edid ext_base off s)
  unfolding cea_block
  cea_block-Walked zero ext_base off s h t = nothing_new s t
  cea_block-Walked (suc fuel) ext_base off s h t =
      elim (Bool-cases (leb (off + 18) (ext_base + 126))) [
        | inr e ↦ rw e (nothing_new s t)
        | inl e ↦
            let inside = leb→le (off + 18) (ext_base + 126) e in
            let (clock, ec) = clock_at off (omega arith) in
            elim (Bool-cases (clock == 0)) [
              | inl z ↦ rw (e, ec, z) (nothing_new s t)
              | inr nz ↦
                  rw (e, ec, nz)
                    (Walked-bind s (read_dtd edid off s)
                      (λ s'. cea_block fuel edid ext_base (off + 18) s')
                      (read_dtd-Walked off s (omega arith) t)
                      (λ s' t'. cea_block-Walked fuel ext_base (off + 18) s' h t'))
            ]
      ]

  extension-Walked :
      (ext_base : ℕ) (s : Sizes)
      → ext_base + 128 ≤ length edid
      → IsTable s
      → Walked s (extension edid ext_base s)
  unfolding extension
  extension-Walked ext_base s h t =
      let (tag, e0, l0) = byte_at edid ext_base bytes (omega arith) in
      let (off, e2, l2) = byte_at edid (ext_base + 2) bytes (omega arith) in
      elim (Bool-cases ((tag == 2) && (leb 4 off && leb off 125))) [
        | inl e ↦ rw (e0, e2, e) (cea_block-Walked 7 ext_base (ext_base + off) s h t)
        | inr e ↦ rw (e0, e2, e) (nothing_new s t)
      ]

  extensions-Walked : (rounds e : ℕ) (s : Sizes) → IsTable s → Walked s (extensions rounds e edid s)
  unfolding extensions
  extensions-Walked zero e s t = nothing_new s t
  extensions-Walked (suc rounds) e s t =
      elim (Bool-cases (ltb (length edid) (128 * (e + 1) + 128))) [
        | inl short ↦ rw short (nothing_new s t)
        | inr long ↦ rw long (
            Walked-bind s (extension edid (128 * (e + 1)) s)
              (λ s'. extensions rounds (e + 1) edid s')
              (extension-Walked (128 * (e + 1)) s
                (not_ltb→le (length edid) (128 * (e + 1) + 128) long) t)
              (λ s' t'. extensions-Walked rounds (e + 1) s' t'))
      ]

  pub extension_blocks-Walked : (s : Sizes) → IsTable s → Walked s (extension_blocks edid s)
  unfolding extension_blocks
  extension_blocks-Walked s t = elim (Bool-cases (leb 128 (length edid))) [
    | inr e ↦ rw e (nothing_new s t)
    | inl e ↦
        let long = leb→le 128 (length edid) e in
        let (count, ec, l) = byte_at edid 126 bytes (omega arith) in
        rw (e, ec) (extensions-Walked count 0 s t)
  ]

  -- The walk over any blob of bytes comes to its end without a read behind the blob. It finds at
  -- most sixteen sizes, no size twice, and each is above zero and below 4096.
  pub parse_edid-IsTable : (sizes : Sizes) × (parse_edid edid ≡ some sizes) × IsTable sizes
  unfolding parse_edid
  parse_edid-IsTable =
      let w =
        Walked-bind [] (base_block edid (54 ∷ 72 ∷ 90 ∷ 108 ∷ []) []) (λ s. extension_blocks edid s)
          (base_block-Walked (54 ∷ 72 ∷ 90 ∷ 108 ∷ []) []
            (record { room = omega arith; distinct = tt; sized = tt }))
          extension_blocks-Walked in
      (w.new, w.ended, w.table)
