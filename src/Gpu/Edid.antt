-- ===== src/Gpu/Edid.antt =====
-- The EDID of chip_GetEDID (src/chip/chip_gpu_cmds.c): the walk over its detailed timings. A read
-- of a byte that the device has not sent ends the walk with `none`.
pub mod Walk
pub mod Preferred
pub mod Rounds
use virt_iogpu.Prelude.{
  ℕ, zero, suc, ◌+◌, ◌*◌, ◌/◌, ◌%◌, ◌^◌, ◌≤◌, Bool, true, false, ◌&&◌, ◌||◌, List, [], ◌∷◌, ◌++◌,
  ◌==◌, ltb, leb, if◌then◌else◌, Option, none, some, get_elem?, length, take,
}

infixl 5 ◌>>=◌
abbrev pub ◌>>=◌ {ℓ κ} : {A : Type ℓ} {B : Type κ} → Option A → (A → Option B) → Option B
none >>= f = none
some a >>= f = f a

-- The sizes found so far, in the order of `edid_dtd_w` and `edid_dtd_h`.
abbrev pub Sizes : Type 0
Sizes = List (ℕ × ℕ)

unfoldable pub is_listed : ℕ → ℕ → Sizes → Bool
is_listed w h [] = false
is_listed w h ((w', h') ∷ rest) = ((w' == w) && (h' == h)) || is_listed w h rest

-- ADD_DTD, whose arrays have 16 elements of uint16.
unfoldable pub add_dtd : ℕ → ℕ → Sizes → Sizes
add_dtd w h sizes =
    if ltb 0 w && (ltb 0 h && ltb (length sizes) 16)
    then if is_listed w h sizes then sizes else sizes ++ ((w % 2 ^ 16, h % 2 ^ 16) ∷ [])
    else sizes

-- A descriptor that is a timing.
unfoldable pub read_dtd : List ℕ → ℕ → Sizes → Option Sizes
read_dtd edid off sizes = do
  d2 ← get_elem? edid (off + 2)
  d4 ← get_elem? edid (off + 4)
  d5 ← get_elem? edid (off + 5)
  d7 ← get_elem? edid (off + 7)
  some (add_dtd (d2 + d4 / 2 ^ 4 * 2 ^ 8) (d5 + d7 / 2 ^ 4 * 2 ^ 8) sizes)

unfoldable pub pixel_clock : List ℕ → ℕ → Option ℕ
pixel_clock edid off = do
  d0 ← get_elem? edid off
  d1 ← get_elem? edid (off + 1)
  some (d0 + d1 * 2 ^ 8)

-- The loop over the descriptors of the base block, which `break`s at the end of the blob.
unfoldable pub base_block : List ℕ → List ℕ → Sizes → Option Sizes
base_block edid [] sizes = some sizes
base_block edid (off ∷ offs) sizes =
    let rest = λ (s : Sizes). base_block edid offs s in
    if ltb (length edid) (off + 8)
    then some sizes
    else pixel_clock edid off >>= λ clock.
        if clock == 0 then rest sizes else read_dtd edid off sizes >>= rest

-- The loop over the descriptors of an extension block, from `off` in steps of 18.
unfoldable pub cea_block : ℕ → List ℕ → ℕ → ℕ → Sizes → Option Sizes
cea_block zero edid ext_base off sizes = some sizes
cea_block (suc fuel) edid ext_base off sizes =
    let rest = λ (s : Sizes). cea_block fuel edid ext_base (off + 18) s in
    if leb (off + 18) (ext_base + 126)
    then (pixel_clock edid off >>= λ clock.
        if clock == 0 then some sizes else read_dtd edid off sizes >>= rest)
    else some sizes

-- The first byte of an extension is its tag, the third the offset of its timings.
unfoldable pub extension : List ℕ → ℕ → Sizes → Option Sizes
extension edid ext_base sizes = do
  tag ← get_elem? edid ext_base
  dtd_off ← get_elem? edid (ext_base + 2)
  if (tag == 2) && (leb 4 dtd_off && leb dtd_off 125)
      then cea_block 7 edid ext_base (ext_base + dtd_off) sizes
      else some sizes

-- The loop over `rounds` extensions from number `e` on.
unfoldable pub extensions : ℕ → ℕ → List ℕ → Sizes → Option Sizes
extensions zero e edid sizes = some sizes
extensions (suc rounds) e edid sizes =
    let rest = λ (s : Sizes). extensions rounds (e + 1) edid s in
    if ltb (length edid) (128 * (e + 1) + 128)
    then some sizes
    else extension edid (128 * (e + 1)) sizes >>= rest

unfoldable pub extension_blocks : List ℕ → Sizes → Option Sizes
extension_blocks edid sizes =
    if leb 128 (length edid)
    then (get_elem? edid 126 >>= λ ext_count. extensions ext_count 0 edid sizes)
    else some sizes

-- The walk over a blob of at most 1024 bytes.
unfoldable pub parse_edid : List ℕ → Option Sizes
parse_edid edid =
    base_block edid (54 ∷ 72 ∷ 90 ∷ 108 ∷ []) [] >>= λ sizes. extension_blocks edid sizes

-- `edid_native_w` and `edid_native_h`.
unfoldable pub native_size : Sizes → ℕ × ℕ
native_size [] = (0, 0)
native_size (s ∷ rest) = s
