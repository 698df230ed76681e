-- ===== src/Gpu/Decode.antt =====
-- A host reads back what each command of src/chip/chip_gpu_cmds.c and src/chip/chip_gpu_3d.c means.
use Prim.Native.Nat.{min}
use virt_iogpu.Prelude.{
  ℕ, zero, suc, ◌+◌, ◌/◌, ◌%◌, ◌^◌, ◌<◌, ◌≡◌, refl, ap, List, [], ◌∷◌, ◌++◌, Option, none, some,
  arith, length, All,
}
use virt_iogpu.Word.Streams.{map_bswap_twice}
use virt_iogpu.Virgl.Bytes.{le_words}
use virt_iogpu.Virgl.Encode.{char_at}
use virt_iogpu.Gpu.Wire.{
  gp32, gp64_lem, ctrl_hdr, rect_words, box_words, MemEntry, mem_entries, clamp_entries,
}
use virt_iogpu.Gpu.Messages.{
  get_display_info_msg, create_2d_msg, unref_msg, attach_backing_msg, set_scanout_msg,
  transfer_2d_msg, get_edid_msg, flush_msg, cursor_msg, get_capset_info_msg, get_capset_msg,
  debug_name_bytes, ctx_create_msg, ctx_destroy_msg, ctx_attach_msg, ctx_detach_msg, shape_words,
  create_3d_msg, transfer_3d_msg, submit_3d_msg, create_blob_msg,
}
use virt_iogpu.Gpu.Command.{Command, Call, message, listed, cut_name, meaning}
use virt_iogpu.Gpu.Parse.{join64, parse_entries, with_entries, by_type, parse_words, parse}

abbrev pub wide : ℕ → List ℕ
wide v = v % 2 ^ 32 ∷ v / 2 ^ 32 % 2 ^ 32 ∷ []

unfoldable pub entry_words : ℕ → ℕ → (ℕ → MemEntry) → List ℕ
entry_words zero i es = []
entry_words (suc rounds) i es =
    wide ((es i).addr % 2 ^ 32) ++ ((es i).length ∷ 0 ∷ entry_words rounds (i + 1) es)

mem_entries_lem :
    (rounds i : ℕ) (es : ℕ → MemEntry) → mem_entries rounds i es ≡ gp32 (entry_words rounds i es)
unfolding mem_entries entry_words
mem_entries_lem zero i es = refl
mem_entries_lem (suc rounds) i es =
    rw (gp64_lem ((es i).addr % 2 ^ 32), mem_entries_lem rounds (i + 1) es) refl

-- The words that the host reads.
unfoldable pub words : Call → List ℕ
words Command.display_info = ctrl_hdr 0x100 0
words (Command.new_2d i f w h) = ctrl_hdr 0x101 0 ++ (i ∷ f ∷ w ∷ h ∷ [])
words (Command.unref i) = ctrl_hdr 0x102 0 ++ (i ∷ 0 ∷ [])
words (Command.attach i (es, n)) =
    ctrl_hdr 0x106 0 ++ (i ∷ clamp_entries 32 n ∷ entry_words (clamp_entries 32 n) 0 es)
words (Command.scanout s i r) = ctrl_hdr 0x103 0 ++ rect_words r ++ (s ∷ i ∷ [])
words (Command.to_host_2d i r o) = ctrl_hdr 0x105 0 ++ rect_words r ++ wide o ++ (i ∷ 0 ∷ [])
words (Command.edid s) = ctrl_hdr 0x10a 0 ++ (s ∷ 0 ∷ [])
words (Command.flush i r) = ctrl_hdr 0x104 0 ++ rect_words r ++ (i ∷ 0 ∷ [])
words (Command.update_cursor i x y hx hy) =
    ctrl_hdr 0x300 0 ++ (0 ∷ x ∷ y ∷ 0 ∷ i ∷ hx ∷ hy ∷ 0 ∷ [])
words (Command.move_cursor i x y hx hy) = ctrl_hdr 0x301 0 ++ (0 ∷ x ∷ y ∷ 0 ∷ i ∷ hx ∷ hy ∷ 0 ∷ [])
words (Command.capset_info i) = ctrl_hdr 0x108 0 ++ (i ∷ 0 ∷ [])
words (Command.capset i v) = ctrl_hdr 0x109 0 ++ (i ∷ v ∷ [])
words (Command.new_context c name init) =
    let bytes = debug_name_bytes name in
    ctrl_hdr 0x200 c ++ (length bytes ∷ init ∷ le_words 16 (char_at bytes) (length bytes) 0)
words (Command.drop_context c) = ctrl_hdr 0x201 c
words (Command.ctx_attach c i) = ctrl_hdr 0x202 c ++ (i ∷ 0 ∷ [])
words (Command.ctx_detach c i) = ctrl_hdr 0x203 c ++ (i ∷ 0 ∷ [])
words (Command.new_3d i s) = ctrl_hdr 0x204 0 ++ (i ∷ []) ++ shape_words s ++ (0 ∷ [])
words (Command.to_host_3d t) =
    ctrl_hdr 0x205 t.ctx_id
    ++ box_words t.region
    ++ wide t.offset
    ++ (t.resource_id ∷ t.level ∷ t.stride ∷ t.layer_stride ∷ [])
words (Command.from_host_3d t) =
    ctrl_hdr 0x206 t.ctx_id
    ++ box_words t.region
    ++ wide t.offset
    ++ (t.resource_id ∷ t.level ∷ t.stride ∷ t.layer_stride ∷ [])
words (Command.submit c n) = ctrl_hdr 0x207 c ++ (n ∷ 0 ∷ [])
words (Command.new_blob b (es, n)) =
    ctrl_hdr 0x10d 0
    ++ (b.resource_id ∷ b.blob_mem ∷ b.blob_flags ∷ clamp_entries 56 n ∷ [])
    ++ wide b.blob_id
    ++ wide b.size
    ++ entry_words (clamp_entries 56 n) 0 es

message-words : (c : Call) → message c ≡ gp32 (words c)
unfolding message words get_display_info_msg create_2d_msg unref_msg attach_backing_msg
    set_scanout_msg transfer_2d_msg get_edid_msg flush_msg cursor_msg get_capset_info_msg
    get_capset_msg ctx_create_msg ctx_destroy_msg ctx_attach_msg ctx_detach_msg create_3d_msg
    transfer_3d_msg submit_3d_msg create_blob_msg
message-words Command.display_info = refl
message-words (Command.new_2d i f w h) = refl
message-words (Command.unref i) = refl
message-words (Command.attach i (es, n)) = rw (mem_entries_lem (clamp_entries 32 n) 0 es) refl
message-words (Command.scanout s i r) = refl
message-words (Command.to_host_2d i r o) = rw (gp64_lem o) refl
message-words (Command.edid s) = refl
message-words (Command.flush i r) = refl
message-words (Command.update_cursor i x y hx hy) = refl
message-words (Command.move_cursor i x y hx hy) = refl
message-words (Command.capset_info i) = refl
message-words (Command.capset i v) = refl
message-words (Command.new_context c name init) = refl
message-words (Command.drop_context c) = refl
message-words (Command.ctx_attach c i) = refl
message-words (Command.ctx_detach c i) = refl
message-words (Command.new_3d i s) = refl
message-words (Command.to_host_3d t) = rw (gp64_lem t.offset) refl
message-words (Command.from_host_3d t) = rw (gp64_lem t.offset) refl
message-words (Command.submit c n) = refl
message-words (Command.new_blob b (es, n)) =
    rw (gp64_lem b.blob_id, gp64_lem b.size, mem_entries_lem (clamp_entries 56 n) 0 es) refl

join64-wide : (v : ℕ) → v < 2 ^ 64 → join64 (v % 2 ^ 32) (v / 2 ^ 32 % 2 ^ 32) ≡ v
join64-wide v h = omega arith

parse_entries-entry_words :
    (rounds i : ℕ) (es : ℕ → MemEntry)
    → parse_entries rounds (entry_words rounds i es) ≡ some (listed rounds i es)
unfolding parse_entries entry_words listed
parse_entries-entry_words zero i es = refl
parse_entries-entry_words (suc rounds) i es =
    rw
      (
        parse_entries-entry_words rounds (i + 1) es,
        join64-wide ((es i).addr % 2 ^ 32) (omega arith),
      )
      refl

clamp_entries_lem : (n : ℕ) → (clamp_entries 32 n ≡ min n 254) × (clamp_entries 56 n ≡ min n 252)
unfolding clamp_entries
clamp_entries_lem n = (ground arith, ground arith)

debug_name_bytes_lem : (name : Option (List ℕ)) → debug_name_bytes name ≡ cut_name name
unfolding debug_name_bytes
debug_name_bytes_lem none = refl
debug_name_bytes_lem (some name) = refl

-- A 64-bit argument is a uint64.
abbrev pub IsWide : Call → Type 0
IsWide (Command.to_host_2d i r o) = o < 2 ^ 64
IsWide (Command.to_host_3d t) = t.offset < 2 ^ 64
IsWide (Command.from_host_3d t) = t.offset < 2 ^ 64
IsWide (Command.new_blob b es) = (b.blob_id < 2 ^ 64) × (b.size < 2 ^ 64)
IsWide c = Unit {0}

parse_words-words : (c : Call) → IsWide c → parse_words (words c) ≡ some (meaning c)
unfolding words meaning by_type
parse_words-words Command.display_info h = refl
parse_words-words (Command.new_2d i f w hh) h = refl
parse_words-words (Command.unref i) h = refl
parse_words-words (Command.attach i (es, n)) h =
    rw ((clamp_entries_lem n).0)
      (ap (with_entries (Command.attach i)) (parse_entries-entry_words (min n 254) 0 es))
parse_words-words (Command.scanout s i r) h = refl
parse_words-words (Command.to_host_2d i r o) h =
    ap (λ v. some (Command.to_host_2d i r v)) (join64-wide o h)
parse_words-words (Command.edid s) h = refl
parse_words-words (Command.flush i r) h = refl
parse_words-words (Command.update_cursor i x y hx hy) h = refl
parse_words-words (Command.move_cursor i x y hx hy) h = refl
parse_words-words (Command.capset_info i) h = refl
parse_words-words (Command.capset i v) h = refl
parse_words-words (Command.new_context c name init) h = rw (debug_name_bytes_lem name) refl
parse_words-words (Command.drop_context c) h = refl
parse_words-words (Command.ctx_attach c i) h = refl
parse_words-words (Command.ctx_detach c i) h = refl
parse_words-words (Command.new_3d i s) h = refl
parse_words-words (Command.to_host_3d t) h =
    ap (λ v. some (Command.to_host_3d (record t { offset = v }))) (join64-wide t.offset h)
parse_words-words (Command.from_host_3d t) h =
    ap (λ v. some (Command.from_host_3d (record t { offset = v }))) (join64-wide t.offset h)
parse_words-words (Command.submit c n) h = refl
parse_words-words (Command.new_blob b (es, n)) h =
    rw (join64-wide b.blob_id h.0, join64-wide b.size h.1, (clamp_entries_lem n).1)
      (ap (with_entries (Command.new_blob b)) (parse_entries-entry_words (min n 252) 0 es))

-- A host that reads a message of the driver in the wire's byte order, by the layout of the VirtIO
-- standard, gets the command that was called, with all of its arguments; of a list of memory
-- entries it gets the first 254 for ATTACH_BACKING and the first 252 for RESOURCE_CREATE_BLOB,
-- which fit the command buffer of 4096 bytes, and of a name the first 63 bytes. Conditions: 64-bit
-- arguments are uint64, and all words of the message uint32.
pub parse-message :
    (c : Call) → IsWide c → All (λ w. w < 2 ^ 32) (words c) → parse (message c) ≡ some (meaning c)
unfolding parse
parse-message c wide h =
    rw (message-words c, map_bswap_twice (words c) h) (parse_words-words c wide)
