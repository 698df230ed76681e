-- ===== src/Gpu/Command.antt =====
-- The control commands as a driver gives them and as a host reads them (VirtIO 1.2, 5.7.6), and the
-- host's parser. `E` is how the memory entries are given: by an array and a count, or as a list.
use Prim.Native.Nat.{min}
use virt_iogpu.Prelude.{
  ℕ, zero, suc, ◌+◌, ◌%◌, ◌^◌, List, [], ◌∷◌, Option, none, some, length, take,
}
use virt_iogpu.Virgl.Bytes.{le_words}
use virt_iogpu.Virgl.Encode.{char_at}
use virt_iogpu.Gpu.Wire.{Rect, MemEntry}
use virt_iogpu.Gpu.Messages.{
  get_display_info_msg, create_2d_msg, unref_msg, attach_backing_msg, set_scanout_msg,
  transfer_2d_msg, get_edid_msg, flush_msg, cursor_msg, get_capset_info_msg, get_capset_msg,
  ctx_create_msg, ctx_destroy_msg, ctx_attach_msg, ctx_detach_msg, Shape3D, create_3d_msg,
  Transfer3D, transfer_3d_msg, submit_3d_msg, Blob, create_blob_msg,
}

pub data Command (E N : Type 0) : Type 0 where
  display_info : Command E N
  new_2d : ℕ → ℕ → ℕ → ℕ → Command E N
  unref : ℕ → Command E N
  attach : ℕ → E → Command E N
  scanout : ℕ → ℕ → Rect → Command E N
  to_host_2d : ℕ → Rect → ℕ → Command E N
  edid : ℕ → Command E N
  flush : ℕ → Rect → Command E N
  update_cursor move_cursor : ℕ → ℕ → ℕ → ℕ → ℕ → Command E N
  capset_info : ℕ → Command E N
  capset : ℕ → ℕ → Command E N
  new_context : ℕ → N → ℕ → Command E N
  drop_context : ℕ → Command E N
  ctx_attach ctx_detach : ℕ → ℕ → Command E N
  new_3d : ℕ → Shape3D → Command E N
  to_host_3d from_host_3d : Transfer3D → Command E N
  submit : ℕ → ℕ → Command E N
  new_blob : Blob → E → Command E N

-- What the driver gives: an array with its count, a C string or NULL.
abbrev pub Call : Type 0
Call = Command ((ℕ → MemEntry) × ℕ) (Option (List ℕ))

-- What the host has: the entries, and the name's length with its 16 words.
abbrev pub HostCommand : Type 0
HostCommand = Command (List MemEntry) (ℕ × List ℕ)

unfoldable pub message : Call → List ℕ
message Command.display_info = get_display_info_msg
message (Command.new_2d i f w h) = create_2d_msg i f w h
message (Command.unref i) = unref_msg i
message (Command.attach i (es, n)) = attach_backing_msg i es n
message (Command.scanout s i r) = set_scanout_msg s i r
message (Command.to_host_2d i r o) = transfer_2d_msg i r o
message (Command.edid s) = get_edid_msg s
message (Command.flush i r) = flush_msg i r
message (Command.update_cursor i x y hx hy) = cursor_msg 0x300 i x y hx hy
message (Command.move_cursor i x y hx hy) = cursor_msg 0x301 i x y hx hy
message (Command.capset_info i) = get_capset_info_msg i
message (Command.capset i v) = get_capset_msg i v
message (Command.new_context c name init) = ctx_create_msg c name init
message (Command.drop_context c) = ctx_destroy_msg c
message (Command.ctx_attach c i) = ctx_attach_msg c i
message (Command.ctx_detach c i) = ctx_detach_msg c i
message (Command.new_3d i s) = create_3d_msg i s
message (Command.to_host_3d t) = transfer_3d_msg 0x205 t
message (Command.from_host_3d t) = transfer_3d_msg 0x206 t
message (Command.submit c n) = submit_3d_msg c n
message (Command.new_blob b (es, n)) = create_blob_msg b es n

-- The first `rounds` entries from entry `i` on.
unfoldable pub listed : ℕ → ℕ → (ℕ → MemEntry) → List MemEntry
listed zero i es = []
listed (suc rounds) i es =
    record { addr = (es i).addr % 2 ^ 32; length = (es i).length } ∷ listed rounds (i + 1) es

-- The first 63 bytes of a name, none for NULL.
abbrev pub cut_name : Option (List ℕ) → List ℕ
cut_name none = []
cut_name (some name) = take 63 name

-- What a call means: of the entries, the first 254 or 252 fit the 4096 bytes of the command buffer,
-- 16 bytes each behind 32 or 56.
unfoldable pub meaning : Call → HostCommand
meaning Command.display_info = Command.display_info
meaning (Command.new_2d i f w h) = Command.new_2d i f w h
meaning (Command.unref i) = Command.unref i
meaning (Command.attach i (es, n)) = Command.attach i (listed (min n 254) 0 es)
meaning (Command.scanout s i r) = Command.scanout s i r
meaning (Command.to_host_2d i r o) = Command.to_host_2d i r o
meaning (Command.edid s) = Command.edid s
meaning (Command.flush i r) = Command.flush i r
meaning (Command.update_cursor i x y hx hy) = Command.update_cursor i x y hx hy
meaning (Command.move_cursor i x y hx hy) = Command.move_cursor i x y hx hy
meaning (Command.capset_info i) = Command.capset_info i
meaning (Command.capset i v) = Command.capset i v
meaning (Command.new_context c name init) =
    let bytes = cut_name name in
    Command.new_context c (length bytes, le_words 16 (char_at bytes) (length bytes) 0) init
meaning (Command.drop_context c) = Command.drop_context c
meaning (Command.ctx_attach c i) = Command.ctx_attach c i
meaning (Command.ctx_detach c i) = Command.ctx_detach c i
meaning (Command.new_3d i s) = Command.new_3d i s
meaning (Command.to_host_3d t) = Command.to_host_3d t
meaning (Command.from_host_3d t) = Command.from_host_3d t
meaning (Command.submit c n) = Command.submit c n
meaning (Command.new_blob b (es, n)) = Command.new_blob b (listed (min n 252) 0 es)
