-- ===== src/Gpu/Messages.antt =====
-- What each command of src/chip/chip_gpu_cmds.c and src/chip/chip_gpu_3d.c writes into the buffer.
use virt_iogpu.Prelude.{ℕ, List, [], ◌∷◌, ◌++◌, Option, none, some, length, take}
use virt_iogpu.Virgl.Bytes.{le_words}
use virt_iogpu.Virgl.Encode.{char_at}
use virt_iogpu.Gpu.Wire.{
  gp32, gp64, ctrl_hdr, Rect, rect_words, Box, box_words, MemEntry, mem_entries, clamp_entries,
}

unfoldable pub get_display_info_msg : List ℕ
get_display_info_msg = gp32 (ctrl_hdr 0x100 0)

unfoldable pub create_2d_msg : ℕ → ℕ → ℕ → ℕ → List ℕ
create_2d_msg resource_id format width height =
    gp32 (ctrl_hdr 0x101 0 ++ (resource_id ∷ format ∷ width ∷ height ∷ []))

unfoldable pub unref_msg : ℕ → List ℕ
unref_msg resource_id = gp32 (ctrl_hdr 0x102 0 ++ (resource_id ∷ 0 ∷ []))

unfoldable pub attach_backing_msg : ℕ → (ℕ → MemEntry) → ℕ → List ℕ
attach_backing_msg resource_id dma_list dma_count =
    let n = clamp_entries 32 dma_count in
    gp32 (ctrl_hdr 0x106 0 ++ (resource_id ∷ n ∷ [])) ++ mem_entries n 0 dma_list

unfoldable pub set_scanout_msg : ℕ → ℕ → Rect → List ℕ
set_scanout_msg scanout_id resource_id r =
    gp32 (ctrl_hdr 0x103 0 ++ rect_words r ++ (scanout_id ∷ resource_id ∷ []))

unfoldable pub transfer_2d_msg : ℕ → Rect → ℕ → List ℕ
transfer_2d_msg resource_id r offset =
    gp32 (ctrl_hdr 0x105 0 ++ rect_words r) ++ gp64 offset ++ gp32 (resource_id ∷ 0 ∷ [])

unfoldable pub get_edid_msg : ℕ → List ℕ
get_edid_msg scanout = gp32 (ctrl_hdr 0x10a 0 ++ (scanout ∷ 0 ∷ []))

unfoldable pub flush_msg : ℕ → Rect → List ℕ
flush_msg resource_id r = gp32 (ctrl_hdr 0x104 0 ++ rect_words r ++ (resource_id ∷ 0 ∷ []))

-- UPDATE_CURSOR and MOVE_CURSOR, on scanout 0.
unfoldable pub cursor_msg : ℕ → ℕ → ℕ → ℕ → ℕ → ℕ → List ℕ
cursor_msg cmd_type resource_id x y hot_x hot_y =
    gp32 (ctrl_hdr cmd_type 0 ++ (0 ∷ x ∷ y ∷ 0 ∷ resource_id ∷ hot_x ∷ hot_y ∷ 0 ∷ []))

unfoldable pub get_capset_info_msg : ℕ → List ℕ
get_capset_info_msg index = gp32 (ctrl_hdr 0x108 0 ++ (index ∷ 0 ∷ []))

unfoldable pub get_capset_msg : ℕ → ℕ → List ℕ
get_capset_msg capset_id capset_version =
    gp32 (ctrl_hdr 0x109 0 ++ (capset_id ∷ capset_version ∷ []))

-- The bytes of `debug_name` that are copied, without a NUL; none for NULL.
unfoldable pub debug_name_bytes : Option (List ℕ) → List ℕ
debug_name_bytes none = []
debug_name_bytes (some name) = take 63 name

-- The name fills 16 words of four bytes.
unfoldable pub ctx_create_msg : ℕ → Option (List ℕ) → ℕ → List ℕ
ctx_create_msg ctx_id debug_name context_init =
    let name = debug_name_bytes debug_name in
    gp32 (
      ctrl_hdr 0x200 ctx_id
      ++ (length name ∷ context_init ∷ le_words 16 (char_at name) (length name) 0))

unfoldable pub ctx_destroy_msg : ℕ → List ℕ
ctx_destroy_msg ctx_id = gp32 (ctrl_hdr 0x201 ctx_id)

unfoldable pub ctx_attach_msg : ℕ → ℕ → List ℕ
ctx_attach_msg ctx_id resource_id = gp32 (ctrl_hdr 0x202 ctx_id ++ (resource_id ∷ 0 ∷ []))

unfoldable pub ctx_detach_msg : ℕ → ℕ → List ℕ
ctx_detach_msg ctx_id resource_id = gp32 (ctrl_hdr 0x203 ctx_id ++ (resource_id ∷ 0 ∷ []))

-- The arguments of chip_ResourceCreate3D behind the resource's id.
pub record Shape3D : Type 0 where
  pub target : ℕ
  pub format : ℕ
  pub bind : ℕ
  pub width : ℕ
  pub height : ℕ
  pub depth : ℕ
  pub array_size : ℕ
  pub last_level : ℕ
  pub nr_samples : ℕ
  pub flags : ℕ

abbrev pub shape_words : Shape3D → List ℕ
shape_words s =
    s.target ∷ s.format ∷ s.bind ∷ s.width ∷ s.height ∷ s.depth ∷ s.array_size ∷ s.last_level
    ∷ s.nr_samples ∷ s.flags ∷ []

unfoldable pub create_3d_msg : ℕ → Shape3D → List ℕ
create_3d_msg resource_id s =
    gp32 (ctrl_hdr 0x204 0 ++ (resource_id ∷ []) ++ shape_words s ++ (0 ∷ []))

-- The arguments of the two 3D transfers.
pub record Transfer3D : Type 0 where
  pub ctx_id : ℕ
  pub resource_id : ℕ
  pub level : ℕ
  pub stride : ℕ
  pub layer_stride : ℕ
  pub offset : ℕ
  pub region : Box

-- `type_id` is TRANSFER_TO_HOST_3D or TRANSFER_FROM_HOST_3D.
unfoldable pub transfer_3d_msg : ℕ → Transfer3D → List ℕ
transfer_3d_msg type_id t =
    gp32 (ctrl_hdr type_id t.ctx_id ++ box_words t.region)
    ++ gp64 t.offset
    ++ gp32 (t.resource_id ∷ t.level ∷ t.stride ∷ t.layer_stride ∷ [])

-- The header of SUBMIT_3D; the stream is another entry of the request.
unfoldable pub submit_3d_msg : ℕ → ℕ → List ℕ
submit_3d_msg ctx_id cmd_size = gp32 (ctrl_hdr 0x207 ctx_id ++ (cmd_size ∷ 0 ∷ []))

-- The arguments of chip_ResourceCreateBlob before the entries.
pub record Blob : Type 0 where
  pub resource_id : ℕ
  pub blob_mem : ℕ
  pub blob_flags : ℕ
  pub blob_id : ℕ
  pub size : ℕ

unfoldable pub create_blob_msg : Blob → (ℕ → MemEntry) → ℕ → List ℕ
create_blob_msg b dma_list dma_count =
    let n = clamp_entries 56 dma_count in
    gp32 (ctrl_hdr 0x10d 0 ++ (b.resource_id ∷ b.blob_mem ∷ b.blob_flags ∷ n ∷ []))
    ++ gp64 b.blob_id
    ++ gp64 b.size
    ++ mem_entries n 0 dma_list
