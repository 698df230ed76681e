-- ===== src/Virgl/Encode.antt =====
-- The commands of src/chip/chip_virgl.c, each as the words that it emits.
use virt_iogpu.Prelude.{
  ℕ, ◌+◌, ◌*◌, ◌/◌, ◌%◌, ◌^◌, bit_or, List, [], ◌∷◌, ◌++◌, none, some, length, get_elem?,
}
use virt_iogpu.Virgl.CmdBuf.{CmdBuf, cmd_hdr, emit_dwords, double_words, emit_loop, emit_bytes}

-- `struct VirglVertexElement` and `struct VirglVertexBuffer`
pub record VertexElement : Type 0 where
  pub src_offset : ℕ
  pub instance_divisor : ℕ
  pub vertex_buffer_index : ℕ
  pub src_format : ℕ

pub record VertexBuffer : Type 0 where
  pub stride : ℕ
  pub buffer_offset : ℕ
  pub res_handle : ℕ

unfoldable pub create_sub_ctx : ℕ → CmdBuf → CmdBuf
create_sub_ctx sub_ctx_id = emit_dwords (cmd_hdr 29 0 1 ∷ sub_ctx_id ∷ [])

unfoldable pub set_sub_ctx : ℕ → CmdBuf → CmdBuf
set_sub_ctx sub_ctx_id = emit_dwords (cmd_hdr 28 0 1 ∷ sub_ctx_id ∷ [])

unfoldable pub create_surface : ℕ → ℕ → ℕ → ℕ → ℕ → CmdBuf → CmdBuf
create_surface handle res_handle format first_element last_element =
    emit_dwords (cmd_hdr 1 8 5 ∷ handle ∷ res_handle ∷ format ∷ first_element ∷ last_element ∷ [])

-- Eight render targets, of which the first is set.
unfoldable pub create_blend : ℕ → ℕ → ℕ → CmdBuf → CmdBuf
create_blend handle s0 rt0_blend cbuf =
    emit_loop 7 1 (λ i. 0 ∷ [])
      (emit_dwords (cmd_hdr 1 1 11 ∷ handle ∷ s0 ∷ 0 ∷ rt0_blend ∷ []) cbuf)

unfoldable pub create_dsa : ℕ → ℕ → ℕ → ℕ → ℕ → CmdBuf → CmdBuf
create_dsa handle s0 s1_front s2_back alpha_ref =
    emit_dwords (cmd_hdr 1 3 5 ∷ handle ∷ s0 ∷ s1_front ∷ s2_back ∷ alpha_ref ∷ [])

unfoldable pub create_rasterizer : ℕ → ℕ → ℕ → ℕ → ℕ → ℕ → ℕ → ℕ → ℕ → CmdBuf → CmdBuf
create_rasterizer handle s0 point_size sprite_coord_enable s3 line_width offset_units offset_scale
      offset_clamp =
    emit_dwords (
      cmd_hdr 1 2 9
      ∷ handle
      ∷ s0
      ∷ point_size
      ∷ sprite_coord_enable
      ∷ s3
      ∷ line_width
      ∷ offset_units
      ∷ offset_scale
      ∷ offset_clamp
      ∷ [])

-- Byte `i` of a C string whose bytes before the NUL are `text`.
unfoldable pub char_at : List ℕ → ℕ → ℕ
char_at text i = elim (get_elem? text i) [ none ↦ 0 | some c ↦ c ]

unfoldable pub create_shader : ℕ → ℕ → List ℕ → CmdBuf → CmdBuf
create_shader handle shader_type tgsi_text cbuf =
    let text_with_nul = (length tgsi_text + 1) % 2 ^ 32 in
    let text_words = (text_with_nul + 3) % 2 ^ 32 / 4 in
    emit_bytes text_with_nul (char_at tgsi_text) 0 text_with_nul (
      emit_dwords
        (cmd_hdr 1 4 (5 + text_words) ∷ handle ∷ shader_type ∷ text_with_nul ∷ text_words ∷ 0 ∷ [])
        cbuf)

unfoldable pub element_words : VertexElement → List ℕ
element_words e = e.src_offset ∷ e.instance_divisor ∷ e.vertex_buffer_index ∷ e.src_format ∷ []

unfoldable pub create_vertex_elements : ℕ → ℕ → (ℕ → VertexElement) → CmdBuf → CmdBuf
create_vertex_elements handle num_elements elements cbuf =
    emit_loop num_elements 0 (λ i. element_words (elements i))
      (emit_dwords (cmd_hdr 1 5 ((1 + num_elements * 4) % 2 ^ 32) ∷ handle ∷ []) cbuf)

unfoldable pub bind_object : ℕ → ℕ → CmdBuf → CmdBuf
bind_object obj_type handle = emit_dwords (cmd_hdr 2 obj_type 1 ∷ handle ∷ [])

unfoldable pub bind_shader : ℕ → ℕ → CmdBuf → CmdBuf
bind_shader shader_type handle = emit_dwords (cmd_hdr 31 0 2 ∷ handle ∷ shader_type ∷ [])

unfoldable pub set_viewport : ℕ → ℕ → ℕ → ℕ → ℕ → ℕ → ℕ → CmdBuf → CmdBuf
set_viewport start_slot scale_x scale_y scale_z trans_x trans_y trans_z =
    emit_dwords
      (cmd_hdr 4 0 7 ∷ start_slot ∷ scale_x ∷ scale_y ∷ scale_z ∷ trans_x ∷ trans_y ∷ trans_z ∷ [])

unfoldable pub set_framebuffer_state : ℕ → ℕ → (ℕ → ℕ) → CmdBuf → CmdBuf
set_framebuffer_state nr_cbufs zsurf_handle surf_handles cbuf =
    emit_loop nr_cbufs 0 (λ i. surf_handles i ∷ [])
      (emit_dwords (cmd_hdr 5 0 ((2 + nr_cbufs) % 2 ^ 32) ∷ nr_cbufs ∷ zsurf_handle ∷ []) cbuf)

unfoldable pub buffer_words : VertexBuffer → List ℕ
buffer_words v = v.stride ∷ v.buffer_offset ∷ v.res_handle ∷ []

unfoldable pub set_vertex_buffers : ℕ → (ℕ → VertexBuffer) → CmdBuf → CmdBuf
set_vertex_buffers num_buffers buffers cbuf =
    emit_loop num_buffers 0 (λ i. buffer_words (buffers i))
      (emit_dwords (cmd_hdr 6 0 (num_buffers * 3 % 2 ^ 32) ∷ []) cbuf)

-- Two coordinates in one word.
unfoldable pub corner : ℕ → ℕ → ℕ
corner x y = bit_or (x % 2 ^ 16) (y * 2 ^ 16 % 2 ^ 32)

unfoldable pub set_scissor_state : ℕ → ℕ → ℕ → ℕ → ℕ → CmdBuf → CmdBuf
set_scissor_state start_slot minx miny maxx maxy =
    emit_dwords (cmd_hdr 15 0 3 ∷ start_slot ∷ corner minx miny ∷ corner maxx maxy ∷ [])

unfoldable pub clear : ℕ → ℕ → ℕ → ℕ → ℕ → ℕ → ℕ → CmdBuf → CmdBuf
clear buffers r g b a depth stencil =
    emit_dwords (cmd_hdr 7 0 8 ∷ buffers ∷ r ∷ g ∷ b ∷ a ∷ double_words depth ++ (stencil ∷ []))

unfoldable pub draw_vbo : ℕ → ℕ → ℕ → ℕ → ℕ → ℕ → ℕ → ℕ → ℕ → ℕ → ℕ → ℕ → CmdBuf → CmdBuf
draw_vbo start count mode indexed instance_count index_bias start_instance primitive_restart
      restart_index min_index max_index cso_handle =
    emit_dwords (
      cmd_hdr 8 0 12
      ∷ start
      ∷ count
      ∷ mode
      ∷ indexed
      ∷ instance_count
      ∷ index_bias
      ∷ start_instance
      ∷ primitive_restart
      ∷ restart_index
      ∷ min_index
      ∷ max_index
      ∷ cso_handle
      ∷ [])

-- The box of RESOURCE_INLINE_WRITE and where its data goes.
pub record InlineBox : Type 0 where
  pub res_handle : ℕ
  pub level : ℕ
  pub usage : ℕ
  pub stride : ℕ
  pub layer_stride : ℕ
  pub x : ℕ
  pub y : ℕ
  pub z : ℕ
  pub w : ℕ
  pub h : ℕ
  pub d : ℕ

unfoldable pub box_words : InlineBox → List ℕ
box_words b =
    b.res_handle ∷ b.level ∷ b.usage ∷ b.stride ∷ b.layer_stride ∷ b.x ∷ b.y ∷ b.z ∷ b.w ∷ b.h ∷ b.d
    ∷ []

unfoldable pub resource_inline_write : InlineBox → (ℕ → ℕ) → ℕ → CmdBuf → CmdBuf
resource_inline_write box data_bytes data_size cbuf =
    let data_words = (data_size + 3) % 2 ^ 32 / 4 in
    emit_bytes data_size data_bytes 0 data_size
      (emit_dwords (cmd_hdr 9 0 (11 + data_words) ∷ box_words box) cbuf)

-- virgl_upload_vertex_floats of src/chip/chip_virgl_2d.c
unfoldable pub upload_vertex_floats : ℕ → (ℕ → ℕ) → ℕ → CmdBuf → CmdBuf
upload_vertex_floats res_handle floats num_floats cbuf =
    emit_loop num_floats 0 (λ i. floats i ∷ [])
      (emit_dwords
        (cmd_hdr 9 0 ((11 + num_floats) % 2 ^ 32)
          ∷ box_words (record {
            res_handle = res_handle;
            level = 0;
            usage = 0;
            stride = 0;
            layer_stride = 0;
            x = 0;
            y = 0;
            z = 0;
            w = num_floats * 4 % 2 ^ 32;
            h = 1;
            d = 1;
          }))
        cbuf)

-- One side of a blit: the resource, its format and level, and two corners of a box.
pub record BlitSide : Type 0 where
  pub res : ℕ
  pub format : ℕ
  pub level : ℕ
  pub x1 : ℕ
  pub y1 : ℕ
  pub z1 : ℕ
  pub x2 : ℕ
  pub y2 : ℕ
  pub z2 : ℕ

-- VIRGL_BLIT_S1_DST_LEVEL and VIRGL_BLIT_S1_DST_FORMAT
unfoldable pub side_words : BlitSide → List ℕ
side_words s =
    bit_or (s.level % 2 ^ 8) (s.format % 2 ^ 16 * 2 ^ 8)
    ∷ s.res
    ∷ s.x1
    ∷ s.y1
    ∷ s.z1
    ∷ s.x2
    ∷ s.y2
    ∷ s.z2
    ∷ []

unfoldable pub blit : ℕ → BlitSide → BlitSide → CmdBuf → CmdBuf
blit s0_flags dst src = emit_dwords (cmd_hdr 16 0 17 ∷ s0_flags ∷ side_words dst ++ side_words src)

unfoldable pub destroy_object : ℕ → ℕ → CmdBuf → CmdBuf
destroy_object obj_type handle = emit_dwords (cmd_hdr 3 obj_type 1 ∷ handle ∷ [])

unfoldable pub create_sampler_state : ℕ → ℕ → ℕ → ℕ → ℕ → ℕ → ℕ → ℕ → ℕ → CmdBuf → CmdBuf
create_sampler_state handle s0 lod_bias min_lod max_lod border_r border_g border_b border_a =
    emit_dwords (
      cmd_hdr 1 7 9
      ∷ handle
      ∷ s0
      ∷ lod_bias
      ∷ min_lod
      ∷ max_lod
      ∷ border_r
      ∷ border_g
      ∷ border_b
      ∷ border_a
      ∷ [])

-- Four swizzles of three bits in one word.
unfoldable pub swizzle : ℕ → ℕ → ℕ → ℕ → ℕ
swizzle r g b a =
    bit_or (bit_or (bit_or (r % 2 ^ 3) (g % 2 ^ 3 * 2 ^ 3)) (b % 2 ^ 3 * 2 ^ 6)) (a % 2 ^ 3 * 2 ^ 9)

unfoldable pub create_sampler_view : ℕ → ℕ → ℕ → ℕ → ℕ → ℕ → ℕ → ℕ → ℕ → CmdBuf → CmdBuf
create_sampler_view handle res_handle format first_element last_element swizzle_r swizzle_g
      swizzle_b swizzle_a =
    emit_dwords (
      cmd_hdr 1 6 6
      ∷ handle
      ∷ res_handle
      ∷ format
      ∷ first_element
      ∷ last_element
      ∷ swizzle swizzle_r swizzle_g swizzle_b swizzle_a
      ∷ [])

unfoldable pub set_sampler_views : ℕ → ℕ → ℕ → (ℕ → ℕ) → CmdBuf → CmdBuf
set_sampler_views shader_type start_slot count view_handles cbuf =
    emit_loop count 0 (λ i. view_handles i ∷ [])
      (emit_dwords (cmd_hdr 10 0 ((2 + count) % 2 ^ 32) ∷ shader_type ∷ start_slot ∷ []) cbuf)

unfoldable pub bind_sampler_states : ℕ → ℕ → ℕ → (ℕ → ℕ) → CmdBuf → CmdBuf
bind_sampler_states shader_type start_slot count state_handles cbuf =
    emit_loop count 0 (λ i. state_handles i ∷ [])
      (emit_dwords (cmd_hdr 18 0 ((2 + count) % 2 ^ 32) ∷ shader_type ∷ start_slot ∷ []) cbuf)
