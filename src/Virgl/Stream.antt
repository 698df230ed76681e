-- ===== src/Virgl/Stream.antt =====
-- A stream of commands: what src/chip/chip_virgl.c emits for each, and what each means to a host.
use Prim.Native.Nat.{bit_or}
use virt_iogpu.Prelude.{ℕ, ◌+◌, ◌*◌, ◌/◌, ◌%◌, ◌^◌, ◌<◌, List, [], ◌∷◌, ◌++◌, length}
use virt_iogpu.Virgl.CmdBuf.{CmdBuf, cmd_hdr}
use virt_iogpu.Virgl.Encode.{
  VertexElement, VertexBuffer, InlineBox, BlitSide, char_at, create_sub_ctx, set_sub_ctx,
  create_surface, create_blend, create_dsa, create_rasterizer, create_shader,
  create_vertex_elements, bind_object, bind_shader, set_viewport, set_framebuffer_state,
  set_vertex_buffers, set_scissor_state, clear, draw_vbo, resource_inline_write,
  upload_vertex_floats, blit, destroy_object, create_sampler_state, create_sampler_view,
  set_sampler_views, bind_sampler_states,
}
use virt_iogpu.Virgl.Bytes.{le_words}
use virt_iogpu.Virgl.Emit.{each}

-- A call of an encoder, with its arguments.
pub data Command : Type 0 where
  new_sub_ctx use_sub_ctx : ℕ → Command
  new_surface : ℕ → ℕ → ℕ → ℕ → ℕ → Command
  new_blend : ℕ → ℕ → ℕ → Command
  new_dsa : ℕ → ℕ → ℕ → ℕ → ℕ → Command
  new_rasterizer : ℕ → ℕ → ℕ → ℕ → ℕ → ℕ → ℕ → ℕ → ℕ → Command
  new_shader : ℕ → ℕ → List ℕ → Command
  new_vertex_elements : ℕ → ℕ → (ℕ → VertexElement) → Command
  use_object use_shader drop_object : ℕ → ℕ → Command
  viewport : ℕ → ℕ → ℕ → ℕ → ℕ → ℕ → ℕ → Command
  framebuffer : ℕ → ℕ → (ℕ → ℕ) → Command
  vertex_buffers : ℕ → (ℕ → VertexBuffer) → Command
  scissor : ℕ → ℕ → ℕ → ℕ → ℕ → Command
  clear_buffers : ℕ → ℕ → ℕ → ℕ → ℕ → ℕ → ℕ → Command
  draw : ℕ → ℕ → ℕ → ℕ → ℕ → ℕ → ℕ → ℕ → ℕ → ℕ → ℕ → ℕ → Command
  inline_write : InlineBox → (ℕ → ℕ) → ℕ → Command
  vertex_floats : ℕ → (ℕ → ℕ) → ℕ → Command
  copy_box : ℕ → BlitSide → BlitSide → Command
  new_sampler_state : ℕ → ℕ → ℕ → ℕ → ℕ → ℕ → ℕ → ℕ → ℕ → Command
  new_sampler_view : ℕ → ℕ → ℕ → ℕ → ℕ → ℕ → ℕ → ℕ → ℕ → Command
  sampler_views sampler_states : ℕ → ℕ → ℕ → (ℕ → ℕ) → Command

unfoldable pub perform : Command → CmdBuf → CmdBuf
perform (new_sub_ctx i) = create_sub_ctx i
perform (use_sub_ctx i) = set_sub_ctx i
perform (new_surface a b c d e) = create_surface a b c d e
perform (new_blend a b c) = create_blend a b c
perform (new_dsa a b c d e) = create_dsa a b c d e
perform (new_rasterizer a b c d e f g h i) = create_rasterizer a b c d e f g h i
perform (new_shader a b text) = create_shader a b text
perform (new_vertex_elements a n es) = create_vertex_elements a n es
perform (use_object a b) = bind_object a b
perform (use_shader a b) = bind_shader a b
perform (drop_object a b) = destroy_object a b
perform (viewport a b c d e f g) = set_viewport a b c d e f g
perform (framebuffer n z hs) = set_framebuffer_state n z hs
perform (vertex_buffers n vs) = set_vertex_buffers n vs
perform (scissor a b c d e) = set_scissor_state a b c d e
perform (clear_buffers a b c d e f g) = clear a b c d e f g
perform (draw a b c d e f g h i j k l) = draw_vbo a b c d e f g h i j k l
perform (inline_write box data_bytes n) = resource_inline_write box data_bytes n
perform (vertex_floats a fs n) = upload_vertex_floats a fs n
perform (copy_box a dst src) = blit a dst src
perform (new_sampler_state a b c d e f g h i) = create_sampler_state a b c d e f g h i
perform (new_sampler_view a b c d e f g h i) = create_sampler_view a b c d e f g h i
perform (sampler_views a b n hs) = set_sampler_views a b n hs
perform (sampler_states a b n hs) = bind_sampler_states a b n hs

-- What the host receives for a command: VIRGL_CCMD_*, VIRGL_OBJECT_* and the payload.
pub record Packet : Type 0 where
  pub cmd : ℕ
  pub obj : ℕ
  pub payload : List ℕ

abbrev packet : ℕ → ℕ → List ℕ → Packet
packet cmd obj payload = record { cmd = cmd; obj = obj; payload = payload }

-- The parts of a payload as the host's protocol lays them out.
abbrev host_element : VertexElement → List ℕ
host_element e = e.src_offset ∷ e.instance_divisor ∷ e.vertex_buffer_index ∷ e.src_format ∷ []

abbrev host_buffer : VertexBuffer → List ℕ
host_buffer v = v.stride ∷ v.buffer_offset ∷ v.res_handle ∷ []

abbrev host_box : InlineBox → List ℕ
host_box b =
    b.res_handle ∷ b.level ∷ b.usage ∷ b.stride ∷ b.layer_stride ∷ b.x ∷ b.y ∷ b.z ∷ b.w ∷ b.h ∷ b.d
    ∷ []

abbrev host_side : BlitSide → List ℕ
host_side s =
    bit_or (s.level % 2 ^ 8) (s.format % 2 ^ 16 * 2 ^ 8)
    ∷ s.res
    ∷ s.x1
    ∷ s.y1
    ∷ s.z1
    ∷ s.x2
    ∷ s.y2
    ∷ s.z2
    ∷ []

-- A point: the row in the upper half, the column in the lower half.
abbrev host_corner : ℕ → ℕ → ℕ
host_corner x y = bit_or (x % 2 ^ 16) (y * 2 ^ 16 % 2 ^ 32)

-- Four channels of three bits, red the lowest.
abbrev host_swizzle : ℕ → ℕ → ℕ → ℕ → ℕ
host_swizzle r g b a =
    bit_or (bit_or (bit_or (r % 2 ^ 3) (g % 2 ^ 3 * 2 ^ 3)) (b % 2 ^ 3 * 2 ^ 6)) (a % 2 ^ 3 * 2 ^ 9)

unfoldable pub meaning : Command → Packet
meaning (new_sub_ctx i) = packet 29 0 (i ∷ [])
meaning (use_sub_ctx i) = packet 28 0 (i ∷ [])
meaning (new_surface a b c d e) = packet 1 8 (a ∷ b ∷ c ∷ d ∷ e ∷ [])
meaning (new_blend a b c) = packet 1 1 (a ∷ b ∷ 0 ∷ c ∷ 0 ∷ 0 ∷ 0 ∷ 0 ∷ 0 ∷ 0 ∷ 0 ∷ [])
meaning (new_dsa a b c d e) = packet 1 3 (a ∷ b ∷ c ∷ d ∷ e ∷ [])
meaning (new_rasterizer a b c d e f g h i) = packet 1 2 (a ∷ b ∷ c ∷ d ∷ e ∷ f ∷ g ∷ h ∷ i ∷ [])
meaning (new_shader a b text) =
    let n = length text + 1 in
    packet 1 4 (a ∷ b ∷ n ∷ (n + 3) / 4 ∷ 0 ∷ le_words ((n + 3) / 4) (char_at text) n 0)
meaning (new_vertex_elements a n es) = packet 1 5 (a ∷ each n 0 (λ i. host_element (es i)))
meaning (use_object a b) = packet 2 a (b ∷ [])
meaning (use_shader a b) = packet 31 0 (b ∷ a ∷ [])
meaning (drop_object a b) = packet 3 a (b ∷ [])
meaning (viewport a b c d e f g) = packet 4 0 (a ∷ b ∷ c ∷ d ∷ e ∷ f ∷ g ∷ [])
meaning (framebuffer n z hs) = packet 5 0 (n ∷ z ∷ each n 0 (λ i. hs i ∷ []))
meaning (vertex_buffers n vs) = packet 6 0 (each n 0 (λ i. host_buffer (vs i)))
meaning (scissor a b c d e) = packet 15 0 (a ∷ host_corner b c ∷ host_corner d e ∷ [])
meaning (clear_buffers a b c d e f g) =
    packet 7 0 (a ∷ b ∷ c ∷ d ∷ e ∷ f % 2 ^ 32 ∷ f / 2 ^ 32 % 2 ^ 32 ∷ g ∷ [])
meaning (draw a b c d e f g h i j k l) =
    packet 8 0 (a ∷ b ∷ c ∷ d ∷ e ∷ f ∷ g ∷ h ∷ i ∷ j ∷ k ∷ l ∷ [])
meaning (inline_write box data_bytes n) =
    packet 9 0 (host_box box ++ le_words ((n + 3) / 4) data_bytes n 0)
meaning (vertex_floats a fs n) =
    packet 9 0 (a ∷ 0 ∷ 0 ∷ 0 ∷ 0 ∷ 0 ∷ 0 ∷ 0 ∷ n * 4 ∷ 1 ∷ 1 ∷ each n 0 (λ i. fs i ∷ []))
meaning (copy_box a dst src) = packet 16 0 (a ∷ host_side dst ++ host_side src)
meaning (new_sampler_state a b c d e f g h i) = packet 1 7 (a ∷ b ∷ c ∷ d ∷ e ∷ f ∷ g ∷ h ∷ i ∷ [])
meaning (new_sampler_view a b c d e f g h i) =
    packet 1 6 (a ∷ b ∷ c ∷ d ∷ e ∷ host_swizzle f g h i ∷ [])
meaning (sampler_views a b n hs) = packet 10 0 (a ∷ b ∷ each n 0 (λ i. hs i ∷ []))
meaning (sampler_states a b n hs) = packet 18 0 (a ∷ b ∷ each n 0 (λ i. hs i ∷ []))

-- A packet as words of the stream.
unfoldable pub packet_words : Packet → List ℕ
packet_words p = cmd_hdr p.cmd p.obj (length p.payload) ∷ p.payload

-- The payload's length fits its field of 16 bits.
abbrev pub IsShort : Command → Type 0
IsShort c = length (meaning c).payload < 2 ^ 16
