-- ===== src/Virgl/Perform.antt =====
-- Each encoder of src/chip/chip_virgl.c emits the packet of its command, well-framed.
use virt_iogpu.Prelude.{
  ℕ, suc, ◌+◌, ◌*◌, ◌/◌, ◌%◌, ◌^◌, ◌<◌, ◌≡◌, refl, sym, ◌∙◌, subst, List, [], ◌∷◌, ◌++◌, arith,
  length,
}
use virt_iogpu.Virgl.CmdBuf.{CmdBuf, cmd_hdr, emit_dwords, double_words, emit_loop, emit_bytes}
use virt_iogpu.Virgl.Encode.{
  corner, swizzle, element_words, buffer_words, box_words, side_words, create_sub_ctx, char_at,
  set_sub_ctx, create_surface, create_blend, create_dsa, create_rasterizer, create_shader,
  create_vertex_elements, bind_object, bind_shader, set_viewport, set_framebuffer_state,
  set_vertex_buffers, set_scissor_state, clear, draw_vbo, resource_inline_write,
  upload_vertex_floats, blit, destroy_object, create_sampler_state, create_sampler_view,
  set_sampler_views, bind_sampler_states,
}
use virt_iogpu.Virgl.Bytes.{le_words, length-le_words, emit_bytes_lem}
use virt_iogpu.Virgl.Emit.{emit_dwords-append, each, emit_loop_lem, length-each}
use virt_iogpu.Virgl.Stream.{Command, perform, meaning, packet_words, IsShort}

-- Emits, then a loop of emits.
then_loop :
    (front : List ℕ) (n : ℕ) (vals : ℕ → List ℕ) (cbuf : CmdBuf)
    → emit_loop n 0 vals (emit_dwords front cbuf) ≡ emit_dwords (front ++ each n 0 vals) cbuf
then_loop front n vals cbuf =
    emit_loop_lem n 0 vals (emit_dwords front cbuf)
    ∙ sym (emit_dwords-append front (each n 0 vals) cbuf)

-- Emits, then a loop over bytes.
then_bytes :
    (front : List ℕ) (src : ℕ → ℕ) (n : ℕ) (cbuf : CmdBuf)
    → n + 4 < 2 ^ 32
    → emit_bytes n src 0 n (emit_dwords front cbuf)
      ≡ emit_dwords (front ++ le_words ((n + 3) / 4) src n 0) cbuf
then_bytes front src n cbuf small =
    subst
      (λ m.
        emit_bytes n src 0 n (emit_dwords front cbuf)
        ≡ emit_dwords (le_words ((m + 3) / 4) src n 0) (emit_dwords front cbuf))
      (omega arith) (emit_bytes_lem n src 0 n (emit_dwords front cbuf) (omega arith) small)
    ∙ sym (emit_dwords-append front (le_words ((n + 3) / 4) src n 0) cbuf)

five : (m : ℕ) → 5 + m ≡ suc (suc (suc (suc (suc m))))
five m = omega arith

eleven : (m : ℕ) → 11 + m ≡ suc (suc (suc (suc (suc (suc (5 + m))))))
eleven m = omega arith

module _ (cbuf : CmdBuf) where
  vertex_elements_lem :
      (handle n : ℕ) (es : _)
      → IsShort (Command.new_vertex_elements handle n es)
      → create_vertex_elements handle n es cbuf
        ≡ emit_dwords (packet_words (meaning (Command.new_vertex_elements handle n es))) cbuf
  unfolding create_vertex_elements meaning packet_words element_words
  vertex_elements_lem handle n es h =
      let count = length-each 4 n 0 (λ i. element_words (es i)) (λ j. refl) in
      let whole : (1 + n * 4) % 2 ^ 32 ≡ suc (n * 4) = omega (arith, count) in
      rw (count, whole) (then_loop (_ ∷ handle ∷ []) n (λ i. element_words (es i)) cbuf)

  vertex_buffers_lem :
      (n : ℕ) (vs : _)
      → IsShort (Command.vertex_buffers n vs)
      → set_vertex_buffers n vs cbuf
        ≡ emit_dwords (packet_words (meaning (Command.vertex_buffers n vs))) cbuf
  unfolding set_vertex_buffers meaning packet_words buffer_words
  vertex_buffers_lem n vs h =
      let count = length-each 3 n 0 (λ i. buffer_words (vs i)) (λ j. refl) in
      let whole : n * 3 % 2 ^ 32 ≡ n * 3 = omega (arith, count) in
      rw (count, whole) (then_loop (_ ∷ []) n (λ i. buffer_words (vs i)) cbuf)

  -- The commands with two words before an array of `n`.
  array_lem :
      (cmd a b n : ℕ) (vals : ℕ → ℕ)
      → suc (suc (length (each n 0 (λ i. vals i ∷ [])))) < 2 ^ 16
      → emit_loop n 0
          (λ i. vals i ∷ [])
          (emit_dwords (cmd_hdr cmd 0 ((2 + n) % 2 ^ 32) ∷ a ∷ b ∷ []) cbuf)
        ≡ emit_dwords
            (cmd_hdr cmd 0 (suc (suc (length (each n 0 (λ i. vals i ∷ [])))))
              ∷ a
              ∷ b
              ∷ each n 0 (λ i. vals i ∷ []))
            cbuf
  array_lem cmd a b n vals h =
      let count = length-each 1 n 0 (λ i. vals i ∷ []) (λ j. refl) in
      let whole : (2 + n) % 2 ^ 32 ≡ suc (suc (n * 1)) = omega (arith, count) in
      rw (count, whole) (then_loop (_ ∷ a ∷ b ∷ []) n (λ i. vals i ∷ []) cbuf)

  vertex_floats_lem :
      (res n : ℕ) (fs : ℕ → ℕ)
      → IsShort (Command.vertex_floats res fs n)
      → upload_vertex_floats res fs n cbuf
        ≡ emit_dwords (packet_words (meaning (Command.vertex_floats res fs n))) cbuf
  unfolding upload_vertex_floats meaning packet_words box_words
  vertex_floats_lem res n fs h =
      let count = length-each 1 n 0 (λ i. fs i ∷ []) (λ j. refl) in
      let whole : (11 + n) % 2 ^ 32 ≡ 11 + n * 1 = omega (arith, count) in
      let bytes : n * 4 % 2 ^ 32 ≡ n * 4 = omega (arith, count) in
      rw (count, whole, bytes, eleven (n * 1), five (n * 1)) (then_loop _ n (λ i. fs i ∷ []) cbuf)

  shader_lem :
      (handle type_id : ℕ) (text : List ℕ)
      → IsShort (Command.new_shader handle type_id text)
      → create_shader handle type_id text cbuf
        ≡ emit_dwords (packet_words (meaning (Command.new_shader handle type_id text))) cbuf
  unfolding create_shader meaning packet_words
  shader_lem handle type_id text h =
      let n = length text + 1 in
      let count = length-le_words ((n + 3) / 4) (char_at text) n 0 in
      let nul : (length text + 1) % 2 ^ 32 ≡ n = omega (arith, count) in
      let up : (n + 3) % 2 ^ 32 ≡ n + 3 = omega (arith, count) in
      rw (nul, up, count, five ((n + 3) / 4))
        (then_bytes _ (char_at text) n cbuf (omega (arith, count)))

  inline_write_lem :
      (box : _) (src : ℕ → ℕ) (n : ℕ)
      → IsShort (Command.inline_write box src n)
      → resource_inline_write box src n cbuf
        ≡ emit_dwords (packet_words (meaning (Command.inline_write box src n))) cbuf
  unfolding resource_inline_write meaning packet_words box_words
  inline_write_lem box src n h =
      let count = length-le_words ((n + 3) / 4) src n 0 in
      let up : (n + 3) % 2 ^ 32 ≡ n + 3 = omega (arith, count) in
      rw (up, count, eleven ((n + 3) / 4), five ((n + 3) / 4))
        (then_bytes _ src n cbuf (omega (arith, count)))

  -- What an encoder emits is its command's packet: the header, whose length field counts the words
  -- behind it, and the payload. Condition: the payload's length fits 16 bits.
  pub perform-meaning :
      (c : Command) → IsShort c → perform c cbuf ≡ emit_dwords (packet_words (meaning c)) cbuf
  unfolding perform meaning packet_words corner swizzle create_sub_ctx set_sub_ctx create_surface
      create_blend create_dsa create_rasterizer bind_object bind_shader set_viewport
      set_framebuffer_state set_scissor_state clear double_words draw_vbo blit side_words
      destroy_object create_sampler_state create_sampler_view set_sampler_views bind_sampler_states
      emit_loop emit_dwords
  perform-meaning (Command.new_sub_ctx i) h = refl
  perform-meaning (Command.use_sub_ctx i) h = refl
  perform-meaning (Command.new_surface a b c d e) h = refl
  perform-meaning (Command.new_blend a b c) h = refl
  perform-meaning (Command.new_dsa a b c d e) h = refl
  perform-meaning (Command.new_rasterizer a b c d e f g i j) h = refl
  perform-meaning (Command.new_shader a b text) h = shader_lem a b text h
  perform-meaning (Command.new_vertex_elements a n es) h = vertex_elements_lem a n es h
  perform-meaning (Command.use_object a b) h = refl
  perform-meaning (Command.use_shader a b) h = refl
  perform-meaning (Command.drop_object a b) h = refl
  perform-meaning (Command.viewport a b c d e f g) h = refl
  perform-meaning (Command.framebuffer n z hs) h = array_lem 5 n z n hs h
  perform-meaning (Command.vertex_buffers n vs) h = vertex_buffers_lem n vs h
  perform-meaning (Command.scissor a b c d e) h = refl
  perform-meaning (Command.clear_buffers a b c d e f g) h = refl
  perform-meaning (Command.draw a b c d e f g i j k l m) h = refl
  perform-meaning (Command.inline_write box src n) h = inline_write_lem box src n h
  perform-meaning (Command.vertex_floats a fs n) h = vertex_floats_lem a n fs h
  perform-meaning (Command.copy_box a dst src) h = refl
  perform-meaning (Command.new_sampler_state a b c d e f g i j) h = refl
  perform-meaning (Command.new_sampler_view a b c d e f g i j) h = refl
  perform-meaning (Command.sampler_views a b n hs) h = array_lem 10 a b n hs h
  perform-meaning (Command.sampler_states a b n hs) h = array_lem 18 a b n hs h
