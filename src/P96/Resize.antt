-- ===== src/P96/Resize.antt =====
-- chip_resize_fb_to_mode (src/chip/chip_init.c) and chip_alloc_resource_id
-- (include/chip/chip_state.h): a framebuffer of the new size in place of the old one. `memory` is
-- what the kernel answers.
use virt_iogpu.Prelude.{
  ℕ, zero, suc, ◌+◌, ◌*◌, ◌%◌, ◌^◌, Bool, true, false, ◌&&◌, ◌||◌, List, ◌∷◌, ◌==◌, if◌then◌else◌,
}
use virt_iogpu.Gpu.Wire.{MemEntry}
use virt_iogpu.Gpu.Command.{Command, Call}
use virt_iogpu.Gpu.Request.{Log, Host, Features, perform}

-- The framebuffer's fields of `struct ChipGPUState`, and those about resource ids. A pointer that
-- is NULL is 0.
pub record Fb : Type 0 where
  pub mem : ℕ
  pub phys : ℕ
  pub width : ℕ
  pub height : ℕ
  pub stride : ℕ
  pub size : ℕ
  pub dma_count : ℕ
  pub dma_list : ℕ
  pub resource_id : ℕ
  pub fb_resource_id : ℕ
  pub fb_resource_id2 : ℕ
  pub cursor_resource_id : ℕ
  pub next_resource_id : ℕ

abbrev pub is_reserved : Fb → ℕ → Bool
is_reserved fb id =
    ((id == fb.fb_resource_id) || (id == fb.fb_resource_id2)) || (id == fb.cursor_resource_id)

-- The first id from `next` on that is not reserved, as uint32. Three ids are reserved.
unfoldable pub free_id : ℕ → Fb → ℕ → ℕ
free_id zero fb next = next
free_id (suc rounds) fb next =
    let rest = free_id rounds fb ((next + 1) % 2 ^ 32) in if is_reserved fb next then rest else next

unfoldable pub alloc_resource_id : Fb → ℕ × Fb
alloc_resource_id fb =
    let id = free_id 3 fb fb.next_resource_id in
    (id, record fb { next_resource_id = (id + 1) % 2 ^ 32 })

-- A call of the kernel that takes or gives back something.
pub data Use : Type 0 where
  alloc_vec free_vec : ℕ → Use
  start_dma end_dma : ℕ → ℕ → Use
  new_list free_list : ℕ → Use

-- The kernel's answers: the new block's address, the DMA mapping's entries and the list's address.
pub record Memory : Type 0 where
  pub block : ℕ
  pub dma_count : ℕ
  pub dma_list : ℕ
  pub entries : ℕ → MemEntry

pub record Resize : Type 0 where
  pub fb : Fb
  pub log : Log
  pub uses : List Use

-- The kernel's calls of the label `fail_dma`, the newest first.
abbrev pub fail_dma : Memory → ℕ → List Use → List Use
fail_dma memory size uses =
    free_vec memory.block ∷ end_dma memory.block size ∷ free_list memory.dma_list ∷ uses

-- Those where the list cannot be had.
abbrev pub no_list : Memory → ℕ → List Use → List Use
no_list memory size uses =
    free_vec memory.block
    ∷ end_dma memory.block size
    ∷ start_dma memory.block size
    ∷ alloc_vec memory.block
    ∷ uses

abbrev pub memory_taken : Memory → ℕ → List Use → List Use
memory_taken memory size uses =
    new_list memory.dma_list ∷ start_dma memory.block size ∷ alloc_vec memory.block ∷ uses

-- The old framebuffer's list and memory given back.
unfoldable pub give_fb_back : Fb → List Use → List Use
give_fb_back old uses =
    let uses' = if old.dma_list == 0 then uses else free_list old.dma_list ∷ uses in
    if old.mem == 0 then uses' else free_vec old.mem ∷ end_dma old.mem old.size ∷ uses'

abbrev pub put_fb : Memory → ℕ → ℕ → ℕ → Fb → Fb
put_fb memory id w h fb = record fb {
  mem = memory.block;
  phys = (memory.entries 0).addr % 2 ^ 32;
  width = w;
  height = h;
  stride = w * 4 % 2 ^ 32;
  size = h * (w * 4 % 2 ^ 32) % 2 ^ 32;
  dma_count = memory.dma_count;
  dma_list = memory.dma_list;
  resource_id = id;
  fb_resource_id = id;
}

module _ (g : Features) (host : Host) (memory : Memory) where
  abbrev pub send_on : Call → Log → Bool × Log
  send_on c log = perform g host c (λ i. 0) log

  -- The part behind SET_SCANOUT.
  unfoldable pub replace_fb : ℕ → ℕ → ℕ → Fb → Log → List Use → Bool × Resize
  replace_fb id w h fb log uses =
      let unref = send_on (Command.unref fb.fb_resource_id) log in
      (
        true,
        record {
          fb = put_fb memory id w h fb;
          log = if fb.fb_resource_id == 0 then log else unref.1;
          uses = give_fb_back fb uses;
        },
      )

  -- The part behind GetDMAList: the resource is made, backed and shown. `size` is the block's.
  unfoldable pub make_fb : ℕ → ℕ → ℕ → Fb → Log → List Use → Bool × Resize
  make_fb size w h old log uses =
      let (id, fb) = alloc_resource_id old in
      let create = send_on (Command.new_2d id 2 w h) log in
      let attach = send_on (Command.attach id (memory.entries, memory.dma_count)) create.1 in
      let show =
        send_on (Command.scanout 0 id (record { x = 0; y = 0; width = w; height = h })) attach.1 in
      let failed : Log → Bool × Resize =
        λ l. (false, record { fb = fb; log = l; uses = fail_dma memory size uses }) in
      if create.0
      then if attach.0
        then if show.0
          then replace_fb id w h fb show.1 uses
          else failed (send_on (Command.unref id) show.1).1
        else failed (send_on (Command.unref id) attach.1).1
      else failed create.1

  unfoldable pub resize_fb_to_mode : ℕ → ℕ → Resize → Bool × Resize
  resize_fb_to_mode w h s =
      let size = h * (w * 4 % 2 ^ 32) % 2 ^ 32 in
      let block = memory.block in
      if (w == 0) || (h == 0)
      then (false, s)
      else if (w == s.fb.width) && (h == s.fb.height)
      then (true, s)
      else if block == 0
      then (false, s)
      else if memory.dma_count == 0
      then (false, record s { uses = free_vec block ∷ alloc_vec block ∷ s.uses })
      else if memory.dma_list == 0
      then (false, record s { uses = no_list memory size s.uses })
      else make_fb size w h s.fb s.log (memory_taken memory size s.uses)
