-- ===== src/P96/Resized.antt =====
-- What chip_resize_fb_to_mode (src/chip/chip_init.c) leaves of the memory it takes.
use virt_iogpu.Prelude.{
  ℕ, ◌+◌, ◌*◌, ◌%◌, ◌^◌, ◌≡◌, ◌≢◌, refl, sym, subst, Bool, false, ◌&&◌, ◌||◌, List, [], ◌∷◌, ◌==◌,
  if◌then◌else◌, arith, if-elim, ne_of_==,
}
use virt_iogpu.Gpu.Command.{Command}
use virt_iogpu.Gpu.Request.{Log, Host, Features}
use virt_iogpu.P96.Resize.{
  Fb, alloc_resource_id, Use, Memory, Resize, fail_dma, no_list, memory_taken, give_fb_back, put_fb,
  send_on, replace_fb, make_fb, resize_fb_to_mode,
}

abbrev pub unit : Bool → ℕ
unit b = if b then 1 else 0

-- The uses that a test accepts.
abbrev pub tally : (Use → Bool) → List Use → ℕ
tally p [] = 0
tally p (u ∷ us) = unit (p u) + tally p us

-- What takes a thing, and what gives the same thing back: a block, a mapping, a list.
pub data Thing : Type 0 where
  block : ℕ → Thing
  mapping : ℕ → ℕ → Thing
  list : ℕ → Thing

abbrev pub takes : Thing → Use → Bool
takes (Thing.block a) (Use.alloc_vec b) = a == b
takes (Thing.mapping a s) (Use.start_dma b t) = (a == b) && (s == t)
takes (Thing.list l) (Use.new_list m) = l == m
takes x u = false

abbrev pub gives : Thing → Use → Bool
gives (Thing.block a) (Use.free_vec b) = a == b
gives (Thing.mapping a s) (Use.end_dma b t) = (a == b) && (s == t)
gives (Thing.list l) (Use.free_list m) = l == m
gives x u = false

-- How often the framebuffer has the thing: its memory, the memory's mapping, its list.
abbrev pub owned : Thing → Fb → ℕ
owned (Thing.block a) fb = if fb.mem == 0 then 0 else unit (a == fb.mem)
owned (Thing.mapping a s) fb = if fb.mem == 0 then 0 else unit ((a == fb.mem) && (s == fb.size))
owned (Thing.list l) fb = if fb.dma_list == 0 then 0 else unit (l == fb.dma_list)

-- Of each thing, as many were taken as were given back, are the framebuffer's or belong
-- to `others`.
abbrev pub Balanced : (Thing → ℕ) → Resize → Type 0
Balanced others s =
    (x : Thing) → tally (takes x) s.uses ≡ tally (gives x) s.uses + owned x s.fb + others x

abbrev KeptBalance : (Thing → ℕ) → Bool × Resize → Type 0
KeptBalance others r = Balanced others r.1

module _ (memory : Memory) (size : ℕ) (fb : Fb) (uses : List Use) (rest : ℕ) where
  pub no_dma-even :
      (x : Thing)
      → tally (takes x) uses ≡ tally (gives x) uses + owned x fb + rest
      → tally (takes x) (Use.free_vec memory.block ∷ Use.alloc_vec memory.block ∷ uses)
        ≡ tally (gives x) (Use.free_vec memory.block ∷ Use.alloc_vec memory.block ∷ uses)
          + owned x fb
          + rest
  no_dma-even (Thing.block a) h = omega (arith, h)
  no_dma-even (Thing.mapping a s) h = omega (arith, h)
  no_dma-even (Thing.list l) h = omega (arith, h)

  pub no_list-even :
      (x : Thing)
      → tally (takes x) uses ≡ tally (gives x) uses + owned x fb + rest
      → tally (takes x) (no_list memory size uses)
        ≡ tally (gives x) (no_list memory size uses) + owned x fb + rest
  no_list-even (Thing.block a) h = omega (arith, h)
  no_list-even (Thing.mapping a s) h = omega (arith, h)
  no_list-even (Thing.list l) h = omega (arith, h)

  -- What is taken and given back on a failure has no part in the balance.
  pub fail_dma-even :
      (x : Thing)
      → tally (takes x) uses ≡ tally (gives x) uses + owned x fb + rest
      → tally (takes x) (fail_dma memory size (memory_taken memory size uses))
        ≡ tally (gives x) (fail_dma memory size (memory_taken memory size uses)) + owned x fb + rest
  fail_dma-even (Thing.block a) h = omega (arith, h)
  fail_dma-even (Thing.mapping a s) h = omega (arith, h)
  fail_dma-even (Thing.list l) h = omega (arith, h)

  -- The new framebuffer has what was taken, the old one's things are given back.
  give_fb_back-even :
      (id w h : ℕ) (x : Thing)
      → memory.block ≢ 0
      → memory.dma_list ≢ 0
      → size ≡ h * (w * 4 % 2 ^ 32) % 2 ^ 32
      → tally (takes x) uses ≡ tally (gives x) uses + owned x fb + rest
      → tally (takes x) (give_fb_back fb (memory_taken memory size uses))
        ≡ tally (gives x) (give_fb_back fb (memory_taken memory size uses))
          + owned x (put_fb memory id w h fb)
          + rest
  unfolding give_fb_back
  give_fb_back-even id w h (Thing.block a) m l e b = ground (arith, m, l, e, b)
  give_fb_back-even id w h (Thing.mapping a s) m l e b = rw (← e) (ground (arith, m, l, e, b))
  give_fb_back-even id w h (Thing.list a) m l e b = ground (arith, m, l, e, b)

owned-alloc_resource_id : (x : Thing) (fb : Fb) → owned x (alloc_resource_id fb).1 ≡ owned x fb
unfolding alloc_resource_id
owned-alloc_resource_id (Thing.block a) fb = refl
owned-alloc_resource_id (Thing.mapping a s) fb = refl
owned-alloc_resource_id (Thing.list l) fb = refl

module _ (g : Features) (host : Host) (memory : Memory) (others : Thing → ℕ) where
  make_fb-Balanced :
      (size w h : ℕ) (s : Resize)
      → memory.block ≢ 0
      → memory.dma_list ≢ 0
      → size ≡ h * (w * 4 % 2 ^ 32) % 2 ^ 32
      → Balanced others s
      → Balanced others
          (make_fb g host memory size w h s.fb s.log (memory_taken memory size s.uses)).1
  unfolding make_fb replace_fb alloc_resource_id
  make_fb-Balanced size w h s m l e b =
      let fb = (alloc_resource_id s.fb).1 in
      let id = (alloc_resource_id s.fb).0 in
      let b' : (x : Thing)
          → tally (takes x) s.uses ≡ tally (gives x) s.uses + owned x fb + others x =
        λ x.
          subst (λ (o : ℕ). tally (takes x) s.uses ≡ tally (gives x) s.uses + o + others x)
            (sym (owned-alloc_resource_id x s.fb)) (b x) in
      let failed : (log' : Log)
          → Balanced others (record {
            fb = fb;
            log = log';
            uses = fail_dma memory size (memory_taken memory size s.uses);
          }) =
        λ log' x. fail_dma-even memory size fb s.uses (others x) x (b' x) in
      let create = send_on g host memory (Command.new_2d id 2 w h) s.log in
      let attach =
        send_on g host memory (Command.attach id (memory.entries, memory.dma_count)) create.1 in
      let show =
        send_on g host memory
          (Command.scanout 0 id (record { x = 0; y = 0; width = w; height = h })) attach.1 in
      if-elim (KeptBalance others) create.0 _ _
        (λ e1.
          if-elim (KeptBalance others) attach.0 _ _
            (λ e2.
              if-elim (KeptBalance others) show.0 _ _
                (λ e3 x. give_fb_back-even memory size fb s.uses (others x) id w h x m l e (b' x))
                (λ e3. failed s.log))
            (λ e2. failed s.log))
        (λ e1. failed s.log)

  -- chip_resize_fb_to_mode loses no memory and gives nothing back twice, whatever fails: if of each
  -- block, DMA mapping and DMA list as many were taken as were given back, are the framebuffer's or
  -- belong to others, that is so afterwards.
  pub resize_fb_to_mode-Balanced :
      (w h : ℕ) (s : Resize)
      → Balanced others s
      → Balanced others (resize_fb_to_mode g host memory w h s).1
  unfolding resize_fb_to_mode
  resize_fb_to_mode-Balanced w h s b =
      if-elim (KeptBalance others) ((w == 0) || (h == 0)) _ _ (λ e. b)
        (λ e0.
          if-elim (KeptBalance others) ((w == s.fb.width) && (h == s.fb.height)) _ _ (λ e. b)
            (λ e1.
              if-elim (KeptBalance others) (memory.block == 0) _ _ (λ e. b)
                (λ e2.
                  if-elim (KeptBalance others) (memory.dma_count == 0) _ _
                    (λ e x. no_dma-even memory 0 s.fb s.uses (others x) x (b x))
                    (λ e3.
                      if-elim (KeptBalance others) (memory.dma_list == 0) _ _
                        (λ e x.
                          no_list-even memory (h * (w * 4 % 2 ^ 32) % 2 ^ 32) s.fb s.uses (others x)
                            x (b x))
                        (λ e4.
                          make_fb-Balanced (h * (w * 4 % 2 ^ 32) % 2 ^ 32) w h s (ne_of_== _ _ e2)
                            (ne_of_== _ _ e4) refl b)))))
