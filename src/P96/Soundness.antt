-- ===== src/P96/Soundness.antt =====
-- What every order of calls keeps of the driver's state (src/chip/chip_p96.c, src/chip/chip_init.c,
-- src/chip/chip_gpu_cmds.c), and that chip_CursorCreate keeps it.
use virt_iogpu.Prelude.{
  ℕ, ◌+◌, ◌≡◌, ◌≢◌, ◌⊎◌, inl, inr, refl, ◌∙◌, ap, Bool, true, false, ◌&&◌, not, List, ◌∷◌, ◌==◌,
  if◌then◌else◌, arith, if-elim, ne_of_==,
}
use virt_iogpu.Gpu.Command.{Command}
use virt_iogpu.Gpu.Request.{Log, Host, Features}
use virt_iogpu.P96.Clock.{IsInterval}
use virt_iogpu.P96.Resize.{Fb, Use, Memory, Resize, no_list, memory_taken}
use virt_iogpu.P96.Fitted.{IsFilled}
use virt_iogpu.P96.Resized.{
  Thing, tally, takes, gives, owned, unit, Balanced, no_dma-even, no_list-even, fail_dma-even,
}
use virt_iogpu.P96.State.{Cursor, Chip}
use virt_iogpu.P96.Cursor.{
  cursor_size, cursor_create, make_cursor, failed_with, lost_cursor, no_stream,
}

-- What the cursor's buffer is, by its address.
abbrev pub held : Thing → ℕ → ℕ
held (Thing.block a) m = if m == 0 then 0 else unit (a == m)
held (Thing.mapping a s) m = if m == 0 then 0 else unit ((a == m) && (s == cursor_size))
held (Thing.list l) m = 0

abbrev pub with_cursor : (Thing → ℕ) → Cursor → Thing → ℕ
with_cursor others cur x = held x cur.memory + others x

-- The rows fill the framebuffer, the interval is that of 30 to 240 pictures a second, no memory is
-- lost, and the cursor has a buffer only while it is made.
pub record Sound (others : Thing → ℕ) (c : Chip) : Type 0 where
  pub filled : IsFilled c.resize.fb
  pub interval : IsInterval c.active.refresh_us
  pub balanced : Balanced (with_cursor others c.cursor) c.resize
  pub made : (c.cursor.created ≡ true) ⊎ (c.cursor.memory ≡ 0)

held-zero : (x : Thing) → held x 0 ≡ 0
held-zero (Thing.block a) = refl
held-zero (Thing.mapping a s) = refl
held-zero (Thing.list l) = refl

module _ (kernel : Memory) (fb : Fb) (uses : List Use) (rest : ℕ) where
  cursor-even :
      (x : Thing)
      → kernel.block ≢ 0
      → tally (takes x) uses ≡ tally (gives x) uses + owned x fb + rest
      → tally (takes x) (Use.free_list kernel.dma_list ∷ memory_taken kernel cursor_size uses)
        ≡ tally (gives x) (Use.free_list kernel.dma_list ∷ memory_taken kernel cursor_size uses)
          + owned x fb
          + (held x kernel.block + rest)
  cursor-even (Thing.block a) m b = ground (arith, m, b)
  cursor-even (Thing.mapping a s) m b = ground (arith, m, b)
  cursor-even (Thing.list l) m b = omega (arith, b)

module _ (others : Thing → ℕ) where
  -- Without a buffer the cursor has no part in the balance.
  to_bare : (m : ℕ) (r : Resize) → m ≡ 0 → Balanced (λ x. held x m + others x) r → Balanced others r
  to_bare m r e b x = omega (arith, b x, ap (held x) e ∙ held-zero x)

  from_bare :
      (m : ℕ) (r : Resize) → m ≡ 0 → Balanced others r → Balanced (λ x. held x m + others x) r
  from_bare m r e b x = omega (arith, b x, ap (held x) e ∙ held-zero x)

module _ (others : Thing → ℕ) (g : Features) (host : Host) (kernel : Memory) where
  abbrev KeptSound : Bool × Chip → Type 0
  KeptSound r = Sound others r.1

  make_cursor-Sound :
      (c : Chip)
      → Sound others c
      → Balanced others c.resize
      → kernel.block ≢ 0
      → Sound others (make_cursor g host kernel c).1
  unfolding make_cursor
  make_cursor-Sound c s b m =
      let create = no_stream g host kernel (Command.new_2d 2 1 64 64) c.resize.log in
      let attach = no_stream g host kernel (Command.attach 2 (kernel.entries, 1)) create.1 in
      let uses = memory_taken kernel cursor_size c.resize.uses in
      let failed : (log : Log) → Sound others (lost_cursor g host kernel log c) = λ log. record {
        filled = s.filled;
        interval = s.interval;
        balanced =
            from_bare others 0 (lost_cursor g host kernel log c).resize refl
              (λ x. fail_dma-even kernel cursor_size c.resize.fb c.resize.uses (others x) x (b x));
        made = inr refl;
      } in
      if-elim KeptSound create.0 _ _
        (λ e1.
          if-elim KeptSound attach.0 _ _
            (λ e2. record {
              filled = s.filled;
              interval = s.interval;
              balanced = λ x. cursor-even kernel c.resize.fb c.resize.uses (others x) x m (b x);
              made = inl refl;
            })
            (λ e2. failed attach.1))
        (λ e1. failed create.1)

  failed_with-Sound :
      (uses : List Use) (c : Chip)
      → Sound others c
      → Balanced others (record c.resize { uses = uses })
      → Sound others (failed_with g host kernel uses c).1
  failed_with-Sound uses c s b = record {
    filled = s.filled;
    interval = s.interval;
    balanced = from_bare others 0 (record c.resize { uses = uses }) refl b;
    made = inr refl;
  }

  uncreated : (c : Chip) → Sound others c → c.cursor.created ≡ false → Balanced others c.resize
  uncreated c s e = elim s.made [
    | inl t ↦ absurd (ground (arith, e, t))
    | inr z ↦ to_bare others c.cursor.memory c.resize z s.balanced
  ]

  pub cursor_create-Sound :
      (c : Chip) → Sound others c → Sound others (cursor_create g host kernel c).1
  unfolding cursor_create
  cursor_create-Sound c s =
      if-elim KeptSound c.cursor.created _ _ (λ e. s)
        (λ e.
          let b = uncreated c s e in
          if-elim KeptSound (not c.cursor.has_queue) _ _ (λ e0. s)
            (λ e0.
              if-elim KeptSound (kernel.block == 0) _ _
                (λ e1. failed_with-Sound c.resize.uses c s b)
                (λ e1.
                  if-elim KeptSound (kernel.dma_count == 0) _ _
                    (λ e2.
                      failed_with-Sound
                        (Use.free_vec kernel.block ∷ Use.alloc_vec kernel.block ∷ c.resize.uses) c s
                        (λ x. no_dma-even kernel 0 c.resize.fb c.resize.uses (others x) x (b x)))
                    (λ e2.
                      if-elim KeptSound (kernel.dma_list == 0) _ _
                        (λ e3.
                          failed_with-Sound (no_list kernel cursor_size c.resize.uses) c s (λ x.
                            no_list-even kernel cursor_size c.resize.fb c.resize.uses (others x) x
                              (b x)))
                        (λ e3. make_cursor-Sound c s b (ne_of_== _ _ e1))))))
