-- ===== src/Control/Tests.antt =====
-- Runs of src/chip/chip_gpu_cmds.c and src/chip/chip_irq.c.
use virt_iogpu.Prelude.{ℕ, ◌≡◌, refl, true, [], ◌∷◌, arith, ◌==◌, if◌then◌else◌}
use virt_iogpu.Word.{vr16, vr32}
use virt_iogpu.Virtqueue.State.{Virtqueue}
use virt_iogpu.Virtqueue.Sample.{busy, request, busy-Inv, busy-Tables}
use virt_iogpu.Control.Irq.{
  WaitSlots, publish_task, publish_mask, signal_if, interrupt_handler, Phase, Reachable, Store,
  interrupt_handler-waiter,
}
use virt_iogpu.Control.Wait.{wait_attempts, wait_ctrlq}
use virt_iogpu.Control.Answered.{Answer, wait_ctrlq-Answer}

-- The request before the device has finished it, which it does before the third attempt.
abbrev pending : Virtqueue
pending = record busy { used_idx = 0 }

abbrev device : ℕ → Virtqueue → Virtqueue
device n vq = if n == 2 then record vq { used_idx = 1 } else vq

wait_ctrlq-Answer_example :
    Answer busy (2 ∷ 3 ∷ []) [] request [] (wait_ctrlq device true 77 pending)
unfolding vr16 vr32 wait_attempts
wait_ctrlq-Answer_example =
    wait_ctrlq-Answer device true 2 pending (2 ∷ 3 ∷ []) [] request [] busy (omega arith)
      (omega arith) refl (λ j h. ground arith) refl busy-Inv busy-Tables (omega arith) refl

abbrev quiet : WaitSlots
quiet = record {
  ctrlq_wait_task = 0;
  ctrlq_wait_mask = 0;
  cursorq_wait_task = 8;
  cursorq_wait_mask = 0;
}

abbrev armed : WaitSlots
armed = record quiet { ctrlq_wait_task = 9; ctrlq_wait_mask = 4 }

armed-Reachable : Reachable (Phase.waiting 9 4) armed
unfolding publish_task publish_mask
armed-Reachable =
    Reachable.after
      (Reachable.after (Reachable.start {s = quiet} refl refl) (Store.enter 9 (omega arith)))
      (Store.arm 4 (omega arith))

-- The queue bit and the configuration bit are set.
interrupt_handler-waiter_example : (interrupt_handler 3 armed).1 ≡ (9, 4) ∷ []
unfolding signal_if
interrupt_handler-waiter_example = interrupt_handler-waiter 3 armed-Reachable
