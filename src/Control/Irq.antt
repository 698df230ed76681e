-- ===== src/Control/Irq.antt =====
-- The interrupt handler of src/chip/chip_irq.c against the stores by which chip_wait_ctrlq
-- (src/chip/chip_gpu_cmds.c) publishes and retracts the waiting task. An interrupt may come between
-- any two of the stores, and is over before the next one.
use virt_iogpu.Prelude.{
  ℕ, ◌%◌, ◌≡◌, ◌≢◌, refl, false, ◌||◌, List, [], ◌∷◌, ◌++◌, arith, ◌==◌, ==-ne, if◌then◌else◌,
  Bool-cases, inl, inr,
}

-- What the handler reads of `struct ChipGPUState`; 0 is NULL.
pub record WaitSlots : Type 0 where
  pub ctrlq_wait_task : ℕ
  pub ctrlq_wait_mask : ℕ
  pub cursorq_wait_task : ℕ
  pub cursorq_wait_mask : ℕ

-- The call of Signal for one queue.
unfoldable pub signal_if : ℕ → ℕ → List (ℕ × ℕ)
signal_if task mask = if (task == 0) || (mask == 0) then [] else (task, mask) ∷ []

-- chip_InterruptHandler: its answer, and the calls of Signal. `isr` is the register's byte.
unfoldable pub interrupt_handler : ℕ → WaitSlots → ℕ × List (ℕ × ℕ)
interrupt_handler isr s = if isr == 0 then (0, []) else (
  1,
  if isr % 2 == 1
      then signal_if s.ctrlq_wait_task s.ctrlq_wait_mask
        ++ signal_if s.cursorq_wait_task s.cursorq_wait_mask
      else [],
)

-- The four stores of chip_wait_ctrlq.
unfoldable pub publish_task : ℕ → WaitSlots → WaitSlots
publish_task task s = record s { ctrlq_wait_task = task }

unfoldable pub publish_mask : ℕ → WaitSlots → WaitSlots
publish_mask mask s = record s { ctrlq_wait_mask = mask }

unfoldable pub retract_mask : WaitSlots → WaitSlots
retract_mask s = record s { ctrlq_wait_mask = 0 }

unfoldable pub retract_task : WaitSlots → WaitSlots
retract_task s = record s { ctrlq_wait_task = 0 }

-- Where chip_wait_ctrlq stands; io_lock lets one task at a time into it.
pub data Phase : Type 0 where
  idle : Phase
  task_stored : ℕ → Phase
  waiting : ℕ → ℕ → Phase
  mask_cleared : ℕ → Phase

-- One store. A task is not NULL, and a mask is `1 << sig_bit`, so not 0.
pub data Store : Phase → WaitSlots → Phase → WaitSlots → Type 0 where
  enter :
      (task : ℕ) {s : WaitSlots} → task ≢ 0 → Store idle s (task_stored task) (publish_task task s)
  arm :
      (mask : ℕ) {task : ℕ} {s : WaitSlots}
      → mask ≢ 0
      → Store (task_stored task) s (waiting task mask) (publish_mask mask s)
  disarm :
      {task mask : ℕ} {s : WaitSlots}
      → Store (waiting task mask) s (mask_cleared task) (retract_mask s)
  leave : {task : ℕ} {s : WaitSlots} → Store (mask_cleared task) s idle (retract_task s)

-- The states after any number of stores; at the start nobody waits.
pub data Reachable : Phase → WaitSlots → Type 0 where
  start : {s : WaitSlots} → s.ctrlq_wait_task ≡ 0 → s.ctrlq_wait_mask ≡ 0 → Reachable idle s
  after : {p q : Phase} {s t : WaitSlots} → Reachable p s → Store p s q t → Reachable q t

-- What the slots hold in each phase.
abbrev Slots : Phase → WaitSlots → Type 0
Slots idle s = (s.ctrlq_wait_task ≡ 0) × (s.ctrlq_wait_mask ≡ 0)
Slots (task_stored task) s = (s.ctrlq_wait_task ≡ task) × (s.ctrlq_wait_mask ≡ 0) × (task ≢ 0)
Slots (waiting task mask) s =
    (s.ctrlq_wait_task ≡ task) × (s.ctrlq_wait_mask ≡ mask) × (task ≢ 0) × (mask ≢ 0)
Slots (mask_cleared task) s = (s.ctrlq_wait_task ≡ task) × (s.ctrlq_wait_mask ≡ 0)

Slots-Store : {p q : Phase} {s t : WaitSlots} → Store p s q t → Slots p s → Slots q t
unfolding publish_task publish_mask retract_mask retract_task
Slots-Store (enter task ne) h = (refl, h.1, ne)
Slots-Store (arm mask ne) h = (h.0, refl, h.2, ne)
Slots-Store disarm h = (h.0, refl)
Slots-Store leave h = (refl, h.1)

Slots-Reachable : {p : Phase} {s : WaitSlots} → Reachable p s → Slots p s
Slots-Reachable (start task mask) = (task, mask)
Slots-Reachable (after r store) = Slots-Store store (Slots-Reachable r)

-- The task that may be signalled for the control queue.
abbrev pub waiter : Phase → List (ℕ × ℕ)
waiter (waiting task mask) = (task, mask) ∷ []
waiter p = []

signal_if-no_mask : (task mask : ℕ) → mask ≡ 0 → signal_if task mask ≡ []
unfolding signal_if
signal_if-no_mask task mask e = ground arith

signal_if-both : (task mask : ℕ) → task ≢ 0 → mask ≢ 0 → signal_if task mask ≡ (task, mask) ∷ []
unfolding signal_if
signal_if-both task mask t m = rw (==-ne task 0 t, ==-ne mask 0 m) refl

signal_if-waiter :
    (p : Phase) (s : WaitSlots)
    → Slots p s
    → signal_if s.ctrlq_wait_task s.ctrlq_wait_mask ≡ waiter p
signal_if-waiter idle s h = signal_if-no_mask s.ctrlq_wait_task s.ctrlq_wait_mask h.1
signal_if-waiter (task_stored task) s h = signal_if-no_mask s.ctrlq_wait_task s.ctrlq_wait_mask h.1
signal_if-waiter (waiting task mask) s h = rw (h.0, h.1) (signal_if-both task mask h.2 h.3)
signal_if-waiter (mask_cleared task) s h = signal_if-no_mask s.ctrlq_wait_task s.ctrlq_wait_mask h.1

-- An interrupt between any two of the stores signals, for the control queue, exactly the task that
-- waits, with its own mask, and nobody before the mask is stored or after it is cleared. It does
-- so where the register's queue bit is set, and then it signals the cursor queue's waiter too.
pub interrupt_handler-waiter :
    (isr : ℕ) {p : Phase} {s : WaitSlots}
    → Reachable p s
    → (interrupt_handler isr s).1
      ≡ (if isr % 2 == 1 then waiter p ++ signal_if s.cursorq_wait_task s.cursorq_wait_mask else [])
unfolding interrupt_handler
interrupt_handler-waiter isr {p} {s} r =
    rw (← signal_if-waiter p s (Slots-Reachable r)) (elim (Bool-cases (isr == 0)) [
      | inl none_set ↦
          let zero_bit : (isr % 2 == 1) ≡ false = ground arith in rw (none_set, zero_bit) refl
      | inr some_set ↦ rw some_set refl
    ])
