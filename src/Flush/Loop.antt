-- ===== src/Flush/Loop.antt =====
-- chip_flush_task_entry (src/chip/chip_flush.c) and the rendezvous of chip_WaitVerticalSync with it
-- (src/chip/chip_p96.c). The overlay for tests and the trace of stages are left out;
-- chip_flush_all, the recovery of the virgl context and the display's change are counted.
use virt_iogpu.Prelude.{
  ℕ, ◌+◌, ◌%◌, bit_xor, Bool, true, false, ◌&&◌, ◌||◌, not, List, [], ◌∷◌, Option, none, some, ◌==◌,
  if◌then◌else◌,
}

-- The state of the task and the fields of `struct ChipGPUState` that it uses. `waiter` is the slot
-- of a task and its mask, `signalled` the tasks that were signalled, the newest first.
pub record Loop : Type 0 where
  pub timer_pending : Bool
  pub timers_armed : ℕ
  pub timers_fired : ℕ
  pub iterations : ℕ
  pub cycle : ℕ
  pub dpms_level : ℕ
  pub vsync_phase : ℕ
  pub last_vsync : ℕ
  pub has_timer : Bool
  pub has_device_cfg : Bool
  pub waiter : Option (ℕ × ℕ)
  pub signalled : List ℕ
  pub vbi_enabled : Bool
  pub causes : ℕ
  pub ctx_error : Bool
  pub recoveries : ℕ
  pub flushes : ℕ
  pub display_changes : ℕ

-- What an iteration meets: the flag for the end before and behind the wait, the signals, the clock,
-- whether the library's handler is installed, whether a recovery succeeds, the device's events.
pub record Wake : Type 0 where
  pub quit_before : Bool
  pub ctrl_c : Bool
  pub quit_behind : Bool
  pub timer : Bool
  pub activity : Bool
  pub eclock : ℕ
  pub has_handler : Bool
  pub recovers : Bool
  pub events : ℕ

unfoldable pub arm_timer : Loop → Loop
arm_timer l = record l {
  iterations = l.iterations + 1;
  timers_armed = if l.timer_pending then l.timers_armed else l.timers_armed + 1;
  timer_pending = true;
}

unfoldable pub take_timer : Bool → Loop → Loop
take_timer was_timer l = record l {
  timers_fired = if was_timer then l.timers_fired + 1 else l.timers_fired;
  timer_pending = if was_timer then false else l.timer_pending;
}

-- `if (vt && vm) Signal(vt, vm)`
abbrev pub signal_waiter : Option (ℕ × ℕ) → List ℕ → List ℕ
signal_waiter none done = done
signal_waiter (some (task, mask)) done = if (task == 0) || (mask == 0) then done else task ∷ done

-- The waiter is taken out of its slot and signalled.
unfoldable pub wake_waiter : Loop → Loop
wake_waiter l = record l { waiter = none; signalled = signal_waiter l.waiter l.signalled }

-- The part behind the test of the power level.
unfoldable pub present : Wake → Loop → Loop
present w old =
    let l = wake_waiter (record old {
      vsync_phase = bit_xor old.vsync_phase 1;
      last_vsync = if old.has_timer then w.eclock else old.last_vsync;
    }) in
    let cycle = l.cycle + 1 in
    record l {
      causes = if l.vbi_enabled && w.has_handler then l.causes + 1 else l.causes;
      ctx_error = l.ctx_error && not w.recovers;
      recoveries = if l.ctx_error then l.recoveries + 1 else l.recoveries;
      flushes = l.flushes + 1;
      cycle = cycle;
      display_changes =
          if ((cycle % 50 == 0) && l.has_device_cfg) && (w.events % 2 == 1)
          then l.display_changes + 1
          else l.display_changes;
    }

-- One iteration, and whether the loop goes on.
unfoldable pub iterate : Wake → Loop → Bool × Loop
iterate w old =
    let l = arm_timer old in
    let woken = take_timer w.timer l in
    if w.quit_before
    then (false, old)
    else if w.ctrl_c || w.quit_behind
    then (false, l)
    else if woken.dpms_level == 0
    then (true, present w woken)
    else (true, record woken { cycle = woken.cycle + 1 })

-- The first half of chip_WaitVerticalSync: `me` publishes itself with its signal's mask.
unfoldable pub register : ℕ → ℕ → Loop → Loop
register me mask l = record l { waiter = some (me, mask) }

abbrev pub without : ℕ → Option (ℕ × ℕ) → Option (ℕ × ℕ)
without me none = none
without me (some (task, mask)) = if task == me then none else some (task, mask)

-- The second half, behind the wait.
unfoldable pub retract : ℕ → Loop → Loop
retract me l = record l { waiter = without me l.waiter }

-- A step of the flush task or of a task that waits, or a new power level.
pub data Step : Type 0 where
  tick : Wake → Step
  enter : ℕ → ℕ → Step
  leave : ℕ → Step
  power : ℕ → Step

unfoldable pub step : Step → Loop → Loop
step (tick w) l = (iterate w l).1
step (enter me mask) l = register me mask l
step (leave me) l = retract me l
step (power level) l = record l { dpms_level = level }

unfoldable pub steps : List Step → Loop → Loop
steps [] l = l
steps (s ∷ ss) l = steps ss (step s l)
