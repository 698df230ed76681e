-- ===== src/P96/Tasks.antt =====
-- How often the flush task is created and the function table is cut (src/chip/chip_p96.c).
use virt_iogpu.Prelude.{
  ℕ, ◌+◌, ◌≡◌, ◌⊎◌, inl, inr, refl, ap, ◌∙◌, Bool, true, false, ◌&&◌, not, List, [], ◌∷◌,
  if◌then◌else◌, if-elim, arith,
}
use virt_iogpu.P96.Vtable.{Vtable, without_drawing}
use virt_iogpu.P96.Switch.{
  Switch, SwitchAnswers, open_dos, with_task, apply_null_vtable_overrides, start_process, when,
  check_vtable, woken, dipf_counted, dumped, prepared, set_switch, set_display, SwitchCall, switch,
  display, switch_all,
}

-- No flush task or one, as `flush_running` says; the table is the one of the start and has not
-- been cut, or the variable has been looked for and the table was cut, once, to the one without
-- drawing.
pub record Started (v : Vtable) (s : Switch) : Type 0 where
  pub running : s.tasks ≡ (if s.flush_running then 1 else 0)
  pub table :
      ((s.vtable ≡ v) × (s.cuts ≡ 0))
      ⊎ ((s.null_vtable_checked ≡ true) × (s.vtable ≡ without_drawing v) × (s.cuts ≡ 1))

module _ (v : Vtable) where
  with_task-Started :
      (created : Bool) (s : Switch)
      → s.flush_running ≡ false
      → Started v s
      → Started v (with_task created s)
  with_task-Started created s e h = record {
    running = ground (arith, e, h.running);
    table = h.table;
  }

  when-Started :
      (b : Bool) (f : Switch → Switch) (s : Switch)
      → (b ≡ true → Started v (f s))
      → Started v s
      → Started v (when b f s)
  when-Started b f s g h = if-elim (Started v) b _ _ g (λ e. h)

  woken-Started : (s : Switch) → Started v s → Started v (woken s)
  woken-Started s h = record { running = h.running; table = h.table }

  start_process-Started :
      (a : SwitchAnswers) (s : Switch)
      → s.flush_running ≡ false
      → Started v s
      → Started v (start_process a s)
  unfolding start_process open_dos
  start_process-Started a s e h =
      with_task-Started ((open_dos a false s).has_dos && a.process) (open_dos a false s) e
        record { running = h.running; table = h.table }

  -- A table that was not cut is cut, or not.
  cut_once :
      (cut : Bool) (t : Vtable) (n : ℕ)
      → t ≡ v
      → n ≡ 0
      → (((if cut then without_drawing t else t) ≡ v) × ((if cut then n + 1 else n) ≡ 0))
        ⊎ ((true ≡ true)
            × ((if cut then without_drawing t else t) ≡ without_drawing v)
            × ((if cut then n + 1 else n) ≡ 1))
  cut_once true t n e z = inr (refl, ap without_drawing e, omega arith)
  cut_once false t n e z = inl (e, z)

  check_vtable-Started :
      (a : SwitchAnswers) (s : Switch)
      → s.null_vtable_checked ≡ false
      → Started v s
      → Started v (check_vtable a s)
  unfolding apply_null_vtable_overrides open_dos
  check_vtable-Started a s e h =
      let t : (s.vtable ≡ v) × (s.cuts ≡ 0) = elim h.table [
        | inl same ↦ same
        | inr cut ↦ absurd (ground (arith, e, cut.0))
      ] in
      record {
        running = h.running;
        table = cut_once ((open_dos a true s).has_dos && a.variable) s.vtable s.cuts t.0 t.1;
      }

  second : (b c : Bool) → (b && not c) ≡ true → c ≡ false
  second b false e = refl
  second b true e = absurd (ground arith)

  -- Before the wake-up of chip_SetSwitch.
  prepared-Started :
      (a : SwitchAnswers) (enabled : Bool) (s : Switch)
      → Started v s
      → Started v (prepared a enabled s)
  unfolding prepared
  prepared-Started a enabled s h =
      let s1 = record s { rtg_output_enabled = enabled } in
      let s2 = when (enabled && not s1.flush_running) (start_process a) s1 in
      let s3 = when (enabled && s2.virgl_2d_ready) dipf_counted s2 in
      let s4 = when (enabled && not s3.displayinfo_dumped) dumped s3 in
      let h1 : Started v s1 = record { running = h.running; table = h.table } in
      let h2 : Started v s2 =
        when-Started (enabled && not s1.flush_running) (start_process a) s1
          (λ e. start_process-Started a s1 (second enabled s1.flush_running e) h1) h1 in
      let h3 : Started v s3 =
        when-Started (enabled && s2.virgl_2d_ready) dipf_counted s2
          (λ e. record { running = h2.running; table = h2.table }) h2 in
      let h4 : Started v s4 =
        when-Started (enabled && not s3.displayinfo_dumped) dumped s3
          (λ e. record { running = h3.running; table = h3.table }) h3 in
      when-Started (enabled && not s4.null_vtable_checked) (check_vtable a) s4
        (λ e. check_vtable-Started a s4 (second enabled s4.null_vtable_checked e) h4) h4

  set_switch-Started :
      (a : SwitchAnswers) (enabled : Bool) (s : Switch)
      → Started v s
      → Started v (set_switch a enabled s)
  unfolding set_switch
  set_switch-Started a enabled s h =
      when-Started enabled woken (prepared a enabled s)
        (λ e. woken-Started (prepared a enabled s) (prepared-Started a enabled s h))
        (prepared-Started a enabled s h)

  set_display-Started :
      (a : SwitchAnswers) (enabled : Bool) (s : Switch)
      → Started v s
      → Started v (set_display a enabled s)
  unfolding set_display
  set_display-Started a enabled s h =
      let s' = when (enabled && not s.flush_running) (with_task a.task) s in
      let h' =
        when-Started (enabled && not s.flush_running) (with_task a.task) s
          (λ e. with_task-Started a.task s (second enabled s.flush_running e) h) h in
      when-Started enabled woken s' (λ e. woken-Started s' h') h'

  switch_all-Started :
      (cs : List SwitchCall) (s : Switch) → Started v s → Started v (switch_all cs s)
  unfolding switch_all
  switch_all-Started [] s h = h
  switch_all-Started (switch a enabled ∷ cs) s h =
      switch_all-Started cs (set_switch a enabled s) (set_switch-Started a enabled s h)
  switch_all-Started (display a enabled ∷ cs) s h =
      switch_all-Started cs (set_display a enabled s) (set_display-Started a enabled s h)

-- A flush task that runs goes on through every call.
abbrev IsRunning : Switch → Type 0
IsRunning s = s.flush_running ≡ true

when-IsRunning :
    (b : Bool) (f : Switch → Switch) (s : Switch)
    → (IsRunning s → IsRunning (f s))
    → IsRunning s
    → IsRunning (when b f s)
when-IsRunning b f s g h = if-elim IsRunning b _ _ (λ e. g h) (λ e. h)

set_switch-IsRunning :
    (a : SwitchAnswers) (enabled : Bool) (s : Switch)
    → IsRunning s
    → IsRunning (set_switch a enabled s)
unfolding set_switch prepared start_process open_dos apply_null_vtable_overrides
set_switch-IsRunning a enabled s h =
    let s1 = record s { rtg_output_enabled = enabled } in
    let s2 = when (enabled && not s1.flush_running) (start_process a) s1 in
    let s3 = when (enabled && s2.virgl_2d_ready) dipf_counted s2 in
    let s4 = when (enabled && not s3.displayinfo_dumped) dumped s3 in
    let s5 = when (enabled && not s4.null_vtable_checked) (check_vtable a) s4 in
    let h2 =
      when-IsRunning (enabled && not s1.flush_running) (start_process a) s1 (λ r. rw r refl) h in
    let h3 = when-IsRunning (enabled && s2.virgl_2d_ready) dipf_counted s2 (λ r. r) h2 in
    let h4 = when-IsRunning (enabled && not s3.displayinfo_dumped) dumped s3 (λ r. r) h3 in
    let h5 =
      when-IsRunning (enabled && not s4.null_vtable_checked) (check_vtable a) s4 (λ r. r) h4 in
    when-IsRunning enabled woken s5 (λ r. r) h5

set_display-IsRunning :
    (a : SwitchAnswers) (enabled : Bool) (s : Switch)
    → IsRunning s
    → IsRunning (set_display a enabled s)
unfolding set_display
set_display-IsRunning a enabled s h =
    let s' = when (enabled && not s.flush_running) (with_task a.task) s in
    when-IsRunning enabled woken s' (λ r. r)
      (when-IsRunning (enabled && not s.flush_running) (with_task a.task) s (λ r. rw r refl) h)

switch_all-IsRunning :
    (cs : List SwitchCall) (s : Switch) → IsRunning s → IsRunning (switch_all cs s)
unfolding switch_all
switch_all-IsRunning [] s h = h
switch_all-IsRunning (switch a enabled ∷ cs) s h =
    switch_all-IsRunning cs (set_switch a enabled s) (set_switch-IsRunning a enabled s h)
switch_all-IsRunning (display a enabled ∷ cs) s h =
    switch_all-IsRunning cs (set_display a enabled s) (set_display-IsRunning a enabled s h)

-- The first chip_SetDisplay(TRUE) that gets a task.
starts : (a : SwitchAnswers) (s : Switch) → a.task ≡ true → IsRunning (set_display a true s)
unfolding set_display
starts a s e =
    if-elim IsRunning (not s.flush_running) (with_task a.task s) s (λ f. rw e (ground arith))
      (λ f. ground (arith, f))

-- In every sequence of calls of chip_SetSwitch and chip_SetDisplay with a chip_SetDisplay(TRUE)
-- among them that gets a task from the kernel, exactly one flush task is created, whatever the
-- other calls get; and the drawing slots of the function table are set to NULL once or never: at
-- the end the table is `v` and the count of cuts is 0, or it is `v` without them and the count 1.
-- Condition: at the start the counts of tasks and of cuts are what the flags say: one task where it
-- runs and else none, and a cut only where null_vtable_checked is set.
pub switch_all-once :
    (v : Vtable) (cs ds : List SwitchCall) (a : SwitchAnswers) (s : Switch)
    → Started v s
    → a.task ≡ true
    → ((switch_all ds (set_display a true (switch_all cs s))).tasks ≡ 1)
      × Started v (switch_all ds (set_display a true (switch_all cs s)))
switch_all-once v cs ds a s h e =
    let s1 = switch_all cs s in
    let s2 = set_display a true s1 in
    let h3 =
      switch_all-Started v ds s2 (set_display-Started v a true s1 (switch_all-Started v cs s h)) in
    let r = switch_all-IsRunning ds s2 (starts a s1 e) in (h3.running ∙ rw r refl, h3)
