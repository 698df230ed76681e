-- ===== src/P96/Switch.antt =====
-- chip_SetSwitch, chip_SetDisplay and chip_apply_null_vtable_overrides (src/chip/chip_p96.c): the
-- flush task is created at the first call that can. The dump of the display database only logs.
use virt_iogpu.Prelude.{ℕ, ◌+◌, Bool, true, false, ◌&&◌, ◌||◌, not, List, [], ◌∷◌, if◌then◌else◌}
use virt_iogpu.P96.State.{Waker, signal_activity}
use virt_iogpu.P96.Vtable.{Vtable, without_drawing}

-- The fields of `struct ChipGPUState` that the two callbacks use, and the function table. `tasks`
-- counts the flush tasks that were created, `dipf_calls` the calls of chip_comp_set_dipf_flags, and
-- `cuts` how often the drawing slots were set to NULL.
pub record Switch : Type 0 where
  pub rtg_output_enabled : Bool
  pub flush_running : Bool
  pub has_dos_base : Bool
  pub has_dos : Bool
  pub displayinfo_dumped : Bool
  pub null_vtable_checked : Bool
  pub virgl_2d_ready : Bool
  pub tasks : ℕ
  pub dipf_calls : ℕ
  pub cuts : ℕ
  pub vtable : Vtable
  pub waker : Waker

-- What the kernel and dos.library answer during a call: whether the library and its interface are
-- there, whether a process or a task can be created, and whether the variable
-- virtiogpu_null_vtable is set.
pub record SwitchAnswers : Type 0 where
  pub library : Bool
  pub interface : Bool
  pub process : Bool
  pub task : Bool
  pub variable : Bool

-- `!gs->DOSBase`: the library is opened; `keep` is whether an interface that is there is kept.
unfoldable pub open_dos : SwitchAnswers → Bool → Switch → Switch
open_dos a keep s = record s {
  has_dos_base = s.has_dos_base || a.library;
  has_dos =
      if s.has_dos_base || not a.library
      then s.has_dos
      else if keep && s.has_dos
      then true
      else a.interface;
}

abbrev pub with_task : Bool → Switch → Switch
with_task created s = record s {
  flush_running = s.flush_running || created;
  tasks = if created then s.tasks + 1 else s.tasks;
}

unfoldable pub apply_null_vtable_overrides : SwitchAnswers → Switch → Switch
apply_null_vtable_overrides a old =
    let s = open_dos a true old in
    let cut = s.has_dos && a.variable in
    record s {
      vtable = if cut then without_drawing s.vtable else s.vtable;
      cuts = if cut then s.cuts + 1 else s.cuts;
    }

-- The fallback by dos.library.
unfoldable pub start_process : SwitchAnswers → Switch → Switch
start_process a old = let s = open_dos a false old in with_task (s.has_dos && a.process) s

abbrev pub when : Bool → (Switch → Switch) → Switch → Switch
when b f s = if b then f s else s

abbrev pub check_vtable : SwitchAnswers → Switch → Switch
check_vtable a s = record (apply_null_vtable_overrides a s) { null_vtable_checked = true }

abbrev pub woken : Switch → Switch
woken s = record s { waker = signal_activity s.waker }

abbrev pub dipf_counted : Switch → Switch
dipf_counted s = record s { dipf_calls = s.dipf_calls + 1 }

abbrev pub dumped : Switch → Switch
dumped s = record s { displayinfo_dumped = true }

-- chip_SetSwitch up to the signal.
unfoldable pub prepared : SwitchAnswers → Bool → Switch → Switch
prepared a enabled old =
    let s1 = record old { rtg_output_enabled = enabled } in
    let s2 = when (enabled && not s1.flush_running) (start_process a) s1 in
    let s3 = when (enabled && s2.virgl_2d_ready) dipf_counted s2 in
    let s4 = when (enabled && not s3.displayinfo_dumped) dumped s3 in
    when (enabled && not s4.null_vtable_checked) (check_vtable a) s4

unfoldable pub set_switch : SwitchAnswers → Bool → Switch → Switch
set_switch a enabled s = when enabled woken (prepared a enabled s)

unfoldable pub set_display : SwitchAnswers → Bool → Switch → Switch
set_display a enabled old =
    let s = when (enabled && not old.flush_running) (with_task a.task) old in when enabled woken s

-- A call of one of the two, with the answers that it gets.
pub data SwitchCall : Type 0 where
  switch display : SwitchAnswers → Bool → SwitchCall

unfoldable pub switch_all : List SwitchCall → Switch → Switch
switch_all [] s = s
switch_all (switch a enabled ∷ cs) s = switch_all cs (set_switch a enabled s)
switch_all (display a enabled ∷ cs) s = switch_all cs (set_display a enabled s)
