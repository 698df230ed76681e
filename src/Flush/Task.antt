-- ===== src/Flush/Task.antt =====
-- How chip_flush_task_entry begins and ends (src/chip/chip_flush.c): what it opens before its loop,
-- and closes behind it or where something cannot be had.
use virt_iogpu.Prelude.{
  ℕ, ◌≡◌, refl, Bool, true, false, ◌||◌, not, arith, List, [], ◌∷◌, ◌++◌, Option, none, some, ◌==◌,
  if◌then◌else◌,
}
use virt_iogpu.Flush.Loop.{Loop, Wake, iterate}

pub data Part : Type 0 where
  port request device interface signal : Part

-- The calls that open and close, the first one first.
pub data Access : Type 0 where
  opens closes : Part → Access

-- Whether each thing can be had.
pub record Offer : Type 0 where
  pub port : Bool
  pub request : Bool
  pub device : Bool
  pub interface : Bool
  pub signal : Bool

-- The task's published fields: its task and mask, the interface of the timer and its clock's
-- frequency, the interval.
pub record Published : Type 0 where
  pub flush_task : ℕ
  pub flush_sig_mask : ℕ
  pub has_timer : Bool
  pub eclock_freq : ℕ
  pub refresh_us : ℕ

-- The loop over what it meets, and whether it has ended by then.
unfoldable pub run_loop : List Wake → Loop → Bool × Loop
run_loop [] l = (false, l)
run_loop (w ∷ ws) l =
    let next = iterate w l in
    let rest = run_loop ws next.1 in if next.0 then rest else (true, next.1)

abbrev pub closed_base : List Access
closed_base = closes device ∷ closes request ∷ closes port ∷ []

abbrev pub with_interface : Bool → List Access → List Access
with_interface true us = closes interface ∷ us
with_interface false us = us

abbrev pub opened : Bool → List Access → List Access
opened true us = opens port ∷ opens request ∷ opens device ∷ opens interface ∷ us
opened false us = opens port ∷ opens request ∷ opens device ∷ us

-- The interface may be missing, the signal not.
abbrev pub open_signal : Bool → Bool → Bool × List Access
open_signal has_interface has_signal =
    if has_signal
    then (true, opened has_interface (opens signal ∷ []))
    else (false, opened has_interface (with_interface has_interface closed_base))

-- What is opened up to the signal, and closed where the task returns early; `true` where the loop
-- is entered.
unfoldable pub open_all : Offer → Bool × List Access
open_all o =
    if not o.port
    then (false, [])
    else if not o.request
    then (false, opens port ∷ closes port ∷ [])
    else if not o.device
    then (false, opens port ∷ opens request ∷ closes request ∷ closes port ∷ [])
    else open_signal o.interface o.signal

-- The end behind the loop.
unfoldable pub close_all : Bool → List Access
close_all has_interface = closes signal ∷ with_interface has_interface closed_base

unfoldable pub announce : Offer → ℕ → ℕ → ℕ → Published → Published
announce o me mask freq p = record p {
  flush_task = me;
  flush_sig_mask = mask;
  refresh_us = if p.refresh_us == 0 then 16667 else p.refresh_us;
  has_timer = o.interface;
  eclock_freq = if o.interface then freq else 0;
}

unfoldable pub unpublish : Published → Published
unpublish p = record p { flush_task = 0; flush_sig_mask = 0; has_timer = false }

-- By whether the loop was entered, and whether it has ended.
abbrev pub ending :
    Offer → Published → Published → Bool × List Access → Bool → List Access × Published
ending o old new (false, us) ended = (us, old)
ending o old new (true, us) true = (us ++ close_all o.interface, unpublish new)
ending o old new (true, us) false = (us, new)

-- The whole task: the calls, and what is published. Where the loop does not end, neither does the
-- task.
unfoldable pub flush_task_entry :
    Offer → ℕ → ℕ → ℕ → List Wake → Loop → Published → List Access × Published
flush_task_entry o me mask freq ws l p =
    ending o p (announce o me mask freq p) (open_all o) (run_loop ws l).0

-- What is open after the calls, the newest first; `none` where a call closes something else than
-- the newest.
unfoldable pub left_open : List Access → List Part → Option (List Part)
left_open [] held = some held
left_open (opens x ∷ us) held = left_open us (x ∷ held)
left_open (closes port ∷ us) (port ∷ held) = left_open us held
left_open (closes request ∷ us) (request ∷ held) = left_open us held
left_open (closes device ∷ us) (device ∷ held) = left_open us held
left_open (closes interface ∷ us) (interface ∷ held) = left_open us held
left_open (closes signal ∷ us) (signal ∷ held) = left_open us held
left_open us held = none

abbrev pub offer_of : Bool → Bool → Bool → Bool → Bool → Offer
offer_of a b c d e = record { port = a; request = b; device = c; interface = d; signal = e }

-- Nothing is left open: by the early returns, or by the end behind the loop.
abbrev Closed : Bool × List Access → Bool → Type 0
Closed (true, us) has_interface = left_open (us ++ close_all has_interface) [] ≡ some []
Closed (false, us) has_interface = left_open us [] ≡ some []

open_all-Closed : (a b c d e : Bool) → Closed (open_all (offer_of a b c d e)) d
unfolding open_all left_open close_all
open_all-Closed false b c d e = refl
open_all-Closed true false c d e = refl
open_all-Closed true true false d e = refl
open_all-Closed true true true true true = refl
open_all-Closed true true true true false = refl
open_all-Closed true true true false true = refl
open_all-Closed true true true false false = refl

-- Nothing is left open, the task, its mask and the timer's interface are not published, and the two
-- numbers, which are never retracted, are what they were set to if the loop was entered.
abbrev pub Ended : Bool → Offer → ℕ → Published → List Access × Published → Type 0
Ended entered o freq old (us, p) =
    (left_open us [] ≡ some [])
    × (p.flush_task ≡ 0)
    × (p.flush_sig_mask ≡ 0)
    × (p.has_timer ≡ false)
    × (p.eclock_freq ≡ (if entered then if o.interface then freq else 0 else old.eclock_freq))
    × (p.refresh_us ≡ (
        if entered then if old.refresh_us == 0 then 16667 else old.refresh_us else old.refresh_us))

ending-Ended :
    (o : Offer) (me mask freq : ℕ) (old : Published) (r : Bool × List Access) (ended : Bool)
    → Closed r o.interface
    → (not r.0 || ended) ≡ true
    → (old.flush_task ≡ 0) × (old.flush_sig_mask ≡ 0) × (old.has_timer ≡ false)
    → Ended r.0 o freq old (ending o old (announce o me mask freq old) r ended)
unfolding unpublish announce
ending-Ended o me mask freq old (false, us) ended c r (a, b, t) = (c, a, b, t, refl, refl)
ending-Ended o me mask freq old (true, us) true c r q = (c, refl, refl, refl, refl, refl)
ending-Ended o me mask freq old (true, us) false c r q = absurd (ground arith)

-- Whether the flush task has returned: it could not open something, or its loop has ended.
abbrev pub returned : Offer → List Wake → Loop → Bool
returned o ws l = not (open_all o).0 || (run_loop ws l).0

-- When the flush task returns, early or behind its loop, it has closed all that it has opened, each
-- time the newest thing that was open, whatever could be had; and its task, its signal mask and the
-- timer's interface are not published any more. The clock's frequency and the refresh interval stay
-- as the task has set them before its loop, and are untouched where it returns early.
-- Condition: task, mask and timer were not published before.
pub flush_task_entry-Ended :
    (o : Offer) (me mask freq : ℕ) (ws : List Wake) (l : Loop) (p : Published)
    → returned o ws l ≡ true
    → (p.flush_task ≡ 0) × (p.flush_sig_mask ≡ 0) × (p.has_timer ≡ false)
    → Ended (open_all o).0 o freq p (flush_task_entry o me mask freq ws l p)
unfolding flush_task_entry
flush_task_entry-Ended o me mask freq ws l p r q =
    ending-Ended o me mask freq p (open_all o) (run_loop ws l).0
      (open_all-Closed o.port o.request o.device o.interface o.signal) r q
