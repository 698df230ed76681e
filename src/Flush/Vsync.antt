-- ===== src/Flush/Vsync.antt =====
-- What the flush task's loop keeps, and when a task that waits for the vertical sync is woken
-- (src/chip/chip_flush.c, src/chip/chip_p96.c).
use virt_iogpu.Prelude.{
  ℕ, ◌+◌, ◌≤◌, ◌<◌, ◌≡◌, ◌≢◌, ◌⊎◌, inl, inr, refl, sym, subst, Bool, true, false, ◌||◌, List, [],
  ◌∷◌, Option, none, some, ◌==◌, if◌then◌else◌, if-elim, arith, All, count, if_on, if_off, ap, ◌∙◌,
  ==-ne,
}
use virt_iogpu.Flush.Loop.{
  Loop, Wake, arm_timer, take_timer, signal_waiter, wake_waiter, present, iterate, register,
  without, retract, Step, step, steps, tick, enter, leave, power,
}

abbrev one : Bool → ℕ
one b = if b then 1 else 0

-- How often `t` waits in the slot.
abbrev pub waits : ℕ → Option (ℕ × ℕ) → ℕ
waits t none = 0
waits t (some (task, mask)) = one (t == task)

-- How often `t` has entered.
abbrev pub entered : ℕ → List Step → ℕ
entered t [] = 0
entered t (enter me mask ∷ ss) = one (t == me) + entered t ss
entered t (s ∷ ss) = entered t ss

-- The timer's request is out once or not at all; `t` was signalled at most as often as it has
-- entered, `n` times, and is not both signalled and in the slot for the same time.
pub record Paced (t n : ℕ) (l : Loop) : Type 0 where
  pub timers : l.timers_armed ≡ l.timers_fired + one l.timer_pending
  pub fair : count t l.signalled + waits t l.waiter ≤ n

signal_waiter-count :
    (t : ℕ) (o : Option (ℕ × ℕ)) (done : List ℕ)
    → count t (signal_waiter o done) ≤ count t done + waits t o
signal_waiter-count t none done = omega arith
signal_waiter-count t (some (task, mask)) done = ground arith

signal_waiter-le :
    (t : ℕ) (o : Option (ℕ × ℕ)) (done : List ℕ) → count t done ≤ count t (signal_waiter o done)
signal_waiter-le t none done = omega arith
signal_waiter-le t (some (task, mask)) done = ground arith

iterate-Paced : (t n : ℕ) (w : Wake) (l : Loop) → Paced t n l → Paced t n (iterate w l).1
unfolding iterate arm_timer take_timer present wake_waiter
iterate-Paced t n w l p =
    if-elim (λ (r : Bool × Loop). Paced t n r.1) w.quit_before _ _ (λ e. p)
      (λ e.
        if-elim (λ (r : Bool × Loop). Paced t n r.1) (w.ctrl_c || w.quit_behind) _ _
          (λ e. record { timers = ground (arith, p.timers); fair = p.fair })
          (λ e.
            if-elim (λ (r : Bool × Loop). Paced t n r.1) (l.dpms_level == 0) _ _
              (λ e. record {
                timers = ground (arith, p.timers);
                fair = omega (arith, p.fair, signal_waiter-count t l.waiter l.signalled);
              })
              (λ e. record { timers = ground (arith, p.timers); fair = p.fair })))

waits-without : (t me : ℕ) (o : Option (ℕ × ℕ)) → waits t (without me o) ≤ waits t o
waits-without t me none = omega arith
waits-without t me (some (task, mask)) = ground arith

step-Paced :
    (t n : ℕ) (s : Step) (l : Loop) → Paced t n l → Paced t (n + entered t (s ∷ [])) (step s l)
unfolding step register retract
step-Paced t n (tick w) l p =
    let p' = iterate-Paced t n w l p in record { timers = p'.timers; fair = omega (arith, p'.fair) }
step-Paced t n (enter me mask) l p = record { timers = p.timers; fair = omega (arith, p.fair) }
step-Paced t n (leave me) l p = record {
  timers = p.timers;
  fair = omega (arith, p.fair, waits-without t me l.waiter);
}
step-Paced t n (power level) l p = record { timers = p.timers; fair = omega (arith, p.fair) }

entered-cons :
    (t : ℕ) (s : Step) (ss : List Step) → entered t (s ∷ ss) ≡ entered t (s ∷ []) + entered t ss
entered-cons t (tick w) ss = omega arith
entered-cons t (enter me mask) ss = omega arith
entered-cons t (leave me) ss = omega arith
entered-cons t (power level) ss = omega arith

-- In every order of iterations of the flush task, calls of chip_WaitVerticalSync and changes of the
-- power level, the timer's request is sent again only after its answer was taken, and a task is
-- signalled at most once for each time that it has entered the wait. Condition: that is so at the
-- start.
pub steps-Paced :
    (t n : ℕ) (ss : List Step) (l : Loop) → Paced t n l → Paced t (n + entered t ss) (steps ss l)
unfolding steps
steps-Paced t n [] l p = record { timers = p.timers; fair = omega (arith, p.fair) }
steps-Paced t n (s ∷ ss) l p =
    let p' = steps-Paced t (n + entered t (s ∷ [])) ss (step s l) (step-Paced t n s l p) in
    record { timers = p'.timers; fair = omega (arith, p'.fair, entered-cons t s ss) }

-- No other task enters the wait, and `t` does not give up.
abbrev pub Undisturbed : ℕ → Step → Type 0
Undisturbed t (enter me mask) = ⊥
Undisturbed t (leave me) = me ≢ t
Undisturbed t s = Unit {0}

-- `t` was signalled again, after `k` times, or it waits in the slot.
abbrev Due : ℕ → ℕ → ℕ → Loop → Type 0
Due t m k l = (k < count t l.signalled) ⊎ ((l.waiter ≡ some (t, m)) × (k ≤ count t l.signalled))

-- A task's signals are never fewer, and one more where it is taken out of the slot.
wake_waiter-Due :
    (t m k : ℕ) (o : Option (ℕ × ℕ)) (done : List ℕ)
    → t ≢ 0
    → m ≢ 0
    → (k < count t done) ⊎ ((o ≡ some (t, m)) × (k ≤ count t done))
    → k < count t (signal_waiter o done)
wake_waiter-Due t m k o done nt nm (inl less) = omega (arith, less, signal_waiter-le t o done)
wake_waiter-Due t m k o done nt nm (inr (e, le)) = rw e (ground arith)

without-ne :
    (t m me : ℕ) (o : Option (ℕ × ℕ)) → me ≢ t → o ≡ some (t, m) → without me o ≡ some (t, m)
without-ne t m me o ne e = rw e (if_off (t == me) none (some (t, m)) (==-ne t me (λ q. ne (sym q))))

step-Due :
    (t m k : ℕ) (s : Step) (l : Loop)
    → t ≢ 0
    → m ≢ 0
    → Undisturbed t s
    → Due t m k l
    → Due t m k (step s l)
unfolding step iterate arm_timer take_timer present wake_waiter retract
step-Due t m k (tick w) l nt nm u d =
    if-elim (λ (r : Bool × Loop). Due t m k r.1) w.quit_before _ _ (λ e. d)
      (λ e.
        if-elim (λ (r : Bool × Loop). Due t m k r.1) (w.ctrl_c || w.quit_behind) _ _ (λ e. d)
          (λ e.
            if-elim (λ (r : Bool × Loop). Due t m k r.1) (l.dpms_level == 0) _ _
              (λ e. inl (wake_waiter-Due t m k l.waiter l.signalled nt nm d)) (λ e. d)))
step-Due t m k (enter me mask) l nt nm u d = absurd u
step-Due t m k (leave me) l nt nm u d = elim d [
  | inl less ↦ inl less
  | inr (e, le) ↦ inr (without-ne t m me l.waiter u e, le)
]
step-Due t m k (power level) l nt nm u d = d

steps-Due :
    (t m k : ℕ) (ss : List Step) (l : Loop)
    → t ≢ 0
    → m ≢ 0
    → All (Undisturbed t) ss
    → Due t m k l
    → Due t m k (steps ss l)
unfolding steps
steps-Due t m k [] l nt nm u d = d
steps-Due t m k (s ∷ ss) l nt nm u d =
    steps-Due t m k ss (step s l) nt nm u.1 (step-Due t m k s l nt nm u.0 d)

-- The iteration goes past its tests for an end.
abbrev pub GoesOn : Wake → Type 0
GoesOn w = (w.quit_before ≡ false) × ((w.ctrl_c || w.quit_behind) ≡ false)

iterate-present :
    (w : Wake) (l : Loop)
    → GoesOn w
    → l.dpms_level ≡ 0
    → iterate w l ≡ (true, present w (take_timer w.timer (arm_timer l)))
unfolding iterate arm_timer take_timer
iterate-present w l on power_on =
    if_off w.quit_before _ _ on.0
    ∙ (if_off (w.ctrl_c || w.quit_behind) _ _ on.1
        ∙ if_on (l.dpms_level == 0) _ _ (ap (λ (n : ℕ). n == 0) power_on))

-- A task that enters chip_WaitVerticalSync is signalled at the latest by the next iteration of the
-- flush task at which the display is on and the task is not told to end, after any iterations
-- before it, other tasks' ends of a wait and changes of the power level. Conditions: the task and
-- its signal's mask are not 0, and no other task enters the wait meanwhile.
pub enter-signalled :
    (t m : ℕ) (ss : List Step) (w : Wake) (l : Loop)
    → t ≢ 0
    → m ≢ 0
    → All (Undisturbed t) ss
    → GoesOn w
    → (steps (enter t m ∷ ss) l).dpms_level ≡ 0
    → count t l.signalled < count t (step (tick w) (steps (enter t m ∷ ss) l)).signalled
unfolding steps step arm_timer take_timer present wake_waiter register
enter-signalled t m ss w l nt nm u on power_on =
    let l' = steps ss (register t m l) in
    let d =
      steps-Due t m (count t l.signalled) ss (register t m l) nt nm u (inr (refl, omega arith)) in
    let go = ap (λ (r : Bool × Loop). r.1) (iterate-present w l' on power_on) in
    subst (λ (n : Loop). count t l.signalled < count t n.signalled) (sym go)
      (wake_waiter-Due t m (count t l.signalled) l'.waiter l'.signalled nt nm d)
