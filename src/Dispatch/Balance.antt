-- ===== src/Dispatch/Balance.antt =====
-- When the timer's interrupt comes to `sched_pull`: `ticks_to_balance` in SYS_TIME_SLICE of
-- src/c/kernel/dispatch.c.
pub mod First
use rpi_kernel.Base.{
  ℕ, zero, suc, ◌+◌, ◌≡◌, refl, ap, subst, ◌∙◌, Option, none, some, List, [], ◌∷◌, ◌==◌, Bool-cases,
  inl, inr, pred32, u32, u64, ==_iff, arith, update_self, update_key,
}
use rpi_kernel.Config.{Priority, descending, sched, tick_rearm, runnable}
use rpi_kernel.Links.{Ptr}
use rpi_kernel.State.{
  State, World, RunQueue, Run, ok, hang, fault, Cmd, pure, and_then, ◌>>=◌, ◌>>◌, modify, gets,
  Lock, lock_key, queue_lock, ready_at, spin_lock, spin_unlock, spin_lock-ok, spin_lock-hang,
  with_length, with_proc, del_sched,
}
use rpi_kernel.Sched.{current, affinity, sched_pickcpu, ready, take_first, run_or, next_loop, next}
use rpi_kernel.Thread.{proc_tick}
use rpi_kernel.Dispatch.{
  int_syscall, sched_yield, switch_from, switch_to, count_events, with_ticks, core_timer_rearm,
  handle, reschedule, common_interrupt,
}

abbrev pub ticks : (core : ℕ) → State → ℕ
ticks core s = (s.queues core).ticks_to_balance

-- The command, if it returns, leaves the counter of the core at `k`.
abbrev pub Leaves : {A : Type 0} → (core k : ℕ) → Run A → Type 0
Leaves core k (ok a t) = ticks core t ≡ k
Leaves core k hang = Unit
Leaves core k fault = Unit

-- The timer's interrupt as it would be if the counter were lowered and nothing pulled.
unfoldable pub unpulled : World → (core : ℕ) → Cmd (Unit {0})
unpulled world core = do
  self ← gets (current core)
  modify (switch_from core)
  modify (count_events 0 core world.entry_counter)
  modify (λ s. with_ticks core (pred32 (ticks core s)) s)
  code ← proc_tick core
  scheduled ← reschedule core self code
  modify (count_events 1 core world.exit_counter)
  switch_to core scheduled

-- `left` interrupts from the one with number `i` on, each with what is done before the next.
abbrev pub slices :
    (one : World → Cmd (Unit {0})) (worlds : ℕ → World) (between : ℕ → Cmd (Unit {0})) (left i : ℕ)
    → Cmd (Unit {0})
slices one worlds between zero i = pure tt
slices one worlds between (suc left) i = do
  one (worlds i)
  between i
  slices one worlds between left (suc i)

pub then-Leaves :
    {A B : Type 0} (core k m : ℕ) (r : Run A) (f : A → Cmd B)
    → Leaves core k r
    → ((a : A) (t : State) → ticks core t ≡ k → Leaves core m (f a t))
    → Leaves core m (and_then r f)
then-Leaves core k m (ok a t) f e h = h a t e
then-Leaves core k m hang f e h = tt
then-Leaves core k m fault f e h = tt

pub same-then :
    {A B : Type 0} (core k : ℕ) (r : Run A) (f g : A → Cmd B)
    → Leaves core k r
    → ((a : A) (t : State) → ticks core t ≡ k → f a t ≡ g a t)
    → and_then r f ≡ and_then r g
same-then core k (ok a t) f g e h = h a t e
same-then core k hang f g e h = refl
same-then core k fault f g e h = refl

-- A change of a queue's length keeps the counter.
ticks-with_length :
    (core target : ℕ) (f : ℕ → ℕ) (s : State) → ticks core (with_length target f s) ≡ ticks core s
ticks-with_length core target f s = ground arith

spin_lock-Leaves : (core : ℕ) (l : Lock) (s : State) → Leaves core (ticks core s) (spin_lock l s)
spin_lock-Leaves core l s = elim (Bool-cases (s.locks l == 0)) [
  | inl free ↦ rw (spin_lock-ok l s ((==_iff (s.locks l) 0).0 free)) refl
  | inr held ↦ rw (spin_lock-hang l s (ground arith)) tt
]

ready-Leaves : (core : ℕ) (p : Ptr) (s : State) → Leaves core (ticks core s) (ready core p s)
unfolding ready spin_unlock
ready-Leaves core p s =
    let begun = with_proc p (λ q. record q { state = runnable }) s in
    let target = sched_pickcpu core begun (affinity begun p) in
    then-Leaves core (ticks core s) (ticks core s) (spin_lock (queue_lock target) begun) _
      (spin_lock-Leaves core (queue_lock target) begun)
      (λ done t e. ticks-with_length core target (λ n. u32 (n + 1)) t ∙ e)

take_first-Leaves :
    (core : ℕ) (entries : List Ptr) (s : State)
    → Leaves core (ticks core s) (take_first core entries s)
unfolding take_first
take_first-Leaves core [] s = refl
take_first-Leaves core (p ∷ rest) s = ticks-with_length core core pred32 (del_sched p s)

run_or-Leaves :
    (core k : ℕ) (found : Option Ptr) (rest : Cmd (Option Ptr)) (s : State)
    → ticks core s ≡ k
    → Leaves core k (rest s)
    → Leaves core k (run_or core found rest s)
unfolding run_or
run_or-Leaves core k none rest s e h = h
run_or-Leaves core k (some p) rest s e h = e

next_loop-Leaves :
    (core k : ℕ) (ps : List Priority) (s : State)
    → ticks core s ≡ k
    → Leaves core k (next_loop core ps s)
unfolding next_loop spin_unlock
next_loop-Leaves core k [] s e = e
next_loop-Leaves core k (priority ∷ lower) s e =
    then-Leaves core k k (spin_lock (queue_lock core) s) _
      (subst (λ n. Leaves core n (spin_lock (queue_lock core) s)) e
        (spin_lock-Leaves core (queue_lock core) s))
      (λ done t at.
        then-Leaves core k k (take_first core (t.lists (ready_at core priority)) t) _
          (subst (λ n. Leaves core n (take_first core (t.lists (ready_at core priority)) t)) at
            (take_first-Leaves core (t.lists (ready_at core priority)) t))
          (λ found u at'.
            let v = record u { locks = update_key u.locks (queue_lock core) 0 } in
            run_or-Leaves core k found (next_loop core lower) v at'
              (next_loop-Leaves core k lower v at')))

next-Leaves : (core : ℕ) (s : State) → Leaves core (ticks core s) (next core s)
unfolding next
next-Leaves core s = next_loop-Leaves core (ticks core s) descending s refl

reschedule-Leaves :
    (core : ℕ) (self : Ptr) (s : State) → Leaves core (ticks core s) (reschedule core self sched s)
unfolding reschedule
reschedule-Leaves core self s =
    then-Leaves core (ticks core s) (ticks core s) (ready core (current core s) s)
      (λ done t. next core (core_timer_rearm core tick_rearm t))
      (ready-Leaves core (current core s) s)
      (λ done t e.
        subst (λ k. Leaves core k (next core (core_timer_rearm core tick_rearm t))) e
          (next-Leaves core (core_timer_rearm core tick_rearm t)))

switch_to-Leaves :
    (core k : ℕ) (found : Option Ptr) (s : State)
    → ticks core s ≡ k
    → Leaves core k (switch_to core found s)
unfolding switch_to
switch_to-Leaves core k none s e = tt
switch_to-Leaves core k (some p) s e = e

-- A time slice without a pull lowers the counter by one.
pub unpulled-Leaves :
    (world : World) (core : ℕ) (s : State)
    → Leaves core (pred32 (ticks core s)) (unpulled world core s)
unfolding unpulled proc_tick
unpulled-Leaves world core s =
    let begun = count_events 0 core world.entry_counter (switch_from core s) in
    let lowered = with_ticks core (pred32 (ticks core s)) begun in
    let ticked =
      with_proc (s.running core) (λ q. record q { tick_count = u64 (q.tick_count + 1) }) lowered in
    let counted : ticks core ticked ≡ pred32 (ticks core s) =
      ap (λ (q : RunQueue). q.ticks_to_balance) (update_self s.queues core _) in
    then-Leaves core (pred32 (ticks core s)) (pred32 (ticks core s))
      (reschedule core (s.running core) sched ticked) _
      (subst (λ k. Leaves core k (reschedule core (s.running core) sched ticked)) counted
        (reschedule-Leaves core (s.running core) ticked))
      (λ found t e.
        switch_to-Leaves core (pred32 (ticks core s)) found
          (count_events 1 core world.exit_counter t) e)

-- SYS_YIELD leaves the counter as it is.
pub yield-Leaves :
    (world : World) (core : ℕ) (s : State)
    → Leaves core (ticks core s) (common_interrupt world core (int_syscall sched_yield) s)
unfolding common_interrupt handle
yield-Leaves world core s =
    let begun = count_events 0 core world.entry_counter (switch_from core s) in
    then-Leaves core (ticks core s) (ticks core s) (reschedule core (s.running core) sched begun) _
      (reschedule-Leaves core (s.running core) begun)
      (λ found t e.
        switch_to-Leaves core (ticks core s) found (count_events 1 core world.exit_counter t) e)
