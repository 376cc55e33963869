-- ===== src/Dispatch/Sound/Interrupt.antt =====
-- A whole interrupt, `common_interrupt` of src/c/kernel/dispatch.c, leaves the queues and the running
-- processes sound.
use rpi_kernel.Base.{
  ℕ, ◌<◌, ◌≡◌, ◌≢◌, refl, ap, sym, ◌∙◌, true, false, some, ◌==◌, arith, has, if◌then◌else◌,
}
use rpi_kernel.Config
use rpi_kernel.Config.{ReturnState, ok, sched, block, exit, num_cores, tick_rearm}
use rpi_kernel.Links.{Ptr, null}
use rpi_kernel.State.{State, World, Cmd, modify, ◌>>=◌, ◌>>◌, queue_lock, Run, Unlocked}
use rpi_kernel.Sched.{next}
use rpi_kernel.Sched.Ready.{readied, ready_lem}
use rpi_kernel.Sched.Invariant.{Detached}
use rpi_kernel.Sched.Invariant.Evolve.{Evolves, chain, still, readied-Evolves}
use rpi_kernel.Sched.Invariant.Handled.{is_leaving}
use rpi_kernel.Dispatch.{
  Call, int_syscall, switch_from, switch_to, count_events, core_timer_rearm, reschedule, is_exit,
  common_interrupt,
}
use rpi_kernel.Dispatch.Calls.{switched}
use rpi_kernel.Dispatch.Sound.{IsSound, IsLeft, Standby, still-IsSound, next-IsSound}
use rpi_kernel.Dispatch.Sound.Calls.{served, handle-Handled}

-- A block that no list holds and that no core runs, as `malloc` gives for a new process.
pub record IsFresh (p : Ptr) (s : State) : Type 0 where
  pub absent : Detached p s
  pub idle : (c : ℕ) → c < num_cores → s.running c ≢ p

Standby-Evolves :
    (core : ℕ) (out : Ptr) (s g : State) → Evolves out s g → Standby core s → Standby core g
Standby-Evolves core out s g e (r, x, m) = (r, x, e.ready x core r m)

module _ (core : ℕ) (s g : State) (out : Ptr) (w : IsSound s) (e : Evolves out s g) where
  runs : (c : ℕ) → g.running c ≡ s.running c
  runs c = ap (λ (f : ℕ → Ptr). f c) e.running

  off_lists-Evolves :
      (c : ℕ) → c < num_cores → s.running c ≢ null → s.running c ≢ out → Detached (g.running c) g
  off_lists-Evolves c small pos other a =
      ap (λ x. has x (g.lists a)) (runs c)
      ∙ e.detached (s.running c) other (w.off_lists c small pos) a

  alone-Evolves :
      (c d : ℕ)
      → c < num_cores
      → d < num_cores
      → g.running c ≢ null
      → g.running c ≡ g.running d
      → c ≡ d
  alone-Evolves c d small small' pos same =
      w.alone c d small small' (λ z. pos (runs c ∙ z)) (sym (runs c) ∙ (same ∙ runs d))

  -- A call that takes no running process into a list leaves all cores sound,
  pub kept-IsSound : ((c : ℕ) → c < num_cores → s.running c ≢ out) → IsSound g
  kept-IsSound other = record {
    queued = e.queued;
    off_lists = λ c small pos. off_lists-Evolves c small (λ z. pos (runs c ∙ z)) (other c small);
    alone = alone-Evolves;
  }

  -- and one that takes the caller leaves all others sound.
  pub kept-IsLeft :
      ((c : ℕ) → (c == core) ≡ false → c < num_cores → s.running c ≢ null → s.running c ≢ out)
      → IsLeft core g
  kept-IsLeft other = record {
    queued = e.queued;
    off_lists = λ c d small pos.
        let pos' : s.running c ≢ null = λ z. pos (runs c ∙ z) in
        off_lists-Evolves c small pos' (other c d small pos');
    alone = λ c d n k. alone-Evolves c d;
  }

-- What `common_interrupt` does after the call, with `self` the process that was interrupted.
abbrev pub rest : World → ℕ → (self : Ptr) → ReturnState → Cmd (Unit {0})
rest world core self code = do
  scheduled ← reschedule core self code
  modify (λ s. if is_exit code then s else count_events 1 core world.exit_counter s)
  switch_to core scheduled

-- Another core does not run what this one runs.
pub other_process :
    (core : ℕ) (s : State)
    → core < num_cores
    → IsSound s
    → (c : ℕ) → (c == core) ≡ false
    → c < num_cores
    → s.running c ≢ null
    → s.running c ≢ s.running core
other_process core s small w c d small' pos same =
    let e = w.alone c core small' small pos same in ground arith

module _ (world : World) (core : ℕ) (small : core < num_cores) where
  abbrev pub Finishes : (self : Ptr) → ReturnState → State → Type 0
  Finishes self code g = (h : State) × (rest world core self code g ≡ Run.ok tt h) × IsSound h

  -- The next process found, whichever code let the old one go.
  module _ (self : Ptr) (s g : State) (w : IsSound s) (standby : Standby core s)
      (e : Evolves (s.running core) s g) (locks : (c : ℕ) → g.locks (queue_lock c) ≡ 0) where
    found : (p : Ptr) × (h : State) × (next core g ≡ Run.ok (some p) h) × IsSound h
    found =
        next-IsSound core g (locks core)
          (kept-IsLeft core s g (s.running core) w e (other_process core s small w))
          (Standby-Evolves core (s.running core) s g e standby)

    finish_block : Finishes self Config.ReturnState.block g
    unfolding reschedule switch_to
    finish_block =
        let (p, h, run, sound) = found in
        (
          switched core p (count_events 1 core world.exit_counter h),
          rw run,
          still-IsSound h _ refl refl refl sound,
        )

    finish_exit : Finishes self Config.ReturnState.exit g
    unfolding reschedule switch_to
    finish_exit =
        let (p, h, run, sound) = found in
        (switched core p h, rw run, still-IsSound h _ refl refl refl sound)

  finish_ok : (self : Ptr) (g : State) → IsSound g → Finishes self Config.ReturnState.ok g
  unfolding reschedule switch_to
  finish_ok self g w = (
    switched core self (count_events 1 core world.exit_counter g),
    refl,
    still-IsSound g _ refl refl refl w,
  )

  pub finish_sched :
      (self : Ptr) (g : State)
      → IsSound g
      → g.running core ≢ null
      → Standby core g
      → ((c : ℕ) → g.locks (queue_lock c) ≡ 0)
      → Finishes self Config.ReturnState.sched g
  unfolding reschedule switch_to
  finish_sched self g w pos standby locks =
      let mine = g.running core in
      let t = core_timer_rearm core tick_rearm (readied core mine g) in
      let e = readied-Evolves core mine g (w.off_lists core small pos) w.queued in
      let e' : Evolves mine g t =
        chain e (still mine (readied core mine g) t e.queued refl refl refl) in
      let (p, h, run, sound) = found self g t w standby e' locks in
      (
        switched core p (count_events 1 core world.exit_counter h),
        rw (ready_lem core mine g (locks _), run),
        still-IsSound h _ refl refl refl sound,
      )

  module _ (s : State) (w : IsSound s) (pos : s.running core ≢ null) (standby : Standby core s)
      (fresh : IsFresh world.process_block s) where
    finish :
        (code : ReturnState) (g : State)
        → ((c : ℕ) → g.locks (queue_lock c) ≡ 0)
        → Evolves (if is_leaving code then s.running core else world.process_block) s g
        → Finishes (s.running core) code g
    finish ok g locks e =
        finish_ok (s.running core) g (kept-IsSound core s g world.process_block w e fresh.idle)
    finish sched g locks e =
        finish_sched (s.running core) g (kept-IsSound core s g world.process_block w e fresh.idle)
          (λ z. pos (sym (ap (λ (f : ℕ → Ptr). f core) e.running) ∙ z))
          (Standby-Evolves core world.process_block s g e standby) locks
    finish block g locks e = finish_block (s.running core) s g w standby e locks
    finish exit g locks e = finish_exit (s.running core) s g w standby e locks

-- Where the queues and the running processes are sound, no spinlock is held, the core runs a process
-- and another is ready on it, and the block that `malloc` gives for a new process is linked nowhere and
-- runs nowhere: every system call that the handler serves returns, and leaves them sound. The calls
-- that it does not serve are those that the `switch` does not name, and a creation without memory.
pub call-IsSound :
    (world : World) (core : ℕ) (c : Call) (s : State)
    → core < num_cores
    → served world c ≡ true
    → Unlocked s
    → IsSound s
    → s.running core ≢ null
    → Standby core s
    → IsFresh world.process_block s
    → (g : State) × (common_interrupt world core (int_syscall c) s ≡ Run.ok tt g) × IsSound g
unfolding common_interrupt
call-IsSound world core c s small reply free w pos standby fresh =
    let t = count_events 0 core world.entry_counter (switch_from core s) in
    let (code, g, run, locks, e) =
      handle-Handled world core t free (still-IsSound s t refl refl refl w).queued
        (w.off_lists core small pos) fresh.absent c reply in
    let (h, run', sound) =
      finish world core small t (still-IsSound s t refl refl refl w) pos standby
        (record { absent = fresh.absent; idle = fresh.idle }) code g locks e in
    (h, rw run run', sound)
