-- ===== src/Kernel/Release/Begun.antt =====
-- What the release of a core by `kernel_release_handler` of src/c/kernel/kinit.c comes to, at any time of
-- the kernel's life.
use rpi_kernel.Base.{
  ℕ, ◌-◌, ◌^◌, ◌<◌, ◌≡◌, ◌≢◌, refl, ap, false, ◌&&◌, ◌||◌, some, ◌==◌, if◌then◌else◌, leb, [],
  update, update_key,
}
use rpi_kernel.Config.{num_cores}
use rpi_kernel.Links.{Ptr, null}
use rpi_kernel.State.{
  State, World, Head, Run, Unlocked, newlib_lock, lock_key, relock, spin_lock-ok, spin_unlock,
}
use rpi_kernel.Sched.{queue_length}
use rpi_kernel.Interrupts.{run, ffs, interrupt_handler_irq, interrupt_handler_sync}
use rpi_kernel.Kernel.{Locals, kernel_start}
use rpi_kernel.Kernel.Life.{IsStart, Life, starts}
use rpi_kernel.Kernel.Life.Alive.{IsAlive, start_result, life-IsAlive}
use rpi_kernel.Kernel.Vectors.{Machine, vector, start_vectors}
use rpi_kernel.Kernel.Vectors.Route.{irq_start, sync_start}
use rpi_kernel.Kernel.Release.{release_core, go_on, kernel_release_handler}

-- A core that has started, with the machine `m` from before.
pub record Begun (idles : ℕ → Ptr) (core : ℕ) (m g : Machine) : Type 0 where
  pub alive : IsAlive idles g.kernel
  pub at_work : g.kernel.running core ≢ null
  pub others : (d : ℕ) → (d == core) ≡ false → g.kernel.running d ≡ m.kernel.running d
  pub mailboxes :
      (c src : ℕ)
      → src ≢ 0
      → src < 2 ^ 29
      → interrupt_handler_irq c src g.tables ≡ (
          if (c == core) && (leb 5 (ffs src) && leb (ffs src) 8)
          then run (vector null)
          else interrupt_handler_irq c src m.tables)
  pub exceptions :
      (c esr : ℕ) → interrupt_handler_sync c esr g.tables ≡ interrupt_handler_sync c esr m.tables
  pub cleared : (c : ℕ) → g.cleared c ≡ (if c == core then 2 ^ 32 - 1 else m.cleared c)

-- The start is all that is left of the handler where the lock of the C library is free and both processes
-- are created.
released :
    (first second : World) (l : Locals) (core : ℕ) (s g : State)
    → s.locks newlib_lock ≡ 0
    → kernel_start first second l core s ≡ Run.ok tt g
    → ((g.memory l.idle_thread == 0) || (g.memory l.root_thread == 0)) ≡ false
    → release_core first second l core s ≡ Run.ok tt g
unfolding release_core spin_unlock
released first second l core s g free run made =
    let same : record s { locks = update_key (update_key s.locks newlib_lock 1) newlib_lock 0 }
        ≡ s =
      ap (λ k. record s { locks = k }) (relock s.locks newlib_lock free) in
    rw (spin_lock-ok newlib_lock s free, same, run, made) refl

-- At any time of the kernel's life, as `life-IsAlive` has it, where the core can start: the handler by which
-- it is released gets to the core's first process. The kernel lives on with the core at work, the other
-- cores run what they ran, the interrupts of the core's mailboxes reach NULL from now on, all others, and
-- the exceptions, reach what they reached before, and the core's first mailbox is cleared.
pub release_begins :
    (idles : ℕ → Ptr) (first second : World) (l : Locals) (core : ℕ) (s : State) (m : Machine)
    → ((a : Head) → s.lists a ≡ [])
    → ((c : ℕ) → s.running c ≡ null)
    → ((c : ℕ) → queue_length s c ≡ 0)
    → Unlocked s
    → Life idles s m.kernel
    → core < num_cores
    → IsStart idles first second l core m.kernel
    → (g : Machine) × (kernel_release_handler first second l core m ≡ some g)
      × Life idles s g.kernel
      × Begun idles core m g
unfolding kernel_release_handler
release_begins idles first second l core s m empty idle_cores lengths free life small start =
    let now = life-IsAlive idles s m.kernel empty idle_cores lengths free life in
    let (u, run, up, tied, pos, others, made) =
      start_result idles m.kernel now.up now.tied first second l core small start in
    let later = starts first second l core u life small start run in
    (
      record m {
        tables = start_vectors core m.tables;
        cleared = update m.cleared core (2 ^ 32 - 1);
        kernel = u;
      },
      ap (go_on core m)
          (released first second l core m.kernel u (now.up.free newlib_lock) run made),
      later,
      record {
        alive = life-IsAlive idles s u empty idle_cores lengths free later;
        at_work = pos;
        others = others;
        mailboxes = λ c src some_source small'. irq_start core c src m.tables some_source small';
        exceptions = λ c esr. sync_start core c esr m.tables;
        cleared = λ c. refl;
      },
    )
