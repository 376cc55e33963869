-- ===== src/Thread/Create/Keep.antt =====
-- `proc_create` of src/c/kernel/thread.c, and the queues.
use rpi_kernel.Base.{ℕ, suc, ◌+◌, ◌≡◌, refl, false, arith, ◌==◌, ◌||◌, u32, Bool-cases, inl, inr}
use rpi_kernel.Config
use rpi_kernel.Config.{Priority, eagain}
use rpi_kernel.Links.{Ptr, null}
use rpi_kernel.State.{State, World, waiting_for, Unlocked}
use rpi_kernel.Sched.Invariant.{IsQueued, Detached}
use rpi_kernel.Sched.Invariant.Evolve.{Evolves, chain, still, readied-Evolves, emptied-Evolves}
use rpi_kernel.Sched.Invariant.Handled.{Answered}
use rpi_kernel.Semaphore.{set_ret}
use rpi_kernel.Thread.{proc_create}
use rpi_kernel.Thread.Create.{entered, begun, made, proc_create_lem, proc_create_exhausted_pids}

module _ (world : World) (core thread start arg : ℕ) (priority : Priority) (affinityset : Ptr)
    (s : State) (free : Unlocked s) (q : IsQueued s) where
  abbrev new_process : Ptr
  new_process = world.process_block

  abbrev before_ready : State
  before_ready =
      entered core new_process world.stack_block s.next_pid start arg world.pthread_exit priority
        affinityset (begun world core thread start arg priority affinityset s free)

  entered-Evolves : (out : Ptr) → Evolves out s before_ready
  entered-Evolves out =
      emptied-Evolves out (waiting_for new_process) s before_ready (λ c r. refl) q refl refl refl

  pub made-Evolves :
      Detached new_process s
      → Evolves new_process s (made world core thread start arg priority affinityset s free)
  made-Evolves absent =
      let e = entered-Evolves new_process in
      let still_absent : Detached new_process before_ready =
        (entered-Evolves (suc new_process)).detached new_process (omega arith) absent in
      chain e (readied-Evolves core new_process before_ready still_absent e.queued)

  pub proc_create-Answered :
      ((world.process_block == null) || (world.stack_block == null)) ≡ false
      → Detached world.process_block s
      → Answered core world.process_block s
          (proc_create world core thread start arg priority affinityset s)
  proc_create-Answered enough absent = elim (Bool-cases (u32 (s.next_pid + 1) == 0)) [
    | inl z ↦ (
      Config.ReturnState.ok,
      set_ret core eagain (record s { next_pid = 0 }),
      proc_create_exhausted_pids world core thread start arg priority affinityset s free enough
          (ground arith),
      λ c. free _,
      still new_process s _ q refl refl refl,
    )
    | inr nz ↦ (
      Config.ReturnState.ok,
      made world core thread start arg priority affinityset s free,
      proc_create_lem world core thread start arg priority affinityset s free enough (ground arith),
      λ c. free _,
      made-Evolves absent,
    )
  ]
