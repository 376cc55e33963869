-- ===== src/Dispatch/Sound/Calls.antt =====
-- Every call that `handle` of src/c/kernel/dispatch.c makes does no more to the queues than it may.
use rpi_kernel.Base.{
  ℕ, ◌≡◌, refl, ◌∙◌, Bool, true, false, not, ◌||◌, ◌==◌, arith, Bool-cases, inl, inr,
}
use rpi_kernel.Config
use rpi_kernel.Config.{med}
use rpi_kernel.CpuSet.{cpu_isset}
use rpi_kernel.Links.{Ptr, null}
use rpi_kernel.State.{
  State, World, newlib_lock, Unlocked, relock, spin_lock-ok, spin_unlock, with_proc,
}
use rpi_kernel.Sched.{current}
use rpi_kernel.Sched.Invariant.{IsQueued, Detached}
use rpi_kernel.Sched.Invariant.Evolve.{still}
use rpi_kernel.Sched.Invariant.Handled.{Handled, Answered, Answered-Handled}
use rpi_kernel.Semaphore.{set_ret}
use rpi_kernel.Semaphore.Keep.{
  sem_wait-Answered, sem_trywait-Answered, sem_getvalue-Answered, sem_init-Answered,
}
use rpi_kernel.Semaphore.Post.Keep.{sem_post-Answered, sem_destroy-Handled}
use rpi_kernel.Thread.Table.Keep.{proc_join-Answered}
use rpi_kernel.Thread.Create.Keep.{proc_create-Answered}
use rpi_kernel.Thread.Exit.Keep.{proc_exit-Answered}
use rpi_kernel.Dispatch.{
  Call, sys_puts, sys_set_trace, sys_malloc, sched_yield, sched_set_affinity, sched_get_affinity,
  pthread_create, pthread_exit, pthread_join, pthread_self, sem_init_call, sem_destroy_call,
  sem_wait_call, sem_trywait_call, sem_post_call, sem_getvalue_call, unhandled, int_syscall, handle,
}
use rpi_kernel.Dispatch.Calls.{with_affinity, handle-set_affinity}

-- The calls that the handler answers: those that the `switch` names, and of `pthread_create` those for
-- which `malloc` has two blocks.
abbrev pub served : World → Call → Bool
served world (pthread_create thread start arg affinityset) =
    not ((world.process_block == null) || (world.stack_block == null))
served world (unhandled request) = false
served world _ = true

-- The calls that give back every lock they take.
abbrev pub lasting : Call → Bool
lasting (sem_destroy_call sem) = false
lasting _ = true

module _ (world : World) (core : ℕ) (s : State) (free : Unlocked s) (q : IsQueued s)
    (self_out : Detached (current core s) s) (fresh_out : Detached world.process_block s) where
  abbrev fresh : Ptr
  fresh = world.process_block

  pub handle-Answered :
      (c : Call)
      → served world c ≡ true
      → lasting c ≡ true
      → Answered core fresh s (handle world core (int_syscall c) s)
  unfolding handle spin_unlock
  handle-Answered (sys_puts str) reply lasts = (
    Config.ReturnState.ok,
    set_ret core world.printed s,
    rw (
      spin_lock-ok newlib_lock s (free newlib_lock),
      relock s.locks newlib_lock (free newlib_lock),
    ),
    free,
    still fresh s _ q refl refl refl,
  )
  handle-Answered (sys_set_trace trace) reply lasts = (
    Config.ReturnState.ok,
    set_ret core 0 (with_proc (current core s) (λ p. record p { trace = not (trace == 0) }) s),
    refl,
    free,
    still fresh s _ q refl refl refl,
  )
  handle-Answered (sys_malloc size) reply lasts = (
    Config.ReturnState.ok,
    set_ret core world.heap_block s,
    rw (
      spin_lock-ok newlib_lock s (free newlib_lock),
      relock s.locks newlib_lock (free newlib_lock),
    ),
    free,
    still fresh s _ q refl refl refl,
  )
  handle-Answered sched_yield reply lasts =
      (Config.ReturnState.sched, s, refl, free, still fresh s _ q refl refl refl)
  handle-Answered (sched_set_affinity affinityset) reply lasts =
      elim (Bool-cases (cpu_isset core (s.memory affinityset))) [
        | inl eligible ↦ (
          Config.ReturnState.sched,
          with_affinity core affinityset s,
          handle-set_affinity world core affinityset s ∙ rw eligible,
          free,
          still fresh s _ q refl refl refl,
        )
        | inr barred ↦ (
          Config.ReturnState.ok,
          with_affinity core affinityset s,
          handle-set_affinity world core affinityset s ∙ rw barred,
          free,
          still fresh s _ q refl refl refl,
        )
      ]
  handle-Answered (sched_get_affinity mask) reply lasts =
      (Config.ReturnState.ok, set_ret core 0 s, refl, free, still fresh s _ q refl refl refl)
  handle-Answered (pthread_create thread start arg affinityset) reply lasts =
      proc_create-Answered world core thread start arg med affinityset s free q (ground arith)
        fresh_out
  handle-Answered (pthread_exit status) reply lasts =
      proc_exit-Answered core status s free q fresh self_out
  handle-Answered (pthread_join thread status) reply lasts =
      proc_join-Answered core fresh thread status s free q self_out
  handle-Answered pthread_self reply lasts = (
    Config.ReturnState.ok,
    set_ret core (s.procs (current core s)).pid s,
    refl,
    free,
    still fresh s _ q refl refl refl,
  )
  handle-Answered (sem_init_call sem pshared value) reply lasts =
      sem_init-Answered core fresh sem s free q pshared value
  handle-Answered (sem_destroy_call sem) reply lasts = absurd (ground arith)
  handle-Answered (sem_wait_call sem) reply lasts =
      sem_wait-Answered core fresh sem s free q self_out
  handle-Answered (sem_trywait_call sem) reply lasts = sem_trywait-Answered core fresh sem s free q
  handle-Answered (sem_post_call sem) reply lasts = sem_post-Answered core fresh sem s free q
  handle-Answered (sem_getvalue_call sem sval) reply lasts =
      sem_getvalue-Answered core fresh sem s free q sval
  handle-Answered (unhandled request) reply lasts = absurd (ground arith)

  pub handle-Handled :
      (c : Call)
      → served world c ≡ true
      → Handled core fresh s (handle world core (int_syscall c) s)
  unfolding handle
  handle-Handled (sem_destroy_call sem) reply = sem_destroy-Handled core fresh sem s free q
  handle-Handled c reply = Answered-Handled core fresh s _ (handle-Answered c reply refl)
