-- ===== src/Dispatch.antt =====
-- The interrupt handler: `common_interrupt` of src/c/kernel/dispatch.c, `switch_from` and
-- `switch_to` of context.c, and `core_timer_rearm` of src/c/timer.c.
pub mod Calls
pub mod Switch
pub mod Sound
pub mod Live
pub mod RoundRobin
pub mod Balance
use rpi_kernel.Base.{
  ℕ, ◌+◌, ◌≡◌, Bool, true, false, Option, none, some, List, [], ◌∷◌, ◌==◌, if◌then◌else◌, ltb, u64,
  pred32, update, not,
}
use rpi_kernel.Config.{
  ReturnState, ok, sched, block, exit, med, num_cores, perf_counters, clock_divd, tick_rearm,
}
use rpi_kernel.CpuSet.{cpu_isset}
use rpi_kernel.Links.{Ptr}
use rpi_kernel.State.{
  Frame, Process, RunQueue, State, World, Lock, newlib_lock, Run, hang, fault, Cmd, pure, and_then,
  ◌>>=◌, ◌>>◌, modify, gets, spin_lock, spin_unlock, with_proc,
}
use rpi_kernel.Sched.{current, affinity, ready, next, sched_pull}
use rpi_kernel.Semaphore.{
  set_ret, sem_init, sem_destroy, sem_wait, sem_trywait, sem_post, sem_getvalue,
}
use rpi_kernel.Thread.{proc_create, proc_join, proc_exit, proc_tick}

-- A system call: the request number that the SVC stub put on the caller's stack, with what `va_arg`
-- reads behind it. The requests that the `switch` does not name are `unhandled`.
pub data Call : Type 0 where
  sys_puts : (str : Ptr) → Call
  sys_set_trace : (trace : ℕ) → Call
  sys_malloc : (size : ℕ) → Call
  sched_yield : Call
  sched_set_affinity : (affinityset : Ptr) → Call
  sched_get_affinity : (mask : Ptr) → Call
  pthread_create : (thread start arg affinityset : ℕ) → Call
  pthread_exit : (status : ℕ) → Call
  pthread_join : (thread status : ℕ) → Call
  pthread_self : Call
  sem_init_call : (sem pshared value : ℕ) → Call
  sem_destroy_call : (sem : Ptr) → Call
  sem_wait_call : (sem : Ptr) → Call
  sem_trywait_call : (sem : Ptr) → Call
  sem_post_call : (sem : Ptr) → Call
  sem_getvalue_call : (sem sval : Ptr) → Call
  unhandled : (request : ℕ) → Call

pub data Interrupt : Type 0 where
  int_syscall : Call → Interrupt
  int_timer : Interrupt

-- The saved SP_EL0 is where the vector code left the caller's frame.
abbrev pub switch_from : ℕ → State → State
switch_from core s = with_proc (current core s) (λ q. record q { frame = s.sp core }) s

-- Puts `ret` into x0 of the saved frame and makes SP_EL0 point to it. NULL is a fault.
unfoldable pub switch_to : ℕ → Option Ptr → Cmd (Unit {0})
switch_to core none = λ s. fault
switch_to core (some p) = modify λ s. record s {
  frames = update s.frames (s.procs p).frame (record (s.frames (s.procs p).frame) {
    reg = update (s.frames (s.procs p).frame).reg 0 (s.procs p).ret;
  });
  sp = update s.sp core (s.procs p).frame;
}

-- `perf_count[mode][core][i] += read(i)` for the counters that there are.
abbrev pub add_counters : ℕ → ℕ → (ℕ → ℕ) → Process → Process
add_counters mode core read q = record q {
  perf_count = λ m c i.
      if m == mode
      then (if c == core
          then (if ltb i perf_counters
              then u64 (q.perf_count m c i + read i)
              else q.perf_count m c i)
          else q.perf_count m c i)
      else q.perf_count m c i;
}

abbrev pub count_events : ℕ → ℕ → (ℕ → ℕ) → State → State
count_events mode core read s = with_proc (current core s) (add_counters mode core read) s

abbrev pub core_timer_rearm : ℕ → ℕ → State → State
core_timer_rearm core ticks s = record s { timer = update s.timer core ticks }

abbrev pub with_ticks : ℕ → ℕ → State → State
with_ticks core ticks s = record s {
  queues = update s.queues core (record (s.queues core) { ticks_to_balance = ticks });
}

-- The balancing of SYS_TIME_SLICE.
unfoldable pub balance : World → ℕ → Cmd (Unit {0})
balance world core = do
  modify (λ s. with_ticks core (pred32 (s.queues core).ticks_to_balance) s)
  due ← gets (λ s. (s.queues core).ticks_to_balance == 0)
  if due then (do modify (with_ticks core clock_divd); sched_pull core world.pull_set) else pure tt

-- The body of `switch (request)`.
unfoldable pub handle : World → ℕ → Interrupt → Cmd ReturnState
unfolding balance
handle world core int_timer = do balance world core; proc_tick core
handle world core (int_syscall (sys_puts str)) = do
  spin_lock newlib_lock
  modify (set_ret core world.printed)
  spin_unlock newlib_lock
  pure ok
handle world core (int_syscall (sys_set_trace trace)) = do
  self ← gets (current core)
  modify (with_proc self (λ q. record q { trace = not (trace == 0) }))
  modify (set_ret core 0)
  pure ok
handle world core (int_syscall (sys_malloc size)) = do
  spin_lock newlib_lock
  modify (set_ret core world.heap_block)
  spin_unlock newlib_lock
  pure ok
handle world core (int_syscall sched_yield) = pure sched
handle world core (int_syscall (sched_set_affinity affinityset)) = do
  self ← gets (current core)
  modify (with_proc self (λ q. record q { affinityset = affinityset }))
  modify (set_ret core 0)
  eligible ← gets (λ s. cpu_isset core (affinity s self))
  pure (if eligible then sched else ok)
handle world core (int_syscall (sched_get_affinity mask)) = do modify (set_ret core 0); pure ok
handle world core (int_syscall (pthread_create thread start arg affinityset)) =
    proc_create world core thread start arg med affinityset
handle world core (int_syscall (pthread_exit status)) = proc_exit core status
handle world core (int_syscall (pthread_join thread status)) = proc_join core thread status
handle world core (int_syscall pthread_self) = do
  modify (λ s. set_ret core (s.procs (current core s)).pid s)
  pure ok
handle world core (int_syscall (sem_init_call sem pshared value)) = sem_init core sem pshared value
handle world core (int_syscall (sem_destroy_call sem)) = sem_destroy core sem
handle world core (int_syscall (sem_wait_call sem)) = sem_wait core sem
handle world core (int_syscall (sem_trywait_call sem)) = sem_trywait core sem
handle world core (int_syscall (sem_post_call sem)) = sem_post core sem
handle world core (int_syscall (sem_getvalue_call sem sval)) = sem_getvalue core sem sval
handle world core (int_syscall (unhandled request)) = do
  spin_lock newlib_lock
  spin_unlock newlib_lock
  λ s. hang

-- The body of `switch (code)`: which process runs next. `self` is the one that was interrupted.
unfoldable pub reschedule : ℕ → (self : Ptr) → ReturnState → Cmd (Option Ptr)
reschedule core self ok = pure (some self)
reschedule core self sched = do
  task ← gets (current core)
  ready core task
  modify (core_timer_rearm core tick_rearm)
  next core
reschedule core self block = next core
reschedule core self exit = next core

abbrev pub is_exit : ReturnState → Bool
is_exit exit = true
is_exit ok = false
is_exit sched = false
is_exit block = false

unfoldable pub common_interrupt : World → ℕ → Interrupt → Cmd (Unit {0})
common_interrupt world core interrupt = do
  self ← gets (current core)
  modify (switch_from core)
  modify (count_events 0 core world.entry_counter)
  code ← handle world core interrupt
  scheduled ← reschedule core self code
  modify (λ s. if is_exit code then s else count_events 1 core world.exit_counter s)
  switch_to core scheduled
