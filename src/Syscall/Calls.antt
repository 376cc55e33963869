-- ===== src/Syscall/Calls.antt =====
-- What the calls of src/c/kernel/syscall.c do, from the stub to the end of `common_interrupt`.
use rpi_kernel.Base.{
  ℕ, ◌^◌, ◌<◌, ◌≡◌, ◌≢◌, ◌↔◌, refl, Bool-cases, inl, inr, true, ◌==◌, arith, u32, ap, ◌∙◌,
  update_self,
}
use rpi_kernel.Config.{num_cores}
use rpi_kernel.Links.{Ptr, null}
use rpi_kernel.State.{
  Frame, Process, State, World, Run, Unlocked, newlib_lock, spin_unlock, spin_lock-ok,
  spin_lock-hang, relock,
}
use rpi_kernel.Sched.{current}
use rpi_kernel.Dispatch.{
  Call, int_syscall, handle, reschedule, switch_to, switch_from, count_events, common_interrupt,
}
use rpi_kernel.Dispatch.Calls.{switched}
use rpi_kernel.Semaphore.{set_ret}
use rpi_kernel.Dispatch.Sound.{IsSound, Standby}
use rpi_kernel.Dispatch.Sound.Calls.{served}
use rpi_kernel.Dispatch.Sound.Interrupt.{IsFresh, call-IsSound}
use rpi_kernel.Syscall.{
  syskill, syssleep, puts, gets, sys_malloc, sys_settrace, getpid, sched_yield, sched_setaffinity,
  sched_getaffinity, pthread_create, pthread_exit, pthread_join, pthread_self, sem_init,
  sem_destroy, sem_wait, sem_trywait, sem_post, sem_getvalue,
}
use rpi_kernel.Syscall.{Api, stub, decode, syscall_ret}

-- The call of the kernel that a function of the interface is for. The kernel has none for `syskill`,
-- `syssleep` and `gets`. The affinity set of a new process is not among the arguments of
-- `pthread_create`: it is what stands behind them.
abbrev pub meant : (beyond : ℕ → ℕ) → Api → Call
meant beyond (syskill pid sig) = Call.unhandled 1
meant beyond (syssleep ms) = Call.unhandled 2
meant beyond (puts str) = Call.sys_puts str
meant beyond (gets str) = Call.unhandled 4
meant beyond (sys_malloc size) = Call.sys_malloc size
meant beyond (sys_settrace trace) = Call.sys_set_trace trace
meant beyond getpid = Call.pthread_self
meant beyond sched_yield = Call.sched_yield
meant beyond (sched_setaffinity pid cpusetsize mask) = Call.sched_set_affinity mask
meant beyond (sched_getaffinity pid cpusetsize mask) = Call.sched_get_affinity mask
meant beyond (pthread_create thread attr start_routine arg) =
    Call.pthread_create thread start_routine arg (beyond 0)
meant beyond (pthread_exit status) = Call.pthread_exit status
meant beyond (pthread_join thread status) = Call.pthread_join (u32 thread) status
meant beyond pthread_self = Call.pthread_self
meant beyond (sem_init sem pshared value) = Call.sem_init_call sem pshared value
meant beyond (sem_destroy sem) = Call.sem_destroy_call sem
meant beyond (sem_wait sem) = Call.sem_wait_call sem
meant beyond (sem_trywait sem) = Call.sem_trywait_call sem
meant beyond (sem_post sem) = Call.sem_post_call sem
meant beyond (sem_getvalue sem sval) = Call.sem_getvalue_call sem sval

-- The arguments of type int and unsigned int have 32 bits.
abbrev pub FitsInt : Api → Type 0
FitsInt (sys_settrace trace) = trace < 2 ^ 32
FitsInt (sem_init sem pshared value) = (pshared < 2 ^ 32) × (value < 2 ^ 32)
FitsInt _ = Unit

-- The handler reads from what a stub put on the stack the call that the function is for, with the
-- arguments of the caller in their places, where those of type int have 32 bits; of the thread to join
-- these are the lower 32 bits, which a pthread_t has.
pub decode-stub :
    (beyond : ℕ → ℕ) (a : Api) → FitsInt a → decode beyond (stub a) ≡ int_syscall (meant beyond a)
unfolding decode stub
decode-stub beyond (syskill pid sig) fits = refl
decode-stub beyond (syssleep ms) fits = refl
decode-stub beyond (puts str) fits = refl
decode-stub beyond (gets str) fits = refl
decode-stub beyond (sys_malloc size) fits = refl
decode-stub beyond (sys_settrace trace) fits =
    ap (λ n. int_syscall (Call.sys_set_trace n)) (omega arith)
decode-stub beyond getpid fits = refl
decode-stub beyond sched_yield fits = refl
decode-stub beyond (sched_setaffinity pid cpusetsize mask) fits = refl
decode-stub beyond (sched_getaffinity pid cpusetsize mask) fits = refl
decode-stub beyond (pthread_create thread attr start_routine arg) fits = refl
decode-stub beyond (pthread_exit status) fits = refl
decode-stub beyond (pthread_join thread status) fits = refl
decode-stub beyond pthread_self fits = refl
decode-stub beyond (sem_init sem pshared value) (fits, fits') =
    ap (λ n. int_syscall (Call.sem_init_call sem n (u32 value))) (omega arith)
    ∙ ap (λ n. int_syscall (Call.sem_init_call sem pshared n)) (omega arith)
decode-stub beyond (sem_destroy sem) fits = refl
decode-stub beyond (sem_wait sem) fits = refl
decode-stub beyond (sem_trywait sem) fits = refl
decode-stub beyond (sem_post sem) fits = refl
decode-stub beyond (sem_getvalue sem sval) fits = refl

-- The functions that the kernel has no case for.
pub data IsUnserved : Api → Type 0 where
  kills : (pid sig : ℕ) → IsUnserved (syskill pid sig)
  sleeps : (ms : ℕ) → IsUnserved (syssleep ms)
  reads : (str : Ptr) → IsUnserved (gets str)

-- What a call comes to: the trap of its stub, as the handler takes it.
abbrev pub enter : World → (core : ℕ) (beyond : ℕ → ℕ) → Api → State → Run (Unit {0})
enter world core beyond a s = common_interrupt world core (decode beyond (stub a)) s

unhandled-hangs :
    (world : World) (core request : ℕ) (s : State)
    → handle world core (int_syscall (Call.unhandled request)) s ≡ Run.hang
unfolding handle spin_unlock
unhandled-hangs world core request s = elim (Bool-cases (s.locks newlib_lock == 0)) [
  | inl free ↦ rw (spin_lock-ok newlib_lock s (ground arith)) refl
  | inr held ↦ rw (spin_lock-hang newlib_lock s (ground arith)) refl
]

-- A call of `syskill`, `syssleep` or `gets` never returns: the handler spins for ever.
pub unserved_hangs :
    (world : World) (core : ℕ) (beyond : ℕ → ℕ) (a : Api) (s : State)
    → IsUnserved a
    → enter world core beyond a s ≡ Run.hang
unfolding common_interrupt
unserved_hangs world core beyond _ s (kills pid sig) =
    rw (decode-stub beyond (syskill pid sig) tt, unhandled-hangs world core 1 _) refl
unserved_hangs world core beyond _ s (sleeps ms) =
    rw (decode-stub beyond (syssleep ms) tt, unhandled-hangs world core 2 _) refl
unserved_hangs world core beyond _ s (reads str) =
    rw (decode-stub beyond (gets str) tt, unhandled-hangs world core 4 _) refl

-- Where the queues and the running processes are sound, no spinlock is held, the core runs a process
-- and another is ready on it, and the block that `malloc` gives for a new process is linked nowhere and
-- runs nowhere: every call of the interface but `syskill`, `syssleep` and `gets` returns and leaves them
-- sound, `pthread_create` if there is memory for the process and its stack.
pub api-IsSound :
    (world : World) (core : ℕ) (beyond : ℕ → ℕ) (a : Api) (s : State)
    → core < num_cores
    → FitsInt a
    → served world (meant beyond a) ≡ true
    → Unlocked s
    → IsSound s
    → s.running core ≢ null
    → Standby core s
    → IsFresh world.process_block s
    → (g : State) × (enter world core beyond a s ≡ Run.ok tt g) × IsSound g
api-IsSound world core beyond a s small fits reply free w pos standby fresh =
    rw (decode-stub beyond a fits)
      (call-IsSound world core (meant beyond a) s small reply free w pos standby fresh)

-- A word below 2 ^ 32 comes through the int of `syscall` just where it is no negative int.
syscall_ret_iff : (x y : ℕ) → y ≡ x → x < 2 ^ 32 → (syscall_ret y ≡ x) ↔ (x < 2 ^ 31)
unfolding syscall_ret
syscall_ret_iff x y e word = (λ h. ground arith, λ h. ground arith)

-- Where no spinlock is held and `malloc` gives an address below 2 ^ 32, a call of `sys_malloc` returns,
-- and the caller receives that address if and only if it lies below 2 ^ 31.
pub sys_malloc_lem :
    (world : World) (core : ℕ) (beyond : ℕ → ℕ) (size : ℕ) (s : State)
    → Unlocked s
    → world.heap_block < 2 ^ 32
    → (g : State) × (enter world core beyond (sys_malloc size) s ≡ Run.ok tt g)
      × ((syscall_ret ((g.frames (g.sp core)).reg 0) ≡ world.heap_block)
          ↔ (world.heap_block < 2 ^ 31))
unfolding common_interrupt handle reschedule switch_to spin_unlock
sys_malloc_lem world core beyond size s free word =
    let t = count_events 0 core world.entry_counter (switch_from core s) in
    let u = count_events 1 core world.exit_counter (set_ret core world.heap_block t) in
    let g = switched core (current core s) u in
    let p = current core s in
    let answer : (u.procs p).ret ≡ world.heap_block =
      ap (λ (q : Process). q.ret) (update_self (set_ret core world.heap_block t).procs p _)
      ∙ ap (λ (q : Process). q.ret) (update_self t.procs p _) in
    let at_caller : (g.frames (g.sp core)).reg 0 ≡ world.heap_block =
      ap (λ f. (g.frames f).reg 0) (update_self u.sp core _)
      ∙ (ap (λ (f : Frame). f.reg 0) (update_self u.frames (u.procs p).frame _)
          ∙ (update_self (u.frames (u.procs p).frame).reg 0 _ ∙ answer)) in
    (
      g,
      rw (
        decode-stub beyond (sys_malloc size) tt,
        spin_lock-ok newlib_lock t (free newlib_lock),
        relock t.locks newlib_lock (free newlib_lock),
      ),
      syscall_ret_iff world.heap_block _ at_caller word,
    )
