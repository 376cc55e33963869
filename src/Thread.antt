-- ===== src/Thread.antt =====
-- Processes: src/c/kernel/thread.c, `align` of context.c and `proc_tick` of sleep.c.
pub mod Table
pub mod Create
pub mod Exit
use rpi_kernel.Base.{
  ℕ, zero, suc, ◌+◌, ◌-◌, ◌^◌, ◌≡◌, Bool, true, false, ◌||◌, Option, none, some, List, [], ◌∷◌,
  ◌==◌, if◌then◌else◌, u32, u64, pred64, update, update_key, remove, bit_and, not,
}
use rpi_kernel.Config.{
  ReturnState, ok, sched, block, exit, Priority, new, zombie, num_cores, proc_stack, pid_hashfn,
  eagain, einval,
}
use rpi_kernel.CpuSet.{cpu_zero, cpu_set}
use rpi_kernel.Links.{Ptr, null}
use rpi_kernel.State.{
  Frame, Process, State, World, Head, waiting_for, head_key, Lock, waiting_lock, newlib_lock,
  process_list_lock, process_hash_lock, lock_key, Run, hang, Cmd, pure, and_then, ◌>>=◌, ◌>>◌,
  modify, gets, spin_lock, spin_unlock, with_proc, del_sched, store_word,
}
use rpi_kernel.Sched.{current, ready, sleep_on, alert_on}
use rpi_kernel.Semaphore.{set_ret}

-- The bits of `-alignment` are those of an `unsigned int`, so the result has 32 bits too.
unfoldable pub align : (address alignment : ℕ) → Ptr
align address alignment = bit_and address (2 ^ 32 - alignment)

abbrev pub sizeof_frame : ℕ
sizeof_frame = 272

-- `&p->affinitysetpreallocated`
abbrev pub preallocated : Ptr → Ptr
preallocated p = p + 48

unfoldable pub set_cores : ℕ → (cpu set : ℕ) → ℕ
set_cores zero cpu set = set
set_cores (suc left) cpu set = set_cores left (suc cpu) (cpu_set cpu set)

unfoldable pub find_pid : State → ℕ → List Ptr → Option Ptr
find_pid s pid [] = none
find_pid s pid (p ∷ ps) =
    let rest = find_pid s pid ps in if (s.procs p).pid == pid then some p else rest

unfoldable pub get_process : ℕ → Cmd (Option Ptr)
unfolding find_pid
get_process pid = do
  spin_lock process_hash_lock
  found ← gets (λ s. find_pid s pid (s.process_hash (pid_hashfn pid)))
  spin_unlock process_hash_lock
  pure found

-- The first frame of a process: it starts at EL1t in `start` with `arg`, and returns to
-- `pthread_exit`.
abbrev pub first_frame : (start arg exit_to : ℕ) → Frame
first_frame start arg exit_to = record {
  spsr = 4;
  elr = start;
  reg = λ i. if i == 0 then arg else if i == 30 then exit_to else 0;
}

abbrev pub frame_address : Ptr → Ptr
frame_address stack = align (stack + proc_stack - sizeof_frame) 16

-- The fields that `proc_create` writes; the others keep what the block held.
abbrev pub created :
    Ptr → (stack : Ptr) → (pid arg : ℕ) → Priority → (affinityset : Ptr) → Process → Process
created p stack pid arg priority affinityset q = record q {
  ret = arg;
  pid = pid;
  trace = false;
  stack_base = stack;
  stack_size = proc_stack;
  frame = frame_address stack;
  affinityset = if affinityset == null then preallocated p else affinityset;
  state = new;
  initial_priority = priority;
  current_priority = priority;
  tick_count = 0;
  tick_delta = 0;
  perf_count = λ mode core counter. 0;
  pending_signal = 0;
  blocked_signal = 0;
}

-- The part of `proc_create` that fills the new block and links it to the process tables.
unfoldable pub enter_process :
    ℕ
    → (p stack : Ptr) → (pid start arg exit_to : ℕ) → Priority
    → (affinityset : Ptr) → Cmd (Unit {0})
unfolding set_cores
enter_process core p stack pid start arg exit_to priority affinityset = do
  modify (λ s. record s { live_procs = u64 (s.live_procs + 1) })
  modify (λ s. record s {
    frames = update s.frames (frame_address stack) (first_frame start arg exit_to);
  })
  modify (store_word (preallocated p) (set_cores num_cores 0 cpu_zero))
  modify (with_proc p (created p stack pid arg priority affinityset))
  modify (λ s. record s { locks = update_key s.locks (waiting_lock p) 0 })
  modify (λ s. record s { lists = update_key s.lists (waiting_for p) [] })
  spin_lock process_list_lock
  spin_lock process_hash_lock
  modify (λ s. record s { process_list = p ∷ s.process_list })
  modify (λ s. record s {
    process_hash = update s.process_hash (pid_hashfn pid) (p ∷ s.process_hash (pid_hashfn pid));
  })
  spin_unlock process_hash_lock
  spin_unlock process_list_lock
  ready core p

unfoldable pub proc_create :
    World → ℕ → (thread start arg : ℕ) → Priority → (affinityset : Ptr) → Cmd ReturnState
unfolding enter_process
proc_create world core thread start arg priority affinityset = do
  spin_lock newlib_lock
  spin_unlock newlib_lock
  if (world.process_block == null) || (world.stack_block == null) then (λ s. hang) else do
    pid ← gets (λ s. s.next_pid)
    modify (λ s. record s { next_pid = u32 (s.next_pid + 1) })
    exhausted ← gets (λ s. s.next_pid == 0)
    if exhausted then (do modify (set_ret core eagain); pure ok) else do
      modify (set_ret core 0)
      modify (store_word thread pid)
      enter_process core world.process_block world.stack_block pid start arg world.pthread_exit
          priority affinityset
      pure ok

-- `proc_join` after the look-up.
unfoldable pub join_found : ℕ → (pid : ℕ) → (status : Ptr) → Option Ptr → Cmd ReturnState
join_found core pid status none = do modify (set_ret core einval); pure ok
join_found core pid status (some p) = do
  self ← gets (λ s. (s.procs (current core s)).pid == (s.procs p).pid)
  if (pid == 0) || self then (do modify (set_ret core einval); pure ok) else do
    task ← gets (current core)
    modify (with_proc task (λ q. record q { status = status }))
    sleep_on (waiting_for p) task (waiting_lock p)
    pure block

unfoldable pub proc_join : ℕ → (pid : ℕ) → (status : Ptr) → Cmd ReturnState
unfolding join_found
proc_join core pid status = do found ← get_process pid; join_found core pid status found

-- What `wake_waiting` does to a process that waits, beside its answer `true`.
abbrev pub joined_with : ℕ → Ptr → State → State
joined_with status p s =
    let t = with_proc p (λ q. record q { ret = 0 }) s in
    if (s.procs p).status == null then t else store_word (s.procs p).status status t

unfoldable pub wake_waiting : ℕ → Ptr → Cmd Bool
wake_waiting status p = do modify (joined_with status p); pure true

-- The report of a traced process goes to `printf` under the lock of newlib.
unfoldable pub report : Bool → Cmd (Unit {0})
report false = pure tt
report true = do spin_lock newlib_lock; spin_unlock newlib_lock

unfoldable pub proc_exit : ℕ → (status : ℕ) → Cmd ReturnState
unfolding report
proc_exit core status = do
  self ← gets (current core)
  modify (with_proc self (λ q. record q { state = zombie }))
  modify (λ s. record s { live_procs = pred64 s.live_procs })
  alert_on core (waiting_for self) (wake_waiting status) (waiting_lock self)
  trace ← gets (λ s. (s.procs self).trace)
  report trace
  modify (λ s. record s { process_list = remove self s.process_list })
  modify (λ s. record s { process_hash = λ b. remove self (s.process_hash b) })
  modify (del_sched self)
  pure exit

-- `proc_tick` of sleep.c
unfoldable pub proc_tick : ℕ → Cmd ReturnState
proc_tick core = do
  self ← gets (current core)
  modify (with_proc self (λ q. record q { tick_count = u64 (q.tick_count + 1) }))
  pure sched
