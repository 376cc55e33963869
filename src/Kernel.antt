-- ===== src/Kernel.antt =====
-- The start of the kernel: `proc_init` of src/c/kernel/thread.c, `disp_init` of src/c/kernel/dispatch.c,
-- and what `kernel_start` of src/c/kernel/kinit.c does to the state that the cores share.
pub mod Created
pub mod Start
pub mod Up
pub mod Life
pub mod Init
pub mod Programs
pub mod Vectors
pub mod Release
pub mod Blink
use rpi_kernel.Base.{
  ℕ, zero, suc, ◌+◌, ◌==◌, ◌||◌, if◌then◌else◌, false, List, [], ◌∷◌, update, update_key,
}
use rpi_kernel.Config.{Priority, idle, low, med, high, new, num_cores, pidhash_size, tick_rearm}
use rpi_kernel.CpuSet.{cpu_zero, cpu_set}
use rpi_kernel.Links.{Ptr, null}
use rpi_kernel.State.{
  Process, State, World, Head, ready_at, head_key, Cmd, pure, and_then, ◌>>=◌, ◌>>◌, modify, gets,
  with_proc, store_word,
}
use rpi_kernel.Sched.{next}
use rpi_kernel.Thread.{proc_create}
use rpi_kernel.Dispatch.{switch_to, core_timer_rearm}

-- The loop from bucket `b` on, with `left` to go.
abbrev pub init_buckets : (left b : ℕ) → State → State
init_buckets zero b s = s
init_buckets (suc left) b s =
    init_buckets left (suc b) (record s { process_hash = update s.process_hash b [] })

abbrev pub proc_init : State → State
proc_init s = init_buckets pidhash_size 0 (record s { process_list = [] })

-- The inner loop from core `j` on, with `left` to go, and the outer one.
abbrev pub init_cores : Priority → (left j : ℕ) → State → State
init_cores i zero j s = s
init_cores i (suc left) j s =
    init_cores i left (suc j) (record s { lists = update_key s.lists (ready_at j i) [] })

abbrev pub init_priorities : List Priority → State → State
init_priorities [] s = s
init_priorities (i ∷ is) s = init_priorities is (init_cores i num_cores 0 s)

abbrev pub disp_init : State → State
disp_init = init_priorities (idle ∷ low ∷ med ∷ high ∷ [])

-- Where the locals of `kernel_start` and the two functions that the first processes run stand in memory.
-- `boot` is the empty process that runs while there is none.
pub record Locals : Type 0 where
  pub boot : Ptr
  pub affinity : Ptr
  pub idle_thread : Ptr
  pub root_thread : Ptr
  pub idle_proc : Ptr
  pub perf_root : Ptr

-- The members of `(process_t) { }` that the kernel reads.
abbrev pub empty_process : Process → Process
empty_process q = record q {
  pid = 0;
  ret = 0;
  status = null;
  trace = false;
  affinityset = null;
  state = new;
  initial_priority = idle;
  current_priority = idle;
  stack_size = 0;
  stack_base = null;
  frame = null;
  pending_signal = 0;
  blocked_signal = 0;
  perf_count = λ mode core counter. 0;
  tick_count = 0;
  tick_delta = 0;
}

-- The initial values of the locals.
abbrev pub with_locals : Locals → ℕ → State → State
with_locals l core s =
    let t = record s { running = update s.running core l.boot } in
    let u = with_proc l.boot empty_process t in
    let v = store_word l.root_thread 0 (store_word l.idle_thread 0 u) in
    store_word l.affinity (cpu_set core cpu_zero) v

-- `kernel_start` from "Create initial processes" on. `first` and `second` answer the two creations.
-- The return where no process was created is `tt`, as the end is.
unfoldable pub kernel_start : (first second : World) → Locals → ℕ → Cmd (Unit {0})
kernel_start first second l core = do
  modify (with_locals l core)
  proc_create first core l.idle_thread l.idle_proc 0 idle l.affinity
  proc_create second core l.root_thread l.perf_root 0 med l.affinity
  failed ← gets (λ s. (s.memory l.idle_thread == 0) || (s.memory l.root_thread == 0))
  if failed
      then pure tt
      else do found ← next core; switch_to core found; modify (core_timer_rearm core tick_rearm)
