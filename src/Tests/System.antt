-- ===== src/Tests/System.antt =====
-- The state that the theorems on the kernel are applied to.
use rpi_kernel.Base.{◌+◌, false, List, [], ◌∷◌, ◌==◌, if◌then◌else◌}
use rpi_kernel.Config.{med, runnable}
use rpi_kernel.Links.{Ptr}
use rpi_kernel.State.{Process, State, World, Head, ready_at, waiting_for, sem_tasks, head_key}

-- Four processes at the addresses 1000 to 4000 with the pids 1 to 4, each with its CPU set behind
-- it. The first runs on core 0, the second is ready there, the third waits for the semaphore at 50,
-- and the fourth for the end of the first.
abbrev pub process_at : Ptr → Process
process_at p = record {
  pid = if p == 1000 then 1 else if p == 2000 then 2 else if p == 3000 then 3 else 4;
  ret = 0;
  status = 0;
  trace = false;
  affinityset = p + 48;
  state = runnable;
  initial_priority = med;
  current_priority = med;
  stack_size = 4096;
  stack_base = p + 100_000;
  frame = p + 104_000;
  pending_signal = 0;
  blocked_signal = 0;
  perf_count = λ mode core counter. 0;
  tick_count = 0;
  tick_delta = 0;
  blocked_on = sem_tasks 50;
}

abbrev pub queued : Head → List Ptr
queued (ready_at core med) = if core == 0 then 2000 ∷ [] else []
queued (sem_tasks sem) = if sem == 50 then 3000 ∷ [] else []
queued (waiting_for p) = if p == 1000 then 4000 ∷ [] else []
queued _ = []

abbrev pub system : State
system = record {
  procs = process_at;
  lists = queued;
  process_list = 4000 ∷ 3000 ∷ 2000 ∷ 1000 ∷ [];
  process_hash = λ b.
      if b == 1
      then 1000 ∷ []
      else if b == 2
      then 2000 ∷ []
      else if b == 3
      then 3000 ∷ []
      else if b == 4
      then 4000 ∷ []
      else [];
  queues = λ core. record { ticks_to_balance = 0; length = if core == 0 then 1 else 0 };
  sem_count = λ sem. if sem == 60 then 3 else 0;
  running = λ core. if core == 0 then 1000 else 0;
  next_pid = 5;
  live_procs = 4;
  locks = λ l. 0;
  memory = λ a. if a == 1048 then 15 else if a == 2048 then 15 else if a == 3048 then 6 else 15;
  frames = λ p. record { spsr = 4; elr = 0; reg = λ i. 0 };
  sp = λ core. 500_000;
  timer = λ core. 0;
}

abbrev pub world : World
world = record {
  process_block = 5000;
  stack_block = 90_000;
  heap_block = 80_000;
  printed = 6;
  entry_counter = λ i. i;
  exit_counter = λ i. i + 1;
  pull_set = 70_000;
  pthread_exit = 32_768;
}
