-- ===== src/Tests/Start.antt =====
-- The start of the kernel, the interface of the processes and the pool of workers at concrete inputs.
use rpi_kernel.Base.{ℕ, ◌-◌, ◌^◌, ◌<◌, ◌≡◌, ◌↔◌, refl, [], ◌∷◌, has, ap, arith}
use rpi_kernel.Links.{Ptr}
use rpi_kernel.State.{State, World, Run}
use rpi_kernel.Sched.Invariant.{Detached}
use rpi_kernel.Dispatch.{int_syscall}
use rpi_kernel.Dispatch.Sound.{IsSound}
use rpi_kernel.Kernel.{Locals, proc_init, disp_init}
use rpi_kernel.Kernel.Init.{init-IsSound}
use rpi_kernel.Kernel.Start.{IsRoomy}
use rpi_kernel.Pool.{
  Pool, initial, Turn, Turns, stop, step, filler_locks, filler_fills, joining, returned, in_round,
  filled,
}
use rpi_kernel.Pool.Account.{IsAccounted}
use rpi_kernel.Pool.Reach.{turns-IsAccounted}
use rpi_kernel.Pool.Abandon.{abandons_work}
use rpi_kernel.Syscall.{Api, stub, decode, syscall_ret}
use rpi_kernel.Syscall.Calls.{meant, enter, sleeps, decode-stub, unserved_hangs, sys_malloc_lem}
use rpi_kernel.Tests.System.{system, world}

-- The kernel as it is loaded: no process, no list, no lock that is held.
abbrev pub loaded : State
loaded = record system {
  lists = λ a. [];
  process_list = 7 ∷ [];
  process_hash = λ b. 7 ∷ [];
  queues = λ core. record { ticks_to_balance = 0; length = 0 };
  running = λ core. 0;
  next_pid = 1;
  live_procs = 0;
}

abbrev pub ready_to_start : State
ready_to_start = disp_init (proc_init loaded)

abbrev pub second_world : World
second_world = record world { process_block = 6000; stack_block = 190_000 }

abbrev pub locals : Locals
locals = record {
  boot = 700;
  affinity = 710;
  idle_thread = 720;
  root_thread = 730;
  idle_proc = 40_000;
  perf_root = 41_000;
}

start-IsSound : IsSound ready_to_start
start-IsSound = (init-IsSound loaded (λ a o. refl) (λ c. refl) (λ c. refl)).0

start-Detached : (p : Ptr) → Detached p ready_to_start
start-Detached p a = ap (has p) ((init-IsSound loaded (λ a o. refl) (λ c. refl) (λ c. refl)).1 a)

pub start-IsRoomy : IsRoomy world second_world locals ready_to_start
start-IsRoomy = record {
  first_block = refl;
  second_block = refl;
  blocks_apart = omega arith;
  first_absent = start-Detached 5000;
  second_absent = start-Detached 6000;
  first_idle = λ c small. omega arith;
  second_idle = λ c small. omega arith;
  null_absent = start-Detached 0;
  affinity_set = omega arith;
  apart = ground arith;
}

decode-stub_example :
    decode (λ i. 9) (stub (Api.sem_init 50 0 3))
    ≡ int_syscall (meant (λ i. 9) (Api.sem_init 50 0 3))
decode-stub_example = decode-stub (λ i. 9) (Api.sem_init 50 0 3) (omega arith, omega arith)

unserved_hangs_example : enter world 0 (λ i. 9) (Api.syssleep 100) system ≡ Run.hang
unserved_hangs_example = unserved_hangs world 0 (λ i. 9) (Api.syssleep 100) system (sleeps 100)

sys_malloc_lem_example :
    (g : State) × (enter world 0 (λ i. 9) (Api.sys_malloc 24) system ≡ Run.ok tt g)
    × ((syscall_ret ((g.frames (g.sp 0)).reg 0) ≡ world.heap_block) ↔ (world.heap_block < 2 ^ 31))
sys_malloc_lem_example = sys_malloc_lem world 0 (λ i. 9) 24 system (λ l. refl) (omega arith)

-- The pool after the first round.
abbrev first_lock : Pool
first_lock = record initial { lock = 1; filler = in_round 0 }

abbrev first_filled : Pool
first_filled = filled 16 0 first_lock

turns-IsAccounted_example : IsAccounted 64 first_filled
turns-IsAccounted_example = turns-IsAccounted 64 16 first_filled (
    step initial first_lock first_filled
      (step initial initial first_lock (stop initial)
        (filler_locks initial 0 refl (omega arith) refl))
      (filler_fills first_lock 0 refl))

abandons_work_example :
    (s : Pool) × Turns 64 16 initial s
    × (s.filler ≡ joining)
    × ((w : ℕ) → w < 16 → s.worker w ≡ returned)
    × (s.queue ≡ (64 - 1) ∷ [])
    × ((t : Pool) → ¬ Turn 64 16 s t)
abandons_work_example = abandons_work 64 16 (omega arith) (omega arith)
