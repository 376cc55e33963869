-- ===== src/Kernel/Life.antt =====
-- The life of the kernel: `proc_init` and `disp_init`, then the starts of cores and the interrupts, in any
-- order (src/c/kernel/kinit.c and src/c/kernel/dispatch.c).
pub mod Alive
use rpi_kernel.Base.{
  ℕ, ◌+◌, ◌^◌, ◌<◌, ◌≡◌, ◌≢◌, refl, ap, sym, ◌∙◌, false, arith, ◌==◌, has, List, [], int_max,
}
use rpi_kernel.Config.{num_cores}
use rpi_kernel.Links.{Ptr, null}
use rpi_kernel.State.{State, World, Head, Run, Unlocked}
use rpi_kernel.Sched.{queue_length}
use rpi_kernel.Dispatch.{Call, int_syscall, int_timer, common_interrupt}
use rpi_kernel.Dispatch.Live.{IsUp}
use rpi_kernel.Dispatch.Live.Calls.{IsCall, call-Serves}
use rpi_kernel.Dispatch.Live.Tick.{Tied, IsTick, tick-Serves}
use rpi_kernel.Kernel.{Locals, kernel_start, proc_init, disp_init}
use rpi_kernel.Kernel.Init.{init-IsSound}
use rpi_kernel.Kernel.Start.{IsRoomy}
use rpi_kernel.Kernel.Up.{IsElsewhere, start-IsUp}

-- What `kernel_start` needs on a core, with `idles core` the process that it makes of `idle_proc`.
pub record IsStart (idles : ℕ → Ptr) (first second : World) (l : Locals) (core : ℕ) (s : State)
    : Type 0 where
  pub roomy : IsRoomy first second l s
  pub short : queue_length s core + 1 < int_max
  pub pid : s.next_pid ≢ 0
  pub pids : s.next_pid + 2 < 2 ^ 32
  pub mine : idles core ≡ first.process_block
  pub elsewhere :
      (d : ℕ)
      → (d == core) ≡ false
      → d < num_cores
      → s.running d ≢ null
      → IsElsewhere idles first second l s d

-- The states that the kernel reaches. Between the interrupts the processes write to memory what they like, and a
-- call writes where its arguments say, but neither to the affinity sets of the idle processes.
pub data Life (idles : ℕ → Ptr) (s : State) : State → Type 0 where
  begins : Life idles s (disp_init (proc_init s))
  starts :
      {t : State} (first second : World) (l : Locals) (core : ℕ) (u : State)
      → Life idles s t
      → core < num_cores
      → IsStart idles first second l core t
      → kernel_start first second l core t ≡ Run.ok tt u
      → Life idles s u
  calls :
      {t : State} (world : World) (core : ℕ) (c : Call) (u : State)
      → Life idles s t
      → core < num_cores
      → IsCall idles world core c t
      → common_interrupt world core (int_syscall c) t ≡ Run.ok tt u
      → Tied idles u
      → Life idles s u
  ticks :
      {t : State} (world : World) (core : ℕ) (u : State)
      → Life idles s t
      → core < num_cores
      → IsTick idles world core t
      → common_interrupt world core int_timer t ≡ Run.ok tt u
      → Life idles s u
  writes :
      {t : State} (memory : Ptr → ℕ) (u : State)
      → Life idles s t
      → u ≡ record t { memory = memory }
      → Tied idles u
      → Life idles s u
