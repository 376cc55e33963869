-- ===== src/Tests/Life.antt =====
-- A run of the kernel on one core: its start, a system call and a tick of the timer.
use rpi_kernel.Base.{
  ℕ, ◌≡◌, refl, [], ◌∷◌, arith, ◌==◌, some, if◌then◌else◌, false, Bool-cases, inl, inr,
}
use rpi_kernel.Config.{idle}
use rpi_kernel.Links.{Ptr}
use rpi_kernel.State.{State, Run, ok, hang, fault, ready_at, spin_lock, spin_unlock}
use rpi_kernel.Sched.{
  queue_length, ready, next, sched_pickcpu, sched_pickcpu_inactive, load_percent,
}
use rpi_kernel.Kernel.{kernel_start}
use rpi_kernel.Thread.{proc_create, proc_tick}
use rpi_kernel.CpuSet.{cpu_isset, cpu_set}
use rpi_kernel.Dispatch.{switch_to, reschedule, int_timer, handle, common_interrupt}
use rpi_kernel.Kernel.Life.{IsStart, Life, begins, starts, ticks}
use rpi_kernel.Kernel.Release.{kernel_release_handler}
use rpi_kernel.Kernel.Release.Begun.{Begun, release_begins}
use rpi_kernel.Kernel.Vectors.{Machine, kernel_init}
use rpi_kernel.Tests.Ports.{handlers, machine}
use rpi_kernel.Kernel.Life.Alive.{IsAlive, life-IsAlive}
use rpi_kernel.Dispatch.Live.Tick.{IsTick}
use rpi_kernel.Tests.System.{world}
use rpi_kernel.Tests.Start.{loaded, ready_to_start, second_world, locals, start-IsRoomy}

abbrev state_of : Run (Unit {0}) → State
state_of (ok done s) = s
state_of hang = loaded
state_of fault = loaded

abbrev idles : ℕ → Ptr
idles core = if core == 2 then 5000 else 0

started : State
unfolding kernel_start
started = state_of (kernel_start world second_world locals 2 ready_to_start)

start_runs : kernel_start world second_world locals 2 ready_to_start ≡ ok tt started
unfolding started kernel_start proc_create spin_lock spin_unlock ready sched_pickcpu cpu_isset
    cpu_set load_percent sched_pickcpu_inactive next switch_to
start_runs = refl

idle_ready : (c : ℕ) → started.lists (ready_at c idle) ≡ (if c == 2 then 5000 ∷ [] else [])
unfolding started kernel_start proc_create spin_lock spin_unlock ready sched_pickcpu cpu_isset
    cpu_set load_percent sched_pickcpu_inactive next switch_to
idle_ready c = ground arith

one_ready : queue_length started 2 ≡ 1
unfolding started kernel_start proc_create spin_lock spin_unlock ready sched_pickcpu cpu_isset
    cpu_set load_percent sched_pickcpu_inactive next switch_to
one_ready = refl

root_runs : started.running 2 ≡ 6000
unfolding started kernel_start proc_create spin_lock spin_unlock ready sched_pickcpu cpu_isset
    cpu_set load_percent sched_pickcpu_inactive next switch_to
root_runs = refl

others_wait : (d : ℕ) → (d == 2) ≡ false → started.running d ≡ 0
unfolding started kernel_start proc_create spin_lock spin_unlock ready sched_pickcpu cpu_isset
    cpu_set load_percent sched_pickcpu_inactive next switch_to
others_wait d n = ground arith

idle_set : (started.procs 5000).affinityset ≡ 710
unfolding started kernel_start proc_create spin_lock spin_unlock ready sched_pickcpu cpu_isset
    cpu_set load_percent sched_pickcpu_inactive next switch_to
idle_set = refl

started-IsTick : IsTick idles world 2 started
started-IsTick = record {
  started = λ z. ground (arith, root_runs);
  room = λ c. ground (arith, idle_ready c, one_ready);
  apart = λ d small pos z. elim (Bool-cases (d == 2)) [
    | inl e ↦
        let at_idle : (started.procs 5000).affinityset ≡ 70_000 = rw e at z in
        ground (arith, idle_set)
    | inr n ↦ pos (others_wait d n)
  ];
}

tick_ends : State
unfolding common_interrupt
tick_ends = state_of (common_interrupt world 2 int_timer started)

tick_runs : common_interrupt world 2 int_timer started ≡ ok tt tick_ends
unfolding tick_ends started common_interrupt handle kernel_start proc_create spin_lock spin_unlock
    ready sched_pickcpu cpu_isset cpu_set load_percent sched_pickcpu_inactive next switch_to
    proc_tick reschedule
tick_runs = refl

ready-IsStart : IsStart idles world second_world locals 2 ready_to_start
ready-IsStart = record {
  roomy = start-IsRoomy;
  short = omega arith;
  pid = omega arith;
  pids = omega arith;
  mine = refl;
  elsewhere = λ d n small pos. absurd (pos refl);
}

life-IsAlive_example : IsAlive idles tick_ends
life-IsAlive_example =
    life-IsAlive idles loaded tick_ends (λ a. refl) (λ c. refl) (λ c. refl) (λ l. refl)
      (ticks world 2 tick_ends
        (starts world second_world locals 2 started begins (omega arith) ready-IsStart start_runs)
        (omega arith) started-IsTick tick_runs)

-- The machine that the first core leaves in `kernel_init`.
abbrev first_up : Machine
first_up = kernel_init handlers 0 (record machine { kernel = loaded })

release_begins_example :
    (g : Machine) × (kernel_release_handler world second_world locals 2 first_up ≡ some g)
    × Life idles loaded g.kernel
    × Begun idles 2 first_up g
unfolding kernel_init
release_begins_example =
    release_begins idles world second_world locals 2 loaded first_up (λ a. refl) (λ c. refl)
      (λ c. refl) (λ l. refl) begins (omega arith) ready-IsStart
