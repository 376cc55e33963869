-- ===== src/Dispatch/RoundRobin.antt =====
-- The processes of one priority on a core take turns: SYS_YIELD and the timer in `common_interrupt` of
-- src/c/kernel/dispatch.c, where the processes are tied to the core.
pub mod Keep
pub mod Turn
pub mod Reach
use rpi_kernel.Base.{
  ℕ, zero, suc, ◌<◌, ◌≤◌, ◌^◌, ◌≡◌, pred32, true, List, [], ◌∷◌, ◌++◌, ◌==◌, ◌∈◌, Distinct, int_max,
}
use rpi_kernel.Config.{Priority, num_cores}
use rpi_kernel.CpuSet.{cpu_isset}
use rpi_kernel.Links.{Ptr}
use rpi_kernel.State.{State, World, Run, ready_at, Unlocked}
use rpi_kernel.Sched.{affinity}
use rpi_kernel.Sched.Pick.{Bounded}
use rpi_kernel.Sched.Next.{rank}
use rpi_kernel.Dispatch.{Interrupt, int_syscall, int_timer, sched_yield, common_interrupt}

-- The running process of a core, and behind it the ones of a priority that are ready there.
abbrev pub line : (core : ℕ) → Priority → State → List Ptr
line core r s = s.running core ∷ s.lists (ready_at core r)

-- The process has the priority, and its affinity set has no core but this one.
abbrev pub IsMember : (core : ℕ) → Priority → State → Ptr → Type 0
IsMember core r s p =
    ((s.procs p).current_priority ≡ r) × ((c : ℕ) → cpu_isset c (affinity s p) ≡ (c == core))

-- The processes of the line are members and all different, nothing above their priority is ready on the
-- core, no spinlock is held, and the lengths of the queues are below INT32_MAX.
pub record IsLine (core : ℕ) (r : Priority) (s : State) : Type 0 where
  pub free : Unlocked s
  pub members : (p : Ptr) → p ∈ line core r s → IsMember core r s p
  pub distinct : Distinct (line core r s)
  pub highest : (above : Priority) → rank r < rank above → s.lists (ready_at core above) ≡ []
  pub short : Bounded s

-- How a process comes to the end of its time: SYS_YIELD, or the timer's interrupt.
pub data End : Type 0 where
  by_yield by_tick : End

abbrev pub interrupt_of : End → Interrupt
interrupt_of by_yield = int_syscall sched_yield
interrupt_of by_tick = int_timer

abbrev pub ticks_in : List End → ℕ
ticks_in [] = 0
ticks_in (by_yield ∷ ends) = ticks_in ends
ticks_in (by_tick ∷ ends) = suc (ticks_in ends)

-- So many ticks before the core would pull processes from another one.
abbrev pub Before : (core n : ℕ) → State → Type 0
Before core n s =
    ((s.queues core).ticks_to_balance < 2 ^ 32) × (n ≤ pred32 (s.queues core).ticks_to_balance)

-- Such interrupts one after the other on the core, each of which returns.
pub data Slices (world : World) (core : ℕ) : List End → State → State → Type 0 where
  rests : {s : State} → Slices world core [] s s
  ends :
      {e : End} {es : List End} {s t u : State}
      → common_interrupt world core (interrupt_of e) s ≡ Run.ok tt t
      → Slices world core es t u
      → Slices world core (e ∷ es) s u
