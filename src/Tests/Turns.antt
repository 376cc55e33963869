-- ===== src/Tests/Turns.antt =====
-- The turns of the processes of a core and its time slices at a concrete state.
use rpi_kernel.Base.{◌^◌, ◌-◌, u32, ◌≡◌, ◌<◌, refl, List, [], ◌∷◌, ◌==◌, if◌then◌else◌, arith}
use rpi_kernel.Config.{Priority, idle, low, med, high}
use rpi_kernel.CpuSet.{cpu_set, cpu_zero, isset-set, isset-zero}
use rpi_kernel.Links.{Ptr}
use rpi_kernel.State.{State, Head, ready_at}
use rpi_kernel.Sched.Next.{rank}
use rpi_kernel.Dispatch.RoundRobin.{line, IsLine, Slices, by_yield, by_tick}
use rpi_kernel.Dispatch.RoundRobin.Reach.{round_robin}
use rpi_kernel.Dispatch.{int_syscall, sched_yield, common_interrupt}
use rpi_kernel.Dispatch.Balance.{Leaves, slices, yield-Leaves}
use rpi_kernel.Dispatch.Balance.First.{timer, without_pull, no_pull_from_zero}
use rpi_kernel.Tests.System.{system, world}

-- Two processes are ready on core 0 while 1000 runs, all tied to it.
abbrev two_ready : Head → List Ptr
two_ready (ready_at core med) = if core == 0 then 2000 ∷ 3000 ∷ [] else []
two_ready _ = []

abbrev tied : State
tied = record system { lists = two_ready; memory = λ a. cpu_set 0 cpu_zero }

none_above : (above : Priority) → rank med < rank above → two_ready (ready_at 0 above) ≡ []
none_above idle higher = refl
none_above low higher = refl
none_above med higher = absurd (omega (arith, higher))
none_above high higher = refl

tied-IsLine : IsLine 0 med tied
tied-IsLine = record {
  free = λ l. refl;
  members = λ p there. (refl, λ c. ground (arith, isset-set c 0 cpu_zero, isset-zero c));
  distinct = ground arith;
  highest = none_above;
  short = λ c. ground arith;
}

round_robin_example :
    (u : State) × Slices world 0 (by_yield ∷ by_tick ∷ []) tied u
    × (line 0 med u ≡ 3000 ∷ 1000 ∷ 2000 ∷ [])
    × IsLine 0 med u
round_robin_example =
    round_robin world 0 med (by_yield ∷ by_tick ∷ []) (1000 ∷ 2000 ∷ []) [] 3000 tied (omega arith)
      tied-IsLine refl (omega arith, omega arith) refl

-- A million time slices of core 0, with a yield after each.
no_pull_from_zero_example :
    (slices
        (timer 0)
        (λ i. world)
        (λ i. common_interrupt world 0 (int_syscall sched_yield))
        1_000_000
        0
        tied
      ≡ slices
          (without_pull 0)
          (λ i. world)
          (λ i. common_interrupt world 0 (int_syscall sched_yield))
          1_000_000
          0
          tied)
    × Leaves 0 (u32 (2 ^ 32 - 1_000_000)) (
        slices
          (timer 0)
          (λ i. world)
          (λ i. common_interrupt world 0 (int_syscall sched_yield))
          1_000_000
          0
          tied)
no_pull_from_zero_example =
    no_pull_from_zero (λ i. world) (λ i. common_interrupt world 0 (int_syscall sched_yield)) 0
      (λ i s. yield-Leaves world 0 s) 1_000_000 tied refl (omega arith)
