-- ===== src/Tests/Sched.antt =====
-- The theorems on CPU sets and on the scheduler at a concrete state.
use rpi_kernel.Base.{
  ◌*◌, ℕ, ◌+◌, ◌≡◌, ◌<◌, ◌≤◌, ◌⊎◌, refl, true, false, none, some, List, [], ◌∷◌, arith, ◌∈◌, has,
  remove, ◌++◌,
}
use rpi_kernel.Config.{Priority, med, runnable, num_cores}
use rpi_kernel.CpuSet.{cpu_isset}
use rpi_kernel.Links.{Ptr}
use rpi_kernel.State.{State, Head, ready_at, sem_tasks, head_key, same_head, ok}
use rpi_kernel.Sched.{queue_length, affinity, sched_pickcpu, ready, next, alert_on_locked_nr}
use rpi_kernel.Sched.Pick.{sched_pickcpu_lem}
use rpi_kernel.Sched.Enqueue.{ready_enqueues}
use rpi_kernel.Sched.Next.{rank, taken, next_lem}
use rpi_kernel.Sched.Block.{InReady, alert_wakes}
use rpi_kernel.Semaphore.{always}
use rpi_kernel.Tests.System.{system}

system-Bounded : (c : ℕ) → queue_length system c < 2_147_483_647
system-Bounded c = ground arith

six_two : cpu_isset 2 6 ≡ true
unfolding cpu_isset
six_two = refl

alert_wakes_example :
    (g : State) × (alert_on_locked_nr 0 (sem_tasks 50) always 1 system ≡ ok tt g)
    × ((q : Ptr) → has q (g.lists (sem_tasks 50)) ≡ false)
    × ((q : Ptr) → q ∈ 3000 ∷ [] → InReady q g)
    × (g.locks ≡ system.locks)
alert_wakes_example =
    alert_wakes 0 always (λ p t. t) (λ p t. refl) (λ p t. refl) (λ p t. refl) (sem_tasks 50) 1
      system (λ c r. refl) (omega arith) (λ c. refl)

sched_pickcpu_lem_example :
    let r = sched_pickcpu 0 system 6 in
    (r < num_cores)
    × (cpu_isset r 6 ≡ true)
    × (((cpu_isset 0 6 ≡ true) × (100 * queue_length system 0 < 26 * system.live_procs) × (r ≡ 0))
        ⊎ (((cpu_isset 0 6 ≡ false) ⊎ (26 * system.live_procs ≤ 100 * queue_length system 0))
            × (queue_length system r ≤ queue_length system 2)))
sched_pickcpu_lem_example =
    sched_pickcpu_lem system 6 system-Bounded 0 2 (omega arith) (omega arith) six_two (omega arith)
      (omega arith)

set_of_three : cpu_isset 2 (affinity system 3000) ≡ true
unfolding cpu_isset
set_of_three = refl

ready_enqueues_example :
    (g : State) × (t : ℕ) × (ready 0 3000 system ≡ ok tt g)
    × (t < num_cores)
    × (cpu_isset t 6 ≡ true)
    × ((g.lists (ready_at t med) ≡ remove 3000 (system.lists (ready_at t med)) ++ 3000 ∷ [])
        × ((other : Head)
            → same_head other (ready_at t med) ≡ false
            → g.lists other ≡ remove 3000 (system.lists other)))
    × (queue_length g t ≡ queue_length system t + 1)
    × ((g.procs 3000).state ≡ runnable)
    × (g.locks ≡ system.locks)
ready_enqueues_example =
    ready_enqueues 0 3000 system 2 system-Bounded (λ i. refl) (omega arith) (omega arith)
      set_of_three

next_lem_example :
    ((priority : Priority) × (p : Ptr) × (rest : List Ptr) × (system.lists (ready_at 0 priority)
        ≡ p ∷ rest)
      × ((above : Priority) → rank priority < rank above → system.lists (ready_at 0 above) ≡ [])
      × (next 0 system ≡ ok (some p) (taken 0 p system)))
    ⊎ (((priority : Priority) → system.lists (ready_at 0 priority) ≡ [])
        × (next 0 system ≡ ok none system))
next_lem_example = next_lem 0 system refl
