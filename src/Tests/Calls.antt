-- ===== src/Tests/Calls.antt =====
-- The theorems on the calls and on the interrupt handler at a concrete state.
use rpi_kernel.Base.{
  ℕ, ◌≡◌, ◌≢◌, ◌<◌, ◌≤◌, ◌⊎◌, refl, true, false, none, some, List, [], ◌∷◌, arith, ◌==◌, ◌∈◌, ◌∉◌,
  has, ◌||◌, if◌then◌else◌, u32,
}
use rpi_kernel.Config.{ReturnState, block, exit, Priority, med, pid_hashfn, eagain, einval}
use rpi_kernel.CpuSet.{cpu_isset}
use rpi_kernel.Links.{Ptr}
use rpi_kernel.State.{
  State, Head, ready_at, waiting_for, sem_tasks, head_key, sem_lock, ok, hang, with_proc,
}
use rpi_kernel.Sched.{sched_pickcpu, load_percent}
use rpi_kernel.Sched.Ready.{ready_core}
use rpi_kernel.Sched.Next.{rank}
use rpi_kernel.Sched.Block.{asleep, InReady}
use rpi_kernel.Semaphore.{set_ret, with_count, sem_wait, sem_trywait, sem_post, sem_destroy}
use rpi_kernel.Semaphore.Wait.{sem_wait_lem, sem_trywait_lem}
use rpi_kernel.Semaphore.Post.{sem_post_lem, sem_destroy_locks}
use rpi_kernel.Thread.{find_pid, proc_create, proc_join, proc_exit}
use rpi_kernel.Thread.Table.{proc_join_lem}
use rpi_kernel.Thread.Create.{proc_create_cases}
use rpi_kernel.Thread.Exit.{proc_exit_wakes}
use rpi_kernel.Thread.Exit.Report.{wanted, proc_exit_reports}
use rpi_kernel.Dispatch.{int_syscall, sched_yield, common_interrupt}
use rpi_kernel.Dispatch.Switch.{before, yielded, yield_switches}
use rpi_kernel.Tests.System.{system, process_at, world}

sem_trywait_lem_example :
    sem_trywait 0 60 system ≡ ok ReturnState.ok (set_ret 0 0 (with_count 60 2 system))
sem_trywait_lem_example = sem_trywait_lem 0 60 system refl (omega arith)

sem_destroy_locks_example :
    (g : State) × (sem_destroy 0 50 system ≡ ok ReturnState.ok g)
    × ((q : Ptr) → has q (g.lists (sem_tasks 50)) ≡ false)
    × ((q : Ptr) → q ∈ 3000 ∷ [] → InReady q g)
    × (g.locks (sem_lock 50) ≡ 1)
    × ((c : ℕ) → sem_wait c 50 g ≡ hang)
    × ((c : ℕ) → sem_post c 50 g ≡ hang)
sem_destroy_locks_example = sem_destroy_locks 0 50 system (λ l. refl)

proc_exit_wakes_example :
    (g : State) × (proc_exit 0 42 system ≡ ok exit g)
    × ((q : Ptr) → has q (g.lists (waiting_for 1000)) ≡ false)
    × ((q : Ptr) → q ∈ 4000 ∷ [] → InReady q g)
    × ((hd : Head) → 1000 ∉ g.lists hd)
    × ((b : ℕ) → 1000 ∉ g.process_hash b)
    × (1000 ∉ g.process_list)
    × (g.locks ≡ system.locks)
proc_exit_wakes_example = proc_exit_wakes 0 42 system (λ l. refl) refl

-- Process 4000, which waits for the first one, wants its status at 90_500.
abbrev expectant : State
expectant = record system {
  procs = λ p. record (process_at p) { status = if p == 4000 then 90_500 else 0 };
}

proc_exit_reports_example :
    (g : State) × (proc_exit 0 42 expectant ≡ ok exit g)
    × ((a : Ptr) → g.memory a ≡ (if wanted a (4000 ∷ []) expectant then 42 else expectant.memory a))
    × ((q : Ptr) → (g.procs q).ret ≡ (if has q (4000 ∷ []) then 0 else (expectant.procs q).ret))
proc_exit_reports_example = proc_exit_reports 0 42 expectant (λ l. refl)

stays : ready_core 0 1000 (before world 0 system) ≡ 0
unfolding sched_pickcpu cpu_isset load_percent
stays = refl

yield_switches_example :
    (g : State) × (r : Priority) × (p : Ptr) × (rest : List Ptr) × (common_interrupt world 0
        (int_syscall sched_yield)
        system
      ≡ ok tt g)
    × (g.running 0 ≡ p)
    × ((yielded world 0 system).lists (ready_at 0 r) ≡ p ∷ rest)
    × ((above : Priority)
        → rank r < rank above
        → (yielded world 0 system).lists (ready_at 0 above) ≡ [])
    × (rank med ≤ rank r)
yield_switches_example = yield_switches world 0 system (λ l. refl) stays

sem_wait_lem_example :
    sem_wait 0 60 system ≡ ok ReturnState.ok (set_ret 0 0 (with_count 60 2 system))
sem_wait_lem_example = sem_wait_lem 0 60 system refl (omega arith)

sem_post_lem_example :
    ((system.lists (sem_tasks 50) ≡ [])
      × (sem_post 0 50 system ≡ ok ReturnState.ok (set_ret 0 0 (with_count 50 1 system))))
    ⊎ ((system.lists (sem_tasks 50) ≢ [])
        × (g : State) × (sem_post 0 50 system ≡ ok ReturnState.ok g)
        × (g.sem_count ≡ system.sem_count)
        × ((q : Ptr) → has q (g.lists (sem_tasks 50)) ≡ false)
        × ((q : Ptr) → q ∈ 3000 ∷ [] → InReady q g)
        × (g.locks ≡ system.locks))
sem_post_lem_example = sem_post_lem 0 50 system (λ l. refl)

proc_join_lem_example :
    ((find_pid system 2 (system.process_hash (pid_hashfn 2)) ≡ none)
      × (proc_join 0 2 777 system ≡ ok ReturnState.ok (set_ret 0 einval system)))
    ⊎ ((p : Ptr) × (find_pid system 2 (system.process_hash (pid_hashfn 2)) ≡ some p)
        × (((((system.procs 2000).pid ≡ 0) ⊎ ((system.procs 1000).pid ≡ 2))
              × (proc_join 0 2 777 system ≡ ok ReturnState.ok (set_ret 0 einval system)))
            ⊎ (((system.procs 2000).pid ≢ 0)
                × ((system.procs 1000).pid ≢ 2)
                × (proc_join 0 2 777 system
                    ≡ ok block (
                        asleep
                          (waiting_for p)
                          1000
                          (with_proc 1000 (λ q. record q { status = 777 }) system))))))
proc_join_lem_example = proc_join_lem 0 2 777 system refl (λ l. refl)

proc_create_cases_example :
    ((((5000 == 0) || (90_000 == 0)) ≡ true)
      × (proc_create world 0 700 32_000 9 med 0 system ≡ hang))
    ⊎ ((((5000 == 0) || (90_000 == 0)) ≡ false)
        × (((u32 6 ≡ 0)
              × (proc_create world 0 700 32_000 9 med 0 system
                  ≡ ok ReturnState.ok (set_ret 0 eagain (record system { next_pid = 0 }))))
            ⊎ ((u32 6 ≢ 0)
                × (g : State) × (proc_create world 0 700 32_000 9 med 0 system
                    ≡ ok ReturnState.ok g)
                × (find_pid g 5 (g.process_hash (pid_hashfn 5)) ≡ some 5000)
                × InReady 5000 g
                × (g.next_pid ≡ 6)
                × (g.live_procs ≡ 5)
                × (g.locks ≡ system.locks))))
proc_create_cases_example = proc_create_cases world 0 700 32_000 9 med 0 system (λ l. refl)
