-- ===== src/Tests/Sound.antt =====
-- The soundness of whole interrupts at a concrete state.
use rpi_kernel.Base.{ℕ, ◌≡◌, ◌≢◌, refl, ◌∙◌, sym, arith}
use rpi_kernel.Config.{idle, low, med, high}
use rpi_kernel.State.{State, ready_at, waiting_for, sem_tasks, sleeping_on, Run}
use rpi_kernel.Sched.{sched_pull}
use rpi_kernel.Sched.Invariant.{Detached}
use rpi_kernel.Sched.Invariant.Pull.{Pulls}
use rpi_kernel.Sched.Invariant.Pull.Loop.{sched_pull-Pulls}
use rpi_kernel.Dispatch.{int_syscall, int_timer, sem_post_call, common_interrupt}
use rpi_kernel.Dispatch.Sound.{IsSound, Standby}
use rpi_kernel.Dispatch.Sound.Interrupt.{IsFresh, call-IsSound}
use rpi_kernel.Dispatch.Sound.Timer.{HasRoom, timer-IsSound}
use rpi_kernel.Tests.System.{system, world}
use rpi_kernel.Tests.Queues.{system-IsQueued, running-Detached}

-- Only the first core runs a process.
runs-first : (c : ℕ) → system.running c ≢ 0 → c ≡ 0
runs-first c pos = ground arith

alone_first : (c d : ℕ) → system.running c ≢ 0 → system.running c ≡ system.running d → c ≡ d
alone_first c d pos same = runs-first c pos ∙ sym (runs-first d (λ z. pos (same ∙ z)))

system-IsSound : IsSound system
system-IsSound = record {
  queued = system-IsQueued;
  off_lists = λ c small pos. rw (runs-first c pos) running-Detached;
  alone = λ c d small small' pos same. alone_first c d pos same;
}

system-Standby : Standby 0 system
system-Standby = (med, 2000, refl)

block-Detached : Detached 5000 system
block-Detached (ready_at c idle) = refl
block-Detached (ready_at c low) = refl
block-Detached (ready_at c med) = ground arith
block-Detached (ready_at c high) = refl
block-Detached (sem_tasks sem) = ground arith
block-Detached (waiting_for q) = ground arith
block-Detached (sleeping_on c) = refl

block-IsFresh : IsFresh 5000 system
block-IsFresh = record { absent = block-Detached; idle = λ c small e. ground arith }

system-HasRoom : (core : ℕ) → HasRoom core system
system-HasRoom core c = ground arith

call-IsSound_example :
    (g : State) × (common_interrupt world 0 (int_syscall (sem_post_call 50)) system ≡ Run.ok tt g)
    × IsSound g
call-IsSound_example =
    call-IsSound world 0 (sem_post_call 50) system (omega arith) refl (λ l. refl) system-IsSound
      (omega arith) system-Standby block-IsFresh

timer-IsSound_example :
    (g : State) × (common_interrupt world 0 int_timer system ≡ Run.ok tt g) × IsSound g
timer-IsSound_example =
    timer-IsSound world 0 system (omega arith) (λ l. refl) system-IsSound (omega arith)
      system-Standby (system-HasRoom 0)

sched_pull-Pulls_example :
    (g : State) × (sched_pull 1 70_000 system ≡ Run.ok tt g) × Pulls 1 system g
sched_pull-Pulls_example =
    sched_pull-Pulls 1 70_000 system (omega arith) system-IsQueued (λ l. refl) (system-HasRoom 1)
