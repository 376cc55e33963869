-- ===== src/Tests/Queues.antt =====
-- The invariant of the queues at a concrete state.
use rpi_kernel.Base.{◌≡◌, refl, sym, ◌∙◌, arith, ◌==◌, ◌∈◌, Distinct, if◌then◌else◌}
use rpi_kernel.Config.{idle, low, med, high}
use rpi_kernel.Links.{Ptr}
use rpi_kernel.State.{Head, ready_at, waiting_for, sem_tasks, sleeping_on}
use rpi_kernel.Sched.Invariant.{IsQueued, Detached}
use rpi_kernel.Tests.System.{queued, system}

-- The list that a process belongs to.
owner : Ptr → Head
owner p = if p == 2000 then ready_at 0 med else if p == 3000 then sem_tasks 50 else waiting_for 1000

queued-owner : (a : Head) (p : Ptr) → p ∈ queued a → owner p ≡ a
unfolding owner
queued-owner (ready_at c idle) p m = ground arith
queued-owner (ready_at c low) p m = ground arith
queued-owner (ready_at c med) p m = ground arith
queued-owner (ready_at c high) p m = ground arith
queued-owner (sem_tasks sem) p m = ground arith
queued-owner (waiting_for q) p m = ground arith
queued-owner (sleeping_on c) p m = ground arith

queued-Distinct : (a : Head) → Distinct (queued a)
queued-Distinct (ready_at c idle) = tt
queued-Distinct (ready_at c low) = tt
queued-Distinct (ready_at c med) = ground arith
queued-Distinct (ready_at c high) = tt
queued-Distinct (sem_tasks sem) = ground arith
queued-Distinct (waiting_for q) = ground arith
queued-Distinct (sleeping_on c) = tt

pub system-IsQueued : IsQueued system
system-IsQueued = record {
  partition = record {
    once = λ p a b m n. sym (queued-owner a p m) ∙ queued-owner b p n;
    distinct = queued-Distinct;
  };
  counted = λ c. ground arith;
}

pub running-Detached : Detached 1000 system
running-Detached (ready_at c idle) = refl
running-Detached (ready_at c low) = refl
running-Detached (ready_at c med) = ground arith
running-Detached (ready_at c high) = refl
running-Detached (sem_tasks sem) = ground arith
running-Detached (waiting_for q) = ground arith
running-Detached (sleeping_on c) = refl
