-- ===== src/Sched/Enqueue.antt =====
-- `ready` and the choice of the core together: src/c/kernel/dispatch.c.
use rpi_kernel.Base.{
  ℕ, ◌+◌, ◌<◌, ◌≡◌, refl, ap, ◌∙◌, true, false, [], ◌∷◌, ◌++◌, arith, remove, update_self,
  same_refl,
}
use rpi_kernel.Config.{num_cores, runnable}
use rpi_kernel.CpuSet.{cpu_isset}
use rpi_kernel.Links.{Ptr}
use rpi_kernel.State.{Process, RunQueue, State, Head, ready_at, same_head, head_key, queue_lock, ok}
use rpi_kernel.Sched.{queue_length, affinity, ready}
use rpi_kernel.Sched.Pick.{Bounded, pickcpu_eligible}
use rpi_kernel.Sched.Ready.{ready_core, ready_head, readied, ready_lem}

-- Where the locks of the ready queues are free, the lengths are below INT32_MAX and some core is in
-- the affinity set of a process, `ready` returns, with the process at the end of the list of its
-- priority on a core of its affinity set and in no other list, each list otherwise in the order it
-- had. The queue of that core is longer by one, the process is RUNNABLE, and the locks are as before.
pub ready_enqueues :
    (core : ℕ) (p : Ptr) (s : State) (c : ℕ)
    → Bounded s
    → ((i : ℕ) → s.locks (queue_lock i) ≡ 0)
    → core < num_cores
    → c < num_cores
    → cpu_isset c (affinity s p) ≡ true
    → (g : State) × (t : ℕ) × (ready core p s ≡ ok tt g)
      × (t < num_cores)
      × (cpu_isset t (affinity s p) ≡ true)
      × (let hd = ready_at t (s.procs p).current_priority in
          (g.lists hd ≡ remove p (s.lists hd) ++ p ∷ [])
          × ((other : Head)
              → same_head other hd ≡ false
              → g.lists other ≡ remove p (s.lists other)))
      × (queue_length g t ≡ queue_length s t + 1)
      × ((g.procs p).state ≡ runnable)
      × (g.locks ≡ s.locks)
ready_enqueues core p s c bounded free small small' up =
    let (lt, eligible, _) = pickcpu_eligible s (affinity s p) bounded core c small small' up in
    (
      readied core p s,
      ready_core core p s,
      ready_lem core p s (free _),
      lt,
      eligible,
      (rw (same_refl (ready_head core p s)) refl, λ other ne. rw ne refl),
      ap (λ (q : RunQueue). q.length) (update_self s.queues (ready_core core p s) _)
          ∙ (let b = bounded (ready_core core p s) in omega arith),
      ap (λ (q : Process). q.state) (update_self s.procs p _),
      refl,
    )
