-- ===== src/Sched/Ready.antt =====
-- What `ready` does: src/c/kernel/dispatch.c.
use rpi_kernel.Base.{
  ℕ, ◌+◌, ◌≡◌, refl, update_self, u32, ◌∙◌, [], ◌∷◌, ◌∈◌, arith, has-append, same_refl, ==_refl,
}
use rpi_kernel.Config.{runnable}
use rpi_kernel.Links.{Ptr}
use rpi_kernel.State.{
  Process, State, Head, ready_at, head_key, queue_lock, ok, relock, with_proc, with_length,
  del_sched, add_tail_sched, spin_lock-ok, spin_unlock,
}
use rpi_kernel.Sched.{
  affinity, inactive_loop, sched_pickcpu_inactive, load_percent, sched_pickcpu, ready,
}

-- The core whose queue `ready` chooses.
abbrev pub ready_core : ℕ → Ptr → State → ℕ
ready_core core p s = sched_pickcpu core s (affinity s p)

-- The head to which `ready` links the process.
abbrev pub ready_head : ℕ → Ptr → State → Head
ready_head core p s = ready_at (ready_core core p s) (s.procs p).current_priority

-- The state after `ready`.
abbrev pub readied : ℕ → Ptr → State → State
readied core p s = add_tail_sched p (ready_head core p s) (
    del_sched p (
      with_length (ready_core core p s) (λ n. u32 (n + 1))
        (with_proc p (λ q. record q { state = runnable }) s)))

pickcpu-procs :
    (core : ℕ) (s : State) (procs : Ptr → Process) (mask : ℕ)
    → sched_pickcpu core (record s { procs = procs }) mask ≡ sched_pickcpu core s mask
unfolding sched_pickcpu sched_pickcpu_inactive inactive_loop load_percent
pickcpu-procs core s procs mask = refl

pub readied-there :
    (core : ℕ) (p : Ptr) (s : State) → p ∈ (readied core p s).lists (ready_head core p s)
readied-there core p s =
    rw (same_refl (ready_head core p s)) (has-append p _ (p ∷ []) ∙ ground (arith, ==_refl p))

-- `ready` returns if the lock of the queue that it chooses is free, and leaves the locks as they
-- were. It links the process to the end of the list of its priority on the chosen core, takes it out
-- of every other list, counts it in the queue's length, marks it RUNNABLE, and changes nothing else.
pub ready_lem :
    (core : ℕ) (p : Ptr) (s : State)
    → s.locks (queue_lock (ready_core core p s)) ≡ 0
    → ready core p s ≡ ok tt (readied core p s)
unfolding ready spin_unlock
ready_lem core p s free = rw (
  update_self s.procs p _,
  pickcpu-procs core s _ _,
  spin_lock-ok (queue_lock (ready_core core p s))
      (with_proc p (λ q. record q { state = runnable }) s) free,
  update_self s.procs p _,
  relock s.locks (queue_lock (ready_core core p s)) free,
)
