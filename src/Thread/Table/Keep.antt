-- ===== src/Thread/Table/Keep.antt =====
-- `proc_join` of src/c/kernel/thread.c, and the queues.
use rpi_kernel.Base.{ℕ, refl, inl, inr}
use rpi_kernel.Config
use rpi_kernel.Config.{einval}
use rpi_kernel.Links.{Ptr}
use rpi_kernel.State.{State, waiting_for, process_hash_lock, Unlocked, with_proc}
use rpi_kernel.Sched.{current}
use rpi_kernel.Sched.Block.{asleep}
use rpi_kernel.Sched.Invariant.{IsQueued, Detached}
use rpi_kernel.Sched.Invariant.Evolve.{chain, still, asleep-Evolves}
use rpi_kernel.Sched.Invariant.Handled.{Answered}
use rpi_kernel.Semaphore.{set_ret}
use rpi_kernel.Thread.{proc_join}
use rpi_kernel.Thread.Table.{proc_join_lem}

pub proc_join-Answered :
    (core : ℕ) (fresh : Ptr) (pid : ℕ) (status : Ptr) (s : State)
    → Unlocked s
    → IsQueued s
    → Detached (current core s) s
    → Answered core fresh s (proc_join core pid status s)
proc_join-Answered core fresh pid status s free q out =
    elim (proc_join_lem core pid status s (free process_hash_lock) free) [
      | inl (unknown, run) ↦ (
        Config.ReturnState.ok,
        set_ret core einval s,
        run,
        λ c. free _,
        still fresh s _ q refl refl refl,
      )
      | inr (p, found, inl (own, run)) ↦ (
        Config.ReturnState.ok,
        set_ret core einval s,
        run,
        λ c. free _,
        still fresh s _ q refl refl refl,
      )
      | inr (p, found, inr (pos, other, run)) ↦
          let self = current core s in
          let t = with_proc self (λ r. record r { status = status }) s in
          let e = still self s t q refl refl refl in
          (
            Config.ReturnState.block,
            asleep (waiting_for p) self t,
            run,
            λ c. free _,
            chain e (asleep-Evolves (waiting_for p) self t (λ c r. refl) out e.queued),
          )
    ]
