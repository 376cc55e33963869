-- ===== src/Thread/Exit/Keep.antt =====
-- `proc_exit` of src/c/kernel/thread.c, and the queues.
use rpi_kernel.Base.{ℕ, suc, ◌≡◌, refl, fun_ext, arith, remove, remove_absent}
use rpi_kernel.Config
use rpi_kernel.Links.{Ptr}
use rpi_kernel.State.{State, waiting_for, Unlocked}
use rpi_kernel.Sched.{current}
use rpi_kernel.Sched.Invariant.{IsQueued, Detached}
use rpi_kernel.Sched.Invariant.Evolve.{Evolves, chain, still}
use rpi_kernel.Sched.Invariant.Wake.{woken-Evolves}
use rpi_kernel.Sched.Invariant.Handled.{Answered}
use rpi_kernel.Thread.{joined_with, wake_waiting, proc_exit}
use rpi_kernel.Thread.Exit.{wakes, locks_kept, lists_kept, ending, notified, exited, proc_exit_lem}

queues_kept : (status : ℕ) (p : Ptr) (s : State) → (joined_with status p s).queues ≡ s.queues
queues_kept status p s = ground arith

running_kept : (status : ℕ) (p : Ptr) (s : State) → (joined_with status p s).running ≡ s.running
running_kept status p s = ground arith

module _ (core status : ℕ) (s : State) (free : Unlocked s) (q : IsQueued s) where
  notified-Evolves : (out : Ptr) → Evolves out s (notified core status s free)
  unfolding notified ending
  notified-Evolves out =
      let head = waiting_for (current core s) in
      let t = ending core status s free in
      let e = still out s t q refl refl refl in
      chain e (
        woken-Evolves core (wake_waiting status) (joined_with status) (wakes status)
          (locks_kept status) (lists_kept status) (queues_kept status) (running_kept status) out
          head (λ c r. refl) (s.lists head) t (q.partition.distinct head) (λ p m. m) e.queued)

  pub proc_exit-Answered :
      (fresh : Ptr) → Detached (current core s) s → Answered core fresh s (proc_exit core status s)
  unfolding exited
  proc_exit-Answered fresh out =
      let self = current core s in
      let n = notified core status s free in
      let e = notified-Evolves self in
      let absent : Detached self n =
        (notified-Evolves (suc self)).detached self (omega arith) out in
      let gone : (λ hd. remove self (n.lists hd)) ≡ n.lists =
        fun_ext λ hd. remove_absent self (n.lists hd) (absent hd) in
      (
        Config.ReturnState.exit,
        exited core status s free,
        proc_exit_lem core status s free,
        λ c. free _,
        chain e (still self n (exited core status s free) e.queued gone refl refl),
      )
