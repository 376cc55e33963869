-- ===== src/Thread/Exit.antt =====
-- `proc_exit` of src/c/kernel/thread.c.
pub mod Keep
pub mod Report
use rpi_kernel.Base.{
  ℕ, ◌≡◌, refl, ap, ◌∙◌, Bool, true, false, List, ◌==◌, if◌then◌else◌, arith, pred64, update_key,
  has, ◌∈◌, ◌∉◌, remove, has-remove,
}
use rpi_kernel.Config.{exit, zombie}
use rpi_kernel.Links.{Ptr}
use rpi_kernel.State.{
  State, Head, ready_at, waiting_for, head_key, Lock, waiting_lock, queue_lock, newlib_lock,
  lock_key, ok, Unlocked, relock, spin_lock-ok, spin_unlock, with_proc,
}
use rpi_kernel.Sched.{current, alert_on, alert_on_locked}
use rpi_kernel.Sched.Block.{
  InReady, woken, alert_wakes_all, woken-locks, woken-absent, woken-InReady,
}
use rpi_kernel.Thread.{joined_with, wake_waiting, report, proc_exit}

module _ (status : ℕ) where
  wakes : (p : Ptr) (s : State) → wake_waiting status p s ≡ ok true (joined_with status p s)
  unfolding wake_waiting
  wakes p s = refl

  locks_kept : (p : Ptr) (s : State) → (joined_with status p s).locks ≡ s.locks
  locks_kept p s = ground arith

  lists_kept : (p : Ptr) (s : State) → (joined_with status p s).lists ≡ s.lists
  lists_kept p s = ground arith

  hash_kept : (p : Ptr) (s : State) → (joined_with status p s).process_hash ≡ s.process_hash
  hash_kept p s = ground arith

  -- The processes of a list woken in order by the end of the one they wait for.
  abbrev woken_joiners : ℕ → List Ptr → State → State
  woken_joiners core = woken core (wake_waiting status) (joined_with status) wakes locks_kept

report-ok : (trace : Bool) (s : State) → s.locks newlib_lock ≡ 0 → report trace s ≡ ok tt s
unfolding report spin_unlock
report-ok false s free = refl
report-ok true s free = rw (spin_lock-ok newlib_lock s free, relock s.locks newlib_lock free)

spared :
    (q p : Ptr) (ws ys : List Ptr)
    → q ∈ ws
    → p ∉ ws
    → q ∈ ys
    → (if q == p then false else has q ys) ≡ true
spared q p ws ys m out i = ground arith

module _ (core status : ℕ) (s : State) (free : Unlocked s) where
  abbrev self : Ptr
  self = current core s

  -- The state with the process marked and the lock of its queue held.
  ending : State
  ending =
      let t = with_proc self (λ q. record q { state = zombie }) s in
      record t {
        live_procs = pred64 s.live_procs;
        locks = update_key s.locks (waiting_lock self) 1;
      }

  notified : State
  notified = woken_joiners status core (s.lists (waiting_for self)) ending

  notified-locks : update_key notified.locks (waiting_lock self) 0 ≡ s.locks
  unfolding notified ending
  notified-locks =
      ap (λ (f : Lock → ℕ). update_key f (waiting_lock self) 0)
        (woken-locks core (wake_waiting status) (joined_with status) (wakes status)
          (locks_kept status) (s.lists (waiting_for self)) ending)
      ∙ relock s.locks (waiting_lock self) (free (waiting_lock self))

  alert_lem :
      alert_on core
        (waiting_for self)
        (wake_waiting status)
        (waiting_lock self)
        (record (with_proc self (λ q. record q { state = zombie }) s) {
          live_procs = pred64 s.live_procs;
        })
      ≡ ok tt (record notified { locks = s.locks })
  unfolding alert_on alert_on_locked spin_unlock notified ending
  alert_lem = rw (
    spin_lock-ok (waiting_lock self)
        (record (with_proc self (λ q. record q { state = zombie }) s) {
          live_procs = pred64 s.live_procs;
        })
        (free (waiting_lock self)),
    alert_wakes_all core (wake_waiting status) (joined_with status) (wakes status)
        (locks_kept status) (waiting_for self) 4_294_967_295 ending (omega arith)
        (λ c. free (queue_lock c)),
    notified-locks,
  )

  -- The state after `proc_exit`.
  exited : State
  exited = record notified {
    locks = s.locks;
    process_list = remove self notified.process_list;
    process_hash = λ b. remove self (notified.process_hash b);
    lists = λ hd. remove self (notified.lists hd);
  }

  proc_exit_lem : proc_exit core status s ≡ ok exit exited
  unfolding proc_exit exited
  proc_exit_lem = rw (
    alert_lem,
    report-ok (notified.procs self).trace (record notified { locks = s.locks }) (free newlib_lock),
  )

  -- Where no spinlock is held and the process does not wait for itself, `proc_exit` returns. No
  -- process waits for the ended one any more, each that did is in a ready queue, and the ended one
  -- is in no list, in no bucket of the process table and not in the process list. The locks are as
  -- before.
  pub proc_exit_wakes :
      self ∉ s.lists (waiting_for self)
      → (g : State) × (proc_exit core status s ≡ ok exit g)
        × ((q : Ptr) → has q (g.lists (waiting_for self)) ≡ false)
        × ((q : Ptr) → q ∈ s.lists (waiting_for self) → InReady q g)
        × ((hd : Head) → self ∉ g.lists hd)
        × ((b : ℕ) → self ∉ g.process_hash b)
        × (self ∉ g.process_list)
        × (g.locks ≡ s.locks)
  unfolding exited notified ending
  proc_exit_wakes out = (
    exited,
    proc_exit_lem,
    λ q.
        has-remove q self (notified.lists (waiting_for self))
        ∙ ground (
          arith,
          woken-absent core (wake_waiting status) (joined_with status) (wakes status)
              (locks_kept status) (lists_kept status) q (waiting_for self)
              (s.lists (waiting_for self)) ending (λ c r. refl),
        ),
    λ q m.
        let (c, r, i) =
          woken-InReady core (wake_waiting status) (joined_with status) (wakes status)
            (locks_kept status) (lists_kept status) q (s.lists (waiting_for self)) ending m in
        (
          c,
          r,
          has-remove q self (notified.lists (ready_at c r))
              ∙ spared q self (s.lists (waiting_for self)) (notified.lists (ready_at c r)) m out i,
        ),
    λ hd. has-remove self self (notified.lists hd) ∙ ground arith,
    λ b. has-remove self self (notified.process_hash b) ∙ ground arith,
    has-remove self self notified.process_list ∙ ground arith,
    refl,
  )
