-- ===== src/Sched/Invariant/Pull/Loop.antt =====
-- The loop of `sched_pull` of src/c/kernel/dispatch.c.
use rpi_kernel.Base.{
  ℕ, ◌+◌, ◌<◌, ◌≡◌, refl, ap, ◌∙◌, sym, false, List, [], ◌∷◌, ◌==◌, arith, int_max, update_key,
  reverse, ◌∈◌, Distinct, length, Bool-cases, inl, inr, ==_refl,
}
use rpi_kernel.Config.{idle, num_cores}
use rpi_kernel.Links.{Ptr}
use rpi_kernel.State.{
  State, ready_at, head_key, Lock, queue_lock, lock_key, ok, spin_lock-ok, spin_unlock, relock,
}
use rpi_kernel.Sched.{queue_length, sched_pickcpu_busiest, pull_loop, sched_pull}
use rpi_kernel.Sched.Invariant.{IsQueued}
use rpi_kernel.Sched.Invariant.Evolve.{other-of-member}
use rpi_kernel.Sched.Invariant.Pull.{
  Pulls, Pulls-chain, queued-still, has-reverse, length-reverse, Distinct-reverse,
}
use rpi_kernel.Sched.Invariant.Pull.Spare.{Spares, Spares-refl, Spares-chain}
use rpi_kernel.Sched.Invariant.Pull.Entry.{Pulls-still, pull_entry-Round}

module _ (core busy : ℕ) (target : Ptr) (small : core < num_cores)
    (apart : (busy == core) ≡ false) where
  -- The rounds for entries that stand in the list.
  pull_loop-Pulls :
      (ps : List Ptr) (s : State)
      → Distinct ps
      → ((p : Ptr) → p ∈ ps → p ∈ s.lists (ready_at busy idle))
      → IsQueued s
      → queue_length s core + length ps < int_max
      → s.locks (queue_lock core) ≡ 0
      → (g : State) × (pull_loop core busy target ps s ≡ ok tt g)
        × Pulls core s g
        × Spares core target s g
        × (queue_length g core < int_max)
  unfolding pull_loop
  pull_loop-Pulls [] s d sub q room free = (
    s,
    refl,
    Pulls-still core s s refl (λ c. refl) refl refl q,
    Spares-refl core target s,
    omega arith,
  )
  pull_loop-Pulls (p ∷ ps) s d sub q room free =
      let (stop, g, (run, e, room', stays, spares)) =
        pull_entry-Round core busy target small apart (length ps) p s q (sub p (rw (==_refl p)))
          room free in
      elim (Bool-cases stop) [
        | inl stopped ↦ (g, rw (run, stopped), e, spares, omega arith)
        | inr more ↦
            let (h, run', f, spares', short) =
              pull_loop-Pulls ps g d.1
                (λ r i. stays r (other-of-member p r ps i d.0) (sub r (ground arith))) e.queued
                room' (ap (λ (l : Lock → ℕ). l (queue_lock core)) e.locks ∙ free) in
            (
              h,
              rw (run, more) run',
              Pulls-chain e f,
              Spares-chain core target s g h spares spares',
              short,
            )
      ]

-- The whole pull, with what it leaves alone, and its room.
pub sched_pull-Spares :
    (core : ℕ) (target : Ptr) (s : State)
    → core < num_cores
    → IsQueued s
    → ((l : Lock) → s.locks l ≡ 0)
    → ((c : ℕ) → queue_length s core + length (s.lists (ready_at c idle)) < int_max)
    → (g : State) × (sched_pull core target s ≡ ok tt g)
      × Pulls core s g
      × Spares core target s g
      × (queue_length g core < int_max)
unfolding sched_pull spin_unlock
sched_pull-Spares core target s small q free room =
    elim (Bool-cases (sched_pickcpu_busiest s == core)) [
      | inl same_core ↦ (
        s,
        rw same_core,
        Pulls-still core s s refl (λ c. refl) refl refl q,
        Spares-refl core target s,
        (let r = room core in omega arith),
      )
      | inr apart ↦
          let busy = sched_pickcpu_busiest s in
          let t = record s { locks = update_key s.locks (queue_lock busy) 1 } in
          let entries = s.lists (ready_at busy idle) in
          let open_lock : t.locks (queue_lock core) ≡ 0 = ground (arith, free (queue_lock core)) in
          let (g, run, e, spares, short) =
            pull_loop-Pulls core busy target small apart (reverse entries) t
              (Distinct-reverse entries (q.partition.distinct (ready_at busy idle)))
              (λ p i. sym (has-reverse p entries) ∙ i) (queued-still s t refl (λ c. refl) q)
              (let n = length-reverse entries in let r = room busy in omega arith) open_lock in
          (
            record g { locks = update_key g.locks (queue_lock busy) 0 },
            rw (apart, spin_lock-ok (queue_lock busy) s (free (queue_lock busy)), run),
            record {
              queued = queued-still g _ refl (λ c. refl) e.queued;
              running = e.running;
              locks =
                  ap (λ (l : Lock → ℕ). update_key l (queue_lock busy) 0) e.locks
                  ∙ relock s.locks (queue_lock busy) (free (queue_lock busy));
              detached = e.detached;
              ready = e.ready;
            },
            record { sets = spares.sets; memory = spares.memory; spared = spares.spared },
            short,
          )
    ]

-- Where the queues are sound, no spinlock is held, and the queue of the core has room for what waits in
-- the lowest priority of any other, `sched_pull` returns, with the queues sound and the locks as before:
-- the core never waits for a lock that it holds itself. What is ready on the core stays ready there.
pub sched_pull-Pulls :
    (core : ℕ) (target : Ptr) (s : State)
    → core < num_cores
    → IsQueued s
    → ((l : Lock) → s.locks l ≡ 0)
    → ((c : ℕ) → queue_length s core + length (s.lists (ready_at c idle)) < int_max)
    → (g : State) × (sched_pull core target s ≡ ok tt g) × Pulls core s g
sched_pull-Pulls core target s small q free room =
    let (g, run, e, spares, short) = sched_pull-Spares core target s small q free room in
    (g, run, e)
