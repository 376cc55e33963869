-- ===== src/Dispatch/Sound/Timer.antt =====
-- The timer's interrupt, SYS_TIME_SLICE of `common_interrupt` in src/c/kernel/dispatch.c, leaves the
-- queues and the running processes sound.
use rpi_kernel.Base.{
  ℕ, u64, ◌+◌, ◌<◌, ◌≡◌, ◌≢◌, refl, ap, sym, ◌∙◌, ◌==◌, arith, has, length, pred32, int_max,
  update_self, Bool-cases, inl, inr,
}
use rpi_kernel.Config.{num_cores, idle, clock_divd}
use rpi_kernel.Links.{Ptr, null}
use rpi_kernel.State.{RunQueue, State, World, ready_at, Lock, queue_lock, Run, Unlocked, with_proc}
use rpi_kernel.Sched.{current, queue_length}
use rpi_kernel.Sched.Invariant.{IsQueued}
use rpi_kernel.Sched.Invariant.Keep.{length-update, length-at}
use rpi_kernel.Sched.Invariant.Pull.{Pulls, Pulls-chain}
use rpi_kernel.Sched.Invariant.Pull.Entry.{Pulls-still}
use rpi_kernel.Sched.Invariant.Pull.Loop.{sched_pull-Spares}
use rpi_kernel.Sched.Invariant.Pull.Spare.{Spares}
use rpi_kernel.Thread.{proc_tick}
use rpi_kernel.Dispatch.{
  int_timer, switch_from, count_events, with_ticks, balance, handle, common_interrupt,
}
use rpi_kernel.Dispatch.Sound.{IsSound, Standby, still-IsSound}
use rpi_kernel.Dispatch.Sound.Interrupt.{finish_sched}

with_ticks-length :
    (core ticks : ℕ) (s : State) (c : ℕ)
    → queue_length (with_ticks core ticks s) c ≡ queue_length s c
with_ticks-length core ticks s c =
    length-update s core (record { ticks_to_balance = ticks; length = queue_length s core }) c
    ∙ (length-at s (λ n. n) core c ∙ elim (Bool-cases (c == core)) [ inl e ↦ rw e | inr d ↦ rw d ])

ticking : (core ticks : ℕ) (s : State) → IsQueued s → Pulls core s (with_ticks core ticks s)
ticking core ticks s q =
    Pulls-still core s (with_ticks core ticks s) refl (with_ticks-length core ticks s) refl refl q

pub pulls-IsSound : (core : ℕ) (s g : State) → IsSound s → Pulls core s g → IsSound g
pulls-IsSound core s g w e = record {
  queued = e.queued;
  off_lists = λ c small pos a.
      ap (λ x. has x (g.lists a)) (runs c)
      ∙ e.detached (s.running c) (w.off_lists c small (λ z. pos (runs c ∙ z))) a;
  alone = λ c d small small' pos same.
      w.alone c d small small' (λ z. pos (runs c ∙ z)) (sym (runs c) ∙ (same ∙ runs d));
}
  where
    runs : (c : ℕ) → g.running c ≡ s.running c
    runs c = ap (λ (f : ℕ → Ptr). f c) e.running

-- The ready queue of the core has room for the processes of the lowest priority of any other.
abbrev pub HasRoom : ℕ → State → Type 0
HasRoom core s = (c : ℕ) → queue_length s core + length (s.lists (ready_at c idle)) < int_max

pub balance-Pulls :
    (world : World) (core : ℕ) (s : State)
    → core < num_cores
    → Unlocked s
    → IsQueued s
    → HasRoom core s
    → (g : State) × (balance world core s ≡ Run.ok tt g)
      × Pulls core s g
      × Spares core world.pull_set s g
      × (queue_length g core < int_max)
unfolding balance
balance-Pulls world core s small free q room =
    let left = pred32 (s.queues core).ticks_to_balance in
    let t = with_ticks core left s in
    let now : (t.queues core).ticks_to_balance ≡ left =
      ap (λ (r : RunQueue). r.ticks_to_balance) (update_self s.queues core _) in
    elim (Bool-cases (left == 0)) [
      | inl due ↦
          let u = with_ticks core clock_divd t in
          let e = ticking core left s q in
          let e' = Pulls-chain e (ticking core clock_divd t e.queued) in
          let same_length : queue_length u core ≡ queue_length s core =
            with_ticks-length core clock_divd t core ∙ with_ticks-length core left s core in
          let (g, run, f, spares, short) =
            sched_pull-Spares core world.pull_set u small e'.queued free
              (λ c. let r = room c in omega arith) in
          (
            g,
            rw (now, due) run,
            Pulls-chain e' f,
            record { sets = spares.sets; memory = spares.memory; spared = spares.spared },
            short,
          )
      | inr early ↦ (
        t,
        rw (now, early),
        ticking core left s q,
        record { sets = λ x. refl; memory = λ a n. refl; spared = λ x n b d r i. i },
        (let r = room core in let l = with_ticks-length core left s core in omega arith),
      )
    ]

-- Where the queues and the running processes are sound, no spinlock is held, the core runs a process
-- and another is ready on it, and its queue has room for what waits in the lowest priority of any other
-- core: the timer's interrupt returns, whether processes are pulled from another core or not, and leaves
-- queues and running processes sound.
pub timer-IsSound :
    (world : World) (core : ℕ) (s : State)
    → core < num_cores
    → Unlocked s
    → IsSound s
    → s.running core ≢ null
    → Standby core s
    → HasRoom core s
    → (g : State) × (common_interrupt world core int_timer s ≡ Run.ok tt g) × IsSound g
unfolding common_interrupt handle proc_tick
timer-IsSound world core s small free w pos (r, x, m) room =
    let t = count_events 0 core world.entry_counter (switch_from core s) in
    let sound = still-IsSound s t refl refl refl w in
    let (g, run, e, spares, short) = balance-Pulls world core t small free sound.queued room in
    let ticked =
      with_proc (current core g) (λ q. record q { tick_count = u64 (q.tick_count + 1) }) g in
    let here : g.running core ≡ s.running core = ap (λ (f : ℕ → Ptr). f core) e.running in
    let (h, run', sound') =
      finish_sched world core small (s.running core) ticked
        (still-IsSound g ticked refl refl refl (pulls-IsSound core t g sound e))
        (λ z. pos (sym here ∙ z)) (r, x, e.ready x r m)
        (λ c. ap (λ (l : Lock → ℕ). l (queue_lock c)) e.locks ∙ free _) in
    (h, rw run run', sound')
