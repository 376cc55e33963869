-- ===== src/Dispatch/Live/Tick.antt =====
-- The timer's interrupt, on a core at work.
use rpi_kernel.Base.{
  ℕ, ◌+◌, ◌<◌, ◌≡◌, ◌≢◌, refl, ap, sym, ◌∙◌, subst, ◌==◌, ◌∈◌, u64, int_max, Bool-cases, inl, inr,
  ==_iff,
}
use rpi_kernel.Config.{Priority, num_cores}
use rpi_kernel.CpuSet.{cpu_isset}
use rpi_kernel.Links.{Ptr, null}
use rpi_kernel.State.{State, World, Lock, ready_at, head_key, Run, with_proc}
use rpi_kernel.Sched.{affinity, current, queue_length}
use rpi_kernel.Sched.Ready.{readied, ready_core, readied-there}
use rpi_kernel.Sched.Invariant.Evolve.{readied-Evolves}
use rpi_kernel.Sched.Invariant.Pull.{Pulls, pickcpu_only}
use rpi_kernel.Sched.Invariant.Pull.Spare.{Spares, affinity-Spares}
use rpi_kernel.Thread.{proc_tick}
use rpi_kernel.Dispatch.{
  int_timer, switch_from, count_events, add_counters, handle, common_interrupt,
}
use rpi_kernel.Dispatch.Sound.Timer.{HasRoom, pulls-IsSound, balance-Pulls}
use rpi_kernel.Dispatch.Live.{Home, IsUp}
use rpi_kernel.Dispatch.Live.Keep.{kept_set, still-IsUp, end_sched}

-- The affinity set of each idle process has its core alone, where the core has started.
abbrev pub Tied : (ℕ → Ptr) → State → Type 0
Tied idles s =
    (d : ℕ)
    → d < num_cores
    → s.running d ≢ null
    → (c : ℕ) → cpu_isset c (affinity s (idles d)) ≡ (c == d)

-- The core has started, its queue has room for what it may pull, and the set that a pull builds does not
-- lie where the set of an idle process does.
pub record IsTick (idles : ℕ → Ptr) (world : World) (core : ℕ) (s : State) : Type 0 where
  pub started : s.running core ≢ null
  pub room : HasRoom core s
  pub apart :
      (d : ℕ)
      → d < num_cores
      → s.running d ≢ null
      → (s.procs (idles d)).affinityset ≢ world.pull_set

module _ (idles : ℕ → Ptr) (world : World) (core : ℕ) (small : core < num_cores) (s g : State)
    (w : IsUp idles s) (tied : Tied idles s)
    (apart : (d : ℕ)
      → d < num_cores
      → s.running d ≢ null
      → (s.procs (idles d)).affinityset ≢ world.pull_set)
    (e : Pulls core s g) (spares : Spares core world.pull_set s g) where
  Home-Pulls :
      (d : ℕ) → d < num_cores → s.running d ≢ null → Home (idles d) d s → Home (idles d) d g
  Home-Pulls d small' pos (inl runs) = inl (ap (λ (f : ℕ → Ptr). f d) e.running ∙ runs)
  Home-Pulls d small' pos (inr (r, i)) = elim (Bool-cases (core == d)) [
    | inl same ↦
        let here = (==_iff core d).0 same in
        inr (
          r,
          subst (λ k. idles d ∈ g.lists (ready_at k r)) here
              (e.ready (idles d) r (subst (λ k. idles d ∈ s.lists (ready_at k r)) (sym here) i)),
        )
    | inr other ↦
        inr (r, spares.spared (idles d) (apart d small' pos) (tied d small' pos core ∙ other) d r i)
  ]

  pulled-IsUp : IsUp idles g
  pulled-IsUp = record {
    sound = pulls-IsSound core s g w.sound e;
    free = λ l. ap (λ (f : Lock → ℕ). f l) e.locks ∙ w.free l;
    null_absent = e.detached null w.null_absent;
    home = λ d small' pos.
        let pos' : s.running d ≢ null = λ z. pos (ap (λ (f : ℕ → Ptr). f d) e.running ∙ z) in
        Home-Pulls d small' pos' (w.home d small' pos');
  }

  pulled-Tied : Tied idles g
  pulled-Tied d small' pos c =
      let pos' : s.running d ≢ null = λ z. pos (ap (λ (f : ℕ → Ptr). f d) e.running ∙ z) in
      ap (cpu_isset c)
        (affinity-Spares core world.pull_set s g (idles d) (apart d small' pos') spares)
      ∙ tied d small' pos' c

-- The idle process of the core is ready there again, when the process that ran is queued.
module _ (idles : ℕ → Ptr) (core : ℕ) (small : core < num_cores) (s : State) (w : IsUp idles s)
    (tied : Tied idles s) (started : s.running core ≢ null)
    (short : queue_length s core < int_max) where
  queued_again :
      (r : Priority) × (idles core ∈ (readied core (s.running core) s).lists (ready_at core r))
  queued_again = elim (w.home core small started) [
    | inl runs ↦
        let mine = s.running core in
        let lists = (readied core mine s).lists in
        let r = (s.procs mine).current_priority in
        let only : (c : ℕ) → cpu_isset c (affinity s mine) ≡ (c == core) =
          λ c. ap (λ x. cpu_isset c (affinity s x)) runs ∙ tied core small started c in
        let chosen : ready_core core mine s ≡ core =
          pickcpu_only s (affinity s mine) core only small short in
        (
          r,
          subst (λ x. x ∈ lists (ready_at core r)) runs
              (subst (λ k. mine ∈ lists (ready_at k r)) chosen (readied-there core mine s)),
        )
    | inr (r, i) ↦
        let f =
          readied-Evolves core (s.running core) s (w.sound.off_lists core small started)
            w.sound.queued in
        (r, f.ready (idles core) core r i)
  ]

entered-affinity :
    (world : World) (core : ℕ) (s : State) (x : Ptr)
    → ((count_events 0 core world.entry_counter (switch_from core s)).procs x).affinityset
      ≡ (s.procs x).affinityset
entered-affinity world core s x =
    kept_set (current core s) (add_counters 0 core world.entry_counter) (switch_from core s) x
      (λ q. refl)
    ∙ kept_set (current core s) (λ q. record q { frame = s.sp core }) s x (λ q. refl)

pub tick-Serves :
    (idles : ℕ → Ptr) (world : World) (core : ℕ) (s : State)
    → core < num_cores
    → IsUp idles s
    → Tied idles s
    → IsTick idles world core s
    → (h : State) × (common_interrupt world core int_timer s ≡ Run.ok tt h)
      × IsUp idles h
      × ((d : ℕ) → s.running d ≢ null → h.running d ≢ null)
      × Tied idles h
unfolding common_interrupt handle proc_tick
tick-Serves idles world core s small w tied tick =
    let t = count_events 0 core world.entry_counter (switch_from core s) in
    let up = still-IsUp idles s t refl refl refl refl w in
    let sets = entered-affinity world core s in
    let tied' : Tied idles t =
      λ d small' pos c. ap (λ a. cpu_isset c (s.memory a)) (sets (idles d)) ∙ tied d small' pos c in
    let apart : (d : ℕ)
        → d < num_cores
        → s.running d ≢ null
        → (t.procs (idles d)).affinityset ≢ world.pull_set =
      λ d small' pos z. tick.apart d small' pos (sym (sets (idles d)) ∙ z) in
    let (g, run, e, spares, short) =
      balance-Pulls world core t small w.free up.sound.queued tick.room in
    let up' = pulled-IsUp idles world core small t g up tied' apart e spares in
    let tied'' = pulled-Tied idles world core small t g up tied' apart e spares in
    let ticked =
      with_proc (current core g) (λ q. record q { tick_count = u64 (q.tick_count + 1) }) g in
    let up_ticked = still-IsUp idles g ticked refl refl refl refl up' in
    let tied_ticked : Tied idles ticked = λ d small' pos c.
      ap (λ a. cpu_isset c (g.memory a))
        (kept_set (current core g) (λ q. record q { tick_count = u64 (q.tick_count + 1) }) g
          (idles d) (λ q. refl))
      ∙ tied'' d small' pos c in
    let here : g.running core ≡ s.running core = ap (λ (f : ℕ → Ptr). f core) e.running in
    let running : ticked.running core ≢ null = λ z. tick.started (sym here ∙ z) in
    let (h, run', up'', on) =
      end_sched idles world core (s.running core) ticked small up_ticked running
        (queued_again idles core small ticked up_ticked tied_ticked running short) in
    (
      h,
      rw run run',
      up'',
      λ d pos. on.started d (λ z. pos (sym (ap (λ (f : ℕ → Ptr). f d) e.running) ∙ z)),
      λ d small' pos c.
          ap (cpu_isset c) (
            ap h.memory (on.sets (idles d))
            ∙ ap (λ (m : Ptr → ℕ). m (ticked.procs (idles d)).affinityset) on.memory)
          ∙ tied_ticked d small'
              (elim (Bool-cases (d == core)) [
                | inl e ↦ subst (λ k. ticked.running k ≢ null) (sym ((==_iff d core).0 e)) running
                | inr n ↦ λ z. pos (on.others d n ∙ z)
              ])
              c,
    )
