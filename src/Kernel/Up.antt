-- ===== src/Kernel/Up.antt =====
-- `kernel_start` of src/c/kernel/kinit.c on one core, while the others are at work.
use rpi_kernel.Base.{
  ℕ, ◌+◌, ◌^◌, ◌<◌, ◌≡◌, ◌≢◌, refl, ap, sym, ◌∙◌, subst, false, arith, ◌==◌, ◌||◌, ◌∈◌, ◌∉◌, [],
  ◌∷◌, int_max, update_self, Bool-cases, inl, inr, ==_iff,
}
use rpi_kernel.Config.{Priority, runnable, idle, med, num_cores, tick_rearm}
use rpi_kernel.CpuSet.{cpu_isset}
use rpi_kernel.Links.{Ptr, null}
use rpi_kernel.State.{Process, State, World, ready_at, Run, Unlocked}
use rpi_kernel.Sched.{affinity, current, queue_length}
use rpi_kernel.Sched.Next.{taken}
use rpi_kernel.Thread.{preallocated}
use rpi_kernel.Thread.Create.{made, begun, entered}
use rpi_kernel.Dispatch.{core_timer_rearm}
use rpi_kernel.Dispatch.Calls.{switched}
use rpi_kernel.Dispatch.Live.{Home, IsUp, IsUpBut}
use rpi_kernel.Dispatch.Live.Choose.{next-IsUp}
use rpi_kernel.Dispatch.Live.Keep.{kept_set, still-IsUp}
use rpi_kernel.Dispatch.Live.Tick.{Tied}
use rpi_kernel.Kernel.{Locals, kernel_start}
use rpi_kernel.Kernel.Created.{made-memory}
use rpi_kernel.Kernel.Start.{
  IsRoomy, t, u, v, u-only, v-IsLeft, idle_there, kept-Detached, v-Evolves, u-Evolves, v-running,
  start_goes_on, no_failure,
}

-- A creation leaves the affinity set of every other process where it is, and gives the new one its own.
module _ (world : World) (core thread start arg : ℕ) (priority : Priority) (set : Ptr) (s : State)
    (free : Unlocked s) where
  made-others :
      (x : Ptr)
      → x ≢ world.process_block
      → ((made world core thread start arg priority set s free).procs x).affinityset
        ≡ (s.procs x).affinityset
  made-others x other =
      let d : (x == world.process_block) ≡ false = ground arith in
      rw d (kept_set (current core s) (λ q. record q { ret = 0 }) s x (λ q. refl))

  made-own :
      set ≢ null
      → ((made world core thread start arg priority set s free).procs
          world.process_block).affinityset
        ≡ set
  made-own some_set =
      kept_set world.process_block (λ q. record q { state = runnable })
        (entered core world.process_block world.stack_block s.next_pid start arg world.pthread_exit
          priority set (begun world core thread start arg priority set s free))
        world.process_block (λ q. refl)
      ∙ (ap (λ (q : Process). q.affinityset)
            (update_self (begun world core thread start arg priority set s free).procs
              world.process_block _)
          ∙ ground arith)

-- The idle process of each core that has started, and its affinity set, lie apart from what the start of a
-- core writes.
pub record IsElsewhere (idles : ℕ → Ptr) (first second : World) (l : Locals) (s : State) (d : ℕ)
    : Type 0 where
  pub boot : idles d ≢ l.boot
  pub first_block : idles d ≢ first.process_block
  pub second_block : idles d ≢ second.process_block
  pub set :
      (s.procs (idles d)).affinityset
      ∉ l.affinity
        ∷ l.idle_thread
        ∷ l.root_thread
        ∷ preallocated first.process_block
        ∷ preallocated second.process_block
        ∷ []

module _ (idles : ℕ → Ptr) (first second : World) (l : Locals) (core : ℕ) (s : State)
    (small : core < num_cores) (w : IsUp idles s) (tied : Tied idles s)
    (roomy : IsRoomy first second l s) (short : queue_length s core + 1 < int_max)
    (pid : s.next_pid ≢ 0) (pids : s.next_pid + 2 < 2 ^ 32)
    (mine : idles core ≡ first.process_block)
    (elsewhere : (d : ℕ)
      → (d == core) ≡ false
      → d < num_cores
      → s.running d ≢ null
      → IsElsewhere idles first second l s d) where
  abbrev before : State
  before = t first second l core s small w.free w.sound roomy short pid pids

  abbrev one_made : State
  one_made = u first second l core s small w.free w.sound roomy short pid pids

  abbrev both_made : State
  both_made = v first second l core s small w.free w.sound roomy short pid pids

  both_made-running : (d : ℕ) → (d == core) ≡ false → both_made.running d ≡ s.running d
  both_made-running = v-running first second l core s small w.free w.sound roomy short pid pids

  Home-both_made : (d : ℕ) → (d == core) ≡ false → Home (idles d) d s → Home (idles d) d both_made
  Home-both_made d other (inl runs) = inl (both_made-running d other ∙ runs)
  Home-both_made d other (inr (r, i)) = inr (
    r,
    (v-Evolves first second l core s small w.free w.sound roomy short pid pids).ready (idles d) d r
        ((u-Evolves first second l core s small w.free w.sound roomy short pid pids).ready (idles d)
          d r i),
  )

  both_made-IsUpBut : IsUpBut idles core both_made
  both_made-IsUpBut = record {
    left = v-IsLeft first second l core s small w.free w.sound roomy short pid pids;
    free = w.free;
    null_absent =
        kept-Detached first second l core s small w.free w.sound roomy short pid pids null
          (ground (arith, roomy.first_block)) (ground (arith, roomy.second_block)) w.null_absent;
    home = λ d other small' pos.
        Home-both_made d other (w.home d small' (λ z. pos (both_made-running d other ∙ z)));
    here = (
      idle,
      subst (λ x. x ∈ both_made.lists (ready_at core idle)) (sym mine)
          (idle_there first second l core s small w.free w.sound roomy short pid pids),
    );
  }

  set-both_made :
      (x : Ptr)
      → x ≢ second.process_block
      → (both_made.procs x).affinityset ≡ (one_made.procs x).affinityset
  set-both_made = made-others second core l.root_thread l.perf_root 0 med l.affinity one_made w.free

  memory-both_made :
      (a : Ptr)
      → a ≢ l.root_thread
      → a ≢ preallocated second.process_block
      → both_made.memory a ≡ one_made.memory a
  memory-both_made =
      made-memory second core l.root_thread l.perf_root 0 med l.affinity one_made w.free

  -- The idle process of the core that starts,
  tied-mine : (c : ℕ) → cpu_isset c (affinity both_made first.process_block) ≡ (c == core)
  tied-mine c =
      let set : (both_made.procs first.process_block).affinityset ≡ l.affinity =
        set-both_made first.process_block (λ z. roomy.blocks_apart (sym z))
        ∙ made-own first core l.idle_thread l.idle_proc 0 idle l.affinity before w.free
            roomy.affinity_set in
      let kept : both_made.memory l.affinity ≡ one_made.memory l.affinity =
        memory-both_made l.affinity (ground (arith, roomy.apart)) (ground (arith, roomy.apart)) in
      ap (cpu_isset c) (ap both_made.memory set ∙ kept)
      ∙ u-only first second l core s small w.free w.sound roomy short pid pids c

  -- and those of the others.
  module _ (d : ℕ) (far : IsElsewhere idles first second l s d) where
    set-other : (both_made.procs (idles d)).affinityset ≡ (s.procs (idles d)).affinityset
    set-other =
        let apart_boot : (idles d == l.boot) ≡ false = ground (arith, far.boot) in
        let at_start : (before.procs (idles d)).affinityset ≡ (s.procs (idles d)).affinityset =
          rw apart_boot refl in
        set-both_made (idles d) far.second_block
        ∙ (made-others first core l.idle_thread l.idle_proc 0 idle l.affinity before w.free
              (idles d) far.first_block
            ∙ at_start)

    memory-other :
        both_made.memory (s.procs (idles d)).affinityset ≡ s.memory (s.procs (idles d)).affinityset
    memory-other =
        let a = (s.procs (idles d)).affinityset in
        let n1 : (a == l.affinity) ≡ false = ground (arith, far.set) in
        let n2 : (a == l.root_thread) ≡ false = ground (arith, far.set) in
        let n3 : (a == l.idle_thread) ≡ false = ground (arith, far.set) in
        let at_start : before.memory a ≡ s.memory a = rw (n1, n2, n3) refl in
        memory-both_made a (ground (arith, far.set)) (ground (arith, far.set))
        ∙ (made-memory first core l.idle_thread l.idle_proc 0 idle l.affinity before w.free a
              (ground (arith, far.set)) (ground (arith, far.set))
            ∙ at_start)

    affinity-other : affinity both_made (idles d) ≡ affinity s (idles d)
    affinity-other = ap both_made.memory set-other ∙ memory-other

  -- `kernel_start` returns with the cores at work, this one among them, the idle processes tied to their
  -- cores, and both processes created.
  pub start-IsUp :
      (g : State) × (kernel_start first second l core s ≡ Run.ok tt g)
      × IsUp idles g
      × Tied idles g
      × (g.running core ≢ null)
      × ((d : ℕ) → (d == core) ≡ false → g.running d ≡ s.running d)
      × (((g.memory l.idle_thread == 0) || (g.memory l.root_thread == 0)) ≡ false)
  start-IsUp =
      let (p, run, some_process, up) = next-IsUp idles core both_made both_made-IsUpBut in
      let g = core_timer_rearm core tick_rearm (switched core p (taken core p both_made)) in
      let others : (d : ℕ) → (d == core) ≡ false → g.running d ≡ s.running d = λ d n. rw n refl in
      (
        g,
        start_goes_on first second l core s small w.free w.sound roomy short pid pids p
            (taken core p both_made) run,
        still-IsUp idles (taken core p both_made) g refl refl refl refl up,
        λ d small' pos c. elim (Bool-cases (d == core)) [
          | inl e ↦
              let same = (==_iff d core).0 e in
              let at : idles d ≡ first.process_block = ap idles same ∙ mine in
              ap (λ x. cpu_isset c (affinity both_made x)) at
              ∙ (tied-mine c ∙ ap (λ k. c == k) (sym same))
          | inr n ↦
              let pos' : s.running d ≢ null = λ z. pos (others d n ∙ z) in
              ap (cpu_isset c) (affinity-other d (elsewhere d n small' pos')) ∙ tied d small' pos' c
        ],
        λ z. some_process (sym (update_self both_made.running core p) ∙ z),
        others,
        no_failure first second l core s small w.free w.sound roomy short pid pids,
      )
