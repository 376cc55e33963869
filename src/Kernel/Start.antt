-- ===== src/Kernel/Start.antt =====
-- `kernel_start` of src/c/kernel/kinit.c on one core.
use rpi_kernel.Base.{
  ◌^◌, some, ℕ, ◌+◌, ◌<◌, ◌≡◌, ◌≢◌, refl, ap, sym, ◌∙◌, false, ◌||◌, [], ◌∷◌, arith, ◌==◌, ◌∈◌, has,
  has-remove, Distinct, update_self, Bool-cases, inl, inr, ==_iff, ==_refl, u32, int_max, subst,
}
use rpi_kernel.Config.{Priority, idle, low, med, high, num_cores, tick_rearm}
use rpi_kernel.CpuSet.{cpu_zero, cpu_set, cpu_isset, isset-set, isset-zero}
use rpi_kernel.Links.{Ptr, null}
use rpi_kernel.State.{State, World, ready_at, head_key, ok, Unlocked, store_word}
use rpi_kernel.Sched.{queue_length, next}
use rpi_kernel.Sched.Next.{rank, taken, next_lem}
use rpi_kernel.Sched.Invariant.{IsQueued, Detached}
use rpi_kernel.Sched.Invariant.Evolve.{Evolves}
use rpi_kernel.Thread.{preallocated}
use rpi_kernel.Thread.Create.{made, proc_create_lem}
use rpi_kernel.Thread.Create.Keep.{made-Evolves}
use rpi_kernel.Dispatch.{switch_to, core_timer_rearm}
use rpi_kernel.Dispatch.Calls.{switched}
use rpi_kernel.Dispatch.Sound.{IsSound, IsLeft, Standby, still-IsSound, taken-IsSound}
use rpi_kernel.Kernel.{Locals, with_locals, kernel_start}
use rpi_kernel.Kernel.Created.{made-there, made-length, made-memory, made-thread}

-- What the memory that a start uses must satisfy: two blocks from `malloc` and their stacks, linked
-- nowhere and running nowhere, and locals that lie apart from each other and from the blocks.
pub record IsRoomy (first second : World) (l : Locals) (s : State) : Type 0 where
  pub first_block : ((first.process_block == null) || (first.stack_block == null)) ≡ false
  pub second_block : ((second.process_block == null) || (second.stack_block == null)) ≡ false
  pub blocks_apart : second.process_block ≢ first.process_block
  pub first_absent : Detached first.process_block s
  pub second_absent : Detached second.process_block s
  pub first_idle : (c : ℕ) → c < num_cores → s.running c ≢ first.process_block
  pub second_idle : (c : ℕ) → c < num_cores → s.running c ≢ second.process_block
  pub null_absent : Detached null s
  pub affinity_set : l.affinity ≢ null
  pub apart : Distinct (
      l.affinity
      ∷ l.idle_thread
      ∷ l.root_thread
      ∷ preallocated first.process_block
      ∷ preallocated second.process_block
      ∷ [])

module _ (first second : World) (l : Locals) (core : ℕ) (s : State) (small : core < num_cores)
    (free : Unlocked s) (w : IsSound s) (roomy : IsRoomy first second l s)
    (short : queue_length s core + 1 < int_max) (pid : s.next_pid ≢ 0)
    (pids : s.next_pid + 2 < 2 ^ 32) where
  abbrev pub t : State
  t = with_locals l core s

  abbrev pub u : State
  u = made first core l.idle_thread l.idle_proc 0 idle l.affinity t free

  abbrev pub v : State
  v = made second core l.root_thread l.perf_root 0 med l.affinity u free

  t-only : (c : ℕ) → cpu_isset c (t.memory l.affinity) ≡ (c == core)
  t-only c =
      ap (cpu_isset c) (
        update_self (store_word l.root_thread 0 (store_word l.idle_thread 0 s)).memory l.affinity
          (cpu_set core cpu_zero))
      ∙ (isset-set c core cpu_zero ∙ ground (arith, isset-zero c))

  pub u-only : (c : ℕ) → cpu_isset c (u.memory l.affinity) ≡ (c == core)
  u-only c =
      ap (cpu_isset c) (
        made-memory first core l.idle_thread l.idle_proc 0 idle l.affinity t free l.affinity
          (ground (arith, roomy.apart)) (ground (arith, roomy.apart)))
      ∙ t-only c

  queued-t : IsQueued t
  queued-t = record { partition = w.queued.partition; counted = w.queued.counted }

  pub u-Evolves : Evolves first.process_block t u
  u-Evolves =
      made-Evolves first core l.idle_thread l.idle_proc 0 idle l.affinity t free queued-t
        roomy.first_absent

  pub v-Evolves : Evolves second.process_block u v
  v-Evolves =
      made-Evolves second core l.root_thread l.perf_root 0 med l.affinity u free u-Evolves.queued
        (u-Evolves.detached second.process_block roomy.blocks_apart roomy.second_absent)

  pub kept-Detached :
      (p : Ptr) → p ≢ first.process_block → p ≢ second.process_block → Detached p s → Detached p v
  kept-Detached p n m d = v-Evolves.detached p m (u-Evolves.detached p n d)

  pub v-running : (c : ℕ) → (c == core) ≡ false → v.running c ≡ s.running c
  v-running c d = rw d

  pub v-IsLeft : IsLeft core v
  v-IsLeft = record {
    queued = v-Evolves.queued;
    off_lists = λ c d small pos a.
        let same = v-running c d in
        ap (λ x. has x (v.lists a)) same
        ∙ kept-Detached (s.running c) (roomy.first_idle c small) (roomy.second_idle c small)
            (w.off_lists c small (λ z. pos (same ∙ z))) a;
    alone = λ c d n m small small' pos same.
        w.alone c d small small' (λ z. pos (v-running c n ∙ z))
          (sym (v-running c n) ∙ (same ∙ v-running d m));
  }

  pub idle_there : first.process_block ∈ v.lists (ready_at core idle)
  idle_there = v-Evolves.ready first.process_block core idle (
      made-there first core l.idle_thread l.idle_proc 0 idle l.affinity t free small (omega arith)
        roomy.affinity_set t-only (ground (arith, roomy.apart)) (ground (arith, roomy.apart)))

  root_there : second.process_block ∈ v.lists (ready_at core med)
  root_there =
      made-there second core l.root_thread l.perf_root 0 med l.affinity u free small
        (let k =
            made-length first core l.idle_thread l.idle_proc 0 idle l.affinity t free small
              (omega arith) roomy.affinity_set t-only (ground (arith, roomy.apart))
              (ground (arith, roomy.apart)) in
          omega arith)
        roomy.affinity_set u-only (ground (arith, roomy.apart)) (ground (arith, roomy.apart))

  pub no_failure : ((v.memory l.idle_thread == 0) || (v.memory l.root_thread == 0)) ≡ false
  no_failure =
      let i : v.memory l.idle_thread ≡ s.next_pid =
        made-memory second core l.root_thread l.perf_root 0 med l.affinity u free l.idle_thread
          (ground (arith, roomy.apart)) (ground (arith, roomy.apart))
        ∙ made-thread first core l.idle_thread l.idle_proc 0 idle l.affinity t free
            (ground (arith, roomy.apart)) in
      let r : v.memory l.root_thread ≡ u32 (s.next_pid + 1) =
        made-thread second core l.root_thread l.perf_root 0 med l.affinity u free
          (ground (arith, roomy.apart)) in
      rw (i, r) (ground arith)

  -- The process that is chosen is no idle one.
  chosen-rank :
      (r : Priority)
      → ((above : Priority) → rank r < rank above → v.lists (ready_at core above) ≡ [])
      → ready_at core r ≢ ready_at core idle
  chosen-rank idle above e =
      let gone = ap (has second.process_block) (above med (omega arith)) in
      let there = root_there in ground arith
  chosen-rank low above e = cc
  chosen-rank med above e = cc
  chosen-rank high above e = cc

  still-Standby :
      (r : Priority) (p : Ptr)
      → p ∈ v.lists (ready_at core r)
      → ready_at core r ≢ ready_at core idle
      → Standby core (taken core p v)
  still-Standby r p m other =
      let apart : (first.process_block == p) ≡ false =
        elim (Bool-cases (first.process_block == p)) [
          | inl e ↦ absurd (
              other (
                v-Evolves.queued.partition.once p (ready_at core r) (ready_at core idle) m
                  (subst (λ x. x ∈ v.lists (ready_at core idle)) ((==_iff _ p).0 e) idle_there)))
          | inr n ↦ n
        ] in
      (
        idle,
        first.process_block,
        has-remove first.process_block p (v.lists (ready_at core idle))
            ∙ rw (apart, idle_there) refl,
      )

  chosen-ne-null : (r : Priority) (p : Ptr) → p ∈ v.lists (ready_at core r) → p ≢ null
  chosen-ne-null r p m e =
      let absent =
        kept-Detached null (ground (arith, roomy.first_block)) (ground (arith, roomy.second_block))
          roomy.null_absent (ready_at core r) in
      let there = subst (λ x. x ∈ v.lists (ready_at core r)) e m in ground arith

  -- The set-up up to the choice of the first process.
  pub start_goes_on :
      (p : Ptr) (h : State)
      → next core v ≡ ok (some p) h
      → kernel_start first second l core s
        ≡ ok tt (core_timer_rearm core tick_rearm (switched core p h))
  unfolding kernel_start switch_to
  start_goes_on p h run =
      let more : u32 (u.next_pid) ≢ 0 = ground arith in
      rw (
        proc_create_lem first core l.idle_thread l.idle_proc 0 idle l.affinity t free
            roomy.first_block (ground arith),
        proc_create_lem second core l.root_thread l.perf_root 0 med l.affinity u free
            roomy.second_block (ground arith),
        no_failure,
        run,
      )

  -- Where the queues and the running processes are sound, no spinlock is held, the memory is roomy, and
  -- neither the counter of pids nor the length of the core's queue is about to overflow: `kernel_start`
  -- returns with queues and running processes sound and no spinlock held; the core runs a process, and
  -- another one is ready on it. This is what the interrupts of the core start from.
  pub kernel_start-IsSound :
      (g : State) × (kernel_start first second l core s ≡ ok tt g)
      × IsSound g
      × Standby core g
      × Unlocked g
      × (g.running core ≢ null)
  kernel_start-IsSound = elim (next_lem core v (free _)) [
    | inl (r, p, rest, e, above, run) ↦
        let m : p ∈ v.lists (ready_at core r) = ap (has p) e ∙ ground (arith, ==_refl p) in
        (
          core_timer_rearm core tick_rearm (switched core p (taken core p v)),
          start_goes_on p (taken core p v) run,
          still-IsSound (taken core p v) _ refl refl refl (taken-IsSound core r p v v-IsLeft m),
          still-Standby r p m (chosen-rank r above),
          free,
          λ z. chosen-ne-null r p m (sym (update_self v.running core p) ∙ z),
        )
    | inr (empty, run) ↦
        let gone = ap (has second.process_block) (empty med) in
        let there = root_there in absurd (ground arith)
  ]
