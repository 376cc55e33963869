-- ===== src/Sched/Pick.antt =====
-- Which core the scheduler picks: `sched_pickcpu*` of src/c/kernel/dispatch.c.
use rpi_kernel.Base.{
  ℕ, zero, suc, ◌+◌, ◌*◌, ◌^◌, ◌↔◌, ◌≤◌, ◌<◌, ◌≡◌, refl, ◌⊎◌, inl, sym, subst, ◌/◌, u32, int_to_u64,
  true, false, arith, int_max,
}
use native.Mathlib.Nat.{div-lt_iff_lt-mul}
use rpi_kernel.Config.{num_cores}
use rpi_kernel.CpuSet.{cpu_isset}
use rpi_kernel.State.{State}
use rpi_kernel.Sched.{
  queue_length, busiest_loop, sched_pickcpu_busiest, inactive_loop, sched_pickcpu_inactive,
  load_percent, sched_pickcpu,
}

-- The length of every queue is one that an `int` holds below its greatest.
abbrev pub Bounded : State → Type 0
Bounded s = (c : ℕ) → queue_length s c < int_max

module _ (s : State) (mask : ℕ) (bounded : Bounded s) where
  -- The loop keeps its core, or finds an eligible one with a shorter queue.
  inactive_range :
      (left cpu core count : ℕ)
      → count ≤ int_max
      → let r = inactive_loop s mask left cpu core count in
        (r ≡ core)
        ⊎ ((queue_length s r < count) × (cpu_isset r mask ≡ true) × (cpu ≤ r) × (r < cpu + left))
  unfolding inactive_loop
  inactive_range zero cpu core count b = inl refl
  inactive_range (suc left) cpu core count b = ground (
    arith,
    bounded cpu,
    inactive_range left (suc cpu) cpu (queue_length s cpu),
    inactive_range left (suc cpu) core count,
  )

  -- Beside an eligible core the loop keeps its own only if that core's queue is no shorter.
  inactive_best :
      (left cpu core count c : ℕ)
      → count ≤ int_max
      → cpu ≤ c
      → c < cpu + left
      → cpu_isset c mask ≡ true
      → let r = inactive_loop s mask left cpu core count in
        ((r ≡ core) × (count ≤ queue_length s c))
        ⊎ ((cpu_isset r mask ≡ true)
            × (cpu ≤ r)
            × (r < cpu + left)
            × (queue_length s r ≤ queue_length s c)
            × ((r ≤ c) ⊎ (queue_length s r < queue_length s c)))
  unfolding inactive_loop
  inactive_best zero cpu core count c b lo hi up = absurd (omega arith)
  inactive_best (suc left) cpu core count c b lo hi up = ground (
    arith,
    bounded cpu,
    inactive_range left (suc cpu) cpu (queue_length s cpu),
    inactive_range left (suc cpu) core count,
    inactive_best left (suc cpu) cpu (queue_length s cpu) c,
    inactive_best left (suc cpu) core count c,
  )

  -- `sched_pickcpu_inactive` gives the eligible core with the shortest queue, the first of them if
  -- several are as short, as soon as one core is eligible and the lengths are below INT32_MAX.
  pub pickcpu_inactive_best :
      (c : ℕ)
      → c < num_cores
      → cpu_isset c mask ≡ true
      → let r = sched_pickcpu_inactive s mask in
        (r < num_cores)
        × (cpu_isset r mask ≡ true)
        × (queue_length s r ≤ queue_length s c)
        × ((r ≤ c) ⊎ (queue_length s r < queue_length s c))
  unfolding sched_pickcpu_inactive
  pickcpu_inactive_best c small up = ground (
    arith,
    bounded c,
    inactive_best num_cores 0 0 int_max c (omega arith) (omega arith) (omega arith) up,
  )

  -- Where one core is eligible and the lengths are below INT32_MAX, `sched_pickcpu` gives an eligible
  -- core: the running one where it is eligible and its `load_percent` is at most 25, otherwise one whose
  -- queue is no longer than that of any eligible core.
  pub pickcpu_eligible :
      (core c : ℕ)
      → core < num_cores
      → c < num_cores
      → cpu_isset c mask ≡ true
      → let r = sched_pickcpu core s mask in
        (r < num_cores)
        × (cpu_isset r mask ≡ true)
        × (((r ≡ core) × (load_percent s core ≤ 25))
            ⊎ (((cpu_isset core mask ≡ false) ⊎ (25 < load_percent s core))
                × (queue_length s r ≤ queue_length s c)))
  unfolding sched_pickcpu
  pickcpu_eligible core c lt small up = ground (arith, pickcpu_inactive_best c small up)

  -- Rounded down, the load is at most 25 percent just where it is below 26.
  load-light :
      (core : ℕ)
      → 0 < s.live_procs
      → 100 * queue_length s core < 2 ^ 31
      → (load_percent s core < 26) ↔ (100 * queue_length s core < 26 * s.live_procs)
  unfolding load_percent
  load-light core some_live fits =
      let n = 100 * queue_length s core in
      let word : int_to_u64 (u32 n) ≡ n = ground arith in
      subst (λ x. (x / s.live_procs < 26) ↔ (n < 26 * s.live_procs)) (sym word)
        (div-lt_iff_lt-mul {k = s.live_procs} {x = n} {y = 26} some_live)

  -- Where a core is eligible, the lengths are below INT32_MAX, some process lives and 100 times the length
  -- of the running core's queue is an int, `sched_pickcpu` gives an eligible core. It is the running one where
  -- that is eligible and has less than 26 processes in its queue for every 100 that live; otherwise it is
  -- one whose queue is no longer than that of any eligible core, which may be the running one too.
  pub sched_pickcpu_lem :
      (core c : ℕ)
      → core < num_cores
      → c < num_cores
      → cpu_isset c mask ≡ true
      → 0 < s.live_procs
      → 100 * queue_length s core < 2 ^ 31
      → let r = sched_pickcpu core s mask in
        (r < num_cores)
        × (cpu_isset r mask ≡ true)
        × (((cpu_isset core mask ≡ true)
              × (100 * queue_length s core < 26 * s.live_procs)
              × (r ≡ core))
            ⊎ (((cpu_isset core mask ≡ false) ⊎ (26 * s.live_procs ≤ 100 * queue_length s core))
                × (queue_length s r ≤ queue_length s c)))
  unfolding sched_pickcpu
  sched_pickcpu_lem core c lt small up some_live fits =
      let (light, within) = load-light core some_live fits in
      ground (arith, pickcpu_inactive_best c small up, light, within)

module _ (s : State) (mask : ℕ) where
  inactive_none :
      (left cpu core count : ℕ)
      → ((c : ℕ) → cpu ≤ c → c < cpu + left → cpu_isset c mask ≡ false)
      → inactive_loop s mask left cpu core count ≡ core
  unfolding inactive_loop
  inactive_none zero cpu core count none = refl
  inactive_none (suc left) cpu core count none = ground (
    arith,
    none cpu,
    inactive_none left (suc cpu) core count (λ c lo hi. none c (omega arith) (omega arith)),
  )

  -- Where no core is eligible, `sched_pickcpu` on any core falls back to core 0, which is not
  -- eligible either.
  pub pickcpu_none :
      (core : ℕ)
      → core < num_cores
      → ((c : ℕ) → c < num_cores → cpu_isset c mask ≡ false)
      → sched_pickcpu core s mask ≡ 0
  unfolding sched_pickcpu sched_pickcpu_inactive
  pickcpu_none core lt none =
      ground (arith, none core lt, inactive_none num_cores 0 0 int_max (λ c lo hi. none c hi))

module _ (s : State) (bounded : Bounded s) where
  busiest_range :
      (left cpu core count : ℕ)
      → count ≤ int_max
      → let r = busiest_loop s left cpu core count in
        (r ≡ core) ⊎ ((count < queue_length s r) × (cpu ≤ r) × (r < cpu + left))
  unfolding busiest_loop
  busiest_range zero cpu core count b = inl refl
  busiest_range (suc left) cpu core count b = ground (
    arith,
    bounded cpu,
    busiest_range left (suc cpu) cpu (queue_length s cpu),
    busiest_range left (suc cpu) core count,
  )

  busiest_best :
      (left cpu core count c : ℕ)
      → count ≤ int_max
      → cpu ≤ c
      → c < cpu + left
      → let r = busiest_loop s left cpu core count in
        ((r ≡ core) × (queue_length s c ≤ count))
        ⊎ ((cpu ≤ r) × (r < cpu + left) × (queue_length s c ≤ queue_length s r))
  unfolding busiest_loop
  busiest_best zero cpu core count c b lo hi = absurd (omega arith)
  busiest_best (suc left) cpu core count c b lo hi = ground (
    arith,
    bounded cpu,
    busiest_range left (suc cpu) cpu (queue_length s cpu),
    busiest_range left (suc cpu) core count,
    busiest_best left (suc cpu) cpu (queue_length s cpu) c,
    busiest_best left (suc cpu) core count c,
  )

  -- Where the lengths are below INT32_MAX, `sched_pickcpu_busiest` gives a core whose queue is the
  -- longest.
  pub pickcpu_busiest_longest :
      (c : ℕ)
      → c < num_cores
      → (sched_pickcpu_busiest s < num_cores)
        × (queue_length s c ≤ queue_length s (sched_pickcpu_busiest s))
  unfolding sched_pickcpu_busiest
  pickcpu_busiest_longest c small =
      ground (arith, busiest_best num_cores 0 0 0 c (omega arith) (omega arith) (omega arith))
