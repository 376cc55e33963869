-- ===== src/Sched.antt =====
-- Scheduling: src/c/kernel/dispatch.c but for `common_interrupt`. `core` is what `get_core_id()`
-- returns where the function runs; a loop over the entries of a list walks the list as it was when
-- the loop began, since the bodies unlink no entry but the one they stand at.
pub mod Pick
pub mod Ready
pub mod Next
pub mod Block
pub mod Enqueue
pub mod Invariant
use rpi_kernel.Base.{
  ℕ, zero, suc, ◌+◌, ◌*◌, ◌/◌, ◌%◌, ◌^◌, Bool, true, false, ◌&&◌, not, Option, none, some, List, [],
  ◌∷◌, ◌==◌, if◌then◌else◌, ltb, lt_int, int_max, u32, pred32, int_to_u64, quotient_below_1_2,
  update, update_key, reverse,
}
use rpi_kernel.Config.{Priority, idle, descending, num_cores, ProcessState, runnable, same_priority}
use rpi_kernel.CpuSet.{cpu_zero, cpu_set, cpu_isset, cpu_and}
use rpi_kernel.Links.{Ptr}
use rpi_kernel.State.{
  Process, RunQueue, State, Run, ok, hang, fault, Cmd, pure, and_then, ◌>>=◌, ◌>>◌, modify, gets,
  spin_lock, spin_unlock, with_proc, del_sched, add_tail_sched, with_length, store_word, Head,
  ready_at, Lock, queue_lock,
}

-- `running_list[get_core_id()]`
abbrev pub current : ℕ → State → Ptr
current core s = s.running core

-- `ready_queue[core].length`, the bits of an `int`
abbrev pub queue_length : State → ℕ → ℕ
queue_length s core = (s.queues core).length

-- `*p->affinityset`
abbrev pub affinity : State → Ptr → ℕ
affinity s p = s.memory (s.procs p).affinityset

-- The loop from `cpu` on, with `left` cores to go.
unfoldable pub busiest_loop : State → ℕ → (cpu core count : ℕ) → ℕ
busiest_loop s zero cpu core count = core
busiest_loop s (suc left) cpu core count =
    let more = lt_int count (queue_length s cpu) in
    busiest_loop s left (suc cpu) (if more then cpu else core)
      (if more then queue_length s cpu else count)

unfoldable pub sched_pickcpu_busiest : State → ℕ
unfolding busiest_loop
sched_pickcpu_busiest s = busiest_loop s num_cores 0 0 0

unfoldable pub inactive_loop : State → ℕ → ℕ → (cpu core count : ℕ) → ℕ
inactive_loop s mask zero cpu core count = core
inactive_loop s mask (suc left) cpu core count =
    let less = lt_int (queue_length s cpu) count && cpu_isset cpu mask in
    inactive_loop s mask left (suc cpu) (if less then cpu else core)
      (if less then queue_length s cpu else count)

unfoldable pub sched_pickcpu_inactive : State → ℕ → ℕ
unfolding inactive_loop
sched_pickcpu_inactive s mask = inactive_loop s mask num_cores 0 0 int_max

-- `100 * curr->length / live_procs`: the product is an `int`, the quotient a `uint64_t`, and 0 if
-- `live_procs` is, as the processor's UDIV gives it.
unfoldable pub load_percent : State → ℕ → ℕ
load_percent s core = int_to_u64 (u32 (100 * queue_length s core)) / s.live_procs

unfoldable pub sched_pickcpu : ℕ → State → ℕ → ℕ
sched_pickcpu core s mask =
    let inactive = sched_pickcpu_inactive s mask in
    if not (cpu_isset core mask)
    then inactive
    else if ltb 25 (load_percent s core)
    then inactive
    else core

unfoldable pub ready : ℕ → Ptr → Cmd (Unit {0})
ready core p = do
  modify (with_proc p (λ q. record q { state = runnable }))
  target ← gets (λ s. sched_pickcpu core s (affinity s p))
  spin_lock (queue_lock target)
  modify (with_length target (λ n. u32 (n + 1)))
  modify (del_sched p)
  priority ← gets (λ s. (s.procs p).current_priority)
  modify (add_tail_sched p (ready_at target priority))
  spin_unlock (queue_lock target)

-- What `next` does with the first entry of the queue that it looks at.
unfoldable pub take_first : ℕ → List Ptr → Cmd (Option Ptr)
take_first core [] = pure none
take_first core (p ∷ rest) = do
  modify (del_sched p)
  modify (with_length core pred32)
  pure (some p)

unfoldable pub run_or : ℕ → Option Ptr → Cmd (Option Ptr) → Cmd (Option Ptr)
run_or core none otherwise = otherwise
run_or core (some p) otherwise = do
  modify (λ s. record s { running = update s.running core p })
  pure (some p)

unfoldable pub next_loop : ℕ → List Priority → Cmd (Option Ptr)
unfolding take_first run_or
next_loop core [] = pure none
next_loop core (priority ∷ lower) =
    let rest = next_loop core lower in
    do
      spin_lock (queue_lock core)
      entries ← gets (λ s. s.lists (ready_at core priority))
      found ← take_first core entries
      spin_unlock (queue_lock core)
      run_or core found rest

-- `none` is NULL: no queue of the core has an entry.
unfoldable pub next : ℕ → Cmd (Option Ptr)
unfolding next_loop
next core = next_loop core descending

-- One round of the loop of `sched_pull`; `true` is its `break`. `target` is the address of the CPU
-- set on the stack of the function.
unfoldable pub pull_entry : ℕ → (busy : ℕ) → (target : Ptr) → Ptr → Cmd Bool
pull_entry core busy target p = do
  balanced ← gets (λ s. quotient_below_1_2 (queue_length s busy) (queue_length s core))
  if balanced then pure true else do
    modify (store_word target cpu_zero)
    modify (λ s. store_word target (cpu_set core (s.memory target)) s)
    modify (λ s. store_word target (cpu_and (s.memory target) (affinity s p)) s)
    eligible ← gets (λ s. cpu_isset core (s.memory target))
    if not eligible then pure false else do
      modify (with_length busy pred32)
      restore_set ← gets (λ s. (s.procs p).affinityset)
      modify (with_proc p (λ q. record q { affinityset = target }))
      ready core p
      modify (with_proc p (λ q. record q { affinityset = restore_set }))
      pure false

unfoldable pub pull_loop : ℕ → (busy : ℕ) → (target : Ptr) → List Ptr → Cmd (Unit {0})
unfolding pull_entry
pull_loop core busy target [] = pure tt
pull_loop core busy target (p ∷ ps) =
    let rest = pull_loop core busy target ps in
    do stop ← pull_entry core busy target p; if stop then pure tt else rest

-- `busy->tasks` is the first of the four lists, that of PRIORITY_IDLE, and the walk is backwards.
unfoldable pub sched_pull : ℕ → (target : Ptr) → Cmd (Unit {0})
unfolding pull_loop
sched_pull core target = do
  busy ← gets sched_pickcpu_busiest
  if busy == core then pure tt else do
    spin_lock (queue_lock busy)
    entries ← gets (λ s. s.lists (ready_at busy idle))
    pull_loop core busy target (reverse entries)
    spin_unlock (queue_lock busy)

unfoldable pub sleep_on_locked : Head → Ptr → Cmd (Unit {0})
sleep_on_locked head task = do
  modify (with_proc task (λ q. record q { blocked_on = head }))
  modify (del_sched task)
  modify (add_tail_sched task head)

unfoldable pub sleep_on : Head → Ptr → Lock → Cmd (Unit {0})
unfolding sleep_on_locked
sleep_on head task lock = do spin_lock lock; sleep_on_locked head task; spin_unlock lock

-- `nr` is the argument of the function, which no round changes.
unfoldable pub alert_loop : ℕ → (Ptr → Cmd Bool) → ℕ → List Ptr → Cmd (Unit {0})
alert_loop core condition nr [] = pure tt
alert_loop core condition nr (p ∷ ps) =
    let rest = alert_loop core condition nr ps in
    if nr == 0 then pure tt else do
      wake ← condition p
      if wake then (do modify (del_sched p); ready core p) else pure tt
      rest

unfoldable pub alert_on_locked_nr : ℕ → Head → (Ptr → Cmd Bool) → ℕ → Cmd (Unit {0})
unfolding alert_loop
alert_on_locked_nr core head condition nr = do
  entries ← gets (λ s. s.lists head)
  alert_loop core condition nr entries

unfoldable pub alert_on_locked : ℕ → Head → (Ptr → Cmd Bool) → Cmd (Unit {0})
unfolding alert_on_locked_nr
alert_on_locked core head condition = alert_on_locked_nr core head condition 4_294_967_295

unfoldable pub alert_on_nr : ℕ → Head → (Ptr → Cmd Bool) → ℕ → Lock → Cmd (Unit {0})
unfolding alert_on_locked_nr
alert_on_nr core head condition nr lock = do
  spin_lock lock
  alert_on_locked_nr core head condition nr
  spin_unlock lock

unfoldable pub alert_on : ℕ → Head → (Ptr → Cmd Bool) → Lock → Cmd (Unit {0})
unfolding alert_on_locked
alert_on core head condition lock = do
  spin_lock lock
  alert_on_locked core head condition
  spin_unlock lock
