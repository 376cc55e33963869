-- ===== src/Sched/Invariant/Pull.antt =====
-- The pull of processes from the busiest core, `sched_pull` of src/c/kernel/dispatch.c: it returns, and
-- the queues stay sound.
pub mod Move
pub mod Spare
pub mod Entry
pub mod Loop
use mathlib.Core.List.{reverse-append}
use rpi_kernel.Base.{
  ℕ, zero, suc, ◌+◌, ◌-◌, ◌<◌, ◌≤◌, ◌≡◌, ◌≢◌, refl, ap, ◌∙◌, sym, subst, fun_ext, Bool, true, false,
  not, ◌&&◌, ◌||◌, List, [], ◌∷◌, ◌++◌, ◌==◌, arith, if◌then◌else◌, u32, pred32, int_max, lt_int,
  ltb, lt_int_small, quotient_below_1_2, update, update_self, update_key, remove, remove_absent,
  reverse, has, ◌∈◌, ◌∉◌, has-append, has-remove, Distinct, length, length-append, Bool-cases, inl,
  inr, eq_of_same, same_refl, ==_iff, ==_refl,
}
use rpi_kernel.Config.{Priority, idle, num_cores}
use rpi_kernel.CpuSet.{cpu_zero, cpu_set, cpu_and, cpu_isset, isset-zero, isset-set, isset-and}
use rpi_kernel.Links.{Ptr}
use rpi_kernel.State.{
  Process, RunQueue, State, Head, ready_at, same_head, head_key, Lock, queue_lock, lock_key, ok,
  Run, Cmd, del_sched, with_length, with_proc, store_word, spin_lock-ok, spin_unlock, relock,
}
use rpi_kernel.Sched.{
  queue_length, affinity, inactive_loop, sched_pickcpu_inactive, sched_pickcpu,
  sched_pickcpu_busiest, pull_entry, pull_loop, sched_pull,
}
use rpi_kernel.Sched.Ready.{ready_core, ready_head, readied, ready_lem}
use rpi_kernel.Sched.Next.{taken}
use rpi_kernel.Sched.Invariant.{
  Distinct-append, differ, IsPartition, IsQueued, Detached, waiting, removed, placed,
  placed-IsPartition, waiting-placed,
}
use rpi_kernel.Sched.Invariant.Keep.{taken-IsQueued, count_up, length-update, length-at}
use rpi_kernel.Sched.Invariant.Evolve.{placed-detached, other-of-member}

-- Among the cores only one is eligible: it is chosen.
module _ (s : State) (mask core : ℕ) (only : (c : ℕ) → cpu_isset c mask ≡ (c == core)) where
  past_only :
      (left cpu found count : ℕ) → core < cpu → inactive_loop s mask left cpu found count ≡ found
  unfolding inactive_loop
  past_only zero cpu found count past = refl
  past_only (suc left) cpu found count past =
      ground (arith, only cpu, past_only left (suc cpu) found count)

  reach_only :
      (left cpu found : ℕ)
      → queue_length s core < int_max
      → cpu ≤ core
      → core < cpu + left
      → inactive_loop s mask left cpu found int_max ≡ core
  unfolding inactive_loop
  reach_only zero cpu found short lo hi = absurd (omega arith)
  reach_only (suc left) cpu found short lo hi = elim (Bool-cases (cpu == core)) [
    | inl e ↦
        let here : cpu ≡ core = (==_iff cpu core).0 e in
        let below : lt_int (queue_length s core) int_max ≡ true = ground arith in
        let up : cpu_isset core mask ≡ true = only core ∙ ==_refl core in
        rw (here, below, up) (past_only left (suc core) core (queue_length s core) (omega arith))
    | inr n ↦ ground (arith, only cpu, reach_only left (suc cpu) found)
  ]

  pub pickcpu_only :
      core < num_cores → queue_length s core < int_max → sched_pickcpu core s mask ≡ core
  unfolding sched_pickcpu sched_pickcpu_inactive
  pickcpu_only small short =
      ground (arith, reach_only num_cores 0 0 short (omega arith) (omega arith))

reverse-cons : (x : Ptr) (xs : List Ptr) → reverse (x ∷ xs) ≡ reverse xs ++ x ∷ []
reverse-cons x xs = reverse-append (x ∷ []) xs

has-reverse : (q : Ptr) (xs : List Ptr) → has q (reverse xs) ≡ has q xs
has-reverse q [] = refl
has-reverse q (x ∷ xs) =
    rw reverse-cons (has-append q (reverse xs) (x ∷ []) ∙ ground (arith, has-reverse q xs))

length-reverse : (xs : List Ptr) → length (reverse xs) ≡ length xs
length-reverse [] = refl
length-reverse (x ∷ xs) =
    rw reverse-cons (length-append (reverse xs) (x ∷ []) ∙ omega (arith, length-reverse xs))

Distinct-reverse : (xs : List Ptr) → Distinct xs → Distinct (reverse xs)
Distinct-reverse [] d = tt
Distinct-reverse (x ∷ xs) d =
    rw reverse-cons
      (Distinct-append x (reverse xs) (Distinct-reverse xs d.1) (has-reverse x xs ∙ d.0))

-- What the pull may do: nothing that is ready on the pulling core goes, nothing that is in no list
-- gets into one, and locks and running processes stay.
pub record Pulls (core : ℕ) (s g : State) : Type 0 where
  pub queued : IsQueued g
  pub running : g.running ≡ s.running
  pub locks : g.locks ≡ s.locks
  pub detached : (r : Ptr) → Detached r s → Detached r g
  pub ready :
      (q : Ptr) (r : Priority) → q ∈ s.lists (ready_at core r) → q ∈ g.lists (ready_at core r)

pub Pulls-chain : {core : ℕ} {s t g : State} → Pulls core s t → Pulls core t g → Pulls core s g
Pulls-chain e f = record {
  queued = f.queued;
  running = f.running ∙ e.running;
  locks = f.locks ∙ e.locks;
  detached = λ r d. f.detached r (e.detached r d);
  ready = λ q r m. f.ready q r (e.ready q r m);
}

pub queued-still :
    (s g : State)
    → g.lists ≡ s.lists
    → ((c : ℕ) → queue_length g c ≡ queue_length s c)
    → IsQueued s
    → IsQueued g
queued-still s g l k q = record {
  partition = subst IsPartition (sym l) q.partition;
  counted = λ c. k c ∙ (q.counted c ∙ ap (λ (f : Head → List Ptr). u32 (waiting f c)) (sym l));
}

-- The set that the pull builds for an eligible process has the pulling core alone.
pub pull_mask :
    (core affinityset c : ℕ)
    → cpu_isset core affinityset ≡ true
    → cpu_isset c (cpu_and (cpu_set core cpu_zero) affinityset) ≡ (c == core)
pull_mask core set c up =
    isset-and c (cpu_set core cpu_zero) set
    ∙ ground (arith, isset-set c core cpu_zero, isset-zero c)
