-- ===== src/Sched/Invariant/Keep.antt =====
-- The calls of src/c/kernel/dispatch.c that move processes keep the invariant of the queues.
use rpi_kernel.Base.{
  ℕ, ◌+◌, ◌≡◌, refl, ap, ◌∙◌, sym, true, false, List, [], ◌∷◌, ◌==◌, arith, if◌then◌else◌, u32,
  pred32, update, remove, has, ◌∈◌, ◌∉◌, has-remove, eq_of_same, Bool, ◌⊎◌, update_self, same_refl,
  has-append, length, length-remove_absent, Option, none, some, Bool-cases, inl, inr, ==_iff,
  ==_refl,
}
use rpi_kernel.Config.{Priority, idle, low, med, high}
use rpi_kernel.Links.{Ptr}
use rpi_kernel.State.{RunQueue, State, Head, ready_at, same_head, head_key, Lock, queue_lock, ok}
use rpi_kernel.Sched.{queue_length, ready, next, sleep_on}
use rpi_kernel.Sched.Ready.{ready_core, ready_head, readied, ready_lem}
use rpi_kernel.Sched.Next.{taken, next_lem}
use rpi_kernel.Sched.Block.{asleep, IsWaitQueue, sleep_on_lem}
use rpi_kernel.Sched.Invariant.{
  differ, IsQueued, Detached, waiting, placed, removed-IsPartition, placed-IsPartition,
  waiting-placed, waiting-removed,
}

pub length-update :
    (s : State) (t : ℕ) (r : RunQueue) (c : ℕ)
    → (update s.queues t r c).length ≡ (if c == t then r.length else queue_length s c)
length-update s t r c = elim (Bool-cases (c == t)) [ inl e ↦ rw e | inr d ↦ rw d ]

pub count_up :
    (b : Bool) (w w' n m : ℕ)
    → w' ≡ w + (if b then 1 else 0)
    → n ≡ u32 w
    → m ≡ (if b then u32 (n + 1) else n)
    → m ≡ u32 w'
count_up true w w' n m e f g = omega arith
count_up false w w' n m e f g = omega arith

count_down :
    (b : Bool) (w w' n m : ℕ)
    → w ≡ w' + (if b then 1 else 0)
    → n ≡ u32 w
    → m ≡ (if b then pred32 n else n)
    → m ≡ u32 w'
count_down true w w' n m e f g = omega arith
count_down false w w' n m e f g = omega arith

pub length-at :
    (s : State) (f : ℕ → ℕ) (t c : ℕ)
    → (if c == t then f (queue_length s t) else queue_length s c)
      ≡ (if c == t then f (queue_length s c) else queue_length s c)
length-at s f t c = elim (Bool-cases (c == t)) [ inl e ↦ rw (e, (==_iff c t).0 e) | inr d ↦ rw d ]

pub readied-IsQueued :
    (core : ℕ) (p : Ptr) (s : State) → Detached p s → IsQueued s → IsQueued (readied core p s)
readied-IsQueued core p s out q = record {
  partition = placed-IsPartition s.lists p (ready_head core p s) q.partition;
  counted = λ c.
      let t = ready_core core p s in
      count_up (c == t) (waiting s.lists c) (waiting (readied core p s).lists c) (queue_length s c)
        (queue_length (readied core p s) c)
        (waiting-placed s.lists p out t (s.procs p).current_priority c) (q.counted c)
        (length-update s t _ c ∙ length-at s (λ n. u32 (n + 1)) t c);
}

pub taken-IsQueued :
    (core : ℕ) (r : Priority) (p : Ptr) (s : State)
    → p ∈ s.lists (ready_at core r)
    → IsQueued s
    → IsQueued (taken core p s)
taken-IsQueued core r p s i q = record {
  partition = removed-IsPartition s.lists p q.partition;
  counted = λ c.
      count_down (c == core) (waiting s.lists c) (waiting (taken core p s).lists c)
        (queue_length s c) (queue_length (taken core p s) c)
        (waiting-removed s.lists p q.partition core r i c) (q.counted c)
        (length-update s core _ c ∙ length-at s pred32 core c);
}

length-other :
    (lists : Head → List Ptr) (p : Ptr) (head : Head) (c : ℕ)
    → IsWaitQueue head
    → ((a : Head) → p ∉ lists a)
    → (r : Priority) → length (placed p head lists (ready_at c r)) ≡ length (lists (ready_at c r))
length-other lists p head c other out r = elim (Bool-cases (same_head (ready_at c r) head)) [
  | inl e ↦ absurd (differ head (ready_at c r) (other c r) (sym (eq_of_same (ready_at c r) head e)))
  | inr d ↦ rw d (length-remove_absent p (lists (ready_at c r)) (out (ready_at c r)))
]

waiting-other :
    (lists : Head → List Ptr) (p : Ptr) (head : Head) (c : ℕ)
    → IsWaitQueue head
    → ((a : Head) → p ∉ lists a)
    → waiting (placed p head lists) c ≡ waiting lists c
waiting-other lists p head c other out =
    let same_length = length-other lists p head c other out in
    omega (arith, same_length idle, same_length low, same_length med, same_length high)

pub asleep-IsQueued :
    (head : Head) (p : Ptr) (s : State)
    → IsWaitQueue head
    → Detached p s
    → IsQueued s
    → IsQueued (asleep head p s)
asleep-IsQueued head p s other out q = record {
  partition = placed-IsPartition s.lists p head q.partition;
  counted = λ c. q.counted c ∙ ap u32 (sym (waiting-other s.lists p head c other out));
}

-- Where the lock of the chosen queue is free, `ready` of a process that is in no list returns and
-- keeps the invariant: no process is linked twice, and the length of each ready queue is the number of
-- its processes, modulo 2 ^ 32.
pub ready-IsQueued :
    (core : ℕ) (p : Ptr) (s : State)
    → s.locks (queue_lock (ready_core core p s)) ≡ 0
    → Detached p s
    → IsQueued s
    → (g : State) × (ready core p s ≡ ok tt g) × IsQueued g
ready-IsQueued core p s free out q =
    (readied core p s, ready_lem core p s free, readied-IsQueued core p s out q)

-- Where the lock of the core's queue is free, `next` returns and keeps the invariant. A process that
-- it gives is the running one of the core and is in no list any more.
pub next-IsQueued :
    (core : ℕ) (s : State)
    → s.locks (queue_lock core) ≡ 0
    → IsQueued s
    → (found : Option Ptr) × (g : State) × (next core s ≡ ok found g)
      × IsQueued g
      × ((found ≡ none) ⊎ ((p : Ptr) × (found ≡ some p) × (g.running core ≡ p) × Detached p g))
next-IsQueued core s free q = elim (next_lem core s free) [
  | inl (r, p, rest, e, above, run) ↦ (
    some p,
    taken core p s,
    run,
    taken-IsQueued core r p s (ap (has p) e ∙ ground (arith, ==_refl p)) q,
    inr (p, refl, update_self s.running core p, λ a. has-remove p p (s.lists a) ∙ ground arith),
  )
  | inr (empty, run) ↦ (none, s, run, q, inl refl)
]

-- Where the lock is free, `sleep_on` of a process that is in no list, on a queue that is no ready
-- queue, returns and keeps the invariant; no length of a ready queue changes.
pub sleep_on-IsQueued :
    (head : Head) (p : Ptr) (lock : Lock) (s : State)
    → s.locks lock ≡ 0
    → IsWaitQueue head
    → Detached p s
    → IsQueued s
    → (g : State) × (sleep_on head p lock s ≡ ok tt g)
      × IsQueued g
      × (g.queues ≡ s.queues)
      × (p ∈ g.lists head)
sleep_on-IsQueued head p lock s free other out q = (
  asleep head p s,
  sleep_on_lem head p lock s free,
  asleep-IsQueued head p s other out q,
  refl,
  rw (same_refl head) (has-append p (remove p (s.lists head)) (p ∷ []) ∙ ground (arith, ==_refl p)),
)
