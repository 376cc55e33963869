-- ===== src/Sched/Block.antt =====
-- Blocking and waking: `sleep_on` and `alert_on` of src/c/kernel/dispatch.c.
use rpi_kernel.Base.{
  ℕ, ◌≡◌, ◌≢◌, refl, ap, Bool, true, false, List, [], ◌∷◌, ◌==◌, arith, if◌then◌else◌, remove, has,
  ◌∈◌, has-append, has-remove, Bool-cases, inl, inr, ==_iff, same_refl, eq_of_same, sym, ◌∙◌, subst,
}
use rpi_kernel.Config.{Priority}
use rpi_kernel.Links.{Ptr}
use rpi_kernel.State.{
  State, Head, same_head, head_key, ready_at, Lock, queue_lock, ok, Cmd, pure, ◌>>=◌, ◌>>◌, modify,
  relock, del_sched, add_tail_sched, with_proc, spin_lock-ok, spin_unlock,
}
use rpi_kernel.Sched.{ready, sleep_on, alert_loop, alert_on_locked_nr}
use rpi_kernel.Sched.Ready.{ready_core, ready_head, readied, ready_lem}

-- A queue on which processes wait: no ready queue.
abbrev pub IsWaitQueue : Head → Type 0
IsWaitQueue head = (c : ℕ) (r : Priority) → same_head head (ready_at c r) ≡ false

-- The process is linked to a ready queue.
abbrev pub InReady : Ptr → State → Type 0
InReady p s = (c : ℕ) × (r : Priority) × (p ∈ s.lists (ready_at c r))

pub readied-other :
    (core : ℕ) (p : Ptr) (s : State) (head : Head)
    → IsWaitQueue head
    → (readied core p s).lists head ≡ remove p (s.lists head)
readied-other core p s head other = rw (other (ready_core core p s) (s.procs p).current_priority)

pub readied-InReady : (core : ℕ) (p : Ptr) (s : State) → InReady p (readied core p s)
readied-InReady core p s = (
  ready_core core p s,
  (s.procs p).current_priority,
  rw (same_refl (ready_head core p s))
      (has-append p (remove p (s.lists (ready_head core p s))) (p ∷ []) ∙ ground arith),
)

pub readied-stays :
    (core : ℕ) (p : Ptr) (s : State) (head : Head) (q : Ptr)
    → (q == p) ≡ false
    → has q ((readied core p s).lists head) ≡ has q (s.lists head)
readied-stays core p s head q d = elim (Bool-cases (same_head head (ready_head core p s))) [
  | inl e ↦ rw e (
      has-append q (remove p (s.lists (ready_head core p s))) (p ∷ [])
      ∙ ground (
        arith,
        has-remove q p (s.lists (ready_head core p s)),
        ap (λ hd. has q (s.lists hd)) (eq_of_same head (ready_head core p s) e),
      ))
  | inr n ↦ rw n (has-remove q p (s.lists head) ∙ rw d)
]

-- The state after `sleep_on_locked`.
abbrev pub asleep : Head → Ptr → State → State
asleep head p s =
    add_tail_sched p head (del_sched p (with_proc p (λ q. record q { blocked_on = head }) s))

-- `sleep_on` returns if the lock of the wait queue is free, and leaves the locks as they were. It
-- links the process to the end of the queue, takes it out of every other list, records the queue in
-- `blocked_on`, and changes nothing else: the process's `state` stays what it was.
pub sleep_on_lem :
    (head : Head) (p : Ptr) (lock : Lock) (s : State)
    → s.locks lock ≡ 0
    → sleep_on head p lock s ≡ ok tt (asleep head p s)
unfolding sleep_on spin_unlock
sleep_on_lem head p lock s free = rw (spin_lock-ok lock s free, relock s.locks lock free)

alert_loop_nr :
    (core : ℕ) (condition : Ptr → Cmd Bool) (nr m : ℕ) (ps : List Ptr)
    → nr ≢ 0
    → m ≢ 0
    → alert_loop core condition nr ps ≡ alert_loop core condition m ps
unfolding alert_loop
alert_loop_nr core condition nr m [] n k = refl
alert_loop_nr core condition nr m (p ∷ ps) n k =
    let e : (nr == 0) ≡ false = ground arith in
    let f : (m == 0) ≡ false = ground arith in
    rw (e, f)
      (ap {B = Cmd (Unit {0})}
        (λ (rest : Cmd (Unit {0})). do
          wake ← condition p
          if wake then (do modify (del_sched p); ready core p) else pure tt
          rest)
        (alert_loop_nr core condition nr m ps n k))

-- The count `nr` is never lowered: whatever the condition does, any count but 0 has the effect of
-- any other.
pub alert_nr_ignored :
    (core : ℕ) (head : Head) (condition : Ptr → Cmd Bool) (nr m : ℕ) (s : State)
    → nr ≢ 0
    → m ≢ 0
    → alert_on_locked_nr core head condition nr s ≡ alert_on_locked_nr core head condition m s
unfolding alert_on_locked_nr
alert_nr_ignored core head condition nr m s n k =
    ap (λ (c : Cmd (Unit {0})). c s) (alert_loop_nr core condition nr m (s.lists head) n k)

module _ (core : ℕ) (condition : Ptr → Cmd Bool) (effect : Ptr → State → State)
    (wakes : (p : Ptr) (s : State) → condition p s ≡ ok true (effect p s))
    (locks_kept : (p : Ptr) (s : State) → (effect p s).locks ≡ s.locks) where
  -- The state after the processes of a list were woken in order.
  abbrev pub woken : List Ptr → State → State
  woken [] s = s
  woken (p ∷ ps) s = woken ps (readied core p (del_sched p (effect p s)))

  alert_loop_all :
      (nr : ℕ) (ps : List Ptr) (s : State)
      → nr ≢ 0
      → ((c : ℕ) → s.locks (queue_lock c) ≡ 0)
      → alert_loop core condition nr ps s ≡ ok tt (woken ps s)
  unfolding alert_loop
  alert_loop_all nr [] s n free = refl
  alert_loop_all nr (p ∷ ps) s n free =
      let e : (nr == 0) ≡ false = ground arith in
      let kept : (c : ℕ) → (effect p s).locks (queue_lock c) ≡ 0 =
        λ c. ap (λ (f : Lock → ℕ). f (queue_lock c)) (locks_kept p s) ∙ free c in
      rw (e, wakes p s, ready_lem core p (del_sched p (effect p s)) (kept _))
        (alert_loop_all nr ps _ n kept)

  -- With a condition that is always true and a count that is not 0, `alert_on_locked_nr` wakes every
  -- process of the queue, in order. It returns if the locks of the ready queues are free, and leaves
  -- them free.
  pub alert_wakes_all :
      (head : Head) (nr : ℕ) (s : State)
      → nr ≢ 0
      → ((c : ℕ) → s.locks (queue_lock c) ≡ 0)
      → alert_on_locked_nr core head condition nr s ≡ ok tt (woken (s.lists head) s)
  unfolding alert_on_locked_nr
  alert_wakes_all head nr s n free = alert_loop_all nr (s.lists head) s n free

  pub woken-locks : (ps : List Ptr) (s : State) → (woken ps s).locks ≡ s.locks
  woken-locks [] s = refl
  woken-locks (p ∷ ps) s = woken-locks ps _ ∙ locks_kept p s

  module _ (lists_kept : (p : Ptr) (s : State) → (effect p s).lists ≡ s.lists) where
    has-effect :
        (q p : Ptr) (head : Head) (s : State)
        → has q ((del_sched p (effect p s)).lists head)
          ≡ (if q == p then false else has q (s.lists head))
    has-effect q p head s =
        has-remove q p ((effect p s).lists head)
        ∙ ap (λ (l : Head → List Ptr). if q == p then false else has q (l head)) (lists_kept p s)

    -- A queue that is no ready queue loses the processes that are woken.
    pub woken-absent :
        (q : Ptr) (head : Head) (ps : List Ptr) (s : State)
        → IsWaitQueue head
        → has q ((woken ps s).lists head) ≡ (if has q ps then false else has q (s.lists head))
    woken-absent q head [] s other = refl
    woken-absent q head (p ∷ ps) s other =
        let t = del_sched p (effect p s) in
        ground (
          arith,
          woken-absent q head ps (readied core p t) other,
          ap (has q) (readied-other core p t head other),
          has-remove q p (t.lists head),
          has-effect q p head s,
        )

    step-InReady :
        (q p : Ptr) (s : State)
        → InReady q s
        → InReady q (readied core p (del_sched p (effect p s)))
    step-InReady q p s (c, r, m) =
        let t = del_sched p (effect p s) in
        elim (Bool-cases (q == p)) [
          | inl e ↦
              subst (λ x. InReady x (readied core p t)) (sym ((==_iff q p).0 e))
                (readied-InReady core p t)
          | inr d ↦ (
            c,
            r,
            rw (readied-stays core p t (ready_at c r) q d, has-effect q p (ready_at c r) s, d) m,
          )
        ]

    woken-keeps : (q : Ptr) (ps : List Ptr) (s : State) → InReady q s → InReady q (woken ps s)
    woken-keeps q [] s r = r
    woken-keeps q (p ∷ ps) s r = woken-keeps q ps _ (step-InReady q p s r)

    pub woken-InReady : (q : Ptr) (ps : List Ptr) (s : State) → q ∈ ps → InReady q (woken ps s)
    woken-InReady q [] s m = ground arith
    woken-InReady q (p ∷ ps) s m = elim (Bool-cases (q == p)) [
      | inl e ↦ woken-keeps q ps _ (
          subst (λ x. InReady x (readied core p (del_sched p (effect p s))))
            (sym ((==_iff q p).0 e)) (readied-InReady core p _))
      | inr d ↦ woken-InReady q ps _ (ground arith)
    ]

    -- With a condition that is always true and leaves lists and locks as they are, a count that is
    -- not 0, a queue that is no ready queue and the locks of the ready queues free,
    -- `alert_on_locked_nr` returns with no process left in the queue, each that was in it in a
    -- ready queue, and the locks as before.
    pub alert_wakes :
        (head : Head) (nr : ℕ) (s : State)
        → IsWaitQueue head
        → nr ≢ 0
        → ((c : ℕ) → s.locks (queue_lock c) ≡ 0)
        → (g : State) × (alert_on_locked_nr core head condition nr s ≡ ok tt g)
          × ((q : Ptr) → has q (g.lists head) ≡ false)
          × ((q : Ptr) → q ∈ s.lists head → InReady q g)
          × (g.locks ≡ s.locks)
    alert_wakes head nr s other n free = (
      woken (s.lists head) s,
      alert_wakes_all head nr s n free,
      λ q. woken-absent q head (s.lists head) s other ∙ ground arith,
      λ q m. woken-InReady q (s.lists head) s m,
      woken-locks (s.lists head) s,
    )
