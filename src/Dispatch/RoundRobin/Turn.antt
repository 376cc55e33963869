-- ===== src/Dispatch/RoundRobin/Turn.antt =====
-- One turn of the line of processes: the one that runs is queued again, and the next one is taken.
use rpi_kernel.Base.{
  ℕ, ◌+◌, ◌<◌, ◌≡◌, refl, ap, some, sym, subst, ◌∙◌, List, [], ◌∷◌, ◌++◌, ◌∈◌, has, has-append,
  arith, Distinct, int_max, remove, remove_absent, update_self, update_key, same, eq_of_same,
  same_refl, u32, pred32, Bool-cases, inl, inr, ==_iff, ==_refl,
}
use rpi_kernel.Config.{Priority, sched, tick_rearm, runnable, num_cores}
use rpi_kernel.Links.{Ptr}
use rpi_kernel.State.{State, ok, Head, ready_at, head_key, queue_lock, with_length}
use rpi_kernel.Sched.{affinity, current, queue_length, sched_pickcpu}
use rpi_kernel.Sched.Pick.{pickcpu_eligible}
use rpi_kernel.Sched.Ready.{readied, ready_lem, ready_core, ready_head}
use rpi_kernel.Sched.Next.{taken, next_highest, rank}
use rpi_kernel.Sched.Invariant.{removed, Distinct-append}
use rpi_kernel.Dispatch.{add_counters, core_timer_rearm, count_events, reschedule}
use rpi_kernel.Dispatch.Calls.{switched}
use rpi_kernel.Dispatch.RoundRobin.Keep.{with_proc-IsMember}
use rpi_kernel.Dispatch.RoundRobin.{line, IsMember, IsLine}

abbrev head_rank : Head → ℕ
head_rank (ready_at c q) = rank q
head_rank _ = 0

module _ (core : ℕ) (r : Priority) (s : State) (small : core < num_cores)
    (w : IsLine core r s) where
  abbrev self : Ptr
  self = s.running core

  abbrev others : List Ptr
  others = s.lists (ready_at core r)

  self-IsMember : IsMember core r s self
  self-IsMember = w.members self (ground (arith, ==_refl self))

  -- A process that is tied to the core stays there.
  stays : ready_core core self s ≡ core
  stays =
      let mask = affinity s self in
      let (below, eligible, how) =
        pickcpu_eligible s mask w.short core core small small
          (self-IsMember.1 core ∙ ==_refl core) in
      (==_iff (sched_pickcpu core s mask) core).0
        (sym (self-IsMember.1 (sched_pickcpu core s mask)) ∙ eligible)

  head : ready_head core self s ≡ ready_at core r
  head =
      ap (λ c. ready_at c (s.procs self).current_priority) stays
      ∙ ap (ready_at core) self-IsMember.0

  -- The state in which the process that ran hands over to `next`.
  abbrev handed : State
  handed = core_timer_rearm core tick_rearm (readied core self s)

  -- The lists once the process that ran is linked to a list.
  abbrev listed : Head → Head → List Ptr
  listed hd = update_key (removed self s.lists) hd (remove self (s.lists hd) ++ self ∷ [])

  handed-listed : handed.lists ≡ listed (ready_at core r)
  handed-listed = ap listed head

  -- It comes to the end of its list.
  at_end : handed.lists (ready_at core r) ≡ others ++ self ∷ []
  at_end =
      ap (λ (f : Head → List Ptr). f (ready_at core r)) handed-listed
      ∙ rw (same_refl (ready_at core r))
          (ap (λ xs. xs ++ self ∷ []) (remove_absent self others w.distinct.0))

  still_highest : (above : Priority) → rank r < rank above → handed.lists (ready_at core above) ≡ []
  still_highest above higher =
      ap (λ (f : Head → List Ptr). f (ready_at core above)) handed-listed
      ∙ elim (Bool-cases (same (ready_at core above) (ready_at core r))) [
        | inl e ↦
            let equal : rank above ≡ rank r =
              ap head_rank (eq_of_same (ready_at core above) (ready_at core r) e) in
            absurd (omega (arith, higher, equal))
        | inr d ↦ rw d (ap (remove self) (w.highest above higher))
      ]

  -- Who runs next, and who waits; `read` gives what is counted at the end of the interrupt.
  module _ (read : ℕ → ℕ) (p : Ptr) (rest : List Ptr) (e : others ++ self ∷ [] ≡ p ∷ rest) where
    pub turn_schedules : reschedule core self sched s ≡ ok (some p) (taken core p handed)
    unfolding reschedule
    turn_schedules =
        rw
          (
            ready_lem core self s (w.free _),
            next_highest core handed (w.free (queue_lock core)) r p rest (at_end ∙ e) still_highest,
          )
          refl

    abbrev pub turned : State
    turned = switched core p (count_events 1 core read (taken core p handed))

    left-Distinct : Distinct (p ∷ rest)
    left-Distinct = subst Distinct e (Distinct-append self others w.distinct.1 w.distinct.0)

    pub turned-line : line core r turned ≡ p ∷ rest
    turned-line =
        ap (λ x. x ∷ turned.lists (ready_at core r)) (update_self s.running core p)
        ∙ ap (λ xs. p ∷ xs)
            (ap (remove p) (at_end ∙ e) ∙ rw (==_refl p) (remove_absent p rest left-Distinct.0))

    turned-members : (q : Ptr) → q ∈ line core r turned → IsMember core r turned q
    turned-members q there =
        let back : q ∈ others ++ self ∷ [] = ap (has q) (e ∙ sym turned-line) ∙ there in
        let t = taken core p handed in
        let was = w.members q (ground (arith, has-append q others (self ∷ []))) in
        with_proc-IsMember core r (current core t) (add_counters 1 core read) t (λ x. refl)
          (λ x. refl) q
          (with_proc-IsMember core r self (λ x. record x { state = runnable }) s (λ x. refl)
            (λ x. refl) q was)

    -- The queue of the core is longer by one, and then shorter by one.
    lengths : (c : ℕ) → queue_length turned c ≡ queue_length s c
    lengths c =
        ap (λ k. queue_length (with_length core pred32 (with_length k (λ n. u32 (n + 1)) s)) c)
          stays
        ∙ ground (arith, w.short core)

    pub turned-balance : (turned.queues core).ticks_to_balance ≡ (s.queues core).ticks_to_balance
    turned-balance =
        ap
          (λ k.
            ((with_length core pred32 (with_length k (λ n. u32 (n + 1)) s)).queues
              core).ticks_to_balance)
          stays
        ∙ ground arith

    pub turned-IsLine : IsLine core r turned
    turned-IsLine = record {
      free = w.free;
      members = turned-members;
      distinct = subst Distinct (sym turned-line) left-Distinct;
      highest = λ above higher. ap (remove p) (still_highest above higher);
      short = λ c. subst (λ n. n < int_max) (sym (lengths c)) (w.short c);
    }
