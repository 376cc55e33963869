-- ===== src/Dispatch/Switch.antt =====
-- Which process runs after an interrupt: the end of `common_interrupt` in
-- src/c/kernel/dispatch.c.
use rpi_kernel.Base.{
  ℕ, ◌<◌, ◌≤◌, ◌≡◌, ◌≢◌, refl, sym, ◌∙◌, inl, inr, List, [], ◌∷◌, ◌++◌, arith, remove, update_self,
  subst, same_refl,
}
use rpi_kernel.Config.{Priority, tick_rearm}
use rpi_kernel.Links.{Ptr}
use rpi_kernel.State.{State, World, ready_at, head_key, queue_lock, ok, Unlocked}
use rpi_kernel.Sched.{current}
use rpi_kernel.Sched.Ready.{readied, ready_lem, ready_core, ready_head}
use rpi_kernel.Sched.Next.{Top, taken, find_top, next_highest, rank}
use rpi_kernel.Dispatch.{
  int_syscall, sched_yield, switch_to, count_events, core_timer_rearm, handle, reschedule,
  common_interrupt, switch_from,
}
use rpi_kernel.Dispatch.Calls.{switched}

top_of : (core : ℕ) (s : State) (r : Priority) → s.lists (ready_at core r) ≢ [] → Top core s
top_of core s r some_there = elim (find_top core s) [
  | inl t ↦ t
  | inr empty ↦ absurd (some_there (empty r))
]

append-ne-nil : (xs : List Ptr) (x : Ptr) → xs ++ x ∷ [] ≢ []
append-ne-nil [] x e = cc
append-ne-nil (y ∷ ys) x e = cc

readied-ne-nil :
    (core : ℕ) (p : Ptr) (t : State)
    → ready_core core p t ≡ core
    → (readied core p t).lists (ready_at core (t.procs p).current_priority) ≢ []
readied-ne-nil core p t stays =
    let old = remove p (t.lists (ready_head core p t)) in
    let eq : (readied core p t).lists (ready_head core p t) ≡ old ++ p ∷ [] =
      rw (same_refl (ready_head core p t)) refl in
    subst (λ c. (readied core p t).lists (ready_at c (t.procs p).current_priority) ≢ []) stays
      (λ e. append-ne-nil old p (sym eq ∙ e))

le_of_not_lt : (a b : ℕ) → ¬ (a < b) → b ≤ a
le_of_not_lt a b h = omega arith

module _ (world : World) (core : ℕ) (s : State) where
  -- The state in which the `switch (request)` of an interrupt begins.
  abbrev pub before : State
  before = count_events 0 core world.entry_counter (switch_from core s)

  -- The state in which a process that yields hands over to `next`.
  abbrev pub yielded : State
  yielded = core_timer_rearm core tick_rearm (readied core (current core s) before)

  yielded-some :
      ready_core core (current core s) before ≡ core
      → yielded.lists (ready_at core (before.procs (current core s)).current_priority) ≢ []
  yielded-some stays = readied-ne-nil core (current core s) before stays

  -- Where no spinlock is held and the scheduler leaves a process that yields on its core, the
  -- interrupt ends, with the process that has waited longest in the highest priority that has one
  -- as the running one; that priority is no lower than the priority of the process that yields.
  pub yield_switches :
      Unlocked s
      → ready_core core (current core s) before ≡ core
      → (g : State) × (r : Priority) × (p : Ptr) × (rest : List Ptr) × (common_interrupt world core
            (int_syscall sched_yield)
            s
          ≡ ok tt g)
        × (g.running core ≡ p)
        × (yielded.lists (ready_at core r) ≡ p ∷ rest)
        × ((above : Priority) → rank r < rank above → yielded.lists (ready_at core above) ≡ [])
        × (rank (before.procs (current core s)).current_priority ≤ rank r)
  unfolding common_interrupt handle reschedule switch_to
  yield_switches free stays =
      let (r, p, rest, e, above) =
        top_of core yielded (before.procs (current core s)).current_priority (yielded-some stays) in
      let g = switched core p (count_events 1 core world.exit_counter (taken core p yielded)) in
      (
        g,
        r,
        p,
        rest,
        rw (
          ready_lem core (current core s) before (free _),
          next_highest core yielded (free (queue_lock core)) r p rest e above,
        ),
        update_self s.running core p,
        e,
        above,
        le_of_not_lt (rank r) _ (λ lower. yielded-some stays (above _ lower)),
      )
