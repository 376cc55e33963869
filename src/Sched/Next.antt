-- ===== src/Sched/Next.antt =====
-- What `next` does: src/c/kernel/dispatch.c.
use rpi_kernel.Base.{list_cases}
use rpi_kernel.Base.{
  ◌⊎◌, inl, inr, ℕ, ◌<◌, ◌≡◌, none, some, List, [], ◌∷◌, arith, pred32, update, ◌∙◌,
}
use rpi_kernel.Config.{Priority, idle, low, med, high}
use rpi_kernel.Links.{Ptr}
use rpi_kernel.State.{
  State, ready_at, queue_lock, ok, relock, with_length, del_sched, spin_lock-ok, spin_unlock,
}
use rpi_kernel.Sched.{next, next_loop}

-- The state after `next` took `p` on `core`.
abbrev pub taken : ℕ → Ptr → State → State
taken core p s =
    let t = with_length core pred32 (del_sched p s) in
    record t { running = update s.running core p }

abbrev pub rank : Priority → ℕ
rank idle = 0
rank low = 1
rank med = 2
rank high = 3

-- The priorities under one, in the order of the loop.
abbrev below : Priority → List Priority
below high = med ∷ low ∷ idle ∷ []
below med = low ∷ idle ∷ []
below low = idle ∷ []
below idle = []

-- The first process of the highest priority that has one.
module _ (core : ℕ) (s : State) where
  abbrev EmptyAbove : Priority → Type 0
  EmptyAbove r = (above : Priority) → rank r < rank above → s.lists (ready_at core above) ≡ []

  abbrev pub Top : Type 0
  Top =
      (r : Priority) × (p : Ptr) × (rest : List Ptr) × (s.lists (ready_at core r) ≡ p ∷ rest)
      × EmptyAbove r

  first_of : (r : Priority) → EmptyAbove r → Top ⊎ (s.lists (ready_at core r) ≡ [])
  first_of r above = elim (list_cases (s.lists (ready_at core r))) [
    | inl e ↦ inr e
    | inr (p, rest, e) ↦ inl (r, p, rest, e, above)
  ]

  over_high : EmptyAbove high
  over_high idle i = absurd (omega arith)
  over_high low i = absurd (omega arith)
  over_high med i = absurd (omega arith)
  over_high high i = absurd (omega arith)

  over_med : s.lists (ready_at core high) ≡ [] → EmptyAbove med
  over_med h idle i = absurd (omega arith)
  over_med h low i = absurd (omega arith)
  over_med h med i = absurd (omega arith)
  over_med h high i = h

  over_low : s.lists (ready_at core high) ≡ [] → s.lists (ready_at core med) ≡ [] → EmptyAbove low
  over_low h m idle i = absurd (omega arith)
  over_low h m low i = absurd (omega arith)
  over_low h m med i = m
  over_low h m high i = h

  over_idle :
      s.lists (ready_at core high) ≡ []
      → s.lists (ready_at core med) ≡ []
      → s.lists (ready_at core low) ≡ []
      → EmptyAbove idle
  over_idle h m l idle i = absurd (omega arith)
  over_idle h m l low i = l
  over_idle h m l med i = m
  over_idle h m l high i = h

  none_left :
      s.lists (ready_at core high) ≡ []
      → s.lists (ready_at core med) ≡ []
      → s.lists (ready_at core low) ≡ []
      → s.lists (ready_at core idle) ≡ []
      → (r : Priority) → s.lists (ready_at core r) ≡ []
  none_left h m l i idle = i
  none_left h m l i low = l
  none_left h m l i med = m
  none_left h m l i high = h

  pub find_top : Top ⊎ ((r : Priority) → s.lists (ready_at core r) ≡ [])
  find_top = elim (first_of high over_high) [
    | inl t ↦ inl t
    | inr h ↦ elim (first_of med (over_med h)) [
      | inl t ↦ inl t
      | inr m ↦ elim (first_of low (over_low h m)) [
        | inl t ↦ inl t
        | inr l ↦ elim (first_of idle (over_idle h m l)) [
          | inl t ↦ inl t
          | inr i ↦ inr (none_left h m l i)
        ]
      ]
    ]
  ]

module _ (core : ℕ) (s : State) (free : s.locks (queue_lock core) ≡ 0) where
  next_loop_empty :
      (priority : Priority)
      → s.lists (ready_at core priority) ≡ []
      → next_loop core (priority ∷ below priority) s ≡ next_loop core (below priority) s
  unfolding next_loop spin_unlock
  next_loop_empty priority e =
      rw (spin_lock-ok (queue_lock core) s free, e, relock s.locks (queue_lock core) free)

  next_loop_found :
      (priority : Priority) (p : Ptr) (rest : List Ptr)
      → s.lists (ready_at core priority) ≡ p ∷ rest
      → next_loop core (priority ∷ below priority) s ≡ ok (some p) (taken core p s)
  unfolding next_loop spin_unlock
  next_loop_found priority p rest e =
      rw (spin_lock-ok (queue_lock core) s free, e, relock s.locks (queue_lock core) free)

  pub next_highest :
      (priority : Priority) (p : Ptr) (rest : List Ptr)
      → s.lists (ready_at core priority) ≡ p ∷ rest
      → ((above : Priority) → rank priority < rank above → s.lists (ready_at core above) ≡ [])
      → next core s ≡ ok (some p) (taken core p s)
  unfolding next
  next_highest high p rest e none_above = next_loop_found high p rest e
  next_highest med p rest e none_above =
      next_loop_empty high (none_above high (omega arith)) ∙ next_loop_found med p rest e
  next_highest low p rest e none_above =
      next_loop_empty high (none_above high (omega arith))
      ∙ (next_loop_empty med (none_above med (omega arith)) ∙ next_loop_found low p rest e)
  next_highest idle p rest e none_above =
      next_loop_empty high (none_above high (omega arith))
      ∙ (next_loop_empty med (none_above med (omega arith))
          ∙ (next_loop_empty low (none_above low (omega arith)) ∙ next_loop_found idle p rest e))

  pub next_none :
      ((priority : Priority) → s.lists (ready_at core priority) ≡ []) → next core s ≡ ok none s
  unfolding next next_loop
  next_none empty =
      next_loop_empty high (empty high)
      ∙ (next_loop_empty med (empty med)
          ∙ (next_loop_empty low (empty low) ∙ next_loop_empty idle (empty idle)))

  -- Where the lock of the core's queue is free, `next` gives the process that has waited longest in
  -- the highest priority that has one, takes it out of its list and off the queue's length, makes it
  -- the running one of the core, and changes nothing else. It gives NULL, and changes nothing, where
  -- all lists of the core are empty.
  pub next_lem :
      ((priority : Priority) × (p : Ptr) × (rest : List Ptr) × (s.lists (ready_at core priority)
          ≡ p ∷ rest)
        × ((above : Priority) → rank priority < rank above → s.lists (ready_at core above) ≡ [])
        × (next core s ≡ ok (some p) (taken core p s)))
      ⊎ (((priority : Priority) → s.lists (ready_at core priority) ≡ [])
          × (next core s ≡ ok none s))
  next_lem = elim (find_top core s) [
    | inl (r, p, rest, e, above) ↦ inl (r, p, rest, e, above, next_highest r p rest e above)
    | inr empty ↦ inr (empty, next_none empty)
  ]
