-- ===== src/Dispatch/RoundRobin/Reach.antt =====
-- As many turns of the line as it takes to come to a process.
use rpi_kernel.Base.{
  ℕ, ◌+◌, ◌<◌, ◌≡◌, ◌≢◌, refl, ap, sym, ◌∙◌, List, [], ◌∷◌, ◌++◌, length, arith, u64, pred32,
  update_self,
}
use mathlib.Core.List.{append_assoc, append-nil}
use rpi_kernel.Config.{Priority, num_cores}
use rpi_kernel.Links.{Ptr}
use rpi_kernel.State.{State, World, Run, RunQueue, ready_at, head_key, with_proc}
use rpi_kernel.Thread.{proc_tick}
use rpi_kernel.Dispatch.{handle, switch_to, common_interrupt, with_ticks}
use rpi_kernel.Dispatch.Calls.{ticks-once}
use rpi_kernel.Dispatch.Switch.{before}
use rpi_kernel.Dispatch.RoundRobin.Keep.{with_proc-IsLine, with_ticks-IsLine, before-IsLine}
use rpi_kernel.Dispatch.RoundRobin.Turn.{
  turned, turn_schedules, turned-line, turned-balance, turned-IsLine,
}
use rpi_kernel.Dispatch.RoundRobin.{
  line, IsLine, End, by_yield, by_tick, interrupt_of, ticks_in, Before, Slices, rests, ends,
}

first_of :
    (front back : List Ptr) (p : Ptr)
    → (q : Ptr) × (rest : List Ptr) × (front ++ p ∷ back ≡ q ∷ rest)
first_of [] back p = (p, back, refl)
first_of (x ∷ front) back p = (x, front ++ p ∷ back, refl)

-- The state in which the handler is left, and the process that ran is queued again.
abbrev handled : World → (core : ℕ) → End → State → State
handled world core by_yield s = before world core s
handled world core by_tick s =
    let t = before world core s in
    with_proc (t.running core) (λ q. record q { tick_count = u64 (q.tick_count + 1) })
      (with_ticks core (pred32 (t.queues core).ticks_to_balance) t)

handled-IsLine :
    (world : World) (core : ℕ) (r : Priority) (e : End) (s : State)
    → IsLine core r s
    → IsLine core r (handled world core e s)
handled-IsLine world core r by_yield s w = before-IsLine world core r s w
handled-IsLine world core r by_tick s w =
    let t = before world core s in
    with_proc-IsLine core r (t.running core) (λ q. record q { tick_count = u64 (q.tick_count + 1) })
      (with_ticks core (pred32 (t.queues core).ticks_to_balance) t) (λ x. refl) (λ x. refl)
      (with_ticks-IsLine core r _ t (before-IsLine world core r s w))

-- There is a tick less to come if this is one.
handled-Before :
    (world : World) (core : ℕ) (e : End) (es : List End) (s : State)
    → Before core (ticks_in (e ∷ es)) s
    → Before core (ticks_in es) (handled world core e s)
handled-Before world core by_yield es s b = b
handled-Before world core by_tick es s (bound, far) =
    let lower : ((handled world core by_tick s).queues core).ticks_to_balance
        ≡ pred32 (s.queues core).ticks_to_balance =
      ap (λ (x : RunQueue). x.ticks_to_balance) (update_self s.queues core _) in
    (omega arith, omega arith)

Before-same :
    (core n : ℕ) (s t : State)
    → (t.queues core).ticks_to_balance ≡ (s.queues core).ticks_to_balance
    → Before core n s
    → Before core n t
Before-same core n s t e (bound, far) = (omega arith, omega arith)

-- What one interrupt at the end of a process' time leaves.
abbrev Turned : World → (core : ℕ) → Priority → End → (left : ℕ) → List Ptr → State → Type 0
Turned world core r e left now s =
    (t : State) × (common_interrupt world core (interrupt_of e) s ≡ Run.ok tt t)
    × (line core r t ≡ now)
    × IsLine core r t
    × Before core left t

slice :
    (world : World) (core : ℕ) (r : Priority) (e : End) (es : List End) (p : Ptr) (rest : List Ptr)
    (s : State)
    → core < num_cores
    → IsLine core r s
    → Before core (ticks_in (e ∷ es)) s
    → s.lists (ready_at core r) ++ s.running core ∷ [] ≡ p ∷ rest
    → Turned world core r e (ticks_in es) (p ∷ rest) s
unfolding common_interrupt handle switch_to proc_tick
slice world core r by_yield es p rest s small w b e =
    let h = handled world core by_yield s in
    let hw = handled-IsLine world core r by_yield s w in
    let t = turned core r h small hw world.exit_counter p rest e in
    (
      t,
      rw (turn_schedules core r h small hw world.exit_counter p rest e) refl,
      turned-line core r h small hw world.exit_counter p rest e,
      turned-IsLine core r h small hw world.exit_counter p rest e,
      Before-same core (ticks_in es) h t
          (turned-balance core r h small hw world.exit_counter p rest e)
          (handled-Before world core by_yield es s b),
    )
slice world core r by_tick es p rest s small w b e =
    let h = handled world core by_tick s in
    let hw = handled-IsLine world core r by_tick s w in
    let t = turned core r h small hw world.exit_counter p rest e in
    let not_yet : pred32 (s.queues core).ticks_to_balance ≢ 0 = λ z. omega (arith, b.1, z) in
    (
      t,
      rw
          (
            ticks-once world core (before world core s) (s.queues core).ticks_to_balance refl
                not_yet,
            turn_schedules core r h small hw world.exit_counter p rest e,
          )
          refl,
      turned-line core r h small hw world.exit_counter p rest e,
      turned-IsLine core r h small hw world.exit_counter p rest e,
      Before-same core (ticks_in es) h t
          (turned-balance core r h small hw world.exit_counter p rest e)
          (handled-Before world core by_tick es s b),
    )

-- Where the running process of a core and those of its priority that are ready there are tied to the core and
-- all different, nothing of a higher priority is ready on the core, no spinlock is held, the lengths of the
-- queues are below INT32_MAX, and the core does not come to pull processes from another one: a process that
-- stands in the line, with `front` before it and `back` behind it, runs after as many interrupts, by yields
-- or by the timer, as `front` has processes. Each of these interrupts returns; the line has turned, with
-- `back` and then `front` behind the process, and what was assumed of it holds again.
pub round_robin :
    (world : World) (core : ℕ) (r : Priority) (es : List End) (front back : List Ptr) (p : Ptr)
    (s : State)
    → core < num_cores
    → IsLine core r s
    → length es ≡ length front
    → Before core (ticks_in es) s
    → line core r s ≡ front ++ p ∷ back
    → (u : State) × Slices world core es s u × (line core r u ≡ p ∷ back ++ front) × IsLine core r u
round_robin world core r [] [] back p s small w n b e =
    (s, rests, e ∙ ap (λ xs. p ∷ xs) (sym (append-nil back)), w)
round_robin world core r [] (x ∷ front) back p s small w n b e = absurd (omega (arith, n))
round_robin world core r (end ∷ es) [] back p s small w n b e = absurd (omega (arith, n))
round_robin world core r (end ∷ es) (x ∷ front) back p s small w n b e =
    let (q, rest, first) = first_of front (back ++ x ∷ []) p in
    let same_self : s.running core ≡ x = cc in
    let same_others : s.lists (ready_at core r) ≡ front ++ p ∷ back = cc in
    let to_end : s.lists (ready_at core r) ++ s.running core ∷ [] ≡ front ++ p ∷ (back ++ x ∷ []) =
      ap (λ y. s.lists (ready_at core r) ++ y ∷ []) same_self
      ∙ (ap (λ ys. ys ++ x ∷ []) same_others ∙ append_assoc front (p ∷ back) (x ∷ [])) in
    let (t, run, turns, again, far) =
      slice world core r end es q rest s small w b (to_end ∙ first) in
    let (u, more, now, still) =
      round_robin world core r es front (back ++ x ∷ []) p t small again (omega (arith, n)) far
        (turns ∙ sym first) in
    (u, ends run more, now ∙ ap (λ ys. p ∷ ys) (append_assoc back (x ∷ []) front), still)
