-- ===== src/Dispatch/Balance/First.antt =====
-- How long it takes from the start of a core to its first pull in `common_interrupt` of
-- src/c/kernel/dispatch.c.
use rpi_kernel.Base.{
  ℕ, zero, suc, ◌+◌, ◌-◌, ◌^◌, ◌<◌, ◌≤◌, ◌≡◌, ◌≢◌, refl, ap, ◌∙◌, subst, sym, ◌==◌, if◌then◌else◌,
  pred32, u32, arith,
}
use rpi_kernel.State.{State, World, Cmd, and_then}
use rpi_kernel.Dispatch.{
  int_timer, reschedule, switch_to, handle, common_interrupt, switch_from, count_events,
}
use rpi_kernel.Thread.{proc_tick}
use rpi_kernel.Dispatch.Calls.{ticks-once}
use rpi_kernel.Dispatch.Balance.{
  ticks, Leaves, unpulled, slices, then-Leaves, same-then, unpulled-Leaves,
}

abbrev pub timer : (core : ℕ) → World → Cmd (Unit {0})
timer core world = common_interrupt world core int_timer

abbrev pub without_pull : (core : ℕ) → World → Cmd (Unit {0})
without_pull core world = unpulled world core

-- The interrupt pulls nothing where the counter does not come to 0.
timer-unpulled :
    (world : World) (core t : ℕ) (s : State)
    → ticks core s ≡ t
    → pred32 t ≢ 0
    → common_interrupt world core int_timer s ≡ unpulled world core s
unfolding common_interrupt handle unpulled reschedule switch_to proc_tick
timer-unpulled world core t s e more =
    rw
      (
        ticks-once world core (count_events 0 core world.entry_counter (switch_from core s)) t e
            more,
        e,
      )
      refl

module _ (worlds : ℕ → World) (between : ℕ → Cmd (Unit {0})) (core : ℕ)
    (spares : (i : ℕ) (s : State) → Leaves core (ticks core s) (between i s)) where
  -- The counter that `n` interrupts leave of `t`.
  abbrev left_of : (n t : ℕ) → ℕ
  left_of n t = if n == 0 then t else pred32 t + 1 - n

  slices-unpulled :
      (n i t : ℕ) (s : State)
      → ticks core s ≡ t
      → t < 2 ^ 32
      → n ≤ pred32 t
      → (slices (timer core) worlds between n i s ≡ slices (without_pull core) worlds between n i s)
        × Leaves core (left_of n t) (slices (without_pull core) worlds between n i s)
  slices-unpulled zero i t s e word far = (refl, e)
  slices-unpulled (suc n) i t s e word far =
      let once : common_interrupt (worlds i) core int_timer s ≡ unpulled (worlds i) core s =
        timer-unpulled (worlds i) core t s e (λ z. omega (arith, far, z)) in
      let one : Leaves core (pred32 t) (unpulled (worlds i) core s) =
        subst (λ k. Leaves core (pred32 k) (unpulled (worlds i) core s)) e
          (unpulled-Leaves (worlds i) core s) in
      let gap : (a : Unit {0}) (u : State)
          → ticks core u ≡ pred32 t
          → Leaves core (pred32 t) (between i u) =
        λ a u at. subst (λ k. Leaves core k (between i u)) at (spares i u) in
      let rest = λ (u : State) (at : ticks core u ≡ pred32 t).
        slices-unpulled n (suc i) (pred32 t) u at (omega (arith, word))
          (omega (arith, word, far)) in
      let count : left_of n (pred32 t) ≡ left_of (suc n) t = ground (arith, word, far) in
      (
        ap
              (λ r. and_then r (λ a u.
                and_then (between i u) (λ b v. slices (timer core) worlds between n (suc i) v)))
              once
            ∙ same-then core (pred32 t) (unpulled (worlds i) core s) _ _ one (λ a u at.
              same-then core (pred32 t) (between i u) _ _ (gap a u at) (λ b v at'. (rest v at').0)),
        then-Leaves core (pred32 t) (left_of (suc n) t) (unpulled (worlds i) core s) _ one
            (λ a u at.
              then-Leaves core (pred32 t) (left_of (suc n) t) (between i u) _ (gap a u at)
                (λ b v at'.
                  subst (λ k. Leaves core k (slices (without_pull core) worlds between n (suc i) v))
                    count (rest v at').1)),
      )

  -- From the 0 that the static initialiser gives `ticks_to_balance`, and with whatever is done in between as
  -- long as it leaves that counter of the core alone: the first 2 ^ 32 - 1 interrupts of the core's timer do
  -- what they would do if the handler lowered the counter and pulled nothing, for they never come to
  -- `sched_pull`. After `n` of them, if all return, the counter stands at 2 ^ 32 - n, or 0 for no interrupt.
  pub no_pull_from_zero :
      (n : ℕ) (s : State)
      → ticks core s ≡ 0
      → n < 2 ^ 32
      → (slices (timer core) worlds between n 0 s ≡ slices (without_pull core) worlds between n 0 s)
        × Leaves core (u32 (2 ^ 32 - n)) (slices (timer core) worlds between n 0 s)
  no_pull_from_zero n s start few =
      let (same, left) = slices-unpulled n 0 0 s start (omega arith) (omega (arith, few)) in
      let count : left_of n 0 ≡ u32 (2 ^ 32 - n) = ground (arith, few) in
      (
        same,
        subst (λ r. Leaves core (u32 (2 ^ 32 - n)) r) (sym same)
            (subst (λ k. Leaves core k (slices (without_pull core) worlds between n 0 s)) count
              left),
      )
