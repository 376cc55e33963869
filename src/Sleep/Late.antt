-- ===== src/Sleep/Late.antt =====
-- How long a process sleeps: `proc_sleep` and `global_tick` of src/c/kernel/sleep.c.
use rpi_kernel.Base.{
  ℕ, zero, suc, ◌+◌, ◌^◌, ◌<◌, ◌≡◌, refl, ap, ◌∙◌, false, some, List, [], ◌∷◌, ◌==◌, arith, update,
  Distinct, ==_refl,
}
use rpi_kernel.Links.{Ptr}
use rpi_kernel.State.{State, sleeping_on, queue_lock, Lock, Run, Cmd, pure, ◌>>◌}
use rpi_kernel.Sched.{current}
use rpi_kernel.Sleep.{place, tick_delta, with_delta, with_sleepers, ms_to_ticks, global_tick}
use rpi_kernel.Sleep.Tick.{global_tick_lem}

-- `n` ticks, with nothing else in between.
abbrev pub ticks : ℕ → ℕ → Cmd (Unit {0})
ticks core zero = pure tt
ticks core (suc n) = do ticks core n; global_tick core

-- While the first process of the queue has ticks to go, the queue stays as it is.
pub record IsCounting (core : ℕ) (z : Ptr) (rest : List Ptr) (left : ℕ) (s g : State) : Type 0 where
  pub asleep : g.lists (sleeping_on core) ≡ z ∷ rest
  pub first : tick_delta g z ≡ left
  pub others : (q : Ptr) → (q == z) ≡ false → tick_delta g q ≡ tick_delta s q
  pub locks : g.locks ≡ s.locks
  pub running : g.running ≡ s.running

pub ticks-IsCounting :
    (core : ℕ) (z : Ptr) (rest : List Ptr) (n left : ℕ) (s : State)
    → ((c : ℕ) → s.locks (queue_lock c) ≡ 0)
    → s.lists (sleeping_on core) ≡ z ∷ rest
    → Distinct (z ∷ rest)
    → tick_delta s z ≡ n + left
    → 0 < left
    → n + left < 2 ^ 64
    → (g : State) × (ticks core n s ≡ Run.ok tt g) × IsCounting core z rest left s g
ticks-IsCounting core z rest zero left s free list d delta some_left word = (
  s,
  refl,
  record {
    asleep = list;
    first = delta ∙ omega arith;
    others = λ q e. refl;
    locks = refl;
    running = refl;
  },
)
ticks-IsCounting core z rest (suc n) left s free list d delta some_left word =
    let (t, run, c) =
      ticks-IsCounting core z rest n (suc left) s free list d (omega (arith, delta)) (omega arith)
        (omega arith) in
    let free' : (c : ℕ) → t.locks (queue_lock c) ≡ 0 =
      λ k. ap (λ (l : Lock → ℕ). l (queue_lock k)) c.locks ∙ free k in
    let (g, run', e) =
      global_tick_lem core [] (z ∷ rest) t free' c.asleep d (λ q m. absurd (ground arith))
        (let h = c.first in (omega arith, omega arith)) in
    (
      g,
      rw run run',
      record {
        asleep = e.asleep;
        first = e.delta z refl ∙ (rw (==_refl z, c.first) (omega arith));
        others = λ q n. e.delta q refl ∙ (rw n (c.others q n));
        locks = e.locks ∙ c.locks;
        running = e.running ∙ c.running;
      },
    )

module _ (core ms : ℕ) (s : State) where
  abbrev self : Ptr
  self = current core s

  abbrev begun : State
  begun = with_delta self (λ n. ms_to_ticks ms) s

-- Behind one sleeper that has longer to go.
module _ (at_head : ℕ → Ptr) (core ms : ℕ) (x : Ptr) (s : State)
    (one : s.lists (sleeping_on core) ≡ x ∷ []) (other : (x == current core s) ≡ false)
    (positive : 0 < ms) (shorter : ms < tick_delta s x) where
  abbrev linked : State
  linked = with_sleepers core (place (current core s) (some x)) (begun core ms s)

  -- The state after `proc_sleep`.
  abbrev behind : State
  behind = record linked { running = update s.running core (at_head core) }
