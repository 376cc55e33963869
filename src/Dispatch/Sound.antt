-- ===== src/Dispatch/Sound.antt =====
-- What holds of the queues and of the running processes whenever `common_interrupt` of
-- src/c/kernel/dispatch.c begins and ends, and that the choice of the next process keeps it.
pub mod Calls
pub mod Interrupt
pub mod Timer
use rpi_kernel.Base.{
  ℕ, ◌<◌, ◌≡◌, ◌≢◌, refl, ap, sym, ◌∙◌, subst, true, false, none, some, List, [], ◌∷◌, arith, ◌==◌,
  ◌∈◌, has, has-remove, remove, update, update_self, if◌then◌else◌, Bool-cases, inl, inr, ==_iff,
  ==_refl,
}
use rpi_kernel.Config.{Priority, num_cores}
use rpi_kernel.Links.{Ptr, null}
use rpi_kernel.State.{RunQueue, State, Head, ready_at, queue_lock, ok}
use rpi_kernel.Sched.{next}
use rpi_kernel.Sched.Next.{taken, next_lem}
use rpi_kernel.Sched.Invariant.{IsQueued, Detached}
use rpi_kernel.Sched.Invariant.Evolve.{still}
use rpi_kernel.Sched.Invariant.Keep.{taken-IsQueued}

-- A running process is in no list, and no two cores run the same process. NULL runs on a core that
-- has not started.
pub record IsSound (s : State) : Type 0 where
  pub queued : IsQueued s
  pub off_lists : (c : ℕ) → c < num_cores → s.running c ≢ null → Detached (s.running c) s
  pub alone :
      (c d : ℕ)
      → c < num_cores
      → d < num_cores
      → s.running c ≢ null
      → s.running c ≡ s.running d
      → c ≡ d

-- Some process is ready on the core, as the idle process is whenever another one runs.
abbrev pub Standby : ℕ → State → Type 0
Standby core s = (r : Priority) × (x : Ptr) × (x ∈ s.lists (ready_at core r))

pub still-IsSound :
    (s g : State)
    → g.lists ≡ s.lists
    → g.queues ≡ s.queues
    → g.running ≡ s.running
    → IsSound s
    → IsSound g
still-IsSound s g l k e w = record {
  queued = (still 0 s g w.queued l k e).queued;
  off_lists = λ c small pos a.
      let same_running = ap (λ (f : ℕ → Ptr). f c) e in
      ap (λ (f : Head → List Ptr). has (g.running c) (f a)) l
      ∙ (ap (λ x. has x (s.lists a)) same_running
          ∙ w.off_lists c small (λ z. pos (same_running ∙ z)) a);
  alone = λ c d small small' pos same.
      let at_c = ap (λ (f : ℕ → Ptr). f c) e in
      let at_d = ap (λ (f : ℕ → Ptr). f d) e in
      w.alone c d small small' (λ z. pos (at_c ∙ z)) (sym at_c ∙ (same ∙ at_d));
}

-- The same of every core but one, which is about to choose its next process.
pub record IsLeft (core : ℕ) (s : State) : Type 0 where
  pub queued : IsQueued s
  pub off_lists :
      (c : ℕ) → (c == core) ≡ false → c < num_cores → s.running c ≢ null → Detached (s.running c) s
  pub alone :
      (c d : ℕ)
      → (c == core) ≡ false
      → (d == core) ≡ false
      → c < num_cores
      → d < num_cores
      → s.running c ≢ null
      → s.running c ≡ s.running d
      → c ≡ d

module _ (core : ℕ) (r : Priority) (p : Ptr) (s : State) (w : IsLeft core s)
    (m : p ∈ s.lists (ready_at core r)) where
  running-other : (c : ℕ) → (c == core) ≡ false → (taken core p s).running c ≡ s.running c
  running-other c d = rw d

  not_taken : (c : ℕ) → (c == core) ≡ false → c < num_cores → s.running c ≢ null → p ≢ s.running c
  not_taken c d small pos same =
      let absent = w.off_lists c d small pos (ready_at core r) in
      let there = ap (λ x. has x (s.lists (ready_at core r))) same in ground arith

  pub taken-IsSound : IsSound (taken core p s)
  taken-IsSound = record {
    queued = taken-IsQueued core r p s m w.queued;
    off_lists = λ c small pos a. elim (Bool-cases (c == core)) [
      | inl e ↦
          let here : (taken core p s).running c ≡ p = rw e in
          ap (λ x. has x ((taken core p s).lists a)) here
          ∙ (has-remove p p (s.lists a) ∙ rw (==_refl p))
      | inr d ↦
          let there = running-other c d in
          let absent = w.off_lists c d small (λ z. pos (there ∙ z)) a in
          ap (λ x. has x ((taken core p s).lists a)) there
          ∙ (has-remove (s.running c) p (s.lists a) ∙ ground arith)
    ];
    alone = λ c d small small' pos same. elim (Bool-cases (c == core)) [
      | inl e ↦ elim (Bool-cases (d == core)) [
        | inl f ↦ ground arith
        | inr n ↦
            let here : (taken core p s).running c ≡ p = rw e in
            let there = running-other d n in
            let same' : p ≡ s.running d = sym here ∙ (same ∙ there) in
            absurd (not_taken d n small' (λ z. pos (here ∙ (same' ∙ z))) same')
      ]
      | inr n ↦ elim (Bool-cases (d == core)) [
        | inl f ↦
            let here : (taken core p s).running d ≡ p = rw f in
            let there = running-other c n in
            absurd (not_taken c n small (λ z. pos (there ∙ z)) (sym here ∙ (sym same ∙ there)))
        | inr k ↦
            let at_c = running-other c n in
            w.alone c d n k small small' (λ z. pos (at_c ∙ z))
              (sym at_c ∙ (same ∙ running-other d k))
      ]
    ];
  }

-- Where another process is ready on the core, `next` finds one, and all cores are sound again.
pub next-IsSound :
    (core : ℕ) (s : State)
    → s.locks (queue_lock core) ≡ 0
    → IsLeft core s
    → Standby core s
    → (p : Ptr) × (g : State) × (next core s ≡ ok (some p) g) × IsSound g
next-IsSound core s free w (r, x, m) = elim (next_lem core s free) [
  | inl (r', p, rest, e, above, run) ↦ (
    p,
    taken core p s,
    run,
    taken-IsSound core r' p s w (ap (has p) e ∙ ground (arith, ==_refl p)),
  )
  | inr (empty, run) ↦ let gone = ap (has x) (empty r) in absurd (ground arith)
]
