-- ===== src/Sleep/Tick.antt =====
-- What a tick of the sleep queue does: `global_tick` of src/c/kernel/sleep.c.
use rpi_kernel.Base.{
  ℕ, ◌^◌, ◌<◌, ◌≡◌, ◌≢◌, refl, ap, sym, ◌∙◌, Bool, true, false, List, [], ◌∷◌, ◌++◌, ◌==◌, arith,
  if◌then◌else◌, ltb, pred64, update_self, remove, has, ◌∈◌, ◌∉◌, has-remove, has-append, Distinct,
  Bool-cases, inl, inr, ==_iff, ==_refl, subst, remove_absent,
}
use rpi_kernel.Links.{Ptr}
use rpi_kernel.State.{Process, State, ready_at, sleeping_on, queue_lock, Run, with_proc, del_sched}
use rpi_kernel.Sched.Ready.{ready_core, readied, ready_lem}
use rpi_kernel.Sched.Block.{InReady, readied-InReady, readied-stays, readied-other}
use rpi_kernel.Sched.Invariant.Evolve.{other-of-member}
use rpi_kernel.Sleep.{tick_entry, tick_delta, with_delta, tick_loop, global_tick}

-- The state after a round that wakes the process.
abbrev pub roused : ℕ → Ptr → State → State
roused core p s =
    with_proc p (λ q. record q { ret = 0 }) (readied core p (del_sched p (with_delta p pred64 s)))

abbrev pub after_tick : ℕ → List Ptr → State → State
after_tick core [] s = s
after_tick core (p ∷ ps) s =
    let rest = after_tick core ps (roused core p s) in
    if ltb 0 (pred64 (tick_delta s p)) then with_delta p pred64 s else rest

module _ (core : ℕ) (p : Ptr) (s : State) where
  tick_entry-asleep :
      ltb 0 (pred64 (tick_delta s p)) ≡ true
      → tick_entry core p s ≡ Run.ok true (with_delta p pred64 s)
  unfolding tick_entry
  tick_entry-asleep more = rw (tick_delta, ==_refl p, more) refl

  tick_entry-over :
      ltb 0 (pred64 (tick_delta s p)) ≡ false
      → s.locks (queue_lock (ready_core core p (del_sched p (with_delta p pred64 s)))) ≡ 0
      → tick_entry core p s ≡ Run.ok false (roused core p s)
  unfolding tick_entry
  tick_entry-over over free =
      let now : ltb 0 (tick_delta (with_delta p pred64 s) p) ≡ false =
        ap (λ (q : Process). ltb 0 q.tick_delta) (update_self s.procs p _) ∙ over in
      rw (now, ready_lem core p (del_sched p (with_delta p pred64 s)) free) refl

tick_loop_lem :
    (core : ℕ) (ps : List Ptr) (s : State)
    → ((c : ℕ) → s.locks (queue_lock c) ≡ 0)
    → tick_loop core ps s ≡ Run.ok tt (after_tick core ps s)
unfolding tick_loop
tick_loop_lem core [] s free = refl
tick_loop_lem core (p ∷ ps) s free = elim (Bool-cases (ltb 0 (pred64 (tick_delta s p)))) [
  | inl more ↦ rw (tick_entry-asleep core p s more, more) refl
  | inr over ↦
      rw (tick_entry-over core p s over (free _), over)
        (tick_loop_lem core ps (roused core p s) free)
]

-- A process that is ready with result 0.
abbrev pub IsAwake : Ptr → State → Type 0
IsAwake q g = InReady q g × ((g.procs q).ret ≡ 0)

module _ (core : ℕ) (p : Ptr) (s : State) where
  roused-asleep :
      (c : ℕ) → (roused core p s).lists (sleeping_on c) ≡ remove p (s.lists (sleeping_on c))
  roused-asleep c =
      readied-other core p (del_sched p (with_delta p pred64 s)) (sleeping_on c) (λ d r. refl)
      ∙ remove_absent p (remove p (s.lists (sleeping_on c)))
          (has-remove p p (s.lists (sleeping_on c)) ∙ rw (==_refl p) refl)

  roused-delta : (q : Ptr) → (q == p) ≡ false → tick_delta (roused core p s) q ≡ tick_delta s q
  roused-delta q d = rw (tick_delta, d) refl

  roused-ret : ((roused core p s).procs p).ret ≡ 0
  roused-ret = rw (==_refl p) refl

  roused-IsAwake : (q : Ptr) → (q == p) ≡ false → IsAwake q s → IsAwake q (roused core p s)
  roused-IsAwake q d ((c, r, m), z) = (
    (
      c,
      r,
      readied-stays core p (del_sched p (with_delta p pred64 s)) (ready_at c r) q d
          ∙ (has-remove q p (s.lists (ready_at c r)) ∙ rw (d, m) refl),
    ),
    rw d z,
  )

roused_self : (core : ℕ) (p : Ptr) (s : State) → IsAwake p (roused core p s)
roused_self core p s =
    (readied-InReady core p (del_sched p (with_delta p pred64 s)), roused-ret core p s)

after_tick-IsAwake :
    (core : ℕ) (q : Ptr) (ps : List Ptr) (s : State)
    → IsAwake q s
    → IsAwake q (after_tick core ps s)
after_tick-IsAwake core q [] s a = a
after_tick-IsAwake core q (p ∷ ps) s a = elim (Bool-cases (ltb 0 (pred64 (tick_delta s p)))) [
  | inl more ↦ rw more (
    a.0,
    elim (Bool-cases (q == p)) [ inl e ↦ rw (e, sym ((==_iff q p).0 e)) a.1 | inr d ↦ rw d a.1 ],
  )
  | inr over ↦ rw over (
      after_tick-IsAwake core q ps (roused core p s) (elim (Bool-cases (q == p)) [
        | inl e ↦
            subst (λ x. IsAwake x (roused core p s)) (sym ((==_iff q p).0 e)) (roused_self core p s)
        | inr d ↦ roused-IsAwake core p s q d a
      ]))
]

abbrev pub is_first : Ptr → List Ptr → Bool
is_first q [] = false
is_first q (z ∷ zs) = q == z

-- The first process, if there is one, has more than one tick to go, or wraps around from 0.
abbrev pub IsPending : List Ptr → State → Type 0
IsPending [] s = Unit
IsPending (z ∷ zs) s = (tick_delta s z ≢ 1) × (tick_delta s z < 2 ^ 64)

-- What a tick does where the processes `ys` in front have one tick to go and the next, in front of `zs`,
-- has another number.
pub record Ticked (core : ℕ) (ys zs : List Ptr) (s g : State) : Type 0 where
  pub asleep : g.lists (sleeping_on core) ≡ zs
  pub awake : (q : Ptr) → q ∈ ys → IsAwake q g
  pub delta :
      (q : Ptr)
      → q ∉ ys
      → tick_delta g q ≡ (if is_first q zs then pred64 (tick_delta s q) else tick_delta s q)
  pub locks : g.locks ≡ s.locks
  pub running : g.running ≡ s.running

roused-IsPending :
    (core : ℕ) (p : Ptr) (zs : List Ptr) (s : State)
    → p ∉ zs
    → IsPending zs s
    → IsPending zs (roused core p s)
roused-IsPending core p [] s out pending = tt
roused-IsPending core p (z ∷ zs) s out pending =
    let same = roused-delta core p s z (ground arith) in
    (λ e. pending.0 (sym same ∙ e), subst (λ n. n < 2 ^ 64) (sym same) pending.1)

after_tick-Ticked :
    (core : ℕ) (ys zs : List Ptr) (s : State)
    → s.lists (sleeping_on core) ≡ ys ++ zs
    → Distinct (ys ++ zs)
    → ((q : Ptr) → q ∈ ys → tick_delta s q ≡ 1)
    → IsPending zs s
    → Ticked core ys zs s (after_tick core (ys ++ zs) s)
after_tick-Ticked core [] [] s list d due pending = record {
  asleep = list;
  awake = λ q m. absurd (ground arith);
  delta = λ q out. refl;
  locks = refl;
  running = refl;
}
after_tick-Ticked core [] (z ∷ zs) s list d due pending =
    let more : ltb 0 (pred64 (tick_delta s z)) ≡ true = ground arith in
    rw more (record {
      asleep = list;
      awake = λ q m. absurd (ground arith);
      delta = λ q out. elim (Bool-cases (q == z)) [
        | inl e ↦ rw (tick_delta, e, (==_iff q z).0 e) refl
        | inr n ↦ rw (tick_delta, n) refl
      ];
      locks = refl;
      running = refl;
    })
after_tick-Ticked core (p ∷ ys) zs s list d due pending =
    let over : ltb 0 (pred64 (tick_delta s p)) ≡ false =
      rw (due p (ground (arith, ==_refl p))) refl in
    let t = roused core p s in
    let apart : (q : Ptr) → q ∈ ys → (q == p) ≡ false =
      λ q m. other-of-member p q (ys ++ zs) (has-append q ys zs ∙ rw m refl) d.0 in
    let behind : p ∉ zs = elim (Bool-cases (has p zs)) [
      | inl m ↦ let all = sym (has-append p ys zs) ∙ d.0 in absurd (ground arith)
      | inr o ↦ o
    ] in
    let rest =
      after_tick-Ticked core ys zs t
        (roused-asleep core p s core
          ∙ (ap (remove p) list ∙ (rw (==_refl p) (remove_absent p (ys ++ zs) d.0))))
        d.1 (λ q m. roused-delta core p s q (apart q m) ∙ due q (ground (arith, m)))
        (roused-IsPending core p zs s behind pending) in
    rw over (record {
      asleep = rest.asleep;
      awake = λ q m. elim (Bool-cases (q == p)) [
        | inl e ↦
            subst (λ x. IsAwake x (after_tick core (ys ++ zs) t)) (sym ((==_iff q p).0 e))
              (after_tick-IsAwake core p (ys ++ zs) t (roused_self core p s))
        | inr n ↦ rest.awake q (ground arith)
      ];
      delta = λ q out.
          rest.delta q (ground arith)
          ∙ ap (λ n. if is_first q zs then pred64 n else n)
              (roused-delta core p s q (ground arith));
      locks = rest.locks;
      running = rest.running;
    })

pub global_tick_lem :
    (core : ℕ) (ys zs : List Ptr) (s : State)
    → ((c : ℕ) → s.locks (queue_lock c) ≡ 0)
    → s.lists (sleeping_on core) ≡ ys ++ zs
    → Distinct (ys ++ zs)
    → ((q : Ptr) → q ∈ ys → tick_delta s q ≡ 1)
    → IsPending zs s
    → (g : State) × (global_tick core s ≡ Run.ok tt g) × Ticked core ys zs s g
unfolding global_tick
global_tick_lem core ys zs s free list d due pending = (
  after_tick core (ys ++ zs) s,
  ap (λ entries. tick_loop core entries s) list ∙ tick_loop_lem core (ys ++ zs) s free,
  after_tick-Ticked core ys zs s list d due pending,
)
