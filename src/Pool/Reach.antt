-- ===== src/Pool/Reach.antt =====
-- Every run of the pool of src/c/kernel/kinit.c keeps account of its work.
use rpi_kernel.Base.{
  ℕ, suc, ◌<◌, ◌≤◌, ◌≡◌, refl, ap, sym, ◌∙◌, subst, true, false, [], ◌∷◌, ◌++◌, arith, ◌==◌, ◌∉◌,
  has, has-append, Bool-cases, inl, inr, ==_iff, ◌||◌, ltb, Bool,
}
use rpi_kernel.Sched.Invariant.{Distinct-append}
use rpi_kernel.Pool.{
  unborn, before_lock, locked, saw_empty, working, returned, Filler, in_round, joining, Pool,
  initial, filled, Turn, worker_locks, worker_sees_empty, worker_takes, worker_multiplies,
  worker_returns, worker_retries, filler_locks, filler_fills, filler_finishes, Turns, stop, step,
}
use rpi_kernel.Pool.Account.{produced, IsAccounted, moved, taken, through}

-- The creation of a worker leaves the hands of the others as they are.
module _ (threads workers i : ℕ) (s : Pool) (a : IsAccounted threads s)
    (at_round : s.filler ≡ in_round i) where
  count : produced threads s.filler ≡ i
  count = ap (produced threads) at_round

  known_below : (x : ℕ) → x < produced threads s.filler → x < i
  known_below x k = omega (arith, count)

  fresh_queue : i ∉ s.queue
  fresh_queue = elim (Bool-cases (has i s.queue)) [
    | inl m ↦ let k = known_below i (a.queue_known i m) in absurd (omega arith)
    | inr o ↦ o
  ]

  fresh_done : i ∉ s.done
  fresh_done = elim (Bool-cases (has i s.done)) [
    | inl m ↦ let k = known_below i (a.done_known i m) in absurd (omega arith)
    | inr o ↦ o
  ]

  born_back : (v x : ℕ) → (filled workers i s).worker v ≡ working x → s.worker v ≡ working x
  born_back v x e = elim (Bool-cases (ltb i workers)) [
    | inl some_more ↦ elim (Bool-cases (v == i)) [
      | inl h ↦ let here : before_lock ≡ working x = rw (some_more, h) at e in absurd cc
      | inr n ↦ rw (some_more, n) at e
    ]
    | inr full ↦ rw full at e
  ]

  born_on : (v x : ℕ) → s.worker v ≡ working x → (filled workers i s).worker v ≡ working x
  born_on v x e = elim (Bool-cases (ltb i workers)) [
    | inl some_more ↦ elim (Bool-cases (v == i)) [
      | inl h ↦
          let none_yet : unborn ≡ working x =
            sym (a.later v (ground (arith, count, (==_iff v i).0 h))) ∙ e in
          absurd cc
      | inr n ↦ rw (some_more, n) e
    ]
    | inr full ↦ rw full e
  ]

  born_later : (v : ℕ) → suc i ≤ v → (filled workers i s).worker v ≡ unborn
  born_later v k =
      let old = a.later v (omega (arith, count)) in
      let other : (v == i) ≡ false = ground arith in
      elim (Bool-cases (ltb i workers)) [
        | inl some_more ↦ rw (some_more, other) old
        | inr full ↦ rw full old
      ]

  queue_has : (x : ℕ) → has x (s.queue ++ i ∷ []) ≡ (has x s.queue || (x == i))
  queue_has x = has-append x s.queue (i ∷ []) ∙ ground arith

  filled-IsAccounted : IsAccounted threads (filled workers i s)
  filled-IsAccounted = record {
    queue_once = Distinct-append i s.queue a.queue_once fresh_queue;
    done_once = a.done_once;
    apart = λ x m.
        let either = sym (queue_has x) ∙ m in
        let out = fresh_done in
        elim (Bool-cases (x == i)) [
          | inl h ↦ ap (λ z. has z s.done) ((==_iff x i).0 h) ∙ out
          | inr n ↦ a.apart x (ground arith)
        ];
    held_apart = λ w x e.
        let (out, gone) = a.held_apart w x (born_back w x e) in
        let k = known_below x (a.held_known w x (born_back w x e)) in
        (queue_has x ∙ ground arith, gone);
    held_once = λ v w x e f. a.held_once v w x (born_back v x e) (born_back w x f);
    queue_known = λ x m.
        let either = sym (queue_has x) ∙ m in
        elim (Bool-cases (x == i)) [
          | inl h ↦ ground (arith, (==_iff x i).0 h)
          | inr n ↦ let k = known_below x (a.queue_known x (ground arith)) in omega arith
        ];
    done_known = λ x m. let k = known_below x (a.done_known x m) in omega arith;
    held_known = λ w x e. let k = known_below x (a.held_known w x (born_back w x e)) in omega arith;
    kept = λ x k. elim (Bool-cases (x == i)) [
      | inl h ↦ inl (queue_has x ∙ ground arith)
      | inr n ↦ elim (a.kept x (ground (arith, count))) [
        | inl m ↦ inl (queue_has x ∙ ground arith)
        | inr (inl d) ↦ inr (inl d)
        | inr (inr (w, e)) ↦ inr (inr (w, born_on w x e))
      ]
    ];
    round = λ j e. absurd cc;
    bounded = let k = a.round i at_round in omega arith;
    later = born_later;
  }

-- Steps of the filler that leave the number of items.
refilled :
    (threads lock : ℕ) (finished : Bool) (f : Filler) (s : Pool)
    → produced threads f ≡ produced threads s.filler
    → ((i : ℕ) → f ≡ in_round i → i < threads)
    → IsAccounted threads s
    → IsAccounted threads (record s { lock = lock; finished = finished; filler = f })
refilled threads lock finished f s same fits a = record {
  queue_once = a.queue_once;
  done_once = a.done_once;
  apart = a.apart;
  held_apart = a.held_apart;
  held_once = a.held_once;
  queue_known = λ x m. subst (λ n. x < n) (sym same) (a.queue_known x m);
  done_known = λ x m. subst (λ n. x < n) (sym same) (a.done_known x m);
  held_known = λ w x e. subst (λ n. x < n) (sym same) (a.held_known w x e);
  kept = λ x k. a.kept x (subst (λ n. x < n) same k);
  round = fits;
  bounded = subst (λ n. n ≤ threads) (sym same) a.bounded;
  later = λ w k. a.later w (subst (λ n. n ≤ w) same k);
}

turn-IsAccounted :
    (threads workers : ℕ) (s t : Pool)
    → Turn threads workers s t
    → IsAccounted threads s
    → IsAccounted threads t
turn-IsAccounted threads workers _ _ (worker_locks s w e free) a =
    moved threads s a w locked (λ h. cc) (λ x h. cc) (λ x h. cc) 1
turn-IsAccounted threads workers _ _ (worker_sees_empty s w e empty) a =
    moved threads s a w saw_empty (λ h. cc) (λ x h. cc) (λ x h. cc) 0
turn-IsAccounted threads workers _ _ (worker_takes s w x rest e first) a =
    taken threads s a w x rest (λ h. cc) (λ y h. cc) first
turn-IsAccounted threads workers _ _ (worker_multiplies s w x e) a = through threads s a w x e
turn-IsAccounted threads workers _ _ (worker_returns s w e over) a =
    moved threads s a w returned (λ h. cc) (λ x h. cc) (λ x h. cc) s.lock
turn-IsAccounted threads workers _ _ (worker_retries s w e more) a =
    moved threads s a w before_lock (λ h. cc) (λ x h. cc) (λ x h. cc) s.lock
turn-IsAccounted threads workers _ _ (filler_locks s i e below free) a =
    refilled threads 1 s.finished (in_round i) s (sym (ap (produced threads) e))
      (λ j h. let same : i ≡ j = cc in omega arith) a
turn-IsAccounted threads workers _ _ (filler_fills s i e) a =
    filled-IsAccounted threads workers i s a e
turn-IsAccounted threads workers _ _ (filler_finishes s i e all) a =
    refilled threads s.lock true joining s
      (let n = ap (produced threads) e in let b = a.bounded in omega arith) (λ j h. absurd cc) a

initial-IsAccounted : (threads : ℕ) → IsAccounted threads initial
initial-IsAccounted threads = record {
  queue_once = tt;
  done_once = tt;
  apart = λ x m. absurd cc;
  held_apart = λ w x e. absurd cc;
  held_once = λ v w x e f. absurd cc;
  queue_known = λ x m. absurd cc;
  done_known = λ x m. absurd cc;
  held_known = λ w x e. absurd cc;
  kept = λ x k. absurd (omega arith);
  round = λ i e. absurd cc;
  bounded = omega arith;
  later = λ w k. refl;
}

-- In every state that the pool reaches, in whatever order its processes run, each item that was put in the
-- queue is there, or done, or in the hands of one worker, and in one of these places only.
pub turns-IsAccounted :
    (threads workers : ℕ) (s : Pool) → Turns threads workers initial s → IsAccounted threads s
turns-IsAccounted threads workers s r =
    from threads workers initial s r (initial-IsAccounted threads)
  where
    from :
        (threads workers : ℕ) (s t : Pool)
        → Turns threads workers s t
        → IsAccounted threads s
        → IsAccounted threads t
    from threads workers _ _ (stop s) a = a
    from threads workers _ _ (step s t u r turn) a =
        turn-IsAccounted threads workers t u turn (from threads workers s t r a)
