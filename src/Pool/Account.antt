-- ===== src/Pool/Account.antt =====
-- No work of the pool of src/c/kernel/kinit.c is lost or done twice while it goes through the queue.
use rpi_kernel.Base.{
  ℕ, ◌<◌, ◌≤◌, ◌≡◌, ◌≢◌, ap, sym, ◌∙◌, subst, List, [], ◌∷◌, ◌++◌, arith, ◌==◌, ◌∈◌, ◌∉◌, has,
  has-append, Distinct, update, Bool-cases, inl, inr, ==_iff, ==_refl, ◌||◌, ◌⊎◌,
}
use rpi_kernel.Sched.Invariant.{Distinct-append}
use rpi_kernel.Pool.{
  Worker, unborn, before_lock, working, Filler, before_round, in_round, joining, Pool,
}

-- How many items were put in the queue.
abbrev pub produced : ℕ → Filler → ℕ
produced threads (before_round i) = i
produced threads (in_round i) = i
produced threads joining = threads

-- Every item that was put in the queue is there, or in the hands of one worker, or done, and nowhere
-- twice.
pub record IsAccounted (threads : ℕ) (s : Pool) : Type 0 where
  pub queue_once : Distinct s.queue
  pub done_once : Distinct s.done
  pub apart : (x : ℕ) → x ∈ s.queue → x ∉ s.done
  pub held_apart : (w x : ℕ) → s.worker w ≡ working x → (x ∉ s.queue) × (x ∉ s.done)
  pub held_once : (v w x : ℕ) → s.worker v ≡ working x → s.worker w ≡ working x → v ≡ w
  pub queue_known : (x : ℕ) → x ∈ s.queue → x < produced threads s.filler
  pub done_known : (x : ℕ) → x ∈ s.done → x < produced threads s.filler
  pub held_known : (w x : ℕ) → s.worker w ≡ working x → x < produced threads s.filler
  pub kept :
      (x : ℕ)
      → x < produced threads s.filler
      → (x ∈ s.queue) ⊎ ((x ∈ s.done) ⊎ ((w : ℕ) × (s.worker w ≡ working x)))
  pub round : (i : ℕ) → s.filler ≡ in_round i → i < threads
  pub bounded : produced threads s.filler ≤ threads
  pub later : (w : ℕ) → produced threads s.filler ≤ w → s.worker w ≡ unborn

abbrev pub IsIdle : Worker → Type 0
IsIdle y = (x : ℕ) → y ≢ working x

module _ (threads : ℕ) (s : Pool) (a : IsAccounted threads s) (w : ℕ) where
  later_kept :
      (y : Worker)
      → s.worker w ≢ unborn
      → (v : ℕ) → produced threads s.filler ≤ v
      → update s.worker w y v ≡ unborn
  later_kept y born v k = elim (Bool-cases (v == w)) [
    | inl h ↦ absurd (born (sym (ap s.worker ((==_iff v w).0 h)) ∙ a.later v k))
    | inr n ↦ rw n (a.later v k)
  ]

  -- A worker that has no work goes on without any.
  module _ (y : Worker) (born : s.worker w ≢ unborn) (was : IsIdle (s.worker w))
      (is : IsIdle y) where
    moved_back : (v x : ℕ) → update s.worker w y v ≡ working x → s.worker v ≡ working x
    moved_back v x e = elim (Bool-cases (v == w)) [
      | inl h ↦ let here : y ≡ working x = rw h at e in absurd (is x here)
      | inr n ↦ rw n at e
    ]

    moved_on : (v x : ℕ) → s.worker v ≡ working x → update s.worker w y v ≡ working x
    moved_on v x e = elim (Bool-cases (v == w)) [
      | inl h ↦ absurd (was x (sym (ap s.worker ((==_iff v w).0 h)) ∙ e))
      | inr n ↦ rw n e
    ]

    pub moved :
        (lock : ℕ) → IsAccounted threads (record s { lock = lock; worker = update s.worker w y })
    moved lock = record {
      queue_once = a.queue_once;
      done_once = a.done_once;
      apart = a.apart;
      held_apart = λ v x e. a.held_apart v x (moved_back v x e);
      held_once = λ v u x e f. a.held_once v u x (moved_back v x e) (moved_back u x f);
      queue_known = a.queue_known;
      done_known = a.done_known;
      held_known = λ v x e. a.held_known v x (moved_back v x e);
      kept = λ x k. elim (a.kept x k) [
        | inl q ↦ inl q
        | inr (inl d) ↦ inr (inl d)
        | inr (inr (v, e)) ↦ inr (inr (v, moved_on v x e))
      ];
      round = a.round;
      bounded = a.bounded;
      later = later_kept y born;
    }

  -- A worker that has no work takes the first item of the queue.
  module _ (x : ℕ) (rest : List ℕ) (born : s.worker w ≢ unborn) (was : IsIdle (s.worker w))
      (first : s.queue ≡ x ∷ rest) where
    queue_has : (y : ℕ) → has y s.queue ≡ has y (x ∷ rest)
    queue_has y = ap (has y) first

    taken_back :
        (v y : ℕ)
        → update s.worker w (working x) v ≡ working y
        → ((v ≡ w) × (y ≡ x)) ⊎ (s.worker v ≡ working y)
    taken_back v y e = elim (Bool-cases (v == w)) [
      | inl h ↦ let here : working x ≡ working y = rw h at e in inl ((==_iff v w).0 h, cc)
      | inr n ↦ inr (rw n at e)
    ]

    taken_on : (v y : ℕ) → s.worker v ≡ working y → update s.worker w (working x) v ≡ working y
    taken_on v y e = elim (Bool-cases (v == w)) [
      | inl h ↦ absurd (was y (sym (ap s.worker ((==_iff v w).0 h)) ∙ e))
      | inr n ↦ rw n e
    ]

    x_apart : (x ∉ rest) × Distinct rest
    x_apart = subst Distinct first a.queue_once

    pub taken :
        IsAccounted threads
          (record s { lock = 0; queue = rest; worker = update s.worker w (working x) })
    taken = record {
      queue_once = x_apart.1;
      done_once = a.done_once;
      apart = λ y m. a.apart y (queue_has y ∙ ground (arith, m));
      held_apart = λ v y e. elim (taken_back v y e) [
        | inl (h, k) ↦
            let out = x_apart.0 in
            let gone = a.apart x (queue_has x ∙ ground (arith, ==_refl x)) in
            (ap (λ z. has z rest) k ∙ out, ap (λ z. has z s.done) k ∙ gone)
        | inr f ↦
            let (out, gone) = a.held_apart v y f in
            let behind = sym (queue_has y) ∙ out in (ground arith, gone)
      ];
      held_once = λ v u y e f. elim (taken_back v y e) [
        | inl (h, k) ↦ elim (taken_back u y f) [
          | inl (h', k') ↦ h ∙ sym h'
          | inr g ↦
              let out = sym (queue_has y) ∙ (a.held_apart u y g).0 in
              absurd (ground (arith, k, ==_refl x))
        ]
        | inr g ↦ elim (taken_back u y f) [
          | inl (h', k') ↦
              let out = sym (queue_has y) ∙ (a.held_apart v y g).0 in
              absurd (ground (arith, k', ==_refl x))
          | inr g' ↦ a.held_once v u y g g'
        ]
      ];
      queue_known = λ y m. a.queue_known y (queue_has y ∙ ground (arith, m));
      done_known = a.done_known;
      held_known = λ v y e. elim (taken_back v y e) [
        | inl (h, k) ↦
            subst (λ z. z < produced threads s.filler) (sym k)
              (a.queue_known x (queue_has x ∙ ground (arith, ==_refl x)))
        | inr f ↦ a.held_known v y f
      ];
      kept = λ y k. elim (a.kept y k) [
        | inl m ↦ elim (Bool-cases (y == x)) [
          | inl h ↦ inr (inr (w, rw (==_refl w) (ap working (sym ((==_iff y x).0 h)))))
          | inr n ↦ let behind = sym (queue_has y) ∙ m in inl (ground arith)
        ]
        | inr (inl d) ↦ inr (inl d)
        | inr (inr (v, e)) ↦ inr (inr (v, taken_on v y e))
      ];
      round = a.round;
      bounded = a.bounded;
      later = later_kept (working x) born;
    }

  -- A worker is through with its item.
  module _ (x : ℕ) (was : s.worker w ≡ working x) where
    through_back :
        (v y : ℕ) → update s.worker w before_lock v ≡ working y → (s.worker v ≡ working y) × (y ≢ x)
    through_back v y e = elim (Bool-cases (v == w)) [
      | inl h ↦ let here : before_lock ≡ working y = rw h at e in absurd cc
      | inr n ↦
          let old : s.worker v ≡ working y = rw n at e in
          (
            old,
            λ k. let same = a.held_once v w x (old ∙ ap working k) was in ground (arith, ==_refl w),
          )
    ]

    done_has : (y : ℕ) → has y (s.done ++ x ∷ []) ≡ (has y s.done || (y == x))
    done_has y = has-append y s.done (x ∷ []) ∙ ground arith

    pub through :
        IsAccounted threads
          (record s { worker = update s.worker w before_lock; done = s.done ++ x ∷ [] })
    through = record {
      queue_once = a.queue_once;
      done_once = Distinct-append x s.done a.done_once (a.held_apart w x was).1;
      apart = λ y m.
          let out = (a.held_apart w x was).0 in
          let gone = a.apart y m in
          done_has y ∙ elim (Bool-cases (y == x)) [
            | inl h ↦ let same = ap (λ z. has z s.queue) ((==_iff y x).0 h) in absurd (ground arith)
            | inr n ↦ ground arith
          ];
      held_apart = λ v y e.
          let (old, other) = through_back v y e in
          let (out, gone) = a.held_apart v y old in (out, done_has y ∙ ground arith);
      held_once = λ v u y e f. a.held_once v u y (through_back v y e).0 (through_back u y f).0;
      queue_known = a.queue_known;
      done_known = λ y m.
          let either = sym (done_has y) ∙ m in
          elim (Bool-cases (y == x)) [
            | inl h ↦
                subst (λ z. z < produced threads s.filler) (sym ((==_iff y x).0 h))
                  (a.held_known w x was)
            | inr n ↦ a.done_known y (ground arith)
          ];
      held_known = λ v y e. a.held_known v y (through_back v y e).0;
      kept = λ y k. elim (a.kept y k) [
        | inl m ↦ inl m
        | inr (inl d) ↦ inr (inl (done_has y ∙ ground arith))
        | inr (inr (v, e)) ↦ elim (Bool-cases (v == w)) [
          | inl h ↦
              let item : working y ≡ working x = sym e ∙ (ap s.worker ((==_iff v w).0 h) ∙ was) in
              let same : y ≡ x = cc in inr (inl (done_has y ∙ ground (arith, same, ==_refl x)))
          | inr n ↦ inr (inr (v, rw n e))
        ]
      ];
      round = a.round;
      bounded = a.bounded;
      later = later_kept before_lock (λ h. cc);
    }
