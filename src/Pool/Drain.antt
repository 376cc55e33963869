-- ===== src/Pool/Drain.antt =====
-- Runs of the pool of src/c/kernel/kinit.c in which every item is taken at once.
use rpi_kernel.Base.{
  ℕ, zero, suc, ◌<◌, ◌≤◌, ◌≡◌, refl, ◌∙◌, false, [], ◌∷◌, ◌++◌, arith, ◌==◌, update, update_self,
  Bool-cases, inl, inr, ==_refl, ◌⊎◌, ltb,
}
use rpi_kernel.Pool.{
  unborn, before_lock, locked, saw_empty, working, before_round, in_round, Pool, initial, filled,
  worker_locks, worker_sees_empty, worker_takes, worker_multiplies, worker_retries, filler_locks,
  filler_fills, Turns, stop, step,
}

module _ (threads workers : ℕ) where
  pub joined :
      (s t u : Pool)
      → Turns threads workers s t
      → Turns threads workers t u
      → Turns threads workers s u
  joined s _ _ r (stop t) = r
  joined s _ _ r (step t u v q turn) = step s u v (joined s t u r q) turn

  -- A worker takes the only item, does it, and finds the queue empty.
  module _ (s : Pool) (k x : ℕ) (at_lock : s.worker k ≡ before_lock) (free : s.lock ≡ 0)
      (one : s.queue ≡ x ∷ []) where
    abbrev takes_lock : Pool
    takes_lock = record s { lock = 1; worker = update s.worker k locked }

    abbrev has_item : Pool
    has_item = record takes_lock {
      lock = 0;
      queue = [];
      worker = update takes_lock.worker k (working x);
    }

    abbrev has_done : Pool
    has_done = record has_item {
      worker = update has_item.worker k before_lock;
      done = s.done ++ x ∷ [];
    }

    abbrev locks_again : Pool
    locks_again = record has_done { lock = 1; worker = update has_done.worker k locked }

    abbrev served : Pool
    served = record locks_again { lock = 0; worker = update locks_again.worker k saw_empty }

    served-Turns : Turns threads workers s served
    served-Turns =
        step s locks_again served
          (step s has_done locks_again
            (step s has_item has_done
              (step s takes_lock has_item
                (step s s takes_lock (stop s) (worker_locks s k at_lock free))
                (worker_takes takes_lock k x [] (update_self s.worker k locked) one))
              (worker_multiplies has_item k x (update_self takes_lock.worker k (working x))))
            (worker_locks has_done k (update_self has_item.worker k before_lock) refl))
          (worker_sees_empty locks_again k (update_self has_done.worker k locked) refl)

    served-other : (v : ℕ) → (v == k) ≡ false → served.worker v ≡ s.worker v
    served-other v n = rw n

  -- Each worker so far has found the queue empty, and it is, with `n` rounds over.
  pub record IsDrained (n : ℕ) (s : Pool) : Type 0 where
    pub free : s.lock ≡ 0
    pub empty : s.queue ≡ []
    pub more : s.finished ≡ false
    pub rounds : s.filler ≡ before_round n
    pub waits : (w : ℕ) → w < n → w < workers → s.worker w ≡ saw_empty
    pub later : (w : ℕ) → (n ≤ w) ⊎ (workers ≤ w) → s.worker w ≡ unborn

  -- The filler puts one more item in the queue.
  module _ (n : ℕ) (s : Pool) (d : IsDrained n s) (below : n < threads) where
    abbrev pub fills : Pool
    fills = filled workers n (record s { lock = 1; filler = in_round n })

    pub fills-Turns : Turns threads workers s fills
    fills-Turns =
        step s (record s { lock = 1; filler = in_round n }) fills
          (step s s (record s { lock = 1; filler = in_round n }) (stop s)
            (filler_locks s n d.rounds below d.free))
          (filler_fills (record s { lock = 1; filler = in_round n }) n refl)

    pub fills-queue : fills.queue ≡ n ∷ []
    fills-queue = rw d.empty refl

    pub fills-old : (w : ℕ) → w < n → fills.worker w ≡ s.worker w
    fills-old w k = ground arith

    pub fills-later : (w : ℕ) → (suc n ≤ w) ⊎ (workers ≤ w) → fills.worker w ≡ unborn
    fills-later w k = ground (arith, d.later w)

  served-IsDrained :
      (n k : ℕ) (t : Pool) (one : t.queue ≡ n ∷ []) (at_lock : t.worker k ≡ before_lock)
      (free : t.lock ≡ 0)
      → t.finished ≡ false
      → t.filler ≡ before_round (suc n)
      → ((w : ℕ) → (w == k) ≡ false → w < suc n → w < workers → t.worker w ≡ saw_empty)
      → ((w : ℕ) → (suc n ≤ w) ⊎ (workers ≤ w) → (w == k) ≡ false)
      → ((w : ℕ) → (suc n ≤ w) ⊎ (workers ≤ w) → t.worker w ≡ unborn)
      → IsDrained (suc n) (served t k n at_lock free one)
  served-IsDrained n k t one at_lock free more round others apart later = record {
    free = refl;
    empty = refl;
    more = more;
    rounds = round;
    waits = λ w below small. elim (Bool-cases (w == k)) [
      | inl e ↦ rw e refl
      | inr d ↦ served-other t k n at_lock free one w d ∙ others w d below small
    ];
    later = λ w k'. served-other t k n at_lock free one w (apart w k') ∙ later w k';
  }

  -- In a round that creates a worker, that worker takes the item.
  drain_new :
      (n : ℕ) (s : Pool)
      → n < workers
      → n < threads
      → IsDrained n s
      → (t : Pool) × Turns threads workers s t × IsDrained (suc n) t
  drain_new n s small below d =
      let t = fills n s d below in
      let born : t.worker n ≡ before_lock = ground (arith, ==_refl n) in
      let one = fills-queue n s d below in
      (
        served t n n born refl one,
        joined s t _ (fills-Turns n s d below) (served-Turns t n n born refl one),
        served-IsDrained n n t one born refl d.more refl
            (λ w other k small'.
              fills-old n s d below w (ground arith) ∙ d.waits w (ground arith) small')
            (λ w k. ground arith) (fills-later n s d below),
      )

  -- In a later round the first worker tries again.
  drain_old :
      (n : ℕ) (s : Pool)
      → 0 < workers
      → workers ≤ n
      → n < threads
      → IsDrained n s
      → (t : Pool) × Turns threads workers s t × IsDrained (suc n) t
  drain_old n s some_worker old below d =
      let t = fills n s d below in
      let waits : t.worker 0 ≡ saw_empty =
        fills-old n s d below 0 (omega arith) ∙ d.waits 0 (omega arith) some_worker in
      let u = record t { worker = update t.worker 0 before_lock } in
      let again : u.worker 0 ≡ before_lock = update_self t.worker 0 before_lock in
      let one : u.queue ≡ n ∷ [] = fills-queue n s d below in
      (
        served u 0 n again refl one,
        joined s u _ (step s t u (fills-Turns n s d below) (worker_retries t 0 waits d.more))
            (served-Turns u 0 n again refl one),
        served-IsDrained n 0 u one again refl d.more refl
            (λ w other k small.
              rw other (fills-old n s d below w (omega arith) ∙ d.waits w (omega arith) small))
            (λ w k. ground arith)
            (λ w k.
              let other : (w == 0) ≡ false = ground arith in
              rw other (fills-later n s d below w k)),
      )

  pub drain :
      (n : ℕ)
      → 0 < workers
      → n ≤ threads
      → (s : Pool) × Turns threads workers initial s × IsDrained n s
  drain zero some_worker below = (
    initial,
    stop initial,
    record {
      free = refl;
      empty = refl;
      more = refl;
      rounds = refl;
      waits = λ w k small. absurd (omega arith);
      later = λ w k. refl;
    },
  )
  drain (suc n) some_worker below =
      let (s, run, d) = drain n some_worker (omega arith) in
      elim (Bool-cases (ltb n workers)) [
        | inl more ↦
            let (t, run', d') = drain_new n s (ground arith) (omega arith) d in
            (t, joined initial s t run run', d')
        | inr full ↦
            let (t, run', d') = drain_old n s some_worker (ground arith) (omega arith) d in
            (t, joined initial s t run run', d')
      ]
