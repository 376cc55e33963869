-- ===== src/Pool/Abandon.antt =====
-- A run of the pool of src/c/kernel/kinit.c that leaves work behind.
use rpi_kernel.Base.{
  ℕ, zero, suc, ◌-◌, ◌<◌, ◌≤◌, ◌≡◌, refl, ◌∙◌, true, false, [], ◌∷◌, arith, ◌==◌, update,
  Bool-cases, inl, inr, ◌⊎◌, ltb, sym, ◌≢◌,
}
use rpi_kernel.Pool.{
  Worker, Turn, unborn, before_lock, locked, saw_empty, working, returned, joining, Pool, initial,
  worker_locks, worker_sees_empty, worker_takes, worker_multiplies, worker_returns, worker_retries,
  filler_locks, filler_fills, filler_finishes, Turns, stop, step,
}
use rpi_kernel.Pool.Drain.{joined, fills, fills-Turns, fills-queue, fills-old, fills-later, drain}

module _ (threads workers : ℕ) where
  -- The first `k` workers return, and leave the queue as it is.
  return_all :
      (k : ℕ) (s : Pool)
      → s.finished ≡ true
      → k ≤ workers
      → ((w : ℕ) → w < workers → s.worker w ≡ saw_empty)
      → (t : Pool) × Turns threads workers s t
        × (t.finished ≡ true)
        × (t.queue ≡ s.queue)
        × (t.filler ≡ s.filler)
        × (t.done ≡ s.done)
        × ((w : ℕ) → w < k → t.worker w ≡ returned)
        × ((w : ℕ) → k ≤ w → t.worker w ≡ s.worker w)
  return_all zero s over small waits =
      (s, stop s, over, refl, refl, refl, λ w k. absurd (omega arith), λ w k. refl)
  return_all (suc k) s over small waits =
      let (t, run, over', queue, filler, done, back, stay) =
        return_all k s over (omega arith) waits in
      let u = record t { worker = update t.worker k returned } in
      (
        u,
        step s t u run (worker_returns t k (stay k (omega arith) ∙ waits k (omega arith)) over'),
        over',
        queue,
        filler,
        done,
        λ w below. elim (Bool-cases (w == k)) [
          | inl e ↦ rw e refl
          | inr d ↦ rw d (back w (ground arith))
        ],
        λ w above. let other : (w == k) ≡ false = ground arith in rw other (stay w (omega arith)),
      )

  -- The filler is through with its loop, and no worker is on its way.
  record IsStuck (s : Pool) : Type 0 where
    joins : s.filler ≡ joining
    gone : (w : ℕ) → (s.worker w ≡ returned) ⊎ (s.worker w ≡ unborn)

  stuck_worker :
      (s : Pool) → IsStuck s → (w : ℕ) (y : Worker) → s.worker w ≡ y → (y ≡ returned) ⊎ (y ≡ unborn)
  stuck_worker s k w y e = elim (k.gone w) [ inl r ↦ inl (sym e ∙ r) | inr r ↦ inr (sym e ∙ r) ]

  idle_only : (y : Worker) → y ≢ returned → y ≢ unborn → (y ≡ returned) ⊎ (y ≡ unborn) → ⊥
  idle_only y n m (inl e) = n e
  idle_only y n m (inr e) = m e

  stuck_stops : (s t : Pool) → Turn threads workers s t → IsStuck s → ⊥
  stuck_stops _ _ (worker_locks s w e free) k =
      idle_only before_lock (λ h. cc) (λ h. cc) (stuck_worker s k w _ e)
  stuck_stops _ _ (worker_sees_empty s w e empty) k =
      idle_only locked (λ h. cc) (λ h. cc) (stuck_worker s k w _ e)
  stuck_stops _ _ (worker_takes s w x rest e first) k =
      idle_only locked (λ h. cc) (λ h. cc) (stuck_worker s k w _ e)
  stuck_stops _ _ (worker_multiplies s w x e) k =
      idle_only (working x) (λ h. cc) (λ h. cc) (stuck_worker s k w _ e)
  stuck_stops _ _ (worker_returns s w e over) k =
      idle_only saw_empty (λ h. cc) (λ h. cc) (stuck_worker s k w _ e)
  stuck_stops _ _ (worker_retries s w e more) k =
      idle_only saw_empty (λ h. cc) (λ h. cc) (stuck_worker s k w _ e)
  stuck_stops _ _ (filler_locks s i e below free) k = let j = k.joins in cc
  stuck_stops _ _ (filler_fills s i e) k = let j = k.joins in cc
  stuck_stops _ _ (filler_finishes s i e all) k = let j = k.joins in cc

  -- With at least one worker and more items than workers, the pool has a run after which it has put all
  -- its items in the queue, every worker has returned, and the last item is still in the queue; no
  -- process of the pool has a step left.
  pub abandons_work :
      0 < workers
      → workers < threads
      → (s : Pool) × Turns threads workers initial s
        × (s.filler ≡ joining)
        × ((w : ℕ) → w < workers → s.worker w ≡ returned)
        × (s.queue ≡ (threads - 1) ∷ [])
        × ((t : Pool) → ¬ Turn threads workers s t)
  abandons_work some_worker fewer =
      let n = threads - 1 in
      let (s, run, d) = drain threads workers n some_worker (omega arith) in
      let below : n < threads = omega arith in
      let t = fills threads workers n s d below in
      let u = record t { finished = true; filler = joining } in
      let (v, run', over, queue, filler, done, back, stay) =
        return_all workers u refl (omega arith) (λ w small.
          fills-old threads workers n s d below w (omega arith) ∙ d.waits w (omega arith) small) in
      let gone : (w : ℕ) → (v.worker w ≡ returned) ⊎ (v.worker w ≡ unborn) = λ w.
        elim (Bool-cases (ltb w workers)) [
          | inl small ↦ inl (back w (ground arith))
          | inr large ↦ inr (
              stay w (ground arith)
              ∙ fills-later threads workers n s d below w (inr (ground arith)))
        ] in
      (
        v,
        joined threads workers initial u v
            (step initial t u
              (joined threads workers initial s t run (fills-Turns threads workers n s d below))
              (filler_finishes t (suc n) refl (omega arith)))
            run',
        filler,
        back,
        queue ∙ fills-queue threads workers n s d below,
        λ z turn. stuck_stops v z turn (record { joins = filler; gone = gone }),
      )
