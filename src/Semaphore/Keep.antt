-- ===== src/Semaphore/Keep.antt =====
-- The calls of src/c/kernel/semaphore.c that wake nobody, and the queues.
use rpi_kernel.Base.{ℕ, refl, ltb, lt_int, pred32, [], ◌==◌, update_key, Bool-cases, inl, inr}
use rpi_kernel.Config
use rpi_kernel.Links.{Ptr}
use rpi_kernel.State.{
  State, sem_tasks, sem_lock, lock_key, head_key, Unlocked, relock, clear_free, spin_lock-ok,
  spin_unlock, store_word,
}
use rpi_kernel.Sched.{current, sleep_on_locked}
use rpi_kernel.Sched.Block.{asleep}
use rpi_kernel.Sched.Invariant.{IsQueued, Detached}
use rpi_kernel.Sched.Invariant.Evolve.{chain, still, asleep-Evolves, emptied-Evolves}
use rpi_kernel.Sched.Invariant.Handled.{Answered}
use rpi_kernel.Semaphore.{
  set_ret, with_count, sem_init, sem_wait, sem_trywait, keep_if_negative, sem_getvalue,
}

module _ (core : ℕ) (fresh sem : Ptr) (s : State) (free : Unlocked s) (q : IsQueued s) where
  pub sem_wait-Answered : Detached (current core s) s → Answered core fresh s (sem_wait core sem s)
  unfolding sem_wait spin_unlock sleep_on_locked
  sem_wait-Answered out = elim (Bool-cases (ltb 0 (s.sem_count sem))) [
    | inl some ↦ (
      Config.ReturnState.ok,
      set_ret core 0 (with_count sem (pred32 (s.sem_count sem)) s),
      rw (
        spin_lock-ok (sem_lock sem) s (free (sem_lock sem)),
        some,
        relock s.locks (sem_lock sem) (free (sem_lock sem)),
      ),
      λ c. free _,
      still fresh s _ q refl refl refl,
    )
    | inr none ↦ (
      Config.ReturnState.block,
      set_ret core 0 (asleep (sem_tasks sem) (current core s) s),
      rw (
        spin_lock-ok (sem_lock sem) s (free (sem_lock sem)),
        none,
        relock s.locks (sem_lock sem) (free (sem_lock sem)),
      ),
      λ c. free _,
      (let e = asleep-Evolves (sem_tasks sem) (current core s) s (λ c r. refl) out q in
          chain e (still (current core s) _ _ e.queued refl refl refl)),
    )
  ]

  pub sem_trywait-Answered : Answered core fresh s (sem_trywait core sem s)
  unfolding sem_trywait keep_if_negative spin_unlock
  sem_trywait-Answered = elim (Bool-cases (lt_int (pred32 (s.sem_count sem)) 0)) [
    | inl neg ↦ (
      Config.ReturnState.ok,
      set_ret core Config.eagain s,
      rw (
        spin_lock-ok (sem_lock sem) s (free (sem_lock sem)),
        neg,
        relock s.locks (sem_lock sem) (free (sem_lock sem)),
      ),
      λ c. free _,
      still fresh s _ q refl refl refl,
    )
    | inr pos ↦ (
      Config.ReturnState.ok,
      set_ret core 0 (with_count sem (pred32 (s.sem_count sem)) s),
      rw (
        spin_lock-ok (sem_lock sem) s (free (sem_lock sem)),
        pos,
        relock s.locks (sem_lock sem) (free (sem_lock sem)),
      ),
      λ c. free _,
      still fresh s _ q refl refl refl,
    )
  ]

  pub sem_getvalue-Answered : (sval : Ptr) → Answered core fresh s (sem_getvalue core sem sval s)
  unfolding sem_getvalue spin_unlock
  sem_getvalue-Answered sval = (
    Config.ReturnState.ok,
    set_ret core 0 (store_word sval (s.sem_count sem) s),
    rw (
      spin_lock-ok (sem_lock sem) s (free (sem_lock sem)),
      relock s.locks (sem_lock sem) (free (sem_lock sem)),
    ),
    λ c. free _,
    still fresh s _ q refl refl refl,
  )

  pub sem_init-Answered :
      (pshared value : ℕ) → Answered core fresh s (sem_init core sem pshared value s)
  unfolding sem_init
  sem_init-Answered pshared value = elim (Bool-cases (pshared == 0)) [
    | inl one_process ↦ (
      Config.ReturnState.ok,
      set_ret core 0 (record s {
        sem_count = (with_count sem value s).sem_count;
        lists = update_key s.lists (sem_tasks sem) [];
      }),
      rw (one_process, clear_free s.locks (sem_lock sem) (free (sem_lock sem))),
      λ c. free _,
      emptied-Evolves fresh (sem_tasks sem) s _ (λ c r. refl) q refl refl refl,
    )
    | inr shared ↦ (
      Config.ReturnState.ok,
      set_ret core Config.enosys s,
      rw shared,
      λ c. free _,
      still fresh s _ q refl refl refl,
    )
  ]
