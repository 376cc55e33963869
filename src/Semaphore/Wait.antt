-- ===== src/Semaphore/Wait.antt =====
-- Taking a semaphore: `__sem_wait`, `__sem_trywait`, `__sem_getvalue` and `__sem_init`.
use rpi_kernel.Base.{
  ℕ, ◌-◌, ◌^◌, ◌<◌, ◌≡◌, true, false, ltb, lt_int, arith, if◌then◌else◌, pred32, leb, ◌&&◌,
  Bool-cases, inl, inr,
}
use rpi_kernel.Config.{block, eagain}
use rpi_kernel.Config
use rpi_kernel.Links.{Ptr}
use rpi_kernel.State.{
  State, sem_tasks, sem_lock, lock_key, head_key, ok, relock, spin_lock-ok, spin_unlock,
}
use rpi_kernel.Sched.{current, sleep_on_locked}
use rpi_kernel.Sched.Block.{asleep}
use rpi_kernel.Semaphore.{set_ret, with_count, sem_wait, sem_trywait}

module _ (core : ℕ) (sem : Ptr) (s : State) (free : s.locks (sem_lock sem) ≡ 0) where
  sem_wait_takes :
      0 < s.sem_count sem
      → s.sem_count sem < 2 ^ 32
      → sem_wait core sem s
        ≡ ok Config.ReturnState.ok (set_ret core 0 (with_count sem (s.sem_count sem - 1) s))
  unfolding sem_wait spin_unlock
  sem_wait_takes pos small =
      let e : ltb 0 (s.sem_count sem) ≡ true = ground arith in
      let p : pred32 (s.sem_count sem) ≡ s.sem_count sem - 1 = omega arith in
      rw (spin_lock-ok (sem_lock sem) s free, e, relock s.locks (sem_lock sem) free, p)

  sem_wait_blocks :
      s.sem_count sem ≡ 0
      → sem_wait core sem s ≡ ok block (set_ret core 0 (asleep (sem_tasks sem) (current core s) s))
  unfolding sem_wait spin_unlock sleep_on_locked
  sem_wait_blocks zero =
      rw (spin_lock-ok (sem_lock sem) s free, zero, relock s.locks (sem_lock sem) free)

  -- Where the semaphore's lock is free and its count is one of 32 bits, `sem_wait` takes one from a
  -- count that is not 0, and goes on; at a count of 0 it blocks the caller, which is linked to the
  -- end of the semaphore's queue and taken out of every other list. The caller's result is 0, and
  -- the locks are as before.
  pub sem_wait_lem :
      s.sem_count sem < 2 ^ 32
      → sem_wait core sem s ≡ (
          if ltb 0 (s.sem_count sem)
          then ok Config.ReturnState.ok (set_ret core 0 (with_count sem (s.sem_count sem - 1) s))
          else ok block (set_ret core 0 (asleep (sem_tasks sem) (current core s) s)))
  sem_wait_lem small = elim (Bool-cases (ltb 0 (s.sem_count sem))) [
    | inl some ↦ rw some (sem_wait_takes (ground arith) small)
    | inr none ↦ rw none (sem_wait_blocks (ground arith))
  ]

  -- Where the semaphore's lock is free and its count is one of 32 bits, `sem_trywait` takes one
  -- from a count between 1 and 2 ^ 31, and answers EAGAIN without a change to the count for every
  -- other: for 0, and for the counts above 2 ^ 31, which are available too.
  pub sem_trywait_lem :
      s.sem_count sem < 2 ^ 32
      → sem_trywait core sem s
        ≡ ok Config.ReturnState.ok (
            if ltb 0 (s.sem_count sem) && leb (s.sem_count sem) (2 ^ 31)
            then set_ret core 0 (with_count sem (s.sem_count sem - 1) s)
            else set_ret core eagain s)
  unfolding sem_trywait spin_unlock
  sem_trywait_lem small = elim (Bool-cases (lt_int (pred32 (s.sem_count sem)) 0)) [
    | inl neg ↦
        let e : (ltb 0 (s.sem_count sem) && leb (s.sem_count sem) (2 ^ 31)) ≡ false =
          ground arith in
        rw (spin_lock-ok (sem_lock sem) s free, neg, relock s.locks (sem_lock sem) free, e)
    | inr pos ↦
        let e : (ltb 0 (s.sem_count sem) && leb (s.sem_count sem) (2 ^ 31)) ≡ true = ground arith in
        let p : pred32 (s.sem_count sem) ≡ s.sem_count sem - 1 = ground arith in
        rw (spin_lock-ok (sem_lock sem) s free, pos, relock s.locks (sem_lock sem) free, e, p)
  ]
