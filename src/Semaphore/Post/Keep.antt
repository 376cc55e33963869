-- ===== src/Semaphore/Post/Keep.antt =====
-- `__sem_post` and `__sem_destroy` of src/c/kernel/semaphore.c, and the queues.
use rpi_kernel.Base.{ℕ, refl, ap, ◌∙◌, arith, inl, inr, list_cases, update_key, u32, ◌+◌}
use rpi_kernel.Config
use rpi_kernel.Links.{Ptr}
use rpi_kernel.State.{
  State, Lock, sem_tasks, sem_lock, queue_lock, lock_key, Unlocked, relock, spin_lock-ok,
  spin_unlock,
}
use rpi_kernel.Sched.{alert_on_locked}
use rpi_kernel.Sched.Invariant.{IsQueued}
use rpi_kernel.Sched.Invariant.Evolve.{Evolves, chain, still}
use rpi_kernel.Sched.Invariant.Wake.{woken-Evolves}
use rpi_kernel.Sched.Invariant.Handled.{Handled, Answered}
use rpi_kernel.Semaphore.{set_ret, with_count, always, sem_post, sem_destroy, count_or_alert}
use rpi_kernel.Semaphore.Post.{locked, alerted, alerted-locks, alert_lem, sem_post_counts}

module _ (core : ℕ) (fresh sem : Ptr) (s : State) (free : Unlocked s) (q : IsQueued s) where
  alerted-Evolves : Evolves fresh s (alerted core sem s free)
  unfolding alerted locked
  alerted-Evolves =
      let l = locked core sem s free in
      let e = still fresh s l q refl refl refl in
      chain e (
        woken-Evolves core always (λ p t. t) (λ p t. refl) (λ p t. refl) (λ p t. refl) (λ p t. refl)
          (λ p t. refl) fresh (sem_tasks sem) (λ c r. refl) (s.lists (sem_tasks sem)) l
          (q.partition.distinct (sem_tasks sem)) (λ p m. m) e.queued)

  pub sem_post-Answered : Answered core fresh s (sem_post core sem s)
  unfolding sem_post count_or_alert spin_unlock locked
  sem_post-Answered = elim (list_cases (s.lists (sem_tasks sem))) [
    | inl none ↦ (
      Config.ReturnState.ok,
      set_ret core 0 (with_count sem (u32 (s.sem_count sem + 1)) s),
      sem_post_counts core sem s free none,
      λ c. free _,
      still fresh s _ q refl refl refl,
    )
    | inr (p, ps, some) ↦
        let a = alerted core sem s free in
        (
          Config.ReturnState.ok,
          set_ret core 0 (record a { locks = update_key a.locks (sem_lock sem) 0 }),
          rw (
            spin_lock-ok (sem_lock sem) s (free (sem_lock sem)),
            some,
            alert_lem core sem s free 1 (omega arith),
          ),
          λ l.
              ap (λ (f : Lock → ℕ). update_key f (sem_lock sem) 0 l) (alerted-locks core sem s free)
              ∙ (ap (λ (f : Lock → ℕ). f l) (relock s.locks (sem_lock sem) (free (sem_lock sem)))
                  ∙ free l),
          chain alerted-Evolves (still fresh a _ alerted-Evolves.queued refl refl refl),
        )
  ]

  pub sem_destroy-Handled : Handled core fresh s (sem_destroy core sem s)
  unfolding sem_destroy alert_on_locked locked
  sem_destroy-Handled =
      let a = alerted core sem s free in
      (
        Config.ReturnState.ok,
        set_ret core 0 a,
        rw (
          spin_lock-ok (sem_lock sem) s (free (sem_lock sem)),
          alert_lem core sem s free 4_294_967_295 (omega arith),
        ),
        λ c. ap (λ (f : Lock → ℕ). f (queue_lock c)) (alerted-locks core sem s free) ∙ free _,
        chain alerted-Evolves (still fresh a _ alerted-Evolves.queued refl refl refl),
      )
