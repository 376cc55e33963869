-- ===== src/Semaphore/Post.antt =====
-- Giving a semaphore back: `__sem_post` and `__sem_destroy`.
pub mod Keep
use rpi_kernel.Base.{list_cases, cons-ne-nil}
use rpi_kernel.Base.{
  ◌⊎◌, inl, inr, ℕ, ◌+◌, ◌≡◌, ◌≢◌, refl, false, arith, List, [], ◌∷◌, ap, has, ◌∈◌, update_key, u32,
  sym, ◌∙◌,
}
use rpi_kernel.Config
use rpi_kernel.Links.{Ptr}
use rpi_kernel.State.{
  State, sem_tasks, sem_lock, queue_lock, Lock, lock_key, head_key, ok, hang, relock, spin_lock-ok,
  spin_lock-hang, spin_unlock,
}
use rpi_kernel.Sched.{alert_on_locked, alert_on_locked_nr}
use rpi_kernel.Sched.Block.{
  woken, alert_wakes_all, woken-locks, InReady, woken-absent, woken-InReady,
}
use rpi_kernel.Semaphore.{
  set_ret, with_count, always, sem_post, sem_destroy, count_or_alert, sem_wait,
}

-- The processes of a list woken in order.
abbrev pub woken_all : ℕ → List Ptr → State → State
woken_all core ps s = woken core always (λ p t. t) (λ p t. refl) (λ p t. refl) ps s

module _ (core : ℕ) (sem : Ptr) (s : State) (free : (l : Lock) → s.locks l ≡ 0) where
  sem_post_counts :
      s.lists (sem_tasks sem) ≡ []
      → sem_post core sem s
        ≡ ok Config.ReturnState.ok (set_ret core 0 (with_count sem (u32 (s.sem_count sem + 1)) s))
  unfolding sem_post spin_unlock
  sem_post_counts none = rw (
    spin_lock-ok (sem_lock sem) s (free (sem_lock sem)),
    none,
    relock s.locks (sem_lock sem) (free (sem_lock sem)),
  )

  locked : State
  locked = record s { locks = update_key s.locks (sem_lock sem) 1 }

  queues_free : (c : ℕ) → locked.locks (queue_lock c) ≡ 0
  unfolding locked
  queues_free c = free (queue_lock c)

  woken-sem_count : (ps : List Ptr) (t : State) → (woken_all core ps t).sem_count ≡ t.sem_count
  woken-sem_count [] t = refl
  woken-sem_count (p ∷ ps) t = woken-sem_count ps _

  -- The state in which both calls leave the semaphore's queue to its waiters.
  alerted : State
  alerted = woken_all core (s.lists (sem_tasks sem)) locked

  alerted-lists :
      (q : Ptr)
      → (has q (alerted.lists (sem_tasks sem)) ≡ false)
        × (q ∈ s.lists (sem_tasks sem) → InReady q alerted)
  unfolding alerted locked
  alerted-lists q = (
    woken-absent core always (λ p t. t) (λ p t. refl) (λ p t. refl) (λ p t. refl) q (sem_tasks sem)
          (s.lists (sem_tasks sem)) locked (λ c r. refl)
        ∙ ground arith,
    woken-InReady core always (λ p t. t) (λ p t. refl) (λ p t. refl) (λ p t. refl) q
        (s.lists (sem_tasks sem)) locked,
  )

  alerted-locks : alerted.locks ≡ update_key s.locks (sem_lock sem) 1
  unfolding alerted locked
  alerted-locks =
      woken-locks core always (λ p t. t) (λ p t. refl) (λ p t. refl) (s.lists (sem_tasks sem))
        locked

  alerted-sem_count : alerted.sem_count ≡ s.sem_count
  unfolding alerted locked
  alerted-sem_count = woken-sem_count (s.lists (sem_tasks sem)) locked

  alert_lem :
      (nr : ℕ) → nr ≢ 0 → alert_on_locked_nr core (sem_tasks sem) always nr locked ≡ ok tt alerted
  unfolding alerted locked
  alert_lem nr n =
      alert_wakes_all core always (λ p t. t) (λ p t. refl) (λ p t. refl) (sem_tasks sem) nr locked n
        queues_free

  sem_post_wakes :
      (p : Ptr) (ps : List Ptr)
      → s.lists (sem_tasks sem) ≡ p ∷ ps
      → (g : State) × (sem_post core sem s ≡ ok Config.ReturnState.ok g)
        × (g.sem_count ≡ s.sem_count)
        × ((q : Ptr) → has q (g.lists (sem_tasks sem)) ≡ false)
        × ((q : Ptr) → q ∈ p ∷ ps → InReady q g)
        × (g.locks ≡ s.locks)
  unfolding sem_post spin_unlock count_or_alert locked
  sem_post_wakes p ps some = (
    set_ret core 0 (record alerted { locks = update_key alerted.locks (sem_lock sem) 0 }),
    rw (spin_lock-ok (sem_lock sem) s (free (sem_lock sem)), some, alert_lem 1 (omega arith)),
    alerted-sem_count,
    λ q. (alerted-lists q).0,
    λ q m. (alerted-lists q).1 (rw some m),
    rw alerted-locks (relock s.locks (sem_lock sem) (free (sem_lock sem))),
  )

  -- Where no spinlock is held, `sem_post` adds one to the count, modulo 2 ^ 32, if nobody waits for
  -- the semaphore. Otherwise it leaves the count as it is and wakes not one but every process that
  -- waits: the semaphore's queue is empty afterwards, each of them is in a ready queue, and the locks
  -- are as before.
  pub sem_post_lem :
      ((s.lists (sem_tasks sem) ≡ [])
        × (sem_post core sem s
            ≡ ok Config.ReturnState.ok
                (set_ret core 0 (with_count sem (u32 (s.sem_count sem + 1)) s))))
      ⊎ ((s.lists (sem_tasks sem) ≢ [])
          × (g : State) × (sem_post core sem s ≡ ok Config.ReturnState.ok g)
          × (g.sem_count ≡ s.sem_count)
          × ((q : Ptr) → has q (g.lists (sem_tasks sem)) ≡ false)
          × ((q : Ptr) → q ∈ s.lists (sem_tasks sem) → InReady q g)
          × (g.locks ≡ s.locks))
  sem_post_lem = elim (list_cases (s.lists (sem_tasks sem))) [
    | inl none ↦ inl (none, sem_post_counts none)
    | inr (p, ps, some) ↦
        let (g, run, count, gone, there, locks) = sem_post_wakes p ps some in
        inr (
          (λ e. cons-ne-nil p ps (sym some ∙ e)),
          g,
          run,
          count,
          gone,
          (λ q m. there q (rw some at m)),
          locks,
        )
  ]

  -- Where no spinlock is held, `sem_destroy` wakes every process that waits for the semaphore, and never releases the
  -- semaphore's spinlock: in the state that it leaves `sem_wait` and `sem_post` on it spin for ever, on any core.
  pub sem_destroy_locks :
      (g : State) × (sem_destroy core sem s ≡ ok Config.ReturnState.ok g)
      × ((q : Ptr) → has q (g.lists (sem_tasks sem)) ≡ false)
      × ((q : Ptr) → q ∈ s.lists (sem_tasks sem) → InReady q g)
      × (g.locks (sem_lock sem) ≡ 1)
      × ((c : ℕ) → sem_wait c sem g ≡ hang)
      × ((c : ℕ) → sem_post c sem g ≡ hang)
  unfolding sem_destroy sem_wait sem_post alert_on_locked locked
  sem_destroy_locks =
      let held : alerted.locks (sem_lock sem) ≡ 1 =
        ap (λ (f : Lock → ℕ). f (sem_lock sem)) alerted-locks ∙ ground arith in
      (
        set_ret core 0 alerted,
        rw (
          spin_lock-ok (sem_lock sem) s (free (sem_lock sem)),
          alert_lem 4_294_967_295 (omega arith),
        ),
        λ q. (alerted-lists q).0,
        λ q m. (alerted-lists q).1 m,
        held,
        λ c. rw (spin_lock-hang (sem_lock sem) (set_ret core 0 alerted) (ground arith)),
        λ c. rw (spin_lock-hang (sem_lock sem) (set_ret core 0 alerted) (ground arith)),
      )
