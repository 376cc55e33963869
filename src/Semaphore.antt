-- ===== src/Semaphore.antt =====
-- Semaphores: src/c/kernel/semaphore.c. `core` runs the call, and `current` is the caller.
pub mod Wait
pub mod Post
pub mod Keep
use rpi_kernel.Base.{
  ℕ, ◌+◌, ◌-◌, ◌≡◌, Bool, true, false, List, [], ◌∷◌, ◌==◌, if◌then◌else◌, ltb, lt_int, not, u32,
  pred32, update, update_key,
}
use rpi_kernel.Config.{ReturnState, ok, block, enosys, eagain}
use rpi_kernel.Links.{Ptr}
use rpi_kernel.State.{
  Process, State, Head, sem_tasks, head_key, Lock, lock_key, sem_lock, Cmd, pure, and_then, ◌>>=◌,
  ◌>>◌, modify, gets, spin_lock, spin_unlock, with_proc, store_word,
}
use rpi_kernel.Sched.{current, sleep_on_locked, alert_on_locked, alert_on_locked_nr}

-- `current->ret = value`
abbrev pub set_ret : ℕ → ℕ → State → State
set_ret core value s = with_proc (current core s) (λ q. record q { ret = value }) s

abbrev pub with_count : Ptr → ℕ → State → State
with_count sem count s = record s { sem_count = update s.sem_count sem count }

-- The condition that all callers in the file pass to `alert_on`.
abbrev pub always : Ptr → Cmd Bool
always p = pure true

abbrev pub is_empty : List Ptr → Bool
is_empty [] = true
is_empty (x ∷ xs) = false

unfoldable pub sem_init : ℕ → (sem : Ptr) → (pshared value : ℕ) → Cmd ReturnState
sem_init core sem pshared value =
    if not (pshared == 0) then (do modify (set_ret core enosys); pure ok) else do
      modify (λ s. record s { locks = update_key s.locks (sem_lock sem) 0 })
      modify (with_count sem value)
      modify (λ s. record s { lists = update_key s.lists (sem_tasks sem) [] })
      modify (set_ret core 0)
      pure ok

unfoldable pub sem_destroy : ℕ → (sem : Ptr) → Cmd ReturnState
sem_destroy core sem = do
  spin_lock (sem_lock sem)
  alert_on_locked core (sem_tasks sem) always
  modify (set_ret core 0)
  pure ok

unfoldable pub sem_wait : ℕ → (sem : Ptr) → Cmd ReturnState
sem_wait core sem = do
  spin_lock (sem_lock sem)
  count ← gets (λ s. s.sem_count sem)
  if ltb 0 count
      then (do
        modify (with_count sem (pred32 count))
        spin_unlock (sem_lock sem)
        modify (set_ret core 0)
        pure ok)
      else do
        task ← gets (current core)
        sleep_on_locked (sem_tasks sem) task
        spin_unlock (sem_lock sem)
        modify (set_ret core 0)
        pure block

unfoldable pub keep_if_negative : (sem : Ptr) → ℕ → Cmd (Unit {0})
keep_if_negative sem count = if lt_int count 0 then pure tt else modify (with_count sem count)

-- `count` is an `int`: `sem->count - 1` is negative from 2 ^ 31 + 1 on.
unfoldable pub sem_trywait : ℕ → (sem : Ptr) → Cmd ReturnState
unfolding keep_if_negative
sem_trywait core sem = do
  spin_lock (sem_lock sem)
  count ← gets (λ s. pred32 (s.sem_count sem))
  keep_if_negative sem count
  spin_unlock (sem_lock sem)
  modify (set_ret core (if lt_int count 0 then eagain else 0))
  pure ok

unfoldable pub count_or_alert : ℕ → (sem : Ptr) → List Ptr → Cmd (Unit {0})
count_or_alert core sem waiting =
    if is_empty waiting
    then modify (λ s. with_count sem (u32 (s.sem_count sem + 1)) s)
    else alert_on_locked_nr core (sem_tasks sem) always 1

unfoldable pub sem_post : ℕ → (sem : Ptr) → Cmd ReturnState
unfolding count_or_alert
sem_post core sem = do
  spin_lock (sem_lock sem)
  waiting ← gets (λ s. s.lists (sem_tasks sem))
  count_or_alert core sem waiting
  spin_unlock (sem_lock sem)
  modify (set_ret core 0)
  pure ok

unfoldable pub sem_getvalue : ℕ → (sem sval : Ptr) → Cmd ReturnState
sem_getvalue core sem sval = do
  spin_lock (sem_lock sem)
  modify (λ s. store_word sval (s.sem_count sem) s)
  spin_unlock (sem_lock sem)
  modify (set_ret core 0)
  pure ok
