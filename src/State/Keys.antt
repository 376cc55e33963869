-- ===== src/State/Keys.antt =====
-- The list heads that a `sched_list` entry can be linked to, and the spinlocks.
use rpi_kernel.Base.{ℕ, ◌≡◌, Bool, true, false, ◌&&◌, ◌==◌, ◌↔◌, Key, arith}
use rpi_kernel.Config.{Priority, same_priority}
use rpi_kernel.Links.{Ptr}

-- `ready_queue[core].tasks[priority]`, `p->waiting.tasks`, `sem->tasks`, `sleep_queue[core]`
pub data Head : Type 0 where
  ready_at : ℕ → Priority → Head
  waiting_for : Ptr → Head
  sem_tasks : Ptr → Head
  sleeping_on : ℕ → Head

-- `ready_queue[core].lock`, `p->waiting.lock`, `sem->lock` and the three globals
pub data Lock : Type 0 where
  queue_lock : ℕ → Lock
  waiting_lock : Ptr → Lock
  sem_lock : Ptr → Lock
  newlib_lock process_list_lock process_hash_lock : Lock

abbrev pub same_head : Head → Head → Bool
same_head (ready_at c p) (ready_at d q) = (c == d) && same_priority p q
same_head (waiting_for p) (waiting_for q) = p == q
same_head (sem_tasks p) (sem_tasks q) = p == q
same_head (sleeping_on c) (sleeping_on d) = c == d
same_head _ _ = false

abbrev pub same_lock : Lock → Lock → Bool
same_lock (queue_lock c) (queue_lock d) = c == d
same_lock (waiting_lock p) (waiting_lock q) = p == q
same_lock (sem_lock p) (sem_lock q) = p == q
same_lock newlib_lock newlib_lock = true
same_lock process_list_lock process_list_lock = true
same_lock process_hash_lock process_hash_lock = true
same_lock _ _ = false

pub same_head_iff : (a b : Head) → (same_head a b ≡ true) ↔ (a ≡ b)
same_head_iff a b = ground arith

pub same_lock_iff : (a b : Lock) → (same_lock a b ≡ true) ↔ (a ≡ b)
same_lock_iff a b = ground arith

instance abbrev pub head_key : Key Head
head_key = record { same = same_head; same_iff = same_head_iff }

instance abbrev pub lock_key : Key Lock
lock_key = record { same = same_lock; same_iff = same_lock_iff }
