-- ===== src/Pool.antt =====
-- The pool of workers of src/c/kernel/kinit.c: `perf_thread_pool`, which fills a queue of work and creates
-- workers, and `pooled_worker`, which takes the work from it, as a step relation of all their processes.
pub mod Account
pub mod Reach
pub mod Drain
pub mod Abandon
use rpi_kernel.Base.{
  ℕ, zero, suc, ◌+◌, ◌<◌, ◌≤◌, ◌≡◌, Bool, true, false, List, [], ◌∷◌, ◌++◌, ◌==◌, if◌then◌else◌,
  update, ltb,
}

abbrev pub num_threads : ℕ
num_threads = 64

abbrev pub num_workers : ℕ
num_workers = 16

-- Where a `pooled_worker` stands: not created yet, before the lock, with the lock, behind the test of the
-- empty queue, at work on an item, or returned.
pub data Worker : Type 0 where
  unborn : Worker
  before_lock : Worker
  locked : Worker
  saw_empty : Worker
  working : (item : ℕ) → Worker
  returned : Worker

-- Where `perf_thread_pool` stands: before the lock or with it in round `i` of its loop, or behind
-- `finished = true`, where it joins the workers.
pub data Filler : Type 0 where
  before_round : (i : ℕ) → Filler
  in_round : (i : ℕ) → Filler
  joining : Filler

-- `work_queue` and its users. Items are named by their round; `done` are those whose rounds of
-- `scalar_multiply` are over, in this order.
pub record Pool : Type 0 where
  pub lock : ℕ
  pub queue : List ℕ
  pub finished : Bool
  pub filler : Filler
  pub worker : ℕ → Worker
  pub done : List ℕ

abbrev pub initial : Pool
initial = record {
  lock = 0;
  queue = [];
  finished = false;
  filler = before_round 0;
  worker = λ w. unborn;
  done = [];
}

-- What the end of round `i` leaves: the item is linked to the tail, and one of the first `workers`
-- rounds creates a worker.
abbrev pub filled : (workers i : ℕ) → Pool → Pool
filled workers i s = record s {
  lock = 0;
  queue = s.queue ++ i ∷ [];
  worker = if ltb i workers then update s.worker i before_lock else s.worker;
  filler = before_round (suc i);
}

-- One step of one process, between two of which any other may take its own. `threads` and `workers` are
-- NUM_THREADS and NUM_WORKERS.
pub data Turn (threads workers : ℕ) : Pool → Pool → Type 0 where
  worker_locks :
      (s : Pool) (w : ℕ)
      → s.worker w ≡ before_lock
      → s.lock ≡ 0
      → Turn threads workers s (record s { lock = 1; worker = update s.worker w locked })
  worker_sees_empty :
      (s : Pool) (w : ℕ)
      → s.worker w ≡ locked
      → s.queue ≡ []
      → Turn threads workers s (record s { lock = 0; worker = update s.worker w saw_empty })
  worker_takes :
      (s : Pool) (w x : ℕ) (rest : List ℕ)
      → s.worker w ≡ locked
      → s.queue ≡ x ∷ rest
      → Turn threads workers s
          (record s { lock = 0; queue = rest; worker = update s.worker w (working x) })
  worker_multiplies :
      (s : Pool) (w x : ℕ)
      → s.worker w ≡ working x
      → Turn threads workers s
          (record s { worker = update s.worker w before_lock; done = s.done ++ x ∷ [] })
  worker_returns :
      (s : Pool) (w : ℕ)
      → s.worker w ≡ saw_empty
      → s.finished ≡ true
      → Turn threads workers s (record s { worker = update s.worker w returned })
  worker_retries :
      (s : Pool) (w : ℕ)
      → s.worker w ≡ saw_empty
      → s.finished ≡ false
      → Turn threads workers s (record s { worker = update s.worker w before_lock })
  filler_locks :
      (s : Pool) (i : ℕ)
      → s.filler ≡ before_round i
      → i < threads
      → s.lock ≡ 0
      → Turn threads workers s (record s { lock = 1; filler = in_round i })
  filler_fills :
      (s : Pool) (i : ℕ) → s.filler ≡ in_round i → Turn threads workers s (filled workers i s)
  filler_finishes :
      (s : Pool) (i : ℕ)
      → s.filler ≡ before_round i
      → threads ≤ i
      → Turn threads workers s (record s { finished = true; filler = joining })

pub data Turns (threads workers : ℕ) : Pool → Pool → Type 0 where
  stop : (s : Pool) → Turns threads workers s s
  step :
      (s t u : Pool)
      → Turns threads workers s t
      → Turn threads workers t u
      → Turns threads workers s u
