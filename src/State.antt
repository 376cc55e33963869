-- ===== src/State.antt =====
-- The kernel's shared state, and commands on it: `process_t` and the CPU sets of
-- src/c/kernel/include/context.h, `ready_queue_t` of dispatch.h, `sem_t` of semaphore.h, the
-- globals of thread.c, dispatch.c and kinit.c, and the spinlocks of src/c/multicore.c.
pub mod Keys
pub use Keys.*
use rpi_kernel.Base.{
  ◌∙◌, ap, sym, ==_iff, ℕ, ◌+◌, ◌≡◌, ◌≢◌, refl, Bool, true, false, Option, none, some, List, [],
  ◌∷◌, ◌==◌, arith, if◌then◌else◌, update, update_key, Key, same, eq_of_same, fun_ext, remove,
  Bool-cases, inl, inr, ◌++◌,
}
use rpi_kernel.Config.{Priority, ProcessState}
use rpi_kernel.Links.{Ptr}

-- `aarch64_frame_t`
pub record Frame : Type 0 where
  pub spsr : ℕ
  pub elr : ℕ
  pub reg : ℕ → ℕ

-- `process_t` but for the links, which are the lists of the state. `status` is NULL if it is 0.
pub record Process : Type 0 where
  pub pid : ℕ
  pub ret : ℕ
  pub status : Ptr
  pub trace : Bool
  pub affinityset : Ptr
  pub state : ProcessState
  pub initial_priority : Priority
  pub current_priority : Priority
  pub stack_size : ℕ
  pub stack_base : Ptr
  pub frame : Ptr
  pub pending_signal : ℕ
  pub blocked_signal : ℕ
  pub perf_count : ℕ → ℕ → ℕ → ℕ
  pub tick_count : ℕ
  pub tick_delta : ℕ
  pub blocked_on : Head

-- `ready_queue_t` but for its lock and its lists.
pub record RunQueue : Type 0 where
  pub ticks_to_balance : ℕ
  pub length : ℕ

-- A process is named by its address. `lists` gives for each list head what is linked to it by
-- `sched_list`, in order; `memory` the words that user pointers and CPU set pointers point to;
-- `locks` the flag of each spinlock.
pub record State : Type 0 where
  pub procs : Ptr → Process
  pub lists : Head → List Ptr
  pub process_list : List Ptr
  pub process_hash : ℕ → List Ptr
  pub queues : ℕ → RunQueue
  pub sem_count : Ptr → ℕ
  pub running : ℕ → Ptr
  pub next_pid : ℕ
  pub live_procs : ℕ
  pub locks : Lock → ℕ
  pub memory : Ptr → ℕ
  pub frames : Ptr → Frame
  pub sp : ℕ → Ptr
  pub timer : ℕ → ℕ

-- What a core does: it returns, it spins for ever, or it follows NULL.
pub data Run (A : Type 0) : Type 0 where
  ok : A → State → Run A
  hang : Run A
  fault : Run A

abbrev pub Cmd : Type 0 → Type 0
Cmd A = State → Run A

abbrev pub pure : {A : Type 0} → A → Cmd A
pure = ok

module _ {A B : Type 0} where
  abbrev pub and_then : Run A → (A → Cmd B) → Run B
  and_then (ok a s) k = k a s
  and_then hang k = hang
  and_then fault k = fault

  infixl 5 ◌>>=◌ ◌>>◌
  abbrev pub ◌>>=◌ : Cmd A → (A → Cmd B) → Cmd B
  m >>= k = λ s. and_then (m s) k

  abbrev pub ◌>>◌ : Cmd A → Cmd B → Cmd B
  m >> n = m >>= λ _. n

abbrev pub modify : (State → State) → Cmd (Unit {0})
modify f s = ok tt (f s)

abbrev pub gets : {A : Type 0} → (State → A) → Cmd A
gets f s = ok (f s) s

-- `while (__sync_lock_test_and_set(&lock->flag, 1));` as one core sees it while the others leave the
-- lock alone: a flag that is set stays set.
unfoldable pub spin_lock : Lock → Cmd (Unit {0})
spin_lock l s = if s.locks l == 0 then ok tt (record s { locks = update_key s.locks l 1 }) else hang

unfoldable pub spin_unlock : Lock → Cmd (Unit {0})
spin_unlock l = modify λ s. record s { locks = update_key s.locks l 0 }

abbrev pub with_proc : Ptr → (Process → Process) → State → State
with_proc p f s = record s { procs = update s.procs p (f (s.procs p)) }

-- `list_del_init(&p->sched_list)`
abbrev pub del_sched : Ptr → State → State
del_sched p s = record s { lists = λ hd. remove p (s.lists hd) }

-- `list_add_tail(&p->sched_list, head)`
abbrev pub add_tail_sched : Ptr → Head → State → State
add_tail_sched p hd s = record s { lists = update_key s.lists hd (s.lists hd ++ p ∷ []) }

abbrev pub with_length : ℕ → (ℕ → ℕ) → State → State
with_length core f s = record s {
  queues = update s.queues core (record (s.queues core) { length = f (s.queues core).length });
}

-- `*address = word`
abbrev pub store_word : Ptr → ℕ → State → State
store_word address word s = record s { memory = update s.memory address word }

-- No spinlock is held.
abbrev pub Unlocked : State → Type 0
Unlocked s = (l : Lock) → s.locks l ≡ 0

-- A lock that was free is free again after it was taken and released.
pub relock : (f : Lock → ℕ) (l : Lock) → f l ≡ 0 → update_key (update_key f l 1) l 0 ≡ f
relock f l free =
    fun_ext
      λ j. elim (Bool-cases (same j l)) [ inl e ↦ rw (e, eq_of_same j l e, free) | inr d ↦ rw d ]

pub spin_lock-ok :
    (l : Lock) (s : State)
    → s.locks l ≡ 0
    → spin_lock l s ≡ ok tt (record s { locks = update_key s.locks l 1 })
unfolding spin_lock
spin_lock-ok l s free = rw free

pub spin_lock-hang : (l : Lock) (s : State) → s.locks l ≢ 0 → spin_lock l s ≡ hang
unfolding spin_lock
spin_lock-hang l s held = ground arith

-- A change to a process that keeps one of its fields.
pub with_proc-keeps {ℓ} :
    {A : Type ℓ} (field : Process → A) (p : Ptr) (f : Process → Process) (s : State) (x : Ptr)
    → ((q : Process) → field (f q) ≡ field q)
    → field ((with_proc p f s).procs x) ≡ field (s.procs x)
with_proc-keeps field p f s x kept = elim (Bool-cases (x == p)) [
  | inl e ↦ rw e (kept (s.procs p) ∙ ap (λ (y : Ptr). field (s.procs y)) (sym ((==_iff x p).0 e)))
  | inr d ↦ rw d refl
]

-- What lies outside the C sources and answers the kernel within one interrupt: the blocks that
-- `malloc` returns (NULL is 0), what `printf` returns, the processor's event counters as they are
-- read on entry and on exit, the address of the CPU set on the stack of `sched_pull`, and that of
-- `pthread_exit` in the image.
pub record World : Type 0 where
  pub process_block : Ptr
  pub stack_block : Ptr
  pub heap_block : Ptr
  pub printed : ℕ
  pub entry_counter : ℕ → ℕ
  pub exit_counter : ℕ → ℕ
  pub pull_set : Ptr
  pub pthread_exit : Ptr

-- Writing 0 to a lock that is free changes nothing.
pub clear_free : (f : Lock → ℕ) (l : Lock) → f l ≡ 0 → update_key f l 0 ≡ f
clear_free f l free =
    fun_ext
      λ j. elim (Bool-cases (same j l)) [ inl e ↦ rw (e, eq_of_same j l e, free) | inr d ↦ rw d ]
