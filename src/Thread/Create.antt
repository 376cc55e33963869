-- ===== src/Thread/Create.antt =====
-- `proc_create` of src/c/kernel/thread.c.
pub mod Keep
use rpi_kernel.Base.{
  ◌⊎◌, inl, inr, Bool-cases, ℕ, ◌+◌, ◌≡◌, ◌≢◌, refl, ap, ◌∙◌, true, false, ◌||◌, some, List, [],
  ◌∷◌, ◌==◌, arith, u32, u64, update, update_key, update_self,
}
use rpi_kernel.Config.{ReturnState, Priority, num_cores, pid_hashfn, eagain}
use rpi_kernel.CpuSet.{cpu_zero}
use rpi_kernel.Links.{Ptr, null}
use rpi_kernel.State.{
  Process, State, World, waiting_for, head_key, waiting_lock, newlib_lock, process_list_lock,
  process_hash_lock, lock_key, ok, hang, Unlocked, relock, clear_free, spin_lock-ok, spin_unlock,
  store_word,
}
use rpi_kernel.Sched.{ready}
use rpi_kernel.Sched.Ready.{readied, ready_lem}
use rpi_kernel.Sched.Block.{InReady, readied-InReady}
use rpi_kernel.Semaphore.{set_ret}
use rpi_kernel.Thread.{
  preallocated, set_cores, find_pid, first_frame, frame_address, created, enter_process,
  proc_create,
}

module _ (core p stack pid start arg exit_to : ℕ) (priority : Priority) (affinityset : Ptr) where
  -- The state in which `enter_process` hands the new process to `ready`.
  abbrev pub entered : State → State
  entered s = record s {
    live_procs = u64 (s.live_procs + 1);
    frames = update s.frames (frame_address stack) (first_frame start arg exit_to);
    memory = update s.memory (preallocated p) (set_cores num_cores 0 cpu_zero);
    procs = update s.procs p (created p stack pid arg priority affinityset (s.procs p));
    lists = update_key s.lists (waiting_for p) [];
    process_list = p ∷ s.process_list;
    process_hash = update s.process_hash (pid_hashfn pid) (p ∷ s.process_hash (pid_hashfn pid));
  }

  enter_process_lem :
      (s : State)
      → Unlocked s
      → enter_process core p stack pid start arg exit_to priority affinityset s
        ≡ ready core p (entered s)
  unfolding enter_process spin_unlock
  enter_process_lem s free = rw (
    clear_free s.locks (waiting_lock p) (free (waiting_lock p)),
    spin_lock-ok process_list_lock
        (record (entered s) { process_list = s.process_list; process_hash = s.process_hash })
        (free process_list_lock),
    spin_lock-ok process_hash_lock
        (record (entered s) {
          process_list = s.process_list;
          process_hash = s.process_hash;
          locks = update_key s.locks process_list_lock 1;
        })
        (free process_hash_lock),
    relock (update_key s.locks process_list_lock 1) process_hash_lock (free process_hash_lock),
    relock s.locks process_list_lock (free process_list_lock),
  )

find_pid-first :
    (g : State) (pid : ℕ) (p : Ptr) (ps : List Ptr)
    → (g.procs p).pid ≡ pid
    → find_pid g pid (p ∷ ps) ≡ some p
unfolding find_pid
find_pid-first g pid p ps e = ground arith

module _ (world : World) (core thread start arg : ℕ) (priority : Priority) (affinityset : Ptr)
    (s : State) (free : Unlocked s) where
  proc_create_exhausted_memory :
      ((world.process_block == null) || (world.stack_block == null)) ≡ true
      → proc_create world core thread start arg priority affinityset s ≡ hang
  unfolding proc_create spin_unlock
  proc_create_exhausted_memory e = rw (
    spin_lock-ok newlib_lock s (free newlib_lock),
    relock s.locks newlib_lock (free newlib_lock),
    e,
  )

  proc_create_exhausted_pids :
      ((world.process_block == null) || (world.stack_block == null)) ≡ false
      → u32 (s.next_pid + 1) ≡ 0
      → proc_create world core thread start arg priority affinityset s
        ≡ ok ReturnState.ok (set_ret core eagain (record s { next_pid = 0 }))
  unfolding proc_create spin_unlock
  proc_create_exhausted_pids e z = rw (
    spin_lock-ok newlib_lock s (free newlib_lock),
    relock s.locks newlib_lock (free newlib_lock),
    e,
    z,
  )

  -- The state in which `proc_create` enters the new process.
  abbrev pub begun : State
  begun =
      store_word thread s.next_pid (set_ret core 0 (record s { next_pid = u32 (s.next_pid + 1) }))

  -- The state after a successful `proc_create`.
  abbrev pub made : State
  made = readied core world.process_block (
      entered core world.process_block world.stack_block s.next_pid start arg world.pthread_exit
        priority affinityset begun)

  pub proc_create_lem :
      ((world.process_block == null) || (world.stack_block == null)) ≡ false
      → u32 (s.next_pid + 1) ≢ 0
      → proc_create world core thread start arg priority affinityset s ≡ ok ReturnState.ok made
  unfolding proc_create spin_unlock
  proc_create_lem e nz =
      let more : (u32 (s.next_pid + 1) == 0) ≡ false = ground arith in
      rw (
        spin_lock-ok newlib_lock s (free newlib_lock),
        relock s.locks newlib_lock (free newlib_lock),
        e,
        more,
        enter_process_lem core world.process_block world.stack_block s.next_pid start arg
            world.pthread_exit priority affinityset begun free,
        ready_lem core world.process_block
            (entered core world.process_block world.stack_block s.next_pid start arg
              world.pthread_exit priority affinityset begun)
            (free _),
      )

  made-pid : (made.procs world.process_block).pid ≡ s.next_pid
  made-pid =
      ap (λ (q : Process). q.pid)
        (update_self
          (entered core world.process_block world.stack_block s.next_pid start arg
            world.pthread_exit priority affinityset begun).procs
          world.process_block _)
      ∙ ap (λ (q : Process). q.pid) (update_self begun.procs world.process_block _)

  proc_create_enters :
      ((world.process_block == null) || (world.stack_block == null)) ≡ false
      → u32 (s.next_pid + 1) ≢ 0
      → (g : State) × (proc_create world core thread start arg priority affinityset s
          ≡ ok ReturnState.ok g)
        × (find_pid g s.next_pid (g.process_hash (pid_hashfn s.next_pid))
            ≡ some world.process_block)
        × InReady world.process_block g
        × (g.next_pid ≡ u32 (s.next_pid + 1))
        × (g.live_procs ≡ u64 (s.live_procs + 1))
        × (g.locks ≡ s.locks)
  proc_create_enters e nz = (
    made,
    proc_create_lem e nz,
    ap (find_pid made s.next_pid)
          (update_self s.process_hash (pid_hashfn s.next_pid) (world.process_block ∷ _))
        ∙ find_pid-first made s.next_pid world.process_block _ made-pid,
    readied-InReady core world.process_block _,
    refl,
    refl,
    refl,
  )

  -- Where no spinlock is held, `proc_create` ends in one of three ways. It spins for ever where
  -- `malloc` gives NULL for one of its blocks. It answers EAGAIN, and creates nothing, when the
  -- counter of pids comes round to 0. Otherwise the new process has the pid that the counter stood
  -- at: it is found by it and is in a ready queue, the process is counted, and the locks are as
  -- before.
  pub proc_create_cases :
      ((((world.process_block == null) || (world.stack_block == null)) ≡ true)
        × (proc_create world core thread start arg priority affinityset s ≡ hang))
      ⊎ ((((world.process_block == null) || (world.stack_block == null)) ≡ false)
          × (((u32 (s.next_pid + 1) ≡ 0)
                × (proc_create world core thread start arg priority affinityset s
                    ≡ ok ReturnState.ok (set_ret core eagain (record s { next_pid = 0 }))))
              ⊎ ((u32 (s.next_pid + 1) ≢ 0)
                  × (g : State) × (proc_create world core thread start arg priority affinityset s
                      ≡ ok ReturnState.ok g)
                  × (find_pid g s.next_pid (g.process_hash (pid_hashfn s.next_pid))
                      ≡ some world.process_block)
                  × InReady world.process_block g
                  × (g.next_pid ≡ u32 (s.next_pid + 1))
                  × (g.live_procs ≡ u64 (s.live_procs + 1))
                  × (g.locks ≡ s.locks))))
  proc_create_cases =
      elim (Bool-cases ((world.process_block == null) || (world.stack_block == null))) [
        | inl e ↦ inl (e, proc_create_exhausted_memory e)
        | inr e ↦ inr (
          e,
          elim (Bool-cases (u32 (s.next_pid + 1) == 0)) [
            | inl z ↦
                let zero_pid : u32 (s.next_pid + 1) ≡ 0 = ground arith in
                inl (zero_pid, proc_create_exhausted_pids e zero_pid)
            | inr nz ↦
                let more : u32 (s.next_pid + 1) ≢ 0 = ground arith in
                let (g, run, found, there, pids, live, locks) = proc_create_enters e more in
                inr (more, g, run, found, there, pids, live, locks)
          ],
        )
      ]
