-- ===== src/Thread/Table.antt =====
-- Creating, finding, joining and ending a process: src/c/kernel/thread.c.
pub mod Keep
use rpi_kernel.Base.{
  ◌⊎◌, ℕ, ◌-◌, ◌%◌, ◌^◌, ◌≡◌, ◌≢◌, refl, ap, true, false, Option, none, some, List, [], ◌∷◌, ◌==◌,
  arith, ◌∈◌, bit_and, Bool-cases, inl, inr, ==_iff, ◌/◌,
}
use rpi_kernel.Base.Bits.{bit_and-halve, bit_and-ones, ones}
use rpi_kernel.Config.{ReturnState, block, pid_hashfn, einval}
use rpi_kernel.Links.{Ptr}
use rpi_kernel.State.{
  State, waiting_for, head_key, waiting_lock, process_hash_lock, lock_key, ok, Unlocked, relock,
  spin_lock-ok, spin_unlock, with_proc,
}
use rpi_kernel.Sched.{current}
use rpi_kernel.Sched.Block.{asleep, sleep_on_lem}
use rpi_kernel.Semaphore.{set_ret}
use rpi_kernel.Thread.{align, find_pid, get_process, proc_join, join_found}

-- `align` to 16 rounds an address below 2 ^ 32 down to a multiple of 16; of a larger address it
-- drops the upper half.
pub align_sixteen : (a : ℕ) → align a 16 ≡ a % 2 ^ 32 - a % 16
unfolding align ones
align_sixteen a =
    let quarter : bit_and (a / 2 / 2 / 2 / 2) 268_435_455 ≡ (a / 2 / 2 / 2 / 2) % 2 ^ 28 =
      bit_and-ones 28 (a / 2 / 2 / 2 / 2) in
    omega (
      arith,
      bit_and-halve a 4_294_967_280,
      bit_and-halve (a / 2) 2_147_483_640,
      bit_and-halve (a / 2 / 2) 1_073_741_820,
      bit_and-halve (a / 2 / 2 / 2) 536_870_910,
      quarter,
    )

-- What the look-up finds is in the bucket and has the pid.
pub find_pid-some :
    (s : State) (pid : ℕ) (ps : List Ptr) (p : Ptr)
    → find_pid s pid ps ≡ some p
    → (p ∈ ps) × ((s.procs p).pid ≡ pid)
unfolding find_pid
find_pid-some s pid [] p e = cc
find_pid-some s pid (x ∷ ps) p e = elim (Bool-cases ((s.procs x).pid == pid)) [
  | inl hit ↦ ground arith
  | inr miss ↦ ground (arith, find_pid-some s pid ps p)
]

-- Where the look-up finds nothing, no process of the bucket has the pid.
pub find_pid-none :
    (s : State) (pid : ℕ) (ps : List Ptr)
    → find_pid s pid ps ≡ none
    → (p : Ptr) → p ∈ ps
    → (s.procs p).pid ≢ pid
unfolding find_pid
find_pid-none s pid [] e p m = ground arith
find_pid-none s pid (x ∷ ps) e p m = elim (Bool-cases ((s.procs x).pid == pid)) [
  | inl hit ↦ ground arith
  | inr miss ↦ elim (Bool-cases (p == x)) [
    | inl here ↦ ground (arith, ap (λ q. (s.procs q).pid) ((==_iff p x).0 here))
    | inr there ↦ find_pid-none s pid ps (ground arith) p (ground arith)
  ]
]

option_cases {ℓ} : {A : Type ℓ} (x : Option A) → (x ≡ none) ⊎ ((a : A) × (x ≡ some a))
option_cases none = inl refl
option_cases (some a) = inr (a, refl)

get_process_lem :
    (s : State) (pid : ℕ)
    → s.locks process_hash_lock ≡ 0
    → get_process pid s ≡ ok (find_pid s pid (s.process_hash (pid_hashfn pid))) s
unfolding get_process spin_unlock
get_process_lem s pid free =
    rw (spin_lock-ok process_hash_lock s free, relock s.locks process_hash_lock free)

module _ (core pid : ℕ) (status : Ptr) (s : State) (free : s.locks process_hash_lock ≡ 0) where
  proc_join_unknown :
      find_pid s pid (s.process_hash (pid_hashfn pid)) ≡ none
      → proc_join core pid status s ≡ ok ReturnState.ok (set_ret core einval s)
  unfolding proc_join join_found
  proc_join_unknown e = rw (get_process_lem s pid free, e)

  proc_join_self :
      (p : Ptr)
      → find_pid s pid (s.process_hash (pid_hashfn pid)) ≡ some p
      → (s.procs (current core s)).pid ≡ pid
      → proc_join core pid status s ≡ ok ReturnState.ok (set_ret core einval s)
  unfolding proc_join join_found
  proc_join_self p e mine =
      let found = find_pid-some s pid (s.process_hash (pid_hashfn pid)) p e in
      let test : ((s.procs (current core s)).pid == (s.procs p).pid) ≡ true = ground arith in
      rw (get_process_lem s pid free, e, test) (ground arith)

  proc_join_zero :
      (p : Ptr)
      → find_pid s pid (s.process_hash (pid_hashfn pid)) ≡ some p
      → pid ≡ 0
      → proc_join core pid status s ≡ ok ReturnState.ok (set_ret core einval s)
  unfolding proc_join join_found
  proc_join_zero p e z =
      let test : (pid == 0) ≡ true = ground arith in
      rw (get_process_lem s pid free, e, test) (ground arith)

  proc_join_blocks :
      (p : Ptr)
      → find_pid s pid (s.process_hash (pid_hashfn pid)) ≡ some p
      → pid ≢ 0
      → (s.procs (current core s)).pid ≢ pid
      → s.locks (waiting_lock p) ≡ 0
      → proc_join core pid status s
        ≡ ok block (
            asleep
              (waiting_for p)
              (current core s)
              (with_proc (current core s) (λ q. record q { status = status }) s))
  unfolding proc_join join_found
  proc_join_blocks p e pos other open_lock =
      let found = find_pid-some s pid (s.process_hash (pid_hashfn pid)) p e in
      let test : ((s.procs (current core s)).pid == (s.procs p).pid) ≡ false = ground arith in
      let test' : (pid == 0) ≡ false = ground arith in
      rw (
        get_process_lem s pid free,
        e,
        test,
        test',
        sleep_on_lem (waiting_for p) (current core s) (waiting_lock p)
            (with_proc (current core s) (λ q. record q { status = status }) s) open_lock,
      )

  -- Where no spinlock is held, `proc_join` answers EINVAL and blocks nobody if no process of the
  -- table has the pid, if the pid is the caller's own, or if it is 0. Otherwise it blocks the caller:
  -- it is linked to the end of the queue of the process with the pid and taken out of every other
  -- list, and the address for the exit status is kept.
  pub proc_join_lem :
      Unlocked s
      → ((find_pid s pid (s.process_hash (pid_hashfn pid)) ≡ none)
          × (proc_join core pid status s ≡ ok ReturnState.ok (set_ret core einval s)))
        ⊎ ((p : Ptr) × (find_pid s pid (s.process_hash (pid_hashfn pid)) ≡ some p)
            × ((((pid ≡ 0) ⊎ ((s.procs (current core s)).pid ≡ pid))
                  × (proc_join core pid status s ≡ ok ReturnState.ok (set_ret core einval s)))
                ⊎ ((pid ≢ 0)
                    × ((s.procs (current core s)).pid ≢ pid)
                    × (proc_join core pid status s
                        ≡ ok block (
                            asleep (waiting_for p) (current core s) (
                              with_proc (current core s) (λ q. record q { status = status }) s))))))
  proc_join_lem unlocked = elim (option_cases (find_pid s pid (s.process_hash (pid_hashfn pid)))) [
    | inl e ↦ inl (e, proc_join_unknown e)
    | inr (p, e) ↦ inr (
      p,
      e,
      elim (Bool-cases (pid == 0)) [
        | inl z ↦ inl (inl (ground arith), proc_join_zero p e (ground arith))
        | inr nz ↦ elim (Bool-cases ((s.procs (current core s)).pid == pid)) [
          | inl mine ↦ inl (inr (ground arith), proc_join_self p e (ground arith))
          | inr other ↦ inr (
            ground arith,
            ground arith,
            proc_join_blocks p e (ground arith) (ground arith) (unlocked _),
          )
        ]
      ],
    )
  ]
