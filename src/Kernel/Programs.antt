-- ===== src/Kernel/Programs.antt =====
-- The first processes of src/c/kernel/kinit.c that work by system calls: what they ask for, in order, and
-- the tables of work that they fill. `sprintf` only fills the text of a `puts`.
use rpi_kernel.Base.{
  ℕ, zero, suc, ◌+◌, ◌*◌, ◌%◌, ◌≡◌, ◌∙◌, refl, List, [], ◌∷◌, ◌++◌, ◌==◌, ◌&&◌, if◌then◌else◌, leb,
  ltb, update, arith,
}
use rpi_kernel.Links.{Ptr, null}
use rpi_kernel.Syscall.{
  Api, puts, pthread_create, pthread_join, pthread_self, sched_setaffinity, sem_init,
}

abbrev pub perf_samples : ℕ
perf_samples = 4

abbrev pub low_runtime : ℕ
low_runtime = 100

abbrev pub med_runtime : ℕ
med_runtime = 1000

abbrev pub big_runtime : ℕ
big_runtime = 10_000

-- `runtime_work_t`
pub record RuntimeWork : Type 0 where
  pub runtime : ℕ
  pub id : ℕ

abbrev pub entry : (runtime index : ℕ) → RuntimeWork
entry runtime index = record { runtime = runtime; id = index % perf_samples }

-- The loop of `perf_runtime` that fills the table, with `left` rounds to go.
unfoldable pub runtime_table : (left i : ℕ) → (ℕ → RuntimeWork) → ℕ → RuntimeWork
runtime_table zero i work = work
runtime_table (suc left) i work =
    let first = update work (i * 3 + 0) (entry low_runtime (i * 3 + 0)) in
    let second = update first (i * 3 + 1) (entry med_runtime (i * 3 + 1)) in
    runtime_table left (suc i) (update second (i * 3 + 2) (entry big_runtime (i * 3 + 2)))

-- The same of `perf_death`.
unfoldable pub death_table : (left i : ℕ) → (ℕ → RuntimeWork) → ℕ → RuntimeWork
death_table zero i work = work
death_table (suc left) i work =
    let first = update work (i * 5 + 0) (entry big_runtime (i * 5 + 0)) in
    let second = update first (i * 5 + 1) (entry low_runtime (i * 5 + 1)) in
    let third = update second (i * 5 + 2) (entry low_runtime (i * 5 + 2)) in
    let fourth = update third (i * 5 + 3) (entry low_runtime (i * 5 + 3)) in
    death_table left (suc i) (update fourth (i * 5 + 4) (entry low_runtime (i * 5 + 4)))

runtime_filled :
    (left i : ℕ) (work : ℕ → RuntimeWork) (k : ℕ)
    → runtime_table left i work k ≡ (
        if leb (i * 3) k && ltb k ((i + left) * 3)
        then entry
            (if k % 3 == 0 then low_runtime else if k % 3 == 1 then med_runtime else big_runtime)
            k
        else work k)
unfolding runtime_table
runtime_filled zero i work k = ground arith
runtime_filled (suc left) i work k = runtime_filled left (suc i) _ k ∙ ground arith

death_filled :
    (left i : ℕ) (work : ℕ → RuntimeWork) (k : ℕ)
    → death_table left i work k ≡ (
        if leb (i * 5) k && ltb k ((i + left) * 5)
        then entry (if k % 5 == 0 then big_runtime else low_runtime) k
        else work k)
unfolding death_table
death_filled zero i work k = ground arith
death_filled (suc left) i work k = death_filled left (suc i) _ k ∙ ground arith

-- Where the arrays of a process and the functions stand, the texts that it prints, and the pids that
-- the kernel leaves in `threads`.
pub record Places : Type 0 where
  pub threads : ℕ → Ptr
  pub work : ℕ → Ptr
  pub created : ℕ → ℕ
  pub runtime_task : Ptr
  pub text : ℕ → Ptr

module _ (at : Places) where
  abbrev create : (i : ℕ) → Api
  create i = pthread_create (at.threads i) null at.runtime_task (at.work i)

  creations : (left i : ℕ) → List Api
  creations zero i = []
  creations (suc left) i = create i ∷ creations left (suc i)

  joins : (left i : ℕ) → List Api
  joins zero i = []
  joins (suc left) i = puts (at.text i) ∷ pthread_join (at.created i) null ∷ joins left (suc i)

  -- The calls of `perf_runtime`.
  perf_runtime : List Api
  unfolding creations joins
  perf_runtime = puts (at.text 60) ∷ (creations 60 0 ++ joins 60 0)

  -- The loop of `perf_death` that creates five processes in a round.
  creations_by_five : (left i : ℕ) → List Api
  creations_by_five zero i = []
  creations_by_five (suc left) i =
      create (i * 5 + 0)
      ∷ create (i * 5 + 1)
      ∷ create (i * 5 + 2)
      ∷ create (i * 5 + 3)
      ∷ create (i * 5 + 4)
      ∷ creations_by_five left (suc i)

  -- The calls of `perf_death`.
  perf_death : List Api
  unfolding creations_by_five joins
  perf_death = puts (at.text 61) ∷ (creations_by_five 12 0 ++ joins 60 0)

  -- The processes are created in the order of the table.
  creations_by_five_lem : creations_by_five 12 0 ≡ creations 60 0
  unfolding creations_by_five creations
  creations_by_five_lem = refl

-- The calls of `perf_root` up to its endless loop of `sched_yield`.
unfoldable pub perf_root :
    (core : ℕ) → (thread_id perf_thread_pool begin death : Ptr) → (created : ℕ) → List Api
perf_root core thread_id perf_thread_pool begin death created =
    if core == 0
    then (puts begin
        ∷ pthread_create thread_id null perf_thread_pool null
        ∷ pthread_join created null
        ∷ puts death
        ∷ [])
    else []

-- The calls of `root_proc` and `sleep_proc`.
unfoldable pub root_proc :
    (core : ℕ)
    → (psem thread_id sleep_proc yield_proc join_status : Ptr) → (text : ℕ → Ptr) → (created : ℕ)
    → List Api
root_proc core psem thread_id sleep_proc yield_proc join_status text created =
    if core == 0
    then (pthread_self
        ∷ sem_init psem 0 1
        ∷ pthread_create thread_id null sleep_proc null
        ∷ puts (text 0)
        ∷ puts (text 1)
        ∷ pthread_join created join_status
        ∷ puts (text 2)
        ∷ [])
    else (pthread_self
        ∷ pthread_create thread_id null yield_proc null
        ∷ pthread_join created join_status
        ∷ [])

unfoldable pub sleep_proc : (affinity_set : Ptr) → (text : ℕ → Ptr) → List Api
sleep_proc affinity_set text =
    sched_setaffinity 0 4 affinity_set ∷ pthread_self ∷ puts (text 0) ∷ puts (text 1) ∷ []
