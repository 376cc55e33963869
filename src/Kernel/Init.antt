-- ===== src/Kernel/Init.antt =====
-- `proc_init` of src/c/kernel/thread.c and `disp_init` of src/c/kernel/dispatch.c.
use rpi_kernel.Base.{
  Bool-cases, inl, inr, zero, suc, ℕ, ◌+◌, ◌≤◌, ◌<◌, ◌≡◌, refl, ap, ◌∙◌, List, [], arith, ◌==◌, has,
}
use rpi_kernel.Config.{idle, low, med, high, num_cores, pidhash_size}
use rpi_kernel.Links.{Ptr, null}
use rpi_kernel.State.{
  RunQueue, State, Head, ready_at, waiting_for, sem_tasks, sleeping_on, head_key,
}
use rpi_kernel.Sched.{queue_length}
use rpi_kernel.Dispatch.Sound.{IsSound}
use rpi_kernel.Kernel.{init_buckets, proc_init, disp_init}

-- The heads that `disp_init` does not initialise.
abbrev pub IsOutside : Head → Type 0
IsOutside (ready_at c r) = num_cores ≤ c
IsOutside _ = Unit

buckets-kept :
    (left b k : ℕ) (s : State) → s.process_hash k ≡ [] → (init_buckets left b s).process_hash k ≡ []
buckets-kept zero b k s e = e
buckets-kept (suc left) b k s e = buckets-kept left (suc b) k _ (ground (arith, e))

buckets-empty :
    (left b k : ℕ) (s : State) → b ≤ k → k < b + left → (init_buckets left b s).process_hash k ≡ []
buckets-empty zero b k s lo hi = absurd (omega arith)
buckets-empty (suc left) b k s lo hi = elim (Bool-cases (k == b)) [
  | inl e ↦ buckets-kept left (suc b) k _ (rw e)
  | inr n ↦ buckets-empty left (suc b) k _ (ground arith) (omega arith)
]

buckets-lists : (left b : ℕ) (s : State) → (init_buckets left b s).lists ≡ s.lists
buckets-lists zero b s = refl
buckets-lists (suc left) b s = buckets-lists left (suc b) _

buckets-running : (left b : ℕ) (s : State) → (init_buckets left b s).running ≡ s.running
buckets-running zero b s = refl
buckets-running (suc left) b s = buckets-running left (suc b) _

buckets-queues : (left b : ℕ) (s : State) → (init_buckets left b s).queues ≡ s.queues
buckets-queues zero b s = refl
buckets-queues (suc left) b s = buckets-queues left (suc b) _

disp_init-empty :
    (s : State)
    → ((a : Head) → IsOutside a → s.lists a ≡ [])
    → (a : Head) → (disp_init s).lists a ≡ []
disp_init-empty s out (ready_at c idle) = ground (arith, out (ready_at c idle))
disp_init-empty s out (ready_at c low) = ground (arith, out (ready_at c low))
disp_init-empty s out (ready_at c med) = ground (arith, out (ready_at c med))
disp_init-empty s out (ready_at c high) = ground (arith, out (ready_at c high))
disp_init-empty s out (sem_tasks sem) = out _ tt
disp_init-empty s out (waiting_for q) = out _ tt
disp_init-empty s out (sleeping_on c) = out _ tt

-- Whatever stood in the tables of processes, in the ready queues and in no other list, and where no core
-- runs a process and the lengths are 0, as they are when the kernel is loaded: after `proc_init` and
-- `disp_init` the queues and the running processes are sound, and every list and bucket is empty.
pub init-IsSound :
    (s : State)
    → ((a : Head) → IsOutside a → s.lists a ≡ [])
    → ((c : ℕ) → s.running c ≡ null)
    → ((c : ℕ) → queue_length s c ≡ 0)
    → IsSound (disp_init (proc_init s))
      × ((a : Head) → (disp_init (proc_init s)).lists a ≡ [])
      × ((b : ℕ) → b < pidhash_size → (disp_init (proc_init s)).process_hash b ≡ [])
init-IsSound s out idle_cores lengths =
    let t = record s { process_list = [] } in
    let all_empty =
      disp_init-empty (proc_init s)
        (λ a o. ap (λ (f : Head → List Ptr). f a) (buckets-lists pidhash_size 0 t) ∙ out a o) in
    let runs : (c : ℕ) → (disp_init (proc_init s)).running c ≡ null =
      λ c. ap (λ (f : ℕ → Ptr). f c) (buckets-running pidhash_size 0 t) ∙ idle_cores c in
    (
      record {
        queued = record {
          partition = record {
            once = λ p a b m n. let e = ap (has p) (all_empty a) in absurd (ground arith);
            distinct = λ a. rw (all_empty a) tt;
          };
          counted = λ c.
              ap (λ (f : ℕ → RunQueue). (f c).length) (buckets-queues pidhash_size 0 t)
              ∙ (lengths c
                  ∙ rw
                      (
                        all_empty (ready_at c idle),
                        all_empty (ready_at c low),
                        all_empty (ready_at c med),
                        all_empty (ready_at c high),
                      )
                      refl);
        };
        off_lists = λ c small pos. absurd (pos (runs c));
        alone = λ c d small small' pos same. absurd (pos (runs c));
      },
      all_empty,
      λ b small. buckets-empty pidhash_size 0 b t (omega arith) small,
    )
