-- ===== src/Kernel/Created.antt =====
-- What a creation by `kernel_start` of src/c/kernel/kinit.c leaves, whose affinity set has one core.
use rpi_kernel.Base.{
  ℕ, ◌+◌, ◌<◌, ◌≤◌, ◌≡◌, ◌≢◌, ap, ◌∙◌, arith, ◌==◌, ◌∈◌, update_self, int_max, subst,
}
use rpi_kernel.Config.{Priority, num_cores}
use rpi_kernel.CpuSet.{cpu_isset}
use rpi_kernel.Links.{Ptr, null}
use rpi_kernel.State.{Process, State, World, ready_at, head_key, Unlocked}
use rpi_kernel.Sched.{affinity, queue_length}
use rpi_kernel.Sched.Ready.{readied, ready_core, ready_head, readied-there}
use rpi_kernel.Sched.Invariant.Pull.{pickcpu_only}
use rpi_kernel.Thread.{preallocated}
use rpi_kernel.Thread.Create.{entered, begun, made}

-- A creation whose affinity set has the core alone: the new process is ready on that core.
module _ (world : World) (core thread start arg : ℕ) (priority : Priority) (set : Ptr) (s : State)
    (free : Unlocked s) (small : core < num_cores) (short : queue_length s core < int_max)
    (some_set : set ≢ null) (only : (c : ℕ) → cpu_isset c (s.memory set) ≡ (c == core))
    (not_thread : set ≢ thread) (not_preallocated : set ≢ preallocated world.process_block) where
  abbrev before_ready : State
  before_ready =
      entered core world.process_block world.stack_block s.next_pid start arg world.pthread_exit
        priority set (begun world core thread start arg priority set s free)

  entered-affinity : affinity before_ready world.process_block ≡ s.memory set
  entered-affinity =
      ap (λ (q : Process). before_ready.memory q.affinityset)
        (update_self (begun world core thread start arg priority set s free).procs
          world.process_block _)
      ∙ ground arith

  entered-core : ready_core core world.process_block before_ready ≡ core
  entered-core =
      pickcpu_only before_ready (affinity before_ready world.process_block) core
        (λ c. ap (cpu_isset c) entered-affinity ∙ only c) small short

  entered-head : ready_head core world.process_block before_ready ≡ ready_at core priority
  entered-head =
      ap (λ c. ready_at c (before_ready.procs world.process_block).current_priority) entered-core
      ∙ ap (λ (q : Process). ready_at core q.current_priority)
          (update_self (begun world core thread start arg priority set s free).procs
            world.process_block _)

  pub made-there :
      world.process_block
      ∈ (made world core thread start arg priority set s free).lists (ready_at core priority)
  made-there =
      subst (λ a. world.process_block ∈ (readied core world.process_block before_ready).lists a)
        entered-head (readied-there core world.process_block before_ready)

  pub made-length :
      queue_length (made world core thread start arg priority set s free) core
      ≤ queue_length s core + 1
  made-length = rw entered-core (ground arith)

module _ (world : World) (core thread start arg : ℕ) (priority : Priority) (set : Ptr) (s : State)
    (free : Unlocked s) where
  pub made-memory :
      (a : Ptr)
      → a ≢ thread
      → a ≢ preallocated world.process_block
      → (made world core thread start arg priority set s free).memory a ≡ s.memory a
  made-memory a n m = ground arith

  pub made-thread :
      thread ≢ preallocated world.process_block
      → (made world core thread start arg priority set s free).memory thread ≡ s.next_pid
  made-thread n = ground arith
