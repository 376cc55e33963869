-- ===== src/Lib.antt =====
-- The kernel of rpi_kernel: a preemptive kernel for the four cores of a Raspberry Pi 3, in C.
--
-- A core enters the kernel by a timer interrupt or a system call. `common_interrupt` saves the frame
-- of the process that ran, does what the request asks, and picks the process that runs next: the same
-- one (OK), the best of the core's ready queue after the old one was queued again (SCHED), or the best
-- without it (BLOCK, EXIT). Each core has a ready queue with a list for each of four priorities; a
-- process carries the set of the cores that it may run on. Semaphores and joins are wait queues:
-- `sleep_on` links the caller to one, `alert_on` moves its processes back to the ready queues. All
-- queues are circular lists threaded through the processes.
--
-- The parts, and the sources they follow:
--   Links     src/c/kernel/include/list.h: the circular lists, in a memory of links. Links/Chain,
--             Links/Ring and Links/Family say what a list and a family of disjoint lists are.
--   Config    src/c/kernel/include/config.h: constants and enumerations.
--   CpuSet    the CPU sets of src/c/kernel/context.c.
--   State     the shared state (context.h, dispatch.h, semaphore.h and the globals of the .c files), the
--             commands on it, and the spinlocks of src/c/multicore.c.
--   Sched     src/c/kernel/dispatch.c but for the handler: ready, next, sched_pickcpu and its two
--             helpers, sched_pull, sleep_on, alert_on. Sched/Pick, Sched/Ready, Sched/Enqueue,
--             Sched/Next and Sched/Block hold what is known of each, Sched/Invariant what holds of all
--             queues between the calls.
--   Semaphore src/c/kernel/semaphore.c: sem_init to sem_getvalue stand for __sem_init to
--             __sem_getvalue.
--   Thread    src/c/kernel/thread.c: proc_init, get_process, proc_create, proc_join, proc_exit; align of
--             context.c and proc_tick of sleep.c.
--   Sleep     the rest of src/c/kernel/sleep.c: proc_sleep and global_tick. The queue of the sleepers of a
--             core is a list head of the state like the others.
--   Dispatch  the handler common_interrupt of dispatch.c, switch_from and switch_to of context.c.
--             Dispatch/Sound is about the queues, Dispatch/Live about the idle process of each core,
--             which is ready there whenever it does not run, Dispatch/RoundRobin about the turns that
--             the processes of a core take, Dispatch/Balance about the time to the first pull.
--   Syscall   src/c/kernel/syscall.c: the stub of each system call, and how the handler decodes the
--             frame that a stub leaves.
--   Kernel    src/c/kernel/kinit.c: kernel_start, with proc_init and disp_init (Kernel/Init); the tables
--             of vectors and kernel_init, which releases the cores (Kernel/Vectors); the handler of the
--             release, kernel_release_handler (Kernel/Release); the system calls that the first processes
--             make (Kernel/Programs), and the pins that blink_proc writes (Kernel/Blink). Kernel/Life puts
--             the parts together: starts of cores, system calls, ticks of the timer and writes to memory,
--             on all cores and in any order, as a relation between states.
--   Pool      the pool of workers of kinit.c (pooled_worker, perf_thread_pool) as a step relation of its
--             processes.
--   Boot      src/c/init.c: cinit_core with master_core and slave_core, which set up the devices through
--             Gpio, Timer and Mailbox, enable the other cores and go on with kernel_init.
--   Multicore src/c/multicore.c as step relations of all cores: the spinlock (Multicore/Exclusion,
--             Multicore/Starve), and core_enable and core_sleep (Multicore/Release).
--   Interrupts src/c/interrupts.c: the tables of vectors and the look-ups.
--   Gpio      src/c/gpio.c: the pins. Timer: the words that src/c/timer.c writes.
--   Mailbox   src/c/mailbox.c: the messages, with the waits for the status register.
--   Uart      src/c/uart.c, and the device table of src/c/cstubs.c with _write, _read and _close.
--   Startup   init_bss of src/c/cstartup.c and _sbrk of cstubs.c.
--   Perf      src/c/perf.c: the registers of the counters. Signal: msb and lsb of src/c/kernel/signal.c.
--   Matrix    the loops over matrices of src/c/kernel/kinit.c, which the first processes run, and the
--             work that is handed to them (single_worker, runtime_task).
--   Base      numbers, lists, bits and machine words. Tests applies the theorems to concrete inputs.
--
-- How the model stands to the code. A process is named by its address. The state gives for each list
-- head the processes linked to it, in order; Links shows that list_del_init and list_add_tail on the
-- links do to a family of lists what the state's `remove` and append do: `del_sched` and
-- `add_tail_sched` are list_del_init and list_add_tail of the sched_list entry. Words are numbers
-- with the wrap-around written out, 32 bits for an int and 64 for a uint64_t; a quotient by 0 is 0,
-- as the processor gives it. A command returns, spins for ever (`hang`: a lock that stays taken, an
-- endless loop) or follows NULL (`fault`). An interrupt runs on one core without a step of another
-- in between, so a lock that is taken at its start never becomes free. On the timer's interrupt the
-- source also reads `*(va_list *) args_ptr` while `args_ptr` has no value, and uses nothing of it;
-- the model leaves that read out. A loop over the entries of a list walks the list as it was at the
-- start, since the bodies unlink no entry but the one they stand at. Each loop recurs on a list or
-- on the number of rounds left, but for init_bss, which compares two addresses and has fuel: one
-- round for each byte and one for the last test are enough.
--
-- Parameters: what malloc, printf and the event counters answer, and where the CPU set of sched_pull
-- lies on the stack, is the record World; where the locals of kernel_start lie is the record Locals;
-- what a device's registers read, one answer for each reading, is a list; what va_arg reads beyond the
-- arguments that a stub passed, what follows the C library's device table, the count of leading
-- zeros, what the counter of CPU_COUNT holds at first, and the address that list_entry makes of the head
-- of a sleep queue are functions or numbers.
--
-- Not modelled: the assembly (src/asm), so the trap between a stub and the handler, and enable_mmu; the
-- register accesses of peripheral.c; the stubs of the C library that answer a constant; core_timer_count
-- of timer.c, which only reads a register; the printing of results in kinit.c. Delays are steps
-- that change nothing.
pub mod Base
pub mod Boot
pub mod Links
pub mod Config
pub mod CpuSet
pub mod State
pub mod Syscall
pub mod Sched
pub mod Sleep
pub mod Semaphore
pub mod Thread
pub mod Timer
pub mod Dispatch
pub mod Kernel
pub mod Pool
pub mod Gpio
pub mod Interrupts
pub mod Startup
pub mod Perf
pub mod Signal
pub mod Mailbox
pub mod Uart
pub mod Matrix
pub mod Multicore
pub mod Tests
