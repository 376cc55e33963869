-- ===== src/Syscall.antt =====
-- The stubs of src/c/kernel/syscall.c, by which a process calls the kernel, and how `common_interrupt`
-- of src/c/kernel/dispatch.c reads what they put on the stack.
pub mod Calls
use rpi_kernel.Base.{ℕ, zero, suc, ◌+◌, ◌-◌, ◌^◌, List, [], ◌∷◌, u32, ltb, if◌then◌else◌, ◌==◌}
use rpi_kernel.Links.{Ptr}
use rpi_kernel.Dispatch.{Call, Interrupt, int_syscall, int_timer}

-- The `enum interrupt_request`, in its order.
pub data Request : Type 0 where
  sys_time_slice sys_kill sys_sleep sys_puts sys_gets sys_set_trace sys_get_trace sys_malloc :
      Request
  sched_yield sched_set_affinity sched_get_affinity : Request
  pthread_create pthread_equal pthread_exit pthread_join pthread_self : Request
  pthread_mutex_init pthread_mutex_destroy pthread_mutex_lock pthread_mutex_trylock : Request
  pthread_mutex_unlock : Request
  sem_init sem_destroy sem_wait sem_try_wait sem_post sem_get_value : Request

abbrev pub number : Request → ℕ
number sys_time_slice = 0
number sys_kill = 1
number sys_sleep = 2
number sys_puts = 3
number sys_gets = 4
number sys_set_trace = 5
number sys_get_trace = 6
number sys_malloc = 7
number sched_yield = 8
number sched_set_affinity = 9
number sched_get_affinity = 10
number pthread_create = 11
number pthread_equal = 12
number pthread_exit = 13
number pthread_join = 14
number pthread_self = 15
number pthread_mutex_init = 16
number pthread_mutex_destroy = 17
number pthread_mutex_lock = 18
number pthread_mutex_trylock = 19
number pthread_mutex_unlock = 20
number sem_init = 21
number sem_destroy = 22
number sem_wait = 23
number sem_try_wait = 24
number sem_post = 25
number sem_get_value = 26

-- The requests that the `switch` has a case for, apart from those that share the one of `default`.
abbrev pub requests : List Request
requests =
    sys_time_slice ∷ sys_puts ∷ sys_set_trace ∷ sys_malloc ∷ sched_yield ∷ sched_set_affinity
    ∷ sched_get_affinity ∷ pthread_create ∷ pthread_exit ∷ pthread_join ∷ pthread_self ∷ sem_init
    ∷ sem_destroy ∷ sem_wait ∷ sem_try_wait ∷ sem_post ∷ sem_get_value ∷ []

-- A call of a function of syscall.c, with the arguments as they stand in the registers.
pub data Api : Type 0 where
  syskill : (pid sig : ℕ) → Api
  syssleep : (ms : ℕ) → Api
  puts : (str : Ptr) → Api
  gets : (str : Ptr) → Api
  sys_malloc : (size : ℕ) → Api
  sys_settrace : (trace : ℕ) → Api
  getpid : Api
  sched_yield : Api
  sched_setaffinity : (pid cpusetsize : ℕ) (mask : Ptr) → Api
  sched_getaffinity : (pid cpusetsize : ℕ) (mask : Ptr) → Api
  pthread_create : (thread attr start_routine arg : ℕ) → Api
  pthread_exit : (status : ℕ) → Api
  pthread_join : (thread status : ℕ) → Api
  pthread_self : Api
  sem_init : (sem : Ptr) (pshared value : ℕ) → Api
  sem_destroy : (sem : Ptr) → Api
  sem_wait : (sem : Ptr) → Api
  sem_trywait : (sem : Ptr) → Api
  sem_post : (sem : Ptr) → Api
  sem_getvalue : (sem sval : Ptr) → Api

-- What a stub passes to `syscall`: the request's number, and the variadic arguments.
pub record Trap : Type 0 where
  pub req_id : ℕ
  pub args : List ℕ

abbrev trap : Request → List ℕ → Trap
trap request args = record { req_id = number request; args = args }

unfoldable pub stub : Api → Trap
stub (syskill pid sig) = trap sys_kill (pid ∷ sig ∷ [])
stub (syssleep ms) = trap sys_sleep (ms ∷ [])
stub (puts str) = trap sys_puts (str ∷ [])
stub (gets str) = trap sys_gets (str ∷ [])
stub (sys_malloc size) = trap Request.sys_malloc (size ∷ [])
stub (sys_settrace trace) = trap sys_set_trace (trace ∷ [])
stub getpid = trap Request.pthread_self []
stub sched_yield = trap Request.sched_yield []
stub (sched_setaffinity pid cpusetsize mask) =
    trap sched_set_affinity (pid ∷ cpusetsize ∷ mask ∷ [])
stub (sched_getaffinity pid cpusetsize mask) =
    trap sched_get_affinity (pid ∷ cpusetsize ∷ mask ∷ [])
stub (pthread_create thread attr start_routine arg) =
    trap Request.pthread_create (thread ∷ attr ∷ start_routine ∷ arg ∷ [])
stub (pthread_exit status) = trap Request.pthread_exit (status ∷ [])
stub (pthread_join thread status) = trap Request.pthread_join (thread ∷ status ∷ [])
stub pthread_self = trap Request.pthread_self []
stub (sem_init sem pshared value) = trap Request.sem_init (sem ∷ pshared ∷ value ∷ [])
stub (sem_destroy sem) = trap Request.sem_destroy (sem ∷ [])
stub (sem_wait sem) = trap Request.sem_wait (sem ∷ [])
stub (sem_trywait sem) = trap sem_try_wait (sem ∷ [])
stub (sem_post sem) = trap Request.sem_post (sem ∷ [])
stub (sem_getvalue sem sval) = trap sem_get_value (sem ∷ sval ∷ [])

-- The `i`-th `va_arg` of type void * or the like. Past what the stub passed it reads what the registers
-- and the stack happen to hold, `beyond`.
abbrev pub va_arg : (beyond : ℕ → ℕ) → List ℕ → ℕ → ℕ
va_arg beyond [] i = beyond i
va_arg beyond (x ∷ xs) zero = x
va_arg beyond (x ∷ xs) (suc i) = va_arg beyond xs i

-- What the case of a request reads, in the order of its `va_arg`s: the lower 32 bits for an int and for a
-- pthread_t.
abbrev pub read_args : Request → (ℕ → ℕ) → Interrupt
read_args sys_time_slice arg = int_timer
read_args sys_puts arg = int_syscall (Call.sys_puts (arg 0))
read_args sys_set_trace arg = int_syscall (Call.sys_set_trace (u32 (arg 0)))
read_args Request.sys_malloc arg = int_syscall (Call.sys_malloc (arg 0))
read_args Request.sched_yield arg = int_syscall Call.sched_yield
read_args sched_set_affinity arg = int_syscall (Call.sched_set_affinity (arg 2))
read_args sched_get_affinity arg = int_syscall (Call.sched_get_affinity (arg 2))
read_args Request.pthread_create arg =
    int_syscall (Call.pthread_create (arg 0) (arg 2) (arg 3) (arg 4))
read_args Request.pthread_exit arg = int_syscall (Call.pthread_exit (arg 0))
read_args Request.pthread_join arg = int_syscall (Call.pthread_join (u32 (arg 0)) (arg 1))
read_args Request.pthread_self arg = int_syscall Call.pthread_self
read_args Request.sem_init arg =
    int_syscall (Call.sem_init_call (arg 0) (u32 (arg 1)) (u32 (arg 2)))
read_args Request.sem_destroy arg = int_syscall (Call.sem_destroy_call (arg 0))
read_args Request.sem_wait arg = int_syscall (Call.sem_wait_call (arg 0))
read_args sem_try_wait arg = int_syscall (Call.sem_trywait_call (arg 0))
read_args Request.sem_post arg = int_syscall (Call.sem_post_call (arg 0))
read_args sem_get_value arg = int_syscall (Call.sem_getvalue_call (arg 0) (arg 1))
read_args request arg = int_syscall (Call.unhandled (number request))

-- The first case with the number of the request.
abbrev pub switch_request : List Request → ℕ → (ℕ → ℕ) → Interrupt
switch_request [] n arg = int_syscall (Call.unhandled n)
switch_request (request ∷ rest) n arg =
    let later = switch_request rest n arg in
    if number request == n then read_args request arg else later

unfoldable pub decode : (beyond : ℕ → ℕ) → Trap → Interrupt
decode beyond t = switch_request requests t.req_id (va_arg beyond t.args)

-- What `syscall` returns: x0 goes through an int, so the long that comes out has the lower 32 bits of
-- it, with their sign.
unfoldable pub syscall_ret : ℕ → ℕ
syscall_ret x0 = if ltb (u32 x0) (2 ^ 31) then u32 x0 else u32 x0 + (2 ^ 64 - 2 ^ 32)
