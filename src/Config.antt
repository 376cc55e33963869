-- ===== src/Config.antt =====
-- The enumerations and constants of src/c/kernel/include/config.h, and the errors of newlib's
-- errno.h that the kernel returns.
use rpi_kernel.Base.{ℕ, ◌≡◌, ◌/◌, Bool, true, false, List, [], ◌∷◌, ◌↔◌, Key, arith, bit_and}
use Prim.Native.Nat.{bit_xor}

pub data ReturnState : Type 0 where
  ok sched block exit : ReturnState

pub data Priority : Type 0 where
  idle low med high : Priority

pub data ProcessState : Type 0 where
  new runnable blocked stopped zombie : ProcessState

abbrev pub num_cores : ℕ
num_cores = 4

abbrev pub perf_counters : ℕ
perf_counters = 6

abbrev pub clock_freq : ℕ
clock_freq = 19_200_000

abbrev pub clock_divd : ℕ
clock_divd = 1000

abbrev pub tick_rearm : ℕ
tick_rearm = clock_freq / clock_divd

abbrev pub pidhash_size : ℕ
pidhash_size = 4096 / 64

abbrev pub proc_stack : ℕ
proc_stack = 4096

unfoldable pub pid_hashfn : ℕ → ℕ
pid_hashfn x = bit_and (bit_xor (x / 256) x) 63

-- errno.h
abbrev pub eagain : ℕ
eagain = 11

abbrev pub einval : ℕ
einval = 22

abbrev pub enosys : ℕ
enosys = 88

-- From PRIORITY_HIGH down to PRIORITY_IDLE, as the scheduler looks at its queues.
abbrev pub descending : List Priority
descending = high ∷ med ∷ low ∷ idle ∷ []

abbrev pub same_priority : Priority → Priority → Bool
same_priority idle idle = true
same_priority low low = true
same_priority med med = true
same_priority high high = true
same_priority _ _ = false

pub same_priority_iff : (p q : Priority) → (same_priority p q ≡ true) ↔ (p ≡ q)
same_priority_iff p q = ground arith

instance abbrev pub priority_key : Key Priority
priority_key = record { same = same_priority; same_iff = same_priority_iff }
