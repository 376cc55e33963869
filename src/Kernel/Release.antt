-- ===== src/Kernel/Release.antt =====
-- The handler of the interrupt by which a core is released: `kernel_release_handler` of
-- src/c/kernel/kinit.c.
pub mod Begun
use rpi_kernel.Base.{ℕ, ◌-◌, ◌^◌, ◌==◌, ◌||◌, if◌then◌else◌, Option, none, some, update}
use rpi_kernel.State.{
  State, World, Run, ok, hang, fault, Cmd, pure, and_then, ◌>>=◌, ◌>>◌, gets, newlib_lock,
  spin_lock, spin_unlock,
}
use rpi_kernel.Kernel.{Locals, kernel_start}
use rpi_kernel.Kernel.Vectors.{Machine, start_vectors}

-- `kernel_start` comes back only where one of its two processes was not created; the handler then takes a
-- lock that it holds.
unfoldable pub release_core : (first second : World) → Locals → (core : ℕ) → Cmd (Unit {0})
release_core first second l core = do
  spin_lock newlib_lock
  spin_unlock newlib_lock
  kernel_start first second l core
  back ← gets (λ s. (s.memory l.idle_thread == 0) || (s.memory l.root_thread == 0))
  if back then (do spin_lock newlib_lock; spin_lock newlib_lock; λ s. hang) else pure tt

-- The mailbox is cleared and the vectors of `kernel_start` are registered; how it sets up the counters is
-- `pmu_setup`.
abbrev pub go_on : (core : ℕ) → Machine → Run (Unit {0}) → Option Machine
go_on core m (ok done s) = some (record m {
  tables = start_vectors core m.tables;
  cleared = update m.cleared core (2 ^ 32 - 1);
  kernel = s;
})
go_on core m hang = none
go_on core m fault = none

-- The machine as the core takes up its first process, or nothing where it does not come to that.
unfoldable pub kernel_release_handler :
    (first second : World) → Locals → (core : ℕ) → Machine → Option Machine
unfolding release_core
kernel_release_handler first second l core m =
    go_on core m (release_core first second l core m.kernel)
