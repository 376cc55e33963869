-- ===== src/Dispatch/Live.antt =====
-- The kernel at work: what holds of the cores that have started, and of their idle processes, between the
-- interrupts, which `common_interrupt` of src/c/kernel/dispatch.c serves.
pub mod Choose
pub mod Keep
pub mod Calls
pub mod Tick
use rpi_kernel.Base.{ℕ, ◌<◌, ◌≡◌, ◌≢◌, ◌⊎◌, false, ◌==◌, ◌∈◌}
use rpi_kernel.Config.{Priority, num_cores}
use rpi_kernel.Links.{Ptr, null}
use rpi_kernel.State.{State, ready_at, Unlocked}
use rpi_kernel.Sched.Invariant.{Detached}
use rpi_kernel.Dispatch.Sound.{IsSound, IsLeft}

-- The process runs on the core or is ready there.
abbrev pub Home : (x : Ptr) → (core : ℕ) → State → Type 0
Home x core s = (s.running core ≡ x) ⊎ ((r : Priority) × (x ∈ s.lists (ready_at core r)))

-- `idles` gives for each core the process that `kernel_start` made of `idle_proc`.
pub record IsUp (idles : ℕ → Ptr) (s : State) : Type 0 where
  pub sound : IsSound s
  pub free : Unlocked s
  pub null_absent : Detached null s
  pub home : (d : ℕ) → d < num_cores → s.running d ≢ null → Home (idles d) d s

-- The same of every core but one, which is about to choose its next process.
pub record IsUpBut (idles : ℕ → Ptr) (core : ℕ) (s : State) : Type 0 where
  pub left : IsLeft core s
  pub free : Unlocked s
  pub null_absent : Detached null s
  pub home : (d : ℕ) → (d == core) ≡ false → d < num_cores → s.running d ≢ null → Home (idles d) d s
  pub here : (r : Priority) × (idles core ∈ s.lists (ready_at core r))
