-- ===== src/Multicore.antt =====
-- The spinlock of src/c/multicore.c under any interleaving of the cores. A step is one atomic access
-- to the flag: the instruction behind `__sync_lock_test_and_set` or the release.
pub mod Exclusion
pub mod Release
pub mod Starve
use rpi_kernel.Base.{ℕ, ◌≡◌, ◌≢◌, update}

-- Where a core stands: outside of the lock, in the loop of `__spin_lock`, or behind it.
pub data Pc : Type 0 where
  outside spinning holding : Pc

pub record Cores : Type 0 where
  pub flag : ℕ
  pub pc : ℕ → Pc

abbrev pub goes : ℕ → Pc → Cores → Cores
goes core p s = record s { pc = update s.pc core p }

-- `__spin_lock`: the flag is set whatever it was, and the loop ends if it was 0. `__spin_unlock`: the
-- flag is cleared.
pub data Step (s : Cores) : Cores → Type 0 where
  call : (core : ℕ) → s.pc core ≡ outside → Step s (goes core spinning s)
  won :
      (core : ℕ)
      → s.pc core ≡ spinning
      → s.flag ≡ 0
      → Step s (goes core holding (record s { flag = 1 }))
  lost : (core : ℕ) → s.pc core ≡ spinning → s.flag ≢ 0 → Step s (record s { flag = 1 })
  unlock : (core : ℕ) → s.pc core ≡ holding → Step s (goes core outside (record s { flag = 0 }))

abbrev pub unlocked : Cores
unlocked = record { flag = 0; pc = λ core. outside }

pub data Reach : Cores → Type 0 where
  start : Reach unlocked
  later : {s t : Cores} → Reach s → Step s t → Reach t
