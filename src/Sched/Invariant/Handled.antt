-- ===== src/Sched/Invariant/Handled.antt =====
-- What is proved of each call that `common_interrupt` of src/c/kernel/dispatch.c makes: it returns, the
-- locks of the ready queues are free, and it does no more to the queues than a call may.
use rpi_kernel.Base.{ℕ, ◌≡◌, Bool, true, false, if◌then◌else◌}
use rpi_kernel.Config.{ReturnState, ok, sched, block, exit}
use rpi_kernel.Links.{Ptr}
use rpi_kernel.State.{State, queue_lock, Run, Unlocked}
use rpi_kernel.Sched.{current}
use rpi_kernel.Sched.Invariant.Evolve.{Evolves}

-- The codes after which the caller does not run on.
abbrev pub is_leaving : ReturnState → Bool
is_leaving ok = false
is_leaving sched = false
is_leaving block = true
is_leaving exit = true

-- `fresh` is the block of a process that the call may create. The caller is in no list afterwards
-- unless its code says that it leaves.
abbrev pub Handled : ℕ → (fresh : Ptr) → State → Run ReturnState → Type 0
Handled core fresh s m =
    (code : ReturnState) × (g : State) × (m ≡ Run.ok code g)
    × ((c : ℕ) → g.locks (queue_lock c) ≡ 0)
    × Evolves (if is_leaving code then current core s else fresh) s g

-- The same of a call that leaves no lock behind at all, as every call does but `sem_destroy`.
abbrev pub Answered : ℕ → (fresh : Ptr) → State → Run ReturnState → Type 0
Answered core fresh s m =
    (code : ReturnState) × (g : State) × (m ≡ Run.ok code g)
    × Unlocked g
    × Evolves (if is_leaving code then current core s else fresh) s g

pub Answered-Handled :
    (core : ℕ) (fresh : Ptr) (s : State) (m : Run ReturnState)
    → Answered core fresh s m
    → Handled core fresh s m
Answered-Handled core fresh s m (code, g, run, free, e) = (code, g, run, (λ c. free _), e)
