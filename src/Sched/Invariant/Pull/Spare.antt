-- ===== src/Sched/Invariant/Pull/Spare.antt =====
-- What `sched_pull` of src/c/kernel/dispatch.c leaves alone: the affinity sets, and the processes that may not
-- run on the pulling core.
use rpi_kernel.Base.{ℕ, ◌≡◌, ◌≢◌, refl, ap, sym, ◌∙◌, false, ◌∈◌}
use rpi_kernel.Config.{Priority}
use rpi_kernel.CpuSet.{cpu_isset}
use rpi_kernel.Links.{Ptr}
use rpi_kernel.State.{State, ready_at}
use rpi_kernel.Sched.{affinity}

-- `target` is where the pull keeps the set that it builds.
pub record Spares (core : ℕ) (target : Ptr) (s g : State) : Type 0 where
  pub sets : (x : Ptr) → (g.procs x).affinityset ≡ (s.procs x).affinityset
  pub memory : (a : Ptr) → a ≢ target → g.memory a ≡ s.memory a
  pub spared :
      (x : Ptr)
      → (s.procs x).affinityset ≢ target
      → cpu_isset core (affinity s x) ≡ false
      → (d : ℕ) (r : Priority) → x ∈ s.lists (ready_at d r)
      → x ∈ g.lists (ready_at d r)

pub affinity-Spares :
    (core : ℕ) (target : Ptr) (s g : State) (x : Ptr)
    → (s.procs x).affinityset ≢ target
    → Spares core target s g
    → affinity g x ≡ affinity s x
affinity-Spares core target s g x other e =
    ap g.memory (e.sets x) ∙ e.memory (s.procs x).affinityset other

pub Spares-chain :
    (core : ℕ) (target : Ptr) (s t g : State)
    → Spares core target s t
    → Spares core target t g
    → Spares core target s g
Spares-chain core target s t g e f = record {
  sets = λ x. f.sets x ∙ e.sets x;
  memory = λ a n. f.memory a n ∙ e.memory a n;
  spared = λ x n barred d r i.
      f.spared x (λ z. n (sym (e.sets x) ∙ z))
        (ap (cpu_isset core) (affinity-Spares core target s t x n e) ∙ barred) d r
        (e.spared x n barred d r i);
}

pub Spares-refl : (core : ℕ) (target : Ptr) (s : State) → Spares core target s s
Spares-refl core target s = record {
  sets = λ x. refl;
  memory = λ a n. refl;
  spared = λ x n b d r i. i;
}
