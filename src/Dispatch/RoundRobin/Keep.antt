-- ===== src/Dispatch/RoundRobin/Keep.antt =====
-- What leaves the line of processes as it is.
use rpi_kernel.Base.{ℕ, ◌≡◌, refl, ap, ◌∙◌, arith}
use rpi_kernel.Config.{Priority}
use rpi_kernel.CpuSet.{cpu_isset}
use rpi_kernel.Links.{Ptr}
use rpi_kernel.State.{Process, State, World, with_proc, with_proc-keeps}
use rpi_kernel.Dispatch.{add_counters, switch_from, with_ticks}
use rpi_kernel.Dispatch.Switch.{before}
use rpi_kernel.Dispatch.RoundRobin.{IsMember, IsLine}

-- A change to a process that keeps its priority and its affinity set.
module _ (core : ℕ) (r : Priority) (q : Ptr) (f : Process → Process) (s : State)
    (priority : (x : Process) → (f x).current_priority ≡ x.current_priority)
    (set : (x : Process) → (f x).affinityset ≡ x.affinityset) where
  pub with_proc-IsMember : (p : Ptr) → IsMember core r s p → IsMember core r (with_proc q f s) p
  with_proc-IsMember p (same, tied) = (
    with_proc-keeps (λ x. x.current_priority) q f s p priority ∙ same,
    λ c.
        ap (λ a. cpu_isset c (s.memory a)) (with_proc-keeps (λ x. x.affinityset) q f s p set)
        ∙ tied c,
  )

  pub with_proc-IsLine : IsLine core r s → IsLine core r (with_proc q f s)
  with_proc-IsLine w = record {
    free = w.free;
    members = λ p i. with_proc-IsMember p (w.members p i);
    distinct = w.distinct;
    highest = w.highest;
    short = w.short;
  }

pub with_ticks-IsLine :
    (core : ℕ) (r : Priority) (ticks : ℕ) (s : State)
    → IsLine core r s
    → IsLine core r (with_ticks core ticks s)
with_ticks-IsLine core r ticks s w = record {
  free = w.free;
  members = w.members;
  distinct = w.distinct;
  highest = w.highest;
  short = λ c. ground (arith, w.short c, w.short core);
}

-- The interrupt has begun.
pub before-IsLine :
    (world : World) (core : ℕ) (r : Priority) (s : State)
    → IsLine core r s
    → IsLine core r (before world core s)
before-IsLine world core r s w =
    with_proc-IsLine core r (s.running core) (add_counters 0 core world.entry_counter)
      (switch_from core s) (λ x. refl) (λ x. refl)
      (with_proc-IsLine core r (s.running core) (λ q. record q { frame = s.sp core }) s (λ x. refl)
        (λ x. refl) w)
