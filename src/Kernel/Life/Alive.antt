-- ===== src/Kernel/Life/Alive.antt =====
-- The kernel never stops: in every state that it reaches, each start of a core and each interrupt returns.
use rpi_kernel.Base.{
  ℕ, ◌<◌, ◌≡◌, ◌≢◌, refl, ap, sym, subst, ◌∙◌, false, ◌==◌, ◌||◌, has, [], Bool-cases, inl, inr,
  ==_iff,
}
use rpi_kernel.Config.{num_cores}
use rpi_kernel.Links.{Ptr, null}
use rpi_kernel.State.{State, World, Head, Run, Unlocked}
use rpi_kernel.Sched.{queue_length}
use rpi_kernel.Dispatch.{Call, int_syscall, int_timer, common_interrupt}
use rpi_kernel.Dispatch.Live.{IsUp}
use rpi_kernel.Dispatch.Live.Keep.{still-IsUp}
use rpi_kernel.Dispatch.Live.Calls.{IsCall, call-Serves}
use rpi_kernel.Dispatch.Live.Tick.{Tied, IsTick, tick-Serves}
use rpi_kernel.Kernel.{Locals, kernel_start, proc_init, disp_init}
use rpi_kernel.Kernel.Init.{init-IsSound}
use rpi_kernel.Kernel.Up.{start-IsUp}
use rpi_kernel.Kernel.Life.{IsStart, Life, begins, starts, calls, ticks, writes}

-- The command returns, and every core that runs a process does so afterwards.
abbrev pub Continues : State → Run (Unit {0}) → Type 0
Continues t m =
    (u : State) × (m ≡ Run.ok tt u) × ((d : ℕ) → t.running d ≢ null → u.running d ≢ null)

pub record IsAlive (idles : ℕ → Ptr) (t : State) : Type 0 where
  pub up : IsUp idles t
  pub tied : Tied idles t
  pub on_start :
      (first second : World) (l : Locals) (core : ℕ)
      → core < num_cores
      → IsStart idles first second l core t
      → Continues t (kernel_start first second l core t)
  pub on_call :
      (world : World) (core : ℕ) (c : Call)
      → core < num_cores
      → IsCall idles world core c t
      → Continues t (common_interrupt world core (int_syscall c) t)
  pub on_tick :
      (world : World) (core : ℕ)
      → core < num_cores
      → IsTick idles world core t
      → Continues t (common_interrupt world core int_timer t)

-- A run has one result.
same_end : (m : Run (Unit {0})) (g h : State) → m ≡ Run.ok tt g → m ≡ Run.ok tt h → g ≡ h
same_end m g h e f = cc

module _ (idles : ℕ → Ptr) (t : State) (up : IsUp idles t) (tied : Tied idles t) where
  pub start_result :
      (first second : World) (l : Locals) (core : ℕ)
      → core < num_cores
      → IsStart idles first second l core t
      → (u : State) × (kernel_start first second l core t ≡ Run.ok tt u)
        × IsUp idles u
        × Tied idles u
        × (u.running core ≢ null)
        × ((d : ℕ) → (d == core) ≡ false → u.running d ≡ t.running d)
        × (((u.memory l.idle_thread == 0) || (u.memory l.root_thread == 0)) ≡ false)
  start_result first second l core small i =
      start-IsUp idles first second l core t small up tied i.roomy i.short i.pid i.pids i.mine
        i.elsewhere

  alive : IsAlive idles t
  alive = record {
    up = up;
    tied = tied;
    on_start = λ first second l core small i.
        let (u, run, up', tied', pos, others, made) = start_result first second l core small i in
        (
          u,
          run,
          λ d started. elim (Bool-cases (d == core)) [
            | inl e ↦ subst (λ k. u.running k ≢ null) (sym ((==_iff d core).0 e)) pos
            | inr n ↦ λ z. started (sym (others d n) ∙ z)
          ],
        );
    on_call = λ world core c small i.
        let (u, run, up', started) = call-Serves idles world core c t small up i in
        (u, run, started);
    on_tick = λ world core small i.
        let (u, run, up', started, tied') = tick-Serves idles world core t small up tied i in
        (u, run, started);
  }

init-IsUp :
    (idles : ℕ → Ptr) (s : State)
    → ((a : Head) → s.lists a ≡ [])
    → ((c : ℕ) → s.running c ≡ null)
    → ((c : ℕ) → queue_length s c ≡ 0)
    → Unlocked s
    → IsUp idles (disp_init (proc_init s)) × Tied idles (disp_init (proc_init s))
init-IsUp idles s empty idle_cores lengths free =
    let (sound, lists, buckets) = init-IsSound s (λ a o. empty a) idle_cores lengths in
    let runs : (c : ℕ) → (disp_init (proc_init s)).running c ≡ null = idle_cores in
    (
      record {
        sound = sound;
        free = free;
        null_absent = λ a. ap (has null) (lists a);
        home = λ d small pos. absurd (pos (runs d));
      },
      λ d small pos. absurd (pos (runs d)),
    )

-- From the state that `proc_init` and `disp_init` leave of a kernel in which nothing is linked, runs or is
-- locked, and through all starts of cores, system calls and timer interrupts, on any core and in any
-- order, and whatever is written to memory in between and by the calls, but to the affinity sets of the
-- idle processes: the queues and the running processes are sound, no spinlock is held between the
-- interrupts, and the idle process of each core that has started runs there or is ready there. Each start
-- of a core, each call and each tick of the timer then returns, and leaves a running process on every core
-- that had one. The starts, calls and ticks are those of `IsStart`, `IsCall` and `IsTick`: blocks and
-- locals lie apart and the queues have room, pids and lengths do not overflow, and a call is one that the
-- handler serves, is not `sem_destroy`, and does not come from an idle process.
pub life-IsAlive :
    (idles : ℕ → Ptr) (s t : State)
    → ((a : Head) → s.lists a ≡ [])
    → ((c : ℕ) → s.running c ≡ null)
    → ((c : ℕ) → queue_length s c ≡ 0)
    → Unlocked s
    → Life idles s t
    → IsAlive idles t
life-IsAlive idles s t empty idle_cores lengths free life =
    let (up, tied) = life-IsUp t life in alive idles t up tied
  where
    life-IsUp : (t : State) → Life idles s t → IsUp idles t × Tied idles t
    life-IsUp _ begins = init-IsUp idles s empty idle_cores lengths free
    life-IsUp _ (starts {t} first second l core u before small i run) =
        let (up, tied) = life-IsUp t before in
        let (u', run', up', tied', pos, others, made) =
          start_result idles t up tied first second l core small i in
        let same = same_end (kernel_start first second l core t) u' u run' run in
        (subst (IsUp idles) same up', subst (Tied idles) same tied')
    life-IsUp _ (calls {t} world core c u before small i run tied') =
        let (up, tied) = life-IsUp t before in
        let (u', run', up', started) = call-Serves idles world core c t small up i in
        let same = same_end (common_interrupt world core (int_syscall c) t) u' u run' run in
        (subst (IsUp idles) same up', tied')
    life-IsUp _ (ticks {t} world core u before small i run) =
        let (up, tied) = life-IsUp t before in
        let (u', run', up', started, tied') = tick-Serves idles world core t small up tied i in
        let same = same_end (common_interrupt world core int_timer t) u' u run' run in
        (subst (IsUp idles) same up', subst (Tied idles) same tied')
    life-IsUp _ (writes {t} memory u before same tied') =
        let (up, tied) = life-IsUp t before in
        let up' = still-IsUp idles t (record t { memory = memory }) refl refl refl refl up in
        (subst (IsUp idles) (sym same) up', tied')
