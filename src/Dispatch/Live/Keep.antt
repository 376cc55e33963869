-- ===== src/Dispatch/Live/Keep.antt =====
-- What `reschedule` and `switch_to` of src/c/kernel/dispatch.c and context.c do to the cores at work, after
-- each answer of a call.
use rpi_kernel.Base.{
  ℕ, ◌<◌, ◌≡◌, ◌≢◌, refl, ap, sym, ◌∙◌, false, ◌==◌, ◌∈◌, has, Bool-cases, inl, inr,
}
use rpi_kernel.Config
use rpi_kernel.Config.{Priority, runnable, ReturnState, num_cores, tick_rearm}
use rpi_kernel.Links.{Ptr, null}
use rpi_kernel.State.{
  Process, State, Head, World, with_proc, with_proc-keeps, ready_at, Lock, Run, Unlocked,
}
use rpi_kernel.Sched.{current}
use rpi_kernel.Sched.Ready.{readied, ready_lem}
use rpi_kernel.Sched.Next.{taken}
use rpi_kernel.Sched.Invariant.Evolve.{Evolves, chain, still, readied-Evolves}
use rpi_kernel.Dispatch.{switch_to, count_events, add_counters, core_timer_rearm, reschedule}
use rpi_kernel.Dispatch.Calls.{switched}
use rpi_kernel.Dispatch.Sound.{still-IsSound}
use rpi_kernel.Dispatch.Sound.Interrupt.{kept-IsSound, kept-IsLeft, other_process, rest}
use rpi_kernel.Dispatch.Live.{Home, IsUp, IsUpBut}
use rpi_kernel.Dispatch.Live.Choose.{next-IsUp}

-- What touches no list, no queue, no lock and no running process.
pub still-IsUp :
    (idles : ℕ → Ptr) (s g : State)
    → g.lists ≡ s.lists
    → g.queues ≡ s.queues
    → g.running ≡ s.running
    → g.locks ≡ s.locks
    → IsUp idles s
    → IsUp idles g
still-IsUp idles s g l k e f w = record {
  sound = still-IsSound s g l k e w.sound;
  free = λ x. ap (λ (h : Lock → ℕ). h x) f ∙ w.free x;
  null_absent = λ a. ap (λ (h : Head → _). has null (h a)) l ∙ w.null_absent a;
  home = λ d small pos. elim (w.home d small (λ z. pos (ap (λ (h : ℕ → Ptr). h d) e ∙ z))) [
    | inl runs ↦ inl (ap (λ (h : ℕ → Ptr). h d) e ∙ runs)
    | inr (r, i) ↦ inr (r, ap (λ (h : Head → _). has (idles d) (h (ready_at d r))) l ∙ i)
  ];
}

module _ (idles : ℕ → Ptr) (s g : State) (out : Ptr) (w : IsUp idles s) (e : Evolves out s g)
    (free : Unlocked g) where
  runs_on : (c : ℕ) → g.running c ≡ s.running c
  runs_on c = ap (λ (f : ℕ → Ptr). f c) e.running

  Home-Evolves : (d : ℕ) → Home (idles d) d s → Home (idles d) d g
  Home-Evolves d (inl runs) = inl (runs_on d ∙ runs)
  Home-Evolves d (inr (r, i)) = inr (r, e.ready (idles d) d r i)

  -- A call that takes no running process into a list.
  pub kept-IsUp : null ≢ out → ((c : ℕ) → c < num_cores → s.running c ≢ out) → IsUp idles g
  kept-IsUp no_null others = record {
    sound = kept-IsSound 0 s g out w.sound e others;
    free = free;
    null_absent = e.detached null no_null w.null_absent;
    home = λ d small pos. Home-Evolves d (w.home d small (λ z. pos (runs_on d ∙ z)));
  }

-- A call that takes the caller into a list, or ends it.
pub left-IsUpBut :
    (idles : ℕ → Ptr) (core : ℕ) (s g : State)
    → core < num_cores
    → IsUp idles s
    → s.running core ≢ null
    → Evolves (s.running core) s g
    → Unlocked g
    → (r : Priority) × (idles core ∈ g.lists (ready_at core r))
    → IsUpBut idles core g
left-IsUpBut idles core s g small w pos e free here = record {
  left = kept-IsLeft core s g (s.running core) w.sound e (other_process core s small w.sound);
  free = free;
  null_absent = e.detached null (λ z. pos (sym z)) w.null_absent;
  home = λ d other small' pos'.
      Home-Evolves idles s g (s.running core) w e free d
        (w.home d small' (λ z. pos' (ap (λ (f : ℕ → Ptr). f d) e.running ∙ z)));
  here = here;
}

-- A change to a process that keeps the address of its affinity set.
pub kept_set :
    (p : Ptr) (f : Process → Process) (s : State) (x : Ptr)
    → ((q : Process) → (f q).affinityset ≡ q.affinityset)
    → ((with_proc p f s).procs x).affinityset ≡ (s.procs x).affinityset
kept_set p f s x same = with_proc-keeps (λ q. q.affinityset) p f s x same

-- The other cores run on, this one runs some process if it did, and the affinity sets stay.
pub record GoesOn (core : ℕ) (s g : State) : Type 0 where
  pub started : (d : ℕ) → s.running d ≢ null → g.running d ≢ null
  pub others : (d : ℕ) → (d == core) ≡ false → g.running d ≡ s.running d
  pub sets : (x : Ptr) → (g.procs x).affinityset ≡ (s.procs x).affinityset
  pub memory : g.memory ≡ s.memory

counted :
    (world : World) (core : ℕ) (s : State) (x : Ptr)
    → ((count_events 1 core world.exit_counter s).procs x).affinityset ≡ (s.procs x).affinityset
counted world core s x =
    kept_set (current core s) (add_counters 1 core world.exit_counter) s x (λ q. refl)

-- The rest of the interrupt returns with the cores at work, and all that had started still run.
abbrev pub Ends : (ℕ → Ptr) → World → ℕ → (self : Ptr) → ReturnState → State → Type 0
Ends idles world core self code g =
    (h : State) × (rest world core self code g ≡ Run.ok tt h) × IsUp idles h × GoesOn core g h

module _ (idles : ℕ → Ptr) (world : World) (core : ℕ) (self : Ptr) where
  still-running :
      (p : Ptr) (g : State)
      → p ≢ null
      → (d : ℕ) → g.running d ≢ null
      → (taken core p g).running d ≢ null
  still-running p g some_process d pos = elim (Bool-cases (d == core)) [
    | inl e ↦ λ z. some_process (rw e at z)
    | inr n ↦ λ z. pos (rw n at z)
  ]

  pub end_ok : (g : State) → IsUp idles g → Ends idles world core self Config.ReturnState.ok g
  unfolding reschedule switch_to
  end_ok g w = (
    switched core self (count_events 1 core world.exit_counter g),
    refl,
    still-IsUp idles g _ refl refl refl refl w,
    record {
      started = λ d pos. pos;
      others = λ d n. refl;
      sets = counted world core g;
      memory = refl;
    },
  )

  pub end_block :
      (g : State) → IsUpBut idles core g → Ends idles world core self Config.ReturnState.block g
  unfolding reschedule switch_to
  end_block g w =
      let (p, run, some_process, up) = next-IsUp idles core g w in
      (
        switched core p (count_events 1 core world.exit_counter (taken core p g)),
        rw run,
        still-IsUp idles (taken core p g) _ refl refl refl refl up,
        record {
          started = still-running p g some_process;
          others = λ d n. rw n refl;
          sets = counted world core (taken core p g);
          memory = refl;
        },
      )

  pub end_exit :
      (g : State) → IsUpBut idles core g → Ends idles world core self Config.ReturnState.exit g
  unfolding reschedule switch_to
  end_exit g w =
      let (p, run, some_process, up) = next-IsUp idles core g w in
      (
        switched core p (taken core p g),
        rw run,
        still-IsUp idles (taken core p g) _ refl refl refl refl up,
        record {
          started = still-running p g some_process;
          others = λ d n. rw n refl;
          sets = λ x. refl;
          memory = refl;
        },
      )

  -- The caller is ready again, and the idle process of the core is so too.
  pub end_sched :
      (g : State)
      → core < num_cores
      → IsUp idles g
      → g.running core ≢ null
      → ((r : Priority) × (idles core ∈ (readied core (g.running core) g).lists (ready_at core r)))
      → Ends idles world core self Config.ReturnState.sched g
  unfolding reschedule switch_to
  end_sched g small w pos here =
      let mine = g.running core in
      let t = core_timer_rearm core tick_rearm (readied core mine g) in
      let e = readied-Evolves core mine g (w.sound.off_lists core small pos) w.sound.queued in
      let e' : Evolves mine g t =
        chain e (still mine (readied core mine g) t e.queued refl refl refl) in
      let (p, run, some_process, up) =
        next-IsUp idles core t (left-IsUpBut idles core g t small w pos e' w.free here) in
      (
        switched core p (count_events 1 core world.exit_counter (taken core p t)),
        rw (ready_lem core mine g (w.free _), run),
        still-IsUp idles (taken core p t) _ refl refl refl refl up,
        record {
          started = still-running p t some_process;
          others = λ d n. rw n refl;
          sets = λ x.
              counted world core (taken core p t) x
              ∙ kept_set mine (λ q. record q { state = runnable }) g x (λ q. refl);
          memory = refl;
        },
      )
