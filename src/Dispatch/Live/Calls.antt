-- ===== src/Dispatch/Live/Calls.antt =====
-- A system call, on a core at work.
use rpi_kernel.Base.{ℕ, ◌<◌, ◌≡◌, ◌≢◌, refl, ap, sym, ◌∙◌, true, if◌then◌else◌, inl, inr, ◌∈◌}
use rpi_kernel.Config.{Priority, ReturnState, ok, sched, block, exit, num_cores}
use rpi_kernel.Links.{Ptr, null}
use rpi_kernel.State.{State, World, ready_at, Run, Unlocked}
use rpi_kernel.Sched.Invariant.Evolve.{Evolves, readied-Evolves}
use rpi_kernel.Sched.Invariant.Handled.{is_leaving}
use rpi_kernel.Dispatch.{Call, int_syscall, switch_from, count_events, common_interrupt}
use rpi_kernel.Dispatch.Sound.Interrupt.{IsFresh}
use rpi_kernel.Dispatch.Sound.Calls.{served, lasting, handle-Answered}
use rpi_kernel.Dispatch.Live.{IsUp}
use rpi_kernel.Dispatch.Live.Keep.{
  still-IsUp, kept-IsUp, left-IsUpBut, Ends, end_ok, end_sched, end_block, end_exit,
}

-- A process other than the idle one makes a call that the handler serves and that gives back its locks;
-- the block that `malloc` would give is new.
pub record IsCall (idles : ℕ → Ptr) (world : World) (core : ℕ) (c : Call) (s : State) : Type 0 where
  pub reply : served world c ≡ true
  pub lasts : lasting c ≡ true
  pub started : s.running core ≢ null
  pub busy : s.running core ≢ idles core
  pub fresh : IsFresh world.process_block s
  pub some_block : null ≢ world.process_block

module _ (idles : ℕ → Ptr) (world : World) (core : ℕ) (small : core < num_cores) (s : State)
    (w : IsUp idles s) (started : s.running core ≢ null) (busy : s.running core ≢ idles core)
    (fresh : IsFresh world.process_block s) (some_block : null ≢ world.process_block) where
  standing : (r : Priority) × (idles core ∈ s.lists (ready_at core r))
  standing = elim (w.home core small started) [ inl runs ↦ absurd (busy runs) | inr there ↦ there ]

  finish :
      (code : ReturnState) (g : State)
      → Unlocked g
      → Evolves (if is_leaving code then s.running core else world.process_block) s g
      → Ends idles world core (s.running core) code g
  finish ok g free e =
      end_ok idles world core (s.running core) g
        (kept-IsUp idles s g world.process_block w e free some_block fresh.idle)
  finish sched g free e =
      let up = kept-IsUp idles s g world.process_block w e free some_block fresh.idle in
      let pos : g.running core ≢ null =
        λ z. started (sym (ap (λ (f : ℕ → Ptr). f core) e.running) ∙ z) in
      let (r, i) = standing in
      let f =
        readied-Evolves core (g.running core) g (up.sound.off_lists core small pos)
          up.sound.queued in
      end_sched idles world core (s.running core) g small up pos
        (r, f.ready (idles core) core r (e.ready (idles core) core r i))
  finish block g free e =
      let (r, i) = standing in
      end_block idles world core (s.running core) g
        (left-IsUpBut idles core s g small w started e free (r, e.ready (idles core) core r i))
  finish exit g free e =
      let (r, i) = standing in
      end_exit idles world core (s.running core) g
        (left-IsUpBut idles core s g small w started e free (r, e.ready (idles core) core r i))

-- The interrupt returns with the cores at work, and all that had started still run.
abbrev pub Serves : (ℕ → Ptr) → (s : State) → Run (Unit {0}) → Type 0
Serves idles s m =
    (h : State) × (m ≡ Run.ok tt h)
    × IsUp idles h
    × ((d : ℕ) → s.running d ≢ null → h.running d ≢ null)

pub call-Serves :
    (idles : ℕ → Ptr) (world : World) (core : ℕ) (c : Call) (s : State)
    → core < num_cores
    → IsUp idles s
    → IsCall idles world core c s
    → Serves idles s (common_interrupt world core (int_syscall c) s)
unfolding common_interrupt
call-Serves idles world core c s small w call =
    let t = count_events 0 core world.entry_counter (switch_from core s) in
    let up = still-IsUp idles s t refl refl refl refl w in
    let (code, g, run, free, e) =
      handle-Answered world core t w.free up.sound.queued
        (w.sound.off_lists core small call.started) call.fresh.absent c call.reply call.lasts in
    let (h, run', up', on) =
      finish idles world core small t up call.started call.busy
        (record { absent = call.fresh.absent; idle = call.fresh.idle }) call.some_block code g free
        e in
    (
      h,
      rw run run',
      up',
      λ d pos. on.started d (λ z. pos (sym (ap (λ (f : ℕ → Ptr). f d) e.running) ∙ z)),
    )
