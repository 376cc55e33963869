-- ===== src/Dispatch/Calls.antt =====
-- What single requests do in `common_interrupt` of src/c/kernel/dispatch.c.
use rpi_kernel.Base.{
  ℕ, ◌≡◌, ◌≢◌, refl, ap, ◌∙◌, false, ◌==◌, if◌then◌else◌, arith, pred32, update, update_self,
}
use rpi_kernel.Config.{ReturnState, sched}
use rpi_kernel.CpuSet.{cpu_isset}
use rpi_kernel.Links.{Ptr}
use rpi_kernel.State.{Process, State, World, ok, with_proc}
use rpi_kernel.Sched.{current}
use rpi_kernel.Semaphore.{set_ret}
use rpi_kernel.Dispatch.{
  int_syscall, sched_set_affinity, switch_from, switch_to, count_events, with_ticks, balance,
  handle, reschedule, common_interrupt,
}

-- The state after `switch_to`.
abbrev pub switched : ℕ → Ptr → State → State
switched core p s = record s {
  frames = update s.frames (s.procs p).frame (record (s.frames (s.procs p).frame) {
    reg = update (s.frames (s.procs p).frame).reg 0 (s.procs p).ret;
  });
  sp = update s.sp core (s.procs p).frame;
}

abbrev entry : World → ℕ → State → State
entry world core s = count_events 0 core world.entry_counter (switch_from core s)

abbrev pub with_affinity : ℕ → Ptr → State → State
with_affinity core affinityset s =
    set_ret core 0 (with_proc (current core s) (λ q. record q { affinityset = affinityset }) s)

affinity-set :
    (p : Ptr) (affinityset : Ptr) (s : State)
    → let t = with_proc p (λ q. record q { affinityset = affinityset }) s in
      ((with_proc p (λ q. record q { ret = 0 }) t).procs p).affinityset ≡ affinityset
affinity-set p affinityset s =
    let t = with_proc p (λ q. record q { affinityset = affinityset }) s in
    ap (λ (q : Process). q.affinityset) (update_self t.procs p _)
    ∙ ap (λ (q : Process). q.affinityset) (update_self s.procs p _)

pub handle-set_affinity :
    (world : World) (core : ℕ) (affinityset : Ptr) (s : State)
    → handle world core (int_syscall (sched_set_affinity affinityset)) s
      ≡ ok
          (if cpu_isset core (s.memory affinityset) then sched else ReturnState.ok)
          (with_affinity core affinityset s)
unfolding handle
handle-set_affinity world core affinityset s =
    ap
      (λ a.
        ok (if cpu_isset core (s.memory a) then sched else ReturnState.ok)
          (with_affinity core affinityset s))
      (affinity-set (current core s) affinityset s)

module _ (world : World) (core : ℕ) (s : State) where
  -- A process that gives itself an affinity set without the core it runs on goes on running there:
  -- the interrupt ends with the same process on every core and the same lists. (It is the process
  -- whose set still has the core that is rescheduled.)
  pub set_affinity_keeps_core :
      (affinityset : Ptr)
      → cpu_isset core (s.memory affinityset) ≡ false
      → (g : State) × (common_interrupt world core (int_syscall (sched_set_affinity affinityset)) s
          ≡ ok tt g)
        × (g.running ≡ s.running)
        × (g.lists ≡ s.lists)
        × ((g.procs (current core s)).affinityset ≡ affinityset)
  unfolding common_interrupt reschedule switch_to
  set_affinity_keeps_core affinityset out =
      let t = with_affinity core affinityset (entry world core s) in
      let u = count_events 1 core world.exit_counter t in
      (
        switched core (current core s) u,
        rw (handle-set_affinity world core affinityset (entry world core s), out),
        refl,
        refl,
        ap (λ (q : Process). q.affinityset) (update_self t.procs (current core s) _)
            ∙ affinity-set (current core s) affinityset (entry world core s),
      )

-- The balancing of a time slice pulls nothing where the counter does not come to 0.
pub ticks-once :
    (world : World) (core : ℕ) (s : State) (t : ℕ)
    → (s.queues core).ticks_to_balance ≡ t
    → pred32 t ≢ 0
    → balance world core s ≡ ok tt (with_ticks core (pred32 t) s)
unfolding balance
ticks-once world core s t e n =
    let more : (pred32 t == 0) ≡ false = ground arith in rw (update_self s.queues core _, e, more)
