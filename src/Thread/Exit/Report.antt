-- ===== src/Thread/Exit/Report.antt =====
-- What the processes learn that wait for the end of another: `wake_waiting` in `proc_exit` of
-- src/c/kernel/thread.c.
use rpi_kernel.Base.{
  ℕ, ◌≡◌, refl, ap, ◌∙◌, Bool, false, not, ◌&&◌, ◌||◌, List, [], ◌∷◌, ◌==◌, if◌then◌else◌, arith,
  has, Bool-cases, inl, inr,
}
use rpi_kernel.Config.{exit, zombie, runnable}
use rpi_kernel.Links.{Ptr, null}
use rpi_kernel.State.{
  Process, State, waiting_for, ok, Unlocked, with_proc, with_proc-keeps, del_sched,
}
use rpi_kernel.Sched.{current}
use rpi_kernel.Sched.Ready.{readied}
use rpi_kernel.Thread.{joined_with, proc_exit}
use rpi_kernel.Thread.Exit.{woken_joiners, ending, notified, exited, proc_exit_lem}

-- Some process of the list wants the exit status at the address.
abbrev pub wanted : (a : Ptr) → List Ptr → State → Bool
wanted a [] s = false
wanted a (q ∷ qs) s = (not (a == null) && ((s.procs q).status == a)) || wanted a qs s

abbrev after_one : (core status : ℕ) → Ptr → State → State
after_one core status p s = readied core p (del_sched p (joined_with status p s))

joined-procs :
    (status : ℕ) (p : Ptr) (s : State)
    → (joined_with status p s).procs ≡ (with_proc p (λ q. record q { ret = 0 }) s).procs
joined-procs status p s = ground arith

joined-memory :
    (status : ℕ) (p a : Ptr) (s : State)
    → (joined_with status p s).memory a
      ≡ (if not (a == null) && ((s.procs p).status == a) then status else s.memory a)
joined-memory status p a s = ground arith

one-status :
    (core status : ℕ) (p q : Ptr) (s : State)
    → ((after_one core status p s).procs q).status ≡ (s.procs q).status
one-status core status p q s =
    with_proc-keeps (λ r. r.status) p (λ r. record r { state = runnable })
      (del_sched p (joined_with status p s)) q (λ r. refl)
    ∙ (ap (λ (f : Ptr → Process). (f q).status) (joined-procs status p s)
        ∙ with_proc-keeps (λ r. r.status) p (λ r. record r { ret = 0 }) s q (λ r. refl))

one-ret :
    (core status : ℕ) (p q : Ptr) (s : State)
    → ((after_one core status p s).procs q).ret ≡ (if q == p then 0 else (s.procs q).ret)
one-ret core status p q s =
    with_proc-keeps (λ r. r.ret) p (λ r. record r { state = runnable })
      (del_sched p (joined_with status p s)) q (λ r. refl)
    ∙ (ap (λ (f : Ptr → Process). (f q).ret) (joined-procs status p s)
        ∙ elim (Bool-cases (q == p)) [ inl e ↦ rw e refl | inr d ↦ rw d refl ])

wanted-same :
    (a : Ptr) (qs : List Ptr) (s g : State)
    → ((q : Ptr) → (g.procs q).status ≡ (s.procs q).status)
    → wanted a qs g ≡ wanted a qs s
wanted-same a [] s g same = refl
wanted-same a (q ∷ qs) s g same = rw (same q, wanted-same a qs s g same)

joiners-memory :
    (core status : ℕ) (a : Ptr) (qs : List Ptr) (s : State)
    → (woken_joiners status core qs s).memory a ≡ (if wanted a qs s then status else s.memory a)
joiners-memory core status a [] s = refl
joiners-memory core status a (p ∷ qs) s =
    joiners-memory core status a qs (after_one core status p s)
    ∙ ground (
      arith,
      wanted-same a qs s (after_one core status p s) (λ q. one-status core status p q s),
      joined-memory status p a s,
    )

joiners-ret :
    (core status : ℕ) (q : Ptr) (qs : List Ptr) (s : State)
    → ((woken_joiners status core qs s).procs q).ret ≡ (if has q qs then 0 else (s.procs q).ret)
joiners-ret core status q [] s = refl
joiners-ret core status q (p ∷ qs) s =
    joiners-ret core status q qs (after_one core status p s)
    ∙ ground (arith, one-ret core status p q s)

-- Where no spinlock is held, `proc_exit` returns with the exit status at every address, other than NULL, at
-- which a process waits for it, and nowhere else, and with the result 0 for just the processes that wait.
pub proc_exit_reports :
    (core status : ℕ) (s : State)
    → Unlocked s
    → (g : State) × (proc_exit core status s ≡ ok exit g)
      × ((a : Ptr)
          → g.memory a
            ≡ (if wanted a (s.lists (waiting_for (current core s))) s then status else s.memory a))
      × ((q : Ptr)
          → (g.procs q).ret
            ≡ (if has q (s.lists (waiting_for (current core s))) then 0 else (s.procs q).ret))
unfolding exited notified ending
proc_exit_reports core status s free =
    let self = current core s in
    let waiting = s.lists (waiting_for self) in
    let t = ending core status s free in
    (
      exited core status s free,
      proc_exit_lem core status s free,
      λ a.
          joiners-memory core status a waiting t
          ∙ ap (λ b. if b then status else s.memory a)
              (wanted-same a waiting s t (λ q.
                with_proc-keeps (λ r. r.status) self (λ r. record r { state = zombie }) s q
                  (λ r. refl))),
      λ q.
          joiners-ret core status q waiting t
          ∙ ap (λ r. if has q waiting then 0 else r)
              (with_proc-keeps (λ r. r.ret) self (λ r. record r { state = zombie }) s q
                (λ r. refl)),
    )
