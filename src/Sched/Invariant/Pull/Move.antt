-- ===== src/Sched/Invariant/Pull/Move.antt =====
-- One process moved by `sched_pull` of src/c/kernel/dispatch.c.
use rpi_kernel.Base.{
  ℕ, suc, ◌+◌, ◌<◌, ◌≡◌, ap, ◌∙◌, sym, subst, fun_ext, false, List, ◌==◌, arith, if◌then◌else◌, u32,
  int_max, remove, remove_absent, has, ◌∈◌, ◌∉◌, has-remove, Bool-cases, inl, inr, ==_iff, ==_refl,
}
use rpi_kernel.Config.{idle}
use rpi_kernel.Links.{Ptr}
use rpi_kernel.State.{State, Head, ready_at, same_head, head_key, lock_key}
use rpi_kernel.Sched.{queue_length}
use rpi_kernel.Sched.Ready.{ready_core, ready_head, readied}
use rpi_kernel.Sched.Next.{taken}
use rpi_kernel.Sched.Invariant.{
  differ, IsPartition, IsQueued, Detached, waiting, removed, placed, placed-IsPartition,
  waiting-placed,
}
use rpi_kernel.Sched.Invariant.Keep.{taken-IsQueued, count_up, length-update, length-at}
use rpi_kernel.Sched.Invariant.Evolve.{placed-detached}
use rpi_kernel.Sched.Invariant.Pull.{Pulls}

placed-removed :
    (p : Ptr) (hd : Head) (lists : Head → List Ptr)
    → placed p hd (removed p lists) ≡ placed p hd lists
placed-removed p hd lists =
    fun_ext
      λ a. elim (Bool-cases (same_head a hd)) [ inl e ↦ rw (e, twice hd) | inr d ↦ rw (d, twice a) ]
  where
    twice : (a : Head) → remove p (remove p (lists a)) ≡ remove p (lists a)
    twice a = remove_absent p (remove p (lists a)) (has-remove p p (lists a) ∙ rw (==_refl p))

-- One process moved from the busiest core.
module _ (core busy : ℕ) (p : Ptr) (s t : State) (q : IsQueued s) (apart : (busy == core) ≡ false)
    (m : p ∈ s.lists (ready_at busy idle)) (same_lists : t.lists ≡ s.lists)
    (same_running : t.running ≡ s.running) (same_locks : t.locks ≡ s.locks)
    (less : (c : ℕ) → queue_length t c ≡ queue_length (taken busy p s) c)
    (chosen : ready_core core p t ≡ core) where
  abbrev pub moved : State
  moved = readied core p t

  moved-lists : moved.lists ≡ placed p (ready_head core p t) (removed p s.lists)
  moved-lists =
      ap (λ (l : Head → List Ptr). placed p (ready_head core p t) l) same_lists
      ∙ sym (placed-removed p (ready_head core p t) s.lists)

  moved-length :
      (c : ℕ)
      → queue_length moved c
        ≡ (if c == ready_core core p t then u32 (queue_length t c + 1) else queue_length t c)
  moved-length c =
      length-update t (ready_core core p t) _ c
      ∙ length-at t (λ n. u32 (n + 1)) (ready_core core p t) c

  moved-IsQueued : IsQueued moved
  moved-IsQueued =
      let u = taken-IsQueued busy idle p s m q in
      record {
        partition =
            subst IsPartition (sym moved-lists)
              (placed-IsPartition (removed p s.lists) p (ready_head core p t) u.partition);
        counted = λ c.
            let target = ready_core core p t in
            count_up (c == target) (waiting (removed p s.lists) c) (waiting moved.lists c)
              (queue_length t c) (queue_length moved c)
              (ap (λ (l : Head → List Ptr). waiting l c) moved-lists
                ∙ waiting-placed (removed p s.lists) p
                    (λ a. has-remove p p (s.lists a) ∙ rw (==_refl p)) target
                    (t.procs p).current_priority c)
              (less c ∙ u.counted c) (moved-length c);
      }

  -- Another process is where it was.
  pub moved-other :
      (r : Ptr) (a : Head) → (r == p) ≡ false → has r (moved.lists a) ≡ has r (s.lists a)
  moved-other r a n =
      ap (λ (l : Head → List Ptr). has r (l a)) moved-lists
      ∙ (placed-detached (removed p s.lists) p r (ready_head core p t) a n
          ∙ (has-remove r p (s.lists a) ∙ rw n))

  other-than :
      (r : Ptr) (a : Head)
      → same_head (ready_at busy idle) a ≡ false
      → r ∈ s.lists a
      → (r == p) ≡ false
  other-than r a d i = elim (Bool-cases (r == p)) [
    | inl e ↦
        let here : p ∈ s.lists a = subst (λ x. x ∈ s.lists a) ((==_iff r p).0 e) i in
        absurd (differ (ready_at busy idle) a d (q.partition.once p (ready_at busy idle) a m here))
    | inr n ↦ n
  ]

  pub moved-Pulls : Pulls core s moved
  moved-Pulls = record {
    queued = moved-IsQueued;
    running = same_running;
    locks = same_locks;
    detached = λ r d a. moved-other r a (absent_other r d) ∙ d a;
    ready =
        λ r i k. moved-other r (ready_at core i) (other-than r (ready_at core i) (rw apart) k) ∙ k;
  }
    where
      absent_other : (r : Ptr) → Detached r s → (r == p) ≡ false
      absent_other r d = elim (Bool-cases (r == p)) [
        | inl e ↦
            let gone : p ∉ s.lists (ready_at busy idle) =
              subst (λ x. x ∉ s.lists (ready_at busy idle)) ((==_iff r p).0 e)
                (d (ready_at busy idle)) in
            absurd (ground arith)
        | inr n ↦ n
      ]

  pub moved-room :
      (n : ℕ) → queue_length s core + suc n < int_max → queue_length moved core + n < int_max
  moved-room n room =
      let same_core : queue_length t core ≡ queue_length s core =
        less core ∙ (length-update s busy _ core ∙ rw (other-core)) in
      let new_length : queue_length moved core ≡ u32 (queue_length t core + 1) =
        moved-length core ∙ rw (chosen, ==_refl core) in
      omega arith
    where
      other-core : (core == busy) ≡ false
      other-core = ground arith
