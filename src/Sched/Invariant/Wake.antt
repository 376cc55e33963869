-- ===== src/Sched/Invariant/Wake.antt =====
-- Waking the processes of a wait queue, `alert_on_locked_nr` of src/c/kernel/dispatch.c, does no more
-- to the queues than a call may.
use rpi_kernel.Base.{
  ℕ, ◌≡◌, ◌≢◌, refl, ap, ◌∙◌, sym, Bool, true, false, List, [], ◌∷◌, ◌==◌, arith, remove_absent,
  has, ◌∈◌, ◌∉◌, has-remove, Distinct, Bool-cases, inl, inr, eq_of_same, ==_refl,
}
use rpi_kernel.Config.{Priority, idle, low, med, high}
use rpi_kernel.Links.{Ptr}
use rpi_kernel.State.{State, Head, ready_at, same_head, head_key, ok, Cmd, del_sched}
use rpi_kernel.Sched.Ready.{ready_head, readied}
use rpi_kernel.Sched.Block.{IsWaitQueue, woken}
use rpi_kernel.Sched.Invariant.{differ, IsQueued, Detached, removed-IsPartition, has-removed}
use rpi_kernel.Sched.Invariant.Evolve.{
  Evolves, chain, other-of-member, still, placed-detached, readied-Evolves,
}

-- One process woken, out of a wait queue that holds it.
module _ (core : ℕ) (head : Head) (other : IsWaitQueue head) (p : Ptr) (s : State) (q : IsQueued s)
    (m : p ∈ s.lists head) where
  pulled_out : State
  pulled_out = del_sched p s

  elsewhere : (a : Head) → same_head a head ≡ false → p ∉ s.lists a
  elsewhere a d = elim (Bool-cases (has p (s.lists a))) [
    | inl i ↦ absurd (differ a head d (q.partition.once p a head i m))
    | inr o ↦ o
  ]

  pulled-Detached : Detached p pulled_out
  unfolding pulled_out
  pulled-Detached a = has-remove p p (s.lists a) ∙ rw (==_refl p)

  pulled-ready : (c : ℕ) (r : Priority) → pulled_out.lists (ready_at c r) ≡ s.lists (ready_at c r)
  unfolding pulled_out
  pulled-ready c r =
      remove_absent p (s.lists (ready_at c r)) (elsewhere (ready_at c r) (apart_head c r))
    where
      apart_head : (c : ℕ) (r : Priority) → same_head (ready_at c r) head ≡ false
      apart_head c r = elim (Bool-cases (same_head (ready_at c r) head)) [
        | inl e ↦
            absurd (differ head (ready_at c r) (other c r) (sym (eq_of_same (ready_at c r) head e)))
        | inr d ↦ d
      ]

  pulled-Evolves : (out : Ptr) → Evolves out s pulled_out
  unfolding pulled_out
  pulled-Evolves out = record {
    queued = record {
      partition = removed-IsPartition s.lists p q.partition;
      counted = λ c.
          q.counted c
          ∙ rw (pulled-ready c idle, pulled-ready c low, pulled-ready c med, pulled-ready c high);
    };
    running = refl;
    detached = λ r n d a. has-removed s.lists p r a ∙ ground (arith, d a);
    ready = λ r c i k. ap (has r) (pulled-ready c i) ∙ k;
  }

  pub wake-Evolves : (out : Ptr) → Evolves out s (readied core p (del_sched p s))
  unfolding pulled_out
  wake-Evolves out =
      let e = pulled-Evolves out in
      let f = readied-Evolves core p (del_sched p s) pulled-Detached e.queued in
      record {
        queued = f.queued;
        running = refl;
        detached = λ r n d. f.detached r (apart_member r d) (e.detached r n d);
        ready = λ r c i k. f.ready r c i (e.ready r c i k);
      }
    where
      apart_member : (r : Ptr) → Detached r s → r ≢ p
      apart_member r d same = ground (arith, d head, ap (λ x. has x (s.lists head)) same)

  pub wake-stays :
      (r : Ptr)
      → (r == p) ≡ false
      → r ∈ s.lists head
      → r ∈ (readied core p (del_sched p s)).lists head
  wake-stays r n k =
      placed-detached (del_sched p s).lists p r (ready_head core p (del_sched p s)) head n
      ∙ (has-removed s.lists p r head ∙ ground arith)

module _ (core : ℕ) (condition : Ptr → Cmd Bool) (effect : Ptr → State → State)
    (wakes : (p : Ptr) (s : State) → condition p s ≡ ok true (effect p s))
    (locks_kept : (p : Ptr) (s : State) → (effect p s).locks ≡ s.locks)
    (lists_kept : (p : Ptr) (s : State) → (effect p s).lists ≡ s.lists)
    (queues_kept : (p : Ptr) (s : State) → (effect p s).queues ≡ s.queues)
    (running_kept : (p : Ptr) (s : State) → (effect p s).running ≡ s.running) (out : Ptr)
    (head : Head) (other : IsWaitQueue head) where
  -- Processes of a wait queue woken in order.
  pub woken-Evolves :
      (ps : List Ptr) (s : State)
      → Distinct ps
      → ((p : Ptr) → p ∈ ps → p ∈ s.lists head)
      → IsQueued s
      → Evolves out s (woken core condition effect wakes locks_kept ps s)
  woken-Evolves [] s d sub q = still out s s q refl refl refl
  woken-Evolves (p ∷ ps) s d sub q =
      let t = effect p s in
      let e = still out s t q (lists_kept p s) (queues_kept p s) (running_kept p s) in
      let has_t : (r : Ptr) → has r (t.lists head) ≡ has r (s.lists head) =
        λ r. ap (λ (f : Head → List Ptr). has r (f head)) (lists_kept p s) in
      let m : p ∈ t.lists head = has_t p ∙ sub p (rw (==_refl p)) in
      let f = wake-Evolves core head other p t e.queued m out in
      let rest =
        woken-Evolves ps (readied core p (del_sched p t)) d.1
          (λ r i.
            wake-stays core head other p t e.queued m r (other-of-member p r ps i d.0)
              (has_t r ∙ sub r (ground arith)))
          f.queued in
      chain (chain e f) rest
