-- ===== src/Sched/Invariant/Evolve.antt =====
-- What a call may do to the queues before the next process is chosen, and that blocking and waking,
-- of src/c/kernel/dispatch.c, do no more.
use rpi_kernel.Base.{
  ℕ, ◌≡◌, ◌≢◌, refl, ap, ◌∙◌, sym, subst, true, false, List, [], ◌==◌, arith, u32, update_key, has,
  ◌∈◌, ◌∉◌, Bool-cases, inl, inr, eq_of_same, ==_iff,
}
use rpi_kernel.Config.{Priority, idle, low, med, high}
use rpi_kernel.Links.{Ptr}
use rpi_kernel.State.{RunQueue, State, Head, ready_at, same_head, head_key}
use rpi_kernel.Sched.Ready.{ready_head, readied}
use rpi_kernel.Sched.Block.{asleep, IsWaitQueue}
use rpi_kernel.Sched.Invariant.{
  differ, IsPartition, IsQueued, Detached, waiting, placed, has-placed,
}
use rpi_kernel.Sched.Invariant.Keep.{readied-IsQueued, asleep-IsQueued}

-- The queues are sound afterwards, no core changes its running process, what is in no list stays so,
-- but for one process, and what is ready on a core stays ready there.
pub record Evolves (out : Ptr) (s g : State) : Type 0 where
  pub queued : IsQueued g
  pub running : g.running ≡ s.running
  pub detached : (r : Ptr) → r ≢ out → Detached r s → Detached r g
  pub ready :
      (q : Ptr) (c : ℕ) (r : Priority) → q ∈ s.lists (ready_at c r) → q ∈ g.lists (ready_at c r)

pub chain : {out : Ptr} {s t g : State} → Evolves out s t → Evolves out t g → Evolves out s g
chain e f = record {
  queued = f.queued;
  running = f.running ∙ e.running;
  detached = λ r n d. f.detached r n (e.detached r n d);
  ready = λ q c r m. f.ready q c r (e.ready q c r m);
}

-- A call that leaves lists, lengths and running processes alone.
pub still :
    (out : Ptr) (s g : State)
    → IsQueued s
    → g.lists ≡ s.lists
    → g.queues ≡ s.queues
    → g.running ≡ s.running
    → Evolves out s g
still out s g q l k r = record {
  queued = record {
    partition = subst IsPartition (sym l) q.partition;
    counted = λ c.
        ap (λ (f : ℕ → RunQueue). (f c).length) k
        ∙ (q.counted c ∙ ap (λ (f : Head → List Ptr). u32 (waiting f c)) (sym l));
  };
  running = r;
  detached = λ p n d a. ap (λ (f : Head → List Ptr). has p (f a)) l ∙ d a;
  ready = λ p c i m. ap (λ (f : Head → List Ptr). has p (f (ready_at c i))) l ∙ m;
}

pub placed-detached :
    (lists : Head → List Ptr) (p r : Ptr) (hd a : Head)
    → (r == p) ≡ false
    → has r (placed p hd lists a) ≡ has r (lists a)
placed-detached lists p r hd a n = has-placed lists p hd r a ∙ rw n

pub other-of-member : (p q : Ptr) (xs : List Ptr) → q ∈ xs → p ∉ xs → (q == p) ≡ false
other-of-member p q xs m o = elim (Bool-cases (q == p)) [
  | inl e ↦ let same_process : q ≡ p = (==_iff q p).0 e in absurd (ground arith)
  | inr n ↦ n
]

other-of-ne : (r p : Ptr) → r ≢ p → (r == p) ≡ false
other-of-ne r p n = ground arith

pub asleep-Evolves :
    (head : Head) (p : Ptr) (s : State)
    → IsWaitQueue head
    → Detached p s
    → IsQueued s
    → Evolves p s (asleep head p s)
asleep-Evolves head p s other out q = record {
  queued = asleep-IsQueued head p s other out q;
  running = refl;
  detached = λ r n d a. placed-detached s.lists p r head a (other-of-ne r p n) ∙ d a;
  ready = λ r c i m.
      placed-detached s.lists p r head (ready_at c i)
        (other-of-member p r (s.lists (ready_at c i)) m (out (ready_at c i)))
      ∙ m;
}

pub readied-Evolves :
    (core : ℕ) (p : Ptr) (s : State) → Detached p s → IsQueued s → Evolves p s (readied core p s)
readied-Evolves core p s out q = record {
  queued = readied-IsQueued core p s out q;
  running = refl;
  detached =
      λ r n d a. placed-detached s.lists p r (ready_head core p s) a (other-of-ne r p n) ∙ d a;
  ready = λ r c i m.
      placed-detached s.lists p r (ready_head core p s) (ready_at c i)
        (other-of-member p r (s.lists (ready_at c i)) m (out (ready_at c i)))
      ∙ m;
}

-- A list head initialised again.
abbrev pub emptied : Head → (Head → List Ptr) → Head → List Ptr
emptied head lists = update_key lists head []

emptied-sub :
    (head : Head) (lists : Head → List Ptr) (p : Ptr) (a : Head)
    → p ∈ emptied head lists a
    → p ∈ lists a
emptied-sub head lists p a m = elim (Bool-cases (same_head a head)) [
  | inl e ↦ let none_there : false ≡ true = rw e at m in absurd cc
  | inr d ↦ rw d at m
]

emptied-out :
    (head : Head) (lists : Head → List Ptr) (p : Ptr) (a : Head)
    → p ∉ lists a
    → p ∉ emptied head lists a
emptied-out head lists p a o = elim (Bool-cases (same_head a head)) [
  | inl e ↦ rw e
  | inr d ↦ rw d o
]

emptied-IsPartition :
    (head : Head) (lists : Head → List Ptr) → IsPartition lists → IsPartition (emptied head lists)
emptied-IsPartition head lists part = record {
  once = λ p a b i j. part.once p a b (emptied-sub head lists p a i) (emptied-sub head lists p b j);
  distinct = λ a. elim (Bool-cases (same_head a head)) [
    | inl e ↦ rw e tt
    | inr d ↦ rw d (part.distinct a)
  ];
}

emptied-ready :
    (head : Head) (lists : Head → List Ptr) (c : ℕ) (r : Priority)
    → IsWaitQueue head
    → emptied head lists (ready_at c r) ≡ lists (ready_at c r)
emptied-ready head lists c r other = elim (Bool-cases (same_head (ready_at c r) head)) [
  | inl e ↦ absurd (differ head (ready_at c r) (other c r) (sym (eq_of_same (ready_at c r) head e)))
  | inr d ↦ rw d
]

pub emptied-Evolves :
    (out : Ptr) (head : Head) (s g : State)
    → IsWaitQueue head
    → IsQueued s
    → g.lists ≡ emptied head s.lists
    → g.queues ≡ s.queues
    → g.running ≡ s.running
    → Evolves out s g
emptied-Evolves out head s g other q l k run =
    chain empties (still out (record s { lists = emptied head s.lists }) g empties.queued l k run)
  where
    empties : Evolves out s (record s { lists = emptied head s.lists })
    empties = record {
      queued = record {
        partition = emptied-IsPartition head s.lists q.partition;
        counted = λ c.
            q.counted c
            ∙ rw (
              emptied-ready head s.lists c idle other,
              emptied-ready head s.lists c low other,
              emptied-ready head s.lists c med other,
              emptied-ready head s.lists c high other,
            );
      };
      running = refl;
      detached = λ r n d a. emptied-out head s.lists r a (d a);
      ready = λ p c r m. ap (has p) (emptied-ready head s.lists c r other) ∙ m;
    }
