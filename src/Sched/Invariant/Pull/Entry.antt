-- ===== src/Sched/Invariant/Pull/Entry.antt =====
-- One round of the loop of `sched_pull` of src/c/kernel/dispatch.c.
use rpi_kernel.Base.{
  ℕ, suc, ◌+◌, ◌<◌, ◌≡◌, ◌≢◌, ==_iff, refl, ap, ◌∙◌, sym, Bool, true, false, List, ◌==◌, arith,
  pred32, int_max, quotient_below_1_2, update_self, has, ◌∈◌, Bool-cases, inl, inr,
}
use rpi_kernel.Config.{idle, num_cores}
use rpi_kernel.CpuSet.{cpu_zero, cpu_set, cpu_and, cpu_isset, isset-and}
use rpi_kernel.Links.{Ptr}
use rpi_kernel.State.{
  Process, State, Head, ready_at, head_key, queue_lock, lock_key, ok, with_length, with_proc,
  store_word,
}
use rpi_kernel.Sched.{queue_length, affinity, sched_pickcpu, pull_entry}
use rpi_kernel.Sched.Ready.{ready_core, readied, ready_lem}
use rpi_kernel.Sched.Invariant.{IsQueued}
use rpi_kernel.Sched.Invariant.Keep.{length-update}
use rpi_kernel.Sched.Invariant.Pull.{Pulls, Pulls-chain, queued-still, pull_mask, pickcpu_only}
use rpi_kernel.Sched.Invariant.Pull.Spare.{Spares}
use rpi_kernel.Sched.Invariant.Pull.Move.{moved-Pulls, moved-room, moved-other}

pub Pulls-still :
    (core : ℕ) (s g : State)
    → g.lists ≡ s.lists
    → ((c : ℕ) → queue_length g c ≡ queue_length s c)
    → g.running ≡ s.running
    → g.locks ≡ s.locks
    → IsQueued s
    → Pulls core s g
Pulls-still core s g l k r f q = record {
  queued = queued-still s g l k q;
  running = r;
  locks = f;
  detached = λ p d a. ap (λ (h : Head → List Ptr). has p (h a)) l ∙ d a;
  ready = λ p i m. ap (λ (h : Head → List Ptr). has p (h (ready_at core i))) l ∙ m;
}

module _ (core busy : ℕ) (target : Ptr) (small : core < num_cores)
    (apart : (busy == core) ≡ false) where
  -- What one round leaves for the others, `n` of them.
  abbrev pub Round : ℕ → Ptr → State → Bool → State → Type 0
  Round n p s stop g =
      (pull_entry core busy target p s ≡ ok stop g)
      × Pulls core s g
      × (queue_length g core + n < int_max)
      × ((r : Ptr)
          → (r == p) ≡ false
          → r ∈ s.lists (ready_at busy idle)
          → r ∈ g.lists (ready_at busy idle))
      × Spares core target s g

  module _ (n : ℕ) (p : Ptr) (s : State) (q : IsQueued s) (m : p ∈ s.lists (ready_at busy idle))
      (room : queue_length s core + suc n < int_max) (free : s.locks (queue_lock core) ≡ 0) where
    zeroed : State
    zeroed = store_word target cpu_zero s

    alone_set : State
    alone_set = store_word target (cpu_set core (zeroed.memory target)) zeroed

    masked : State
    masked = store_word target (cpu_and (alone_set.memory target) (affinity alone_set p)) alone_set

    masked-still : Pulls core s masked
    unfolding masked alone_set zeroed
    masked-still = Pulls-still core s masked refl (λ c. refl) refl refl q

    mask : masked.memory target ≡ cpu_and (cpu_set core cpu_zero) (affinity alone_set p)
    unfolding masked alone_set zeroed
    mask =
        update_self alone_set.memory target _
        ∙ ap (λ w. cpu_and w (affinity alone_set p))
            (update_self zeroed.memory target _
              ∙ ap (cpu_set core) (update_self s.memory target cpu_zero))

    aimed : State
    aimed = with_proc p (λ r. record r { affinityset = target }) (with_length busy pred32 masked)

    aimed-short : queue_length aimed core < int_max
    unfolding aimed masked alone_set zeroed
    aimed-short =
        let same_length : queue_length aimed core ≡ queue_length s core =
          length-update s busy _ core ∙ rw other_core in
        omega arith
      where
        other_core : (core == busy) ≡ false
        other_core = ground arith

    -- The process may run on the core where the masked set has it.
    in_set :
        cpu_isset core (masked.memory target) ≡ true → cpu_isset core (affinity alone_set p) ≡ true
    in_set up =
        let both : cpu_isset core (cpu_and (cpu_set core cpu_zero) (affinity alone_set p)) ≡ true =
          sym (ap (cpu_isset core) mask) ∙ up in
        ground (arith, isset-and core (cpu_set core cpu_zero) (affinity alone_set p))

    only :
        cpu_isset core (masked.memory target) ≡ true
        → (c : ℕ) → cpu_isset c (masked.memory target) ≡ (c == core)
    only up c = ap (cpu_isset c) mask ∙ pull_mask core (affinity alone_set p) c (in_set up)

    aimed-at : cpu_isset core (masked.memory target) ≡ true → ready_core core p aimed ≡ core
    unfolding aimed
    aimed-at up =
        ap (λ a. sched_pickcpu core aimed (masked.memory a))
          (ap (λ (r : Process). r.affinityset) (update_self masked.procs p _))
        ∙ pickcpu_only aimed (masked.memory target) core (only up) small aimed-short

    pulled : State
    pulled =
        with_proc p (λ r. record r { affinityset = (masked.procs p).affinityset })
          (readied core p aimed)

    stops :
        quotient_below_1_2 (queue_length s busy) (queue_length s core) ≡ true
        → pull_entry core busy target p s ≡ ok true s
    unfolding pull_entry
    stops balanced = rw balanced

    skips :
        quotient_below_1_2 (queue_length s busy) (queue_length s core) ≡ false
        → cpu_isset core (masked.memory target) ≡ false
        → pull_entry core busy target p s ≡ ok false masked
    unfolding pull_entry masked alone_set zeroed
    skips unbalanced barred = rw (unbalanced, barred)

    pulls :
        quotient_below_1_2 (queue_length s busy) (queue_length s core) ≡ false
        → cpu_isset core (masked.memory target) ≡ true
        → pull_entry core busy target p s ≡ ok false pulled
    unfolding pull_entry pulled aimed masked alone_set zeroed
    pulls unbalanced up =
        let choice = aimed-at up in
        let lock : aimed.locks (queue_lock (ready_core core p aimed)) ≡ 0 = rw choice free in
        rw (unbalanced, up, ready_lem core p aimed lock)

    masked-room : queue_length masked core + n < int_max
    unfolding masked alone_set zeroed
    masked-room = omega arith

    masked-stays :
        (r : Ptr)
        → (r == p) ≡ false
        → r ∈ s.lists (ready_at busy idle)
        → r ∈ masked.lists (ready_at busy idle)
    unfolding masked alone_set zeroed
    masked-stays r d i = i

    pulled-Pulls : cpu_isset core (masked.memory target) ≡ true → Pulls core s pulled
    unfolding pulled aimed masked alone_set zeroed
    pulled-Pulls up =
        let e =
          moved-Pulls core busy p s aimed q apart m refl refl refl (λ c. refl) (aimed-at up) in
        Pulls-chain e
          (Pulls-still core (readied core p aimed) pulled refl (λ c. refl) refl refl e.queued)

    pulled-room :
        cpu_isset core (masked.memory target) ≡ true → queue_length pulled core + n < int_max
    unfolding pulled aimed masked alone_set zeroed
    pulled-room up =
        moved-room core busy p s aimed q apart m refl refl refl (λ c. refl) (aimed-at up) n room

    pulled-stays :
        cpu_isset core (masked.memory target) ≡ true
        → (r : Ptr) → (r == p) ≡ false
        → r ∈ s.lists (ready_at busy idle)
        → r ∈ pulled.lists (ready_at busy idle)
    unfolding pulled aimed masked alone_set zeroed
    pulled-stays up r d i =
        moved-other core busy p s aimed q apart m refl refl refl (λ c. refl) (aimed-at up) r
          (ready_at busy idle) d
        ∙ i

    masked-Spares : Spares core target s masked
    unfolding masked alone_set zeroed
    masked-Spares = record {
      sets = λ x. refl;
      memory = λ a n. ground arith;
      spared = λ x n barred d r i. i;
    }

    -- A process that the core may not run is not the one that is pulled.
    barred-apart :
        cpu_isset core (masked.memory target) ≡ true
        → (x : Ptr) → (s.procs x).affinityset ≢ target
        → cpu_isset core (affinity s x) ≡ false
        → (x == p) ≡ false
    unfolding alone_set zeroed
    barred-apart up x n barred = elim (Bool-cases (x == p)) [
      | inl e ↦
          let same = (==_iff x p).0 e in
          let n' : (s.procs p).affinityset ≢ target =
            λ z. n (ap (λ (y : Ptr). (s.procs y).affinityset) same ∙ z) in
          let kept : affinity alone_set p ≡ affinity s p = ground arith in
          let barred' : cpu_isset core (affinity s p) ≡ false =
            sym (ap (λ (y : Ptr). cpu_isset core (affinity s y)) same) ∙ barred in
          let no_set : cpu_isset core (affinity alone_set p) ≡ false =
            ap (cpu_isset core) kept ∙ barred' in
          absurd (ground (arith, in_set up))
      | inr d ↦ d
    ]

    pulled-Spares : cpu_isset core (masked.memory target) ≡ true → Spares core target s pulled
    unfolding pulled aimed masked alone_set zeroed
    pulled-Spares up = record {
      sets = λ x. elim (Bool-cases (x == p)) [
        | inl e ↦ rw e (ap (λ (y : Ptr). (s.procs y).affinityset) (sym ((==_iff x p).0 e)))
        | inr d ↦ rw d refl
      ];
      memory = λ a n. ground arith;
      spared = λ x n barred d r i.
          moved-other core busy p s aimed q apart m refl refl refl (λ c. refl) (aimed-at up) x
            (ready_at d r) (barred-apart up x n barred)
          ∙ i;
    }

    -- One round.
    pub pull_entry-Round : (stop : Bool) × (g : State) × Round n p s stop g
    pull_entry-Round =
        elim (Bool-cases (quotient_below_1_2 (queue_length s busy) (queue_length s core))) [
          | inl balanced ↦ (
            true,
            s,
            (
              stops balanced,
              Pulls-still core s s refl (λ c. refl) refl refl q,
              omega arith,
              λ r d i. i,
              record { sets = λ x. refl; memory = λ a n. refl; spared = λ x n b d r i. i },
            ),
          )
          | inr unbalanced ↦ elim (Bool-cases (cpu_isset core (masked.memory target))) [
            | inl up ↦ (
              false,
              pulled,
              (
                pulls unbalanced up,
                pulled-Pulls up,
                pulled-room up,
                pulled-stays up,
                pulled-Spares up,
              ),
            )
            | inr barred ↦ (
              false,
              masked,
              (skips unbalanced barred, masked-still, masked-room, masked-stays, masked-Spares),
            )
          ]
        ]
