-- ===== src/Dispatch/Live/Choose.antt =====
-- The choice of the next process, `next` and `ready` of src/c/kernel/dispatch.c, on a core at work.
use rpi_kernel.Base.{
  ℕ, ◌≡◌, ◌≢◌, refl, ap, sym, ◌∙◌, subst, some, false, arith, ◌==◌, update_self, ◌∈◌, has,
  has-remove, Bool-cases, inl, inr, ==_iff, ==_refl,
}
use rpi_kernel.Config.{Priority}
use rpi_kernel.Links.{Ptr, null}
use rpi_kernel.State.{State, ready_at, ok}
use rpi_kernel.Sched.{next}
use rpi_kernel.Sched.Next.{taken, next_lem}
use rpi_kernel.Dispatch.Sound.{taken-IsSound}
use rpi_kernel.Dispatch.Live.{Home, IsUp, IsUpBut}

module _ (idles : ℕ → Ptr) (core : ℕ) (s : State) (w : IsUpBut idles core s) (r : Priority)
    (p : Ptr) (m : p ∈ s.lists (ready_at core r)) where
  chosen-ne-null : p ≢ null
  chosen-ne-null e =
      let absent = w.null_absent (ready_at core r) in
      let there = subst (λ x. x ∈ s.lists (ready_at core r)) e m in ground arith

  -- An idle process that is not chosen stays where it is.
  Home-apart :
      (d : ℕ) → (d == core) ≡ false → Home (idles d) d s → Home (idles d) d (taken core p s)
  Home-apart d other (inl runs) = inl (rw other runs)
  Home-apart d other (inr (r', i)) = inr (
    r',
    has-remove (idles d) p (s.lists (ready_at d r')) ∙ elim (Bool-cases (idles d == p)) [
      | inl e ↦
          let same_head : ready_at core r ≡ ready_at d r' =
            w.left.queued.partition.once p (ready_at core r) (ready_at d r') m
              (subst (λ x. x ∈ s.lists (ready_at d r')) ((==_iff _ p).0 e) i) in
          let same_core : core ≡ d = cc in absurd (ground arith)
      | inr n ↦ rw (n, i) refl
    ],
  )

  Home-here : Home (idles core) core (taken core p s)
  Home-here = elim (Bool-cases (idles core == p)) [
    | inl e ↦ inl (update_self s.running core p ∙ sym ((==_iff _ p).0 e))
    | inr n ↦
        let (r', i) = w.here in
        inr (r', has-remove (idles core) p (s.lists (ready_at core r')) ∙ rw (n, i) refl)
  ]

  chosen-IsUp : IsUp idles (taken core p s)
  chosen-IsUp = record {
    sound = taken-IsSound core r p s w.left m;
    free = w.free;
    null_absent = λ a. has-remove null p (s.lists a) ∙ ground (arith, w.null_absent a);
    home = λ d small pos. elim (Bool-cases (d == core)) [
      | inl e ↦ subst (λ k. Home (idles k) k (taken core p s)) (sym ((==_iff d core).0 e)) Home-here
      | inr n ↦ Home-apart d n (w.home d n small (λ z. pos (rw n z)))
    ];
  }

-- `next` finds a process, and the cores are at work again.
pub next-IsUp :
    (idles : ℕ → Ptr) (core : ℕ) (s : State)
    → IsUpBut idles core s
    → (p : Ptr) × (next core s ≡ ok (some p) (taken core p s))
      × (p ≢ null)
      × IsUp idles (taken core p s)
next-IsUp idles core s w = elim (next_lem core s (w.free _)) [
  | inl (r, p, rest, e, above, run) ↦
      let m : p ∈ s.lists (ready_at core r) = ap (has p) e ∙ ground (arith, ==_refl p) in
      (p, run, chosen-ne-null idles core s w r p m, chosen-IsUp idles core s w r p m)
  | inr (empty, run) ↦
      let (r, i) = w.here in let gone = ap (has (idles core)) (empty r) in absurd (ground arith)
]
