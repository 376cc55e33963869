-- ===== src/Multicore/Starve.antt =====
-- Progress and fairness of the spinlock of src/c/multicore.c.
use rpi_kernel.Base.{
  ℕ, zero, suc, ◌≡◌, ◌≢◌, refl, arith, update, update_self, fun_ext, ◌⊎◌, inl, inr, Bool-cases,
  ==_iff, ◌==◌, false, sym, ap, ◌∙◌, subst,
}
use rpi_kernel.Multicore.{
  Pc, outside, spinning, holding, Cores, goes, Step, call, won, unlock, Reach,
}
use rpi_kernel.Multicore.Exclusion.{mutual_exclusion}

-- `n` vain accesses of a core that spins all along, while the others take steps.
pub data Spins (core : ℕ) (s : Cores) : ℕ → Cores → Type 0 where
  here : Spins core s 0 s
  others :
      {n : ℕ} {t u : Cores} → Spins core s n t → Step t u → u.pc core ≡ spinning → Spins core s n u
  vain :
      {n : ℕ} {t : Cores}
      → Spins core s n t
      → t.flag ≢ 0
      → t.pc core ≡ spinning
      → Spins core s (suc n) (record t { flag = 1 })

-- The core takes the lock in the state `via`, which is `s` or one step from it.
pub record Gets (core : ℕ) (s : Cores) : Type 0 where
  pub via : Cores
  pub left : (via ≡ s) ⊎ Step s via
  pub got : Step via (goes core holding (record via { flag = 1 }))

spins-Gets : (s : Cores) → Reach s → (c : ℕ) → s.pc c ≡ spinning → Gets c s
spins-Gets s r c at = elim (Bool-cases (s.flag == 0)) [
  | inl e ↦ record { via = s; left = inl refl; got = won c at ((==_iff s.flag 0).0 e) }
  | inr n ↦
      let (d, h) = (mutual_exclusion s r).held (ground arith) in
      record {
        via = goes d outside (record s { flag = 0 });
        left = inr (unlock d h);
        got = won c (ground arith) refl;
      }
]

-- One round of the core `d`: it takes the lock, `c` tries in vain, and `d` gives it back.
one_round :
    (c d n : ℕ) (s : Cores)
    → c ≢ d
    → s.pc c ≡ spinning
    → s.pc d ≡ outside
    → s.flag ≡ 0
    → Spins c s n s
    → Spins c s (suc n) s
one_round c d n s apart at out free so_far =
    let called = goes d spinning s in
    let taken = goes d holding (record called { flag = 1 }) in
    let back = goes d outside (record taken { flag = 0 }) in
    let apart' : (c == d) ≡ false = ground arith in
    let spins : (p : Pc) → update s.pc d p c ≡ spinning = λ p. rw apart' at in
    let calls = others so_far (call d out) (spins spinning) in
    let wins = others calls (won d (update_self s.pc d spinning) free) (rw apart' at) in
    let tries = vain wins (λ e. ground arith) (rw apart' at) in
    let releases = others tries (unlock d (update_self called.pc d holding)) (rw apart' at) in
    let same_pc : back.pc ≡ s.pc = fun_ext λ k. elim (Bool-cases (k == d)) [
      | inl e ↦ rw e (sym (ap s.pc ((==_iff k d).0 e) ∙ out))
      | inr m ↦ rw m refl
    ] in
    let same : back ≡ s = λ i. record { flag = sym free i; pc = same_pc i } in
    subst (Spins c s (suc n)) same releases

rounds :
    (c d : ℕ) (s : Cores)
    → c ≢ d
    → s.pc c ≡ spinning
    → s.pc d ≡ outside
    → s.flag ≡ 0
    → (n : ℕ) → Spins c s n s
rounds c d s apart at out free zero = here
rounds c d s apart at out free (suc n) =
    one_round c d n s apart at out free (rounds c d s apart at out free n)

-- In every state that the cores reach, a core that spins gets the lock in at most two steps if it is let:
-- the core that has the lock, if one has, gives it back, and the next access of the core that spins takes
-- it. Nothing makes sure that it is let: where the lock is free and another core is outside, the cores have
-- a run that comes back to the same state in which it spins all along and tries any number of times in vain.
pub lock_progress :
    (s : Cores) (c : ℕ)
    → Reach s
    → s.pc c ≡ spinning
    → Gets c s × ((d n : ℕ) → c ≢ d → s.pc d ≡ outside → s.flag ≡ 0 → Spins c s n s)
lock_progress s c r at =
    (spins-Gets s r c at, λ d n apart out free. rounds c d s apart at out free n)
