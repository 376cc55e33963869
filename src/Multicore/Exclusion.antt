-- ===== src/Multicore/Exclusion.antt =====
-- Mutual exclusion of the spinlock of src/c/multicore.c.
use rpi_kernel.Base.{ℕ, ◌≡◌, ◌≢◌, refl, arith, update_self}
use rpi_kernel.Multicore.{
  outside, spinning, holding, Cores, goes, call, won, lost, unlock, Reach, start, later,
}

pub record Exclusive (s : Cores) : Type 0 where
  -- A core behind the lock has set the flag,
  pub set : (c : ℕ) → s.pc c ≡ holding → s.flag ≡ 1
  -- it is alone,
  pub alone : (c d : ℕ) → s.pc c ≡ holding → s.pc d ≡ holding → c ≡ d
  -- and the flag is set by none but such a core.
  pub held : s.flag ≢ 0 → (c : ℕ) × (s.pc c ≡ holding)

call_keeps :
    (s : Cores) (core : ℕ) → s.pc core ≡ outside → Exclusive s → Exclusive (goes core spinning s)
call_keeps s core at e = record {
  set = λ c h. ground (arith, e.set c);
  alone = λ c d h k. ground (arith, e.alone c d);
  held = λ f. let (c, h) = e.held f in (c, ground arith);
}

won_keeps :
    (s : Cores) (core : ℕ)
    → s.flag ≡ 0
    → Exclusive s
    → Exclusive (goes core holding (record s { flag = 1 }))
won_keeps s core free e = record {
  set = λ c h. refl;
  alone = λ c d h k. ground (arith, e.set c, e.set d);
  held = λ f. (core, update_self s.pc core holding);
}

lost_keeps : (s : Cores) → s.flag ≢ 0 → Exclusive s → Exclusive (record s { flag = 1 })
lost_keeps s taken e = record { set = λ c h. refl; alone = e.alone; held = λ f. e.held taken }

unlock_keeps :
    (s : Cores) (core : ℕ)
    → s.pc core ≡ holding
    → Exclusive s
    → Exclusive (goes core outside (record s { flag = 0 }))
unlock_keeps s core at e = record {
  set = λ c h. ground (arith, e.alone c core);
  alone = λ c d h k. ground (arith, e.alone c d);
  held = λ f. absurd (f refl);
}

-- In every state that the cores reach, in whatever order they run, at most one core is behind the
-- spinlock. The flag is 1 while it is, and it is set only then: a core that spins in vain waits for one
-- that has the lock.
pub mutual_exclusion : (s : Cores) → Reach s → Exclusive s
mutual_exclusion s start = record {
  set = λ c h. ground arith;
  alone = λ c d h k. ground arith;
  held = λ f. absurd (f refl);
}
mutual_exclusion _ (later {s} r (call core at)) = call_keeps s core at (mutual_exclusion s r)
mutual_exclusion _ (later {s} r (won core at free)) = won_keeps s core free (mutual_exclusion s r)
mutual_exclusion _ (later {s} r (lost core at taken)) = lost_keeps s taken (mutual_exclusion s r)
mutual_exclusion _ (later {s} r (unlock core at)) = unlock_keeps s core at (mutual_exclusion s r)
