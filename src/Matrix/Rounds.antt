-- ===== src/Matrix/Rounds.antt =====
-- What the workers of src/c/kernel/kinit.c leave in a matrix.
use native.Mathlib.Nat.{pow-suc, mod-add-div', add-mul-mod_self_right}
use rpi_kernel.Base.{
  ℕ, zero, suc, ◌+◌, ◌*◌, ◌/◌, ◌^◌, ◌≤◌, ◌<◌, ◌≡◌, refl, ap, sym, ◌∙◌, Bool, arith, if◌then◌else◌,
  ◌&&◌, u64, Bool-cases, inl, inr,
}
use rpi_kernel.Matrix.{Matrix, Work, scalar_multiply, work_rounds, single_worker}
use rpi_kernel.Matrix.Scale.{within, scalar_multiply_lem}

abbrev pub in_work : Work → (i j : ℕ) → Bool
in_work w i j = within w.m_start w.m_end i && within w.n_start w.n_end j

apart : (r q m z : ℕ) → (r + q * m) * z ≡ r * z + q * z * m
apart r q m z = grind arith

u64_mul : (y z : ℕ) → u64 (u64 y * z) ≡ u64 (y * z)
u64_mul y z = sym (
    ap (λ (t : ℕ). u64 (t * z)) (sym (mod-add-div' y (2 ^ 64)))
    ∙ (ap u64 (apart (u64 y) (y / 2 ^ 64) (2 ^ 64) z)
        ∙ add-mul-mod_self_right (u64 y * z) (y / 2 ^ 64 * z) (2 ^ 64)))

double : (y left : ℕ) → y * 2 * 2 ^ left ≡ y * 2 ^ suc left
double y left = rw (pow-suc 2 left) (grind arith)

module _ (w : Work) (rows : w.m_start ≤ w.m_end) (columns : w.n_start ≤ w.n_end) where
  rounds_entry :
      (left : ℕ) (a : Matrix) (i j : ℕ)
      → a i j < 2 ^ 64
      → work_rounds left w a i j ≡ (if in_work w i j then u64 (a i j * 2 ^ left) else a i j)
  unfolding work_rounds
  rounds_entry zero a i j word = ground arith
  rounds_entry (suc left) a i j word =
      let b = scalar_multiply a 2 w.m_start w.m_end w.n_start w.n_end in
      let once = scalar_multiply_lem 2 a w.m_start w.m_end w.n_start w.n_end rows columns i j in
      elim (Bool-cases (in_work w i j)) [
        | inl hit ↦
            let at : b i j ≡ u64 (a i j * 2) = once ∙ rw hit refl in
            let rest = rounds_entry left b i j (omega (arith, at)) in
            rest
            ∙ rw hit (
                ap (λ (x : ℕ). u64 (x * 2 ^ left)) at
                ∙ (u64_mul (a i j * 2) (2 ^ left) ∙ ap u64 (double (a i j) left)))
        | inr miss ↦
            let at : b i j ≡ a i j = once ∙ rw miss refl in
            rounds_entry left b i j (omega (arith, at)) ∙ rw miss at
      ]

  -- The work of a worker, whose ranges of rows and columns start no later than they end, on a matrix of
  -- words of 64 bits: each entry of the ranges is multiplied by 2 ^ `iters`, modulo 2 ^ 64, and the others
  -- are as before.
  pub single_worker_lem :
      (a : Matrix) (i j : ℕ)
      → a i j < 2 ^ 64
      → single_worker w a i j ≡ (if in_work w i j then u64 (a i j * 2 ^ w.iters) else a i j)
  unfolding single_worker
  single_worker_lem a i j word = rounds_entry w.iters a i j word
