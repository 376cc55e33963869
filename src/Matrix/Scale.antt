-- ===== src/Matrix/Scale.antt =====
-- What `scalar_multiply` of src/c/kernel/kinit.c does to each entry, and which entries the sections
-- of `perf_strided_scalar_multiply` reach.
use rpi_kernel.Base.{
  ℕ, zero, suc, ◌+◌, ◌-◌, ◌*◌, ◌/◌, ◌%◌, ◌≤◌, ◌<◌, ◌≡◌, ◌∙◌, Bool, arith, ◌==◌, if◌then◌else◌, ltb,
  leb, ◌&&◌, u64,
}
use rpi_kernel.Matrix.{
  Matrix, matrix_m, matrix_n, stride, sections, set_entry, scale_row, scale_rows, scalar_multiply,
  strided_multiply,
}

-- A number is in a half-open range.
abbrev pub within : (start end i : ℕ) → Bool
within start end i = leb start i && ltb i end

module _ (factor : ℕ) where
  row_entry :
      (m left n : ℕ) (a : Matrix) (i j : ℕ)
      → scale_row factor m left n a i j
        ≡ (if (i == m) && within n (n + left) j then u64 (a i j * factor) else a i j)
  unfolding scale_row
  row_entry m zero n a i j = ground arith
  row_entry m (suc left) n a i j =
      row_entry m left (suc n) (set_entry m n (u64 (a m n * factor)) a) i j ∙ ground arith

  rows_entry :
      (n_start n_end : ℕ)
      → n_start ≤ n_end
      → (left m : ℕ) (a : Matrix) (i j : ℕ)
      → scale_rows factor n_start n_end left m a i j
        ≡ (if within m (m + left) i && within n_start n_end j then u64 (a i j * factor) else a i j)
  unfolding scale_rows
  rows_entry n_start n_end le zero m a i j = ground arith
  rows_entry n_start n_end le (suc left) m a i j =
      rows_entry n_start n_end le left (suc m) (scale_row factor m (n_end - n_start) n_start a) i j
      ∙ ground (arith, row_entry m (n_end - n_start) n_start a i j)

  -- `scalar_multiply` multiplies each entry of the ranges of rows and columns, whose starts are no
  -- greater than their ends, once, modulo 2 ^ 64, and leaves the others as they are.
  pub scalar_multiply_lem :
      (a : Matrix) (m_start m_end n_start n_end : ℕ)
      → m_start ≤ m_end
      → n_start ≤ n_end
      → (i j : ℕ)
      → scalar_multiply a factor m_start m_end n_start n_end i j
        ≡ (if within m_start m_end i && within n_start n_end j then u64 (a i j * factor) else a i j)
  unfolding scalar_multiply
  scalar_multiply_lem a m_start m_end n_start n_end le le' i j =
      rows_entry n_start n_end le' (m_end - m_start) m_start a i j ∙ ground arith

-- No section of `perf_strided_scalar_multiply` reaches a column from 20 on, though the matrix has
-- 25: the end of a section's columns is taken from the number of rows.
pub strided_misses :
    (my_id : ℕ) (a : Matrix) (i j : ℕ)
    → my_id < sections
    → matrix_m ≤ j
    → strided_multiply my_id a i j ≡ a i j
unfolding strided_multiply
strided_misses my_id a i j small past =
    let x = my_id % stride in
    let y = my_id / stride in
    scalar_multiply_lem 2 a (matrix_m * x / stride) (matrix_m * (x + 1) / stride)
      (matrix_n * y / stride) (matrix_m * (y + 1) / stride) (omega arith) (omega arith) i j
    ∙ ground arith
