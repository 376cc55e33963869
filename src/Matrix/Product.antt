-- ===== src/Matrix/Product.antt =====
-- `inner_multiply` of src/c/kernel/kinit.c is the product of matrices.
use rpi_kernel.Base.{
  ℕ, zero, suc, ◌+◌, ◌-◌, ◌*◌, ◌^◌, ◌≤◌, ◌<◌, ◌≡◌, ◌∙◌, arith, ◌==◌, if◌then◌else◌, ◌&&◌, u64,
}
use rpi_kernel.Matrix.{
  Matrix, matrix_n, set_entry, dot, multiply_row, multiply_rows, inner_multiply,
}
use rpi_kernel.Matrix.Scale.{within}

-- The sum of the products of the entries from `n` on, with `left` to go.
abbrev pub products : (a b : Matrix) → (m p left n : ℕ) → ℕ
products a b m p zero n = 0
products a b m p (suc left) n = a m n * b n p + products a b m p left (suc n)

u64_add : (x y z : ℕ) → u64 (u64 (x + y) + z) ≡ u64 (x + (y + z))
u64_add x y z = omega arith

dot-products :
    (a b : Matrix) (m p left n sum : ℕ)
    → u64 (dot a b m p left n sum) ≡ u64 (sum + products a b m p left n)
unfolding dot
dot-products a b m p zero n sum = omega arith
dot-products a b m p (suc left) n sum =
    let x = a m n * b n p in
    dot-products a b m p left (suc n) (u64 (sum + x))
    ∙ u64_add sum x (products a b m p left (suc n))

dot_word : (a b : Matrix) (m p left n sum : ℕ) → sum < 2 ^ 64 → dot a b m p left n sum < 2 ^ 64
unfolding dot
dot_word a b m p zero n sum word = word
dot_word a b m p (suc left) n sum word = dot_word a b m p left (suc n) _ (omega arith)

dot_lem : (a b : Matrix) (m p : ℕ) → dot a b m p matrix_n 0 0 ≡ u64 (products a b m p matrix_n 0)
dot_lem a b m p =
    let word = dot_word a b m p matrix_n 0 0 (omega arith) in
    let same = dot-products a b m p matrix_n 0 0 in omega arith

module _ (a b : Matrix) where
  row_entry :
      (m left p : ℕ) (o : Matrix) (i j : ℕ)
      → multiply_row a b m left p o i j
        ≡ (if (i == m) && within p (p + left) j then dot a b i j matrix_n 0 0 else o i j)
  unfolding multiply_row
  row_entry m zero p o i j = ground arith
  row_entry m (suc left) p o i j =
      row_entry m left (suc p) (set_entry m p (dot a b m p matrix_n 0 0) o) i j ∙ ground arith

  rows_entry :
      (p_start p_end : ℕ)
      → p_start ≤ p_end
      → (left m : ℕ) (o : Matrix) (i j : ℕ)
      → multiply_rows a b p_start p_end left m o i j ≡ (
          if within m (m + left) i && within p_start p_end j
          then dot a b i j matrix_n 0 0
          else o i j)
  unfolding multiply_rows
  rows_entry p_start p_end le zero m o i j = ground arith
  rows_entry p_start p_end le (suc left) m o i j =
      rows_entry p_start p_end le left (suc m) (multiply_row a b m (p_end - p_start) p_start o) i j
      ∙ ground (arith, row_entry m (p_end - p_start) p_start o i j)

  -- `inner_multiply` puts into each entry of the ranges of rows and columns, whose starts are no greater
  -- than their ends, the entry of the matrix product, modulo 2 ^ 64, and leaves the others as they are.
  pub inner_multiply_lem :
      (o : Matrix) (m_start m_end p_start p_end : ℕ)
      → m_start ≤ m_end
      → p_start ≤ p_end
      → (i j : ℕ)
      → inner_multiply a b o m_start m_end p_start p_end i j ≡ (
          if within m_start m_end i && within p_start p_end j
          then u64 (products a b i j matrix_n 0)
          else o i j)
  unfolding inner_multiply
  inner_multiply_lem o m_start m_end p_start p_end le le' i j =
      rows_entry p_start p_end le' (m_end - m_start) m_start o i j ∙ ground (arith, dot_lem a b i j)
