-- ===== src/Matrix.antt =====
-- The work of the processes that the kernel starts with: the loops over matrices of
-- src/c/kernel/kinit.c. A matrix is a function of its row and its column.
pub mod Scale
pub mod Rounds
pub mod Product
use rpi_kernel.Base.{ℕ, zero, suc, ◌+◌, ◌-◌, ◌*◌, ◌/◌, ◌%◌, ◌==◌, if◌then◌else◌, u64, update}

abbrev pub Matrix : Type 0
Matrix = ℕ → ℕ → ℕ

abbrev pub matrix_m : ℕ
matrix_m = 20

abbrev pub matrix_n : ℕ
matrix_n = 25

abbrev pub stride : ℕ
stride = 2

abbrev pub sections : ℕ
sections = stride * stride

abbrev pub set_entry : (m n : ℕ) → ℕ → Matrix → Matrix
set_entry m n x a = update a m (update (a m) n x)

-- The inner loop, from column `n` on with `left` columns to go.
unfoldable pub scale_row : (factor m : ℕ) → (left n : ℕ) → Matrix → Matrix
scale_row factor m zero n a = a
scale_row factor m (suc left) n a =
    scale_row factor m left (suc n) (set_entry m n (u64 (a m n * factor)) a)

unfoldable pub scale_rows : (factor n_start n_end : ℕ) → (left m : ℕ) → Matrix → Matrix
unfolding scale_row
scale_rows factor n_start n_end zero m a = a
scale_rows factor n_start n_end (suc left) m a =
    scale_rows factor n_start n_end left (suc m) (scale_row factor m (n_end - n_start) n_start a)

-- A matrix is unbounded here; in the source a range beyond its bounds is undefined.
unfoldable pub scalar_multiply : Matrix → (factor m_start m_end n_start n_end : ℕ) → Matrix
unfolding scale_rows
scalar_multiply a factor m_start m_end n_start n_end =
    scale_rows factor n_start n_end (m_end - m_start) m_start a

-- The sum of the innermost loop of `inner_multiply`.
unfoldable pub dot : (a b : Matrix) → (m p : ℕ) → (left n sum : ℕ) → ℕ
dot a b m p zero n sum = sum
dot a b m p (suc left) n sum = dot a b m p left (suc n) (u64 (sum + a m n * b n p))

unfoldable pub multiply_row : (a b : Matrix) → (m left p : ℕ) → Matrix → Matrix
unfolding dot
multiply_row a b m zero p o = o
multiply_row a b m (suc left) p o =
    multiply_row a b m left (suc p) (set_entry m p (dot a b m p matrix_n 0 0) o)

unfoldable pub multiply_rows : (a b : Matrix) → (p_start p_end : ℕ) → (left m : ℕ) → Matrix → Matrix
unfolding multiply_row
multiply_rows a b p_start p_end zero m o = o
multiply_rows a b p_start p_end (suc left) m o =
    multiply_rows a b p_start p_end left (suc m) (multiply_row a b m (p_end - p_start) p_start o)

unfoldable pub inner_multiply : (a b o : Matrix) → (m_start m_end p_start p_end : ℕ) → Matrix
unfolding multiply_rows
inner_multiply a b o m_start m_end p_start p_end =
    multiply_rows a b p_start p_end (m_end - m_start) m_start o

-- One round of `perf_strided_scalar_multiply` on the section with the number `my_id`.
unfoldable pub strided_multiply : (my_id : ℕ) → Matrix → Matrix
unfolding scalar_multiply
strided_multiply my_id a =
    let x = my_id % stride in
    let y = my_id / stride in
    scalar_multiply a 2 (matrix_m * x / stride) (matrix_m * (x + 1) / stride)
      (matrix_n * y / stride) (matrix_m * (y + 1) / stride)

-- `work_t` but for its matrix, which is an argument, and its links.
pub record Work : Type 0 where
  pub iters : ℕ
  pub m_start : ℕ
  pub m_end : ℕ
  pub n_start : ℕ
  pub n_end : ℕ

-- `left` rounds of the loop of `single_worker`, which `pooled_worker` has too.
unfoldable pub work_rounds : (left : ℕ) → Work → Matrix → Matrix
work_rounds zero w a = a
work_rounds (suc left) w a =
    work_rounds left w (scalar_multiply a 2 w.m_start w.m_end w.n_start w.n_end)

unfoldable pub single_worker : Work → Matrix → Matrix
unfolding work_rounds
single_worker w = work_rounds w.iters w

-- The work of `runtime_task`, and with `runtime` 10000 that of `perf_scalar_multiply`: the whole matrix.
unfoldable pub runtime_task : (runtime : ℕ) → Matrix → Matrix
unfolding single_worker
runtime_task runtime =
    single_worker
      record { iters = runtime; m_start = 0; m_end = matrix_m; n_start = 0; n_end = matrix_n }
