-- ===== src/Matrix.antt =====
-- `matrix_multiply` of rtmb_c/src/testcase/thread_priority_test/thread_priority_test.c, the work of
-- its threads. An array of two dimensions is a function of two indices that are checked; a signed
-- overflow of an `int` is a fault.
pub mod Product
mod Examples
use rtmb.Base.Int.{neg_part, ◌+ℤ◌, pos_part, ◌*ℤ◌, ℤ, pos}
use rtmb.Base.{
  arith_overflow, leb, ◌^◌, ◌&&◌, out_of_bounds, ◌==◌, ◌+◌, ltb, fault, ok, if◌then◌else◌, Bool, ℕ,
  Run, ◌>>=◌, suc, zero,
}

-- `MATRIX_SIZE`
abbrev pub matrix_size : ℕ
matrix_size = 5

abbrev pub Matrix : Type 0
Matrix = ℕ → ℕ → ℤ

abbrev pub inside : ℕ → ℕ → Bool
inside i j = ltb i matrix_size && ltb j matrix_size

-- `a[i][j]`
abbrev pub cell : Matrix → ℕ → ℕ → Run ℤ
cell a i j = if inside i j then ok (a i j) else fault out_of_bounds

abbrev pub with_cell : Matrix → ℕ → ℕ → ℤ → Matrix
with_cell c i j v i' j' = if i == i' && j == j' then v else c i' j'

-- `c[i][j] = v`
abbrev pub assign_cell : Matrix → ℕ → ℕ → ℤ → Run Matrix
assign_cell c i j v = if inside i j then ok (with_cell c i j v) else fault out_of_bounds

abbrev pub checked_int : ℤ → Run ℤ
checked_int a =
    if ltb (pos_part a) (2 ^ 31) && leb (neg_part a) (2 ^ 31) then ok a else fault arith_overflow

-- The innermost loop, from `k` on: `sum += a[i][k] * b[k][j]`.
unfoldable pub sum_rounds : ℕ → ℕ → Matrix → Matrix → ℕ → ℕ → ℤ → Run ℤ
sum_rounds zero k a b i j sum = ok sum
sum_rounds (suc n) k a b i j sum = do
  x ← cell a i k
  y ← cell b k j
  product ← checked_int (x *ℤ y)
  sum ← checked_int (sum +ℤ product)
  sum_rounds n (k + 1) a b i j sum

-- The loop over the columns, from `j` on.
unfoldable pub column_rounds : ℕ → ℕ → Matrix → Matrix → ℕ → Matrix → Run Matrix
column_rounds zero j a b i c = ok c
column_rounds (suc n) j a b i c = do
  sum ← sum_rounds matrix_size 0 a b i j (pos 0)
  c ← assign_cell c i j sum
  column_rounds n (j + 1) a b i c

-- The loop over the rows, from `i` on.
unfoldable pub row_rounds : ℕ → ℕ → Matrix → Matrix → Matrix → Run Matrix
row_rounds zero i a b c = ok c
row_rounds (suc n) i a b c = do c ← column_rounds matrix_size 0 a b i c; row_rounds n (i + 1) a b c

unfoldable pub matrix_multiply : Matrix → Matrix → Matrix → Run Matrix
matrix_multiply a b c = row_rounds matrix_size 0 a b c
