-- ===== src/Matrix/Examples.antt =====
-- The product of two small matrices.
use rtmb.Matrix.Product.{matrix_multiply-product, product, CellsWithin}
use rtmb.Matrix.{matrix_multiply, matrix_size, Matrix}
use rtmb.Base.{◌≡◌, ◌<◌, ℕ, arith, Returns}
use rtmb.Base.Int.{pos}

abbrev counted : Matrix
counted i j = pos 3

counted-CellsWithin : CellsWithin 3 counted
counted-CellsWithin i j h k = record { above = omega arith; below = omega arith }

matrix_multiply-product_example :
    Returns
      (λ c'. (i j : ℕ) → i < matrix_size → j < matrix_size → c' i j ≡ product counted counted i j)
      (matrix_multiply counted counted counted)
matrix_multiply-product_example =
    matrix_multiply-product 3 (omega arith) counted counted counted-CellsWithin counted-CellsWithin
      counted
