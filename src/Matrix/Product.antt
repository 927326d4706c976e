-- ===== src/Matrix/Product.antt =====
-- `matrix_multiply` computes the matrix product.
use rtmb.Long.{Within-mono, Within-add, mul_mono, Within-mul, Within}
use rtmb.Matrix.{
  with_cell, row_rounds, matrix_multiply, column_rounds, sum_rounds, checked_int, inside,
  matrix_size, Matrix,
}
use rtmb.Base.Int.{◌*ℤ◌, ◌+ℤ◌, ℤ, pos}
use mathlib.Core.Path.{subst}
use rtmb.Base.{
  Returns-bind, returns, Returns-map, ◌∙◌, Returns, dec_lt, ok, lt→ltb, arith, ◌≡◌, ◌^◌, ◌+◌, ◌*◌,
  ◌<◌, ℕ, true, suc, zero, refl,
}

-- The product of a row and a column: the terms from `k` on, added to `sum`.
abbrev pub dot : ℕ → ℕ → Matrix → Matrix → ℕ → ℕ → ℤ → ℤ
dot zero k a b i j sum = sum
dot (suc n) k a b i j sum = dot n (k + 1) a b i j (sum +ℤ a i k *ℤ b k j)

-- The cell of the matrix product.
abbrev pub product : Matrix → Matrix → ℕ → ℕ → ℤ
product a b i j = dot matrix_size 0 a b i j (pos 0)

-- The cells lie between `-m` and `m`.
abbrev pub CellsWithin : ℕ → Matrix → Type 0
CellsWithin m a = (i j : ℕ) → i < matrix_size → j < matrix_size → Within m (a i j)

checked_int-ok : (b : ℕ) (x : ℤ) → b < 2 ^ 31 → Within b x → checked_int x ≡ ok x
checked_int-ok b x h w = ground arith

inside-true : (i j : ℕ) → i < matrix_size → j < matrix_size → inside i j ≡ true
inside-true i j h k = rw (lt→ltb i matrix_size h, lt→ltb j matrix_size k) refl

module _ (m : ℕ) (small : matrix_size * (m * m) < 2 ^ 31) (a b : Matrix) (wa : CellsWithin m a)
    (wb : CellsWithin m b) where
  next_bound : (n used : ℕ) → suc n + used ≡ matrix_size → used * (m * m) + m * m < 2 ^ 31
  next_bound n used e =
      grind (arith, mul_mono matrix_size (m * m) (suc used) (m * m) (omega arith) (omega arith))

  sum_rounds-dot :
      (n k i j : ℕ) (sum : ℤ)
      → n + k ≡ matrix_size
      → i < matrix_size
      → j < matrix_size
      → Within (k * (m * m)) sum
      → sum_rounds n k a b i j sum ≡ ok (dot n k a b i j sum)
  unfolding sum_rounds
  sum_rounds-dot zero k i j sum e hi hj w = refl
  sum_rounds-dot (suc n) k i j sum e hi hj w =
      let hk : k < matrix_size = omega arith in
      let wp = Within-mul m m (a i k) (b k j) (wa i k hi hk) (wb k j hk hj) in
      let ws = Within-add (k * (m * m)) (m * m) sum (a i k *ℤ b k j) w wp in
      let fits = next_bound n k e in
      rw
        (
          inside-true i k hi hk,
          inside-true k j hk hj,
          checked_int-ok (m * m) (a i k *ℤ b k j) (omega arith) wp,
          checked_int-ok (k * (m * m) + m * m) (sum +ℤ a i k *ℤ b k j) fits ws,
        )
        (sum_rounds-dot n (k + 1) i j (sum +ℤ a i k *ℤ b k j) (omega arith) hi hj
          (Within-mono (k * (m * m) + m * m) ((k + 1) * (m * m)) _ (grind arith) ws))

-- The cells before row `i` and column `j` are those of the product.
record IsDone (a b : Matrix) (i j : ℕ) (c : Matrix) : Type 0 where
  earlier : (i' j' : ℕ) → i' < i → j' < matrix_size → c i' j' ≡ product a b i' j'
  here : (j' : ℕ) → j' < j → j' < matrix_size → c i j' ≡ product a b i j'

with_cell-same : (c : Matrix) (i j : ℕ) (v : ℤ) → with_cell c i j v i j ≡ v
with_cell-same c i j v = ground arith

with_cell-row : (c : Matrix) (i j i' j' : ℕ) (v : ℤ) → i' < i → with_cell c i j v i' j' ≡ c i' j'
with_cell-row c i j i' j' v h = ground arith

with_cell-column : (c : Matrix) (i j j' : ℕ) (v : ℤ) → j' < j → with_cell c i j v i j' ≡ c i j'
with_cell-column c i j j' v h = ground arith

IsDone-with_cell :
    (a b c : Matrix) (i j : ℕ)
    → IsDone a b i j c
    → IsDone a b i (j + 1) (with_cell c i j (product a b i j))
IsDone-with_cell a b c i j is = record {
  earlier = λ i' j' h k. with_cell-row c i j i' j' _ h ∙ is.earlier i' j' h k;
  here = λ j' h k. elim (dec_lt j' j) [
    | yes lt ↦ with_cell-column c i j j' _ lt ∙ is.here j' lt k
    | no ge ↦ last_cell j' (omega arith)
  ];
}
  where
    last_cell : (j' : ℕ) → j' ≡ j → with_cell c i j (product a b i j) i j' ≡ product a b i j'
    last_cell j' e = rw e (with_cell-same c i j (product a b i j))

IsDone-row : (a b c : Matrix) (i : ℕ) → IsDone a b i matrix_size c → IsDone a b (i + 1) 0 c
IsDone-row a b c i is = record {
  earlier = λ i' j' h k. elim (dec_lt i' i) [
    | yes lt ↦ is.earlier i' j' lt k
    | no ge ↦ same_row i' j' (omega arith) k
  ];
  here = λ j' h k. absurd (omega arith);
}
  where
    same_row : (i' j' : ℕ) → i' ≡ i → j' < matrix_size → c i' j' ≡ product a b i' j'
    same_row i' j' e k = rw e (is.here j' k k)

module _ (m : ℕ) (small : matrix_size * (m * m) < 2 ^ 31) (a b : Matrix) (wa : CellsWithin m a)
    (wb : CellsWithin m b) where
  column_rounds-IsDone :
      (n j i : ℕ) (c : Matrix)
      → n + j ≡ matrix_size
      → i < matrix_size
      → IsDone a b i j c
      → Returns (IsDone a b i matrix_size) (column_rounds n j a b i c)
  unfolding column_rounds
  column_rounds-IsDone zero j i c e hi is = returns (subst (λ k. IsDone a b i k c) (omega arith) is)
  column_rounds-IsDone (suc n) j i c e hi is =
      rw
        (
          sum_rounds-dot m small a b wa wb matrix_size 0 i j (pos 0) (omega arith) hi (omega arith)
              (omega arith),
          inside-true i j hi (omega arith),
        )
        (column_rounds-IsDone n (j + 1) i (with_cell c i j (product a b i j)) (omega arith) hi
          (IsDone-with_cell a b c i j is))

  row_rounds-IsDone :
      (n i : ℕ) (c : Matrix)
      → n + i ≡ matrix_size
      → IsDone a b i 0 c
      → Returns (IsDone a b matrix_size 0) (row_rounds n i a b c)
  unfolding row_rounds
  row_rounds-IsDone zero i c e is = returns (subst (λ k. IsDone a b k 0 c) (omega arith) is)
  row_rounds-IsDone (suc n) i c e is =
      Returns-bind (column_rounds-IsDone matrix_size 0 i c (omega arith) (omega arith) is)
        λ c' is'. row_rounds-IsDone n (i + 1) c' (omega arith) (IsDone-row a b c' i is')

  -- For cells between `-m` and `m` with `5 * m ^ 2` below `2 ^ 31`, `matrix_multiply` overflows
  -- nowhere, stays inside its arrays and leaves the matrix product in every cell of the third one,
  -- whatever that held before.
  pub matrix_multiply-product :
      (c : Matrix)
      → Returns
          (λ c'. (i j : ℕ) → i < matrix_size → j < matrix_size → c' i j ≡ product a b i j)
          (matrix_multiply a b c)
  unfolding matrix_multiply
  matrix_multiply-product c =
      Returns-map
        (row_rounds-IsDone matrix_size 0 c (omega arith) (record {
          earlier = λ i' j' h k. absurd (omega arith);
          here = λ j' h k. absurd (omega arith);
        }))
        λ c' is i j h k. is.earlier i j h k
