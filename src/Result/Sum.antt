-- ===== src/Result/Sum.antt =====
-- The sums behind the mean and the deviation, and when they stay in the range of a `long long`.
use rtmb.Base.{
  ℕ, zero, suc, ◌+◌, ◌*◌, ◌≤◌, ◌<◌, ◌≡◌, ap, ◌∙◌, List, [], ◌∷◌, ◌++◌, arith, length, ok,
}
use rtmb.Base.Int.{
  ℤ, pos, pos_part, neg_part, ◌+ℤ◌, ◌-ℤ◌, ◌*ℤ◌, ◌≤ℤ◌, int_laws, +ℤ_parts, quot, quot_lower,
  quot_upper,
}
use rtmb.Long.{
  Within, Within-add, Within-sub, Within-mul, Within-quot, long_bound, mul_mono, add_long-ok,
  sub_long-ok, mul_long-ok,
}
use rtmb.Result.{sum_values, sum_squares}

-- Every item lies between `-b` and `b`.
abbrev pub AllWithin : ℕ → List ℤ → Type 0
AllWithin b [] = Unit {0}
AllWithin b (x ∷ xs) = Within b x × AllWithin b xs

-- Every item lies between `lo` and `hi`.
abbrev pub AllBetween : ℤ → ℤ → List ℤ → Type 0
AllBetween lo hi [] = Unit {0}
AllBetween lo hi (x ∷ xs) = (lo ≤ℤ x) × (x ≤ℤ hi) × AllBetween lo hi xs

abbrev pub total : List ℤ → ℤ
total [] = pos 0
total (x ∷ xs) = x +ℤ total xs

-- The sum of the squared distances from `mean`.
abbrev pub squares : ℤ → List ℤ → ℤ
squares mean [] = pos 0
squares mean (x ∷ xs) = (x -ℤ mean) *ℤ (x -ℤ mean) +ℤ squares mean xs

abbrev pub mean_of : List ℤ → ℤ
mean_of xs = quot (total xs) (length xs)

sum_values-from :
    (a b : ℕ) (xs rest : List ℤ) (acc : ℤ)
    → Within a acc
    → AllWithin b xs
    → a + length xs * b < long_bound
    → sum_values (length xs) (xs ++ rest) acc ≡ ok (acc +ℤ total xs)
unfolding sum_values
sum_values-from a b [] rest acc w all small = ap ok (omega int_laws)
sum_values-from a b (x ∷ xs) rest acc w (wx, all) small =
    let step = Within-add a b acc x w wx in
    rw (add_long-ok (a + b) (grind arith) acc x step)
      (sum_values-from (a + b) b xs rest (acc +ℤ x) step all (omega arith) ∙ ap ok (omega int_laws))

sum_squares-from :
    (a b c : ℕ) (mean : ℤ) (xs rest : List ℤ) (acc : ℤ)
    → Within a acc
    → AllWithin b xs
    → Within c mean
    → b + c ≤ (b + c) * (b + c)
    → a + length xs * ((b + c) * (b + c)) < long_bound
    → sum_squares (length xs) (xs ++ rest) mean acc ≡ ok (acc +ℤ squares mean xs)
unfolding sum_squares
sum_squares-from a b c mean [] rest acc w all wm sq small = ap ok (omega int_laws)
sum_squares-from a b c mean (x ∷ xs) rest acc w (wx, all) wm sq small =
    let diff = Within-sub b c x mean wx wm in
    let square = Within-mul (b + c) (b + c) (x -ℤ mean) (x -ℤ mean) diff diff in
    let step = Within-add a ((b + c) * (b + c)) acc _ w square in
    rw
      (
        sub_long-ok (b + c) (omega arith) x mean diff,
        mul_long-ok ((b + c) * (b + c)) (omega arith) _ _ square,
        add_long-ok (a + (b + c) * (b + c)) (omega arith) acc _ step,
      )
      (sum_squares-from (a + (b + c) * (b + c)) b c mean xs rest _ step all wm sq (omega arith)
        ∙ ap ok (omega int_laws))

total-lower :
    (lo hi : ℤ) (xs : List ℤ)
    → AllBetween lo hi xs
    → length xs * pos_part lo + neg_part (total xs) ≤ pos_part (total xs) + length xs * neg_part lo
total-lower lo hi [] all = omega arith
total-lower lo hi (x ∷ xs) (l, u, all) =
    omega (arith, +ℤ_parts x (total xs), total-lower lo hi xs all)

total-upper :
    (lo hi : ℤ) (xs : List ℤ)
    → AllBetween lo hi xs
    → pos_part (total xs) + length xs * neg_part hi ≤ length xs * pos_part hi + neg_part (total xs)
total-upper lo hi [] all = omega arith
total-upper lo hi (x ∷ xs) (l, u, all) =
    omega (arith, +ℤ_parts x (total xs), total-upper lo hi xs all)

-- The truncated mean lies between any bounds of the items.
pub mean_of-between :
    (lo hi : ℤ) (xs : List ℤ)
    → 0 < length xs
    → AllBetween lo hi xs
    → (lo ≤ℤ mean_of xs) × (mean_of xs ≤ℤ hi)
mean_of-between lo hi xs h all = (
  quot_lower (length xs) (total xs) lo h (total-lower lo hi xs all),
  quot_upper (length xs) (total xs) hi h (total-upper lo hi xs all),
)

total-Within : (b : ℕ) (xs : List ℤ) → AllWithin b xs → Within (length xs * b) (total xs)
total-Within b [] all = omega arith
total-Within b (x ∷ xs) (w, all) =
    let sum = Within-add b (length xs * b) x (total xs) w (total-Within b xs all) in
    record { above = omega (arith, sum.above); below = omega (arith, sum.below) }

pub mean_of-Within : (b : ℕ) (xs : List ℤ) → 0 < length xs → AllWithin b xs → Within b (mean_of xs)
mean_of-Within b xs h all = Within-quot (length xs) b (total xs) h (total-Within b xs all)

le-square : (c : ℕ) → c ≤ c * c
le-square zero = omega arith
le-square (suc c) = omega arith

-- The bound on the squares bounds the sum of two items too.
pub pair-lt : (n b : ℕ) → 0 < n → n * ((b + b) * (b + b)) < long_bound → 2 * b < long_bound
pair-lt n b h small =
    let one : 1 * (b + b) ≤ n * ((b + b) * (b + b)) =
      mul_mono n ((b + b) * (b + b)) 1 (b + b) h (le-square (b + b)) in
    omega arith

zero-Within : Within 0 (pos 0)
zero-Within = omega arith

-- With `n` times the square of twice the bound below `2 ^ 63`, both loops run without overflow.
module _ (b : ℕ) (xs rest : List ℤ) (all : AllWithin b xs)
    (small : length xs * ((b + b) * (b + b)) < long_bound) where
  pub sum_values-total : sum_values (length xs) (xs ++ rest) (pos 0) ≡ ok (total xs)
  sum_values-total =
      let room : length xs * b ≤ length xs * ((b + b) * (b + b)) =
        mul_mono (length xs) ((b + b) * (b + b)) (length xs) b (omega arith)
          (omega (arith, le-square (b + b))) in
      sum_values-from 0 b xs rest (pos 0) zero-Within all (omega arith) ∙ ap ok (omega int_laws)

  pub sum_squares-squares :
      0 < length xs
      → sum_squares (length xs) (xs ++ rest) (mean_of xs) (pos 0) ≡ ok (squares (mean_of xs) xs)
  sum_squares-squares h =
      sum_squares-from 0 b b (mean_of xs) xs rest (pos 0) zero-Within all
        (mean_of-Within b xs h all) (le-square (b + b)) (omega arith)
      ∙ ap ok (omega int_laws)
