-- ===== src/Work.antt =====
-- The work that the tests measure: rtmb_c/src/testcase/util/math_operations/simple_math_opern.c and
-- rtmb_c/src/testcase/util/array_operations/array_operns.c. A `long` has 64 bits.
pub mod Round
pub mod Integers
pub mod Floats
pub mod Arrays
mod Examples
use rtmb.Base.{
  ℕ, zero, suc, ◌+◌, ◌-◌, ◌*◌, ◌/◌, ◌%◌, ◌^◌, ◌==◌, Option, none, some, List, length, set, ltb, Run,
  ok, fault, out_of_fuel, out_of_bounds, div_by_zero, ◌>>=◌, if◌then◌else◌,
}
use rtmb.Base.Int.{ℤ, pos, negsuc, ◌-ℤ◌, ◌*ℤ◌, quot, success, error}
use rtmb.Long.{checked, add_long, sub_long, mul_long}
use rtmb.Double.{Double}

-- `a / b` of two `long`s: the quotient is cut towards zero.
unfoldable pub quot_long : ℤ → ℤ → Run ℤ
quot_long a (pos zero) = fault div_by_zero
quot_long a (pos (suc n)) = checked (quot a (suc n))
quot_long a (negsuc n) = checked (pos 0 -ℤ quot a (suc n))

-- `a % n` for a positive `int`.
unfoldable pub rem_long : ℤ → ℕ → Run ℤ
rem_long a zero = fault div_by_zero
rem_long a (suc n) = checked (a -ℤ quot a (suc n) *ℤ pos (suc n))

-- A `long` as an `int` of 32 bits.
abbrev pub residue_int : ℤ → ℕ
residue_int (pos n) = n % 2 ^ 32
residue_int (negsuc n) = 2 ^ 32 - 1 - n % 2 ^ 32

unfoldable pub int_of_long : ℤ → ℤ
int_of_long a = let r = residue_int a in if ltb r (2 ^ 31) then pos r else negsuc (2 ^ 32 - 1 - r)

-- `((j * i) - (j + i)) / j`
unfoldable pub int_opern : ℤ → ℤ → Run ℤ
int_opern i j = do
  product ← mul_long j i
  sum ← add_long j i
  difference ← sub_long product sum
  quot_long difference j

-- The loop of `do_simple_int_opern`, which has `num - 2` rounds.
unfoldable pub int_rounds : ℕ → ℤ → ℤ → ℤ → Run ℤ
int_rounds zero i j res = ok res
int_rounds (suc n) i j res = do
  res ← int_opern i j
  i ← add_long i (pos 1)
  j ← sub_long j i
  int_rounds n i j res

unfoldable pub do_simple_int_opern : ℕ → Run ℤ
do_simple_int_opern num = do
  res ← int_rounds (num - 2) (pos 2) (pos 10000) (pos 0)
  ok (int_of_long res)

-- The loop of `add_n_numbers`.
unfoldable pub add_rounds : ℕ → ℕ → ℤ → Run ℤ
add_rounds num zero tot = ok tot
add_rounds num (suc n) tot = do r ← rem_long tot num; tot ← add_long tot r; add_rounds num n tot

unfoldable pub add_n_numbers : ℕ → Run ℤ
add_n_numbers num = add_rounds num num (pos 0)

module _ {F : Type 0} ⦃d : Double F⦄ where
  -- The loop of `do_simple_float_opern`.
  unfoldable pub float_rounds : ℕ → F → F → F → F → Run F
  float_rounds zero num i j res = out_of_fuel
  float_rounds (suc fuel) num i j res =
      let k = d.div j i in
      let res' = d.div (d.div (d.mul j k) (d.sub j i)) i in
      let i' = d.add i (d.of_int (pos 1)) in
      let rest = float_rounds fuel num i' (d.sub j i') res' in if d.lt i num then rest else ok res

  unfoldable pub do_simple_float_opern : ℕ → ℕ → Run F
  do_simple_float_opern fuel num =
      float_rounds fuel (d.of_int (pos num)) (d.of_int (pos 2)) (d.of_int (pos 10000))
        (d.of_int (pos 0))

-- `RTMB_PAGE_SIZE + 1`
abbrev pub page_step : ℕ
page_step = 4097

-- `m[j] = c`
abbrev pub write : List ℕ → ℕ → ℕ → Run (List ℕ)
write m j c = if ltb j (length m) then ok (set m j c) else fault out_of_bounds

-- The loop of `do_array_opern`, with `n` rounds left.
unfoldable pub array_rounds : ℕ → ℕ → ℕ → ℕ → List ℕ → Run (List ℕ)
array_rounds zero i j end m = ok m
array_rounds (suc n) i j end m = do
  m ← if i % 2 == 0 then write m j 97 else write m (end - i - 1) 98
  array_rounds n (i + 1) (j + page_step) end m

unfoldable pub do_array_opern : Option (List ℕ) → ℕ → Run (ℤ × Option (List ℕ))
do_array_opern none size = ok (error, none)
do_array_opern (some m) size = do
  m ← array_rounds (size / page_step) 0 0 (size / page_step) m
  ok (success, some m)
