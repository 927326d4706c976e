-- ===== src/Config.antt =====
-- What the configuration tests of rtmb_c/src/testcase/config_test share: the loop that measures
-- again with twice the work until the times are longer than the clock is accurate and vary little
-- enough. Printing, the allocation and the freeing of memory have no part in it. A signed overflow
-- of an `int` is a fault.
pub mod Retry
pub mod Doubling
pub mod Readings
pub mod Rates
pub mod SysClock
pub mod Timer
pub mod Accuracy
pub mod Locks
pub mod Disk
mod Examples
use rtmb.Result.Limits.{check_pass_criteria}
use rtmb.Clock.{get_time_diff, TimeSpec, Clock}
use rtmb.Result.{add_entry, free_chain, TestResults}
use rtmb.Params.{InputParams, RtMode}
use rtmb.Double.{Double}
use rtmb.Base.Int.{success, leb_ℤ, ℤ, pos}
use rtmb.Base.{
  arith_overflow, fault, ◌*◌, out_of_fuel, ok, ◌+◌, ◌&&◌, ltb, Option, ◌^◌, if◌then◌else◌, Run,
  List, ℕ, Bool, ◌>>=◌, false, true, some, none, suc, zero,
}

-- The places of the table that the tests enter.
abbrev pub irate_config : ℕ
irate_config = 2

abbrev pub frate_config : ℕ
frate_config = 3

abbrev pub mcache_config : ℕ
mcache_config = 4

abbrev pub timer_accuracy_test : ℕ
timer_accuracy_test = 8

abbrev pub lk_consistency_test : ℕ
lk_consistency_test = 11

-- One more than the largest `int`.
abbrev pub int_bound : ℕ
int_bound = 2 ^ 31

-- `num = num * MULTIPLIER_FOR_SUB_ITER`
unfoldable pub double_int : ℕ → Run ℕ
double_int num = if ltb (num * 2) int_bound then ok (num * 2) else fault arith_overflow

-- Whether two integers are the same.
abbrev pub eqb_ℤ : ℤ → ℤ → Bool
eqb_ℤ a b = leb_ℤ a b && leb_ℤ b a

-- What follows a round: the loop ends, or goes on with the number of failed rounds.
pub data Verdict : Type 0 where
  accepted exhausted : Verdict
  again : ℕ → Verdict

-- The inner part of the test's `if`: `if (++count == threshold)`.
abbrev pub count_failure : ℤ → ℕ → Verdict
count_failure threshold count =
    if eqb_ℤ (pos (count + 1)) threshold then exhausted else again (count + 1)

module _ {F : Type 0} ⦃d : Double F⦄ where
  -- `IS_EXEC_TIME_GRT_THAN_CLK` and `check_pass_criteria` after a round, for the least time `clk`.
  unfoldable pub judge :
      F → ℤ → RtMode → InputParams F → ℕ → TestResults F → Run (Verdict × TestResults F)
  judge clk threshold mode params count r =
      if d.lt clk (d.of_int r.mediantime)
      then (do
        checked ← check_pass_criteria r mode params false
        ok (if eqb_ℤ checked.0 success then accepted else count_failure threshold count, checked.1))
      else ok (again count, r)

-- How the loop ended: the amount of work, the result and the calls of the clock.
pub record Ended (F Q : Type 0) : Type 0 where
  pub passed : Bool
  pub amount : Q
  pub result : TestResults F
  pub calls : ℕ

module _ {F Q : Type 0} ⦃d : Double F⦄ where
  -- `while (!done)`: `measure` is the measuring loop, which gives nothing where the test returns
  -- `ERROR`; `grow` makes the amount of work larger.
  module _ (measure : Q → ℕ → TestResults F → Run (Option (TestResults F × ℕ))) (grow : Q → Run Q)
      (judged : ℕ → TestResults F → Run (Verdict × TestResults F)) where
    unfoldable pub retry : ℕ → Q → ℕ → ℕ → TestResults F → Run (Option (Ended F Q))
    retry zero amount count n r = out_of_fuel
    retry (suc fuel) amount count n r = do
      m ← measure amount n r
      elim m [
        | none ↦ ok none
        | some m ↦ (do
          v ← judged count m.0
          elim v.0 [
            | accepted ↦
                ok (some (record { passed = true; amount = amount; result = v.1; calls = m.1 }))
            | exhausted ↦
                ok (some (record { passed = false; amount = amount; result = v.1; calls = m.1 }))
            | again count ↦ (do
              r ← free_chain v.1 false
              amount ← grow amount
              retry fuel amount count m.1 r)
          ])
      ]

-- An `int` that starts above zero can be doubled at most 31 times.
abbrev pub retry_fuel : ℕ
retry_fuel = 32

module _ {F : Type 0} ⦃d : Double F⦄ (qsort : (ℤ → ℤ → ℤ) → List ℤ → List ℤ) where
  -- `add_entry(result, get_time_diff(start_time, end_time), 0)`
  unfoldable pub add_difference : TimeSpec → TimeSpec → TestResults F → Run (TestResults F)
  add_difference start_time end_time r = do
    time_diff ← get_time_diff start_time end_time
    add_entry qsort r time_diff false

  module _ (clock : Clock) where
    -- The loop over the iterations of `int_rate_config`, `float_rate_config` and `mcache_perf_config`;
    -- `work` tells whether the work returned `ERROR`. Readings of the clock are checked.
    unfoldable pub timed_loop :
        (ℕ → Run Bool) → ℕ → ℕ → ℕ → TestResults F → Run (Option (TestResults F × ℕ))
    timed_loop work zero num n r = ok (some (r, n))
    timed_loop work (suc iters) num n r = elim (clock n) [
      | none ↦ ok none
      | some start_time ↦ (do
        failed ← work num
        if failed then ok none else elim (clock (n + 1)) [
          | none ↦ ok none
          | some end_time ↦ (do
            r ← add_difference start_time end_time r
            timed_loop work iters num (n + 2) r)
        ])
    ]
