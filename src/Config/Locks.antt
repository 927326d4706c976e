-- ===== src/Config/Locks.antt =====
-- `lock_consistency` of rtmb_c/src/testcase/lock_consistency_test/lock_consistency_test.c: how long
-- it takes to take a free lock and to give it back. The thread that does it is one of its own, whose
-- caller waits for its end.
use rtmb.Config.{retry_fuel, judge, double_int, retry, lk_consistency_test, add_difference}
use rtmb.Score.{element_at}
use rtmb.Result.Create.{create_test_result}
use rtmb.Result.{TestResults}
use rtmb.Table.{add_result_to_result_table2, get_min_exec_time, ResultTable}
use rtmb.Params.{BenchmarkTest, InputParams, RtMode}
use rtmb.Clock.{get_cur_time, TimeSpec, Clock}
use rtmb.Base.Int.{pos_part, success, ℤ}
use rtmb.Double.{Double}
use rtmb.Base.{
  assert_failed, require, ◌>>◌, deadlock, ◌+◌, fault, if◌then◌else◌, ok, Run, ℕ, Bool, List, ◌>>=◌,
  false, some, none, suc, zero,
}

-- `for (j = 0; j < sub_iters; j++)`: each round takes the lock and gives it back.
unfoldable pub lock_rounds : ℕ → Bool → Run Bool
lock_rounds zero held = ok held
lock_rounds (suc sub_iters) held = if held then fault deadlock else lock_rounds sub_iters false

module _ {F : Type 0} ⦃d : Double F⦄ (qsort : (ℤ → ℤ → ℤ) → List ℤ → List ℤ) (clock : Clock) where
  -- The loop over the iterations, which does not look at the result of `get_cur_time`; with the
  -- times of the last round in `start_time` and `end_time`.
  unfoldable pub lock_loop :
      ℕ → ℕ → ℕ → TimeSpec → TimeSpec → TestResults F → Run (TestResults F × ℕ)
  lock_loop zero sub_iters n start_time end_time r = ok (r, n)
  lock_loop (suc iters) sub_iters n start_time end_time r =
      let start_time = (get_cur_time clock n start_time).1 in
      let end_time = (get_cur_time clock (n + 1) end_time).1 in
      lock_rounds sub_iters false >>= λ held. add_difference qsort start_time end_time r >>= λ r.
      lock_loop iters sub_iters (n + 2) start_time end_time r

  module _ (mode : RtMode) (params : InputParams F) where
    -- `scheduled` is the assertion on the priority and the policy of the thread.
    unfoldable pub run_lock_consistency_test :
        Bool → F → BenchmarkTest F → ℕ → TimeSpec → TimeSpec → TestResults F → Run (TestResults F)
    run_lock_consistency_test scheduled clk test n start_time end_time r = do
      require assert_failed scheduled
      e ←
          retry
            (λ sub_iters n r.
              lock_loop (pos_part test.iterations) sub_iters n start_time end_time r >>= λ m.
              ok (some m))
            double_int (judge clk test.threshold mode params) retry_fuel 2 0 n r
      elim e [ none ↦ ok r | some e ↦ ok e.result ]

    unfoldable pub lock_consistency :
        Bool → ResultTable F → BenchmarkTest F → ℕ → TimeSpec → TimeSpec → Run (ℤ × ResultTable F)
    lock_consistency scheduled table test n start_time end_time = do
      clk ← get_min_exec_time table
      results ← create_test_result 1 test.iterations
      result ← element_at results 0
      r ← run_lock_consistency_test scheduled clk test n start_time end_time result
      table ← add_result_to_result_table2 table r lk_consistency_test test
      ok (success, table)
