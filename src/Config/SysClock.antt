-- ===== src/Config/SysClock.antt =====
-- `clock_config` of rtmb_c/src/testcase/config_test/clock_config.c: how long a reading of the clock
-- takes. A variable that was not set holds whatever the stack held, which is an argument.
use rtmb.Config.{add_difference}
use rtmb.CString.{codes}
use rtmb.Score.{element_at}
use rtmb.Result.Limits.{check_pass_criteria}
use rtmb.Result.Create.{create_test_result}
use rtmb.Result.{TestResults}
use rtmb.Table.{sysclock_config, add_result_to_result_table2, ResultTable}
use rtmb.Params.{BenchmarkTest, InputParams, RtMode}
use rtmb.Clock.{get_cur_time, TimeSpec, Clock}
use rtmb.Double.{Double}
use rtmb.Base.Int.{success, pos_part, ℤ, pos}
use rtmb.Base.{◌+◌, ok, Run, ℕ, List, ◌>>=◌, false, suc, zero}
pub mod Entered

-- `DEF_SZ_CLK_CONF`
abbrev pub clock_amount : ℤ
clock_amount = pos 100

module _ {F : Type 0} ⦃d : Double F⦄ (qsort : (ℤ → ℤ → ℤ) → List ℤ → List ℤ) (clock : Clock) where
  -- The loop of `run_clock_test`, which does not look at the result of `get_cur_time`.
  unfoldable pub clock_loop : ℕ → ℕ → TimeSpec → TimeSpec → TestResults F → Run (TestResults F)
  clock_loop zero n start_time end_time r = ok r
  clock_loop (suc iters) n start_time end_time r =
      let start_time = (get_cur_time clock n start_time).1 in
      let end_time = (get_cur_time clock (n + 1) end_time).1 in
      add_difference qsort start_time end_time r >>= λ r.
      clock_loop iters (n + 2) start_time end_time r

  module _ (mode : RtMode) (params : InputParams F) where
    -- The verdict of `check_pass_criteria` is dropped.
    unfoldable pub run_clock_test :
        ℕ → ℕ → TimeSpec → TimeSpec → TestResults F → Run (TestResults F)
    run_clock_test iters n start_time end_time r = do
      r ← clock_loop iters n start_time end_time r
      checked ← check_pass_criteria r mode params false
      ok (checked.1)

    unfoldable pub clock_config :
        ResultTable F → BenchmarkTest F → ℕ → TimeSpec → TimeSpec → Run (ℤ × ResultTable F)
    clock_config table test n start_time end_time = do
      results ← create_test_result 1 test.iterations
      result ← element_at results 0
      r ←
          run_clock_test (pos_part test.iterations) n start_time end_time
            (record result { desc = codes "Clock configuration test" })
      table ←
          add_result_to_result_table2 table (record r { opern_amount = clock_amount })
            sysclock_config test
      ok (success, table)
