-- ===== src/Config/Rates.antt =====
-- `int_rate_config`, `float_rate_config` and `mcache_perf_config`, of the files with these names:
-- the three tests that time a piece of work.
pub mod Fuelled
use rtmb.Score.{element_at}
use rtmb.Result.Create.{create_test_result}
use rtmb.CString.{codes}
use rtmb.Table.{get_min_exec_time, add_result_to_result_table2, ResultTable}
use rtmb.Config.{
  retry_fuel, judge, double_int, timed_loop, retry, mcache_config, irate_config, frate_config,
  Ended, eqb_ℤ,
}
use rtmb.Params.{BenchmarkTest, Bytes, InputParams, RtMode}
use rtmb.Work.{do_simple_int_opern, do_simple_float_opern, do_array_opern}
use rtmb.Clock.{Clock}
use rtmb.Double.{Double}
use rtmb.Base.Int.{pos_part, success, error, ℤ, pos}
use rtmb.Base.{Option, ◌+◌, replicate, ok, List, Bool, Run, ℕ, ◌>>=◌, some, none}

-- `do_simple_int_opern(num) == ERROR`
unfoldable pub int_work : ℕ → Run Bool
int_work num = do res ← do_simple_int_opern num; ok (eqb_ℤ res error)

module _ {F : Type 0} where
  -- `do_simple_float_opern(num) == (double) ERROR`; its loop has at most `num` rounds.
  unfoldable pub float_work : Double F → ℕ → Run Bool
  float_work d num = do
    res ← do_simple_float_opern ⦃d = d⦄ (num + 1) num
    ok (d.eq res (d.of_int error))

-- `malloc`, `memset` and `do_array_opern(m, num) == ERROR`
unfoldable pub array_work : ℕ → Run Bool
array_work num = do done ← do_array_opern (some (replicate num 0)) num; ok (eqb_ℤ done.0 error)

module _ {F : Type 0} ⦃d : Double F⦄ where
  -- The end of the three tests: the value of `targs->ret` and the table.
  unfoldable pub enter_rate :
      ℕ → ResultTable F → BenchmarkTest F → Option (Ended F ℕ) → Run (ℤ × ResultTable F)
  enter_rate bucket table test none = ok (error, table)
  enter_rate bucket table test (some e) = do
    table ←
        add_result_to_result_table2 table (record (e.result) { opern_amount = pos e.amount }) bucket
          test
    ok (success, table)

module _ {F : Type 0} ⦃d : Double F⦄ (qsort : (ℤ → ℤ → ℤ) → List ℤ → List ℤ) (clock : Clock)
    (mode : RtMode) (params : InputParams F) where
  -- The body of the three tests up to the end of the loop.
  unfoldable pub measure_rate :
      (ℕ → Run Bool) → ℕ → Bytes → ResultTable F → BenchmarkTest F → ℕ → Run (Option (Ended F ℕ))
  measure_rate work num desc table test n = do
    clock_accuracy ← get_min_exec_time table
    results ← create_test_result 1 test.iterations
    result ← element_at results 0
    retry (λ num. timed_loop qsort clock work (pos_part test.iterations) num) double_int
        (judge clock_accuracy test.threshold mode params) retry_fuel num 0 n
        (record result { desc = desc })

  unfoldable pub int_rate_config : ResultTable F → BenchmarkTest F → ℕ → Run (ℤ × ResultTable F)
  int_rate_config table test n = do
    e ← measure_rate int_work 100 (codes "Integral rate configuration test") table test n
    enter_rate irate_config table test e

  unfoldable pub float_rate_config : ResultTable F → BenchmarkTest F → ℕ → Run (ℤ × ResultTable F)
  float_rate_config table test n = do
    e ← measure_rate (float_work d) 100 (codes "Floating rate configuration test") table test n
    enter_rate frate_config table test e

  -- `DEF_ARRAY_SIZE` is four megabytes.
  unfoldable pub mcache_perf_config : ResultTable F → BenchmarkTest F → ℕ → Run (ℤ × ResultTable F)
  mcache_perf_config table test n = do
    e ← measure_rate array_work 4194304 (codes "Memory cache configuration test") table test n
    enter_rate mcache_config table test e
