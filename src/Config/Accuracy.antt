-- ===== src/Config/Accuracy.antt =====
-- `time_accuracy` of rtmb_c/src/testcase/time_accuracy_test/time_accuracy_test.c: how much longer a
-- sleep takes than was asked for.
use rtmb.Config.{timer_accuracy_test}
use rtmb.Result.Limits.{check_pass_criteria}
use rtmb.CString.{codes}
use rtmb.Score.{element_at}
use rtmb.Result.Create.{create_test_result}
use rtmb.Long.{sub_long}
use rtmb.Table.{add_result_to_result_table2, get_ideal_sleep_time, ResultTable}
use rtmb.Result.{add_entry, TestResults}
use rtmb.Params.{BenchmarkTest, InputParams, RtMode}
use rtmb.Clock.{get_time_diff, refused, slept, interrupted, billion, TimeSpec, Sleeper, Clock}
use rtmb.Double.{Double}
use rtmb.Base.Int.{success, error, pos_part, ◌*ℤ◌, ltb_ℤ, ◌-ℤ◌, quot, ℤ, pos}
use rtmb.Base.{
  ◌+◌, aborted, fault, ok, if◌then◌else◌, Option, Run, ℕ, List, ◌>>=◌, false, some, none, suc, zero,
}

-- The remainder of a division has the sign of the number.
unfoldable pub request_of : ℤ → TimeSpec
request_of sleep_time = record {
  tv_sec = quot sleep_time billion;
  tv_nsec = sleep_time -ℤ quot sleep_time billion *ℤ pos billion;
}

module _ {F : Type 0} ⦃d : Double F⦄ (qsort : (ℤ → ℤ → ℤ) → List ℤ → List ℤ) where
  -- One sleep that took `time_diff`: too short a one aborts the program.
  unfoldable pub add_delta : ℤ → ℤ → TestResults F → Run (TestResults F)
  add_delta sleep_time time_diff r = do
    delta ← sub_long time_diff sleep_time
    if ltb_ℤ delta (pos 0) then fault aborted else add_entry qsort r delta false

  module _ (clock : Clock) (nanosleep : Sleeper) where
    -- The loop over the iterations: nothing where the test returns `ERROR`.
    unfoldable pub sleep_rounds :
        ℕ → ℕ → TimeSpec → ℤ → TestResults F → Run (Option (TestResults F))
    sleep_rounds zero n req_time sleep_time r = ok (some r)
    sleep_rounds (suc iters) n req_time sleep_time r = elim (clock n) [
      | none ↦ ok none
      | some start_time ↦ elim (nanosleep n req_time) [
        | interrupted rmtp ↦ fault aborted
        | refused ↦ fault aborted
        | slept ↦ elim (clock (n + 1)) [
          | none ↦ ok none
          | some end_time ↦ (do
            time_diff ← get_time_diff start_time end_time
            r ← add_delta sleep_time time_diff r
            sleep_rounds iters (n + 2) req_time sleep_time r)
        ]
      ]
    ]

    module _ (mode : RtMode) (params : InputParams F) where
      unfoldable pub time_accuracy : ResultTable F → BenchmarkTest F → ℕ → Run (ℤ × ResultTable F)
      time_accuracy table test n = do
        results ← create_test_result 1 test.iterations
        result ← element_at results 0
        sleep_time ← get_ideal_sleep_time table
        r ←
            sleep_rounds (pos_part test.iterations) n (request_of sleep_time) sleep_time
              (record result { desc = codes "Time Accuracy test" })
        elim r [
          | none ↦ ok (error, table)
          | some r ↦ (do
            checked ←
                check_pass_criteria (record r { name = codes "time accuracy test " }) mode params
                  false
            table ← add_result_to_result_table2 table checked.1 timer_accuracy_test test
            ok (success, table))
        ]
