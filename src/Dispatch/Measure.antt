-- ===== src/Dispatch/Measure.antt =====
-- `event_dispatch` of rtmb_c/src/testcase/event_dispatch_test/event_dispatch_test.c: how long the two
-- threads need for their turns. The sender reads the clock before and after its inner loop.
use rtmb.Config.{retry_fuel, judge, double_int, retry}
use rtmb.Score.{element_at}
use rtmb.Result.Create.{create_test_result}
use rtmb.Table.{add_result_to_result_table2, get_min_exec_time, ResultTable}
use rtmb.Long.{sub_long}
use rtmb.Result.{add_entry, TestResults}
use rtmb.Params.{BenchmarkTest, InputParams, RtMode}
use rtmb.Base.Int.{success, pos_part, ℤ}
use rtmb.Double.{Double}
use rtmb.Clock.{convert_time_to_nsec, get_cur_time, TimeSpec, Clock}
use rtmb.Base.{
  aborted, fault, ◌*◌, ◌+◌, Option, ok, Run, List, ℕ, ◌>>=◌, false, some, none, suc, [], ◌∷◌, zero,
}

abbrev pub min_sub_iteration : ℕ
min_sub_iteration = 2

-- `EVENT_DISPATCH_TEST`
abbrev pub event_dispatch_test : ℕ
event_dispatch_test = 9

-- The times that `signal_sender_start` writes into `sender_start_time` and `receiver_end_time`, from
-- the n-th reading of the clock on; a reading that fails leaves the variable as it was.
unfoldable pub sender_times : Clock → ℕ → ℕ → TimeSpec → TimeSpec → Run (List (ℤ × ℤ))
sender_times clock zero n start_time end_time = ok []
sender_times clock (suc iterations) n start_time end_time = do
  let start_time = (get_cur_time clock n start_time).1
  let end_time = (get_cur_time clock (n + 1) end_time).1
  end_ns ← convert_time_to_nsec end_time
  start_ns ← convert_time_to_nsec start_time
  times ← sender_times clock iterations (n + 2) start_time end_time
  ok ((start_ns, end_ns) ∷ times)

module _ {F : Type 0} ⦃d : Double F⦄ (qsort : (ℤ → ℤ → ℤ) → List ℤ → List ℤ) where
  -- The loop of `run_event_dispatch_test`.
  unfoldable pub add_time_diffs : List (ℤ × ℤ) → TestResults F → Run (TestResults F)
  add_time_diffs [] r = ok r
  add_time_diffs ((start, end) ∷ times) r = do
    time_diff ← sub_long end start
    r ← add_entry qsort r time_diff false
    add_time_diffs times r

  module _ (clock : Clock) where
    -- The two threads run to their end in between; `start_time` and `end_time` are what the sender's
    -- variables hold at first.
    unfoldable pub run_event_dispatch_test :
        ℕ → ℕ → TimeSpec → TimeSpec → TestResults F → Run (Option (TestResults F × ℕ))
    run_event_dispatch_test iterations n start_time end_time r = do
      times ← sender_times clock iterations n start_time end_time
      r ← add_time_diffs times r
      ok (some (r, n + iterations * 2))

    unfoldable pub event_dispatch :
        RtMode
        → InputParams F
        → ResultTable F
        → BenchmarkTest F
        → ℕ
        → TimeSpec
        → TimeSpec
        → Run (ℤ × ResultTable F)
    event_dispatch mode params table test n start_time end_time = do
      results ← create_test_result 1 test.iterations
      result ← element_at results 0
      clock_accuracy ← get_min_exec_time table
      e ←
          retry
            (λ sub_iterations n r.
              run_event_dispatch_test (pos_part test.iterations) n start_time end_time r)
            double_int (judge clock_accuracy test.threshold mode params) retry_fuel
            min_sub_iteration 0 n result
      elim e [
        | none ↦ fault aborted
        | some e ↦ (do
          table ← add_result_to_result_table2 table e.result event_dispatch_test test
          ok (success, table))
      ]
