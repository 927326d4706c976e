-- ===== src/Threads.antt =====
-- What the tests of threads make of the times of their threads: the end of `thread_priority` in
-- rtmb_c/src/testcase/thread_priority_test/thread_priority_test.c and `get_multi_thread_scores` of
-- rtmb_c/src/testcase/multi_thread_test/multi_thread_test.c.
pub mod Parallel
use rtmb.Score.Create.{create_test_score3}
use rtmb.Table.{add_result_to_result_table5, add_result_to_result_table2, ResultTable}
use rtmb.Score.{generate_combined_score, TestScore}
use rtmb.Params.{BenchmarkTest}
use rtmb.Result.{TestResults}
use rtmb.Double.{Double}
use rtmb.Base.Int.{ltb_ℤ, pos}
use rtmb.Base.{
  [], ◌∷◌, ◌-◌, ◌||◌, take, out_of_bounds, bad_pointer, ◌&&◌, ok, if◌then◌else◌, fault, Run, List,
  Bool, ℕ, ◌>>=◌, false, suc, zero,
}

-- `THREAD_PRIORITY_TEST`
abbrev pub thread_priority_test : ℕ
thread_priority_test = 10

module _ {F : Type 0} ⦃d : Double F⦄ where
  -- The test of the stop times of the high, the medium and the low priority.
  abbrev pub in_order : TestResults F → TestResults F → TestResults F → Bool
  in_order high med low =
      (ltb_ℤ high.maxtime low.mintime && ltb_ℤ high.maxtime med.mintime)
      || ltb_ℤ med.maxtime low.mintime

  -- The end of `thread_priority`, behind the joins of its threads.
  unfoldable pub finish_priority :
      ResultTable F
      → BenchmarkTest F
      → TestResults F
      → TestResults F
      → TestResults F
      → TestResults F
      → Run (ResultTable F)
  finish_priority table test high med low consolidated =
      if in_order high med low
      then add_result_to_result_table2 table consolidated thread_priority_test test
      else add_result_to_result_table5 table (create_test_score3 consolidated ∷ [])
          thread_priority_test test false

  -- The loop over all threads but the last: the product of the roots of the medians and their sum.
  unfoldable pub median_rounds : ℕ → ℕ → List (TestResults F) → F → F → Run (F × F)
  median_rounds zero cpus rs product sum = ok (product, sum)
  median_rounds (suc n) cpus [] product sum = fault out_of_bounds
  median_rounds (suc n) cpus (r ∷ rs) product sum =
      let median = d.of_int r.mediantime in
      median_rounds n cpus rs
        (d.mul product (d.pow median (d.div (d.of_int (pos 1)) (d.of_int (pos cpus)))))
        (d.add sum median)

  -- The first score with another throughput.
  abbrev pub with_throughput : List (TestScore F) → F → Run (List (TestScore F))
  with_throughput [] t = fault bad_pointer
  with_throughput (s ∷ scores) t = ok (record s { throughput_score = t } ∷ scores)

  unfoldable pub get_multi_thread_scores :
      List (TestResults F) → TestResults F → ℕ → ℕ → BenchmarkTest F → Run (List (TestScore F))
  get_multi_thread_scores rs consolidator n cpus test = do
    scores ← generate_combined_score (take n rs) test.reference_score
    ps ← median_rounds (n - 1) cpus rs (d.of_int (pos 1)) (d.of_int (pos 0))
    let parallelism = d.div ps.1 (d.mul (d.of_int (pos cpus)) (d.of_int consolidator.mediantime))
    with_throughput scores (d.div test.reference_score (d.div ps.0 parallelism))
